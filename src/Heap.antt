-- ===== src/Heap.antt =====
-- src/memory/heap/heap.c and heap.h: the block allocator behind `kmalloc`.
-- `struct heap` and the table that it points to are one record; the table's bytes are a list, and a
-- read or a write outside them is a fault (`none`). A pointer is its 32-bit address.
pub mod Search
pub mod Regions
pub mod Marks
pub mod Fill
pub mod FirstFit
pub mod Release
pub mod Create
pub mod Small
mod Tests
use guava_os_pro.Prelude.{
  ℕ, zero, suc, ◌+◌, ◌-◌, ◌*◌, ◌/◌, ◌%◌, ◌^◌, bit_and, bit_or, Bool, ◌||◌, not, Option, none, some,
  List, ltb, ◌==◌, if◌then◌else◌, get_elem?, set?, ◌>>=◌,
}
use guava_os_pro.Prelude.Int.{ℤ, pos, negsuc, is_neg, signed32}
use guava_os_pro.Memory.{memset}
use guava_os_pro.Status.{einvarg, enomem}

-- HEAP_BLOCK_TABLE_ENTRY_* and HEAP_BLOCK_*
abbrev pub entry_taken : ℕ
entry_taken = 0x01

abbrev pub entry_free : ℕ
entry_free = 0x00

abbrev pub block_has_next : ℕ
block_has_next = 0b10000000

abbrev pub block_is_first : ℕ
block_is_first = 0b01000000

abbrev pub block_size : ℕ
block_size = 4096

-- `if (bs == -1) bs = i`
abbrev pub or_else : Option ℕ → ℕ → ℕ
or_else none i = i
or_else (some b) i = b

pub record Table : Type 0 where
  pub entries : List ℕ
  pub total : ℕ

pub record Heap : Type 0 where
  pub table : Table
  pub saddr : ℕ

abbrev pub with_entries : Heap → List ℕ → Heap
with_entries h es = record h { table = record { entries = es; total = h.table.total } }

-- `(size_t)(end - ptr)` wraps at 32 bits.
pub validate_table : ℕ → ℕ → Table → ℤ
validate_table ptr end table =
    let total_blocks = (end + 2 ^ 32 - ptr) % 2 ^ 32 / block_size in
    if table.total == total_blocks then pos 0 else einvarg

pub validate_alignment : ℕ → Bool
validate_alignment ptr = ptr % block_size == 0

-- Only the pointer's alignment is tested before `*heap` is overwritten; the table is cleared last.
pub create : Heap → ℕ → ℕ → Table → Option (ℤ × Heap)
unfolding validate_alignment validate_table
create heap ptr end table =
    if not (validate_alignment ptr) || not (validate_alignment end)
    then some (einvarg, heap)
    else (let heap' : Heap = record { table = table; saddr = ptr } in
        let res = validate_table ptr end table in
        if is_neg res then some (res, heap') else (do
          entries' ← memset table.entries entry_free table.total
          some (res, with_entries heap' entries')))

-- `uint32_t` arithmetic: a value above the last block boundary wraps to 0.
pub align_value_to_upper : ℕ → ℕ
align_value_to_upper val =
    if val % block_size == 0 then val else (val - val % block_size + block_size) % 2 ^ 32

pub entry_type : ℕ → ℕ
entry_type entry = bit_and entry 0x0f

-- The loop at index `i` with `left` rounds to go; `bs` is `none` for -1.
pub start_block_loop : List ℕ → ℕ → ℕ → ℕ → ℕ → Option ℕ → Option (Option ℕ)
start_block_loop entries total_blocks zero i bc bs = some bs
start_block_loop entries total_blocks (suc left) i bc bs = elim (get_elem? entries i) [
  | none ↦ none
  | some entry ↦
      (let bs' = or_else bs i in
        let reset = start_block_loop entries total_blocks left (i + 1) 0 none in
        let more = start_block_loop entries total_blocks left (i + 1) (bc + 1) (some bs') in
        if not (entry_type entry == entry_free)
        then reset
        else if bc + 1 == total_blocks
        then some (some bs')
        else more)
]

pub get_start_block : Heap → ℕ → Option ℤ
get_start_block heap total_blocks = do
  bs ← start_block_loop heap.table.entries total_blocks heap.table.total 0 0 none
  some (elim bs [ none ↦ enomem | some b ↦ pos b ])

pub block_to_address : Heap → ℕ → ℕ
block_to_address heap block = (heap.saddr + block * block_size) % 2 ^ 32

-- The loop at block `i` with `left` rounds to go, about to write `entry`. The source's test
-- `i != end_block - 1` is written `i + 1 != end_block`.
pub mark_taken_loop : ℕ → ℕ → ℕ → ℕ → List ℕ → Option (List ℕ)
mark_taken_loop end_block zero i entry entries = some entries
mark_taken_loop end_block (suc left) i entry entries = do
  entries' ← set? entries i entry
  mark_taken_loop end_block left (i + 1)
      (if not (i + 1 == end_block) then bit_or entry_taken block_has_next else entry_taken) entries'

pub mark_blocks_taken : Heap → ℕ → ℕ → Option Heap
mark_blocks_taken heap start_block total_blocks =
    let end_block = start_block + total_blocks - 1 in
    let first = bit_or entry_taken block_is_first in
    let entry = if ltb 1 total_blocks then bit_or first block_has_next else first in
    do
      entries' ← mark_taken_loop end_block total_blocks start_block entry heap.table.entries
      some (with_entries heap entries')

-- The address is 0 where no block was found.
pub malloc_blocks : Heap → ℕ → Option (ℕ × Heap)
malloc_blocks heap total_blocks = do
  start_block ← get_start_block heap total_blocks
  elim start_block [
    | negsuc _ ↦ some (0, heap)
    | pos b ↦ (do
      heap' ← mark_blocks_taken heap b total_blocks
      some (block_to_address heap b, heap'))
  ]

-- The loop at block `i` with `left` rounds to go.
pub mark_free_loop : ℕ → ℕ → List ℕ → Option (List ℕ)
mark_free_loop zero i entries = some entries
mark_free_loop (suc left) i entries = do
  entry ← get_elem? entries i
  entries' ← set? entries i entry_free
  let rest = mark_free_loop left (i + 1) entries'
  if bit_and entry block_has_next == 0 then some entries' else rest

-- A negative block is an access before the table.
pub mark_blocks_free : Heap → ℤ → Option Heap
mark_blocks_free heap (negsuc _) = none
mark_blocks_free heap (pos starting_block) = do
  entries' ← mark_free_loop (heap.table.total - starting_block) starting_block heap.table.entries
  some (with_entries heap entries')

-- `(int)(address - saddr) / 4096`, a division that rounds towards 0.
pub address_to_block : Heap → ℕ → ℤ
address_to_block heap address = elim (signed32 ((address + 2 ^ 32 - heap.saddr) % 2 ^ 32)) [
  | pos d ↦ pos (d / block_size)
  | negsuc d ↦ elim (suc d / block_size) [ zero ↦ pos 0 | suc q ↦ negsuc q ]
]

pub malloc : Heap → ℕ → Option (ℕ × Heap)
malloc heap size = malloc_blocks heap (align_value_to_upper size / block_size)

pub free : Heap → ℕ → Option Heap
free heap ptr = mark_blocks_free heap (address_to_block heap ptr)
