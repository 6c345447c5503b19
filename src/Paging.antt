-- ===== src/Paging.antt =====
-- src/memory/paging/paging.c and paging.h. Memory is its aligned 32-bit words, by byte address; a
-- page directory is the address of its first entry.
pub mod Slots
pub mod Mapping
pub mod Range
pub mod Untouched
pub mod Allocator
pub mod Creation
pub mod Filling
pub mod Building
pub mod NewDirectory
pub mod Release
mod CreationTests
mod Tests
use guava_os_pro.Prelude.{
  ℕ, zero, suc, ◌+◌, ◌-◌, ◌*◌, ◌/◌, ◌%◌, ◌^◌, bit_and, bit_or, Bool, ◌||◌, not, ltb, ◌==◌,
  if◌then◌else◌,
}
use guava_os_pro.Prelude.Int.{ℤ, pos, negsuc, is_neg}
use guava_os_pro.Status.{einvarg}

abbrev pub Words : Type 0
Words = ℕ → ℕ

abbrev pub store : Words → ℕ → ℕ → Words
store m p v a = if a == p then v else m a

-- PAGING_TOTAL_ENTRIES_PER_TABLE and PAGING_PAGE_SIZE
abbrev pub entries_per_table : ℕ
entries_per_table = 1024

abbrev pub page_size : ℕ
page_size = 4096

unfoldable pub is_aligned : ℕ → Bool
is_aligned address = address % page_size == 0

-- The status, and what the two out parameters hold: they keep their values on an error.
unfoldable pub get_indexes : ℕ → ℕ → ℕ → ℤ × ℕ × ℕ
unfolding is_aligned
get_indexes virtual_address directory_index table_index =
    if not (is_aligned virtual_address) then (einvarg, directory_index, table_index) else (
      pos 0,
      virtual_address / (entries_per_table * page_size),
      virtual_address % (entries_per_table * page_size) / page_size,
    )

-- `(uint32_t*)(directory[i] & 0xfffff000)`
unfoldable pub table_at : Words → ℕ → ℕ → ℕ
table_at m directory i = bit_and (m (directory + 4 * i)) 0xfffff000

unfoldable pub set : ℕ → ℕ → ℕ → Words → ℤ × Words
unfolding is_aligned
set directory virt val m =
    if not (is_aligned virt)
    then (einvarg, m)
    else (let (res, directory_index, table_index) = get_indexes virt 0 0 in
        if is_neg res
        then (res, m)
        else (res, store m (table_at m directory directory_index + 4 * table_index) val))

unfoldable pub map : ℕ → ℕ → ℕ → ℕ → Words → ℤ × Words
map directory virt phys flags m =
    if not (virt % page_size == 0) || not (phys % page_size == 0)
    then (einvarg, m)
    else set directory virt (bit_or phys flags) m

unfoldable pub align_address : ℕ → ℕ
align_address ptr =
    if not (ptr % page_size == 0) then (ptr + page_size - ptr % page_size) % 2 ^ 32 else ptr

-- `count` is the number of rounds left, and `res` the status so far.
unfoldable pub map_range_loop : ℕ → ℕ → ℕ → ℕ → ℕ → ℤ → Words → ℤ × Words
map_range_loop directory flags zero virt phys res m = (res, m)
map_range_loop directory flags (suc count) virt phys res m =
    let (res', m') = map directory virt phys flags m in
    let rest =
      map_range_loop directory flags count ((virt + page_size) % 2 ^ 32)
        ((phys + page_size) % 2 ^ 32) res' m' in
    if is_neg res' then (res', m') else rest

unfoldable pub map_range : ℕ → ℕ → ℕ → ℕ → ℕ → Words → ℤ × Words
map_range directory virt phys count flags m =
    map_range_loop directory flags count virt phys (pos 0) m

unfoldable pub map_to : ℕ → ℕ → ℕ → ℕ → ℕ → Words → ℤ × Words
map_to directory virt phys phys_end flags m =
    if not (virt % page_size == 0)
    then (einvarg, m)
    else if not (phys % page_size == 0)
    then (einvarg, m)
    else if not (phys_end % page_size == 0)
    then (einvarg, m)
    else if ltb phys_end phys
    then (einvarg, m)
    else map_range directory virt phys ((phys_end - phys) / page_size) flags m

-- The indexes are 0 where the address is not aligned: the status is not looked at.
unfoldable pub get : ℕ → ℕ → Words → ℕ
get directory virt m =
    let (_, directory_index, table_index) = get_indexes virt 0 0 in
    m (table_at m directory directory_index + 4 * table_index)
