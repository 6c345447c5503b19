-- ===== src/Paging/Creation.antt =====
-- `paging_new_4gb` and `paging_free_4gb`. A chunk is the address of a word, the directory's address.
use guava_os_pro.Prelude.{ℕ, zero, suc, ◌+◌, ◌*◌, ◌%◌, ◌^◌, bit_or, Option, some, ◌>>=◌}
use guava_os_pro.Paging.{Words, store, page_size, entries_per_table, table_at}
use guava_os_pro.Paging.Allocator.{Allocator, Space, kzalloc}

-- PAGING_IS_PRESENT, PAGING_ACCESS_FROM_ALL and PAGING_IS_WRITABLE
abbrev pub is_present : ℕ
is_present = 0b00000001

abbrev pub access_from_all : ℕ
access_from_all = 0b00000100

abbrev pub is_writable : ℕ
is_writable = 0b00000010

-- The loop over a table's entries at entry `b` with `left` rounds to go. `offset` is the pattern of
-- an `int`, which wraps.
unfoldable pub fill_table : ℕ → ℕ → ℕ → ℕ → ℕ → Words → Words
fill_table entry offset flags zero b m = m
fill_table entry offset flags (suc left) b m =
    fill_table entry offset flags left (b + 1)
      (store m (entry + 4 * b) (bit_or ((offset + b * page_size) % 2 ^ 32) flags))

module _ {S : Type 0} (a : Allocator S) where
  -- The loop over the tables at table `i` with `left` rounds to go. No null pointer is tested for.
  unfoldable pub build_tables : ℕ → ℕ → ℕ → ℕ → ℕ → Space S → Option (Space S)
  build_tables directory flags zero i offset v = some v
  build_tables directory flags (suc left) i offset v = do
    (entry, v') ← kzalloc a v (4 * entries_per_table)
    let words = fill_table entry offset flags entries_per_table 0 v'.words
    build_tables directory flags left (i + 1) ((offset + entries_per_table * page_size) % 2 ^ 32)
        (record v' {
          words = store words (directory + 4 * i) (bit_or (bit_or entry flags) is_writable);
        })

  unfoldable pub new_4gb : ℕ → Space S → Option (ℕ × Space S)
  new_4gb flags v = do
    (directory, v1) ← kzalloc a v (4 * entries_per_table)
    v2 ← build_tables directory flags entries_per_table 0 0 v1
    (chunk, v3) ← kzalloc a v2 4
    some (chunk, record v3 { words = store v3.words chunk directory })

  -- The loop of the release at table `i` with `left` rounds to go.
  unfoldable pub free_tables : Words → ℕ → ℕ → ℕ → S → Option S
  free_tables m directory zero i s = some s
  free_tables m directory (suc left) i s = do
    s' ← a.free s (table_at m directory i)
    free_tables m directory left (i + 1) s'

  unfoldable pub free_4gb : ℕ → Space S → Option (Space S)
  free_4gb chunk v = do
    let directory = v.words chunk
    s1 ← free_tables v.words directory 1024 0 v.heap
    s2 ← a.free s1 directory
    s3 ← a.free s2 chunk
    some (record v { heap = s3 })

-- The directory that the processor was given last, by `paging_load_directory`, and the static
-- variable `current_directory`.
pub record Mmu : Type 0 where
  pub loaded : ℕ
  pub current_directory : ℕ

unfoldable pub switch : Words → ℕ → Mmu
switch m chunk = record { loaded = m chunk; current_directory = m chunk }

unfoldable pub get_directory : Words → ℕ → ℕ
get_directory m chunk = m chunk
