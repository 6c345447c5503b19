-- ===== src/Heap/Small.antt =====
-- A heap of two blocks, on which the tests of other parts run.
use guava_os_pro.Prelude.{ℕ, ◌≡◌, refl, some, List, [], ◌∷◌}
use guava_os_pro.Heap.{Heap, malloc}

abbrev pub two_pages : List ℕ → Heap
two_pages entries = record { table = record { entries = entries; total = 2 }; saddr = 0x1000000 }

pub malloc-two_pages :
    malloc (two_pages (0 ∷ 0 ∷ [])) 16 ≡ some (0x1000000, two_pages (0x41 ∷ 0 ∷ []))
unfolding malloc guava_os_pro.Heap.malloc_blocks guava_os_pro.Heap.get_start_block
    guava_os_pro.Heap.start_block_loop guava_os_pro.Heap.entry_type
    guava_os_pro.Heap.align_value_to_upper guava_os_pro.Heap.mark_blocks_taken
    guava_os_pro.Heap.mark_taken_loop guava_os_pro.Heap.block_to_address
malloc-two_pages = refl
