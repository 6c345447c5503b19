-- ===== src/Paging/CreationTests.antt =====
-- A page directory on the kernel's heap as it is when the kernel starts, and its release.
use guava_os_pro.Prelude.{ℕ, ◌≤◌, ◌≡◌, arith, [], length-replicate, some, replicate, ◌>>=◌}
use guava_os_pro.Heap.{Heap}
use guava_os_pro.Heap.Regions.{unused}
use guava_os_pro.Heap.Create.{create-IsHeap}
use guava_os_pro.Kheap.{heap_address}
use guava_os_pro.Kheap.Pages.{Valid, held, room, zeros-replicate, heap_allocator, heap_laws}
use guava_os_pro.Paging.Allocator.{Space}
use guava_os_pro.Paging.Creation.{new_4gb, free_4gb}
use guava_os_pro.Paging.NewDirectory.{Created, new_4gb_lem}
use guava_os_pro.Paging.Release.{free-new}

abbrev blank_heap : Heap
blank_heap = record {
  table = record { entries = replicate 25600 0; total = 25600 };
  saddr = heap_address;
}

blank_heap-Valid : Valid blank_heap
blank_heap-Valid = (
  replicate 25600 unused,
  (create-IsHeap (record { table = record { entries = []; total = 0 }; saddr = 0 }) heap_address
      25600 (replicate 25600 1) (omega arith) (omega arith) (omega arith) (omega arith)
      (length-replicate {A = ℕ} 25600 1)).1,
  omega arith,
)

abbrev boot_space : Space Heap
boot_space = record { heap = blank_heap; words = λ a. 0xdeadbeef }

blank_heap-room : 1026 ≤ room blank_heap
blank_heap-room = omega (arith, zeros-replicate 25600)

-- The kernel's directory, with the flags that `kernel_main` gives.
new_4gb_lem_example :
    (chunk : ℕ) × (v' : Space Heap) × (new_4gb heap_allocator 7 boot_space ≡ some (chunk, v'))
    × Created heap_laws boot_space 7 chunk v'
new_4gb_lem_example =
    new_4gb_lem heap_laws boot_space 7 blank_heap-Valid blank_heap-room (omega arith)

free-new_example :
    (v' : Space Heap) × ((new_4gb heap_allocator 5 boot_space >>= λ (chunk, w).
    free_4gb heap_allocator chunk w)
      ≡ some v')
    × Valid v'.heap
    × ((q : ℕ) → held v'.heap q ≡ held blank_heap q)
free-new_example = free-new heap_laws boot_space 5 blank_heap-Valid blank_heap-room (omega arith)
