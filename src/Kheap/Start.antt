-- ===== src/Kheap/Start.antt =====
-- `kheap_init` on the table of the kernel's heap.
use guava_os_pro.Prelude.{ℕ, ◌≡◌, arith, false, some, List, length, replicate, length-replicate}
use guava_os_pro.Heap.{Heap}
use guava_os_pro.Heap.Regions.{unused}
use guava_os_pro.Heap.Create.{create-IsHeap}
use guava_os_pro.Kheap.{Kernel, kheap_init, heap_address}
use guava_os_pro.Kheap.Pages.{Valid, room, zeros-replicate}

-- The heap with all its blocks free.
abbrev pub blank_heap : Heap
blank_heap = record {
  table = record { entries = replicate 25600 0; total = 25600 };
  saddr = heap_address;
}

-- With a table of 25600 bytes, whatever they are, `kheap_init` succeeds.
pub kheap_init_lem :
    (k : Kernel) (entries : List ℕ)
    → length entries ≡ 25600
    → kheap_init k entries ≡ some (false, record k { heap = blank_heap })
unfolding kheap_init
kheap_init_lem k entries size =
    rw
      (create-IsHeap k.heap heap_address 25600 entries (omega arith) (omega arith) (omega arith)
        (omega arith) size).0

pub blank_heap-Valid : Valid blank_heap
blank_heap-Valid = (
  replicate 25600 unused,
  (create-IsHeap blank_heap heap_address 25600 (replicate 25600 0) (omega arith) (omega arith)
      (omega arith) (omega arith) (length-replicate {A = ℕ} 25600 0)).1,
  omega arith,
)

pub room-blank_heap : room blank_heap ≡ 25600
room-blank_heap = zeros-replicate 25600
