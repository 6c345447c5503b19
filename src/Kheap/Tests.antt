-- ===== src/Kheap/Tests.antt =====
-- The functions of kheap.c on a small heap.
use guava_os_pro.Prelude.{ℕ, ◌≡◌, refl, some, List, [], ◌∷◌, arith, replicate}
use guava_os_pro.Heap.{malloc}
use guava_os_pro.Heap.Regions.{unused, used, Gap}
use guava_os_pro.Heap.Fill.{IsHeap}
use guava_os_pro.Kheap.{Kernel, kzalloc}
use guava_os_pro.Kheap.Zeroed.{Zeroed, kzalloc-Zeroed}

-- Three blocks, the second of them in use, and memory full of sevens.
abbrev kernel : Kernel
kernel = record {
  heap = record { table = record { entries = 0 ∷ 0x41 ∷ 0 ∷ []; total = 3 }; saddr = 0x1000000 };
  memory = λ a. 7;
}

kernel-IsHeap : IsHeap kernel.heap (unused ∷ used 0 ∷ unused ∷ [])
kernel-IsHeap = record {
  entries = refl;
  total = refl;
  not_null = omega arith;
  no_wrap = omega arith;
  small = omega arith;
}

abbrev gap : Gap (unused ∷ used 0 ∷ unused ∷ []) 2 1
gap = record { before = unused ∷ used 0 ∷ []; after = []; splits = refl; starts = refl }

kzalloc-Zeroed_example :
    (ptr : ℕ) × (k' : Kernel) × (kzalloc kernel 100 ≡ some (ptr, k'))
    × (malloc kernel.heap 100 ≡ some (ptr, k'.heap))
    × Zeroed kernel 100 ptr k'
kzalloc-Zeroed_example = kzalloc-Zeroed kernel-IsHeap 100 (omega arith) (omega arith) 2 gap

-- What lay at the table's address.
abbrev old_bytes : List ℕ
old_bytes = replicate 25600 5
