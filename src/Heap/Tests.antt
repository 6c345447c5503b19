-- ===== src/Heap/Tests.antt =====
-- The functions of heap.c on small heaps.
use guava_os_pro.Prelude.{◌+◌, ◌*◌, ◌≡◌, refl, some, List, [], ◌∷◌, arith, ◌>>=◌}
use guava_os_pro.Heap.{Heap, with_entries, block_size, create, malloc, free}
use guava_os_pro.Heap.Regions.{Region, unused, used, Gap, encode}
use guava_os_pro.Heap.Fill.{IsHeap, blocks-Gap}
use guava_os_pro.Heap.FirstFit.{Allocated, malloc_first_fit, malloc_exhausted}
use guava_os_pro.Heap.Release.{released, free_lem, free-malloc}
use guava_os_pro.Status.{einvarg}

-- One block, a gap of two, and an allocation of two.
abbrev regions : List Region
regions = used 0 ∷ unused ∷ unused ∷ used 1 ∷ []

abbrev small : Heap
small = record {
  table = record { entries = 0x41 ∷ 0 ∷ 0 ∷ 0xc1 ∷ 0x01 ∷ []; total = 5 };
  saddr = 0x1000000;
}

small-IsHeap : IsHeap small regions
small-IsHeap = record {
  entries = refl;
  total = refl;
  not_null = omega arith;
  no_wrap = omega arith;
  small = omega arith;
}

abbrev gap : Gap regions 1 2
gap = record { before = used 0 ∷ []; after = used 1 ∷ []; splits = refl; starts = refl }

malloc_first_fit_example : Allocated small regions 5000 1
malloc_first_fit_example = malloc_first_fit small-IsHeap 5000 (omega arith) (omega arith) 1 gap

free_lem_example :
    (free small (small.saddr + 3 * block_size)
      ≡ some (with_entries small (encode (released (used 0 ∷ unused ∷ unused ∷ []) [] 1))))
    × IsHeap
        (with_entries small (encode (released (used 0 ∷ unused ∷ unused ∷ []) [] 1)))
        (released (used 0 ∷ unused ∷ unused ∷ []) [] 1)
free_lem_example = free_lem (used 0 ∷ unused ∷ unused ∷ []) [] 1 small-IsHeap

free-malloc_example : (malloc small 5000 >>= λ (ptr, h'). free h' ptr) ≡ some small
free-malloc_example = free-malloc small-IsHeap 5000 (omega arith) (omega arith) 1 gap

-- Two blocks, the first of them free.
abbrev ends_taken : Heap
ends_taken = record { table = record { entries = 0 ∷ 0x41 ∷ []; total = 2 }; saddr = 0x1000000 }

ends_taken-IsHeap : IsHeap ends_taken (unused ∷ used 0 ∷ [])
ends_taken-IsHeap = record {
  entries = refl;
  total = refl;
  not_null = omega arith;
  no_wrap = omega arith;
  small = omega arith;
}

malloc_exhausted_example : malloc ends_taken 12000 ≡ some (0, ends_taken)
malloc_exhausted_example =
    malloc_exhausted ends_taken-IsHeap 12000 (omega arith) (omega arith)
      (λ s g. omega (arith, blocks-Gap 2 g)) (unused ∷ []) 0 refl

-- Two blocks, the last of them free.
abbrev ends_free : Heap
ends_free = record { table = record { entries = 0x41 ∷ 0 ∷ []; total = 2 }; saddr = 0x1000000 }

-- An end that is one byte off.
unaligned_end :
    create small 0x1000000 0x1003001 (record { entries = 0 ∷ []; total = 1 })
    ≡ some (einvarg, small)
unfolding create
unaligned_end = refl
