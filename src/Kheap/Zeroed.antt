-- ===== src/Kheap/Zeroed.antt =====
-- What `kheap_init` sets up, and what `kzalloc` promises.
use guava_os_pro.Prelude.{
  ℕ, suc, ◌+◌, ◌-◌, ◌*◌, ◌/◌, ◌≤◌, ◌<◌, ◌^◌, ◌≡◌, ◌⊎◌, refl, ◌∙◌, some, false, List, arith, length,
  replicate, ◌==◌, ne→==_false,
}
use guava_os_pro.Prelude.Int.{pos}
use guava_os_pro.Memory.Flat.{fill, fill-inside, fill-outside}
use guava_os_pro.Heap.{create, Heap, block_size, with_entries, malloc}
use guava_os_pro.Heap.Regions.{Region, unused, encode, Gap}
use guava_os_pro.Heap.Fill.{IsHeap, extra_for, fill as fill_gap}
use guava_os_pro.Heap.FirstFit.{malloc_first_fit}
use guava_os_pro.Heap.Create.{create-IsHeap}
use guava_os_pro.Kheap.{Kernel, heap_address, heap_size_bytes, kheap_init, kmalloc, kzalloc}

-- The heap of `n` free blocks that lie at GUAVAOS_HEAP_ADDRESS.
abbrev fresh_heap : ℕ → Heap
fresh_heap n = record {
  table = record { entries = replicate n 0; total = n };
  saddr = heap_address;
}

created :
    (old : Heap) (n : ℕ) (es : List ℕ)
    → length es ≡ n
    → n ≡ 25600
    → (create old heap_address
          (heap_address + heap_size_bytes)
          (record { entries = es; total = heap_size_bytes / block_size })
        ≡ some (pos 0, fresh_heap n))
      × IsHeap (fresh_heap n) (replicate n unused)
created old n es size e =
    let end : heap_address + heap_size_bytes ≡ heap_address + n * block_size = omega arith in
    let total : heap_size_bytes / block_size ≡ n = omega arith in
    let (c, v) =
      create-IsHeap old heap_address n es (omega arith) (omega arith) (omega arith) (omega arith)
        size in
    ((λ i. create old heap_address (end i) (record { entries = es; total = total i })) ∙ c, v)

-- With 25600 bytes at the table's address, `kheap_init` prints no message and makes a heap at
-- 0x01000000 with one free block for each of them.
pub kheap_init-IsHeap :
    (k : Kernel) (es : List ℕ)
    → length es ≡ 25600
    → (h : Heap) × (kheap_init k es ≡ some (false, record k { heap = h }))
      × (h.saddr ≡ heap_address)
      × IsHeap h (replicate (length es) unused)
unfolding kheap_init
kheap_init-IsHeap k es e =
    let (c, v) = created k.heap (length es) es refl e in (fresh_heap (length es), rw c, refl, v)

-- A block of memory for `size` bytes: its bytes are zero, and no other byte has changed.
pub record Zeroed (k : Kernel) (size ptr : ℕ) (k' : Kernel) : Type 0 where
  pub not_null : 0 < ptr
  pub inside : (a : ℕ) → ptr ≤ a → a < ptr + size → k'.memory a ≡ 0
  pub outside : (a : ℕ) → (a < ptr) ⊎ (ptr + size ≤ a) → k'.memory a ≡ k.memory a

-- `kzalloc` of a size above 0, and not above the last block boundary, that has a gap of free blocks
-- returns zeroed memory, and its heap is that of `heap_malloc`.
pub kzalloc-Zeroed :
    {k : Kernel} {rs : List Region}
    → IsHeap k.heap rs
    → (size : ℕ) → 0 < size
    → size ≤ 2 ^ 32 - block_size
    → (s : ℕ) → Gap rs s (suc (extra_for size))
    → (ptr : ℕ) × (k' : Kernel) × (kzalloc k size ≡ some (ptr, k'))
      × (malloc k.heap size ≡ some (ptr, k'.heap))
      × Zeroed k size ptr k'
unfolding kzalloc kmalloc
kzalloc-Zeroed {k} {rs} v size some_bytes in_range s g =
    let a = malloc_first_fit v size some_bytes in_range s g in
    let ptr = k.heap.saddr + a.start * block_size in
    let nonzero : (ptr == 0) ≡ false = ne→==_false ptr 0 (omega (arith, v.not_null)) in
    (
      ptr,
      record {
        heap = with_entries k.heap (encode (fill_gap (extra_for size) a.gap));
        memory = fill k.memory ptr 0 size;
      },
      rw (a.returns, nonzero),
      a.returns,
      record {
        not_null = omega (arith, v.not_null);
        inside = λ b p q. fill-inside k.memory ptr 0 size b p q;
        outside = λ b p. fill-outside k.memory ptr 0 size b p;
      },
    )
