-- ===== src/Paging/Allocator.antt =====
-- What the pages of a directory need of the kernel's heap: `kmalloc` and `kfree` as an interface,
-- with the laws that `Kheap.Pages` proves of the heap.
use guava_os_pro.Prelude.{
  ℕ, zero, suc, ◌+◌, ◌/◌, ◌%◌, ◌^◌, ◌≤◌, ◌<◌, ◌≡◌, Bool, true, false, Option, some, ◌==◌,
  if◌then◌else◌, ◌>>=◌,
}
use guava_os_pro.Paging.{Words, store, page_size}

pub record Allocator (S : Type 0) : Type 0 where
  pub malloc : S → ℕ → Option (ℕ × S)
  pub free : S → ℕ → Option S

-- One page is handed out: it was not held, and now it is.
pub record Taken {S : Type 0} (a : Allocator S) (Valid : S → Type 0) (held : S → ℕ → Bool)
    (room : S → ℕ) (s : S) (size : ℕ) : Type 0 where
  pub ptr : ℕ
  pub after : S
  pub returns : a.malloc s size ≡ some (ptr, after)
  pub aligned : ptr % page_size ≡ 0
  pub not_null : 0 < ptr
  pub in_space : ptr + page_size ≤ 2 ^ 32
  pub fresh : held s ptr ≡ false
  pub held_after : (q : ℕ) → held after q ≡ (if q == ptr then true else held s q)
  pub Valid-after : Valid after
  pub room_after : room s ≡ suc (room after)

pub record Released {S : Type 0} (a : Allocator S) (Valid : S → Type 0) (held : S → ℕ → Bool)
    (s : S) (ptr : ℕ) : Type 0 where
  pub after : S
  pub returns : a.free s ptr ≡ some after
  pub held_after : (q : ℕ) → held after q ≡ (if q == ptr then false else held s q)
  pub Valid-after : Valid after

-- `held s p` says that the page at `p` is held as one block, `room s` is the number of pages that
-- can still be taken.
pub record IsAllocator {S : Type 0} (a : Allocator S) : Type 1 where
  pub Valid : S → Type 0
  pub held : S → ℕ → Bool
  pub room : S → ℕ
  pub held-aligned : (s : S) (p : ℕ) → Valid s → held s p ≡ true → p % page_size ≡ 0
  pub malloc_lem :
      (s : S) (size : ℕ)
      → Valid s
      → 0 < room s
      → 0 < size
      → size ≤ page_size
      → Taken a Valid held room s size
  pub free_lem : (s : S) (p : ℕ) → Valid s → held s p ≡ true → Released a Valid held s p

-- The heap, and the words of memory.
pub record Space (S : Type 0) : Type 0 where
  pub heap : S
  pub words : Words

-- The loop of `memset` with 0, a word at a time, with `n` words to go.
unfoldable pub clear : Words → ℕ → ℕ → Words
clear m p zero = m
clear m p (suc n) = clear (store m p 0) (p + 4) n

-- `kzalloc` of a size that is a multiple of 4.
unfoldable pub kzalloc : {S : Type 0} → Allocator S → Space S → ℕ → Option (ℕ × Space S)
kzalloc a v size = do
  (ptr, heap) ← a.malloc v.heap size
  some (
    ptr,
    record { heap = heap; words = if ptr == 0 then v.words else clear v.words ptr (size / 4) },
  )
