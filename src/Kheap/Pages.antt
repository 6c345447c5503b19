-- ===== src/Kheap/Pages.antt =====
-- The kernel's heap as the allocator of pages that `paging_new_4gb` relies on: a size of up to a
-- block is handed out as one block.
use mathlib.Core.Path.{subst}
use native.Mathlib.Decide.{ℕ_discrete}
use guava_os_pro.Prelude.{
  ℕ, zero, suc, ◌+◌, ◌-◌, ◌*◌, ◌/◌, ◌%◌, ◌≤◌, ◌<◌, ◌≡◌, ◌≢◌, refl, sym, ap, ◌∙◌, arith, Bool, true,
  false, ◌&&◌, List, [], ◌∷◌, ◌++◌, leb, ◌==◌, if◌then◌else◌, length, get_or, replicate, ==_refl,
  ne→==_false,
}
use guava_os_pro.Heap.{Heap, with_entries, block_size, malloc, free}
use guava_os_pro.Heap.Regions.{
  Region, unused, used, followers, run_entries, encode, blocks, Gap, encode-Gap, encode-append,
  length-encode,
}
use guava_os_pro.Heap.Fill.{IsHeap, blocks-Gap, extra_for, fill}
use guava_os_pro.Heap.FirstFit.{Allocated, malloc_first_fit}
use guava_os_pro.Heap.Release.{released, free_lem}
use guava_os_pro.Paging.Allocator.{Allocator, IsAllocator, Taken, Released}

-- The number of free blocks.
abbrev pub zeros : List ℕ → ℕ
zeros [] = 0
zeros (e ∷ es) = (if e == 0 then 1 else 0) + zeros es

zeros-append : (xs ys : List ℕ) → zeros (xs ++ ys) ≡ zeros xs + zeros ys
zeros-append [] ys = omega arith
zeros-append (x ∷ xs) ys = omega (arith, zeros-append xs ys)

pub zeros-replicate : (n : ℕ) → zeros (replicate n 0) ≡ n
zeros-replicate zero = refl
zeros-replicate (suc n) = omega (arith, zeros-replicate n)

zeros-followers : (k : ℕ) → zeros (followers k) ≡ 0
zeros-followers zero = refl
zeros-followers (suc zero) = refl
zeros-followers (suc (suc k)) = omega (arith, zeros-followers (suc k))

zeros-run_entries : (k : ℕ) → zeros (run_entries k) ≡ 0
zeros-run_entries zero = refl
zeros-run_entries (suc k) = omega (arith, zeros-followers (suc k))

-- Where a block is free there is a gap.
zeros-Gap : (rs : List Region) → 0 < zeros (encode rs) → (s : ℕ) × Gap rs s 1
zeros-Gap [] h = absurd (omega arith)
zeros-Gap (unused ∷ rs) h = (0, record { before = []; after = rs; splits = refl; starts = refl })
zeros-Gap (used k ∷ rs) h =
    let (s, g) =
      zeros-Gap rs (omega (arith, zeros-append (run_entries k) (encode rs), zeros-run_entries k)) in
    (
      suc k + s,
      record {
        before = used k ∷ g.before;
        after = g.after;
        splits = ap (◌∷◌ (used k)) g.splits;
        starts = omega (arith, g.starts);
      },
    )

-- The entry of an allocation of one block.
abbrev pub single : ℕ
single = 0x41

-- Behind the entries of an allocation an index counts from its end.
module _ (es : List ℕ) where
  followers-single :
      (n j : ℕ)
      → get_or (followers n ++ es) j 0 ≡ single
      → (i : ℕ) × (j ≡ n + i) × (get_or es i 0 ≡ single)
  followers-single zero j h = (j, omega arith, h)
  followers-single (suc zero) zero h = absurd (omega arith)
  followers-single (suc zero) (suc j) h = (j, omega arith, h)
  followers-single (suc (suc n)) zero h = absurd (omega arith)
  followers-single (suc (suc n)) (suc j) h =
      let (i, e, h') = followers-single (suc n) j h in (i, omega arith, h')

-- The entry of a one-block allocation stands only where there is one.
single-used :
    (rs : List Region) (b : ℕ)
    → get_or (encode rs) b 0 ≡ single
    → (before : List Region) × (after : List Region) × (rs ≡ before ++ used 0 ∷ after)
      × (blocks before ≡ b)
single-used [] b h = absurd (omega arith)
single-used (unused ∷ rs) zero h = absurd (omega arith)
single-used (unused ∷ rs) (suc b) h =
    let (before, after, e, k) = single-used rs b h in
    (unused ∷ before, after, ap (◌∷◌ unused) e, ap suc k)
single-used (used zero ∷ rs) zero h = ([], rs, refl, refl)
single-used (used zero ∷ rs) (suc b) h =
    let (before, after, e, k) = single-used rs b h in
    (used 0 ∷ before, after, ap (◌∷◌ (used 0)) e, omega arith)
single-used (used (suc n) ∷ rs) zero h = absurd (omega arith)
single-used (used (suc n) ∷ rs) (suc b) h =
    let (i, at, h') = followers-single (encode rs) (suc n) b h in
    let (before, after, e, k) = single-used rs i h' in
    (used (suc n) ∷ before, after, ap (◌∷◌ (used (suc n))) e, omega arith)

-- Two tables that differ in one entry.
changed : (A B : List ℕ) (x : ℕ) → get_or (A ++ x ∷ B) (length A) 0 ≡ x
changed [] B x = refl
changed (a ∷ A) B x = changed A B x

unchanged :
    (A B : List ℕ) (x y i : ℕ) → i ≢ length A → get_or (A ++ x ∷ B) i 0 ≡ get_or (A ++ y ∷ B) i 0
unchanged [] B x y zero h = absurd (h refl)
unchanged [] B x y (suc i) h = refl
unchanged (a ∷ A) B x y zero h = refl
unchanged (a ∷ A) B x y (suc i) h = unchanged A B x y i (λ e. h (ap suc e))

-- The heap as an allocator of pages.
abbrev pub heap_allocator : Allocator Heap
heap_allocator = record { malloc = malloc; free = free }

-- A page is held if an allocation of one block stands there.
abbrev pub held : Heap → ℕ → Bool
held h p =
    leb h.saddr p
    && ((p - h.saddr) % block_size == 0
        && get_or h.table.entries ((p - h.saddr) / block_size) 0 == single)

abbrev pub room : Heap → ℕ
room h = zeros h.table.entries

abbrev pub Valid : Heap → Type 0
Valid h = (rs : List Region) × IsHeap h rs × (h.saddr % block_size ≡ 0)

held-block :
    (h : Heap) (p : ℕ)
    → held h p ≡ true
    → (b : ℕ) × (p ≡ h.saddr + b * block_size) × (get_or h.table.entries b 0 ≡ single)
held-block h p k = ((p - h.saddr) / block_size, ground arith, ground arith)

and_cong : (a b c d : Bool) → (a ≡ true → b ≡ true → c ≡ d) → (a && (b && c)) ≡ (a && (b && d))
and_cong false b c d h = refl
and_cong true false c d h = refl
and_cong true true c d h = h refl refl

-- An entry says whether its page is held.
held-here :
    (h : Heap) (A B : List ℕ) (x p : ℕ)
    → h.table.entries ≡ A ++ x ∷ B
    → p ≡ h.saddr + length A * block_size
    → held h p ≡ (x == single)
held-here h A B x p e at =
    let above : leb h.saddr p ≡ true = ground arith in
    let whole : ((p - h.saddr) % block_size == 0) ≡ true = ground arith in
    let index : (p - h.saddr) / block_size ≡ length A = omega arith in
    rw (above, whole, index, e, changed A B x)

-- A heap with one entry changed holds what it held but for the page of that entry.
pub held-changed :
    (h : Heap) (es A B : List ℕ) (x y p q : ℕ)
    → h.table.entries ≡ A ++ x ∷ B
    → es ≡ A ++ y ∷ B
    → p ≡ h.saddr + length A * block_size
    → held (with_entries h es) q ≡ (if q == p then y == single else held h q)
held-changed h es A B x y p q e e' at = elim (ℕ_discrete q p) [
  | yes here ↦ rw (here, ==_refl p) (held-here (with_entries h es) A B y p e' at)
  | no there ↦ rw (ne→==_false q p there) (
      and_cong (leb h.saddr q) ((q - h.saddr) % block_size == 0) _ _ (λ k l.
        ap (λ z. z == single)
          (ap (λ es'. get_or es' ((q - h.saddr) / block_size) 0) e'
            ∙ unchanged A B y x ((q - h.saddr) / block_size) (λ z. there (ground arith))
            ∙ ap (λ es'. get_or es' ((q - h.saddr) / block_size) 0) (sym e))))
]

module _ {h : Heap} {rs : List Region} {size : ℕ} (allocated : Allocated h rs size 0) where
  abbrev start : ℕ
  start = allocated.start

  abbrev gap : Gap rs start 1
  gap = allocated.gap

  entries_before : IsHeap h rs → h.table.entries ≡ encode gap.before ++ 0 ∷ encode gap.after
  entries_before v = v.entries ∙ encode-Gap gap

  entries_after : encode (fill 0 gap) ≡ encode gap.before ++ single ∷ encode gap.after
  entries_after = encode-append gap.before (used 0 ∷ gap.after)

  index : length (encode gap.before) ≡ start
  index = length-encode gap.before ∙ gap.starts

  taken : IsHeap h rs → h.saddr % block_size ≡ 0 → Taken heap_allocator Valid held room h size
  taken v saddr_aligned = record {
    ptr = h.saddr + start * block_size;
    after = with_entries h (encode (fill 0 gap));
    returns = allocated.returns;
    aligned = omega (arith, saddr_aligned);
    not_null = omega (arith, v.not_null);
    in_space = omega (arith, v.no_wrap, blocks-Gap 0 gap);
    fresh = held-here h _ _ 0 _ (entries_before v) (omega (arith, index));
    held_after = λ q.
        held-changed h _ _ _ 0 single _ q (entries_before v) entries_after (omega (arith, index));
    Valid-after = (fill 0 gap, allocated.IsHeap-after, saddr_aligned);
    room_after = omega (
      arith,
      ap zeros (entries_before v),
      ap zeros entries_after,
      zeros-append (encode gap.before) (0 ∷ encode gap.after),
      zeros-append (encode gap.before) (single ∷ encode gap.after),
    );
  }

pub heap-malloc :
    (h : Heap) (size : ℕ)
    → Valid h
    → 0 < room h
    → 0 < size
    → size ≤ block_size
    → Taken heap_allocator Valid held room h size
heap-malloc h size (rs, v, saddr_aligned) free_block some_bytes small =
    let e : extra_for size ≡ 0 = omega arith in
    let (s, g) = zeros-Gap rs (omega (arith, ap zeros v.entries)) in
    taken
      (subst (λ m. Allocated h rs size m) e
        (malloc_first_fit v size some_bytes (omega arith) s
          (subst (λ m. Gap rs s (suc m)) (sym e) g)))
      v saddr_aligned

pub heap-free :
    (h : Heap) (p : ℕ) → Valid h → held h p ≡ true → Released heap_allocator Valid held h p
heap-free h p (rs, v, saddr_aligned) k =
    let (b, at, e) = held-block h p k in
    let (before, after, splits, starts) =
      single-used rs b (ap (λ es. get_or es b 0) (sym v.entries) ∙ e) in
    let (run, v') = free_lem before after 0 (subst (IsHeap h) splits v) in
    record {
      after = with_entries h (encode (released before after 0));
      returns = ap (free h) (omega arith) ∙ run;
      held_after = λ q.
          held-changed h _ (encode before) (encode after) single 0 p q
            (v.entries ∙ ap encode splits ∙ encode-append before (used 0 ∷ after))
            (encode-append before (unused ∷ after)) (omega (arith, length-encode before));
      Valid-after = (released before after 0, v', saddr_aligned);
    }

pub heap-held-aligned : (h : Heap) (p : ℕ) → Valid h → held h p ≡ true → p % block_size ≡ 0
heap-held-aligned h p (rs, v, saddr_aligned) k =
    let (b, at, e) = held-block h p k in omega (arith, saddr_aligned)

-- The block heap hands out and takes back pages the way that directories need.
abbrev pub heap_laws : IsAllocator heap_allocator
heap_laws = record {
  Valid = Valid;
  held = held;
  room = room;
  held-aligned = heap-held-aligned;
  malloc_lem = heap-malloc;
  free_lem = heap-free;
}
