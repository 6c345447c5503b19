-- ===== src/Heap/FirstFit.antt =====
-- `heap_malloc`: first fit, and what happens when no gap is wide enough.
use guava_os_pro.Prelude.{
  ℕ, suc, ◌+◌, ◌-◌, ◌*◌, ◌/◌, ◌^◌, ◌≤◌, ◌<◌, ◌≡◌, refl, sym, ap, ◌∙◌, Option, none, some, List, [],
  ◌∷◌, ◌++◌, arith, ◌>>=◌, ◌%◌, length,
}
use guava_os_pro.Heap.{
  Heap, with_entries, block_size, align_value_to_upper, start_block_loop, get_start_block,
  block_to_address, mark_taken_loop, mark_blocks_taken, malloc_blocks, malloc,
}
use guava_os_pro.Heap.Search.{FreeRun, Outcome, full, short, nothing, loop-Outcome, loop-le}
use guava_os_pro.Heap.Regions.{
  Region, used, encode, blocks, length-encode, blocks-append, Gap, FreeRun-Gap, Gap-FreeRun,
  used-taken,
}
use guava_os_pro.Prelude.Int.{pos}
use guava_os_pro.Heap.Fill.{
  IsHeap, extra_for, fill, align_value_to_upper_lem, marks, IsHeap-fill, first_entry, blocks-Gap,
}

malloc_blocks_found :
    (h : Heap) (b n : ℕ)
    → start_block_loop h.table.entries n h.table.total 0 0 none ≡ some (some b)
    → malloc_blocks h n
      ≡ (mark_blocks_taken h b n >>= λ h'. some ((h.saddr + b * block_size) % 2 ^ 32, h'))
unfolding malloc_blocks get_start_block block_to_address
malloc_blocks_found h b n r = rw r

malloc_blocks_not_found :
    (h : Heap) (n : ℕ)
    → start_block_loop h.table.entries n h.table.total 0 0 none ≡ some none
    → malloc_blocks h n ≡ some (0, h)
unfolding malloc_blocks get_start_block
malloc_blocks_not_found h n r = rw r

-- What `heap_malloc` does once the search is over.
malloc_found :
    (h : Heap) (size b n : ℕ)
    → align_value_to_upper size / block_size ≡ n
    → start_block_loop h.table.entries n h.table.total 0 0 none ≡ some (some b)
    → malloc h size
      ≡ (mark_blocks_taken h b n >>= λ h'. some ((h.saddr + b * block_size) % 2 ^ 32, h'))
unfolding malloc
malloc_found h size b n e r = ap (malloc_blocks h) e ∙ malloc_blocks_found h b n r

malloc_not_found :
    (h : Heap) (size n : ℕ)
    → align_value_to_upper size / block_size ≡ n
    → start_block_loop h.table.entries n h.table.total 0 0 none ≡ some none
    → malloc h size ≡ some (0, h)
unfolding malloc
malloc_not_found h size n e r = ap (malloc_blocks h) e ∙ malloc_blocks_not_found h n r

some-some_injective : {a b : ℕ} → some (some a) ≡ some (some b) → a ≡ b
some-some_injective e = cc

-- An allocation of `suc m` blocks: the first gap that is wide enough is filled, and its address
-- returned.
pub record Allocated (h : Heap) (rs : List Region) (size m : ℕ) : Type 0 where
  pub start : ℕ
  pub gap : Gap rs start (suc m)
  pub first : (s : ℕ) → Gap rs s (suc m) → start ≤ s
  pub returns :
      malloc h size ≡ some (h.saddr + start * block_size, with_entries h (encode (fill m gap)))
  pub IsHeap-after : IsHeap (with_entries h (encode (fill m gap))) (fill m gap)

module _ {h : Heap} {rs : List Region} (v : IsHeap h rs) (size m : ℕ)
    (rounds : align_value_to_upper size / block_size ≡ suc m) where
  abbrev found : Option (Option ℕ)
  found = start_block_loop h.table.entries (suc m) h.table.total 0 0 none

  whole : 0 + h.table.total ≡ length h.table.entries
  whole = omega (arith, v.total, ap length v.entries, length-encode rs)

  in_encode : (b k : ℕ) → FreeRun h.table.entries b k → FreeRun (encode rs) b k
  in_encode b k run = rw v.entries at run

  search : Outcome h.table.entries (suc m) found
  search =
      loop-Outcome h.table.entries (suc m) h.table.total 0 0 none (omega arith) whole
        (refl, λ j e. absurd (omega arith))

  stops_before : (s : ℕ) → Gap rs s (suc m) → (b : ℕ) × (found ≡ some (some b)) × (b ≤ s)
  stops_before s g =
      loop-le h.table.entries (suc m) h.table.total 0 0 s none (omega arith) whole
        (refl, λ j e. absurd (omega arith)) (omega arith)
        (omega (arith, blocks-Gap m g, v.total, whole))
        (rw (sym v.entries) at (Gap-FreeRun rs s (suc m) g))

  before_gap : (s b : ℕ) → Gap rs s (suc m) → found ≡ some (some b) → b ≤ s
  before_gap s b g e =
      let (b', e', le) = stops_before s g in
      let same : b ≡ b' = some-some_injective (sym e ∙ e') in omega arith

  allocates :
      (s : ℕ)
      → Gap rs s (suc m)
      → (r : Option (Option ℕ)) → found ≡ r
      → Outcome h.table.entries (suc m) r
      → Allocated h rs size m
  allocates s g _ e (full b fits run) =
      let gap = FreeRun-Gap rs b (suc m) (omega arith) (in_encode b (suc m) run) in
      record {
        start = b;
        gap = gap;
        first = λ s' g'. before_gap s' b g' e;
        returns =
            malloc_found h size b (suc m) rounds e
            ∙ rw (marks m gap h v.entries) (
                ap (λ a. some (a, with_entries h (encode (fill m gap))))
                  (omega (arith, v.no_wrap, v.total, whole)));
        IsHeap-after = IsHeap-fill m gap v;
      }
  allocates s g _ e (short b in_table over run) =
      absurd (omega (arith, before_gap s b g e, blocks-Gap m g, v.total, whole))
  allocates s g _ e (nothing taken) = absurd (let (b, e', _) = stops_before s g in cc (e, e'))

-- `heap_malloc` is first fit. If `size` bytes, a number above 0 and not above the last block
-- boundary of the address space, have a gap of free blocks, it returns the address of the first gap
-- that is wide enough, marks that gap as one allocation and changes nothing else; the heap stays
-- well formed.
pub malloc_first_fit :
    {h : Heap} {rs : List Region}
    → IsHeap h rs
    → (size : ℕ) → 0 < size
    → size ≤ 2 ^ 32 - block_size
    → (s : ℕ) → Gap rs s (suc (extra_for size))
    → Allocated h rs size (extra_for size)
malloc_first_fit v size some_bytes in_range s g =
    let rounds = align_value_to_upper_lem size some_bytes in_range in
    allocates v size (extra_for size) rounds s g _ refl (search v size (extra_for size) rounds)

-- `heap_get_start_block` gives the start of a run of free blocks that is shorter than `suc m` and
-- reaches the end of the table; marking it gets to the end, where `heap_malloc` faults.
pub record Overrun (h : Heap) (size m : ℕ) : Type 0 where
  pub start : ℕ
  pub found_start : get_start_block h (suc m) ≡ some (pos start)
  pub in_table : start < length h.table.entries
  pub free_to_end : FreeRun h.table.entries start (length h.table.entries - start)
  pub short_of : length h.table.entries < start + suc m
  pub marked : List ℕ
  pub marks_to_end :
      mark_taken_loop
        (start + suc m - 1)
        (length h.table.entries - start)
        start
        (first_entry m)
        h.table.entries
      ≡ some marked
  pub faults : malloc h size ≡ none

module _ {h : Heap} {rs : List Region} (v : IsHeap h rs) (size m : ℕ)
    (rounds : align_value_to_upper size / block_size ≡ suc m)
    (no_gap : (s : ℕ) → ¬ Gap rs s (suc m)) where
  in_whole : 0 + h.table.total ≡ length h.table.entries
  in_whole = whole v size m rounds

  exhausts :
      (init : List Region) (k : ℕ)
      → rs ≡ init ++ used k ∷ []
      → (r : Option (Option ℕ)) → found v size m rounds ≡ r
      → Outcome h.table.entries (suc m) r
      → malloc h size ≡ some (0, h)
  exhausts init k last _ e (full b fits run) =
      absurd (
        no_gap b (FreeRun-Gap rs b (suc m) (omega arith) (in_encode v size m rounds b (suc m) run)))
  exhausts init k last _ e (short b in_table over run) =
      let end : blocks init + k ≡ length h.table.entries - 1 =
        omega (arith, ap blocks last, blocks-append init (used k ∷ []), v.total, in_whole) in
      absurd (
        used-taken init [] k k (omega arith) (
          rw last at (
            rw v.entries at
              (rw (← end) at (run (length h.table.entries - 1) (omega arith) (omega arith))))))
  exhausts init k last _ e (nothing taken) = malloc_not_found h size (suc m) rounds e

module _ {h : Heap} {rs : List Region} (v : IsHeap h rs) (size : ℕ) (some_bytes : 0 < size)
    (in_range : size ≤ 2 ^ 32 - block_size)
    (no_gap : (s : ℕ) → ¬ Gap rs s (suc (extra_for size))) where
  -- Where no gap is wide enough and the heap's last block is allocated, `heap_malloc` returns the
  -- null pointer and leaves the heap as it was.
  pub malloc_exhausted :
      (init : List Region) (k : ℕ) → rs ≡ init ++ used k ∷ [] → malloc h size ≡ some (0, h)
  malloc_exhausted init k last =
      let rounds = align_value_to_upper_lem size some_bytes in_range in
      exhausts v size (extra_for size) rounds no_gap init k last _ refl
        (search v size (extra_for size) rounds)
