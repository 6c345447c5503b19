-- ===== src/Heap/Fill.antt =====
-- The heap as its regions, and what `heap_mark_blocks_taken` makes of a gap between them.
use guava_os_pro.Prelude.{
  ℕ, zero, suc, ◌+◌, ◌-◌, ◌*◌, ◌/◌, ◌^◌, ◌≤◌, ◌<◌, ◌≡◌, refl, sym, ap, ◌∙◌, Option, some, List, ◌∷◌,
  ◌++◌, arith, ltb, true, ◌>>=◌, replicate,
}
use guava_os_pro.Heap.{
  mark_taken_loop, Heap, with_entries, block_size, align_value_to_upper, mark_blocks_taken,
}
use guava_os_pro.Heap.Regions.{
  Region, unused, used, run_entries, followers, encode, blocks, length-encode, encode-append,
  blocks-append, blocks-replicate, Gap, encode-Gap,
}
use guava_os_pro.Heap.Marks.{Links, mark_taken_loop_lem}

-- The heap holds the regions `rs`, and its blocks have addresses that are not null and do not wrap.
pub record IsHeap (h : Heap) (rs : List Region) : Type 0 where
  pub entries : h.table.entries ≡ encode rs
  pub total : h.table.total ≡ blocks rs
  pub not_null : 0 < h.saddr
  pub no_wrap : h.saddr + blocks rs * block_size < 2 ^ 32
  pub small : blocks rs * block_size < 2 ^ 31

-- Blocks that `size` bytes take behind their first.
abbrev pub extra_for : ℕ → ℕ
extra_for size = (size - 1) / block_size

-- The regions after an allocation in the gap, and the heap that holds them.
abbrev pub fill : {rs : List Region} {s : ℕ} (m : ℕ) → Gap rs s (suc m) → List Region
fill m g = g.before ++ used m ∷ g.after

-- Below the last block boundary of the address space, a size is rounded up to whole blocks.
pub align_value_to_upper_lem :
    (size : ℕ)
    → 0 < size
    → size ≤ 2 ^ 32 - block_size
    → align_value_to_upper size / block_size ≡ suc (extra_for size)
unfolding align_value_to_upper
align_value_to_upper_lem size h k = ground arith

abbrev pub first_entry : ℕ → ℕ
first_entry zero = 0x41
first_entry (suc m) = 0xc1

pub run_entries_lem : (m : ℕ) → run_entries m ≡ first_entry m ∷ followers m
run_entries_lem zero = refl
run_entries_lem (suc m) = refl

pub Links-first_entry : (m : ℕ) → Links (first_entry m) m
Links-first_entry zero = refl
Links-first_entry (suc m) = refl

abbrev pub finish : Heap → Option (List ℕ) → Option Heap
finish h r = r >>= λ es. some (with_entries h es)

pub mark_blocks_taken_lem :
    (h : Heap) (s m : ℕ)
    → mark_blocks_taken h s (suc m)
      ≡ finish h (mark_taken_loop (s + suc m - 1) (suc m) s (first_entry m) h.table.entries)
unfolding mark_blocks_taken
mark_blocks_taken_lem h s zero = refl
mark_blocks_taken_lem h s (suc m) = let big : ltb 1 (suc (suc m)) ≡ true = ground arith in rw big

module _ {rs : List Region} {s : ℕ} (m : ℕ) (g : Gap rs s (suc m)) where
  encode-fill :
      encode (fill m g) ≡ encode g.before ++ first_entry m ∷ (followers m ++ encode g.after)
  encode-fill =
      encode-append g.before (used m ∷ g.after)
      ∙ ap (λ es. encode g.before ++ (es ++ encode g.after)) (run_entries_lem m)

  pub blocks-Gap : blocks rs ≡ s + suc m + blocks g.after
  blocks-Gap =
      ap blocks g.splits
      ∙ omega (
        arith,
        blocks-append g.before (replicate (suc m) unused ++ g.after),
        blocks-append (replicate (suc m) unused) g.after,
        blocks-replicate (suc m),
        g.starts,
      )

  blocks-fill : blocks (fill m g) ≡ blocks rs
  blocks-fill = omega (arith, blocks-Gap, blocks-append g.before (used m ∷ g.after), g.starts)

  -- The entries that `heap_mark_blocks_taken` writes into a gap.
  pub marks :
      (h : Heap)
      → h.table.entries ≡ encode rs
      → mark_blocks_taken h s (suc m) ≡ some (with_entries h (encode (fill m g)))
  marks h e =
      mark_blocks_taken_lem h s m
      ∙ ap (finish h) (
          ap (mark_taken_loop (s + suc m - 1) (suc m) s (first_entry m)) (e ∙ encode-Gap g)
          ∙ mark_taken_loop_lem (s + suc m - 1) m s (first_entry m) (encode g.before)
              (encode g.after) (omega (arith, length-encode g.before, g.starts)) (omega arith)
          ∙ ap some (sym encode-fill))

  pub IsHeap-fill :
      {h : Heap} → IsHeap h rs → IsHeap (with_entries h (encode (fill m g))) (fill m g)
  IsHeap-fill v = record {
    entries = refl;
    total = v.total ∙ sym blocks-fill;
    not_null = v.not_null;
    no_wrap = rw blocks-fill v.no_wrap;
    small = rw blocks-fill v.small;
  }
