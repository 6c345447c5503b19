-- ===== src/Heap/Release.antt =====
-- `heap_free` gives back exactly one allocation, and undoes `heap_malloc`.
use guava_os_pro.Prelude.{
  ℕ, suc, ◌+◌, ◌-◌, ◌*◌, ◌^◌, ◌≤◌, ◌<◌, ◌≡◌, refl, sym, ap, ◌∙◌, some, List, ◌∷◌, ◌++◌, arith,
  replicate, ◌>>=◌,
}
use guava_os_pro.Prelude.Int.{pos}
use guava_os_pro.Heap.{
  Heap, with_entries, block_size, mark_free_loop, mark_blocks_free, address_to_block, malloc, free,
}
use guava_os_pro.Heap.Regions.{
  Region, unused, used, followers, encode, blocks, length-encode, encode-append, blocks-append,
  blocks-replicate, Gap, encode-Gap,
}
use guava_os_pro.Heap.Marks.{mark_free_loop_lem}
use guava_os_pro.Heap.Fill.{
  IsHeap, extra_for, fill, first_entry, run_entries_lem, Links-first_entry, finish,
}
use guava_os_pro.Heap.FirstFit.{malloc_first_fit}

-- The address of a block in the heap leads back to it.
address_to_block_lem :
    (h : Heap) (b : ℕ)
    → h.saddr + b * block_size < 2 ^ 32
    → b * block_size < 2 ^ 31
    → address_to_block h (h.saddr + b * block_size) ≡ pos b
unfolding address_to_block
address_to_block_lem h b k l = ground arith

free-split :
    (h : Heap) (ptr b : ℕ)
    → address_to_block h ptr ≡ pos b
    → free h ptr ≡ finish h (mark_free_loop (h.table.total - b) b h.table.entries)
unfolding free mark_blocks_free
free-split h ptr b e = rw e

module _ (before after : List Region) (k : ℕ) where
  abbrev held : List Region
  held = before ++ used k ∷ after

  abbrev pub released : List Region
  released = before ++ (replicate (suc k) unused ++ after)

  encode-held : encode held ≡ encode before ++ first_entry k ∷ (followers k ++ encode after)
  encode-held =
      encode-append before (used k ∷ after)
      ∙ ap (λ es. encode before ++ (es ++ encode after)) (run_entries_lem k)

  encode-released : encode released ≡ encode before ++ (replicate (suc k) 0 ++ encode after)
  encode-released =
      encode-Gap {rs = released} {s = blocks before} {n = suc k}
        (record { before = before; after = after; splits = refl; starts = refl })

  blocks-held : blocks held ≡ blocks before + suc k + blocks after
  blocks-held = omega (arith, blocks-append before (used k ∷ after))

  blocks-released : blocks released ≡ blocks held
  blocks-released = omega (
    arith,
    blocks-held,
    blocks-append before (replicate (suc k) unused ++ after),
    blocks-append (replicate (suc k) unused) after,
    blocks-replicate (suc k),
  )

-- `heap_free` at the address of an allocation turns its blocks, all of them and no others, into
-- free blocks, and the heap stays well formed.
pub free_lem :
    {h : Heap} (before after : List Region) (k : ℕ)
    → IsHeap h (before ++ used k ∷ after)
    → (free h (h.saddr + blocks before * block_size)
        ≡ some (with_entries h (encode (released before after k))))
      × IsHeap (with_entries h (encode (released before after k))) (released before after k)
free_lem {h} before after k v = (
  free-split h _ (blocks before) (
        address_to_block_lem h (blocks before) (omega (arith, size, v.no_wrap))
          (omega (arith, size, v.small)))
      ∙ ap (finish h) (
          ap (mark_free_loop (h.table.total - blocks before) (blocks before))
            (v.entries ∙ encode-held before after k)
          ∙ mark_free_loop_lem (h.table.total - blocks before) k (blocks before) (first_entry k)
              (encode before) (encode after) (sym (length-encode before)) (Links-first_entry k)
              (omega (arith, v.total, size))
          ∙ ap some (sym (encode-released before after k))),
  record {
    entries = refl;
    total = v.total ∙ sym (blocks-released before after k);
    not_null = v.not_null;
    no_wrap = rw (blocks-released before after k) v.no_wrap;
    small = rw (blocks-released before after k) v.small;
  },
)
  where
    size : blocks (before ++ used k ∷ after) ≡ blocks before + suc k + blocks after
    size = blocks-held before after k

-- Freeing what `heap_malloc` has returned for a size that has a gap gives back the heap from
-- before the allocation, its table entry by entry.
pub free-malloc :
    {h : Heap} {rs : List Region}
    → IsHeap h rs
    → (size : ℕ) → 0 < size
    → size ≤ 2 ^ 32 - block_size
    → (s : ℕ) → Gap rs s (suc (extra_for size))
    → (malloc h size >>= λ (ptr, h'). free h' ptr) ≡ some h
free-malloc {h} {rs} v size some_bytes in_range s g =
    let a = malloc_first_fit v size some_bytes in_range s g in
    let h' = with_entries h (encode (fill (extra_for size) a.gap)) in
    ap (λ r. r >>= λ (ptr, h'). free h' ptr) a.returns
    ∙ ap (λ b. free h' (h.saddr + b * block_size)) (sym a.gap.starts)
    ∙ (free_lem a.gap.before a.gap.after (extra_for size) a.IsHeap-after).0
    ∙ ap (λ es. some (with_entries h es)) (ap encode (sym a.gap.splits) ∙ sym v.entries)
