-- ===== src/Paging/Range.antt =====
-- Ranges of pages: `paging_map_range` and `paging_map_to`.
use native.Mathlib.Decide.{ℕ_discrete, dec_lt}
use guava_os_pro.Prelude.{
  ℕ, zero, suc, ◌+◌, ◌-◌, ◌*◌, ◌/◌, ◌%◌, ◌^◌, ◌≤◌, ◌<◌, ◌≡◌, ◌≢◌, ◌⊎◌, inl, inr, refl, ap, ◌∙◌,
  arith, bit_or, ◌==◌, if◌then◌else◌, ne→==_false, ==_refl,
}
use guava_os_pro.Prelude.Int.{pos}
use guava_os_pro.Paging.{Words, store, page_size, map_range_loop, map_range, map_to, get}
use guava_os_pro.Paging.Slots.{IsDirectory, slot, IsDirectory-store}
use guava_os_pro.Paging.Mapping.{map_lem, get-store}
use guava_os_pro.Status.{einvarg}

-- `n` pages from `virt` on lead to those from `phys` on, with `flags`, and no other page has changed.
pub record Mapped (m : Words) (directory virt phys n flags : ℕ) (m' : Words) : Type 0 where
  pub well_formed : IsDirectory m' directory
  pub inside :
      (w : ℕ)
      → w < 2 ^ 32
      → w % page_size ≡ 0
      → virt ≤ w
      → w < virt + n * page_size
      → get directory w m' ≡ bit_or (phys + (w - virt)) flags
  pub outside :
      (w : ℕ)
      → w < 2 ^ 32
      → w % page_size ≡ 0
      → (w < virt) ⊎ (virt + n * page_size ≤ w)
      → get directory w m' ≡ get directory w m

Mapped-zero :
    {m : Words} {directory : ℕ} (virt phys flags : ℕ)
    → IsDirectory m directory
    → Mapped m directory virt phys 0 flags m
Mapped-zero virt phys flags d = record {
  well_formed = d;
  inside = λ w h a k l. absurd (omega arith);
  outside = λ w h a k. refl;
}

-- The page at `virt`, and those outside the range, are not among the `n` behind it.
away :
    (n virt virt' phys phys' w : ℕ)
    → (n ≡ 0) ⊎ ((virt' ≡ virt + page_size) × (phys' ≡ phys + page_size))
    → (w ≡ virt) ⊎ ((w < virt) ⊎ (virt + suc n * page_size ≤ w))
    → (w < virt') ⊎ (virt' + n * page_size ≤ w)
away n virt virt' phys phys' w next k = elim (dec_lt w virt') [
  | yes p ↦ inl p
  | no p ↦ inr (omega arith)
]

-- One page first, and then the `n` behind it.
Mapped-suc :
    {m m' : Words} {directory virt phys flags n : ℕ} (virt' phys' : ℕ)
    → IsDirectory m directory
    → virt < 2 ^ 32
    → virt % page_size ≡ 0
    → (n ≡ 0) ⊎ ((virt' ≡ virt + page_size) × (phys' ≡ phys + page_size))
    → Mapped (store m (slot m directory virt) (bit_or phys flags)) directory virt' phys' n flags m'
    → Mapped m directory virt phys (suc n) flags m'
Mapped-suc {m} {m'} {directory} {virt} {phys} {flags} {n} virt' phys' d in_space aligned next rest =
    filled
  where
    stored :
        (w : ℕ)
        → w < 2 ^ 32
        → w % page_size ≡ 0
        → get directory w (store m (slot m directory virt) (bit_or phys flags))
          ≡ (if w == virt then bit_or phys flags else get directory w m)
    stored w h a = get-store d virt w (bit_or phys flags) in_space h aligned a

    filled : Mapped m directory virt phys (suc n) flags m'
    filled = record {
      well_formed = rest.well_formed;
      inside = λ w h a k l. elim (ℕ_discrete w virt) [
        | yes e ↦
            rest.outside w h a (away n virt virt' phys phys' w next (inl e))
            ∙ stored w h a
            ∙ rw (e, ==_refl virt) (ap (λ p. bit_or p flags) (omega arith))
        | no ne ↦
            rest.inside w h a (omega arith) (omega arith) ∙ ap (λ p. bit_or p flags) (omega arith)
      ];
      outside = λ w h a k.
          rest.outside w h a (away n virt virt' phys phys' w next (inr k))
          ∙ stored w h a
          ∙ rw (ne→==_false w virt (λ e. elim k [ inl p ↦ omega arith | inr p ↦ omega arith ]));
    }

abbrev pub step_to : ℕ → ℕ
step_to p = (p + page_size) % 2 ^ 32

pub map_range_loop-suc :
    (m : Words) (directory flags n virt phys : ℕ)
    → virt % page_size ≡ 0
    → phys % page_size ≡ 0
    → map_range_loop directory flags (suc n) virt phys (pos 0) m
      ≡ map_range_loop directory flags n
          (step_to virt)
          (step_to phys)
          (pos 0)
          (store m (slot m directory virt) (bit_or phys flags))
unfolding map_range_loop
map_range_loop-suc m directory flags n virt phys h k = rw (map_lem m directory virt phys flags h k)

next_page :
    (n virt phys : ℕ)
    → virt + suc n * page_size ≤ 2 ^ 32
    → phys + suc n * page_size ≤ 2 ^ 32
    → (n ≡ 0) ⊎ ((step_to virt ≡ virt + page_size) × (step_to phys ≡ phys + page_size))
next_page zero virt phys h k = inl refl
next_page (suc n) virt phys h k = inr (omega arith, omega arith)

map_range_loop-Mapped :
    (n : ℕ) {m : Words} {directory : ℕ} (flags virt phys : ℕ)
    → IsDirectory m directory
    → virt % page_size ≡ 0
    → phys % page_size ≡ 0
    → virt + n * page_size ≤ 2 ^ 32
    → phys + n * page_size ≤ 2 ^ 32
    → let r = map_range_loop directory flags n virt phys (pos 0) m in
      (r.0 ≡ pos 0) × Mapped m directory virt phys n flags r.1
unfolding map_range_loop
map_range_loop-Mapped zero flags virt phys d a b h k = (refl, Mapped-zero virt phys flags d)
map_range_loop-Mapped (suc n) {m} {directory} flags virt phys d a b h k =
    let in_space : virt < 2 ^ 32 = omega arith in
    let (ok, rest) =
      map_range_loop-Mapped n flags (step_to virt) (step_to phys)
        (IsDirectory-store d virt (bit_or phys flags) in_space) (omega arith) (omega arith)
        (omega arith) (omega arith) in
    rw (map_range_loop-suc m directory flags n virt phys a b)
      (ok, Mapped-suc (step_to virt) (step_to phys) d in_space a (next_page n virt phys h k) rest)

-- Given aligned bounds, a range that does not wrap and a directory whose tables are pages of their
-- own, `paging_map_to` returns 0; each page of the virtual range then leads to its page of the
-- physical range, with the flags, no other page has changed, and the directory is well formed.
pub map_to-Mapped :
    {m : Words} {directory : ℕ}
    → IsDirectory m directory
    → (virt phys phys_end flags : ℕ) → virt % page_size ≡ 0
    → phys % page_size ≡ 0
    → phys_end % page_size ≡ 0
    → phys ≤ phys_end
    → phys_end < 2 ^ 32
    → virt + (phys_end - phys) ≤ 2 ^ 32
    → let r = map_to directory virt phys phys_end flags m in
      (r.0 ≡ pos 0) × Mapped m directory virt phys ((phys_end - phys) / page_size) flags r.1
unfolding map_to map_range
map_to-Mapped {m} {directory} d virt phys phys_end flags a b c h k l =
    let n = (phys_end - phys) / page_size in
    rw (entered virt phys phys_end flags a b c h)
      (map_range_loop-Mapped n flags virt phys d a b (omega arith) (omega arith))
  where
    entered :
        (v p e f : ℕ)
        → v % page_size ≡ 0
        → p % page_size ≡ 0
        → e % page_size ≡ 0
        → p ≤ e
        → map_to directory v p e f m
          ≡ map_range_loop directory f ((e - p) / page_size) v p (pos 0) m
    entered v p e f a' b' c' h' = ground arith

-- An unaligned address, or an end below the start, is refused with -EINVARG before anything is
-- mapped.
pub map_to_rejects :
    (m : Words) (directory virt phys phys_end flags : ℕ)
    → (virt % page_size ≢ 0)
      ⊎ ((phys % page_size ≢ 0) ⊎ ((phys_end % page_size ≢ 0) ⊎ (phys_end < phys)))
    → map_to directory virt phys phys_end flags m ≡ (einvarg, m)
unfolding map_to
map_to_rejects m directory virt phys phys_end flags h = ground arith
