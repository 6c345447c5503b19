-- ===== src/Paging/Untouched.antt =====
-- What mapping a range leaves alone: every word that is no entry of one of the directory's tables.
use guava_os_pro.Prelude.{
  ℕ, zero, suc, ◌-◌, ◌/◌, ◌%◌, ◌^◌, ◌≤◌, ◌<◌, ◌≡◌, ◌≢◌, refl, ◌∙◌, arith, bit_or,
}
use guava_os_pro.Prelude.Int.{pos}
use guava_os_pro.Paging.{Words, page_size, map_range_loop, map_range, map_to}
use guava_os_pro.Paging.Slots.{IsDirectory, slot, IsDirectory-store, slot-store}
use guava_os_pro.Paging.Filling.{store-other}
use guava_os_pro.Paging.Range.{map_range_loop-suc, step_to}

module _ (directory flags x : ℕ) where
  map_range_loop-untouched :
      (n : ℕ) {m : Words} (virt phys : ℕ)
      → IsDirectory m directory
      → virt % page_size ≡ 0
      → phys % page_size ≡ 0
      → virt < 2 ^ 32
      → ((v : ℕ) → v < 2 ^ 32 → x ≢ slot m directory v)
      → (map_range_loop directory flags n virt phys (pos 0) m).1 x ≡ m x
  unfolding map_range_loop
  map_range_loop-untouched zero virt phys d a b h ne = refl
  map_range_loop-untouched (suc n) {m} virt phys d a b h ne =
      rw (map_range_loop-suc m directory flags n virt phys a b) (
        map_range_loop-untouched n (step_to virt) (step_to phys)
          (IsDirectory-store d virt (bit_or phys flags) h) (omega arith) (omega arith) (omega arith)
          (λ v k e. ne v k (e ∙ slot-store d v virt (bit_or phys flags) k h))
        ∙ store-other m (slot m directory virt) (bit_or phys flags) x (ne virt h))

  pub map_to-untouched :
      {m : Words}
      → IsDirectory m directory
      → (virt phys phys_end : ℕ) → virt % page_size ≡ 0
      → phys % page_size ≡ 0
      → phys_end % page_size ≡ 0
      → phys ≤ phys_end
      → virt < 2 ^ 32
      → ((v : ℕ) → v < 2 ^ 32 → x ≢ slot m directory v)
      → (map_to directory virt phys phys_end flags m).1 x ≡ m x
  unfolding map_to map_range
  map_to-untouched {m} d virt phys phys_end a b c h k ne =
      let entered : map_to directory virt phys phys_end flags m
          ≡ map_range_loop directory flags ((phys_end - phys) / page_size) virt phys (pos 0) m =
        ground arith in
      rw entered (map_range_loop-untouched ((phys_end - phys) / page_size) virt phys d a b k ne)
