-- ===== src/Paging/Filling.antt =====
-- What clearing and filling a table write: the words of its page, and nothing else.
use guava_os_pro.Prelude.{
  ℕ, zero, suc, ◌+◌, ◌*◌, ◌/◌, ◌%◌, ◌^◌, ◌≤◌, ◌<◌, ◌≡◌, ◌≢◌, ◌⊎◌, inl, inr, refl, ◌∙◌, arith,
  bit_or, ne→==_false, ==_refl,
}
use native.Mathlib.Decide.{ℕ_discrete}
use guava_os_pro.Prelude.Bits.{or_shift, or-zero}
use guava_os_pro.Paging.{Words, store, page_size, table_at}
use guava_os_pro.Paging.Slots.{mask_page_lem}
use guava_os_pro.Paging.Allocator.{clear}
use guava_os_pro.Paging.Creation.{fill_table}

-- The address lies outside of the `n` words from `p` on.
abbrev pub Outside : ℕ → ℕ → ℕ → Type 0
Outside p n x = (x < p) ⊎ (p + 4 * n ≤ x)

pub store_self : (m : Words) (p v : ℕ) → store m p v p ≡ v
store_self m p v = rw ==_refl

pub store-other : (m : Words) (p v x : ℕ) → x ≢ p → store m p v x ≡ m x
store-other m p v x h = rw (ne→==_false x p h)

pub clear-Outside : (m : Words) (p n x : ℕ) → Outside p n x → clear m p n x ≡ m x
unfolding clear
clear-Outside m p zero x h = refl
clear-Outside m p (suc n) x h =
    clear-Outside (store m p 0) (p + 4) n x
      (elim h [ inl l ↦ inl (omega arith) | inr l ↦ inr (omega arith) ])
    ∙ store-other m p 0 x (λ e. omega arith)

module _ (entry offset flags : ℕ) where
  pub fill_table-Outside :
      (n b : ℕ) (m : Words) (x : ℕ)
      → Outside (entry + 4 * b) n x
      → fill_table entry offset flags n b m x ≡ m x
  unfolding fill_table
  fill_table-Outside zero b m x h = refl
  fill_table-Outside (suc n) b m x h =
      fill_table-Outside n (b + 1) _ x
        (elim h [ inl l ↦ inl (omega arith) | inr l ↦ inr (omega arith) ])
      ∙ store-other m (entry + 4 * b) _ x (λ e. omega arith)

  pub fill_table-inside :
      (n b : ℕ) (m : Words) (j : ℕ)
      → b ≤ j
      → j < b + n
      → fill_table entry offset flags n b m (entry + 4 * j)
        ≡ bit_or ((offset + j * page_size) % 2 ^ 32) flags
  unfolding fill_table
  fill_table-inside zero b m j h k = absurd (omega arith)
  fill_table-inside (suc n) b m j h k = elim (ℕ_discrete j b) [
    | yes e ↦
        fill_table-Outside n (b + 1) _ (entry + 4 * j) (inl (omega arith))
        ∙ rw (e, ==_refl (entry + 4 * b))
    | no ne ↦ fill_table-inside n (b + 1) _ j (omega arith) (omega arith)
  ]

-- Flags in the low twelve bits do not change the page of an entry.
pub page-or : (e flags : ℕ) → flags < 4096 → bit_or e flags / 4096 ≡ e / 4096
page-or e flags h =
    or_shift 12 e flags ∙ rw (let z : flags / 2 ^ 12 ≡ 0 = omega arith in z) (or-zero (e / 4096))

-- The entry of a table leads to the table.
pub table_at-entry :
    (m : Words) (directory i e flags : ℕ)
    → e % page_size ≡ 0
    → e + page_size ≤ 2 ^ 32
    → flags < 4096
    → m (directory + 4 * i) ≡ bit_or (bit_or e flags) 2
    → table_at m directory i ≡ e
unfolding table_at
table_at-entry m directory i e flags aligned in_space low h =
    let page : bit_or (bit_or e flags) 2 / 4096 ≡ e / 4096 =
      page-or (bit_or e flags) 2 (omega arith) ∙ page-or e flags low in
    rw h (mask_page_lem (bit_or (bit_or e flags) 2) (omega arith) ∙ omega arith)
