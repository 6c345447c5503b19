-- ===== src/File/Descriptors.antt =====
-- src/fs/file.c: the slots of the descriptor table.
use mathlib.Core.Path.{subst}
use guava_os_pro.Prelude.{
  ℕ, zero, suc, ◌+◌, ◌<◌, ◌≡◌, ◌≢◌, refl, ap, Option, none, some, List, [], ◌∷◌, arith, length,
  get_elem?, set, >>=-eq-some, some-inj,
}
use guava_os_pro.Prelude.Int.{pos}
use guava_os_pro.File.{Files, Descriptor, free_slot, file_get_descriptor, max_descriptors}

-- Slot `i` is the first of `xs` that is free.
pub record IsFirstFree {ℓ} {A : Type ℓ} (xs : List (Option A)) (i : ℕ) : Type ℓ where
  pub inside : i < length xs
  pub is_free : get_elem? xs i ≡ some none
  pub first : (j : ℕ) → j < i → get_elem? xs j ≢ some none

taken_first {ℓ} :
    {A : Type ℓ} (x : A) (xs : List (Option A)) (k : ℕ)
    → ((j : ℕ) → j < k → get_elem? xs j ≢ some none)
    → (j : ℕ) → j < suc k
    → get_elem? (some x ∷ xs) j ≢ some none
taken_first x xs k h zero l e = cc
taken_first x xs k h (suc j) l e = h j (omega arith) e

pub free_slot-IsFirstFree {ℓ} :
    {A : Type ℓ} (xs : List (Option A)) (i : ℕ) → free_slot xs ≡ some i → IsFirstFree xs i
unfolding free_slot
free_slot-IsFirstFree [] i h = cc
free_slot-IsFirstFree (none ∷ xs) zero h = record {
  inside = omega arith;
  is_free = refl;
  first = λ j l. absurd (omega arith);
}
free_slot-IsFirstFree (none ∷ xs) (suc i) h = ground arith
free_slot-IsFirstFree (some x ∷ xs) i h =
    let (k, e, ek) = >>=-eq-some (free_slot xs) (λ k. some (suc k)) h in
    let rest = free_slot-IsFirstFree xs k e in
    subst (λ n. IsFirstFree (some x ∷ xs) n) (some-inj (suc k) i ek)
      (record {
        inside = omega (arith, rest.inside);
        is_free = rest.is_free;
        first = taken_first x xs k rest.first;
      })

module _ {S : Type 0} where
  -- The descriptor in a slot has the slot's number and one as its index.
  abbrev pub IsTable : List (Option (Descriptor S)) → ℕ → Type 0
  IsTable [] i = Unit
  IsTable (none ∷ ds) i = IsTable ds (suc i)
  IsTable (some d ∷ ds) i = (d.index ≡ suc i) × IsTable ds (suc i)

  pub IsTable-set-none :
      (ds : List (Option (Descriptor S))) (i k : ℕ) → IsTable ds i → IsTable (set ds k none) i
  IsTable-set-none [] i k t = t
  IsTable-set-none (none ∷ ds) i zero t = t
  IsTable-set-none (some d ∷ ds) i zero t = t.1
  IsTable-set-none (none ∷ ds) i (suc k) t = IsTable-set-none ds (suc i) k t
  IsTable-set-none (some d ∷ ds) i (suc k) t = (t.0, IsTable-set-none ds (suc i) k t.1)

  pub IsTable-set-some :
      (ds : List (Option (Descriptor S))) (i k : ℕ) (d : Descriptor S)
      → d.index ≡ suc (i + k)
      → IsTable ds i
      → IsTable (set ds k (some d)) i
  IsTable-set-some [] i k d e t = t
  IsTable-set-some (none ∷ ds) i zero d e t = (omega arith, t)
  IsTable-set-some (some d' ∷ ds) i zero d e t = (omega arith, t.1)
  IsTable-set-some (none ∷ ds) i (suc k) d e t = IsTable-set-some ds (suc i) k d (omega arith) t
  IsTable-set-some (some d' ∷ ds) i (suc k) d e t =
      (t.0, IsTable-set-some ds (suc i) k d (omega arith) t.1)

  pub index-IsTable :
      (ds : List (Option (Descriptor S))) (i k : ℕ) (d : Descriptor S)
      → IsTable ds i
      → get_elem? ds k ≡ some (some d)
      → d.index ≡ suc (i + k)
  index-IsTable [] i k d t h = cc
  index-IsTable (none ∷ ds) i zero d t h = cc
  index-IsTable (some d' ∷ ds) i zero d t h =
      omega (arith, t.0, ap Descriptor.index (some-inj d' d (some-inj _ _ h)))
  index-IsTable (none ∷ ds) i (suc k) d t h = omega (arith, index-IsTable ds (suc i) k d t h)
  index-IsTable (some d' ∷ ds) i (suc k) d t h = omega (arith, index-IsTable ds (suc i) k d t.1 h)

  pub get_descriptor_slot :
      (v : Files S) (k : ℕ) (o : Option (Descriptor S))
      → suc k < max_descriptors
      → get_elem? v.descriptors k ≡ some o
      → file_get_descriptor v (pos (suc k)) ≡ some o
  unfolding file_get_descriptor
  get_descriptor_slot v k o h e = ground (arith, e)

  -- The last slot's descriptor cannot be reached.
  pub get_descriptor_last : (v : Files S) → file_get_descriptor v (pos 512) ≡ some none
  unfolding file_get_descriptor
  get_descriptor_last v = refl
