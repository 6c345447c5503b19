-- ===== src/PathParser/Split.antt =====
-- Splitting a path at its slashes, without reference to the parser.
use guava_os_pro.Prelude.{
  ℕ, ◌≡◌, ◌≢◌, inl, inr, refl, List, [], ◌∷◌, ◌++◌, arith, All, ◌==◌, if◌then◌else◌, Bool-cases,
}

-- A character of a part.
abbrev pub IsPlain : ℕ → Type 0
IsPlain c = (c ≢ b'/') × (c ≢ 0)

-- Puts a character in front of the first word.
abbrev pub onto_first : ℕ → List (List ℕ) → List (List ℕ)
onto_first c [] = (c ∷ []) ∷ []
onto_first c (w ∷ ws) = (c ∷ w) ∷ ws

-- The words between the slashes, the empty ones too.
unfoldable pub split : List ℕ → List (List ℕ)
split [] = [] ∷ []
split (c ∷ s) = let rest = split s in if c == b'/' then [] ∷ rest else onto_first c rest

-- The words before the first empty one.
unfoldable pub until_empty : List (List ℕ) → List (List ℕ)
until_empty [] = []
until_empty ([] ∷ ws) = []
until_empty ((c ∷ w) ∷ ws) = (c ∷ w) ∷ until_empty ws

-- A text up to its first slash, if it has one.
pub data Cut : List ℕ → Type 0 where
  last : (w : List ℕ) → All IsPlain w → Cut w
  more : (w s : List ℕ) → All IsPlain w → Cut (w ++ b'/' ∷ s)

Cut-cons : (c : ℕ) (s : List ℕ) → IsPlain c → Cut s → Cut (c ∷ s)
Cut-cons c _ h (last w p) = last (c ∷ w) (h, p)
Cut-cons c _ h (more w s p) = more (c ∷ w) s (h, p)

pub cut : (s : List ℕ) → All (λ c. c ≢ 0) s → Cut s
cut [] h = last [] tt
cut (c ∷ s) h = elim (Bool-cases (c == b'/')) [
  | inl slash ↦ let e : c ≡ b'/' = ground arith in rw e (more [] s tt)
  | inr plain ↦ Cut-cons c s (ground arith, h.0) (cut s h.1)
]

pub split-last : (w : List ℕ) → All IsPlain w → split w ≡ w ∷ []
unfolding split
split-last [] h = refl
split-last (c ∷ w) h = ground (arith, split-last w h.1)

pub split-more : (w s : List ℕ) → All IsPlain w → split (w ++ b'/' ∷ s) ≡ w ∷ split s
unfolding split
split-more [] s h = refl
split-more (c ∷ w) s h = ground (arith, split-more w s h.1)
