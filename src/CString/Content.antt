-- ===== src/CString/Content.antt =====
-- The text that a pointer leads to: the bytes before the first zero.
use guava_os_pro.Prelude.{
  ℕ, zero, suc, ◌≡◌, ◌≢◌, ◌⊎◌, inl, inr, refl, min, some, List, [], ◌∷◌, ◌++◌, arith, length, All,
  ◌==◌, if◌then◌else◌,
}
use guava_os_pro.CString.{strlen, strnlen}

abbrev pub content : List ℕ → List ℕ
content [] = []
content (c ∷ s) = if c == 0 then [] else c ∷ content s

-- The object holds a terminator.
abbrev pub IsTerminated : List ℕ → Type 0
IsTerminated [] = ⊥
IsTerminated (c ∷ s) = (c ≡ 0) ⊎ IsTerminated s

-- No byte is zero.
abbrev pub IsText : List ℕ → Type 0
IsText = All (λ c. c ≢ 0)

pub content-append : (s rest : List ℕ) → IsText s → content (s ++ 0 ∷ rest) ≡ s
content-append [] rest h = refl
content-append (c ∷ s) rest h = ground (arith, content-append s rest)

pub IsTerminated-append : (s rest : List ℕ) → IsTerminated (s ++ 0 ∷ rest)
IsTerminated-append [] rest = inl refl
IsTerminated-append (c ∷ s) rest = inr (IsTerminated-append s rest)

-- `strlen` is the length of the text.
pub strlen_lem : (s : List ℕ) → IsTerminated s → strlen s ≡ some (length (content s))
unfolding strlen
strlen_lem [] t = elim t [ ]
strlen_lem (c ∷ s) t = ground (arith, strlen_lem s)

-- `strnlen` is the length of the text, cut off at `max`.
pub strnlen_lem :
    (s : List ℕ) (max : ℕ) → IsTerminated s → strnlen s max ≡ some (min (length (content s)) max)
unfolding strnlen
strnlen_lem s zero t = ground arith
strnlen_lem [] (suc max) t = elim t [ ]
strnlen_lem (c ∷ s) (suc max) t = ground (arith, strnlen_lem s max)
