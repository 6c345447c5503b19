-- ===== src/CString/Compare.antt =====
-- `strncmp` and `istrncmp` compare texts up to a length, the latter without regard to case.
use guava_os_pro.Prelude.{
  ℕ, zero, suc, ◌≡◌, ◌↔◌, refl, some, List, [], ◌∷◌, arith, take, map, Bool-cases, inl, inr, not,
  ◌&&◌, ◌==◌,
}
use guava_os_pro.Prelude.Int.{ℤ, pos, sub_ℕ}
use guava_os_pro.CString.{tolower, strncmp, istrncmp}
use guava_os_pro.CString.Content.{content, IsTerminated}

-- `strncmp` is zero exactly when the two texts agree in their first `n` characters.
pub strncmp-zero_iff :
    (s1 s2 : List ℕ) (n : ℕ)
    → IsTerminated s1
    → IsTerminated s2
    → (strncmp s1 s2 n ≡ some (pos 0)) ↔ (take n (content s1) ≡ take n (content s2))
unfolding strncmp
strncmp-zero_iff s1 s2 zero h k = (λ _. refl, λ _. refl)
strncmp-zero_iff [] s2 (suc n) h k = elim h [ ]
strncmp-zero_iff (a ∷ s1) [] (suc n) h k = elim k [ ]
strncmp-zero_iff (a ∷ s1) (b ∷ s2) (suc n) h k = ground (arith, strncmp-zero_iff s1 s2 n)

tolower-zero : (c : ℕ) → tolower c ≡ 0 → c ≡ 0
unfolding tolower
tolower-zero c h = ground arith

-- `istrncmp` is zero exactly when the two texts, in lower case, agree in their first `n` characters.
pub istrncmp-zero_iff :
    (s1 s2 : List ℕ) (n : ℕ)
    → IsTerminated s1
    → IsTerminated s2
    → (istrncmp s1 s2 n ≡ some (pos 0))
      ↔ (take n (map tolower (content s1)) ≡ take n (map tolower (content s2)))
unfolding istrncmp
istrncmp-zero_iff s1 s2 zero h k = (λ _. refl, λ _. refl)
istrncmp-zero_iff [] s2 (suc n) h k = elim h [ ]
istrncmp-zero_iff (a ∷ s1) [] (suc n) h k = elim k [ ]
istrncmp-zero_iff (a ∷ s1) (b ∷ s2) (suc n) h k =
    ground (arith, istrncmp-zero_iff s1 s2 n, tolower-zero a, tolower-zero b)

-- On two texts with a terminator `istrncmp` returns.
pub istrncmp_total :
    (s1 s2 : List ℕ) (n : ℕ)
    → IsTerminated s1
    → IsTerminated s2
    → (r : ℤ) × (istrncmp s1 s2 n ≡ some r)
unfolding istrncmp
istrncmp_total s1 s2 zero h k = (pos 0, refl)
istrncmp_total [] s2 (suc n) h k = elim h [ ]
istrncmp_total (a ∷ s1) [] (suc n) h k = elim k [ ]
istrncmp_total (a ∷ s1) (b ∷ s2) (suc n) h k =
    elim (Bool-cases (not (a == b) && not (tolower a == tolower b))) [
      | inl differ ↦ (sub_ℕ a b, rw differ)
      | inr same ↦ elim (Bool-cases (a == 0)) [
        | inl end ↦ (pos 0, rw (same, end))
        | inr more ↦
            let (r, e) = istrncmp_total s1 s2 n (ground arith) (ground (arith, tolower-zero b)) in
            (r, rw (same, more) e)
      ]
    ]
