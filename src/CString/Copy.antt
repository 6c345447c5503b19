-- ===== src/CString/Copy.antt =====
-- `strcpy` and `strncpy` on buffers that are large enough.
use guava_os_pro.Prelude.{
  ℕ, zero, suc, ◌-◌, ◌≤◌, ◌<◌, ◌≡◌, refl, some, List, [], ◌∷◌, ◌++◌, arith, length, take, drop,
  Bool-cases, ◌==◌, inl, inr,
}
use guava_os_pro.CString.{strcpy, strncpy_loop, strncpy}
use guava_os_pro.CString.Content.{content, IsTerminated}

-- `strcpy` into a buffer with room for the text and its terminator writes just these.
pub strcpy_lem :
    (dest src : List ℕ)
    → IsTerminated src
    → length (content src) < length dest
    → strcpy dest src ≡ some (content src ++ 0 ∷ drop (suc (length (content src))) dest)
unfolding strcpy
strcpy_lem [] src t h = absurd (omega arith)
strcpy_lem (d ∷ dest) [] t h = elim t [ ]
strcpy_lem (d ∷ dest) (c ∷ src) t h = ground (arith, strcpy_lem dest src)

strncpy_loop_lem :
    (left : ℕ) (dest src : List ℕ)
    → IsTerminated src
    → left < length dest
    → strncpy_loop left dest src
      ≡ some (take left (content src) ++ 0 ∷ drop (suc (length (take left (content src)))) dest)
unfolding strncpy_loop
strncpy_loop_lem left [] src t h = absurd (omega arith)
strncpy_loop_lem zero (d ∷ dest) src t h = refl
strncpy_loop_lem (suc left) (d ∷ dest) [] t h = elim t [ ]
strncpy_loop_lem (suc left) (d ∷ dest) (c ∷ src) t h = elim (Bool-cases (c == 0)) [
  | inl end ↦ rw end
  | inr more ↦
      let rest = strncpy_loop_lem left dest src (ground arith) (omega arith) in rw (more, rest)
]

-- `strncpy` into a buffer of at least `count` bytes, `count` being above 0, copies at most
-- `count - 1` characters, always writes a terminator behind them, and no other byte.
pub strncpy_lem :
    (dest src : List ℕ) (count : ℕ)
    → IsTerminated src
    → 0 < count
    → count ≤ length dest
    → strncpy dest src count
      ≡ some (
          take (count - 1) (content src)
          ++ 0 ∷ drop (suc (length (take (count - 1) (content src)))) dest)
unfolding strncpy
strncpy_lem dest src count t pos h = strncpy_loop_lem (count - 1) dest src t (omega arith)
