-- ===== src/CString.antt =====
-- src/string/string.c. A pointer to text is the list of the bytes from it on, up to the end of the
-- object; a read or a write past that end is a fault. Bytes are kept unsigned, below 256.
pub mod Content
pub mod Compare
pub mod Copy
mod Tests
use guava_os_pro.Prelude.{
  ℕ, zero, suc, ◌+◌, ◌-◌, Bool, ◌&&◌, ◌||◌, not, Option, none, some, List, [], ◌∷◌, leb, ◌==◌,
  if◌then◌else◌, ◌>>=◌,
}
use guava_os_pro.Prelude.Int.{ℤ, pos, pos_part, neg_part, sub_ℕ, signed8}

unfoldable pub tolower : ℕ → ℕ
tolower s1 = if leb 65 s1 && leb s1 90 then s1 + 32 else s1

unfoldable pub strncmp : List ℕ → List ℕ → ℕ → Option ℤ
strncmp str1 str2 zero = some (pos 0)
strncmp [] str2 (suc n) = none
strncmp (u1 ∷ str1) [] (suc n) = none
strncmp (u1 ∷ str1) (u2 ∷ str2) (suc n) =
    let rest = strncmp str1 str2 n in
    if not (u1 == u2) then some (sub_ℕ u1 u2) else if u1 == 0 then some (pos 0) else rest

unfoldable pub istrncmp : List ℕ → List ℕ → ℕ → Option ℤ
unfolding tolower
istrncmp s1 s2 zero = some (pos 0)
istrncmp [] s2 (suc n) = none
istrncmp (u1 ∷ s1) [] (suc n) = none
istrncmp (u1 ∷ s1) (u2 ∷ s2) (suc n) =
    let rest = istrncmp s1 s2 n in
    if not (u1 == u2) && not (tolower u1 == tolower u2)
    then some (sub_ℕ u1 u2)
    else if u1 == 0
    then some (pos 0)
    else rest

-- `max` counts the rounds that are left.
unfoldable pub strnlen_terminator : List ℕ → ℕ → ℕ → Option ℕ
strnlen_terminator str zero terminator = some 0
strnlen_terminator [] (suc max) terminator = none
strnlen_terminator (c ∷ str) (suc max) terminator =
    let rest = strnlen_terminator str max terminator in
    if c == 0 || c == terminator then some 0 else (do i ← rest; some (suc i))

unfoldable pub strlen : List ℕ → Option ℕ
strlen [] = none
strlen (c ∷ ptr) =
    let rest = strlen ptr in if not (c == 0) then (do i ← rest; some (suc i)) else some 0

unfoldable pub strnlen : List ℕ → ℕ → Option ℕ
strnlen ptr zero = some 0
strnlen [] (suc max) = none
strnlen (c ∷ ptr) (suc max) =
    let rest = strnlen ptr max in if c == 0 then some 0 else (do i ← rest; some (suc i))

unfoldable pub is_digit : ℕ → Bool
is_digit c = leb 48 c && leb c 57

-- `c - 48`, of a signed `char`.
unfoldable pub to_numeric_digit : ℕ → ℤ
to_numeric_digit c = sub_ℕ (pos_part (signed8 c)) (48 + neg_part (signed8 c))

-- The text and the buffer do not overlap. The result is the buffer.
unfoldable pub strcpy : List ℕ → List ℕ → Option (List ℕ)
strcpy [] src = none
strcpy (d ∷ dest) [] = none
strcpy (d ∷ dest) (c ∷ src) =
    let rest = strcpy dest src in
    if not (c == 0) then (do dest' ← rest; some (c ∷ dest')) else some (0 ∷ dest)

-- `left` is `count - 1 - i`; the terminator is written wherever the loop ends.
pub strncpy_loop : ℕ → List ℕ → List ℕ → Option (List ℕ)
strncpy_loop left [] src = none
strncpy_loop zero (d ∷ dest) src = some (0 ∷ dest)
strncpy_loop (suc left) (d ∷ dest) [] = none
strncpy_loop (suc left) (d ∷ dest) (c ∷ src) =
    let rest = strncpy_loop left dest src in
    if c == 0 then some (0 ∷ dest) else (do dest' ← rest; some (c ∷ dest'))

-- A `count` below 2 makes no round of the loop.
unfoldable pub strncpy : List ℕ → List ℕ → ℕ → Option (List ℕ)
unfolding strncpy_loop
strncpy dest src count = strncpy_loop (count - 1) dest src
