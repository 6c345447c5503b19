-- ===== src/CString/Tests.antt =====
-- Runs of the functions of string.c.
use guava_os_pro.Prelude.{ℕ, ◌≡◌, refl, some, List, [], ◌∷◌}
use guava_os_pro.CString.{strcpy}

-- "aB", and "Ab" with bytes behind its terminator
abbrev lower_upper : List ℕ
lower_upper = b'a' ∷ b'B' ∷ 0 ∷ []

abbrev upper_lower : List ℕ
upper_lower = b'A' ∷ b'b' ∷ 0 ∷ 7 ∷ []

-- The terminator is part of what `strcpy` writes.
copied : strcpy (1 ∷ 2 ∷ 3 ∷ 4 ∷ []) lower_upper ≡ some (b'a' ∷ b'B' ∷ 0 ∷ 4 ∷ [])
unfolding strcpy
copied = refl
