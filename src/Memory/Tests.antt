-- ===== src/Memory/Tests.antt =====
-- Runs of the functions of memory.c.
use guava_os_pro.Prelude.{ℕ, ◌≡◌, refl, some, List, [], ◌∷◌}
use guava_os_pro.Prelude.Int.{negsuc}
use guava_os_pro.Memory.{memcmp}

abbrev left : List ℕ
left = 1 ∷ 2 ∷ 3 ∷ []

abbrev right : List ℕ
right = 1 ∷ 2 ∷ 200 ∷ 4 ∷ []

-- A byte from 128 on is a negative `char`.
signed_bytes : memcmp right left 3 ≡ some (negsuc 0)
unfolding memcmp
signed_bytes = refl
