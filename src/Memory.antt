-- ===== src/Memory.antt =====
-- src/memory/memory.c over objects: a buffer is the list of its bytes from the pointer on, and an
-- access past its end is a fault. Counters never reach 2 ^ 31, since no object is that long.
pub mod Laws
pub mod Flat
mod Tests
use guava_os_pro.Prelude.{
  ℕ, zero, suc, ◌+◌, ◌%◌, Option, none, some, List, [], ◌∷◌, ◌==◌, if◌then◌else◌, set?, ◌>>=◌,
}
use guava_os_pro.Prelude.Int.{ℤ, pos, negsuc, signed8, ltb_ℤ}

-- The loop of `memset` at index `i` with `left` rounds to go.
pub memset_loop : ℕ → ℕ → ℕ → List ℕ → Option (List ℕ)
memset_loop c zero i buf = some buf
memset_loop c (suc left) i buf = do buf' ← set? buf i (c % 256); memset_loop c left (i + 1) buf'

unfoldable pub memset : List ℕ → ℕ → ℕ → Option (List ℕ)
unfolding memset_loop
memset buf c size = memset_loop c size 0 buf

-- The operands are compared as `char`, which is signed.
unfoldable pub memcmp : List ℕ → List ℕ → ℕ → Option ℤ
memcmp s1 s2 zero = some (pos 0)
memcmp [] s2 (suc n) = none
memcmp (a ∷ s1) [] (suc n) = none
memcmp (a ∷ s1) (b ∷ s2) (suc n) =
    let rest = memcmp s1 s2 n in
    if a == b then rest else some (if ltb_ℤ (signed8 a) (signed8 b) then negsuc 0 else pos 1)

-- The source and the destination do not overlap.
unfoldable pub memcpy : List ℕ → List ℕ → ℕ → Option (List ℕ)
memcpy dest src zero = some dest
memcpy [] src (suc len) = none
memcpy (d ∷ dest) [] (suc len) = none
memcpy (d ∷ dest) (s ∷ src) (suc len) = do rest ← memcpy dest src len; some (s ∷ rest)
