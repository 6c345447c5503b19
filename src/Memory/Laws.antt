-- ===== src/Memory/Laws.antt =====
-- What `memset`, `memcmp` and `memcpy` do to whole buffers.
use mathlib.Core.List.{append_assoc, append-nil}
use guava_os_pro.Prelude.{
  ℕ, zero, suc, ◌+◌, ◌%◌, ◌≤◌, ◌≡◌, refl, sym, ap, ◌∙◌, ◌↔◌, some, List, [], ◌∷◌, ◌++◌, arith,
  length, set?, take, drop, replicate, length-append,
}
use guava_os_pro.Prelude.Int.{pos}
use guava_os_pro.Memory.{memset_loop, memset, memcmp, memcpy}

-- Writing just behind `pre` replaces the byte there.
pub set?-append {ℓ} :
    {A : Type ℓ} (pre : List A) (x v : A) (post : List A) (i : ℕ)
    → i ≡ length pre
    → set? (pre ++ x ∷ post) i v ≡ some (pre ++ v ∷ post)
set?-append [] x v post zero e = refl
set?-append [] x v post (suc i) e = absurd (omega arith)
set?-append (p ∷ pre) x v post zero e = absurd (omega arith)
set?-append (p ∷ pre) x v post (suc i) e = ground (arith, set?-append pre x v post i)

memset_loop-append :
    (c n i : ℕ) (pre buf : List ℕ)
    → i ≡ length pre
    → n ≤ length buf
    → memset_loop c n i (pre ++ buf) ≡ some (pre ++ (replicate n (c % 256) ++ drop n buf))
unfolding memset_loop
memset_loop-append c zero i pre buf e h = refl
memset_loop-append c (suc n) i pre [] e h = absurd (omega arith)
memset_loop-append c (suc n) i pre (b ∷ buf) e h =
    let v : ℕ = c % 256 in
    rw (set?-append pre b v buf i e) (
      ap (memset_loop c n (i + 1)) (sym (append_assoc pre (v ∷ []) buf))
      ∙ memset_loop-append c n (i + 1) (pre ++ v ∷ []) buf
          (omega (arith, length-append pre (v ∷ []))) (omega arith)
      ∙ ap some (append_assoc pre (v ∷ []) (replicate n v ++ drop n buf)))

-- `memset` fills the first `size` bytes of a buffer that has them, and leaves the others alone.
pub memset_lem :
    (buf : List ℕ) (c size : ℕ)
    → size ≤ length buf
    → memset buf c size ≡ some (replicate size (c % 256) ++ drop size buf)
unfolding memset
memset_lem buf c size h = memset_loop-append c size 0 [] buf refl h

drop-length : (n : ℕ) (xs : List ℕ) → length xs ≡ n → drop n xs ≡ []
drop-length zero [] e = refl
drop-length zero (x ∷ xs) e = absurd (omega arith)
drop-length (suc n) [] e = absurd (omega arith)
drop-length (suc n) (x ∷ xs) e = drop-length n xs (omega arith)

-- Clearing a whole buffer.
pub memset_whole : (n : ℕ) (buf : List ℕ) → length buf ≡ n → memset buf 0 n ≡ some (replicate n 0)
memset_whole n buf e =
    memset_lem buf 0 n (omega arith)
    ∙ ap some (ap (◌++◌ (replicate n 0)) (drop-length n buf e) ∙ append-nil (replicate n 0))

pub memcpy_lem :
    (dest src : List ℕ) (len : ℕ)
    → len ≤ length dest
    → len ≤ length src
    → memcpy dest src len ≡ some (take len src ++ drop len dest)
unfolding memcpy
memcpy_lem dest src zero h k = refl
memcpy_lem [] src (suc len) h k = absurd (omega arith)
memcpy_lem (d ∷ dest) [] (suc len) h k = absurd (omega arith)
memcpy_lem (d ∷ dest) (s ∷ src) (suc len) h k = ground (arith, memcpy_lem dest src len)

-- `memcmp` is zero exactly on equal prefixes.
pub memcmp-zero_iff :
    (s1 s2 : List ℕ) (n : ℕ)
    → n ≤ length s1
    → n ≤ length s2
    → (memcmp s1 s2 n ≡ some (pos 0)) ↔ (take n s1 ≡ take n s2)
unfolding memcmp
memcmp-zero_iff s1 s2 zero h k = (λ _. refl, λ _. refl)
memcmp-zero_iff [] s2 (suc n) h k = absurd (omega arith)
memcmp-zero_iff (a ∷ s1) [] (suc n) h k = absurd (omega arith)
memcmp-zero_iff (a ∷ s1) (b ∷ s2) (suc n) h k = ground (arith, memcmp-zero_iff s1 s2 n)
