-- ===== src/Task/Strings.antt =====
-- `strncpy` and `memset` on memory that is seen through a page directory.
use guava_os_pro.Prelude.{
  ℕ, zero, suc, ◌+◌, ◌*◌, ◌/◌, ◌%◌, ◌^◌, ◌≤◌, ◌<◌, ◌≡◌, ◌≢◌, ◌⊎◌, inl, inr, refl, sym, ap, ◌∙◌,
  arith, bit_or, ◌==◌, ne→==_false, ==_refl, ◌-◌, false,
}
use native.Mathlib.Decide.{ℕ_discrete}
use guava_os_pro.Memory.Flat.{Memory, write}
use guava_os_pro.Paging.{Words, store, page_size}
use guava_os_pro.Paging.Slots.{IsDirectory, slot}
use guava_os_pro.Paging.Mapping.{get-store}
use guava_os_pro.Paging.Filling.{page-or}
use guava_os_pro.Task.Machine.{translate, strncpy_at, clear_at}

write_self : (m : Memory) (p v : ℕ) → write m p v p ≡ v
write_self m p v = rw ==_refl

write-other : (m : Memory) (p v x : ℕ) → x ≢ p → write m p v x ≡ m x
write-other m p v x h = rw (ne→==_false x p h)

pub clear_at-outside :
    (at : ℕ → ℕ) (size p : ℕ) (m : Memory) (x : ℕ)
    → ((i : ℕ) → i < size → x ≢ at (p + i))
    → clear_at at p size m x ≡ m x
unfolding clear_at
clear_at-outside at zero p m x h = refl
clear_at-outside at (suc size) p m x h =
    clear_at-outside at size (p + 1) (write m (at p) 0) x
      (λ i l e. h (i + 1) (omega arith) (e ∙ ap at (omega arith)))
    ∙ write-other m (at p) 0 x (λ e. h 0 (omega arith) (e ∙ ap at (omega arith)))

-- What a copy of a string of `k` characters leaves: the characters, the terminator, and the rest of
-- memory as it was.
pub record Copied (at : ℕ → ℕ) (dest src k left : ℕ) (m m' : Memory) : Type 0 where
  pub characters : (i : ℕ) → i < k → m' (dest + i) ≡ m (at (src + i))
  pub terminator : m' (dest + k) ≡ 0
  pub others : (x : ℕ) → (x < dest) ⊎ (dest + left < x) → m' x ≡ m x

-- The string at `src` has `k` characters, or at least `left`.
pub record IsString (at : ℕ → ℕ) (src k left : ℕ) (m : Memory) : Type 0 where
  pub fits : k ≤ left
  pub nonzero : (i : ℕ) → i < k → m (at (src + i)) ≢ 0
  pub ends : (k ≡ left) ⊎ (m (at (src + k)) ≡ 0)

first_at : (at : ℕ → ℕ) (p q : ℕ) → at (p + 0) ≡ q → at p ≡ q
first_at at p q h = ap at (omega arith) ∙ h

-- The end of the loop, at its bound or at the end of the string.
stopped :
    (at : ℕ → ℕ) (dest src left : ℕ) (m : Memory)
    → at dest ≡ dest
    → Copied at dest src 0 left m (write m (at dest) 0)
stopped at dest src left m here = record {
  characters = λ i h. absurd (omega arith);
  terminator = rw here (ap (write m dest 0) (omega arith) ∙ write_self m dest 0);
  others = λ x h. write-other m (at dest) 0 x (λ e. omega (arith, here));
}

-- One character first, and then the rest of the string.
module _ (at : ℕ → ℕ) (left dest src k : ℕ) (m : Memory)
    (here : (i : ℕ) → i ≤ suc left → at (dest + i) ≡ dest + i)
    (there : (i : ℕ) → i ≤ suc left → (at (src + i) < dest) ⊎ (dest + suc left < at (src + i)))
    (s : IsString at src (suc k) (suc left) m) where
  dest_at : at dest ≡ dest
  dest_at = first_at at dest dest (here 0 (omega arith) ∙ omega arith)

  abbrev m1 : Memory
  m1 = write m (at dest) (m (at src))

  first_character : m1 dest ≡ m (at src)
  first_character = rw dest_at (write_self m dest (m (at src)))

  not_end : (m (at src) == 0) ≡ false
  not_end = ne→==_false _ 0 (λ e. s.nonzero 0 (omega arith) (ap (λ p. m (at p)) (omega arith) ∙ e))

  shift : (i : ℕ) → at (src + 1 + i) ≡ at (src + suc i)
  shift i = ap at (omega arith)

  elsewhere : (i : ℕ) → i ≤ left → m1 (at (src + 1 + i)) ≡ m (at (src + suc i))
  elsewhere i h =
      write-other m (at dest) (m (at src)) (at (src + 1 + i)) (λ z.
        elim (there (suc i) (omega arith)) [
          | inl l ↦ omega (arith, dest_at, shift i)
          | inr l ↦ omega (arith, dest_at, shift i)
        ])
      ∙ ap m (shift i)

  rest-here : (i : ℕ) → i ≤ left → at (dest + 1 + i) ≡ dest + 1 + i
  rest-here i h = ap at (omega arith) ∙ here (suc i) (omega arith) ∙ omega arith

  rest-there :
      (i : ℕ) → i ≤ left → (at (src + 1 + i) < dest + 1) ⊎ (dest + 1 + left < at (src + 1 + i))
  rest-there i h = elim (there (suc i) (omega arith)) [
    | inl l ↦ inl (omega (arith, shift i))
    | inr l ↦ inr (omega (arith, shift i))
  ]

  rest-IsString : IsString at (src + 1) k left m1
  rest-IsString = record {
    fits = omega (arith, s.fits);
    nonzero =
        λ i h e. s.nonzero (suc i) (omega arith) (sym (elsewhere i (omega (arith, s.fits))) ∙ e);
    ends = elim s.ends [
      | inl e ↦ inl (omega arith)
      | inr e ↦ inr (elsewhere k (omega (arith, s.fits)) ∙ e)
    ];
  }

  Copied-suc :
      (m' : Memory)
      → Copied at (dest + 1) (src + 1) k left m1 m'
      → Copied at dest src (suc k) (suc left) m m'
  Copied-suc m' rest = record {
    characters = λ i h. elim (ℕ_discrete i 0) [
      | yes e ↦
          ap m' (omega arith)
          ∙ rest.others dest (inl (omega arith))
          ∙ first_character
          ∙ ap (λ p. m (at p)) (omega arith)
      | no ne ↦
          let e : dest + i ≡ dest + 1 + (i - 1) = omega arith in
          let e' : src + suc (i - 1) ≡ src + i = omega arith in
          ap m' e
          ∙ rest.characters (i - 1) (omega arith)
          ∙ elsewhere (i - 1) (omega (arith, s.fits))
          ∙ ap (λ p. m (at p)) e'
    ];
    terminator = ap m' (omega arith) ∙ rest.terminator;
    others = λ x h.
        rest.others x (elim h [ inl l ↦ inl (omega arith) | inr l ↦ inr (omega arith) ])
        ∙ write-other m (at dest) (m (at src)) x (λ e. omega (arith, dest_at));
  }

-- Where the destination is seen at its own addresses, and the source elsewhere.
pub strncpy_at-Copied :
    (at : ℕ → ℕ) (left dest src k : ℕ) (m : Memory)
    → ((i : ℕ) → i ≤ left → at (dest + i) ≡ dest + i)
    → ((i : ℕ) → i ≤ left → (at (src + i) < dest) ⊎ (dest + left < at (src + i)))
    → IsString at src k left m
    → Copied at dest src k left m (strncpy_at at left dest src m)
unfolding strncpy_at
strncpy_at-Copied at zero dest src zero m here there s =
    stopped at dest src 0 m (first_at at dest dest (here 0 (omega arith) ∙ omega arith))
strncpy_at-Copied at zero dest src (suc k) m here there s = absurd (omega (arith, s.fits))
strncpy_at-Copied at (suc left) dest src zero m here there s =
    let end : m (at src) ≡ 0 = elim s.ends [
      | inl e ↦ absurd (omega arith)
      | inr e ↦ ap (λ p. m (at p)) (omega arith) ∙ e
    ] in
    rw end (
      stopped at dest src (suc left) m (first_at at dest dest (here 0 (omega arith) ∙ omega arith)))
strncpy_at-Copied at (suc left) dest src (suc k) m here there s =
    rw (not_end at left dest src k m here there s) (
      Copied-suc at left dest src k m here there s _ (
        strncpy_at-Copied at left (dest + 1) (src + 1) k (m1 at left dest src k m here there s)
          (rest-here at left dest src k m here there s)
          (rest-there at left dest src k m here there s)
          (rest-IsString at left dest src k m here there s)))

-- The page tables once a page is mapped to itself.
abbrev pub mapped : Words → ℕ → ℕ → ℕ → Words
mapped m directory tmp flags = store m (slot m directory tmp) (bit_or tmp flags)

-- Where a page leads once it is mapped to itself: to itself, and other pages lead where they did.
module _ {m : Words} {directory : ℕ} (d : IsDirectory m directory) (tmp flags : ℕ)
    (aligned : tmp % page_size ≡ 0) (in_space : tmp + page_size ≤ 2 ^ 32) (low : flags < 4096) where
  pub translate-mapped :
      (x : ℕ)
      → tmp ≤ x
      → x < tmp + page_size
      → translate (mapped m directory tmp flags) directory x ≡ x
  unfolding translate
  translate-mapped x h k =
      let page : x / page_size * page_size ≡ tmp = omega arith in
      rw
        (
          page,
          get-store d tmp tmp (bit_or tmp flags) (omega arith) (omega arith) aligned aligned,
          ==_refl tmp,
          page-or tmp flags low,
        )
        (omega arith)

  pub translate-other :
      (x : ℕ)
      → x < 2 ^ 32
      → (x < tmp) ⊎ (tmp + page_size ≤ x)
      → translate (mapped m directory tmp flags) directory x ≡ translate m directory x
  unfolding translate
  translate-other x h k =
      let other : x / page_size * page_size ≢ tmp =
        λ e. elim k [ inl l ↦ omega arith | inr l ↦ omega arith ] in
      rw (
        get-store d tmp (x / page_size * page_size) (bit_or tmp flags) (omega arith) (omega arith)
            aligned (omega arith),
        ne→==_false _ tmp other,
      )
