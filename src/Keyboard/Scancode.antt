-- ===== src/Keyboard/Scancode.antt =====
-- src/keyboard/ps2.c: from a scancode to a character, and the keyboard's interrupt.
use guava_os_pro.Prelude.{
  ℕ, zero, suc, ◌*◌, ◌/◌, ◌%◌, ◌≤◌, ◌<◌, ◌≡◌, ◌≢◌, refl, ap, bit_and, Bool, true, false, not,
  Option, none, some, List, [], ◌∷◌, arith, length, ltb, ◌==◌, if◌then◌else◌, get_elem?, get_or,
  get_elem?-eq-get_or, get_elem?-eq-none, ◌>>=◌, ltb→lt, ltb_false→not_lt, ne→==_false, Bool-cases,
  inl, inr,
}
use guava_os_pro.Prelude.Bits.{and_low, and_high}
use guava_os_pro.Keyboard.{Machine, push}

-- `keyboard_scan_set_one` of ps2.h.
abbrev pub scan_set_one : List ℕ
scan_set_one =
    0 ∷ 27 ∷ 49 ∷ 50 ∷ 51 ∷ 52 ∷ 53 ∷ 54 ∷ 55 ∷ 56 ∷ 57 ∷ 48 ∷ 45 ∷ 61 ∷ 8 ∷ 9 ∷ 81 ∷ 87 ∷ 69 ∷ 82
    ∷ 84 ∷ 89 ∷ 85 ∷ 73 ∷ 79 ∷ 80 ∷ 91 ∷ 93 ∷ 13 ∷ 0 ∷ 65 ∷ 83 ∷ 68 ∷ 70 ∷ 71 ∷ 72 ∷ 74 ∷ 75 ∷ 76
    ∷ 59 ∷ 39 ∷ 96 ∷ 0 ∷ 92 ∷ 90 ∷ 88 ∷ 67 ∷ 86 ∷ 66 ∷ 78 ∷ 77 ∷ 44 ∷ 46 ∷ 47 ∷ 0 ∷ 42 ∷ 0 ∷ 32 ∷ 0
    ∷ 0 ∷ 0 ∷ 0 ∷ 0 ∷ 0 ∷ 0 ∷ 0 ∷ 0 ∷ 0 ∷ 0 ∷ 55 ∷ 56 ∷ 57 ∷ 45 ∷ 52 ∷ 53 ∷ 54 ∷ 43 ∷ 49 ∷ 50 ∷ 51
    ∷ 48 ∷ 46 ∷ []

-- The test lets the table's own length through, one past its last index.
unfoldable pub scancode_to_char : ℕ → Option ℕ
scancode_to_char scancode =
    if ltb (length scan_set_one) scancode then some 0 else get_elem? scan_set_one scancode

-- The page directory in use: that of the kernel, or that of the current task.
pub data Pages : Type 0 where
  kernel_pages task_pages : Pages

-- The scancode is what the first read of the port returns. A released key returns at once, with the
-- kernel's pages in use.
unfoldable pub handle_interrupt : Machine → ℕ → Option (Machine × Pages)
handle_interrupt m scancode =
    if not (bit_and scancode 0x80 == 0) then some (m, kernel_pages) else (do
      c ← scancode_to_char scancode
      m' ← if not (c == 0) then push m c else some m
      some (m', task_pages))

get_or-past : (xs : List ℕ) (i : ℕ) → length xs ≤ i → get_or xs i 0 ≡ 0
get_or-past [] i h = refl
get_or-past (x ∷ xs) zero h = absurd (omega arith)
get_or-past (x ∷ xs) (suc i) h = get_or-past xs i (omega arith)

table_lookup :
    (xs : List ℕ) (i : ℕ)
    → (if ltb (length xs) i then some 0 else get_elem? xs i)
      ≡ (if i == length xs then none else some (get_or xs i 0))
table_lookup xs i =
    ground (arith, get_elem?-eq-get_or xs i 0, get_elem?-eq-none xs i, get_or-past xs i)

-- A scancode has the table's character if it has an entry, 0 if it lies beyond, and reads past the
-- table at 82.
pub scancode_to_char_lem :
    (s : ℕ) → scancode_to_char s ≡ (if s == 82 then none else some (get_or scan_set_one s 0))
unfolding scancode_to_char
scancode_to_char_lem s = table_lookup scan_set_one s

-- The top bit of a byte, as a number.
top_bit : (s : ℕ) → bit_and s 0x80 ≡ s / 128 % 2 * 128
top_bit s = omega (arith, and_high 7 s 1, and_low 1 (s / 128))

-- A byte has its top bit set exactly from 128 on.
top_bit_clear : (s : ℕ) → s < 128 → (bit_and s 0x80 == 0) ≡ true
top_bit_clear s h = ground (arith, top_bit s)

top_bit_set : (s : ℕ) → 128 ≤ s → s < 256 → (bit_and s 0x80 == 0) ≡ false
top_bit_set s l h = ground (arith, top_bit s)

if_not {ℓ} : {A : Type ℓ} (x y : A) (b : Bool) → (if not b then x else y) ≡ (if b then y else x)
if_not x y true = refl
if_not x y false = refl

-- The keyboard's interrupt, for each byte but 82: a released key changes nothing and leaves the
-- kernel's pages in use; a pressed key that has a character pushes it, and no other does, and the
-- task's pages are in use again.
pub handle_interrupt_lem :
    (m : Machine) (s : ℕ)
    → s < 256
    → s ≢ 82
    → handle_interrupt m s ≡ (
        if ltb s 128
        then (do
          m' ← if get_or scan_set_one s 0 == 0 then some m else push m (get_or scan_set_one s 0)
          some (m', task_pages))
        else some (m, kernel_pages))
unfolding handle_interrupt
handle_interrupt_lem m s h ne =
    let c = get_or scan_set_one s 0 in
    elim (Bool-cases (ltb s 128)) [
      | inl e ↦
          rw (e, top_bit_clear s (ltb→lt s 128 e), scancode_to_char_lem s, ne→==_false s 82 ne)
            (ap (λ o. o >>= λ m'. some (m', task_pages)) (if_not _ _ (c == 0)))
      | inr e ↦ rw (e, top_bit_set s (omega (arith, ltb_false→not_lt s 128 e)) h) refl
    ]
