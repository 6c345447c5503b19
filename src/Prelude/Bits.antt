-- ===== src/Prelude/Bits.antt =====
-- `&` with a mask and `|` of disjoint fields, as arithmetic, at every width.
use Prim.Native.Nat.{max, digits, bitwise, bit_and-bitwise, bit_or-bitwise}
use native.Mathlib.Nat.{
  le_refl, pow-suc, one-le-pow, div-div-eq-div-mul, mod-eq-sub-mul-div, mul-div-le,
}
use guava_os_pro.Prelude.{
  ℕ, zero, suc, ◌+◌, ◌-◌, ◌*◌, ◌/◌, ◌%◌, ◌^◌, ◌≤◌, ◌<◌, min, bit_and, bit_or, ◌≡◌, refl, sym, ap,
  arith,
}

-- The definition of the operations runs on fuel; any fuel that covers the first operand will do.
module _ (low : ℕ → ℕ) (op : ℕ → ℕ → ℕ) where
  fuel_irrelevant : (f g x y : ℕ) → x ≤ f → x ≤ g → digits low op f x y ≡ digits low op g x y
  fuel_irrelevant zero zero x y hf hg = refl
  fuel_irrelevant zero (suc g) zero y hf hg = refl
  fuel_irrelevant zero (suc g) (suc x) y hf hg = absurd (omega arith)
  fuel_irrelevant (suc f) zero zero y hf hg = refl
  fuel_irrelevant (suc f) zero (suc x) y hf hg = absurd (omega arith)
  fuel_irrelevant (suc f) (suc g) zero y hf hg = refl
  fuel_irrelevant (suc f) (suc g) (suc x) y hf hg =
      rw (fuel_irrelevant f g (suc x / 2) (y / 2) (omega arith) (omega arith))

  lowest_digit :
      (x y : ℕ)
      → bitwise low op (suc x) y ≡ bitwise low op (suc x / 2) (y / 2) * 2 + op (suc x % 2) (y % 2)
  lowest_digit x y =
      omega (arith, fuel_irrelevant x (suc x / 2) (suc x / 2) (y / 2) (omega arith) (le_refl _))

pub and_digit : (x y : ℕ) → bit_and x y ≡ bit_and (x / 2) (y / 2) * 2 + min (x % 2) (y % 2)
and_digit zero y = simp bit_and-bitwise (omega arith)
and_digit (suc x) y = simp bit_and-bitwise (lowest_digit (λ _. 0) min x y)

pub or_digit : (x y : ℕ) → bit_or x y ≡ bit_or (x / 2) (y / 2) * 2 + max (x % 2) (y % 2)
or_digit zero y = simp bit_or-bitwise (omega arith)
or_digit (suc x) y = simp bit_or-bitwise (lowest_digit (λ y. y) max x y)

-- With enough halvings nothing is left of the first operand.
and-zero_within : (f x : ℕ) → x ≤ f → bit_and x 0 ≡ 0
and-zero_within f zero h = omega (arith, and_digit 0 0, bit_and-bitwise 0 0)
and-zero_within zero (suc x) h = absurd (omega arith)
and-zero_within (suc f) (suc x) h =
    omega (arith, and_digit (suc x) 0, and-zero_within f (suc x / 2) (omega arith))

or-zero_within : (f x : ℕ) → x ≤ f → bit_or x 0 ≡ x
or-zero_within f zero h = refl
or-zero_within zero (suc x) h = absurd (omega arith)
or-zero_within (suc f) (suc x) h =
    omega (arith, or_digit (suc x) 0, or-zero_within f (suc x / 2) (omega arith))

pub and-zero : (x : ℕ) → bit_and x 0 ≡ 0
and-zero x = and-zero_within x x (le_refl _)

pub or-zero : (x : ℕ) → bit_or x 0 ≡ x
or-zero x = or-zero_within x x (le_refl _)

zero-or_within : (f x : ℕ) → x ≤ f → bit_or 0 x ≡ x
zero-or_within f zero h = refl
zero-or_within zero (suc x) h = absurd (omega arith)
zero-or_within (suc f) (suc x) h =
    omega (arith, or_digit 0 (suc x), zero-or_within f (suc x / 2) (omega arith))

pub zero-or : (x : ℕ) → bit_or 0 x ≡ x
zero-or x = zero-or_within x x (le_refl _)

double_pow : (m k : ℕ) → m * 2 ^ suc k ≡ 2 * (m * 2 ^ k)
double_pow m k = omega (arith, ap (λ (t : ℕ). m * t) (pow-suc 2 k))

div_double : (x p : ℕ) → 0 < p → x / (2 * p) ≡ x / 2 / p
div_double x p h = sym (div-div-eq-div-mul x 2 p)

mod_double : (x p : ℕ) → 0 < p → x % (2 * p) ≡ 2 * (x / 2 % p) + x % 2
mod_double x p h = omega (
  arith,
  mod-eq-sub-mul-div x (2 * p),
  ap (λ (t : ℕ). 2 * p * t) (div_double x p h),
  mod-eq-sub-mul-div (x / 2) p,
  mul-div-le (x / 2) p,
)

halve_ones : (p : ℕ) → 0 < p → (2 * p - 1) / 2 ≡ p - 1
halve_ones p h = omega arith

-- A mask of `k` ones takes the remainder by `2 ^ k`.
pub and_low : (k x : ℕ) → bit_and x (2 ^ k - 1) ≡ x % 2 ^ k
and_low zero x = omega (arith, and-zero x)
and_low (suc k) x =
    let e : 2 ^ suc k ≡ 2 * 2 ^ k = omega (arith, pow-suc 2 k) in
    let p : 0 < 2 ^ k = one-le-pow k 2 (omega arith) in
    rw e (
      omega (
        arith,
        and_digit x (2 * 2 ^ k - 1),
        ap (λ (t : ℕ). bit_and (x / 2) t) (halve_ones (2 ^ k) p),
        and_low k (x / 2),
        mod_double x (2 ^ k) p,
      ))

halve : (m p : ℕ) → m * (2 * p) / 2 ≡ m * p
halve m p = omega arith

-- A mask above `k` zeros acts on what is above the low `k` bits.
pub and_high : (k x m : ℕ) → bit_and x (m * 2 ^ k) ≡ bit_and (x / 2 ^ k) m * 2 ^ k
and_high zero x m = ground arith
and_high (suc k) x m =
    let e : 2 ^ suc k ≡ 2 * 2 ^ k = omega (arith, pow-suc 2 k) in
    rw (e, div_double x (2 ^ k) (one-le-pow k 2 (omega arith)))
      (omega (
        arith,
        and_digit x (m * (2 * 2 ^ k)),
        ap (λ (t : ℕ). bit_and (x / 2) t) (halve m (2 ^ k)),
        and_high k (x / 2) m,
      ))

-- `|` of a field and what lies below it is their sum.
pub or_fields : (k m r : ℕ) → r < 2 ^ k → bit_or (m * 2 ^ k) r ≡ m * 2 ^ k + r
or_fields zero m r h = ground (arith, or-zero m)
or_fields (suc k) m r h = ground (
  arith,
  or_digit (m * 2 ^ suc k) r,
  double_pow m k,
  pow-suc 2 k,
  or_fields k m (r / 2) (omega (arith, pow-suc 2 k)),
)

-- A shift to the right goes through `|`.
pub or_shift : (k x y : ℕ) → bit_or x y / 2 ^ k ≡ bit_or (x / 2 ^ k) (y / 2 ^ k)
or_shift zero x y = ground arith
or_shift (suc k) x y =
    let e : 2 ^ suc k ≡ 2 * 2 ^ k = omega (arith, pow-suc 2 k) in
    let p : 0 < 2 ^ k = one-le-pow k 2 (omega arith) in
    let half : bit_or x y / 2 ≡ bit_or (x / 2) (y / 2) = omega (arith, or_digit x y, digit x y) in
    rw (e, div_double (bit_or x y) (2 ^ k) p, div_double x (2 ^ k) p, div_double y (2 ^ k) p, half)
      (or_shift k (x / 2) (y / 2))
  where
    digit : (a b : ℕ) → max (a % 2) (b % 2) < 2
    digit a b = ground arith

-- The bits of 0xE0 lie above those of a number of four bits.
pub or_e0 : (x : ℕ) → x < 16 → bit_or x 0xE0 ≡ x + 0xE0
or_e0 x h =
    let none_left : x / 2 / 2 / 2 / 2 ≡ 0 = omega arith in
    let top : bit_or (x / 2 / 2 / 2 / 2) 14 ≡ 14 = rw none_left (zero-or 14) in
    let third = or_digit (x / 2 / 2 / 2) 28 in
    let second = or_digit (x / 2 / 2) 56 in
    let first = or_digit (x / 2) 112 in
    let whole = or_digit x 224 in omega (arith, top, third, second, first, whole)
