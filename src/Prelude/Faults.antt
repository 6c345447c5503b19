-- ===== src/Prelude/Faults.antt =====
-- Undefined behaviour as a value: a run is `none` from the first access outside an object on.
use mathlib.Core.Path.{◌≡◌, refl, ap, subst}
use mathlib.Core.Bool.{Bool, true, false}
use mathlib.Core.Logic.{◌⊎◌, inl, inr}
use mathlib.Core.Option.{Option, none, some}
use guava_os_pro.Prelude.Tests.{if◌then◌else◌}

infixl 5 ◌>>=◌ ◌>>◌
abbrev pub ◌>>=◌ {ℓ κ} : {A : Type ℓ} {B : Type κ} → Option A → (A → Option B) → Option B
none >>= f = none
some a >>= f = f a

abbrev pub ◌>>◌ {ℓ κ} : {A : Type ℓ} {B : Type κ} → Option A → Option B → Option B
m >> k = m >>= λ _. k

-- Inversion of a run that does not fault.
pub >>=-eq-some {ℓ κ} :
    {A : Type ℓ} {B : Type κ} (m : Option A) (f : A → Option B) {b : B}
    → (m >>= f) ≡ some b
    → (a : A) × (m ≡ some a) × (f a ≡ some b)
>>=-eq-some none f h = cc
>>=-eq-some (some a) f h = (a, refl, h)

pub some-inj {ℓ} : {A : Type ℓ} (a b : A) → some a ≡ some b → a ≡ b
some-inj a b h = cc

pub if-eq-some {ℓ} :
    {A : Type ℓ} (b : Bool) (x y : Option A) (r : A)
    → (if b then x else y) ≡ some r
    → ((b ≡ true) × (x ≡ some r)) ⊎ ((b ≡ false) × (y ≡ some r))
if-eq-some true x y r h = inl (refl, h)
if-eq-some false x y r h = inr (refl, h)

pub option-eq-some {ℓ κ} :
    {A : Type ℓ} {B : Type κ} (o : Option A) (x : Option B) (f : A → Option B) (r : B)
    → (elim o [ none ↦ x | some a ↦ f a ]) ≡ some r
    → ((o ≡ none) × (x ≡ some r)) ⊎ ((a : A) × (o ≡ some a) × (f a ≡ some r))
option-eq-some none x f r h = inl (refl, h)
option-eq-some (some a) x f r h = inr (a, refl, h)

pub pair-inj {ℓ κ} :
    {A : Type ℓ} {B : Type κ} (a c : A) (b d : B)
    → Path (Option (A × B)) (some (a, b)) (some (c, d))
    → (a ≡ c) × (b ≡ d)
pair-inj {A = A} {B = B} a c b d h =
    let p : Path (A × B) (a, b) (c, d) = some-inj _ _ h in (ap (λ q. q.0) p, ap (λ q. q.1) p)

-- Every result of a run that does not fault has the property.
pub data Ensures {ℓ κ} {A : Type ℓ} (P : A → Type κ) : Option A → Type (ℓ ⊔ κ) where
  faulted : Ensures P none
  returned : {a : A} → P a → Ensures P (some a)

pub Ensures-any {ℓ} : {A : Type ℓ} (m : Option A) → Ensures (λ (a : A). m ≡ some a) m
Ensures-any none = faulted
Ensures-any (some a) = returned refl

pub Ensures->>= {ℓ κ ι ι'} :
    {A : Type ℓ} {B : Type κ} {Q : A → Type ι} {P : B → Type ι'} (m : Option A) (f : A → Option B)
    → Ensures Q m
    → ((a : A) → Q a → Ensures P (f a))
    → Ensures P (m >>= f)
Ensures->>= none f faulted k = faulted
Ensures->>= (some a) f (returned h) k = k a h

pub Ensures-weaken {ℓ κ ι} :
    {A : Type ℓ} {Q : A → Type κ} {P : A → Type ι} (m : Option A)
    → ((a : A) → Q a → P a)
    → Ensures Q m
    → Ensures P m
Ensures-weaken none f faulted = faulted
Ensures-weaken (some a) f (returned h) = returned (f a h)

-- A run of which only its result is known.
pub Ensures-bind {ℓ κ ι} :
    {A : Type ℓ} {B : Type κ} {P : B → Type ι} (m : Option A) (f : A → Option B)
    → ((a : A) → m ≡ some a → Ensures P (f a))
    → Ensures P (m >>= f)
Ensures-bind none f k = faulted
Ensures-bind (some a) f k = k a refl

pub Ensures-if {ℓ κ} :
    {A : Type ℓ} {P : A → Type κ} (b : Bool) (x y : Option A)
    → (b ≡ true → Ensures P x)
    → (b ≡ false → Ensures P y)
    → Ensures P (if b then x else y)
Ensures-if true x y h k = h refl
Ensures-if false x y h k = k refl

-- A run that does not fault has a result.
pub Ensures-run {ℓ κ} :
    {A : Type ℓ} {P : A → Type κ} (m : Option A) (a : A) → Ensures P m → m ≡ some a → P a
Ensures-run none a faulted e = cc e
Ensures-run {P = P} (some b) a (returned h) e = subst P (some-inj b a e) h
