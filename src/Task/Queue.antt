-- ===== src/Task/Queue.antt =====
-- The linked tasks as a list of addresses.
use guava_os_pro.Prelude.{
  ℕ, ◌≡◌, ◌≢◌, refl, sym, ap, ◌∙◌, List, [], ◌∷◌, ◌++◌, All, ==_refl, ne→==_false,
}
use guava_os_pro.Task.{Task, Tasks, put}

abbrev pub first : List ℕ → ℕ
first [] = 0
first (x ∷ xs) = x

abbrev pub last : ℕ → List ℕ → ℕ
last a [] = a
last a (x ∷ xs) = last x xs

abbrev pub Absent : ℕ → List ℕ → Type 0
Absent a = All (λ x. x ≢ a)

abbrev pub Distinct : List ℕ → Type 0
Distinct [] = Unit
Distinct (x ∷ xs) = Absent x xs × Distinct xs

-- Every task's `next` is the one behind it.
abbrev pub Forward : (ℕ → Task) → List ℕ → Type 0
Forward s [] = Unit
Forward s (x ∷ xs) = (x ≢ 0) × ((s x).next ≡ first xs) × Forward s xs

-- Every task's `prev` is the one in front of it.
abbrev pub Backward : (ℕ → Task) → ℕ → List ℕ → Type 0
Backward s p [] = Unit
Backward s p (x ∷ xs) = ((s x).prev ≡ p) × Backward s x xs

-- The tasks of a list, each once, in its order, from the head to the tail.
pub record IsList (v : Tasks) (xs : List ℕ) : Type 0 where
  pub forward : Forward v.store xs
  pub head_is : v.head ≡ first xs
  pub tail_is : v.tail ≡ last 0 xs

pub put-elsewhere : (v : Tasks) (a q : ℕ) (t : Task) → q ≢ a → (put v a t).store q ≡ v.store q
put-elsewhere v a q t h = rw (ne→==_false q a h)

pub put-here : (v : Tasks) (a : ℕ) (t : Task) → (put v a t).store a ≡ t
put-here v a t = rw (==_refl a)

pub Forward-put :
    (v : Tasks) (a : ℕ) (t : Task) (xs : List ℕ)
    → Absent a xs
    → Forward v.store xs
    → Forward (put v a t).store xs
Forward-put v a t [] n f = tt
Forward-put v a t (x ∷ xs) n f =
    (f.0, ap (λ (k : Task). k.next) (put-elsewhere v a x t n.0) ∙ f.1, Forward-put v a t xs n.1 f.2)

last-Absent : (a x : ℕ) (xs ys : List ℕ) → Absent a ((x ∷ xs) ++ ys) → last x xs ≢ a
last-Absent a x [] ys n = n.0
last-Absent a x (y ∷ xs) ys n = last-Absent a y xs ys n.1

first-append : (y : ℕ) (pre ys zs : List ℕ) → first ((y ∷ pre) ++ ys) ≡ first ((y ∷ pre) ++ zs)
first-append y pre ys zs = refl

-- The last task of a part in front is linked to what comes behind, instead of to what came.
pub relink :
    (v : Tasks) (a : ℕ) (pre post old : List ℕ) (t : Task)
    → t.next ≡ first post
    → Distinct (a ∷ pre ++ old)
    → Forward v.store (a ∷ pre ++ old)
    → Absent (last a pre) post
    → Forward v.store post
    → Forward (put v (last a pre) t).store (a ∷ pre ++ post)
relink v a [] post old t e d f n k =
    (f.0, ap (λ (x : Task). x.next) (put-here v a t) ∙ e, Forward-put v a t post n k)
relink v a (b ∷ pre) post old t e d f n k = (
  f.0,
  ap (λ (x : Task). x.next)
        (put-elsewhere v (last b pre) a t (λ s. last-Absent a b pre old d.0 (sym s)))
      ∙ f.1,
  relink v b pre post old t e d.1 f.2 n k,
)
