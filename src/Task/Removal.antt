-- ===== src/Task/Removal.antt =====
-- `task_list_remove` on the linked tasks.
use native.Mathlib.Decide.{ℕ_discrete}
use guava_os_pro.Prelude.{
  ℕ, ◌≡◌, ◌≢◌, refl, sym, ap, ◌∙◌, arith, some, List, [], ◌∷◌, ◌++◌, ◌==◌, ==_refl, ne→==_false,
  if◌then◌else◌,
}
use guava_os_pro.Task.{Task, Tasks, put, leave, get_next, list_remove}
use guava_os_pro.Task.Queue.{
  first, last, Absent, Distinct, Forward, Backward, IsList, relink, put-here, put-elsewhere,
  put-here,
}

module _ (v : Tasks) where
  Forward-behind : (pre ys : List ℕ) → Forward v.store (pre ++ ys) → Forward v.store ys
  Forward-behind [] ys f = f
  Forward-behind (a ∷ pre) ys f = Forward-behind pre ys f.2

  Backward-behind :
      (p : ℕ) (pre : List ℕ) (x : ℕ) (post : List ℕ)
      → Backward v.store p (pre ++ x ∷ post)
      → (v.store x).prev ≡ last p pre
  Backward-behind p [] x post b = b.0
  Backward-behind p (a ∷ pre) x post b = Backward-behind a pre x post b.1

  last-nonzero : (a : ℕ) (pre ys : List ℕ) → Forward v.store (a ∷ pre ++ ys) → last a pre ≢ 0
  last-nonzero a [] ys f = f.0
  last-nonzero a (b ∷ pre) ys f = last-nonzero b pre ys f.2

Absent-behind : (a : ℕ) (pre ys : List ℕ) → Absent a (pre ++ ys) → Absent a ys
Absent-behind a [] ys n = n
Absent-behind a (b ∷ pre) ys n = Absent-behind a pre ys n.1

Distinct-behind : (pre ys : List ℕ) → Distinct (pre ++ ys) → Distinct ys
Distinct-behind [] ys d = d
Distinct-behind (a ∷ pre) ys d = Distinct-behind pre ys d.1

-- The last task of the part in front is none of those behind.
last-front : (a : ℕ) (pre ys : List ℕ) → Distinct (a ∷ pre ++ ys) → Absent (last a pre) ys
last-front a [] ys d = d.0
last-front a (b ∷ pre) ys d = last-front b pre ys d.1

last-append : (p : ℕ) (pre ys : List ℕ) → last p (pre ++ ys) ≡ last (last p pre) ys
last-append p [] ys = refl
last-append p (a ∷ pre) ys = last-append a pre ys

pub last-other : (x y : ℕ) (ys : List ℕ) → Absent x (y ∷ ys) → last y ys ≢ x
last-other x y [] n = n.0
last-other x y (z ∷ ys) n = last-other x z ys n.1

-- The tail after the removal.
tail_after :
    (x p t : ℕ) (pre post : List ℕ)
    → p ≡ last 0 pre
    → t ≡ last 0 (pre ++ x ∷ post)
    → Absent x post
    → (if x == t then p else t) ≡ last 0 (pre ++ post)
tail_after x p t pre [] e k n =
    rw (k, last-append 0 pre (x ∷ []), last-append 0 pre [], ==_refl x) e
tail_after x p t pre (y ∷ post) e k n = rw (
  k,
  last-append 0 pre (x ∷ y ∷ post),
  last-append 0 pre (y ∷ post),
  ne→==_false x (last y post) (λ s. last-other x y post n (sym s)),
)

-- The head, the tail and the current task without a task whose neighbours are `n` and `p`.
abbrev without : Tasks → ℕ → ℕ → ℕ → Tasks
without v x n p = record v {
  head = if x == v.head then n else v.head;
  tail = if x == v.tail then p else v.tail;
  current =
      if x == v.current
      then (if n == 0 then (if x == v.head then n else v.head) else n)
      else v.current;
}

leave_lem :
    (v : Tasks) (x n p : ℕ)
    → x ≢ 0
    → (v.store x).next ≡ n
    → (v.store x).prev ≡ p
    → leave v x ≡ some (without v x n p)
unfolding leave get_next
leave_lem v x n p z e k = ground arith

-- From a list that is linked in both directions, with no task twice, taking a task out leaves the
-- others, in their order, linked from the head to the tail by `next`. The current task stays,
-- unless it is the one that goes: then the one behind it is the current task, or the head where it
-- was the last. No `prev` is changed, so that of the task behind the one that goes still leads to
-- it.
pub list_remove_lem :
    (v : Tasks) (pre : List ℕ) (x : ℕ) (post : List ℕ)
    → IsList v (pre ++ x ∷ post)
    → Backward v.store 0 (pre ++ x ∷ post)
    → Distinct (pre ++ x ∷ post)
    → (v' : Tasks) × (list_remove v x ≡ some v')
      × IsList v' (pre ++ post)
      × (v'.current ≡ (
          if x == v.current
          then (if first post == 0 then first (pre ++ post) else first post)
          else v.current))
      × ((y : ℕ) → (v'.store y).prev ≡ (v.store y).prev)
unfolding list_remove get_next
list_remove_lem v [] x post l b d = (
  without v x (first post) 0,
  rw b.0 (leave_lem v x (first post) 0 l.forward.0 l.forward.1 b.0),
  record {
    forward = l.forward.2;
    head_is = rw (l.head_is, ==_refl x);
    tail_is = tail_after x 0 v.tail [] post refl l.tail_is d.0;
  },
  rw (l.head_is, ==_refl x),
  λ y. refl,
)
list_remove_lem v (a ∷ pre) x post l b d = (
  without v1 x (first post) p,
  rw (prev_is, ne→==_false p 0 (last-nonzero v a pre (x ∷ post) l.forward))
      (leave_lem v1 x (first post) p behind.0 (ap (λ (k : Task). k.next) kept ∙ behind.1)
        (ap (λ (k : Task). k.prev) kept ∙ prev_is)),
  record {
    forward = relink v a pre post (x ∷ post) linked behind.1 d l.forward apart.1 behind.2;
    head_is = rw (l.head_is, ne→==_false x a other);
    tail_is = tail_after x p v.tail (a ∷ pre) post refl l.tail_is absent;
  },
  rw (l.head_is, ne→==_false x a other),
  same_prev,
)
  where
    p : ℕ
    p = last a pre

    linked : Task
    linked = record (v.store p) { next = (v.store x).next }

    v1 : Tasks
    v1 = put v p linked

    prev_is : (v.store x).prev ≡ p
    prev_is = Backward-behind v 0 (a ∷ pre) x post b

    behind : Forward v.store (x ∷ post)
    behind = Forward-behind v (a ∷ pre) (x ∷ post) l.forward

    apart : Absent p (x ∷ post)
    apart = last-front a pre (x ∷ post) d

    kept : v1.store x ≡ v.store x
    kept = put-elsewhere v p x linked apart.0

    other : x ≢ a
    other = (Absent-behind a pre (x ∷ post) d.0).0

    absent : Absent x post
    absent = (Distinct-behind (a ∷ pre) (x ∷ post) d).0

    same_prev : (y : ℕ) → (v1.store y).prev ≡ (v.store y).prev
    same_prev y = elim (ℕ_discrete y p) [
      | yes e ↦ rw e (ap (λ (k : Task). k.prev) (put-here v p linked))
      | no n ↦ ap (λ (k : Task). k.prev) (put-elsewhere v p y linked n)
    ]
