-- ===== src/Task/Appending.antt =====
-- `task_new` on the linked tasks.
use mathlib.Core.Path.{subst}
use mathlib.Core.List.{append-nil}
use native.Mathlib.Decide.{ℕ_discrete}
use guava_os_pro.Prelude.{
  ℕ, ◌≡◌, ◌≢◌, refl, sym, ap, ◌∙◌, some, List, [], ◌∷◌, ◌++◌, ◌==◌, ne→==_false, false,
  if◌then◌else◌,
}
use guava_os_pro.Task.{Task, Tasks, put, ready, init, append, new}
use guava_os_pro.Task.Queue.{
  last, Absent, Distinct, Forward, Backward, IsList, relink, Forward-put, put-here, put-elsewhere,
}

-- A store that keeps a task's `next` keeps the links, and one that keeps every `prev` of a list
-- keeps those.
Forward-same :
    (s s' : ℕ → Task) (xs : List ℕ)
    → ((y : ℕ) → (s' y).next ≡ (s y).next)
    → Forward s xs
    → Forward s' xs
Forward-same s s' [] e f = tt
Forward-same s s' (x ∷ xs) e f = (f.0, e x ∙ f.1, Forward-same s s' xs e f.2)

Backward-snoc :
    (s s' : ℕ → Task) (p : ℕ) (xs : List ℕ) (a : ℕ)
    → Absent a xs
    → ((y : ℕ) → y ≢ a → (s' y).prev ≡ (s y).prev)
    → (s' a).prev ≡ last p xs
    → Backward s p xs
    → Backward s' p (xs ++ a ∷ [])
Backward-snoc s s' p [] a n e k b = (k, tt)
Backward-snoc s s' p (x ∷ xs) a n e k b = (e x n.0 ∙ b.0, Backward-snoc s s' x xs a n.1 e k b.1)

pub last-snoc : (p : ℕ) (xs : List ℕ) (a : ℕ) → last p (xs ++ a ∷ []) ≡ a
last-snoc p [] a = refl
last-snoc p (x ∷ xs) a = last-snoc x xs a

last-present : (a x : ℕ) (xs : List ℕ) → Absent a (x ∷ xs) → last x xs ≢ a
last-present a x [] n = n.0
last-present a x (y ∷ xs) n = last-present a y xs n.1

-- The links after a task that leads nowhere is appended.
append_lem :
    (v : Tasks) (a : ℕ) (pre : List ℕ) (task : ℕ)
    → IsList v (a ∷ pre)
    → Distinct (a ∷ pre)
    → task ≢ 0
    → Absent task (a ∷ pre)
    → (v.store task).next ≡ 0
    → IsList (append v task) (a ∷ pre ++ task ∷ [])
      × (((append v task).store task).prev ≡ last a pre)
      × ((y : ℕ) → y ≢ task → ((append v task).store y).prev ≡ (v.store y).prev)
unfolding append
append_lem v a pre task l d z n e = (
  record {
    forward = Forward-same v1.store v2.store (a ∷ pre ++ task ∷ []) same_next linked;
    head_is = l.head_is;
    tail_is = sym (last-snoc a pre task);
  },
  ap (λ (k : Task). k.prev) (put-here v1 task backward) ∙ l.tail_is,
  same_prev,
)
  where
    forward : Task
    forward = record (v.store v.tail) { next = task }

    v1 : Tasks
    v1 = put v v.tail forward

    backward : Task
    backward = record (v1.store task) { prev = v.tail }

    v2 : Tasks
    v2 = put v1 task backward

    linked : Forward v1.store (a ∷ pre ++ task ∷ [])
    linked =
        subst (λ p. Forward (put v p forward).store (a ∷ pre ++ task ∷ [])) (sym l.tail_is)
          (relink v a pre (task ∷ []) [] forward refl
            (subst (λ xs. Distinct (a ∷ xs)) (sym (append-nil pre)) d)
            (subst (λ xs. Forward v.store (a ∷ xs)) (sym (append-nil pre)) l.forward)
            ((λ s. last-present task a pre n (sym s)), tt) (z, e, tt))

    same_next : (y : ℕ) → (v2.store y).next ≡ (v1.store y).next
    same_next y = elim (ℕ_discrete y task) [
      | yes k ↦ rw k (ap (λ (t : Task). t.next) (put-here v1 task backward))
      | no k ↦ ap (λ (t : Task). t.next) (put-elsewhere v1 task y backward k)
    ]

    same_prev : (y : ℕ) → y ≢ task → (v2.store y).prev ≡ (v.store y).prev
    same_prev y k =
        ap (λ (t : Task). t.prev) (put-elsewhere v1 task y backward k)
        ∙ elim (ℕ_discrete y v.tail) [
          | yes m ↦ rw m (ap (λ (t : Task). t.prev) (put-here v v.tail forward))
          | no m ↦ ap (λ (t : Task). t.prev) (put-elsewhere v v.tail y forward m)
        ]

-- For a list that is linked in both directions, with no task twice, a new task at an address that
-- is none of theirs is linked behind the last one in both directions, where both allocations
-- succeed; the current task stays, unless the list was empty: then it is the new one.
pub new_lem :
    (v : Tasks) (xs : List ℕ) (task page_directory process : ℕ)
    → IsList v xs
    → Backward v.store 0 xs
    → Distinct xs
    → task ≢ 0
    → page_directory ≢ 0
    → Absent task xs
    → (v' : Tasks) × (new v task page_directory process ≡ some (task, v'))
      × IsList v' (xs ++ task ∷ [])
      × Backward v'.store 0 (xs ++ task ∷ [])
      × (v'.current ≡ (if v.head == 0 then task else v.current))
unfolding new init
new_lem v [] task page_directory process l b d z q n = (
  record (put v task (ready page_directory process)) { head = task; tail = task; current = task },
  rw (ne→==_false task 0 z, ne→==_false page_directory 0 q, l.head_is),
  record {
    forward = (z, ap (λ (k : Task). k.next) (put-here v task (ready page_directory process)), tt);
    head_is = refl;
    tail_is = refl;
  },
  (ap (λ (k : Task). k.prev) (put-here v task (ready page_directory process)), tt),
  rw l.head_is refl,
)
new_lem v (a ∷ pre) task page_directory process l b d z q n = (
  append v1 task,
  rw (ne→==_false task 0 z, ne→==_false page_directory 0 q, head_set),
  appended.0,
  Backward-snoc v.store (append v1 task).store 0 (a ∷ pre) task n
      (λ y k. appended.2 y k ∙ ap (λ (t : Task). t.prev) (put-elsewhere v task y fresh k))
      appended.1 b,
  rw head_set refl,
)
  where
    head_set : (v.head == 0) ≡ false
    head_set = ne→==_false v.head 0 (λ e. l.forward.0 (sym l.head_is ∙ e))

    fresh : Task
    fresh = ready page_directory process

    v1 : Tasks
    v1 = put v task fresh

    appended :
        IsList (append v1 task) (a ∷ pre ++ task ∷ [])
        × (((append v1 task).store task).prev ≡ last a pre)
        × ((y : ℕ) → y ≢ task → ((append v1 task).store y).prev ≡ (v1.store y).prev)
    appended =
        append_lem v1 a pre task
          (record {
            forward = Forward-put v task fresh (a ∷ pre) n l.forward;
            head_is = l.head_is;
            tail_is = l.tail_is;
          })
          d z n (ap (λ (t : Task). t.next) (put-here v task fresh))
