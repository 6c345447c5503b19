-- ===== src/Task/Tests.antt =====
-- Three tasks, of which the second goes, and a new one behind them.
use guava_os_pro.Prelude.{
  ℕ, ◌≡◌, ◌≢◌, refl, false, some, List, [], ◌∷◌, ◌++◌, arith, ◌==◌, if◌then◌else◌,
}
use guava_os_pro.Task.{Task, Tasks, ready, list_remove, new}
use guava_os_pro.Task.Queue.{Distinct, Backward, IsList}
use guava_os_pro.Task.Removal.{list_remove_lem}
use guava_os_pro.Task.Appending.{new_lem}

abbrev node : ℕ → ℕ → Task
node next prev = record (ready 9 8) { next = next; prev = prev }

abbrev three : Tasks
three = record {
  store = λ q. if q == 10 then node 20 0 else if q == 20 then node 30 10 else node 0 20;
  current = 20;
  head = 10;
  tail = 30;
}

abbrev order : List ℕ
order = 10 ∷ 20 ∷ 30 ∷ []

ne : (a b : ℕ) → (a == b) ≡ false → a ≢ b
ne a b h = ground arith

three-IsList : IsList three order
three-IsList = record {
  forward = (ne 10 0 refl, refl, (ne 20 0 refl, refl, (ne 30 0 refl, refl, tt)));
  head_is = refl;
  tail_is = refl;
}

three-Backward : Backward three.store 0 order
three-Backward = (refl, (refl, (refl, tt)))

order-Distinct : Distinct order
order-Distinct = ((ne 20 10 refl, (ne 30 10 refl, tt)), ((ne 30 20 refl, tt), (tt, tt)))

list_remove_lem_example :
    (v : Tasks) × (list_remove three 20 ≡ some v)
    × IsList v (10 ∷ 30 ∷ [])
    × (v.current ≡ 30)
    × ((y : ℕ) → (v.store y).prev ≡ (three.store y).prev)
list_remove_lem_example =
    list_remove_lem three (10 ∷ []) 20 (30 ∷ []) three-IsList three-Backward order-Distinct

new_lem_example :
    (v : Tasks) × (new three 40 9 8 ≡ some (40, v))
    × IsList v (order ++ 40 ∷ [])
    × Backward v.store 0 (order ++ 40 ∷ [])
    × (v.current ≡ 20)
new_lem_example =
    new_lem three order 40 9 8 three-IsList three-Backward order-Distinct (ne 40 0 refl)
      (ne 9 0 refl) (ne 10 40 refl, (ne 20 40 refl, (ne 30 40 refl, tt)))
