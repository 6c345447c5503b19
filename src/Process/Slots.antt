-- ===== src/Process/Slots.antt =====
-- `process_get_free_slot` and `process_get`.
use guava_os_pro.Prelude.{
  ℕ, zero, suc, ◌+◌, ◌<◌, ◌≡◌, ◌⊎◌, inl, inr, refl, ap, ◌∙◌, arith, Option, none, some, List, [],
  ◌∷◌, length, get_elem?, sym, lt_of_get_elem?, lt→leb_false,
}
use guava_os_pro.Prelude.Int.{pos_part, ℤ, pos}
use guava_os_pro.Status.{eistkn}
use guava_os_pro.Process.{free_slot_loop, get_free_slot, process_get, max_processes}

-- The first slot without a process, or the error where there is none.
pub data FreeSlot (ps : List (Option ℕ)) : ℤ → Type 0 where
  found :
      (i : ℕ)
      → get_elem? ps i ≡ some none
      → ((j : ℕ) → j < i → (p : ℕ) × (get_elem? ps j ≡ some (some p)))
      → FreeSlot ps (pos i)
  all_taken :
      ((j : ℕ) → j < length ps → (p : ℕ) × (get_elem? ps j ≡ some (some p))) → FreeSlot ps eistkn

-- The loop counts from `i` on.
free_slot_loop_lem :
    (ps : List (Option ℕ)) (i : ℕ)
    → ((k : ℕ) × (free_slot_loop ps i ≡ pos (i + k))
        × (get_elem? ps k ≡ some none)
        × ((j : ℕ) → j < k → (p : ℕ) × (get_elem? ps j ≡ some (some p))))
      ⊎ ((free_slot_loop ps i ≡ eistkn)
          × ((j : ℕ) → j < length ps → (p : ℕ) × (get_elem? ps j ≡ some (some p))))
unfolding free_slot_loop
free_slot_loop_lem [] i = inr (refl, λ j h. absurd (omega arith))
free_slot_loop_lem (none ∷ ps) i = inl (0, ap pos (omega arith), refl, λ j h. absurd (omega arith))
free_slot_loop_lem (some p ∷ ps) i = elim (free_slot_loop_lem ps (i + 1)) [
  | inl (k, e, at, before) ↦ inl (suc k, e ∙ ap pos (omega arith), at, λ j h. taken j k h before)
  | inr (e, all) ↦ inr (e, λ j h. taken j (length ps) h all)
]
  where
    taken :
        (j k : ℕ)
        → j < suc k
        → ((j' : ℕ) → j' < k → (q : ℕ) × (get_elem? ps j' ≡ some (some q)))
        → (q : ℕ) × (get_elem? (some p ∷ ps) j ≡ some (some q))
    taken zero k h before = (p, refl)
    taken (suc j) k h before = before j (omega arith)

-- `process_get_free_slot` returns the first slot without a process, and -EISTKN where every slot is
-- taken.
pub get_free_slot_lem : (ps : List (Option ℕ)) → FreeSlot ps (get_free_slot ps)
unfolding get_free_slot
get_free_slot_lem ps = elim (free_slot_loop_lem ps 0) [
  | inl (k, e, at, before) ↦
      let first : 0 + k ≡ k = omega arith in rw (e, first) (found k at before)
  | inr (e, all) ↦ rw e (all_taken all)
]

-- The slot that is found has no process.
pub process_get-get_free_slot :
    (ps : List (Option ℕ)) (slot : ℕ)
    → length ps ≡ max_processes
    → get_free_slot ps ≡ pos slot
    → (slot < max_processes) × (process_get ps (pos slot) ≡ none)
unfolding get_free_slot process_get
process_get-get_free_slot ps slot h e = elim (free_slot_loop_lem ps 0) [
  | inl (k, e', at, before) ↦
      let same : slot ≡ k = omega (arith, ap pos_part (sym e ∙ e')) in
      let inside : slot < max_processes = omega (arith, lt_of_get_elem? ps k at) in
      (inside, rw (lt→leb_false max_processes slot inside, same, at))
  | inr (e', all) ↦ cc (e, e')
]
