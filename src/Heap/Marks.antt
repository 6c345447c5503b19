-- ===== src/Heap/Marks.antt =====
-- The loops of `heap_mark_blocks_taken` and `heap_mark_blocks_free` on a run of blocks.
use mathlib.Core.List.{append_assoc}
use guava_os_pro.Prelude.{
  ℕ, zero, suc, ◌+◌, ◌<◌, ◌≡◌, ◌≢◌, refl, sym, ap, ◌∙◌, none, some, List, [], ◌∷◌, ◌++◌, arith,
  length, get_elem?-append_right, set, set?-eq-set, set?-eq-none, length-set, ◌≤◌, replicate,
  length-append, bit_and,
}
use native.Mathlib.Decide.{dec_lt}
use guava_os_pro.Memory.Laws.{set?-append}
use guava_os_pro.Heap.{mark_taken_loop, mark_free_loop}
use guava_os_pro.Heap.Regions.{followers}

-- The entry that follows in an allocation with `m + 1` more blocks.
abbrev next_entry : ℕ → ℕ
next_entry zero = 0x01
next_entry (suc m) = 0x81

followers-suc : (m : ℕ) → followers (suc m) ≡ next_entry m ∷ followers m
followers-suc zero = refl
followers-suc (suc m) = refl

-- One write at the end of `pre`, with the entry for the next one.
step-last :
    (end i e x : ℕ) (pre post : List ℕ)
    → i ≡ length pre
    → mark_taken_loop end 1 i e (pre ++ x ∷ post) ≡ some (pre ++ e ∷ post)
unfolding mark_taken_loop
step-last end i e x pre post h = rw (set?-append pre x e post i h)

step-more :
    (end m i e x : ℕ) (pre post : List ℕ)
    → i ≡ length pre
    → i + suc m ≡ end
    → mark_taken_loop end (suc (suc m)) i e (pre ++ x ∷ post)
      ≡ mark_taken_loop end (suc m) (i + 1) (next_entry m) ((pre ++ e ∷ []) ++ post)
unfolding mark_taken_loop
step-more end zero i e x pre post h k =
    rw (set?-append pre x e post i h, append_assoc pre (e ∷ []) post)
      (let last : i + 1 ≡ end = omega arith in ground arith)
step-more end (suc m) i e x pre post h k =
    rw (set?-append pre x e post i h, append_assoc pre (e ∷ []) post)
      (let inner : i + 1 ≢ end = omega arith in ground arith)

pub mark_taken_loop_lem :
    (end m i e : ℕ) (pre post : List ℕ)
    → i ≡ length pre
    → i + m ≡ end
    → mark_taken_loop end (suc m) i e (pre ++ (replicate (suc m) 0 ++ post))
      ≡ some (pre ++ e ∷ (followers m ++ post))
mark_taken_loop_lem end zero i e pre post h k = step-last end i e 0 pre post h
mark_taken_loop_lem end (suc m) i e pre post h k =
    step-more end m i e 0 pre (replicate (suc m) 0 ++ post) h k
    ∙ mark_taken_loop_lem end m (i + 1) (next_entry m) (pre ++ e ∷ []) post
        (omega (arith, length-append pre (e ∷ []))) (omega arith)
    ∙ ap some (
        append_assoc pre (e ∷ []) (next_entry m ∷ (followers m ++ post))
        ∙ ap (λ es. pre ++ e ∷ (es ++ post)) (sym (followers-suc m)))

-- The flag of an entry with `m` more behind it in its allocation.
abbrev pub Links : ℕ → ℕ → Type 0
Links e zero = bit_and e 0x80 ≡ 0
Links e (suc m) = bit_and e 0x80 ≡ 0x80

Links-next_entry : (m : ℕ) → Links (next_entry m) m
Links-next_entry zero = refl
Links-next_entry (suc m) = refl

free-last :
    (left i e : ℕ) (pre post : List ℕ)
    → i ≡ length pre
    → Links e 0
    → mark_free_loop (suc left) i (pre ++ e ∷ post) ≡ some (pre ++ 0 ∷ post)
unfolding mark_free_loop
free-last left i e pre post h k =
    rw (get_elem?-append_right pre (e ∷ post) 0 i (omega arith), set?-append pre e 0 post i h, k)

free-more :
    (left m i e : ℕ) (pre post : List ℕ)
    → i ≡ length pre
    → Links e (suc m)
    → mark_free_loop (suc left) i (pre ++ e ∷ post)
      ≡ mark_free_loop left (i + 1) ((pre ++ 0 ∷ []) ++ post)
unfolding mark_free_loop
free-more left m i e pre post h k = rw (
  get_elem?-append_right pre (e ∷ post) 0 i (omega arith),
  set?-append pre e 0 post i h,
  k,
  append_assoc pre (0 ∷ []) post,
)

pub mark_free_loop_lem :
    (left m i e : ℕ) (pre post : List ℕ)
    → i ≡ length pre
    → Links e m
    → m < left
    → mark_free_loop left i (pre ++ e ∷ (followers m ++ post))
      ≡ some (pre ++ (replicate (suc m) 0 ++ post))
mark_free_loop_lem zero m i e pre post h k lt = absurd (omega arith)
mark_free_loop_lem (suc left) zero i e pre post h k lt = free-last left i e pre post h k
mark_free_loop_lem (suc left) (suc m) i e pre post h k lt =
    free-more left m i e pre (followers (suc m) ++ post) h k
    ∙ ap (λ es. mark_free_loop left (i + 1) ((pre ++ 0 ∷ []) ++ (es ++ post))) (followers-suc m)
    ∙ mark_free_loop_lem left m (i + 1) (next_entry m) (pre ++ 0 ∷ []) post
        (omega (arith, length-append pre (0 ∷ []))) (Links-next_entry m) (omega arith)
    ∙ ap some (append_assoc pre (0 ∷ []) (replicate (suc m) 0 ++ post))

-- A run that does not fit is marked up to the end of the table, and then past it.
pub mark_taken_loop_past :
    (end left i e : ℕ) (es : List ℕ)
    → i ≤ length es
    → length es < i + left
    → mark_taken_loop end left i e es ≡ none
unfolding mark_taken_loop
mark_taken_loop_past end zero i e es h k = absurd (omega arith)
mark_taken_loop_past end (suc left) i e es h k = elim (dec_lt i (length es)) [
  | yes p ↦ rw (set?-eq-set es i e p) (
      mark_taken_loop_past end left (i + 1) _ (set es i e) (rw length-set (omega arith))
        (rw length-set (omega arith)))
  | no p ↦ rw (set?-eq-none es i e (omega arith))
]

-- A run that fits is marked.
pub mark_taken_loop_fits :
    (end left i e : ℕ) (es : List ℕ)
    → i + left ≤ length es
    → (es' : List ℕ) × (mark_taken_loop end left i e es ≡ some es')
unfolding mark_taken_loop
mark_taken_loop_fits end zero i e es h = (es, refl)
mark_taken_loop_fits end (suc left) i e es h =
    rw (set?-eq-set es i e (omega arith))
      (mark_taken_loop_fits end left (i + 1) _ (set es i e) (rw length-set (omega arith)))
