-- ===== src/Heap/Search.antt =====
-- `heap_get_start_block`: what the search for free blocks finds.
use guava_os_pro.Prelude.{
  ℕ, zero, suc, ◌+◌, ◌-◌, ◌≤◌, ◌<◌, ◌≡◌, refl, ◌≢◌, ◌⊎◌, inl, inr, Option, none, some, List, arith,
  length, get_or, get_elem?-eq-get_or,
}
use native.Mathlib.Decide.{ℕ_discrete, dec_lt}
use guava_os_pro.Heap.{or_else, entry_type, start_block_loop}

-- Block `j` is free; a block past the table is not.
abbrev pub IsFree : List ℕ → ℕ → Type 0
IsFree es j = entry_type (get_or es j 1) ≡ 0

-- The `k` blocks from `b` on are free.
abbrev pub FreeRun : List ℕ → ℕ → ℕ → Type 0
FreeRun es b k = (j : ℕ) → b ≤ j → j < b + k → IsFree es j

-- The entry before index `i`, if there is one, is taken.
abbrev pub EndsTaken : List ℕ → ℕ → Type 0
EndsTaken es i = (j : ℕ) → suc j ≡ i → ¬ IsFree es j

-- The outcomes of the search for `n` blocks: a run that fits; a run at the end of the table that is
-- too short; or nothing, in
-- a table that does not end in a free block.
pub data Outcome (es : List ℕ) (n : ℕ) : Option (Option ℕ) → Type 0 where
  full : (b : ℕ) → b + n ≤ length es → FreeRun es b n → Outcome es n (some (some b))
  short :
      (b : ℕ)
      → b < length es
      → length es < b + n
      → FreeRun es b (length es - b)
      → Outcome es n (some (some b))
  nothing : EndsTaken es (length es) → Outcome es n (some none)

-- What `bc` and `bs` say at index `i`.
abbrev Counts : List ℕ → ℕ → ℕ → ℕ → Option ℕ → Type 0
Counts es n i bc none = (bc ≡ 0) × EndsTaken es i
Counts es n i bc (some b) = (b + bc ≡ i) × (0 < bc) × (bc < n) × FreeRun es b bc

-- Each entry is free or taken.
IsFree-cases : (es : List ℕ) (i : ℕ) → IsFree es i ⊎ (¬ IsFree es i)
IsFree-cases es i = elim (ℕ_discrete (entry_type (get_or es i 1)) 0) [
  | yes e ↦ inl e
  | no e ↦ inr e
]

module _ (es : List ℕ) (n : ℕ) where
  loop-taken :
      (left i bc : ℕ) (bs : Option ℕ)
      → i < length es
      → ¬ IsFree es i
      → start_block_loop es n (suc left) i bc bs ≡ start_block_loop es n left (i + 1) 0 none
  unfolding start_block_loop
  loop-taken left i bc bs h t = ground (arith, get_elem?-eq-get_or es i 1)

  loop-found :
      (left i bc : ℕ) (bs : Option ℕ)
      → i < length es
      → IsFree es i
      → bc + 1 ≡ n
      → start_block_loop es n (suc left) i bc bs ≡ some (some (or_else bs i))
  unfolding start_block_loop
  loop-found left i bc bs h t e = ground (arith, get_elem?-eq-get_or es i 1)

  loop-more :
      (left i bc : ℕ) (bs : Option ℕ)
      → i < length es
      → IsFree es i
      → bc + 1 ≢ n
      → start_block_loop es n (suc left) i bc bs
        ≡ start_block_loop es n left (i + 1) (bc + 1) (some (or_else bs i))
  unfolding start_block_loop
  loop-more left i bc bs h t e = ground (arith, get_elem?-eq-get_or es i 1)

  Counts-free :
      (i bc : ℕ) (bs : Option ℕ)
      → Counts es n i bc bs
      → IsFree es i
      → (or_else bs i + (bc + 1) ≡ i + 1) × FreeRun es (or_else bs i) (bc + 1)
  Counts-free i bc none c f = (omega arith, λ j p q. (let e : j ≡ i = omega arith in rw e f))
  Counts-free i bc (some b) c f = (
    omega arith,
    λ j p q. elim (ℕ_discrete j i) [ yes e ↦ rw e f | no e ↦ c.3 j p (omega arith) ],
  )

  reset : (i : ℕ) → ¬ IsFree es i → Counts es n (i + 1) 0 none
  reset i taken = (refl, λ j e f. (let same : j ≡ i = omega arith in taken (rw same at f)))

  Counts-lt : (i bc : ℕ) (bs : Option ℕ) → 0 < n → Counts es n i bc bs → bc < n
  Counts-lt i bc none pos c = omega arith
  Counts-lt i bc (some b) pos c = c.2

  -- What the loop returns from any of its states.
  pub loop-Outcome :
      (left i bc : ℕ) (bs : Option ℕ)
      → 0 < n
      → i + left ≡ length es
      → Counts es n i bc bs
      → Outcome es n (start_block_loop es n left i bc bs)
  unfolding start_block_loop
  loop-Outcome zero i bc none pos e c = nothing (λ j h. c.1 j (omega arith))
  loop-Outcome zero i bc (some b) pos e c =
      short b (omega arith) (omega arith) (λ j p q. c.3 j p (omega arith))
  loop-Outcome (suc left) i bc bs pos e c = elim (IsFree-cases es i) [
    | inr taken ↦
        rw (loop-taken left i bc bs (omega arith) taken)
          (loop-Outcome left (i + 1) 0 none pos (omega arith) (reset i taken))
    | inl is_free ↦
        let (ends, run) = Counts-free i bc bs c is_free in
        elim (ℕ_discrete (bc + 1) n) [
          | yes last ↦
              rw (loop-found left i bc bs (omega arith) is_free last)
                (full (or_else bs i) (omega arith) (rw last at run))
          | no goes_on ↦ rw (loop-more left i bc bs (omega arith) is_free goes_on) (
              loop-Outcome left (i + 1) (bc + 1) (some (or_else bs i)) pos (omega arith)
                (ends, omega arith, omega (arith, Counts-lt i bc bs pos c), run))
        ]
  ]

  -- A run that fits and starts behind the current one does not hold a taken block.
  past :
      (i bc s : ℕ) (bs : Option ℕ)
      → 0 < n
      → Counts es n i bc bs
      → or_else bs i ≤ s
      → FreeRun es s n
      → ¬ IsFree es i
      → i < s
  past i bc s bs pos c h run taken = elim (dec_lt i s) [
    | yes p ↦ p
    | no p ↦ absurd (taken (run i (omega arith) (within bs c h)))
  ]
    where
      within : (o : Option ℕ) → Counts es n i bc o → or_else o i ≤ s → i < s + n
      within none c' h' = omega arith
      within (some b) c' h' = omega arith

  -- The search passes no run that fits: it stops at `s` or before.
  pub loop-le :
      (left i bc s : ℕ) (bs : Option ℕ)
      → 0 < n
      → i + left ≡ length es
      → Counts es n i bc bs
      → or_else bs i ≤ s
      → s + n ≤ length es
      → FreeRun es s n
      → (b : ℕ) × (start_block_loop es n left i bc bs ≡ some (some b)) × (b ≤ s)
  unfolding start_block_loop
  loop-le zero i bc s none pos e c h fits run = absurd (omega arith)
  loop-le zero i bc s (some b) pos e c h fits run = (b, refl, h)
  loop-le (suc left) i bc s bs pos e c h fits run = elim (IsFree-cases es i) [
    | inr taken ↦ rw (loop-taken left i bc bs (omega arith) taken) (
        loop-le left (i + 1) 0 s none pos (omega arith) (reset i taken)
          (omega (arith, past i bc s bs pos c h run taken)) fits run)
    | inl is_free ↦
        let front = Counts-free i bc bs c is_free in
        elim (ℕ_discrete (bc + 1) n) [
          | yes last ↦ (or_else bs i, loop-found left i bc bs (omega arith) is_free last, h)
          | no goes_on ↦ rw (loop-more left i bc bs (omega arith) is_free goes_on) (
              loop-le left (i + 1) (bc + 1) s (some (or_else bs i)) pos (omega arith)
                (front.0, omega arith, omega (arith, Counts-lt i bc bs pos c), front.1) h fits run)
        ]
  ]
