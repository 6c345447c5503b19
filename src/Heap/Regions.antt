-- ===== src/Heap/Regions.antt =====
-- What the table stands for: the heap's blocks as a sequence of free blocks and allocations.
use mathlib.Core.List.{append_assoc}
use native.Mathlib.Decide.{dec_lt}
use guava_os_pro.Prelude.{
  ℕ, zero, suc, ◌+◌, ◌-◌, ◌≤◌, ◌<◌, ◌≡◌, refl, sym, ap, ◌∙◌, List, [], ◌∷◌, ◌++◌, arith, length,
  get_or, replicate, length-append,
}
use guava_os_pro.Heap.{entry_type}
use guava_os_pro.Heap.Search.{IsFree, FreeRun}

-- One free block, or an allocation of `extra + 1` blocks.
pub data Region : Type 0 where
  unused : Region
  used : (extra : ℕ) → Region

-- The entries of an allocation behind its first.
abbrev pub followers : ℕ → List ℕ
followers zero = []
followers (suc zero) = 0x01 ∷ []
followers (suc (suc k)) = 0x81 ∷ followers (suc k)

-- The entries of an allocation of `extra + 1` blocks.
abbrev pub run_entries : ℕ → List ℕ
run_entries zero = 0x41 ∷ []
run_entries (suc k) = 0xc1 ∷ followers (suc k)

abbrev pub encode : List Region → List ℕ
encode [] = []
encode (unused ∷ rs) = 0 ∷ encode rs
encode (used k ∷ rs) = run_entries k ++ encode rs

-- The number of blocks.
abbrev pub blocks : List Region → ℕ
blocks [] = 0
blocks (unused ∷ rs) = suc (blocks rs)
blocks (used k ∷ rs) = suc k + blocks rs

length-followers : (k : ℕ) → length (followers k) ≡ k
length-followers zero = refl
length-followers (suc zero) = refl
length-followers (suc (suc k)) = ap suc (length-followers (suc k))

pub length-run_entries : (k : ℕ) → length (run_entries k) ≡ suc k
length-run_entries zero = refl
length-run_entries (suc k) = ap suc (length-followers (suc k))

pub length-encode : (rs : List Region) → length (encode rs) ≡ blocks rs
length-encode [] = refl
length-encode (unused ∷ rs) = ap suc (length-encode rs)
length-encode (used k ∷ rs) =
    omega (arith, length-append (run_entries k) (encode rs), length-run_entries k, length-encode rs)

pub encode-append : (xs ys : List Region) → encode (xs ++ ys) ≡ encode xs ++ encode ys
encode-append [] ys = refl
encode-append (unused ∷ xs) ys = ap (◌∷◌ 0) (encode-append xs ys)
encode-append (used k ∷ xs) ys =
    ap (◌++◌ (run_entries k)) (encode-append xs ys)
    ∙ sym (append_assoc (run_entries k) (encode xs) (encode ys))

pub encode-replicate : (n : ℕ) → encode (replicate n unused) ≡ replicate n 0
encode-replicate zero = refl
encode-replicate (suc n) = ap (◌∷◌ 0) (encode-replicate n)

pub blocks-append : (xs ys : List Region) → blocks (xs ++ ys) ≡ blocks xs + blocks ys
blocks-append [] ys = omega arith
blocks-append (unused ∷ xs) ys = omega (arith, blocks-append xs ys)
blocks-append (used k ∷ xs) ys = omega (arith, blocks-append xs ys)

pub blocks-replicate : (n : ℕ) → blocks (replicate n unused) ≡ n
blocks-replicate zero = refl
blocks-replicate (suc n) = ap suc (blocks-replicate n)

-- No entry of an allocation reads as free.
followers-taken : (k j : ℕ) (es : List ℕ) → j < k → ¬ IsFree (followers k ++ es) j
unfolding entry_type
followers-taken zero j es h f = absurd (omega arith)
followers-taken (suc zero) zero es h f = absurd (omega arith)
followers-taken (suc zero) (suc j) es h f = absurd (omega arith)
followers-taken (suc (suc k)) zero es h f = absurd (omega arith)
followers-taken (suc (suc k)) (suc j) es h f = followers-taken (suc k) j es (omega arith) f

run-taken : (k j : ℕ) (es : List ℕ) → j ≤ k → ¬ IsFree (run_entries k ++ es) j
unfolding entry_type
run-taken zero zero es h f = absurd (omega arith)
run-taken zero (suc j) es h f = absurd (omega arith)
run-taken (suc k) zero es h f = absurd (omega arith)
run-taken (suc k) (suc j) es h f = followers-taken (suc k) j es (omega arith) f

-- Behind a prefix, an index counts from its end.
get_or-append_right :
    (xs ys : List ℕ) (i d : ℕ) → get_or (xs ++ ys) (length xs + i) d ≡ get_or ys i d
get_or-append_right [] ys i d = ap (λ k. get_or ys k d) (omega arith)
get_or-append_right (x ∷ xs) ys i d =
    ap (λ k. get_or (x ∷ (xs ++ ys)) k d)
      (let e : suc (length xs) + i ≡ suc (length xs + i) = omega arith in e)
    ∙ get_or-append_right xs ys i d

get_or-behind :
    (k : ℕ) (es : List ℕ) (j : ℕ) → get_or (run_entries k ++ es) (suc k + j) 1 ≡ get_or es j 1
get_or-behind k es j = rw (length-run_entries k) at (get_or-append_right (run_entries k) es j 1)

IsFree-behind :
    (k : ℕ) (es : List ℕ) (j : ℕ) → IsFree (run_entries k ++ es) (suc k + j) → IsFree es j
IsFree-behind k es j f = rw (get_or-behind k es j) at f

-- The regions around `n` free ones that start at block `s`.
pub record Gap (rs : List Region) (s n : ℕ) : Type 0 where
  pub before : List Region
  pub after : List Region
  pub splits : rs ≡ before ++ (replicate n unused ++ after)
  pub starts : blocks before ≡ s

FreeRun-suc : (es : List ℕ) (e s n : ℕ) → FreeRun (e ∷ es) (suc s) n → FreeRun es s n
FreeRun-suc es e s n run j p q = run (suc j) (omega arith) (omega arith)

leading :
    (rs : List Region) (n : ℕ)
    → FreeRun (encode rs) 0 n
    → (after : List Region) × (rs ≡ replicate n unused ++ after)
unfolding entry_type
leading rs zero run = (rs, refl)
leading [] (suc n) run =
    absurd (let f : entry_type 1 ≡ 0 = run 0 (omega arith) (omega arith) in omega arith)
leading (unused ∷ rs) (suc n) run =
    let (after, e) = leading rs n (λ j p q. run (suc j) (omega arith) (omega arith)) in
    (after, ap (◌∷◌ unused) e)
leading (used k ∷ rs) (suc n) run =
    absurd (run-taken k 0 (encode rs) (omega arith) (run 0 (omega arith) (omega arith)))

-- A run of free entries is a run of free regions.
pub FreeRun-Gap : (rs : List Region) (s n : ℕ) → 0 < n → FreeRun (encode rs) s n → Gap rs s n
FreeRun-Gap rs zero n pos run =
    let (after, e) = leading rs n run in
    record { before = []; after = after; splits = e; starts = refl }
FreeRun-Gap [] (suc s) n pos run = absurd (no_entry (run (suc s) (omega arith) (omega arith)))
  where
    no_entry : ¬ IsFree [] (suc s)
    no_entry f = unfold entry_type in omega arith
FreeRun-Gap (unused ∷ rs) (suc s) n pos run =
    let g = FreeRun-Gap rs s n pos (FreeRun-suc (encode rs) 0 s n run) in
    record {
      before = unused ∷ g.before;
      after = g.after;
      splits = ap (◌∷◌ unused) g.splits;
      starts = ap suc g.starts;
    }
FreeRun-Gap (used k ∷ rs) (suc s) n pos run = elim (dec_lt s k) [
  | yes inside ↦
      absurd
        (run-taken k (suc s) (encode rs) (omega arith) (run (suc s) (omega arith) (omega arith)))
  | no behind ↦
      let rest : FreeRun (encode rs) (s - k) n =
        λ j p q. IsFree-behind k (encode rs) j (run (suc k + j) (omega arith) (omega arith)) in
      let g = FreeRun-Gap rs (s - k) n pos rest in
      record {
        before = used k ∷ g.before;
        after = g.after;
        splits = ap (◌∷◌ (used k)) g.splits;
        starts = omega (arith, g.starts);
      }
]

pub encode-Gap :
    {rs : List Region} {s n : ℕ} (g : Gap rs s n)
    → encode rs ≡ encode g.before ++ (replicate n 0 ++ encode g.after)
encode-Gap {n} g =
    ap encode g.splits
    ∙ encode-append g.before (replicate n unused ++ g.after)
    ∙ ap (◌++◌ (encode g.before)) (
        encode-append (replicate n unused) g.after
        ∙ ap (λ es. es ++ encode g.after) (encode-replicate n))

get_or-replicate : (n i : ℕ) (es : List ℕ) → i < n → get_or (replicate n 0 ++ es) i 1 ≡ 0
get_or-replicate zero i es h = absurd (omega arith)
get_or-replicate (suc n) zero es h = refl
get_or-replicate (suc n) (suc i) es h = get_or-replicate n i es (omega arith)

-- Free regions are free entries.
pub Gap-FreeRun : (rs : List Region) (s n : ℕ) → Gap rs s n → FreeRun (encode rs) s n
Gap-FreeRun rs s n g j p q =
    let i : ℕ = j - blocks g.before in
    let shift : length (encode g.before) + i ≡ j =
      omega (arith, length-encode g.before, g.starts) in
    rw (encode-Gap g) (
      rw (← shift) (
        rw
          (
            get_or-append_right (encode g.before) (replicate n 0 ++ encode g.after) i 1,
            get_or-replicate n i (encode g.after) (omega (arith, g.starts)),
          )
          (unfold entry_type in refl)))

-- No block of an allocation reads as free.
pub used-taken :
    (init after : List Region) (k j : ℕ)
    → j ≤ k
    → ¬ IsFree (encode (init ++ used k ∷ after)) (blocks init + j)
used-taken init after k j h f = run-taken k j (encode after) h (
    rw
      (
        encode-append init (used k ∷ after),
        ← length-encode init,
        get_or-append_right (encode init) (run_entries k ++ encode after) j 1,
      )
      at f)
