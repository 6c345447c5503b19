-- ===== src/Paging/Release.antt =====
-- `paging_free_4gb`, and what it leaves of a chunk that `paging_new_4gb` made.
use guava_os_pro.Prelude.{
  ℕ, zero, suc, ◌+◌, ◌≤◌, ◌<◌, ◌≡◌, ◌≢◌, inl, inr, refl, sym, ap, ◌∙◌, arith, true, false, some,
  ne→==_false, ==_refl, ◌>>=◌, Bool-cases,
}
use native.Mathlib.Decide.{ℕ_discrete}
use guava_os_pro.Paging.{Words, table_at}
use guava_os_pro.Paging.Allocator.{Allocator, IsAllocator, Released, Space}
use guava_os_pro.Paging.Creation.{new_4gb, free_tables, free_4gb}
use guava_os_pro.Paging.Building.{apart}
use guava_os_pro.Paging.NewDirectory.{Created, new_4gb_lem}

-- The page is none of a chunk's.
abbrev Unrelated : Words → ℕ → ℕ → ℕ → Type 0
Unrelated m chunk d q = (q ≢ chunk) × (q ≢ d) × ((j : ℕ) → j < 1024 → q ≢ table_at m d j)

module _ {S : Type 0} {a : Allocator S} (laws : IsAllocator a) where
  abbrev ReleasedBy : S → ℕ → Type 0
  ReleasedBy s p = Released a laws.Valid laws.held s p

  held-other :
      {s : S} {p : ℕ} (r : ReleasedBy s p) (q : ℕ) → q ≢ p → laws.held r.after q ≡ laws.held s q
  held-other {p} r q ne = r.held_after q ∙ rw (ne→==_false q p ne)

  held_self : {s : S} {p : ℕ} (r : ReleasedBy s p) → laws.held r.after p ≡ false
  held_self {p} r = r.held_after p ∙ rw (==_refl p)

  module _ (m : Words) (d : ℕ) where
    -- The pages of the tables from `i` on are not held any more, and nothing else has changed.
    record TablesFreed (s : S) (i n : ℕ) (s' : S) : Type 0 where
      Valid-after : laws.Valid s'
      gone : (j : ℕ) → i ≤ j → j < i + n → laws.held s' (table_at m d j) ≡ false
      kept :
          (q : ℕ)
          → ((j : ℕ) → i ≤ j → j < i + n → q ≢ table_at m d j)
          → laws.held s' q ≡ laws.held s q

    free_tables-TablesFreed :
        (n i : ℕ) (s : S)
        → laws.Valid s
        → ((j k : ℕ) → j < i + n → k < i + n → j ≢ k → table_at m d j ≢ table_at m d k)
        → ((j : ℕ) → i ≤ j → j < i + n → laws.held s (table_at m d j) ≡ true)
        → (s' : S) × (free_tables a m d n i s ≡ some s') × TablesFreed s i n s'
    unfolding free_tables
    free_tables-TablesFreed zero i s v ne h = (
      s,
      refl,
      record { Valid-after = v; gone = λ j k l. absurd (omega arith); kept = λ q k. refl },
    )
    free_tables-TablesFreed (suc n) i s v ne h =
        let r = laws.free_lem s (table_at m d i) v (h i (omega arith) (omega arith)) in
        let (s', run, f) =
          free_tables-TablesFreed n (i + 1) r.after r.Valid-after
            (λ j k p q. ne j k (omega arith) (omega arith))
            (λ j k l.
              held-other r (table_at m d j) (ne j i (omega arith) (omega arith) (omega arith))
              ∙ h j (omega arith) (omega arith)) in
        (
          s',
          rw r.returns run,
          record {
            Valid-after = f.Valid-after;
            gone = λ j k l. elim (ℕ_discrete j i) [
              | yes e ↦ rw e (
                  f.kept (table_at m d i)
                    (λ k' p q. ne i k' (omega arith) (omega arith) (omega arith))
                  ∙ held_self r)
              | no z ↦ f.gone j (omega arith) (omega arith)
            ];
            kept = λ q k.
                f.kept q (λ j p l. k j (omega arith) (omega arith))
                ∙ held-other r q (k i (omega arith) (omega arith));
          },
        )

  -- Two heaps that hold the same pages but for some, which neither holds, hold the same pages.
  same_pages :
      (s s' : S) (q : ℕ) (P : Type 0)
      → (laws.held s q ≡ true → P)
      → (laws.held s' q ≡ true → P)
      → (P → laws.held s' q ≡ laws.held s q)
      → laws.held s' q ≡ laws.held s q
  same_pages s s' q P k k' h = elim (Bool-cases (laws.held s q)) [
    | inl e ↦ h (k e)
    | inr e ↦ elim (Bool-cases (laws.held s' q)) [ inl e' ↦ h (k' e') | inr e' ↦ e' ∙ sym e ]
  ]

  free_4gb_lem :
      {v : Space S} {flags chunk : ℕ} {w : Space S}
      → Created laws v flags chunk w
      → (v' : Space S) × (free_4gb a chunk w ≡ some v')
        × laws.Valid v'.heap
        × ((q : ℕ) → laws.held v'.heap q ≡ laws.held v.heap q)
  unfolding free_4gb
  free_4gb_lem {v} {flags} {chunk} {w} c = (
    record { heap = r3.after; words = w.words },
    rw (c.stored, f.1, r2.returns, r3.returns),
    r3.Valid-after,
    λ q.
        same_pages v.heap r3.after q (Unrelated w.words chunk d q)
          (λ e. (
            λ z. apart laws e (rw z c.fresh.0) refl,
            λ z. apart laws e (rw z c.fresh.1) refl,
            λ j l z. apart laws e (rw z (c.fresh.2 j l)) refl,
          ))
          (λ e. survives q e) (λ u. unrelated q u ∙ c.only q u.0 u.1 u.2),
  )
    where
      d : ℕ
      d = c.directory

      f :
          (s' : S) × (free_tables a w.words d 1024 0 w.heap ≡ some s')
          × TablesFreed w.words d w.heap 0 1024 s'
      f =
          free_tables-TablesFreed w.words d 1024 0 w.heap c.Valid-after
            (λ j k p q ne. c.well_formed.distinct j k (omega arith) (omega arith) ne)
            (λ j k l. c.taken.2 j (omega arith))

      r2 : ReleasedBy f.0 d
      r2 =
          laws.free_lem f.0 d f.2.Valid-after
            (f.2.kept d (λ j k l e. c.well_formed.apart j (omega arith) (sym e)) ∙ c.taken.1)

      r3 : ReleasedBy r2.after chunk
      r3 = laws.free_lem r2.after chunk r2.Valid-after (
          held-other r2 chunk c.distinct.0
          ∙ f.2.kept chunk (λ j k l e. c.distinct.1 j (omega arith) (sym e))
          ∙ c.taken.0)

      survives : (q : ℕ) → laws.held r3.after q ≡ true → Unrelated w.words chunk d q
      survives q e = (no_chunk, no_directory, λ j l z. no_table j l z)
        where
          no_chunk : q ≢ chunk
          no_chunk z = apart laws e (ap (laws.held r3.after) z ∙ held_self r3) refl

          before_chunk : laws.held r2.after q ≡ true
          before_chunk = sym (held-other r3 q no_chunk) ∙ e

          no_directory : q ≢ d
          no_directory z = apart laws before_chunk (ap (laws.held r2.after) z ∙ held_self r2) refl

          no_table : (j : ℕ) → j < 1024 → q ≢ table_at w.words d j
          no_table j l z =
              apart laws (sym (held-other r2 q no_directory) ∙ before_chunk)
                (ap (laws.held f.0) z ∙ f.2.gone j (omega arith) (omega arith)) refl

      unrelated : (q : ℕ) → Unrelated w.words chunk d q → laws.held r3.after q ≡ laws.held w.heap q
      unrelated q u =
          held-other r3 q u.0 ∙ held-other r2 q u.1 ∙ f.2.kept q (λ j k l. u.2 j (omega arith))

  -- Once a chunk that `paging_new_4gb` made is freed, with its words unchanged, the pages that are
  -- held are those that were held before it was made.
  pub free-new :
      (v : Space S) (flags : ℕ)
      → laws.Valid v.heap
      → 1026 ≤ laws.room v.heap
      → flags < 4096
      → (v' : Space S) × ((new_4gb a flags v >>= λ (chunk, w). free_4gb a chunk w) ≡ some v')
        × laws.Valid v'.heap
        × ((q : ℕ) → laws.held v'.heap q ≡ laws.held v.heap q)
  free-new v flags valid room low =
      let (chunk, w, run, c) = new_4gb_lem laws v flags valid room low in
      let (v', freed, valid', same) = free_4gb_lem c in (v', rw (run, freed), valid', same)
