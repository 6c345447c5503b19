-- ===== src/Paging/NewDirectory.antt =====
-- `paging_new_4gb` on a heap that has pages enough.
use guava_os_pro.Prelude.{
  ℕ, ◌+◌, ◌*◌, ◌/◌, ◌%◌, ◌^◌, ◌≤◌, ◌<◌, ◌≡◌, ◌≢◌, inl, inr, refl, sym, ap, ◌∙◌, arith, bit_or, true,
  false, some, ne→==_false, ==_refl, Bool-cases,
}
use native.Mathlib.Decide.{dec_lt}
use guava_os_pro.Paging.{Words, store, page_size, table_at, get}
use guava_os_pro.Paging.Slots.{IsDirectory, slot}
use guava_os_pro.Paging.Mapping.{get_lem}
use guava_os_pro.Paging.Allocator.{Allocator, IsAllocator, Space, clear}
use guava_os_pro.Paging.Creation.{new_4gb}
use guava_os_pro.Paging.Filling.{store_self, store-other, clear-Outside}
use guava_os_pro.Paging.Building.{
  TakenBy, Built, apart, apart_pages, held-kept, kzalloc_lem, build_tables-Built,
}

module _ {S : Type 0} {a : Allocator S} (laws : IsAllocator a) where
  -- What a new chunk is: its directory, whose pages were not held before and are now, and in which
  -- every page leads to itself; pages that were held before have not changed.
  pub record Created (v : Space S) (flags chunk : ℕ) (v' : Space S) : Type 0 where
    pub directory : ℕ
    pub stored : v'.words chunk ≡ directory
    pub well_formed : IsDirectory v'.words directory
    pub identity :
        (w : ℕ) → w < 2 ^ 32 → w % page_size ≡ 0 → get directory w v'.words ≡ bit_or w flags
    pub others :
        (p x : ℕ) → laws.held v.heap p ≡ true → p ≤ x → x < p + page_size → v'.words x ≡ v.words x
    pub Valid-after : laws.Valid v'.heap
    pub room_after : laws.room v.heap ≡ 1026 + laws.room v'.heap
    pub fresh :
        (laws.held v.heap chunk ≡ false)
        × (laws.held v.heap directory ≡ false)
        × ((j : ℕ) → j < 1024 → laws.held v.heap (table_at v'.words directory j) ≡ false)
    pub taken :
        (laws.held v'.heap chunk ≡ true)
        × (laws.held v'.heap directory ≡ true)
        × ((j : ℕ) → j < 1024 → laws.held v'.heap (table_at v'.words directory j) ≡ true)
    pub distinct :
        (chunk ≢ directory) × ((j : ℕ) → j < 1024 → table_at v'.words directory j ≢ chunk)
    pub only :
        (q : ℕ)
        → q ≢ chunk
        → q ≢ directory
        → ((j : ℕ) → j < 1024 → q ≢ table_at v'.words directory j)
        → laws.held v'.heap q ≡ laws.held v.heap q

  Built-keeps :
      {s : S} {m : Words} {d flags i n : ℕ} {s' : S} {m' : Words}
      → Built laws s m d flags i n s' m'
      → (q : ℕ) → laws.held s q ≡ true
      → laws.held s' q ≡ true
  Built-keeps b q h = b.only q (λ j k l. apart laws h (b.fresh j k l)) ∙ h

  was_fresh :
      {s : S} {size : ℕ} (t : TakenBy laws s size) (q : ℕ)
      → laws.held t.after q ≡ false
      → laws.held s q ≡ false
  was_fresh {s} t q h = elim (Bool-cases (laws.held s q)) [
    | inl e ↦ absurd (apart laws (held-kept laws t q e) h refl)
    | inr e ↦ e
  ]

  held-ptr : {s : S} {size : ℕ} (t : TakenBy laws s size) → laws.held t.after t.ptr ≡ true
  held-ptr t = t.held_after t.ptr ∙ rw (==_refl t.ptr)

  -- The directory is taken first, then come the tables, and the chunk is last.
  module _ (v : Space S) (flags : ℕ) (valid : laws.Valid v.heap) (t : TakenBy laws v.heap 4096)
      {w : Space S}
      (b : Built laws t.after (clear v.words t.ptr 1024) t.ptr flags 0 1024 w.heap w.words)
      (c : TakenBy laws w.heap 4) where
    abbrev final : Space S
    final = record { heap = c.after; words = store (clear w.words c.ptr 1) c.ptr t.ptr }

    dir_kept : laws.held w.heap t.ptr ≡ true
    dir_kept = Built-keeps b t.ptr (held-ptr t)

    -- Storing the directory in the chunk writes to no page that was held before.
    final-other :
        (p x : ℕ)
        → laws.held w.heap p ≡ true
        → p ≤ x
        → x < p + page_size
        → final.words x ≡ w.words x
    final-other p x h k l =
        let aligned = laws.held-aligned w.heap p b.Valid-after h in
        let out = apart_pages p c.ptr x aligned c.aligned (apart laws h c.fresh) k l in
        store-other (clear w.words c.ptr 1) c.ptr t.ptr x
          (λ e. elim out [ inl m ↦ omega arith | inr m ↦ omega arith ])
        ∙ clear-Outside w.words c.ptr 1 x (elim out [ inl m ↦ inl m | inr m ↦ inr (omega arith) ])

    table_kept : (j : ℕ) → j < 1024 → table_at final.words t.ptr j ≡ table_at w.words t.ptr j
    unfolding table_at
    table_kept j h = rw (final-other t.ptr (t.ptr + 4 * j) dir_kept (omega arith) (omega arith))

    table_taken : (j : ℕ) → j < 1024 → laws.held w.heap (table_at final.words t.ptr j) ≡ true
    table_taken j h = rw (table_kept j h) (b.taken j (omega arith) (omega arith))

    tables_apart :
        (i j : ℕ)
        → i < 1024
        → j < 1024
        → i ≢ j
        → table_at final.words t.ptr i ≢ table_at final.words t.ptr j
    tables_apart i j h k ne =
        rw (table_kept i h, table_kept j k)
          (elim (dec_lt i j) [
            | yes l ↦ b.distinct i j (omega arith) l (omega arith)
            | no l ↦ λ e. b.distinct j i (omega arith) (omega arith) (omega arith) (sym e)
          ])

    final-IsDirectory : IsDirectory final.words t.ptr
    final-IsDirectory = record {
      aligned = t.aligned;
      apart = λ i h e.
          apart laws (held-ptr t) (b.fresh i (omega arith) (omega arith)) (sym e ∙ table_kept i h);
      distinct = tables_apart;
    }

    final-identity :
        (x : ℕ) → x < 2 ^ 32 → x % page_size ≡ 0 → get t.ptr x final.words ≡ bit_or x flags
    unfolding slot
    final-identity x h k =
        let j : ℕ = x / (1024 * 4096) in
        let i : ℕ = x % (1024 * 4096) / 4096 in
        get_lem final.words t.ptr x k
        ∙ final-other (table_at final.words t.ptr j) (table_at final.words t.ptr j + 4 * i)
            (table_taken j (omega arith)) (omega arith) (omega arith)
        ∙ ap (λ p. w.words (p + 4 * i)) (table_kept j (omega arith))
        ∙ b.entries j i (omega arith) (omega arith) (omega arith)
        ∙ ap (λ p. bit_or p flags) (omega arith)

    final-old :
        (p x : ℕ)
        → laws.held v.heap p ≡ true
        → p ≤ x
        → x < p + page_size
        → final.words x ≡ v.words x
    final-old p x h k l =
        let kept = held-kept laws t p h in
        let aligned = laws.held-aligned v.heap p valid h in
        final-other p x (Built-keeps b p kept) k l
        ∙ b.others p x kept (apart laws h t.fresh) k l
        ∙ clear-Outside v.words t.ptr 1024 x
            (apart_pages p t.ptr x aligned t.aligned (apart laws h t.fresh) k l)

    not_before : (q : ℕ) → laws.held w.heap q ≡ false → laws.held v.heap q ≡ false
    not_before q h = elim (Bool-cases (laws.held v.heap q)) [
      | inl e ↦ absurd (apart laws (Built-keeps b q (held-kept laws t q e)) h refl)
      | inr e ↦ e
    ]

    final-only :
        (q : ℕ)
        → q ≢ c.ptr
        → q ≢ t.ptr
        → ((j : ℕ) → j < 1024 → q ≢ table_at final.words t.ptr j)
        → laws.held final.heap q ≡ laws.held v.heap q
    final-only q h k l =
        c.held_after q
        ∙ rw (ne→==_false q c.ptr h) (b.only q (λ j m n e. l j n (e ∙ sym (table_kept j n))))
        ∙ t.held_after q
        ∙ rw (ne→==_false q t.ptr k)

    final-Created : Created v flags c.ptr final
    final-Created = record {
      directory = t.ptr;
      stored = store_self (clear w.words c.ptr 1) c.ptr t.ptr;
      well_formed = final-IsDirectory;
      identity = final-identity;
      others = final-old;
      Valid-after = c.Valid-after;
      room_after = omega (arith, t.room_after, b.room_after, c.room_after);
      fresh = (
        not_before c.ptr c.fresh,
        t.fresh,
        λ j h. rw (table_kept j h) (was_fresh t _ (b.fresh j (omega arith) (omega arith))),
      );
      taken = (
        held-ptr c,
        held-kept laws c t.ptr dir_kept,
        λ j h. held-kept laws c _ (table_taken j h),
      );
      distinct =
          (λ e. apart laws dir_kept c.fresh (sym e), λ j h. apart laws (table_taken j h) c.fresh);
      only = final-only;
    }

  -- On a heap with room for 1026 pages, `paging_new_4gb` succeeds: its 1026 pages were not held
  -- before, the directory and the tables are pages of their own, every page of the address space
  -- leads to itself with the flags, and no page that was held before has changed.
  pub new_4gb_lem :
      (v : Space S) (flags : ℕ)
      → laws.Valid v.heap
      → 1026 ≤ laws.room v.heap
      → flags < 4096
      → (chunk : ℕ) × (v' : Space S) × (new_4gb a flags v ≡ some (chunk, v'))
        × Created v flags chunk v'
  unfolding new_4gb
  new_4gb_lem v flags valid room low =
      let t = laws.malloc_lem v.heap 4096 valid (omega arith) (omega arith) (omega arith) in
      let w1 : Space S = record { heap = t.after; words = clear v.words t.ptr 1024 } in
      let (w, run, b) =
        build_tables-Built laws 1024 0 t.ptr flags w1 t.Valid-after (held-ptr t) low (omega arith)
          (omega (arith, t.room_after)) in
      let c =
        laws.malloc_lem w.heap 4 b.Valid-after (omega (arith, t.room_after, b.room_after))
          (omega arith) (omega arith) in
      (
        c.ptr,
        final v flags valid t b c,
        rw (kzalloc_lem laws v 4096 t, run, kzalloc_lem laws w 4 c),
        final-Created v flags valid t b c,
      )
