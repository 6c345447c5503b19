-- ===== src/Paging/Building.antt =====
-- The loop of `paging_new_4gb` over the tables, on a heap that has pages enough.
use guava_os_pro.Prelude.{
  ℕ, zero, suc, ◌+◌, ◌*◌, ◌/◌, ◌%◌, ◌^◌, ◌≤◌, ◌<◌, ◌≡◌, ◌≢◌, inl, inr, refl, sym, ap, ◌∙◌, arith,
  bit_or, true, false, Option, some, ne→==_false, ==_refl, ◌>>=◌, Bool-cases,
}
use native.Mathlib.Decide.{ℕ_discrete, dec_lt}
use guava_os_pro.Paging.{Words, store, page_size, entries_per_table, table_at}
use guava_os_pro.Paging.Allocator.{Allocator, IsAllocator, Taken, Space, clear, kzalloc}
use guava_os_pro.Paging.Creation.{fill_table, build_tables}
use guava_os_pro.Paging.Filling.{
  Outside, store_self, store-other, clear-Outside, fill_table-Outside, fill_table-inside,
  table_at-entry,
}

-- What a table's entry holds: the page itself, and the flags.
abbrev pub identity_entry : ℕ → ℕ → ℕ → ℕ
identity_entry flags j b = bit_or ((j * 0x400000 + b * page_size) % 2 ^ 32) flags

-- An address in one page is outside of another.
pub apart_pages :
    (p q x : ℕ)
    → p % page_size ≡ 0
    → q % page_size ≡ 0
    → p ≢ q
    → p ≤ x
    → x < p + page_size
    → Outside q 1024 x
apart_pages p q x h k ne l u = elim (dec_lt x q) [ yes e ↦ inl e | no e ↦ inr (omega arith) ]

module _ {S : Type 0} {a : Allocator S} (laws : IsAllocator a) where
  abbrev pub TakenBy : S → ℕ → Type 0
  TakenBy s size = Taken a laws.Valid laws.held laws.room s size

  -- `n` tables from table `i` of the directory `d` on are new pages with their entries, and no page
  -- that was held before has changed, but the directory.
  pub record Built (s : S) (m : Words) (d flags i n : ℕ) (s' : S) (m' : Words) : Type 0 where
    pub Valid-after : laws.Valid s'
    pub room_after : laws.room s ≡ n + laws.room s'
    pub others : (p x : ℕ) → laws.held s p ≡ true → p ≢ d → p ≤ x → x < p + page_size → m' x ≡ m x
    pub before : (j : ℕ) → j < i → m' (d + 4 * j) ≡ m (d + 4 * j)
    pub fresh : (j : ℕ) → i ≤ j → j < i + n → laws.held s (table_at m' d j) ≡ false
    pub taken : (j : ℕ) → i ≤ j → j < i + n → laws.held s' (table_at m' d j) ≡ true
    pub distinct : (j k : ℕ) → i ≤ j → j < k → k < i + n → table_at m' d j ≢ table_at m' d k
    pub entries :
        (j b : ℕ)
        → i ≤ j
        → j < i + n
        → b < 1024
        → m' (table_at m' d j + 4 * b) ≡ identity_entry flags j b
    pub only :
        (q : ℕ)
        → ((j : ℕ) → i ≤ j → j < i + n → q ≢ table_at m' d j)
        → laws.held s' q ≡ laws.held s q

  -- Two pages that are held by one and not by the other do not meet.
  pub apart : {s : S} {p q : ℕ} → laws.held s p ≡ true → laws.held s q ≡ false → p ≢ q
  apart h k e = absurd (cc)

  pub held-kept :
      {s : S} {size : ℕ} (t : TakenBy s size) (q : ℕ)
      → laws.held s q ≡ true
      → laws.held t.after q ≡ true
  held-kept t q h = t.held_after q ∙ rw (ne→==_false q t.ptr (apart h t.fresh)) h

  pub kzalloc_lem :
      (w : Space S) (size : ℕ) (t : TakenBy w.heap size)
      → kzalloc a w size
        ≡ some (t.ptr, record { heap = t.after; words = clear w.words t.ptr (size / 4) })
  unfolding kzalloc
  kzalloc_lem w size t = rw (t.returns, ne→==_false t.ptr 0 (λ e. omega (arith, t.not_null)))

  -- The words of memory after one table is made, and what they hold.
  module _ {s : S} (t : TakenBy s 4096) (m : Words) (d flags i : ℕ) where
    abbrev pub table_filled : Words
    table_filled = fill_table t.ptr ((i * 0x400000) % 2 ^ 32) flags 1024 0 (clear m t.ptr 1024)

    abbrev pub linked : Words
    linked = store table_filled (d + 4 * i) (bit_or (bit_or t.ptr flags) 2)

  module _ {s : S} (t : TakenBy s 4096) (m : Words) (d flags i : ℕ) (v : laws.Valid s)
      (dir : laws.held s d ≡ true) (low : flags < 4096) (small : i < 1024) where
    d_aligned : d % page_size ≡ 0
    d_aligned = laws.held-aligned s d v dir

    other_page : d ≢ t.ptr
    other_page = apart dir t.fresh

    filled-Outside : (x : ℕ) → Outside t.ptr 1024 x → table_filled t m d flags i x ≡ m x
    filled-Outside x h =
        fill_table-Outside t.ptr ((i * 0x400000) % 2 ^ 32) flags 1024 0 _ x
          (elim h [ inl l ↦ inl (omega arith) | inr l ↦ inr (omega arith) ])
        ∙ clear-Outside m t.ptr 1024 x h

    pub linked-other :
        (p x : ℕ)
        → laws.held s p ≡ true
        → p ≢ d
        → p ≤ x
        → x < p + page_size
        → linked t m d flags i x ≡ m x
    linked-other p x h ne k l =
        store-other (table_filled t m d flags i) (d + 4 * i) _ x
          (λ e. omega (arith, d_aligned, page))
        ∙ filled-Outside x (apart_pages p t.ptr x page t.aligned (apart h t.fresh) k l)
      where
        page : p % page_size ≡ 0
        page = laws.held-aligned s p v h

    pub linked-before : (j : ℕ) → j < i → linked t m d flags i (d + 4 * j) ≡ m (d + 4 * j)
    linked-before j h =
        store-other (table_filled t m d flags i) (d + 4 * i) _ (d + 4 * j) (λ e. omega arith)
        ∙ filled-Outside (d + 4 * j) (
            apart_pages d t.ptr (d + 4 * j) d_aligned t.aligned other_page (omega arith)
              (omega arith))

    pub linked-table : linked t m d flags i (d + 4 * i) ≡ bit_or (bit_or t.ptr flags) 2
    linked-table = store_self (table_filled t m d flags i) (d + 4 * i) _

    pub linked-entries :
        (b : ℕ) → b < 1024 → linked t m d flags i (t.ptr + 4 * b) ≡ identity_entry flags i b
    linked-entries b h =
        store-other (table_filled t m d flags i) (d + 4 * i) _ (t.ptr + 4 * b)
          (λ e. omega (arith, d_aligned, t.aligned, other_page))
        ∙ fill_table-inside t.ptr ((i * 0x400000) % 2 ^ 32) flags 1024 0 _ b (omega arith)
            (omega arith)
        ∙ ap (λ w. bit_or w flags) (omega arith)

  -- One table first, and then the `n` behind it.
  Built-suc :
      {s : S} {m : Words} {d flags i n : ℕ} {s' : S} {m' : Words} (t : TakenBy s 4096)
      → laws.Valid s
      → laws.held s d ≡ true
      → flags < 4096
      → i + suc n ≤ 1024
      → Built t.after (linked t m d flags i) d flags (i + 1) n s' m'
      → Built s m d flags i (suc n) s' m'
  Built-suc {s} {m} {d} {flags} {i} {n} {s'} {m'} t v dir low small r = record {
    Valid-after = r.Valid-after;
    room_after = omega (arith, t.room_after, r.room_after);
    others = λ p x h ne k l.
        r.others p x (held-kept t p h) ne k l
        ∙ linked-other t m d flags i v dir low in_table p x h ne k l;
    before = λ j h. r.before j (omega arith) ∙ linked-before t m d flags i v dir low in_table j h;
    fresh = λ j h k. elim (ℕ_discrete j i) [
      | yes e ↦ rw (e, here) t.fresh
      | no ne ↦ was_fresh (r.fresh j (omega arith) (omega arith))
    ];
    taken = λ j h k. elim (ℕ_discrete j i) [
      | yes e ↦ rw (e, here) still_held
      | no ne ↦ r.taken j (omega arith) (omega arith)
    ];
    distinct = λ j k h l u. elim (ℕ_discrete j i) [
      | yes e ↦ λ same.
          apart here_held (r.fresh k (omega arith) (omega arith))
            (sym here ∙ ap (table_at m' d) (sym e) ∙ same)
      | no ne ↦ r.distinct j k (omega arith) l (omega arith)
    ];
    entries = λ j b h k l. elim (ℕ_discrete j i) [
      | yes e ↦
          rw (e, here)
            (r.others t.ptr (t.ptr + 4 * b) here_held (λ z. apart dir t.fresh (sym z)) (omega arith)
                (omega arith)
              ∙ linked-entries t m d flags i v dir low in_table b l)
      | no ne ↦ r.entries j b (omega arith) (omega arith) l
    ];
    only = λ q h.
        r.only q (λ j k l. h j (omega arith) (omega arith))
        ∙ t.held_after q
        ∙ rw (ne→==_false q t.ptr (λ e. h i (omega arith) (omega arith) (e ∙ sym here)));
  }
    where
      in_table : i < 1024
      in_table = omega arith

      here : table_at m' d i ≡ t.ptr
      here =
          table_at-entry m' d i t.ptr flags t.aligned t.in_space low
            (r.before i (omega arith) ∙ linked-table t m d flags i v dir low in_table)

      here_held : laws.held t.after t.ptr ≡ true
      here_held = t.held_after t.ptr ∙ rw (==_refl t.ptr)

      still_held : laws.held s' t.ptr ≡ true
      still_held = r.only t.ptr (λ j k l. apart here_held (r.fresh j k l)) ∙ here_held

      was_fresh : {q : ℕ} → laws.held t.after q ≡ false → laws.held s q ≡ false
      was_fresh {q} h = elim (Bool-cases (laws.held s q)) [
        | inl e ↦ absurd (apart (held-kept t q e) h refl)
        | inr e ↦ e
      ]

  pub build_tables-Built :
      (n i : ℕ) (d flags : ℕ) (w : Space S)
      → laws.Valid w.heap
      → laws.held w.heap d ≡ true
      → flags < 4096
      → i + n ≤ 1024
      → n ≤ laws.room w.heap
      → (w' : Space S) × (build_tables a d flags n i ((i * 0x400000) % 2 ^ 32) w ≡ some w')
        × Built w.heap w.words d flags i n w'.heap w'.words
  unfolding build_tables kzalloc
  build_tables-Built zero i d flags w v dir low small room = (
    w,
    refl,
    record {
      Valid-after = v;
      room_after = omega arith;
      others = λ p x h ne k l. refl;
      before = λ j h. refl;
      fresh = λ j h k. absurd (omega arith);
      taken = λ j h k. absurd (omega arith);
      distinct = λ j k h l u. absurd (omega arith);
      entries = λ j b h k l. absurd (omega arith);
      only = λ q h. refl;
    },
  )
  build_tables-Built (suc n) i d flags w v dir low small room =
      let t = laws.malloc_lem w.heap 4096 v (omega arith) (omega arith) (omega arith) in
      let w1 : Space S = record { heap = t.after; words = linked t w.words d flags i } in
      let (w', run, built) =
        build_tables-Built n (i + 1) d flags w1 t.Valid-after (held-kept t d dir) low (omega arith)
          (omega (arith, t.room_after)) in
      (
        w',
        ap (λ r. r >>= next n i d flags) (kzalloc_lem w 4096 t)
            ∙ ap (λ o. build_tables a d flags n (i + 1) o w1) (omega arith)
            ∙ run,
        Built-suc t v dir low small built,
      )
    where
      next : ℕ → ℕ → ℕ → ℕ → ℕ × Space S → Option (Space S)
      next n i d flags (entry, w') =
          build_tables a d flags n (i + 1)
            (((i * 0x400000) % 2 ^ 32 + entries_per_table * page_size) % 2 ^ 32)
            (record w' {
              words =
                  store (fill_table entry ((i * 0x400000) % 2 ^ 32) flags 1024 0 w'.words)
                    (d + 4 * i) (bit_or (bit_or entry flags) 2);
            })
