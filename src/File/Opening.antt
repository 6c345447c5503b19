-- ===== src/File/Opening.antt =====
-- src/fs/file.c: `fopen` and the calls on an open file.
use mathlib.Core.Path.{subst}
use guava_os_pro.Prelude.{
  set_twice, if-eq-some, option-eq-some, pair-inj, length-set, ℕ, suc, ◌<◌, ◌≡◌, ◌⊎◌, inl, inr,
  refl, ap, sym, ◌∙◌, not, false, true, Option, none, some, List, arith, length, if◌then◌else◌, set,
  set?-eq-set, Option-cases, ◌>>=◌, >>=-eq-some,
}
use guava_os_pro.Prelude.Int.{ℤ, pos, is_neg, ◌==ℤ◌}
use guava_os_pro.PathParser.{PathRoot, parse, alloc}
use guava_os_pro.File.{
  Files, Descriptor, is_empty, is_invalid, open_path, file_get_mode_by_string, fopen, FileSystem,
  FileMode, World, free_slot, file_new_descriptor, open_descriptor, fill_descriptor,
}
use guava_os_pro.File.Descriptors.{IsFirstFree, free_slot-IsFirstFree}
use guava_os_pro.Status.{eio, einvarg, enomem}

module _ {S : Type 0} where
  -- A call of the driver's `open`, from a world, with a path and the mode that a string names.
  pub record OpenCall (fs : FileSystem S) (w : World S) (path : List (List ℕ)) (mode_str : List ℕ)
      (private_data : ℤ) : Type 0 where
    pub mode : FileMode
    pub mode_is : file_get_mode_by_string mode_str ≡ some mode
    pub after : World S
    pub returned : fs.open_item w path mode ≡ some (private_data, after)

  -- What a new descriptor changes: `open` has been called, and what it returned is stored.
  pub record Opened (ds ds' : List (Option (Descriptor S))) (fs : FileSystem S) (i : ℕ)
      (w : World S) (path : List (List ℕ)) (mode_str : List ℕ) : Type 0 where
    pub slot : IsFirstFree ds i
    pub private_data : ℤ
    pub call : OpenCall fs w path mode_str private_data
    pub not_error : is_neg private_data ≡ false
    pub filled :
        ds'
        ≡ set ds i (some (record { index = suc i; filesystem = some fs; handle = private_data }))

  new_descriptor_cases :
      (v : Files S)
      → (file_new_descriptor v ≡ some (enomem, 0, v))
        ⊎ ((i : ℕ) × (left' : ℕ) × IsFirstFree v.descriptors i
            × (file_new_descriptor v
                ≡ some (
                  pos 0,
                  i,
                  record v {
                    descriptors =
                        set v.descriptors i
                          (some (record { index = suc i; filesystem = none; handle = pos 0 }));
                    world = record v.world { left = left' };
                  },
                )))
        ⊎ (file_new_descriptor v ≡ none)
  unfolding file_new_descriptor
  new_descriptor_cases v = elim (Option-cases (free_slot v.descriptors)) [
    | inl e ↦ inl (rw (file_new_descriptor, e) refl)
    | inr (i, e) ↦ elim (Option-cases (alloc v.world.left)) [
      | inl el ↦ inr (inr (rw (file_new_descriptor, e, el) refl))
      | inr (l, el) ↦ inr (
          inl (
            i,
            l,
            free_slot-IsFirstFree v.descriptors i e,
            rw
                (
                  file_new_descriptor,
                  e,
                  el,
                  set?-eq-set v.descriptors i
                      (some (record { index = suc i; filesystem = none; handle = pos 0 }))
                      (free_slot-IsFirstFree v.descriptors i e).inside,
                )
                refl,
          ))
    ]
  ]

  fill_descriptor_lem :
      (v : Files S) (fs : FileSystem S) (handle res : ℤ) (v' : Files S) (w : World S)
      (path : List (List ℕ)) (mode_str : List ℕ)
      → OpenCall fs w path mode_str handle
      → is_neg handle ≡ false
      → fill_descriptor v fs handle ≡ some (res, v')
      → ((is_neg res ≡ true) × (v'.descriptors ≡ v.descriptors))
        ⊎ ((i : ℕ) × (res ≡ pos (suc i)) × Opened v.descriptors v'.descriptors fs i w path mode_str)
  unfolding fill_descriptor
  fill_descriptor_lem v fs handle res v' w path mode_str call n h = elim (new_descriptor_cases v) [
    | inl e ↦
        let run : fill_descriptor v fs handle ≡ some (enomem, v) = rw (fill_descriptor, e) refl in
        let (er, ev) = pair-inj enomem res v v' (sym run ∙ h) in
        inl (sym (ap is_neg er), sym (ap Files.descriptors ev))
    | inr (inl (i, l, free, e)) ↦
        let first_fill : Option (Descriptor S) =
          some (record { index = suc i; filesystem = none; handle = pos 0 }) in
        let desc : Option (Descriptor S) =
          some (record { index = suc i; filesystem = some fs; handle = handle }) in
        let small : i < length (set v.descriptors i first_fill) =
          omega (arith, free.inside, length-set v.descriptors i first_fill) in
        let opened : Files S = record v {
          descriptors = set v.descriptors i desc;
          world = record v.world { left = l };
        } in
        let run : fill_descriptor v fs handle ≡ some (pos (suc i), opened) =
          rw
            (
              fill_descriptor,
              e,
              set?-eq-set (set v.descriptors i first_fill) i desc small,
              set_twice v.descriptors i first_fill desc,
            )
            refl in
        let (er, ev) = pair-inj (pos (suc i)) res opened v' (sym run ∙ h) in
        inr (
          i,
          sym er,
          record {
            slot = free;
            private_data = handle;
            call = call;
            not_error = n;
            filled = sym (ap Files.descriptors ev);
          },
        )
    | inr (inr e) ↦
        let run : fill_descriptor v fs handle ≡ none = rw (fill_descriptor, e) refl in cc
  ]

  -- A call of `fopen` before its errors are turned into 0.
  abbrev Refused : Files S → ℤ → Files S → Type 0
  Refused v res v' = (is_neg res ≡ true) × (v'.descriptors ≡ v.descriptors)

  abbrev pub OpenedSome : Files S → List (List ℕ) → List ℕ → ℤ → Files S → Type 0
  OpenedSome v path mode_str res v' =
      (fs : FileSystem S) × (i : ℕ) × (v.disk_filesystem ≡ some fs)
      × (res ≡ pos (suc i))
      × Opened v.descriptors v'.descriptors fs i v.world path mode_str

  refused :
      (z : ℤ) (v v1 : Files S) (res : ℤ) (v' : Files S)
      → is_neg z ≡ true
      → v1.descriptors ≡ v.descriptors
      → Path (Option (ℤ × Files S)) (some (z, v1)) (some (res, v'))
      → Refused v res v'
  refused z v v1 res v' n d h =
      let (er, ev) = pair-inj z res v1 v' h in
      (sym (ap is_neg er) ∙ n, sym (ap Files.descriptors ev) ∙ d)

  open_descriptor_lem :
      (v : Files S) (fs : FileSystem S) (path : List (List ℕ)) (mode : FileMode) (mode_str : List ℕ)
      (res : ℤ) (v' : Files S)
      → file_get_mode_by_string mode_str ≡ some mode
      → v.disk_filesystem ≡ some fs
      → open_descriptor v fs path mode ≡ some (res, v')
      → Refused v res v' ⊎ OpenedSome v path mode_str res v'
  unfolding open_descriptor
  open_descriptor_lem v fs path mode mode_str res v' em d h =
      let ((handle, w), call, k) = >>=-eq-some (fs.open_item v.world path mode) _ h in
      let v1 : Files S = record v { world = w } in
      elim (if-eq-some (is_neg handle) _ _ _ k) [
        | inl (n, e) ↦ inl (refused handle v v1 res v' n refl e)
        | inr (n, e) ↦
            elim (fill_descriptor_lem v1 fs handle res v' v.world path mode_str
              record { mode = mode; mode_is = em; after = w; returned = call } n e) [
                | inl r ↦ inl r
                | inr (i, er, o) ↦ inr (fs, i, d, er, o)
              ]
      ]

  open_path_lem :
      (v : Files S) (root : PathRoot) (mode_str : List ℕ) (res : ℤ) (v' : Files S)
      → open_path v root mode_str ≡ some (res, v')
      → Refused v res v' ⊎ OpenedSome v root.first mode_str res v'
  unfolding open_path
  open_path_lem v root mode_str res v' h =
      let on_disk = (λ (fs : FileSystem S). file_get_mode_by_string mode_str >>= λ mode.
      if is_invalid mode then some (einvarg, v) else open_descriptor v fs root.first mode) in
      let tail = (elim v.disk_filesystem as (λ x. Option (ℤ × Files S)) [
        | none ↦ some (eio, v)
        | some fs ↦ on_disk fs
      ]) in
      elim (if-eq-some (is_empty root.first) (some (einvarg, v))
        (if not (root.drive_number ==ℤ pos 0) then some (eio, v) else tail) _ h) [
          | inl (b, e) ↦ inl (refused einvarg v v res v' refl refl e)
          | inr (b, h1) ↦
              elim (if-eq-some (not (root.drive_number ==ℤ pos 0)) (some (eio, v)) tail _ h1) [
                | inl (b, e) ↦ inl (refused eio v v res v' refl refl e)
                | inr (b, h2) ↦
                    elim (option-eq-some v.disk_filesystem (some (eio, v)) on_disk _ h2) [
                      | inl (b, e) ↦ inl (refused eio v v res v' refl refl e)
                      | inr (fs, e, h3) ↦
                          let (mode, em, h4) =
                            >>=-eq-some (file_get_mode_by_string mode_str) _ h3 in
                          elim (if-eq-some (is_invalid mode) (some (einvarg, v))
                            (open_descriptor v fs root.first mode) _ h4) [
                              | inl (b, e) ↦ inl (refused einvarg v v res v' refl refl e)
                              | inr (b, h5) ↦
                                  open_descriptor_lem v fs root.first mode mode_str res v' em e h5
                            ]
                    ]
              ]
        ]

  clamp :
      (v : Files S) (path : List (List ℕ)) (mode_str : List ℕ) (z : ℤ) (v1 : Files S) (res : ℤ)
      (v' : Files S)
      → Refused v z v1 ⊎ OpenedSome v path mode_str z v1
      → Path (Option (ℤ × Files S)) (some (if is_neg z then pos 0 else z, v1)) (some (res, v'))
      → ((res ≡ pos 0) × (v'.descriptors ≡ v.descriptors)) ⊎ OpenedSome v path mode_str res v'
  clamp v path mode_str z v1 res v' (inl (n, d)) h =
      let (er, ev) = pair-inj (if is_neg z then pos 0 else z) res v1 v' h in
      inl (sym er ∙ rw n refl, sym (ap Files.descriptors ev) ∙ d)
  clamp v path mode_str z v1 res v' (inr (fs, i, d, e, o)) h =
      let (er, ev) = pair-inj (if is_neg z then pos 0 else z) res v1 v' h in
      inr (
        fs,
        i,
        d,
        sym er ∙ rw e refl,
        subst (λ x. Opened v.descriptors x fs i v.world path mode_str) (ap Files.descriptors ev) o,
      )

  -- The parts of the name, as the parser gives them, and the blocks that it leaves.
  pub record Parsed (v : Files S) (filename : List ℕ) : Type 0 where
    pub root : PathRoot
    pub left : ℕ
    pub is : parse v.world.left filename ≡ some (some root, left)

  abbrev pub parsed : {v : Files S} {filename : List ℕ} → Parsed v filename → Files S
  parsed {v} p = record v { world = record v.world { left = p.left } }

  -- Wherever `fopen` returns, it has either returned 0 and left the table as it was, or it has
  -- returned the number, from 1 on, of the first free slot, which then holds a descriptor of the
  -- disk's filesystem with that number as its index and, as its private data, what the filesystem's
  -- `open` returned for the parsed path and the mode, which is no error; no other slot is changed.
  pub fopen_lem :
      (v : Files S) (filename mode_str : List ℕ) (res : ℤ) (v' : Files S)
      → fopen v filename mode_str ≡ some (res, v')
      → ((res ≡ pos 0) × (v'.descriptors ≡ v.descriptors))
        ⊎ ((p : Parsed v filename) × OpenedSome (parsed p) p.root.first mode_str res v')
  unfolding fopen
  fopen_lem v filename mode_str res v' h =
      let ((root, left'), e, k) = >>=-eq-some (parse v.world.left filename) _ h in
      let v1 : Files S = record v { world = record v.world { left = left' } } in
      let ((res', v2), ek, kk) = >>=-eq-some _ _ k in
      elim (option-eq-some root (some (einvarg, v1)) (λ r. open_path v1 r mode_str) _ ek) [
        | inl (b, er) ↦
            let (n, d) = refused einvarg v1 v1 res' v2 refl refl er in
            let (er', ev) = pair-inj (if is_neg res' then pos 0 else res') res v2 v' kk in
            inl (sym er' ∙ rw n refl, sym (ap Files.descriptors ev) ∙ d)
        | inr (r, b, er) ↦
            elim (clamp v1 r.first mode_str res' v2 res v' (open_path_lem v1 r mode_str res' v2 er)
              kk) [
                | inl same ↦ inl same
                | inr opened ↦ inr (
                  record { root = r; left = left'; is = e ∙ ap (λ x. some (x, left')) b },
                  opened,
                )
              ]
      ]
