-- ===== src/File/Handles.antt =====
-- src/fs/file.c: the calls on a descriptor that is open.
use mathlib.Core.Path.{subst}
use guava_os_pro.Prelude.{
  ℕ, suc, ◌+◌, ◌-◌, ◌<◌, ◌≡◌, inl, inr, refl, ap, sym, false, Option, none, some, List, arith,
  get_elem?, set, set?-eq-set, ◌>>=◌, lt_of_get_elem?, get_elem?-set_self, ne→==_false,
  le→ltb_false,
}
use guava_os_pro.Prelude.Int.{ℤ, pos, is_neg, pos_part}
use guava_os_pro.File.{
  Files, Descriptor, World, FileSystem, file_free_descriptor, fopen, fread, fclose, max_descriptors,
}
use guava_os_pro.File.Descriptors.{
  IsTable, IsTable-set-some, IsTable-set-none, index-IsTable, get_descriptor_slot,
}
use guava_os_pro.File.Opening.{Opened, OpenCall, Parsed, parsed, fopen_lem}

module _ {S : Type 0} where
  -- `fopen` keeps the table's form: the descriptor in slot `i` has the index `i + 1`.
  pub fopen-IsTable :
      (v : Files S) (filename mode_str : List ℕ) (res : ℤ) (v' : Files S)
      → IsTable v.descriptors 0
      → fopen v filename mode_str ≡ some (res, v')
      → IsTable v'.descriptors 0
  fopen-IsTable v filename mode_str res v' t h = elim (fopen_lem v filename mode_str res v' h) [
    | inl (e, d) ↦ subst (λ ds. IsTable ds 0) (sym d) t
    | inr (p, (fs, i, d, e, o)) ↦
        subst (λ ds. IsTable ds 0) (sym o.filled)
          (IsTable-set-some v.descriptors 0 i
            (record { index = suc i; filesystem = some fs; handle = o.private_data }) (omega arith)
            t)
  ]

  -- The slot of a new descriptor.
  Opened-slot :
      {ds ds' : List (Option (Descriptor S))} {fs : FileSystem S} {i : ℕ} {w : World S}
      {path : List (List ℕ)} {mode_str : List ℕ} (o : Opened ds ds' fs i w path mode_str)
      → get_elem? ds' i
        ≡ some (some (record { index = suc i; filesystem = some fs; handle = o.private_data }))
  Opened-slot o = rw o.filled (get_elem?-set_self _ _ _ o.slot.inside)

  read_slot :
      (v : Files S) (i : ℕ) (fs : FileSystem S) (p : ℤ)
      → suc i < max_descriptors
      → get_elem? v.descriptors i
        ≡ some (some (record { index = suc i; filesystem = some fs; handle = p }))
      → (size nmemb : ℕ) → 0 < size
      → 0 < nmemb
      → fread v size nmemb (pos (suc i)) ≡ (do
        (res, bytes, w) ← fs.read v.world p size nmemb
        some (res, bytes, record v { world = w }))
  unfolding fread
  read_slot v i fs p u e size nmemb hs hn =
      rw
        (
          ne→==_false size 0 (λ z. omega arith),
          ne→==_false nmemb 0 (λ z. omega arith),
          le→ltb_false (suc i + 0) 1 (omega arith),
          get_descriptor_slot v i _ u e,
        )
        refl

  -- After a `fopen` that returned a number above 0 and below 512, `fread` under that number reads,
  -- if it is asked for at least one element of at least one byte, with the disk's filesystem, from
  -- the private data that its `open`, called in `fopen` with the parsed path and the mode, returned,
  -- which is no error.
  pub fread-fopen :
      (v : Files S) (filename mode_str : List ℕ) (fd size nmemb : ℕ) (v' : Files S)
      → 0 < fd
      → fd < max_descriptors
      → 0 < size
      → 0 < nmemb
      → fopen v filename mode_str ≡ some (pos fd, v')
      → (name : Parsed v filename) × (fs : FileSystem S) × (p : ℤ) × (v.disk_filesystem ≡ some fs)
        × OpenCall fs (parsed name).world name.root.first mode_str p
        × (is_neg p ≡ false)
        × (fread v' size nmemb (pos fd) ≡ (do
          (res, bytes, w) ← fs.read v'.world p size nmemb
          some (res, bytes, record v' { world = w })))
  fread-fopen v filename mode_str fd size nmemb v' l u hs hn h =
      elim (fopen_lem v filename mode_str (pos fd) v' h) [
        | inl (e, d) ↦ absurd (omega (arith, ap pos_part e))
        | inr (name, (fs, i, d, e, o)) ↦
            let en : fd ≡ suc i = ap pos_part e in
            (
              name,
              fs,
              o.private_data,
              d,
              o.call,
              o.not_error,
              rw en
                  (read_slot v' i fs o.private_data (omega arith) (Opened-slot o) size nmemb hs hn),
            )
      ]

  -- `fclose` of an open file whose driver closes it with 0 empties its slot and no other, and gives
  -- a block of the heap back. The table keeps its form.
  pub fclose_lem :
      (v : Files S) (i : ℕ) (d : Descriptor S) (fs : FileSystem S) (w : World S)
      → IsTable v.descriptors 0
      → suc i < max_descriptors
      → get_elem? v.descriptors i ≡ some (some d)
      → d.filesystem ≡ some fs
      → fs.close v.world d.handle ≡ some (pos 0, w)
      → (v' : Files S) × (fclose v (pos (suc i)) ≡ some (pos 0, v'))
        × (v'.descriptors ≡ set v.descriptors i none)
        × (v'.world.left ≡ suc w.left)
        × IsTable v'.descriptors 0
  unfolding fclose file_free_descriptor
  fclose_lem v i d fs w t u e ef ec =
      let ei : d.index - 1 ≡ i = omega (arith, index-IsTable v.descriptors 0 i d t e) in
      let v' : Files S = record v {
        descriptors = set v.descriptors i none;
        world = record w { left = suc w.left };
      } in
      (
        v',
        rw
            (
              fclose,
              get_descriptor_slot v i (some d) u e,
              ef,
              ec,
              file_free_descriptor,
              ei,
              set?-eq-set v.descriptors i none (lt_of_get_elem? v.descriptors i e),
            )
            refl,
        refl,
        refl,
        IsTable-set-none v.descriptors 0 i t,
      )
