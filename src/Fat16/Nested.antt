-- ===== src/Fat16/Nested.antt =====
-- `fat16_open` on paths with directories in them: `fat16_new_fat_item_for_directory_item` gives
-- every item the type of a file.
use guava_os_pro.Prelude.{
  drop, ◌*◌, get_elem?, replicate, if◌then◌else◌, not, bit_and, ◌==◌, ℕ, zero, suc, ◌+◌, ◌≡◌, refl,
  sym, Option, none, some, List, ◌∷◌, >>=-eq-some, inl, inr, if-eq-some, pair-inj, true,
  option-eq-some,
}
use guava_os_pro.Prelude.Int.{ℤ, pos, ◌==ℤ◌, is_neg, pos_part}
use guava_os_pro.Status.{eio}
use guava_os_pro.PathParser.{alloc}
use guava_os_pro.File.{World, mode_read}
use guava_os_pro.PathParser.{max_path}
use guava_os_pro.CString.{istrncmp}
use guava_os_pro.Fat16.{
  get_full_relative_filename, clone_directory_item, item_size, subdirectory, Volume, type_file,
  FatItem,
}
use guava_os_pro.Fat16.Items.{
  load_fat_directory, new_fat_item_for_directory_item, find_loop, find_item_in_directory,
  entry_loop, get_directory_entry,
}
use guava_os_pro.Fat16.Driver.{Fat, fat16_open}

-- The null pointer, or an item of the type of a file.
abbrev IsFile : Option FatItem → Type 0
IsFile none = Unit
IsFile (some f) = f.type ≡ type_file

new_fat_item-IsFile :
    (v : Volume) (left : ℕ) (bytes : List ℕ) (f : Option FatItem) (left' : ℕ)
    → new_fat_item_for_directory_item v left bytes ≡ some (f, left')
    → IsFile f
unfolding new_fat_item_for_directory_item
new_fat_item-IsFile v left bytes f left' h = elim (option-eq-some (alloc left) _ _ _ h) [
  | inl (_, e) ↦ let (k, _) = pair-inj none f left left' e in rw (sym k) tt
  | inr (l, _, e) ↦
      let (attribute, _, e1) = >>=-eq-some (get_elem? bytes 11) _ e in
      let ((_, l2), _, e2) =
        >>=-eq-some
          (if not (bit_and attribute subdirectory == 0)
            then load_fat_directory v l bytes
            else some (none, l))
          _ e1 in
      let ((copy, l3), _, e3) = >>=-eq-some (clone_directory_item l2 bytes item_size) _ e2 in
      let (k, _) = pair-inj _ f l3 left' e3 in rw (sym k) refl
]

module _ (v : Volume) (items name : List ℕ) where
  find_loop-IsFile :
      (rounds i left : ℕ) (f g : Option FatItem) (left' : ℕ)
      → IsFile f
      → find_loop v items name rounds i left f ≡ some (g, left')
      → IsFile g
  unfolding find_loop
  find_loop-IsFile zero i left f g left' k h =
      let (e, _) = pair-inj f g left left' h in rw (sym e) k
  find_loop-IsFile (suc rounds) i left f g left' k h =
      let (filename, _, e1) =
        >>=-eq-some (get_full_relative_filename bytes (replicate max_path 0) max_path) _ h in
      let (res, _, e2) = >>=-eq-some (istrncmp filename name max_path) _ e1 in
      let ((f', l'), e3, e4) =
        >>=-eq-some
          (if res ==ℤ pos 0 then new_fat_item_for_directory_item v left bytes else some (f, left)) _
          e2 in
      find_loop-IsFile rounds (i + 1) l' f' g left'
        (elim (if-eq-some (res ==ℤ pos 0) (new_fat_item_for_directory_item v left bytes)
          (some (f, left)) (f', l') e3) [
            | inl (_, e) ↦ new_fat_item-IsFile v left _ f' l' e
            | inr (_, e) ↦ let (same, _) = pair-inj f f' left l' e in rw (sym same) k
          ])
        e4
    where
      bytes : List ℕ
      bytes = drop (item_size * i) items

get_directory_entry-nested :
    (v : Volume) (left : ℕ) (part next : List ℕ) (parts : List (List ℕ)) (f : Option FatItem)
    (left' : ℕ)
    → get_directory_entry v left (part ∷ next ∷ parts) ≡ some (f, left')
    → f ≡ none
unfolding get_directory_entry find_item_in_directory entry_loop
get_directory_entry-nested v left part next parts f left' h =
    let ((root_item, l), e, k) =
      >>=-eq-some
        (find_loop v v.root_directory.items part (pos_part v.root_directory.total) 0 left none)
        (λ (r, l). elim r [
          | none ↦ some (none, l)
          | some g ↦ entry_loop v l (some g) (next ∷ parts)
        ])
        h in
    from_root root_item l (find_loop-IsFile v _ part _ 0 left none root_item l tt e) k
  where
    from_root :
        (r : Option FatItem) (l : ℕ)
        → IsFile r
        → Path
            (Option (Option FatItem × ℕ))
            (elim r [ none ↦ some (none, l) | some g ↦ entry_loop v l (some g) (next ∷ parts) ])
            (some (f, left'))
        → f ≡ none
    from_root none l k h = let (e, _) = pair-inj none f l left' h in sym e
    from_root (some g) l k h = let (e, _) = pair-inj none f l left' (rw k at h) in sym e

-- `fat16_open` for reading never gives a handle for a path with more than one part: wherever it
-- returns, what it returns is an error.
pub fat16_open_nested :
    (w w' : World Fat) (part next : List ℕ) (parts : List (List ℕ)) (res : ℤ)
    → fat16_open w (part ∷ next ∷ parts) mode_read ≡ some (res, w')
    → is_neg res ≡ true
unfolding fat16_open
fat16_open_nested w w' part next parts res h = elim (option-eq-some (alloc w.left) _ _ _ h) [
  | inl (_, e) ↦ let (k, _) = pair-inj _ res _ w' e in rw (sym k) refl
  | inr (l, _, e) ↦
      let (v, _, e1) = >>=-eq-some w.volume.mounted _ e in
      let ((found, l2), e2, e3) =
        >>=-eq-some (get_directory_entry v l (part ∷ next ∷ parts)) _ e1 in
      let none_found = get_directory_entry-nested v l part next parts found l2 e2 in
      let (k, _) = pair-inj eio res _ w' (rw none_found at e3) in rw (sym k) refl
]
