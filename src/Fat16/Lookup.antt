-- ===== src/Fat16/Lookup.antt =====
-- `fat16_find_item_in_directory` and `fat16_get_directory_entry`: which items a name finds.
use mathlib.Core.List.{append-nil}
use guava_os_pro.Prelude.{
  Bool, ℕ, zero, suc, ◌+◌, ◌-◌, ◌*◌, ◌≤◌, ◌<◌, ◌≡◌, ◌≢◌, ◌↔◌, refl, sym, ap, ◌∙◌, bit_and, Option,
  none, some, List, [], ◌∷◌, ◌++◌, arith, length, All, replicate, drop, take, map, get_elem?,
  some-inj, true, false,
}
use guava_os_pro.Prelude.Int.{ℤ, pos, pos_part, ◌==ℤ◌}
use guava_os_pro.CString.{tolower, istrncmp}
use guava_os_pro.CString.Content.{
  content, IsTerminated, IsText, content-append, IsTerminated-append,
}
use guava_os_pro.CString.Compare.{istrncmp-zero_iff, istrncmp_total}
use guava_os_pro.PathParser.{max_path}
use guava_os_pro.Memory.Laws.{memcpy_lem}
use guava_os_pro.Fat16.{
  item_size, subdirectory, Directory, Volume, type_file, item, FatItem, clone_directory_item,
  get_full_relative_filename,
}
use guava_os_pro.Fat16.Items.{new_fat_item_for_directory_item, find_loop, find_item_in_directory}
use guava_os_pro.Fat16.Names.{IsItem, IsNameChar, dotted, full_name_lem}

-- The name that is looked for is that of the item, without regard to case, in the first 108
-- characters.
abbrev pub Matches : List ℕ → List ℕ → List ℕ → Type 0
Matches name n e =
    take max_path (map tolower (dotted n e)) ≡ take max_path (map tolower (content name))

IsText-names : (n : List ℕ) → All IsNameChar n → IsText n
IsText-names [] h = tt
IsText-names (c ∷ n) h = (h.0.0, IsText-names n h.1)

IsText-both : (n e : List ℕ) → IsText n → IsText e → IsText (n ++ e)
IsText-both [] e h k = k
IsText-both (c ∷ n) e h k = (h.0, IsText-both n e h.1 k)

IsText-dotted : (n e : List ℕ) → All IsNameChar n → All IsNameChar e → IsText (dotted n e)
IsText-dotted n [] h k = IsText-names n h
IsText-dotted n (c ∷ e) h k =
    IsText-both n (b'.' ∷ c ∷ e) (IsText-names n h) (omega arith, IsText-names (c ∷ e) k)

zero_test : (r : ℤ) → ((r ==ℤ pos 0) ≡ true) ↔ (r ≡ pos 0)
zero_test r = ground arith

not_true : (b : Bool) → b ≢ true → b ≡ false
not_true true h = absurd (h refl)
not_true false h = refl

-- A round of the search compares the item's name with the one that is looked for.
record Compared (bytes name n e : List ℕ) : Type 0 where
  filename : List ℕ
  result : ℤ
  named : get_full_relative_filename bytes (replicate max_path 0) max_path ≡ some filename
  compared : istrncmp filename name max_path ≡ some result
  matches : (result ≡ pos 0) ↔ Matches name n e

compare :
    (bytes name n e : List ℕ)
    → IsItem bytes n e
    → length (dotted n e) < max_path
    → IsTerminated name
    → Compared bytes name n e
compare bytes name n e it room t =
    let text = IsText-dotted n e it.name_chars it.ext_chars in
    let ends = IsTerminated-append (dotted n e) zeros in
    let (r, run) = istrncmp_total filename name max_path ends t in
    let (to_prefix, from_prefix) = istrncmp-zero_iff filename name max_path ends t in
    let same : content filename ≡ dotted n e = content-append (dotted n e) zeros text in
    record {
      filename = filename;
      result = r;
      named = full_name_lem bytes n e max_path it room ∙ λ j. some (dotted n e ++ split j);
      compared = run;
      matches = (
        λ z. rw same at (to_prefix (run ∙ ap some z)),
        λ m. some-inj r (pos 0) (sym run ∙ from_prefix (rw same m)),
      );
    }
  where
    zeros : List ℕ
    zeros = replicate (max_path - length (dotted n e) - 1) 0

    filename : List ℕ
    filename = dotted n e ++ 0 ∷ zeros

    split : replicate (max_path - length (dotted n e)) 0 ≡ 0 ∷ zeros
    split =
        ap (λ k. replicate {A = ℕ} k 0)
          (let k : max_path - length (dotted n e) ≡ suc (max_path - length (dotted n e) - 1) =
              omega arith in
            k)

-- The item that a file's directory item becomes.
abbrev pub file_item : List ℕ → FatItem
file_item bytes = record { content = item (some (take item_size bytes)); type = type_file }

-- An item that is not a subdirectory: the attribute is its byte 11.
abbrev pub IsRegular : List ℕ → Type 0
IsRegular bytes =
    (attribute : ℕ) × (get_elem? bytes 11 ≡ some attribute) × (bit_and attribute subdirectory ≡ 0)

clone_lem :
    (l : ℕ) (bytes : List ℕ)
    → item_size ≤ length bytes
    → clone_directory_item (suc l) bytes item_size ≡ some (some (take item_size bytes), l)
unfolding clone_directory_item
clone_lem l bytes h =
    rw (memcpy_lem (replicate item_size 0) bytes item_size (omega arith) h)
      (ap (λ b. some (some b, l)) (append-nil (take item_size bytes)))

new_item_regular :
    (v : Volume) (l : ℕ) (bytes : List ℕ)
    → item_size ≤ length bytes
    → IsRegular bytes
    → new_fat_item_for_directory_item v (suc (suc l)) bytes ≡ some (some (file_item bytes), l)
unfolding new_fat_item_for_directory_item
new_item_regular v l bytes h (a, e, z) = rw (e, z, clone_lem l bytes h)

module _ (v : Volume) (items name : List ℕ) where
  abbrev at : ℕ → List ℕ
  at i = drop (item_size * i) items

  find_skip :
      (rounds i left : ℕ) (f : Option FatItem) (n e : List ℕ)
      → Compared (at i) name n e
      → ¬ Matches name n e
      → find_loop v items name (suc rounds) i left f ≡ find_loop v items name rounds (i + 1) left f
  unfolding find_loop
  find_skip rounds i left f n e c differ =
      let no : (c.result ==ℤ pos 0) ≡ false =
        not_true (c.result ==ℤ pos 0) (λ y. differ (c.matches.0 ((zero_test c.result).0 y))) in
      rw (c.named, c.compared, no)

  find_hit :
      (rounds i l : ℕ) (f : Option FatItem) (n e : List ℕ)
      → Compared (at i) name n e
      → Matches name n e
      → item_size ≤ length (at i)
      → IsRegular (at i)
      → find_loop v items name (suc rounds) i (suc (suc l)) f
        ≡ find_loop v items name rounds (i + 1) l (some (file_item (at i)))
  unfolding find_loop
  find_hit rounds i l f n e c same size regular =
      let yes : (c.result ==ℤ pos 0) ≡ true = (zero_test c.result).1 (c.matches.1 same) in
      rw (c.named, c.compared, yes, new_item_regular v l (at i) size regular)

  -- Item `i` has a name that is not the one that is looked for.
  abbrev pub HasOtherName : ℕ → Type 0
  HasOtherName i =
      (n : List ℕ) × (e : List ℕ) × IsItem (at i) n e
      × (length (dotted n e) < max_path)
      × (¬ Matches name n e)

  find_others :
      (others rounds all i next left : ℕ) (f : Option FatItem)
      → all ≡ others + rounds
      → next ≡ i + others
      → IsTerminated name
      → ((j : ℕ) → i ≤ j → j < next → HasOtherName j)
      → find_loop v items name all i left f ≡ find_loop v items name rounds next left f
  find_others zero rounds all i next left f a b t h =
      λ k. find_loop v items name (same_rounds k) (same_start k) left f
    where
      same_rounds : all ≡ rounds
      same_rounds = omega arith

      same_start : i ≡ next
      same_start = omega arith
  find_others (suc others) rounds zero i next left f a b t h = absurd (omega arith)
  find_others (suc others) rounds (suc all) i next left f a b t h =
      let (n, e, it, room, differ) = h i (omega arith) (omega arith) in
      find_skip all i left f n e (compare (at i) name n e it room t) differ
      ∙ find_others others rounds all (i + 1) next left f (omega arith) (omega arith) t
          (λ j low high. h j (omega arith) high)

  -- Item `i` has the name that is looked for and is no subdirectory.
  pub record Holds (i : ℕ) : Type 0 where
    pub n : List ℕ
    pub e : List ℕ
    pub is_item : IsItem (at i) n e
    pub room : length (dotted n e) < max_path
    pub same : Matches name n e
    pub size : item_size ≤ length (at i)
    pub regular : IsRegular (at i)

  find_one :
      (before behind total l : ℕ)
      → total ≡ before + suc behind
      → IsTerminated name
      → ((j : ℕ) → j < total → j ≢ before → HasOtherName j)
      → Holds before
      → find_loop v items name total 0 (suc (suc l)) none ≡ some (some (file_item (at before)), l)
  unfolding find_loop
  find_one before behind total l k t others it =
      find_others before (suc behind) total 0 before (suc (suc l)) none k (omega arith) t
        (λ j _ high. others j (omega arith) (λ e. absurd (omega (arith, e))))
      ∙ find_hit behind before l none it.n it.e
          (compare (at before) name it.n it.e it.is_item it.room t) it.same it.size it.regular
      ∙ find_others behind 0 behind (before + 1) total l (some (file_item (at before)))
          (omega arith) (omega arith) t
          (λ j low high. others j high (λ e. absurd (omega (arith, e))))

-- In a directory where every item has a well-formed name of less than 108 characters and exactly
-- one has a given name, without regard to case, and is no subdirectory, a look-up of the name gives
-- that item as a file, with its 32 bytes copied, and takes two blocks of the heap, if there are as
-- many.
pub find_item_in_directory_lem :
    (v : Volume) (l i : ℕ) (d : Directory) (name : List ℕ)
    → IsTerminated name
    → i < pos_part d.total
    → Holds v d.items name i
    → ((j : ℕ) → j < pos_part d.total → j ≢ i → HasOtherName v d.items name j)
    → find_item_in_directory v (suc (suc l)) d name
      ≡ some (some (file_item (drop (item_size * i) d.items)), l)
unfolding find_item_in_directory
find_item_in_directory_lem v l i d name t bound it others =
    find_one v d.items name i (pos_part d.total - i - 1) (pos_part d.total) l (omega arith) t others
      it

-- In a directory where every item has a well-formed name of less than 108 characters and none has a
-- given one, without regard to case, a look-up of the name gives the null pointer and leaves the
-- heap as it was.
pub find_item_in_directory_absent :
    (v : Volume) (left : ℕ) (d : Directory) (name : List ℕ)
    → IsTerminated name
    → ((j : ℕ) → j < pos_part d.total → HasOtherName v d.items name j)
    → find_item_in_directory v left d name ≡ some (none, left)
unfolding find_item_in_directory find_loop
find_item_in_directory_absent v left d name t others =
    find_others v d.items name (pos_part d.total) 0 (pos_part d.total) 0 (pos_part d.total) left
      none (omega arith) (omega arith) t (λ j _ high. others j high)
