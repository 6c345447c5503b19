-- ===== src/Fat16/Items.antt =====
-- src/fs/fat/fat16.c: directories in memory, the items found in them, and paths. Each function takes
-- the blocks left on the heap and returns them last. A call that frees the null pointer is a fault.
use guava_os_pro.Prelude.{
  ℕ, zero, suc, ◌+◌, ◌*◌, ◌/◌, bit_and, not, Option, none, some, List, [], ◌∷◌, ◌==◌, if◌then◌else◌,
  get_elem?, replicate, drop, ◌>>=◌,
}
use guava_os_pro.Prelude.Int.{pos, pos_part, ◌==ℤ◌}
use guava_os_pro.Status.{all_ok}
use guava_os_pro.CString.{istrncmp}
use guava_os_pro.PathParser.{alloc, max_path}
use guava_os_pro.Fat16.{
  item_size, subdirectory, Directory, Volume, type_directory, type_file, item, directory, FatItem,
  take_blocks, get_full_relative_filename, clone_directory_item, get_first_cluster,
  cluster_to_sector, read_internal, get_total_items_for_directory,
}

-- The directory and its array, which takes a number of blocks of its own.
unfoldable pub free_directory : ℕ → Directory → ℕ
free_directory left d = left + (pos_part d.total * item_size + 4095) / 4096 + 1

unfoldable pub fat_item_free : ℕ → FatItem → Option ℕ
unfolding free_directory
fat_item_free left f = elim f.type [
  | type_directory ↦ elim f.content [
    | item _ ↦ none
    | directory none ↦ some (left + 1)
    | directory (some d) ↦ some (free_directory left d + 1)
  ]
  | type_file ↦ elim f.content [
    | item none ↦ none
    | item (some bytes) ↦ some (left + 2)
    | directory none ↦ none
    | directory (some d) ↦ some (left + 2)
  ]
]

-- After an error the pointer to the freed directory is still returned.
unfoldable pub load_fat_directory : Volume → ℕ → List ℕ → Option (Option Directory × ℕ)
unfolding free_directory
load_fat_directory v left bytes = do
  attribute ← get_elem? bytes 11
  if bit_and attribute subdirectory == 0 then some (none, left) else elim (alloc left) [
    | none ↦ some (none, left)
    | some left' ↦ (do
      cluster ← get_first_cluster bytes
      total_items ← get_total_items_for_directory v.device (cluster_to_sector v cluster)
      let size = pos_part total_items * item_size
      let empty : Directory = record {
        items = [];
        total = total_items;
        sector_pos = 0;
        ending_sector_pos = 0;
      }
      elim (take_blocks left' size) [
        | none ↦ some (some empty, suc left')
        | some left'' ↦ (do
          (res, items) ← read_internal v cluster 0 size
          let d = record empty { items = items }
          if not (res ==ℤ all_ok)
              then some (some d, free_directory left'' d)
              else some (some d, left''))
      ])
  ]

-- A subdirectory is loaded, but its place in the union and the type are then overwritten.
unfoldable pub new_fat_item_for_directory_item : Volume → ℕ → List ℕ → Option (Option FatItem × ℕ)
new_fat_item_for_directory_item v left bytes = elim (alloc left) [
  | none ↦ some (none, left)
  | some left' ↦ (do
    attribute ← get_elem? bytes 11
    (_, left'') ←
        if not (bit_and attribute subdirectory == 0)
        then load_fat_directory v left' bytes
        else some (none, left')
    (copy, left''') ← clone_directory_item left'' bytes item_size
    some (some (record { content = item copy; type = type_file }), left'''))
]

-- The loop at item `i` with `rounds` to go. It does not stop at a match, so the last one stays.
unfoldable pub find_loop :
    Volume → List ℕ → List ℕ → ℕ → ℕ → ℕ → Option FatItem → Option (Option FatItem × ℕ)
find_loop v items name zero i left f_item = some (f_item, left)
find_loop v items name (suc rounds) i left f_item = do
  let bytes = drop (item_size * i) items
  filename ← get_full_relative_filename bytes (replicate max_path 0) max_path
  res ← istrncmp filename name max_path
  (f_item', left') ←
      if res ==ℤ pos 0 then new_fat_item_for_directory_item v left bytes else some (f_item, left)
  find_loop v items name rounds (i + 1) left' f_item'

unfoldable pub find_item_in_directory :
    Volume → ℕ → Directory → List ℕ → Option (Option FatItem × ℕ)
unfolding find_loop
find_item_in_directory v left d name = find_loop v d.items name (pos_part d.total) 0 left none

-- The loop over the parts of the path that are left. The current item is used without a test for
-- null.
unfoldable pub entry_loop :
    Volume → ℕ → Option FatItem → List (List ℕ) → Option (Option FatItem × ℕ)
entry_loop v left current [] = some (current, left)
entry_loop v left none (part ∷ parts) = none
entry_loop v left (some current) (part ∷ parts) =
    let next = λ (l : ℕ) (c : Option FatItem). entry_loop v l c parts in
    elim current.type [
      | type_file ↦ some (none, left)
      | type_directory ↦ elim current.content [
        | item _ ↦ none
        | directory none ↦ none
        | directory (some d) ↦ (do
          (tmp_item, left') ← find_item_in_directory v left d part
          left'' ← fat_item_free left' current
          next left'' tmp_item)
      ]
    ]

-- An empty path is a null pointer.
unfoldable pub get_directory_entry : Volume → ℕ → List (List ℕ) → Option (Option FatItem × ℕ)
get_directory_entry v left [] = none
get_directory_entry v left (part ∷ parts) = do
  (root_item, left') ← find_item_in_directory v left v.root_directory part
  elim root_item [ none ↦ some (none, left') | some f ↦ entry_loop v left' (some f) parts ]
