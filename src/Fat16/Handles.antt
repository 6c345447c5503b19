-- ===== src/Fat16/Handles.antt =====
-- The life of an open file: `fat16_open`, `fat16_seek`, `fat16_read` and `fat16_close` after one
-- another.
use mathlib.Core.Path.{subst}
use guava_os_pro.Prelude.{
  Option, none, some-inj, lt→leb_false, ◌≢◌, ◌%◌, ◌^◌, >>=-eq-some, ℕ, suc, ◌+◌, ◌*◌, ◌<◌, ◌≡◌, ◌≢◌,
  refl, ap, ◌∙◌, some, List, [], ◌∷◌, arith, ◌==◌, ==_refl, if◌then◌else◌, ◌>>=◌, drop, take,
}
use guava_os_pro.Prelude.Int.{ℤ, pos, pos_part}
use guava_os_pro.Status.{all_ok}
use guava_os_pro.CString.Content.{IsTerminated}
use guava_os_pro.Streamer.Sectors.{HasSectors, window}
use guava_os_pro.File.{seek_set, seek_cur, World, mode_read}
use guava_os_pro.Fat16.{item_size, Volume, item, type_file, FatItem}
use guava_os_pro.Fat16.Items.{fat_item_free, get_directory_entry, entry_loop}
use guava_os_pro.Fat16.Lookup.{Holds, HasOtherName, file_item, find_item_in_directory_lem}
use guava_os_pro.Fat16.Reading.{IsFirst, AllInCluster, cluster_start, read_loop_lem}
use guava_os_pro.Fat16.Driver.{
  read_loop, store_descriptor, filesize, fat16_seek, fat16_close, Fat, FatDescriptor, with_volume,
  descriptor_at, item_bytes, fat16_open, fat16_read,
}

-- The file that `fat16_open` adds, with its descriptor.
abbrev pub with_opened : World Fat → ℕ → FatItem → World Fat
with_opened w left f = with_volume w left (record w.volume {
  fresh = suc w.volume.fresh;
  opened = λ q.
      if q == w.volume.fresh then some (record { item = f; position = 0 }) else w.volume.opened q;
})

-- Exactly item `i` of the root directory has the name, and it is no subdirectory.
pub record IsOnly (v : Volume) (name : List ℕ) (i : ℕ) : Type 0 where
  pub terminated : IsTerminated name
  pub bound : i < pos_part v.root_directory.total
  pub holds : Holds v v.root_directory.items name i
  pub others :
      (j : ℕ)
      → j < pos_part v.root_directory.total
      → j ≢ i
      → HasOtherName v v.root_directory.items name j

abbrev pub root_item : Volume → ℕ → List ℕ
root_item v i = drop (item_size * i) v.root_directory.items

get_directory_entry-one :
    (v : Volume) (l i : ℕ) (name : List ℕ)
    → IsOnly v name i
    → get_directory_entry v (suc (suc l)) (name ∷ []) ≡ some (some (file_item (root_item v i)), l)
unfolding get_directory_entry entry_loop
get_directory_entry-one v l i name o =
    rw
      (find_item_in_directory_lem v l i v.root_directory name o.terminated o.bound o.holds o.others)

-- A volume that is mounted, and the blocks left on the heap.
abbrev pub mounted_on : Fat → Volume → ℕ → World Fat
mounted_on f v left = record { left = left; volume = record f { mounted = some v } }

fat16_open_lem :
    (f : Fat) (v : Volume) (l i : ℕ) (name : List ℕ)
    → IsOnly v name i
    → fat16_open (mounted_on f v (suc (suc (suc l)))) (name ∷ []) mode_read
      ≡ some (pos f.fresh, with_opened (mounted_on f v l) l (file_item (root_item v i)))
unfolding fat16_open
fat16_open_lem f v l i name o = rw (get_directory_entry-one v l i name o)

-- The descriptor of an open file, with the bytes of its directory item.
abbrev pub file_descriptor : List ℕ → ℕ → FatDescriptor
file_descriptor bytes position = record {
  item = record { content = item (some bytes); type = type_file };
  position = position;
}

abbrev pub IsOpen : World Fat → ℕ → List ℕ → ℕ → Type 0
IsOpen w p bytes position = w.volume.opened p ≡ some (file_descriptor bytes position)

-- The world in which the descriptor has a position.
abbrev pub moved : World Fat → ℕ → List ℕ → ℕ → World Fat
moved w p bytes k = store_descriptor w w.left p (some (file_descriptor bytes k))

IsOpen-moved :
    (w : World Fat) (p : ℕ) (bytes : List ℕ) (k : ℕ) → IsOpen (moved w p bytes k) p bytes k
IsOpen-moved w p bytes k = rw (==_refl p)

module _ (w : World Fat) (p : ℕ) (bytes : List ℕ) (position : ℕ)
    (o : IsOpen w p bytes position) where
  pub fat16_read_open :
      (v : Volume) (cluster size n : ℕ)
      → w.volume.mounted ≡ some v
      → HasSectors v.device
      → IsFirst bytes cluster
      → AllInCluster v cluster position size n
      → fat16_read w (pos p) size n
        ≡ some (pos n, window v.device (cluster_start v cluster + position) (n * size), w)
  unfolding fat16_read descriptor_at item_bytes
  fat16_read_open v cluster size n m h e i =
      rw (o, m, read_loop_lem v bytes cluster size n position h e i)

  fat16_seek_set :
      (offset file_size : ℕ)
      → filesize bytes ≡ some file_size
      → offset < file_size
      → fat16_seek w (pos p) offset seek_set ≡ some (all_ok, moved w p bytes offset)
  unfolding fat16_seek descriptor_at item_bytes
  fat16_seek_set offset file_size s k = rw (o, s, lt→leb_false file_size offset k)

  fat16_seek_cur :
      (offset file_size : ℕ)
      → filesize bytes ≡ some file_size
      → offset < file_size
      → position + offset < 2 ^ 32
      → fat16_seek w (pos p) offset seek_cur ≡ some (all_ok, moved w p bytes (position + offset))
  unfolding fat16_seek descriptor_at item_bytes
  fat16_seek_cur offset file_size s k l =
      let sum : (position + offset) % 2 ^ 32 ≡ position + offset = omega arith in
      rw (o, s, lt→leb_false file_size offset k, sum)

-- On a disk whose sectors have 512 bytes and in a root directory where every item has a well-formed
-- name of less than 108 characters, opening the file that alone has a name, and is no subdirectory,
-- with at least three blocks left, and reading from it returns the number of elements and stores
-- the bytes of the disk from the start of the file's first cluster on. The cluster's number, from 2
-- on, is the little-endian one at byte 26 of the item, with a high half of 0, and clusters lie one
-- after the other from the end of the root directory. Each element lies in the cluster, below
-- 2 ^ 31, and in sectors from its own offset on.
pub fat16_read-open :
    (f : Fat) (v : Volume) (l i cluster size n : ℕ) (name : List ℕ)
    → IsOnly v name i
    → HasSectors v.device
    → IsFirst (take item_size (root_item v i)) cluster
    → AllInCluster v cluster 0 size n
    → (fat16_open (mounted_on f v (suc (suc (suc l)))) (name ∷ []) mode_read >>= λ (p, w).
        fat16_read w p size n)
      ≡ some (
        pos n,
        window v.device (cluster_start v cluster) (n * size),
        with_opened (mounted_on f v l) l (file_item (root_item v i)),
      )
fat16_read-open f v l i cluster size n name o h c r = rw (fat16_open_lem f v l i name o) (
    fat16_read_open w f.fresh bytes 0 (rw (==_refl f.fresh)) v cluster size n refl h c r
    ∙ ap (λ a. some (pos n, window v.device a (n * size), w)) start)
  where
    bytes : List ℕ
    bytes = take item_size (root_item v i)

    w : World Fat
    w = with_opened (mounted_on f v l) l (file_item (root_item v i))

    start : cluster_start v cluster + 0 ≡ cluster_start v cluster
    start = omega arith

-- In a root directory where every item has a well-formed name of less than 108 characters, opening
-- the file that alone has a name, and is no subdirectory, with at least three blocks left, and
-- closing it gives back the three blocks that it took, and leaves no descriptor behind its pointer.
pub fat16_close-open :
    (f : Fat) (v : Volume) (l i : ℕ) (name : List ℕ)
    → IsOnly v name i
    → (fat16_open (mounted_on f v (suc (suc (suc l)))) (name ∷ []) mode_read >>= λ (p, w).
        fat16_close w p)
      ≡ some (
        all_ok,
        store_descriptor
            (with_opened (mounted_on f v l) l (file_item (root_item v i)))
            (suc (suc (suc l)))
            f.fresh
            none,
      )
unfolding fat16_close descriptor_at fat_item_free
fat16_close-open f v l i name o =
    rw (fat16_open_lem f v l i name o, ==_refl f.fresh)
      (ap
        (λ left. some (
          all_ok,
          store_descriptor (with_opened (mounted_on f v l) l (file_item (root_item v i))) left
              f.fresh none,
        ))
        (let k : suc (l + 2) ≡ suc (suc (suc l)) = omega arith in k))

same_world :
    (res res' : ℤ) (out out' : List ℕ) (w w' : World Fat)
    → Path (Option (ℤ × List ℕ × World Fat)) (some (res, out, w)) (some (res', out', w'))
    → w ≡ w'
same_world res res' out out' w w' h =
    let same : Path (ℤ × List ℕ × World Fat) (res, out, w) (res', out', w') = some-inj _ _ h in
    ap (λ x. x.2) same

fat16_read_world :
    (w w' : World Fat) (handle res : ℤ) (size nmemb : ℕ) (out : List ℕ)
    → fat16_read w handle size nmemb ≡ some (res, out, w')
    → w ≡ w'
unfolding fat16_read
fat16_read_world w w' handle res size nmemb out h =
    let ((p, d), e, e1) = >>=-eq-some (descriptor_at w handle) _ h in
    let (v, m, e2) = >>=-eq-some w.volume.mounted _ e1 in
    let (bytes, b, e3) = >>=-eq-some (item_bytes d) _ e2 in
    let ((res', out'), r, e4) = >>=-eq-some (read_loop v bytes size nmemb d.position) _ e3 in
    same_world _ res out' out w w' e4

-- A read that returns leaves the file as it was, its position too, so that the same call stores the
-- same bytes again.
pub fat16_read_again :
    (w w' : World Fat) (handle res : ℤ) (size nmemb : ℕ) (out : List ℕ)
    → fat16_read w handle size nmemb ≡ some (res, out, w')
    → fat16_read w' handle size nmemb ≡ some (res, out, w')
fat16_read_again w w' handle res size nmemb out h =
    subst (λ x. fat16_read x handle size nmemb ≡ some (res, out, w'))
      (fat16_read_world w w' handle res size nmemb out h) h

module _ (w : World Fat) (p : ℕ) (bytes : List ℕ) (position : ℕ)
    (o : IsOpen w p bytes position) where
  -- On a disk whose sectors have 512 bytes, seeking from the start of an open file to an offset
  -- below its size and reading there stores the bytes from that offset on in the file's first
  -- cluster, whatever the position was before. The cluster's number, from 2 on, is the little-endian
  -- one at byte 26 of the item, with a high half of 0, and clusters lie one after the other from the
  -- end of the root directory. Each element lies in the cluster, below 2 ^ 31, and in sectors from
  -- its own offset on.
  pub fat16_read-seek :
      (v : Volume) (cluster size n offset file_size : ℕ)
      → w.volume.mounted ≡ some v
      → HasSectors v.device
      → filesize bytes ≡ some file_size
      → offset < file_size
      → IsFirst bytes cluster
      → AllInCluster v cluster offset size n
      → (fat16_seek w (pos p) offset seek_set >>= λ (_, w'). fat16_read w' (pos p) size n)
        ≡ some (
          pos n,
          window v.device (cluster_start v cluster + offset) (n * size),
          moved w p bytes offset,
        )
  fat16_read-seek v cluster size n offset file_size m h s k c r =
      rw (fat16_seek_set w p bytes position o offset file_size s k) (
        fat16_read_open (moved w p bytes offset) p bytes offset (IsOpen-moved w p bytes offset) v
          cluster size n m h c r)

  -- For an open file of less than 2 ^ 31 bytes, a seek from the start and one from the current
  -- position on, each by an offset below the size, are both accepted, and lead to the sum of the
  -- offsets, even where that is behind the end of the file.
  pub fat16_seek-seek :
      (a b file_size : ℕ)
      → filesize bytes ≡ some file_size
      → file_size < 2 ^ 31
      → a < file_size
      → b < file_size
      → (w' : World Fat) × ((fat16_seek w (pos p) a seek_set >>= λ (_, w1).
            fat16_seek w1 (pos p) b seek_cur)
          ≡ some (all_ok, w'))
        × IsOpen w' p bytes (a + b)
  fat16_seek-seek a b file_size s l j k = (
    moved (moved w p bytes a) p bytes (a + b),
    rw (fat16_seek_set w p bytes position o a file_size s j) (
        fat16_seek_cur (moved w p bytes a) p bytes a (IsOpen-moved w p bytes a) b file_size s k
          (omega arith)),
    IsOpen-moved (moved w p bytes a) p bytes (a + b),
  )
