-- ===== src/Fat16/Tests.antt =====
-- A volume with one file, "HELLO.TXT", in its root directory. Every byte of the disk is the number
-- of its sector, and the file's cluster is the one sector 3.
use mathlib.Core.Path.{subst}
use guava_os_pro.Prelude.{
  ap, if◌then◌else◌, ◌==◌, ℕ, zero, suc, ◌+◌, ◌*◌, ◌≤◌, ◌<◌, ◌≡◌, ◌≢◌, refl, none, some, List, [],
  ◌∷◌, ◌++◌, arith, replicate, length-replicate, drop, take, ◌>>=◌, true, inr, inl, get_or,
  Bool-cases,
}
use guava_os_pro.Prelude.Int.{pos, is_neg}
use guava_os_pro.Status.{all_ok, eio}
use guava_os_pro.CString.{tolower}
use guava_os_pro.CString.Content.{IsTerminated, IsTerminated-append}
use guava_os_pro.Streamer.{Device}
use guava_os_pro.Streamer.Sectors.{HasSectors, window, byte_at}
use guava_os_pro.File.{World, mode_read, seek_set, seek_cur}
use guava_os_pro.Fat16.Fuel.{Ends, read_internal_fuel-Ends}
use guava_os_pro.Fat16.Chain.{IsChain, chain_bytes, read_internal-IsChain}
use guava_os_pro.Fat16.{
  read_internal_fuel, read_internal, Volume, Directory, field16, get_fat_entry,
  get_total_items_for_directory,
}
use guava_os_pro.Fat16.Items.{entry_loop, find_item_in_directory, get_directory_entry}
use guava_os_pro.Fat16.Driver.{
  Fat, filesize, fat16_open, fat16_read, fat16_seek, fat16_close, store_descriptor,
}
use guava_os_pro.Fat16.Names.{IsNameChar, IsItem}
use guava_os_pro.Fat16.Lookup.{Matches, Holds, HasOtherName, file_item, find_item_in_directory_lem}
use guava_os_pro.Fat16.Nested.{fat16_open_nested}
use guava_os_pro.Fat16.Counting.{Entries, get_total_items_for_directory_lem}
use guava_os_pro.Fat16.Reading.{IsFirst, cluster_start, AllInCluster, get_fat_entry_lem}
use guava_os_pro.Fat16.Handles.{
  fat16_read_open, IsOnly, IsOpen, mounted_on, with_opened, moved, file_descriptor, fat16_read-open,
  fat16_close-open, fat16_read-seek, fat16_seek-seek,
}

abbrev disk : Device
disk lba = replicate 512 lba

disk-HasSectors : HasSectors disk
disk-HasSectors lba = length-replicate {A = ℕ} 512 lba

-- The name, the attribute "archive", 14 bytes, the first cluster and the size.
abbrev hello : List ℕ
hello =
    b'H' ∷ b'E' ∷ b'L' ∷ b'L' ∷ b'O' ∷ 0x20 ∷ 0x20 ∷ 0x20 ∷ b'T' ∷ b'X' ∷ b'T' ∷ 0x20 ∷ 0 ∷ 0 ∷ 0
    ∷ 0 ∷ 0 ∷ 0 ∷ 0 ∷ 0 ∷ 0 ∷ 0 ∷ 0 ∷ 0 ∷ 0 ∷ 0 ∷ 2 ∷ 0 ∷ 200 ∷ 0 ∷ 0 ∷ 0 ∷ []

abbrev hello_name : List ℕ
hello_name = b'H' ∷ b'E' ∷ b'L' ∷ b'L' ∷ b'O' ∷ []

abbrev txt : List ℕ
txt = b'T' ∷ b'X' ∷ b'T' ∷ []

letter : (c : ℕ) → 0x20 < c → IsNameChar c
letter c h = ((λ e. absurd (omega (arith, e))), (λ e. absurd (omega (arith, e))))

hello-IsItem : IsItem hello hello_name txt
hello-IsItem = record {
  name_chars = (
    letter b'H' (omega arith),
    (
      letter b'E' (omega arith),
      (letter b'L' (omega arith), (letter b'L' (omega arith), (letter b'O' (omega arith), tt))),
    ),
  );
  ext_chars =
      (letter b'T' (omega arith), (letter b'X' (omega arith), (letter b'T' (omega arith), tt)));
  padding = drop 6 hello;
  behind = drop 12 hello;
  stop = 0x20;
  stops = inr refl;
  name_field = refl;
  ext_field = refl;
}

abbrev root : Directory
root = record { items = hello; total = pos 1; sector_pos = 2; ending_sector_pos = 3 }

abbrev volume : Volume
volume = record {
  device = disk;
  sectors_per_cluster = 1;
  reserved_sectors = 1;
  fat_copies = 1;
  root_dir_entries = 16;
  sectors_per_fat = 1;
  root_directory = root;
}

-- "hello.txt" and "other"
abbrev wanted : List ℕ
wanted = b'h' ∷ b'e' ∷ b'l' ∷ b'l' ∷ b'o' ∷ b'.' ∷ b't' ∷ b'x' ∷ b't' ∷ 0 ∷ []

abbrev other : List ℕ
other = b'o' ∷ b't' ∷ b'h' ∷ b'e' ∷ b'r' ∷ 0 ∷ []

wanted-same : Matches wanted hello_name txt
unfolding tolower
wanted-same = refl

wanted-Holds : Holds volume hello wanted 0
wanted-Holds = record {
  n = hello_name;
  e = txt;
  is_item = hello-IsItem;
  room = omega arith;
  same = wanted-same;
  size = omega arith;
  regular = (0x20, refl, refl);
}

wanted-IsTerminated : IsTerminated wanted
wanted-IsTerminated = IsTerminated-append (take 9 wanted) []

only_one : (j : ℕ) → j < 1 → j ≢ 0 → ⊥
only_one j k n = n (omega arith)

wanted-IsOnly : IsOnly volume wanted 0
wanted-IsOnly = record {
  terminated = wanted-IsTerminated;
  bound = omega arith;
  holds = wanted-Holds;
  others = λ j k n. absurd (only_one j k n);
}

find_item_in_directory_lem_example :
    find_item_in_directory volume 5 root wanted ≡ some (some (file_item hello), 3)
find_item_in_directory_lem_example =
    find_item_in_directory_lem volume 3 0 root wanted wanted-IsTerminated (omega arith) wanted-Holds
      (λ j k n. absurd (only_one j k n))

other-differs : ¬ Matches other hello_name txt
unfolding tolower
other-differs m =
    let first : b'h' ≡ b'o' = ap (λ s. get_or s 0 0) m in absurd (omega (arith, first))

other-HasOtherName : (j : ℕ) → j < 1 → HasOtherName volume hello other j
other-HasOtherName j k =
    subst (λ i. HasOtherName volume hello other i) (let z : 0 ≡ j = omega arith in z)
      (hello_name, txt, hello-IsItem, omega arith, other-differs)

-- One file is open.
abbrev driver : Fat
driver = record {
  device = disk;
  mounted = none;
  fresh = 1;
  opened = λ q. if q == 0 then some (file_descriptor hello 5) else none;
}

abbrev world : World Fat
world = mounted_on driver volume 5

nested_run :
    fat16_open world (wanted ∷ other ∷ []) mode_read ≡ some (eio, mounted_on driver volume 2)
unfolding fat16_open get_directory_entry entry_loop
nested_run = rw (
    find_item_in_directory_lem volume 2 0 root wanted wanted-IsTerminated (omega arith) wanted-Holds
      (λ j k n. absurd (only_one j k n)))

fat16_open_nested_example : is_neg eio ≡ true
fat16_open_nested_example =
    fat16_open_nested world (mounted_on driver volume 2) wanted other [] eio nested_run

-- Twice four bytes of the cluster.
reads_in : (offset : ℕ) → offset ≤ 300 → AllInCluster volume 2 offset 4 2
reads_in offset l i k = record {
  within = omega arith;
  not_at_end = omega arith;
  numbered = omega arith;
  number = omega arith;
  on_disk = omega arith;
  in_sector = omega arith;
}

hello_cluster : IsFirst hello 2
hello_cluster = record {
  no_high = (refl, refl);
  low = 2;
  high = 0;
  first = refl;
  second = refl;
  is = refl;
}

hello_size : filesize hello ≡ some 200
unfolding filesize field16
hello_size = refl

fat16_read-open_example :
    (fat16_open (mounted_on driver volume 3) (wanted ∷ []) mode_read >>= λ (p, w).
    fat16_read w p 4 2)
    ≡ some (
      pos 2,
      window disk (cluster_start volume 2) 8,
      with_opened (mounted_on driver volume 0) 0 (file_item hello),
    )
fat16_read-open_example =
    fat16_read-open driver volume 0 0 2 4 2 wanted wanted-IsOnly disk-HasSectors hello_cluster
      (reads_in 0 (omega arith))

fat16_close-open_example :
    (fat16_open (mounted_on driver volume 3) (wanted ∷ []) mode_read >>= λ (p, w). fat16_close w p)
    ≡ some (
      all_ok,
      store_descriptor (with_opened (mounted_on driver volume 0) 0 (file_item hello)) 3 1 none,
    )
fat16_close-open_example = fat16_close-open driver volume 0 0 wanted wanted-IsOnly

abbrev bytes_5 : List ℕ
bytes_5 = window disk (cluster_start volume 2 + 5) 8

read_run : fat16_read world (pos 0) 4 2 ≡ some (pos 2, bytes_5, world)
read_run =
    fat16_read_open world 0 hello 5 refl volume 2 4 2 refl disk-HasSectors hello_cluster
      (reads_in 5 (omega arith))

fat16_read-seek_example :
    (fat16_seek world (pos 0) 100 seek_set >>= λ (_, w). fat16_read w (pos 0) 4 2)
    ≡ some (pos 2, window disk (cluster_start volume 2 + 100) 8, moved world 0 hello 100)
fat16_read-seek_example =
    fat16_read-seek world 0 hello 5 refl volume 2 4 2 100 200 refl disk-HasSectors hello_size
      (omega arith) hello_cluster (reads_in 100 (omega arith))

-- Behind the end of the 200 bytes.
fat16_seek-seek_example :
    (w : World Fat) × ((fat16_seek world (pos 0) 150 seek_set >>= λ (_, w1).
    fat16_seek w1 (pos 0) 150 seek_cur)
      ≡ some (all_ok, w))
    × IsOpen w 0 hello 300
fat16_seek-seek_example =
    fat16_seek-seek world 0 hello 5 refl 150 150 200 hello_size (omega arith) (omega arith)
      (omega arith)

get_fat_entry_lem_example :
    get_fat_entry volume 2 ≡ some (pos (byte_at disk 2048 + 256 * byte_at disk 2049))
get_fat_entry_lem_example = get_fat_entry_lem volume disk-HasSectors 2 (omega arith)

-- An entry, one that is deleted and another entry in sector 1.
abbrev listing : Device
listing zero = replicate 512 0
listing (suc zero) = hello ++ 0xE5 ∷ replicate 31 0 ++ hello ++ replicate 416 0
listing (suc (suc lba)) = replicate 512 0

listing-HasSectors : HasSectors listing
listing-HasSectors zero = refl
listing-HasSectors (suc zero) = refl
listing-HasSectors (suc (suc lba)) = refl

letter_entry : (c : ℕ) → 0 < c → c ≢ 0
letter_entry c h = omega arith

listing-Entries : Entries listing 512 (b'H' ∷ 0xE5 ∷ b'H' ∷ [])
listing-Entries = (
  refl,
  letter_entry b'H' (omega arith),
  (refl, letter_entry 0xE5 (omega arith), (refl, letter_entry b'H' (omega arith), refl)),
)

get_total_items_for_directory_lem_example : get_total_items_for_directory listing 1 ≡ some (pos 2)
get_total_items_for_directory_lem_example =
    get_total_items_for_directory_lem listing listing-HasSectors 1 (b'H' ∷ 0xE5 ∷ b'H' ∷ [])
      listing-Entries (omega arith)

-- The table's entry of cluster 2, as the code looks for it, is in sector 4, and names cluster 3.
abbrev chained : Device
chained lba = if lba == 4 then 3 ∷ replicate 511 0 else replicate 512 lba

chained-HasSectors : HasSectors chained
chained-HasSectors lba = elim (Bool-cases (lba == 4)) [
  | inl e ↦ rw e refl
  | inr e ↦ rw e (length-replicate {A = ℕ} 512 lba)
]

abbrev chained_volume : Volume
chained_volume = record volume { device = chained }

chained-IsChain : IsChain chained_volume 2 (3 ∷ [])
chained-IsChain = (
  record { numbered = omega arith; number = omega arith; ends = omega arith },
  record {
    on_disk = omega arith;
    entry = refl;
    not_unused = λ e. omega arith;
    not_bad = λ e. omega arith;
    not_reserved = ((λ e. omega arith), (λ e. omega arith));
    not_last = ((λ e. omega arith), (λ e. omega arith));
  },
  record { numbered = omega arith; number = omega arith; ends = omega arith },
)

read_internal-IsChain_example :
    read_internal chained_volume 2 0 700 ≡ some (all_ok, chain_bytes chained_volume 2 (3 ∷ []) 700)
read_internal-IsChain_example =
    read_internal-IsChain chained_volume 2 (3 ∷ []) 700 chained-HasSectors (omega arith)
      chained-IsChain (omega arith)

read_internal_fuel-Ends_example : Ends volume 2 100 700 (read_internal_fuel volume 701 2 100 700)
read_internal_fuel-Ends_example =
    read_internal_fuel-Ends volume 2 701 100 700 (omega arith) (omega arith)
