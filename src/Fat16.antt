-- ===== src/Fat16.antt =====
-- src/fs/fat/fat16.c and fat16.h: the directories and clusters of a FAT16 volume. Items and paths
-- are in Fat16/Items, the calls that `struct filesystem` names in Fat16/Driver.
-- Every function seeks in its stream before it reads, so a stream is a local value. `int`s that can
-- be negative are 32-bit patterns; the result of a function is a signed integer. A directory item is
-- the list of the bytes from its pointer on, to the end of the array that it lies in. The heap is
-- the number of blocks left on it; `alloc` gives none, the null pointer, when it is empty.
pub mod Items
pub mod Driver
pub mod Names
pub mod Lookup
pub mod Nested
pub mod Counting
pub mod Fuel
pub mod Chain
pub mod Reading
pub mod Handles
mod Tests
use guava_os_pro.Prelude.{
  ℕ, zero, suc, ◌+◌, ◌-◌, ◌*◌, ◌/◌, ◌%◌, ◌^◌, bit_and, bit_or, Bool, not, ◌&&◌, ◌||◌, Option, none,
  some, List, [], ◌∷◌, ◌++◌, ltb, ◌==◌, if◌then◌else◌, get_elem?, set?, replicate, drop, ◌>>=◌,
}
use guava_os_pro.Prelude.Int.{ℤ, pos, negsuc, is_neg, pos_part, ◌==ℤ◌}
use guava_os_pro.Status.{all_ok, eio, einvarg, enomem}
use guava_os_pro.Memory.{memset, memcpy}
use guava_os_pro.CString.{istrncmp}
use guava_os_pro.PathParser.{alloc, max_path}
use guava_os_pro.Streamer.{Device, Stream, sector_size, diskstreamer_read}

-- `sizeof(struct fat_directory_item)`
abbrev pub item_size : ℕ
item_size = 32

-- FAT_FILE_SUBDIRECTORY
abbrev pub subdirectory : ℕ
subdirectory = 0x10

-- The pattern of an `int`.
abbrev pub word : ℤ → ℕ
word (pos n) = n % 2 ^ 32
word (negsuc n) = 2 ^ 32 - 1 - n % 2 ^ 32

abbrev pub stream_at : ℕ → Stream
stream_at position = record { position = position; disk = 0 }

-- The bytes of `items` are the array behind `item`.
pub record Directory : Type 0 where
  pub items : List ℕ
  pub total : ℤ
  pub sector_pos : ℕ
  pub ending_sector_pos : ℕ

-- The blocks that an allocation takes; `none` is the null pointer.
abbrev pub take_blocks : ℕ → ℕ → Option ℕ
take_blocks left size = let n = (size + 4095) / 4096 in if ltb left n then none else some (left - n)

-- The fields of `struct fat_header` that the driver reads, and the root directory.
pub record Volume : Type 0 where
  pub device : Device
  pub sectors_per_cluster : ℕ
  pub reserved_sectors : ℕ
  pub fat_copies : ℕ
  pub root_dir_entries : ℕ
  pub sectors_per_fat : ℕ
  pub root_directory : Directory

-- FAT_ITEM_TYPE
pub data ItemType : Type 0 where
  type_directory type_file : ItemType

-- The union of `struct fat_item`.
pub data Content : Type 0 where
  item : Option (List ℕ) → Content
  directory : Option Directory → Content

pub record FatItem : Type 0 where
  pub content : Content
  pub type : ItemType

-- Two bytes of a packed structure.
unfoldable pub field16 : List ℕ → ℕ → Option ℕ
field16 bytes i = do lo ← get_elem? bytes i; hi ← get_elem? bytes (i + 1); some (lo + 256 * hi)

-- The loop on `in`, writing at index `i` of `out`; a full name runs into what lies behind it.
unfoldable pub to_proper_string : List ℕ → ℕ → List ℕ → Option (List ℕ × ℕ)
to_proper_string out i [] = none
to_proper_string out i (c ∷ bytes) =
    let rest = λ (out' : List ℕ). to_proper_string out' (i + 1) bytes in
    if not (c == 0) && not (c == 0x20)
    then (do out' ← set? out i c; rest out')
    else if c == 0x20
    then (do out' ← set? out i 0; some (out', i))
    else some (out, i)

unfoldable pub get_full_relative_filename : List ℕ → List ℕ → ℕ → Option (List ℕ)
get_full_relative_filename bytes out max_len = do
  cleared ← memset out 0x00 max_len
  (named, i) ← to_proper_string cleared 0 bytes
  ext ← get_elem? bytes 8
  if not (ext == 0) && not (ext == 0x20)
      then (do
        dotted ← set? named i b'.'
        (full, _) ← to_proper_string dotted (i + 1) (drop 8 bytes)
        some full)
      else some named

-- A null pointer is handed on as `none`.
unfoldable pub clone_directory_item : ℕ → List ℕ → ℕ → Option (Option (List ℕ) × ℕ)
clone_directory_item left bytes size =
    if ltb size item_size then some (none, left) else elim (alloc left) [
      | none ↦ some (none, left)
      | some left' ↦ (do copy ← memcpy (replicate size 0) bytes size; some (some copy, left'))
    ]

-- The high half is not shifted.
unfoldable pub get_first_cluster : List ℕ → Option ℕ
get_first_cluster bytes = do high ← field16 bytes 20; low ← field16 bytes 26; some (bit_or high low)

unfoldable pub cluster_to_sector : Volume → ℕ → ℕ
cluster_to_sector v cluster =
    (v.root_directory.ending_sector_pos + (cluster + (2 ^ 32 - 2)) * v.sectors_per_cluster) % 2 ^ 32

-- The table's position is multiplied with the entry's offset.
unfoldable pub get_fat_entry : Volume → ℕ → Option ℤ
get_fat_entry v cluster = do
  let fat_table_position = v.reserved_sectors * sector_size
  (res, bytes, _) ←
      diskstreamer_read v.device (stream_at (fat_table_position * (cluster * 2) % 2 ^ 32)) 2
  if is_neg res then some res else (do entry ← field16 bytes 0; some (pos entry))

-- An entry that ends the chain, or that is bad, reserved or unused.
abbrev pub is_final : ℤ → Bool
is_final entry =
    entry ==ℤ pos 0xFF8
    || entry ==ℤ pos 0xFFF
    || entry ==ℤ pos 0xFF7
    || entry ==ℤ pos 0xFF0
    || entry ==ℤ pos 0xFF6
    || entry ==ℤ pos 0x00

-- The loop with `left` clusters to go ahead.
unfoldable pub cluster_loop : Volume → ℕ → ℤ → Option ℤ
cluster_loop v zero cluster_to_use = some cluster_to_use
cluster_loop v (suc left) cluster_to_use = do
  entry ← get_fat_entry v (word cluster_to_use)
  let rest = cluster_loop v left entry
  if is_final entry then some eio else rest

-- A volume with no sectors in a cluster makes the division a fault.
unfoldable pub get_cluster_for_offset : Volume → ℕ → ℕ → Option ℤ
get_cluster_for_offset v starting_cluster offset =
    let size_of_cluster_bytes = v.sectors_per_cluster * sector_size in
    if size_of_cluster_bytes == 0
    then none
    else cluster_loop v (offset / size_of_cluster_bytes) (pos starting_cluster)

-- Where the bytes at an offset of a file lie, in a cluster of it.
abbrev pub starting_pos : Volume → ℕ → ℕ → ℕ
starting_pos v cluster_to_use offset =
    (cluster_to_sector v cluster_to_use * sector_size
      + offset % (v.sectors_per_cluster * sector_size))
    % 2 ^ 32

-- The status and the bytes that are stored. Each call of itself has less to read.
unfoldable pub read_internal_fuel : Volume → ℕ → ℕ → ℕ → ℕ → Option (ℤ × List ℕ)
read_internal_fuel v zero cluster offset total = none
read_internal_fuel v (suc fuel) cluster offset total =
    let size_of_cluster_bytes = v.sectors_per_cluster * sector_size in
    let total_to_read = if ltb size_of_cluster_bytes total then size_of_cluster_bytes else total in
    let rest = read_internal_fuel v fuel cluster (offset + total_to_read) (total - total_to_read) in
    do
      cluster_to_use ← get_cluster_for_offset v cluster offset
      if is_neg cluster_to_use then some (cluster_to_use, []) else (do
        (res, bytes, _) ←
            diskstreamer_read v.device (stream_at (starting_pos v (word cluster_to_use) offset))
              total_to_read
        if not (res ==ℤ all_ok)
            then some (res, bytes)
            else if ltb 0 (total - total_to_read)
            then (do (res', more) ← rest; some (res', bytes ++ more))
            else some (res, bytes))

unfoldable pub read_internal : Volume → ℕ → ℕ → ℕ → Option (ℤ × List ℕ)
unfolding read_internal_fuel
read_internal v starting_cluster offset total =
    read_internal_fuel v (suc total) starting_cluster offset total

-- The loop of the count, at a position of the stream and with `i` items counted. `none` is also a
-- directory with no end within the rounds.
unfoldable pub total_items_loop : Device → ℕ → ℕ → ℕ → Option ℤ
total_items_loop device zero position i = none
total_items_loop device (suc rounds) position i = do
  (res, entry, s) ← diskstreamer_read device (stream_at position) item_size
  let unused = total_items_loop device rounds s.position i
  let counted = total_items_loop device rounds s.position (i + 1)
  if not (res ==ℤ all_ok) then some eio else (do
    first ← get_elem? entry 0
    if first == 0x00 then some (pos i) else if first == 0xE5 then unused else counted)

-- The position is stored in an `int`, which allows for 2 ^ 26 items.
unfoldable pub get_total_items_for_directory : Device → ℕ → Option ℤ
get_total_items_for_directory device directory_start_sector =
    total_items_loop device (2 ^ 26) (directory_start_sector * sector_size % 2 ^ 32) 0
