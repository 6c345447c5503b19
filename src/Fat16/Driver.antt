-- ===== src/Fat16/Driver.antt =====
-- src/fs/fat/fat16.c: the functions that `fat16_fs` names, as a `FileSystem` of src/fs/file.h.
use guava_os_pro.Prelude.{
  ℕ, zero, suc, ◌+◌, ◌*◌, ◌/◌, ◌%◌, ◌^◌, bit_and, bit_or, not, Option, none, some, List, [], ◌++◌,
  leb, ◌==◌, if◌then◌else◌, get_elem?, ◌>>=◌,
}
use guava_os_pro.Prelude.Int.{ℤ, pos, negsuc, is_neg, ◌==ℤ◌}
use guava_os_pro.Status.{all_ok, eio, einvarg, enomem, efsnotus, erdonly, eunimp}
use guava_os_pro.PathParser.{alloc}
use guava_os_pro.Streamer.{Device, sector_size, diskstreamer_read}
use guava_os_pro.File.{
  FileMode, mode_read, SeekMode, seek_set, seek_cur, seek_end, seek_other, FileStat, World,
  FileSystem,
}
use guava_os_pro.Fat16.{
  item_size, stream_at, Directory, Volume, type_file, type_directory, item, directory, FatItem,
  take_blocks, field16, get_first_cluster, read_internal, get_total_items_for_directory,
}
use guava_os_pro.Fat16.Items.{fat_item_free, get_directory_entry}

-- `struct fat_file_descriptor`
pub record FatDescriptor : Type 0 where
  pub item : FatItem
  pub position : ℕ

-- The disk, what `fs_private` leads to, and the descriptors in use by their pointers, which are the
-- numbers below `fresh`.
pub record Fat : Type 0 where
  pub device : Device
  pub mounted : Option Volume
  pub fresh : ℕ
  pub opened : ℕ → Option FatDescriptor

abbrev pub with_volume : World Fat → ℕ → Fat → World Fat
with_volume w left fat = record { left = left; volume = fat }

-- `sizeof(struct fat_h)`, and where the signature lies in it.
abbrev pub header_size : ℕ
header_size = 62

abbrev pub signature : ℕ
signature = 0x29

-- The header's fields, as they are packed.
unfoldable pub read_header : Device → List ℕ → Option Volume
read_header device bytes = do
  sectors_per_cluster ← get_elem? bytes 13
  reserved_sectors ← field16 bytes 14
  fat_copies ← get_elem? bytes 16
  root_dir_entries ← field16 bytes 17
  sectors_per_fat ← field16 bytes 22
  some (record {
    device = device;
    sectors_per_cluster = sectors_per_cluster;
    reserved_sectors = reserved_sectors;
    fat_copies = fat_copies;
    root_dir_entries = root_dir_entries;
    sectors_per_fat = sectors_per_fat;
    root_directory = record { items = []; total = pos 0; sector_pos = 0; ending_sector_pos = 0 };
  })

-- The status, the root directory, and the blocks left.
unfoldable pub get_root_directory : Volume → ℕ → Option (ℤ × Directory × ℕ)
get_root_directory v left = do
  let root_dir_sector_pos = v.fat_copies * v.sectors_per_fat + v.reserved_sectors
  let root_dir_size = v.root_dir_entries * item_size
  total_items ← get_total_items_for_directory v.device root_dir_sector_pos
  elim (take_blocks left root_dir_size) [
    | none ↦ some (enomem, v.root_directory, left)
    | some left' ↦ (do
      (res, items, _) ←
          diskstreamer_read v.device (stream_at (root_dir_sector_pos * sector_size)) root_dir_size
      if not (res ==ℤ all_ok)
          then some (eio, v.root_directory, left')
          else some (
            all_ok,
            record {
              items = items;
              total = total_items;
              sector_pos = root_dir_sector_pos;
              ending_sector_pos = root_dir_sector_pos + root_dir_size / sector_size;
            },
            left',
          ))
  ]

-- From the read of the header on; the new volume is there if the status is 0.
unfoldable pub mount : Device → ℕ → Option (ℤ × Option Volume × ℕ)
mount device left = do
  (res, bytes, _) ← diskstreamer_read device (stream_at 0) header_size
  if not (res ==ℤ all_ok) then some (eio, none, left) else (do
    v ← read_header device bytes
    sign ← get_elem? bytes 38
    if not (sign == signature) then some (efsnotus, none, left) else (do
      (res', root, left') ← get_root_directory v left
      if not (res' ==ℤ all_ok)
          then some (eio, none, left')
          else some (all_ok, some (record v { root_directory = root }), left')))

-- The private data, the three streams in it and the stream for the header take a block each, and
-- are used without a test for null. The last is closed; on an error the first is freed too.
unfoldable pub fat16_resolve : World Fat → Option (ℤ × World Fat)
fat16_resolve w = do
  private ← alloc w.left
  cluster_read_stream ← alloc private
  fat_read_stream ← alloc cluster_read_stream
  directory_stream ← alloc fat_read_stream
  left ← alloc directory_stream
  (res, mounted, left') ← mount w.volume.device left
  let left'' = if is_neg res then suc (suc left') else suc left'
  some (res, with_volume w left'' (record w.volume { mounted = mounted }))

-- A descriptor whose item is not found is not freed.
unfoldable pub fat16_open : World Fat → List (List ℕ) → FileMode → Option (ℤ × World Fat)
fat16_open w path mode = elim mode [
  | mode_read ↦ elim (alloc w.left) [
    | none ↦ some (enomem, w)
    | some left ↦ (do
      v ← w.volume.mounted
      (found, left') ← get_directory_entry v left path
      elim found [
        | none ↦ some (eio, with_volume w left' w.volume)
        | some f ↦
            let p = w.volume.fresh in
            some (
              pos p,
              with_volume w left' (record w.volume {
                fresh = suc p;
                opened = λ q.
                    if q == p then some (record { item = f; position = 0 }) else w.volume.opened q;
              }),
            )
      ])
  ]
  | _ ↦ some (erdonly, w)
]

-- A pointer that leads to no descriptor is a fault.
unfoldable pub descriptor_at : World Fat → ℤ → Option (ℕ × FatDescriptor)
descriptor_at w (negsuc n) = none
descriptor_at w (pos p) = do d ← w.volume.opened p; some (p, d)

abbrev pub store_descriptor : World Fat → ℕ → ℕ → Option FatDescriptor → World Fat
store_descriptor w left p o =
    with_volume w left (record w.volume { opened = λ q. if q == p then o else w.volume.opened q })

unfoldable pub fat16_close : World Fat → ℤ → Option (ℤ × World Fat)
fat16_close w handle = do
  (p, d) ← descriptor_at w handle
  left ← fat_item_free w.left d.item
  some (all_ok, store_descriptor w (suc left) p none)

-- The bytes of an open file's directory item.
unfoldable pub item_bytes : FatDescriptor → Option (List ℕ)
item_bytes d = elim d.item.content [ item o ↦ o | directory _ ↦ none ]

unfoldable pub filesize : List ℕ → Option ℕ
filesize bytes = do low ← field16 bytes 28; high ← field16 bytes 30; some (low + 65536 * high)

-- After an error the caller's structure is as it was; the zeros stand for that.
unfoldable pub fat16_stat : World Fat → ℤ → Option (ℤ × FileStat × World Fat)
fat16_stat w handle = do
  (_, d) ← descriptor_at w handle
  elim d.item.type [
    | type_directory ↦ some (einvarg, record { flags = 0; filesize = 0 }, w)
    | type_file ↦ (do
      bytes ← item_bytes d
      size ← filesize bytes
      attribute ← get_elem? bytes 11
      let flags = if bit_and attribute 0x01 == 0 then 0x00 else bit_or 0x00 0b00000001
      some (all_ok, record { flags = flags; filesize = size }, w))
  ]

-- The loop with `left` elements to go.
unfoldable pub read_loop : Volume → List ℕ → ℕ → ℕ → ℕ → Option (ℤ × List ℕ)
read_loop v bytes size zero offset = some (all_ok, [])
read_loop v bytes size (suc left) offset = do
  let rest = read_loop v bytes size left ((offset + size) % 2 ^ 32)
  cluster ← get_first_cluster bytes
  (res, out) ← read_internal v cluster offset size
  if is_neg res then some (res, out) else (do (res', more) ← rest; some (res', out ++ more))

-- The number of elements, where none of the reads fails. The position is not moved.
unfoldable pub fat16_read : World Fat → ℤ → ℕ → ℕ → Option (ℤ × List ℕ × World Fat)
unfolding read_loop
fat16_read w handle size nmemb = do
  (_, d) ← descriptor_at w handle
  v ← w.volume.mounted
  bytes ← item_bytes d
  (res, out) ← read_loop v bytes size nmemb d.position
  some (if is_neg res then res else pos nmemb, out, w)

unfoldable pub fat16_seek : World Fat → ℤ → ℕ → SeekMode → Option (ℤ × World Fat)
fat16_seek w handle offset seek_mode = do
  (p, d) ← descriptor_at w handle
  elim d.item.type [
    | type_directory ↦ some (einvarg, w)
    | type_file ↦ (do
      bytes ← item_bytes d
      size ← filesize bytes
      if leb size offset then some (eio, w) else elim seek_mode [
        | seek_set ↦
            some (all_ok, store_descriptor w w.left p (some (record d { position = offset })))
        | seek_end ↦ some (eunimp, w)
        | seek_other ↦ some (einvarg, w)
        | seek_cur ↦
            let position = (d.position + offset) % 2 ^ 32 in
            some (all_ok, store_descriptor w w.left p (some (record d { position = position })))
      ])
  ]

abbrev pub fat16_fs : FileSystem Fat
fat16_fs = record {
  resolve = fat16_resolve;
  open_item = fat16_open;
  read = fat16_read;
  seek = fat16_seek;
  stat = fat16_stat;
  close = fat16_close;
}
