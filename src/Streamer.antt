-- ===== src/Streamer.antt =====
-- src/disk/streamer.c and streamer.h, and what they use of src/disk/disk.c: bytes from any position
-- of the disk, read a sector at a time.
-- The device behind `disk_read_sector` is a parameter: the bytes of each sector. The one disk has
-- the number 0. A position is the 32-bit pattern of an `int`. A read that does not stay at positions
-- from 0 to 2 ^ 31 - 1, where it overflows or the number of the sector is negative, is a fault here.
pub mod Sectors
mod Tests
use guava_os_pro.Prelude.{
  ℕ, zero, suc, ◌+◌, ◌-◌, ◌/◌, ◌%◌, ◌^◌, leb, min, not, Option, none, some, List, [], ◌∷◌, ◌++◌,
  ltb, ◌==◌, if◌then◌else◌, get_elem?, ◌>>=◌,
}
use guava_os_pro.Prelude.Int.{ℤ, pos, is_neg}
use guava_os_pro.Status.{all_ok, eio}

-- GUAVAOS_SECTOR_SIZE
abbrev pub sector_size : ℕ
sector_size = 512

-- What a sector holds.
abbrev pub Device : Type 0
Device = ℕ → List ℕ

-- `struct disk_stream`
pub record Stream : Type 0 where
  pub position : ℕ
  pub disk : ℕ

-- `none` is the null pointer. Only number 0 is a disk.
unfoldable pub disk_get : ℕ → Option ℕ
disk_get index = if not (index == 0) then none else some 0

unfoldable pub diskstreamer_new : ℕ → Option Stream
unfolding disk_get
diskstreamer_new disk_id = do disk ← disk_get disk_id; some (record { position = 0; disk = disk })

unfoldable pub diskstreamer_seek : Stream → ℕ → ℤ × Stream
diskstreamer_seek s position = (all_ok, record s { position = position })

-- One sector, and the status; a disk other than the one is refused.
unfoldable pub disk_read_block : Device → ℕ → ℕ → ℤ × List ℕ
disk_read_block device disk lba = if not (disk == 0) then (eio, []) else (all_ok, device lba)

-- The loop at index `i` of the sector's buffer with `left` bytes to go. A read behind the buffer is
-- a fault.
unfoldable pub copy_loop : List ℕ → ℕ → ℕ → Option (List ℕ)
copy_loop buff i zero = some []
copy_loop buff i (suc left) = do
  b ← get_elem? buff i
  rest ← copy_loop buff (i + 1) left
  some (b ∷ rest)

-- The status, the bytes that are stored behind `out`, and the stream; `none` is also the overflow of
-- the position. Each call of itself has 512 bytes less to read, so `total + 1` is enough fuel.
unfoldable pub read_fuel : Device → ℕ → Stream → ℕ → Option (ℤ × List ℕ × Stream)
read_fuel device zero s total = none
read_fuel device (suc fuel) s total =
    let (res, buff) = disk_read_block device s.disk (s.position / sector_size) in
    let total_to_read = if ltb sector_size total then sector_size else total in
    let s' = record s { position = s.position + total_to_read } in
    let rest = read_fuel device fuel s' (total - sector_size) in
    if is_neg res then some (res, [], s) else (do
      bytes ← copy_loop buff (s.position % sector_size) total_to_read
      if leb (2 ^ 31) s'.position
          then none
          else if ltb sector_size total
          then (do (res', more, s'') ← rest; some (res', bytes ++ more, s''))
          else some (res, bytes, s'))

unfoldable pub diskstreamer_read : Device → Stream → ℕ → Option (ℤ × List ℕ × Stream)
unfolding read_fuel copy_loop disk_read_block
diskstreamer_read device s total = read_fuel device (suc total) s total
