-- ===== src/Fat16/Reading.antt =====
-- `fat16_read_internal` and `fat16_get_fat_entry` against the bytes of the disk.
use native.Mathlib.Nat.{
  mod-eq_of_lt, div-eq_of_lt, mul_right_comm, zero-mul, suc-mul, add-mul, mul_assoc,
}
use guava_os_pro.Prelude.Bits.{zero-or}
use mathlib.Core.Path.{subst}
use guava_os_pro.Prelude.{
  ℕ, zero, suc, ◌+◌, ◌-◌, ◌*◌, ◌%◌, ◌^◌, ◌≤◌, ◌<◌, ◌≡◌, sym, ap, ◌∙◌, get_elem?, some, List, arith,
  false, ltb, le→ltb_false, ne→==_false, if◌then◌else◌,
}
use guava_os_pro.Prelude.Int.{pos}
use guava_os_pro.Status.{all_ok}
use guava_os_pro.Streamer.{sector_size}
use guava_os_pro.Streamer.Sectors.{
  HasSectors, InSector, byte_at, window, window-append, diskstreamer_read_lem,
}
use guava_os_pro.Fat16.{
  Volume, field16, get_first_cluster, cluster_to_sector, get_fat_entry, cluster_loop,
  get_cluster_for_offset, starting_pos, read_internal_fuel, read_internal, word,
}
use guava_os_pro.Fat16.Driver.{read_loop}

-- A multiple of the sector's size is where a sector starts.
multiple_of_sector : (r n : ℕ) → r * sector_size * n % sector_size ≡ 0
multiple_of_sector r n =
    let swapped : r * sector_size * n ≡ r * n * sector_size = mul_right_comm r sector_size n in
    omega (arith, swapped)

-- The number of bytes in a cluster, and where a cluster's first byte lies: the data start behind the
-- root directory, and the first cluster there has the number 2.
abbrev pub cluster_bytes : Volume → ℕ
cluster_bytes v = v.sectors_per_cluster * sector_size

abbrev pub cluster_start : Volume → ℕ → ℕ
cluster_start v cluster =
    v.root_directory.ending_sector_pos * sector_size + (cluster - 2) * cluster_bytes v

-- A range in the first cluster of a file: its end, the cluster's place on the disk, and the part of
-- it that lies in its first sector.
pub record InCluster (v : Volume) (cluster offset total : ℕ) : Type 0 where
  pub within : offset + total ≤ cluster_bytes v
  pub not_at_end : offset < cluster_bytes v
  pub numbered : 2 ≤ cluster
  pub number : cluster < 65536
  pub on_disk : cluster_start v cluster + cluster_bytes v < 2 ^ 31
  pub in_sector : InSector (cluster_start v cluster + offset) total

-- The sector of a cluster that lies below 2 ^ 31.
pub cluster_to_sector_lem :
    (v : Volume) (cluster : ℕ)
    → 2 ≤ cluster
    → cluster < 65536
    → cluster_start v cluster < 2 ^ 31
    → cluster_to_sector v cluster * sector_size ≡ cluster_start v cluster
unfolding cluster_to_sector
cluster_to_sector_lem v cluster two number on_disk =
    let spc : ℕ = v.sectors_per_cluster in
    let round : (cluster + (2 ^ 32 - 2)) * spc ≡ (cluster - 2) * spc + 2 ^ 32 * spc =
      ap (λ c. c * spc) (let e : cluster + (2 ^ 32 - 2) ≡ cluster - 2 + 2 ^ 32 = omega arith in e)
      ∙ add-mul (cluster - 2) (2 ^ 32) spc in
    let bytes : (cluster - 2) * (spc * sector_size) ≡ (cluster - 2) * spc * sector_size =
      sym (mul_assoc (cluster - 2) spc sector_size) in
    omega (arith, on_disk, round, bytes)

-- The first cluster of a directory item, whose high half is 0.
pub record IsFirst (bytes : List ℕ) (cluster : ℕ) : Type 0 where
  pub no_high : (get_elem? bytes 20 ≡ some 0) × (get_elem? bytes 21 ≡ some 0)
  pub low : ℕ
  pub high : ℕ
  pub first : get_elem? bytes 26 ≡ some low
  pub second : get_elem? bytes 27 ≡ some high
  pub is : cluster ≡ low + 256 * high

get_first_cluster_lem :
    (bytes : List ℕ) (cluster : ℕ) → IsFirst bytes cluster → get_first_cluster bytes ≡ some cluster
unfolding get_first_cluster field16
get_first_cluster_lem bytes cluster f =
    rw (f.no_high.0, f.no_high.1, f.first, f.second)
      (ap some (zero-or (f.low + 256 * f.high) ∙ sym f.is))

module _ (v : Volume) (h : HasSectors v.device) where
  first_cluster :
      (cluster offset : ℕ)
      → offset < cluster_bytes v
      → get_cluster_for_offset v cluster offset ≡ some (pos cluster)
  unfolding get_cluster_for_offset cluster_loop
  first_cluster cluster offset l =
      rw (ne→==_false (cluster_bytes v) 0 (λ e. absurd (omega (arith, e))), div-eq_of_lt l)

  starting_pos_lem :
      (cluster offset total : ℕ)
      → InCluster v cluster offset total
      → starting_pos v (word (pos cluster)) offset ≡ cluster_start v cluster + offset
  starting_pos_lem cluster offset total i =
      let small : cluster % 2 ^ 32 ≡ cluster = omega (arith, i.number) in
      let start = cluster_to_sector_lem v cluster i.numbered i.number (omega (arith, i.on_disk)) in
      rw (small, mod-eq_of_lt i.not_at_end, start) (omega (arith, i.on_disk, i.not_at_end))

  -- A read in the first cluster of a file returns 0 and stores the bytes of the disk from the
  -- offset in that cluster on, where the read does not run behind a sector's buffer.
  pub read_internal_lem :
      (cluster offset total : ℕ)
      → InCluster v cluster offset total
      → read_internal v cluster offset total
        ≡ some (all_ok, window v.device (cluster_start v cluster + offset) total)
  unfolding read_internal read_internal_fuel
  read_internal_lem cluster offset total i =
      let whole : (if ltb (cluster_bytes v) total then cluster_bytes v else total) ≡ total =
        ap (λ b. if b then cluster_bytes v else total)
          (le→ltb_false (cluster_bytes v) total (omega (arith, i.within))) in
      let done : ltb 0 (total - total) ≡ false = le→ltb_false 0 (total - total) (omega arith) in
      rw (
        first_cluster cluster offset i.not_at_end,
        whole,
        starting_pos_lem cluster offset total i,
        diskstreamer_read_lem v.device h (cluster_start v cluster + offset) total i.in_sector
            (omega (arith, i.within, i.on_disk)),
        done,
      )

  -- The entry of a cluster is the two bytes, the low one first, at the product of the table's
  -- position and the entry's offset in it, where that is below 2 ^ 31 and the disk's sectors have
  -- 512 bytes.
  pub get_fat_entry_lem :
      (cluster : ℕ)
      → v.reserved_sectors * sector_size * (cluster * 2) < 2 ^ 31
      → let at = v.reserved_sectors * sector_size * (cluster * 2) in
        get_fat_entry v cluster ≡ some (pos (byte_at v.device at + 256 * byte_at v.device (at + 1)))
  unfolding get_fat_entry field16 window
  get_fat_entry_lem cluster l =
      let at : ℕ = v.reserved_sectors * sector_size * (cluster * 2) in
      let small : at % 2 ^ 32 ≡ at = omega (arith, l) in
      rw (
        small,
        diskstreamer_read_lem v.device h at 2
            (omega (arith, multiple_of_sector v.reserved_sectors (cluster * 2)))
            (omega (arith, l, multiple_of_sector v.reserved_sectors (cluster * 2))),
      )

-- Every one of the `n` reads of `size` bytes, the first at the offset, lies in the first cluster.
abbrev pub AllInCluster : Volume → ℕ → ℕ → ℕ → ℕ → Type 0
AllInCluster v cluster offset size n =
    (i : ℕ) → i < n → InCluster v cluster (offset + i * size) size

-- The reads of `fat16_read` store one stretch of the disk.
pub read_loop_lem :
    (v : Volume) (bytes : List ℕ) (cluster size n offset : ℕ)
    → HasSectors v.device
    → IsFirst bytes cluster
    → AllInCluster v cluster offset size n
    → read_loop v bytes size n offset
      ≡ some (all_ok, window v.device (cluster_start v cluster + offset) (n * size))
unfolding read_loop window
read_loop_lem v bytes cluster size zero offset h e i =
    ap (λ k. some (all_ok, window v.device (cluster_start v cluster + offset) k))
      (sym (zero-mul size))
read_loop_lem v bytes cluster size (suc n) offset h e i =
    let first : InCluster v cluster offset size =
      subst (λ o. InCluster v cluster o size)
        (let z : offset + 0 * size ≡ offset = omega (arith, zero-mul size) in z)
        (i 0 (omega arith)) in
    let next : (offset + size) % 2 ^ 32 ≡ offset + size =
      omega (arith, first.within, first.on_disk) in
    rw
      (
        get_first_cluster_lem bytes cluster e,
        read_internal_lem v h cluster offset size first,
        next,
        read_loop_lem v bytes cluster size n (offset + size) h e
            (λ j k. subst (λ o. InCluster v cluster o size) (shift j) (i (suc j) (omega arith))),
      )
      (ap (λ b. some (all_ok, b))
        (window-append v.device size (n * size) (cluster_start v cluster + offset)
          (cluster_start v cluster + (offset + size)) (suc n * size) (omega arith)
          (omega (arith, suc-mul n size))))
  where
    shift : (j : ℕ) → offset + suc j * size ≡ offset + size + j * size
    shift j = omega (arith, suc-mul j size)
