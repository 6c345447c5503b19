-- ===== src/Streamer/Sectors.antt =====
-- `diskstreamer_read` against the disk as one sequence of bytes.
use guava_os_pro.Prelude.{
  ℕ, zero, suc, ◌+◌, ◌-◌, ◌/◌, ◌%◌, ◌^◌, lt→leb_false, ◌≤◌, ◌<◌, ◌≡◌, refl, sym, ap, ◌∙◌, min, none,
  some, List, [], ◌∷◌, ◌++◌, arith, length, get_or, get_elem?-eq-get_or, get_elem?-eq-none,
  get_elem?, if◌then◌else◌, ltb, lt→ltb, le→ltb_false, ◌>>=◌,
}
use native.Mathlib.Decide.{dec_lt}
use guava_os_pro.Status.{all_ok}
use guava_os_pro.Streamer.{
  Device, Stream, sector_size, disk_read_block, copy_loop, read_fuel, diskstreamer_read,
}

-- Every sector has its 512 bytes.
abbrev pub HasSectors : Device → Type 0
HasSectors device = (lba : ℕ) → length (device lba) ≡ sector_size

-- The byte at a position of the disk.
abbrev pub byte_at : Device → ℕ → ℕ
byte_at device a = get_or (device (a / sector_size)) (a % sector_size) 0

-- The `n` bytes from a position on.
unfoldable pub window : Device → ℕ → ℕ → List ℕ
window device a zero = []
window device a (suc n) = byte_at device a ∷ window device (a + 1) n

pub window-append :
    (device : Device) (n m a b c : ℕ)
    → b ≡ a + n
    → c ≡ n + m
    → window device a n ++ window device b m ≡ window device a c
unfolding window
window-append device zero m a b c e k =
    let e' : b ≡ a = omega arith in
    let k' : c ≡ m = omega arith in λ i. window device (e' i) (sym k' i)
window-append device (suc n) m a b c e k =
    let k' : c ≡ suc (n + m) = omega arith in
    rw k'
      (ap (◌∷◌ (byte_at device a)) (window-append device n m (a + 1) b (n + m) (omega arith) refl))

module _ (device : Device) (h : HasSectors device) where
  read_byte :
      (a i lba : ℕ)
      → i ≡ a % sector_size
      → lba ≡ a / sector_size
      → get_elem? (device lba) i ≡ some (byte_at device a)
  read_byte a i lba e k =
      rw (e, k)
        (get_elem?-eq-get_or (device (a / sector_size)) (a % sector_size) 0
          (omega (arith, h (a / sector_size))))

  copy_loop_lem :
      (n a i lba : ℕ)
      → i ≡ a % sector_size
      → lba ≡ a / sector_size
      → i + n ≤ sector_size
      → copy_loop (device lba) i n ≡ some (window device a n)
  unfolding copy_loop window
  copy_loop_lem zero a i lba e k l = refl
  copy_loop_lem (suc zero) a i lba e k l = rw (read_byte a i lba e k)
  copy_loop_lem (suc (suc n)) a i lba e k l = rw (
    read_byte a i lba e k,
    copy_loop_lem (suc n) (a + 1) (i + 1) lba (omega arith) (omega arith) (omega arith),
  )

copy_loop_past :
    (buff : List ℕ) (n i : ℕ) → length buff < i + n → i ≤ length buff → copy_loop buff i n ≡ none
unfolding copy_loop
copy_loop_past buff zero i h k = absurd (omega arith)
copy_loop_past buff (suc n) i h k = elim (dec_lt i (length buff)) [
  | yes p ↦
      rw (get_elem?-eq-get_or buff i 0 p, copy_loop_past buff n (i + 1) (omega arith) (omega arith))
  | no p ↦ rw (get_elem?-eq-none buff i (omega arith))
]

abbrev stream_at : ℕ → Stream
stream_at a = record { position = a; disk = 0 }

-- The part of a read that lies in its first sector.
abbrev pub InSector : ℕ → ℕ → Type 0
InSector a total = a % sector_size + min total sector_size ≤ sector_size

module _ (device : Device) (h : HasSectors device) where
  read_last :
      (fuel a total : ℕ)
      → total ≤ sector_size
      → InSector a total
      → a + total < 2 ^ 31
      → read_fuel device (suc fuel) (stream_at a) total
        ≡ some (all_ok, window device a total, stream_at (a + total))
  unfolding read_fuel disk_read_block
  read_last fuel a total small l r = rw (
    le→ltb_false sector_size total small,
    copy_loop_lem device h total a (a % sector_size) (a / sector_size) refl refl (omega arith),
    lt→leb_false (2 ^ 31) (a + total) r,
  )

  read_sector :
      (fuel a total : ℕ)
      → sector_size < total
      → InSector a total
      → a + total < 2 ^ 31
      → read_fuel device (suc fuel) (stream_at a) total ≡ (
          read_fuel device fuel (stream_at (a + sector_size)) (total - sector_size)
          >>= λ (res, more, s). some (res, window device a sector_size ++ more, s))
  unfolding read_fuel disk_read_block
  read_sector fuel a total big l r = rw (
    lt→ltb sector_size total big,
    copy_loop_lem device h sector_size a (a % sector_size) (a / sector_size) refl refl
        (omega arith),
    lt→leb_false (2 ^ 31) (a + sector_size) (omega arith),
  )

  read_fuel_lem :
      (fuel a total : ℕ)
      → total < fuel
      → InSector a total
      → a + total < 2 ^ 31
      → read_fuel device fuel (stream_at a) total
        ≡ some (all_ok, window device a total, stream_at (a + total))
  read_fuel_lem zero a total f l r = absurd (omega arith)
  read_fuel_lem (suc fuel) a total f l r = elim (dec_lt sector_size total) [
    | no p ↦ read_last fuel a total (omega arith) l r
    | yes p ↦
        read_sector fuel a total p l r
        ∙ rw
            (
              read_fuel_lem fuel (a + sector_size) (total - sector_size) (omega arith) (omega arith)
                  (omega arith),
              window-append device sector_size (total - sector_size) a (a + sector_size) total refl
                  (omega arith),
            )
            (ap (λ b. some (all_ok, window device a total, stream_at b)) (omega arith))
  ]

  -- On a disk whose sectors have 512 bytes, a `diskstreamer_read` that ends below 2 ^ 31, from a
  -- position whose sector has room for the first 512 bytes that are asked for, or for all of them if
  -- they are fewer, returns 0, stores the disk's bytes from that position on, and moves the stream
  -- behind them.
  pub diskstreamer_read_lem :
      (a total : ℕ)
      → InSector a total
      → a + total < 2 ^ 31
      → diskstreamer_read device (record { position = a; disk = 0 }) total
        ≡ some (all_ok, window device a total, record { position = a + total; disk = 0 })
  unfolding diskstreamer_read
  diskstreamer_read_lem a total l r = read_fuel_lem (suc total) a total (omega arith) l r

  -- On a disk whose sectors have 512 bytes, `diskstreamer_read` from a position whose sector has no
  -- room for the first 512 bytes that are asked for, or for all of them if they are fewer, reads
  -- behind the buffer that holds the sector.
  pub diskstreamer_read_overruns :
      (a total : ℕ)
      → ¬ InSector a total
      → diskstreamer_read device (record { position = a; disk = 0 }) total ≡ none
  unfolding diskstreamer_read
  diskstreamer_read_overruns a total l =
      let n : ℕ = if ltb sector_size total then sector_size else total in
      let n_is : n ≡ min total sector_size = ground arith in
      let past : copy_loop (device (a / sector_size)) (a % sector_size) n ≡ none =
        copy_loop_past (device (a / sector_size)) n (a % sector_size)
          (omega (arith, h (a / sector_size))) (omega (arith, h (a / sector_size))) in
      rw past refl
