-- ===== src/Fat16/Counting.antt =====
-- `fat16_get_total_items_for_directory` against the first bytes of a directory's entries.
use guava_os_pro.Prelude.{
  Bool, true, false, Option, ℕ, zero, suc, ◌+◌, ◌*◌, ◌^◌, ◌%◌, ◌<◌, ◌≡◌, ◌≢◌, ap, ◌∙◌, some, List,
  [], ◌∷◌, arith, length, ◌==◌, ne→==_false, if◌then◌else◌,
}
use guava_os_pro.Prelude.Int.{ℤ, pos}
use guava_os_pro.Status.{all_ok}
use guava_os_pro.Streamer.{Device, sector_size, diskstreamer_read}
use guava_os_pro.Streamer.Sectors.{HasSectors, byte_at, window, diskstreamer_read_lem}
use guava_os_pro.Fat16.{item_size, stream_at, total_items_loop, get_total_items_for_directory}

-- The first bytes of the entries from a position on, up to the entry that ends the directory.
abbrev pub Entries : Device → ℕ → List ℕ → Type 0
Entries device position [] = byte_at device position ≡ 0
Entries device position (c ∷ cs) =
    (byte_at device position ≡ c) × (c ≢ 0) × Entries device (position + item_size) cs

-- The entries that are not marked as deleted.
abbrev pub in_use : List ℕ → ℕ
in_use [] = 0
in_use (c ∷ cs) = if c == 0xE5 then in_use cs else suc (in_use cs)

counted :
    (deleted : Bool) (rest : ℕ → Option ℤ) (i u : ℕ)
    → ((j : ℕ) → rest j ≡ some (pos (j + u)))
    → (if deleted then rest i else rest (i + 1)) ≡ some (pos (i + (if deleted then u else suc u)))
counted true rest i u h = h i
counted false rest i u h =
    h (i + 1) ∙ ap (λ k. some (pos k)) (let k : i + 1 + u ≡ i + suc u = omega arith in k)

module _ (device : Device) (h : HasSectors device) where
  read_item :
      (position : ℕ)
      → position % item_size ≡ 0
      → position + item_size < 2 ^ 31
      → diskstreamer_read device (stream_at position) item_size
        ≡ some (all_ok, window device position item_size, stream_at (position + item_size))
  read_item position a r = diskstreamer_read_lem device h position item_size (omega arith) r

  total_items_loop_end :
      (rounds position i : ℕ)
      → position % item_size ≡ 0
      → position + item_size < 2 ^ 31
      → byte_at device position ≡ 0
      → total_items_loop device (suc rounds) position i ≡ some (pos i)
  unfolding total_items_loop window
  total_items_loop_end rounds position i a r z = rw (read_item position a r, z)

  total_items_loop_entry :
      (rounds position i c : ℕ)
      → position % item_size ≡ 0
      → position + item_size < 2 ^ 31
      → byte_at device position ≡ c
      → c ≢ 0
      → total_items_loop device (suc rounds) position i ≡ (
          if c == 0xE5
          then total_items_loop device rounds (position + item_size) i
          else total_items_loop device rounds (position + item_size) (i + 1))
  unfolding total_items_loop window
  total_items_loop_entry rounds position i c a r z n =
      rw (read_item position a r, z, ne→==_false c 0 n)

  total_items_loop_lem :
      (cs : List ℕ) (rounds position i : ℕ)
      → position % item_size ≡ 0
      → position + item_size * suc (length cs) < 2 ^ 31
      → Entries device position cs
      → length cs < rounds
      → total_items_loop device rounds position i ≡ some (pos (i + in_use cs))
  total_items_loop_lem cs zero position i a r e l = absurd (omega arith)
  total_items_loop_lem [] (suc rounds) position i a r e l =
      total_items_loop_end rounds position i a (omega arith) e
      ∙ ap (λ k. some (pos k)) (omega arith)
  total_items_loop_lem (c ∷ cs) (suc rounds) position i a r (z, n, e) l =
      total_items_loop_entry rounds position i c a (omega arith) z n
      ∙ counted (c == 0xE5) (total_items_loop device rounds (position + item_size)) i (in_use cs)
          (λ j.
            total_items_loop_lem cs rounds (position + item_size) j (omega arith) (omega arith) e
              (omega arith))

  -- On a disk whose sectors have 512 bytes, the number of items of a directory is that of the
  -- entries, in front of the one that ends it, that are not marked as deleted, where the directory,
  -- the entry that ends it included, lies below 2 ^ 31.
  pub get_total_items_for_directory_lem :
      (directory_start_sector : ℕ) (cs : List ℕ)
      → Entries device (directory_start_sector * sector_size) cs
      → directory_start_sector * sector_size + item_size * suc (length cs) < 2 ^ 31
      → get_total_items_for_directory device directory_start_sector ≡ some (pos (in_use cs))
  unfolding get_total_items_for_directory
  get_total_items_for_directory_lem directory_start_sector cs e r =
      let start : ℕ = directory_start_sector * sector_size in
      let small : start % 2 ^ 32 ≡ start = omega arith in
      rw small (
        total_items_loop_lem cs (2 ^ 26) start 0 (omega arith) r e (omega arith)
        ∙ ap (λ k. some (pos k)) (omega arith))
