-- ===== src/Fat16/Chain.antt =====
-- `fat16_get_cluster_for_offset` and `fat16_read_internal` along the cluster chain of a file.
use native.Mathlib.Nat.{mul_assoc, mul-div_cancel, mul-mod_left, zero-mul, suc-mul}
use guava_os_pro.Prelude.{
  ℕ, zero, suc, ◌+◌, ◌-◌, ◌*◌, ◌/◌, ◌%◌, ◌^◌, ◌≤◌, ◌<◌, ◌≡◌, ◌≢◌, sym, ap, ◌∙◌, some, List, [], ◌∷◌,
  ◌++◌, arith, false, true, ltb, le→ltb_false, lt→ltb, ne→==_false, if◌then◌else◌, length, ◌>>=◌,
}
use native.Mathlib.Decide.{dec_lt}
use guava_os_pro.Prelude.Int.{pos, ◌==ℤ◌}
use guava_os_pro.Status.{all_ok}
use guava_os_pro.Streamer.{sector_size}
use guava_os_pro.Streamer.Sectors.{HasSectors, InSector, byte_at, window, diskstreamer_read_lem}
use guava_os_pro.Fat16.{
  Volume, get_fat_entry, is_final, cluster_loop, get_cluster_for_offset, starting_pos, word,
  read_internal_fuel, read_internal,
}
use guava_os_pro.Fat16.Reading.{
  cluster_bytes, cluster_start, cluster_to_sector_lem, get_fat_entry_lem,
}

-- Where the code looks for the entry of a cluster: at the product of the table's position and the
-- offset of the entry.
abbrev pub entry_position : Volume → ℕ → ℕ
entry_position v c = v.reserved_sectors * sector_size * (c * 2)

-- The two bytes of the disk at the position for `c`, the low one first, are the number `d`, which is
-- none of those that end a chain.
pub record IsNext (v : Volume) (c d : ℕ) : Type 0 where
  pub on_disk : entry_position v c < 2 ^ 31
  pub entry :
      byte_at v.device (entry_position v c) + 256 * byte_at v.device (entry_position v c + 1) ≡ d
  pub not_unused : d ≢ 0
  pub not_bad : d ≢ 0xFF7
  pub not_reserved : (d ≢ 0xFF0) × (d ≢ 0xFF6)
  pub not_last : (d ≢ 0xFF8) × (d ≢ 0xFFF)

-- A cluster has a number from 2 on, of 16 bits, and lies below 2 ^ 31.
pub record OnDisk (v : Volume) (c : ℕ) : Type 0 where
  pub numbered : 2 ≤ c
  pub number : c < 65536
  pub ends : cluster_start v c + cluster_bytes v < 2 ^ 31

-- The clusters that follow `c`, in their order.
abbrev pub IsChain : Volume → ℕ → List ℕ → Type 0
IsChain v c [] = OnDisk v c
IsChain v c (d ∷ ds) = OnDisk v c × IsNext v c d × IsChain v d ds

IsChain-OnDisk : (v : Volume) (c : ℕ) (ds : List ℕ) → IsChain v c ds → OnDisk v c
IsChain-OnDisk v c [] h = h
IsChain-OnDisk v c (d ∷ ds) (h, _, _) = h

-- The first bytes of the clusters one after the other.
abbrev pub chain_bytes : Volume → ℕ → List ℕ → ℕ → List ℕ
chain_bytes v c [] total = window v.device (cluster_start v c) total
chain_bytes v c (d ∷ ds) total =
    if ltb (cluster_bytes v) total
    then window v.device (cluster_start v c) (cluster_bytes v)
      ++ chain_bytes v d ds (total - cluster_bytes v)
    else window v.device (cluster_start v c) total

-- Going `k` clusters ahead from one leads to the other, wherever it goes from there.
abbrev Leads : Volume → ℕ → ℕ → ℕ → Type 0
Leads v start k c = (n : ℕ) → cluster_loop v (k + n) (pos start) ≡ cluster_loop v n (pos c)

pos-ne : (d n : ℕ) → d ≢ n → (pos d ==ℤ pos n) ≡ false
pos-ne d n ne = ground arith

goes_on : (v : Volume) (c d : ℕ) → IsNext v c d → is_final (pos d) ≡ false
goes_on v c d h = rw (
  pos-ne d 0 h.not_unused,
  pos-ne d 0xFF7 h.not_bad,
  pos-ne d 0xFF0 h.not_reserved.0,
  pos-ne d 0xFF6 h.not_reserved.1,
  pos-ne d 0xFF8 h.not_last.0,
  pos-ne d 0xFFF h.not_last.1,
)

cluster_loop_next :
    (v : Volume) (n c d : ℕ)
    → HasSectors v.device
    → c < 65536
    → IsNext v c d
    → cluster_loop v (suc n) (pos c) ≡ cluster_loop v n (pos d)
unfolding cluster_loop
cluster_loop_next v n c d disk small h =
    let same : c % 2 ^ 32 ≡ c = omega arith in
    let entry : get_fat_entry v c ≡ some (pos d) =
      get_fat_entry_lem v disk c h.on_disk ∙ ap (λ e. some (pos e)) h.entry in
    rw (same, entry, goes_on v c d h)

Leads-next :
    (v : Volume) (start k c d : ℕ)
    → HasSectors v.device
    → c < 65536
    → IsNext v c d
    → Leads v start k c
    → Leads v start (suc k) d
Leads-next v start k c d disk small h leads n =
    ap (λ m. cluster_loop v m (pos start)) (let e : suc k + n ≡ k + suc n = omega arith in e)
    ∙ leads (suc n)
    ∙ cluster_loop_next v n c d disk small h

module _ (v : Volume) (h : HasSectors v.device) (start : ℕ)
    (whole : 0 < v.sectors_per_cluster) where
  get_cluster_for_offset_lem :
      (k c : ℕ)
      → Leads v start k c
      → get_cluster_for_offset v start (k * cluster_bytes v) ≡ some (pos c)
  unfolding get_cluster_for_offset cluster_loop
  get_cluster_for_offset_lem k c leads =
      let ahead : k * cluster_bytes v / cluster_bytes v ≡ k =
        mul-div_cancel k (omega (arith, whole)) in
      let here : cluster_loop v k (pos start) ≡ some (pos c) =
        ap (λ m. cluster_loop v m (pos start)) (let e : k ≡ k + 0 = omega arith in e) ∙ leads 0 in
      rw (ne→==_false (cluster_bytes v) 0 (λ e. absurd (omega (arith, e, whole))), ahead, here)

  starting_pos_lem :
      (k c : ℕ)
      → OnDisk v c
      → starting_pos v (word (pos c)) (k * cluster_bytes v) ≡ cluster_start v c
  starting_pos_lem k c o =
      let small : c % 2 ^ 32 ≡ c = omega (arith, o.number) in
      let at = cluster_to_sector_lem v c o.numbered o.number (omega (arith, o.ends)) in
      rw (small, mul-mod_left k (cluster_bytes v), at) (omega (arith, o.ends, whole))

  starts_sector : (c n : ℕ) → InSector (cluster_start v c) n
  starts_sector c n =
      let whole_sectors : (c - 2) * (v.sectors_per_cluster * sector_size)
          ≡ (c - 2) * v.sectors_per_cluster * sector_size =
        sym (mul_assoc (c - 2) v.sectors_per_cluster sector_size) in
      omega (arith, whole_sectors)

  -- The last round, in a cluster that has all the bytes.
  read_last :
      (fuel k c total : ℕ)
      → OnDisk v c
      → Leads v start k c
      → total ≤ cluster_bytes v
      → read_internal_fuel v (suc fuel) start (k * cluster_bytes v) total
        ≡ some (all_ok, window v.device (cluster_start v c) total)
  unfolding read_internal_fuel
  read_last fuel k c total o leads fits =
      let one : (if ltb (cluster_bytes v) total then cluster_bytes v else total) ≡ total =
        ap (λ b. if b then cluster_bytes v else total)
          (le→ltb_false (cluster_bytes v) total fits) in
      let done : ltb 0 (total - total) ≡ false = le→ltb_false 0 (total - total) (omega arith) in
      rw (
        get_cluster_for_offset_lem k c leads,
        one,
        starting_pos_lem k c o,
        diskstreamer_read_lem v.device h (cluster_start v c) total (starts_sector c total)
            (omega (arith, o.ends, fits)),
        done,
      )

  -- A round that reads a whole cluster.
  read_whole :
      (fuel k c total : ℕ)
      → OnDisk v c
      → Leads v start k c
      → cluster_bytes v < total
      → read_internal_fuel v (suc fuel) start (k * cluster_bytes v) total ≡ (
          read_internal_fuel v fuel start (suc k * cluster_bytes v) (total - cluster_bytes v)
          >>= λ (res, more).
              some (res, window v.device (cluster_start v c) (cluster_bytes v) ++ more))
  unfolding read_internal_fuel
  read_whole fuel k c total o leads more =
      let over : ltb (cluster_bytes v) total ≡ true = lt→ltb (cluster_bytes v) total more in
      let left : ltb 0 (total - cluster_bytes v) ≡ true =
        lt→ltb 0 (total - cluster_bytes v) (omega (arith, more)) in
      rw (
        over,
        get_cluster_for_offset_lem k c leads,
        starting_pos_lem k c o,
        diskstreamer_read_lem v.device h (cluster_start v c) (cluster_bytes v)
            (starts_sector c (cluster_bytes v)) o.ends,
        left,
        suc-mul k (cluster_bytes v),
      )

  chain_lem :
      (fuel k c : ℕ) (ds : List ℕ) (total : ℕ)
      → IsChain v c ds
      → Leads v start k c
      → total < fuel
      → total ≤ suc (length ds) * cluster_bytes v
      → read_internal_fuel v fuel start (k * cluster_bytes v) total
        ≡ some (all_ok, chain_bytes v c ds total)
  chain_lem zero k c ds total chain leads f fits = absurd (omega arith)
  chain_lem (suc fuel) k c [] total chain leads f fits =
      read_last fuel k c total chain leads (omega (arith, zero-mul (cluster_bytes v)))
  chain_lem (suc fuel) k c (d ∷ ds) total (o, next, chain) leads f fits =
      elim (dec_lt (cluster_bytes v) total) [
        | no p ↦
            rw (le→ltb_false (cluster_bytes v) total (omega arith))
              (read_last fuel k c total o leads (omega arith))
        | yes p ↦
            read_whole fuel k c total o leads p
            ∙ rw (
              lt→ltb (cluster_bytes v) total p,
              chain_lem fuel (suc k) d ds (total - cluster_bytes v) chain
                  (Leads-next v start k c d h o.number next leads) (omega (arith, whole))
                  (omega (arith, suc-mul (suc (length ds)) (cluster_bytes v))),
            )
      ]

-- On a disk whose sectors have 512 bytes, a read from the start of a file returns 0 and stores the
-- first bytes of the clusters of its chain one after the other. The chain is the one that the disk's
-- bytes give at the product, below 2 ^ 31, of the table's position and the offset of each entry, up
-- to as many clusters as the read needs; the clusters have numbers from 2 on and lie below 2 ^ 31,
-- in their order from the end of the root directory.
pub read_internal-IsChain :
    (v : Volume) (start : ℕ) (ds : List ℕ) (total : ℕ)
    → HasSectors v.device
    → 0 < v.sectors_per_cluster
    → IsChain v start ds
    → total ≤ suc (length ds) * cluster_bytes v
    → read_internal v start 0 total ≡ some (all_ok, chain_bytes v start ds total)
unfolding read_internal
read_internal-IsChain v start ds total h whole chain fits =
    ap (λ o. read_internal_fuel v (suc total) start o total) (sym (zero-mul (cluster_bytes v)))
    ∙ chain_lem v h start whole (suc total) 0 start ds total chain
        (λ n. ap (λ m. cluster_loop v m (pos start)) (omega arith)) (omega arith) fits
