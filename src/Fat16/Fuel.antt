-- ===== src/Fat16/Fuel.antt =====
-- The rounds of `fat16_read_internal_from_stream`: as many as there are bytes, and one more.
use guava_os_pro.Prelude.{
  Option-cases, none, ◌≤◌, ◌⊎◌, ℕ, zero, suc, ◌+◌, ◌-◌, ◌*◌, ◌<◌, ◌≡◌, arith, false, not, Option,
  some, List, [], ◌++◌, ltb, if◌then◌else◌, ◌>>=◌, Bool-cases, inl, inr,
}
use guava_os_pro.Prelude.Int.{ℤ, is_neg, ◌==ℤ◌}
use guava_os_pro.Status.{all_ok}
use guava_os_pro.Streamer.{Stream, sector_size, diskstreamer_read}
use guava_os_pro.Fat16.{
  Volume, get_cluster_for_offset, stream_at, starting_pos, word, read_internal_fuel,
}

-- One round, over what the next ones give.
abbrev round : Volume → ℕ → ℕ → ℕ → ℕ → Option (ℤ × List ℕ) → Option (ℤ × List ℕ)
round v cluster offset total total_to_read rest = do
  cluster_to_use ← get_cluster_for_offset v cluster offset
  if is_neg cluster_to_use then some (cluster_to_use, []) else (do
    (res, bytes, _) ←
        diskstreamer_read v.device (stream_at (starting_pos v (word cluster_to_use) offset))
          total_to_read
    if not (res ==ℤ all_ok)
        then some (res, bytes)
        else if ltb 0 (total - total_to_read)
        then (do (res', more) ← rest; some (res', bytes ++ more))
        else some (res, bytes))

-- How a read ends: it returns, or the look-up of a cluster or a read of the disk faults at an offset
-- of the file that the read covers.
pub data Ends (v : Volume) (cluster offset total : ℕ) (m : Option (ℤ × List ℕ)) : Type 0 where
  returns : (r : ℤ × List ℕ) → m ≡ some r → Ends v cluster offset total m
  lookup_faults :
      (o : ℕ)
      → offset ≤ o
      → o ≤ offset + total
      → get_cluster_for_offset v cluster o ≡ none
      → Ends v cluster offset total m
  read_faults :
      (o n : ℕ) (c : ℤ)
      → offset ≤ o
      → o + n ≤ offset + total
      → get_cluster_for_offset v cluster o ≡ some c
      → is_neg c ≡ false
      → diskstreamer_read v.device (stream_at (starting_pos v (word c) o)) n ≡ none
      → Ends v cluster offset total m

-- One round ends if the next ones do, where there are any.
round-Ends :
    (v : Volume) (cluster offset total size : ℕ) (rest : Option (ℤ × List ℕ))
    → size ≤ total
    → (ltb 0 (total - size) ≡ false) ⊎ Ends v cluster (offset + size) (total - size) rest
    → Ends v cluster offset total (round v cluster offset total size rest)
round-Ends v cluster offset total size rest fits next =
    elim (Option-cases (get_cluster_for_offset v cluster offset)) [
      | inl e ↦ lookup_faults offset (omega arith) (omega arith) e
      | inr (c, found) ↦ elim (Bool-cases (is_neg c)) [
        | inl bad ↦ returns (c, []) (rw (found, bad))
        | inr good ↦ elim (Option-cases (run c)) [
          | inl e ↦ read_faults offset size c (omega arith) (omega arith) found good e
          | inr ((res, bytes, s), e) ↦ after c found good res bytes s e next
        ]
      ]
    ]
  where
    run : ℤ → Option (ℤ × List ℕ × Stream)
    run c = diskstreamer_read v.device (stream_at (starting_pos v (word c) offset)) size

    after :
        (c : ℤ)
        → get_cluster_for_offset v cluster offset ≡ some c
        → is_neg c ≡ false
        → (res : ℤ) (bytes : List ℕ) (s : Stream) → run c ≡ some (res, bytes, s)
        → (ltb 0 (total - size) ≡ false) ⊎ Ends v cluster (offset + size) (total - size) rest
        → Ends v cluster offset total (round v cluster offset total size rest)
    after c found good res bytes s e next = elim (Bool-cases (not (res ==ℤ all_ok))) [
      | inl failed ↦ returns (res, bytes) (rw (found, good, e, failed))
      | inr ok ↦ elim (Bool-cases (ltb 0 (total - size))) [
        | inr over ↦ returns (res, bytes) (rw (found, good, e, ok, over))
        | inl more ↦ elim next [
          | inl over ↦ cc (more, over)
          | inr (returns (res', bytes') is) ↦
              returns (res', bytes ++ bytes') (rw (found, good, e, ok, more, is))
          | inr (lookup_faults o low high f) ↦ lookup_faults o (omega arith) (omega arith) f
          | inr (read_faults o n c' low high l g f) ↦
              read_faults o n c' (omega arith) (omega arith) l g f
        ]
      ]
    ]

-- With clusters of at least one sector, one round more than there are bytes to read is enough: with
-- any such number of rounds a read either returns, or the look-up of a cluster or a read of the disk
-- faults at one of the offsets that it covers.
pub read_internal_fuel-Ends :
    (v : Volume) (cluster fuel offset total : ℕ)
    → 0 < v.sectors_per_cluster
    → total < fuel
    → Ends v cluster offset total (read_internal_fuel v fuel cluster offset total)
unfolding read_internal_fuel
read_internal_fuel-Ends v cluster zero offset total whole h = absurd (omega arith)
read_internal_fuel-Ends v cluster (suc fuel) offset total whole h =
    let size : ℕ = v.sectors_per_cluster * sector_size in
    elim (Bool-cases (ltb size total)) [
      | inl more ↦ rw more (
          let less : size < total = ground arith in
          round-Ends v cluster offset total size _ (omega arith) (
            inr (
              read_internal_fuel-Ends v cluster fuel (offset + size) (total - size) whole
                (omega (arith, whole, less)))))
      | inr last ↦
          rw last (round-Ends v cluster offset total total _ (omega arith) (inl (ground arith)))
    ]
