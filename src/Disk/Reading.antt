-- ===== src/Disk/Reading.antt =====
-- Reading sectors from a controller that becomes ready: the wait ends, and the words are those of
-- the sectors.
use mathlib.Core.Path.{subst}
use guava_os_pro.Prelude.Bits.{and_low, or_e0}
use guava_os_pro.Prelude.{
  ◌*◌, ◌/◌, ◌%◌, ◌^◌, bit_or, ◌==◌, if◌then◌else◌, ℕ, zero, suc, ◌+◌, ◌-◌, ◌≤◌, ◌<◌, ◌≡◌, ◌≢◌, ◌⊎◌,
  inl, inr, refl, sym, ap, ◌∙◌, arith, bit_and, some, List, [], ◌∷◌, ◌++◌, ne→==_false,
}
use guava_os_pro.Prelude.Int.{pos}
use guava_os_pro.Disk.{Ports, send_command, wait_loop, copy_words, sectors_loop, disk_read_sector}

-- The words from `i` on, `n` of them.
abbrev pub words_from : (ℕ → ℕ) → ℕ → ℕ → List ℕ
words_from word i zero = []
words_from word i (suc n) = word i ∷ words_from word (i + 1) n

-- The words of `n` sectors from `lba` on.
abbrev pub sectors_from : (ℕ → ℕ → ℕ) → ℕ → ℕ → List ℕ
sectors_from word lba zero = []
sectors_from word lba (suc n) = words_from (word lba) 0 256 ++ sectors_from word (lba + 1) n

-- What the controller promises. Its registers hold the bytes that were written to their ports. A
-- write of 0x20 to the command port starts a read: the upper half of the drive's register is 0xE, its
-- lower half the highest four bits of the first sector's number, the three registers in front of it
-- the others, and the register at 0x1F2 the number of sectors.
-- `Busy d lba n k` says that `n` sectors from `lba` on are still to come, and that the next is ready
-- after at most `k` more polls; `Ready d lba n i` says that the words from `i` on of the first of them
-- can be taken.
pub record IsController {D : Type 0} (p : Ports D) (word : ℕ → ℕ → ℕ) : Type 1 where
  pub Idle : D → Type 0
  pub Busy : D → ℕ → ℕ → ℕ → Type 0
  pub Ready : D → ℕ → ℕ → ℕ → Type 0
  pub register : D → ℕ → ℕ
  pub latency : ℕ
  pub limit : ℕ
  pub limit_small : limit ≤ 2 ^ 28
  pub store_register :
      (port v : ℕ) (d : D)
      → Idle d
      → 0x1F2 ≤ port
      → port ≤ 0x1F6
      → v < 256
      → Idle (p.outb port v d)
        × ((q : ℕ) → register (p.outb port v d) q ≡ (if q == port then v else register d q))
  pub start_read :
      (d : D) (lba total : ℕ)
      → Idle d
      → register d 0x1F6 / 16 ≡ 0xE
      → register d 0x1F3
          + 2 ^ 8 * register d 0x1F4
          + 2 ^ 16 * register d 0x1F5
          + 2 ^ 24 * (register d 0x1F6 % 16)
        ≡ lba
      → register d 0x1F2 ≡ total
      → 0 < total
      → lba + total ≤ limit
      → Busy (p.outb 0x1F7 0x20 d) lba total latency
  pub poll :
      (d : D) (lba n k : ℕ)
      → Busy d lba (suc n) k
      → let r = p.insb 0x1F7 d in
        ((bit_and r.0 0x08 ≡ 0) × (0 < k) × Busy r.1 lba (suc n) (k - 1))
        ⊎ ((bit_and r.0 0x08 ≢ 0) × Ready r.1 lba (suc n) 0)
  pub take_word :
      (d : D) (lba n i : ℕ)
      → Ready d lba (suc n) i
      → i < 255
      → let r = p.insw 0x1F0 d in (r.0 ≡ word lba i) × Ready r.1 lba (suc n) (i + 1)
  pub take_last :
      (d : D) (lba n : ℕ)
      → Ready d lba (suc n) 255
      → let r = p.insw 0x1F0 d in (r.0 ≡ word lba 255) × ((n ≡ 0) ⊎ Busy r.1 (lba + 1) n latency)

module _ {D : Type 0} {p : Ports D} {word : ℕ → ℕ → ℕ} (c : IsController p word) where
  -- The command starts a read of just the sectors that were asked for.
  send_command-Busy :
      (d : D) (lba total : ℕ)
      → c.Idle d
      → 0 < total
      → total < 256
      → lba + total ≤ c.limit
      → c.Busy (send_command p lba total d) lba total c.latency
  unfolding send_command
  send_command-Busy d lba total idle some_sectors few in_range =
      let small : lba < 2 ^ 28 = omega (arith, c.limit_small) in
      let low : bit_and lba 0xff ≡ lba % 256 = and_low 8 lba in
      let top : bit_or (lba / 2 ^ 24) 0xE0 ≡ lba / 2 ^ 24 + 0xE0 =
        or_e0 (lba / 2 ^ 24) (omega (arith, small)) in
      let drive = bit_or (lba / 2 ^ 24) 0xE0 % 256 in
      let (i1, r1) =
        c.store_register 0x1F6 drive d idle (omega arith) (omega arith) (omega arith) in
      let d1 = p.outb 0x1F6 drive d in
      let (i2, r2) =
        c.store_register 0x1F2 (total % 256) d1 i1 (omega arith) (omega arith) (omega arith) in
      let d2 = p.outb 0x1F2 (total % 256) d1 in
      let (i3, r3) =
        c.store_register 0x1F3 (bit_and lba 0xff) d2 i2 (omega arith) (omega arith)
          (omega (arith, low)) in
      let d3 = p.outb 0x1F3 (bit_and lba 0xff) d2 in
      let (i4, r4) =
        c.store_register 0x1F4 (lba / 2 ^ 8 % 256) d3 i3 (omega arith) (omega arith)
          (omega arith) in
      let d4 = p.outb 0x1F4 (lba / 2 ^ 8 % 256) d3 in
      let (i5, r5) =
        c.store_register 0x1F5 (lba / 2 ^ 16 % 256) d4 i4 (omega arith) (omega arith)
          (omega arith) in
      let d5 = p.outb 0x1F5 (lba / 2 ^ 16 % 256) d4 in
      let at_drive : c.register d5 0x1F6 ≡ drive =
        r5 0x1F6 ∙ r4 0x1F6 ∙ r3 0x1F6 ∙ r2 0x1F6 ∙ r1 0x1F6 in
      let at_count : c.register d5 0x1F2 ≡ total % 256 =
        r5 0x1F2 ∙ r4 0x1F2 ∙ r3 0x1F2 ∙ r2 0x1F2 in
      let at_low : c.register d5 0x1F3 ≡ bit_and lba 0xff = r5 0x1F3 ∙ r4 0x1F3 ∙ r3 0x1F3 in
      let at_middle : c.register d5 0x1F4 ≡ lba / 2 ^ 8 % 256 = r5 0x1F4 ∙ r4 0x1F4 in
      let at_high : c.register d5 0x1F5 ≡ lba / 2 ^ 16 % 256 = r5 0x1F5 in
      c.start_read d5 lba total i5 (omega (arith, at_drive, top, small))
        (omega (arith, at_drive, at_low, at_middle, at_high, top, low, small))
        (omega (arith, at_count)) some_sectors in_range

  -- The wait ends before the fuel does.
  wait_loop-Ready :
      (fuel k : ℕ) (d : D) (lba n : ℕ)
      → c.Busy d lba (suc n) k
      → k < fuel
      → (d' : D) × (wait_loop p fuel d ≡ some d') × c.Ready d' lba (suc n) 0
  unfolding wait_loop
  wait_loop-Ready zero k d lba n b h = absurd (omega arith)
  wait_loop-Ready (suc fuel) k d lba n b h = elim (c.poll d lba n k b) [
    | inl (not_yet, more, b') ↦
        let (d', run, r) = wait_loop-Ready fuel (k - 1) (p.insb 0x1F7 d).1 lba n b' (omega arith) in
        (d', rw not_yet run, r)
    | inr (now, r) ↦ ((p.insb 0x1F7 d).1, rw (ne→==_false _ 0 now), r)
  ]

  copy_words-words_from :
      (left i : ℕ) (d : D) (lba n : ℕ)
      → c.Ready d lba (suc n) i
      → i + suc left ≡ 256
      → ((copy_words p (suc left) d).0 ≡ words_from (word lba) i (suc left))
        × ((n ≡ 0) ⊎ c.Busy (copy_words p (suc left) d).1 (lba + 1) n c.latency)
  unfolding copy_words
  copy_words-words_from zero i d lba n r e =
      let last : i ≡ 255 = omega arith in
      let (w, b) = c.take_last d lba n (subst (λ j. c.Ready d lba (suc n) j) last r) in
      (ap (λ x. x ∷ []) (w ∙ ap (word lba) (sym last)), b)
  copy_words-words_from (suc left) i d lba n r e =
      let (w, r') = c.take_word d lba n i r (omega arith) in
      let (ws, b) = copy_words-words_from left (i + 1) (p.insw 0x1F0 d).1 lba n r' (omega arith) in
      (rw (w, ws), b)

  sectors_loop-sectors_from :
      (fuel n : ℕ) (d : D) (lba : ℕ)
      → c.latency < fuel
      → (n ≡ 0) ⊎ c.Busy d lba n c.latency
      → (d' : D) × (sectors_loop p fuel n d ≡ some (sectors_from word lba n, d'))
  unfolding sectors_loop
  sectors_loop-sectors_from fuel zero d lba h b = (d, refl)
  sectors_loop-sectors_from fuel (suc n) d lba h (inl e) = absurd (omega arith)
  sectors_loop-sectors_from fuel (suc n) d lba h (inr b) =
      let (d1, waited, r) = wait_loop-Ready fuel c.latency d lba n b h in
      let (ws, b') = copy_words-words_from 255 0 d1 lba n r (omega arith) in
      let (d2, run) = sectors_loop-sectors_from fuel n (copy_words p 256 d1).1 (lba + 1) h b' in
      (d2, rw (waited, run, ws))

  -- On a controller that takes the number of the first sector from its registers and is ready for
  -- each sector after a bounded number of polls, reading up to 255 sectors, whose numbers have 28
  -- bits, ends, returns 0, and stores the words of exactly those sectors, in order.
  pub disk_read_sector_lem :
      (fuel lba total : ℕ) (d : D)
      → c.latency < fuel
      → c.Idle d
      → 0 < total
      → total < 256
      → lba + total ≤ c.limit
      → (d' : D) × (disk_read_sector p fuel lba total d
          ≡ some (pos 0, sectors_from word lba total, d'))
  unfolding disk_read_sector
  disk_read_sector_lem fuel lba total d h idle some_sectors few in_range =
      let (d', run) =
        sectors_loop-sectors_from fuel total (send_command p lba total d) lba h
          (inr (send_command-Busy d lba total idle some_sectors few in_range)) in
      (d', rw run)
