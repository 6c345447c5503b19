-- ===== src/Disk/Tests.antt =====
-- A controller with its registers, the number of a sector, and three polls until a sector is ready. Word `i` of
-- sector `lba` is `256 * lba + i`.
use native.Mathlib.Decide.{ℕ_discrete}
use guava_os_pro.Prelude.{
  ◌%◌, ◌≤◌, ◌*◌, ◌^◌, ne→==_false, ℕ, ◌+◌, ◌-◌, ◌*◌, ◌^◌, ◌≤◌, ◌≡◌, ◌≢◌, inl, inr, refl, arith,
  some, ◌==◌, if◌then◌else◌,
}
use guava_os_pro.Prelude.Int.{pos}
use guava_os_pro.Disk.{Ports, disk_read_sector}
use guava_os_pro.Disk.Reading.{IsController, sectors_from, disk_read_sector_lem}

record Ata : Type 0 where
  registers : ℕ → ℕ
  lba : ℕ
  word : ℕ
  polls : ℕ

abbrev out : ℕ → ℕ → Ata → Ata
out port v d =
    if port == 0x1F7
    then record d {
      lba =
          d.registers 0x1F3
          + 2 ^ 8 * d.registers 0x1F4
          + 2 ^ 16 * d.registers 0x1F5
          + 2 ^ 24 * (d.registers 0x1F6 % 16);
      word = 0;
      polls = 3;
    }
    else record d { registers = λ q. if q == port then v else d.registers q }

abbrev status : ℕ → Ata → ℕ × Ata
status port d = if d.polls == 0 then (0x58, d) else (0x80, record d { polls = d.polls - 1 })

abbrev next_word : ℕ → Ata → ℕ × Ata
next_word port d = (
  256 * d.lba + d.word,
  if d.word == 255
      then record d { lba = d.lba + 1; word = 0; polls = 3 }
      else record d { word = d.word + 1 },
)

abbrev ata : Ports Ata
ata = record { outb = out; insb = status; insw = next_word }

still_busy : (d : Ata) → d.polls ≢ 0 → status 0x1F7 d ≡ (0x80, record d { polls = d.polls - 1 })
still_busy d h = rw (ne→==_false d.polls 0 h)

now_ready : (d : Ata) → d.polls ≡ 0 → status 0x1F7 d ≡ (0x58, d)
now_ready d h = ground arith

abbrev Busy : Ata → ℕ → ℕ → ℕ → Type 0
Busy d lba n k = (d.lba ≡ lba) × (d.word ≡ 0) × (d.polls ≤ k)

abbrev ata_laws : IsController ata (λ lba i. 256 * lba + i)
ata_laws = record {
  Idle = λ d. Unit;
  Busy = Busy;
  Ready = λ d lba n i. (d.lba ≡ lba) × (d.word ≡ i);
  latency = 3;
  register = λ d. d.registers;
  limit = 2 ^ 28;
  limit_small = omega arith;
  store_register = λ port v d idle low high byte.
      rw (ne→==_false port 0x1F7 (λ e. omega arith)) (tt, (λ q. refl));
  start_read = λ d lba total idle drive at count h l. (at, refl, omega arith);
  poll = λ d lba n k (at, first, bound). elim (ℕ_discrete d.polls 0) [
    | yes e ↦ rw (now_ready d e) (inr ((λ z. absurd (omega (arith, z))), (at, first)))
    | no e ↦ rw (still_busy d e) (inl (refl, omega arith, (at, first, omega arith)))
  ];
  take_word = λ d lba n i (at, is) h.
      rw (ne→==_false d.word 255 (λ e. omega arith)) (omega arith, (at, omega arith));
  take_last = λ d lba n (at, is). rw is (omega arith, inr (omega arith, refl, omega arith));
}

abbrev start : Ata
start = record { registers = λ q. 0; lba = 0; word = 0; polls = 0 }

disk_read_sector_lem_example :
    (d : Ata) × (disk_read_sector ata 4 0x3000064 2 start
      ≡ some (pos 0, sectors_from (λ lba i. 256 * lba + i) 0x3000064 2, d))
disk_read_sector_lem_example =
    disk_read_sector_lem ata_laws 4 0x3000064 2 start (omega arith) tt (omega arith) (omega arith)
      (omega arith)
