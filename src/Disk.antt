-- ===== src/Disk.antt =====
-- `disk_read_sector` of src/disk/disk.c, which talks to the ATA controller by ports. The controller
-- is a parameter: a state, and what a port instruction does to it (src/io/io.asm).
pub mod Reading
mod Tests
use guava_os_pro.Prelude.{
  ℕ, zero, suc, ◌/◌, ◌%◌, ◌^◌, bit_and, bit_or, Option, none, some, List, [], ◌∷◌, ◌++◌, ◌==◌,
  if◌then◌else◌, ◌>>=◌,
}
use guava_os_pro.Prelude.Int.{ℤ, pos}

-- The port instructions, on the state of the devices.
pub record Ports (D : Type 0) : Type 0 where
  pub outb : ℕ → ℕ → D → D
  pub insb : ℕ → D → ℕ × D
  pub insw : ℕ → D → ℕ × D

module _ {D : Type 0} (p : Ports D) where
  -- Values are bytes.
  unfoldable pub send_command : ℕ → ℕ → D → D
  send_command lba total d =
      let d1 = p.outb 0x1F6 (bit_or (lba / 2 ^ 24) 0xE0 % 256) d in
      let d2 = p.outb 0x1F2 (total % 256) d1 in
      let d3 = p.outb 0x1F3 (bit_and lba 0xff) d2 in
      let d4 = p.outb 0x1F4 (lba / 2 ^ 8 % 256) d3 in
      let d5 = p.outb 0x1F5 (lba / 2 ^ 16 % 256) d4 in p.outb 0x1F7 0x20 d5

  -- The wait for the buffer to be ready; `none` if that takes more polls than the fuel.
  unfoldable pub wait_loop : ℕ → D → Option D
  wait_loop zero d = none
  wait_loop (suc fuel) d =
      let (c, d') = p.insb 0x1F7 d in
      let rest = wait_loop fuel d' in if bit_and c 0x08 == 0 then rest else some d'

  -- The words that are copied to `ptr`, with `left` to go.
  unfoldable pub copy_words : ℕ → D → List ℕ × D
  copy_words zero d = ([], d)
  copy_words (suc left) d =
      let (w, d') = p.insw 0x1F0 d in let (ws, d'') = copy_words left d' in (w ∷ ws, d'')

  unfoldable pub sectors_loop : ℕ → ℕ → D → Option (List ℕ × D)
  sectors_loop fuel zero d = some ([], d)
  sectors_loop fuel (suc total) d = do
    d' ← wait_loop fuel d
    let (ws, d'') = copy_words 256 d'
    (rest, d''') ← sectors_loop fuel total d''
    some (ws ++ rest, d''')

  -- The status, and the words that are stored in the buffer.
  unfoldable pub disk_read_sector : ℕ → ℕ → ℕ → D → Option (ℤ × List ℕ × D)
  unfolding sectors_loop send_command
  disk_read_sector fuel lba total d = do
    (ws, d') ← sectors_loop fuel total (send_command lba total d)
    some (pos 0, ws, d')
