-- ===== src/Gdt.antt =====
-- src/gdt/gdt.c and gdt.h: the segment table in the form that the processor reads.
-- `none` is also a panic, after which the function does not return.
pub mod Decode
mod Tests
use guava_os_pro.Prelude.{
  ℕ, ◌/◌, ◌^◌, bit_and, bit_or, ◌&&◌, not, Option, none, some, List, [], ◌∷◌, ltb, ◌==◌,
  if◌then◌else◌, ◌>>=◌,
}

-- `struct gdt_structured`
pub record GdtStructured : Type 0 where
  pub base : ℕ
  pub limit : ℕ
  pub type : ℕ

-- The eight bytes of an entry.
unfoldable pub encode_gdt_entry : GdtStructured → Option (List ℕ)
encode_gdt_entry source =
    let scaled = ltb 65536 source.limit in
    let limit = if scaled then source.limit / 2 ^ 12 else source.limit in
    let high_flags = if scaled then 0xC0 else 0x40 in
    if scaled && not (bit_and source.limit 0xFFF == 0xFFF)
    then none
    else some (
        bit_and limit 0xFF
        ∷ bit_and (limit / 2 ^ 8) 0xFF
        ∷ bit_and source.base 0xFF
        ∷ bit_and (source.base / 2 ^ 8) 0xFF
        ∷ bit_and (source.base / 2 ^ 16) 0xFF
        ∷ source.type
        ∷ bit_or high_flags (bit_and (limit / 2 ^ 16) 0x0F)
        ∷ bit_and (source.base / 2 ^ 24) 0xFF
        ∷ [])

unfoldable pub gdt_structured_to_gdt : List GdtStructured → Option (List (List ℕ))
gdt_structured_to_gdt [] = some []
gdt_structured_to_gdt (source ∷ rest) = do
  entry ← encode_gdt_entry source
  entries ← gdt_structured_to_gdt rest
  some (entry ∷ entries)
