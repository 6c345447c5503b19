-- ===== src/Gdt/Decode.antt =====
-- The segment table as the processor reads it.
use native.Mathlib.Decide.{dec_le}
use guava_os_pro.Prelude.{
  All, map, List, [], ◌∷◌, none, some, inl, inr, ◌≢◌, ne→==_false, ℕ, lt→ltb, ◌≡◌, refl, ◌+◌, ◌*◌,
  ◌/◌, ◌%◌, ◌^◌, ◌≤◌, ◌<◌, ◌≡◌, ◌⊎◌, arith, some, List, [], ◌∷◌, le→ltb_false, ◌==◌, if◌then◌else◌,
  get_or,
}
use guava_os_pro.Prelude.Bits.{and_low, or_fields}
use guava_os_pro.Gdt.{gdt_structured_to_gdt, GdtStructured, encode_gdt_entry}

-- A segment whose limit is at most 65536, or ends a 4096-byte page.
pub record IsSegment (source : GdtStructured) : Type 0 where
  pub base_width : source.base < 2 ^ 32
  pub limit_width : source.limit < 2 ^ 32
  pub granular : (source.limit ≤ 65536) ⊎ (source.limit % 4096 ≡ 4095)

-- The base is spread over bytes 2, 3, 4 and 7. The limit has 20 bits in bytes 0, 1 and 6; where
-- bit 7 of byte 6 is set it counts pages of 4096 bytes, the last one included. Byte 5 is the type.
abbrev pub decode : List ℕ → GdtStructured
decode e =
    let byte = λ (i : ℕ). get_or e i 0 in
    let field = byte 0 + 2 ^ 8 * byte 1 + 2 ^ 16 * (byte 6 % 16) in
    record {
      base = byte 2 + 2 ^ 8 * byte 3 + 2 ^ 16 * byte 4 + 2 ^ 24 * byte 7;
      limit = if byte 6 / 128 == 0 then field else field * 4096 + 4095;
      type = byte 5;
    }

-- The entry with its bit operations as arithmetic.
abbrev plain : GdtStructured → ℕ → ℕ → List ℕ
plain s limit high_flags =
    limit % 2 ^ 8
    ∷ limit / 2 ^ 8 % 2 ^ 8
    ∷ s.base % 2 ^ 8
    ∷ s.base / 2 ^ 8 % 2 ^ 8
    ∷ s.base / 2 ^ 16 % 2 ^ 8
    ∷ s.type
    ∷ (high_flags + limit / 2 ^ 16 % 2 ^ 4)
    ∷ s.base / 2 ^ 24 % 2 ^ 8
    ∷ []

encode-small :
    (s : GdtStructured) → s.limit ≤ 65536 → encode_gdt_entry s ≡ some (plain s s.limit 0x40)
unfolding encode_gdt_entry
encode-small s h = rw (
  le→ltb_false 65536 s.limit h,
  and_low 8 s.limit,
  and_low 8 (s.limit / 2 ^ 8),
  and_low 8 s.base,
  and_low 8 (s.base / 2 ^ 8),
  and_low 8 (s.base / 2 ^ 16),
  and_low 8 (s.base / 2 ^ 24),
  and_low 4 (s.limit / 2 ^ 16),
  or_fields 6 1 (s.limit / 2 ^ 16 % 2 ^ 4) (omega arith),
)

encode-large :
    (s : GdtStructured)
    → 65536 < s.limit
    → s.limit % 4096 ≡ 4095
    → encode_gdt_entry s ≡ some (plain s (s.limit / 2 ^ 12) 0xC0)
unfolding encode_gdt_entry
encode-large s h g = rw (
  lt→ltb 65536 s.limit h,
  and_low 12 s.limit,
  g,
  and_low 8 (s.limit / 2 ^ 12),
  and_low 8 (s.limit / 2 ^ 12 / 2 ^ 8),
  and_low 8 s.base,
  and_low 8 (s.base / 2 ^ 8),
  and_low 8 (s.base / 2 ^ 16),
  and_low 8 (s.base / 2 ^ 24),
  and_low 4 (s.limit / 2 ^ 12 / 2 ^ 16),
  or_fields 6 3 (s.limit / 2 ^ 12 / 2 ^ 16 % 2 ^ 4) (omega arith),
)

segment_eq : (s t : GdtStructured) → s.base ≡ t.base → s.limit ≡ t.limit → s.type ≡ t.type → s ≡ t
segment_eq s t b l y = λ i. record { base = b i; limit = l i; type = y i }

decode-small :
    (s : GdtStructured) → s.base < 2 ^ 32 → s.limit ≤ 65536 → decode (plain s s.limit 0x40) ≡ s
decode-small s b h =
    segment_eq (decode (plain s s.limit 0x40)) s (omega arith) (rw flag (omega arith)) refl
  where
    flag : (64 + s.limit / 65536 % 16) / 128 ≡ 0
    flag = omega arith

decode-large :
    (s : GdtStructured)
    → s.base < 2 ^ 32
    → s.limit < 2 ^ 32
    → s.limit % 4096 ≡ 4095
    → decode (plain s (s.limit / 2 ^ 12) 0xC0) ≡ s
decode-large s b l g =
    segment_eq (decode (plain s (s.limit / 2 ^ 12) 0xC0)) s (omega arith) (rw flag (omega arith))
      refl
  where
    flag : (192 + s.limit / 4096 / 65536 % 16) / 128 ≡ 1
    flag = omega arith

encode_gdt_entry_lem :
    (s : GdtStructured)
    → IsSegment s
    → (entry : List ℕ) × (encode_gdt_entry s ≡ some entry) × (decode entry ≡ s)
encode_gdt_entry_lem s h = elim (dec_le s.limit 65536) [
  | yes small ↦ (plain s s.limit 0x40, encode-small s small, decode-small s h.base_width small)
  | no large ↦ elim h.granular [
    | inl small ↦ absurd (large small)
    | inr g ↦ (
      plain s (s.limit / 2 ^ 12) 0xC0,
      encode-large s (omega arith) g,
      decode-large s h.base_width h.limit_width g,
    )
  ]
]

-- A table of segments with 32-bit bases and limits, each limit at most 65536 or the last byte of a
-- page, is encoded without a panic, and the processor reads the same bases, limits and types from
-- the entries, in the same order.
pub gdt_structured_to_gdt_lem :
    (sources : List GdtStructured)
    → All IsSegment sources
    → (entries : List (List ℕ)) × (gdt_structured_to_gdt sources ≡ some entries)
      × (map decode entries ≡ sources)
unfolding gdt_structured_to_gdt
gdt_structured_to_gdt_lem [] h = ([], refl, refl)
gdt_structured_to_gdt_lem (s ∷ rest) h =
    let (entry, e, d) = encode_gdt_entry_lem s h.0 in
    let (entries, es, ds) = gdt_structured_to_gdt_lem rest h.1 in
    (entry ∷ entries, rw (e, es), λ i. d i ∷ ds i)

-- Any other segment is a panic.
pub encode_gdt_entry_panics :
    (s : GdtStructured) → 65536 < s.limit → s.limit % 4096 ≢ 4095 → encode_gdt_entry s ≡ none
unfolding encode_gdt_entry
encode_gdt_entry_panics s h g =
    rw (lt→ltb 65536 s.limit h, and_low 12 s.limit, ne→==_false (s.limit % 4096) 4095 g)
