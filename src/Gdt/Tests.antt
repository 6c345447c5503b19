-- ===== src/Gdt/Tests.antt =====
-- The flat segments of src/kernel.c and one of 104 bytes.
use guava_os_pro.Prelude.{ℕ, ◌≡◌, inl, inr, refl, some, List, [], ◌∷◌, map, arith}
use guava_os_pro.Gdt.{GdtStructured, gdt_structured_to_gdt}
use guava_os_pro.Gdt.Decode.{IsSegment, decode, gdt_structured_to_gdt_lem}

abbrev code : GdtStructured
code = record { base = 0; limit = 0xFFFFFFFF; type = 0x9a }

abbrev tss : GdtStructured
tss = record { base = 0x12345678; limit = 104; type = 0xe9 }

code-IsSegment : IsSegment code
code-IsSegment = record { base_width = omega arith; limit_width = omega arith; granular = inr refl }

tss-IsSegment : IsSegment tss
tss-IsSegment = record {
  base_width = omega arith;
  limit_width = omega arith;
  granular = inl (omega arith);
}

gdt_structured_to_gdt_lem_example :
    (entries : List (List ℕ)) × (gdt_structured_to_gdt (code ∷ tss ∷ []) ≡ some entries)
    × (map decode entries ≡ code ∷ tss ∷ [])
gdt_structured_to_gdt_lem_example =
    gdt_structured_to_gdt_lem (code ∷ tss ∷ []) (code-IsSegment, (tss-IsSegment, tt))
