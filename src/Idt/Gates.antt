-- ===== src/Idt/Gates.antt =====
-- `idt_init`: where each interrupt leads.
use native.Mathlib.Decide.{ℕ_discrete}
use guava_os_pro.Prelude.{
  ℕ, zero, suc, ◌+◌, ◌*◌, ◌/◌, ◌^◌, ◌≤◌, ◌<◌, ◌≡◌, ◌≢◌, refl, ◌∙◌, arith, some, List, length,
  get_elem?, get_or, get_elem?-eq-get_or, set, set?-eq-set, length-set, get_elem?-set_self,
  get_elem?-set_ne, length-replicate, replicate, ◌==◌, ne→==_false, if◌then◌else◌, bit_and,
}
use guava_os_pro.Prelude.Bits.{and_low}
use guava_os_pro.Idt.{IdtDesc, total_interrupts, kernel_code_selector, idt_set, set_loop, idt_init}

-- The address that the processor goes to, from its two halves.
abbrev pub entry_point : IdtDesc → ℕ
entry_point d = d.offset_1 + 2 ^ 16 * d.offset_2

-- A descriptor that leads to the address in the kernel's code, and is open to user programs.
pub record LeadsTo (idt_descriptors : List IdtDesc) (i address : ℕ) : Type 0 where
  pub desc : IdtDesc
  pub found : get_elem? idt_descriptors i ≡ some desc
  pub entry : entry_point desc ≡ address
  pub segment : desc.selector ≡ kernel_code_selector
  pub attributes : desc.type_attr ≡ 0xEE

-- What setting one descriptor does to the table.
record Changed (ds ds' : List IdtDesc) (i address : ℕ) : Type 0 where
  size : length ds' ≡ length ds
  here : LeadsTo ds' i address
  elsewhere : (j a : ℕ) → j ≢ i → LeadsTo ds j a → LeadsTo ds' j a

idt_set_lem :
    (ds : List IdtDesc) (i address : ℕ)
    → i < length ds
    → (ds' : List IdtDesc) × (idt_set ds i address ≡ some ds') × Changed ds ds' i address
unfolding idt_set
idt_set_lem ds i address h = (
  set ds i gate,
  set?-eq-set ds i gate h,
  record {
    size = length-set ds i gate;
    here = record {
      desc = gate;
      found = get_elem?-set_self ds i gate h;
      entry = omega (arith, and_low 16 address);
      segment = refl;
      attributes = refl;
    };
    elsewhere = λ j a n l. record {
      desc = l.desc;
      found = get_elem?-set_ne ds i j gate n ∙ l.found;
      entry = l.entry;
      segment = l.segment;
      attributes = l.attributes;
    };
  },
)
  where
    gate : IdtDesc
    gate = record {
      offset_1 = bit_and address 0x0000ffff;
      selector = kernel_code_selector;
      zeros = 0x00;
      type_attr = 0xEE;
      offset_2 = address / 2 ^ 16;
    }

-- The interrupts from `i` on are set, and those below stay.
set_loop_lem :
    (left i : ℕ) (ds : List IdtDesc) (table : List ℕ)
    → i + left ≤ length ds
    → i + left ≤ length table
    → (ds' : List IdtDesc) × (set_loop ds table i left ≡ some ds')
      × (length ds' ≡ length ds)
      × ((j a : ℕ) → j < i → LeadsTo ds j a → LeadsTo ds' j a)
      × ((j : ℕ) → i ≤ j → j < i + left → LeadsTo ds' j (get_or table j 0))
unfolding set_loop
set_loop_lem zero i ds table h k = (ds, refl, refl, λ j a l p. p, λ j l m. absurd (omega arith))
set_loop_lem (suc left) i ds table h k =
    let (ds1, run1, s) = idt_set_lem ds i (get_or table i 0) (omega arith) in
    let (ds2, run2, size, below, above) =
      set_loop_lem left (i + 1) ds1 table (omega (arith, s.size)) (omega arith) in
    (
      ds2,
      rw (get_elem?-eq-get_or table i 0 (omega arith), run1, run2),
      size ∙ s.size,
      λ j a l p. below j a (omega arith) (s.elsewhere j a (λ e. absurd (omega (arith, e))) p),
      λ j l m. elim (ℕ_discrete j i) [
        | yes e ↦ rw e (below i (get_or table i 0) (omega arith) s.here)
        | no n ↦ above j (omega arith) (omega arith)
      ],
    )

-- With a table of 512 handlers, after `idt_init` every one of the 512 interrupts leads, through the
-- kernel's code segment, to its entry of the table, except number 0 and number 0x80, which lead to
-- `idt_zero` and to the handler of the system call.
pub idt_init_lem :
    (table : List ℕ) (idt_zero isr80h_wrapper i : ℕ)
    → length table ≡ total_interrupts
    → i < total_interrupts
    → (ds : List IdtDesc) × (idt_init table idt_zero isr80h_wrapper ≡ some ds)
      × LeadsTo ds i
          (if i == 0x80 then isr80h_wrapper else if i == 0 then idt_zero else get_or table i 0)
unfolding idt_init
idt_init_lem table idt_zero isr80h_wrapper i h k =
    let (ds1, run1, size1, _, above) =
      set_loop_lem total_interrupts 0 start table (omega (arith, start_size)) (omega arith) in
    let (ds2, run2, s2) = idt_set_lem ds1 0 idt_zero (omega (arith, start_size, size1)) in
    let (ds3, run3, s3) =
      idt_set_lem ds2 0x80 isr80h_wrapper (omega (arith, start_size, size1, s2.size)) in
    (
      ds3,
      rw (run1, run2, run3),
      elim (ℕ_discrete i 0x80) [
        | yes e ↦ rw e s3.here
        | no n ↦ rw (ne→==_false i 0x80 n) (
            s3.elsewhere i _ n (elim (ℕ_discrete i 0) [
              | yes e ↦ rw e s2.here
              | no m ↦
                  rw (ne→==_false i 0 m) (s2.elsewhere i _ m (above i (omega arith) (omega arith)))
            ]))
      ],
    )
  where
    empty : IdtDesc
    empty = record { offset_1 = 0; selector = 0; zeros = 0; type_attr = 0; offset_2 = 0 }

    start : List IdtDesc
    start = replicate total_interrupts empty

    start_size : length start ≡ total_interrupts
    start_size = length-replicate total_interrupts empty
