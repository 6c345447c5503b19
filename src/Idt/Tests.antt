-- ===== src/Idt/Tests.antt =====
-- A table of equal addresses, and a machine whose state is a number.
use guava_os_pro.Prelude.{ℕ, ◌+◌, ◌≡◌, Option, none, some, List, arith, replicate, length-replicate}
use guava_os_pro.Idt.{IdtDesc, Command, Callback, idt_init}
use guava_os_pro.Idt.Gates.{LeadsTo, idt_init_lem}

abbrev handlers : List ℕ
handlers = replicate 512 0x00101234

idt_init_lem_example :
    (ds : List IdtDesc) × (idt_init handlers 0x00105000 0x00106000 ≡ some ds)
    × LeadsTo ds 0x80 0x00106000
idt_init_lem_example =
    idt_init_lem handlers 0x00105000 0x00106000 0x80 (length-replicate {A = ℕ} 512 0x00101234)
      (omega arith)

abbrev no_commands : List (Option (Command ℕ ℕ))
no_commands = replicate 1024 none

-- The sum of what the frame and the state hold.
abbrev sum : Command ℕ ℕ
sum frame s = some (frame + s, s)

abbrev no_callbacks : List (Option (Callback ℕ ℕ))
no_callbacks = replicate 512 none

abbrev count : Callback ℕ ℕ
count frame s = some (s + 1)
