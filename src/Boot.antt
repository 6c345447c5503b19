-- ===== src/Boot.antt =====
-- `kernel_main` of src/kernel.c: the order in which the parts are started, over the models of the
-- parts. Assembly that it calls (loading the segment table and the task state segment, and switching
-- paging on) is what the state says of it; a panic, which does not return, is a fault.
pub mod Start
mod Tests
use guava_os_pro.Prelude.{
  ℕ, Bool, true, false, not, Option, none, some, List, [], ◌∷◌, if◌then◌else◌, ◌>>=◌,
}
use guava_os_pro.Prelude.Int.{◌==ℤ◌}
use guava_os_pro.Status.{all_ok}
use guava_os_pro.Heap.{Heap}
use guava_os_pro.Kheap.{Kernel, kheap_init}
use guava_os_pro.Kheap.Pages.{heap_allocator}
use guava_os_pro.Paging.Creation.{is_present, access_from_all, is_writable, new_4gb}
use guava_os_pro.Fat16.Driver.{Fat, fat16_fs}
use guava_os_pro.File.{fs_init, disk_search_and_init}
use guava_os_pro.Gdt.{GdtStructured, gdt_structured_to_gdt}
use guava_os_pro.Terminal.{Terminal, initialize, print}
use guava_os_pro.Idt.{Callback, Command, IdtDesc, idt_init, register_commands}
use guava_os_pro.Disk.{Ports}
use guava_os_pro.Keyboard.Drivers.{Keyboards, Board, keyboard_init}
use guava_os_pro.Task.{Registers}
use guava_os_pro.Task.Machine.{InterruptFrame, paging_switch, run_first_ever_task}
use guava_os_pro.Process.{System, load_switch}

-- The fields of `struct tss` that the kernel sets; the others are cleared.
pub record Tss : Type 0 where
  pub esp0 : ℕ
  pub ss0 : ℕ

abbrev pub KernelSystem : Type 0
KernelSystem = System Heap Fat

-- What lies in memory when the kernel starts: the screen, the table's bytes of the heap, and
-- addresses and tables of assembly; and the functions that are registered.
pub record Layout : Type 0 where
  pub video : ℕ → ℕ
  pub heap_table : List ℕ
  pub tss_address : ℕ
  pub interrupt_pointer_table : List ℕ
  pub idt_zero : ℕ
  pub isr80h_wrapper : ℕ
  pub command0_sum : Command InterruptFrame KernelSystem
  pub command1_print : Command InterruptFrame KernelSystem
  pub ps2_get : ℕ

pub record Boot (D : Type 0) : Type 0 where
  pub terminal : Terminal
  pub gdt_real : List (List ℕ)
  pub tss : Tss
  pub idt_descriptors : List IdtDesc
  pub commands : List (Option (Command InterruptFrame KernelSystem))
  pub keyboards : Keyboards (Board KernelSystem InterruptFrame D)
  pub system : KernelSystem
  pub paging_enabled : Bool

-- The initial `gdt_structured`, with the address and the size of the task state segment.
abbrev pub gdt_structured : ℕ → List GdtStructured
gdt_structured tss_address =
    record { base = 0; limit = 0; type = 0 }
    ∷ record { base = 0; limit = 0xFFFFFFFF; type = 0x9a }
    ∷ record { base = 0; limit = 0xFFFFFFFF; type = 0x92 }
    ∷ record { base = 0; limit = 0xFFFFFFFF; type = 0xf8 }
    ∷ record { base = 0; limit = 0xFFFFFFFF; type = 0xf2 }
    ∷ record { base = tss_address; limit = 100; type = 0xe9 }
    ∷ []

abbrev pub heap_message : List ℕ
heap_message =
    b'F' ∷ b'a' ∷ b'i' ∷ b'l' ∷ b'e' ∷ b'd' ∷ b' ' ∷ b't' ∷ b'o' ∷ b' ' ∷ b'c' ∷ b'r' ∷ b'e' ∷ b'a'
    ∷ b't' ∷ b'e' ∷ b' ' ∷ b'h' ∷ b'e' ∷ b'a' ∷ b'p' ∷ b'/' ∷ b'n' ∷ 0 ∷ []

-- The path of the first program.
abbrev pub blank_path : List ℕ
blank_path =
    b'0' ∷ b':' ∷ b'/' ∷ b'b' ∷ b'l' ∷ b'a' ∷ b'n' ∷ b'k' ∷ b'.' ∷ b'b' ∷ b'i' ∷ b'n' ∷ 0 ∷ []

module _ {D : Type 0} where
  -- The terminal and the segment table.
  unfoldable pub start_screen : Layout → Boot D → Option (Boot D)
  start_screen l s = do
    gdt_real ← gdt_structured_to_gdt (gdt_structured l.tss_address)
    some (record s { terminal = initialize l.video; gdt_real = gdt_real })

  unfoldable pub start_heap : Layout → Boot D → Option (Boot D)
  start_heap l s = do
    let m = s.system.machine
    (failed, k) ← kheap_init (record { heap = m.space.heap; memory = m.bytes }) l.heap_table
    terminal ← if failed then print s.terminal heap_message 5 else some s.terminal
    some (record s {
      terminal = terminal;
      system = record s.system {
        machine = record m { space = record m.space { heap = k.heap }; bytes = k.memory };
      };
    })

  unfoldable pub start_files : Boot D → Option (Boot D)
  start_files s = do
    files ← fs_init s.system.files fat16_fs
    files' ← disk_search_and_init files
    some (record s { system = record s.system { files = files' } })

  -- The interrupts, and the task state segment.
  unfoldable pub start_interrupts : Layout → Boot D → Option (Boot D)
  start_interrupts l s = do
    idt ← idt_init l.interrupt_pointer_table l.idt_zero l.isr80h_wrapper
    some (record s { idt_descriptors = idt; tss = record { esp0 = 0x600000; ss0 = 0x10 } })

  unfoldable pub start_paging : Boot D → Option (Boot D)
  start_paging s = do
    let m = s.system.machine
    (chunk, space) ← new_4gb heap_allocator 7 m.space
    some (record s {
      system = record s.system {
        machine = paging_switch (record m { space = space; kernel_chunk = chunk }) chunk;
      };
      paging_enabled = true;
    })

  -- The commands of the system call, and the keyboard.
  unfoldable pub start_devices : Layout → Boot D → Option (Boot D)
  start_devices l s = do
    commands ← register_commands s.commands l.command0_sum l.command1_print
    keyboards ← keyboard_init s.keyboards l.ps2_get
    some (record s { commands = commands; keyboards = keyboards })

  -- The first program, whose registers are handed to `task_return`.
  unfoldable pub start_program : Boot D → Option (Registers × Boot D)
  start_program s = do
    (res, process, system) ← load_switch heap_allocator s.system blank_path
    (registers, machine) ← if not (res ==ℤ all_ok) then none else run_first_ever_task system.machine
    some (registers, record s { system = record system { machine = machine } })

  unfoldable pub kernel_main : Layout → Boot D → Option (Registers × Boot D)
  kernel_main l s = do
    s1 ← start_screen l s
    s2 ← start_heap l s1
    s3 ← start_files s2
    s4 ← start_interrupts l s3
    s5 ← start_paging s4
    s6 ← start_devices l s5
    start_program s6
