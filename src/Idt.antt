-- ===== src/Idt.antt =====
-- src/idt/idt.c and idt.h: the interrupt table, the callbacks of interrupts and the commands of
-- the system call. A slot out of range is a fault, and so is a panic, which does not return.
-- What the handlers reach outside of this file is a parameter: the state `S` of the machine, the
-- switch of page directories and registers, the saved state of the current task, and the port that
-- acknowledges an interrupt.
pub mod Gates
pub mod Commands
mod Tests
use guava_os_pro.Prelude.{
  ℕ, zero, suc, ◌+◌, ◌-◌, ◌*◌, ◌/◌, ◌^◌, bit_and, Bool, Option, none, some, List, [], ◌∷◌, leb,
  if◌then◌else◌, get_elem?, set?, replicate, ◌>>=◌,
}
use guava_os_pro.Prelude.Int.{ℤ, pos, negsuc}
use guava_os_pro.Status.{all_ok, einvarg}

-- GUAVAOS_TOTAL_INTERRUPTS, GUAVAOS_MAX_ISR80H_COMMANDS and KERNEL_CODE_SELECTOR
abbrev pub total_interrupts : ℕ
total_interrupts = 512

abbrev pub max_commands : ℕ
max_commands = 1024

abbrev pub kernel_code_selector : ℕ
kernel_code_selector = 0x08

-- `struct idt_desc`
pub record IdtDesc : Type 0 where
  pub offset_1 : ℕ
  pub selector : ℕ
  pub zeros : ℕ
  pub type_attr : ℕ
  pub offset_2 : ℕ

-- Every field is stored, so nothing of the old descriptor stays.
unfoldable pub idt_set : List IdtDesc → ℕ → ℕ → Option (List IdtDesc)
idt_set idt_descriptors interrupt_no address = set? idt_descriptors interrupt_no (record {
  offset_1 = bit_and address 0x0000ffff;
  selector = kernel_code_selector;
  zeros = 0x00;
  type_attr = 0xEE;
  offset_2 = address / 2 ^ 16;
})

-- The loop at interrupt `i` with `left` to go.
unfoldable pub set_loop : List IdtDesc → List ℕ → ℕ → ℕ → Option (List IdtDesc)
set_loop idt_descriptors interrupt_pointer_table i zero = some idt_descriptors
set_loop idt_descriptors interrupt_pointer_table i (suc left) = do
  address ← get_elem? interrupt_pointer_table i
  idt_descriptors' ← idt_set idt_descriptors i address
  set_loop idt_descriptors' interrupt_pointer_table (i + 1) left

-- The arguments are the addresses that src/idt/idt.asm gives, and that of `idt_zero`.
unfoldable pub idt_init : List ℕ → ℕ → ℕ → Option (List IdtDesc)
unfolding set_loop idt_set
idt_init interrupt_pointer_table idt_zero isr80h_wrapper = do
  let empty : IdtDesc = record {
    offset_1 = 0;
    selector = 0;
    zeros = 0;
    type_attr = 0;
    offset_2 = 0;
  }
  all ← set_loop (replicate total_interrupts empty) interrupt_pointer_table 0 total_interrupts
  first ← idt_set all 0 idt_zero
  idt_set first 0x80 isr80h_wrapper

-- `INTERRUPT_CALLBACK_FUNCTION`, which is called with the frame.
abbrev pub Callback : Type 0 → Type 0 → Type 0
Callback F S = F → S → Option S

-- `ISR80H_COMMAND`; the pointer that a command returns is a number.
abbrev pub Command : Type 0 → Type 0 → Type 0
Command F S = F → S → Option (ℕ × S)

module _ {S F : Type 0} where
  unfoldable pub register_interrupt_callback :
      List (Option (Callback F S))
      → ℤ
      → Option (Callback F S)
      → Option (ℤ × List (Option (Callback F S)))
  register_interrupt_callback callbacks (negsuc n) callback_fn = some (einvarg, callbacks)
  register_interrupt_callback callbacks (pos n) callback_fn =
      if leb total_interrupts n
      then some (einvarg, callbacks)
      else (do callbacks' ← set? callbacks n callback_fn; some (all_ok, callbacks'))

  -- A command that is there already is a panic.
  unfoldable pub isr80h_register_command :
      List (Option (Command F S)) → ℤ → (Command F S) → Option (List (Option (Command F S)))
  isr80h_register_command commands (negsuc n) command = none
  isr80h_register_command commands (pos n) command = if leb max_commands n then none else (do
    old ← get_elem? commands n
    elim old [ some c ↦ none | none ↦ set? commands n (some command) ])

  -- `isr80h_register_commands`: the numbers are those of `enum system_commands`.
  unfoldable pub register_commands :
      List (Option (Command F S)) → Command F S → Command F S → Option (List (Option (Command F S)))
  register_commands commands command0_sum command1_print = do
    commands' ← isr80h_register_command commands (pos 0) command0_sum
    isr80h_register_command commands' (pos 1) command1_print

  -- The null pointer for a number that no command has.
  unfoldable pub isr80h_handle_command : List (Option (Command F S)) → ℤ → F → S → Option (ℕ × S)
  isr80h_handle_command commands (negsuc n) frame s = some (0, s)
  isr80h_handle_command commands (pos n) frame s = if leb max_commands n then some (0, s) else (do
    command_func ← get_elem? commands n
    elim command_func [ none ↦ some (0, s) | some c ↦ c frame s ])

  module _ (kernel_page task_page outb : S → S) (task_current_save_state : F → S → Option S) where
    -- Without a callback the state of the task is not saved.
    unfoldable pub interrupt_handler : List (Option (Callback F S)) → ℕ → F → S → Option S
    interrupt_handler callbacks interrupt frame s = do
      callback ← get_elem? callbacks interrupt
      handled ← elim callback [
        | none ↦ some (kernel_page s)
        | some c ↦ (do saved ← task_current_save_state frame (kernel_page s); c frame saved)
      ]
      some (outb (task_page handled))

    unfoldable pub isr80h_handler : List (Option (Command F S)) → ℤ → F → S → Option (ℕ × S)
    isr80h_handler commands command frame s = do
      saved ← task_current_save_state frame (kernel_page s)
      (res, s') ← isr80h_handle_command commands command frame saved
      some (res, task_page s')
