-- ===== src/Idt/Commands.antt =====
-- Registering and running the commands of the system call, and the callbacks of interrupts.
use guava_os_pro.Prelude.{
  ℕ, ◌<◌, ◌≡◌, ◌≢◌, refl, ap, arith, Option, none, some, List, length, refl, none, get_elem?,
  lt_of_get_elem?, ◌>>=◌, get_elem?-set_self, get_elem?-set_ne, set, set?-eq-set, lt→leb_false,
  ◌>>=◌,
}
use guava_os_pro.Prelude.Int.{ℤ, pos, negsuc}
use guava_os_pro.Status.{all_ok}
use guava_os_pro.Idt.{
  Command, Callback, max_commands, total_interrupts, register_interrupt_callback,
  isr80h_register_command, isr80h_handle_command, interrupt_handler,
}

bind_assoc :
    {S : Type 0} (m : Option S) (f g : S → Option S) → ((m >>= f) >>= g) ≡ (m >>= λ a. f a >>= g)
bind_assoc none f g = refl
bind_assoc (some a) f g = refl

module _ {S F : Type 0} where
  -- In a table of 1024 commands, registering a command under a free number makes the system call
  -- run it for that number, and what it runs for every other number stays the same.
  pub isr80h_register_command_lem :
      (commands : List (Option (Command F S))) (n : ℕ) (m : ℤ) (command : Command F S) (frame : F)
      (s : S)
      → length commands ≡ max_commands
      → get_elem? commands n ≡ some none
      → m ≢ pos n
      → (commands' : List (Option (Command F S))) × (isr80h_register_command commands
            (pos n)
            command
          ≡ some commands')
        × (isr80h_handle_command commands' (pos n) frame s ≡ command frame s)
        × (isr80h_handle_command commands' m frame s ≡ isr80h_handle_command commands m frame s)
  unfolding isr80h_register_command isr80h_handle_command
  isr80h_register_command_lem commands n m command frame s size free other = (
    set commands n (some command),
    rw (lt→leb_false max_commands n bound, free, set?-eq-set commands n (some command) inside),
    rw (lt→leb_false max_commands n bound, get_elem?-set_self commands n (some command) inside),
    others m other,
  )
    where
      inside : n < length commands
      inside = lt_of_get_elem? commands n free

      bound : n < max_commands
      bound = omega (arith, size, inside)

      others :
          (m : ℤ)
          → m ≢ pos n
          → isr80h_handle_command (set commands n (some command)) m frame s
            ≡ isr80h_handle_command commands m frame s
      others (negsuc k) d = refl
      others (pos k) d = rw (get_elem?-set_ne commands n k (some command) (λ e. d (ap pos e)))

  -- An interrupt whose callback is registered saves the state of the current task, in the kernel's
  -- pages, runs that callback, goes back to the pages of the task and acknowledges.
  pub interrupt_handler-register :
      (kernel_page task_page outb : S → S) (save : F → S → Option S)
      (callbacks : List (Option (Callback F S))) (n : ℕ) (callback : Callback F S) (frame : F)
      (s : S)
      → length callbacks ≡ total_interrupts
      → n < total_interrupts
      → (callbacks' : List (Option (Callback F S))) × (register_interrupt_callback callbacks
            (pos n)
            (some callback)
          ≡ some (all_ok, callbacks'))
        × (interrupt_handler kernel_page task_page outb save callbacks' n frame s ≡ (
            save frame (kernel_page s) >>= λ s1.
            callback frame s1 >>= λ s2. some (outb (task_page s2))))
  unfolding register_interrupt_callback interrupt_handler
  interrupt_handler-register kernel_page task_page outb save callbacks n callback frame s size h = (
    set callbacks n (some callback),
    rw (
      lt→leb_false total_interrupts n h,
      set?-eq-set callbacks n (some callback) (omega (arith, size)),
    ),
    rw (get_elem?-set_self callbacks n (some callback) (omega (arith, size))) (
        bind_assoc (save frame (kernel_page s)) (callback frame)
          (λ s2. some (outb (task_page s2)))),
  )
