-- ===== src/Keyboard.antt =====
-- src/keyboard/keyboard.c, the keyboard buffer of a process (src/task/process.h), and the scancodes
-- of src/keyboard/ps2.c and ps2.h.
pub mod Queue
pub mod Backspace
pub mod Scancode
pub mod Drivers
pub mod Inserting
mod DriverTests
mod Tests
use guava_os_pro.Prelude.{
  ℕ, zero, suc, ◌+◌, ◌-◌, ◌%◌, Bool, Option, none, some, List, ◌==◌, if◌then◌else◌, leb, ◌^◌,
  get_elem?, set?, ◌>>=◌,
}
use guava_os_pro.Prelude.Int.{ℤ, pos, negsuc}

-- GUAVAOS_KEYBOARD_BUFFER_SIZE
abbrev pub buffer_size : ℕ
buffer_size = 1024

-- `struct keyboard_buffer`
pub record KeyboardBuffer : Type 0 where
  pub buffer : List ℕ
  pub tail : ℤ
  pub head : ℤ

-- Processes are numbers. `keyboard_push` goes to the current process, `keyboard_pop` reads from the
-- process of the current task.
pub record Machine : Type 0 where
  pub keyboard : ℕ → KeyboardBuffer
  pub current_process : Option ℕ
  pub task_process : Option ℕ

abbrev pub update : Machine → ℕ → KeyboardBuffer → Machine
update m p k = record m { keyboard = λ q. if q == p then k else m.keyboard q }

-- `n % GUAVAOS_KEYBOARD_BUFFER_SIZE` on `int`: the remainder of a negative number is not positive,
-- and an access at a negative index is a fault.
unfoldable pub real_index : ℤ → Option ℕ
real_index (pos n) = some (n % buffer_size)
real_index (negsuc n) = if suc n % buffer_size == 0 then some 0 else none

-- `++` and `--` on `int`: the overflow is a fault.
abbrev pub increment : ℤ → Option ℤ
increment (pos n) = if leb (2 ^ 31) (suc n) then none else some (pos (suc n))
increment (negsuc zero) = some (pos 0)
increment (negsuc (suc n)) = some (negsuc n)

abbrev pub decrement : ℤ → Option ℤ
decrement (pos zero) = some (negsuc 0)
decrement (pos (suc n)) = some (pos n)
decrement (negsuc n) = if leb (2 ^ 31) (suc n) then none else some (negsuc (suc n))

unfoldable pub get_tail_index : KeyboardBuffer → Option ℕ
get_tail_index k = real_index k.tail

unfoldable pub backspace : Machine → ℕ → Option Machine
backspace m process = do
  tail' ← decrement (m.keyboard process).tail
  let k = record (m.keyboard process) { tail = tail' }
  index ← get_tail_index k
  buffer' ← set? k.buffer index 0
  some (update m process (record k { buffer = buffer' }))

unfoldable pub push_to : Machine → ℕ → ℕ → Option Machine
push_to m process c = do
  let k = m.keyboard process
  index ← get_tail_index k
  buffer' ← set? k.buffer index c
  tail' ← increment k.tail
  some (update m process (record k { buffer = buffer'; tail = tail' }))

unfoldable pub push : Machine → ℕ → Option Machine
push m c = elim m.current_process [ none ↦ some m | some process ↦ push_to m process c ]

unfoldable pub pop_from : Machine → ℕ → Option (ℕ × Machine)
pop_from m process = do
  let k = m.keyboard process
  index ← real_index k.head
  c ← get_elem? k.buffer index
  if c == 0 then some (0, m) else (do
    buffer' ← set? k.buffer index 0
    head' ← increment k.head
    some (c, update m process (record k { buffer = buffer'; head = head' })))

unfoldable pub pop : Machine → Option (ℕ × Machine)
pop m = elim m.task_process [ none ↦ some (0, m) | some process ↦ pop_from m process ]
