-- ===== src/Task.antt =====
-- src/task/task.c and task.h: the list of tasks, and the registers that a task keeps.
-- Tasks are nodes of a store by their addresses, 0 being the null pointer; an access through it is
-- a fault. What `kzalloc` and `paging_new_4gb` return is an argument.
pub mod Queue
pub mod Removal
pub mod Appending
pub mod Machine
pub mod Strings
pub mod Ready
pub mod Copying
pub mod Commands
mod CopyTests
pub mod Example
mod Tests
use guava_os_pro.Prelude.{ℕ, not, Option, none, some, ◌==◌, if◌then◌else◌, ◌>>=◌}
use guava_os_pro.Prelude.Int.{ℤ, pos, ◌==ℤ◌}
use guava_os_pro.Status.{all_ok, eio}

-- `struct registers`
pub record Registers : Type 0 where
  pub edi : ℕ
  pub esi : ℕ
  pub ebp : ℕ
  pub ebx : ℕ
  pub edx : ℕ
  pub ecx : ℕ
  pub eax : ℕ
  pub ip : ℕ
  pub cs : ℕ
  pub flags : ℕ
  pub esp : ℕ
  pub ss : ℕ

-- `struct task`
pub record Task : Type 0 where
  pub page_directory : ℕ
  pub registers : Registers
  pub next : ℕ
  pub prev : ℕ
  pub process : ℕ

-- The store, `current_task`, `task_head` and `task_tail`.
pub record Tasks : Type 0 where
  pub store : ℕ → Task
  pub current : ℕ
  pub head : ℕ
  pub tail : ℕ

-- GUAVAOS_PROGRAM_VIRTUAL_ADDRESS, GUAVAOS_PROGRAM_VIRTUAL_STACK_ADDRESS_START and the segments of
-- user programs
abbrev pub program_address : ℕ
program_address = 0x400000

abbrev pub program_stack : ℕ
program_stack = 0x3FF000

abbrev pub user_data_segment : ℕ
user_data_segment = 0x23

abbrev pub user_code_segment : ℕ
user_code_segment = 0x1b

-- A write to the task at an address.
abbrev pub put : Tasks → ℕ → Task → Tasks
put v a t = record v { store = λ q. if q == a then t else v.store q }

-- The null pointer is not tested for.
unfoldable pub get_next : Tasks → Option ℕ
get_next v =
    if v.current == 0
    then none
    else (let next = (v.store v.current).next in some (if next == 0 then v.head else next))

-- The stretch of the removal that moves the head, the tail and the current task.
unfoldable pub leave : Tasks → ℕ → Option Tasks
unfolding get_next
leave v task =
    let v1 = if task == v.head then record v { head = (v.store task).next } else v in
    let v2 = if task == v1.tail then record v1 { tail = (v1.store task).prev } else v1 in
    if task == v2.current
    then (do current ← get_next v2; some (record v2 { current = current }))
    else some v2

-- The task in front is linked to the one behind, which keeps its `prev`.
unfoldable pub list_remove : Tasks → ℕ → Option Tasks
unfolding leave
list_remove v task =
    let prev = (v.store task).prev in
    leave
      (if not (prev == 0)
        then put v prev (record (v.store prev) { next = (v.store task).next })
        else v)
      task

-- What `task_init` makes of a task: everything is cleared but the page directory, and then, if
-- there is one, the registers of a program's start and the process are set.
abbrev pub no_registers : Registers
no_registers = record {
  edi = 0;
  esi = 0;
  ebp = 0;
  ebx = 0;
  edx = 0;
  ecx = 0;
  eax = 0;
  ip = 0;
  cs = 0;
  flags = 0;
  esp = 0;
  ss = 0;
}

abbrev pub cleared : ℕ → Task
cleared page_directory = record {
  page_directory = page_directory;
  registers = no_registers;
  next = 0;
  prev = 0;
  process = 0;
}

abbrev pub ready : ℕ → ℕ → Task
ready page_directory process = record (cleared page_directory) {
  registers = record no_registers {
    ip = program_address;
    ss = user_data_segment;
    cs = user_code_segment;
    esp = program_stack;
  };
  process = process;
}

unfoldable pub init : Tasks → ℕ → ℕ → ℕ → ℤ × Tasks
init v task page_directory process =
    if page_directory == 0
    then (eio, put v task (cleared page_directory))
    else (all_ok, put v task (ready page_directory process))

-- The stretch of `task_new` for a list that is not empty.
unfoldable pub append : Tasks → ℕ → Tasks
append v task =
    let v1 = put v v.tail (record (v.store v.tail) { next = task }) in
    record (put v1 task (record (v1.store task) { prev = v.tail })) { tail = task }

-- Both failures free a task that has no page directory, which is an access through a null pointer.
unfoldable pub new : Tasks → ℕ → ℕ → ℕ → Option (ℕ × Tasks)
unfolding init append
new v task page_directory process =
    if task == 0
    then none
    else (let (res, v1) = init v task page_directory process in
        if not (res ==ℤ all_ok)
        then none
        else if v1.head == 0
        then some (task, record v1 { head = task; tail = task; current = task })
        else some (task, append v1 task))
