-- ===== src/Process.antt =====
-- src/task/process.c and process.h: the table of processes, and loading a program from a file into
-- a process of its own with a task, over the models of files, of the heap and of page tables.
-- Processes are objects of a store by their addresses. The variable that `process` points to is what
-- loading returns beside the status. The files keep their own count of the blocks that are left.
mod Tests
pub mod Slots
pub mod Image
pub mod Reading
pub mod Loading
use guava_os_pro.Prelude.{
  ℕ, zero, suc, ◌+◌, ◌^◌, ◌%◌, bit_or, not, Option, none, some, List, [], ◌∷◌, leb, ◌==◌, get_elem?,
  set?, replicate, if◌then◌else◌, ◌>>=◌,
}
use guava_os_pro.Prelude.Int.{ℤ, pos, negsuc, is_neg, ◌==ℤ◌}
use guava_os_pro.Status.{all_ok, eio, enomem, eistkn}
use guava_os_pro.CString.{strncpy}
use guava_os_pro.PathParser.{max_path}
use guava_os_pro.Memory.Flat.{Memory, write}
use guava_os_pro.Paging.{map_to, align_address}
use guava_os_pro.Paging.Allocator.{Allocator}
use guava_os_pro.Paging.Creation.{is_present, access_from_all, is_writable, new_4gb, get_directory}
use guava_os_pro.File.{Files, FileStat, fopen, fstat, fread, fclose}
use guava_os_pro.Keyboard.{KeyboardBuffer, buffer_size}
use guava_os_pro.Task.{program_address, program_stack, Tasks, new}
use guava_os_pro.Task.Machine.{Machine, view, kzalloc, task_free}

-- GUAVAOS_MAX_PROCESSES, GUAVAOS_MAX_PROGRAM_ALLOCATIONS and GUAVAOS_USER_PROGRAM_STACK_SIZE
abbrev pub max_processes : ℕ
max_processes = 12

abbrev pub max_allocations : ℕ
max_allocations = 1024

abbrev pub stack_size : ℕ
stack_size = 16384

-- GUAVAOS_PROGRAM_VIRTUAL_STACK_ADDRESS_END
abbrev pub stack_end : ℕ
stack_end = 0x3FB000

-- `sizeof(struct process)` and `sizeof(struct task)`
abbrev pub process_bytes : ℕ
process_bytes = 5256

abbrev pub task_bytes : ℕ
task_bytes = 64

-- `struct process`
pub record Process : Type 0 where
  pub id : ℕ
  pub filename : List ℕ
  pub task : ℕ
  pub allocations : List ℕ
  pub ptr : ℕ
  pub stack : ℕ
  pub size : ℕ
  pub keyboard : KeyboardBuffer

-- `processes`, `current_process`, and what loading a program works on.
pub record System (S V : Type 0) : Type 0 where
  pub machine : Machine S
  pub files : Files V
  pub store : ℕ → Process
  pub processes : List (Option ℕ)
  pub current : ℕ

-- `process_init`
abbrev pub empty_process : Process
empty_process = record {
  id = 0;
  filename = replicate max_path 0;
  task = 0;
  allocations = replicate max_allocations 0;
  ptr = 0;
  stack = 0;
  size = 0;
  keyboard = record { buffer = replicate buffer_size 0; tail = pos 0; head = pos 0 };
}

-- What `fread` stores, at the addresses that `at` gives.
unfoldable pub store_bytes : (ℕ → ℕ) → ℕ → List ℕ → Memory → Memory
store_bytes at p [] m = m
store_bytes at p (c ∷ cs) m = store_bytes at (p + 1) cs (write m (at p) c)

-- A null pointer is `none`.
unfoldable pub process_get : List (Option ℕ) → ℤ → Option ℕ
process_get processes (negsuc n) = none
process_get processes (pos process_id) =
    if leb max_processes process_id
    then none
    else elim (get_elem? processes process_id) [ none ↦ none | some p ↦ p ]

-- The loop at slot `i`.
unfoldable pub free_slot_loop : List (Option ℕ) → ℕ → ℤ
free_slot_loop [] i = eistkn
free_slot_loop (none ∷ ps) i = pos i
free_slot_loop (some p ∷ ps) i = free_slot_loop ps (i + 1)

unfoldable pub get_free_slot : List (Option ℕ) → ℤ
unfolding free_slot_loop
get_free_slot processes = free_slot_loop processes 0

abbrev pub all_flags : ℕ
all_flags = bit_or (bit_or is_present access_from_all) is_writable

module _ {S : Type 0} where
  -- The status of `paging_map_to` is not looked at.
  unfoldable pub map_at : Machine S → ℕ → ℕ → ℕ → ℕ → Machine S
  map_at m chunk virt phys size =
      let phys_end = align_address ((phys + size) % 2 ^ 32) in
      let directory = get_directory m.space.words chunk in
      record m {
        space = record m.space {
          words = (map_to directory virt phys phys_end all_flags m.space.words).1;
        };
      }

  unfoldable pub map_binary : Machine S → Process → ℤ × Machine S
  unfolding map_at
  map_binary m process =
      let chunk = (m.tasks.store process.task).page_directory in
      (pos 0, map_at m chunk program_address process.ptr process.size)

  unfoldable pub map_memory : Machine S → Process → ℤ × Machine S
  unfolding map_binary map_at
  map_memory m process =
      let (res, m') = map_binary m process in
      let chunk = (m'.tasks.store process.task).page_directory in
      if is_neg res then (res, m') else (res, map_at m' chunk stack_end process.stack stack_size)

  -- `task_new`, with what it allocates. A failure frees a null pointer, which is a fault.
  unfoldable pub task_new : Allocator S → Machine S → ℕ → Option (ℕ × Machine S)
  task_new a m process = do
    (task, m1) ← kzalloc a m task_bytes
    let made = (do
      (chunk, space) ← new_4gb a (bit_or is_present access_from_all) m1.space
      (res, tasks) ← new m1.tasks task chunk process
      some (res, record m1 { space = space; tasks = tasks }))
    if task == 0 then none else made

module _ {S V : Type 0} where
  abbrev pub put_process : System S V → ℕ → Process → System S V
  put_process v p q = record v { store = λ x. if x == p then q else v.store x }

  unfoldable pub process_switch : System S V → ℕ → ℤ × System S V
  process_switch v process = (pos 0, record v { current = process })

  module _ (a : Allocator S) where
    -- From the allocation of the program's memory on, with the file still open.
    unfoldable pub read_binary : System S V → ℤ → FileStat → ℕ → Option (ℤ × System S V)
    read_binary v fd stat process = do
      (program_data_ptr, machine) ← kzalloc a v.machine stat.filesize
      let v1 : System S V = record v { machine = machine }
      let loaded = (do
        (count, bytes, files) ← fread v1.files stat.filesize 1 fd
        let v2 : System S V = record v1 {
          machine = record machine {
            bytes = store_bytes (view machine) program_data_ptr bytes machine.bytes;
          };
          files = files;
        }
        if not (count ==ℤ pos 1)
            then some (eio, v2)
            else some (
              all_ok,
              put_process v2 process
                  (record (v2.store process) { ptr = program_data_ptr; size = stat.filesize }),
            ))
      if program_data_ptr == 0 then some (enomem, v1) else loaded

    -- The file is closed on every way out, also where it was not opened.
    unfoldable pub load_binary : System S V → List ℕ → ℕ → Option (ℤ × System S V)
    unfolding read_binary
    load_binary v filename process = do
      (fd, files) ← fopen v.files filename (b'r' ∷ 0 ∷ [])
      let v1 : System S V = record v { files = files }
      let opened = (do
        (res, stat, files') ← fstat v1.files fd
        let v2 : System S V = record v1 { files = files' }
        if not (res ==ℤ all_ok) then some (res, v2) else (do s ← stat; read_binary v2 fd s process))
      (res, v') ← if fd ==ℤ pos 0 then some (eio, v1) else opened
      (closed, files'') ← fclose v'.files fd
      some (res, record v' { files = files'' })

    unfoldable pub load_data : System S V → List ℕ → ℕ → Option (ℤ × System S V)
    unfolding load_binary
    load_data v filename process = load_binary v filename process

    -- From the task on; `*process` is the process where one is given back. The test for an error is
    -- one for the null pointer, which `task_new` does not return.
    unfoldable pub start_process : System S V → ℕ → ℕ → Option (ℤ × Option ℕ × System S V)
    start_process v process slot = do
      (task, m) ← task_new a v.machine process
      let v1 : System S V = record v { machine = m }
      let v2 = put_process v1 process (record (v1.store process) { task = task })
      let (res, m') = map_memory v2.machine (v2.store process)
      let v3 : System S V = record v2 { machine = m' }
      let failed = (do m'' ← task_free a m' task; some (res, none, record v3 { machine = m'' }))
      let registered = (do
        processes' ← set? v3.processes slot (some process)
        some (res, some process, record v3 { processes = processes' }))
      if task == 0 then some (pos 0, none, v1) else if is_neg res then failed else registered

    -- From the program's stack on.
    unfoldable pub load_stack : System S V → List ℕ → ℕ → ℕ → Option (ℤ × Option ℕ × System S V)
    load_stack v filename process slot = do
      (program_stack_ptr, m) ← kzalloc a v.machine stack_size
      let v1 : System S V = record v { machine = m }
      let stacked = (do
        name ← strncpy (v1.store process).filename filename max_path
        start_process
            (put_process v1 process
              (record (v1.store process) { filename = name; stack = program_stack_ptr; id = slot }))
            process slot)
      if program_stack_ptr == 0 then some (enomem, none, v1) else stacked

    -- From the allocation of the process on.
    unfoldable pub load_new : System S V → List ℕ → ℕ → Option (ℤ × Option ℕ × System S V)
    load_new v filename slot = do
      (process, m) ← kzalloc a v.machine process_bytes
      let v1 : System S V = put_process (record v { machine = m }) process empty_process
      let loaded = (do
        (res, v2) ← load_data v1 filename process
        let rest = load_stack v2 filename process slot
        if is_neg res then some (res, none, v2) else rest)
      if process == 0 then some (enomem, none, record v { machine = m }) else loaded

    -- A slot that is taken leads to the label with `_process` not initialised: a fault. The other
    -- errors come before the process has a task, and free nothing.
    unfoldable pub load_for_slot : System S V → List ℕ → ℕ → Option (ℤ × Option ℕ × System S V)
    load_for_slot v filename slot = elim (process_get v.processes (pos slot)) [
      | some p ↦ none
      | none ↦ load_new v filename slot
    ]

    -- What loading does with the slot that was found.
    unfoldable pub load_in : System S V → List ℕ → ℤ → Option (ℤ × Option ℕ × System S V)
    load_in v filename (negsuc n) = some (eistkn, none, v)
    load_in v filename (pos slot) = load_for_slot v filename slot

    unfoldable pub load : System S V → List ℕ → Option (ℤ × Option ℕ × System S V)
    load v filename = load_in v filename (get_free_slot v.processes)

    -- The pointer that is switched to is null where loading gives none back.
    unfoldable pub load_switch : System S V → List ℕ → Option (ℤ × Option ℕ × System S V)
    load_switch v filename = do
      (res, process, v') ← load v filename
      let switched = (process_switch v' (elim process [ none ↦ 0 | some p ↦ p ])).1
      some (res, process, if res ==ℤ pos 0 then switched else v')
