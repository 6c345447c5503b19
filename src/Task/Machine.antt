-- ===== src/Task/Machine.antt =====
-- The rest of src/task/task.c, on a machine: the list of tasks, the kernel's heap, the page tables
-- as words, the other memory as bytes, and what the processor was last given. Bytes are accessed
-- through the page directory that is loaded; page tables are accessed by their addresses, which the
-- kernel's directory maps to themselves. A panic, and a null pointer that is not tested for, are
-- faults.
use guava_os_pro.Prelude.{
  ℕ, zero, suc, ◌+◌, ◌-◌, ◌*◌, ◌/◌, ◌%◌, ◌^◌, bit_or, ◌||◌, Option, none, some, leb, ◌==◌,
  if◌then◌else◌, ◌>>=◌,
}
use guava_os_pro.Prelude.Int.{ℤ, is_neg}
use guava_os_pro.Status.{eio, einvarg, enomem}
use guava_os_pro.Memory.Flat.{Memory, write}
use guava_os_pro.Paging.{Words, page_size, map, set, get}
use guava_os_pro.Paging.Allocator.{Allocator, Space}
use guava_os_pro.Paging.Creation.{
  is_present, access_from_all, is_writable, free_4gb, Mmu, switch, get_directory,
}
use guava_os_pro.Task.{Registers, Tasks, put, list_remove}

-- The physical address behind a virtual one: that of the page, and the offset in it.
unfoldable pub translate : Words → ℕ → ℕ → ℕ
translate m directory a =
    get directory (a / page_size * page_size) m / page_size * page_size + a % page_size

-- KERNEL_DATA_SELECTOR, which `kernel_registers` loads
abbrev pub kernel_data_selector : ℕ
kernel_data_selector = 0x10

-- USER_DATA_SEGMENT, which `user_registers` loads
abbrev pub user_data_selector : ℕ
user_data_selector = 0x23

pub record Machine (S : Type 0) : Type 0 where
  pub tasks : Tasks
  pub space : Space S
  pub bytes : Memory
  pub mmu : Mmu
  pub segments : ℕ
  pub kernel_chunk : ℕ

-- `struct interrupt_frame`
pub record InterruptFrame : Type 0 where
  pub edi : ℕ
  pub esi : ℕ
  pub ebp : ℕ
  pub reserved : ℕ
  pub ebx : ℕ
  pub edx : ℕ
  pub ecx : ℕ
  pub eax : ℕ
  pub ip : ℕ
  pub cs : ℕ
  pub flags : ℕ
  pub esp : ℕ
  pub ss : ℕ

-- The loop of `strncpy` on memory seen through `at`, with `left` rounds to go.
unfoldable pub strncpy_at : (ℕ → ℕ) → ℕ → ℕ → ℕ → Memory → Memory
strncpy_at at zero dest src m = write m (at dest) 0
strncpy_at at (suc left) dest src m =
    let rest = strncpy_at at left (dest + 1) (src + 1) (write m (at dest) (m (at src))) in
    if m (at src) == 0 then write m (at dest) 0 else rest

-- The loop of `memset` with 0 on memory seen through `at`.
unfoldable pub clear_at : (ℕ → ℕ) → ℕ → ℕ → Memory → Memory
clear_at at p zero m = m
clear_at at p (suc size) m = clear_at at (p + 1) size (write m (at p) 0)

-- A 32-bit word, which the processor reads as four bytes.
abbrev pub word_at : (ℕ → ℕ) → Memory → ℕ → ℕ
word_at at m p =
    m (at p) + 2 ^ 8 * m (at (p + 1)) + 2 ^ 16 * m (at (p + 2)) + 2 ^ 24 * m (at (p + 3))

unfoldable pub save_registers : InterruptFrame → Registers
save_registers frame = record {
  ip = frame.ip;
  cs = frame.cs;
  flags = frame.flags;
  esp = frame.esp;
  ss = frame.ss;
  eax = frame.eax;
  ebp = frame.ebp;
  ebx = frame.ebx;
  ecx = frame.ecx;
  edi = frame.edi;
  edx = frame.edx;
  esi = frame.esi;
}

module _ {S : Type 0} where
  -- The addresses that the loaded directory gives.
  abbrev pub view : Machine S → ℕ → ℕ
  view v = translate v.space.words v.mmu.loaded

  unfoldable pub paging_switch : Machine S → ℕ → Machine S
  paging_switch v chunk = record v { mmu = switch v.space.words chunk }

  unfoldable pub kernel_page : Machine S → Machine S
  unfolding paging_switch
  kernel_page v = paging_switch (record v { segments = kernel_data_selector }) v.kernel_chunk

  unfoldable pub save_state : Machine S → ℕ → InterruptFrame → Machine S
  save_state v task frame = record v {
    tasks = put v.tasks task (record (v.tasks.store task) { registers = save_registers frame });
  }

  unfoldable pub current_save_state : Machine S → InterruptFrame → Option (Machine S)
  current_save_state v frame =
      if v.tasks.current == 0 then none else some (save_state v v.tasks.current frame)

  unfoldable pub task_switch : Machine S → ℕ → Machine S
  unfolding paging_switch
  task_switch v task =
      paging_switch (record v { tasks = record v.tasks { current = task } })
        (v.tasks.store task).page_directory

  unfoldable pub task_page : Machine S → Option (Machine S)
  unfolding task_switch
  task_page v =
      if v.tasks.current == 0
      then none
      else some (task_switch (record v { segments = user_data_selector }) v.tasks.current)

  unfoldable pub task_page_task : Machine S → ℕ → Machine S
  unfolding paging_switch
  task_page_task v task =
      paging_switch (record v { segments = user_data_selector }) (v.tasks.store task).page_directory

  -- The registers that `task_return` gives to the processor.
  unfoldable pub run_first_ever_task : Machine S → Option (Registers × Machine S)
  unfolding task_switch
  run_first_ever_task v =
      if v.tasks.current == 0 || v.tasks.head == 0
      then none
      else (let v' = task_switch v v.tasks.head in
          some ((v'.tasks.store v'.tasks.head).registers, v'))

  unfoldable pub get_stack_item : Machine S → ℕ → ℕ → Option (ℕ × Machine S)
  unfolding task_page_task kernel_page
  get_stack_item v task index =
      let sp_ptr = (v.tasks.store task).registers.esp in
      let v' = task_page_task v task in
      if task == 0
      then none
      else some (word_at (view v') v'.bytes (sp_ptr + 4 * index), kernel_page v')

  -- src/isr80h/misc.c
  unfoldable pub command0_sum : Machine S → Option (ℕ × Machine S)
  unfolding get_stack_item
  command0_sum v = do
    (v2, w) ← get_stack_item v v.tasks.current 1
    (v1, w') ← get_stack_item w w.tasks.current 0
    some ((v1 + v2) % 2 ^ 32, w')

  module _ (a : Allocator S) where
    unfoldable pub kzalloc : Machine S → ℕ → Option (ℕ × Machine S)
    kzalloc v size = do
      (ptr, heap) ← a.malloc v.space.heap size
      let v' : Machine S = record v { space = record v.space { heap = heap } }
      if ptr == 0
          then some (0, v')
          else some (ptr, record v' { bytes = clear_at (view v') ptr size v'.bytes })

    unfoldable pub kfree : Machine S → ℕ → Option (Machine S)
    kfree v ptr = do
      heap ← a.free v.space.heap ptr
      some (record v { space = record v.space { heap = heap } })

    unfoldable pub task_free : Machine S → ℕ → Option (Machine S)
    unfolding kfree
    task_free v task = do
      space ← free_4gb a (v.tasks.store task).page_directory v.space
      tasks ← list_remove v.tasks task
      kfree (record v { space = space; tasks = tasks }) task

    -- From the switch to the task's directory on, with the entry that stood at `tmp` before.
    unfoldable pub copy_through : Machine S → ℕ → ℕ → ℕ → ℕ → ℕ → ℕ → ℕ → Option (ℤ × Machine S)
    unfolding paging_switch kernel_page kfree
    copy_through v chunk directory tmp old_entry virt phys max =
        let v1 = paging_switch v chunk in
        let v2 = record v1 { bytes = strncpy_at (view v1) (max - 1) tmp virt v1.bytes } in
        let v3 = kernel_page v2 in
        let (res, words) = set directory tmp old_entry v3.space.words in
        let v4 = record v3 { space = record v3.space { words = words } } in
        let v5 = record v4 { bytes = strncpy_at (view v4) (max - 1) phys tmp v4.bytes } in
        if is_neg res
        then (do w ← kfree v4 tmp; some (eio, w))
        else (do w ← kfree v5 tmp; some (res, w))

    unfoldable pub copy_string_from_task : Machine S → ℕ → ℕ → ℕ → ℕ → Option (ℤ × Machine S)
    copy_string_from_task v task virt phys max =
        if leb page_size max then some (einvarg, v) else (do
          (tmp, v1) ← kzalloc v max
          let chunk = (v1.tasks.store task).page_directory
          let directory = get_directory v1.space.words chunk
          let old_entry = get directory tmp v1.space.words
          let flags = bit_or (bit_or is_writable is_present) access_from_all
          let words = (map directory tmp tmp flags v1.space.words).1
          let v2 : Machine S = record v1 { space = record v1.space { words = words } }
          if tmp == 0
              then some (enomem, v1)
              else if task == 0
              then none
              else copy_through v2 chunk directory tmp old_entry virt phys max)
