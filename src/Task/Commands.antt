-- ===== src/Task/Commands.antt =====
-- The commands of the system call, src/isr80h/misc.c and src/isr80h/io.c, which read the stack of the
-- current task.
use guava_os_pro.Prelude.{
  ℕ, zero, suc, ◌+◌, ◌*◌, ◌%◌, ◌^◌, ◌≡◌, ◌≢◌, Option, some, List, [], ◌∷◌, ne→==_false, ◌>>=◌,
}
use guava_os_pro.Memory.Flat.{Memory}
use guava_os_pro.Terminal.{Terminal, print}
use guava_os_pro.Paging.Allocator.{Allocator}
use guava_os_pro.Paging.Creation.{switch}
use guava_os_pro.Task.Machine.{
  Machine, translate, word_at, view, get_stack_item, command0_sum, copy_string_from_task,
  kernel_page, task_page_task, paging_switch,
}

-- The bytes of a buffer.
abbrev pub bytes_at : (ℕ → ℕ) → Memory → ℕ → ℕ → List ℕ
bytes_at at m p zero = []
bytes_at at m p (suc n) = m (at p) ∷ bytes_at at m (p + 1) n

-- `isr80h_command1_print`, with the buffer on the kernel's stack at `buff`. The status of the copy is
-- not looked at, so a message of a failed copy is what the buffer held.
unfoldable pub command1_print :
    {S : Type 0} → Allocator S → ℕ → Machine S → Terminal → Option (ℕ × Machine S × Terminal)
command1_print a buff v t = do
  (user_space_msg_buffer, v1) ← get_stack_item v v.tasks.current 0
  (res, v2) ← copy_string_from_task a v1 v1.tasks.current user_space_msg_buffer buff 1024
  t' ← print t (bytes_at (view v2) v2.bytes buff 1024) 3
  some (0, v2, t')

module _ {S : Type 0} (v : Machine S) (task chunk : ℕ) (not_null : task ≢ 0)
    (is : (v.tasks.store task).page_directory ≡ chunk) where
  -- A stack item is read through the task's directory, and then the kernel's is loaded.
  pub get_stack_item_lem :
      (index : ℕ)
      → get_stack_item v task index
        ≡ some (
          word_at
              (translate v.space.words (v.space.words chunk))
              v.bytes
              ((v.tasks.store task).registers.esp + 4 * index),
          record v { mmu = switch v.space.words v.kernel_chunk; segments = 0x10 },
        )
  unfolding get_stack_item task_page_task kernel_page paging_switch switch
  get_stack_item_lem index = rw (ne→==_false task 0 not_null, is)

-- The sum of the two words on top of the current task's stack, at 32 bits; the task, its memory and
-- the page tables stay, and the kernel's directory is loaded.
pub command0_sum_lem :
    {S : Type 0} (v : Machine S) (chunk : ℕ)
    → v.tasks.current ≢ 0
    → (v.tasks.store v.tasks.current).page_directory ≡ chunk
    → let item = λ (index : ℕ).
      word_at
        (translate v.space.words (v.space.words chunk))
        v.bytes
        ((v.tasks.store v.tasks.current).registers.esp + 4 * index) in
      command0_sum v
      ≡ some (
        (item 0 + item 1) % 2 ^ 32,
        record v { mmu = switch v.space.words v.kernel_chunk; segments = 0x10 },
      )
unfolding command0_sum
command0_sum_lem v chunk nz is = rw (
  get_stack_item_lem v v.tasks.current chunk nz is 1,
  get_stack_item_lem (record v { mmu = switch v.space.words v.kernel_chunk; segments = 0x10 })
      v.tasks.current chunk nz is 0,
)
