-- ===== src/Kheap.antt =====
-- src/memory/heap/kheap.c: the kernel's heap, and the memory that it hands out.
pub mod Zeroed
pub mod Pages
pub mod Start
mod Tests
use guava_os_pro.Prelude.{ℕ, ◌+◌, ◌/◌, Bool, Option, none, some, List, if◌then◌else◌, ◌==◌, ◌>>=◌}
use guava_os_pro.Prelude.Int.{is_neg}
use guava_os_pro.Memory.Flat.{Memory, fill}
use guava_os_pro.Heap.{Table, Heap, block_size, create, malloc, free}

-- GUAVAOS_HEAP_SIZE_BYTES and GUAVAOS_HEAP_ADDRESS
abbrev pub heap_size_bytes : ℕ
heap_size_bytes = 104857600

abbrev pub heap_address : ℕ
heap_address = 0x01000000

-- `kernel_heap` with its table, and the bytes behind the addresses that it gives out.
pub record Kernel : Type 0 where
  pub heap : Heap
  pub memory : Memory

-- The list is what lies at GUAVAOS_HEAP_TABLE_ADDRESS. The flag says that the message about a
-- failure is printed.
pub kheap_init : Kernel → List ℕ → Option (Bool × Kernel)
kheap_init k entries = do
  let total_table_entries = heap_size_bytes / block_size
  let table : Table = record { entries = entries; total = total_table_entries }
  (res, heap) ← create k.heap heap_address (heap_address + heap_size_bytes) table
  some (is_neg res, record k { heap = heap })

pub kmalloc : Kernel → ℕ → Option (ℕ × Kernel)
kmalloc k size = do (ptr, heap) ← malloc k.heap size; some (ptr, record k { heap = heap })

-- The null pointer is handed on; other memory is cleared.
pub kzalloc : Kernel → ℕ → Option (ℕ × Kernel)
kzalloc k size = do
  (ptr, k') ← kmalloc k size
  if ptr == 0 then some (0, k') else some (ptr, record k' { memory = fill k'.memory ptr 0 size })

pub kfree : Kernel → ℕ → Option Kernel
kfree k ptr = do heap ← free k.heap ptr; some (record k { heap = heap })
