-- ===== src/Process/Tests.antt =====
-- A table of processes with two of them, on a heap that is used up, and a program that is mapped.
use guava_os_pro.Prelude.{
  if◌then◌else◌, ◌==◌, arith, ℕ, ◌≡◌, refl, Option, none, some, List, [], ◌∷◌, replicate,
}
use guava_os_pro.Status.{enomem}
use guava_os_pro.Paging.Allocator.{Allocator}
use guava_os_pro.Task.{ready}
use guava_os_pro.Task.Machine.{Machine, kzalloc, view, clear_at}
use guava_os_pro.Prelude.Int.{pos}
use guava_os_pro.Task.Example.{tables, task-IsDirectory, chunk_apart}
use guava_os_pro.Process.Image.{Image, map_memory_lem}
use guava_os_pro.Process.{
  process_bytes, map_memory, Process, System, empty_process, get_free_slot, free_slot_loop,
  process_get, load, load_in, load_for_slot, load_new, load_switch,
}

abbrev slots : List (Option ℕ)
slots = some 0x1000000 ∷ some 0x1002000 ∷ replicate 10 none

-- Nothing is left to give out.
abbrev used_up : Allocator ℕ
used_up = record { malloc = λ s size. some (0, s); free = λ s ptr. some s }

abbrev machine : Machine ℕ
machine = record {
  tasks = record { store = λ q. ready 0x4000 9; current = 7; head = 7; tail = 7 };
  space = record { heap = 0; words = λ a. 0 };
  bytes = λ a. 0;
  mmu = record { loaded = 0x1000; current_directory = 0x1000 };
  segments = 0x10;
  kernel_chunk = 0x3000;
}

abbrev system : System ℕ ℕ
system = record {
  machine = machine;
  files = record {
    filesystems = [];
    descriptors = [];
    disk_filesystem = none;
    world = record { left = 10; volume = 0 };
  };
  store = λ q. empty_process;
  processes = slots;
  current = 0x1000000;
}

abbrev filename : List ℕ
filename = b'0' ∷ b':' ∷ b'/' ∷ b'b' ∷ 0 ∷ []

-- The process is allocated, but there is no filesystem on the disk to open the program's file.
abbrev one_left : Allocator ℕ
one_left = record { malloc = λ s size. some (0x1004000, s); free = λ s ptr. some s }

abbrev with_process : System ℕ ℕ
with_process = record system {
  machine = record machine {
    bytes = clear_at (view machine) 0x1004000 process_bytes machine.bytes;
  };
  files = record system.files { world = record { left = 7; volume = 0 } };
  store = λ q. if q == 0x1004000 then empty_process else system.store q;
}

load_switch_fails : load_switch used_up system filename ≡ some (enomem, none, system)
unfolding load_switch load load_in load_for_slot load_new get_free_slot free_slot_loop process_get
    kzalloc
load_switch_fails = refl

abbrev loaded : Machine ℕ
loaded = record machine { space = record { heap = 0; words = tables } }

-- A program of 5000 bytes.
abbrev program : Process
program = record empty_process { task = 7; ptr = 0x1004000; size = 5000; stack = 0x1006000 }

map_memory_lem_example :
    let r = map_memory loaded program in
    (r.0 ≡ pos 0) × Image tables 0x2000 0x1004000 5000 0x1006000 r.1.space.words
map_memory_lem_example =
    map_memory_lem loaded program 0x4000 0x2000 refl refl task-IsDirectory chunk_apart refl refl
      (omega arith) (omega arith) (omega arith)
