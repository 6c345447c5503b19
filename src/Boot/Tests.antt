-- ===== src/Boot/Tests.antt =====
-- The kernel with an untouched table of its heap.
use guava_os_pro.Prelude.{ℕ, ◌≡◌, none, some, [], replicate, false, ◌>>=◌, length-replicate}
use guava_os_pro.Heap.{Heap}
use guava_os_pro.Boot.{Layout, Boot, start_heap, start_paging}
use guava_os_pro.Boot.Start.{IsPaging, start_paging-start_heap}
use guava_os_pro.Process.{empty_process}
use guava_os_pro.Task.{ready}

abbrev layout : Layout
layout = record {
  video = λ a. 0;
  heap_table = replicate 25600 0xcc;
  tss_address = 0x105000;
  interrupt_pointer_table = replicate 512 0x102000;
  idt_zero = 0x102100;
  isr80h_wrapper = 0x102200;
  command0_sum = λ frame s. some (3, s);
  command1_print = λ frame s. some (0, s);
  ps2_get = 0x106000;
}

abbrev no_heap : Heap
no_heap = record { table = record { entries = []; total = 0 }; saddr = 0 }

abbrev untouched : Boot ℕ
untouched = record {
  terminal = record { cells = λ a. 0; row = 0; col = 0 };
  gdt_real = [];
  tss = record { esp0 = 0; ss0 = 0 };
  idt_descriptors = [];
  commands = replicate 1024 none;
  keyboards = record {
    store = λ q. record { init = none; name = []; next = 0 };
    head = 0;
    last = 0;
    board = record { callbacks = replicate 512 none; device = 0 };
  };
  system = record {
    machine = record {
      tasks = record { store = λ q. ready 0 0; current = 0; head = 0; tail = 0 };
      space = record { heap = no_heap; words = λ a. 0xdeadbeef };
      bytes = λ a. 0;
      mmu = record { loaded = 0; current_directory = 0 };
      segments = 0x10;
      kernel_chunk = 0;
    };
    files = record {
      filesystems = [];
      descriptors = [];
      disk_filesystem = none;
      world = record {
        left = 100;
        volume = record {
          device = λ lba. replicate 512 0;
          mounted = none;
          fresh = 1;
          opened = λ h. none;
        };
      };
    };
    store = λ q. empty_process;
    processes = replicate 12 none;
    current = 0;
  };
  paging_enabled = false;
}

start_paging-start_heap_example :
    (s : Boot ℕ) × ((start_heap layout untouched >>= start_paging) ≡ some s) × IsPaging s
start_paging-start_heap_example =
    start_paging-start_heap layout untouched (length-replicate {A = ℕ} 25600 0xcc)
