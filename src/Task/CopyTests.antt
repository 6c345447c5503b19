-- ===== src/Task/CopyTests.antt =====
-- A message that a program passes to the kernel, on a heap of two blocks.
use guava_os_pro.Prelude.{
  ℕ, ◌+◌, ◌<◌, ◌≡◌, refl, ap, arith, some, inl, inr, [], ◌∷◌, ◌==◌, if◌then◌else◌,
}
use guava_os_pro.Prelude.Int.{pos}
use guava_os_pro.Memory.Flat.{Memory}
use guava_os_pro.Heap.{Heap}
use guava_os_pro.Heap.Small.{two_pages, malloc-two_pages}
use guava_os_pro.Heap.Regions.{unused, used}
use guava_os_pro.Kheap.Pages.{heap_allocator, heap_laws, held-changed}
use guava_os_pro.Paging.Slots.{slot}
use guava_os_pro.Paging.Building.{TakenBy}
use guava_os_pro.Task.{ready}
use guava_os_pro.Task.Machine.{Machine, translate, copy_string_from_task}
use guava_os_pro.Task.Example.{tables, task_table, task-IsDirectory, kernel_identity, task_identity}
use guava_os_pro.Task.Strings.{IsString}
use guava_os_pro.Task.Copying.{copy_string_from_task_lem}
use guava_os_pro.Task.Ready.{IsReady, StringCopied}

abbrev pages : Heap
pages = two_pages (0 ∷ 0 ∷ [])

-- The first block is the one that the copy goes through.
abbrev tmp_taken : TakenBy heap_laws pages 16
tmp_taken = record {
  ptr = 0x1000000;
  after = two_pages (0x41 ∷ 0 ∷ []);
  returns = malloc-two_pages;
  aligned = refl;
  not_null = omega arith;
  in_space = omega arith;
  fresh = refl;
  held_after =
      λ q. held-changed pages (0x41 ∷ 0 ∷ []) [] (0 ∷ []) 0 0x41 0x1000000 q refl refl refl;
  Valid-after = (
    used 0 ∷ unused ∷ [],
    record {
      entries = refl;
      total = refl;
      not_null = omega arith;
      no_wrap = omega arith;
      small = omega arith;
    },
    refl,
  );
  room_after = refl;
}

-- "hi" at 0x400000.
abbrev message : Memory
message a = if a == 0x400000 then 104 else if a == 0x400001 then 105 else 0

abbrev running : Machine Heap
running = record {
  tasks = record { store = λ q. ready 0x4000 9; current = 7; head = 7; tail = 7 };
  space = record { heap = pages; words = tables };
  bytes = message;
  mmu = record { loaded = 0x1000; current_directory = 0x1000 };
  segments = 0x10;
  kernel_chunk = 0x3000;
}

slot_is : slot tables 0x2000 0x1000000 ≡ 0x804000
unfolding slot
slot_is = rw (task_table 4 (omega arith)) refl

abbrev ready_to_copy : IsReady running 7 0x400000 0x9000 16 0x1000000
ready_to_copy = record {
  chunk = 0x4000;
  chunk_is = refl;
  task_not_null = λ e. omega arith;
  directory = task-IsDirectory;
  loaded = refl;
  kernel = kernel_identity;
  chunk_apart = λ e. omega (arith, slot_is);
  kernel_apart = λ e. omega (arith, slot_is);
  string_in_space = omega arith;
  string_apart =
      λ i h. (inl (omega arith), inl (omega (arith, task_identity (0x400000 + i) (omega arith))));
  target_in_space = omega arith;
  target_apart = inl (omega arith);
}

letter : (i : ℕ) → i < 2 → 0 < message (0x400000 + i)
letter i h = ground arith

message-IsString : IsString (translate tables 0x2000) 0x400000 2 15 message
message-IsString = record {
  fits = omega arith;
  nonzero =
      λ i h e. omega (arith, ap message (task_identity (0x400000 + i) (omega arith)), letter i h);
  ends = inr (rw (task_identity 0x400002 (omega arith)) refl);
}

copy_string_from_task_lem_example :
    (v : Machine Heap) × (copy_string_from_task heap_allocator running 7 0x400000 0x9000 16
      ≡ some (pos 0, v))
    × StringCopied heap_laws running 0x2000 0x400000 0x9000 2 16 0x1000000 v
copy_string_from_task_lem_example =
    copy_string_from_task_lem heap_laws running 7 0x400000 0x9000 16 2 tmp_taken ready_to_copy
      (omega arith) (omega arith) message-IsString
