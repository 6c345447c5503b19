-- ===== src/Boot/Start.antt =====
-- From an untouched heap table to paging: what `kernel_main` can rely on once paging is on.
use guava_os_pro.Prelude.{
  ℕ, ◌%◌, ◌^◌, ◌<◌, ◌≡◌, refl, arith, ap, ◌∙◌, true, some, length, bit_or, ◌>>=◌,
}
use guava_os_pro.Heap.{Heap}
use guava_os_pro.Kheap.Start.{blank_heap, kheap_init_lem, blank_heap-Valid, room-blank_heap}
use guava_os_pro.Kheap.Pages.{Valid, room, heap_allocator, heap_laws}
use guava_os_pro.Paging.{page_size, get}
use guava_os_pro.Paging.Slots.{IsDirectory}
use guava_os_pro.Paging.Allocator.{Space}
use guava_os_pro.Paging.Creation.{new_4gb, switch}
use guava_os_pro.Paging.NewDirectory.{Created, new_4gb_lem}
use guava_os_pro.Task.Machine.{paging_switch}
use guava_os_pro.Boot.{Layout, Boot, start_heap, start_paging}

-- The kernel's directory is loaded and is made of pages of its own, every page leads to itself with
-- all flags, and the heap has room for all but the directory's 1026 pages.
pub record IsPaging {D : Type 0} (s : Boot D) : Type 0 where
  pub enabled : s.paging_enabled ≡ true
  pub loaded :
      s.system.machine.mmu.loaded ≡ s.system.machine.space.words s.system.machine.kernel_chunk
  pub well_formed : IsDirectory s.system.machine.space.words s.system.machine.mmu.loaded
  pub identity :
      (w : ℕ)
      → w < 2 ^ 32
      → w % page_size ≡ 0
      → get s.system.machine.mmu.loaded w s.system.machine.space.words ≡ bit_or w 7
  pub heap : Valid s.system.machine.space.heap
  pub room_left : room s.system.machine.space.heap ≡ 24574

module _ {D : Type 0} where
  abbrev heap_started : Boot D → Boot D
  heap_started s = record s {
    system = record s.system {
      machine = record s.system.machine {
        space = record s.system.machine.space { heap = blank_heap };
      };
    };
  }

  abbrev paging_started : Boot D → ℕ → Space Heap → Boot D
  paging_started s chunk space = record s {
    system = record s.system {
      machine = record s.system.machine {
        space = space;
        kernel_chunk = chunk;
        mmu = switch space.words chunk;
      };
    };
    paging_enabled = true;
  }

  start_heap_lem :
      (l : Layout) (s : Boot D)
      → length l.heap_table ≡ 25600
      → start_heap l s ≡ some (heap_started s)
  unfolding start_heap
  start_heap_lem l s size = rw (
      kheap_init_lem
        (record { heap = s.system.machine.space.heap; memory = s.system.machine.bytes })
        l.heap_table size)

  start_paging_lem :
      (s : Boot D) (chunk : ℕ) (space : Space Heap)
      → new_4gb heap_allocator 7 s.system.machine.space ≡ some (chunk, space)
      → start_paging s ≡ some (paging_started s chunk space)
  unfolding start_paging paging_switch
  start_paging_lem s chunk space run = rw run

  -- What a new directory says of the machine that it is loaded on.
  paging_started-IsPaging :
      (s : Boot D) {w : Space Heap} {chunk : ℕ} {space : Space Heap}
      → Created heap_laws w 7 chunk space
      → room w.heap ≡ 25600
      → IsPaging (paging_started s chunk space)
  unfolding switch
  paging_started-IsPaging s {w} {chunk} {space} c all = record {
    enabled = refl;
    loaded = refl;
    well_formed = rw c.stored c.well_formed;
    identity = λ x h k. rw c.stored (c.identity x h k);
    heap = c.Valid-after;
    room_left = omega (arith, c.room_after);
  }

  -- With a heap table of 25600 bytes, whatever they are, starting the heap and then paging succeeds;
  -- the kernel's directory is then loaded, and maps every page of the address space to itself.
  pub start_paging-start_heap :
      (l : Layout) (s : Boot D)
      → length l.heap_table ≡ 25600
      → (s' : Boot D) × ((start_heap l s >>= start_paging) ≡ some s') × IsPaging s'
  start_paging-start_heap l s size =
      let w : Space Heap = record s.system.machine.space { heap = blank_heap } in
      let (chunk, space, run, c) =
        new_4gb_lem heap_laws w 7 blank_heap-Valid (omega (arith, room-blank_heap)) (omega arith) in
      (
        paging_started (heap_started s) chunk space,
        ap (λ r. r >>= start_paging) (start_heap_lem l s size)
            ∙ start_paging_lem (heap_started s) chunk space run,
        paging_started-IsPaging (heap_started s) c room-blank_heap,
      )
