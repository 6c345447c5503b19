-- ===== src/Process/Image.antt =====
-- `process_map_memory`: what a new task sees of memory.
use guava_os_pro.Prelude.{
  ℕ, ◌+◌, ◌-◌, ◌*◌, ◌/◌, ◌%◌, ◌^◌, ◌≤◌, ◌<◌, ◌≡◌, ◌≢◌, ◌⊎◌, inl, inr, refl, ◌∙◌, arith, bit_or,
}
use guava_os_pro.Prelude.Int.{pos}
use guava_os_pro.Paging.{Words, page_size, get, align_address}
use guava_os_pro.Paging.Slots.{IsDirectory, slot}
use guava_os_pro.Paging.Mapping.{align_address_lem}
use guava_os_pro.Paging.Range.{Mapped, map_to-Mapped}
use guava_os_pro.Paging.Untouched.{map_to-untouched}
use guava_os_pro.Paging.Creation.{get_directory}
use guava_os_pro.Task.{program_address}
use guava_os_pro.Task.Machine.{Machine}
use guava_os_pro.Process.{Process, map_at, map_binary, map_memory, stack_end, stack_size}

-- The pages of the program lead to its data, those of its stack to the stack's memory, both with all
-- the flags, and every other page leads where it did.
pub record Image (m : Words) (directory ptr size stack : ℕ) (m' : Words) : Type 0 where
  pub well_formed : IsDirectory m' directory
  pub program :
      (w : ℕ)
      → w % page_size ≡ 0
      → program_address ≤ w
      → w < program_address + size
      → get directory w m' ≡ bit_or (ptr + (w - program_address)) 7
  pub stack_pages :
      (w : ℕ)
      → w % page_size ≡ 0
      → stack_end ≤ w
      → w < stack_end + stack_size
      → get directory w m' ≡ bit_or (stack + (w - stack_end)) 7
  pub elsewhere :
      (w : ℕ)
      → w < 2 ^ 32
      → w % page_size ≡ 0
      → (w < stack_end)
        ⊎ (((stack_end + stack_size ≤ w) × (w < program_address))
            ⊎ (program_address + size + page_size ≤ w))
      → get directory w m' ≡ get directory w m

-- The end of a range that is rounded up to a page.
module _ (phys size : ℕ) (fits : phys + size + 4095 < 2 ^ 32) where
  abbrev end : ℕ
  end = align_address ((phys + size) % 2 ^ 32)

  end-bounds : (end % page_size ≡ 0) × (phys + size ≤ end) × (end < phys + size + page_size)
  end-bounds =
      let whole : (phys + size) % 2 ^ 32 ≡ phys + size = omega arith in
      let (aligned, above, least) = align_address_lem (phys + size) fits in
      rw whole (
        aligned,
        above,
        omega (
          arith,
          least ((phys + size + 4095) / page_size * page_size) (omega arith) (omega arith),
        ),
      )

  pages :
      phys % page_size ≡ 0
      → (size ≤ (end - phys) / page_size * page_size)
        × ((end - phys) / page_size * page_size < size + page_size)
  pages h = let (aligned, above, below) = end-bounds in (omega (arith, h), omega (arith, h))

module _ {S : Type 0} (m : Machine S) (chunk directory virt phys size : ℕ)
    (is : m.space.words chunk ≡ directory) (d : IsDirectory m.space.words directory)
    (a : virt % page_size ≡ 0) (b : phys % page_size ≡ 0) (fits : phys + size + 4095 < 2 ^ 32)
    (in_space : virt + size + 4095 < 2 ^ 32) where
  map_at-Mapped :
      Mapped m.space.words directory virt phys
        ((end phys size fits - phys) / page_size)
        7
        (map_at m chunk virt phys size).space.words
  unfolding map_at get_directory
  map_at-Mapped =
      let (aligned, above, below) = end-bounds phys size fits in
      rw is
        (map_to-Mapped d virt phys (end phys size fits) 7 a b aligned (omega arith) (omega arith)
          (omega (arith, b))).1

  map_at-untouched :
      (x : ℕ)
      → ((v : ℕ) → v < 2 ^ 32 → x ≢ slot m.space.words directory v)
      → (map_at m chunk virt phys size).space.words x ≡ m.space.words x
  unfolding map_at get_directory
  map_at-untouched x ne =
      let (aligned, above, below) = end-bounds phys size fits in
      rw is (
        map_to-untouched directory 7 x d virt phys (end phys size fits) a b aligned (omega arith)
          (omega arith) ne)

-- For a task with a directory of pages of its own whose tables do not hold its chunk, and for data
-- and a stack at page boundaries, `process_map_memory` returns 0, and the task sees its program at
-- GUAVAOS_PROGRAM_VIRTUAL_ADDRESS and its stack below it; pages away from both lead where they did.
pub map_memory_lem :
    {S : Type 0} (m : Machine S) (p : Process) (chunk directory : ℕ)
    → (m.tasks.store p.task).page_directory ≡ chunk
    → m.space.words chunk ≡ directory
    → IsDirectory m.space.words directory
    → ((v : ℕ) → v < 2 ^ 32 → chunk ≢ slot m.space.words directory v)
    → p.ptr % page_size ≡ 0
    → p.stack % page_size ≡ 0
    → p.ptr + p.size + 4095 < 2 ^ 32
    → program_address + p.size + 4095 < 2 ^ 32
    → p.stack + stack_size + 4095 < 2 ^ 32
    → let r = map_memory m p in
      (r.0 ≡ pos 0) × Image m.space.words directory p.ptr p.size p.stack r.1.space.words
unfolding map_memory map_binary
map_memory_lem {S} m p chunk directory task_chunk is d apart a b fits in_space stack_fits =
    rw task_chunk (
      refl,
      record {
        well_formed = second.well_formed;
        program = λ w h k l.
            second.outside w (omega arith) h (inr (omega (arith, stack_pages_are)))
            ∙ first.inside w (omega arith) h k (omega (arith, data_pages_are));
        stack_pages = λ w h k l. second.inside w (omega arith) h k (omega (arith, stack_pages_are));
        elsewhere = λ w h k l. elim l [
          | inl l ↦ second.outside w h k (inl l) ∙ first.outside w h k (inl (omega arith))
          | inr (inl l) ↦
              second.outside w h k (inr (omega (arith, stack_pages_are, l.0)))
              ∙ first.outside w h k (inl l.1)
          | inr (inr l) ↦
              second.outside w h k (inr (omega (arith, stack_pages_are)))
              ∙ first.outside w h k (inr (omega (arith, data_pages_are)))
        ];
      },
    )
  where
    data_pages_are :
        (p.size ≤ (end p.ptr p.size fits - p.ptr) / page_size * page_size)
        × ((end p.ptr p.size fits - p.ptr) / page_size * page_size < p.size + page_size)
    data_pages_are = pages p.ptr p.size fits a

    stack_pages_are :
        (end p.stack stack_size stack_fits - p.stack) / page_size * page_size ≡ stack_size
    stack_pages_are = let (low, high) = pages p.stack stack_size stack_fits b in omega arith

    m1 : Machine S
    m1 = map_at m chunk program_address p.ptr p.size

    first :
        Mapped m.space.words directory program_address p.ptr
          ((end p.ptr p.size fits - p.ptr) / page_size)
          7
          m1.space.words
    first = map_at-Mapped m chunk directory program_address p.ptr p.size is d refl a fits in_space

    kept : m1.space.words chunk ≡ directory
    kept =
        map_at-untouched m chunk directory program_address p.ptr p.size is d refl a fits in_space
          chunk apart
        ∙ is

    second :
        Mapped m1.space.words directory stack_end p.stack
          ((end p.stack stack_size stack_fits - p.stack) / page_size)
          7
          (map_at m1 chunk stack_end p.stack stack_size).space.words
    second =
        map_at-Mapped m1 chunk directory stack_end p.stack stack_size kept first.well_formed refl b
          stack_fits (omega arith)
