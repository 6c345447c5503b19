-- ===== src/Task/Example.antt =====
-- Page tables on which tests run. The kernel's directory is the page at 0x1000 with tables from
-- 0x100000 on, that of a task is the page at 0x2000 with tables from 0x800000 on; both map every page
-- to itself. The chunks are the words at 0x3000 and 0x4000.
use guava_os_pro.Prelude.{
  ℕ, ◌+◌, ◌-◌, ◌*◌, ◌/◌, ◌%◌, ◌^◌, ◌<◌, ◌≡◌, ◌≢◌, refl, ap, ◌∙◌, arith, ltb, bit_and, ◌==◌,
  if◌then◌else◌,
}
use guava_os_pro.Paging.{Words, table_at}
use guava_os_pro.Paging.Slots.{IsDirectory, slot, mask_page_lem}
use guava_os_pro.Paging.Mapping.{get_lem}
use guava_os_pro.Task.Machine.{translate}

abbrev pub tables : Words
tables a =
    if a == 0x3000
    then 0x1000
    else if a == 0x4000
    then 0x2000
    else if ltb a 0x2000
    then (a - 0x1000) / 4 * 4096 + 0x100000
    else if ltb a 0x3000
    then (a - 0x2000) / 4 * 4096 + 0x800000
    else if ltb a 0x500000
    then (a - 0x100000) / 4 * 4096
    else (a - 0x800000) / 4 * 4096

kernel_table : (i : ℕ) → i < 1024 → table_at tables 0x1000 i ≡ 0x100000 + 4096 * i
unfolding table_at
kernel_table i h =
    ap (λ e. bit_and e 0xfffff000) (at i h)
    ∙ mask_page_lem (0x100000 + 4096 * i) (omega arith)
    ∙ omega arith
  where
    at : (j : ℕ) → j < 1024 → tables (0x1000 + 4 * j) ≡ 0x100000 + 4096 * j
    at j k = ground arith

pub task_table : (i : ℕ) → i < 1024 → table_at tables 0x2000 i ≡ 0x800000 + 4096 * i
unfolding table_at
task_table i h =
    ap (λ e. bit_and e 0xfffff000) (at i h)
    ∙ mask_page_lem (0x800000 + 4096 * i) (omega arith)
    ∙ omega arith
  where
    at : (j : ℕ) → j < 1024 → tables (0x2000 + 4 * j) ≡ 0x800000 + 4096 * j
    at j k = ground arith

pub task-IsDirectory : IsDirectory tables 0x2000
task-IsDirectory = record {
  aligned = refl;
  apart = λ i h. rw (task_table i h) (omega arith);
  distinct = λ i j h k ne. rw (task_table i h, task_table j k) (λ e. ne (omega arith));
}

kernel_entry : (p : ℕ) → p < 2 ^ 20 → tables (0x100000 + 4 * p) ≡ p * 4096
kernel_entry p k = ground arith

pub kernel_identity : (x : ℕ) → x < 2 ^ 32 → translate tables 0x1000 x ≡ x
unfolding translate slot
kernel_identity x h =
    rw
      (
        get_lem tables 0x1000 (x / 4096 * 4096) (omega arith),
        kernel_table (x / 4096 * 4096 / (1024 * 4096)) (omega arith),
        at (x / 4096) (omega arith),
      )
      (omega arith)
  where
    at :
        (p : ℕ)
        → p < 2 ^ 20
        → tables
            (0x100000 + 4096 * (p * 4096 / (1024 * 4096)) + 4 * (p * 4096 % (1024 * 4096) / 4096))
          ≡ p * 4096
    at p k =
        ap tables (
          let e : 0x100000
                + 4096 * (p * 4096 / (1024 * 4096))
                + 4 * (p * 4096 % (1024 * 4096) / 4096)
              ≡ 0x100000 + 4 * p =
            omega arith in
          e)
        ∙ kernel_entry p k

task_entry : (p : ℕ) → p < 2 ^ 20 → tables (0x800000 + 4 * p) ≡ p * 4096
task_entry p k = ground arith

pub task_identity : (x : ℕ) → x < 2 ^ 32 → translate tables 0x2000 x ≡ x
unfolding translate slot
task_identity x h =
    rw
      (
        get_lem tables 0x2000 (x / 4096 * 4096) (omega arith),
        task_table (x / 4096 * 4096 / (1024 * 4096)) (omega arith),
        at (x / 4096) (omega arith),
      )
      (omega arith)
  where
    at :
        (p : ℕ)
        → p < 2 ^ 20
        → tables
            (0x800000 + 4096 * (p * 4096 / (1024 * 4096)) + 4 * (p * 4096 % (1024 * 4096) / 4096))
          ≡ p * 4096
    at p k =
        ap tables (
          let e : 0x800000
                + 4096 * (p * 4096 / (1024 * 4096))
                + 4 * (p * 4096 % (1024 * 4096) / 4096)
              ≡ 0x800000 + 4 * p =
            omega arith in
          e)
        ∙ task_entry p k

-- The word of the task's chunk is no entry.
pub chunk_apart : (v : ℕ) → v < 2 ^ 32 → 0x4000 ≢ slot tables 0x2000 v
unfolding slot
chunk_apart v h e = omega (arith, task_table (v / (1024 * 4096)) (omega arith))
