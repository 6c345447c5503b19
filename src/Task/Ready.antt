-- ===== src/Task/Ready.antt =====
-- What `copy_string_from_task` relies on, and what it leaves.
use guava_os_pro.Prelude.{ℕ, ◌+◌, ◌^◌, ◌≤◌, ◌<◌, ◌≡◌, ◌≢◌, ◌⊎◌}
use guava_os_pro.Paging.{page_size}
use guava_os_pro.Paging.Slots.{IsDirectory, slot}
use guava_os_pro.Paging.Allocator.{Allocator, IsAllocator}
use guava_os_pro.Paging.Creation.{switch}
use guava_os_pro.Task.Machine.{Machine, translate}

-- What a copy relies on. The kernel's directory is loaded and maps every page to itself; the
-- directory of the task is made of pages of its own, and its tables hold neither chunk. The string's
-- pages and the destination are apart from the page `tmp` that the copy goes through.
pub record IsReady {S : Type 0} (v : Machine S) (task virt phys max tmp : ℕ) : Type 0 where
  pub chunk : ℕ
  pub chunk_is : (v.tasks.store task).page_directory ≡ chunk
  pub task_not_null : task ≢ 0
  pub directory : IsDirectory v.space.words (v.space.words chunk)
  pub loaded : v.mmu.loaded ≡ v.space.words v.kernel_chunk
  pub kernel : (x : ℕ) → x < 2 ^ 32 → translate v.space.words (v.space.words v.kernel_chunk) x ≡ x
  pub chunk_apart : slot v.space.words (v.space.words chunk) tmp ≢ chunk
  pub kernel_apart : slot v.space.words (v.space.words chunk) tmp ≢ v.kernel_chunk
  pub string_in_space : virt + max ≤ 2 ^ 32
  pub string_apart :
      (i : ℕ)
      → i < max
      → let p = translate v.space.words (v.space.words chunk) (virt + i) in
        ((virt + i < tmp) ⊎ (tmp + page_size ≤ virt + i)) × ((p < tmp) ⊎ (tmp + page_size ≤ p))
  pub target_in_space : phys + max ≤ 2 ^ 32
  pub target_apart : (phys + max ≤ tmp) ⊎ (tmp + page_size ≤ phys)

module _ {S : Type 0} {a : Allocator S} (laws : IsAllocator a) where
  -- What is left of a machine after a string of `k` characters is copied.
  pub record StringCopied (v : Machine S) (directory virt phys k max tmp : ℕ) (v' : Machine S)
      : Type 0 where
    pub characters :
        (i : ℕ)
        → i < k
        → v'.bytes (phys + i) ≡ v.bytes (translate v.space.words directory (virt + i))
    pub terminator : v'.bytes (phys + k) ≡ 0
    pub others :
        (x : ℕ)
        → (x < phys) ⊎ (phys + max ≤ x)
        → (x < tmp) ⊎ (tmp + page_size ≤ x)
        → v'.bytes x ≡ v.bytes x
    pub words : v'.space.words ≡ v.space.words
    pub mmu : v'.mmu ≡ switch v.space.words v.kernel_chunk
    pub held : (q : ℕ) → laws.held v'.space.heap q ≡ laws.held v.space.heap q
