-- ===== src/Paging/Mapping.antt =====
-- One page: `paging_map`, `paging_set` and `paging_get`.
use native.Mathlib.Decide.{ℕ_discrete}
use guava_os_pro.Prelude.{
  ℕ, ◌+◌, ◌%◌, ◌^◌, ◌≤◌, ◌<◌, ◌≡◌, ◌≢◌, ◌⊎◌, ◌∙◌, arith, bit_or, ◌==◌, if◌then◌else◌, ne→==_false,
  ==_refl,
}
use guava_os_pro.Prelude.Int.{pos}
use guava_os_pro.Paging.{Words, store, page_size, get_indexes, set, map, align_address, get}
use guava_os_pro.Paging.Slots.{
  IsDirectory, directory_index, table_index, slot, slot-injective, slot-store,
}
use guava_os_pro.Status.{einvarg}

get_indexes_lem :
    (v a b : ℕ) → v % page_size ≡ 0 → get_indexes v a b ≡ (pos 0, directory_index v, table_index v)
unfolding get_indexes
get_indexes_lem v a b h = ground arith

pub get_lem :
    (m : Words) (directory v : ℕ) → v % page_size ≡ 0 → get directory v m ≡ m (slot m directory v)
unfolding get slot
get_lem m directory v h = rw (get_indexes_lem v 0 0 h)

pub set_lem :
    (m : Words) (directory v val : ℕ)
    → v % page_size ≡ 0
    → set directory v val m ≡ (pos 0, store m (slot m directory v) val)
unfolding set slot
set_lem m directory v val h = ground (arith, get_indexes_lem v 0 0 h)

pub map_lem :
    (m : Words) (directory virt phys flags : ℕ)
    → virt % page_size ≡ 0
    → phys % page_size ≡ 0
    → map directory virt phys flags m ≡ (pos 0, store m (slot m directory virt) (bit_or phys flags))
unfolding map
map_lem m directory virt phys flags h k =
    ground (arith, set_lem m directory virt (bit_or phys flags) h)

-- An unaligned virtual or physical address is refused with -EINVARG, and no memory is written.
pub map_rejects :
    (m : Words) (directory virt phys flags : ℕ)
    → (virt % page_size ≢ 0) ⊎ (phys % page_size ≢ 0)
    → map directory virt phys flags m ≡ (einvarg, m)
unfolding map
map_rejects m directory virt phys flags h = ground arith

-- A store to the entry of a page changes what is found at that page, and at no other.
pub get-store :
    {m : Words} {directory : ℕ}
    → IsDirectory m directory
    → (v w val : ℕ) → v < 2 ^ 32
    → w < 2 ^ 32
    → v % page_size ≡ 0
    → w % page_size ≡ 0
    → get directory w (store m (slot m directory v) val)
      ≡ (if w == v then val else get directory w m)
get-store {m} {directory} d v w val hv hw av aw =
    get_lem (store m (slot m directory v) val) directory w aw
    ∙ rw (slot-store d w v val hw hv, get_lem m directory w aw)
        (elim (ℕ_discrete w v) [
          | yes e ↦ rw (e, ==_refl v, ==_refl (slot m directory v))
          | no ne ↦ rw (
            ne→==_false w v ne,
            ne→==_false (slot m directory w) (slot m directory v)
                (slot-injective d w v hw hv aw av ne),
          )
        ])

-- In a directory whose tables are pages of their own, after `paging_set` of a page `paging_get`
-- finds the value at that page, and at every other page what it found before.
pub get-set :
    {m : Words} {directory : ℕ}
    → IsDirectory m directory
    → (v w val : ℕ) → v < 2 ^ 32
    → w < 2 ^ 32
    → v % page_size ≡ 0
    → w % page_size ≡ 0
    → get directory w (set directory v val m).1 ≡ (if w == v then val else get directory w m)
get-set {m} {directory} d v w val hv hw av aw =
    rw (set_lem m directory v val av) (get-store d v w val hv hw av aw)

-- `paging_align_address` is the least page boundary that is not below the pointer, if that lies in
-- the address space.
pub align_address_lem :
    (ptr : ℕ)
    → ptr + 4095 < 2 ^ 32
    → (align_address ptr % page_size ≡ 0)
      × (ptr ≤ align_address ptr)
      × ((b : ℕ) → b % page_size ≡ 0 → ptr ≤ b → align_address ptr ≤ b)
unfolding align_address
align_address_lem ptr h = (ground arith, ground arith, λ b k l. ground arith)
