-- ===== src/Paging/Slots.antt =====
-- Where the entry of a virtual address lies, and which addresses share one: none.
use guava_os_pro.Prelude.{
  ℕ, ◌+◌, ◌*◌, ◌/◌, ◌%◌, ◌^◌, ◌<◌, ◌≡◌, ◌≢◌, sym, ap, arith, bit_and, ne→==_false,
}
use native.Mathlib.Decide.{ℕ_discrete}
use guava_os_pro.Prelude.Bits.{and_high, and_low}
use guava_os_pro.Paging.{Words, store, page_size, entries_per_table, table_at}

-- The directory and its 1024 tables are pages of their own.
pub record IsDirectory (m : Words) (directory : ℕ) : Type 0 where
  pub aligned : directory % page_size ≡ 0
  pub apart : (i : ℕ) → i < 1024 → table_at m directory i ≢ directory
  pub distinct :
      (i j : ℕ) → i < 1024 → j < 1024 → i ≢ j → table_at m directory i ≢ table_at m directory j

abbrev pub directory_index : ℕ → ℕ
directory_index virt = virt / (entries_per_table * page_size)

abbrev pub table_index : ℕ → ℕ
table_index virt = virt % (entries_per_table * page_size) / page_size

-- The address of the entry for an aligned virtual address.
unfoldable pub slot : Words → ℕ → ℕ → ℕ
slot m directory virt = table_at m directory (directory_index virt) + 4 * table_index virt

mask_pages : (e : ℕ) → bit_and e 0xfffff000 ≡ bit_and (e / 4096) 0xfffff * 4096
mask_pages e = and_high 12 e 0xfffff

-- What the mask leaves of a 32-bit word is the page that it lies in.
pub mask_page_lem : (e : ℕ) → e < 2 ^ 32 → bit_and e 0xfffff000 ≡ e / 4096 * 4096
mask_page_lem e h = omega (arith, mask_pages e, and_low 20 (e / 4096))

pub table_at-aligned : (m : Words) (directory i : ℕ) → table_at m directory i % page_size ≡ 0
unfolding table_at
table_at-aligned m directory i = omega (arith, mask_pages (m (directory + 4 * i)))

module _ {m : Words} {directory : ℕ} (d : IsDirectory m directory) where
  -- No entry lies in the directory itself.
  pub slot-ne : (virt i : ℕ) → virt < 2 ^ 32 → i < 1024 → slot m directory virt ≢ directory + 4 * i
  unfolding slot
  slot-ne virt i h k e =
      d.apart (directory_index virt) (omega arith)
        (omega (arith, table_at-aligned m directory (directory_index virt), d.aligned))

  -- Two pages have two entries.
  pub slot-injective :
      (v w : ℕ)
      → v < 2 ^ 32
      → w < 2 ^ 32
      → v % page_size ≡ 0
      → w % page_size ≡ 0
      → v ≢ w
      → slot m directory v ≢ slot m directory w
  unfolding slot
  slot-injective v w hv hw av aw ne e = elim (ℕ_discrete (directory_index v) (directory_index w)) [
    | yes same ↦ ne (omega (arith, ap (table_at m directory) same))
    | no other ↦
        d.distinct (directory_index v) (directory_index w) (omega arith) (omega arith) other (
          omega (
            arith,
            table_at-aligned m directory (directory_index v),
            table_at-aligned m directory (directory_index w),
          ))
  ]

  -- A store to an entry leaves the directory, and so every table, where it was.
  pub table_at-store :
      (virt val i : ℕ)
      → virt < 2 ^ 32
      → i < 1024
      → table_at (store m (slot m directory virt) val) directory i ≡ table_at m directory i
  unfolding table_at
  table_at-store virt val i h k =
      rw (ne→==_false (directory + 4 * i) (slot m directory virt) (λ e. slot-ne virt i h k (sym e)))

  pub IsDirectory-store :
      (virt val : ℕ) → virt < 2 ^ 32 → IsDirectory (store m (slot m directory virt) val) directory
  IsDirectory-store virt val h = record {
    aligned = d.aligned;
    apart = λ i k. rw (table_at-store virt val i h k) (d.apart i k);
    distinct = λ i j k l ne.
        rw (table_at-store virt val i h k, table_at-store virt val j h l) (d.distinct i j k l ne);
  }

  pub slot-store :
      (v virt val : ℕ)
      → v < 2 ^ 32
      → virt < 2 ^ 32
      → slot (store m (slot m directory virt) val) directory v ≡ slot m directory v
  unfolding slot
  slot-store v virt val h k = rw (table_at-store virt val (directory_index v) k (omega arith))
