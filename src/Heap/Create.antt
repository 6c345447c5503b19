-- ===== src/Heap/Create.antt =====
-- `heap_create`: what it accepts, and what it leaves behind when it refuses.
use guava_os_pro.Prelude.{
  ℕ, ◌+◌, ◌*◌, ◌-◌, ◌/◌, ◌%◌, ◌^◌, ◌<◌, ◌≡◌, ◌≢◌, ◌⊎◌, sym, some, List, arith, length, replicate,
}
use guava_os_pro.Prelude.Int.{pos}
use guava_os_pro.Memory.Laws.{memset_whole}
use guava_os_pro.Heap.{Table, Heap, block_size, create}
use guava_os_pro.Heap.Regions.{unused, encode-replicate, blocks-replicate}
use guava_os_pro.Heap.Fill.{IsHeap}
use guava_os_pro.Status.{einvarg}

-- Given block-aligned bounds with `n` blocks between them, addresses that are not null and do not
-- wrap, and a table of `n` entries, `heap_create` returns 0 and makes a heap whose blocks are all
-- free.
pub create-IsHeap :
    (old : Heap) (ptr n : ℕ) (es : List ℕ)
    → ptr % block_size ≡ 0
    → 0 < ptr
    → ptr + n * block_size < 2 ^ 32
    → n * block_size < 2 ^ 31
    → length es ≡ n
    → let h : Heap = record {
      table = record { entries = replicate n 0; total = n };
      saddr = ptr;
    } in
      (create old ptr (ptr + n * block_size) (record { entries = es; total = n }) ≡ some (pos 0, h))
      × IsHeap h (replicate n unused)
unfolding create
create-IsHeap old ptr n es aligned not_null no_wrap small size = (
  ground (arith, memset_whole n es),
  record {
    entries = sym (encode-replicate n);
    total = sym (blocks-replicate n);
    not_null = not_null;
    no_wrap = rw (blocks-replicate n) no_wrap;
    small = rw (blocks-replicate n) small;
  },
)

-- A bound that is not block-aligned is refused with -EINVARG and `*heap` is not touched. A table
-- whose size is not the number of blocks is refused with -EINVARG too, but `*heap` has then been
-- set to the bounds and the table, whose entries are not cleared.
pub create_rejects :
    (old : Heap) (ptr end : ℕ) (table : Table)
    → (((ptr % block_size ≢ 0) ⊎ (end % block_size ≢ 0))
        → create old ptr end table ≡ some (einvarg, old))
      × (ptr % block_size ≡ 0
          → end % block_size ≡ 0
          → table.total ≢ (end + 2 ^ 32 - ptr) % 2 ^ 32 / block_size
          → create old ptr end table ≡ some (einvarg, record { table = table; saddr = ptr }))
unfolding create
create_rejects old ptr end table = (λ h. ground arith, λ h k l. ground arith)
