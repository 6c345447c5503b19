-- ===== src/Paging/Tests.antt =====
-- A directory whose tables lie behind it in memory.
use guava_os_pro.Prelude.{ℕ, ◌+◌, ◌-◌, ◌*◌, ◌/◌, ◌<◌, ◌≡◌, refl, arith}
use guava_os_pro.Prelude.Int.{pos}
use guava_os_pro.Paging.{Words, page_size, table_at, map_to}
use guava_os_pro.Paging.Slots.{IsDirectory, mask_page_lem}
use guava_os_pro.Paging.Range.{Mapped, map_to-Mapped}

-- The directory is the page at 4096; its entry `i` leads to the page at `8192 + 4096 * i`.
abbrev layout : Words
layout a = (a - 4096) / 4 * 4096 + 8192

layout_table : (i : ℕ) → i < 1024 → table_at layout 4096 i ≡ 8192 + 4096 * i
unfolding table_at
layout_table i h =
    omega (arith, mask_page_lem ((4096 + 4 * i - 4096) / 4 * 4096 + 8192) (omega arith))

layout-IsDirectory : IsDirectory layout 4096
layout-IsDirectory = record {
  aligned = refl;
  apart = λ i h. rw (layout_table i h) (omega arith);
  distinct = λ i j h k ne. rw (layout_table i h, layout_table j k) (λ e. ne (omega arith));
}

-- Three pages of a program at 0x400000.
map_to-Mapped_example :
    let r = map_to 4096 0x400000 0x1002000 0x1005000 7 layout in
    (r.0 ≡ pos 0)
    × Mapped layout 4096 0x400000 0x1002000 ((0x1005000 - 0x1002000) / page_size) 7 r.1
map_to-Mapped_example =
    map_to-Mapped layout-IsDirectory 0x400000 0x1002000 0x1005000 7 refl refl refl (omega arith)
      (omega arith) (omega arith)
