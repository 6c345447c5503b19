-- ===== src/Task/Copying.antt =====
-- `copy_string_from_task`: the way through the task's page directory and back.
use guava_os_pro.Prelude.{
  ℕ, ◌+◌, ◌-◌, ◌≤◌, ◌<◌, ◌≡◌, ◌⊎◌, inl, inr, refl, sym, ap, ◌∙◌, arith, some, bit_or, ne→==_false,
  ==_refl, lt→leb_false, le→leb,
}
use guava_os_pro.Prelude.Int.{pos}
use native.Mathlib.Decide.{ℕ_discrete}
use guava_os_pro.Status.{einvarg}
use guava_os_pro.Memory.Flat.{Memory}
use guava_os_pro.Paging.{Words, store, page_size, get, set}
use guava_os_pro.Paging.Slots.{slot, slot-store}
use guava_os_pro.Paging.Mapping.{map_lem, get_lem, set_lem}
use guava_os_pro.Paging.Allocator.{Allocator, IsAllocator, Released}
use guava_os_pro.Paging.Building.{TakenBy}
use guava_os_pro.Paging.Creation.{get_directory, switch}
use guava_os_pro.Paging.Filling.{store-other}
use guava_os_pro.Task.Machine.{
  kzalloc, copy_string_from_task, Machine, translate, strncpy_at, clear_at, copy_through,
}
use guava_os_pro.Task.Strings.{
  Copied, IsString, strncpy_at-Copied, clear_at-outside, mapped, translate-mapped, translate-other,
}
use guava_os_pro.Task.Ready.{IsReady, StringCopied}

-- A store that is taken back.
restored : (m : Words) (p v : ℕ) → store (store m p v) p (m p) ≡ m
restored m p v = λ i x. at x i
  where
    at : (x : ℕ) → store (store m p v) p (m p) x ≡ m x
    at x = elim (ℕ_discrete x p) [ yes e ↦ rw (e, ==_refl p) | no ne ↦ rw (ne→==_false x p ne) ]

module _ {S : Type 0} {a : Allocator S} (laws : IsAllocator a) where
  -- The four states of the bytes of memory.
  module _ (v : Machine S) (task virt phys max k : ℕ) (t : TakenBy laws v.space.heap max)
      (r : IsReady v task virt phys max t.ptr) (size : max < page_size) (some_bytes : 0 < max) where
    abbrev words : Words
    words = v.space.words

    abbrev task_directory : ℕ
    task_directory = words r.chunk

    abbrev in_task : ℕ → ℕ
    in_task = translate (mapped words task_directory t.ptr 7) task_directory

    abbrev cleared_bytes : Memory
    cleared_bytes = clear_at (translate words v.mmu.loaded) t.ptr max v.bytes

    abbrev through : Memory
    through = strncpy_at in_task (max - 1) t.ptr virt cleared_bytes

    abbrev final_bytes : Memory
    final_bytes = strncpy_at (translate words (words v.kernel_chunk)) (max - 1) phys t.ptr through

    cleared-outside : (x : ℕ) → (x < t.ptr) ⊎ (t.ptr + page_size ≤ x) → cleared_bytes x ≡ v.bytes x
    cleared-outside x h =
        clear_at-outside (translate words v.mmu.loaded) max t.ptr v.bytes x
          (λ i l e. elim h [ inl b ↦ omega (arith, here i l) | inr b ↦ omega (arith, here i l) ])
      where
        here : (i : ℕ) → i < max → translate words v.mmu.loaded (t.ptr + i) ≡ t.ptr + i
        here i l = rw r.loaded (r.kernel (t.ptr + i) (omega (arith, t.in_space)))

    in_task-string :
        (i : ℕ) → i < max → in_task (virt + i) ≡ translate words task_directory (virt + i)
    in_task-string i h =
        translate-other r.directory t.ptr 7 t.aligned t.in_space (omega arith) (virt + i)
          (omega (arith, r.string_in_space)) (r.string_apart i h).0

    source-apart :
        (i : ℕ)
        → i ≤ max - 1
        → (in_task (virt + i) < t.ptr) ⊎ (t.ptr + page_size ≤ in_task (virt + i))
    source-apart i h = rw (in_task-string i (omega arith)) (r.string_apart i (omega arith)).1

    source-same :
        (i : ℕ)
        → i ≤ max - 1
        → cleared_bytes (in_task (virt + i)) ≡ v.bytes (translate words task_directory (virt + i))
    source-same i h =
        cleared-outside (in_task (virt + i)) (source-apart i h)
        ∙ ap v.bytes (in_task-string i (omega arith))

    first_copy :
        IsString (translate words task_directory) virt k (max - 1) v.bytes
        → Copied in_task t.ptr virt k (max - 1) cleared_bytes through
    first_copy s =
        strncpy_at-Copied in_task (max - 1) t.ptr virt k cleared_bytes
          (λ i h.
            translate-mapped r.directory t.ptr 7 t.aligned t.in_space (omega arith) (t.ptr + i)
              (omega arith) (omega arith))
          (λ i h. elim (source-apart i h) [ inl b ↦ inl b | inr b ↦ inr (omega arith) ])
          (record {
            fits = s.fits;
            nonzero = λ i h e. s.nonzero i h (sym (source-same i (omega (arith, s.fits))) ∙ e);
            ends = elim s.ends [
              | inl e ↦ inl e
              | inr e ↦ inr (source-same k (omega (arith, s.fits)) ∙ e)
            ];
          })

    -- The characters as they stand in the page that the copy goes through.
    from_task :
        (s : IsString (translate words task_directory) virt k (max - 1) v.bytes) (i : ℕ)
        → i < k
        → through (t.ptr + i) ≡ v.bytes (translate words task_directory (virt + i))
    from_task s i h = (first_copy s).characters i h ∙ source-same i (omega (arith, s.fits))

    second_copy :
        IsString (translate words task_directory) virt k (max - 1) v.bytes
        → Copied (translate words (words v.kernel_chunk)) phys t.ptr k (max - 1) through final_bytes
    second_copy s =
        strncpy_at-Copied at (max - 1) phys t.ptr k through
          (λ i h. r.kernel (phys + i) (omega (arith, r.target_in_space)))
          (λ i h. elim r.target_apart [
            | inl b ↦ inr (omega (arith, there i h))
            | inr b ↦ inl (omega (arith, there i h))
          ])
          (record {
            fits = s.fits;
            nonzero = λ i h e.
                s.nonzero i h
                  (sym (ap through (there i (omega (arith, s.fits))) ∙ from_task s i h) ∙ e);
            ends = inr (ap through (there k s.fits) ∙ c.terminator);
          })
      where
        at : ℕ → ℕ
        at = translate words (words v.kernel_chunk)

        c : Copied in_task t.ptr virt k (max - 1) cleared_bytes through
        c = first_copy s

        there : (i : ℕ) → i ≤ max - 1 → at (t.ptr + i) ≡ t.ptr + i
        there i h = r.kernel (t.ptr + i) (omega (arith, t.in_space))

    abbrev old_entry : ℕ
    old_entry = get task_directory t.ptr words

    abbrev words_mapped : Words
    words_mapped = mapped words task_directory t.ptr 7

    abbrev entered : Machine S
    entered = record v {
      space = record { heap = t.after; words = words_mapped };
      bytes = cleared_bytes;
    }

    abbrev left_with : S → Machine S
    left_with heap = record v {
      space = record { heap = heap; words = words };
      bytes = final_bytes;
      mmu = switch words v.kernel_chunk;
      segments = 0x10;
    }

    taken_back : set task_directory t.ptr old_entry words_mapped ≡ (pos 0, words)
    taken_back =
        set_lem words_mapped task_directory t.ptr old_entry t.aligned
        ∙ ap (λ p. (pos 0, store words_mapped p old_entry))
            (slot-store r.directory t.ptr t.ptr _ (omega (arith, t.in_space))
              (omega (arith, t.in_space)))
        ∙ ap (λ e. (pos 0, store words_mapped (slot words task_directory t.ptr) e))
            (get_lem words task_directory t.ptr t.aligned)
        ∙ ap (λ m. (pos 0, m)) (restored words (slot words task_directory t.ptr) _)

    copy_through_lem :
        (heap : S)
        → a.free t.after t.ptr ≡ some heap
        → copy_through a entered r.chunk task_directory t.ptr old_entry virt phys max
          ≡ some (pos 0, left_with heap)
    unfolding copy_through set strncpy_at switch
    copy_through_lem heap freed =
        rw
          (
            store-other words (slot words task_directory t.ptr) (bit_or t.ptr 7) r.chunk
                (λ e. r.chunk_apart (sym e)),
            store-other words (slot words task_directory t.ptr) (bit_or t.ptr 7) v.kernel_chunk
                (λ e. r.kernel_apart (sym e)),
            taken_back,
            freed,
          )
          refl

    kzalloc_lem :
        kzalloc a v max
        ≡ some (
          t.ptr,
          record v { space = record { heap = t.after; words = words }; bytes = cleared_bytes },
        )
    unfolding kzalloc
    kzalloc_lem = rw (t.returns, ne→==_false t.ptr 0 (λ e. omega (arith, t.not_null)))

    returns :
        (heap : S)
        → a.free t.after t.ptr ≡ some heap
        → copy_string_from_task a v task virt phys max ≡ some (pos 0, left_with heap)
    unfolding copy_string_from_task get_directory
    returns heap freed =
        rw
          (
            lt→leb_false page_size max size,
            kzalloc_lem,
            r.chunk_is,
            map_lem words task_directory t.ptr t.ptr 7 t.aligned t.aligned,
            ne→==_false t.ptr 0 (λ e. omega (arith, t.not_null)),
            ne→==_false task 0 r.task_not_null,
          )
          (copy_through_lem heap freed)

    left_with-StringCopied :
        (f : Released a laws.Valid laws.held t.after t.ptr)
        → IsString (translate words task_directory) virt k (max - 1) v.bytes
        → StringCopied laws v task_directory virt phys k max t.ptr (left_with f.after)
    left_with-StringCopied f s =
        let c1 = first_copy s in
        let c2 = second_copy s in
        record {
          characters = λ i h.
              c2.characters i h
              ∙ ap through (r.kernel (t.ptr + i) (omega (arith, t.in_space, s.fits)))
              ∙ from_task s i h;
          terminator = c2.terminator;
          others = λ x h l.
              c2.others x (elim h [ inl b ↦ inl b | inr b ↦ inr (omega arith) ])
              ∙ c1.others x (elim l [ inl b ↦ inl b | inr b ↦ inr (omega arith) ])
              ∙ cleared-outside x l;
          words = refl;
          mmu = refl;
          held = λ q. f.held_after q ∙ elim (ℕ_discrete q t.ptr) [
            | yes e ↦ rw (e, ==_refl t.ptr) (sym t.fresh)
            | no ne ↦ rw (ne→==_false q t.ptr ne) (t.held_after q ∙ rw (ne→==_false q t.ptr ne))
          ];
        }

  -- Let `max` be above 0 and below 4096, let the heap have a page to give out, let the task not be
  -- null and its directory's tables lie on pages of their own; let the kernel's directory be loaded
  -- and map every address to itself, and the words that hold the two directories not be the entry of
  -- that page in the task's tables; and let
  -- the string's pages and the destination, `max` bytes in the address space each, be apart from it.
  -- Then `copy_string_from_task` returns 0 and the destination holds the string, cut to `max - 1`
  -- characters and terminated; the page tables are as before, the kernel's directory is loaded
  -- again, the heap holds what it held, and other memory has not changed, but the page that the copy
  -- went through.
  pub copy_string_from_task_lem :
      (v : Machine S) (task virt phys max k : ℕ) (t : TakenBy laws v.space.heap max)
      (r : IsReady v task virt phys max t.ptr)
      → max < page_size
      → 0 < max
      → IsString (translate v.space.words (v.space.words r.chunk)) virt k (max - 1) v.bytes
      → (v' : Machine S) × (copy_string_from_task a v task virt phys max ≡ some (pos 0, v'))
        × StringCopied laws v (v.space.words r.chunk) virt phys k max t.ptr v'
  copy_string_from_task_lem v task virt phys max k t r size some_bytes s =
      let f = laws.free_lem t.after t.ptr t.Valid-after (t.held_after t.ptr ∙ rw (==_refl t.ptr)) in
      (
        left_with v task virt phys max k t r size some_bytes f.after,
        returns v task virt phys max k t r size some_bytes f.after f.returns,
        left_with-StringCopied v task virt phys max k t r size some_bytes f s,
      )

  -- A length of a page or more is refused, and nothing has changed.
  pub copy_string_from_task_rejects :
      (v : Machine S) (task virt phys max : ℕ)
      → page_size ≤ max
      → copy_string_from_task a v task virt phys max ≡ some (einvarg, v)
  unfolding copy_string_from_task
  copy_string_from_task_rejects v task virt phys max h = rw (le→leb page_size max h)
