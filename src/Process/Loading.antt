-- ===== src/Process/Loading.antt =====
-- `process_load` and `process_load_switch`: what is left of the kernel's tables on every way out.
use mathlib.Core.Path.{subst}
use guava_os_pro.Prelude.{
  false, if◌then◌else◌, ℕ, ◌≡◌, ◌≢◌, refl, sym, ap, ◌∙◌, arith, true, Option, none, some, List,
  ◌==◌, length, set?, ne→==_false, ==_refl, Ensures, returned, Ensures-bind, Ensures->>=,
  Ensures-if, Ensures-run,
}
use guava_os_pro.Prelude.Int.{ℤ, pos, negsuc, is_neg, ◌==ℤ◌}
use guava_os_pro.Status.{eistkn}
use guava_os_pro.Paging.Allocator.{Allocator}
use guava_os_pro.CString.{strncpy}
use guava_os_pro.PathParser.{max_path}
use guava_os_pro.Task.Machine.{kzalloc}
use guava_os_pro.Process.{
  process_switch, load_switch, load_in, System, process_get, get_free_slot, task_new, start_process,
  load_stack, load_new, load_for_slot, load, map_memory, map_binary, map_at, max_processes,
  process_bytes, stack_size,
}
use guava_os_pro.Process.Slots.{process_get-get_free_slot}
use guava_os_pro.Process.Reading.{
  Unchanged, Program, Program-same, not_null, kzalloc-tasks, load_data-Kept, task_new-owner,
}

module _ {S V : Type 0} where
  -- What is left where loading gives a process back: it stands in the slot, which was free, under
  -- the slot's number, with the file's program, a stack and a task of its own, and no other slot has
  -- changed.
  pub record Started (v : System S V) (filename : List ℕ) (slot p : ℕ) (v' : System S V)
      : Type 0 where
    pub not_null_process : p ≢ 0
    pub program : Program v.files filename (v'.store p)
    pub has_stack : (v'.store p).stack ≢ 0
    pub registered : set? v.processes slot (some p) ≡ some v'.processes
    pub current : v'.current ≡ v.current
    pub id : (v'.store p).id ≡ slot
    pub has_task : (v'.store p).task ≢ 0
    pub owner : (v'.machine.tasks.store (v'.store p).task).process ≡ p

  -- Loading either succeeds, in a free slot, or fails with an error and changes no table.
  pub data Outcome (v : System S V) (filename : List ℕ) : ℤ × Option ℕ × System S V → Type 0 where
    succeeded :
        (slot p : ℕ) (v' : System S V)
        → process_get v.processes (pos slot) ≡ none
        → Started v filename slot p v'
        → Outcome v filename (pos 0, some p, v')
    failed :
        (res : ℤ) (v' : System S V)
        → is_neg res ≡ true
        → Unchanged v v'
        → Outcome v filename (res, none, v')

  module _ (a : Allocator S) where
    start_process-Outcome :
        (u v : System S V) (filename : List ℕ) (p slot : ℕ)
        → process_get u.processes (pos slot) ≡ none
        → Unchanged u v
        → p ≢ 0
        → Program u.files filename (v.store p)
        → (v.store p).stack ≢ 0
        → (v.store p).id ≡ slot
        → Ensures (Outcome u filename) (start_process a v p slot)
    unfolding start_process map_memory map_binary map_at
    start_process-Outcome u v filename p slot free same not_zero program stack id =
        Ensures->>= (task_new a v.machine p) _ (task_new-owner a v.machine p)
          (λ (task, m) (nz, owner). rw (ne→==_false task 0 nz) (
            Ensures-bind (set? v.processes slot (some p)) _ (λ processes' e. returned (
              succeeded slot p _ free (record {
                registered = ap (λ ps. set? ps slot (some p)) (sym same.processes) ∙ e;
                current = same.current;
                not_null_process = not_zero;
                program = rw (==_refl p) (Program-same u.files filename _ _ program refl refl);
                has_stack = rw (==_refl p) stack;
                id = rw (==_refl p) id;
                has_task = rw (==_refl p) nz;
                owner = rw (==_refl p) owner;
              })))))

    load_stack-Outcome :
        (u v : System S V) (filename : List ℕ) (p slot : ℕ)
        → process_get u.processes (pos slot) ≡ none
        → Unchanged u v
        → p ≢ 0
        → Program u.files filename (v.store p)
        → Ensures (Outcome u filename) (load_stack a v filename p slot)
    unfolding load_stack
    load_stack-Outcome u v filename p slot free same not_zero program =
        Ensures->>= (kzalloc a v.machine stack_size) _ (kzalloc-tasks a v.machine stack_size)
          (λ (ptr, m) t.
            Ensures-if (ptr == 0) _ _
              (λ h. returned (
                failed _ _ refl (record {
                  processes = same.processes;
                  current = same.current;
                  tasks = t ∙ same.tasks;
                })))
              (λ h. Ensures-bind (strncpy (v.store p).filename filename max_path) _ (λ name e.
                start_process-Outcome u _ filename p slot free
                  (record {
                    processes = same.processes;
                    current = same.current;
                    tasks = t ∙ same.tasks;
                  })
                  not_zero (rw (==_refl p) (Program-same u.files filename _ _ program refl refl))
                  (rw (==_refl p) (not_null ptr h)) (rw (==_refl p)))))

    load_new-Outcome :
        (v : System S V) (filename : List ℕ) (slot : ℕ)
        → process_get v.processes (pos slot) ≡ none
        → Ensures (Outcome v filename) (load_new a v filename slot)
    unfolding load_new
    load_new-Outcome v filename slot free =
        Ensures->>= (kzalloc a v.machine process_bytes) _ (kzalloc-tasks a v.machine process_bytes)
          (λ (p, m) t.
            Ensures-if (p == 0) _ _
              (λ h.
                returned (failed _ _ refl (record { processes = refl; current = refl; tasks = t })))
              (λ h. Ensures->>= _ _ (load_data-Kept a _ filename p) (λ (res, v2) (k, program).
                let same : Unchanged v v2 = record {
                  processes = k.processes;
                  current = k.current;
                  tasks = k.tasks ∙ t;
                } in
                Ensures-if (is_neg res) _ _ (λ n. returned (failed res v2 n same))
                  (λ n.
                    load_stack-Outcome v v2 filename p slot free same (not_null p h) (program n)))))

    load_for_slot-Outcome :
        (v : System S V) (filename : List ℕ) (slot : ℕ)
        → process_get v.processes (pos slot) ≡ none
        → Ensures (Outcome v filename) (load_for_slot a v filename slot)
    unfolding load_for_slot
    load_for_slot-Outcome v filename slot free =
        subst
          (λ taken.
            Ensures (Outcome v filename)
              (elim taken [ some p ↦ none | none ↦ load_new a v filename slot ]))
          (sym free) (load_new-Outcome v filename slot free)

    load_in-Outcome :
        (v : System S V) (filename : List ℕ) (slot : ℤ)
        → length v.processes ≡ max_processes
        → get_free_slot v.processes ≡ slot
        → Ensures (Outcome v filename) (load_in a v filename slot)
    unfolding load_in
    load_in-Outcome v filename (negsuc n) h k =
        returned (failed eistkn v refl (record { processes = refl; current = refl; tasks = refl }))
    load_in-Outcome v filename (pos slot) h k =
        let (inside, free) = process_get-get_free_slot v.processes slot h k in
        load_for_slot-Outcome v filename slot free

    load-Ensures :
        (v : System S V) (filename : List ℕ)
        → length v.processes ≡ max_processes
        → Ensures (Outcome v filename) (load a v filename)
    unfolding load
    load-Ensures v filename h = load_in-Outcome v filename (get_free_slot v.processes) h refl

  -- What switching to the loaded process leaves.
  pub data Switched (v : System S V) : ℤ × Option ℕ × System S V → Type 0 where
    to_new : (p : ℕ) (w : System S V) → w.current ≡ p → Switched v (pos 0, some p, w)
    stayed :
        (res : ℤ) (w : System S V)
        → is_neg res ≡ true
        → w.current ≡ v.current
        → Switched v (res, none, w)

  module _ (a : Allocator S) where
    switched :
        (v : System S V) (filename : List ℕ) (r : ℤ × Option ℕ × System S V)
        → Outcome v filename r
        → Switched v (
          r.0,
          r.1,
          if r.0 ==ℤ pos 0
              then (process_switch r.2 (elim r.1 [ none ↦ 0 | some p ↦ p ])).1
              else r.2,
        )
    unfolding process_switch
    switched v filename _ (succeeded slot p w free s) = to_new p _ refl
    switched v filename _ (failed (pos n) w h s) = cc h
    switched v filename _ (failed (negsuc n) w h s) =
        let other : (negsuc n ==ℤ pos 0) ≡ false = ground arith in
        stayed (negsuc n) _ refl (rw other s.current)

    -- `process_load_switch` makes the loaded process the current one; after an error the current
    -- process is the one before.
    pub load_switch-Switched :
        (v : System S V) (filename : List ℕ) (res : ℤ) (process : Option ℕ) (v' : System S V)
        → length v.processes ≡ max_processes
        → load_switch a v filename ≡ some (res, process, v')
        → Switched v (res, process, v')
    unfolding load_switch
    load_switch-Switched v filename res process v' h e =
        Ensures-run {P = Switched v} (load_switch a v filename) (res, process, v')
          (Ensures->>= (load a v filename) _ (load-Ensures a v filename h)
            (λ r o. returned (switched v filename r o)))
          e
