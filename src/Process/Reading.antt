-- ===== src/Process/Reading.antt =====
-- Loading a program: reading the file leaves the tables of processes and tasks, and a new task
-- belongs to the process.
use guava_os_pro.Prelude.{
  Bool, true, false, Option, some, sym, ap, ◌∙◌, ==_refl, ℕ, ◌≡◌, ◌≢◌, inl, inr, refl, arith, not,
  Bool-cases, List, [], ◌∷◌, ◌==◌, Ensures, returned, faulted, Ensures-bind, Ensures-weaken,
  Ensures->>=, Ensures-if,
}
use guava_os_pro.Prelude.Int.{ℤ, pos, is_neg, ◌==ℤ◌}
use guava_os_pro.Status.{all_ok}
use guava_os_pro.Paging.Allocator.{Allocator}
use guava_os_pro.Paging.Creation.{new_4gb}
use guava_os_pro.File.{Files, FileStat, fopen, fstat, fread, fclose}
use guava_os_pro.Task.{Tasks, new, init, append}
use guava_os_pro.Task.Machine.{Machine, kzalloc}
use guava_os_pro.Process.{
  System, Process, read_binary, load_binary, load_data, task_new, task_bytes,
}

is_true : (b : Bool) → not b ≡ false → b ≡ true
is_true true h = refl
is_true false h = sym h

is_false : (b : Bool) → not b ≡ true → b ≡ false
is_false true h = sym h
is_false false h = refl

pub not_null : (ptr : ℕ) → (ptr == 0) ≡ false → ptr ≢ 0
not_null ptr h = ground arith

module _ {S : Type 0} (a : Allocator S) where
  pub kzalloc-tasks :
      (m : Machine S) (size : ℕ)
      → Ensures (λ (r : ℕ × Machine S). r.1.tasks ≡ m.tasks) (kzalloc a m size)
  unfolding kzalloc
  kzalloc-tasks m size =
      Ensures-bind (a.malloc m.space.heap size) _
        (λ (ptr, heap) e. Ensures-if (ptr == 0) _ _ (λ h. returned refl) (λ h. returned refl))

module _ {S V : Type 0} where
  -- Neither process nor task has come or gone.
  pub record Unchanged (v v' : System S V) : Type 0 where
    pub processes : v'.processes ≡ v.processes
    pub current : v'.current ≡ v.current
    pub tasks : v'.machine.tasks ≡ v.machine.tasks

module _ {V : Type 0} where
  -- Where the program of a process comes from: the file was opened, its size asked for and that many
  -- bytes read in one element, behind a pointer that is not null; or the driver's `stat` returned a
  -- positive number, which is taken for a success.
  pub data Program (w : Files V) (filename : List ℕ) (q : Process) : Type 0 where
    program_read :
        (fd res count : ℤ) (files files' files'' : Files V) (stat : FileStat) (bytes : List ℕ)
        → fopen w filename (b'r' ∷ 0 ∷ []) ≡ some (fd, files)
        → fstat files fd ≡ some (res, some stat, files')
        → (res ==ℤ all_ok) ≡ true
        → fread files' stat.filesize 1 fd ≡ some (count, bytes, files'')
        → (count ==ℤ pos 1) ≡ true
        → q.ptr ≢ 0
        → q.size ≡ stat.filesize
        → Program w filename q
    stat_positive :
        (fd res : ℤ) (files files' : Files V) (stat : Option FileStat)
        → fopen w filename (b'r' ∷ 0 ∷ []) ≡ some (fd, files)
        → fstat files fd ≡ some (res, stat, files')
        → (res ==ℤ all_ok) ≡ false
        → is_neg res ≡ false
        → Program w filename q

  -- The rest of a process has no part in it.
  pub Program-same :
      (w : Files V) (filename : List ℕ) (q q' : Process)
      → Program w filename q
      → q'.ptr ≡ q.ptr
      → q'.size ≡ q.size
      → Program w filename q'
  Program-same w filename q q'
        (program_read fd res count files files' files'' s bytes o t ok e one nz size) ptr_is
        size_is =
      program_read fd res count files files' files'' s bytes o t ok e one (λ z. nz (sym ptr_is ∙ z))
        (size_is ∙ size)
  Program-same w filename q q' (stat_positive fd res files files' s o t bad n) ptr_is size_is =
      stat_positive fd res files files' s o t bad n

module _ {S V : Type 0} where
  -- What a read of the program's bytes leaves in the process, where it is no error.
  abbrev BytesRead : System S V → ℤ → FileStat → Process → Type 0
  BytesRead v fd stat q =
      (count : ℤ) × (bytes : List ℕ) × (files : Files V) × (fread v.files stat.filesize 1 fd
        ≡ some (count, bytes, files))
      × ((count ==ℤ pos 1) ≡ true)
      × (q.ptr ≢ 0)
      × (q.size ≡ stat.filesize)

  abbrev Read : System S V → ℤ → FileStat → ℕ → ℤ × System S V → Type 0
  Read v fd stat p (res, v') =
      Unchanged v v' × (is_neg res ≡ false → BytesRead v fd stat (v'.store p))

  abbrev pub Kept : System S V → List ℕ → ℕ → ℤ × System S V → Type 0
  Kept v filename p (res, v') =
      Unchanged v v' × (is_neg res ≡ false → Program v.files filename (v'.store p))

  module _ (a : Allocator S) where
    read_binary-Read :
        (v : System S V) (fd : ℤ) (stat : FileStat) (p : ℕ)
        → Ensures (Read v fd stat p) (read_binary a v fd stat p)
    unfolding read_binary
    read_binary-Read v fd stat p =
        Ensures->>= (kzalloc a v.machine stat.filesize) _ (kzalloc-tasks a v.machine stat.filesize)
          (λ (ptr, m) t.
            Ensures-if (ptr == 0) _ _
              (λ h. returned (record { processes = refl; current = refl; tasks = t }, (λ n. cc n)))
              (λ h. Ensures-bind (fread v.files stat.filesize 1 fd) _ (λ (count, bytes, files) e.
                Ensures-if (not (count ==ℤ pos 1)) _ _
                  (λ h.
                    returned (record { processes = refl; current = refl; tasks = t }, (λ n. cc n)))
                  (λ k. returned (
                    record { processes = refl; current = refl; tasks = t },
                    (λ n. (
                      count,
                      bytes,
                      files,
                      e,
                      is_true (count ==ℤ pos 1) k,
                      rw (==_refl p) (not_null ptr h),
                      rw (==_refl p) refl,
                    )),
                  )))))

    load_opened-Kept :
        (v : System S V) (filename : List ℕ) (p : ℕ) (fd res : ℤ) (files files' : Files V)
        (s : FileStat)
        → fopen v.files filename (b'r' ∷ 0 ∷ []) ≡ some (fd, files)
        → fstat files fd ≡ some (res, some s, files')
        → (res ==ℤ all_ok) ≡ true
        → Ensures (Kept v filename p) (read_binary a (record v { files = files' }) fd s p)
    load_opened-Kept v filename p fd res files files' s opened stated ok =
        Ensures-weaken _
          (λ (r, w) (k, read). (
            record { processes = k.processes; current = k.current; tasks = k.tasks },
            (λ n.
                let (count, bytes, files'', e, one, not_null, size) = read n in
                program_read fd res count files files' files'' s bytes opened stated ok e one
                  not_null size),
          ))
          (read_binary-Read (record v { files = files' }) fd s p)

    pub load_data-Kept :
        (v : System S V) (filename : List ℕ) (p : ℕ)
        → Ensures (Kept v filename p) (load_data a v filename p)
    unfolding load_data load_binary
    load_data-Kept v filename p =
        Ensures-bind (fopen v.files filename (b'r' ∷ 0 ∷ [])) _ (λ (fd, files) opened.
          Ensures->>= {Q = Kept v filename p} _ _
            (Ensures-if (fd ==ℤ pos 0) _ _
              (λ h.
                returned (record { processes = refl; current = refl; tasks = refl }, (λ n. cc n)))
              (λ h. Ensures-bind (fstat files fd) _ (λ (res, stat, files') stated.
                Ensures-if (not (res ==ℤ all_ok)) _ _
                  (λ bad. returned (
                    record { processes = refl; current = refl; tasks = refl },
                    (λ n.
                        stat_positive fd res files files' stat opened stated
                          (is_false (res ==ℤ all_ok) bad) n),
                  ))
                  (λ ok. Ensures-bind stat _ (λ s is_s.
                    load_opened-Kept v filename p fd res files files' s opened
                      (stated ∙ ap (λ x. some (res, x, files')) is_s)
                      (is_true (res ==ℤ all_ok) ok))))))
            (λ (res, v') (k, program). Ensures-bind (fclose v'.files fd) _ (λ (closed, files'') e'.
              returned (
                record { processes = k.processes; current = k.current; tasks = k.tasks },
                program,
              ))))

-- A new task is the one that was asked for, and belongs to the process.
new-owner :
    (v : Tasks) (task directory p : ℕ)
    → Ensures
        (λ (r : ℕ × Tasks). (r.0 ≢ 0) × ((r.1.store r.0).process ≡ p))
        (new v task directory p)
unfolding new init append
new-owner v task directory p =
    Ensures-if (task == 0) _ _ (λ h. faulted)
      (λ h.
        let not_null : task ≢ 0 = ground arith in
        elim (Bool-cases (directory == 0)) [
          | inl e ↦ rw e faulted
          | inr e ↦ rw e (
              Ensures-if (v.head == 0) _ _ (λ h. returned (not_null, ground arith))
                (λ h. returned (not_null, ground arith)))
        ])

pub task_new-owner :
    {S : Type 0} (a : Allocator S) (m : Machine S) (p : ℕ)
    → Ensures
        (λ (r : ℕ × Machine S). (r.0 ≢ 0) × ((r.1.tasks.store r.0).process ≡ p))
        (task_new a m p)
unfolding task_new
task_new-owner a m p = Ensures-bind (kzalloc a m task_bytes) _ (λ (task, m1) e.
    Ensures-if (task == 0) _ _ (λ h. faulted)
      (λ h. Ensures-bind (new_4gb a 5 m1.space) _ (λ (chunk, space) e'.
        Ensures->>= (new m1.tasks task chunk p) _ (new-owner m1.tasks task chunk p)
          (λ (t, tasks) k. returned k))))
