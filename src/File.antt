-- ===== src/File.antt =====
-- src/fs/file.c and file.h: the table of filesystems, and the descriptors of the open files.
-- `disk_get` and `disk_search_and_init` of src/disk/disk.c give the one disk and its filesystem.
pub mod Descriptors
pub mod Opening
pub mod Handles
mod Tests
use guava_os_pro.Prelude.{
  ℕ, suc, ◌+◌, ◌-◌, Bool, true, false, not, ◌||◌, Option, none, some, List, [], ◌∷◌, leb, ◌==◌,
  if◌then◌else◌, get_elem?, set?, replicate, ◌>>=◌,
}
use guava_os_pro.Prelude.Int.{ℤ, pos, negsuc, is_neg, ltb_ℤ, ◌==ℤ◌}
use guava_os_pro.CString.{strncmp}
use guava_os_pro.PathParser.{PathRoot, alloc, parse}
use guava_os_pro.Status.{eio, einvarg, enomem}

-- GUAVAOS_MAX_FILESYSTEMS and GUAVAOS_MAX_FILE_DESCRIPTORS
abbrev pub max_filesystems : ℕ
max_filesystems = 12

abbrev pub max_descriptors : ℕ
max_descriptors = 512

pub data FileMode : Type 0 where
  mode_read mode_write mode_append mode_invalid : FileMode

-- `FILE_SEEK_MODE` is an unsigned integer: the last stands for every other number.
pub data SeekMode : Type 0 where
  seek_set seek_cur seek_end seek_other : SeekMode

-- `struct file_stat`
pub record FileStat : Type 0 where
  pub flags : ℕ
  pub filesize : ℕ

-- What the drivers share: the blocks left on the kernel's heap, and their own state.
pub record World (S : Type 0) : Type 0 where
  pub left : ℕ
  pub volume : S

-- `struct filesystem`, a table of functions. The private data of an open file is a pointer, read as
-- the `int` that `ISERR` tests. `read` gives the bytes that it stores.
pub record FileSystem (S : Type 0) : Type 0 where
  pub resolve : World S → Option (ℤ × World S)
  pub open_item : World S → List (List ℕ) → FileMode → Option (ℤ × World S)
  pub read : World S → ℤ → ℕ → ℕ → Option (ℤ × List ℕ × World S)
  pub seek : World S → ℤ → ℕ → SeekMode → Option (ℤ × World S)
  pub stat : World S → ℤ → Option (ℤ × FileStat × World S)
  pub close : World S → ℤ → Option (ℤ × World S)

-- `struct file_descriptor`. A call through a null `filesystem` is a fault.
pub record Descriptor (S : Type 0) : Type 0 where
  pub index : ℕ
  pub filesystem : Option (FileSystem S)
  pub handle : ℤ

-- `filesystems`, `file_descriptors`, and the filesystem of the one disk.
pub record Files (S : Type 0) : Type 0 where
  pub filesystems : List (Option (FileSystem S))
  pub descriptors : List (Option (Descriptor S))
  pub disk_filesystem : Option (FileSystem S)
  pub world : World S

-- The first slot that holds a null pointer.
unfoldable pub free_slot {ℓ} : {A : Type ℓ} → List (Option A) → Option ℕ
free_slot [] = none
free_slot (none ∷ xs) = some 0
free_slot (some x ∷ xs) = do i ← free_slot xs; some (suc i)

unfoldable pub file_get_mode_by_string : List ℕ → Option FileMode
file_get_mode_by_string str = do
  r ← strncmp str (b'r' ∷ 0 ∷ []) 1
  if r ==ℤ pos 0 then some mode_read else (do
    w ← strncmp str (b'w' ∷ 0 ∷ []) 1
    if w ==ℤ pos 0 then some mode_write else (do
      a ← strncmp str (b'a' ∷ 0 ∷ []) 1
      some (if a ==ℤ pos 0 then mode_append else mode_invalid)))

abbrev pub is_empty : List (List ℕ) → Bool
is_empty [] = true
is_empty (part ∷ parts) = false

abbrev pub is_invalid : FileMode → Bool
is_invalid mode_invalid = true
is_invalid _ = false

module _ {S : Type 0} where
  -- With no slot left the kernel stops.
  unfoldable pub fs_insert_filesystem : Files S → FileSystem S → Option (Files S)
  fs_insert_filesystem v fs = do
    i ← free_slot v.filesystems
    filesystems' ← set? v.filesystems i (some fs)
    some (record v { filesystems = filesystems' })

  -- The argument is what `fat16_init` returns.
  unfoldable pub fs_init : Files S → FileSystem S → Option (Files S)
  fs_init v fat16 =
      fs_insert_filesystem
        (record v {
          filesystems = replicate max_filesystems none;
          descriptors = replicate max_descriptors none;
        })
        fat16

  -- The first filesystem that takes the disk.
  unfoldable pub resolve_loop :
      List (Option (FileSystem S)) → World S → Option (Option (FileSystem S) × World S)
  resolve_loop [] w = some (none, w)
  resolve_loop (none ∷ fss) w = resolve_loop fss w
  resolve_loop (some fs ∷ fss) w =
      let rest = λ (w' : World S). resolve_loop fss w' in
      (do (res, w') ← fs.resolve w; if res ==ℤ pos 0 then some (some fs, w') else rest w')

  unfoldable pub disk_search_and_init : Files S → Option (Files S)
  disk_search_and_init v = do
    (fs, w) ← resolve_loop v.filesystems v.world
    some (record v { disk_filesystem = fs; world = w })

  unfoldable pub file_free_descriptor : Files S → Descriptor S → Option (Files S)
  file_free_descriptor v desc = do
    descriptors' ← set? v.descriptors (desc.index - 1) none
    some (record v {
      descriptors = descriptors';
      world = record v.world { left = suc v.world.left };
    })

  -- The status, and the new descriptor's slot.
  unfoldable pub file_new_descriptor : Files S → Option (ℤ × ℕ × Files S)
  file_new_descriptor v = elim (free_slot v.descriptors) [
    | none ↦ some (enomem, 0, v)
    | some i ↦ (do
      left' ← alloc v.world.left
      descriptors' ←
          set? v.descriptors i (some (record { index = suc i; filesystem = none; handle = pos 0 }))
      some (
        pos 0,
        i,
        record v { descriptors = descriptors'; world = record v.world { left = left' } },
      ))
  ]

  unfoldable pub file_get_descriptor : Files S → ℤ → Option (Option (Descriptor S))
  file_get_descriptor v (negsuc n) = some none
  file_get_descriptor v (pos fd) =
      if fd == 0 || leb max_descriptors fd then some none else get_elem? v.descriptors (fd - 1)

  -- A new descriptor with its fields filled in, and its index.
  unfoldable pub fill_descriptor : Files S → FileSystem S → ℤ → Option (ℤ × Files S)
  fill_descriptor v fs handle = do
    (res, i, v') ← file_new_descriptor v
    if is_neg res then some (res, v') else (do
      let desc : Descriptor S = record { index = suc i; filesystem = some fs; handle = handle }
      descriptors' ← set? v'.descriptors i (some desc)
      some (pos (suc i), record v' { descriptors = descriptors' }))

  -- From the call of `open` on, whose error is handed on.
  unfoldable pub open_descriptor :
      Files S → FileSystem S → List (List ℕ) → FileMode → Option (ℤ × Files S)
  open_descriptor v fs path mode = do
    (handle, w) ← fs.open_item v.world path mode
    let v' = record v { world = w }
    if is_neg handle then some (handle, v') else fill_descriptor v' fs handle

  -- The tests on the parsed path, the disk and the mode. Only drive 0 is a disk.
  unfoldable pub open_path : Files S → PathRoot → List ℕ → Option (ℤ × Files S)
  open_path v root mode_str =
      if is_empty root.first
      then some (einvarg, v)
      else if not (root.drive_number ==ℤ pos 0)
      then some (eio, v)
      else elim v.disk_filesystem [
        | none ↦ some (eio, v)
        | some fs ↦ (do
          mode ← file_get_mode_by_string mode_str
          if is_invalid mode then some (einvarg, v) else open_descriptor v fs root.first mode)
      ]

  -- Every error is returned as 0.
  unfoldable pub fopen : Files S → List ℕ → List ℕ → Option (ℤ × Files S)
  fopen v filename mode_str = do
    (root, left') ← parse v.world.left filename
    let v' = record v { world = record v.world { left = left' } }
    (res, v'') ← elim root [
      | none ↦ some (einvarg, v')
      | some root_path ↦ open_path v' root_path mode_str
    ]
    some (if is_neg res then pos 0 else res, v'')

  unfoldable pub fstat : Files S → ℤ → Option (ℤ × Option FileStat × Files S)
  fstat v fd = do
    desc ← file_get_descriptor v fd
    elim desc [
      | none ↦ some (eio, none, v)
      | some d ↦ (do
        fs ← d.filesystem
        (res, stat, w) ← fs.stat v.world d.handle
        some (res, some stat, record v { world = w }))
    ]

  unfoldable pub fclose : Files S → ℤ → Option (ℤ × Files S)
  fclose v fd = do
    desc ← file_get_descriptor v fd
    elim desc [
      | none ↦ some (eio, v)
      | some d ↦ (do
        fs ← d.filesystem
        (res, w) ← fs.close v.world d.handle
        let v' = record v { world = w }
        if res ==ℤ pos 0
            then (do v'' ← file_free_descriptor v' d; some (res, v''))
            else some (res, v'))
    ]

  -- `int offset` is handed to the driver as a 32-bit pattern, which is what `offset` is here.
  unfoldable pub fseek : Files S → ℤ → ℕ → SeekMode → Option (ℤ × Files S)
  fseek v fd offset whence = do
    desc ← file_get_descriptor v fd
    elim desc [
      | none ↦ some (eio, v)
      | some d ↦ (do
        fs ← d.filesystem
        (res, w) ← fs.seek v.world d.handle offset whence
        some (res, record v { world = w }))
    ]

  unfoldable pub fread : Files S → ℕ → ℕ → ℤ → Option (ℤ × List ℕ × Files S)
  fread v size nmemb fd =
      if size == 0 || nmemb == 0 || ltb_ℤ fd (pos 1) then some (einvarg, [], v) else (do
        desc ← file_get_descriptor v fd
        elim desc [
          | none ↦ some (einvarg, [], v)
          | some d ↦ (do
            fs ← d.filesystem
            (res, bytes, w) ← fs.read v.world d.handle size nmemb
            some (res, bytes, record v { world = w }))
        ])
