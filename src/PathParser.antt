-- ===== src/PathParser.antt =====
-- src/fs/pparser.c and pparser.h. A path is the list of the bytes from its pointer on.
-- Every object of the parser takes one block of the kernel's heap, so the heap is the number of
-- blocks that are left. The source uses each pointer of `kzalloc` with no test for null, so an
-- allocation that fails is a fault.
pub mod Split
pub mod Words
pub mod Parse
pub mod RoundTrip
mod Tests
use guava_os_pro.Prelude.{
  ℕ, zero, suc, ◌+◌, Bool, true, false, not, ◌&&◌, Option, none, some, List, [], ◌∷◌, leb, ltb,
  ◌==◌, if◌then◌else◌, get_elem?, set?, drop, replicate, length, ◌>>=◌,
}
use guava_os_pro.Prelude.Int.{ℤ, pos, negsuc, is_neg, ◌==ℤ◌}
use guava_os_pro.Memory.{memcmp}
use guava_os_pro.CString.{strlen, strnlen, is_digit, to_numeric_digit}
use guava_os_pro.Status.{ebadpath}

-- GUAVAOS_MAX_PATH of kernel.h
abbrev pub max_path : ℕ
max_path = 108

-- The linked `struct path_part`s are the list of their strings, each a buffer of `max_path` bytes.
pub record PathRoot : Type 0 where
  pub drive_number : ℤ
  pub first : List (List ℕ)

-- One block of the heap.
abbrev pub alloc : ℕ → Option ℕ
alloc zero = none
alloc (suc left) = some left

-- Each test is made only if those before it hold.
unfoldable pub valid_format : List ℕ → Option Bool
valid_format filename = do
  len ← strnlen filename max_path
  if not (leb 3 len) then some false else (do
    digit ← get_elem? filename 0
    if not (is_digit digit)
        then some false
        else (do res ← memcmp (drop 1 filename) (b':' ∷ b'/' ∷ []) 2; some (res ==ℤ pos 0)))

-- The drive's number, or -EBADPATH, and the path behind it.
unfoldable pub get_drive_by_path : List ℕ → Option (ℤ × List ℕ)
get_drive_by_path path = do
  valid ← valid_format path
  if not valid
      then some (ebadpath, path)
      else (do digit ← get_elem? path 0; some (to_numeric_digit digit, drop 3 path))

-- The loop of `pathparser_get_path_part`, which ends at a slash or at the terminator.
unfoldable pub part_loop : List ℕ → List ℕ → ℕ → Option (List ℕ × ℕ × List ℕ)
part_loop [] buf i = none
part_loop (c ∷ path) buf i =
    let rest = λ (b : List ℕ). part_loop path b (i + 1) in
    if not (c == b'/') && not (c == 0)
    then (do buf' ← set? buf i c; rest buf')
    else some (buf, i, c ∷ path)

-- An empty part is `none`, and its buffer is given back.
unfoldable pub get_path_part : ℕ → List ℕ → Option (Option (List ℕ) × List ℕ × ℕ)
get_path_part left path = do
  left' ← alloc left
  (buf, i, path') ← part_loop path (replicate max_path 0) 0
  c ← get_elem? path' 0
  let path'' = if c == b'/' then drop 1 path' else path'
  some (if i == 0 then (none, path'', suc left') else (some buf, path'', left'))

-- The new part is linked behind the last one by its place in the list.
unfoldable pub parse_path_part : ℕ → List ℕ → Option (Option (List ℕ) × List ℕ × ℕ)
parse_path_part left path = do
  (part_str, path', left') ← get_path_part left path
  elim part_str [
    | none ↦ some (none, path', left')
    | some str ↦ (do left'' ← alloc left'; some (some str, path', left''))
  ]

-- The loop over the parts, on fuel.
unfoldable pub parse_parts : ℕ → ℕ → List ℕ → Option (List (List ℕ) × ℕ)
parse_parts zero left path = none
parse_parts (suc fuel) left path = do
  (part, path', left') ← parse_path_part left path
  elim part [
    | none ↦ some ([], left')
    | some str ↦ (do (parts, left'') ← parse_parts fuel left' path'; some (str ∷ parts, left''))
  ]

unfoldable pub create_root : ℕ → ℤ → Option (PathRoot × ℕ)
create_root left drive_number = do
  left' ← alloc left
  some (record { drive_number = drive_number; first = [] }, left')

-- `none` is the null pointer. The first part is read before the loop, by the same call. There is a
-- round for each byte of the path, and one more.
unfoldable pub parse : ℕ → List ℕ → Option (Option PathRoot × ℕ)
parse left path = do
  len ← strlen path
  if ltb max_path len then some (none, left) else (do
    (res, tmp_path) ← get_drive_by_path path
    if is_neg res then some (none, left) else (do
      (path_root, left') ← create_root left res
      (parts, left'') ← parse_parts (suc (length path)) left' tmp_path
      some (some (record path_root { first = parts }), left'')))

-- The loop of `pathparser_free`: a string and its part at a time.
unfoldable pub free_parts : List (List ℕ) → ℕ → ℕ
free_parts [] left = left
free_parts (part ∷ parts) left = free_parts parts (left + 2)

unfoldable pub free : PathRoot → ℕ → ℕ
free root left = free_parts root.first left + 1
