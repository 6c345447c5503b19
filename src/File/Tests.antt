-- ===== src/File/Tests.antt =====
-- Opening, reading and closing under a filesystem that accepts everything.
use guava_os_pro.Prelude.{
  ℕ, suc, ◌≡◌, ◌⊎◌, refl, Option, none, some, List, [], ◌∷◌, ◌++◌, arith, replicate, ◌>>=◌, false,
}
use guava_os_pro.Prelude.Int.{ℤ, pos, is_neg}
use guava_os_pro.CString.{strlen, strnlen, is_digit, to_numeric_digit, strncmp}
use guava_os_pro.Memory.{memcmp}
use guava_os_pro.PathParser.{
  valid_format, get_drive_by_path, part_loop, get_path_part, parse_path_part, parse_parts,
  create_root, parse,
}
use guava_os_pro.File.{
  Files, FileSystem, Descriptor, free_slot, file_get_mode_by_string, file_new_descriptor,
  fill_descriptor, open_descriptor, open_path, fopen, fread,
}
use guava_os_pro.File.Opening.{OpenedSome, OpenCall, Parsed, parsed, fopen_lem}
use guava_os_pro.File.Handles.{fread-fopen}

-- Every open file has the private data 7; `read` gives one byte.
abbrev anything : FileSystem ℕ
anything = record {
  resolve = λ w. some (pos 0, w);
  open_item = λ w path mode. some (pos 7, w);
  read = λ w p size nmemb. some (pos nmemb, 65 ∷ [], w);
  seek = λ w p offset mode. some (pos 0, w);
  stat = λ w p. some (pos 0, record { flags = 0; filesize = 1 }, w);
  close = λ w p. some (pos 0, w);
}

abbrev descriptor : ℕ → Descriptor ℕ
descriptor i = record { index = suc i; filesystem = some anything; handle = pos 7 }

abbrev files : List (Option (Descriptor ℕ)) → ℕ → Files ℕ
files ds left = record {
  filesystems = some anything ∷ [];
  descriptors = ds;
  disk_filesystem = some anything;
  world = record { left = left; volume = 0 };
}

-- "0:/a" and "r"
abbrev path : List ℕ
path = b'0' ∷ b':' ∷ b'/' ∷ b'a' ∷ 0 ∷ []

abbrev mode_r : List ℕ
mode_r = b'r' ∷ 0 ∷ []

-- The first slot is taken, the second is free.
abbrev two_slots : List (Option (Descriptor ℕ))
two_slots = some (descriptor 0) ∷ none ∷ []

abbrev both_taken : List (Option (Descriptor ℕ))
both_taken = some (descriptor 0) ∷ some (descriptor 1) ∷ []

opens : fopen (files two_slots 10) path mode_r ≡ some (pos 2, files both_taken 6)
unfolding fopen parse strlen get_drive_by_path valid_format strnlen is_digit memcmp to_numeric_digit
    create_root parse_parts parse_path_part get_path_part part_loop open_path
    file_get_mode_by_string strncmp open_descriptor fill_descriptor file_new_descriptor free_slot
opens = refl

fopen_lem_example :
    ((pos 2 ≡ pos 0) × (both_taken ≡ two_slots))
    ⊎ ((p : Parsed (files two_slots 10) path) × OpenedSome
          (parsed p)
          p.root.first
          mode_r
          (pos 2)
          (files both_taken 6))
fopen_lem_example = fopen_lem (files two_slots 10) path mode_r (pos 2) (files both_taken 6) opens

fread-fopen_example :
    (name : Parsed (files two_slots 10) path) × (fs : FileSystem ℕ) × (p : ℤ) × (some anything
      ≡ some fs)
    × OpenCall fs (parsed name).world name.root.first mode_r p
    × (is_neg p ≡ false)
    × (fread (files both_taken 6) 1 1 (pos 2) ≡ (do
      (res, bytes, w) ← fs.read (files both_taken 6).world p 1 1
      some (res, bytes, record (files both_taken 6) { world = w })))
fread-fopen_example =
    fread-fopen (files two_slots 10) path mode_r 2 1 1 (files both_taken 6) (omega arith)
      (omega arith) (omega arith) (omega arith) opens

-- All slots but the last are taken.
abbrev last_free : List (Option (Descriptor ℕ))
last_free = replicate 511 (some (descriptor 0)) ++ none ∷ []

abbrev last_taken : List (Option (Descriptor ℕ))
last_taken = replicate 511 (some (descriptor 0)) ++ some (descriptor 511) ∷ []
