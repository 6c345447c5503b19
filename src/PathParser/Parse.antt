-- ===== src/PathParser/Parse.antt =====
-- `pathparser_parse` against the words of a path, and `pathparser_free`.
use mathlib.Core.List.{append_assoc}
use guava_os_pro.Prelude.{
  ℕ, zero, suc, ◌+◌, ◌-◌, ◌*◌, ◌≤◌, ◌<◌, ◌≡◌, ◌⊎◌, inl, inr, refl, ap, ◌∙◌, none, some, List, [],
  ◌∷◌, ◌++◌, arith, length, All, map, true, false, Bool-cases, length-map, length-append, ◌>>=◌,
  ltb, leb, min, le→ltb_false, ltb_false→not_lt,
}
use native.Mathlib.Decide.{ℕ_discrete}
use guava_os_pro.Prelude.Int.{pos, ◌==ℤ◌}
use guava_os_pro.Memory.{memcmp}
use guava_os_pro.CString.{strlen, is_digit, strnlen, to_numeric_digit}
use guava_os_pro.CString.Content.{
  IsText, content-append, IsTerminated-append, strlen_lem, strnlen_lem,
}
use guava_os_pro.PathParser.{
  max_path, PathRoot, parse_parts, valid_format, get_drive_by_path, create_root, parse, free_parts,
  free,
}
use guava_os_pro.PathParser.Split.{
  IsPlain, split, until_empty, Cut, last, more, cut, split-last, split-more,
}
use guava_os_pro.PathParser.Words.{pad, IsEnd, behind, parse_path_part-nil, parse_path_part-cons}

-- The words of a path behind its drive.
abbrev pub words : List ℕ → List (List ℕ)
words s = until_empty (split s)

parse_parts-nil :
    (fuel left c : ℕ) (rest : List ℕ)
    → IsEnd c
    → parse_parts (suc fuel) (suc left) (c ∷ rest) ≡ some ([], suc left)
unfolding parse_parts
parse_parts-nil fuel left c rest end = rw (parse_path_part-nil rest c end left)

parse_parts-cons :
    (fuel left c d : ℕ) (w rest : List ℕ)
    → IsEnd c
    → All IsPlain (d ∷ w)
    → length (d ∷ w) ≤ max_path
    → parse_parts (suc fuel) (suc (suc left)) (d ∷ (w ++ c ∷ rest)) ≡ (
        parse_parts fuel left (behind c rest) >>= λ (parts, left').
        some (pad (d ∷ w) ∷ parts, left'))
unfolding parse_parts
parse_parts-cons fuel left c d w rest end h k = rw (parse_path_part-cons rest c end left d w h k)

All-append_right : (xs ys : List ℕ) → IsText (xs ++ ys) → IsText ys
All-append_right [] ys h = h
All-append_right (x ∷ xs) ys h = All-append_right xs ys h.1

-- The loop reads the words before the first empty one, and takes two blocks for each.
parse_parts_lem :
    (fuel r left : ℕ) (rest : List ℕ) {s : List ℕ}
    → Cut s
    → IsText s
    → length s < fuel
    → length s ≤ max_path
    → left ≡ suc r + 2 * length (words s)
    → parse_parts fuel left (s ++ 0 ∷ rest) ≡ some (map pad (words s), suc r)
unfolding until_empty
parse_parts_lem zero r left rest c h f k e = absurd (omega arith)
parse_parts_lem (suc fuel) r left rest (last [] p) h f k e =
    let left_is : left ≡ suc r =
      omega (arith, e, ap (λ ws. length (until_empty ws)) (split-last [] p)) in
    rw (left_is, split-last [] p) (parse_parts-nil fuel r 0 rest (inr refl))
parse_parts_lem (suc zero) r left rest (last (d ∷ w) p) h f k e = absurd (omega arith)
parse_parts_lem (suc (suc fuel)) r left rest (last (d ∷ w) p) h f k e =
    let left_is : left ≡ suc (suc (suc r)) =
      omega (arith, e, ap (λ ws. length (until_empty ws)) (split-last (d ∷ w) p)) in
    rw (left_is, split-last (d ∷ w) p)
      (parse_parts-cons (suc fuel) (suc r) 0 d w rest (inr refl) p k
        ∙ rw (parse_parts-nil fuel r 0 rest (inr refl)))
parse_parts_lem (suc fuel) r left rest (more [] s p) h f k e =
    let left_is : left ≡ suc r =
      omega (arith, e, ap (λ ws. length (until_empty ws)) (split-more [] s p)) in
    rw (left_is, split-more [] s p) (parse_parts-nil fuel r b'/' (s ++ 0 ∷ rest) (inl refl))
parse_parts_lem (suc fuel) r left rest (more (d ∷ w) s p) h f k e =
    let size : length (w ++ b'/' ∷ s) ≡ length w + suc (length s) = length-append w (b'/' ∷ s) in
    let left_is : left ≡ suc (suc (suc r + 2 * length (words s))) =
      omega (arith, e, ap (λ ws. length (until_empty ws)) (split-more (d ∷ w) s p)) in
    let text : IsText s = (All-append_right w (b'/' ∷ s) h.1).1 in
    rw (left_is, split-more (d ∷ w) s p, append_assoc w (b'/' ∷ s) (0 ∷ rest))
      (parse_parts-cons fuel (suc r + 2 * length (words s)) b'/' d w (s ++ 0 ∷ rest) (inl refl) p
          (omega arith)
        ∙ rw (
            parse_parts_lem fuel r (suc r + 2 * length (words s)) rest (cut s text) text
              (omega arith) (omega arith) refl))

-- A path that names a drive: a digit, a colon and a slash in front.
abbrev pub HasDrive : List ℕ → Type 0
HasDrive (d ∷ a ∷ b ∷ t) = (is_digit d ≡ true) × (a ≡ b':') × (b ≡ b'/')
HasDrive s = ⊥

-- The blocks that a parsed path takes: the root, and two for each part.
abbrev pub blocks_of : List ℕ → ℕ
blocks_of t = 1 + 2 * length (words t)

strlen-text : (s rest : List ℕ) → IsText s → strlen (s ++ 0 ∷ rest) ≡ some (length s)
strlen-text s rest h =
    strlen_lem (s ++ 0 ∷ rest) (IsTerminated-append s rest)
    ∙ ap (λ (w : List ℕ). some (length w)) (content-append s rest h)

strnlen-text :
    (s rest : List ℕ) (n : ℕ) → IsText s → strnlen (s ++ 0 ∷ rest) n ≡ some (min (length s) n)
strnlen-text s rest n h =
    strnlen_lem (s ++ 0 ∷ rest) n (IsTerminated-append s rest)
    ∙ ap (λ (w : List ℕ). some (min (length w) n)) (content-append s rest h)

abbrev pub with_drive : ℕ → List ℕ → List ℕ
with_drive d t = d ∷ b':' ∷ b'/' ∷ t

digit_bounds : (d : ℕ) → is_digit d ≡ true → (48 ≤ d) × (d ≤ 57)
unfolding is_digit
digit_bounds d h = ground arith

with_drive-IsText : (d : ℕ) (t : List ℕ) → is_digit d ≡ true → IsText t → IsText (with_drive d t)
with_drive-IsText d t digit h =
    (omega (arith, digit_bounds d digit), (omega arith, (omega arith, h)))

valid_format-drive :
    (d : ℕ) (t rest : List ℕ)
    → is_digit d ≡ true
    → IsText t
    → valid_format (with_drive d t ++ 0 ∷ rest) ≡ some true
unfolding valid_format memcmp
valid_format-drive d t rest digit h =
    let long : leb 3 (min (suc (suc (suc (length t)))) max_path) ≡ true = ground arith in
    rw (strnlen-text (with_drive d t) rest max_path (with_drive-IsText d t digit h), long, digit)

get_drive-digit :
    (d : ℕ) (t rest : List ℕ)
    → is_digit d ≡ true
    → IsText t
    → get_drive_by_path (with_drive d t ++ 0 ∷ rest) ≡ some (pos (d - 48), t ++ 0 ∷ rest)
unfolding get_drive_by_path to_numeric_digit
get_drive-digit d t rest digit h =
    rw (valid_format-drive d t rest digit h) (ground (arith, digit_bounds d digit))

-- A text of at most 108 characters that begins with a digit, a colon and a slash is parsed, if the
-- heap has a block for the root, two for each word, and one more: the drive is the digit's value,
-- and the parts are the words between the slashes, in order, up to the first empty one, each in a
-- buffer of 108 bytes that is zero behind it.
pub parse-words :
    (d : ℕ) (t rest : List ℕ) (r left : ℕ)
    → is_digit d ≡ true
    → IsText t
    → length t + 3 ≤ max_path
    → left ≡ suc r + blocks_of t
    → parse left (d ∷ b':' ∷ b'/' ∷ (t ++ 0 ∷ rest))
      ≡ some (some (record { drive_number = pos (d - 48); first = map pad (words t) }), suc r)
unfolding parse create_root
parse-words d t rest r left digit h k e =
    let s = with_drive d t in
    let fuel : length t < suc (length (s ++ 0 ∷ rest)) =
      omega (arith, length-append t (0 ∷ rest)) in
    let left_is : left ≡ suc (suc r + 2 * length (words t)) = omega arith in
    rw
      (
        strlen-text s rest (with_drive-IsText d t digit h),
        le→ltb_false max_path (length s) (omega arith),
        get_drive-digit d t rest digit h,
        left_is,
      )
      (rw (
        parse_parts_lem (suc (length (s ++ 0 ∷ rest))) r (suc r + 2 * length (words t)) rest
          (cut t h) h fuel (omega arith) refl))

not_colon_slash :
    (b c : ℕ) (t : List ℕ)
    → ¬ ((b ≡ b':') × (c ≡ b'/'))
    → (memcmp (b ∷ c ∷ t) (b':' ∷ b'/' ∷ []) 2 >>= λ res. some (res ==ℤ pos 0)) ≡ some false
unfolding memcmp
not_colon_slash b c t n = elim (ℕ_discrete b b':') [
  | no nb ↦ ground arith
  | yes eb ↦ elim (ℕ_discrete c b'/') [ no nc ↦ ground arith | yes ec ↦ absurd (n (eb, ec)) ]
]

valid_format-rejects :
    (s rest : List ℕ) → IsText s → ¬ HasDrive s → valid_format (s ++ 0 ∷ rest) ≡ some false
unfolding valid_format memcmp
valid_format-rejects [] rest h no_drive = rw (strnlen-text [] rest max_path h)
valid_format-rejects (a ∷ []) rest h no_drive = rw (strnlen-text (a ∷ []) rest max_path h)
valid_format-rejects (a ∷ b ∷ []) rest h no_drive = rw (strnlen-text (a ∷ b ∷ []) rest max_path h)
valid_format-rejects (a ∷ b ∷ c ∷ t) rest h no_drive =
    let long : leb 3 (min (suc (suc (suc (length t)))) max_path) ≡ true = ground arith in
    rw (strnlen-text (a ∷ b ∷ c ∷ t) rest max_path h, long)
      (elim (Bool-cases (is_digit a)) [
        | inr no_digit ↦ rw no_digit
        | inl digit ↦
            rw digit
              (not_colon_slash b c (t ++ 0 ∷ rest) (λ both. no_drive (digit, both.0, both.1)))
      ])

-- A text that is longer than 108 characters, or does not begin with a digit, a colon and a slash,
-- gives the null pointer and takes nothing from the heap.
pub parse_rejects :
    (s rest : List ℕ) (left : ℕ)
    → IsText s
    → (max_path < length s) ⊎ (¬ HasDrive s)
    → parse left (s ++ 0 ∷ rest) ≡ some (none, left)
unfolding parse get_drive_by_path
parse_rejects s rest left h why = elim (Bool-cases (ltb max_path (length s))) [
  | inl long ↦ rw (strlen-text s rest h, long)
  | inr fits ↦
      let no_drive : ¬ HasDrive s = elim why [
        | inl long ↦ absurd (ltb_false→not_lt max_path (length s) fits long)
        | inr n ↦ n
      ] in
      rw (strlen-text s rest h, fits, valid_format-rejects s rest h no_drive)
]

free_parts_lem : (ps : List (List ℕ)) (left : ℕ) → free_parts ps left ≡ left + 2 * length ps
unfolding free_parts
free_parts_lem [] left = omega arith
free_parts_lem (p ∷ ps) left = omega (arith, free_parts_lem ps (left + 2))

-- Where `pathparser_parse` succeeds, `pathparser_free` gives back all that it has taken.
pub free-parse :
    (d : ℕ) (t rest : List ℕ) (r left : ℕ)
    → is_digit d ≡ true
    → IsText t
    → length t + 3 ≤ max_path
    → left ≡ suc r + blocks_of t
    → (root : PathRoot) × (left' : ℕ) × (parse left (with_drive d t ++ 0 ∷ rest)
        ≡ some (some root, left'))
      × (free root left' ≡ left)
unfolding free
free-parse d t rest r left digit h k e = (
  record { drive_number = pos (d - 48); first = map pad (words t) },
  suc r,
  parse-words d t rest r left digit h k e,
  omega (arith, free_parts_lem (map pad (words t)) (suc r), length-map (words t) pad),
)
