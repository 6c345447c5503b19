-- ===== src/Fat16/Names.antt =====
-- `fat16_get_full_relative_filename`: the name of a directory item.
use mathlib.Core.List.{append_assoc, append-nil}
use guava_os_pro.Prelude.{
  ℕ, zero, suc, ◌+◌, ◌-◌, ◌<◌, ◌≡◌, ◌≢◌, ◌⊎◌, inl, inr, refl, sym, ap, ◌∙◌, some, List, [], ◌∷◌,
  ◌++◌, arith, length, All, replicate, drop, get_elem?, length-append, ne→==_false, set?,
  length-replicate, if◌then◌else◌, ◌==◌, ◌>>=◌, not, ◌&&◌,
}
use guava_os_pro.Memory.{memset}
use guava_os_pro.Memory.Laws.{set?-append, memset_whole}
use guava_os_pro.Fat16.{to_proper_string, get_full_relative_filename}

-- A character of a name.
abbrev pub IsNameChar : ℕ → Type 0
IsNameChar c = (c ≢ 0) × (c ≢ 0x20)

-- The two bytes that end a name.
abbrev pub IsStop : ℕ → Type 0
IsStop c = (c ≡ 0) ⊎ (c ≡ 0x20)

proper-char :
    (c : ℕ) (bytes out out' : List ℕ) (i : ℕ)
    → IsNameChar c
    → set? out i c ≡ some out'
    → to_proper_string out i (c ∷ bytes) ≡ to_proper_string out' (i + 1) bytes
unfolding to_proper_string
proper-char c bytes out out' i h e = rw (ne→==_false c 0 h.0, ne→==_false c 0x20 h.1, e)

proper-stop :
    (c : ℕ) (bytes pre : List ℕ) (room i : ℕ)
    → IsStop c
    → i ≡ length pre
    → to_proper_string (pre ++ replicate (suc room) 0) i (c ∷ bytes)
      ≡ some (pre ++ replicate (suc room) 0, i)
unfolding to_proper_string
proper-stop c bytes pre room i (inl z) e = rw z
proper-stop c bytes pre room i (inr s) e = rw (s, set?-append pre 0 0 (replicate room 0) i e)

-- The characters up to a stop are copied behind `pre`, if there is room for them and one more.
proper_lem :
    (w pre rest : List ℕ) (c room i : ℕ)
    → All IsNameChar w
    → IsStop c
    → i ≡ length pre
    → length w < room
    → to_proper_string (pre ++ replicate room 0) i (w ++ c ∷ rest)
      ≡ some ((pre ++ w) ++ replicate (room - length w) 0, i + length w)
proper_lem [] pre rest c zero i h s e k = absurd (omega arith)
proper_lem [] pre rest c (suc room) i h s e k =
    proper-stop c rest pre room i s e ∙ rw append-nil (ground arith)
proper_lem (d ∷ w) pre rest c zero i h s e k = absurd (omega arith)
proper_lem (d ∷ w) pre rest c (suc room) i h s e k =
    proper-char d (w ++ c ∷ rest) (pre ++ replicate (suc room) 0) (pre ++ d ∷ replicate room 0) i
      h.0 (set?-append pre 0 d (replicate room 0) i e)
    ∙ ap (λ b. to_proper_string b (i + 1) (w ++ c ∷ rest))
        (sym (append_assoc pre (d ∷ []) (replicate room 0)))
    ∙ proper_lem w (pre ++ d ∷ []) rest c room (i + 1) h.1 s
        (omega (arith, length-append pre (d ∷ []))) (omega arith)
    ∙ λ j. some (append_assoc pre (d ∷ []) w j ++ replicate (zeros j) 0, index j)
  where
    zeros : room - length w ≡ suc room - suc (length w)
    zeros = omega arith

    index : i + 1 + length w ≡ i + suc (length w)
    index = omega arith

-- A name, and behind a dot the extension, if there is one.
abbrev pub dotted : List ℕ → List ℕ → List ℕ
dotted n [] = n
dotted n (c ∷ e) = n ++ b'.' ∷ c ∷ e

-- A directory item whose name is shorter than its field, which is filled up with spaces, and whose
-- extension ends where its field ends or before.
pub record IsItem (bytes n e : List ℕ) : Type 0 where
  pub name_chars : All IsNameChar n
  pub ext_chars : All IsNameChar e
  pub padding : List ℕ
  pub behind : List ℕ
  pub stop : ℕ
  pub stops : IsStop stop
  pub name_field : bytes ≡ n ++ 0x20 ∷ padding
  pub ext_field : drop 8 bytes ≡ e ++ stop ∷ behind

get_elem?-drop : (n : ℕ) (xs : List ℕ) → get_elem? xs n ≡ get_elem? (drop n xs) 0
get_elem?-drop zero xs = refl
get_elem?-drop (suc n) [] = refl
get_elem?-drop (suc n) (x ∷ xs) = get_elem?-drop n xs

module _ {bytes n e : List ℕ} (it : IsItem bytes n e) (max_len : ℕ) where
  cleared : memset (replicate max_len 0) 0x00 max_len ≡ some (replicate max_len 0)
  cleared = memset_whole max_len (replicate max_len 0) (length-replicate {A = ℕ} max_len 0)

  named :
      length n < max_len
      → to_proper_string (replicate max_len 0) 0 bytes
        ≡ some (n ++ replicate (max_len - length n) 0, length n)
  named room =
      ap (to_proper_string (replicate max_len 0) 0) it.name_field
      ∙ proper_lem n [] it.padding 0x20 max_len 0 it.name_chars (inr refl) refl room
      ∙ λ j. some (n ++ replicate (max_len - length n) 0, start j)
    where
      start : 0 + length n ≡ length n
      start = omega arith

  ext_byte : get_elem? bytes 8 ≡ get_elem? (e ++ it.stop ∷ it.behind) 0
  ext_byte = get_elem?-drop 8 bytes ∙ ap (λ bs. get_elem? bs 0) it.ext_field

  dot_set :
      (r : ℕ)
      → max_len - length n ≡ suc r
      → set? (n ++ replicate (max_len - length n) 0) (length n) b'.'
        ≡ some (n ++ b'.' ∷ replicate r 0)
  dot_set r k = rw k (set?-append n 0 b'.' (replicate r 0) (length n) refl)

  ext_copied :
      (r : ℕ)
      → length e < r
      → to_proper_string (n ++ b'.' ∷ replicate r 0) (length n + 1) (drop 8 bytes)
        ≡ some (((n ++ b'.' ∷ []) ++ e) ++ replicate (r - length e) 0, length n + 1 + length e)
  ext_copied r room =
      ap (to_proper_string (n ++ b'.' ∷ replicate r 0) (length n + 1)) it.ext_field
      ∙ ap (λ b. to_proper_string b (length n + 1) (e ++ it.stop ∷ it.behind))
          (sym (append_assoc n (b'.' ∷ []) (replicate r 0)))
      ∙ proper_lem e (n ++ b'.' ∷ []) it.behind it.stop r (length n + 1) it.ext_chars it.stops
          (omega (arith, length-append n (b'.' ∷ []))) room

full_name-bare :
    (bytes n : List ℕ) (it : IsItem bytes n []) (max_len : ℕ)
    → length n < max_len
    → get_full_relative_filename bytes (replicate max_len 0) max_len
      ≡ some (n ++ replicate (max_len - length n) 0)
unfolding get_full_relative_filename
full_name-bare bytes n it max_len room =
    rw (cleared it max_len, named it max_len room, ext_byte it max_len) (no_ext it.stop it.stops)
  where
    no_ext :
        (c : ℕ)
        → IsStop c
        → (if not (c == 0) && not (c == 0x20)
            then (do
              dot ← set? (n ++ replicate (max_len - length n) 0) (length n) b'.'
              (full, _) ← to_proper_string dot (length n + 1) (drop 8 bytes)
              some full)
            else some (n ++ replicate (max_len - length n) 0))
          ≡ some (n ++ replicate (max_len - length n) 0)
    no_ext c (inl z) = rw z
    no_ext c (inr z) = rw z

full_name-dotted :
    (bytes n : List ℕ) (c : ℕ) (e : List ℕ) (it : IsItem bytes n (c ∷ e)) (max_len r : ℕ)
    → max_len - length n ≡ suc r
    → length (c ∷ e) < r
    → get_full_relative_filename bytes (replicate max_len 0) max_len
      ≡ some (((n ++ b'.' ∷ []) ++ c ∷ e) ++ replicate (r - length (c ∷ e)) 0)
unfolding get_full_relative_filename
full_name-dotted bytes n c e it max_len r k room = rw (
  cleared it max_len,
  named it max_len (omega arith),
  ext_byte it max_len,
  ne→==_false c 0 it.ext_chars.0.0,
  ne→==_false c 0x20 it.ext_chars.0.1,
  dot_set it max_len r k,
  ext_copied it max_len r room,
)

-- The name of a directory item is its name, and a dot and its extension where it has one, with
-- zeros behind it in a buffer that has room for them and one more.
pub full_name_lem :
    (bytes n e : List ℕ) (max_len : ℕ)
    → IsItem bytes n e
    → length (dotted n e) < max_len
    → get_full_relative_filename bytes (replicate max_len 0) max_len
      ≡ some (dotted n e ++ replicate (max_len - length (dotted n e)) 0)
full_name_lem bytes n [] max_len it room = full_name-bare bytes n it max_len room
full_name_lem bytes n (c ∷ e) max_len it room =
    full_name-dotted bytes n c e it max_len (max_len - length n - 1) (omega (arith, size))
      (omega (arith, size))
    ∙ λ j. some (append_assoc n (b'.' ∷ []) (c ∷ e) j ++ replicate (zeros j) 0)
  where
    size : length (n ++ b'.' ∷ c ∷ e) ≡ length n + suc (suc (length e))
    size = length-append n (b'.' ∷ c ∷ e)

    zeros : max_len - length n - 1 - length (c ∷ e) ≡ max_len - length (n ++ b'.' ∷ c ∷ e)
    zeros = omega (arith, size)
