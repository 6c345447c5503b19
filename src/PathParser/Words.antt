-- ===== src/PathParser/Words.antt =====
-- Reading one part of a path.
use mathlib.Core.List.{append_assoc, append-nil}
use guava_os_pro.Prelude.{
  ℕ, zero, suc, ◌+◌, ◌-◌, ◌≤◌, ◌≡◌, ◌⊎◌, refl, sym, ap, ◌∙◌, Option, none, some, List, [], ◌∷◌,
  ◌++◌, arith, length, All, ◌==◌, if◌then◌else◌, length-append, replicate, ne→==_false, set?,
}
use guava_os_pro.Memory.Laws.{set?-append}
use guava_os_pro.PathParser.{max_path, part_loop, get_path_part, parse_path_part}
use guava_os_pro.PathParser.Split.{IsPlain}

-- The buffer of a part: its characters, and zeros up to the end.
abbrev pub pad : List ℕ → List ℕ
pad w = w ++ replicate (max_path - length w) 0

-- The two bytes that end a part.
abbrev pub IsEnd : ℕ → Type 0
IsEnd c = (c ≡ b'/') ⊎ (c ≡ 0)

part_loop-plain :
    (d : ℕ) (path buf buf' : List ℕ) (i : ℕ)
    → IsPlain d
    → set? buf i d ≡ some buf'
    → part_loop (d ∷ path) buf i ≡ part_loop path buf' (i + 1)
unfolding part_loop
part_loop-plain d path buf buf' i h e = rw (ne→==_false d b'/' h.0, ne→==_false d 0 h.1, e)

part_loop_lem :
    (w pre rest : List ℕ) (c room i : ℕ)
    → All IsPlain w
    → IsEnd c
    → i ≡ length pre
    → length w ≤ room
    → part_loop (w ++ c ∷ rest) (pre ++ replicate room 0) i
      ≡ some ((pre ++ w) ++ replicate (room - length w) 0, i + length w, c ∷ rest)
unfolding part_loop
part_loop_lem [] pre rest c room i h end e k = rw append-nil (ground arith)
part_loop_lem (d ∷ w) pre rest c zero i h end e k = absurd (omega arith)
part_loop_lem (d ∷ w) pre rest c (suc room) i h end e k =
    part_loop-plain d (w ++ c ∷ rest) (pre ++ replicate (suc room) 0) (pre ++ d ∷ replicate room 0)
      i h.0 (set?-append pre 0 d (replicate room 0) i e)
    ∙ ap (λ b. part_loop (w ++ c ∷ rest) b (i + 1))
        (sym (append_assoc pre (d ∷ []) (replicate room 0)))
    ∙ part_loop_lem w (pre ++ d ∷ []) rest c room (i + 1) h.1 end
        (omega (arith, length-append pre (d ∷ []))) (omega arith)
    ∙ same
  where
    front : (pre ++ d ∷ []) ++ w ≡ pre ++ d ∷ w
    front = append_assoc pre (d ∷ []) w

    zeros : room - length w ≡ suc room - suc (length w)
    zeros = omega arith

    index : i + 1 + length w ≡ i + suc (length w)
    index = omega arith

    same :
        ◌≡◌ {A = Option (List ℕ × ℕ × List ℕ)}
          (some
            (((pre ++ d ∷ []) ++ w) ++ replicate (room - length w) 0, i + 1 + length w, c ∷ rest))
          (some (
            (pre ++ d ∷ w) ++ replicate (suc room - suc (length w)) 0,
            i + suc (length w),
            c ∷ rest,
          ))
    same = λ j. some (front j ++ replicate (zeros j) 0, index j, c ∷ rest)

-- The path behind a part: a slash is skipped, the terminator is not.
abbrev pub behind : ℕ → List ℕ → List ℕ
behind c rest = if c == b'/' then rest else c ∷ rest

module _ (rest : List ℕ) (c : ℕ) (end : IsEnd c) where
  -- An empty part is given back.
  pub parse_path_part-nil :
      (left : ℕ) → parse_path_part (suc left) (c ∷ rest) ≡ some (none, behind c rest, suc left)
  unfolding parse_path_part get_path_part part_loop
  parse_path_part-nil left = ground arith

  get_path_part-cons :
      (left d : ℕ) (w : List ℕ)
      → All IsPlain (d ∷ w)
      → length (d ∷ w) ≤ max_path
      → get_path_part (suc left) (d ∷ (w ++ c ∷ rest))
        ≡ some (some (pad (d ∷ w)), behind c rest, left)
  unfolding get_path_part
  get_path_part-cons left d w h k = rw (
    part_loop_lem (d ∷ w) [] rest c max_path 0 h end refl k,
    ne→==_false (0 + suc (length w)) 0 (omega arith),
  )

  -- A part of at most `max_path` characters is copied into a buffer of its own.
  pub parse_path_part-cons :
      (left d : ℕ) (w : List ℕ)
      → All IsPlain (d ∷ w)
      → length (d ∷ w) ≤ max_path
      → parse_path_part (suc (suc left)) (d ∷ (w ++ c ∷ rest))
        ≡ some (some (pad (d ∷ w)), behind c rest, left)
  unfolding parse_path_part
  parse_path_part-cons left d w h k = rw (get_path_part-cons (suc left) d w h k)
