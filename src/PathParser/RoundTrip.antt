-- ===== src/PathParser/RoundTrip.antt =====
-- A path printed from its parts parses back to them.
use guava_os_pro.Prelude.{
  ℕ, suc, ◌+◌, ◌-◌, ◌*◌, ◌≤◌, ◌<◌, ◌≡◌, refl, ap, ◌∙◌, some, List, [], ◌∷◌, ◌++◌, arith, length,
  All, map, true,
}
use guava_os_pro.Prelude.Int.{pos}
use guava_os_pro.CString.{is_digit}
use guava_os_pro.CString.Content.{IsText}
use guava_os_pro.PathParser.{max_path, parse}
use guava_os_pro.PathParser.Split.{IsPlain, split, until_empty, split-last, split-more}
use guava_os_pro.PathParser.Words.{pad}
use guava_os_pro.PathParser.Parse.{words, with_drive, parse-words}

-- A part has a character, and no slash or zero in it.
abbrev pub IsPart : List ℕ → Type 0
IsPart w = (0 < length w) × All IsPlain w

-- The parts with a slash between each two.
abbrev pub join : List (List ℕ) → List ℕ
join [] = []
join (w ∷ []) = w
join (w ∷ v ∷ ws) = w ++ b'/' ∷ join (v ∷ ws)

until_empty-cons :
    (w : List ℕ) (ws : List (List ℕ)) → 0 < length w → until_empty (w ∷ ws) ≡ w ∷ until_empty ws
unfolding until_empty
until_empty-cons [] ws h = absurd (omega arith)
until_empty-cons (c ∷ w) ws h = refl

words-join : (ws : List (List ℕ)) → All IsPart ws → words (join ws) ≡ ws
words-join [] h = unfold split until_empty in refl
words-join (w ∷ []) h =
    ap until_empty (split-last w h.0.1)
    ∙ until_empty-cons w [] h.0.0
    ∙ ap (◌∷◌ w) (unfold until_empty in refl)
words-join (w ∷ v ∷ ws) h =
    ap until_empty (split-more w (join (v ∷ ws)) h.0.1)
    ∙ until_empty-cons w (split (join (v ∷ ws))) h.0.0
    ∙ ap (◌∷◌ w) (words-join (v ∷ ws) h.1)

IsPlain-IsText : (w : List ℕ) → All IsPlain w → IsText w
IsPlain-IsText [] h = tt
IsPlain-IsText (c ∷ w) h = (h.0.1, IsPlain-IsText w h.1)

IsText-append : (xs ys : List ℕ) → IsText xs → IsText ys → IsText (xs ++ ys)
IsText-append [] ys h k = k
IsText-append (x ∷ xs) ys h k = (h.0, IsText-append xs ys h.1 k)

join-IsText : (ws : List (List ℕ)) → All IsPart ws → IsText (join ws)
join-IsText [] h = tt
join-IsText (w ∷ []) h = IsPlain-IsText w h.0.1
join-IsText (w ∷ v ∷ ws) h =
    IsText-append w (b'/' ∷ join (v ∷ ws)) (IsPlain-IsText w h.0.1)
      (omega arith, join-IsText (v ∷ ws) h.1)

-- A path of at most 108 characters that is printed from a drive's digit and parts, none of them
-- empty and none with a slash, parses to that drive and exactly those parts, in order, if the heap
-- has two blocks for each part and two more.
pub parse-join :
    (d : ℕ) (ws : List (List ℕ)) (rest : List ℕ) (r left : ℕ)
    → is_digit d ≡ true
    → All IsPart ws
    → length (join ws) + 3 ≤ max_path
    → left ≡ suc r + (1 + 2 * length ws)
    → parse left (with_drive d (join ws) ++ 0 ∷ rest)
      ≡ some (some (record { drive_number = pos (d - 48); first = map pad ws }), suc r)
parse-join d ws rest r left digit h k e =
    parse-words d (join ws) rest r left digit (join-IsText ws h) k (rw (words-join ws h) e)
    ∙ ap
        (λ (vs : List (List ℕ)).
          some (some (record { drive_number = pos (d - 48); first = map pad vs }), suc r))
        (words-join ws h)
