-- ===== src/PathParser/Tests.antt =====
-- Runs of the path parser.
use guava_os_pro.Prelude.{ℕ, ◌-◌, ◌≡◌, refl, true, some, List, [], ◌∷◌, ◌++◌, arith, map}
use guava_os_pro.Prelude.Int.{pos}
use guava_os_pro.CString.{is_digit}
use guava_os_pro.PathParser.{PathRoot, parse, free}
use guava_os_pro.PathParser.Words.{pad}
use guava_os_pro.PathParser.Parse.{words, with_drive, parse-words, free-parse}
use guava_os_pro.PathParser.RoundTrip.{join, parse-join}

-- bin, a and the empty word: `bin/a/`
abbrev bin : List ℕ
bin = b'b' ∷ b'i' ∷ b'n' ∷ []

abbrev directory : List ℕ
directory = b'b' ∷ b'i' ∷ b'n' ∷ b'/' ∷ b'a' ∷ b'/' ∷ []

zero-is_digit : is_digit b'0' ≡ true
unfolding is_digit
zero-is_digit = refl

words-directory : words directory ≡ bin ∷ (b'a' ∷ []) ∷ []
words-directory =
    unfold guava_os_pro.PathParser.Split.split guava_os_pro.PathParser.Split.until_empty in refl

parse-words_example :
    parse 10 (b'0' ∷ b':' ∷ b'/' ∷ (directory ++ 0 ∷ 9 ∷ []))
    ≡ some (some (record { drive_number = pos (b'0' - 48); first = map pad (words directory) }), 5)
parse-words_example =
    parse-words b'0' directory (9 ∷ []) 4 10 zero-is_digit (omega arith) (omega arith)
      (rw words-directory refl)

parse-join_example :
    parse 7 (with_drive b'0' (join (bin ∷ (b'a' ∷ []) ∷ [])) ++ 0 ∷ [])
    ≡ some (
      some (record { drive_number = pos (b'0' - 48); first = map pad (bin ∷ (b'a' ∷ []) ∷ []) }),
      2,
    )
parse-join_example =
    parse-join b'0' (bin ∷ (b'a' ∷ []) ∷ []) [] 1 7 zero-is_digit (omega arith) (omega arith) refl

free-parse_example :
    (root : PathRoot) × (left' : ℕ) × (parse 10 (with_drive b'0' directory ++ 0 ∷ [])
      ≡ some (some root, left'))
    × (free root left' ≡ 10)
free-parse_example =
    free-parse b'0' directory [] 4 10 zero-is_digit (omega arith) (omega arith)
      (rw words-directory refl)
