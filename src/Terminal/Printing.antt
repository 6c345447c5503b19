-- ===== src/Terminal/Printing.antt =====
-- Printing, with the row and the column as one position on the screen.
use mathlib.Core.List.{append_assoc}
use native.Mathlib.Decide.{dec_le, ℕ_discrete}
use guava_os_pro.Prelude.{
  ℕ, ◌+◌, ◌*◌, ◌/◌, ◌%◌, ◌^◌, ◌≤◌, ◌<◌, ◌≡◌, ◌≢◌, inl, inr, refl, sym, ap, ◌∙◌, arith, true, some,
  List, [], ◌∷◌, ◌++◌, length, length-append, lt→leb_false, ◌==◌, ne→==_false, if◌then◌else◌,
  get_elem?, get_elem?-append_right,
}
use guava_os_pro.CString.Content.{content, IsTerminated, strlen_lem}
use guava_os_pro.Terminal.{Terminal, width, make_char, putchar, writechar, print_loop, print}

-- The cells and the position of the cursor.
abbrev pub Screen : Type 0
Screen = (ℕ → ℕ) × ℕ

abbrev pub view : Terminal → Screen
view t = (t.cells, t.row * width + t.col)

-- A new line starts at the next multiple of the width; another character is stored at the cursor.
abbrev pub typed : Screen → ℕ → ℕ → Screen
typed (cells, at) c colour =
    if c == b'\n'
    then (cells, (at / width + 1) * width)
    else ((λ i. if i == at then make_char c colour else cells i), at + 1)

abbrev pub typed_all : Screen → List ℕ → ℕ → Screen
typed_all s [] colour = s
typed_all s (c ∷ msg) colour = typed_all (typed s c colour) msg colour

-- What a character does to the terminal.
record Typed (t t' : Terminal) (c colour : ℕ) : Type 0 where
  view_is : view t' ≡ typed (view t) c colour
  column : t'.col < width
  rows : t'.row ≤ t.row + 1

-- The cells after a character is stored at the cursor.
abbrev stored : Terminal → ℕ → ℕ → ℕ → ℕ
stored t c colour i = if i == t.row * width + t.col then make_char c colour else t.cells i

same_cells : (cells : ℕ → ℕ) {a b : ℕ} → a ≡ b → Path Screen (cells, a) (cells, b)
same_cells cells e = λ i. (cells, e i)

writechar_newline :
    (t : Terminal) (c colour : ℕ)
    → c ≡ b'\n'
    → t.col < width
    → t.row + 1 < 2 ^ 16
    → Typed t (writechar t c colour) c colour
unfolding writechar putchar
writechar_newline t c colour e h k =
    let next : (t.row + 1) % 2 ^ 16 ≡ t.row + 1 = omega arith in
    rw (e, next)
      record { view_is = same_cells t.cells at; column = omega arith; rows = omega arith }
  where
    at : (t.row + 1) * width + 0 ≡ ((t.row * width + t.col) / width + 1) * width
    at = omega arith

writechar_plain :
    (t : Terminal) (c colour : ℕ)
    → c ≢ b'\n'
    → t.col + 1 < width
    → Typed t (writechar t c colour) c colour
unfolding writechar putchar
writechar_plain t c colour n h =
    rw (ne→==_false c b'\n' n, lt→leb_false width (t.col + 1) h)
      record {
        view_is = rw (ne→==_false c b'\n' n) (same_cells (stored t c colour) at);
        column = omega arith;
        rows = omega arith;
      }
  where
    at : t.row * width + (t.col + 1) ≡ t.row * width + t.col + 1
    at = omega arith

writechar_last :
    (t : Terminal) (c colour : ℕ)
    → c ≢ b'\n'
    → t.col + 1 ≡ width
    → t.row + 1 < 2 ^ 16
    → Typed t (writechar t c colour) c colour
unfolding writechar putchar
writechar_last t c colour n h k =
    let next : (t.row + 1) % 2 ^ 16 ≡ t.row + 1 = omega arith in
    rw (ne→==_false c b'\n' n, h, next)
      record {
        view_is = rw (ne→==_false c b'\n' n) (same_cells (stored t c colour) at);
        column = omega arith;
        rows = omega arith;
      }
  where
    at : (t.row + 1) * width + 0 ≡ t.row * width + t.col + 1
    at = omega arith

writechar_lem :
    (t : Terminal) (c colour : ℕ)
    → t.col < width
    → t.row + 1 < 2 ^ 16
    → Typed t (writechar t c colour) c colour
writechar_lem t c colour h k = elim (ℕ_discrete c b'\n') [
  | yes e ↦ writechar_newline t c colour e h k
  | no n ↦ elim (dec_le width (t.col + 1)) [
    | yes l ↦ writechar_last t c colour n (omega arith) k
    | no l ↦ writechar_plain t c colour n (omega arith)
  ]
]

-- The loop over the message, whose first `i` characters are printed already.
print_loop_lem :
    (todo done rest : List ℕ) (t : Terminal) (colour i : ℕ)
    → i ≡ length done
    → t.col < width
    → t.row + length todo < 2 ^ 16
    → (t' : Terminal) × (print_loop t (done ++ (todo ++ rest)) colour i (length todo) ≡ some t')
      × (view t' ≡ typed_all (view t) todo colour)
      × (t'.col < width)
unfolding print_loop
print_loop_lem [] done rest t colour i e h k = (t, refl, refl, h)
print_loop_lem (c ∷ todo) done rest t colour i e h k =
    let w = writechar_lem t c colour h (omega arith) in
    let (t', run, v, col) =
      print_loop_lem todo (done ++ c ∷ []) rest (writechar t c colour) colour (i + 1)
        (omega (arith, length-append done (c ∷ []))) w.column (omega (arith, w.rows)) in
    (
      t',
      rw char_at (
          ap (λ m. print_loop (writechar t c colour) m colour (i + 1) (length todo))
            (sym (append_assoc done (c ∷ []) (todo ++ rest)))
          ∙ run),
      v ∙ ap (λ s. typed_all s todo colour) w.view_is,
      col,
    )
  where
    char_at : get_elem? (done ++ (c ∷ (todo ++ rest))) i ≡ some c
    char_at = get_elem?-append_right done (c ∷ (todo ++ rest)) 0 i (omega arith)

content-prefix : (msg : List ℕ) → IsTerminated msg → (rest : List ℕ) × (msg ≡ content msg ++ rest)
content-prefix [] t = elim t [ ]
content-prefix (c ∷ msg) t = elim (ℕ_discrete c 0) [
  | yes e ↦ (c ∷ msg, let z : (c == 0) ≡ true = rw e refl in rw z)
  | no n ↦
      let (rest, e) = content-prefix msg (elim t [ inl z ↦ absurd (n z) | inr k ↦ k ]) in
      (rest, rw (ne→==_false c 0 n) (ap (◌∷◌ c) e))
]

-- On a terminal whose column lies within the screen's width, printing a message that ends in a zero
-- types the characters in front of it, one after another, at a single position on the screen, if
-- its row has room below 2 ^ 16 for as many rows: a new line moves the position to the next
-- multiple of the width, any other character is stored there and moves it on by one. The column
-- stays within the width.
pub print_lem :
    (t : Terminal) (msg : List ℕ) (colour : ℕ)
    → IsTerminated msg
    → t.col < width
    → t.row + length (content msg) < 2 ^ 16
    → (t' : Terminal) × (print t msg colour ≡ some t')
      × (view t' ≡ typed_all (view t) (content msg) colour)
      × (t'.col < width)
unfolding print
print_lem t msg colour z h k =
    let (rest, e) = content-prefix msg z in
    let (t', run, v, col) = print_loop_lem (content msg) [] rest t colour 0 refl h k in
    (
      t',
      rw (strlen_lem msg z) (ap (λ m. print_loop t m colour 0 (length (content msg))) e ∙ run),
      v,
      col,
    )
