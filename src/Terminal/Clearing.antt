-- ===== src/Terminal/Clearing.antt =====
-- `terminal_initialize` on the cells of the screen.
use mathlib.Core.Path.{subst}
use native.Mathlib.Decide.{dec_lt}
use guava_os_pro.Prelude.{
  ltb, lt→ltb, le→ltb_false, if◌then◌else◌, ℕ, zero, suc, ◌+◌, ◌*◌, ◌≤◌, ◌<◌, ◌≡◌, refl, ◌∙◌, arith,
  ==_refl, ne→==_false,
}
use guava_os_pro.Terminal.{
  Terminal, width, height, make_char, putchar, clear_row, clear_rows, initialize,
}

-- The cells from `a` on and below `b` are blank, and nothing else is different.
record Cleared (t t' : Terminal) (a b : ℕ) : Type 0 where
  blank : (i : ℕ) → a ≤ i → i < b → t'.cells i ≡ make_char b' ' 0
  same_below : (i : ℕ) → i < a → t'.cells i ≡ t.cells i
  same_above : (i : ℕ) → b ≤ i → t'.cells i ≡ t.cells i
  row_is : t'.row ≡ t.row
  col_is : t'.col ≡ t.col

nothing : (t : Terminal) (a : ℕ) → Cleared t t a a
nothing t a = record {
  blank = λ i h k. absurd (omega arith);
  same_below = λ i h. refl;
  same_above = λ i h. refl;
  row_is = refl;
  col_is = refl;
}

both :
    (t t1 t2 : Terminal) (a b c : ℕ)
    → a ≤ b
    → b ≤ c
    → Cleared t t1 a b
    → Cleared t1 t2 b c
    → Cleared t t2 a c
both t t1 t2 a b c h k p q = record {
  blank = λ i l r. elim (dec_lt i b) [
    | yes m ↦ q.same_below i m ∙ p.blank i l m
    | no m ↦ q.blank i (omega arith) r
  ];
  same_below = λ i l. q.same_below i (omega arith) ∙ p.same_below i l;
  same_above = λ i l. q.same_above i l ∙ p.same_above i (omega arith);
  row_is = q.row_is ∙ p.row_is;
  col_is = q.col_is ∙ p.col_is;
}

putchar_lem :
    (t : Terminal) (x y : ℕ) → Cleared t (putchar t x y b' ' 0) (y * width + x) (y * width + x + 1)
unfolding putchar
putchar_lem t x y = record {
  blank = λ i h k. rw (let e : i ≡ y * width + x = omega arith in e, ==_refl (y * width + x));
  same_below = λ i h. rw (ne→==_false i (y * width + x) (omega arith));
  same_above = λ i h. rw (ne→==_false i (y * width + x) (omega arith));
  row_is = refl;
  col_is = refl;
}

clear_row_lem :
    (left x y : ℕ) (t : Terminal) (a b : ℕ)
    → a ≡ y * width + x
    → b ≡ a + left
    → Cleared t (clear_row t y x left) a b
unfolding clear_row
clear_row_lem zero x y t a b e k =
    subst (Cleared t t a) (let z : a ≡ b = omega arith in z) (nothing t a)
clear_row_lem (suc left) x y t a b e k =
    let t1 = putchar t x y b' ' 0 in
    both t t1 (clear_row t1 y (x + 1) left) a (a + 1) b (omega arith) (omega arith)
      (rw e (putchar_lem t x y))
      (clear_row_lem left (x + 1) y t1 (a + 1) b (omega arith) (omega arith))

clear_rows_lem :
    (left y : ℕ) (t : Terminal) (a b : ℕ)
    → a ≡ y * width
    → b ≡ a + left * width
    → Cleared t (clear_rows t y left) a b
unfolding clear_rows
clear_rows_lem zero y t a b e k =
    subst (Cleared t t a) (let z : a ≡ b = omega arith in z) (nothing t a)
clear_rows_lem (suc left) y t a b e k =
    let t1 = clear_row t y 0 width in
    both t t1 (clear_rows t1 (y + 1) left) a (a + width) b (omega arith) (omega arith)
      (clear_row_lem width 0 y t a (a + width) (omega arith) refl)
      (clear_rows_lem left (y + 1) t1 (a + width) b (omega arith) (omega arith))

-- The terminal starts with a blank screen of 20 rows of 80 cells, with the cells behind it as they
-- were, and writes in the first cell next.
pub initialize_lem :
    (cells : ℕ → ℕ) (i : ℕ)
    → ((initialize cells).cells i ≡ (if ltb i (height * width) then make_char b' ' 0 else cells i))
      × ((initialize cells).row ≡ 0)
      × ((initialize cells).col ≡ 0)
unfolding initialize
initialize_lem cells i = (cell, cleared.row_is, cleared.col_is)
  where
    start : Terminal
    start = record { cells = cells; row = 0; col = 0 }

    cleared : Cleared start (clear_rows start 0 height) 0 (height * width)
    cleared = clear_rows_lem height 0 start 0 (height * width) refl refl

    cell :
        (clear_rows start 0 height).cells i
        ≡ (if ltb i (height * width) then make_char b' ' 0 else cells i)
    cell = elim (dec_lt i (height * width)) [
      | yes h ↦ rw (lt→ltb i (height * width) h) (cleared.blank i (omega arith) h)
      | no h ↦
          rw (le→ltb_false i (height * width) (omega arith)) (cleared.same_above i (omega arith))
    ]
