-- ===== src/Terminal.antt =====
-- src/kernel.c: the terminal. The screen is the 16-bit cells of the video memory, by index; the
-- terminal does not scroll, and a row behind the last is written behind the screen. The bytes of a
-- message are `char`s, which are signed.
pub mod Printing
pub mod Clearing
mod Tests
use guava_os_pro.Prelude.{
  ℕ, zero, suc, ◌+◌, ◌-◌, ◌*◌, ◌%◌, ◌^◌, bit_or, Bool, Option, none, some, List, [], ◌∷◌, ltb, leb,
  ◌==◌, if◌then◌else◌, get_elem?, ◌>>=◌,
}
use guava_os_pro.CString.{strlen}

-- VGA_WIDTH and VGA_HEIGHT
abbrev pub width : ℕ
width = 80

abbrev pub height : ℕ
height = 20

-- `video_mem`, `terminal_row` and `terminal_col`
pub record Terminal : Type 0 where
  pub cells : ℕ → ℕ
  pub row : ℕ
  pub col : ℕ

-- A `char` as an `int`.
abbrev pub widen : ℕ → ℕ
widen c = if ltb c 128 then c else 2 ^ 32 - 256 + c

unfoldable pub make_char : ℕ → ℕ → ℕ
make_char c colour = bit_or (widen colour * 2 ^ 8 % 2 ^ 32) (widen c) % 2 ^ 16

unfoldable pub putchar : Terminal → ℕ → ℕ → ℕ → ℕ → Terminal
putchar t x y c colour = record t {
  cells = λ i. if i == y * width + x then make_char c colour else t.cells i;
}

unfoldable pub writechar : Terminal → ℕ → ℕ → Terminal
writechar t c colour =
    if c == b'\n'
    then record t { row = (t.row + 1) % 2 ^ 16; col = 0 }
    else (let t' = putchar t t.col t.row c colour in
        if leb width (t'.col + 1)
        then record t' { col = 0; row = (t'.row + 1) % 2 ^ 16 }
        else record t' { col = t'.col + 1 })

-- The inner loop of `terminal_initialize`, and the outer one, with the rounds left.
unfoldable pub clear_row : Terminal → ℕ → ℕ → ℕ → Terminal
clear_row t y x zero = t
clear_row t y x (suc left) = clear_row (putchar t x y b' ' 0) y (x + 1) left

unfoldable pub clear_rows : Terminal → ℕ → ℕ → Terminal
unfolding clear_row
clear_rows t y zero = t
clear_rows t y (suc left) = clear_rows (clear_row t y 0 width) (y + 1) left

-- The argument has the cells of the video memory.
unfoldable pub initialize : (ℕ → ℕ) → Terminal
unfolding clear_rows
initialize cells = clear_rows (record { cells = cells; row = 0; col = 0 }) 0 height

-- The loop at index `i` of the message, with `left` characters to go.
unfoldable pub print_loop : Terminal → List ℕ → ℕ → ℕ → ℕ → Option Terminal
print_loop t msg colour i zero = some t
print_loop t msg colour i (suc left) = do
  c ← get_elem? msg i
  print_loop (writechar t c colour) msg colour (i + 1) left

unfoldable pub print : Terminal → List ℕ → ℕ → Option Terminal
unfolding print_loop
print t msg colour = do len ← strlen msg; print_loop t msg colour 0 len
