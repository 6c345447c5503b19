-- ===== src/Terminal/Tests.antt =====
-- A message over the end of a row, and a fresh screen.
use guava_os_pro.Prelude.{ℕ, ◌<◌, ◌≡◌, some, List, [], ◌∷◌, arith}
use guava_os_pro.CString.Content.{IsTerminated-append}
use guava_os_pro.Terminal.{Terminal, width, print}
use guava_os_pro.Terminal.Printing.{view, typed_all, print_lem}

abbrev at_end : Terminal
at_end = record { cells = λ i. 0; row = 3; col = 79 }

-- "hi\n!"
abbrev msg : List ℕ
msg = b'h' ∷ b'i' ∷ b'\n' ∷ b'!' ∷ 0 ∷ []

print_lem_example :
    (t : Terminal) × (print at_end msg 3 ≡ some t)
    × (view t ≡ typed_all (view at_end) (b'h' ∷ b'i' ∷ b'\n' ∷ b'!' ∷ []) 3)
    × (t.col < width)
print_lem_example =
    print_lem at_end msg 3 (IsTerminated-append (b'h' ∷ b'i' ∷ b'\n' ∷ b'!' ∷ []) []) (omega arith)
      (omega arith)
