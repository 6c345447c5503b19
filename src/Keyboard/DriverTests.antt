-- ===== src/Keyboard/DriverTests.antt =====
-- The PS/2 keyboard behind another one, on a device that keeps what is written to it.
use guava_os_pro.Prelude.{ℕ, refl, none, some, List, [], ◌∷◌, replicate, arith}
use guava_os_pro.Disk.{Ports}
use guava_os_pro.Idt.{Callback}
use guava_os_pro.Keyboard.Drivers.{Keyboards, IsKeyboardList, Board, ps2_keyboard_init}

abbrev recorder : Ports (List (ℕ × ℕ))
recorder = record {
  outb = λ port value d. (port, value) ∷ d;
  insb = λ port d. (0, d);
  insw = λ port d. (0, d);
}

abbrev handler : Callback ℕ ℕ
handler frame s = some s

abbrev keyboards : Keyboards (Board ℕ ℕ (List (ℕ × ℕ)))
keyboards = record {
  store = λ q. record {
    init = some (ps2_keyboard_init recorder handler);
    name = b'P' ∷ b'S' ∷ b'2' ∷ 0 ∷ [];
    next = 0;
  };
  head = 3;
  last = 3;
  board = record { callbacks = replicate 512 none; device = [] };
}

keyboards-IsKeyboardList : IsKeyboardList keyboards (3 ∷ [])
keyboards-IsKeyboardList = record {
  chain = (refl, (λ e. omega (arith, e)), refl);
  last_is = refl;
  unique = (tt, tt);
}
