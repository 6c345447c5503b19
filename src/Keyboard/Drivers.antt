-- ===== src/Keyboard/Drivers.antt =====
-- The list of keyboards of src/keyboard/keyboard.c, and the one that src/keyboard/ps2.c puts in it.
-- Keyboards are objects of a store by their addresses, 0 being the null pointer; `B` is what their
-- `init` functions work on.
use guava_os_pro.Prelude.{
  ℕ, ◌≡◌, ◌≢◌, not, Option, none, some, List, [], ◌∷◌, ◌==◌, if◌then◌else◌, ◌>>=◌,
}
use guava_os_pro.Prelude.Int.{ℤ, pos}
use guava_os_pro.Status.{einvarg}
use guava_os_pro.Disk.{Ports}
use guava_os_pro.Task.Queue.{last, Distinct}
use guava_os_pro.Idt.{Callback, register_interrupt_callback}

-- `struct keyboard`
pub record Driver (B : Type 0) : Type 0 where
  pub init : Option (B → Option (ℤ × B))
  pub name : List ℕ
  pub next : ℕ

-- The keyboards, `keyboard_list_head` and `keyboard_list_last`, and what the drivers work on.
pub record Keyboards (B : Type 0) : Type 0 where
  pub store : ℕ → Driver B
  pub head : ℕ
  pub last : ℕ
  pub board : B

-- PS2_PORT, PS2_COMMAND_ENABLE_FIRST_PORT and ISR_KEYBOARD_INTERRUPT
abbrev pub ps2_port : ℕ
ps2_port = 0x64

abbrev pub enable_first_port : ℕ
enable_first_port = 0xAE

abbrev pub keyboard_interrupt : ℕ
keyboard_interrupt = 0x21

module _ {B : Type 0} where
  -- The keyboard behind the last one, or alone.
  unfoldable pub link : Keyboards B → ℕ → Keyboards B
  link v keyboard =
      if not (v.last == 0)
      then record v {
        store = λ q. if q == v.last then record (v.store v.last) { next = keyboard } else v.store q;
        last = keyboard;
      }
      else record v { head = keyboard; last = keyboard }

  -- A keyboard whose `init` fails stays in the list.
  unfoldable pub insert : Keyboards B → ℕ → Option (ℤ × Keyboards B)
  unfolding link
  insert v keyboard = elim ((v.store keyboard).init) [
    | none ↦ some (einvarg, v)
    | some init ↦ (do
      let v' = link v keyboard
      (res, board) ← init v'.board
      some (res, record v' { board = board }))
  ]

  -- `keyboard_init`: `ps2_get` is the address of the one keyboard.
  unfoldable pub keyboard_init : Keyboards B → ℕ → Option (Keyboards B)
  keyboard_init v ps2_get = do (res, v') ← insert v ps2_get; some v'

  -- The keyboards from an address on.
  abbrev pub Chain : (ℕ → Driver B) → ℕ → List ℕ → Type 0
  Chain s p [] = p ≡ 0
  Chain s p (x ∷ xs) = (p ≡ x) × (x ≢ 0) × Chain s (s x).next xs

  pub record IsKeyboardList (v : Keyboards B) (xs : List ℕ) : Type 0 where
    pub chain : Chain v.store v.head xs
    pub last_is : v.last ≡ last 0 xs
    pub unique : Distinct xs

-- What the PS/2 driver sets up: the callbacks of interrupts, and its device.
pub record Board (S F D : Type 0) : Type 0 where
  pub callbacks : List (Option (Callback F S))
  pub device : D

module _ {S F D : Type 0} (p : Ports D) where
  -- The result of the registration is not looked at.
  unfoldable pub ps2_keyboard_init : Callback F S → Board S F D → Option (ℤ × Board S F D)
  ps2_keyboard_init handle_interrupt b = do
    (res, callbacks) ←
        register_interrupt_callback b.callbacks (pos keyboard_interrupt) (some handle_interrupt)
    some (
      pos 0,
      record { callbacks = callbacks; device = p.outb ps2_port enable_first_port b.device },
    )
