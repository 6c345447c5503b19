-- ===== src/Keyboard/Inserting.antt =====
-- `keyboard_insert` on the list of keyboards, and what starting the PS/2 keyboard sets up.
use guava_os_pro.Prelude.{
  ℕ, ◌≡◌, ◌≢◌, refl, sym, arith, Option, none, some, List, [], ◌∷◌, ◌++◌, ◌==◌, if◌then◌else◌,
  length, set, ne→==_false, ==_refl, set?-eq-set,
}
use guava_os_pro.Prelude.Int.{ℤ, pos}
use guava_os_pro.Status.{einvarg}
use guava_os_pro.Disk.{Ports}
use guava_os_pro.Idt.{Callback, register_interrupt_callback, total_interrupts}
use guava_os_pro.Task.Queue.{last, Absent, Distinct}
use guava_os_pro.Task.Removal.{last-other}
use guava_os_pro.Task.Appending.{last-snoc}
use guava_os_pro.Keyboard.Drivers.{
  Driver, Keyboards, link, insert, keyboard_init, Chain, IsKeyboardList, Board, ps2_keyboard_init,
  keyboard_interrupt, ps2_port, enable_first_port,
}

Absent-snoc : (a k : ℕ) (xs : List ℕ) → Absent a xs → k ≢ a → Absent a (xs ++ k ∷ [])
Absent-snoc a k [] n ne = (ne, tt)
Absent-snoc a k (x ∷ xs) n ne = (n.0, Absent-snoc a k xs n.1 ne)

Distinct-snoc : (k : ℕ) (xs : List ℕ) → Distinct xs → Absent k xs → Distinct (xs ++ k ∷ [])
Distinct-snoc k [] u n = (tt, tt)
Distinct-snoc k (x ∷ xs) u n =
    (Absent-snoc x k xs u.0 (λ e. n.0 (sym e)), Distinct-snoc k xs u.1 n.1)

module _ {B : Type 0} where
  -- A store that changes one keyboard keeps the chain of others.
  Chain-other :
      (s : ℕ → Driver B) (a p : ℕ) (d : Driver B) (xs : List ℕ)
      → Absent a xs
      → Chain s p xs
      → Chain (λ q. if q == a then d else s q) p xs
  Chain-other s a p d [] n c = c
  Chain-other s a p d (x ∷ xs) n (e, z, c) =
      (e, z, rw (ne→==_false x a n.0) (Chain-other s a (s x).next d xs n.1 c))

  -- Linking a new keyboard behind the last one.
  Chain-snoc :
      (s : ℕ → Driver B) (k p x : ℕ) (xs : List ℕ)
      → Distinct (x ∷ xs)
      → Absent k (x ∷ xs)
      → k ≢ 0
      → (s k).next ≡ 0
      → Chain s p (x ∷ xs)
      → Chain
          (λ q. if q == last x xs then record (s (last x xs)) { next = k } else s q)
          p
          (x ∷ xs ++ k ∷ [])
  Chain-snoc s k p x [] u n z e (h, y, c) =
      (h, y, rw (==_refl x) (refl, z, rw (ne→==_false k x (λ f. n.0 (sym f))) e))
  Chain-snoc s k p x (w ∷ xs) u n z e (h, y, c) = (
    h,
    y,
    rw (ne→==_false x (last w xs) (λ f. last-other x w xs u.0 (sym f)))
        (Chain-snoc s k (s x).next w xs u.1 n.1 z e c),
  )

  last-nonzero : (s : ℕ → Driver B) (p x : ℕ) (xs : List ℕ) → Chain s p (x ∷ xs) → last x xs ≢ 0
  last-nonzero s p x [] c = c.1
  last-nonzero s p x (y ∷ xs) c = last-nonzero s (s x).next y xs c.2

  pub link-IsKeyboardList :
      (v : Keyboards B) (xs : List ℕ) (k : ℕ)
      → IsKeyboardList v xs
      → k ≢ 0
      → Absent k xs
      → (v.store k).next ≡ 0
      → IsKeyboardList (link v k) (xs ++ k ∷ [])
  unfolding link
  link-IsKeyboardList v [] k l z n e =
      rw l.last_is (record { chain = (refl, z, e); last_is = refl; unique = (tt, tt) })
  link-IsKeyboardList v (x ∷ xs) k l z n e =
      rw (l.last_is, ne→==_false (last x xs) 0 (last-nonzero v.store v.head x xs l.chain))
        (record {
          chain = Chain-snoc v.store k v.head x xs l.unique n z e l.chain;
          last_is = sym (last-snoc x xs k);
          unique = Distinct-snoc k (x ∷ xs) l.unique n;
        })

  link-board : (v : Keyboards B) (k : ℕ) → (link v k).board ≡ v.board
  unfolding link
  link-board v k = ground arith

  insert_lem :
      (v : Keyboards B) (k : ℕ) (f : B → Option (ℤ × B)) (res : ℤ) (b : B)
      → (v.store k).init ≡ some f
      → f v.board ≡ some (res, b)
      → insert v k ≡ some (res, record (link v k) { board = b })
  unfolding insert
  insert_lem v k f res b i run = rw (insert, i, link-board v k, run)

  -- A keyboard without an `init` function is refused, and the list is left as it is.
  pub insert_rejects :
      (v : Keyboards B) (k : ℕ) → (v.store k).init ≡ none → insert v k ≡ some (einvarg, v)
  unfolding insert
  insert_rejects v k i = rw (insert, i)

ps2_keyboard_init_lem :
    {S F D : Type 0} (p : Ports D) (handler : Callback F S) (b : Board S F D)
    → length b.callbacks ≡ total_interrupts
    → ps2_keyboard_init p handler b
      ≡ some (
        pos 0,
        record {
          callbacks = set b.callbacks keyboard_interrupt (some handler);
          device = p.outb ps2_port enable_first_port b.device;
        },
      )
unfolding ps2_keyboard_init register_interrupt_callback
ps2_keyboard_init_lem p handler b size =
    rw (set?-eq-set b.callbacks keyboard_interrupt (some handler) (omega arith))

-- On a list of keyboards, where the PS/2 keyboard is not in it yet and there are 512 callbacks,
-- `keyboard_init` puts it behind the others, makes its handler the callback of interrupt 0x21 and of
-- no other, and enables the first port.
pub keyboard_init_lem :
    {S F D : Type 0} (p : Ports D) (handler : Callback F S) (v : Keyboards (Board S F D))
    (xs : List ℕ) (ps2 : ℕ)
    → IsKeyboardList v xs
    → ps2 ≢ 0
    → Absent ps2 xs
    → (v.store ps2).next ≡ 0
    → (v.store ps2).init ≡ some (ps2_keyboard_init p handler)
    → length v.board.callbacks ≡ total_interrupts
    → (v' : Keyboards (Board S F D)) × (keyboard_init v ps2 ≡ some v')
      × IsKeyboardList v' (xs ++ ps2 ∷ [])
      × (v'.board.callbacks ≡ set v.board.callbacks keyboard_interrupt (some handler))
      × (v'.board.device ≡ p.outb ps2_port enable_first_port v.board.device)
unfolding keyboard_init
keyboard_init_lem {S} {F} {D} p handler v xs ps2 l z n e i size =
    let linked = link-IsKeyboardList v xs ps2 l z n e in
    let run = ps2_keyboard_init_lem p handler v.board size in
    let v' : Keyboards (Board S F D) = record (link v ps2) {
      board = record {
        callbacks = set v.board.callbacks keyboard_interrupt (some handler);
        device = p.outb ps2_port enable_first_port v.board.device;
      };
    } in
    (
      v',
      rw (insert_lem v ps2 (ps2_keyboard_init p handler) _ _ i run),
      record { chain = linked.chain; last_is = linked.last_is; unique = linked.unique },
      refl,
      refl,
    )
