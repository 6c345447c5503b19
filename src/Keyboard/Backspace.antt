-- ===== src/Keyboard/Backspace.antt =====
-- `keyboard_backspace` on the buffer as a queue.
use native.Mathlib.Decide.{ℕ_discrete}
use guava_os_pro.Prelude.{
  ℕ, suc, ◌+◌, ◌%◌, ◌<◌, ◌≡◌, refl, sym, ap, ◌∙◌, none, some, List, [], ◌∷◌, ◌++◌, arith, length,
  set, set?-eq-set, get_or-set_self, get_or-set_ne, length-set, length-append,
}
use guava_os_pro.Prelude.Int.{pos}
use guava_os_pro.Keyboard.{
  KeyboardBuffer, Machine, update, buffer_size, real_index, get_tail_index, backspace,
}
use guava_os_pro.Keyboard.Queue.{Holds, get_or-past, get_or-snoc_ne, places-ne}

-- `keyboard_backspace` takes back the character that was pushed last, if there is one.
pub backspace-Holds :
    (m : Machine) (p h c : ℕ) (q : List ℕ)
    → Holds (m.keyboard p) h (q ++ c ∷ [])
    → (k : KeyboardBuffer) × (backspace m p ≡ some (update m p k)) × Holds k h q
unfolding backspace get_tail_index real_index
backspace-Holds m p h c q v = (
  dropped,
  rw (tail_is, set?-eq-set (m.keyboard p).buffer place 0 (omega (arith, v.size))),
  record {
    size = length-set (m.keyboard p).buffer place 0 ∙ v.size;
    fits = omega (arith, room);
    in_range = omega (arith, v.in_range, length-append q (c ∷ []));
    head = v.head;
    tail = refl;
    places = λ j lt. elim (ℕ_discrete j (length q)) [
      | yes e ↦ rw (
        e,
        get_or-past q (length q) (omega arith),
        get_or-set_self (m.keyboard p).buffer place 0 0 (omega (arith, v.size)),
      )
      | no ne ↦
          get_or-set_ne (m.keyboard p).buffer place ((h + j) % buffer_size) 0 0
            (places-ne h (length q) j room lt (λ e. ne (sym e)))
          ∙ v.places j lt
          ∙ get_or-snoc_ne q c j ne
    ];
  },
)
  where
    place : ℕ
    place = (h + length q) % buffer_size

    dropped : KeyboardBuffer
    dropped = record {
      buffer = set (m.keyboard p).buffer place 0;
      tail = pos (h + length q);
      head = (m.keyboard p).head;
    }

    room : length q < buffer_size
    room = omega (arith, v.fits, length-append q (c ∷ []))

    tail_is : (m.keyboard p).tail ≡ pos (suc (h + length q))
    tail_is = v.tail ∙ ap pos (omega (arith, length-append q (c ∷ [])))

-- In a fresh buffer, and wherever the tail is 0, `keyboard_backspace` writes before the buffer.
pub backspace_underruns : (m : Machine) (p : ℕ) → (m.keyboard p).tail ≡ pos 0 → backspace m p ≡ none
unfolding backspace get_tail_index real_index
backspace_underruns m p e = rw e
