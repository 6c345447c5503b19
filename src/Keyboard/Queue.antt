-- ===== src/Keyboard/Queue.antt =====
-- The keyboard buffer as a queue of characters.
use native.Mathlib.Decide.{ℕ_discrete, dec_lt}
use guava_os_pro.Prelude.{
  ℕ, zero, suc, ◌+◌, ◌%◌, ◌^◌, lt→leb_false, ◌≤◌, ◌<◌, ◌≡◌, ◌≢◌, refl, sym, ap, ◌∙◌, some, List, [],
  ◌∷◌, ◌++◌, arith, length, get_or, set, set?-eq-set, get_elem?, get_elem?-eq-get_or,
  get_or-set_self, get_or-set_ne, lt_of_get_elem?, length-set, length-append, ne→==_false, ==_refl,
}
use guava_os_pro.Prelude.Int.{pos}
use guava_os_pro.Keyboard.{
  KeyboardBuffer, Machine, update, buffer_size, real_index, get_tail_index, push_to, push, pop_from,
  pop,
}

-- The characters that wait, oldest first, lie from the head on and go round at the end; every other
-- place of the buffer is zero.
pub record Holds (k : KeyboardBuffer) (h : ℕ) (q : List ℕ) : Type 0 where
  pub size : length k.buffer ≡ buffer_size
  pub fits : length q ≤ buffer_size
  pub in_range : h + length q < 2 ^ 31
  pub head : k.head ≡ pos h
  pub tail : k.tail ≡ pos (h + length q)
  pub places : (j : ℕ) → j < buffer_size → get_or k.buffer ((h + j) % buffer_size) 0 ≡ get_or q j 0

pub get_or-past : (q : List ℕ) (j : ℕ) → length q ≤ j → get_or q j 0 ≡ 0
get_or-past [] j h = refl
get_or-past (c ∷ q) zero h = absurd (omega arith)
get_or-past (c ∷ q) (suc j) h = get_or-past q j (omega arith)

get_or-snoc_last : (q : List ℕ) (c : ℕ) → get_or (q ++ c ∷ []) (length q) 0 ≡ c
get_or-snoc_last [] c = refl
get_or-snoc_last (d ∷ q) c = get_or-snoc_last q c

pub get_or-snoc_ne : (q : List ℕ) (c j : ℕ) → j ≢ length q → get_or (q ++ c ∷ []) j 0 ≡ get_or q j 0
get_or-snoc_ne [] c zero h = absurd (h refl)
get_or-snoc_ne [] c (suc j) h = refl
get_or-snoc_ne (d ∷ q) c zero h = refl
get_or-snoc_ne (d ∷ q) c (suc j) h = get_or-snoc_ne q c j (λ e. h (ap suc e))

-- Two places less than a round apart are different.
pub places-ne :
    (h i j : ℕ)
    → i < buffer_size
    → j < buffer_size
    → i ≢ j
    → (h + i) % buffer_size ≢ (h + j) % buffer_size
places-ne h i j a b ne e = ne (omega arith)

-- The buffer after a character has been put behind the others.
abbrev pub pushed : KeyboardBuffer → ℕ → ℕ → KeyboardBuffer
pushed k t c = record {
  buffer = set k.buffer (t % buffer_size) c;
  tail = pos (suc t);
  head = k.head;
}

pushed-Holds :
    (k : KeyboardBuffer) (h : ℕ) (q : List ℕ) (c : ℕ)
    → Holds k h q
    → length q < buffer_size
    → suc (h + length q) < 2 ^ 31
    → Holds (pushed k (h + length q) c) h (q ++ c ∷ [])
pushed-Holds k h q c v room r = record {
  in_range = omega (arith, length-append q (c ∷ []));
  size = length-set k.buffer ((h + length q) % buffer_size) c ∙ v.size;
  fits = omega (arith, length-append q (c ∷ []));
  head = v.head;
  tail = ap pos (omega (arith, length-append q (c ∷ [])));
  places = λ j lt. elim (ℕ_discrete j (length q)) [
    | yes e ↦ rw (
      e,
      get_or-snoc_last q c,
      get_or-set_self k.buffer ((h + length q) % buffer_size) c 0 (omega (arith, v.size)),
    )
    | no ne ↦
        get_or-set_ne k.buffer ((h + length q) % buffer_size) ((h + j) % buffer_size) c 0
          (places-ne h (length q) j room lt (λ e. ne (sym e)))
        ∙ v.places j lt
        ∙ sym (get_or-snoc_ne q c j ne)
  ];
}

-- What `keyboard_push` does to a buffer whose tail is not negative.
push_lem :
    (m : Machine) (p t c : ℕ)
    → m.current_process ≡ some p
    → (m.keyboard p).tail ≡ pos t
    → length (m.keyboard p).buffer ≡ buffer_size
    → suc t < 2 ^ 31
    → push m c ≡ some (update m p (pushed (m.keyboard p) t c))
unfolding push push_to get_tail_index real_index
push_lem m p t c current tail size r = rw (
  current,
  tail,
  set?-eq-set (m.keyboard p).buffer (t % buffer_size) c (omega (arith, size)),
  lt→leb_false (2 ^ 31) (suc t) r,
)

-- `keyboard_push` with a current process whose buffer holds fewer than 1024 characters, and whose
-- tail has not reached 2 ^ 31 - 1, puts the character behind them, and changes no other process.
pub push-Holds :
    (m : Machine) (p h : ℕ) (q : List ℕ) (c : ℕ)
    → m.current_process ≡ some p
    → Holds (m.keyboard p) h q
    → length q < buffer_size
    → suc (h + length q) < 2 ^ 31
    → (k : KeyboardBuffer) × (push m c ≡ some (update m p k)) × Holds k h (q ++ c ∷ [])
push-Holds m p h q c current v room r = (
  pushed (m.keyboard p) (h + length q) c,
  push_lem m p (h + length q) c current v.tail v.size r,
  pushed-Holds (m.keyboard p) h q c v room r,
)

-- The buffer after its oldest character has been taken.
abbrev pub popped : KeyboardBuffer → ℕ → KeyboardBuffer
popped k h = record { buffer = set k.buffer (h % buffer_size) 0; tail = k.tail; head = pos (suc h) }

popped-Holds :
    (k : KeyboardBuffer) (h c : ℕ) (q : List ℕ) → Holds k h (c ∷ q) → Holds (popped k h) (suc h) q
popped-Holds k h c q v = record {
  in_range = omega (arith, v.in_range);
  size = length-set k.buffer (h % buffer_size) 0 ∙ v.size;
  fits = omega (arith, v.fits);
  head = refl;
  tail = v.tail ∙ ap pos (omega arith);
  places = λ j lt. elim (dec_lt (suc j) buffer_size) [
    | yes inner ↦
        ap (λ i. get_or (set k.buffer (h % buffer_size) 0) i 0) (place j)
        ∙ get_or-set_ne k.buffer (h % buffer_size) ((h + suc j) % buffer_size) 0 0 (omega arith)
        ∙ v.places (suc j) inner
    | no last ↦
        ap (λ i. get_or (set k.buffer (h % buffer_size) 0) i 0) (round j last lt)
        ∙ get_or-set_self k.buffer (h % buffer_size) 0 0 (omega (arith, v.size))
        ∙ sym (get_or-past q j (omega (arith, v.fits)))
  ];
}
  where
    place : (j : ℕ) → (suc h + j) % buffer_size ≡ (h + suc j) % buffer_size
    place j = omega arith

    round :
        (j : ℕ)
        → ¬ (suc j < buffer_size)
        → j < buffer_size
        → (suc h + j) % buffer_size ≡ h % buffer_size
    round j a b = omega arith

-- What `keyboard_pop` does where a character waits at the head.
pop_lem :
    (m : Machine) (p h c : ℕ) (k : KeyboardBuffer)
    → m.keyboard p ≡ k
    → m.task_process ≡ some p
    → k.head ≡ pos h
    → get_elem? k.buffer (h % buffer_size) ≡ some c
    → c ≢ 0
    → suc h < 2 ^ 31
    → pop m ≡ some (c, update m p (popped k h))
unfolding pop pop_from real_index
pop_lem m p h c k is_k task head byte ne r = rw (
  task,
  is_k,
  head,
  byte,
  ne→==_false c 0 ne,
  set?-eq-set k.buffer (h % buffer_size) 0 (lt_of_get_elem? k.buffer (h % buffer_size) byte),
  lt→leb_false (2 ^ 31) (suc h) r,
)

module _ (m : Machine) (p h : ℕ) (task : m.task_process ≡ some p) where
  head_byte :
      (q : List ℕ)
      → Holds (m.keyboard p) h q
      → get_elem? (m.keyboard p).buffer (h % buffer_size) ≡ some (get_or q 0 0)
  head_byte q v =
      get_elem?-eq-get_or (m.keyboard p).buffer (h % buffer_size) 0 (omega (arith, v.size))
      ∙ ap some (ap (λ i. get_or (m.keyboard p).buffer i 0) (start h) ∙ v.places 0 (omega arith))
    where
      start : (n : ℕ) → n % buffer_size ≡ (n + 0) % buffer_size
      start n = omega arith

  -- With a current task `keyboard_pop` takes the oldest character that waits in its process, if
  -- that is not zero, and changes no other process.
  pub pop-Holds :
      (c : ℕ) (q : List ℕ)
      → Holds (m.keyboard p) h (c ∷ q)
      → c ≢ 0
      → (k : KeyboardBuffer) × (pop m ≡ some (c, update m p k)) × Holds k (suc h) q
  pop-Holds c q v ne = (
    popped (m.keyboard p) h,
    pop_lem m p h c (m.keyboard p) refl task v.head (head_byte (c ∷ q) v) ne
        (omega (arith, v.in_range)),
    popped-Holds (m.keyboard p) h c q v,
  )

  -- From an empty buffer `keyboard_pop` returns 0 and changes nothing.
  pub pop-empty : Holds (m.keyboard p) h [] → pop m ≡ some (0, m)
  unfolding pop pop_from real_index
  pop-empty v = rw (task, v.head, head_byte [] v)

same_place : (h n : ℕ) → n ≡ buffer_size → h % buffer_size ≡ (h + n) % buffer_size
same_place h n e = omega arith

-- In a buffer that holds 1024 characters and whose tail has not reached 2 ^ 31 - 1, `keyboard_push`
-- loses the oldest: the next `keyboard_pop` of the same process returns the new character instead.
pub push_full :
    (m : Machine) (p h : ℕ) (q : List ℕ) (c : ℕ)
    → m.current_process ≡ some p
    → m.task_process ≡ some p
    → Holds (m.keyboard p) h q
    → length q ≡ buffer_size
    → suc (h + length q) < 2 ^ 31
    → c ≢ 0
    → (m' m'' : Machine) × (push m c ≡ some m') × (pop m' ≡ some (c, m''))
push_full m p h q c current task v full r ne =
    let k = pushed (m.keyboard p) (h + length q) c in
    let m' = update m p k in
    (
      m',
      update m' p (popped k h),
      push_lem m p (h + length q) c current v.tail v.size r,
      pop_lem m' p h c k (rw (==_refl p)) task v.head
          (ap (get_elem? k.buffer) (same_place h (length q) full)
            ∙ get_elem?-eq-get_or k.buffer ((h + length q) % buffer_size) 0 (
                omega (
                  arith,
                  v.size,
                  length-set (m.keyboard p).buffer ((h + length q) % buffer_size) c,
                ))
            ∙ ap some (
                get_or-set_self (m.keyboard p).buffer ((h + length q) % buffer_size) c 0
                  (omega (arith, v.size))))
          ne (omega (arith, r, full)),
    )
