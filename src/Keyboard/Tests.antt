-- ===== src/Keyboard/Tests.antt =====
-- The keyboard's buffer with a few characters in it.
use guava_os_pro.Prelude.{
  ℕ, zero, suc, ◌+◌, ◌%◌, ◌<◌, ◌≡◌, refl, some, List, [], ◌∷◌, arith, length, get_or, replicate,
  length-replicate,
}
use guava_os_pro.Prelude.Int.{pos}
use guava_os_pro.Keyboard.{KeyboardBuffer, Machine, update, buffer_size, push, pop}
use guava_os_pro.Keyboard.Queue.{Holds, push-Holds, pop-Holds, push_full}

get_or-replicate : (n v j : ℕ) → j < n → get_or (replicate n v) j 0 ≡ v
get_or-replicate zero v j h = absurd (omega arith)
get_or-replicate (suc n) v zero h = refl
get_or-replicate (suc n) v (suc j) h = get_or-replicate n v j (omega arith)

abbrev one : List ℕ
one = 65 ∷ []

-- `rest` zeros behind one character.
abbrev one_waits : ℕ → KeyboardBuffer
one_waits rest = record { buffer = 65 ∷ replicate rest 0; tail = pos 1; head = pos 0 }

one_waits-Holds : (rest : ℕ) → suc rest ≡ buffer_size → Holds (one_waits rest) 0 (65 ∷ [])
one_waits-Holds rest e = record {
  size = omega (arith, length-replicate {A = ℕ} rest 0);
  fits = omega arith;
  in_range = omega arith;
  head = refl;
  tail = refl;
  places = λ j lt. place j lt;
}
  where
    behind : (j : ℕ) → suc j < suc rest → get_or (one_waits rest).buffer (suc j) 0 ≡ 0
    behind j lt = get_or-replicate rest 0 j (omega arith)

    place :
        (j : ℕ)
        → j < buffer_size
        → get_or (one_waits rest).buffer ((0 + j) % buffer_size) 0 ≡ get_or one j 0
    place zero lt = refl
    place (suc j) lt =
        let same : (0 + suc j) % buffer_size ≡ suc j = omega arith in
        rw same (behind j (omega arith))

-- Process 3 is the current one, for the keyboard and for the tasks.
abbrev machine : KeyboardBuffer → Machine
machine k = record { keyboard = λ p. k; current_process = some 3; task_process = some 3 }

push-Holds_example :
    (k : KeyboardBuffer) × (push (machine (one_waits 1023)) 66
      ≡ some (update (machine (one_waits 1023)) 3 k))
    × Holds k 0 (65 ∷ 66 ∷ [])
push-Holds_example =
    push-Holds (machine (one_waits 1023)) 3 0 (65 ∷ []) 66 refl (one_waits-Holds 1023 (omega arith))
      (omega arith) (omega arith)

pop-Holds_example :
    (k : KeyboardBuffer) × (pop (machine (one_waits 1023))
      ≡ some (65, update (machine (one_waits 1023)) 3 k))
    × Holds k 1 []
pop-Holds_example =
    pop-Holds (machine (one_waits 1023)) 3 0 refl 65 [] (one_waits-Holds 1023 (omega arith))
      (omega arith)

abbrev letters : ℕ → List ℕ
letters n = replicate n 65

-- A buffer in which all of `n` places are taken.
abbrev full : ℕ → KeyboardBuffer
full n = record { buffer = letters n; tail = pos n; head = pos 0 }

full-Holds : (n : ℕ) → n ≡ buffer_size → Holds (full n) 0 (letters n)
full-Holds n e = record {
  size = omega (arith, length-replicate {A = ℕ} n 65);
  fits = omega (arith, length-replicate {A = ℕ} n 65);
  in_range = omega (arith, length-replicate {A = ℕ} n 65);
  head = refl;
  tail = λ i. pos (tail_is i);
  places = λ j lt.
      let same : (0 + j) % buffer_size ≡ j = omega arith in λ i. get_or (letters n) (same i) 0;
}
  where
    tail_is : n ≡ 0 + length (letters n)
    tail_is = omega (arith, length-replicate {A = ℕ} n 65)

push_full_example :
    (m' m'' : Machine) × (push (machine (full 1024)) 66 ≡ some m') × (pop m' ≡ some (66, m''))
push_full_example =
    push_full (machine (full 1024)) 3 0 (letters 1024) 66 refl refl (full-Holds 1024 (omega arith))
      (length-replicate {A = ℕ} 1024 65) (omega (arith, length-replicate {A = ℕ} 1024 65))
      (omega arith)
