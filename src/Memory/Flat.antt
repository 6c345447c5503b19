-- ===== src/Memory/Flat.antt =====
-- `memset` and `memcpy` over the whole address space, for callers that hand on bare addresses.
use guava_os_pro.Prelude.{
  ℕ, zero, suc, ◌+◌, ◌%◌, ◌≤◌, ◌<◌, ◌≡◌, refl, ◌⊎◌, inl, inr, arith, ◌==◌, if◌then◌else◌,
  Bool-cases,
}

-- The bytes of memory, by address.
abbrev pub Memory : Type 0
Memory = ℕ → ℕ

abbrev pub write : Memory → ℕ → ℕ → Memory
write m p v a = if a == p then v else m a

-- The loop of `memset` at address `p` with `size` bytes to go.
unfoldable pub fill : Memory → ℕ → ℕ → ℕ → Memory
fill m p c zero = m
fill m p c (suc size) = fill (write m p (c % 256)) (p + 1) c size

pub fill-outside :
    (m : Memory) (p c size a : ℕ) → (a < p) ⊎ (p + size ≤ a) → fill m p c size a ≡ m a
unfolding fill
fill-outside m p c zero a h = refl
fill-outside m p c (suc size) a h =
    ground (arith, fill-outside (write m p (c % 256)) (p + 1) c size a)

pub fill-inside : (m : Memory) (p c size a : ℕ) → p ≤ a → a < p + size → fill m p c size a ≡ c % 256
unfolding fill
fill-inside m p c zero a h k = absurd (omega arith)
fill-inside m p c (suc size) a h k = elim (Bool-cases (a == p)) [
  | inl e ↦ ground (arith, fill-outside (write m p (c % 256)) (p + 1) c size a)
  | inr e ↦ fill-inside (write m p (c % 256)) (p + 1) c size a (ground arith) (omega arith)
]
