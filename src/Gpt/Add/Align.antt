-- ===== src/Gpt/Add/Align.antt =====
-- The alignment of a first sector.
use growlight.Prelude.{
  ap, ◌∙◌, ◌*◌, ◌-◌, ◌/◌, Bool-cases, inl, inr, false, ◌==◌, add64, ℕ, ◌+◌, ◌%◌, ◌^◌, ◌≤◌, ◌<◌, ◌≡◌,
  arith,
}
use native.Mathlib.Nat.{div-add-mod, mod-lt, mul-mod_right}
use growlight.Gpt.Add.{align}

-- A number and what it lacks to the next multiple.
multiple_above : (n a : ℕ) → 0 < a → (n + (a - n % a)) % a ≡ 0
multiple_above n a pos = ap (λ k. k % a) next ∙ mul-mod_right a (n / a + 1)
  where
    next : n + (a - n % a) ≡ a * (n / a + 1)
    next = omega (arith, div-add-mod n a, mod-lt n pos)

-- The aligned sector is the least multiple of the physical sector that is not before the one asked
-- for, if the sum does not wrap.
pub align_least :
    (fsec alignment : ℕ)
    → 0 < alignment
    → fsec + alignment ≤ 2 ^ 64
    → (align fsec alignment % alignment ≡ 0)
      × (fsec ≤ align fsec alignment)
      × (align fsec alignment < fsec + alignment)
unfolding align
align_least fsec alignment pos fits = elim (Bool-cases (fsec % alignment == 0)) [
  | inl even ↦ rw even (ground arith, omega arith, omega arith)
  | inr odd ↦
      rw (odd, no_wrap odd)
        (multiple_above fsec alignment pos, omega arith, omega (arith, offset odd))
]
  where
    offset : (fsec % alignment == 0) ≡ false → 0 < fsec % alignment
    offset h = ground arith

    no_wrap :
        (fsec % alignment == 0) ≡ false
        → add64 fsec (alignment - fsec % alignment) ≡ fsec + (alignment - fsec % alignment)
    no_wrap h = omega (arith, offset h)
