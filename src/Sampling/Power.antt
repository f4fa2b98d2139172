-- ===== src/Sampling/Power.antt =====
-- The greatest power of two that divides a number.
use growlight.Prelude.{
  ℕ, zero, suc, ◌+◌, ◌*◌, ◌%◌, ◌^◌, ◌≤◌, ◌<◌, ◌≡◌, ◌≢◌, ◌⊎◌, ◌∙◌, refl, ap, subst, Bool-cases, inl,
  inr, true, false, some, arith, ltb, ◌==◌,
}
use growlight.Sampling.{alignment_loop, alignment}

-- The powers of two.
abbrev pub pow2 : ℕ → ℕ
pow2 zero = 1
pow2 (suc k) = 2 * pow2 k

zero-or : (n : ℕ) → (n ≡ 0) ⊎ (n ≢ 0)
zero-or zero = inl refl
zero-or (suc n) = inr (λ e. ground arith)

pow2_pos : (k : ℕ) → 0 < pow2 k
pow2_pos zero = omega arith
pow2_pos (suc k) = omega (arith, pow2_pos k)

pow2-le : (n k : ℕ) → k ≤ n → pow2 k ≤ pow2 n
pow2-le zero zero h = omega arith
pow2-le zero (suc k) h = absurd (omega arith)
pow2-le (suc n) zero h = pow2_pos (suc n)
pow2-le (suc n) (suc k) h = omega (arith, pow2-le n k (omega arith))

pow2-62 : pow2 62 ≡ 2 ^ 62
pow2-62 = refl

pow2_low : (k : ℕ) → k < 63 → pow2 k < 2 ^ 63
pow2_low k h = omega (arith, pow2-le 62 k (omega arith), pow2-62)

wrap : (a : ℕ) → a < 2 ^ 63 → (2 * a) % 2 ^ 64 ≡ 2 * a
wrap a h = omega arith

not-zero : (a : ℕ) → 0 < a → (2 * a == 0) ≡ false
not-zero a h = ground arith

eq-false : (n : ℕ) → n ≢ 0 → (n == 0) ≡ false
eq-false n h = ground arith

loop-stop :
    (f a val : ℕ) → 0 < a → a < 2 ^ 63 → val % (2 * a) ≢ 0 → alignment_loop (suc f) a val ≡ some a
unfolding alignment_loop
loop-stop f a val p q h =
    rw (alignment_loop, wrap a q, not-zero a p, eq-false (val % (2 * a)) h) (ap some (omega arith))

loop-more :
    (f a val : ℕ)
    → 0 < a
    → a < 2 ^ 63
    → val % (2 * a) ≡ 0
    → alignment_loop (suc f) a val ≡ alignment_loop f (2 * a) val
unfolding alignment_loop
loop-more f a val p q h = rw (alignment_loop, wrap a q, not-zero a p, h) refl

loop-last : (f val : ℕ) → alignment_loop (suc f) (2 ^ 63) val ≡ some (2 ^ 63)
unfolding alignment_loop
loop-last f val = refl

-- The power of two of this exponent divides the number, and the next one does not.
abbrev pub IsAlignment : (val j : ℕ) → Type 0
IsAlignment val j = (j < 64) × (val % pow2 j ≡ 0) × (val % pow2 (suc j) ≢ 0)

loop_total :
    (f k val : ℕ)
    → f + k ≡ 64
    → k < 64
    → 0 < val
    → val < 2 ^ 64
    → val % pow2 k ≡ 0
    → (j : ℕ) × (alignment_loop f (pow2 k) val ≡ some (pow2 j)) × IsAlignment val j
loop_total zero k val e h p q d = absurd (omega arith)
loop_total (suc f) k val e h p q d =
    by_size (λ x y z. loop_total f (suc k) val x y p q z) (Bool-cases (ltb k 63))
  where
    by_next :
        (f + suc k ≡ 64
          → suc k < 64
          → val % pow2 (suc k) ≡ 0
          → (j : ℕ) × (alignment_loop f (pow2 (suc k)) val ≡ some (pow2 j)) × IsAlignment val j)
        → k < 63
        → (val % pow2 (suc k) ≡ 0) ⊎ (val % pow2 (suc k) ≢ 0)
        → (j : ℕ) × (alignment_loop (suc f) (pow2 k) val ≡ some (pow2 j)) × IsAlignment val j
    by_next ih low (inl z) =
        let (j, run, al) = ih (omega arith) (omega arith) z in
        (j, loop-more f (pow2 k) val (pow2_pos k) (pow2_low k low) z ∙ run, al)
    by_next ih low (inr z) =
        (k, loop-stop f (pow2 k) val (pow2_pos k) (pow2_low k low) z, (h, d, z))

    by_size :
        (f + suc k ≡ 64
          → suc k < 64
          → val % pow2 (suc k) ≡ 0
          → (j : ℕ) × (alignment_loop f (pow2 (suc k)) val ≡ some (pow2 j)) × IsAlignment val j)
        → (ltb k 63 ≡ true) ⊎ (ltb k 63 ≡ false)
        → (j : ℕ) × (alignment_loop (suc f) (pow2 k) val ≡ some (pow2 j)) × IsAlignment val j
    by_size ih (inl low) = by_next ih (ground (arith, low)) (zero-or (val % pow2 (suc k)))
    by_size ih (inr top) = (
      63,
      ap (λ n. alignment_loop (suc f) (pow2 n) val) last ∙ loop-last f val,
      (omega arith, subst (λ n. val % pow2 n ≡ 0) last d, too_small),
    )
      where
        last : k ≡ 63
        last = ground (arith, top)

        too_small : val % pow2 64 ≢ 0
        too_small = omega arith

-- The loop ends for every number of 64 bits but 0, and gives the greatest power of two that divides it.
pub alignment_total :
    (val : ℕ)
    → 0 < val
    → val < 2 ^ 64
    → (j : ℕ) × (alignment val ≡ some (pow2 j)) × IsAlignment val j
unfolding alignment
alignment_total val p q = loop_total 64 0 val refl (omega arith) p q (omega arith)
