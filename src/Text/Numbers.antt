-- ===== src/Text/Numbers.antt =====
-- Numbers in texts: %u and %ju of printf, and strtoull without a sign.
use growlight.Prelude.{
  ℕ, zero, suc, ◌+◌, ◌-◌, ◌*◌, ◌/◌, ◌%◌, ◌≤◌, ◌<◌, ◌≡◌, refl, ◌∙◌, ap, Bool, true, false,
  Bool-cases, leb_sound, leb-false, inl, inr, ◌⊎◌, [], ◌∷◌, ◌++◌, arith, ltb, leb, if◌then◌else◌,
}
use growlight.Text.{Text, is_digit}
use growlight.Text.Words.{Passes}

-- The decimal digits of a number in front of a text; the fuel is above the number.
unfoldable pub print_digits : (fuel : ℕ) → ℕ → Text → Text
print_digits zero n s = s
print_digits (suc f) n s =
    let more = print_digits f (n / 10) ((48 + n % 10) ∷ s) in
    if ltb n 10 then (48 + n) ∷ s else more

unfoldable pub print_nat : ℕ → Text
unfolding print_digits
print_nat n = print_digits (suc n) n []

-- The digits at the start of a text, with the value of those before, and what is left.
unfoldable pub read_digits : (value : ℕ) → Text → ℕ × Text
unfolding is_digit
read_digits v [] = (v, [])
read_digits v (c ∷ s) =
    let more = read_digits (v * 10 + (c - 48)) s in if is_digit c then more else (v, c ∷ s)

read_digits-digit :
    (v d : ℕ) (s : Text) → d < 10 → read_digits v ((48 + d) ∷ s) ≡ read_digits (v * 10 + d) s
unfolding read_digits is_digit
read_digits-digit v d s h = ground arith

read_digits-stop : (v c : ℕ) (s : Text) → is_digit c ≡ false → read_digits v (c ∷ s) ≡ (v, c ∷ s)
unfolding read_digits
read_digits-stop v c s h = ground (arith, h)

print_digits-low : (f n : ℕ) (s : Text) → n < 10 → print_digits (suc f) n s ≡ (48 + n) ∷ s
unfolding print_digits
print_digits-low f n s h = ground arith

print_digits-high :
    (f n : ℕ) (s : Text)
    → 10 ≤ n
    → print_digits (suc f) n s ≡ print_digits f (n / 10) ((48 + n % 10) ∷ s)
unfolding print_digits
print_digits-high f n s h = ground arith

read_digits-print_digits :
    (f n : ℕ) (s : Text) → n < f → read_digits 0 (print_digits f n s) ≡ read_digits n s
read_digits-print_digits zero n s h = absurd (omega arith)
read_digits-print_digits (suc f) n s h =
    by_size (λ m t k. read_digits-print_digits f m t k) (Bool-cases (leb 10 n))
  where
    by_size :
        ((m : ℕ) (t : Text) → m < f → read_digits 0 (print_digits f m t) ≡ read_digits m t)
        → (leb 10 n ≡ true) ⊎ (leb 10 n ≡ false)
        → read_digits 0 (print_digits (suc f) n s) ≡ read_digits n s
    by_size ih (inl e) =
        ap (read_digits 0) (print_digits-high f n s (leb_sound 10 n e))
        ∙ ih (n / 10) ((48 + n % 10) ∷ s) (omega (arith, leb_sound 10 n e))
        ∙ read_digits-digit (n / 10) (n % 10) s (omega arith)
        ∙ ap (λ v. read_digits v s) (omega arith)
    by_size ih (inr e) =
        ap (read_digits 0) (print_digits-low f n s (leb-false 10 n e))
        ∙ read_digits-digit 0 n s (leb-false 10 n e)
        ∙ ap (λ v. read_digits v s) (omega arith)

print_digits-append : (f n : ℕ) (s t : Text) → print_digits f n s ++ t ≡ print_digits f n (s ++ t)
unfolding print_digits
print_digits-append zero n s t = refl
print_digits-append (suc f) n s t =
    ground (arith, print_digits-append f (n / 10) ((48 + n % 10) ∷ s) t)

-- The digits of a number, before something that is no digit, are read back.
pub read_digits-print_nat :
    (n c : ℕ) (s : Text) → is_digit c ≡ false → read_digits 0 (print_nat n ++ c ∷ s) ≡ (n, c ∷ s)
unfolding print_nat
read_digits-print_nat n c s h =
    ap (read_digits 0) (print_digits-append (suc n) n [] (c ∷ s))
    ∙ read_digits-print_digits (suc n) n (c ∷ s) (omega arith)
    ∙ read_digits-stop n c s h

pub read_digits-print_nat_end : (n : ℕ) → read_digits 0 (print_nat n) ≡ (n, [])
unfolding print_nat read_digits
read_digits-print_nat_end n = read_digits-print_digits (suc n) n [] (omega arith)

-- The first digit of a positive number is not 0.
print_digits-first :
    (f n : ℕ) (s : Text)
    → n < f
    → 0 < n
    → (d : ℕ) × (t : Text) × (print_digits f n s ≡ (48 + d) ∷ t) × (0 < d) × (d < 10)
print_digits-first zero n s h p = absurd (omega arith)
print_digits-first (suc f) n s h p =
    by_size (λ m t k q. print_digits-first f m t k q) (Bool-cases (leb 10 n))
  where
    by_size :
        ((m : ℕ) (t : Text)
          → m < f
          → 0 < m
          → (d : ℕ) × (u : Text) × (print_digits f m t ≡ (48 + d) ∷ u) × (0 < d) × (d < 10))
        → (leb 10 n ≡ true) ⊎ (leb 10 n ≡ false)
        → (d : ℕ) × (t : Text) × (print_digits (suc f) n s ≡ (48 + d) ∷ t) × (0 < d) × (d < 10)
    by_size ih (inl e) =
        let (d, t, same, low, high) =
          ih (n / 10) ((48 + n % 10) ∷ s) (omega (arith, leb_sound 10 n e))
            (omega (arith, leb_sound 10 n e)) in
        (d, t, print_digits-high f n s (leb_sound 10 n e) ∙ same, low, high)
    by_size ih (inr e) = (n, s, print_digits-low f n s (leb-false 10 n e), p, leb-false 10 n e)

pub print_nat-first :
    (n : ℕ) → 0 < n → (d : ℕ) × (t : Text) × (print_nat n ≡ (48 + d) ∷ t) × (0 < d) × (d < 10)
unfolding print_nat
print_nat-first n p = print_digits-first (suc n) n [] (omega arith) p

print_digits-Passes :
    (p : ℕ → Bool)
    → ((d : ℕ) → d < 10 → p (48 + d) ≡ true)
    → (f n : ℕ) (s : Text) → Passes p s
    → Passes p (print_digits f n s)
unfolding print_digits
print_digits-Passes p q zero n s h = h
print_digits-Passes p q (suc f) n s h = elim (Bool-cases (ltb n 10)) [
  | inl e ↦ rw (print_digits, e) (q n (ground arith), h)
  | inr e ↦
      rw (print_digits, e)
        (print_digits-Passes p q f (n / 10) ((48 + n % 10) ∷ s) (q (n % 10) (omega arith), h))
]

pub print_nat-Passes :
    (p : ℕ → Bool) (n : ℕ) → ((d : ℕ) → d < 10 → p (48 + d) ≡ true) → Passes p (print_nat n)
unfolding print_nat
print_nat-Passes p n q = print_digits-Passes p q (suc n) n [] tt
