-- ===== src/Text/Strtoull.antt =====
-- strtoull with base 0.
use growlight.Prelude.{
  ℕ, ◌+◌, ◌-◌, ◌*◌, ◌%◌, ◌^◌, ◌<◌, ◌≡◌, refl, ◌∙◌, ap, sym, Bool, true, false, ◌&&◌, ◌||◌,
  Bool-cases, inl, inr, ◌⊎◌, Option, none, some, [], ◌∷◌, ◌++◌, arith, ltb, leb, ◌==◌,
  if◌then◌else◌,
}
use growlight.Text.{Text, is_digit, is_space, span}
use growlight.Text.Numbers.{
  print_nat, read_digits, print_nat-first, read_digits-print_nat, read_digits-print_nat_end,
}

-- The value, what is left of the text, and the errno ERANGE.
pub record Strtoull : Type 0 where
  pub value : ℕ
  pub end : Text
  pub erange : Bool

-- The value of a digit or a letter, and 36 for any other byte.
unfoldable pub digit_value : ℕ → ℕ
unfolding is_digit
digit_value c =
    if is_digit c
    then c - 48
    else if leb 97 c && leb c 122
    then c - 87
    else if leb 65 c && leb c 90
    then c - 55
    else 36

unfoldable pub read_base : (base value : ℕ) → Text → ℕ × Text
unfolding digit_value
read_base b v [] = (v, [])
read_base b v (c ∷ s) =
    let more = read_base b (v * b + digit_value c) s in
    if ltb (digit_value c) b then more else (v, c ∷ s)

-- Whether a digit of the base stands at the start.
unfoldable pub starts_digit : (base : ℕ) → Text → Bool
starts_digit b [] = false
starts_digit b (c ∷ s) = ltb (digit_value c) b

-- Whether what is behind a zero is an x with a hexadecimal digit.
unfoldable pub is_hex : Text → Bool
unfolding starts_digit
is_hex [] = false
is_hex (c ∷ s) = (c == 120 || c == 88) && starts_digit 16 s

abbrev pub tail : Text → Text
tail [] = []
tail (c ∷ s) = s

-- The number, unsigned and without a bound, behind the spaces and the sign; `none` where no digit is.
unfoldable pub read_number : Text → Option (ℕ × Text)
unfolding read_base starts_digit is_hex
read_number [] = none
read_number (c ∷ s) =
    if c == 48
    then some (if is_hex s then read_base 16 0 (tail s) else read_base 8 0 (c ∷ s))
    else if starts_digit 10 (c ∷ s)
    then some (read_base 10 0 (c ∷ s))
    else none

abbrev bounded : (negative : Bool) → ℕ × Text → Strtoull
bounded negative (v, r) =
    if leb (2 ^ 64) v
    then record { value = 2 ^ 64 - 1; end = r; erange = true }
    else record { value = (if negative then (2 ^ 64 - v) % 2 ^ 64 else v); end = r; erange = false }

abbrev signed : (whole : Text) → (negative : Bool) → Text → Strtoull
signed whole negative s = elim (read_number s) [
  | none ↦ record { value = 0; end = whole; erange = false }
  | some n ↦ bounded negative n
]

unfoldable pub strtoull : Text → Strtoull
unfolding read_number is_space
strtoull s = elim (span is_space s).1 [
  | [] ↦ signed s false []
  | c ∷ r ↦
      if c == 45
      then signed s true r
      else if c == 43
      then signed s false r
      else signed s false (c ∷ r)
]

digit_value-digit : (c : ℕ) → is_digit c ≡ true → digit_value c ≡ c - 48
unfolding digit_value
digit_value-digit c h = ground (arith, h)

digit_value-low : (c : ℕ) → is_digit c ≡ true → ltb (digit_value c) 10 ≡ true
unfolding digit_value is_digit
digit_value-low c h = ground (arith, h)

digit_value-high : (c : ℕ) → is_digit c ≡ false → ltb (digit_value c) 10 ≡ false
unfolding digit_value is_digit
digit_value-high c h = ground (arith, h)

read_base-step :
    (v c : ℕ) (s : Text)
    → is_digit c ≡ true
    → read_base 10 v (c ∷ s) ≡ read_base 10 (v * 10 + (c - 48)) s
unfolding read_base
read_base-step v c s h = ground (arith, digit_value-low c h, digit_value-digit c h)

read_base-stop : (v c : ℕ) (s : Text) → is_digit c ≡ false → read_base 10 v (c ∷ s) ≡ (v, c ∷ s)
unfolding read_base
read_base-stop v c s h = ground (arith, digit_value-high c h)

read_base-nil : (v : ℕ) → read_base 10 v [] ≡ (v, [])
unfolding read_base
read_base-nil v = refl

read_base-digits : (v : ℕ) (s : Text) → read_base 10 v s ≡ read_digits v s
unfolding read_digits
read_base-digits v [] = read_base-nil v
read_base-digits v (c ∷ s) =
    by_digit (read_base-digits (v * 10 + (c - 48)) s) (Bool-cases (is_digit c))
  where
    by_digit :
        read_base 10 (v * 10 + (c - 48)) s ≡ read_digits (v * 10 + (c - 48)) s
        → (is_digit c ≡ true) ⊎ (is_digit c ≡ false)
        → read_base 10 v (c ∷ s) ≡ read_digits v (c ∷ s)
    by_digit ih (inl e) = read_base-step v c s e ∙ rw (read_digits, e) ih
    by_digit ih (inr e) = read_base-stop v c s e ∙ rw (read_digits, e) refl

is_digit-digit : (d : ℕ) → d < 10 → is_digit (48 + d) ≡ true
unfolding is_digit
is_digit-digit d h = ground arith

read_number-decimal :
    (d : ℕ) (t : Text)
    → 0 < d
    → d < 10
    → read_number ((48 + d) ∷ t) ≡ some (read_digits 0 ((48 + d) ∷ t))
unfolding read_number starts_digit
read_number-decimal d t p q =
    ground (arith, digit_value-low (48 + d) (is_digit-digit d q), read_base-digits 0 ((48 + d) ∷ t))

is_space-digit : (d : ℕ) → d < 10 → is_space (48 + d) ≡ false
unfolding is_space
is_space-digit d h = ground arith

span-stop : (p : ℕ → Bool) (c : ℕ) (s : Text) → p c ≡ false → span p (c ∷ s) ≡ ([], c ∷ s)
unfolding span
span-stop p c s h = rw h refl

pub not-sign : (d c : ℕ) → leb c 47 ≡ true → (48 + d == c) ≡ false
not-sign d c h = ground arith

strtoull-signed :
    (d : ℕ) (t : Text)
    → d < 10
    → strtoull ((48 + d) ∷ t) ≡ signed ((48 + d) ∷ t) false ((48 + d) ∷ t)
unfolding strtoull
strtoull-signed d t q =
    rw
      (
        strtoull,
        span-stop is_space (48 + d) t (is_space-digit d q),
        not-sign d 45 refl,
        not-sign d 43 refl,
      )
      refl

signed-decimal :
    (s r : Text) (n : ℕ)
    → read_number s ≡ some (n, r)
    → n < 2 ^ 64
    → signed s false s ≡ record { value = n; end = r; erange = false }
signed-decimal s r n e h = ground (arith, e)

-- A positive number below 2 ^ 64 is read back.
pub strtoull-print_nat :
    (n : ℕ)
    → 0 < n
    → n < 2 ^ 64
    → strtoull (print_nat n) ≡ record { value = n; end = []; erange = false }
strtoull-print_nat n p q =
    let (d, t, same, low, high) = print_nat-first n p in
    ap strtoull same
    ∙ strtoull-signed d t high
    ∙ signed-decimal ((48 + d) ∷ t) [] n
        (read_number-decimal d t low high
          ∙ ap some (ap (read_digits 0) (sym same) ∙ read_digits-print_nat_end n))
        q

-- The same before something that is no digit.
pub strtoull-print_nat_before :
    (n c : ℕ) (s : Text)
    → 0 < n
    → n < 2 ^ 64
    → is_digit c ≡ false
    → strtoull (print_nat n ++ c ∷ s) ≡ record { value = n; end = c ∷ s; erange = false }
strtoull-print_nat_before n c s p q stop =
    let (d, t, same, low, high) = print_nat-first n p in
    let whole : print_nat n ++ c ∷ s ≡ (48 + d) ∷ (t ++ c ∷ s) = ap (λ u. u ++ c ∷ s) same in
    ap strtoull whole
    ∙ strtoull-signed d (t ++ c ∷ s) high
    ∙ signed-decimal ((48 + d) ∷ (t ++ c ∷ s)) (c ∷ s) n
        (read_number-decimal d (t ++ c ∷ s) low high
          ∙ ap some (ap (read_digits 0) (sym whole) ∙ read_digits-print_nat n c s stop))
        q
