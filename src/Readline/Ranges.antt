-- ===== src/Readline/Ranges.antt =====
-- Proofs on src/readline/readline.c: what the numbers and the ranges of sectors of a command line mean.
use growlight.Prelude.{
  ℕ, suc, ◌+◌, ◌^◌, ◌<◌, ◌≡◌, refl, ◌∙◌, ap, sym, subst, true, false, ◌||◌, Option, none, some, [],
  ◌∷◌, ◌++◌, arith, ◌==◌, if◌then◌else◌, length, append-nil, length-append,
}
use growlight.Text.{Text, is_digit}
use growlight.Text.Words.{Passes}
use growlight.Text.Numbers.{print_nat, print_nat-Passes, print_nat-first}
use growlight.Text.Strtoull.{Strtoull, strtoull, strtoull-print_nat, strtoull-print_nat_before}
use growlight.Popen.{bufsiz}
use growlight.Readline.{Locale}
use growlight.Readline.Numbers.{
  unsigned_buffer, scale, scaled, wstrtoull, behind_colon, extract_partition_spec,
}

-- The characters are bytes.
abbrev pub IsNarrow : Locale → Type 0
IsNarrow l = (s : Text) → l.narrow s ≡ s

unsigned_buffer-digit :
    (l : Locale) (d : ℕ) (t : Text)
    → IsNarrow l
    → suc (length t) < bufsiz
    → unsigned_buffer l ((48 + d) ∷ t) ≡ some ((48 + d) ∷ t)
unfolding unsigned_buffer
unsigned_buffer-digit l d t h k = rw (h ((48 + d) ∷ t)) (ground arith)

-- A number and what stands behind it go through the buffer unchanged.
unsigned_buffer-print_nat :
    (l : Locale) (n : ℕ) (s : Text)
    → IsNarrow l
    → 0 < n
    → length (print_nat n ++ s) < bufsiz
    → unsigned_buffer l (print_nat n ++ s) ≡ some (print_nat n ++ s)
unsigned_buffer-print_nat l n s h p k =
    let (d, t, same, low, high) = print_nat-first n p in
    let whole : print_nat n ++ s ≡ (48 + d) ∷ (t ++ s) = ap (λ u. u ++ s) same in
    ap (unsigned_buffer l) whole
    ∙ unsigned_buffer-digit l d (t ++ s) h (subst (λ u. length u < bufsiz) whole k)
    ∙ ap some (sym whole)

-- What `wstrtoull` makes of what `strtoull` found.
abbrev rest_of : (buf : Text) → Strtoull → Option ℕ
rest_of buf r = if r.erange || (length r.end == length buf) then none else scaled r.value r.end

wstrtoull-rest_of :
    (l : Locale) (s : Text) → unsigned_buffer l s ≡ some s → wstrtoull l s ≡ rest_of s (strtoull s)
unfolding wstrtoull
wstrtoull-rest_of l s h = rw h refl

longer : (n : ℕ) (s : Text) → 0 < n → (length s == length (print_nat n ++ s)) ≡ false
longer n s p =
    let (d, t, same, low, high) = print_nat-first n p in
    ground (arith, length-append (print_nat n) s, ap length same)

pub wstrtoull-print_nat :
    (l : Locale) (n : ℕ)
    → IsNarrow l
    → 0 < n
    → n < 2 ^ 64
    → length (print_nat n) < bufsiz
    → wstrtoull l (print_nat n) ≡ some n
unfolding scaled
wstrtoull-print_nat l n h p q k =
    let buffered : unsigned_buffer l (print_nat n) ≡ some (print_nat n) =
      subst (λ u. unsigned_buffer l u ≡ some u) (append-nil (print_nat n))
        (unsigned_buffer-print_nat l n [] h p
          (subst (λ u. length u < bufsiz) (sym (append-nil (print_nat n))) k)) in
    wstrtoull-rest_of l (print_nat n) buffered
    ∙ ap (rest_of (print_nat n)) (strtoull-print_nat n p q)
    ∙ rw (subst (λ u. (0 == length u) ≡ false) (append-nil (print_nat n)) (longer n [] p)) refl

wstrtoull-behind :
    (l : Locale) (n c : ℕ) (s : Text)
    → IsNarrow l
    → 0 < n
    → n < 2 ^ 64
    → is_digit c ≡ false
    → length (print_nat n ++ c ∷ s) < bufsiz
    → wstrtoull l (print_nat n ++ c ∷ s) ≡ scaled n (c ∷ s)
wstrtoull-behind l n c s h p q stop k =
    wstrtoull-rest_of l (print_nat n ++ c ∷ s) (unsigned_buffer-print_nat l n (c ∷ s) h p k)
    ∙ ap (rest_of (print_nat n ++ c ∷ s)) (strtoull-print_nat_before n c s p q stop)
    ∙ rw (longer n (c ∷ s) p) refl

digit-colon : (c : ℕ) → is_digit c ≡ true → (c == b':') ≡ false
unfolding is_digit
digit-colon c h = ground arith

is_digit-colon : is_digit b':' ≡ false
unfolding is_digit
is_digit-colon = refl

scaled-colon : (n : ℕ) (r : Text) → scaled n (b':' ∷ r) ≡ none
unfolding scaled scale
scaled-colon n [] = refl
scaled-colon n (c ∷ r) = refl

colon-length :
    (n : ℕ) (r : Text) → 0 < n → (length (print_nat n ++ b':' ∷ r) == suc (length r)) ≡ false
colon-length n r p =
    let (d, t, same, low, high) = print_nat-first n p in
    ground (arith, length-append (print_nat n) (b':' ∷ r), ap length same)

behind_colon-digits : (w r : Text) → Passes is_digit w → behind_colon (w ++ b':' ∷ r) ≡ some r
unfolding behind_colon
behind_colon-digits [] r h = refl
behind_colon-digits (c ∷ w) r h = rw (digit-colon c h.0) (behind_colon-digits w r h.1)

behind_colon-none : (w : Text) → Passes is_digit w → behind_colon w ≡ none
unfolding behind_colon
behind_colon-none [] h = refl
behind_colon-none (c ∷ w) h = rw (digit-colon c h.0) (behind_colon-none w h.1)

print_nat-digits : (n : ℕ) → Passes is_digit (print_nat n)
unfolding is_digit
print_nat-digits n = print_nat-Passes is_digit n (λ d h. ground arith)

-- A unit multiplies a positive number below 2 ^ 64, modulo 2 ^ 64; a byte that is no unit is refused.
pub wstrtoull-scale :
    (l : Locale) (n u : ℕ)
    → IsNarrow l
    → 0 < n
    → n < 2 ^ 64
    → is_digit u ≡ false
    → length (print_nat n ++ u ∷ []) < bufsiz
    → wstrtoull l (print_nat n ++ u ∷ []) ≡ scale u n
unfolding scaled
wstrtoull-scale l n u h p q stop k = wstrtoull-behind l n u [] h p q stop k

extract-size :
    (l : Locale) (n : ℕ)
    → IsNarrow l
    → 0 < n
    → n < 2 ^ 64
    → length (print_nat n) < bufsiz
    → extract_partition_spec l (print_nat n)
      ≡ some (record { size = some n; fsec = none; lsec = none })
unfolding extract_partition_spec
extract-size l n h p q k =
    rw
      (
        extract_partition_spec,
        behind_colon-none (print_nat n) (print_nat-digits n),
        wstrtoull-print_nat l n h p q k,
      )
      refl

extract-last :
    (l : Locale) (n : ℕ)
    → IsNarrow l
    → 0 < n
    → n < 2 ^ 64
    → length (print_nat n) < bufsiz
    → extract_partition_spec l (b':' ∷ print_nat n)
      ≡ some (record { size = none; fsec = none; lsec = some n })
unfolding extract_partition_spec behind_colon
extract-last l n h p q k = rw (wstrtoull-print_nat l n h p q k) (ground arith)

extract-first :
    (l : Locale) (n : ℕ) (r : Text)
    → IsNarrow l
    → 0 < n
    → n < 2 ^ 64
    → length (print_nat n ++ b':' ∷ r) < bufsiz
    → extract_partition_spec l (print_nat n ++ b':' ∷ r) ≡ none
unfolding extract_partition_spec
extract-first l n r h p q k =
    rw
      (
        extract_partition_spec,
        behind_colon-digits (print_nat n) r (print_nat-digits n),
        wstrtoull-behind l n b':' r h p q is_digit-colon k,
        colon-length n r p,
        scaled-colon n r,
      )
      (ground arith)

-- For positive numbers below 2 ^ 64 that fit the buffer, where characters are bytes: a number is a
-- size, a number behind a colon is a last sector, and any text that starts with a number and a colon
-- is refused, also a range of two numbers.
pub extract_partition_spec_cases :
    (l : Locale) (n : ℕ) (r : Text)
    → IsNarrow l
    → 0 < n
    → n < 2 ^ 64
    → length (print_nat n ++ b':' ∷ r) < bufsiz
    → (extract_partition_spec l (print_nat n)
        ≡ some (record { size = some n; fsec = none; lsec = none }))
      × (extract_partition_spec l (b':' ∷ print_nat n)
          ≡ some (record { size = none; fsec = none; lsec = some n }))
      × (extract_partition_spec l (print_nat n ++ b':' ∷ r) ≡ none)
extract_partition_spec_cases l n r h p q k =
    let short : length (print_nat n) < bufsiz =
      omega (arith, length-append (print_nat n) (b':' ∷ r)) in
    (extract-size l n h p q short, extract-last l n h p q short, extract-first l n r h p q k)
