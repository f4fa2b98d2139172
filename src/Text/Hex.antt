-- ===== src/Text/Hex.antt =====
-- strtoull and strtoul with base 16.
use growlight.Prelude.{
  ℕ, ◌-◌, ◌%◌, ◌^◌, ◌&&◌, Option, none, some, [], ◌∷◌, leb, ◌==◌, if◌then◌else◌,
}
use growlight.Prelude.Maybe.{◌>>=◌}
use growlight.Text.{Text, is_space, span}
use growlight.Text.Strtoull.{read_base, starts_digit, is_hex, tail}

-- An optional 0x in front.
unfoldable pub read_hex : Text → Option (ℕ × Text)
unfolding read_base is_hex starts_digit
read_hex [] = none
read_hex (c ∷ s) =
    if c == 48 && is_hex s
    then some (read_base 16 0 (tail s))
    else if starts_digit 16 (c ∷ s)
    then some (read_base 16 0 (c ∷ s))
    else none

-- A minus sign behind spaces; a number that does not fit is cut to the largest.
abbrev negated : ℕ → ℕ
negated v = if leb (2 ^ 64) v then 2 ^ 64 - 1 else (2 ^ 64 - v) % 2 ^ 64

-- The value and what is left; `none` where nothing was converted.
unfoldable pub strtoull_hex : Text → Option (ℕ × Text)
unfolding read_hex is_space
strtoull_hex s = elim (span is_space s).1 [
  | [] ↦ none
  | c ∷ r ↦
      if c == 45
      then read_hex r >>= (λ n. some (negated n.0, n.1))
      else if c == 43
      then read_hex r
      else read_hex (c ∷ r)
]
