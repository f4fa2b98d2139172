-- ===== src/Ptypes/Codes.antt =====
-- Proofs on src/ptypes.c: which entry `get_str_code` finds for the code of a DOS partition.
use growlight.Prelude.{
  or_true, and_false, ℕ, ◌+◌, ◌*◌, ◌<◌, ◌≡◌, ◌≢◌, refl, ◌∙◌, ap, Bool, true, false, not, ◌&&◌,
  Bool-cases, inl, inr, some, List, [], ◌∷◌, arith, ltb, ◌==◌, if◌then◌else◌, length,
}
use growlight.Text.{Text, text_eq, text_eq_sound, is_digit, is_space, span}
use growlight.Text.Hex.{read_hex, strtoull_hex}
use growlight.Text.Strtoull.{digit_value, read_base, is_hex, starts_digit}
use growlight.Ptypes.Table.{Ptype}
use growlight.Ptypes.Strings.{guidstr_be, find_str, short_code, get_str_code}

text_eq-length : (s t : Text) → length s ≢ length t → text_eq s t ≡ false
text_eq-length s t h = elim (Bool-cases (text_eq s t)) [
  | inl e ↦ absurd (h (ap length (text_eq_sound s t e)))
  | inr e ↦ e
]

length-guidstr_be : (g : List ℕ) → length (guidstr_be g) ≡ 36
unfolding guidstr_be
length-guidstr_be g = refl

-- A printed GUID is longer than the codes.
guidstr_be-four : (g : List ℕ) (a b c d : ℕ) → text_eq (guidstr_be g) (a ∷ b ∷ c ∷ d ∷ []) ≡ false
guidstr_be-four g a b c d =
    text_eq-length (guidstr_be g) _ (λ e. absurd (omega (arith, e, length-guidstr_be g)))

guidstr_be-two : (g : List ℕ) (a b : ℕ) → text_eq (guidstr_be g) (a ∷ b ∷ []) ≡ false
guidstr_be-two g a b =
    text_eq-length (guidstr_be g) _ (λ e. absurd (omega (arith, e, length-guidstr_be g)))

abbrev pub is_hex_digit : ℕ → Bool
is_hex_digit c = ltb (digit_value c) 16

digit-space : (a : ℕ) → is_hex_digit a ≡ true → is_space a ≡ false
unfolding digit_value is_digit is_space
digit-space a h = ground (arith, h)

digit-signs : (a : ℕ) → is_hex_digit a ≡ true → ((a == 45) ≡ false) × ((a == 43) ≡ false)
unfolding digit_value is_digit
digit-signs a h = (ground (arith, h), ground (arith, h))

digit-hex : (b : ℕ) → is_hex_digit b ≡ true → is_hex (b ∷ []) ≡ false
unfolding digit_value is_digit is_hex starts_digit
digit-hex b h = ground (arith, h)

zero_times : (a b : ℕ) → (0 * 16 + a) * 16 + b ≡ a * 16 + b
zero_times a b = omega arith

read_base-two :
    (a b : ℕ)
    → is_hex_digit a ≡ true
    → is_hex_digit b ≡ true
    → read_base 16 0 (a ∷ b ∷ []) ≡ (digit_value a * 16 + digit_value b, [])
unfolding read_base
read_base-two a b h k = rw (h, k) (ap (λ n. (n, [])) (zero_times (digit_value a) (digit_value b)))

read_hex-digit :
    (c : ℕ) (s : Text)
    → c == 48 && is_hex s ≡ false
    → is_hex_digit c ≡ true
    → read_hex (c ∷ s) ≡ some (read_base 16 0 (c ∷ s))
unfolding read_hex
read_hex-digit c s h k = rw h (rw k refl)

read_hex-two :
    (a b : ℕ)
    → is_hex_digit a ≡ true
    → is_hex_digit b ≡ true
    → read_hex (a ∷ b ∷ []) ≡ some (digit_value a * 16 + digit_value b, [])
read_hex-two a b h k =
    read_hex-digit a (b ∷ []) (ap (λ p. a == 48 && p) (digit-hex b k) ∙ and_false (a == 48)) h
    ∙ ap some (read_base-two a b h k)

strtoull_hex-digit :
    (c : ℕ) (s : Text) → is_hex_digit c ≡ true → strtoull_hex (c ∷ s) ≡ read_hex (c ∷ s)
unfolding strtoull_hex span
strtoull_hex-digit c s h =
    rw (strtoull_hex, digit-space c h, (digit-signs c h).0, (digit-signs c h).1) refl

strtoull_hex-two :
    (a b : ℕ)
    → is_hex_digit a ≡ true
    → is_hex_digit b ≡ true
    → strtoull_hex (a ∷ b ∷ []) ≡ some (digit_value a * 16 + digit_value b, [])
strtoull_hex-two a b h k = strtoull_hex-digit a (b ∷ []) h ∙ read_hex-two a b h k

read_hex-prefix :
    (a : ℕ) (s : Text)
    → is_hex_digit a ≡ true
    → read_hex (b'0' ∷ b'x' ∷ a ∷ s) ≡ some (read_base 16 0 (a ∷ s))
unfolding read_hex
read_hex-prefix a s h = rw h refl

zero_is_digit : is_hex_digit b'0' ≡ true
unfolding digit_value is_digit
zero_is_digit = refl

strtoull_hex-prefixed :
    (a b : ℕ)
    → is_hex_digit a ≡ true
    → is_hex_digit b ≡ true
    → strtoull_hex (b'0' ∷ b'x' ∷ a ∷ b ∷ []) ≡ some (digit_value a * 16 + digit_value b, [])
strtoull_hex-prefixed a b h k =
    strtoull_hex-digit b'0' (b'x' ∷ a ∷ b ∷ []) zero_is_digit
    ∙ read_hex-prefix a (b ∷ []) h
    ∙ ap some (read_base-two a b h k)

-- The code of the first entry with the code of a DOS partition; 0 where there is none.
abbrev pub first_mbr : List Ptype → ℕ → ℕ
first_mbr [] v = 0
first_mbr (pt ∷ pts) v = if not (v == 0) && v == pt.mbr_code then pt.code else first_mbr pts v

two_fits : (a b : ℕ) → a < 16 → b < 16 → ltb 255 (a * 16 + b) ≡ false
two_fits a b h k = ground arith

short_code-two :
    (a b : ℕ)
    → is_hex_digit a ≡ true
    → is_hex_digit b ≡ true
    → short_code (a ∷ b ∷ []) ≡ digit_value a * 16 + digit_value b
unfolding short_code
short_code-two a b h k =
    rw
      (
        short_code,
        strtoull_hex-two a b h k,
        two_fits (digit_value a) (digit_value b) (ground (arith, h)) (ground (arith, k)),
      )
      refl

short_code-prefixed :
    (a b : ℕ)
    → is_hex_digit a ≡ true
    → is_hex_digit b ≡ true
    → short_code (b'0' ∷ b'x' ∷ a ∷ b ∷ []) ≡ 0
unfolding short_code
short_code-prefixed a b h k =
    rw
      (
        short_code,
        strtoull_hex-prefixed a b h k,
        or_true (ltb 255 (digit_value a * 16 + digit_value b)),
      )
      refl

find_str-two : (pts : List Ptype) (a b v : ℕ) → find_str pts (a ∷ b ∷ []) v ≡ first_mbr pts v
unfolding find_str
find_str-two [] a b v = refl
find_str-two (pt ∷ pts) a b v = rw (guidstr_be-two pt.gpt_guid a b, find_str-two pts a b v) refl

find_str-four : (pts : List Ptype) (a b c d : ℕ) → find_str pts (a ∷ b ∷ c ∷ d ∷ []) 0 ≡ 0
unfolding find_str
find_str-four [] a b c d = refl
find_str-four (pt ∷ pts) a b c d =
    rw (guidstr_be-four pt.gpt_guid a b c d, find_str-four pts a b c d) refl

-- For two hexadecimal digits: without a prefix they find the first entry with that code, other than 0, of
-- a DOS partition; behind the prefix 0x, which libblkid prints, they find nothing.
pub get_str_code_digits :
    (pts : List Ptype) (a b : ℕ)
    → is_hex_digit a ≡ true
    → is_hex_digit b ≡ true
    → (get_str_code pts (a ∷ b ∷ []) ≡ first_mbr pts (digit_value a * 16 + digit_value b))
      × (get_str_code pts (b'0' ∷ b'x' ∷ a ∷ b ∷ []) ≡ 0)
unfolding get_str_code
get_str_code_digits pts a b h k = (
  ap (find_str pts (a ∷ b ∷ [])) (short_code-two a b h k) ∙ find_str-two pts a b _,
  ap (find_str pts (b'0' ∷ b'x' ∷ a ∷ b ∷ [])) (short_code-prefixed a b h k)
      ∙ find_str-four pts b'0' b'x' a b,
)
