-- ===== src/Ptypes/Strings.antt =====
-- src/ptypes.c: `get_str_code`, and `guidstr_be` of src/growlight.h, which prints a GUID.
use growlight.Prelude.{
  ℕ, ◌+◌, ◌-◌, ◌/◌, ◌%◌, not, ◌&&◌, ◌||◌, none, some, List, [], ◌∷◌, ltb, ◌==◌, if◌then◌else◌,
  length, get_or,
}
use growlight.Text.{Text, text_eq}
use growlight.Text.Hex.{strtoull_hex}
use growlight.Ptypes.Table.{Ptype}

abbrev hex_digit : ℕ → ℕ
hex_digit d = if ltb d 10 then 48 + d else 87 + d

-- %02x for each of the bytes at the positions that are listed.
abbrev print_bytes : List ℕ → (positions : List ℕ) → Text → Text
print_bytes guid [] rest = rest
print_bytes guid (i ∷ is) rest =
    hex_digit (get_or guid i 0 / 16) ∷ hex_digit (get_or guid i 0 % 16) ∷ print_bytes guid is rest

unfoldable pub guidstr_be : (guid : List ℕ) → Text
guidstr_be gc = print_bytes gc (3 ∷ 2 ∷ 1 ∷ 0 ∷ []) (
    b'-'
    ∷ print_bytes gc (5 ∷ 4 ∷ []) (
        b'-'
        ∷ print_bytes gc (7 ∷ 6 ∷ []) (
            b'-'
            ∷ print_bytes gc (8 ∷ 9 ∷ [])
                (b'-' ∷ print_bytes gc (10 ∷ 11 ∷ 12 ∷ 13 ∷ 14 ∷ 15 ∷ []) []))))

-- The loop over the table.
unfoldable pub find_str : List Ptype → (str : Text) → (ul : ℕ) → ℕ
unfolding guidstr_be text_eq
find_str [] str ul = 0
find_str (pt ∷ pts) str ul =
    if text_eq (guidstr_be pt.gpt_guid) str
    then pt.code
    else if not (ul == 0) && ul == pt.mbr_code
    then pt.code
    else find_str pts str ul

-- (ul = strtoul(str, &e, 16)) > 0xff || e - str > 2
unfoldable pub short_code : Text → ℕ
unfolding strtoull_hex
short_code str = elim (strtoull_hex str) [
  | none ↦ 0
  | some n ↦ if ltb 255 n.0 || ltb 2 (length str - length n.1) then 0 else n.0
]

unfoldable pub get_str_code : List Ptype → (str : Text) → ℕ
unfolding find_str short_code
get_str_code pts str = find_str pts str (short_code str)
