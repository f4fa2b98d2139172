-- ===== src/Ptypes/Tests.antt =====
-- The theorems on src/ptypes.c at entries of its table.
use growlight.Prelude.{ℕ, ◌+◌, ◌*◌, ◌≡◌, refl, List, [], ◌∷◌, some}
use growlight.Ptypes.{find_code, get_gpt_guid, get_mbr_code}
use growlight.Text.{is_digit}
use growlight.Text.Strtoull.{digit_value}
use growlight.Ptypes.Table.{ptypes}
use growlight.Ptypes.Strings.{get_str_code}
use growlight.Ptypes.Codes.{first_mbr, get_str_code_digits}

-- "Linux filesystem"
abbrev linux_guid : List ℕ
linux_guid =
    175 ∷ 61 ∷ 198 ∷ 15 ∷ 131 ∷ 132 ∷ 114 ∷ 71 ∷ 142 ∷ 121 ∷ 61 ∷ 105 ∷ 216 ∷ 71 ∷ 125 ∷ 228 ∷ []

known : get_gpt_guid ptypes 0x8300 ≡ some linux_guid
unfolding get_gpt_guid find_code ptypes
known = refl

swap_code : get_mbr_code ptypes 0x8200 ≡ some 0x82
unfolding get_mbr_code find_code ptypes
swap_code = refl

-- "83", and the same behind its prefix.
get_str_code_digits_example :
    (get_str_code ptypes (b'8' ∷ b'3' ∷ [])
      ≡ first_mbr ptypes (digit_value b'8' * 16 + digit_value b'3'))
    × (get_str_code ptypes (b'0' ∷ b'x' ∷ b'8' ∷ b'3' ∷ []) ≡ 0)
unfolding digit_value is_digit
get_str_code_digits_example = get_str_code_digits ptypes b'8' b'3' refl refl

found_83 : first_mbr ptypes 0x83 ≡ 0x8300
unfolding ptypes
found_83 = refl
