-- ===== src/Ptypes.antt =====
-- src/ptypes.c: the partition types that the program knows, and the translation of its common
-- codes into what a GPT or a DOS table stores. A pointer argument that is filled in is an Option,
-- and `none` is the return of -1.
pub mod Table
pub mod Strings
pub mod Lookup
pub mod Codes
mod Tests
use growlight.Prelude.{
  ℕ, Bool, true, false, not, ◌&&◌, ◌||◌, Option, none, some, List, [], ◌∷◌, String, ◌==◌,
  if◌then◌else◌, str_eq,
}
use Table.{Ptype, ptypes}

-- memcmp with sixteen zero bytes
abbrev pub is_zero : List ℕ → Bool
is_zero [] = true
is_zero (b ∷ bs) = (b == 0) && is_zero bs

-- The loop that stops at the first entry with a code.
unfoldable pub find_code : List Ptype → ℕ → Option Ptype
find_code [] code = none
find_code (pt ∷ pts) code = if pt.code == code then some pt else find_code pts code

unfoldable pub get_gpt_guid : List Ptype → ℕ → Option (List ℕ)
get_gpt_guid pts code = elim (find_code pts code) [
  | none ↦ none
  | some pt ↦ if is_zero pt.gpt_guid then none else some pt.gpt_guid
]

unfoldable pub get_mbr_code : List Ptype → ℕ → Option ℕ
get_mbr_code pts code = elim (find_code pts code) [
  | none ↦ none
  | some pt ↦ if pt.mbr_code == 0 then none else some pt.mbr_code
]

unfoldable pub get_code_specific : List Ptype → String → ℕ → ℕ
get_code_specific pts pttype code = elim (find_code pts code) [
  | none ↦ code
  | some pt ↦
      if str_eq pttype "gpt"
      then code
      else if str_eq pttype "mbr" || str_eq pttype "dos"
      then (if pt.mbr_code == 0 then code else pt.mbr_code)
      else code
]

unfoldable pub parttype_aggregablep : List Ptype → ℕ → Bool
parttype_aggregablep pts pt = elim (find_code pts pt) [ none ↦ false | some pptr ↦ pptr.aggregable ]

unfoldable pub ptype_supported : String → Ptype → Bool
ptype_supported pttype pt =
    if str_eq pttype "gpt"
    then not (is_zero pt.gpt_guid)
    else if str_eq pttype "mbr" || str_eq pttype "dos"
    then not (pt.mbr_code == 0)
    else false
