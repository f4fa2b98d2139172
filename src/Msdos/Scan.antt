-- ===== src/Msdos/Scan.antt =====
-- The entry that the loop of `add_msdos` chooses.
use growlight.Prelude.{
  ℕ, zero, suc, ◌+◌, ◌≤◌, ◌<◌, ◌≡◌, ◌≢◌, ◌⊎◌, inl, inr, refl, ap, ◌∙◌, Bool, true, false, arith,
  Bool-cases, if◌then◌else◌,
}
use native.Mathlib.Decide.{dec_lt}
use growlight.Memory.{Bytes, all_zero}
use growlight.Msdos.{mpe_at, overlaps, scan}

-- An entry of zeroes.
abbrev pub is_free : Bytes → ℕ → Bool
is_free m z = all_zero 16 (mpe_at z) m

-- A number that has been chosen stays.
scan_chosen :
    (m : Bytes) (fsec lsec k z partno reported : ℕ)
    → partno ≢ 4
    → (scan m fsec lsec k z partno reported).0 ≡ partno
unfolding scan
scan_chosen m fsec lsec zero z partno reported h = refl
scan_chosen m fsec lsec (suc k) z partno reported h = ground (
  arith,
  scan_chosen m fsec lsec k (z + 1) partno reported h,
  scan_chosen m fsec lsec k (z + 1) partno (reported + 1) h,
)

abbrev pub AllUsed : Bytes → ℕ → ℕ → Type 0
AllUsed m from to = (i : ℕ) → from ≤ i → i < to → is_free m i ≡ false

-- `p` is the first free entry from `z` on, or 4 where there is none.
abbrev pub IsFirstFree : Bytes → (z p : ℕ) → Type 0
IsFirstFree m z p = ((p ≡ 4) ⊎ ((z ≤ p) × (p < 4) × (is_free m p ≡ true))) × AllUsed m z p

scan_free :
    (m : Bytes) (fsec lsec k z reported : ℕ)
    → z < 4
    → is_free m z ≡ true
    → (scan m fsec lsec (suc k) z 4 reported).0 ≡ z
unfolding scan
scan_free m fsec lsec k z reported h free =
    ground (arith, scan_chosen m fsec lsec k (z + 1) z reported)

scan_busy :
    (m : Bytes) (fsec lsec k z reported : ℕ)
    → is_free m z ≡ false
    → scan m fsec lsec (suc k) z 4 reported
      ≡ scan m fsec lsec k (z + 1) 4 (if overlaps m fsec lsec z then reported + 1 else reported)
unfolding scan
scan_busy m fsec lsec k z reported busy = rw busy

IsFirstFree-later :
    (m : Bytes) (z p : ℕ) → is_free m z ≡ false → IsFirstFree m (z + 1) p → IsFirstFree m z p
IsFirstFree-later m z p busy (found, used) = (ground arith, λ i a b. earlier i a b (dec_lt z i))
  where
    earlier : (i : ℕ) → z ≤ i → i < p → Dec (z < i) → is_free m i ≡ false
    earlier i a b (yes h) = used i (omega arith) b
    earlier i a b (no h) = ap (is_free m) (omega arith) ∙ busy

scan_from :
    (m : Bytes) (fsec lsec k z reported : ℕ)
    → z + k ≡ 4
    → IsFirstFree m z (scan m fsec lsec k z 4 reported).0
scan_from m fsec lsec zero z reported h = unfold scan in (inl refl, λ i p q. absurd (omega arith))
scan_from m fsec lsec (suc k) z reported h = elim (Bool-cases (is_free m z)) [
  | inl free ↦
      rw (scan_free m fsec lsec k z reported (omega arith) free)
        (inr (omega arith, omega arith, free), λ i p q. absurd (omega arith))
  | inr busy ↦
      rw (scan_busy m fsec lsec k z reported busy)
        (IsFirstFree-later m z _ busy (scan_from m fsec lsec k (z + 1) _ (omega arith)))
]

-- The loop chooses the first of the four entries that holds only zeroes, or 4 where there is none.
pub scan_first_of_four : (m : Bytes) (fsec lsec : ℕ) → IsFirstFree m 0 (scan m fsec lsec 4 0 4 0).0
scan_first_of_four m fsec lsec = scan_from m fsec lsec 4 0 0 (omega arith)
