-- ===== src/Gpt/Add/Scan.antt =====
-- The entry that the loop of `add_gpt` chooses.
use growlight.Prelude.{
  ℕ, zero, suc, ◌+◌, ◌≤◌, ◌<◌, ◌≡◌, ◌≢◌, ◌⊎◌, inl, inr, refl, ap, ◌∙◌, true, false, arith,
  Bool-cases, if◌then◌else◌,
}
use native.Mathlib.Decide.{dec_lt}
use growlight.Memory.{Bytes}
use growlight.Gpt.Add.{in_use, overlaps, scan}

-- A number that has been chosen stays.
scan_chosen :
    (m : Bytes) (count fsec lsec k z partno reported : ℕ)
    → partno ≢ count
    → (scan m count fsec lsec k z partno reported).0 ≡ partno
unfolding scan
scan_chosen m count fsec lsec zero z partno reported h = refl
scan_chosen m count fsec lsec (suc k) z partno reported h = ground (
  arith,
  scan_chosen m count fsec lsec k (z + 1) partno reported h,
  scan_chosen m count fsec lsec k (z + 1) partno (reported + 1) h,
)

-- All entries from one number up to another are in use.
abbrev pub AllUsed : Bytes → ℕ → ℕ → Type 0
AllUsed m from to = (i : ℕ) → from ≤ i → i < to → in_use m i ≡ true

-- `p` is the first free entry from `z` on, or the count where there is none.
abbrev pub IsFirstFree : Bytes → (count z p : ℕ) → Type 0
IsFirstFree m count z p =
    ((p ≡ count) ⊎ ((z ≤ p) × (p < count) × (in_use m p ≡ false))) × AllUsed m z p

scan_free :
    (m : Bytes) (count fsec lsec k z reported : ℕ)
    → z < count
    → in_use m z ≡ false
    → (scan m count fsec lsec (suc k) z count reported).0 ≡ z
unfolding scan
scan_free m count fsec lsec k z reported h free =
    ground (arith, scan_chosen m count fsec lsec k (z + 1) z reported)

scan_busy :
    (m : Bytes) (count fsec lsec k z reported : ℕ)
    → in_use m z ≡ true
    → scan m count fsec lsec (suc k) z count reported
      ≡ scan m count fsec lsec k
          (z + 1)
          count
          (if overlaps m fsec lsec z then reported + 1 else reported)
unfolding scan
scan_busy m count fsec lsec k z reported busy = rw busy

IsFirstFree-later :
    (m : Bytes) (count z p : ℕ)
    → in_use m z ≡ true
    → IsFirstFree m count (z + 1) p
    → IsFirstFree m count z p
IsFirstFree-later m count z p busy (found, used) =
    (ground arith, λ i a b. earlier i a b (dec_lt z i))
  where
    earlier : (i : ℕ) → z ≤ i → i < p → Dec (z < i) → in_use m i ≡ true
    earlier i a b (yes h) = used i (omega arith) b
    earlier i a b (no h) = ap (in_use m) (omega arith) ∙ busy

scan_from :
    (m : Bytes) (count fsec lsec k z reported : ℕ)
    → z + k ≡ count
    → IsFirstFree m count z (scan m count fsec lsec k z count reported).0
scan_from m count fsec lsec zero z reported h =
    unfold scan in (inl refl, λ i p q. absurd (omega arith))
scan_from m count fsec lsec (suc k) z reported h = elim (Bool-cases (in_use m z)) [
  | inl busy ↦
      rw (scan_busy m count fsec lsec k z reported busy)
        (IsFirstFree-later m count z _ busy (scan_from m count fsec lsec k (z + 1) _ (omega arith)))
  | inr free ↦
      rw (scan_free m count fsec lsec k z reported (omega arith) free)
        (inr (omega arith, omega arith, free), λ i p q. absurd (omega arith))
]

-- The loop chooses the first entry that is not in use, or the count of entries where all are.
pub scan_first :
    (m : Bytes) (count fsec lsec : ℕ)
    → IsFirstFree m count 0 (scan m count fsec lsec count 0 count 0).0
scan_first m count fsec lsec = scan_from m count fsec lsec count 0 0 (omega arith)
