-- ===== src/Match/Related.antt =====
-- Proofs on the search of src/growlight.c for a device: what is found, and on which of the devices
-- the search for a whole device depends.
use growlight.Prelude.{
  ◌≡◌, refl, ◌∙◌, ap, Bool, false, ◌&&◌, ◌||◌, Bool-cases, inl, inr, Option, none, some, List, [],
  ◌∷◌, ◌++◌, arith, if◌then◌else◌,
}
use growlight.Text.{text_eq}
use growlight.Match.{
  Marked, MarkedBlockdev, same, devices_match_p, Verdict, Search, match_blockdev, match_blockdevs,
  match_device, on_device, or_search, or_result,
}

-- The two agree in all three members.
abbrev pub agrees : Marked → Marked → Bool
agrees d x = text_eq d.name x.name && same d.uuid x.uuid && same d.label x.label

-- They agree in one of them at least.
abbrev pub related : Marked → Marked → Bool
related d x = text_eq d.name x.name || same d.uuid x.uuid || same d.label x.label

-- The first device that is related, if it agrees in everything.
abbrev pub first_related : Marked → List Marked → Option Marked
first_related d [] = none
first_related d (x ∷ xs) =
    if agrees d x then some x else if related d x then none else first_related d xs

abbrev pub verdict : Marked → Marked → Verdict
verdict d x =
    if agrees d x
    then Verdict.matching
    else if related d x
    then Verdict.ambiguous
    else Verdict.unrelated

devices_match_p_lem : (d x : Marked) → devices_match_p d x ≡ verdict d x
unfolding devices_match_p
devices_match_p_lem d x = ground arith

abbrev pub whole : List MarkedBlockdev → List Marked
whole [] = []
whole (cd ∷ cds) = cd.dev ∷ whole cds

-- The block devices of all controllers, in their order.
abbrev pub all_devices : List (List MarkedBlockdev) → List Marked
all_devices [] = []
all_devices (c ∷ cs) = whole c ++ all_devices cs

match_blockdev-first_related :
    (d : Marked) (cd : MarkedBlockdev) (r : Search) (xs : List Marked)
    → or_result (or_search (match_blockdev false d cd) r) (first_related d xs) ≡ (
        if agrees d cd.dev
        then some cd.dev
        else if related d cd.dev
        then none
        else or_result r (first_related d xs))
unfolding match_blockdev
match_blockdev-first_related d cd r xs =
    rw (or_search, on_device, devices_match_p_lem d cd.dev)
      (elim (Bool-cases (agrees d cd.dev)) [
        | inl h ↦ rw h refl
        | inr h ↦ elim (Bool-cases (related d cd.dev)) [
          | inl k ↦ rw (h, k) refl
          | inr k ↦ rw (h, k) refl
        ]
      ])

match_blockdevs-first_related :
    (d : Marked) (c : List MarkedBlockdev) (xs : List Marked)
    → or_result (match_blockdevs false d c) (first_related d xs) ≡ first_related d (whole c ++ xs)
unfolding match_blockdevs match_blockdev
match_blockdevs-first_related d [] xs = refl
match_blockdevs-first_related d (cd ∷ cds) xs =
    match_blockdev-first_related d cd (match_blockdevs false d cds) xs
    ∙ ap (λ o. if agrees d cd.dev then some cd.dev else if related d cd.dev then none else o)
        (match_blockdevs-first_related d cds xs)

-- The search for a whole device stops at the first of all block devices that agrees with it in the
-- name, in the UUID or in the label, where two that have no UUID, or no label, agree in it. It gives that
-- one if the two agree in all three, and nothing otherwise; without such a device it gives nothing.
pub match_device-first_related :
    (d : Marked) (cs : List (List MarkedBlockdev))
    → match_device false d cs ≡ first_related d (all_devices cs)
unfolding match_device
match_device-first_related d [] = refl
match_device-first_related d (c ∷ cs) =
    ap (or_result (match_blockdevs false d c)) (match_device-first_related d cs)
    ∙ match_blockdevs-first_related d c (all_devices cs)
