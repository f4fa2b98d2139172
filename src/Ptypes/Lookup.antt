-- ===== src/Ptypes/Lookup.antt =====
-- The lookups of src/ptypes.c on its own table: what they return is well formed, no entry hides
-- another, and `ptype_supported` agrees with the translations.
use growlight.Prelude.{
  ℕ, ◌<◌, ◌≡◌, ◌≢◌, refl, false, Option, none, some, List, [], ◌∷◌, arith, length, ◌==◌, Bool-cases,
  ◌^◌, inl, inr, ◌⊎◌, subst,
}
use growlight.Prelude.Maybe.{is_some}
use growlight.Ptypes.{is_zero, find_code, get_gpt_guid, get_mbr_code, ptype_supported}
use growlight.Ptypes.Table.{Ptype, ptypes}

abbrev pub All : (Ptype → Type 0) → List Ptype → Type 0
All P [] = Unit
All P (pt ∷ pts) = P pt × All P pts

-- Sixteen bytes of GUID, and codes that fit their members.
pub record IsWellFormed (pt : Ptype) : Type 0 where
  pub guid : length pt.gpt_guid ≡ 16
  pub code : pt.code < 2 ^ 16
  pub mbr : pt.mbr_code < 2 ^ 8

ptypes-IsWellFormed : All IsWellFormed ptypes
unfolding ptypes
ptypes-IsWellFormed = omega arith

-- What the loop finds is an entry of the table, with the code that was asked for.
find_code-All :
    (P : Ptype → Type 0) (pts : List Ptype) (code : ℕ) {pt : Ptype}
    → All P pts
    → find_code pts code ≡ some pt
    → P pt × (pt.code ≡ code)
unfolding find_code
find_code-All P [] code h e = absurd (cc)
find_code-All P (q ∷ pts) code {pt} (p, ps) e = elim (Bool-cases (q.code == code)) [
  | inl here ↦ let same : q ≡ pt = ground (arith, here) in (subst P same p, ground arith)
  | inr there ↦ find_code-All P pts code ps (ground (arith, there))
]

guid_of :
    (pts : List Ptype) (code : ℕ) {guid : List ℕ}
    → All IsWellFormed pts
    → get_gpt_guid pts code ≡ some guid
    → (length guid ≡ 16) × (is_zero guid ≡ false)
unfolding get_gpt_guid
guid_of pts code {guid} well e = found (find_code pts code) refl
  where
    found :
        (o : Option Ptype) → find_code pts code ≡ o → (length guid ≡ 16) × (is_zero guid ≡ false)
    found none h = absurd (ground arith)
    found (some pt) h = ground (arith, find_code-All IsWellFormed pts code {pt = pt} well h)

-- A GUID that `get_gpt_guid` returns has sixteen bytes, not all of them zero.
pub get_gpt_guid_sound :
    (code : ℕ) {guid : List ℕ}
    → get_gpt_guid ptypes code ≡ some guid
    → (length guid ≡ 16) × (is_zero guid ≡ false)
get_gpt_guid_sound code e = guid_of ptypes code ptypes-IsWellFormed e

-- No entry of the table hides another: each is the one that its code finds.
abbrev pub IsFound : Ptype → Type 0
IsFound pt = find_code ptypes pt.code ≡ some pt

ptypes-IsFound : All IsFound ptypes
unfolding find_code ptypes
ptypes-IsFound = (
  refl,
  (
    refl,
    (
      refl,
      (
        refl,
        (
          refl,
          (
            refl,
            (
              refl,
              (
                refl,
                (
                  refl,
                  (
                    refl,
                    (
                      refl,
                      (
                        refl,
                        (
                          refl,
                          (
                            refl,
                            (
                              refl,
                              (
                                refl,
                                (
                                  refl,
                                  (
                                    refl,
                                    (
                                      refl,
                                      (
                                        refl,
                                        (
                                          refl,
                                          (
                                            refl,
                                            (
                                              refl,
                                              (
                                                refl,
                                                (
                                                  refl,
                                                  (
                                                    refl,
                                                    (
                                                      refl,
                                                      (
                                                        refl,
                                                        (
                                                          refl,
                                                          (
                                                            refl,
                                                            (
                                                            refl,
                                                            (
                                                            refl,
                                                            (
                                                            refl,
                                                            (
                                                            refl,
                                                            (
                                                            refl,
                                                            (
                                                            refl,
                                                            (
                                                            refl,
                                                            (
                                                            refl,
                                                            (
                                                            refl,
                                                            (
                                                            refl,
                                                            (
                                                            refl,
                                                            (
                                                            refl,
                                                            (
                                                            refl,
                                                            (
                                                            refl,
                                                            (
                                                            refl,
                                                            (
                                                            refl,
                                                            (
                                                            refl,
                                                            (
                                                            refl,
                                                            (
                                                            refl,
                                                            (
                                                            refl,
                                                            (
                                                            refl,
                                                            (
                                                            refl,
                                                            (
                                                            refl,
                                                            (
                                                            refl,
                                                            (
                                                            refl,
                                                            (
                                                            refl,
                                                            (
                                                            refl,
                                                            (
                                                            refl,
                                                            (
                                                            refl,
                                                            (
                                                            refl,
                                                            (refl, (refl, (refl, (refl, tt)))),
                                                            ),
                                                            ),
                                                            ),
                                                            ),
                                                            ),
                                                            ),
                                                            ),
                                                            ),
                                                            ),
                                                            ),
                                                            ),
                                                            ),
                                                            ),
                                                            ),
                                                            ),
                                                            ),
                                                            ),
                                                            ),
                                                            ),
                                                            ),
                                                            ),
                                                            ),
                                                            ),
                                                            ),
                                                            ),
                                                            ),
                                                            ),
                                                            ),
                                                            ),
                                                            ),
                                                          ),
                                                        ),
                                                      ),
                                                    ),
                                                  ),
                                                ),
                                              ),
                                            ),
                                          ),
                                        ),
                                      ),
                                    ),
                                  ),
                                ),
                              ),
                            ),
                          ),
                        ),
                      ),
                    ),
                  ),
                ),
              ),
            ),
          ),
        ),
      ),
    ),
  ),
)

-- An Option that is not `none`.
pub some_of : {A : Type 0} (o : Option A) → o ≢ none → (a : A) × (o ≡ some a)
some_of none h = absurd (h refl)
some_of (some a) h = (a, refl)

agrees :
    (pts : List Ptype) (pt : Ptype)
    → find_code pts pt.code ≡ some pt
    → (ptype_supported "gpt" pt ≡ is_some (get_gpt_guid pts pt.code))
      × (ptype_supported "dos" pt ≡ is_some (get_mbr_code pts pt.code))
unfolding ptype_supported get_gpt_guid get_mbr_code
agrees pts pt h = (ground (arith, h), ground (arith, h))

-- An entry of a table.
abbrev pub Listed : Ptype → List Ptype → Type 0
Listed pt [] = ⊥
Listed pt (q ∷ pts) = (q ≡ pt) ⊎ Listed pt pts

All-Listed : (P : Ptype → Type 0) (pts : List Ptype) (pt : Ptype) → All P pts → Listed pt pts → P pt
All-Listed P [] pt h m = absurd m
All-Listed P (q ∷ pts) pt (p, ps) (inl e) = subst P e p
All-Listed P (q ∷ pts) pt (p, ps) (inr m) = All-Listed P pts pt ps m

-- An entry of the table is supported on a GPT, or on a DOS table, exactly if its code translates.
pub ptype_supported_agrees :
    (pt : Ptype)
    → Listed pt ptypes
    → (ptype_supported "gpt" pt ≡ is_some (get_gpt_guid ptypes pt.code))
      × (ptype_supported "dos" pt ≡ is_some (get_mbr_code ptypes pt.code))
ptype_supported_agrees pt m = agrees ptypes pt (All-Listed IsFound ptypes pt ptypes-IsFound m)

mbr_of :
    (pts : List Ptype) (code : ℕ) {mbr : ℕ}
    → All IsWellFormed pts
    → get_mbr_code pts code ≡ some mbr
    → (0 < mbr) × (mbr < 256)
unfolding get_mbr_code
mbr_of pts code {mbr} well e = found (find_code pts code) refl
  where
    found : (o : Option Ptype) → find_code pts code ≡ o → (0 < mbr) × (mbr < 256)
    found none h = absurd (ground arith)
    found (some pt) h = ground (arith, find_code-All IsWellFormed pts code {pt = pt} well h)

-- A DOS type that `get_mbr_code` returns is a byte other than 0.
pub get_mbr_code_sound :
    (code : ℕ) {mbr : ℕ} → get_mbr_code ptypes code ≡ some mbr → (0 < mbr) × (mbr < 256)
get_mbr_code_sound code e = mbr_of ptypes code ptypes-IsWellFormed e
