-- ===== src/Io/Laws.antt =====
-- Taking a run apart: what its parts did, if it succeeded.
use growlight.Prelude.{◌≡◌, refl, arith}
use growlight.Io.{World, Outcome, ok, fail, abort, Io, ◌>>=◌, ◌>>◌, on_fail}

module _ {A B : Type 0} where
  pub >>=-ok :
      (m : Io A) (f : A → Io B) (w : World) {b : B} {w'' : World}
      → (m >>= f) w ≡ (ok b, w'')
      → (a : A) × (w' : World) × (m w ≡ (ok a, w')) × (f a w' ≡ (ok b, w''))
  >>=-ok m f w {b} {w''} e = split (m w) refl
    where
      split :
          (r : Outcome A × World)
          → m w ≡ r
          → (a : A) × (w' : World) × (m w ≡ (ok a, w')) × (f a w' ≡ (ok b, w''))
      split (ok a, w') h = (a, w', h, ground arith)
      split (fail, w') h = absurd (ground arith)
      split (abort, w') h = absurd (ground arith)

  pub >>-ok :
      (m : Io A) (k : Io B) (w : World) {b : B} {w'' : World}
      → (m >> k) w ≡ (ok b, w'')
      → (a : A) × (w' : World) × (m w ≡ (ok a, w')) × (k w' ≡ (ok b, w''))
  >>-ok m k w e = >>=-ok m (λ _. k) w e

  pub on_fail-ok :
      (m : Io A) (c : Io B) (w : World) {a : A} {w' : World}
      → on_fail m c w ≡ (ok a, w')
      → m w ≡ (ok a, w')
  on_fail-ok m c w e = ground arith

-- A run by its two parts.
pub pair_of : {r : Outcome (Unit {0}) × World} → r.0 ≡ ok tt → r ≡ (ok tt, r.1)
pair_of {r} h = ground arith
