-- ===== src/Prelude/Append.antt =====
-- Lists joined end to end.
use native.Mathlib.Omega.{arith}
use Prim.Native.Nat.{suc, ◌+◌}
use mathlib.Core.Path.{◌≡◌, refl, ap}
use mathlib.Core.List.{List, [], ◌∷◌, ◌++◌}
use growlight.Prelude.Lists.{length}

module _ {ℓ} {A : Type ℓ} where
  pub append_assoc : (a b c : List A) → (a ++ b) ++ c ≡ a ++ (b ++ c)
  append_assoc [] b c = refl
  append_assoc (x ∷ a) b c = ap (λ t. x ∷ t) (append_assoc a b c)

  pub append-nil : (a : List A) → a ++ [] ≡ a
  append-nil [] = refl
  append-nil (x ∷ a) = ap (λ t. x ∷ t) (append-nil a)

  pub snoc-append : (s : List A) (c : A) (w : List A) → (s ++ c ∷ []) ++ w ≡ s ++ c ∷ w
  snoc-append [] c w = refl
  snoc-append (b ∷ s) c w = ap (λ u. b ∷ u) (snoc-append s c w)

  pub length-append : (a b : List A) → length (a ++ b) ≡ length a + length b
  length-append [] b = omega arith
  length-append (x ∷ a) b = omega (arith, length-append a b)

  pub length-snoc : (s : List A) (c : A) → length (s ++ c ∷ []) ≡ suc (length s)
  length-snoc [] c = refl
  length-snoc (b ∷ s) c = ap suc (length-snoc s c)
