-- ===== src/Prelude/Tests.antt =====
-- Boolean tests on the native numbers, and the conditional.
use native.Mathlib.Omega.{arith}
use Prim.Native.Nat.{◌≤◌, ◌<◌, ℕ, compare, Ordering}
use mathlib.Core.Path.{◌≡◌, refl}
use mathlib.Core.Logic.{◌⊎◌, inl, inr}
use mathlib.Core.Bool.{Bool, true, false, ◌&&◌, ◌||◌}

abbrev pub ltb : ℕ → ℕ → Bool
ltb a b = elim (compare a b) [ Ordering.lt ↦ true | _ ↦ false ]

abbrev pub leb : ℕ → ℕ → Bool
leb a b = elim (compare a b) [ Ordering.gt ↦ false | _ ↦ true ]

infix 50 ◌==◌
abbrev pub ◌==◌ : ℕ → ℕ → Bool
a == b = elim (compare a b) [ Ordering.eq ↦ true | _ ↦ false ]

infix 1 if◌then◌else◌
abbrev pub if◌then◌else◌ {ℓ} : {A : Type ℓ} → Bool → A → A → A
if true then x else y = x
if false then x else y = y

-- To split on a computed test and keep the equation.
pub Bool-cases : (b : Bool) → (b ≡ true) ⊎ (b ≡ false)
Bool-cases true = inl refl
Bool-cases false = inr refl

pub leb_sound : (m n : ℕ) → leb m n ≡ true → m ≤ n
leb_sound m n h = ground arith

pub leb-false : (m n : ℕ) → leb m n ≡ false → n < m
leb-false m n h = ground arith

pub or_true : (b : Bool) → b || true ≡ true
or_true true = refl
or_true false = refl

pub or_false : (b : Bool) → b || false ≡ b
or_false true = refl
or_false false = refl

pub and_false : (b : Bool) → b && false ≡ false
and_false true = refl
and_false false = refl
