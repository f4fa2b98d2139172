-- ===== src/Prelude.antt =====
-- The names that the modules share: those of the libraries, passed on, and the Boolean tests,
-- list functions and word arithmetic of the children.
mod Tests
mod Lists
mod Append
mod Words
pub mod Maybe
pub use Tests.*
pub use Lists.*
pub use Append.*
pub use Words.*
pub use Prim.Native.Nat.{ℕ, zero, suc, ◌+◌, ◌-◌, ◌*◌, ◌/◌, ◌%◌, ◌^◌, ◌≤◌, ◌<◌}
pub use Prim.Native.Nat.{bit_and, bit_or}
pub use Prim.Native.String.{String}
pub use mathlib.Core.Path.{◌≡◌, refl, sym, ap, subst, ◌∙◌}
pub use mathlib.Core.Logic.{◌≢◌, ◌↔◌, ◌⊎◌, inl, inr}
pub use mathlib.Core.Bool.{Bool, true, false, not, ◌&&◌, ◌||◌}
pub use mathlib.Core.Option.{Option, none, some}
pub use mathlib.Core.List.{List, [], ◌∷◌, ◌++◌, map}
pub use text.Mathlib.Text.{◌==◌ as str_eq}
pub use native.Mathlib.Omega.{arith}
