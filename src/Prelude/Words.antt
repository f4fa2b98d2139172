-- ===== src/Prelude/Words.antt =====
-- Unsigned 64-bit arithmetic with its wrap-around written out.
use Prim.Native.Nat.{ℕ, ◌+◌, ◌-◌, ◌*◌, ◌%◌, ◌^◌}

abbrev pub u32_mod : ℕ
u32_mod = 2 ^ 32

abbrev pub u64_mod : ℕ
u64_mod = 2 ^ 64

abbrev pub add64 : ℕ → ℕ → ℕ
add64 a b = (a + b) % u64_mod

-- The subtrahend is below the modulus.
abbrev pub sub64 : ℕ → ℕ → ℕ
sub64 a b = (a + u64_mod - b) % u64_mod

abbrev pub mul64 : ℕ → ℕ → ℕ
mul64 a b = (a * b) % u64_mod
