-- ===== src/Serial.antt =====
-- src/sg.c: `cleanup_serial`, which tidies the serial number of a disk. A failed allocation is left out.
pub mod Tidy
mod Tests
use growlight.Prelude.{
  ℕ, zero, suc, Bool, true, false, not, ◌&&◌, ◌||◌, [], ◌∷◌, ◌++◌, ◌==◌, if◌then◌else◌,
}
use growlight.Text.{Text, is_space, is_print, is_nil}

-- The characters that were copied, and whether the last one passed was a space.
pub record Cleaner : Type 0 where
  pub clean : Text
  pub inspace : Bool

-- The loop's body on a byte that is not zero.
unfoldable pub clean_byte : ℕ → Cleaner → Cleaner
unfolding is_space is_print
clean_byte c x =
    if is_space c || not (is_print c)
    then (if x.inspace then x else record { clean = x.clean ++ 32 ∷ []; inspace = true })
    else record { clean = x.clean ++ c ∷ []; inspace = false }

-- The loop, with the count of the rounds that are left.
unfoldable pub clean_loop : (rounds : ℕ) → Text → Cleaner → Cleaner
unfolding clean_byte
clean_loop zero serial x = x
clean_loop (suc n) [] x = x
clean_loop (suc n) (c ∷ serial) x =
    let rest = clean_loop n serial (clean_byte c x) in if c == 0 then x else rest

-- --snlen
unfoldable pub drop_last : Text → Text
drop_last [] = []
drop_last (c ∷ s) = if is_nil s then [] else c ∷ drop_last s

-- if(inspace && snlen){ --snlen; }
unfoldable pub trim : (inspace : Bool) → Text → Text
unfolding drop_last
trim inspace s = if inspace && not (is_nil s) then drop_last s else s

abbrev pub fresh : Cleaner
fresh = record { clean = []; inspace = true }

unfoldable pub cleanup_serial : Text → (snmax : ℕ) → Text
unfolding clean_loop trim
cleanup_serial serial snmax = let x = clean_loop snmax serial fresh in trim x.inspace x.clean
