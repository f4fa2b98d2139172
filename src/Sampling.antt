-- ===== src/Sampling.antt =====
-- `timeval_subtract` and `alignment` of src/growlight.c. The seconds of a time are of 64
-- bits, in two's complement.
pub mod Elapsed
pub mod Power
mod Tests
use growlight.Prelude.{
  ℕ, zero, suc, ◌+◌, ◌-◌, ◌*◌, ◌/◌, ◌%◌, ◌^◌, Bool, Option, none, some, ltb, ◌==◌, if◌then◌else◌,
}

pub record Timeval : Type 0 where
  pub sec : ℕ
  pub usec : ℕ

-- The first test: seconds are borrowed.
unfoldable pub borrow : Timeval → Timeval → Timeval
borrow e s =
    let nsec = (s.usec - e.usec) / 100000 + 1 in
    if ltb e.usec s.usec
    then record { sec = (e.sec + 2 ^ 64 - nsec) % 2 ^ 64; usec = e.usec + 1000000 * nsec }
    else e

-- The second test: seconds are given back.
unfoldable pub give_back : Timeval → Timeval → Timeval
give_back e s =
    let nsec = (e.usec - s.usec) / 1000000 in
    if ltb 1000000 (e.usec - s.usec)
    then record { sec = (e.sec + nsec) % 2 ^ 64; usec = e.usec - 1000000 * nsec }
    else e

unfoldable pub timeval_subtract : (minuend subtrahend : Timeval) → Timeval
unfolding borrow give_back
timeval_subtract m s =
    let e = give_back (borrow m s) s in
    record { sec = (e.sec + 2 ^ 64 - s.sec) % 2 ^ 64; usec = e.usec - s.usec }

-- The loop; `none` means that the fuel has run out.
unfoldable pub alignment_loop : (fuel a val : ℕ) → Option ℕ
alignment_loop zero a val = none
alignment_loop (suc f) a val =
    let b = (2 * a) % 2 ^ 64 in
    let more = alignment_loop f b val in
    if b == 0 then some (2 ^ 63) else (if val % b == 0 then more else some (b / 2))

unfoldable pub alignment : (val : ℕ) → Option ℕ
unfolding alignment_loop
alignment val = alignment_loop 64 1 val
