-- ===== src/Sampling/Elapsed.antt =====
-- The time between two samples.
use growlight.Prelude.{ℕ, ◌+◌, ◌*◌, ◌^◌, ◌≤◌, ◌<◌, ◌≡◌, arith}
use growlight.Sampling.{Timeval, borrow, give_back, timeval_subtract}

-- Less than a second of microseconds, and seconds that are not negative.
pub record IsTime (t : Timeval) : Type 0 where
  pub sec : t.sec < 2 ^ 63
  pub usec : t.usec < 1000000

abbrev pub total : Timeval → ℕ
total t = 1000000 * t.sec + t.usec

-- The difference of two normal times, the later first: it is normal, and together with the earlier time
-- makes the later one.
pub timeval_subtract_lem :
    (m s : Timeval)
    → IsTime m
    → IsTime s
    → total s ≤ total m
    → ((timeval_subtract m s).usec < 1000000) × (total (timeval_subtract m s) + total s ≡ total m)
unfolding timeval_subtract borrow give_back
timeval_subtract_lem m s i j h = ground (arith, i.sec, i.usec, j.sec, j.usec, h)
