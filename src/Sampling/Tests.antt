-- ===== src/Sampling/Tests.antt =====
-- Runs on times and on alignments.
use growlight.Prelude.{◌+◌, ◌<◌, ◌≡◌, arith}
use growlight.Sampling.{Timeval, timeval_subtract}
use growlight.Sampling.Elapsed.{total, timeval_subtract_lem}

abbrev later : Timeval
later = record { sec = 5; usec = 100 }

abbrev earlier : Timeval
earlier = record { sec = 3; usec = 999999 }

timeval_subtract_lem_example :
    ((timeval_subtract later earlier).usec < 1000000)
    × (total (timeval_subtract later earlier) + total earlier ≡ total later)
timeval_subtract_lem_example =
    timeval_subtract_lem later earlier (record { sec = omega arith; usec = omega arith })
      (record { sec = omega arith; usec = omega arith }) (omega arith)
