-- ===== src/Serial/Tests.antt =====
-- A serial number with spaces around and within.
use growlight.Prelude.{◌≡◌, ◌≤◌, refl, length}
use growlight.Text.{Text, codes}
use growlight.Serial.{clean_loop, trim, cleanup_serial}
use growlight.Serial.Tidy.{IsTidy, cleanup_serial_again}

abbrev raw : Text
raw = codes "  WD  40 E "

cleaned : cleanup_serial raw 20 ≡ codes "WD 40 E"
unfolding cleanup_serial clean_loop trim
cleaned = refl

cleanup_serial_again_example :
    IsTidy (cleanup_serial raw 20)
    × (length (cleanup_serial raw 20) ≤ 20)
    × (cleanup_serial (cleanup_serial raw 20) 20 ≡ cleanup_serial raw 20)
cleanup_serial_again_example = cleanup_serial_again raw 20
