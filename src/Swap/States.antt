-- ===== src/Swap/States.antt =====
-- What comes of starting and stopping a swap.
use growlight.Prelude.{◌≡◌, refl, ap, ◌∙◌, Bool, true, false, some, [], arith, if◌then◌else◌}
use growlight.Text.{Text, codes}
use growlight.Device.{Device}
use growlight.Popen.{Shell}
use growlight.Swap.{is_active, swap_maxprio, mkswap, swapondev}

-- An active swap.
abbrev pub active : Device → Device
active d = record d { mnttype = some (codes "swap"); swapprio = swap_maxprio }

-- Starting a swap leaves the device as it was if a command or the kernel refuses, and an active swap
-- otherwise.
pub swapondev-active :
    (sh : Shell) (swapon : Text → Bool) (d : Device)
    → (swapondev sh swapon d).0.1 ≡ (if (swapondev sh swapon d).0.0 then d else active d)
unfolding swapondev
swapondev-active sh swapon d = ground arith

mkswap-active : (sh : Shell) (d : Device) → is_active d.swapprio ≡ true → mkswap sh d ≡ (true, [])
unfolding mkswap
mkswap-active sh d h = ground (arith, h)

swapondev-refused :
    (sh : Shell) (swapon : Text → Bool) (d : Device)
    → mkswap sh d ≡ (true, [])
    → swapondev sh swapon d ≡ ((true, d), [])
unfolding swapondev
swapondev-refused sh swapon d h = rw (swapondev, h) refl

-- A swap that was started is not made or started again: without a stop between, the second start is
-- refused before a command is run, and leaves the device as it is.
pub swapondev-again :
    (sh : Shell) (swapon : Text → Bool) (d : Device)
    → (swapondev sh swapon d).0.0 ≡ false
    → swapondev sh swapon (swapondev sh swapon d).0.1 ≡ ((true, active d), [])
swapondev-again sh swapon d h =
    ap (swapondev sh swapon) left
    ∙ swapondev-refused sh swapon (active d) (mkswap-active sh (active d) refl)
  where
    left : (swapondev sh swapon d).0.1 ≡ active d
    left = swapondev-active sh swapon d ∙ rw h refl
