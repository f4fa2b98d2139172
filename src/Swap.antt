-- ===== src/Swap.antt =====
-- src/swap.c: making, starting and stopping a swap. The shell, `swapon` and `swapoff` are parameters,
-- which are true for an error. A failed allocation is left out.
pub mod Lines
pub mod States
mod Tests
use growlight.Prelude.{
  ℕ, Bool, true, false, not, Option, none, some, List, [], ◌∷◌, ◌++◌, if◌then◌else◌, take,
}
use growlight.Text.{Text, codes, text_eq}
use growlight.Device.{Device, SwapPrio}
use growlight.Popen.{Shell, vspopen_drain}

-- swapprio >= SWAP_MAXPRIO
abbrev pub is_active : SwapPrio → Bool
is_active SwapPrio.swap_invalid = false
is_active SwapPrio.swap_inactive = false
is_active (SwapPrio.swap_prio p) = true

abbrev pub swap_maxprio : SwapPrio
swap_maxprio = SwapPrio.swap_prio 0

-- snprintf(fn, sizeof(fn), "/dev/%s", d->name)
abbrev pub dev_path : Device → Text
dev_path d = take 4095 (codes "/dev/" ++ d.name)

abbrev pub is_other_type : Option Text → Bool
is_other_type none = false
is_other_type (some t) = not (text_eq t (codes "swap"))

unfoldable pub mkswap : Shell → Device → Bool × List Text
mkswap sh d =
    if is_other_type d.mnttype
    then (true, [])
    else if is_active d.swapprio
    then (true, [])
    else vspopen_drain sh (codes "mkswap -L SprezzaSwap /dev/" ++ d.name)

-- Whether it failed, the device behind it, and the commands that were run.
unfoldable pub swapondev : Shell → (swapon : Text → Bool) → Device → (Bool × Device) × List Text
unfolding mkswap
swapondev sh swapon d =
    let (failed, ran) = mkswap sh d in
    if failed
    then ((true, d), ran)
    else if swapon (dev_path d)
    then ((true, d), ran)
    else ((false, record d { mnttype = some (codes "swap"); swapprio = swap_maxprio }), ran)

unfoldable pub swapoffdev : (swapoff : Text → Bool) → Device → Bool × Device
swapoffdev swapoff d =
    if swapoff (dev_path d)
    then (true, d)
    else (false, record d { swapprio = SwapPrio.swap_inactive })
