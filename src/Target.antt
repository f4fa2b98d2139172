-- ===== src/Target.antt =====
-- src/target.c: the target root, and what is written below it at the end. The calls of the kernel are
-- parameters, and a failed allocation and the dialogs are left out.
pub mod Fstab
pub mod Final
pub mod Modes
mod Tests
use growlight.Prelude.{ℕ, Bool, true, false, Option, none, some, List, [], ◌∷◌, if◌then◌else◌}
use growlight.Text.{Text, text_eq, starts_with}
use growlight.Device.{Device}
use growlight.Devices.{Blockdev, Controller, string_included_p}

-- What `realpath`, `open` and `close` answer. `open_dir` is also called with NULL; `close` is true on an
-- error.
pub record Host : Type 0 where
  pub realpath : Text → Option Text
  pub open_dir : Option Text → Option ℕ
  pub close : ℕ → Bool

-- `growlight_target` and `targfd`, with the tables of devices.
pub record System : Type 0 where
  pub controllers : List Controller
  pub growlight_target : Option Text
  pub targfd : Option ℕ

-- A run of a function: whether it failed, and the state behind it.
unfoldable pub mount_target : Host → System → Bool × System
mount_target h s = elim (h.open_dir s.growlight_target) [
  | none ↦ (true, record s { targfd = none })
  | some fd ↦ (false, record s { targfd = some fd })
]

unfoldable pub unmount_target : Host → System → Bool × System
unmount_target h s = elim s.targfd [
  | none ↦ (true, s)
  | some fd ↦ (h.close fd, record s { targfd = none })
]

-- The loop over the partitions of a device.
unfoldable pub use_parts : Host → Text → List Device → System → System
use_parts h path [] s = s
use_parts h path (p ∷ ps) s =
    use_parts h path ps (if string_included_p p.mnt path then (mount_target h s).1 else s)

unfoldable pub use_blockdevs : Host → Text → List Blockdev → System → System
unfolding use_parts
use_blockdevs h path [] s = s
use_blockdevs h path (d ∷ ds) s =
    let s1 = use_parts h path d.parts s in
    use_blockdevs h path ds (if string_included_p d.dev.mnt path then (mount_target h s1).1 else s1)

unfoldable pub use_new_target : Host → Text → List Controller → System → System
unfolding use_blockdevs
use_new_target h path [] s = s
use_new_target h path (c ∷ cs) s = use_new_target h path cs (use_blockdevs h path c.blockdevs s)

unfoldable pub set_target : Host → Option Text → System → Bool × System
set_target h (some path) s = elim s.growlight_target [
  | some t ↦ (true, s)
  | none ↦ elim (h.realpath path) [
    | none ↦ (true, s)
    | some real ↦
        (false, record (use_new_target h real s.controllers s) { growlight_target = some real })
  ]
]
set_target h none s = elim s.growlight_target [
  | none ↦ (true, s)
  | some t ↦ (false, (unmount_target h (record s { growlight_target = none })).1)
]

unfoldable pub target_mode_p : Option Text → Bool
target_mode_p none = false
target_mode_p (some t) = true

-- The loops over the mounts of a device.
unfoldable pub any_below : List Text → Text → Bool
any_below [] t = false
any_below (m ∷ ms) t = if starts_with m t then true else any_below ms t

unfoldable pub targeted_p : Option Text → Device → Bool
unfolding any_below
targeted_p none d = false
targeted_p (some t) d = any_below d.mnt t

unfoldable pub target_root_p : Option Text → Device → Bool
target_root_p none d = false
target_root_p (some t) d = string_included_p d.mnt t
