-- ===== src/Target/Fstab.antt =====
-- `dump_device_targets` and `dump_targets` of src/target.c: the text of etc/fstab. `none` stands for a
-- read behind the mount options of a device.
pub mod Reading
use growlight.Prelude.{
  ℕ, ◌+◌, ◌&&◌, Bool, true, false, Option, none, some, List, [], ◌∷◌, ◌++◌, if◌then◌else◌,
  get_elem?, length,
}
use growlight.Prelude.Maybe.{◌>>=◌, ◌>>◌}
use growlight.Text.{Text, codes, text_eq, starts_with, drop}
use growlight.Device.{Device, SwapPrio, layout_is, Layout}
use growlight.Devices.{Blockdev, Controller}
use growlight.Target.{System}

abbrev pub swap_valid : SwapPrio → Bool
swap_valid SwapPrio.swap_invalid = false
swap_valid SwapPrio.swap_inactive = true
swap_valid (SwapPrio.swap_prio p) = true

-- "/dev/%s %s %s %s 0 %u\n"
abbrev pub fstab_line : (name mnt fs ops : Text) → (dump : ℕ) → Text
fstab_line name mnt fs ops dump =
    (codes "/dev/" ++ name)
    ++ 32 ∷ (mnt ++ 32 ∷ (fs ++ 32 ∷ (ops ++ 32 ∷ ((48 ∷ 32 ∷ (48 + dump) ∷ []) ++ 10 ∷ []))))

-- "/dev/%s\tnone\t\t%s\n"
abbrev pub swap_line : (name fs : Text) → Text
swap_line name fs = (codes "/dev/" ++ name) ++ (codes "\tnone\t\t" ++ (fs ++ 10 ∷ []))

-- The line of a mount of the device, which stands at `z` in its lists, and nothing for one that is not
-- below the target.
unfoldable pub mount_line : (target mnttype : Text) → Device → (z : ℕ) → (mnt : Text) → Option Text
unfolding starts_with text_eq drop
mount_line target mnttype d z mnt =
    if starts_with mnt target
    then (do
      ops ← get_elem? d.mntops z
      some (
          if text_eq mnt target
          then fstab_line d.name (codes "/") mnttype ops 1
          else fstab_line d.name (drop (length target) mnt) mnttype ops 2))
    else some []

unfoldable pub mount_lines : (target mnttype : Text) → Device → (z : ℕ) → List Text → Option Text
unfolding mount_line
mount_lines target mnttype d z [] = some []
mount_lines target mnttype d z (m ∷ ms) = do
  line ← mount_line target mnttype d z m
  rest ← mount_lines target mnttype d (z + 1) ms
  some (line ++ rest)

-- What the function appends to the text.
unfoldable pub dump_device_targets : (target : Text) → Device → Option Text
unfolding mount_lines
dump_device_targets target d = elim d.mnttype [
  | none ↦ some []
  | some fs ↦ if text_eq fs (codes "zfs") then some [] else (do
    lines ← mount_lines target fs d 0 d.mnt
    some (lines ++ (if swap_valid d.swapprio then swap_line d.name fs else [])))
]

abbrev pub cdrom_line : (name : Text) → Text
cdrom_line name =
    (codes "/dev/" ++ name) ++ (codes "\t/media/cdrom\tauto\tnoauto, user\t0\t0" ++ 10 ∷ [])

unfoldable pub dump_parts : (target : Text) → List Device → Option Text
unfolding dump_device_targets
dump_parts target [] = some []
dump_parts target (p ∷ ps) = do
  line ← dump_device_targets target p
  rest ← dump_parts target ps
  some (line ++ rest)

unfoldable pub dump_blockdevs : (target : Text) → List Blockdev → Option Text
unfolding dump_parts
dump_blockdevs target [] = some []
dump_blockdevs target (d ∷ ds) = do
  own ←
      (if layout_is d.dev.layout Layout.layout_none && d.removable
        then some (cdrom_line d.dev.name)
        else dump_device_targets target d.dev)
  parts ← dump_parts target d.parts
  rest ← dump_blockdevs target ds
  some (own ++ (parts ++ rest))

unfoldable pub dump_controllers : (target : Text) → List Controller → Option Text
unfolding dump_blockdevs
dump_controllers target [] = some []
dump_controllers target (c ∷ cs) = do
  own ← dump_blockdevs target c.blockdevs
  rest ← dump_controllers target cs
  some (own ++ rest)

abbrev pub proc_line : Text
proc_line = codes "proc\t\t/proc\t\tproc\tdefaults\t0\t0" ++ 10 ∷ []

-- With no directory open the text is empty. A directory without a target is a null pointer.
unfoldable pub dump_targets : System → Option Text
unfolding dump_controllers
dump_targets s = elim s.targfd [
  | none ↦ some []
  | some fd ↦ do
    target ← s.growlight_target
    lines ← dump_controllers target s.controllers
    some (lines ++ proc_line)
]
