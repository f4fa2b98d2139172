-- ===== src/Mounts/Unmount.antt =====
-- `mmount`, `unmount` and `clear_mounts` of src/mounts.c, with `mount_zfs` of src/zfs.c and
-- `mnttype_aggregablep` of src/aggregate.h. The calls of the kernel are parameters. The device and the
-- path are no null pointers.
pub mod Calls
use growlight.Prelude.{
  ℕ, Bool, true, false, not, ◌&&◌, ◌||◌, Option, none, some, List, [], ◌∷◌, ◌++◌, map, ◌==◌,
  if◌then◌else◌, take,
}
use growlight.Text.{Text, codes, text_eq, starts_with}
use growlight.Device.{Device}
use growlight.Devices.{Blockdev, Controller, string_included_p}
use growlight.Popen.{Shell, vspopen_drain}
use growlight.Target.{Host, System, unmount_target}
use growlight.Mounts.Handle.{Kernel, make_parent_directories, below_target, at_target}

abbrev pub mnttype_aggregablep : Option Text → Bool
mnttype_aggregablep none = true
mnttype_aggregablep (some t) =
    text_eq t (codes "zfs_member") || text_eq t (codes "linux_raid_member")

-- A call of `mount`, and what else a run did.
pub record MountCall : Type 0 where
  pub dev : Text
  pub targ : Text
  pub fs : Text
  pub mntops : ℕ

pub record MountRun : Type 0 where
  pub failed : Bool
  pub mkdirs : List Text
  pub mounts : List MountCall
  pub ran : List Text

unfoldable pub mount_zfs :
    Shell → Device → (targ : Text) → (mntops : ℕ) → (options : Bool) → Bool × List Text
mount_zfs sh d targ mntops options =
    let (_, first) = vspopen_drain sh (codes "zfs unmount " ++ d.name) in
    let (unset, second) = vspopen_drain sh (codes "zfs set mountpoint=" ++ (targ ++ 32 ∷ d.name)) in
    let (failed, third) = vspopen_drain sh (codes "zfs mount " ++ d.name) in
    if not (mntops == 0) || options
    then (true, [])
    else (if unset then true else failed, first ++ (second ++ third))

abbrev pub refused : (mkdirs : List Text) → MountRun
refused mkdirs = record { failed = true; mkdirs = mkdirs; mounts = []; ran = [] }

-- The directories that are asked for before a mount below the target.
unfoldable pub parents_below : Kernel → (target : Option Text) → Text → List Text
parents_below k target path =
    if below_target target path then (make_parent_directories k.mkdir path).1 else []

-- A device with a file system that the kernel mounts.
unfoldable pub mount_fs :
    Kernel → (target : Option Text) → Device → (fs targ : Text) → (mntops : ℕ) → MountRun
unfolding parents_below
mount_fs k target d fs targ mntops =
    let before = parents_below k target targ in
    elim (k.host.realpath targ) [
      | none ↦ refused before
      | some rname ↦
          let name = take 4096 (codes "/dev/" ++ d.name) in
          let dirs = before ++ parents_below k target rname in
          if string_included_p d.mnt rname then refused before else record {
            failed = k.mount name targ fs mntops;
            mkdirs = dirs;
            mounts = record { dev = name; targ = targ; fs = fs; mntops = mntops } ∷ [];
            ran = [];
          }
    ]

unfoldable pub mmount :
    Kernel
    → Shell
    → (target : Option Text) → Device
    → (targ : Text) → (mntops : ℕ) → (options : Bool) → MountRun
unfolding mount_zfs mount_fs
mmount k sh target d targ mntops options = elim d.mnttype [
  | none ↦ refused []
  | some fs ↦
      if text_eq fs (codes "zfs")
      then (let (failed, ran) = mount_zfs sh d targ mntops options in
          record { failed = failed; mkdirs = []; mounts = []; ran = ran })
      else if mnttype_aggregablep (some fs)
      then refused []
      else mount_fs k target d fs targ mntops
]

-- The loop over the mounts; the calls of `umount2` in order.
unfoldable pub unmount_all :
    Kernel → (path : Option Text) → List Text → System → (Bool × System) × List Text
unmount_all k path [] s = ((false, s), [])
unmount_all k path (m ∷ ms) s =
    let s1 = if at_target s.growlight_target m then (unmount_target k.host s).1 else s in
    let skipped = unmount_all k path ms s in
    let (r, calls) = unmount_all k path ms s1 in
    if at_target path m
    then skipped
    else if k.umount2 m
    then ((true, s1), m ∷ [])
    else (r, m ∷ calls)

unfoldable pub unmount :
    Kernel → Device → (path : Option Text) → System → (Bool × System) × List Text
unfolding unmount_all
unmount k d path s = elim d.mnt [ [] ↦ ((true, s), []) | m ∷ ms ↦ unmount_all k path (m ∷ ms) s ]

abbrev pub forget_mounts : Device → Device
forget_mounts d = record d { mnt = []; mntops = [] }

abbrev pub clear_blockdev : Blockdev → Blockdev
clear_blockdev d = record d { dev = forget_mounts d.dev; parts = map forget_mounts d.parts }

abbrev pub clear_controller : Controller → Controller
clear_controller c = record c { blockdevs = map clear_blockdev c.blockdevs }

-- On all controllers, as it is called.
unfoldable pub clear_mounts : Host → System → System
clear_mounts h s =
    let s1 = (unmount_target h s).1 in
    record s1 { controllers = map clear_controller s1.controllers }
