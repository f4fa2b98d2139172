-- ===== src/Mounts/Handle.antt =====
-- `make_parent_directories` and `handle_mount` of src/mounts.c. The calls of the kernel and the discovery of a device are parameters; the event for
-- the user interface and a failed allocation are left out.
pub mod InStep
pub mod Found
use growlight.Prelude.{
  ℕ, zero, suc, ◌+◌, ◌^◌, Bool, true, false, not, ◌&&◌, ◌||◌, Option, none, some, List, [], ◌∷◌,
  ◌++◌, String, map, ◌==◌, leb, if◌then◌else◌, length, take,
}
use growlight.Text.{Text, codes, text_eq, starts_with, is_nil}
use growlight.Device.{Device}
use growlight.Devices.{
  Blockdev, Controller, add_string, string_included_p, lookup_device, update_device,
}
use growlight.Fs.{fstype_virt_p}
use growlight.Popen.{Shell, vspopen_drain}
use growlight.Mounts.{Mount, parse_mount, parse_mounts}
use growlight.Target.{Host, System, mount_target, unmount_target}

-- The loop over the slashes, with what was passed; the directories that are asked for, in order. The
-- first slash of an absolute path is passed.
unfoldable pub parents : (passed : Text) → Text → List Text
parents passed [] = passed ∷ []
parents passed (c ∷ path) =
    let rest = parents (passed ++ c ∷ []) path in
    elim (c == 47) [ false ↦ rest | true ↦ if is_nil passed then rest else passed ∷ rest ]

-- The calls of `mkdir` up to the first that fails with another error than EEXIST: whether one did, and
-- the calls.
unfoldable pub make_all : (mkdir : Text → Bool) → List Text → Bool × List Text
make_all mkdir [] = (false, [])
make_all mkdir (d ∷ ds) =
    let (failed, calls) = make_all mkdir ds in
    if mkdir d then (true, d ∷ []) else (failed, d ∷ calls)

unfoldable pub make_parent_directories : (mkdir : Text → Bool) → Text → Bool × List Text
unfolding parents make_all
make_parent_directories mkdir path = make_all mkdir (parents [] path)

-- What `lstat` and `readlink` tell of a path: no link, or one that cannot be read, is too long, or leads
-- to a path.
pub data Link : Type 0 where
  no_link broken too_long : Link
  leads_to : Text → Link

-- The size of a mounted file system is `f_bsize * f_blocks`, and `unread` is what the memory holds where
-- `statvfs` has failed. `realpath`, `mount` and `umount2` as the kernel has them; true is an error.
pub record Kernel : Type 0 where
  pub host : Host
  pub statvfs : Text → Option ℕ
  pub unread : ℕ
  pub mkdir : Text → Bool
  pub link : Text → Link
  pub mount : (dev targ fs : Text) → (mntops : ℕ) → Bool
  pub umount2 : Text → Bool

-- strncmp(mnt, growlight_target, strlen(growlight_target)) == 0, where there is a target
abbrev pub below_target : Option Text → Text → Bool
below_target none mnt = false
below_target (some t) mnt = starts_with mnt t

abbrev pub at_target : Option Text → Text → Bool
at_target none mnt = false
at_target (some t) mnt = text_eq mnt t

-- What is put for the size, and nothing where the mount is left out.
unfoldable pub mount_size : Kernel → (target : Option Text) → (mnt : Text) → Option ℕ
unfolding make_parent_directories starts_with
mount_size k target mnt = elim (k.statvfs mnt) [
  | some n ↦ some n
  | none ↦
      if below_target target mnt && not (make_parent_directories k.mkdir mnt).0
      then some k.unread
      else none
]

-- The name of the device to look up, where one should be.
unfoldable pub mount_device : Kernel → (dev fs : Text) → Option Text
unfolding fstype_virt_p
mount_device k dev fs =
    if starts_with dev (codes "/")
    then elim (k.link dev) [
      | no_link ↦ some dev
      | broken ↦ none
      | too_long ↦ none
      | leads_to p ↦ some p
    ]
    else if fstype_virt_p fs
    then none
    else some dev

-- A device that had another type is given the new one, and its mounts are forgotten.
unfoldable pub change_type : (fs : Text) → Device → Device
change_type fs d = elim d.mnttype [
  | none ↦ d
  | some t ↦ if text_eq t fs then d else record d { mnttype = some fs; mntops = []; mnt = [] }
]

-- The writes through the pointer to the device.
unfoldable pub add_mount : (mnt fs ops : Text) → (size : ℕ) → Device → Device
unfolding add_string change_type
add_mount mnt fs ops size d =
    let d1 = change_type fs d in
    record d1 { mnt = add_string d1.mnt mnt; mntops = add_string d1.mntops ops; mntsize = size }

module _ (create_new_device : Text → List Controller → Option Device × List Controller) where
  -- A mount whose device is found.
  unfoldable pub mount_found : Kernel → (mnt ops fs : Text) → (size : ℕ) → Device → System → System
  unfolding add_mount
  mount_found k mnt ops fs size d s =
      let s1 = record s {
        controllers = update_device d.name (add_mount mnt fs ops size) s.controllers;
      } in
      if at_target s.growlight_target mnt then (mount_target k.host s1).1 else s1

  -- No branch but a failed allocation gives the error value.
  unfoldable pub handle_mount : Kernel → (mnt dev ops fs : Text) → System → System
  unfolding mount_size mount_device mount_found
  handle_mount k mnt dev ops fs s = elim (mount_size k s.growlight_target mnt) [
    | none ↦ s
    | some size ↦ elim (mount_device k dev fs) [
      | none ↦ s
      | some name ↦
          let (found, cs) = lookup_device create_new_device name s.controllers in
          let s1 = record s { controllers = cs } in
          elim found [ none ↦ s1 | some d ↦ mount_found k mnt ops fs size d s1 ]
    ]
  ]

  -- `handle_mount` for a line that was parsed.
  unfoldable pub take_mount : Kernel → Mount → System → Bool × System
  unfolding handle_mount
  take_mount k m s = (false, handle_mount k m.mnt m.dev m.ops m.fs s)

  -- `parse_mounts` with its handler, on the text that was mapped.
  unfoldable pub read_mounts : Kernel → (text : Text) → System → Option (Bool × System)
  unfolding take_mount
  read_mounts k text s = parse_mounts (take_mount k) (suc (length text)) text false s
