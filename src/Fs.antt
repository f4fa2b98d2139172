-- ===== src/Fs.antt =====
-- src/fs.c and src/fs.h: making and wiping file systems, and the questions on their types. The shell
-- and `swapon` are parameters. A failed allocation is left out.
pub mod Table
pub mod Commands
pub mod Made
mod Tests
use growlight.Prelude.{
  ℕ, suc, Bool, true, false, not, ◌&&◌, ◌||◌, Option, none, some, List, [], ◌∷◌, ◌++◌, leb, ◌==◌,
  if◌then◌else◌, length,
}
use growlight.Prelude.Maybe.{is_some}
use growlight.Text.{Text, codes, text_eq, is_nil}
use growlight.Device.{Device, SwapPrio, Layout, layout_is}
use growlight.Popen.{Shell, vspopen_drain}
use growlight.Fs.Table.{FsType, Mkfs, fss, virtfss}
use growlight.Fs.Commands.{Marshal, run_mkfs}

-- The loop over a table, up to the entry without a name.
unfoldable pub find_fs : Text → List FsType → Option FsType
find_fs n [] = none
find_fs n (t ∷ ts) = if text_eq t.name n then some t else find_fs n ts

unfoldable pub fstype_default_p : Text → Bool
fstype_default_p t = text_eq t (codes "ext4")

unfoldable pub fstype_swap_p : Text → Bool
fstype_swap_p t = text_eq t (codes "swap")

unfoldable pub aggregate_fs_p : Text → Bool
aggregate_fs_p t = text_eq t (codes "linux_raid_member") || text_eq t (codes "zfs_member")

-- No entry has a function that sets a UUID.
unfoldable pub fstype_uuid_p : Text → ℕ
fstype_uuid_p t = elim (find_fs t fss) [ none ↦ 0 | some pt ↦ 0 ]

unfoldable pub fstype_named_p : Text → ℕ
unfolding find_fs
fstype_named_p t = elim (find_fs t fss) [
  | none ↦ 0
  | some pt ↦ if not (pt.namemax == 0) then pt.namemax else if not (pt.nameparam == 0) then 1 else 0
]

unfoldable pub fstype_virt_p : Text → Bool
unfolding find_fs
fstype_virt_p t = is_some (find_fs t virtfss)

-- The names and descriptions of the types that can be made.
unfoldable pub made_types : List FsType → List (Text × Text)
made_types [] = []
made_types (t ∷ ts) = elim t.mkfs [
  | none ↦ made_types ts
  | some m ↦ (t.name, t.desc) ∷ made_types ts
]

unfoldable pub get_fs_types : List (Text × Text)
unfolding made_types
get_fs_types = made_types fss

-- strchr(s, c) != NULL
unfoldable pub has_byte : ℕ → Text → Bool
has_byte c [] = false
has_byte c (b ∷ s) = if b == c then true else has_byte c s

-- swapprio >= SWAP_MAXPRIO, which is 0
abbrev pub is_swapping : SwapPrio → Bool
is_swapping SwapPrio.swap_invalid = false
is_swapping SwapPrio.swap_inactive = false
is_swapping (SwapPrio.swap_prio p) = true

abbrev pub name_has_quote : Option Text → Bool
name_has_quote none = false
name_has_quote (some name) = has_byte 34 name

-- The run of the function that an entry names, on a device whose parts are a null pointer or not.
unfoldable pub make_with :
    Shell
    → (swapon : Text → Bool) → Device
    → (no_parts : Bool) → (pty : Text) → (name : Option Text) → FsType
    → (Bool × Device) × List Text
make_with sh swapon d no_parts pty name pt =
    let dbuf = codes "/dev/" ++ d.name in
    let force = not (layout_is d.layout Layout.layout_partition) && no_parts in
    let marsh =
      if layout_is d.layout Layout.layout_mdadm
      then record { name = name; force = force; stride = d.stride; swidth = d.swidth }
      else record { name = name; force = force; stride = 0; swidth = 0 } in
    if leb 4096 (length dbuf) then ((true, d), []) else elim pt.mkfs [
      | none ↦ ((true, d), [])
      | some mkfs ↦
          let (failed, ran) = run_mkfs sh swapon mkfs dbuf marsh in
          if failed then ((true, d), ran) else ((false, record d { mnttype = some pty }), ran)
    ]

-- Whether it failed, the device behind it, and the commands that were run.
unfoldable pub make_filesystem :
    Shell
    → (swapon : Text → Bool) → Device
    → (no_parts : Bool) → (pty : Text) → (name : Option Text) → (Bool × Device) × List Text
unfolding find_fs make_with
make_filesystem sh swapon d no_parts pty name =
    if is_some d.mnttype || is_swapping d.swapprio || name_has_quote name
    then ((true, d), [])
    else elim (find_fs pty fss) [
      | none ↦ ((true, d), [])
      | some pt ↦ make_with sh swapon d no_parts pty name pt
    ]

-- The rescan of a device after the run is a parameter.
unfoldable pub wipe_filesystem :
    Shell → (rescan : Device → Device) → Device → (Bool × Device) × List Text
wipe_filesystem sh rescan d =
    if not (is_some d.mnttype)
    then ((true, d), [])
    else if not (elim d.mnt [ [] ↦ true | m ∷ ms ↦ false ])
    then ((true, d), [])
    else let (failed, ran) = vspopen_drain sh (codes "wipefs -a /dev/" ++ d.name) in
      if failed then ((true, d), ran) else ((false, rescan d), ran)
