-- ===== src/Readline.antt =====
-- src/readline/readline.c: the line-mode interface. A line is cut into words, the first word picks a
-- handler, and the handler checks the words behind it, finds the device and calls the rest of the
-- program. The rest of the program, the terminal and the output are a `Backend` on a state `W`; the
-- locale is a parameter. A result that is not 0 counts as -1, and a failed allocation is left out.
pub mod Numbers
pub mod Tokens
pub mod Listing
pub mod Handlers
pub mod Session
pub mod Ranges
pub mod Rounds
pub mod Lexing
pub mod Quotes
pub mod Commands
pub mod Refused
pub mod Scope
mod Tests
use growlight.Prelude.{
  ℕ, ◌≡◌, Bool, true, false, ◌&&◌, Option, none, some, List, [], ◌∷◌, leb, ◌==◌, if◌then◌else◌,
  length,
}
use growlight.Text.{Text}
use growlight.Device.{Layout}
use growlight.Devices.{Controller}
use growlight.Popen.{Conversion}

-- What the handlers use of wchar.h, wctype.h and of `%ls`. A wide string is a list of characters.
pub record Locale : Type 0 where
  pub mbrtowc : Text → Conversion
  pub iswspace : ℕ → Bool
  pub iswgraph : ℕ → Bool
  pub towlower : ℕ → ℕ
  pub narrow : Text → Text

-- The calls that leave readline.c, and the functions there that only print. A pointer to a device or
-- to a controller is its name.
pub data Call : Type 0 where
  reset_controller rescan_controller detail_controller : (c : Text) → Call
  print_controller : (c : Text) → (descend : Bool) → Call
  print_drive print_zpool print_mdadm print_dm print_partition :
      (d : Text) → (descend : Bool) → Call
  print_fs print_swaps : (d : Text) → (descend : Bool) → Call
  print_mounts print_drive_stats print_identified_stats : (d : Text) → Call
  print_tabletypes print_fstypes print_partition_attributes print_partition_types : Call
  print_header print_logo print_version print_zfs_version print_target dump_targets : Call
  rescan_blockdev wipe_biosboot wipe_dosmbr ata_secure_erase wipe_ptable : (d : Text) → Call
  badblock_scan : (d : Text) → (rw : Bool) → Call
  make_partition_table : (d pty : Text) → Call
  partition_set_flag : (d : Text) → (flag : ℕ) → (on : Bool) → Call
  partition_set_code : (d : Text) → (code : ℕ) → Call
  add_partition : (d name : Text) → (fsec lsec code : ℕ) → Call
  wipe_partition check_partition wipe_filesystem : (d : Text) → Call
  name_partition uuid_partition : (d name : Text) → Call
  make_filesystem : (d pty name : Text) → Call
  unmount : (d : Text) → (path : Option Text) → Call
  mmount : (d targ : Text) → (mntops : ℕ) → (ops : Option Text) → Call
  swapondev swapoffdev benchmark_blockdev prepare_uefi_boot prepare_bios_boot : (d : Text) → Call
  popen_drain : (cmd : Text) → Call
  vpopen_drain : (cmd : Text) → (args : List Text) → Call
  set_target : (targ : Option Text) → Call
  finalize_target : Call
  print_logs : (n : ℕ) → Call
  print_command : (cmd : Text) → Call

-- The program around the handlers: `call` is true for an error. `layout_of` and `is_nvme` read the layout
-- of a device, and whether its transport is DIRECT_NVME. `uninit` is what an uninitialised
-- local holds, and `complain` writes to the standard error.
pub record Backend {ℓ} (W : Type ℓ) : Type ℓ where
  pub call : Call → W → Bool × W
  pub complain : W → W
  pub lookup_controller : Text → W → Option Text × W
  pub lookup_device : Text → W → Option Text × W
  pub get_controllers : W → List Controller
  pub is_virtual : Controller → Bool
  pub growlight_target : W → Option Text
  pub layout_of : (d : Text) → W → Layout
  pub is_nvme : (d : Text) → W → Bool
  pub uninit : ℕ
  pub lights_off : W → Bool
  pub set_lights_off : W → W
  pub lights_off-set_lights_off : (w : W) → lights_off (set_lights_off w) ≡ true

-- A piece of a handler: `none` is a return of -1.
abbrev pub Run {ℓ κ} : Type ℓ → Type κ → Type (ℓ ⊔ κ)
Run W A = W → Option A × W

abbrev pub give {ℓ κ} : {W : Type ℓ} {A : Type κ} → A → Run W A
give a w = (some a, w)

abbrev pub fail {ℓ κ} : {W : Type ℓ} {A : Type κ} → Run W A
fail w = (none, w)

abbrev pub after {ℓ κ ι} :
    {W : Type ℓ} {A : Type κ} {B : Type ι} → (A → Run W B) → Option A × W → Option B × W
after f (none, w) = (none, w)
after f (some a, w) = f a w

infixl 5 ◌>>=◌ ◌>>◌
abbrev pub ◌>>=◌ {ℓ κ ι} :
    {W : Type ℓ} {A : Type κ} {B : Type ι} → Run W A → (A → Run W B) → Run W B
m >>= f = λ w. after f (m w)

abbrev pub ◌>>◌ {ℓ κ ι} : {W : Type ℓ} {A : Type κ} {B : Type ι} → Run W A → Run W B → Run W B
m >> k = m >>= λ _. k

abbrev pub Done {ℓ} : Type ℓ → Type ℓ
Done W = Run W (Unit {0})

abbrev pub name_max : ℕ
name_max = 255

abbrev pub path_max : ℕ
path_max = 4096

abbrev status : Bool → Option (Unit {0})
status true = none
status false = some tt

module _ {ℓ} {W : Type ℓ} (b : Backend W) where
  -- Call, and return -1 where the call failed.
  unfoldable pub perform : Call → Done W
  perform c w = let (failed, w') = b.call c w in (status failed, w')

  -- A call whose result is not looked at.
  unfoldable pub ignore : Call → Done W
  ignore c w = (some tt, (b.call c w).1)

  -- The usage, or a message, and -1.
  unfoldable pub usage {κ} : {A : Type κ} → Run W A
  usage w = (none, b.complain w)

  abbrev pub complained {κ} : {A : Type κ} → Option A × W → Option A × W
  complained (none, w) = (none, b.complain w)
  complained (some a, w) = (some a, w)

  -- Complain where a piece fails.
  unfoldable pub or_usage {κ} : {A : Type κ} → Run W A → Run W A
  or_usage m w = complained (m w)

  -- snprintf(buf, size, "%ls", s) >= size
  unfoldable pub to_buffer : Locale → (size : ℕ) → Text → Run W Text
  unfolding usage
  to_buffer l size s = if leb size (length (l.narrow s)) then usage else give (l.narrow s)

  unfoldable pub lookup_wcontroller : Locale → Text → Run W Text
  unfolding to_buffer
  lookup_wcontroller l dev = do sdev ← to_buffer l name_max dev; b.lookup_controller sdev

  unfoldable pub lookup_wdevice : Locale → Text → Run W Text
  unfolding to_buffer
  lookup_wdevice l dev = do sdev ← to_buffer l name_max dev; b.lookup_device sdev

  unfoldable pub make_wfilesystem : Locale → (d fs name : Text) → Done W
  unfolding to_buffer perform
  make_wfilesystem l d fs name = do
    sfs ← to_buffer l name_max fs
    label ← to_buffer l name_max name
    perform (Call.make_filesystem d sfs label)

  unfoldable pub make_partition_wtable : Locale → (d tbl : Text) → Done W
  unfolding to_buffer perform
  make_partition_wtable l d tbl = do
    stbl ← to_buffer l name_max tbl
    perform (Call.make_partition_table d stbl)

  unfoldable pub prepare_wumount : Locale → (d path : Text) → Done W
  unfolding to_buffer perform
  prepare_wumount l d path = do
    spath ← to_buffer l path_max path
    perform (Call.unmount d (some spath))

  unfoldable pub prepare_wmount : Locale → (d path ops : Text) → Done W
  unfolding to_buffer perform
  prepare_wmount l d path ops = do
    spath ← to_buffer l path_max path
    sops ← to_buffer l path_max ops
    perform (Call.mmount d spath 0 (some sops))

  -- `char path[PATH_MAX + 1]`
  unfoldable pub wmmount : Locale → (d targ : Text) → Done W
  unfolding to_buffer perform
  wmmount l d targ = do path ← to_buffer l 4097 targ; perform (Call.mmount d path 0 none)

-- wcscmp(s, t) == 0 is `text_eq`; this is wcscasecmp(s, t) == 0.
unfoldable pub wcscase_eq : Locale → Text → Text → Bool
wcscase_eq l [] [] = true
wcscase_eq l [] (c ∷ t) = false
wcscase_eq l (c ∷ s) [] = false
wcscase_eq l (c ∷ s) (e ∷ t) = (l.towlower c == l.towlower e) && wcscase_eq l s t
