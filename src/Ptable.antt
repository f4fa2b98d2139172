-- ===== src/Ptable.antt =====
-- src/ptable.c: the choice of a backend by the name of the table, with the checks before it and the
-- rescan behind it. The two rescans of src/growlight.c and the run of fsck are parameters. The
-- backend functions that the source leaves NULL are `none`; a call of one is a fault. Memory is never
-- short, but for the copy of a name, which is a call that may fail.
pub mod Guard
mod Tests
use growlight.Prelude.{
  ℕ, ◌/◌, Bool, true, false, not, ◌||◌, Option, none, some, List, [], ◌∷◌, String, ltb, ◌==◌,
  if◌then◌else◌, str_eq, sub64,
}
use growlight.Io.{Os, Io, ◌>>=◌, ◌>>◌, pure, failed, aborted, fail_if, assert, syscall, assign}
use growlight.Text.{Text}
use growlight.Device.{Device, Partition, Layout, layout_is, first_usable_sector, last_usable_sector}
use growlight.Gpt.Create.{new_gpt, zap_gpt}
use growlight.Gpt.Edit.{
  name_gpt, uuid_gpt, flags_gpt, flag_gpt, code_gpt, del_gpt, first_gpt, last_gpt,
}
use growlight.Gpt.Add.{add_gpt}
use growlight.Msdos.{
  new_msdos, zap_msdos, add_msdos, del_msdos, flags_msdos, flag_msdos, code_msdos, first_msdos,
  last_msdos,
}
use growlight.Apm.{new_apm, zap_apm, first_apm, last_apm}

-- `struct ptable`
pub record Ptable : Type 0 where
  pub name : String
  pub desc : String
  pub make : Option (Device → Io (Unit {0}))
  pub zap : Option (Device → Io (Unit {0}))
  pub add : Option (Device → Option (List ℕ) → ℕ → ℕ → ℕ → Io (Unit {0}))
  pub del : Option (Partition → Io (Unit {0}))
  pub set_name : Option (Partition → List ℕ → Io (Unit {0}))
  pub uuid : Option (Partition → List ℕ → Io (Unit {0}))
  pub flags : Option (Partition → ℕ → Io (Unit {0}))
  pub flag : Option (Partition → ℕ → Bool → Io (Unit {0}))
  pub code : Option (Partition → ℕ → Io (Unit {0}))
  pub first : Option (Device → Io ℕ)
  pub last : Option (Device → Io ℕ)

-- The loop over `ptables`.
unfoldable pub find_ptable : List Ptable → String → Option Ptable
find_ptable [] s = none
find_ptable (pt ∷ pts) s = if str_eq pt.name s then some pt else find_ptable pts s

abbrev pub is_null : {A : Type 0} → Option A → Bool
is_null none = true
is_null (some a) = false

-- A pointer that is used without a test, and one whose absence is an error.
abbrev pub deref : {A B : Type 0} → Option A → (A → Io B) → Io B
deref none f = aborted
deref (some a) f = f a

abbrev pub tested : {A B : Type 0} → Option A → (A → Io B) → Io B
tested none f = failed
tested (some a) f = f a

unfoldable pub get_ptype : Device → Option String
get_ptype d =
    if layout_is d.layout Layout.layout_none
    then d.pttable
    else if layout_is d.layout Layout.layout_mdadm
    then d.md_pttable
    else if layout_is d.layout Layout.layout_dm
    then d.dm_pttable
    else none

-- The types that can be created.
unfoldable pub get_ptable_types : List Ptable → List (String × String)
get_ptable_types [] = []
get_ptable_types (pt ∷ pts) =
    if is_null pt.make then get_ptable_types pts else (pt.name, pt.desc) ∷ get_ptable_types pts

module _ (os : Os) (rescan : Io (Unit {0})) where
  abbrev gpt_ptable : Ptable
  gpt_ptable = record {
    name = "gpt";
    desc = "GUID Partition Table";
    make = some (new_gpt os);
    zap = some (zap_gpt os);
    add = some (add_gpt os);
    del = some (del_gpt os);
    set_name = some (name_gpt os);
    uuid = some (uuid_gpt os);
    flags = some (flags_gpt os);
    flag = some (flag_gpt os);
    code = some (code_gpt os);
    first = some (first_gpt os);
    last = some (last_gpt os);
  }

  abbrev dos_ptable : Ptable
  dos_ptable = record {
    name = "dos";
    desc = "IBMPC (DOS) / Master Boot Record";
    make = some (new_msdos os);
    zap = some (zap_msdos os rescan);
    add = some (add_msdos os);
    del = some (del_msdos os);
    set_name = none;
    uuid = none;
    flags = some (flags_msdos os);
    flag = some (flag_msdos os);
    code = some (code_msdos os);
    first = some (λ d. pure (first_msdos d));
    last = some (λ d. pure (last_msdos d));
  }

  abbrev apm_ptable : Ptable
  apm_ptable = record {
    name = "apm";
    desc = "Apple Partition Map";
    make = some (new_apm os);
    zap = some (zap_apm os);
    add = none;
    del = none;
    set_name = none;
    uuid = none;
    flags = none;
    flag = none;
    code = none;
    first = some (first_apm os);
    last = some (λ d. pure (last_apm d));
  }

  abbrev mdp_ptable : Ptable
  mdp_ptable = record {
    name = "mdp";
    desc = "Linux MD partitioning";
    make = none;
    zap = none;
    add = none;
    del = none;
    set_name = none;
    uuid = none;
    flags = none;
    flag = none;
    code = none;
    first = none;
    last = none;
  }

  unfoldable pub ptables : List Ptable
  ptables = gpt_ptable ∷ dos_ptable ∷ apm_ptable ∷ mdp_ptable ∷ []

-- Whether a filesystem of a device, or of one of its partitions, is mounted.
abbrev pub is_mounted : Device → Bool
is_mounted d = elim d.mnt [ [] ↦ false | _ ∷ _ ↦ true ]

abbrev pub any_mounted : List Device → Bool
any_mounted [] = false
any_mounted (p ∷ ps) = is_mounted p || any_mounted ps

-- The name that is asked for goes before the one that was detected.
abbrev pub wiped_type : Option String → Option String → Option String
wiped_type detected none = detected
wiped_type detected (some s) = some s

-- `pts` is `ptables`; `blkrrpart` is rescan_blockdev_blkrrpart.
module _ (os : Os) (pts : List Ptable) (rescan blkrrpart : Io (Unit {0})) where
  unfoldable pub make_partition_table : Device → String → Io (Unit {0})
  make_partition_table d pty = do
    fail_if (not (layout_is d.layout Layout.layout_none))
    fail_if (not (is_null d.pttable))
    fail_if (not (is_null d.mnttype))
    tested (find_ptable pts pty) λ pt. do deref pt.make (λ make. make d); blkrrpart

  unfoldable pub wipe_ptable : Device → (parts : List Device) → Option String → Io (Unit {0})
  wipe_ptable d parts pty = do
    fail_if (not (layout_is d.layout Layout.layout_none))
    fail_if (is_mounted d)
    fail_if (any_mounted parts)
    tested (wiped_type d.pttable pty)
        λ pt. tested (find_ptable pts pt) λ ptp. do deref ptp.zap (λ zap. zap d); blkrrpart

  unfoldable pub add_partition : Device → Option (List ℕ) → (fsec lsec code : ℕ) → Io (Unit {0})
  add_partition d name fsec lsec code = do
    fail_if (ltb lsec fsec || (ltb (last_usable_sector d) lsec || ltb fsec (first_usable_sector d)))
    tested (get_ptype d) λ pty.
        tested (find_ptable pts pty)
          λ pt. do deref pt.add (λ add. add d name fsec lsec code); rescan

  unfoldable pub wipe_partition : Partition → Io (Unit {0})
  wipe_partition d = do
    fail_if (not (layout_is d.dev.layout Layout.layout_partition))
    deref d.parent.pttable
        λ pty. tested (find_ptable pts pty) λ pt. do tested pt.del (λ del. del d); rescan

  unfoldable pub partitions_named_p : Device → Io Bool
  partitions_named_p d = do
    fail_if (not (layout_is d.layout Layout.layout_none))
    deref d.pttable λ pty. tested (find_ptable pts pty) λ pt. pure (not (is_null pt.set_name))

  unfoldable pub name_partition : Partition → List ℕ → Io (Unit {0})
  name_partition d name = do
    fail_if (not (layout_is d.dev.layout Layout.layout_partition))
    deref d.parent.pttable λ pty. tested (find_ptable pts pty) λ pt.
        tested pt.set_name
          λ set_name. do syscall os; set_name d name; assign (λ w. record w { pname = some name })

  unfoldable pub uuid_partition : Partition → List ℕ → Io (Unit {0})
  uuid_partition d uuid = do
    fail_if (not (layout_is d.dev.layout Layout.layout_partition))
    deref d.parent.pttable
        λ pty. tested (find_ptable pts pty) λ pt. tested pt.uuid λ set_uuid. set_uuid d uuid

  unfoldable pub partition_set_flags : Partition → ℕ → Io (Unit {0})
  partition_set_flags d flag = do
    fail_if (not (layout_is d.dev.layout Layout.layout_partition))
    tested (get_ptype d.parent)
        λ pty. tested (find_ptable pts pty) λ pt. tested pt.flags λ set. set d flag

  unfoldable pub partition_set_flag : Partition → ℕ → Bool → Io (Unit {0})
  partition_set_flag d flag state = do
    fail_if (not (layout_is d.dev.layout Layout.layout_partition))
    tested (get_ptype d.parent)
        λ pty. tested (find_ptable pts pty) λ pt. tested pt.flag λ set. set d flag state

  unfoldable pub partition_set_code : Partition → ℕ → Io (Unit {0})
  partition_set_code d code = do
    fail_if (not (layout_is d.dev.layout Layout.layout_partition))
    deref d.parent.pttable
        λ pty. tested (find_ptable pts pty) λ pt. tested pt.code λ set. set d code

  -- The name of a table that is not known gives 0.
  unfoldable pub lookup_first_usable_sector : Device → Io ℕ
  lookup_first_usable_sector d =
      if not (layout_is d.layout Layout.layout_none) || is_null d.pttable
      then (do assert (not (d.logsec == 0)); pure (d.physsec / d.logsec))
      else deref d.pttable λ pty. elim (find_ptable pts pty) [
        | none ↦ pure 0
        | some pt ↦ deref pt.first (λ first. first d)
      ]

unfoldable pub lookup_last_usable_sector : Device → ℕ
lookup_last_usable_sector d = if d.logsec == 0 then 0 else sub64 (d.size / d.logsec) 1

-- fsck of a file system that is not mounted
unfoldable pub check_partition : (fsck : Text → Text → Io (Unit {0})) → Device → Io (Unit {0})
check_partition fsck d = do
  fail_if (elim d.mnt [ [] ↦ false | _ ∷ _ ↦ true ])
  tested d.mnttype λ mnttype. fsck mnttype d.name
