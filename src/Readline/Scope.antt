-- ===== src/Readline/Scope.antt =====
-- Proofs on src/readline/readline.c: which device the commands on a device act upon.
use growlight.Prelude.{◌≡◌, ◌⊎◌, Bool, Option, none, some}
use growlight.Text.{Text}
use growlight.Readline.{Backend, Call, Run}
use growlight.Device.{Layout}
use growlight.Readline.Handlers.Disks.{details_command}

-- The device that a call is made for.
abbrev pub target_of : Call → Option Text
target_of (Call.rescan_blockdev d) = some d
target_of (Call.badblock_scan d rw) = some d
target_of (Call.wipe_ptable d) = some d
target_of (Call.wipe_biosboot d) = some d
target_of (Call.wipe_dosmbr d) = some d
target_of (Call.ata_secure_erase d) = some d
target_of (Call.print_drive d descend) = some d
target_of (Call.print_identified_stats d) = some d
target_of (Call.make_partition_table d pty) = some d
target_of (Call.partition_set_flag d flag on) = some d
target_of (Call.partition_set_code d code) = some d
target_of (Call.add_partition d name fsec lsec code) = some d
target_of (Call.wipe_partition d) = some d
target_of (Call.check_partition d) = some d
target_of (Call.wipe_filesystem d) = some d
target_of (Call.name_partition d name) = some d
target_of (Call.uuid_partition d name) = some d
target_of (Call.make_filesystem d pty name) = some d
target_of (Call.unmount d path) = some d
target_of (Call.mmount d targ mntops ops) = some d
target_of _ = none

-- A call for the device, or one of the commands that show more of it.
abbrev pub Concerns : (d : Text) → Call → Type 0
Concerns d c =
    (target_of c ≡ some d)
    ⊎ ((layout : Layout) × (nvme : Bool) × (cmd : Text) × (details_command layout nvme d ≡ some cmd)
        × (c ≡ Call.popen_drain cmd))

module _ {ℓ κ} {W : Type ℓ} (b : Backend W) (I : W → Type κ)
    (complain_keeps : (w : W) → I w → I (b.complain w)) (d : Text)
    (call_keeps : (c : Call) (w : W) → Concerns d c → I w → I (b.call c w).1) where
  -- What holds before a piece of a handler holds behind it.
  record Keeps {ι} {A : Type ι} (m : Run W A) : Type (ℓ ⊔ κ) where
    kept : (w : W) → I w → I (m w).1
