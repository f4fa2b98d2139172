-- ===== src/Aggregate.antt =====
-- src/aggregate.c and src/aggregate.h: the types of aggregates, and their assembly; the creation of an
-- aggregate by src/mdadm.c and src/zfs.c. The shell is a parameter; a pointer to a function that makes
-- an aggregate is a constructor.
pub mod Make
pub mod Md
pub mod Known
pub mod Slots
pub mod Merge
mod Tests
use growlight.Prelude.{
  ℕ, ◌-◌, ◌^◌, Bool, true, false, not, ◌&&◌, ◌||◌, Option, none, some, List, [], ◌∷◌, ◌++◌, ◌==◌,
  if◌then◌else◌,
}
use growlight.Prelude.Maybe.{is_some}
use growlight.Text.{Text, codes, text_eq}
use growlight.Device.{Device, Layout}
use growlight.Devices.{Blockdev, Controller}
use growlight.Popen.{Shell, vspopen_drain}
use growlight.Ptypes.{parttype_aggregablep}
use growlight.Ptypes.Table.{ptypes}
use growlight.Mounts.Unmount.{mnttype_aggregablep}

pub data Maker : Type 0 where
  make_mdraid0 make_mdraid1 make_mdraid4 make_mdraid5 make_mdraid6 make_mdraid10 : Maker
  make_zmirror make_raidz1 make_raidz2 make_raidz3 make_crypt : Maker

-- The two numbers are of type unsigned.
pub record AggregateType : Type 0 where
  pub name : Text
  pub desc : Text
  pub mindisks : ℕ
  pub maxfaulted : ℕ
  pub makeagg : Option Maker
  pub defname : Option Text
  pub tokenreq : Option Text

-- An entry that cannot be made, and one that can.
abbrev unmade : (name desc : Text) → (mindisks maxfaulted : ℕ) → AggregateType
unmade name desc mindisks maxfaulted = record {
  name = name;
  desc = desc;
  mindisks = mindisks;
  maxfaulted = maxfaulted;
  makeagg = none;
  defname = none;
  tokenreq = none;
}

abbrev made :
    (name desc : Text) → (mindisks maxfaulted : ℕ) → Maker → (defname : Text) → AggregateType
made name desc mindisks maxfaulted make defname = record {
  name = name;
  desc = desc;
  mindisks = mindisks;
  maxfaulted = maxfaulted;
  makeagg = some make;
  defname = some defname;
  tokenreq = none;
}

-- -1 as an unsigned number.
abbrev pub minus_one : ℕ
minus_one = 2 ^ 32 - 1

-- The letter ® is two bytes.
abbrev intel_desc : Text
intel_desc = codes "Intel" ++ 194 ∷ 174 ∷ codes " Matrix Storage Manager container"

unfoldable pub aggregates : List AggregateType
aggregates =
    unmade (codes "mdlinear") (codes "Linear disk combination (MD)") 2 minus_one
    ∷ unmade (codes "mdddf") (codes "SNIA Data Disk Format container") 2 0
    ∷ unmade (codes "mdimsm") intel_desc 2 0
    ∷ unmade (codes "mdcontain") (codes "Linear disk combination with metadata") 2 0
    ∷ made (codes "mdraid0") (codes "Interleaved disk combination (striping) (MD)") 2 0
        Maker.make_mdraid0 (codes "SprezzaRAID0")
    ∷ made (codes "mdraid1") (codes "Mirroring (MD)") 2 1 Maker.make_mdraid1 (codes "SprezzaRAID1")
    ∷ made (codes "mdraid4") (codes "Block striping with dedicated parity") 3 1 Maker.make_mdraid4
        (codes "SprezzaRAID4")
    ∷ made (codes "mdraid5") (codes "Block striping with distributed parity") 3 1 Maker.make_mdraid5
        (codes "SprezzaRAID5")
    ∷ made (codes "mdraid6") (codes "Block striping with 2x distributed parity") 4 2
        Maker.make_mdraid6 (codes "SprezzaRAID6")
    ∷ made (codes "mdraid10") (codes "Interleaved mirror combination") 4 1 Maker.make_mdraid10
        (codes "SprezzaRAID10")
    ∷ made (codes "zmirror") (codes "Zpool with data replication (mirroring)") 2 0
        Maker.make_zmirror (codes "SprezZMirror")
    ∷ made (codes "raidz1") (codes "ZFS RAID with distributed parity") 3 0 Maker.make_raidz1
        (codes "SprezZRAID")
    ∷ made (codes "raidz2") (codes "ZFS RAID with 2x distributed parity") 4 0 Maker.make_raidz2
        (codes "SprezZRAID2")
    ∷ made (codes "raidz3") (codes "ZFS RAID with 3x distributed parity") 5 0 Maker.make_raidz3
        (codes "SprezZRAID3")
    ∷ unmade (codes "zil") (codes "ZFS Write-Intent Log") 1 0
    ∷ unmade (codes "l2arc") (codes "ZFS Level 2 Adaptive Replacement Cache") 1 0
    ∷ unmade (codes "dmlinear") (codes "Linear disk combination (DM)") 2 0
    ∷ unmade (codes "dmstriped") (codes "Interleaved disk combination (striping) (DM)") 2 0
    ∷ record {
      name = codes "dmcrypt";
      desc = codes "LUKS block encryption (DM)";
      mindisks = 1;
      maxfaulted = 0;
      makeagg = some Maker.make_crypt;
      defname = none;
      tokenreq = some (codes "Select an encryption passphrase.");
    }
    ∷ unmade (codes "dmmirror") (codes "Mirroring (DM)") 2 1
    ∷ []

unfoldable pub find_aggregate : Text → List AggregateType → Option AggregateType
find_aggregate n [] = none
find_aggregate n (t ∷ ts) = if text_eq t.name n then some t else find_aggregate n ts

unfoldable pub get_aggregate : Text → Option AggregateType
unfolding find_aggregate aggregates
get_aggregate name = find_aggregate name aggregates

unfoldable pub aggregate_default_p : Text → Bool
aggregate_default_p aggtype = text_eq aggtype (codes "raidz2")

unfoldable pub zpool_p : Text → Bool
zpool_p mnttype = text_eq mnttype (codes "zfs_member")

unfoldable pub mdraid_p : Text → Bool
mdraid_p mnttype = text_eq mnttype (codes "linux_raid_member")

-- The members that `device_aggregablep` reads besides those of `Device`.
pub record Use : Type 0 where
  pub slave : Bool
  pub roflag : Bool
  pub unloaded : Bool
  pub ptype : ℕ

unfoldable pub layout_aggregablep : Device → Use → Layout → Bool
layout_aggregablep d u Layout.layout_none = if u.unloaded then false else not (is_some d.pttable)
layout_aggregablep d u Layout.layout_partition = parttype_aggregablep ptypes u.ptype
layout_aggregablep d u Layout.layout_mdadm = true
layout_aggregablep d u Layout.layout_dm = true
layout_aggregablep d u Layout.layout_zpool = true

unfoldable pub device_aggregablep : Device → Use → Bool
unfolding layout_aggregablep
device_aggregablep d u =
    if not (mnttype_aggregablep d.mnttype)
    then false
    else if u.slave
    then false
    else if d.size == 0
    then false
    else if u.roflag
    then false
    else layout_aggregablep d u d.layout

-- The two flags of `assemble_aggregates`: zpool and mdraid.
pub record Seen : Type 0 where
  pub zpool : Bool
  pub mdraid : Bool

unfoldable pub see : Option Text → Seen → Seen
unfolding zpool_p mdraid_p
see none s = s
see (some t) s =
    if zpool_p t
    then record s { zpool = true }
    else if mdraid_p t
    then record s { mdraid = true }
    else s

unfoldable pub see_parts : List Device → Seen → Seen
unfolding see
see_parts [] s = s
see_parts (p ∷ ps) s = see_parts ps (see p.mnttype s)

unfoldable pub see_blockdevs : List Blockdev → Seen → Seen
unfolding see see_parts
see_blockdevs [] s = s
see_blockdevs (d ∷ ds) s = see_blockdevs ds (see_parts d.parts (see d.dev.mnttype s))

unfoldable pub see_controllers : List Controller → Seen → Seen
unfolding see_blockdevs
see_controllers [] s = s
see_controllers (c ∷ cs) s = see_controllers cs (see_blockdevs c.blockdevs s)

-- The commands that were run; it returns 0 whatever they do.
unfoldable pub assemble_aggregates : Shell → List Controller → List Text
unfolding see_controllers
assemble_aggregates sh cs =
    let s = see_controllers cs (record { zpool = false; mdraid = false }) in
    (if s.zpool then (vspopen_drain sh (codes "zpool import -a -f")).1 else [])
    ++ (if s.mdraid then (vspopen_drain sh (codes "mdadm --assemble --scan")).1 else [])
