-- ===== src/Aggregate/Md.antt =====
-- src/mdadm.c: `explore_md_sysfs`, which reads what the kernel says of an MD device. The files and links
-- of its directory and the lookup of a device are parameters. A failed allocation is left out, and the
-- level is short enough for the buffer of 30 bytes.
use growlight.Prelude.{
  ℕ, zero, suc, ◌+◌, ◌-◌, ◌%◌, ◌^◌, Bool, not, ◌&&◌, ◌||◌, Option, none, some, List, [], ◌∷◌, ◌++◌,
  ltb, ◌==◌, if◌then◌else◌,
}
use growlight.Prelude.Maybe.{◌>>=◌}
use growlight.Text.{Text, codes, text_eq, starts_with, drop}
use growlight.Device.{Layout}
use growlight.Aggregate.{AggregateType, get_aggregate}

-- The enum `transport_e`.
pub data Transport : Type 0 where
  transport_unknown parallel_ata serial_unknown serial_ata8 serial_atai serial_ataii : Transport
  serial_ataiii serial_usb serial_usb2 serial_usb3 direct_nvme : Transport
  aggregate_unknown aggregate_mixed : Transport

abbrev pub transport_code : Transport → ℕ
transport_code Transport.transport_unknown = 0
transport_code Transport.parallel_ata = 1
transport_code Transport.serial_unknown = 2
transport_code Transport.serial_ata8 = 3
transport_code Transport.serial_atai = 4
transport_code Transport.serial_ataii = 5
transport_code Transport.serial_ataiii = 6
transport_code Transport.serial_usb = 7
transport_code Transport.serial_usb2 = 8
transport_code Transport.serial_usb3 = 9
transport_code Transport.direct_nvme = 10
transport_code Transport.aggregate_unknown = 11
transport_code Transport.aggregate_mixed = 12

abbrev pub same_transport : Transport → Transport → Bool
same_transport s t = transport_code s == transport_code t

-- What readlinkat answers: an error or a path that is too long, ENOENT, or a path.
pub data Link : Type 0 where
  broken absent : Link
  path : Text → Link

-- A device that is part of another: its layout, the transport of its own arm of the union, and that of
-- the device that it is a partition of.
pub record Member : Type 0 where
  pub layout : Layout
  pub transport : Transport
  pub parent_transport : Transport

-- `none` where a file is missing or empty.
pub record Sysfs : Type 0 where
  pub get_sysfs_string : Text → Option Text
  pub get_sysfs_uint : Text → Option ℕ
  pub readlink : (rd : ℕ) → Link

-- The members of `mddev`.
pub record Mddev : Type 0 where
  pub disks : ℕ
  pub transport : Transport
  pub degraded : ℕ
  pub level : Option Text
  pub resync : Bool
  pub stride : ℕ
  pub swidth : ℕ
  pub slaves : List Text

-- if(transport == AGGREGATE_UNKNOWN) ... else if(transport != t) ...
unfoldable pub merge : (transport t : Transport) → Transport
merge s t =
    if same_transport s Transport.aggregate_unknown
    then t
    else if not (same_transport s t)
    then Transport.aggregate_mixed
    else s

-- The switch on the layout of a member.
unfoldable pub merge_member : Transport → Member → Layout → Transport
unfolding merge
merge_member s m Layout.layout_none = merge s m.transport
merge_member s m Layout.layout_mdadm = merge s m.transport
merge_member s m Layout.layout_partition = merge s m.parent_transport
merge_member s m Layout.layout_zpool = merge s m.transport
merge_member s m Layout.layout_dm = s

-- What the loop keeps: the count of missing members, the names of the others, and the transport.
pub record Slots : Type 0 where
  pub missing : ℕ
  pub slaves : List Text
  pub transport : Transport

abbrev pub no_slots : Slots
no_slots = record { missing = 0; slaves = []; transport = Transport.aggregate_unknown }

-- strncmp(lbuf, "dev-", 4), then the name behind it; `none` is the error.
unfoldable pub slot_name : Text → Option Text
unfolding drop
slot_name lbuf = if starts_with lbuf (codes "dev-") then some (drop 4 lbuf) else none

-- A member joins under its name.
abbrev pub add_member : Slots → Text → Option Member → Option Slots
add_member s c none = none
add_member s c (some subd) = some (record s {
  slaves = s.slaves ++ c ∷ [];
  transport = merge_member s.transport subd subd.layout;
})

unfoldable pub take_slot : (lookup : Text → Option Member) → Slots → Link → Option Slots
unfolding slot_name merge_member
take_slot lookup s Link.broken = none
take_slot lookup s Link.absent = some (record s { missing = (s.missing + 1) % 2 ^ 32 })
take_slot lookup s (Link.path lbuf) = slot_name lbuf >>= λ c. add_member s c (lookup c)

-- The loop from `rd` on, with the count of the rounds that are left.
unfoldable pub take_slots :
    Sysfs → (lookup : Text → Option Member) → (rounds rd : ℕ) → Slots → Option Slots
unfolding take_slot
take_slots sys lookup zero rd s = some s
take_slots sys lookup (suc k) rd s =
    take_slot lookup s (sys.readlink rd) >>= λ s'. take_slots sys lookup k (suc rd) s'

abbrev pub or_zero : Option ℕ → ℕ
or_zero none = 0
or_zero (some n) = n

-- Without the file the flag keeps what it was.
unfoldable pub read_resync : Option Text → Bool → Bool
read_resync none old = old
read_resync (some syncpct) old = not (text_eq syncpct (codes "none"))

-- The stripe width for the entry of a level.
abbrev pub width_of : Option AggregateType → (disks : ℕ) → ℕ
width_of none disks = 0
width_of (some agg) disks =
    if ltb disks agg.maxfaulted then 0 else (disks - agg.maxfaulted) % 2 ^ 32

-- The name of the entry is the level behind "md".
unfoldable pub stripe_width : (level : Option Text) → (disks stride : ℕ) → ℕ
unfolding get_aggregate
stripe_width none disks stride = 0
stripe_width (some level) disks stride =
    if disks == 0 || stride == 0 then 0 else width_of (get_aggregate (codes "md" ++ level)) disks

-- What is written to the members behind the loop; a resync shows as one missing member.
unfoldable pub filled : (resync : Bool) → (disks stride : ℕ) → (level : Option Text) → Slots → Mddev
unfolding stripe_width
filled resync disks stride level s = record {
  disks = disks;
  transport = s.transport;
  degraded = (if resync && (s.missing == 0) then 1 else s.missing);
  level = level;
  resync = resync;
  stride = stride;
  swidth = stripe_width level disks stride;
  slaves = s.slaves;
}

-- `none` is -1; `old` is the flag `resync` as it was.
unfoldable pub explore_md_sysfs :
    Sysfs → (lookup : Text → Option Member) → (old : Bool) → Option Mddev
unfolding take_slots read_resync filled
explore_md_sysfs sys lookup old =
    let resync = read_resync (sys.get_sysfs_string (codes "sync_completed")) old in
    let disks = or_zero (sys.get_sysfs_uint (codes "raid_disks")) in
    let stride = or_zero (sys.get_sysfs_uint (codes "chunk_size")) in
    let level = sys.get_sysfs_string (codes "level") in
    take_slots sys lookup disks 0 no_slots >>= λ s. some (filled resync disks stride level s)
