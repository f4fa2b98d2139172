-- ===== src/Aggregate/Tests.antt =====
-- Runs of the aggregates.
use growlight.Prelude.{
  ℕ, ◌+◌, ◌<◌, ◌≡◌, refl, false, Option, none, some, [], ◌∷◌, arith, ◌==◌, if◌then◌else◌,
}
use growlight.Text.{Text, codes, text_eq, starts_with}
use growlight.Device.{Layout}
use growlight.Popen.{Conversion, Shell}
use growlight.Aggregate.{AggregateType, Maker, aggregates, find_aggregate, get_aggregate}
use growlight.Aggregate.Md.{
  Transport, Link, Member, Sysfs, Mddev, stripe_width, filled, take_slots, take_slot, slot_name,
  merge, merge_member, read_resync, explore_md_sysfs,
}
use growlight.Aggregate.Slots.{IsExplored, explore_md_sysfs-IsExplored, stripe_width-get_aggregate}
use growlight.Aggregate.Merge.{common, explore_md_sysfs-common}

abbrev sh : Shell
sh = record { mbrtowc = λ s. Conversion.ended; run = λ cmd. false }

-- An array of three disks, the second of which is missing.
abbrev raid5_strings : Text → Option Text
raid5_strings n =
    if text_eq n (codes "level")
    then some (codes "raid5")
    else if text_eq n (codes "sync_completed")
    then some (codes "none")
    else none

abbrev raid5_numbers : Text → Option ℕ
raid5_numbers n =
    if text_eq n (codes "raid_disks")
    then some 3
    else if text_eq n (codes "chunk_size")
    then some 65536
    else none

abbrev raid5_links : ℕ → Link
raid5_links rd = if rd == 1 then Link.absent else Link.path (codes "dev-sda")

abbrev raid5 : Sysfs
raid5 = record {
  get_sysfs_string = raid5_strings;
  get_sysfs_uint = raid5_numbers;
  readlink = raid5_links;
}

abbrev sata : Member
sata = record {
  layout = Layout.layout_none;
  transport = Transport.serial_ataiii;
  parent_transport = Transport.transport_unknown;
}

abbrev find_sata : Text → Option Member
find_sata n = some sata

abbrev explored : Mddev
explored = record {
  disks = 3;
  transport = Transport.serial_ataiii;
  degraded = 1;
  level = some (codes "raid5");
  resync = false;
  stride = 65536;
  swidth = 2;
  slaves = codes "sda" ∷ codes "sda" ∷ [];
}

raid5_run : explore_md_sysfs raid5 find_sata false ≡ some explored
unfolding explore_md_sysfs filled take_slots take_slot slot_name merge merge_member read_resync
    stripe_width text_eq starts_with
raid5_run = refl

explore_md_sysfs-IsExplored_example : IsExplored explored
unfolding text_eq
explore_md_sysfs-IsExplored_example =
    explore_md_sysfs-IsExplored raid5 find_sata false explored (omega arith) raid5_run

explore_md_sysfs-common_example :
    Transport.serial_ataiii ≡ common (Transport.serial_ataiii ∷ Transport.serial_ataiii ∷ [])
explore_md_sysfs-common_example =
    explore_md_sysfs-common raid5 find_sata false explored raid5_run (refl, (refl, tt))

abbrev raid6 : AggregateType
raid6 = record {
  name = codes "mdraid6";
  desc = codes "Block striping with 2x distributed parity";
  mindisks = 4;
  maxfaulted = 2;
  makeagg = some Maker.make_mdraid6;
  defname = some (codes "SprezzaRAID6");
  tokenreq = none;
}

stripe_width-get_aggregate_example :
    (stripe_width (some (codes "raid6")) 6 65536 + 2 ≡ 6)
    × (0 < stripe_width (some (codes "raid6")) 6 65536)
unfolding get_aggregate find_aggregate aggregates text_eq
stripe_width-get_aggregate_example =
    stripe_width-get_aggregate (codes "raid6") raid6 6 65536 refl (omega arith) (omega arith)
      (omega arith) (omega arith)
