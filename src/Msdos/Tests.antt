-- ===== src/Msdos/Tests.antt =====
-- The theorems on src/msdos.c and src/mbr.c at a disk of eighty sectors, where every system call
-- succeeds.
use growlight.Prelude.{
  if◌then◌else◌, ◌==◌, ℕ, ◌%◌, ◌≤◌, ◌<◌, ◌≡◌, refl, true, false, none, some, [], arith, u32_mod,
  mul64, sub64,
}
use growlight.Memory.{Bytes, get_le, all_zero}
use growlight.Io.{Os, World, ok, pure}
use growlight.Io.Laws.{pair_of}
use growlight.Device.{Device, Partition, Layout, SwapPrio, first_usable_sector, last_usable_sector}
use growlight.Blkpg.{blkpg_add_partition, blkpg_del_partition}
use growlight.Ptypes.{get_mbr_code, find_code}
use growlight.Ptypes.Table.{ptypes}
use growlight.Gpt.Add.{align}
use growlight.Gpt.Add.Entry.{IsRange}
use growlight.Mbr.{wipe_first_sector, mbrsha1, wipe_biosboot, wipe_dos_ptable}
use growlight.Mbr.Wipe.{IsWiped, wipe_dos_ptable-IsWiped}
use growlight.Msdos.{
  scan, overlaps, new_msdos, write_msdos, initialize_msdos, flags_msdos, flag_msdos, code_msdos,
  del_msdos, add_msdos, add_range, add_entry, commit_entry, commit_deletion,
}
use growlight.Msdos.Add.{IsAddedEntry, add_msdos-IsAddedEntry}

abbrev os : Os
os = record {
  page_size = 4096;
  fails = λ n. false;
  random = λ n i. 7;
  crc32 = λ m off len. len;
  crc32_local = λ m m' off len h. refl;
  sha1 = λ m off len. [];
  cpu_to_le32 = λ x. x;
  utf16 = λ name room. [];
  converts = λ name room. true;
  utf16_fits = λ name room. omega arith;
  narrow = λ name. name;
}

abbrev disk : Device
disk = record {
  name = [];
  size = 40960;
  logsec = 512;
  physsec = 4096;
  mnttype = none;
  mntsize = 0;
  mnt = [];
  mntops = [];
  swapprio = SwapPrio.swap_invalid;
  layout = Layout.layout_none;
  pttable = some "dos";
  first_usable = 1;
  last_usable = 79;
  md_pttable = none;
  stride = 0;
  swidth = 0;
  dm_pttable = none;
}

abbrev part : Partition
part = record {
  dev = record disk { layout = Layout.layout_partition; size = 4096 };
  parent = disk;
  pnumber = 2;
  extended = false;
  logical = false;
  ptype = 0x8300;
  fsector = 8;
}

-- The first two entries are in use; the second begins in sector 8 and has 8 sectors.
abbrev bytes : Bytes
bytes x =
    if x == 450
    then 0x83
    else if x == 466
    then 0x83
    else if x == 470
    then 8
    else if x == 474
    then 8
    else 0

abbrev start : World
start = record {
  disk = bytes;
  calls = 0;
  opened = 0;
  closed = 0;
  mapped = 0;
  unmapped = 0;
  kernel = [];
  biosboot = true;
  biossha1 = [];
  pname = none;
}

flags_ran : (flags_msdos os part 128 start).0 ≡ ok tt
unfolding flags_msdos
flags_ran = refl

flag_ran : (flag_msdos os part 128 true start).0 ≡ ok tt
unfolding flag_msdos
flag_ran = refl

code_ran : (code_msdos os part 0x8200 start).0 ≡ ok tt
unfolding code_msdos get_mbr_code find_code ptypes get_le
code_ran = refl

del_ran : (del_msdos os part start).0 ≡ ok tt
unfolding del_msdos commit_deletion blkpg_del_partition
del_ran = refl

new_ran : (new_msdos os disk start).0 ≡ ok tt
unfolding new_msdos write_msdos initialize_msdos
new_ran = refl

add_ran : (add_msdos os disk none 40 47 0x8300 start).0 ≡ ok tt
unfolding add_msdos add_range add_entry commit_entry scan overlaps all_zero get_le align
    first_usable_sector last_usable_sector get_mbr_code find_code ptypes blkpg_add_partition
add_ran = refl

add_msdos-IsAddedEntry_example :
    let w' = (add_msdos os disk none 40 47 0x8300 start).1 in
    (mul64 (sub64 47 40) 512 ≤ 2000000000000)
    × IsRange disk (align 40 8) 47
    × ((mbrcode : ℕ) × (get_mbr_code ptypes (0x8300 % u32_mod) ≡ some mbrcode)
        × (0 < mbrcode)
        × (mbrcode < 256)
        × IsAddedEntry mbrcode (align 40 8) 47 start w')
add_msdos-IsAddedEntry_example =
    add_msdos-IsAddedEntry os disk 40 47 0x8300 start (add_msdos os disk none 40 47 0x8300 start).1
      (pair_of add_ran)

boot_ran : (wipe_biosboot os (pure tt) disk start).0 ≡ ok tt
unfolding wipe_biosboot wipe_first_sector mbrsha1
boot_ran = refl

table_ran : (wipe_dos_ptable os (pure tt) disk start).0 ≡ ok tt
unfolding wipe_dos_ptable wipe_first_sector mbrsha1
table_ran = refl

wipe_dos_ptable-IsWiped_example :
    (v : World) × IsWiped os 440 72 start v
    × (pure tt v ≡ (ok tt, (wipe_dos_ptable os (pure tt) disk start).1))
wipe_dos_ptable-IsWiped_example =
    wipe_dos_ptable-IsWiped os (pure tt) disk start (wipe_dos_ptable os (pure tt) disk start).1
      (pair_of table_ran)
