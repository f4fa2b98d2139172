-- ===== src/Gpt/Tests.antt =====
-- The theorems on src/gpt.c at concrete devices: every system call succeeds, and the checksum is the
-- number of bytes that it is taken over.
mod Edits
use growlight.Prelude.{
  ℕ, ◌+◌, ◌-◌, ◌*◌, ◌%◌, ◌^◌, ◌≤◌, ◌<◌, ◌≡◌, ◌⊎◌, refl, true, false, none, some, List, [], ◌∷◌,
  arith, ◌==◌, if◌then◌else◌, get_or, mul64,
}
use growlight.Memory.{all_zero, Bytes, get_le, put_le, digit, put_list, fill}
use growlight.Memory.Laws.{Copied, Apart, Kept, Zeroed, Outside}
use growlight.Io.{Os, PartEvent, World, ok, fail, abort, deleted}
use growlight.Io.Laws.{pair_of}
use growlight.Device.{Device, Partition, Layout, SwapPrio, first_usable_sector, last_usable_sector}
use growlight.Blkpg.{blkpg_add_partition, blkpg_del_partition}
use growlight.Ptypes.{get_gpt_guid, find_code}
use growlight.Ptypes.Table.{ptypes}
use growlight.Gpt.Header.{
  at_flags, at_name, at_last_usable, at_partlba, update_crc, initialize_gpt, header_front,
  header_back, store_crcs,
}
use growlight.Gpt.Header.Fields.{
  IsIllegal, IsPrimary, initialize_gpt-IsPrimary, initialize_gpt_total,
}
use growlight.Gpt.Header.Crc.{
  update_crc-IsSealed, OutsideCrcs, IsSealed, IsRefused, FitsMap, table_bytes,
}
use growlight.Gpt.Backup.{update_backup, backup_image}
use growlight.Gpt.Backup.Window.{update_backup-abort, update_backup_zeroes}
use growlight.Gpt.Backup.Copy.{IsMirror, copy_at, update_backup-IsMirror, copy_header_at}
use growlight.Gpt.Create.{
  write_gpt, write_disk, new_gpt, zap_gpt, mbr_offset, mbr_size, gpt_protective_mbr,
}
use growlight.Gpt.Create.Effect.{IsLittleEndian, IsTable}
use growlight.Gpt.Create.Whole.{HoldsMbr, new_gpt-IsTable, zap_gpt_zeroes, new_gpt-last_usable}
use growlight.Gpt.Map.{map_gpt, unmap_gpt}
use growlight.Gpt.Map.Commit.{IsLarge, IsStandard, IsCommitted, unmap_gpt-IsCommitted}
use growlight.Gpt.Edit.{entry_at, flags_gpt, flag_gpt, uuid_gpt, del_gpt, set_flag, gpt_name}
use growlight.Gpt.Edit.Entry.{
  IsEdited, flags_gpt-IsEdited, flag_gpt-IsEdited, uuid_gpt-IsEdited, del_gpt-IsEdited,
}
use growlight.Gpt.Add.{fill_entry, commit_entry, add_entry, add_gpt, align, scan, in_use, overlaps}
use growlight.Gpt.Add.Align.{align_least}
use growlight.Gpt.Add.Scan.{IsFirstFree, scan_first}
use growlight.Gpt.Add.Entry.{IsRange, IsAdded, add_gpt-IsAdded}

abbrev pub os : Os
os = record {
  page_size = 4096;
  fails = λ n. false;
  random = λ n i. 7;
  crc32 = λ m off len. len;
  crc32_local = λ m m' off len h. refl;
  sha1 = λ m off len. [];
  cpu_to_le32 = λ x. x;
  utf16 = λ name room. [];
  converts = λ name room. true;
  utf16_fits = λ name room. omega arith;
  narrow = λ name. name;
}

-- Eighty sectors, with a table of the standard size in which no entry is used.
abbrev pub disk : Device
disk = record {
  name = [];
  size = 40960;
  logsec = 512;
  physsec = 4096;
  mnttype = none;
  mntsize = 0;
  mnt = [];
  mntops = [];
  swapprio = SwapPrio.swap_invalid;
  layout = Layout.layout_none;
  pttable = some "gpt";
  first_usable = 34;
  last_usable = 46;
  md_pttable = none;
  stride = 0;
  swidth = 0;
  dm_pttable = none;
}

abbrev pub part : Partition
part = record {
  dev = record disk { layout = Layout.layout_partition; size = 4096 };
  parent = disk;
  pnumber = 3;
  extended = false;
  logical = false;
  ptype = 0x8300;
  fsector = 40;
}

abbrev pub bytes : Bytes
bytes x = if x == 524 then 92 else if x == 592 then 128 else if x == 596 then 128 else 0

abbrev pub start : World
start = record {
  disk = bytes;
  calls = 0;
  opened = 0;
  closed = 0;
  mapped = 0;
  unmapped = 0;
  kernel = [];
  biosboot = true;
  biossha1 = [];
  pname = none;
}

little : IsLittleEndian os
little x h = refl

pub standard : IsStandard os bytes
unfolding get_le
standard = record { front = refl; count = refl; size = refl }

new_gpt_ran : (new_gpt os disk start).0 ≡ ok tt
unfolding new_gpt write_disk write_gpt initialize_gpt update_crc store_crcs update_backup
    backup_image get_le put_le put_list fill digit
new_gpt_ran = refl

new_gpt-IsTable_example :
    let m = (new_gpt os disk start).1.disk in
    IsTable os 80 m
    × HoldsMbr gpt_protective_mbr m
    × ((x : ℕ) → Outside 440 584 x → x < copy_at 34 80 → m x ≡ bytes x)
new_gpt-IsTable_example =
    new_gpt-IsTable os disk start (new_gpt os disk start).1 little refl (omega arith)
      (pair_of new_gpt_ran)

abbrev pub sixteen : List ℕ
sixteen = 1 ∷ 2 ∷ 3 ∷ 4 ∷ 5 ∷ 6 ∷ 7 ∷ 8 ∷ 9 ∷ 10 ∷ 11 ∷ 12 ∷ 13 ∷ 14 ∷ 15 ∷ 16 ∷ []

update_backup_ran : (update_backup os 512 33 80 512 4096 true start).0 ≡ ok tt
unfolding update_crc store_crcs update_backup backup_image get_le put_le put_list fill digit
update_backup_ran = refl

update_backup-IsMirror_example :
    let m = (update_backup os 512 33 80 512 4096 true start).1.disk in
    IsMirror 512 33 80 bytes m × Kept (copy_at 33 80) (33 * 512) bytes m
update_backup-IsMirror_example =
    update_backup-IsMirror os 512 33 80 4096 start
      (update_backup os 512 33 80 512 4096 true start).1 (omega arith) (omega arith)
      (pair_of update_backup_ran)

update_backup-abort_example : (update_backup os 512 33 81 512 4096 true start).0 ≡ abort
update_backup-abort_example =
    update_backup-abort os 512 33 81 true start (omega arith) refl (omega arith) refl

apart : Apart 512 92 1024 (table_bytes 512 bytes)
unfolding get_le
apart = omega arith

fits : FitsMap os 20480 512 1024 bytes
unfolding get_le
fits = omega arith

update_crc-IsSealed_example :
    let (r, w') = update_crc os 20480 512 1024 start in
    (IsRefused 512 bytes × (r ≡ fail) × (w' ≡ start))
    ⊎ ((¬ IsRefused 512 bytes)
        × (r ≡ ok tt)
        × IsSealed os 512 1024 w'.disk
        × ((x : ℕ) → OutsideCrcs 512 x → w'.disk x ≡ bytes x))
update_crc-IsSealed_example = update_crc-IsSealed os 20480 512 1024 start apart fits

initialize_gpt_ran : (initialize_gpt os 512 512 79 34 (some sixteen) start).0 ≡ ok tt
unfolding initialize_gpt header_front header_back
initialize_gpt_ran = refl

abbrev labelled : Device
labelled = record disk { first_usable = 34 }

zap_gpt_ran : (zap_gpt os labelled start).0 ≡ ok tt
unfolding zap_gpt write_disk write_gpt update_backup put_list fill
zap_gpt_ran = refl

zap_gpt_zeroes_example :
    let m = (zap_gpt os labelled start).1.disk in
    Zeroed mbr_offset mbr_size m
    × Zeroed 512 (34 * 512) m
    × Zeroed (copy_at 34 80) (34 * 512) m
    × ((x : ℕ)
        → Outside mbr_offset (mbr_size + 34 * 512) x
        → Outside (copy_at 34 80) (34 * 512) x
        → m x ≡ bytes x)
zap_gpt_zeroes_example =
    zap_gpt_zeroes os labelled start (zap_gpt os labelled start).1 refl (omega arith)
      (pair_of zap_gpt_ran)

new_gpt-last_usable_example :
    let m = (new_gpt os disk start).1.disk in
    (get_le 8 (512 + at_last_usable) m ≡ get_le 8 (copy_header_at 80 + at_partlba) m)
    × Copied (get_le 8 (512 + at_last_usable) m * 512) 1024 (33 * 512) m m
new_gpt-last_usable_example =
    new_gpt-last_usable os disk start (new_gpt os disk start).1 little refl (omega arith)
      (pair_of new_gpt_ran)
