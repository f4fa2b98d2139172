-- ===== src/Ptable/Tests.antt =====
-- The theorems on src/ptable.c and src/apm.c at a disk of eighty sectors with a GPT, where every
-- system call succeeds.
use growlight.Prelude.{
  ℕ, ◌+◌, ◌*◌, ◌%◌, ◌≡◌, refl, true, false, none, some, List, [], ◌∷◌, arith, u32_mod, ◌==◌,
  if◌then◌else◌,
}
use growlight.Memory.{Bytes, get_le, put_le, put_list, fill, digit, all_zero}
use growlight.Io.{Os, World, ok, pure}
use growlight.Io.Laws.{pair_of}
use growlight.Device.{Device, Layout, SwapPrio, first_usable_sector, last_usable_sector}
use growlight.Blkpg.{blkpg_add_partition}
use growlight.Ptypes.{get_gpt_guid, find_code}
use growlight.Ptypes.Table.{ptypes}
use growlight.Gpt.Header.{update_crc, store_crcs}
use growlight.Gpt.Backup.{update_backup, backup_image}
use growlight.Gpt.Map.{map_gpt, unmap_gpt}
use growlight.Gpt.Map.Commit.{IsStandard}
use growlight.Memory.Laws.{Outside, Zeroed}
use growlight.Gpt.Create.{mbr_offset, mbr_size, write_gpt, write_disk, zap_gpt}
use growlight.Gpt.Backup.Copy.{copy_at}
use growlight.Gpt.Edit.{gpt_name}
use growlight.Gpt.Add.{add_gpt, add_entry, fill_entry, commit_entry, align, scan, in_use, overlaps}
use growlight.Gpt.Add.Entry.{IsRange, IsAdded}
use growlight.Ptable.{ptables, find_ptable, get_ptype, wipe_ptable, add_partition}
use growlight.Ptable.Guard.{AllIdle, wipe_ptable-zap_gpt, add_partition-IsAdded}

abbrev os : Os
os = record {
  page_size = 4096;
  fails = λ n. false;
  random = λ n i. 7;
  crc32 = λ m off len. len;
  crc32_local = λ m m' off len h. refl;
  sha1 = λ m off len. [];
  cpu_to_le32 = λ x. x;
  utf16 = λ name room. [];
  converts = λ name room. true;
  utf16_fits = λ name room. omega arith;
  narrow = λ name. name;
}

abbrev disk : Device
disk = record {
  name = [];
  size = 40960;
  logsec = 512;
  physsec = 4096;
  mnttype = none;
  mntsize = 0;
  mnt = [];
  mntops = [];
  swapprio = SwapPrio.swap_invalid;
  layout = Layout.layout_none;
  pttable = some "gpt";
  first_usable = 34;
  last_usable = 46;
  md_pttable = none;
  stride = 0;
  swidth = 0;
  dm_pttable = none;
}

abbrev bytes : Bytes
bytes x = if x == 524 then 92 else if x == 592 then 128 else if x == 596 then 128 else 0

abbrev start : World
start = record {
  disk = bytes;
  calls = 0;
  opened = 0;
  closed = 0;
  mapped = 0;
  unmapped = 0;
  kernel = [];
  biosboot = true;
  biossha1 = [];
  pname = none;
}

standard : IsStandard os bytes
unfolding get_le
standard = record { front = refl; count = refl; size = refl }

abbrev part : Device
part = record disk { layout = Layout.layout_partition }

wiped :
    (wipe_ptable os (ptables os (pure tt)) (pure tt) (pure tt) disk (part ∷ []) none start).0
    ≡ ok tt
unfolding wipe_ptable find_ptable ptables zap_gpt write_disk write_gpt update_backup put_list fill
wiped = refl

wipe_ptable-zap_gpt_example :
    let w' =
      (wipe_ptable os (ptables os (pure tt)) (pure tt) (pure tt) disk (part ∷ []) none start).1 in
    AllIdle (disk ∷ part ∷ [])
    × ((v : World) × (pure tt v ≡ (ok tt, w'))
        × Zeroed mbr_offset mbr_size v.disk
        × Zeroed 512 (34 * 512) v.disk
        × Zeroed (copy_at 34 80) (34 * 512) v.disk
        × ((x : ℕ)
            → Outside mbr_offset (mbr_size + 34 * 512) x
            → Outside (copy_at 34 80) (34 * 512) x
            → v.disk x ≡ start.disk x))
wipe_ptable-zap_gpt_example =
    wipe_ptable-zap_gpt os (pure tt) (pure tt) disk (part ∷ []) start
      (wipe_ptable os (ptables os (pure tt)) (pure tt) (pure tt) disk (part ∷ []) none start).1 refl
      refl (omega arith) (pair_of wiped)

add_ran :
    (add_partition os
      (ptables os (pure tt))
      (pure tt)
      (pure tt)
      disk
      (some [])
      40
      45
      0x8300
      start).0
    ≡ ok tt
unfolding add_partition find_ptable get_ptype ptables add_gpt add_entry fill_entry commit_entry
    map_gpt unmap_gpt gpt_name update_crc store_crcs update_backup backup_image get_le put_le
    put_list fill digit scan in_use overlaps align first_usable_sector last_usable_sector
    get_gpt_guid find_code ptypes blkpg_add_partition all_zero
add_ran = refl

in-IsRange : IsRange (record disk { pttable = some "apm" }) 40 45
unfolding first_usable_sector last_usable_sector
in-IsRange = omega arith

add_partition-IsAdded_example :
    let w' =
      (add_partition os
        (ptables os (pure tt))
        (pure tt)
        (pure tt)
        disk
        (some [])
        40
        45
        0x8300
        start).1 in
    IsRange disk 40 45
    × ((v : World) × (pure tt v ≡ (ok tt, w'))
        × ((tguid : List ℕ) × (get_gpt_guid ptypes (0x8300 % u32_mod) ≡ some tguid)
            × IsAdded os disk tguid (align 40 8) 45 start v))
add_partition-IsAdded_example =
    add_partition-IsAdded os (pure tt) (pure tt) disk [] 40 45 0x8300 start
      (add_partition os (ptables os (pure tt)) (pure tt) (pure tt) disk (some []) 40 45 0x8300
        start).1
      refl refl refl (omega arith) standard (pair_of add_ran)
