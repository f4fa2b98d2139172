-- ===== src/Gpt/Tests/Edits.antt =====
-- The theorems on the entries of src/gpt.c, at the device of the parent module.
use growlight.Prelude.{ℕ, ◌+◌, ◌%◌, ◌^◌, ◌<◌, ◌≡◌, refl, true, some, List, [], ◌∷◌, arith, mul64}
use growlight.Memory.{all_zero, get_le, put_le, digit, put_list, fill}
use growlight.Memory.Laws.{Zeroed}
use growlight.Io.{PartEvent, ok, deleted}
use growlight.Io.Laws.{pair_of}
use growlight.Device.{first_usable_sector, last_usable_sector}
use growlight.Blkpg.{blkpg_add_partition, blkpg_del_partition}
use growlight.Ptypes.{get_gpt_guid, find_code}
use growlight.Ptypes.Table.{ptypes}
use growlight.Gpt.Header.{at_flags, update_crc, store_crcs}
use growlight.Gpt.Header.Crc.{OutsideCrcs}
use growlight.Gpt.Backup.{update_backup, backup_image}
use growlight.Gpt.Backup.Copy.{copy_at}
use growlight.Gpt.Map.{map_gpt, unmap_gpt}
use growlight.Gpt.Map.Commit.{IsLarge, IsCommitted, unmap_gpt-IsCommitted}
use growlight.Gpt.Edit.{entry_at, flags_gpt, flag_gpt, uuid_gpt, del_gpt, set_flag, gpt_name}
use growlight.Gpt.Edit.Entry.{IsEdited, flags_gpt-IsEdited, del_gpt-IsEdited}
use growlight.Gpt.Add.{fill_entry, commit_entry, add_entry, add_gpt, align, scan, in_use, overlaps}
use growlight.Gpt.Add.Entry.{IsRange, IsAdded, add_gpt-IsAdded}
use growlight.Gpt.Tests.{os, disk, part, bytes, start, standard, sixteen}

-- The other runs, each of which ends in a success.
add_gpt_ran : (add_gpt os disk (some []) 40 45 0x8300 start).0 ≡ ok tt
unfolding add_gpt add_entry fill_entry commit_entry map_gpt unmap_gpt gpt_name update_crc store_crcs
    update_backup backup_image get_le put_le put_list fill digit scan in_use overlaps align
    first_usable_sector last_usable_sector get_gpt_guid find_code ptypes blkpg_add_partition
    all_zero
add_gpt_ran = refl

large : IsLarge 80
large = omega arith

add_gpt-IsAdded_example :
    (tguid : List ℕ) × (get_gpt_guid ptypes 0x8300 ≡ some tguid)
    × IsRange disk (align 40 8) 45
    × IsAdded os disk tguid (align 40 8) 45 start (add_gpt os disk (some []) 40 45 0x8300 start).1
add_gpt-IsAdded_example =
    add_gpt-IsAdded os disk [] 40 45 0x8300 start (add_gpt os disk (some []) 40 45 0x8300 start).1
      refl large standard (pair_of add_gpt_ran)

del_gpt_ran : (del_gpt os part start).0 ≡ ok tt
unfolding del_gpt map_gpt unmap_gpt update_crc store_crcs update_backup backup_image get_le put_le
    put_list fill digit blkpg_del_partition
del_gpt_ran = refl

del_gpt-IsEdited_example :
    let w' = (del_gpt os part start).1 in
    Zeroed (entry_at 2) 128 w'.disk
    × IsEdited os 80 2 bytes w'.disk
    × ((rest : List PartEvent) × (w'.kernel ≡ deleted 3 (mul64 40 512) 4096 ∷ rest))
del_gpt-IsEdited_example =
    del_gpt-IsEdited os part start (del_gpt os part start).1 refl large standard (omega arith)
      (omega arith) (pair_of del_gpt_ran)

flags_gpt_ran : (flags_gpt os part 5 start).0 ≡ ok tt
unfolding flags_gpt map_gpt unmap_gpt update_crc store_crcs update_backup backup_image get_le put_le
    put_list fill digit
flags_gpt_ran = refl

flags_gpt-IsEdited_example :
    let w' = (flags_gpt os part 5 start).1 in
    (get_le 8 (entry_at 3 + at_flags) w'.disk ≡ 5 % 2 ^ 64) × IsEdited os 80 3 bytes w'.disk
flags_gpt-IsEdited_example =
    flags_gpt-IsEdited os part 5 start (flags_gpt os part 5 start).1 refl large standard
      (omega arith) (pair_of flags_gpt_ran)

flag_gpt_ran : (flag_gpt os part 4 true start).0 ≡ ok tt
unfolding flag_gpt map_gpt unmap_gpt update_crc store_crcs update_backup backup_image get_le put_le
    put_list fill digit set_flag
flag_gpt_ran = refl

uuid_gpt_ran : (uuid_gpt os part sixteen start).0 ≡ ok tt
unfolding uuid_gpt map_gpt unmap_gpt update_crc store_crcs update_backup backup_image get_le put_le
    put_list fill digit
uuid_gpt_ran = refl

unmap_gpt_ran : (unmap_gpt os disk 20480 512 start).0 ≡ ok tt
unfolding unmap_gpt update_crc store_crcs update_backup backup_image get_le put_le put_list fill
    digit
unmap_gpt_ran = refl

unmap_gpt-IsCommitted_example :
    let m = (unmap_gpt os disk 20480 512 start).1.disk in
    IsCommitted os 80 m × ((x : ℕ) → x < copy_at 33 80 → OutsideCrcs 512 x → m x ≡ bytes x)
unmap_gpt-IsCommitted_example =
    unmap_gpt-IsCommitted os disk 20480 start (unmap_gpt os disk 20480 512 start).1 large standard
      (pair_of unmap_gpt_ran)
