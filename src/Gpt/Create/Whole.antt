-- ===== src/Gpt/Create/Whole.antt =====
-- `new_gpt` and `zap_gpt` on a whole device, and where the range that is called usable ends.
use growlight.Prelude.{
  subst, sym, ℕ, zero, suc, ◌+◌, ◌-◌, ◌*◌, ◌/◌, ◌<◌, ◌≡◌, inl, ◌∙◌, refl, ap, Bool, true, false,
  List, arith, get_or, length,
}
use growlight.Memory.{Bytes, put_list, fill, get_le}
use growlight.Memory.Laws.{Copied, Outside, blit_in, blit_out, fill_in, fill_out, Zeroed}
use growlight.Io.{Os, World, ok}
use growlight.Io.Laws.{pair_of}
use growlight.Device.{Device}
use growlight.Gpt.Header.{at_last_usable, at_partlba}
use growlight.Gpt.Backup.Window.{update_backup_filled}
use growlight.Gpt.Backup.{update_backup}
use growlight.Gpt.Backup.Copy.{copy_at, copy_header_at}
use growlight.Gpt.Create.{
  gpt_protective_mbr, mbr_offset, mbr_size, zeroes, write_gpt, write_disk, new_gpt, zap_gpt,
}
use growlight.Gpt.Create.Effect.{
  IsLittleEndian, IsTable, IsRoomy, write_gpt-IsTable, IsRoomy-IsDisk,
}

-- The world in which `write_gpt` runs: the device is open, and its boot sector has new bytes.
abbrev booted : List ℕ → World → World
booted mbr w = record w {
  calls = w.calls + 1 + 1;
  mapped = w.mapped + 1;
  unmapped = w.unmapped + 1;
  disk = put_list mbr_offset mbr w.disk;
}

write_disk_parts :
    (os : Os) (d : Device) (mbr : List ℕ) (realdata : Bool) (w w' : World)
    → write_disk os d mbr realdata w ≡ (ok tt, w')
    → let r = write_gpt os 512 (d.size / 512) realdata (booted mbr w) in
      (r.0 ≡ ok tt) × (w'.disk ≡ r.1.disk)
unfolding write_disk
write_disk_parts os d mbr realdata w w' e = ground arith

-- What `new_gpt` and `zap_gpt` have tested before they open the device.
new_gpt_run :
    (os : Os) (d : Device) (w w' : World)
    → new_gpt os d w ≡ (ok tt, w')
    → write_disk os d gpt_protective_mbr true
        (record w { calls = w.calls + 1; opened = w.opened + 1 })
      ≡ (ok tt, w')
unfolding new_gpt
new_gpt_run os d w w' e = ground arith

-- The 72 bytes at the end of the boot sector.
abbrev pub HoldsMbr : List ℕ → Bytes → Type 0
HoldsMbr mbr m = (i : ℕ) → i < mbr_size → m (mbr_offset + i) ≡ get_or mbr i 0

booted-HoldsMbr :
    (mbr : List ℕ) (m : Bytes) → length mbr ≡ mbr_size → HoldsMbr mbr (put_list mbr_offset mbr m)
unfolding put_list
booted-HoldsMbr mbr m h i p =
    blit_in mbr_offset (length mbr) m (mbr_offset + i) (λ j. get_or mbr j 0) (omega arith)
      (omega arith)
    ∙ ap (λ j. get_or mbr j 0) (omega arith)

booted-Outside :
    (mbr : List ℕ) (m : Bytes) (x : ℕ)
    → length mbr ≡ mbr_size
    → Outside mbr_offset mbr_size x
    → put_list mbr_offset mbr m x ≡ m x
unfolding put_list
booted-Outside mbr m x h o = blit_out mbr_offset (length mbr) m x (λ j. get_or mbr j 0) (rw h o)

-- A success of `new_gpt` on a device with room for both tables leaves the protective MBR, a whole
-- table and its mirror. The boot code and the sectors from 2 up to the copy are not written: the
-- partition entries of an older table are part of the new one.
pub new_gpt-IsTable :
    (os : Os) (d : Device) (w w' : World)
    → IsLittleEndian os
    → os.page_size ≡ 4096
    → IsRoomy (d.size / 512)
    → new_gpt os d w ≡ (ok tt, w')
    → IsTable os (d.size / 512) w'.disk
      × HoldsMbr gpt_protective_mbr w'.disk
      × ((x : ℕ) → Outside 440 584 x → x < copy_at 34 (d.size / 512) → w'.disk x ≡ w.disk x)
new_gpt-IsTable os d w w' le pages roomy e =
    let lbas = d.size / 512 in
    let opened : World = record w { calls = w.calls + 1; opened = w.opened + 1 } in
    let (ran, same) =
      write_disk_parts os d gpt_protective_mbr true opened w' (new_gpt_run os d w w' e) in
    let (table, kept) =
      write_gpt-IsTable os lbas (booted gpt_protective_mbr opened)
        (write_gpt os 512 lbas true (booted gpt_protective_mbr opened)).1 le pages roomy
        (pair_of ran) in
    rw same (
      table,
      λ i p.
          kept (mbr_offset + i) (inl (omega arith)) (omega arith)
          ∙ booted-HoldsMbr gpt_protective_mbr w.disk refl i p,
      λ x o p.
          kept x (ground arith) p ∙ booted-Outside gpt_protective_mbr w.disk x refl (ground arith),
    )

-- The first sector of the copy of the entries, as an address and as the header of the copy has it.
last_of :
    (os : Os) (lbas : ℕ) (m : Bytes)
    → IsRoomy lbas
    → IsTable os lbas m
    → (get_le 8 (512 + at_last_usable) m ≡ get_le 8 (copy_header_at lbas + at_partlba) m)
      × (get_le 8 (512 + at_last_usable) m * 512 ≡ copy_at 34 lbas)
last_of os lbas m roomy t = (
  omega (arith, t.primary.last, t.primary.backup, t.copy.lba, t.copy.partlba),
  omega (arith, t.primary.last),
)

-- On a little-endian host with pages of 4096 bytes, after a success of `new_gpt` on a device with room
-- for both tables, the sector that the header calls
-- the last usable one is where the copy of the entries begins: what is stored from that sector on, over
-- 33 sectors, are the entries of the table, so that the table gives away a sector of its own copy.
pub new_gpt-last_usable :
    (os : Os) (d : Device) (w w' : World)
    → IsLittleEndian os
    → os.page_size ≡ 4096
    → IsRoomy (d.size / 512)
    → new_gpt os d w ≡ (ok tt, w')
    → let last = get_le 8 (512 + at_last_usable) w'.disk in
      (last ≡ get_le 8 (copy_header_at (d.size / 512) + at_partlba) w'.disk)
      × Copied (last * 512) 1024 (33 * 512) w'.disk w'.disk
new_gpt-last_usable os d w w' le pages roomy e =
    let table = (new_gpt-IsTable os d w w' le pages roomy e).0 in
    let (same, at) = last_of os (d.size / 512) w'.disk roomy table in
    (same, subst (λ a. Copied a 1024 (33 * 512) w'.disk w'.disk) (sym at) table.copy.entries)

get_or-zeroes : (n i : ℕ) → get_or (zeroes n) i 0 ≡ 0
get_or-zeroes zero i = refl
get_or-zeroes (suc n) zero = refl
get_or-zeroes (suc n) (suc i) = get_or-zeroes n i

booted_zero : (m : Bytes) → Zeroed mbr_offset mbr_size (put_list mbr_offset (zeroes mbr_size) m)
unfolding put_list
booted_zero m x p q =
    blit_in mbr_offset mbr_size m x (λ j. get_or (zeroes mbr_size) j 0) p q
    ∙ get_or-zeroes mbr_size (x - mbr_offset)

-- The run of `write_gpt` that zeroes, up to the copy.
zero_parts :
    (os : Os) (lbas : ℕ) (w w' : World)
    → os.page_size ≡ 4096
    → write_gpt os 512 lbas false w ≡ (ok tt, w')
    → let m = fill 512 0 (34 * 512) w.disk in
      let w1 : World = record w { calls = w.calls + 1 + 1; mapped = w.mapped + 1; disk = m } in
      let r = update_backup os 512 34 lbas 512 4096 false w1 in (r.0 ≡ ok tt) × (w'.disk ≡ r.1.disk)
unfolding write_gpt
zero_parts os lbas w w' pages e = ground arith

zap_gpt_run :
    (os : Os) (d : Device) (w w' : World)
    → zap_gpt os d w ≡ (ok tt, w')
    → write_disk os d
        (zeroes mbr_size)
        false
        (record w { calls = w.calls + 1; opened = w.opened + 1 })
      ≡ (ok tt, w')
unfolding zap_gpt
zap_gpt_run os d w w' e = ground arith

-- A success of `zap_gpt` leaves zeroes in the 72 bytes of the MBR, in the 34 sectors of the table and
-- in the last 34 sectors, and changes no other byte.
pub zap_gpt_zeroes :
    (os : Os) (d : Device) (w w' : World)
    → os.page_size ≡ 4096
    → IsRoomy (d.size / 512)
    → zap_gpt os d w ≡ (ok tt, w')
    → Zeroed mbr_offset mbr_size w'.disk
      × Zeroed 512 (34 * 512) w'.disk
      × Zeroed (copy_at 34 (d.size / 512)) (34 * 512) w'.disk
      × ((x : ℕ)
          → Outside mbr_offset (mbr_size + 34 * 512) x
          → Outside (copy_at 34 (d.size / 512)) (34 * 512) x
          → w'.disk x ≡ w.disk x)
zap_gpt_zeroes os d w w' pages roomy e =
    let lbas = d.size / 512 in
    let opened : World = record w { calls = w.calls + 1; opened = w.opened + 1 } in
    let boot = booted (zeroes mbr_size) opened in
    let (ran, same) =
      write_disk_parts os d (zeroes mbr_size) false opened w' (zap_gpt_run os d w w' e) in
    let (ran2, same2) =
      zero_parts os lbas boot (write_gpt os 512 lbas false boot).1 pages (pair_of ran) in
    rw (same, same2, update_backup_filled os 512 34 lbas 4096 _ (IsRoomy-IsDisk lbas roomy) ran2)
      (
        λ x p q.
            fill_out _ _ _ x 0 (inl (omega arith))
            ∙ (fill_out _ _ _ x 0 (inl (omega arith)) ∙ booted_zero w.disk x p q),
        λ x p q. fill_out _ _ _ x 0 (inl (omega arith)) ∙ fill_in _ _ _ x 0 p q,
        λ x p q. fill_in _ _ _ x 0 p q,
        λ x o k.
            fill_out _ _ _ x 0 k
            ∙ (fill_out _ _ _ x 0 (ground arith)
                ∙ booted-Outside (zeroes mbr_size) w.disk x refl (ground arith)),
      )
