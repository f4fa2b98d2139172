-- ===== src/Gpt/Backup.antt =====
-- `update_backup` of src/gpt.c: the copy of the table at the end of the device.
pub mod Window
pub mod Copy
use growlight.Prelude.{
  ℕ, ◌+◌, ◌-◌, ◌*◌, ◌/◌, ◌%◌, Bool, true, false, ◌==◌, if◌then◌else◌, u32_mod, u64_mod, sub64,
}
use growlight.Memory.{Bytes, blit, fill, put_le, get_le}
use growlight.Io.{Os, Io, ◌>>=◌, ◌>>◌, on_fail, attempt, access, poke, mmap, munmap, syscall}
use growlight.Gpt.Header.{at_lba, at_backuplba, at_partlba, update_crc}

-- The device offset of the copy's entries, and how far into the mapping they stand.
abbrev pub abs_dev_off : (gptlbas lbas lbasize : ℕ) → ℕ
abs_dev_off gptlbas lbas lbasize = (sub64 (sub64 lbas 1) (gptlbas - 1) * lbasize) % u64_mod

-- `mapsize`, at an offset into the first page.
abbrev pub backup_map_size : (gptlbas lbasize pgsize mapoff : ℕ) → ℕ
backup_map_size gptlbas lbasize pgsize mapoff =
    let mapsize = (lbasize * gptlbas) % u32_mod + mapoff in
    pgsize * (mapsize / pgsize + (if mapoff == 0 then 0 else 1))

-- The entries at `dst` and the header in the sector behind them, copied from the primary at
-- `ghead`, with the three sector numbers that differ.
unfoldable pub backup_image : (ghead dst gptlbas lbasize : ℕ) → Bytes → Bytes
backup_image ghead dst gptlbas lbasize m =
    let m1 = blit dst (λ i. m (ghead + lbasize + i)) ((gptlbas - 1) * lbasize) m in
    let gh = dst + lbasize * (gptlbas - 1) in
    let m2 = blit gh (λ i. m1 (ghead + i)) lbasize m1 in
    let m3 = put_le 8 (gh + at_lba) (get_le 8 (gh + at_backuplba) m2) m2 in
    let m4 = put_le 8 (gh + at_backuplba) 1 m3 in
    put_le 8 (gh + at_partlba) (sub64 (get_le 8 (gh + at_lba) m4) (gptlbas - 1)) m4

module _ (os : Os) where
  -- What is done through the mapping, which ends at `lim`; the result of `update_crc` is unused.
  write_backup : (ghead gptlbas lbasize dst lim : ℕ) → Bool → Io (Unit {0})
  write_backup ghead gptlbas lbasize dst lim true = do
    access lim dst (gptlbas * lbasize)
    poke (backup_image ghead dst gptlbas lbasize)
    attempt (update_crc os lim (dst + lbasize * (gptlbas - 1)) dst)
  write_backup ghead gptlbas lbasize dst lim false = do
    access lim dst (gptlbas * lbasize)
    poke (fill dst 0 (gptlbas * lbasize))

  unfoldable pub update_backup : (ghead gptlbas lbas lbasize pgsize : ℕ) → Bool → Io (Unit {0})
  unfolding write_backup
  update_backup ghead gptlbas lbas lbasize pgsize realdata = do
    let absdevoff = abs_dev_off gptlbas lbas lbasize
    let mapoff = absdevoff % pgsize
    let mapsize = backup_map_size gptlbas lbasize pgsize mapoff
    mmap os
    write_backup ghead gptlbas lbasize absdevoff (absdevoff - mapoff + mapsize) realdata
    on_fail (syscall os) (munmap os)
    munmap os
