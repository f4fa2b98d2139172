-- ===== src/Gpt/Add.antt =====
-- `add_gpt` of src/gpt.c: a new partition in the first free entry.
pub mod Scan
pub mod Align
pub mod Image
pub mod Entry
use growlight.Prelude.{
  ℕ, zero, suc, ◌+◌, ◌-◌, ◌*◌, ◌/◌, ◌%◌, ◌&&◌, ◌||◌, Bool, true, false, not, Option, none, some,
  List, ltb, leb, ◌==◌, if◌then◌else◌, u32_mod, mul64, add64, sub64,
}
use growlight.Memory.{Bytes, fill, put_list, put_le, get_le, all_zero}
use growlight.Io.{
  Os, Io, ◌>>=◌, ◌>>◌, failed, on_fail, attempt, fail_if, assert, access, peek, poke, close_dev,
  getrandom, syscall, munmap_close,
}
use growlight.Device.{Device, Layout, layout_is, is_type, first_usable_sector, last_usable_sector}
use growlight.Blkpg.{blkpg_add_partition}
use growlight.Ptypes.{get_gpt_guid}
use growlight.Ptypes.Table.{ptypes}
use growlight.Gpt.Header.{
  at_partcount, at_part_guid, at_first_lba, at_last_lba, at_flags, at_name, name_size, entry_size,
  guid_size,
}
use growlight.Gpt.Map.{lba_size, map_gpt, unmap_gpt}
use growlight.Gpt.Edit.{entry_at, gpt_name}

-- An entry is in use if its type or its own GUID has a bit set.
unfoldable pub in_use : Bytes → ℕ → Bool
in_use m z =
    not (all_zero guid_size (entry_at z) m)
    || not (all_zero guid_size (entry_at z + at_part_guid) m)

-- The test before the message "Partition overlap": does an end of entry `z` lie in the new range?
unfoldable pub overlaps : Bytes → (fsec lsec z : ℕ) → Bool
overlaps m fsec lsec z =
    let first = get_le 8 (entry_at z + at_first_lba) m in
    let last = get_le 8 (entry_at z + at_last_lba) m in
    leb fsec first && leb first lsec || leb last lsec && leb fsec last

-- The loop over the entries from `z` on, with `k` rounds left: the number chosen, which begins as
-- the count of entries, and how many overlaps were reported.
unfoldable pub scan : Bytes → (count fsec lsec k z partno reported : ℕ) → ℕ × ℕ
unfolding in_use overlaps
scan m count fsec lsec zero z partno reported = (partno, reported)
scan m count fsec lsec (suc k) z partno reported =
    scan m count fsec lsec k (z + 1)
      (if in_use m z then partno else if partno == count then z else partno)
      (if in_use m z && overlaps m fsec lsec z then reported + 1 else reported)

-- The first sector moved up to a multiple of the physical sector, in logical sectors.
unfoldable pub align : (fsec alignment : ℕ) → ℕ
align fsec alignment =
    if fsec % alignment == 0 then fsec else add64 fsec (alignment - fsec % alignment)

module _ (os : Os) where
  -- memset of the entry, munmap and close
  wipe : ℕ → Io (Unit {0})
  wipe z = do poke (fill (entry_at z) 0 entry_size); munmap_close os

  -- The entry, once its number is known; what fails wipes it again.
  unfoldable pub fill_entry : (z : ℕ) → (name tguid : List ℕ) → (fsec lsec : ℕ) → Io (Unit {0})
  unfolding wipe
  fill_entry z name tguid fsec lsec = do
    let gpe = entry_at z
    poke (put_list gpe tguid)
    on_fail (gpt_name os name (gpe + at_name) name_size) (wipe z)
    on_fail (getrandom os (gpe + at_part_guid) guid_size) (wipe z)
    poke (put_le 8 (gpe + at_flags) 0)
    poke (put_le 8 (gpe + at_first_lba) fsec)
    poke (put_le 8 (gpe + at_last_lba) lsec)

  -- What follows once the entry is filled in.
  unfoldable pub commit_entry : Device → (name : List ℕ) → (fsec lsec mapsize z : ℕ) → Io (Unit {0})
  commit_entry d name fsec lsec mapsize z = do
    on_fail (unmap_gpt os d mapsize lba_size) (close_dev os)
    attempt (syscall os)
    on_fail
        (blkpg_add_partition os (mul64 fsec lba_size) (mul64 (sub64 lsec fsec + 1) lba_size) (z + 1)
          (os.narrow name))
        (close_dev os)
    close_dev os

  unfoldable pub add_entry : Device → (name tguid : List ℕ) → (fsec lsec : ℕ) → Io (Unit {0})
  add_entry d name tguid fsec lsec = do
    mapsize ← map_gpt os lba_size
    m ← peek
    let count = get_le 4 (lba_size + at_partcount) m
    access mapsize (entry_at 0) (entry_size * count)
    let z = (scan m count fsec lsec count 0 count 0).0
    on_fail (fail_if (z == count)) (munmap_close os)
    fill_entry z name tguid fsec lsec
    commit_entry d name fsec lsec mapsize z

  -- The checks, in the order of the source, with the alignment between them.
  unfoldable pub add_gpt : Device → Option (List ℕ) → (fsec lsec code : ℕ) → Io (Unit {0})
  add_gpt d none fsec lsec code = failed
  add_gpt d (some name) fsec lsec code = do
    fail_if (not (layout_is d.layout Layout.layout_none))
    fail_if (not (is_type d.pttable "gpt"))
    fail_if (not (d.size % lba_size == 0))
    assert (not (d.logsec == 0) && not (d.physsec / d.logsec == 0))
    let fsec' = align fsec (d.physsec / d.logsec)
    assert (fsec' % (d.physsec / d.logsec) == 0)
    fail_if
        (ltb lsec fsec' || (ltb (last_usable_sector d) lsec || ltb fsec' (first_usable_sector d)))
    elim (get_gpt_guid ptypes (code % u32_mod)) [
      | none ↦ failed
      | some tguid ↦ add_entry d name tguid fsec' lsec
    ]
