-- ===== src/Gpt/Edit.antt =====
-- The functions of src/gpt.c that change one entry of the table, or read its usable range. An
-- entry is reached through the mapping of `map_gpt`, `g` entries behind sector 2.
pub mod Entry
use growlight.Prelude.{
  ℕ, suc, ◌+◌, ◌-◌, ◌*◌, ◌%◌, ◌^◌, ◌&&◌, ◌||◌, Bool, true, false, not, Option, none, some, List,
  ◌==◌, if◌then◌else◌, u32_mod, u64_mod, mul64, sub64, bit_and, bit_or,
}
use growlight.Memory.{Bytes, fill, put_list, put_le, get_le}
use growlight.Io.{
  Os, Io, ◌>>=◌, ◌>>◌, pure, failed, on_fail, attempt, fail_if, assert, access, peek, poke,
  close_dev, syscall, munmap_close, or_else,
}
use growlight.Device.{Device, Partition, Layout, layout_is}
use growlight.Blkpg.{blkpg_del_partition}
use growlight.Ptypes.{get_gpt_guid}
use growlight.Ptypes.Table.{ptypes}
use growlight.Gpt.Header.{
  at_first_usable, at_last_usable, at_first_lba, at_last_lba, at_flags, at_name, name_size,
  entry_size, guid_size,
}
use growlight.Gpt.Map.{lba_size, map_gpt, const_map_gpt, unmap_gpt, const_unmap_gpt}

-- The address of `gpe[g]`.
abbrev pub entry_at : ℕ → ℕ
entry_at g = 2 * lba_size + entry_size * g

-- `flags |= flag`, or `flags &= ~flag`
unfoldable pub set_flag : ℕ → Bool → ℕ → ℕ
set_flag flag status flags =
    if status then bit_or flags flag else bit_and flags (u64_mod - 1 - flag)

module _ (os : Os) where
  -- iconv puts what it converted in the buffer also where it then stops.
  unfoldable pub gpt_name : (name : List ℕ) → (dst olen : ℕ) → Io (Unit {0})
  gpt_name name dst olen = do
    syscall os
    poke (put_list dst (os.utf16 name olen))
    on_fail (fail_if (not (os.converts name olen))) (syscall os)
    syscall os

  -- The end that the functions below share: the table is written back, and the device closed. A
  -- failure of `unmap_gpt`, which has closed the descriptor, closes it once more.
  finish : Device → ℕ → Io (Unit {0})
  finish parent mapsize = do
    on_fail (unmap_gpt os parent mapsize lba_size) (close_dev os)
    close_dev os

  -- One store to the entry's bytes.
  edit : Partition → (g : ℕ) → (Bytes → Bytes) → Io (Unit {0})
  unfolding finish
  edit d g change = do
    assert (layout_is d.dev.layout Layout.layout_partition)
    mapsize ← map_gpt os lba_size
    access mapsize (entry_at g) entry_size
    poke change
    finish d.parent mapsize

  unfoldable pub name_gpt : Partition → List ℕ → Io (Unit {0})
  unfolding finish
  name_gpt d name = do
    assert (layout_is d.dev.layout Layout.layout_partition)
    mapsize ← map_gpt os lba_size
    access mapsize (entry_at d.pnumber + at_name) name_size
    on_fail (gpt_name name (entry_at d.pnumber + at_name) name_size) (munmap_close os)
    finish d.parent mapsize

  -- The sixteen bytes go to the member `name`, as in the source.
  unfoldable pub uuid_gpt : Partition → List ℕ → Io (Unit {0})
  unfolding edit
  uuid_gpt d uuid = edit d d.pnumber (put_list (entry_at d.pnumber + at_name) uuid)

  unfoldable pub flags_gpt : Partition → ℕ → Io (Unit {0})
  unfolding edit
  flags_gpt d flag = edit d d.pnumber (put_le 8 (entry_at d.pnumber + at_flags) flag)

  unfoldable pub flag_gpt : Partition → ℕ → Bool → Io (Unit {0})
  unfolding edit set_flag
  flag_gpt d flag status =
      let at = entry_at d.pnumber + at_flags in
      edit d d.pnumber (λ m. put_le 8 at (set_flag flag status (get_le 8 at m)) m)

  code_entry : Partition → List ℕ → Io (Unit {0})
  unfolding finish
  code_entry d tguid = do
    let gpe = entry_at d.pnumber
    mapsize ← map_gpt os lba_size
    access mapsize gpe entry_size
    m ← peek
    on_fail
        (fail_if ((get_le 8 (gpe + at_first_lba) m == 0) && (get_le 8 (gpe + at_last_lba) m == 0)))
        (do attempt (unmap_gpt os d.parent mapsize lba_size); close_dev os)
    poke (put_list gpe tguid)
    finish d.parent mapsize

  -- The code is passed as an unsigned int.
  unfoldable pub code_gpt : Partition → ℕ → Io (Unit {0})
  unfolding code_entry get_gpt_guid
  code_gpt d code = do
    assert (layout_is d.dev.layout Layout.layout_partition)
    elim (get_gpt_guid ptypes (code % u32_mod)) [ none ↦ failed | some tguid ↦ code_entry d tguid ]

  -- `pnumber - 1` is an unsigned int.
  unfoldable pub del_gpt : Partition → Io (Unit {0})
  unfolding blkpg_del_partition
  del_gpt p = do
    assert (layout_is p.dev.layout Layout.layout_partition)
    let g = (p.pnumber + u32_mod - 1) % u32_mod
    mapsize ← map_gpt os lba_size
    access mapsize (entry_at g) entry_size
    poke (fill (entry_at g) 0 entry_size)
    on_fail (unmap_gpt os p.parent mapsize lba_size) (close_dev os)
    attempt (syscall os)
    on_fail (blkpg_del_partition os (mul64 p.fsector lba_size) p.dev.size p.pnumber p.parent.name)
        (close_dev os)
    close_dev os

  -- A member of the header at an offset. Both functions below return 0 for an error.
  header_member : Device → ℕ → Bool → Io ℕ
  header_member d offset nonzero = do
    assert (layout_is d.layout Layout.layout_none)
    mapsize ← const_map_gpt os lba_size
    m ← peek
    let r = get_le 8 (lba_size + offset) m
    assert (not nonzero || not (r == 0))
    on_fail (const_unmap_gpt os d) (close_dev os)
    close_dev os
    pure r

  or_zero : Io ℕ → Io ℕ
  or_zero m = or_else m (pure 0)

  unfoldable pub first_gpt : Device → Io ℕ
  unfolding header_member or_zero
  first_gpt d = or_zero (header_member d at_first_usable true)

  unfoldable pub last_gpt : Device → Io ℕ
  unfolding header_member or_zero
  last_gpt d = or_zero (header_member d at_last_usable false)
