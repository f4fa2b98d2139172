-- ===== src/Msdos.antt =====
-- src/msdos.c: the four primary partitions of a boot sector. An entry is sixteen bytes; the table
-- begins 6 bytes behind the boot code. A name is refused, so that the kernel is given an empty one.
pub mod Entry
pub mod Create
pub mod Scan
pub mod Add
mod Tests
use growlight.Prelude.{
  ℕ, zero, suc, ◌+◌, ◌-◌, ◌*◌, ◌/◌, ◌%◌, ◌&&◌, ◌||◌, Bool, true, false, not, Option, none, some,
  List, [], ◌∷◌, ltb, leb, ◌==◌, if◌then◌else◌, u32_mod, mul64, add64, sub64, bit_and, bit_or,
}
use growlight.Memory.{Bytes, fill, put_list, put_le, get_le, all_zero}
use growlight.Io.{
  Os, Io, ◌>>=◌, ◌>>◌, pure, failed, on_fail, attempt, fail_if, assert, access, peek, poke,
  open_dev, close_dev, mmap, munmap, getrandom, syscall, munmap_close,
}
use growlight.Device.{
  Device, Partition, Layout, layout_is, is_type, first_usable_sector, last_usable_sector,
}
use growlight.Blkpg.{blkpg_add_partition, blkpg_del_partition}
use growlight.Ptypes.{get_mbr_code}
use growlight.Ptypes.Table.{ptypes}
use growlight.Mbr.{wipe_dos_ptable}
use growlight.Gpt.Map.{round_up}
use growlight.Gpt.Add.{align}
use growlight.Gpt.Edit.{set_flag}

abbrev pub lba_size : ℕ
lba_size = 512

abbrev pub msdos_entries : ℕ
msdos_entries = 4

-- The address of `mpe[z]`, and the offsets in `msdos_entry`; `flags` stands first.
abbrev pub mpe_at : ℕ → ℕ
mpe_at z = 440 + 6 + 16 * z

abbrev pub at_ptype : ℕ
at_ptype = 4

abbrev pub at_lbafirst : ℕ
at_lbafirst = 8

abbrev pub at_lbasect : ℕ
at_lbasect = 12

abbrev pub partrole_primary : ℕ
partrole_primary = 0x8300

-- The overlap test in the loop; the sum of the two members is taken in 32 bits.
unfoldable pub overlaps : Bytes → (fsec lsec z : ℕ) → Bool
overlaps m fsec lsec z =
    let first = get_le 4 (mpe_at z + at_lbafirst) m in
    let last = (first + get_le 4 (mpe_at z + at_lbasect) m + u32_mod - 1) % u32_mod in
    leb fsec first && leb first lsec || leb last lsec && leb fsec last

-- The loop over the entries from `z` on, with `k` rounds left: the number chosen and how many
-- overlaps were reported.
unfoldable pub scan : Bytes → (fsec lsec k z partno reported : ℕ) → ℕ × ℕ
scan m fsec lsec zero z partno reported = (partno, reported)
scan m fsec lsec (suc k) z partno reported =
    let used = not (all_zero 16 (mpe_at z) m) in
    scan m fsec lsec k (z + 1)
      (if used then partno else if partno == msdos_entries then z else partno)
      (if used && overlaps m fsec lsec z then reported + 1 else reported)

-- The stores of `add_msdos` to its entry.
unfoldable pub fill_entry : (z mbrcode fsec lsec : ℕ) → Bytes → Bytes
fill_entry z mbrcode fsec lsec m =
    let m1 = put_le 1 (mpe_at z + at_ptype) mbrcode (fill (mpe_at z) 0 16 m) in
    let m2 = put_le 4 (mpe_at z + at_lbafirst) fsec m1 in
    put_le 4 (mpe_at z + at_lbasect) (sub64 lsec fsec + 1) m2

-- The stores of `initialize_msdos` behind the disk signature.
unfoldable pub initial_table : Bytes → Bytes
initial_table m = put_list 510 (0x55 ∷ 0xaa ∷ []) (fill 446 0 64 (fill 444 0 2 m))

module _ (os : Os) where
  unfoldable pub initialize_msdos : Io (Unit {0})
  initialize_msdos = do getrandom os 440 4; poke initial_table

  write_sector : Bool → Io (Unit {0})
  unfolding initialize_msdos
  write_sector true = on_fail initialize_msdos (munmap os)
  write_sector false = poke (fill 0 0 lba_size)

  unfoldable pub write_msdos : ℕ → Bool → Io (Unit {0})
  unfolding write_sector
  write_msdos lbasize realdata = do
    assert (not (os.page_size == 0) && (os.page_size % lbasize == 0))
    let mapsize = round_up lbasize os.page_size
    assert ((mapsize % os.page_size == 0) && not (mapsize == 0))
    mmap os
    access mapsize 0 lba_size
    write_sector realdata
    on_fail (syscall os) (munmap os)
    munmap os

  unfoldable pub new_msdos : Device → Io (Unit {0})
  new_msdos d = do
    fail_if (not (layout_is d.layout Layout.layout_none))
    fail_if (not (d.size % lba_size == 0))
    fail_if (ltb d.size lba_size)
    open_dev os
    on_fail (write_msdos lba_size true) (close_dev os)
    attempt (syscall os)
    close_dev os

  unfoldable pub zap_msdos : Io (Unit {0}) → Device → Io (Unit {0})
  zap_msdos rescan d = do
    fail_if (not (layout_is d.layout Layout.layout_none))
    fail_if (not (is_type d.pttable "dos"))
    wipe_dos_ptable os rescan d

  unfoldable pub map_msdos : ℕ → Io ℕ
  map_msdos lbasize = do
    open_dev os
    let mapsize = round_up lbasize os.page_size
    assert (mapsize % os.page_size == 0)
    on_fail (mmap os) (close_dev os)
    pure mapsize

  unfoldable pub unmap_msdos : Device → Io (Unit {0})
  unmap_msdos parent = do
    assert (layout_is parent.layout Layout.layout_none)
    on_fail (munmap os) (close_dev os)

  -- The end that the functions below share.
  unfoldable pub finish : Device → Io (Unit {0})
  unfolding unmap_msdos
  finish parent = do on_fail (unmap_msdos parent) (close_dev os); close_dev os

  -- What follows once the entry is filled in.
  unfoldable pub commit_entry : Device → (fsec lsec z : ℕ) → Io (Unit {0})
  unfolding unmap_msdos
  commit_entry d fsec lsec z = do
    on_fail (unmap_msdos d) (close_dev os)
    attempt (syscall os)
    on_fail
        (blkpg_add_partition os (mul64 fsec lba_size) (mul64 (sub64 lsec fsec + 1) lba_size) (z + 1)
          [])
        (close_dev os)
    close_dev os

  unfoldable pub add_entry : Device → (mbrcode fsec lsec : ℕ) → Io (Unit {0})
  unfolding map_msdos
  add_entry d mbrcode fsec lsec = do
    mapsize ← map_msdos lba_size
    m ← peek
    access mapsize (mpe_at 0) 64
    let z = (scan m fsec lsec msdos_entries 0 msdos_entries 0).0
    on_fail (fail_if (z == msdos_entries)) (munmap_close os)
    poke (fill_entry z mbrcode fsec lsec)
    commit_entry d fsec lsec z

  -- The checks of `add_msdos` behind the look-up of the code.
  unfoldable pub add_range : Device → (fsec lsec mbrcode : ℕ) → Io (Unit {0})
  add_range d fsec lsec mbrcode = do
    fail_if (not (layout_is d.layout Layout.layout_none))
    fail_if (not (is_type d.pttable "dos"))
    fail_if (not (d.size % lba_size == 0))
    assert (not (d.logsec == 0) && not (d.physsec / d.logsec == 0))
    let fsec' = align fsec (d.physsec / d.logsec)
    assert (fsec' % (d.physsec / d.logsec) == 0)
    fail_if
        (ltb lsec fsec' || (ltb (last_usable_sector d) lsec || ltb fsec' (first_usable_sector d)))
    add_entry d mbrcode fsec' lsec

  unfoldable pub add_msdos : Device → Option (List ℕ) → (fsec lsec code : ℕ) → Io (Unit {0})
  add_msdos d (some name) fsec lsec code = failed
  add_msdos d none fsec lsec code = do
    fail_if (ltb 2000000000000 (mul64 (sub64 lsec fsec) d.logsec))
    elim (get_mbr_code ptypes (code % u32_mod)) [
      | none ↦ failed
      | some mbrcode ↦ add_range d fsec lsec mbrcode
    ]

  -- One store to the entry `pnumber - 1`.
  edit : Partition → (Bytes → Bytes) → Io (Unit {0})
  unfolding map_msdos finish
  edit d change = do
    mapsize ← map_msdos lba_size
    access mapsize (mpe_at (d.pnumber - 1)) 16
    poke change
    finish d.parent

  -- The tests that `flags_msdos` and `flag_msdos` share.
  check_primary : Partition → Io (Unit {0})
  check_primary d = do
    assert (layout_is d.dev.layout Layout.layout_partition)
    fail_if (not (d.ptype == partrole_primary) || (d.logical || d.extended))
    fail_if (d.pnumber == 0 || ltb msdos_entries d.pnumber)

  unfoldable pub flags_msdos : Partition → ℕ → Io (Unit {0})
  unfolding edit check_primary
  flags_msdos d flags = do
    fail_if (not (flags == 0x80) && not (flags == 0))
    check_primary d
    edit d (put_le 1 (mpe_at (d.pnumber - 1)) flags)

  -- The member holds eight bits.
  unfoldable pub flag_msdos : Partition → ℕ → Bool → Io (Unit {0})
  unfolding edit check_primary
  flag_msdos d flag status = do
    fail_if (not (flag == 0x80))
    check_primary d
    let at = mpe_at (d.pnumber - 1)
    edit d (λ m. put_le 1 at (set_flag flag status (get_le 1 at m)) m)

  code_entry : Partition → ℕ → Io (Unit {0})
  unfolding map_msdos finish
  code_entry d mbrcode = do
    assert (layout_is d.dev.layout Layout.layout_partition)
    fail_if (d.pnumber == 0 || ltb msdos_entries d.pnumber)
    let mpe = mpe_at (d.pnumber - 1)
    mapsize ← map_msdos lba_size
    access mapsize mpe 16
    m ← peek
    on_fail
        (fail_if ((get_le 4 (mpe + at_lbafirst) m == 0) || (get_le 4 (mpe + at_lbasect) m == 0)))
        (do attempt (unmap_msdos d.parent); close_dev os)
    poke (put_le 1 (mpe + at_ptype) mbrcode)
    finish d.parent

  unfoldable pub code_msdos : Partition → ℕ → Io (Unit {0})
  unfolding code_entry
  code_msdos d code = elim (get_mbr_code ptypes (code % u32_mod)) [
    | none ↦ failed
    | some mbrcode ↦ code_entry d mbrcode
  ]

  -- What follows once the entry is zeroed.
  unfoldable pub commit_deletion : Partition → Io (Unit {0})
  unfolding unmap_msdos
  commit_deletion p = do
    on_fail (unmap_msdos p.parent) (close_dev os)
    attempt (syscall os)
    on_fail (blkpg_del_partition os (mul64 p.fsector lba_size) p.dev.size p.pnumber p.parent.name)
        (close_dev os)
    close_dev os

  unfoldable pub del_msdos : Partition → Io (Unit {0})
  unfolding map_msdos
  del_msdos p = do
    assert (layout_is p.dev.layout Layout.layout_partition)
    fail_if (p.pnumber == 0 || ltb msdos_entries p.pnumber)
    let mpe = mpe_at (p.pnumber - 1)
    mapsize ← map_msdos lba_size
    access mapsize mpe 16
    poke (fill mpe 0 16)
    commit_deletion p

unfoldable pub first_msdos : Device → ℕ
first_msdos d = 1

unfoldable pub last_msdos : Device → ℕ
last_msdos d = if not (d.logsec == 0) && not (d.size == 0) then sub64 (d.size / d.logsec) 1 else 0
