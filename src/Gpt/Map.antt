-- ===== src/Gpt/Map.antt =====
-- `map_gpt`, `const_map_gpt`, `unmap_gpt` and `const_unmap_gpt` of src/gpt.c: the mapping of the
-- boot sector, the primary header and its entries. The mapping begins at the device's first byte;
-- its length is what the mapping functions return. getpagesize(3) gives a positive number, so the
-- tests for a negative one are not taken.
pub mod Commit
use growlight.Prelude.{ℕ, ◌+◌, ◌*◌, ◌/◌, ◌%◌, true, not, ◌==◌, if◌then◌else◌}
use growlight.Io.{
  Os, Io, ◌>>◌, pure, on_fail, fail_if, assert, open_dev, close_dev, mmap, munmap, munmap_close,
}
use growlight.Device.{Device, Layout, layout_is}
use growlight.Gpt.Header.{entry_size, minimum_gpt_entries, update_crc}
use growlight.Gpt.Backup.{update_backup}

-- `LBA_SIZE`
abbrev pub lba_size : ℕ
lba_size = 512

-- The sectors of a table with its header.
abbrev pub table_lbas : ℕ → ℕ
table_lbas lbasize = 1 + minimum_gpt_entries * entry_size / lbasize

abbrev pub round_up : ℕ → ℕ → ℕ
round_up n pgsize = (n / pgsize + (if n % pgsize == 0 then 0 else 1)) * pgsize

abbrev pub gpt_map_size : (gptlbas lbasize pgsize : ℕ) → ℕ
gpt_map_size gptlbas lbasize pgsize =
    round_up ((if lbasize % pgsize == 0 then 0 else lbasize) + gptlbas * lbasize) pgsize

module _ (os : Os) where
  unfoldable pub map_gpt : ℕ → Io ℕ
  map_gpt lbasize = do
    fail_if (not (minimum_gpt_entries * entry_size % lbasize == 0))
    open_dev os
    let mapsize = gpt_map_size (table_lbas lbasize) lbasize os.page_size
    assert (mapsize % os.page_size == 0)
    on_fail (mmap os) (close_dev os)
    pure mapsize

  unfoldable pub const_map_gpt : ℕ → Io ℕ
  const_map_gpt lbasize = do
    fail_if (not (minimum_gpt_entries * entry_size % lbasize == 0))
    let mapsize = gpt_map_size (table_lbas lbasize) lbasize os.page_size
    fail_if (not (mapsize % os.page_size == 0))
    open_dev os
    on_fail (mmap os) (close_dev os)
    pure mapsize

  unfoldable pub const_unmap_gpt : Device → Io (Unit {0})
  const_unmap_gpt parent = do
    assert (layout_is parent.layout Layout.layout_none)
    on_fail (munmap os) (close_dev os)

  -- The header stands in sector 1, and the entries from sector 2 on. A failure closes the
  -- descriptor here.
  unfoldable pub unmap_gpt : Device → (mapsize lbasize : ℕ) → Io (Unit {0})
  unmap_gpt parent mapsize lbasize = do
    assert (layout_is parent.layout Layout.layout_none)
    on_fail (update_crc os mapsize lbasize (2 * lbasize)) (munmap_close os)
    on_fail
        (update_backup os lbasize (table_lbas lbasize) (parent.size / lbasize) lba_size os.page_size
          true)
        (munmap_close os)
    on_fail (munmap os) (close_dev os)
