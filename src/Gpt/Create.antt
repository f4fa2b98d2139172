-- ===== src/Gpt/Create.antt =====
-- `write_gpt`, `new_gpt` and `zap_gpt` of src/gpt.c: writing a whole table, or zeroes over it.
pub mod Whole
pub mod Effect
use growlight.Prelude.{
  ℕ, zero, suc, ◌+◌, ◌-◌, ◌*◌, ◌/◌, ◌%◌, ◌||◌, Bool, true, false, not, Option, none, List, [], ◌∷◌,
  ◌++◌, ltb, ◌==◌, if◌then◌else◌, sub64,
}
use growlight.Memory.{fill, put_list}
use growlight.Io.{
  Os, Io, ◌>>=◌, ◌>>◌, on_fail, attempt, fail_if, access, poke, open_dev, close_dev, mmap, munmap,
  syscall,
}
use growlight.Device.{Device, Layout, layout_is, is_type}
use growlight.Gpt.Header.{entry_size, minimum_gpt_entries, update_crc, initialize_gpt}
use growlight.Gpt.Backup.{update_backup}
use growlight.Gpt.Map.{lba_size, gpt_map_size}

-- `MBR_OFFSET` and `MBR_SIZE`
abbrev pub mbr_offset : ℕ
mbr_offset = 440

abbrev pub mbr_size : ℕ
mbr_size = 72

abbrev pub zeroes : ℕ → List ℕ
zeroes zero = []
zeroes (suc n) = 0 ∷ zeroes n

-- `GPT_PROTECTIVE_MBR`
abbrev pub gpt_protective_mbr : List ℕ
gpt_protective_mbr =
    zeroes 6
    ++ ((0x80 ∷ 0 ∷ 0 ∷ 0 ∷ 0xee ∷ 0xff ∷ 0xff ∷ 0xff ∷ 1 ∷ 0 ∷ 0 ∷ 0 ∷ 0xff ∷ 0xff ∷ 0xff ∷ 0xff
          ∷ [])
        ++ (zeroes 48 ++ (0x55 ∷ 0xaa ∷ [])))

-- `gptlbas` of `write_gpt`, in terms of its `s`.
abbrev pub new_gpt_lbas : ℕ → ℕ
new_gpt_lbas lbasize =
    let s = lbasize - minimum_gpt_entries * entry_size % lbasize in
    1 + (if s == 0 then 0 else 1) + minimum_gpt_entries * entry_size / lbasize

module _ (os : Os) where
  -- The first copy, through a mapping of `lim` bytes: a new table, or zeroes.
  write_primary : (lim ghead lbasize backuplba gptlbas : ℕ) → Bool → Io (Unit {0})
  write_primary lim ghead lbasize backuplba gptlbas true = do
    access lim ghead (gptlbas * lbasize)
    on_fail (initialize_gpt os ghead lbasize backuplba gptlbas none) (munmap os)
    on_fail (update_crc os lim ghead (ghead + lbasize)) (munmap os)
  write_primary lim ghead lbasize backuplba gptlbas false = do
    access lim ghead (gptlbas * lbasize)
    poke (fill ghead 0 (gptlbas * lbasize))

  unfoldable pub write_gpt : (lbasize lbas : ℕ) → Bool → Io (Unit {0})
  unfolding write_primary
  write_gpt lbasize lbas realdata = do
    let gptlbas = new_gpt_lbas lbasize
    let backuplba = sub64 lbas 1
    fail_if (os.page_size == 0 || not (os.page_size % lbasize == 0))
    let ghead = lbasize % os.page_size
    let mapsize = gpt_map_size gptlbas lbasize os.page_size
    fail_if (not (mapsize % os.page_size == 0))
    mmap os
    write_primary mapsize ghead lbasize backuplba gptlbas realdata
    on_fail (syscall os) (munmap os)
    on_fail (update_backup os ghead gptlbas lbas lbasize os.page_size realdata) (munmap os)
    munmap os

  -- The MBR's 72 bytes, then the table, on a device that is open; it is closed on every path.
  unfoldable pub write_disk : Device → List ℕ → Bool → Io (Unit {0})
  write_disk d mbr realdata = do
    on_fail (mmap os) (close_dev os)
    access os.page_size mbr_offset mbr_size
    poke (put_list mbr_offset mbr)
    on_fail (munmap os) (close_dev os)
    on_fail (write_gpt lba_size (d.size / lba_size) realdata) (close_dev os)
    attempt (syscall os)
    close_dev os

  unfoldable pub new_gpt : Device → Io (Unit {0})
  new_gpt d = do
    fail_if (not (layout_is d.layout Layout.layout_none))
    fail_if (not (d.size % lba_size == 0))
    fail_if (ltb d.size (lba_size + 2 * (lba_size + minimum_gpt_entries * entry_size)))
    open_dev os
    write_disk d gpt_protective_mbr true

  unfoldable pub zap_gpt : Device → Io (Unit {0})
  zap_gpt d = do
    fail_if (not (layout_is d.layout Layout.layout_none))
    fail_if (not (is_type d.pttable "gpt"))
    open_dev os
    write_disk d (zeroes mbr_size) false
