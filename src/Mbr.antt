-- ===== src/Mbr.antt =====
-- src/mbr.c: the boot sector's checksum, and the functions that zero its parts. `rescan_blockdev` of
-- src/growlight.c, which reads the device's state anew, is a parameter. A short read(2) counts as a
-- failed call, and the name fits the buffer for the path.
pub mod Wipe
use growlight.Prelude.{
  ℕ, ◌-◌, ◌||◌, not, Bool, true, false, ◌&&◌, List, [], ◌∷◌, ltb, leb, ◌==◌, if◌then◌else◌,
}
use growlight.Memory.{fill}
use growlight.Io.{
  Os, Io, ◌>>=◌, ◌>>◌, pure, on_fail, fail_if, access, peek, poke, open_dev, close_dev, mmap,
  munmap, syscall, assign, members,
}
use growlight.Device.{Device, Layout, layout_is}

-- `MBR_SIZE` and `MBR_CODE_SIZE`
abbrev pub sector_size : ℕ
sector_size = 512

abbrev pub mbr_code_size : ℕ
mbr_code_size = 440

-- The checksum of 440 zeroes.
abbrev pub zero_sha1 : List ℕ
zero_sha1 =
    0x63 ∷ 0x9a ∷ 0xc5 ∷ 0xcd ∷ 0xf8 ∷ 0xa5 ∷ 0xcf ∷ 0x32 ∷ 0x45 ∷ 0x97 ∷ 0x59 ∷ 0x32 ∷ 0xc6 ∷ 0xa4
    ∷ 0x21 ∷ 0x54 ∷ 0x50 ∷ 0xa7 ∷ 0xb9 ∷ 0x8f ∷ []

abbrev pub same_bytes : List ℕ → List ℕ → Bool
same_bytes [] [] = true
same_bytes [] (c ∷ cs) = false
same_bytes (b ∷ bs) [] = false
same_bytes (b ∷ bs) (c ∷ cs) = (b == c) && same_bytes bs cs

unfoldable pub zerombrp : List ℕ → Bool
zerombrp buf = same_bytes buf zero_sha1

module _ (os : Os) where
  -- lseek and read; the checksum goes to the device's `biossha1`.
  unfoldable pub mbrsha1 : Io (Unit {0})
  mbrsha1 = do
    syscall os
    syscall os
    m ← peek
    assign (λ w. record w { biossha1 = os.sha1 m 0 mbr_code_size })

module _ (os : Os) (rescan : Io (Unit {0})) where
  -- The bytes from `wipe` up to `wipeend`. The buffer that is copied holds zeroes.
  unfoldable pub wipe_first_sector : Device → (wipe wipeend : ℕ) → Io (Unit {0})
  wipe_first_sector d wipe wipeend = do
    fail_if (ltb sector_size wipeend || leb wipeend wipe)
    fail_if (not (layout_is d.layout Layout.layout_none))
    open_dev os
    on_fail (mmap os) (close_dev os)
    access os.page_size wipe (wipeend - wipe)
    poke (fill wipe 0 (wipeend - wipe))
    on_fail (munmap os) (close_dev os)
    on_fail (mbrsha1 os) (close_dev os)
    close_dev os
    assign (λ w. if zerombrp w.biossha1 then record w { biosboot = false } else w)
    rescan

  unfoldable pub wipe_biosboot : Device → Io (Unit {0})
  wipe_biosboot d = wipe_first_sector d 0 mbr_code_size

  unfoldable pub wipe_dosmbr : Device → Io (Unit {0})
  wipe_dosmbr d = wipe_first_sector d 0 sector_size

  unfoldable pub wipe_dos_ptable : Device → Io (Unit {0})
  wipe_dos_ptable d = wipe_first_sector d mbr_code_size sector_size
