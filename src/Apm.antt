-- ===== src/Apm.antt =====
-- src/apm.c: the Apple partition map, which can be created, zeroed and asked for its first sector.
use growlight.Prelude.{
  ℕ, zero, suc, ◌+◌, ◌-◌, ◌*◌, ◌/◌, ◌%◌, ◌&&◌, ◌||◌, Bool, true, false, not, List, [], ◌∷◌, ltb,
  ◌==◌, if◌then◌else◌, sub64, u32_mod, u64_mod,
}
use growlight.Memory.{Bytes, fill, put_list, put_le, get_le}
use growlight.Io.{
  Os, Io, ◌>>=◌, ◌>>◌, pure, on_fail, attempt, fail_if, assert, access, peek, poke, open_dev,
  close_dev, mmap, munmap, syscall, or_else,
}
use growlight.Device.{Device, Layout, layout_is, is_type}
use growlight.Gpt.Map.{round_up}

abbrev pub lba_size : ℕ
lba_size = 512

abbrev pub default_apm_entries : ℕ
default_apm_entries = 32

-- `sizeof(apm_entry)`, and the offsets of its members; `signature` stands first.
abbrev pub apm_entry_size : ℕ
apm_entry_size = 512

abbrev pub at_partition_count : ℕ
at_partition_count = 4

abbrev pub at_fsector : ℕ
at_fsector = 8

abbrev pub at_sectorcount : ℕ
at_sectorcount = 12

abbrev pub at_pname : ℕ
at_pname = 16

abbrev pub at_apm_ptype : ℕ
at_apm_ptype = 48

abbrev pub apm_sig : List ℕ
apm_sig = 0x4d ∷ 0x50 ∷ []

-- "Apple_Extra", "Apple_Free" and "Extra", with the NUL that strcpy copies.
abbrev pub apple_extra : List ℕ
apple_extra = 65 ∷ 112 ∷ 112 ∷ 108 ∷ 101 ∷ 95 ∷ 69 ∷ 120 ∷ 116 ∷ 114 ∷ 97 ∷ 0 ∷ []

abbrev pub apple_free : List ℕ
apple_free = 65 ∷ 112 ∷ 112 ∷ 108 ∷ 101 ∷ 95 ∷ 70 ∷ 114 ∷ 101 ∷ 101 ∷ 0 ∷ []

abbrev pub extra : List ℕ
extra = 69 ∷ 120 ∷ 116 ∷ 114 ∷ 97 ∷ 0 ∷ []

-- One round of the loop, on the entry at `at`.
unfoldable pub free_entry : (lba entries at : ℕ) → Bytes → Bytes
free_entry lba entries at m =
    let m1 = put_list at apm_sig (fill at 0 lba m) in
    put_list (at + at_apm_ptype) apple_extra (put_le 4 (at + at_partition_count) entries m1)

-- The loop, with `k` rounds left.
unfoldable pub free_entries : (lba entries k at : ℕ) → Bytes → Bytes
free_entries lba entries zero at m = m
free_entries lba entries (suc k) at m =
    free_entries lba entries k (at + lba) (free_entry lba entries at m)

-- The first entry spans the disk.
unfoldable pub span_entry : (at entries sectors : ℕ) → Bytes → Bytes
span_entry at entries sectors m =
    let m1 = put_le 4 (at + at_fsector) entries m in
    let m2 = put_le 4 (at + at_sectorcount) (sub64 sectors (entries + 1)) m1 in
    put_list (at + at_apm_ptype) apple_free (put_list (at + at_pname) extra m2)

module _ (os : Os) where
  -- The mapping begins at address 0 and ends at `lim`.
  unfoldable pub initialize_apm : (lim lba sectors entries : ℕ) → Io (Unit {0})
  initialize_apm lim lba sectors entries = do
    assert (not (lba == 0) && (not (sectors == 0) && not (entries == 0)))
    fail_if (ltb sectors ((entries + 1) % u32_mod))
    fail_if (not (lba == apm_entry_size))
    access lim 0 (lba * (entries + 1))
    poke (λ m.
        span_entry lba entries sectors (free_entries lba entries entries lba (fill 0 0 lba m)))

  write_map : (mapsize lbasize sectors : ℕ) → Bool → Io (Unit {0})
  write_map mapsize lbasize sectors true =
      on_fail (initialize_apm mapsize lbasize sectors default_apm_entries) (munmap os)
  write_map mapsize lbasize sectors false = do
    let n =
        lbasize
        * (if ltb (default_apm_entries + 1) sectors then default_apm_entries + 1 else sectors)
    access mapsize 0 n
    poke (fill 0 0 n)

  unfoldable pub write_apm : (lbasize sectors : ℕ) → Bool → Io (Unit {0})
  unfolding write_map
  write_apm lbasize sectors realdata = do
    assert (not (os.page_size == 0) && (os.page_size % lbasize == 0))
    let mapsize = round_up (lbasize * (default_apm_entries + 1)) os.page_size
    assert ((mapsize % os.page_size == 0) && not (mapsize == 0))
    mmap os
    write_map mapsize lbasize sectors realdata
    on_fail (syscall os) (munmap os)
    munmap os

  unfoldable pub new_apm : Device → Io (Unit {0})
  new_apm d = do
    fail_if (not (layout_is d.layout Layout.layout_none))
    fail_if (not (d.size % lba_size == 0))
    fail_if (ltb d.size lba_size)
    open_dev os
    on_fail (write_apm lba_size (d.size / lba_size) true) (close_dev os)
    attempt (syscall os)
    close_dev os

  unfoldable pub zap_apm : Device → Io (Unit {0})
  zap_apm d = do
    fail_if (not (layout_is d.layout Layout.layout_none))
    fail_if (not (is_type d.pttable "apm"))
    fail_if (ltb d.size lba_size || not (d.size % lba_size == 0))
    open_dev os
    on_fail (write_apm lba_size (d.size / lba_size) false) (close_dev os)
    attempt (syscall os)
    close_dev os

  unfoldable pub map_apm : ℕ → Io ℕ
  map_apm lbasize = do
    open_dev os
    let mapsize = round_up (lbasize * (default_apm_entries + 1)) os.page_size
    assert (mapsize % os.page_size == 0)
    on_fail (mmap os) (close_dev os)
    pure mapsize

  unfoldable pub unmap_apm : Device → Io (Unit {0})
  unmap_apm parent = do
    assert (layout_is parent.layout Layout.layout_none)
    on_fail (munmap os) (close_dev os)

  -- A failure is returned as -1 in 64 bits. The descriptor is not closed after a success of
  -- `unmap_apm`, as in the source.
  unfoldable pub first_apm : Device → Io ℕ
  unfolding map_apm unmap_apm
  first_apm d =
      or_else
        (do
          mapsize ← map_apm lba_size
          or_else
              (do
                fail_if (ltb mapsize (lba_size * (default_apm_entries + 1)))
                m ← peek
                attempt (unmap_apm d)
                pure ((1 + get_le 4 (lba_size + at_partition_count) m) % u32_mod))
              (do attempt (unmap_apm d); pure (u64_mod - 1)))
        (pure (u64_mod - 1))

unfoldable pub last_apm : Device → ℕ
last_apm d = if not (d.logsec == 0) && not (d.size == 0) then sub64 (d.size / d.logsec) 1 else 0
