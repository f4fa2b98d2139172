-- ===== src/Msdos/Add.antt =====
-- What `add_msdos` has done when it succeeds.
use growlight.Prelude.{
  true, ℕ, ◌+◌, ◌/◌, ◌%◌, ◌^◌, ◌≤◌, ◌<◌, ◌≡◌, ◌≢◌, inl, inr, some, none, ◌∷◌, arith, u32_mod, mul64,
  sub64,
}
use growlight.Memory.{Bytes, get_le}
use growlight.Memory.Laws.{
  Kept, get_le-put_le, get_le-put_le_out, low_bytes_one, low_bytes_four, put_le_out, fill_in,
  fill_out,
}
use growlight.Io.{Os, World, ok, added}
use growlight.Device.{Device}
use growlight.Blkpg.{blkpg_add_partition}
use growlight.Ptypes.{get_mbr_code}
use growlight.Ptypes.Table.{ptypes}
use growlight.Ptypes.Lookup.{some_of, get_mbr_code_sound}
use growlight.Gpt.Add.{align}
use growlight.Gpt.Add.Entry.{IsRange}
use growlight.Msdos.{
  mpe_at, at_ptype, at_lbafirst, at_lbasect, scan, fill_entry, add_range, add_entry, commit_entry,
  add_msdos,
}
use growlight.Msdos.Scan.{is_free, AllUsed, scan_first_of_four}

-- What an entry holds after `add_msdos`; the sector numbers are cut to 32 bits.
pub record IsPrimaryEntry (z mbrcode fsec lsec : ℕ) (m : Bytes) : Type 0 where
  pub inactive : get_le 1 (mpe_at z) m ≡ 0
  pub type : get_le 1 (mpe_at z + at_ptype) m ≡ mbrcode % 256
  pub first : get_le 4 (mpe_at z + at_lbafirst) m ≡ fsec % 2 ^ 32
  pub sectors : get_le 4 (mpe_at z + at_lbasect) m ≡ (sub64 lsec fsec + 1) % 2 ^ 32

filled-IsPrimaryEntry :
    (z mbrcode fsec lsec : ℕ) (m : Bytes)
    → IsPrimaryEntry z mbrcode fsec lsec (fill_entry z mbrcode fsec lsec m)
filled-IsPrimaryEntry z mbrcode fsec lsec m = record {
  inactive = unfold fill_entry get_le in grind (arith, put_le_out, fill_in);
  type = unfold fill_entry in grind (arith, get_le-put_le, get_le-put_le_out, low_bytes_one);
  first = unfold fill_entry in grind (arith, get_le-put_le, get_le-put_le_out, low_bytes_four);
  sectors = unfold fill_entry in grind (arith, get_le-put_le, get_le-put_le_out, low_bytes_four);
}

filled-Kept :
    (z mbrcode fsec lsec : ℕ) (m : Bytes) → Kept (mpe_at z) 16 m (fill_entry z mbrcode fsec lsec m)
unfolding fill_entry
filled-Kept z mbrcode fsec lsec m x o = grind (arith, put_le_out, fill_out)

commit_parts :
    (os : Os) (d : Device) (fsec lsec z : ℕ) (w w' : World)
    → commit_entry os d fsec lsec z w ≡ (ok tt, w')
    → (w'.disk ≡ w.disk)
      × (w'.kernel ≡ added (z + 1) (mul64 fsec 512) (mul64 (sub64 lsec fsec + 1) 512) ∷ w.kernel)
unfolding commit_entry blkpg_add_partition
commit_parts os d fsec lsec z w w' e = ground arith

abbrev pub chosen : (fsec lsec : ℕ) → Bytes → ℕ
chosen fsec lsec m = (scan m fsec lsec 4 0 4 0).0

-- The world in which the entry is committed.
abbrev filled : (z mbrcode fsec lsec : ℕ) → World → World
filled z mbrcode fsec lsec w = record w {
  calls = w.calls + 1 + 1;
  opened = w.opened + 1;
  mapped = w.mapped + 1;
  disk = fill_entry z mbrcode fsec lsec w.disk;
}

add_parts :
    (os : Os) (d : Device) (mbrcode fsec lsec : ℕ) (w w' : World)
    → add_entry os d mbrcode fsec lsec w ≡ (ok tt, w')
    → let z = chosen fsec lsec w.disk in
      (z ≢ 4) × (commit_entry os d fsec lsec z (filled z mbrcode fsec lsec w) ≡ (ok tt, w'))
unfolding add_entry
add_parts os d mbrcode fsec lsec w w' e = ground arith

-- The first free entry `z` of the four describes the partition, no byte outside it has changed, and
-- the kernel has been told once.
pub record IsAddedEntry (mbrcode fsec lsec : ℕ) (w w' : World) : Type 0 where
  pub z : ℕ
  pub free : (z < 4) × (is_free w.disk z ≡ true)
  pub lowest : AllUsed w.disk 0 z
  pub entry : IsPrimaryEntry z mbrcode fsec lsec w'.disk
  pub others : Kept (mpe_at z) 16 w.disk w'.disk
  pub told : w'.kernel ≡ added (z + 1) (mul64 fsec 512) (mul64 (sub64 lsec fsec + 1) 512) ∷ w.kernel

add_entry-IsAddedEntry :
    (os : Os) (d : Device) (mbrcode fsec lsec : ℕ) (w w' : World)
    → add_entry os d mbrcode fsec lsec w ≡ (ok tt, w')
    → IsAddedEntry mbrcode fsec lsec w w'
add_entry-IsAddedEntry os d mbrcode fsec lsec w w' e =
    let (some_entry, rest) = add_parts os d mbrcode fsec lsec w w' e in
    let z = chosen fsec lsec w.disk in
    let (same, told) = commit_parts os d fsec lsec z (filled z mbrcode fsec lsec w) w' rest in
    let (found, used) = scan_first_of_four w.disk fsec lsec in
    record {
      z = z;
      free = elim found [
        | inl full ↦ absurd (some_entry full)
        | inr (low, below, free) ↦ (below, free)
      ];
      lowest = used;
      entry = rw same (filled-IsPrimaryEntry z mbrcode fsec lsec w.disk);
      others = rw same (filled-Kept z mbrcode fsec lsec w.disk);
      told = told;
    }

IsRange-of :
    (os : Os) (d : Device) (fsec lsec mbrcode : ℕ) (w w' : World)
    → add_range os d fsec lsec mbrcode w ≡ (ok tt, w')
    → let fsec' = align fsec (d.physsec / d.logsec) in
      IsRange d fsec' lsec × (add_entry os d mbrcode fsec' lsec w ≡ (ok tt, w'))
unfolding add_range
IsRange-of os d fsec lsec mbrcode w w' e = (ground arith, ground arith)

module _ (os : Os) (d : Device) (fsec lsec code : ℕ) (w w' : World)
    (e : add_msdos os d none fsec lsec code w ≡ (ok tt, w')) where
  small_enough : mul64 (sub64 lsec fsec) d.logsec ≤ 2000000000000
  unfolding add_msdos
  small_enough = ground arith

  known_code : get_mbr_code ptypes (code % u32_mod) ≢ none
  unfolding add_msdos
  known_code h = ground arith

  range_run :
      (mbrcode : ℕ)
      → get_mbr_code ptypes (code % u32_mod) ≡ some mbrcode
      → add_range os d fsec lsec mbrcode w ≡ (ok tt, w')
  unfolding add_msdos
  range_run mbrcode h = ground arith

-- A success of `add_msdos` has put a partition with the type of `code`, from the aligned first sector to
-- the last one asked for, in the first free entry of the four, and changed no other byte. The range is in
-- order and lies in the device's usable sectors. From the first sector asked for to the last one are at
-- most 2 * 10 ^ 12 bytes, modulo 2 ^ 64 and without those of the last sector. Of the sector numbers, the
-- low 32 bits are stored.
pub add_msdos-IsAddedEntry :
    (os : Os) (d : Device) (fsec lsec code : ℕ) (w w' : World)
    → add_msdos os d none fsec lsec code w ≡ (ok tt, w')
    → let fsec' = align fsec (d.physsec / d.logsec) in
      (mul64 (sub64 lsec fsec) d.logsec ≤ 2000000000000)
      × IsRange d fsec' lsec
      × ((mbrcode : ℕ) × (get_mbr_code ptypes (code % u32_mod) ≡ some mbrcode)
          × (0 < mbrcode)
          × (mbrcode < 256)
          × IsAddedEntry mbrcode fsec' lsec w w')
add_msdos-IsAddedEntry os d fsec lsec code w w' e =
    let (mbrcode, known) = some_of _ (known_code os d fsec lsec code w w' e) in
    let (low, high) = get_mbr_code_sound (code % u32_mod) known in
    let (range, run) =
      IsRange-of os d fsec lsec mbrcode w w' (range_run os d fsec lsec code w w' e mbrcode known) in
    (
      small_enough os d fsec lsec code w w' e,
      range,
      (
        mbrcode,
        known,
        low,
        high,
        add_entry-IsAddedEntry os d mbrcode (align fsec (d.physsec / d.logsec)) lsec w w' run,
      ),
    )
