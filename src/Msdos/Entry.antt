-- ===== src/Msdos/Entry.antt =====
-- Which bytes the functions of src/msdos.c change in an entry that is there.
use growlight.Prelude.{
  ap, ℕ, ◌+◌, ◌-◌, ◌%◌, ◌≤◌, ◌≡◌, ◌≢◌, ◌⊎◌, ◌∙◌, Bool, ◌∷◌, none, some, arith, u32_mod, mul64,
}
use growlight.Memory.{Bytes, put_le, get_le, fill}
use growlight.Memory.Laws.{
  Kept, Zeroed, get_le-put_le, low_bytes_one, put_le_out, fill_in, fill_out,
}
use growlight.Io.{Os, World, ok, deleted}
use growlight.Device.{Partition}
use growlight.Blkpg.{blkpg_del_partition}
use growlight.Ptypes.{get_mbr_code}
use growlight.Ptypes.Table.{ptypes}
use growlight.Ptypes.Lookup.{some_of, get_mbr_code_sound}
use growlight.Msdos.{
  mpe_at, at_ptype, at_lbafirst, at_lbasect, edit, check_primary, set_flag, flags_msdos, flag_msdos,
  code_entry, code_msdos, commit_deletion, del_msdos,
}

-- One of the four entries.
abbrev pub IsEntry : ℕ → Type 0
IsEntry n = (1 ≤ n) × (n ≤ 4)

-- The two descriptors' counts have grown by one each.
abbrev pub IsReleased : World → World → Type 0
IsReleased w w' = (w'.opened ≡ w.opened + 1) × (w'.closed ≡ w.closed + 1)

edit_run :
    (os : Os) (d : Partition) (f : Bytes → Bytes) (w w' : World)
    → edit os d f w ≡ (ok tt, w')
    → (w'.disk ≡ f w.disk) × IsReleased w w'
unfolding edit
edit_run os d f w w' e = ground arith

flags_run :
    (os : Os) (d : Partition) (flags : ℕ) (w w' : World)
    → flags_msdos os d flags w ≡ (ok tt, w')
    → ((flags ≡ 0) ⊎ (flags ≡ 128))
      × IsEntry d.pnumber
      × (edit os d (put_le 1 (mpe_at (d.pnumber - 1)) flags) w ≡ (ok tt, w'))
unfolding flags_msdos check_primary
flags_run os d flags w w' e = ground arith

-- A success of `flags_msdos` has found 0 or 0x80 and the number of one of the four entries. It has
-- stored the flags in the first byte of the entry `pnumber - 1`, changed no other byte, and closed the
-- device.
pub flags_msdos-IsEntry :
    (os : Os) (d : Partition) (flags : ℕ) (w w' : World)
    → flags_msdos os d flags w ≡ (ok tt, w')
    → ((flags ≡ 0) ⊎ (flags ≡ 128))
      × IsEntry d.pnumber
      × (get_le 1 (mpe_at (d.pnumber - 1)) w'.disk ≡ flags)
      × Kept (mpe_at (d.pnumber - 1)) 1 w.disk w'.disk
      × IsReleased w w'
flags_msdos-IsEntry os d flags w w' e =
    let (legal, inside, run) = flags_run os d flags w w' e in
    let (same, released) = edit_run os d _ w w' run in
    (
      legal,
      inside,
      rw same (get_le-put_le 1 _ flags w.disk ∙ (low_bytes_one flags ∙ omega arith)),
      rw same (λ x o. put_le_out _ 1 w.disk x flags o),
      released,
    )

flag_run :
    (os : Os) (d : Partition) (flag : ℕ) (status : Bool) (w w' : World)
    → flag_msdos os d flag status w ≡ (ok tt, w')
    → let at = mpe_at (d.pnumber - 1) in
      (flag ≡ 128)
      × IsEntry d.pnumber
      × (edit os d (λ m. put_le 1 at (set_flag flag status (get_le 1 at m)) m) w ≡ (ok tt, w'))
unfolding flag_msdos check_primary
flag_run os d flag status w w' e = ground arith

-- A success of `flag_msdos` has set or cleared bit 7 of the first byte of the entry `pnumber - 1`,
-- changed no other byte, and closed the device. The other bits of that byte are as they were.
pub flag_msdos-IsEntry :
    (os : Os) (d : Partition) (flag : ℕ) (status : Bool) (w w' : World)
    → flag_msdos os d flag status w ≡ (ok tt, w')
    → let at = mpe_at (d.pnumber - 1) in
      IsEntry d.pnumber
      × (get_le 1 at w'.disk ≡ set_flag 128 status (get_le 1 at w.disk) % 256)
      × Kept at 1 w.disk w'.disk
      × IsReleased w w'
flag_msdos-IsEntry os d flag status w w' e =
    let (legal, inside, run) = flag_run os d flag status w w' e in
    let (same, released) = edit_run os d _ w w' run in
    let at = mpe_at (d.pnumber - 1) in
    (
      inside,
      rw (same, ← legal) (get_le-put_le 1 at _ w.disk ∙ low_bytes_one _),
      rw same (λ x o. put_le_out at 1 w.disk x _ o),
      released,
    )

code_run :
    (os : Os) (d : Partition) (mbrcode : ℕ) (w w' : World)
    → code_entry os d mbrcode w ≡ (ok tt, w')
    → let mpe = mpe_at (d.pnumber - 1) in
      IsEntry d.pnumber
      × (get_le 4 (mpe + at_lbafirst) w.disk ≢ 0)
      × (get_le 4 (mpe + at_lbasect) w.disk ≢ 0)
      × (w'.disk ≡ put_le 1 (mpe + at_ptype) mbrcode w.disk)
      × IsReleased w w'
unfolding code_entry
code_run os d mbrcode w w' e = ground arith

commit_run :
    (os : Os) (p : Partition) (w w' : World)
    → commit_deletion os p w ≡ (ok tt, w')
    → (w'.disk ≡ w.disk)
      × (w'.opened ≡ w.opened)
      × (w'.closed ≡ w.closed + 1)
      × (w'.kernel ≡ deleted p.pnumber (mul64 p.fsector 512) p.dev.size ∷ w.kernel)
unfolding commit_deletion blkpg_del_partition
commit_run os p w w' e = ground arith

-- The world in which the deletion is committed.
abbrev zeroed : Partition → World → World
zeroed p w = record w {
  calls = w.calls + 1 + 1;
  opened = w.opened + 1;
  mapped = w.mapped + 1;
  disk = fill (mpe_at (p.pnumber - 1)) 0 16 w.disk;
}

del_parts :
    (os : Os) (p : Partition) (w w' : World)
    → del_msdos os p w ≡ (ok tt, w')
    → IsEntry p.pnumber × (commit_deletion os p (zeroed p w) ≡ (ok tt, w'))
unfolding del_msdos
del_parts os p w w' e = ground arith

-- A success of `del_msdos` has zeroed the entry `pnumber - 1`, one of the four, changed no other byte,
-- closed the device and told the kernel once that the partition is gone.
pub del_msdos-IsEntry :
    (os : Os) (p : Partition) (w w' : World)
    → del_msdos os p w ≡ (ok tt, w')
    → IsEntry p.pnumber
      × Zeroed (mpe_at (p.pnumber - 1)) 16 w'.disk
      × Kept (mpe_at (p.pnumber - 1)) 16 w.disk w'.disk
      × IsReleased w w'
      × (w'.kernel ≡ deleted p.pnumber (mul64 p.fsector 512) p.dev.size ∷ w.kernel)
del_msdos-IsEntry os p w w' e =
    let (inside, rest) = del_parts os p w w' e in
    let (same, opened, closed, told) = commit_run os p (zeroed p w) w' rest in
    (
      inside,
      rw same (λ x a b. fill_in _ 16 w.disk x 0 a b),
      rw same (λ x o. fill_out _ 16 w.disk x 0 o),
      (opened, closed),
      told,
    )

module _ (os : Os) (d : Partition) (code : ℕ) (w w' : World)
    (e : code_msdos os d code w ≡ (ok tt, w')) where
  code_known : get_mbr_code ptypes (code % u32_mod) ≢ none
  unfolding code_msdos
  code_known h = ground arith

  code_entry_of :
      (mbrcode : ℕ)
      → get_mbr_code ptypes (code % u32_mod) ≡ some mbrcode
      → code_entry os d mbrcode w ≡ (ok tt, w')
  unfolding code_msdos
  code_entry_of mbrcode h = ground arith

-- A success of `code_msdos` has translated the code to a type of one byte, found the entry
-- `pnumber - 1` with a first sector and a size other than 0, stored the type there and changed no
-- other byte.
pub code_msdos-IsEntry :
    (os : Os) (d : Partition) (code : ℕ) (w w' : World)
    → code_msdos os d code w ≡ (ok tt, w')
    → let mpe = mpe_at (d.pnumber - 1) in
      (mbrcode : ℕ) × (get_mbr_code ptypes (code % u32_mod) ≡ some mbrcode)
      × IsEntry d.pnumber
      × (get_le 4 (mpe + at_lbafirst) w.disk ≢ 0)
      × (get_le 4 (mpe + at_lbasect) w.disk ≢ 0)
      × (get_le 1 (mpe + at_ptype) w'.disk ≡ mbrcode)
      × Kept (mpe + at_ptype) 1 w.disk w'.disk
code_msdos-IsEntry os d code w w' e =
    let (mbrcode, known) = some_of _ (code_known os d code w w' e) in
    let (inside, first, sectors, same, released) =
      code_run os d mbrcode w w' (code_entry_of os d code w w' e mbrcode known) in
    let (low, high) = get_mbr_code_sound (code % u32_mod) known in
    (
      mbrcode,
      known,
      inside,
      first,
      sectors,
      stored _ mbrcode same ∙ omega arith,
      λ x o. ap (λ m. m x) same ∙ put_le_out _ 1 w.disk x mbrcode o,
    )
  where
    stored : (at v : ℕ) → w'.disk ≡ put_le 1 at v w.disk → get_le 1 at w'.disk ≡ v % 256
    stored at v same = rw same (get_le-put_le 1 at v w.disk ∙ low_bytes_one v)
