-- ===== src/Gpt/Add/Entry.antt =====
-- What `add_gpt` has done when it succeeds.
use growlight.Prelude.{
  sym, ap, ℕ, ◌+◌, ◌/◌, ◌%◌, ◌≤◌, ◌<◌, ◌≡◌, ◌≢◌, inl, inr, ◌∙◌, refl, subst, false, List, ◌∷◌,
  length, arith, u32_mod, mul64, sub64, some, none,
}
use growlight.Memory.{Bytes, get_le}
use growlight.Io.{Os, PartEvent, World, ok, added}
use growlight.Io.Laws.{pair_of}
use growlight.Device.{Device, first_usable_sector, last_usable_sector}
use growlight.Blkpg.{blkpg_add_partition}
use growlight.Gpt.Header.{at_partcount}
use growlight.Gpt.Map.{unmap_gpt, map_gpt}
use growlight.Gpt.Map.Commit.{IsStandard, IsLarge}
use growlight.Gpt.Edit.{gpt_name}
use growlight.Gpt.Add.Image.{entry_image, IsPartition, IsPartition-ext, img-Kept, img-IsPartition}
use growlight.Gpt.Add.Scan.{AllUsed, scan_first}
use growlight.Ptypes.{get_gpt_guid}
use growlight.Ptypes.Table.{ptypes}
use growlight.Ptypes.Lookup.{some_of, get_gpt_guid_sound}
use growlight.Gpt.Edit.Entry.{IsEdited, IsEdited-by}
use growlight.Gpt.Add.{scan, fill_entry, commit_entry, add_entry, add_gpt, in_use, align}

-- The world after `map_gpt`.
abbrev mapped_world : World → World
mapped_world w = record w { calls = w.calls + 1 + 1; opened = w.opened + 1; mapped = w.mapped + 1 }

-- The world after `fill_entry`, which makes three calls and the second of them draws the GUID.
abbrev filled : Os → ℕ → (name tguid : List ℕ) → (fsec lsec : ℕ) → World → World
filled os z name tguid fsec lsec w = record w {
  calls = w.calls + 1 + 1 + 1;
  disk = entry_image os (w.calls + 1 + 1) z name tguid fsec lsec w.disk;
}

fill_parts :
    (os : Os) (z : ℕ) (name tguid : List ℕ) (fsec lsec : ℕ) (w : World)
    → (fill_entry os z name tguid fsec lsec w).0 ≡ ok tt
    → fill_entry os z name tguid fsec lsec w ≡ (ok tt, filled os z name tguid fsec lsec w)
unfolding fill_entry gpt_name entry_image
fill_parts os z name tguid fsec lsec w e = ground arith

commit_parts :
    (os : Os) (d : Device) (name : List ℕ) (fsec lsec mapsize z : ℕ) (w w' : World)
    → commit_entry os d name fsec lsec mapsize z w ≡ (ok tt, w')
    → let r = unmap_gpt os d mapsize 512 w in
      (r.0 ≡ ok tt)
      × (w'.disk ≡ r.1.disk)
      × (w'.kernel ≡ added (z + 1) (mul64 fsec 512) (mul64 (sub64 lsec fsec + 1) 512) ∷ r.1.kernel)
unfolding commit_entry blkpg_add_partition
commit_parts os d name fsec lsec mapsize z w w' e = ground arith

abbrev pub chosen : (fsec lsec : ℕ) → Bytes → ℕ
chosen fsec lsec m =
    let count = get_le 4 (512 + at_partcount) m in (scan m count fsec lsec count 0 count 0).0

add_parts :
    (os : Os) (d : Device) (name tguid : List ℕ) (fsec lsec : ℕ) (w w' : World)
    → os.page_size ≡ 4096
    → add_entry os d name tguid fsec lsec w ≡ (ok tt, w')
    → let z = chosen fsec lsec w.disk in
      let r = fill_entry os z name tguid fsec lsec (mapped_world w) in
      (z ≢ get_le 4 (512 + at_partcount) w.disk)
      × (r.0 ≡ ok tt)
      × (commit_entry os d name fsec lsec 20480 z r.1 ≡ (ok tt, w'))
unfolding add_entry map_gpt
add_parts os d name tguid fsec lsec w w' pages e = ground arith

-- What a success of `add_gpt` has made: the first free entry `z` of the table describes the partition,
-- every other entry is as it was, both copies are whole, and the kernel knows the partition.
pub record IsAdded (os : Os) (d : Device) (tguid : List ℕ) (fsec lsec : ℕ) (w w' : World)
    : Type 0 where
  pub z : ℕ
  pub free : (z < 128) × (in_use w.disk z ≡ false)
  pub lowest : AllUsed w.disk 0 z
  pub entry : IsPartition z tguid fsec lsec w'.disk
  pub edited : IsEdited os (d.size / 512) z w.disk w'.disk
  pub rest : List PartEvent
  pub told : w'.kernel ≡ added (z + 1) (mul64 fsec 512) (mul64 (sub64 lsec fsec + 1) 512) ∷ rest

-- The scan of a table of 128 entries that found one.
first_of_table :
    (fsec lsec : ℕ) (m : Bytes)
    → get_le 4 (512 + at_partcount) m ≡ 128
    → chosen fsec lsec m ≢ 128
    → ((chosen fsec lsec m < 128) × (in_use m (chosen fsec lsec m) ≡ false))
      × AllUsed m 0 (chosen fsec lsec m)
first_of_table fsec lsec m count some_entry =
    let (found, used) = scan_first m (get_le 4 (512 + at_partcount) m) fsec lsec in
    (
      elim found [
        | inl none_free ↦ absurd (some_entry (none_free ∙ count))
        | inr (low, below, free) ↦ (subst (λ c. chosen fsec lsec m < c) count below, free)
      ],
      used,
    )

add_entry-IsAdded :
    (os : Os) (d : Device) (name tguid : List ℕ) (fsec lsec : ℕ) (w w' : World)
    → os.page_size ≡ 4096
    → IsLarge (d.size / 512)
    → IsStandard os w.disk
    → length tguid ≡ 16
    → add_entry os d name tguid fsec lsec w ≡ (ok tt, w')
    → IsAdded os d tguid fsec lsec w w'
add_entry-IsAdded os d name tguid fsec lsec w w' pages large std sixteen e =
    let (some_entry, ran1, rest) = add_parts os d name tguid fsec lsec w w' pages e in
    let z = chosen fsec lsec w.disk in
    let n = w.calls + 1 + 1 + 1 + 1 in
    let start = filled os z name tguid fsec lsec (mapped_world w) in
    let run = fill_parts os z name tguid fsec lsec (mapped_world w) ran1 in
    let (ran, same, told) =
      commit_parts os d name fsec lsec 20480 z start w'
        (ap (λ r. commit_entry os d name fsec lsec 20480 z r.1) (sym run) ∙ rest) in
    let (free, lowest) = first_of_table fsec lsec w.disk std.count (rw (← std.count) some_entry) in
    let (edited, after) =
      IsEdited-by os d z (entry_image os n z name tguid fsec lsec) w.disk start _ large std
        (img-Kept os n z name tguid fsec lsec w.disk sixteen) refl (pair_of ran) in
    record {
      z = z;
      free = free;
      lowest = lowest;
      entry = rw same (
          IsPartition-ext z tguid fsec lsec (entry_image os n z name tguid fsec lsec w.disk) _
            (λ x p q. after x (omega (arith, free.0)) (inr (omega arith), inr (omega arith)))
            (img-IsPartition os n z name tguid fsec lsec w.disk sixteen));
      edited = rw same edited;
      rest = _;
      told = told;
    }

-- The range that the checks let pass.
pub record IsRange (d : Device) (fsec lsec : ℕ) : Type 0 where
  pub ordered : fsec ≤ lsec
  pub low : first_usable_sector d ≤ fsec
  pub high : lsec ≤ last_usable_sector d

module _ (os : Os) (d : Device) (name : List ℕ) (fsec lsec code : ℕ) (w w' : World)
    (e : add_gpt os d (some name) fsec lsec code w ≡ (ok tt, w')) where
  add_gpt_known : get_gpt_guid ptypes (code % u32_mod) ≢ none
  unfolding add_gpt
  add_gpt_known h = ground arith

  add_gpt-IsRange : IsRange d (align fsec (d.physsec / d.logsec)) lsec
  unfolding add_gpt
  add_gpt-IsRange = ground arith

  add_gpt_entry :
      (tguid : List ℕ)
      → get_gpt_guid ptypes (code % u32_mod) ≡ some tguid
      → add_entry os d name tguid (align fsec (d.physsec / d.logsec)) lsec w ≡ (ok tt, w')
  unfolding add_gpt
  add_gpt_entry tguid h = ground arith

-- A success of `add_gpt` on a table of the standard size has put a partition with the type of `code`,
-- from the aligned first sector to the last one asked for, in the first free entry. The range is in
-- order and lies in the device's usable sectors.
pub add_gpt-IsAdded :
    (os : Os) (d : Device) (name : List ℕ) (fsec lsec code : ℕ) (w w' : World)
    → os.page_size ≡ 4096
    → IsLarge (d.size / 512)
    → IsStandard os w.disk
    → add_gpt os d (some name) fsec lsec code w ≡ (ok tt, w')
    → let fsec' = align fsec (d.physsec / d.logsec) in
      (tguid : List ℕ) × (get_gpt_guid ptypes (code % u32_mod) ≡ some tguid)
      × IsRange d fsec' lsec
      × IsAdded os d tguid fsec' lsec w w'
add_gpt-IsAdded os d name fsec lsec code w w' pages large std e =
    let (tguid, known) = some_of _ (add_gpt_known os d name fsec lsec code w w' e) in
    (
      tguid,
      known,
      add_gpt-IsRange os d name fsec lsec code w w' e,
      add_entry-IsAdded os d name tguid (align fsec (d.physsec / d.logsec)) lsec w w' pages large
          std (get_gpt_guid_sound (code % u32_mod) known).0
          (add_gpt_entry os d name fsec lsec code w w' e tguid known),
    )
