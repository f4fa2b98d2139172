-- ===== src/Gpt/Edit/Entry.antt =====
-- Which entry the functions of `Edit` change, and that both copies follow.
use growlight.Prelude.{
  ℕ, ◌+◌, ◌-◌, ◌/◌, ◌%◌, ◌^◌, ◌≤◌, ◌<◌, ◌≡◌, inl, inr, ◌∙◌, ap, List, ◌∷◌, length, arith, Bool,
  u32_mod, mul64, get_or,
}
use growlight.Memory.{Bytes, put_le, get_le, fill, put_list}
use growlight.Memory.Laws.{
  Outside, Kept, Zeroed, get_le-ext, get_le-put_le, low_bytes_eight, put_le_out, fill_in, fill_out,
  put_list_in, put_list_out,
}
use growlight.Io.{Os, PartEvent, World, ok, deleted}
use growlight.Io.Laws.{pair_of}
use growlight.Device.{Device, Partition}
use growlight.Gpt.Header.{at_flags, at_name, entry_size}
use growlight.Gpt.Header.Crc.{OutsideCrcs}
use growlight.Gpt.Backup.Copy.{copy_at}
use growlight.Gpt.Map.{unmap_gpt, map_gpt}
use growlight.Gpt.Map.Commit.{IsStandard, IsCommitted, IsLarge, unmap_gpt-IsCommitted}
use growlight.Gpt.Edit.{entry_at, edit, set_flag, flags_gpt, flag_gpt, uuid_gpt, del_gpt}

-- The world after `map_gpt`, with a change made through the mapping.
abbrev changed : (Bytes → Bytes) → World → World
changed f w = record w {
  calls = w.calls + 1 + 1;
  opened = w.opened + 1;
  mapped = w.mapped + 1;
  disk = f w.disk;
}

-- A change that stays among the bytes of one entry.
abbrev pub IsLocal : ℕ → Bytes → (Bytes → Bytes) → Type 0
IsLocal g m f = Kept (entry_at g) entry_size m (f m)

edit_parts :
    (os : Os) (d : Partition) (g : ℕ) (f : Bytes → Bytes) (w w' : World)
    → os.page_size ≡ 4096
    → edit os d g f w ≡ (ok tt, w')
    → let r = unmap_gpt os d.parent 20480 512 (changed f w) in
      (entry_at g + entry_size ≤ 20480) × (r.0 ≡ ok tt) × (w'.disk ≡ r.1.disk)
unfolding edit map_gpt
edit_parts os d g f w w' pages e = ground arith

pub changed-IsStandard :
    (os : Os) (g : ℕ) (f : Bytes → Bytes) (m : Bytes)
    → IsLocal g m f
    → IsStandard os m
    → IsStandard os (f m)
changed-IsStandard os g f m near std = record {
  front = ap os.cpu_to_le32 (same 524 (omega arith)) ∙ std.front;
  count = same 592 (omega arith) ∙ std.count;
  size = same 596 (omega arith) ∙ std.size;
}
  where
    same : (o : ℕ) → o + 4 ≤ 1024 → get_le 4 o (f m) ≡ get_le 4 o m
    same o h = get_le-ext 4 o (f m) m λ x p q. near x (inl (omega arith))

-- After a success of `edit` both copies are whole, and what lies before the copy, but for the
-- checksums, is the change and nothing else.
edit-IsCommitted :
    (os : Os) (d : Partition) (g : ℕ) (f : Bytes → Bytes) (w w' : World)
    → os.page_size ≡ 4096
    → IsLarge (d.parent.size / 512)
    → IsStandard os w.disk
    → IsLocal g w.disk f
    → edit os d g f w ≡ (ok tt, w')
    → IsCommitted os (d.parent.size / 512) w'.disk
      × ((x : ℕ)
          → x < copy_at 33 (d.parent.size / 512)
          → OutsideCrcs 512 x
          → w'.disk x ≡ f w.disk x)
edit-IsCommitted os d g f w w' pages large std near e =
    let (room, ran, same) = edit_parts os d g f w w' pages e in
    rw same (
      unmap_gpt-IsCommitted os d.parent 20480 (changed f w) _ large
        (changed-IsStandard os g f w.disk near std) (pair_of ran))

-- The table as it stands after a change to one entry.
pub record IsEdited (os : Os) (lbas g : ℕ) (m m' : Bytes) : Type 0 where
  pub committed : IsCommitted os lbas m'
  -- every other entry, and the header but for its checksums
  pub others :
      (x : ℕ)
      → x < 1024 + 16384
      → Outside (entry_at g) entry_size x
      → OutsideCrcs 512 x
      → m' x ≡ m x

-- A commit of a change to one entry edits that entry.
pub IsEdited-by :
    (os : Os) (d : Device) (g : ℕ) (f : Bytes → Bytes) (m : Bytes) (w w' : World)
    → IsLarge (d.size / 512)
    → IsStandard os m
    → IsLocal g m f
    → w.disk ≡ f m
    → unmap_gpt os d 20480 512 w ≡ (ok tt, w')
    → IsEdited os (d.size / 512) g m w'.disk
      × ((x : ℕ) → x < copy_at 33 (d.size / 512) → OutsideCrcs 512 x → w'.disk x ≡ f m x)
IsEdited-by os d g f m w w' large std near start e =
    let (done, before) =
      unmap_gpt-IsCommitted os d 20480 w w' large (rw start (changed-IsStandard os g f m near std))
        e in
    let after : (x : ℕ) → x < copy_at 33 (d.size / 512) → OutsideCrcs 512 x → w'.disk x ≡ f m x =
      (λ x p c. before x p c ∙ ap (λ k. k x) start) in
    (record { committed = done; others = λ x p o c. after x (omega arith) c ∙ near x o }, after)

edit-IsEdited :
    (os : Os) (d : Partition) (g : ℕ) (f : Bytes → Bytes) (w w' : World)
    → os.page_size ≡ 4096
    → IsLarge (d.parent.size / 512)
    → IsStandard os w.disk
    → IsLocal g w.disk f
    → edit os d g f w ≡ (ok tt, w')
    → IsEdited os (d.parent.size / 512) g w.disk w'.disk
edit-IsEdited os d g f w w' pages large std near e =
    let (done, before) = edit-IsCommitted os d g f w w' pages large std near e in
    record { committed = done; others = λ x p o c. before x (omega arith) c ∙ near x o }

-- On a table of the standard size, on a device with room for both tables, a success of `flags_gpt` for a
-- partition with a number below 128 has stored its argument, cut to 64 bits, in the attributes of entry
-- `pnumber`, counted from 0, kept every other byte of the table, and brought the copy up to date.
pub flags_gpt-IsEdited :
    (os : Os) (d : Partition) (flag : ℕ) (w w' : World)
    → os.page_size ≡ 4096
    → IsLarge (d.parent.size / 512)
    → IsStandard os w.disk
    → d.pnumber < 128
    → flags_gpt os d flag w ≡ (ok tt, w')
    → (get_le 8 (entry_at d.pnumber + at_flags) w'.disk ≡ flag % 2 ^ 64)
      × IsEdited os (d.parent.size / 512) d.pnumber w.disk w'.disk
unfolding flags_gpt
flags_gpt-IsEdited os d flag w w' pages large std inside e =
    let f = put_le 8 (entry_at d.pnumber + at_flags) flag in
    let near : IsLocal d.pnumber w.disk f = (λ x o. put_le_out _ 8 w.disk x flag (ground arith)) in
    let (done, before) = edit-IsCommitted os d d.pnumber f w w' pages large std near e in
    (
      get_le-ext 8 (entry_at d.pnumber + at_flags) w'.disk (f w.disk)
            (λ x p q. before x (omega arith) (inr (omega arith), inr (omega arith)))
          ∙ (get_le-put_le 8 (entry_at d.pnumber + at_flags) flag w.disk ∙ low_bytes_eight flag),
      edit-IsEdited os d d.pnumber f w w' pages large std near e,
    )

-- `flag_gpt` sets the bits of its mask in the attributes of entry `pnumber`, or clears them, keeps
-- every other byte of the table, and brings the copy up to date.
pub flag_gpt-IsEdited :
    (os : Os) (d : Partition) (flag : ℕ) (status : Bool) (w w' : World)
    → os.page_size ≡ 4096
    → IsLarge (d.parent.size / 512)
    → IsStandard os w.disk
    → d.pnumber < 128
    → flag_gpt os d flag status w ≡ (ok tt, w')
    → let at = entry_at d.pnumber + at_flags in
      (get_le 8 at w'.disk ≡ set_flag flag status (get_le 8 at w.disk) % 2 ^ 64)
      × IsEdited os (d.parent.size / 512) d.pnumber w.disk w'.disk
unfolding flag_gpt
flag_gpt-IsEdited os d flag status w w' pages large std inside e =
    let at = entry_at d.pnumber + at_flags in
    let f = λ (m : Bytes). put_le 8 at (set_flag flag status (get_le 8 at m)) m in
    let near : IsLocal d.pnumber w.disk f = (λ x o. put_le_out _ 8 w.disk x _ (ground arith)) in
    let (done, before) = edit-IsCommitted os d d.pnumber f w w' pages large std near e in
    (
      get_le-ext 8 at w'.disk (f w.disk)
            (λ x p q. before x (omega arith) (inr (omega arith), inr (omega arith)))
          ∙ (get_le-put_le 8 at _ w.disk ∙ low_bytes_eight _),
      edit-IsEdited os d d.pnumber f w w' pages large std near e,
    )

-- `uuid_gpt` writes the sixteen bytes of its argument over the first eight characters of the name of
-- entry `pnumber`, and keeps the entry's own GUID with every other byte of it.
pub uuid_gpt-IsEdited :
    (os : Os) (d : Partition) (uuid : List ℕ) (w w' : World)
    → os.page_size ≡ 4096
    → IsLarge (d.parent.size / 512)
    → IsStandard os w.disk
    → d.pnumber < 128
    → length uuid ≡ 16
    → uuid_gpt os d uuid w ≡ (ok tt, w')
    → ((i : ℕ) → i < 16 → w'.disk (entry_at d.pnumber + at_name + i) ≡ get_or uuid i 0)
      × ((i : ℕ)
          → i < 128
          → Outside at_name 16 i
          → w'.disk (entry_at d.pnumber + i) ≡ w.disk (entry_at d.pnumber + i))
      × IsEdited os (d.parent.size / 512) d.pnumber w.disk w'.disk
unfolding uuid_gpt
uuid_gpt-IsEdited os d uuid w w' pages large std inside sixteen e =
    let at = entry_at d.pnumber + at_name in
    let f = put_list at uuid in
    let near : IsLocal d.pnumber w.disk f =
      (λ x o. put_list_out at uuid w.disk x (rw sixteen (ground arith))) in
    let (done, before) = edit-IsCommitted os d d.pnumber f w w' pages large std near e in
    (
      λ i p.
          before (at + i) (omega arith) (inr (omega arith), inr (omega arith))
          ∙ put_list_in at uuid w.disk i (omega arith),
      λ i p o.
          before (entry_at d.pnumber + i) (omega arith) (inr (omega arith), inr (omega arith))
          ∙ put_list_out at uuid w.disk (entry_at d.pnumber + i) (rw sixteen (ground arith)),
      edit-IsEdited os d d.pnumber f w w' pages large std near e,
    )

-- The world in which `del_gpt` commits, and the parts behind that.
del_parts :
    (os : Os) (p : Partition) (w w' : World)
    → os.page_size ≡ 4096
    → 1 ≤ p.pnumber
    → p.pnumber ≤ 128
    → del_gpt os p w ≡ (ok tt, w')
    → let g = p.pnumber - 1 in
      let r = unmap_gpt os p.parent 20480 512 (changed (fill (entry_at g) 0 entry_size) w) in
      (r.0 ≡ ok tt)
      × (w'.disk ≡ r.1.disk)
      × (w'.kernel ≡ deleted p.pnumber (mul64 p.fsector 512) p.dev.size ∷ r.1.kernel)
unfolding del_gpt map_gpt
del_parts os p w w' pages lo hi e = ground (arith, number)
  where
    number : (p.pnumber + u32_mod - 1) % u32_mod ≡ p.pnumber - 1
    number = omega arith

-- On a table of the standard size, on a device with room for both tables, a success of `del_gpt` for a
-- partition with a number from 1 to 128 has zeroed entry `pnumber - 1`, kept every other byte of the
-- table, brought the copy up to date and told the kernel that the partition is gone.
pub del_gpt-IsEdited :
    (os : Os) (p : Partition) (w w' : World)
    → os.page_size ≡ 4096
    → IsLarge (p.parent.size / 512)
    → IsStandard os w.disk
    → 1 ≤ p.pnumber
    → p.pnumber ≤ 128
    → del_gpt os p w ≡ (ok tt, w')
    → Zeroed (entry_at (p.pnumber - 1)) entry_size w'.disk
      × IsEdited os (p.parent.size / 512) (p.pnumber - 1) w.disk w'.disk
      × ((rest : List PartEvent) × (w'.kernel
            ≡ deleted p.pnumber (mul64 p.fsector 512) p.dev.size ∷ rest))
del_gpt-IsEdited os p w w' pages large std lo hi e =
    let g = p.pnumber - 1 in
    let f = fill (entry_at g) 0 entry_size in
    let (ran, same, told) = del_parts os p w w' pages lo hi e in
    let near : IsLocal g w.disk f = (λ x o. fill_out _ _ w.disk x 0 o) in
    let (done, before) =
      unmap_gpt-IsCommitted os p.parent 20480 (changed f w) _ large
        (changed-IsStandard os g f w.disk near std) (pair_of ran) in
    (
      rw same (λ x a b.
          before x (omega arith) (inr (omega arith), inr (omega arith))
          ∙ fill_in _ _ w.disk x 0 a b),
      rw same
          (record { committed = done; others = λ x a o c. before x (omega arith) c ∙ near x o }),
      (_, told),
    )
