-- ===== src/Ptable/Guard.antt =====
-- What the functions of src/ptable.c refuse, and what they have done through a backend.
use growlight.Prelude.{
  ℕ, ◌+◌, ◌*◌, [], ◌∷◌, ◌/◌, ◌%◌, ◌≡◌, ◌⊎◌, refl, true, false, Option, none, some, List, String,
  arith, u32_mod,
}
use growlight.Io.{Os, Io, World, ok, fail, abort}
use growlight.Io.Laws.{pair_of}
use growlight.Device.{Device, Layout}
use growlight.Ptypes.{get_gpt_guid}
use growlight.Ptypes.Table.{ptypes}
use growlight.Gpt.Map.Commit.{IsStandard, IsLarge}
use growlight.Text.{Text}
use growlight.Memory.Laws.{Outside, Zeroed}
use growlight.Gpt.Create.{mbr_offset, mbr_size, zap_gpt}
use growlight.Gpt.Backup.Copy.{copy_at}
use growlight.Gpt.Create.Effect.{IsRoomy}
use growlight.Gpt.Create.Whole.{zap_gpt_zeroes}
use growlight.Gpt.Add.{align, add_gpt}
use growlight.Gpt.Add.Entry.{IsRange, IsAdded, add_gpt-IsAdded}
use growlight.Ptable.{
  Ptable, find_ptable, get_ptype, ptables, gpt_ptable, is_null, is_mounted, any_mounted,
  make_partition_table, wipe_ptable, add_partition,
}

-- A raw disk without a table and without a file system.
pub record IsBlank (d : Device) : Type 0 where
  pub raw : d.layout ≡ Layout.layout_none
  pub no_table : d.pttable ≡ none
  pub no_filesystem : d.mnttype ≡ none

gpt_type :
    (d : Device) → d.layout ≡ Layout.layout_none → d.pttable ≡ some "gpt" → get_ptype d ≡ some "gpt"
unfolding get_ptype
gpt_type d raw gpt = rw (raw, gpt)

find_gpt :
    (os : Os) (rescan : Io (Unit {0}))
    → find_ptable (ptables os rescan) "gpt" ≡ some (gpt_ptable os rescan)
unfolding find_ptable ptables
find_gpt os rescan = refl

module _ (os : Os) (pts : List Ptable) (rescan blkrrpart : Io (Unit {0})) where
  -- No byte is written over a table or a file system: `make_partition_table` fails at once, with the
  -- world as it was, on a device that has either.
  pub make_partition_table_guarded :
      (d : Device) (pty : String) (w : World)
      → (is_null d.pttable ≡ false) ⊎ (is_null d.mnttype ≡ false)
      → make_partition_table os pts rescan blkrrpart d pty w ≡ (fail, w)
  unfolding make_partition_table
  make_partition_table_guarded d pty w h = ground arith

  -- No table is wiped under a file system in use: `wipe_ptable` fails at once, with the world as it
  -- was, when the device or one of its partitions is mounted.
  pub wipe_ptable_guarded :
      (d : Device) (parts : List Device) (pty : Option String) (w : World)
      → (is_mounted d ≡ true) ⊎ (any_mounted parts ≡ true)
      → wipe_ptable os pts rescan blkrrpart d parts pty w ≡ (fail, w)
  unfolding wipe_ptable
  wipe_ptable_guarded d parts pty w h = ground arith

  -- The range of a new partition is tested before any backend runs.
  add_partition_run :
      (d : Device) (name : Option (List ℕ)) (fsec lsec code : ℕ) (w w' : World) (pt : Ptable)
      (add : Device → Option (List ℕ) → ℕ → ℕ → ℕ → Io (Unit {0})) (pty : String)
      → get_ptype d ≡ some pty
      → find_ptable pts pty ≡ some pt
      → pt.add ≡ some add
      → add_partition os pts rescan blkrrpart d name fsec lsec code w ≡ (ok tt, w')
      → IsRange d fsec lsec
        × ((add d name fsec lsec code w).0 ≡ ok tt)
        × (rescan (add d name fsec lsec code w).1 ≡ (ok tt, w'))
  unfolding add_partition
  add_partition_run d name fsec lsec code w w' pt add pty h1 h2 h3 e = ground (arith, h1, h2, h3)

-- A success of `add_partition` on a raw disk with a GPT of the standard size has been asked for a range
-- in order within the usable sectors. It has made the partition as `add_gpt` does, in the first free
-- entry, in both copies and in the kernel, and then scanned the device anew.
pub add_partition-IsAdded :
    (os : Os) (rescan blkrrpart : Io (Unit {0})) (d : Device) (name : List ℕ) (fsec lsec code : ℕ)
    (w w' : World)
    → d.layout ≡ Layout.layout_none
    → d.pttable ≡ some "gpt"
    → os.page_size ≡ 4096
    → IsLarge (d.size / 512)
    → IsStandard os w.disk
    → add_partition os (ptables os rescan) rescan blkrrpart d (some name) fsec lsec code w
      ≡ (ok tt, w')
    → IsRange d fsec lsec
      × ((v : World) × (rescan v ≡ (ok tt, w'))
          × ((tguid : List ℕ) × (get_gpt_guid ptypes (code % u32_mod) ≡ some tguid)
              × IsAdded os d tguid (align fsec (d.physsec / d.logsec)) lsec w v))
add_partition-IsAdded os rescan blkrrpart d name fsec lsec code w w' raw gpt pages large std e =
    let (range, ran, scanned) =
      add_partition_run os (ptables os rescan) rescan blkrrpart d (some name) fsec lsec code w w' _
        (add_gpt os) "gpt" (gpt_type d raw gpt) (find_gpt os rescan) refl e in
    let v = (add_gpt os d (some name) fsec lsec code w).1 in
    let (tguid, known, aligned, added) =
      add_gpt-IsAdded os d name fsec lsec code w v pages large std (pair_of ran) in
    (range, (v, scanned, (tguid, known, added)))

-- None of the devices is mounted.
abbrev pub AllIdle : List Device → Type 0
AllIdle [] = Unit
AllIdle (p ∷ ps) = (p.mnt ≡ []) × AllIdle ps

is_mounted_idle : (d : Device) → is_mounted d ≡ false → d.mnt ≡ []
is_mounted_idle d h = by_mounts d.mnt refl
  where
    by_mounts : (ms : List Text) → d.mnt ≡ ms → d.mnt ≡ []
    by_mounts [] e = e
    by_mounts (m ∷ ms) e = absurd (ground (arith, e, h))

any_mounted_idle : (ps : List Device) → any_mounted ps ≡ false → AllIdle ps
any_mounted_idle [] h = tt
any_mounted_idle (p ∷ ps) h =
    (is_mounted_idle p (ground (arith, h)), any_mounted_idle ps (ground (arith, h)))

wipe_ptable_run :
    (os : Os) (rescan blkrrpart : Io (Unit {0})) (d : Device) (parts : List Device) (w w' : World)
    → d.pttable ≡ some "gpt"
    → wipe_ptable os (ptables os rescan) rescan blkrrpart d parts none w ≡ (ok tt, w')
    → (is_mounted d ≡ false)
      × (any_mounted parts ≡ false)
      × ((zap_gpt os d w).0 ≡ ok tt)
      × (blkrrpart (zap_gpt os d w).1 ≡ (ok tt, w'))
unfolding wipe_ptable find_ptable ptables
wipe_ptable_run os rescan blkrrpart d parts w w' gpt e = ground (arith, gpt, e)

-- Where pages have 4096 bytes, a success of `wipe_ptable`, asked for no type in particular, on a disk
-- with a GPT and room for both tables means that neither the disk
-- nor one of its partitions was mounted. It has zeroed the 72 bytes of the MBR, the 34 sectors of the
-- table and the last 34 sectors, changed no other byte, and then had the disk read anew.
pub wipe_ptable-zap_gpt :
    (os : Os) (rescan blkrrpart : Io (Unit {0})) (d : Device) (parts : List Device) (w w' : World)
    → d.pttable ≡ some "gpt"
    → os.page_size ≡ 4096
    → IsRoomy (d.size / 512)
    → wipe_ptable os (ptables os rescan) rescan blkrrpart d parts none w ≡ (ok tt, w')
    → AllIdle (d ∷ parts)
      × ((v : World) × (blkrrpart v ≡ (ok tt, w'))
          × Zeroed mbr_offset mbr_size v.disk
          × Zeroed 512 (34 * 512) v.disk
          × Zeroed (copy_at 34 (d.size / 512)) (34 * 512) v.disk
          × ((x : ℕ)
              → Outside mbr_offset (mbr_size + 34 * 512) x
              → Outside (copy_at 34 (d.size / 512)) (34 * 512) x
              → v.disk x ≡ w.disk x))
wipe_ptable-zap_gpt os rescan blkrrpart d parts w w' gpt pages roomy e =
    let (own, others, ran, read) = wipe_ptable_run os rescan blkrrpart d parts w w' gpt e in
    let v = (zap_gpt os d w).1 in
    let (boot, table, copy, kept) = zap_gpt_zeroes os d w v pages roomy (pair_of ran) in
    ((is_mounted_idle d own, any_mounted_idle parts others), (v, read, boot, table, copy, kept))

-- A function that a table lacks is called all the same: on a raw disk without a table and without a
-- file system, `make_partition_table` with the name "mdp" faults.
pub make_partition_table-abort :
    (os : Os) (rescan blkrrpart : Io (Unit {0})) (d : Device) (w : World)
    → IsBlank d
    → make_partition_table os (ptables os rescan) rescan blkrrpart d "mdp" w ≡ (abort, w)
unfolding make_partition_table find_ptable ptables
make_partition_table-abort os rescan blkrrpart d w blank =
    ground (arith, blank.raw, blank.no_table, blank.no_filesystem)

-- On a raw disk with an Apple partition map, `add_partition` faults for every range in order within
-- the usable sectors.
pub add_partition-abort :
    (os : Os) (rescan blkrrpart : Io (Unit {0})) (d : Device) (name : Option (List ℕ))
    (fsec lsec code : ℕ) (w : World)
    → d.layout ≡ Layout.layout_none
    → d.pttable ≡ some "apm"
    → IsRange d fsec lsec
    → add_partition os (ptables os rescan) rescan blkrrpart d name fsec lsec code w ≡ (abort, w)
unfolding add_partition find_ptable ptables get_ptype
add_partition-abort os rescan blkrrpart d name fsec lsec code w raw apm range = ground arith
