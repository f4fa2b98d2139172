-- ===== src/Gpt/Map/Commit.antt =====
-- What `unmap_gpt` leaves on the device after a change to the first copy of the table.
use growlight.Prelude.{ℕ, ◌+◌, ◌*◌, ◌/◌, ◌^◌, ◌≤◌, ◌<◌, ◌≡◌, inl, ◌∙◌, ap, true, arith}
use growlight.Memory.{Bytes, get_le}
use growlight.Memory.Laws.{Kept}
use growlight.Io.{Os, World, Outcome, ok}
use growlight.Io.Laws.{pair_of}
use growlight.Device.{Device}
use growlight.Gpt.Header.{at_partcount, at_partsize, update_crc}
use growlight.Gpt.Header.Crc.{
  IsSealed, IsSealed-ext, sealed, store_crcs-IsSealed, store_crcs_outside, store_crcs-summed_bytes,
  store_crcs-table_bytes, table_bytes, summed_bytes, update_crc-ok, OutsideCrcs,
}
use growlight.Gpt.Backup.{update_backup}
use growlight.Gpt.Backup.Copy.{IsMirror, IsMirror-self, copy_at, update_backup-IsMirror}
use growlight.Gpt.Map.{unmap_gpt}

-- A header of 92 bytes over 128 entries of 128 bytes, which is what `initialize_gpt` writes.
pub record IsStandard (os : Os) (m : Bytes) : Type 0 where
  pub front : summed_bytes os 512 m ≡ 92
  pub count : get_le 4 (512 + at_partcount) m ≡ 128
  pub size : get_le 4 (512 + at_partsize) m ≡ 128

module _ (os : Os) (d : Device) (mapsize : ℕ) (w : World) where
  abbrev resummed : Outcome (Unit {0}) × World
  resummed = update_crc os mapsize 512 1024 w

  abbrev rebacked : Outcome (Unit {0}) × World
  rebacked = update_backup os 512 33 (d.size / 512) 512 os.page_size true resummed.1

  unmap_parts :
      (w' : World)
      → unmap_gpt os d mapsize 512 w ≡ (ok tt, w')
      → (resummed.0 ≡ ok tt) × (rebacked.0 ≡ ok tt) × (w'.disk ≡ rebacked.1.disk)
  unfolding unmap_gpt
  unmap_parts w' e = ground arith

-- Both copies are whole: the checksums hold, and the last 33 of `lbas` sectors mirror the table.
pub record IsCommitted (os : Os) (lbas : ℕ) (m : Bytes) : Type 0 where
  pub sums : IsSealed os 512 1024 m
  pub copy : IsMirror 512 33 lbas m m

-- Sectors for the boot sector, a table of 33 sectors and its copy.
pub record IsLarge (lbas : ℕ) : Type 0 where
  pub both : 67 ≤ lbas
  pub small : lbas * 512 < 2 ^ 64

-- The two stores of `unmap_gpt`, by the devices d0 to d2 between them.
commit_of :
    (os : Os) (lbas : ℕ) (d0 d1 d2 : Bytes)
    → IsLarge lbas
    → IsStandard os d0
    → d1 ≡ sealed os 512 1024 d0
    → IsMirror 512 33 lbas d1 d2 × Kept (copy_at 33 lbas) (33 * 512) d1 d2
    → IsCommitted os lbas d2 × ((x : ℕ) → x < copy_at 33 lbas → OutsideCrcs 512 x → d2 x ≡ d0 x)
commit_of os lbas d0 d1 d2 large std e (mirror, kept) = (
  record {
    sums =
        IsSealed-ext os 512 1024 d1 d2 (λ x p q. before x (omega arith))
          (λ x p q. before x (omega (arith, front))) (λ x p q. before x (omega (arith, table)))
          (rw e (store_crcs-IsSealed os 512 1024 d0 (inl (omega arith))));
    copy = IsMirror-self 33 lbas d1 d2 (omega arith) (omega arith) mirror kept;
  },
  λ x p o. before x p ∙ rw e (store_crcs_outside os 512 1024 d0 x o),
)
  where
    before : (x : ℕ) → x < copy_at 33 lbas → d2 x ≡ d1 x
    before x p = kept x (inl p)

    front : summed_bytes os 512 d1 ≡ 92
    front = rw e (store_crcs-summed_bytes os 512 1024 d0 ∙ std.front)

    table : table_bytes 512 d1 ≡ 16384
    table = rw e (store_crcs-table_bytes os 512 1024 d0 ∙ rw (std.count, std.size))

-- A success of `unmap_gpt`, on a table of the standard size, has written both copies back; before the
-- copy only the checksums of the header differ from what the mapping held.
pub unmap_gpt-IsCommitted :
    (os : Os) (d : Device) (mapsize : ℕ) (w w' : World)
    → IsLarge (d.size / 512)
    → IsStandard os w.disk
    → unmap_gpt os d mapsize 512 w ≡ (ok tt, w')
    → IsCommitted os (d.size / 512) w'.disk
      × ((x : ℕ) → x < copy_at 33 (d.size / 512) → OutsideCrcs 512 x → w'.disk x ≡ w.disk x)
unmap_gpt-IsCommitted os d mapsize w w' large std e =
    let (ran1, ran2, same) = unmap_parts os d mapsize w w' e in
    let (fits, good, run) = update_crc-ok os mapsize 512 1024 w ran1 in
    rw same (
      commit_of os (d.size / 512) w.disk (resummed os d mapsize w).1.disk
        (rebacked os d mapsize w).1.disk large std (ap (λ r. r.1.disk) run)
        (update_backup-IsMirror os 512 33 (d.size / 512) os.page_size (resummed os d mapsize w).1
          (rebacked os d mapsize w).1 (omega arith) (omega arith) (pair_of ran2)))
