-- ===== src/Gpt/Backup/Copy.antt =====
-- What `update_backup` writes: the entries and the header of the primary, turned round.
use growlight.Prelude.{
  ℕ, ◌+◌, ◌-◌, ◌*◌, ◌%◌, ◌^◌, ◌≤◌, ◌<◌, ◌≡◌, true, arith, inl, inr, sub64, ◌∙◌, ap, sym, subst,
}
use growlight.Memory.{Bytes, put_le, get_le}
use growlight.Memory.Laws.{
  Outside, Kept, Copied, blit_in, blit_out, put_le_out, get_le-put_le, get_le-put_le_out,
  get_le-ext, low_bytes_eight, get_le-blit_in, get_le-blit_out, get_le-shift,
}
use growlight.Io.{Os, World, ok}
use growlight.Gpt.Header.{at_crc, at_lba, at_backuplba, at_partlba, at_partcrc}
use growlight.Gpt.Header.Crc.{OutsideCrcs, update_crc_outside}
use growlight.Gpt.Backup.{abs_dev_off, backup_map_size, backup_image, update_backup}
use growlight.Gpt.Backup.Window.{IsDisk, abs_dev_off_lem}

-- Where the copy begins, and where its header stands.
abbrev pub copy_at : (gptlbas lbas : ℕ) → ℕ
copy_at gptlbas lbas = (lbas - gptlbas) * 512

abbrev pub copy_header_at : ℕ → ℕ
copy_header_at lbas = (lbas - 1) * 512

-- The bytes of a header that are the same in both copies.
abbrev pub IsShared : ℕ → Type 0
IsShared i =
    Outside at_crc 4 i × Outside at_lba 16 i × Outside at_partlba 8 i × Outside at_partcrc 4 i

-- The last store of `backup_image`.
put-partlba :
    (gh : ℕ) (m : Bytes) (k : ℕ)
    → let m' = put_le 8 (gh + at_partlba) (sub64 (get_le 8 (gh + at_lba) m) k) m in
      get_le 8 (gh + at_partlba) m' ≡ sub64 (get_le 8 (gh + at_lba) m') k
put-partlba gh m k = grind (arith, get_le-put_le, get_le-put_le_out, low_bytes_eight)

module _ (ghead gptlbas lbas : ℕ) (m : Bytes) (disk : IsDisk gptlbas lbas)
    (apart : ghead + gptlbas * 512 ≤ copy_at gptlbas lbas) where
  img : Bytes
  img = backup_image ghead (copy_at gptlbas lbas) gptlbas 512 m

  header_at : copy_at gptlbas lbas + 512 * (gptlbas - 1) ≡ copy_header_at lbas
  header_at = omega arith

  img-Kept : Kept (copy_at gptlbas lbas) (gptlbas * 512) m img
  unfolding img backup_image
  img-Kept x out = grind (arith, put_le_out, blit_out)

  img_entries : Copied (copy_at gptlbas lbas) (ghead + 512) ((gptlbas - 1) * 512) m img
  unfolding img backup_image
  img_entries i h = grind (arith, put_le_out, blit_out, blit_in)

  img_shared : (i : ℕ) → i < 512 → IsShared i → img (copy_header_at lbas + i) ≡ m (ghead + i)
  unfolding img backup_image
  img_shared i h s = grind (arith, put_le_out, blit_out, blit_in)

  img-backuplba : get_le 8 (copy_header_at lbas + at_backuplba) img ≡ 1
  unfolding img backup_image
  img-backuplba = grind (arith, get_le-put_le, get_le-put_le_out)

  -- the sector number that the copy is at
  img-lba : get_le 8 (copy_header_at lbas + at_lba) img ≡ get_le 8 (ghead + at_backuplba) m % 2 ^ 64
  unfolding img backup_image
  img-lba = grind (
    arith, get_le-put_le, get_le-put_le_out, low_bytes_eight, get_le-blit_in, get_le-shift,
    get_le-blit_out,
  )

  -- the sector number of the copy's entries
  img-partlba :
      get_le 8 (copy_header_at lbas + at_partlba) img
      ≡ sub64 (get_le 8 (copy_header_at lbas + at_lba) img) (gptlbas - 1)
  unfolding img backup_image
  img-partlba = rw (← header_at) (put-partlba _ _ (gptlbas - 1))

-- The copy of the table at `ghead` in `m`, as it stands in `m'`.
pub record IsMirror (ghead gptlbas lbas : ℕ) (m m' : Bytes) : Type 0 where
  pub entries : Copied (copy_at gptlbas lbas) (ghead + 512) ((gptlbas - 1) * 512) m m'
  pub shared : (i : ℕ) → i < 512 → IsShared i → m' (copy_header_at lbas + i) ≡ m (ghead + i)
  pub lba : get_le 8 (copy_header_at lbas + at_lba) m' ≡ get_le 8 (ghead + at_backuplba) m % 2 ^ 64
  pub back : get_le 8 (copy_header_at lbas + at_backuplba) m' ≡ 1
  pub partlba :
      get_le 8 (copy_header_at lbas + at_partlba) m'
      ≡ sub64 (get_le 8 (copy_header_at lbas + at_lba) m') (gptlbas - 1)

-- After a success the device differs from the image in the checksums at most.
update_backup_image :
    (os : Os) (ghead gptlbas lbas pgsize : ℕ) (w w' : World)
    → update_backup os ghead gptlbas lbas 512 pgsize true w ≡ (ok tt, w')
    → let dst = abs_dev_off gptlbas lbas 512 in
      (x : ℕ)
      → OutsideCrcs (dst + 512 * (gptlbas - 1)) x
      → w'.disk x ≡ backup_image ghead dst gptlbas 512 w.disk x
unfolding update_backup
update_backup_image os ghead gptlbas lbas pgsize w w' e x out = ground (
  arith,
  update_crc_outside os (dst - dst % pgsize + backup_map_size gptlbas 512 pgsize (dst % pgsize))
      (dst + 512 * (gptlbas - 1)) dst stored x out,
)
  where
    dst : ℕ
    dst = abs_dev_off gptlbas lbas 512

    stored : World
    stored = record w {
      calls = w.calls + 1;
      mapped = w.mapped + 1;
      disk = backup_image ghead dst gptlbas 512 w.disk;
    }

mirror_disk :
    (os : Os) (ghead gptlbas lbas pgsize : ℕ) (w w' : World) (disk : IsDisk gptlbas lbas)
    (apart : ghead + gptlbas * 512 ≤ copy_at gptlbas lbas)
    → update_backup os ghead gptlbas lbas 512 pgsize true w ≡ (ok tt, w')
    → (x : ℕ) → OutsideCrcs (copy_header_at lbas) x
    → w'.disk x ≡ img ghead gptlbas lbas w.disk disk apart x
unfolding img
mirror_disk os ghead gptlbas lbas pgsize w w' disk apart e x out =
    subst
      (λ d.
        (y : ℕ)
        → OutsideCrcs (d + 512 * (gptlbas - 1)) y
        → w'.disk y ≡ backup_image ghead d gptlbas 512 w.disk y)
      (abs_dev_off_lem gptlbas lbas disk) (update_backup_image os ghead gptlbas lbas pgsize w w' e)
      x (rw (header_at ghead gptlbas lbas w.disk disk apart) out)

-- When `update_backup` has copied a table of 512-byte sectors that lies before the place of its
-- copy, the end of the device mirrors it: the same entries, a header that differs in its checksums
-- and in the three sector numbers that it turns round, and no byte outside the copy has changed.
pub update_backup-IsMirror :
    (os : Os) (ghead gptlbas lbas pgsize : ℕ) (w w' : World)
    → IsDisk gptlbas lbas
    → ghead + gptlbas * 512 ≤ copy_at gptlbas lbas
    → update_backup os ghead gptlbas lbas 512 pgsize true w ≡ (ok tt, w')
    → IsMirror ghead gptlbas lbas w.disk w'.disk
      × Kept (copy_at gptlbas lbas) (gptlbas * 512) w.disk w'.disk
update_backup-IsMirror os ghead gptlbas lbas pgsize w w' disk apart e = (
  record {
    entries = λ i h. same _ (ground arith) ∙ img_entries ghead gptlbas lbas w.disk disk apart i h;
    shared = λ i h s. same _ (ground arith) ∙ img_shared ghead gptlbas lbas w.disk disk apart i h s;
    lba = loads at_lba (omega arith) ∙ img-lba ghead gptlbas lbas w.disk disk apart;
    back = loads at_backuplba (omega arith) ∙ img-backuplba ghead gptlbas lbas w.disk disk apart;
    partlba =
        loads at_partlba (omega arith)
        ∙ (img-partlba ghead gptlbas lbas w.disk disk apart
            ∙ ap (λ v. sub64 v (gptlbas - 1)) (sym (loads at_lba (omega arith))));
  },
  λ x o. same x (ground arith) ∙ img-Kept ghead gptlbas lbas w.disk disk apart x o,
)
  where
    image : Bytes
    image = img ghead gptlbas lbas w.disk disk apart

    same : (x : ℕ) → OutsideCrcs (copy_header_at lbas) x → w'.disk x ≡ image x
    same x o = mirror_disk os ghead gptlbas lbas pgsize w w' disk apart e x o

    -- the three sector numbers stand apart from the checksums
    loads :
        (o : ℕ)
        → (24 ≤ o) × (o + 8 ≤ 88)
        → get_le 8 (copy_header_at lbas + o) w'.disk ≡ get_le 8 (copy_header_at lbas + o) image
    loads o h =
        get_le-ext 8 (copy_header_at lbas + o) w'.disk image
          λ x p q. same x (inr (omega arith), inl (omega arith))

-- A mirror of a table that has stayed as it was.
pub IsMirror-self :
    (gptlbas lbas : ℕ) (m m' : Bytes)
    → 1 ≤ gptlbas
    → 512 + gptlbas * 512 ≤ copy_at gptlbas lbas
    → IsMirror 512 gptlbas lbas m m'
    → Kept (copy_at gptlbas lbas) (gptlbas * 512) m m'
    → IsMirror 512 gptlbas lbas m' m'
IsMirror-self gptlbas lbas m m' some_sectors apart h kept = record {
  entries = λ i p. h.entries i p ∙ sym (before (512 + 512 + i) (omega arith));
  shared = λ i p s. h.shared i p s ∙ sym (before (512 + i) (omega arith));
  lba =
      h.lba
      ∙ ap (λ v. v % 2 ^ 64)
          (get_le-ext 8 (512 + at_backuplba) m m' λ x p q. sym (before x (omega arith)));
  back = h.back;
  partlba = h.partlba;
}
  where
    before : (x : ℕ) → x < copy_at gptlbas lbas → m' x ≡ m x
    before x p = kept x (inl p)
