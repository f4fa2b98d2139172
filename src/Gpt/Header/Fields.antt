-- ===== src/Gpt/Header/Fields.antt =====
-- What `initialize_gpt` leaves in the header.
use growlight.Prelude.{
  ℕ, ◌+◌, ◌-◌, ◌%◌, ◌^◌, ◌≤◌, ◌<◌, ◌≡◌, ◌∙◌, inl, inr, arith, sub64, List, length, Option, some,
  none, get_or, ◌⊎◌,
}
use growlight.Memory.{Bytes, blit, put_list, get_le}
use growlight.Memory.Laws.{
  get_le-put_le, get_le-put_le_out, get_le-blit_out, get_le-ext, low_bytes_eight, low_bytes_four,
  Outside, blit_out, blit_in, put_le_out, fill_in, fill_out,
}
use growlight.Io.{Os, World, ok, fail}
use growlight.Gpt.Header.{
  at_revision, at_headsize, at_crc, at_partcrc, at_lba, at_backuplba, at_first_usable,
  at_last_usable, at_disk_guid, at_partlba, at_partcount, at_partsize, guid_size, header_size,
  gpt_signature, header_front, header_back, initialize_gpt,
}

-- A primary header at `gh`, in a sector of `lbasize` bytes.
pub record IsPrimary (os : Os) (gh lbasize backuplba firstusable : ℕ) (m : Bytes) : Type 0 where
  pub signature : (i : ℕ) → i < 8 → m (gh + i) ≡ get_or gpt_signature i 0
  pub revision : get_le 4 (gh + at_revision) m ≡ os.cpu_to_le32 0x10000 % 2 ^ 32
  pub headsize : get_le 4 (gh + at_headsize) m ≡ os.cpu_to_le32 header_size % 2 ^ 32
  pub lba : get_le 8 (gh + at_lba) m ≡ 1
  pub backup : get_le 8 (gh + at_backuplba) m ≡ backuplba
  pub first : get_le 8 (gh + at_first_usable) m ≡ firstusable
  pub last : get_le 8 (gh + at_last_usable) m ≡ sub64 backuplba (firstusable - 1)
  pub entries : get_le 8 (gh + at_partlba) m ≡ 2
  pub count : get_le 4 (gh + at_partcount) m ≡ 128
  pub entry : get_le 4 (gh + at_partsize) m ≡ 128
  pub padding : (x : ℕ) → gh + header_size ≤ x → x < gh + lbasize → m x ≡ 0

module _ (os : Os) (gh lbasize backuplba firstusable : ℕ) (src : Bytes) (m : Bytes) where
  -- The stores in order, whatever bytes make the disk GUID.
  image : Bytes
  image =
      header_back os gh (
        blit (gh + at_disk_guid) src guid_size (header_front os gh lbasize backuplba firstusable m))

  image-revision : get_le 4 (gh + at_revision) image ≡ os.cpu_to_le32 0x10000 % 2 ^ 32
  unfolding image header_front header_back
  image-revision = grind (arith, get_le-put_le, get_le-put_le_out, get_le-blit_out, low_bytes_four)

  image-headsize : get_le 4 (gh + at_headsize) image ≡ os.cpu_to_le32 header_size % 2 ^ 32
  unfolding image header_front header_back
  image-headsize = grind (arith, get_le-put_le, get_le-put_le_out, get_le-blit_out, low_bytes_four)

  image-lba : get_le 8 (gh + at_lba) image ≡ 1
  unfolding image header_front header_back
  image-lba = grind (arith, get_le-put_le, get_le-put_le_out, get_le-blit_out)

  image-partlba : get_le 8 (gh + at_partlba) image ≡ 2
  unfolding image header_front header_back
  image-partlba = grind (arith, get_le-put_le, get_le-put_le_out, get_le-blit_out)

  image-partcount : get_le 4 (gh + at_partcount) image ≡ 128
  unfolding image header_back
  image-partcount = grind (arith, get_le-put_le, get_le-put_le_out)

  image-partsize : get_le 4 (gh + at_partsize) image ≡ 128
  unfolding image header_back
  image-partsize = grind (arith, get_le-put_le, get_le-put_le_out)

  image-backuplba : backuplba < 2 ^ 64 → get_le 8 (gh + at_backuplba) image ≡ backuplba
  unfolding image header_front header_back
  image-backuplba h =
      grind (arith, get_le-put_le, get_le-put_le_out, get_le-blit_out, low_bytes_eight)

  image-first_usable : firstusable < 2 ^ 64 → get_le 8 (gh + at_first_usable) image ≡ firstusable
  unfolding image header_front header_back
  image-first_usable h =
      grind (arith, get_le-put_le, get_le-put_le_out, get_le-blit_out, low_bytes_eight)

  image-last_usable : get_le 8 (gh + at_last_usable) image ≡ sub64 backuplba (firstusable - 1)
  unfolding image header_front header_back
  image-last_usable =
      grind (arith, get_le-put_le, get_le-put_le_out, get_le-blit_out, low_bytes_eight)

  image_padding : (x : ℕ) → gh + header_size ≤ x → x < gh + lbasize → image x ≡ 0
  unfolding image header_front header_back put_list
  image_padding x h k = grind (arith, put_le_out, blit_out, fill_in)

  image-Outside : (x : ℕ) → header_size ≤ lbasize → Outside gh lbasize x → image x ≡ m x
  unfolding image header_front header_back put_list
  image-Outside x h k = grind (arith, put_le_out, blit_out, fill_out)

  image_signature : (i : ℕ) → i < 8 → image (gh + i) ≡ get_or gpt_signature i 0
  unfolding image header_front header_back put_list
  image_signature i h = grind (arith, put_le_out, blit_out, blit_in)

  image-IsPrimary :
      backuplba < 2 ^ 64
      → firstusable < 2 ^ 64
      → IsPrimary os gh lbasize backuplba firstusable image
  image-IsPrimary hb hf = record {
    signature = image_signature;
    revision = image-revision;
    headsize = image-headsize;
    lba = image-lba;
    backup = image-backuplba hb;
    first = image-first_usable hf;
    last = image-last_usable;
    entries = image-partlba;
    count = image-partcount;
    entry = image-partsize;
    padding = image_padding;
  }

-- A header that agrees outside its checksums is as good.
pub IsPrimary-ext :
    (os : Os) (gh lbasize backuplba firstusable : ℕ) (m m' : Bytes)
    → header_size ≤ lbasize
    → ((x : ℕ)
        → gh ≤ x
        → x < gh + lbasize
        → Outside (gh + at_crc) 4 x
        → Outside (gh + at_partcrc) 4 x
        → m' x ≡ m x)
    → IsPrimary os gh lbasize backuplba firstusable m
    → IsPrimary os gh lbasize backuplba firstusable m'
IsPrimary-ext os gh lbasize backuplba firstusable m m' wide same h = record {
  signature = λ i p.
      same (gh + i) (omega arith) (omega arith) (inl (omega arith)) (inl (omega arith))
      ∙ h.signature i p;
  revision = front 4 at_revision (omega arith) ∙ h.revision;
  headsize = front 4 at_headsize (omega arith) ∙ h.headsize;
  lba = middle 8 at_lba (omega arith) ∙ h.lba;
  backup = middle 8 at_backuplba (omega arith) ∙ h.backup;
  first = middle 8 at_first_usable (omega arith) ∙ h.first;
  last = middle 8 at_last_usable (omega arith) ∙ h.last;
  entries = middle 8 at_partlba (omega arith) ∙ h.entries;
  count = middle 4 at_partcount (omega arith) ∙ h.count;
  entry = middle 4 at_partsize (omega arith) ∙ h.entry;
  padding =
      λ x p q. same x (omega arith) q (inr (omega arith)) (inr (omega arith)) ∙ h.padding x p q;
}
  where
    front : (k o : ℕ) → o + k ≤ at_crc → get_le k (gh + o) m' ≡ get_le k (gh + o) m
    front k o p =
        get_le-ext k (gh + o) m' m
          λ x q r. same x (omega arith) (omega arith) (inl (omega arith)) (inl (omega arith))

    middle :
        (k o : ℕ)
        → (at_crc + 4 ≤ o) × (o + k ≤ at_partcrc)
        → get_le k (gh + o) m' ≡ get_le k (gh + o) m
    middle k o p =
        get_le-ext k (gh + o) m' m
          λ x q r. same x (omega arith) (omega arith) (inr (omega arith)) (inl (omega arith))

-- A GUID that is given has sixteen bytes.
abbrev pub FitsGuid : Option (List ℕ) → Type 0
FitsGuid none = Unit
FitsGuid (some uuid) = length uuid ≡ guid_size

-- The arguments that the function refuses.
abbrev pub IsIllegal : (lbasize backuplba firstusable : ℕ) → Type 0
IsIllegal lbasize backuplba firstusable =
    (firstusable ≡ 0) ⊎ (backuplba < 2) ⊎ (lbasize < header_size)

-- The device after a success is an `image`.
initialize_gpt-image :
    (os : Os) (gh lbasize backuplba firstusable : ℕ) (uuid : Option (List ℕ)) (w w' : World)
    → FitsGuid uuid
    → initialize_gpt os gh lbasize backuplba firstusable uuid w ≡ (ok tt, w')
    → (src : Bytes) × (w'.disk ≡ image os gh lbasize backuplba firstusable src w.disk)
      × (header_size ≤ lbasize)
unfolding initialize_gpt image put_list
initialize_gpt-image os gh lbasize backuplba firstusable none w w' fits h =
    (os.random w.calls, ground arith, ground arith)
initialize_gpt-image os gh lbasize backuplba firstusable (some uuid) w w' fits h =
    (λ i. get_or uuid i 0, ground arith, ground arith)

-- When `initialize_gpt` succeeds, given a GUID of sixteen bytes or none, the sector at `gh` is a
-- primary header with the fields that the arguments ask for, and no other byte has changed.
pub initialize_gpt-IsPrimary :
    (os : Os) (gh lbasize backuplba firstusable : ℕ) (uuid : Option (List ℕ)) (w w' : World)
    → backuplba < 2 ^ 64
    → firstusable < 2 ^ 64
    → FitsGuid uuid
    → initialize_gpt os gh lbasize backuplba firstusable uuid w ≡ (ok tt, w')
    → IsPrimary os gh lbasize backuplba firstusable w'.disk
      × ((x : ℕ) → Outside gh lbasize x → w'.disk x ≡ w.disk x)
initialize_gpt-IsPrimary os gh lbasize backuplba firstusable uuid w w' hb hf fits h =
    let (src, e, wide) =
      initialize_gpt-image os gh lbasize backuplba firstusable uuid w w' fits h in
    rw e (
      image-IsPrimary os gh lbasize backuplba firstusable src w.disk hb hf,
      λ x. image-Outside os gh lbasize backuplba firstusable src w.disk x wide,
    )

-- `initialize_gpt` refuses arguments exactly by the three bounds on them: then it changes nothing,
-- and otherwise, with a GUID given, it succeeds.
pub initialize_gpt_total :
    (os : Os) (gh lbasize backuplba firstusable : ℕ) (uuid : List ℕ) (w : World)
    → (IsIllegal lbasize backuplba firstusable
        × (initialize_gpt os gh lbasize backuplba firstusable (some uuid) w ≡ (fail, w)))
      ⊎ ((¬ IsIllegal lbasize backuplba firstusable)
          × ((initialize_gpt os gh lbasize backuplba firstusable (some uuid) w).0 ≡ ok tt))
unfolding initialize_gpt
initialize_gpt_total os gh lbasize backuplba firstusable uuid w = ground arith
