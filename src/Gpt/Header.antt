-- ===== src/Gpt/Header.antt =====
-- `gpt_header` and `gpt_entry` of src/gpt.h by their byte offsets, and `update_crc` and
-- `initialize_gpt` of src/gpt.c.
pub mod Fields
pub mod Crc
use growlight.Prelude.{
  ℕ, ◌+◌, ◌-◌, ◌*◌, ◌%◌, ◌||◌, not, Option, none, some, List, [], ◌∷◌, ltb, ◌==◌, u32_mod, sub64,
}
use growlight.Memory.{Bytes, fill, put_list, put_le, get_le}
use growlight.Io.{Os, Io, ◌>>=◌, ◌>>◌, fail_if, access, peek, poke, getrandom}

-- Offsets in `gpt_header`.
abbrev pub at_revision : ℕ
at_revision = 8

abbrev pub at_headsize : ℕ
at_headsize = 12

abbrev pub at_crc : ℕ
at_crc = 16

abbrev pub at_reserved : ℕ
at_reserved = 20

abbrev pub at_lba : ℕ
at_lba = 24

abbrev pub at_backuplba : ℕ
at_backuplba = 32

abbrev pub at_first_usable : ℕ
at_first_usable = 40

abbrev pub at_last_usable : ℕ
at_last_usable = 48

abbrev pub at_disk_guid : ℕ
at_disk_guid = 56

abbrev pub at_partlba : ℕ
at_partlba = 72

abbrev pub at_partcount : ℕ
at_partcount = 80

abbrev pub at_partsize : ℕ
at_partsize = 84

abbrev pub at_partcrc : ℕ
at_partcrc = 88

abbrev pub header_size : ℕ
header_size = 92

-- Offsets in `gpt_entry`; `type_guid` stands first.
abbrev pub at_part_guid : ℕ
at_part_guid = 16

abbrev pub at_first_lba : ℕ
at_first_lba = 32

abbrev pub at_last_lba : ℕ
at_last_lba = 40

abbrev pub at_flags : ℕ
at_flags = 48

abbrev pub at_name : ℕ
at_name = 56

abbrev pub name_size : ℕ
name_size = 72

abbrev pub entry_size : ℕ
entry_size = 128

abbrev pub guid_size : ℕ
guid_size = 16

abbrev pub minimum_gpt_entries : ℕ
minimum_gpt_entries = 128

-- "EFI PART"
abbrev pub gpt_signature : List ℕ
gpt_signature = 0x45 ∷ 0x46 ∷ 0x49 ∷ 0x20 ∷ 0x50 ∷ 0x41 ∷ 0x52 ∷ 0x54 ∷ []

module _ (os : Os) where
  -- The two checksums of the header at `head` over the entries at `gpes`. `hs` bytes of header
  -- are summed, with a zero in the place of the sum.
  unfoldable pub store_crcs : (head gpes hs : ℕ) → Bytes → Bytes
  store_crcs head gpes hs m =
      let len = (get_le 4 (head + at_partcount) m * get_le 4 (head + at_partsize) m) % u32_mod in
      let m1 = put_le 4 (head + at_partcrc) (os.cpu_to_le32 (os.crc32 m gpes len)) m in
      let m2 = put_le 4 (head + at_crc) 0 m1 in
      put_le 4 (head + at_crc) (os.cpu_to_le32 (os.crc32 m2 head hs)) m2

  -- `lim` is the end of the mapping that holds both.
  unfoldable pub update_crc : (lim head gpes : ℕ) → Io (Unit {0})
  update_crc lim head gpes = do
    m ← peek
    let hs = os.cpu_to_le32 (get_le 4 (head + at_headsize) m)
    let partsize = get_le 4 (head + at_partsize) m
    let partcount = get_le 4 (head + at_partcount) m
    fail_if (partsize == 0 || not (partsize % minimum_gpt_entries == 0))
    fail_if (ltb partcount minimum_gpt_entries)
    access lim gpes ((partcount * partsize) % u32_mod)
    access lim head hs
    poke (store_crcs head gpes hs)

  -- The stores of `initialize_gpt` before the disk GUID, and those behind it.
  unfoldable pub header_front : (gh lbasize backuplba firstusable : ℕ) → Bytes → Bytes
  header_front gh lbasize backuplba firstusable m =
      let m1 = put_list gh gpt_signature (fill gh 0 lbasize m) in
      let m2 = put_le 4 (gh + at_revision) (os.cpu_to_le32 0x10000) m1 in
      let m3 = put_le 4 (gh + at_headsize) (os.cpu_to_le32 header_size) m2 in
      let m4 = put_le 8 (gh + at_lba) 1 (put_le 4 (gh + at_reserved) 0 m3) in
      let m5 = put_le 8 (gh + at_backuplba) backuplba m4 in
      let m6 = put_le 8 (gh + at_first_usable) firstusable m5 in
      put_le 8 (gh + at_last_usable) (sub64 backuplba (firstusable - 1)) m6

  unfoldable pub header_back : ℕ → Bytes → Bytes
  header_back gh m =
      let m1 = put_le 8 (gh + at_partlba) (get_le 8 (gh + at_lba) m + 1) m in
      let m2 = put_le 4 (gh + at_partcount) minimum_gpt_entries m1 in
      put_le 4 (gh + at_partsize) entry_size m2

  -- A missing `uuid` is drawn at random.
  put_disk_guid : ℕ → Option (List ℕ) → Io (Unit {0})
  put_disk_guid gh none = getrandom os (gh + at_disk_guid) guid_size
  put_disk_guid gh (some uuid) = poke (put_list (gh + at_disk_guid) uuid)

  unfoldable pub initialize_gpt :
      (gh lbasize backuplba firstusable : ℕ) → Option (List ℕ) → Io (Unit {0})
  unfolding header_front header_back put_disk_guid
  initialize_gpt gh lbasize backuplba firstusable uuid = do
    fail_if (firstusable == 0)
    fail_if (ltb backuplba 2)
    fail_if (lbasize == 0 || ltb lbasize header_size)
    poke (header_front gh lbasize backuplba firstusable)
    put_disk_guid gh uuid
    poke (header_back gh)
