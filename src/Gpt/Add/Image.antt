-- ===== src/Gpt/Add/Image.antt =====
-- The bytes that `add_gpt` gives a new entry.
use growlight.Prelude.{ℕ, ◌+◌, ◌%◌, ◌^◌, ◌≤◌, ◌<◌, ◌≡◌, ◌∙◌, List, length, arith, get_or}
use growlight.Memory.{Bytes, put_le, get_le, put_list, blit}
use growlight.Memory.Laws.{
  Kept, get_le-ext, get_le-put_le, get_le-put_le_out, low_bytes_eight, put_le_out, blit_out,
  put_list_in, put_list_out,
}
use growlight.Io.{Os}
use growlight.Gpt.Header.{
  at_part_guid, at_first_lba, at_last_lba, at_flags, at_name, name_size, guid_size, entry_size,
}
use growlight.Gpt.Edit.{entry_at}

-- The bytes of a new entry: `n` is the number of the system call that draws its GUID.
unfoldable pub entry_image :
    Os → (n z : ℕ) → (name tguid : List ℕ) → (fsec lsec : ℕ) → Bytes → Bytes
entry_image os n z name tguid fsec lsec m =
    let gpe = entry_at z in
    let m1 = put_list (gpe + at_name) (os.utf16 name name_size) (put_list gpe tguid m) in
    let m2 = put_le 8 (gpe + at_flags) 0 (blit (gpe + at_part_guid) (os.random n) guid_size m1) in
    put_le 8 (gpe + at_last_lba) lsec (put_le 8 (gpe + at_first_lba) fsec m2)

-- What an entry holds after `add_gpt`.
pub record IsPartition (z : ℕ) (tguid : List ℕ) (fsec lsec : ℕ) (m : Bytes) : Type 0 where
  pub type : (i : ℕ) → i < 16 → m (entry_at z + i) ≡ get_or tguid i 0
  pub first : get_le 8 (entry_at z + at_first_lba) m ≡ fsec % 2 ^ 64
  pub last : get_le 8 (entry_at z + at_last_lba) m ≡ lsec % 2 ^ 64
  pub flags : get_le 8 (entry_at z + at_flags) m ≡ 0

module _ (os : Os) (n z : ℕ) (name tguid : List ℕ) (fsec lsec : ℕ) (m : Bytes)
    (sixteen : length tguid ≡ 16) where
  abbrev pub img : Bytes
  img = entry_image os n z name tguid fsec lsec m

  pub img-Kept : Kept (entry_at z) entry_size m img
  unfolding entry_image
  img-Kept x o = grind (arith, put_le_out, blit_out, put_list_out, os.utf16_fits name name_size)

  pub img-IsPartition : IsPartition z tguid fsec lsec img
  unfolding entry_image
  img-IsPartition = record {
    type = λ i p.
        grind
          (arith, put_le_out, blit_out, put_list_out, put_list_in, os.utf16_fits name name_size);
    first = grind (arith, get_le-put_le, get_le-put_le_out, low_bytes_eight);
    last = grind (arith, get_le-put_le, get_le-put_le_out, low_bytes_eight);
    flags = grind (arith, get_le-put_le, get_le-put_le_out, low_bytes_eight);
  }

-- An entry that agrees on its bytes is as good.
pub IsPartition-ext :
    (z : ℕ) (tguid : List ℕ) (fsec lsec : ℕ) (m m' : Bytes)
    → ((x : ℕ) → entry_at z ≤ x → x < entry_at z + entry_size → m' x ≡ m x)
    → IsPartition z tguid fsec lsec m
    → IsPartition z tguid fsec lsec m'
IsPartition-ext z tguid fsec lsec m m' same h = record {
  type = λ i p. same (entry_at z + i) (omega arith) (omega arith) ∙ h.type i p;
  first = field at_first_lba (omega arith) ∙ h.first;
  last = field at_last_lba (omega arith) ∙ h.last;
  flags = field at_flags (omega arith) ∙ h.flags;
}
  where
    field : (o : ℕ) → o + 8 ≤ 128 → get_le 8 (entry_at z + o) m' ≡ get_le 8 (entry_at z + o) m
    field o h = get_le-ext 8 (entry_at z + o) m' m λ x p q. same x (omega arith) (omega arith)
