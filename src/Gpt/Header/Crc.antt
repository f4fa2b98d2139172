-- ===== src/Gpt/Header/Crc.antt =====
-- What `update_crc` leaves in the header, and what it refuses.
use growlight.Prelude.{
  ℕ, ◌+◌, ◌*◌, ◌%◌, ◌^◌, ◌≤◌, ◌<◌, ◌≡◌, ◌∙◌, ap, sym, inl, inr, ◌⊎◌, arith, u32_mod, ◌≢◌,
}
use growlight.Memory.{Bytes, put_le, get_le}
use growlight.Memory.Laws.{
  get_le-put_le, get_le-put_le_out, low_bytes_four, Apart, Outside, put_le_out, put_le_twice,
  get_le-ext, put_le-ext,
}
use growlight.Io.{Os, World, ok, fail}
use growlight.Gpt.Header.{
  at_headsize, at_crc, at_partcount, at_partsize, at_partcrc, header_size, store_crcs, update_crc,
  minimum_gpt_entries,
}

-- The length of the table that a header describes, as the source multiplies it.
abbrev pub table_bytes : ℕ → Bytes → ℕ
table_bytes head m = (get_le 4 (head + at_partcount) m * get_le 4 (head + at_partsize) m) % u32_mod

abbrev pub summed_bytes : Os → ℕ → Bytes → ℕ
summed_bytes os head m = os.cpu_to_le32 (get_le 4 (head + at_headsize) m)

-- Both checksums are those of the bytes that stand there; the header's own is taken with a zero in
-- its place.
pub record IsSealed (os : Os) (head gpes : ℕ) (m : Bytes) : Type 0 where
  pub entries :
      get_le 4 (head + at_partcrc) m
      ≡ os.cpu_to_le32 (os.crc32 m gpes (table_bytes head m)) % 2 ^ 32
  pub header :
      get_le 4 (head + at_crc) m
      ≡ os.cpu_to_le32 (os.crc32 (put_le 4 (head + at_crc) 0 m) head (summed_bytes os head m))
        % 2 ^ 32

-- The bytes of the two checksums.
abbrev pub OutsideCrcs : ℕ → ℕ → Type 0
OutsideCrcs head x = Outside (head + at_crc) 4 x × Outside (head + at_partcrc) 4 x

module _ (os : Os) (head gpes : ℕ) (m : Bytes) where
  abbrev pub sealed : Bytes
  sealed = store_crcs os head gpes (summed_bytes os head m) m

  pub store_crcs_outside : (x : ℕ) → OutsideCrcs head x → sealed x ≡ m x
  unfolding store_crcs
  store_crcs_outside x (h, k) = grind (arith, put_le_out)

  pub store_crcs-table_bytes : table_bytes head sealed ≡ table_bytes head m
  unfolding store_crcs
  store_crcs-table_bytes = grind (arith, get_le-put_le_out)

  pub store_crcs-summed_bytes : summed_bytes os head sealed ≡ summed_bytes os head m
  unfolding store_crcs
  store_crcs-summed_bytes = grind (arith, get_le-put_le_out)

  stored_entries :
      get_le 4 (head + at_partcrc) sealed
      ≡ os.cpu_to_le32 (os.crc32 m gpes (table_bytes head m)) % 2 ^ 32
  unfolding store_crcs
  stored_entries = grind (arith, get_le-put_le, get_le-put_le_out, low_bytes_four)

  -- The bytes that the second sum is taken over.
  summed : Bytes
  summed =
      put_le 4 (head + at_crc) 0
        (put_le 4 (head + at_partcrc) (os.cpu_to_le32 (os.crc32 m gpes (table_bytes head m))) m)

  stored_header :
      get_le 4 (head + at_crc) sealed
      ≡ os.cpu_to_le32 (os.crc32 summed head (summed_bytes os head m)) % 2 ^ 32
  unfolding store_crcs summed
  stored_header = grind (arith, get_le-put_le, low_bytes_four)

  sealed_zeroed : (x : ℕ) → put_le 4 (head + at_crc) 0 sealed x ≡ summed x
  unfolding store_crcs summed
  sealed_zeroed x = put_le_twice 4 (head + at_crc) 0 _ _ x ∙ put_le_twice 4 (head + at_crc) 0 0 _ x

  store_crcs_entries :
      Apart head header_size gpes (table_bytes head m)
      → get_le 4 (head + at_partcrc) sealed
        ≡ os.cpu_to_le32 (os.crc32 sealed gpes (table_bytes head sealed)) % 2 ^ 32
  store_crcs_entries apart =
      stored_entries
      ∙ ap (λ c. os.cpu_to_le32 c % 2 ^ 32)
          (same ∙ ap (os.crc32 sealed gpes) (sym store_crcs-table_bytes))
    where
      same : os.crc32 m gpes (table_bytes head m) ≡ os.crc32 sealed gpes (table_bytes head m)
      same =
          os.crc32_local m sealed gpes (table_bytes head m)
            (λ x p q. sym (store_crcs_outside x (ground arith)))

  store_crcs_header :
      get_le 4 (head + at_crc) sealed
      ≡ os.cpu_to_le32
          (os.crc32 (put_le 4 (head + at_crc) 0 sealed) head (summed_bytes os head sealed))
        % 2 ^ 32
  store_crcs_header =
      stored_header
      ∙ ap (λ c. os.cpu_to_le32 c % 2 ^ 32)
          (same ∙ ap (os.crc32 zeroed head) (sym store_crcs-summed_bytes))
    where
      zeroed : Bytes
      zeroed = put_le 4 (head + at_crc) 0 sealed

      same :
          os.crc32 summed head (summed_bytes os head m)
          ≡ os.crc32 zeroed head (summed_bytes os head m)
      same =
          os.crc32_local summed zeroed head (summed_bytes os head m)
            (λ x p q. sym (sealed_zeroed x))

  pub store_crcs-IsSealed :
      Apart head header_size gpes (table_bytes head m) → IsSealed os head gpes sealed
  store_crcs-IsSealed apart = record {
    entries = store_crcs_entries apart;
    header = store_crcs_header;
  }

-- The checksums still hold on a device that agrees on the bytes that they are taken over.
pub IsSealed-ext :
    (os : Os) (head gpes : ℕ) (m m' : Bytes)
    → ((x : ℕ) → head ≤ x → x < head + header_size → m' x ≡ m x)
    → ((x : ℕ) → head ≤ x → x < head + summed_bytes os head m → m' x ≡ m x)
    → ((x : ℕ) → gpes ≤ x → x < gpes + table_bytes head m → m' x ≡ m x)
    → IsSealed os head gpes m
    → IsSealed os head gpes m'
IsSealed-ext os head gpes m m' fields front table h = record {
  entries =
      field at_partcrc (omega arith)
      ∙ (h.entries
          ∙ ap (λ c. os.cpu_to_le32 c % 2 ^ 32)
              (os.crc32_local m m' gpes (table_bytes head m) (λ x p q. sym (table x p q))
                ∙ ap (os.crc32 m' gpes) (sym same_table)));
  header =
      field at_crc (omega arith)
      ∙ (h.header
          ∙ ap (λ c. os.cpu_to_le32 c % 2 ^ 32)
              (os.crc32_local _ _ head (summed_bytes os head m)
                  (λ x p q. zeroed x (sym (front x p q)))
                ∙ ap (os.crc32 (put_le 4 (head + at_crc) 0 m') head) (sym same_front)));
}
  where
    field : (o : ℕ) → o + 4 ≤ header_size → get_le 4 (head + o) m' ≡ get_le 4 (head + o) m
    field o h = get_le-ext 4 (head + o) m' m λ x p q. fields x (omega arith) (omega arith)

    same_table : table_bytes head m' ≡ table_bytes head m
    same_table = cc (field at_partcount (omega arith), field at_partsize (omega arith))

    same_front : summed_bytes os head m' ≡ summed_bytes os head m
    same_front = ap os.cpu_to_le32 (field at_headsize (omega arith))

    zeroed : (x : ℕ) → m x ≡ m' x → put_le 4 (head + at_crc) 0 m x ≡ put_le 4 (head + at_crc) 0 m' x
    zeroed x e = put_le-ext 4 (head + at_crc) 0 m m' x e

-- The headers that are refused: an entry size that is not a positive multiple of 128, or fewer than
-- 128 entries.
abbrev pub IsRefused : ℕ → Bytes → Type 0
IsRefused head m =
    (get_le 4 (head + at_partsize) m ≡ 0)
    ⊎ (get_le 4 (head + at_partsize) m % minimum_gpt_entries ≢ 0)
    ⊎ (get_le 4 (head + at_partcount) m < minimum_gpt_entries)

-- Whether `update_crc` may go on: both ranges that it reads end within the mapping.
abbrev pub FitsMap : Os → (lim head gpes : ℕ) → Bytes → Type 0
FitsMap os lim head gpes m =
    (gpes + table_bytes head m ≤ lim) × (head + summed_bytes os head m ≤ lim)

-- The run of `update_crc`, on each of its two ways.
pub update_crc_run :
    (os : Os) (lim head gpes : ℕ) (w : World)
    → FitsMap os lim head gpes w.disk
    → (IsRefused head w.disk × (update_crc os lim head gpes w ≡ (fail, w)))
      ⊎ ((¬ IsRefused head w.disk)
          × (update_crc os lim head gpes w
              ≡ (ok tt, record w { disk = sealed os head gpes w.disk })))
unfolding update_crc
update_crc_run os lim head gpes w fits = ground arith

-- `update_crc` refuses a header exactly by its entry size and count, and then changes nothing.
-- Otherwise, where the header and the table that it describes lie in the mapping and apart, it
-- succeeds, both checksums are right, and no other byte has changed.
pub update_crc-IsSealed :
    (os : Os) (lim head gpes : ℕ) (w : World)
    → Apart head header_size gpes (table_bytes head w.disk)
    → FitsMap os lim head gpes w.disk
    → let (r, w') = update_crc os lim head gpes w in
      (IsRefused head w.disk × (r ≡ fail) × (w' ≡ w))
      ⊎ ((¬ IsRefused head w.disk)
          × (r ≡ ok tt)
          × IsSealed os head gpes w'.disk
          × ((x : ℕ) → OutsideCrcs head x → w'.disk x ≡ w.disk x))
update_crc-IsSealed os lim head gpes w apart fits = elim (update_crc_run os lim head gpes w fits) [
  | inl (bad, e) ↦ inl (bad, rw e, rw e)
  | inr (good, e) ↦ inr (
    good,
    rw e,
    rw e (store_crcs-IsSealed os head gpes w.disk apart),
    rw e (store_crcs_outside os head gpes w.disk),
  )
]

-- However `update_crc` ends, it has changed no byte but those of the two checksums.
pub update_crc_outside :
    (os : Os) (lim head gpes : ℕ) (w : World) (x : ℕ)
    → OutsideCrcs head x
    → (update_crc os lim head gpes w).1.disk x ≡ w.disk x
unfolding update_crc
update_crc_outside os lim head gpes w x out =
    ground (arith, store_crcs_outside os head gpes w.disk x out)

-- What a success of `update_crc` says of its arguments, and does.
pub update_crc-ok :
    (os : Os) (lim head gpes : ℕ) (w : World)
    → (update_crc os lim head gpes w).0 ≡ ok tt
    → FitsMap os lim head gpes w.disk
      × (¬ IsRefused head w.disk)
      × (update_crc os lim head gpes w ≡ (ok tt, record w { disk = sealed os head gpes w.disk }))
unfolding update_crc
update_crc-ok os lim head gpes w e = ground arith
