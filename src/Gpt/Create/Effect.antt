-- ===== src/Gpt/Create/Effect.antt =====
-- What `write_gpt` and `new_gpt` leave on a device of 512-byte sectors, under pages of 4096 bytes.
use growlight.Prelude.{
  ℕ, ◌+◌, ◌-◌, ◌*◌, ◌%◌, ◌^◌, ◌≤◌, ◌<◌, ◌≡◌, inl, inr, ◌∙◌, ap, subst, true, none, arith, sub64,
}
use growlight.Memory.{Bytes}
use growlight.Memory.Laws.{Outside, Kept}
use growlight.Io.{Os, World, Outcome, ok}
use growlight.Io.Laws.{pair_of}
use growlight.Gpt.Header.{update_crc, initialize_gpt}
use growlight.Gpt.Backup.{update_backup}
use growlight.Gpt.Header.Fields.{IsPrimary, IsPrimary-ext, initialize_gpt-IsPrimary}
use growlight.Gpt.Header.Crc.{
  IsSealed, IsSealed-ext, FitsMap, table_bytes, summed_bytes, update_crc-IsSealed, OutsideCrcs,
}
use growlight.Gpt.Backup.Window.{IsDisk}
use growlight.Gpt.Backup.Copy.{IsMirror, IsMirror-self, copy_at, update_backup-IsMirror}
use growlight.Gpt.Create.{write_gpt}

module _ (os : Os) (lbas : ℕ) (w : World) where
  abbrev mapped_world : World
  mapped_world = record w { calls = w.calls + 1; mapped = w.mapped + 1 }

  -- The three parts of `write_gpt`, each from the world that the one before leaves.
  abbrev initialized : Outcome (Unit {0}) × World
  initialized = initialize_gpt os 512 512 (sub64 lbas 1) 34 none mapped_world

  abbrev summed : Outcome (Unit {0}) × World
  summed = update_crc os 20480 512 1024 initialized.1

  abbrev synced : World
  synced = let s = summed.1 in record s { calls = s.calls + 1 }

  abbrev backed : Outcome (Unit {0}) × World
  backed = update_backup os 512 34 lbas 512 4096 true synced

  write_gpt_parts :
      (w' : World)
      → os.page_size ≡ 4096
      → write_gpt os 512 lbas true w ≡ (ok tt, w')
      → (initialized.0 ≡ ok tt)
        × (summed.0 ≡ ok tt)
        × (backed.0 ≡ ok tt)
        × (w'.disk ≡ backed.1.disk)
  unfolding write_gpt
  write_gpt_parts w' pages e = ground arith

-- A host whose 32-bit words are little-endian already.
abbrev pub IsLittleEndian : Os → Type 0
IsLittleEndian os = (x : ℕ) → x < 2 ^ 32 → os.cpu_to_le32 x ≡ x

-- A table of 34 sectors at sector 1, with its copy in the last 34 of `lbas` sectors.
pub record IsTable (os : Os) (lbas : ℕ) (m : Bytes) : Type 0 where
  pub primary : IsPrimary os 512 512 (lbas - 1) 34 m
  pub sums : IsSealed os 512 1024 m
  pub copy : IsMirror 512 34 lbas m m

-- Sectors for the boot sector, the table and its copy.
pub record IsRoomy (lbas : ℕ) : Type 0 where
  pub both : 69 ≤ lbas
  pub small : lbas * 512 < 2 ^ 64

pub IsRoomy-IsDisk : (lbas : ℕ) → IsRoomy lbas → IsDisk 34 lbas
IsRoomy-IsDisk lbas h = omega arith

-- The table that a success of `initialize_gpt` describes may be summed.
initialized-Fits :
    (os : Os) (lbas : ℕ) (m : Bytes)
    → IsLittleEndian os
    → IsPrimary os 512 512 (lbas - 1) 34 m
    → FitsMap os 20480 512 1024 m × (table_bytes 512 m ≡ 16384) × (summed_bytes os 512 m ≡ 92)
initialized-Fits os lbas m le p = (fits, sizes, front)
  where
    sizes : table_bytes 512 m ≡ 16384
    sizes = rw (p.count, p.entry)

    front : summed_bytes os 512 m ≡ 92
    front =
        ap os.cpu_to_le32 (p.headsize ∙ ap (λ x. x % 2 ^ 32) (le 92 (omega arith)))
        ∙ le 92 (omega arith)

    fits : FitsMap os 20480 512 1024 m
    fits = (omega (arith, sizes), omega (arith, front))

-- The three parts of `write_gpt`, by the devices d0 to d3 between them.
compose :
    (os : Os) (lbas : ℕ) (d0 d1 d2 d3 : Bytes)
    → IsRoomy lbas
    → IsPrimary os 512 512 (lbas - 1) 34 d1 × Kept 512 512 d0 d1
    → IsSealed os 512 1024 d2 × ((x : ℕ) → OutsideCrcs 512 x → d2 x ≡ d1 x)
    → (table_bytes 512 d2 ≡ 16384) × (summed_bytes os 512 d2 ≡ 92)
    → IsMirror 512 34 lbas d2 d3 × Kept (copy_at 34 lbas) (34 * 512) d2 d3
    → IsTable os lbas d3 × ((x : ℕ) → Outside 512 512 x → x < copy_at 34 lbas → d3 x ≡ d0 x)
compose os lbas d0 d1 d2 d3 roomy (prim, kept1) (sealed, kept2) (sizes, front) (mirror, kept3) = (
  record {
    primary =
        IsPrimary-ext os 512 512 (lbas - 1) 34 d1 d3 (omega arith)
          (λ x p q a b. before x (omega arith) ∙ kept2 x (a, b)) prim;
    sums =
        IsSealed-ext os 512 1024 d2 d3 (λ x p q. before x (omega arith))
          (λ x p q. before x (omega (arith, front))) (λ x p q. before x (omega (arith, sizes)))
          sealed;
    copy = IsMirror-self 34 lbas d2 d3 (omega arith) (omega arith) mirror kept3;
  },
  λ x o p. before x p ∙ (kept2 x (ground arith) ∙ kept1 x o),
)
  where
    before : (x : ℕ) → x < copy_at 34 lbas → d3 x ≡ d2 x
    before x p = kept3 x (inl p)

sums_of :
    (os : Os) (lbas : ℕ) (w : World)
    → IsLittleEndian os
    → IsPrimary os 512 512 (lbas - 1) 34 w.disk
    → (update_crc os 20480 512 1024 w).0 ≡ ok tt
    → let m = (update_crc os 20480 512 1024 w).1.disk in
      (IsSealed os 512 1024 m × ((x : ℕ) → OutsideCrcs 512 x → m x ≡ w.disk x))
      × ((table_bytes 512 m ≡ 16384) × (summed_bytes os 512 m ≡ 92))
sums_of os lbas w le prim ran =
    let (fits, sizes, front) = initialized-Fits os lbas w.disk le prim in
    elim (update_crc-IsSealed os 20480 512 1024 w (inl (omega arith)) fits) [
      | inl (bad, fails, same) ↦ absurd (cc)
      | inr (good, ran, sealed, kept) ↦ (
        (sealed, kept),
        after _ (
            IsPrimary-ext os 512 512 (lbas - 1) 34 w.disk _ (omega arith)
              (λ x p q a b. kept x (a, b)) prim),
      )
    ]
  where
    after :
        (m : Bytes)
        → IsPrimary os 512 512 (lbas - 1) 34 m
        → (table_bytes 512 m ≡ 16384) × (summed_bytes os 512 m ≡ 92)
    after m p = let (fits, sizes, front) = initialized-Fits os lbas m le p in (sizes, front)

module _ (os : Os) (lbas : ℕ) (w : World) where
  after_initialize :
      IsRoomy lbas
      → (initialized os lbas w).0 ≡ ok tt
      → IsPrimary os 512 512 (lbas - 1) 34 (initialized os lbas w).1.disk
        × Kept 512 512 w.disk (initialized os lbas w).1.disk
  after_initialize roomy ran =
      let (prim, kept) =
        initialize_gpt-IsPrimary os 512 512 (sub64 lbas 1) 34 none (mapped_world os lbas w)
          (initialized os lbas w).1 (omega arith) (omega arith) tt (pair_of ran) in
      (subst (λ b. IsPrimary os 512 512 b 34 (initialized os lbas w).1.disk) wrap prim, kept)
    where
      wrap : sub64 lbas 1 ≡ lbas - 1
      wrap = omega arith

  after_sums :
      IsLittleEndian os
      → IsPrimary os 512 512 (lbas - 1) 34 (initialized os lbas w).1.disk
      → (summed os lbas w).0 ≡ ok tt
      → (IsSealed os 512 1024 (summed os lbas w).1.disk
          × ((x : ℕ)
              → OutsideCrcs 512 x
              → (summed os lbas w).1.disk x ≡ (initialized os lbas w).1.disk x))
        × ((table_bytes 512 (summed os lbas w).1.disk ≡ 16384)
            × (summed_bytes os 512 (summed os lbas w).1.disk ≡ 92))
  after_sums le prim ran = sums_of os lbas (initialized os lbas w).1 le prim ran

  after_backup :
      IsRoomy lbas
      → (backed os lbas w).0 ≡ ok tt
      → IsMirror 512 34 lbas (summed os lbas w).1.disk (backed os lbas w).1.disk
        × Kept (copy_at 34 lbas) (34 * 512) (summed os lbas w).1.disk (backed os lbas w).1.disk
  after_backup roomy ran =
      update_backup-IsMirror os 512 34 lbas 4096 (synced os lbas w) (backed os lbas w).1
        (IsRoomy-IsDisk lbas roomy) (omega arith) (pair_of ran)

-- When `write_gpt` has made a table, it is whole: a primary header with both checksums, and a copy
-- that mirrors it. The boot sector and everything between the header's sector and the copy are as
-- they were, the old partition entries among them.
pub write_gpt-IsTable :
    (os : Os) (lbas : ℕ) (w w' : World)
    → IsLittleEndian os
    → os.page_size ≡ 4096
    → IsRoomy lbas
    → write_gpt os 512 lbas true w ≡ (ok tt, w')
    → IsTable os lbas w'.disk
      × ((x : ℕ) → Outside 512 512 x → x < copy_at 34 lbas → w'.disk x ≡ w.disk x)
write_gpt-IsTable os lbas w w' le pages roomy e =
    let (ran1, ran2, ran3, same) = write_gpt_parts os lbas w w' pages e in
    let part1 = after_initialize os lbas w roomy ran1 in
    let part2 = after_sums os lbas w le part1.0 ran2 in
    rw same (
      compose os lbas w.disk (initialized os lbas w).1.disk (summed os lbas w).1.disk
        (backed os lbas w).1.disk roomy part1 part2.0 part2.1 (after_backup os lbas w roomy ran3))
