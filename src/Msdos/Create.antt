-- ===== src/Msdos/Create.antt =====
-- What `new_msdos` leaves in the boot sector.
use growlight.Prelude.{ℕ, ◌+◌, ◌≤◌, ◌<◌, ◌≡◌, ◌⊎◌, ◌∙◌, arith, [], ◌∷◌, ap}
use growlight.Memory.{Bytes, blit}
use growlight.Memory.Laws.{
  Kept, Zeroed, blit_in, blit_out, fill_in, fill_out, put_list_in, put_list_out,
}
use growlight.Io.{Os, World, ok}
use growlight.Device.{Device}
use growlight.Msdos.{initial_table, initialize_msdos, write_msdos, new_msdos}

-- A boot sector with an empty table.
pub record IsEmptyTable (m : Bytes) : Type 0 where
  pub reserved : Zeroed 444 2 m
  pub entries : Zeroed 446 64 m
  pub bootsig : (m 510 ≡ 0x55) × (m 511 ≡ 0xaa)

initial-IsEmptyTable : (m : Bytes) → IsEmptyTable (initial_table m)
unfolding initial_table
initial-IsEmptyTable m = record {
  reserved = λ x p q. grind (arith, put_list_out, fill_out, fill_in);
  entries = λ x p q. grind (arith, put_list_out, fill_out, fill_in);
  bootsig = (
    put_list_in 510 (0x55 ∷ 0xaa ∷ []) _ 0 (omega arith),
    put_list_in 510 (0x55 ∷ 0xaa ∷ []) _ 1 (omega arith),
  );
}

initial_out : (m : Bytes) (x : ℕ) → (x < 444) ⊎ (512 ≤ x) → initial_table m x ≡ m x
unfolding initial_table
initial_out m x o = grind (arith, put_list_out, fill_out)

new_msdos_run :
    (os : Os) (d : Device) (w w' : World)
    → new_msdos os d w ≡ (ok tt, w')
    → (w'.disk ≡ initial_table (blit 440 (os.random (w.calls + 1 + 1)) 4 w.disk))
      × (w'.opened ≡ w.opened + 1)
      × (w'.closed ≡ w.closed + 1)
unfolding new_msdos write_msdos initialize_msdos
new_msdos_run os d w w' e = ground arith

-- A success of `new_msdos` leaves a boot sector with a random disk signature, four empty entries and
-- the boot signature. The boot code and all that lies behind the sector are as they were, and the
-- device is closed.
pub new_msdos-IsEmptyTable :
    (os : Os) (d : Device) (w w' : World)
    → new_msdos os d w ≡ (ok tt, w')
    → IsEmptyTable w'.disk
      × ((i : ℕ) → i < 4 → w'.disk (440 + i) ≡ os.random (w.calls + 1 + 1) i)
      × Kept 440 72 w.disk w'.disk
      × (w'.opened ≡ w.opened + 1)
      × (w'.closed ≡ w.closed + 1)
new_msdos-IsEmptyTable os d w w' e =
    let (same, opened, closed) = new_msdos_run os d w w' e in
    let rnd = os.random (w.calls + 1 + 1) in
    let signed = blit 440 rnd 4 w.disk in
    (
      rw same (initial-IsEmptyTable signed),
      λ i p.
          ap (λ m. m (440 + i)) same
          ∙ (initial_out signed (440 + i) (omega arith)
              ∙ (blit_in 440 4 w.disk (440 + i) rnd (omega arith) (omega arith)
                  ∙ ap rnd (omega arith))),
      λ x o.
          ap (λ m. m x) same
          ∙ (initial_out signed x (ground arith) ∙ blit_out 440 4 w.disk x rnd (ground arith)),
      opened,
      closed,
    )
