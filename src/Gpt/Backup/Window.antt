-- ===== src/Gpt/Backup/Window.antt =====
-- When the mapping that `update_backup` makes holds the copy that is written through it.
use growlight.Prelude.{
  ℕ, ◌+◌, ◌-◌, ◌*◌, ◌%◌, ◌^◌, ◌≤◌, ◌<◌, ◌≡◌, ◌≢◌, ◌⊎◌, Bool, true, false, arith, inl, inr,
}
use growlight.Io.{Os, World, abort, ok, fail}
use growlight.Memory.{fill}
use growlight.Memory.Laws.{Kept, Zeroed, fill_in, fill_out}
use growlight.Gpt.Backup.{abs_dev_off, backup_map_size, update_backup}
use native.Mathlib.Nat.{div-add-mod}

-- A mapping at the start of a page is cut down to whole pages; any other has room to spare.
pub backup_map_size_covers :
    (gptlbas lbasize pgsize mapoff : ℕ)
    → 0 < pgsize
    → lbasize * gptlbas < 2 ^ 32
    → (mapoff ≢ 0) ⊎ (lbasize * gptlbas % pgsize ≡ 0)
    → mapoff + lbasize * gptlbas ≤ backup_map_size gptlbas lbasize pgsize mapoff
backup_map_size_covers gptlbas lbasize pgsize mapoff hp hs h = grind (arith, div-add-mod)

pub backup_map_size_short :
    (gptlbas lbasize pgsize : ℕ)
    → 0 < pgsize
    → lbasize * gptlbas < 2 ^ 32
    → lbasize * gptlbas % pgsize ≢ 0
    → backup_map_size gptlbas lbasize pgsize 0 < lbasize * gptlbas
backup_map_size_short gptlbas lbasize pgsize hp hs h = grind (arith, div-add-mod)

-- Sectors of 512 bytes, at least as many as the copy takes, with a size that fits in 64 bits.
pub record IsDisk (gptlbas lbas : ℕ) : Type 0 where
  pub some_sectors : 1 ≤ gptlbas
  pub room : gptlbas ≤ lbas
  pub small : lbas * 512 < 2 ^ 64
  pub small_table : gptlbas * 512 < 2 ^ 32

pub abs_dev_off_lem :
    (gptlbas lbas : ℕ) → IsDisk gptlbas lbas → abs_dev_off gptlbas lbas 512 ≡ (lbas - gptlbas) * 512
abs_dev_off_lem gptlbas lbas h = omega arith

-- With pages of 4096 bytes, a copy that begins on a page and does not end on one is written past
-- the end of its mapping: once the mapping is made, `update_backup` faults.
pub update_backup-abort :
    (os : Os) (ghead gptlbas lbas : ℕ) (realdata : Bool) (w : World)
    → IsDisk gptlbas lbas
    → lbas % 8 ≡ gptlbas % 8
    → gptlbas % 8 ≢ 0
    → os.fails w.calls ≡ false
    → (update_backup os ghead gptlbas lbas 512 4096 realdata w).0 ≡ abort
unfolding update_backup
update_backup-abort os ghead gptlbas lbas true w disk even part mapped =
    ground (arith, abs_dev_off_lem gptlbas lbas disk)
update_backup-abort os ghead gptlbas lbas false w disk even part mapped =
    ground (arith, abs_dev_off_lem gptlbas lbas disk)

-- Zeroing the copy, at any other alignment: either a system call fails, or the sectors of the copy
-- are zero and no other byte has changed. It never faults.
pub update_backup_zeroes :
    (os : Os) (ghead gptlbas lbas : ℕ) (w : World)
    → IsDisk gptlbas lbas
    → lbas % 8 ≢ gptlbas % 8
    → let (r, w') = update_backup os ghead gptlbas lbas 512 4096 false w in
      Kept ((lbas - gptlbas) * 512) (gptlbas * 512) w.disk w'.disk
      × ((r ≡ fail) ⊎ ((r ≡ ok tt) × Zeroed ((lbas - gptlbas) * 512) (gptlbas * 512) w'.disk))
unfolding update_backup
update_backup_zeroes os ghead gptlbas lbas w disk part = (
  λ x o. ground (arith, off, fill_out _ _ w.disk x 0 o),
  elim (ends) [
    | inl bad ↦ inl bad
    | inr (good, e) ↦ inr (good, λ x p q. rw e (fill_in _ _ w.disk x 0 p q))
  ],
)
  where
    off : abs_dev_off gptlbas lbas 512 ≡ (lbas - gptlbas) * 512
    off = abs_dev_off_lem gptlbas lbas disk

    ends :
        let (r, w') = update_backup os ghead gptlbas lbas 512 4096 false w in
        (r ≡ fail)
        ⊎ ((r ≡ ok tt) × (w'.disk ≡ fill ((lbas - gptlbas) * 512) 0 (gptlbas * 512) w.disk))
    ends = ground (arith, off)

pub update_backup_filled :
    (os : Os) (ghead gptlbas lbas pgsize : ℕ) (w : World)
    → IsDisk gptlbas lbas
    → (update_backup os ghead gptlbas lbas 512 pgsize false w).0 ≡ ok tt
    → (update_backup os ghead gptlbas lbas 512 pgsize false w).1.disk
      ≡ fill ((lbas - gptlbas) * 512) 0 (gptlbas * 512) w.disk
unfolding update_backup
update_backup_filled os ghead gptlbas lbas pgsize w disk e =
    ground (arith, abs_dev_off_lem gptlbas lbas disk)
