-- ===== src/Blkpg.antt =====
-- blkpg_add_partition and blkpg_del_partition of src/ptable.c: how the kernel is told of a change.
-- `devname` of linux/blkpg.h holds 64 bytes; `pno` is an int. The sleeps between
-- the tries are left out.
use growlight.Prelude.{ℕ, ◌%◌, ◌||◌, List, ltb, leb, length, u32_mod}
use growlight.Io.{Os, PartEvent, added, deleted, Io, ◌>>◌, fail_if, syscall, or_else, notify}

-- The ioctl, tried three times, and the checks before it.
module _ (os : Os) where
  blkpg : ℕ → List ℕ → PartEvent → Io (Unit {0})
  blkpg pno name e = do
    fail_if (ltb (pno % u32_mod) 1 || leb 0x80000000 (pno % u32_mod))
    fail_if (leb 64 (length name))
    or_else (or_else (syscall os) (syscall os)) (syscall os)
    notify e

  unfoldable pub blkpg_add_partition : (start len pno : ℕ) → List ℕ → Io (Unit {0})
  unfolding blkpg
  blkpg_add_partition start len pno name = blkpg pno name (added pno start len)

  unfoldable pub blkpg_del_partition : (start len pno : ℕ) → List ℕ → Io (Unit {0})
  unfolding blkpg
  blkpg_del_partition start len pno name = blkpg pno name (deleted pno start len)
