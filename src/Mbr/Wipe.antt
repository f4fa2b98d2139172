-- ===== src/Mbr/Wipe.antt =====
-- What the wipes of src/mbr.c leave in the boot sector, and what they note of it.
use growlight.Prelude.{ℕ, ◌+◌, ◌-◌, ◌≤◌, ◌<◌, ◌≡◌, ◌⊎◌, refl, true, false, arith, if◌then◌else◌}
use growlight.Memory.{fill}
use growlight.Memory.Laws.{Kept, Zeroed, fill_in, fill_out}
use growlight.Io.{Os, Io, World, ok, fail, abort, pure}
use growlight.Device.{Device}
use growlight.Mbr.{wipe_first_sector, mbrsha1, zerombrp, wipe_biosboot, wipe_dos_ptable}

-- The world that `rescan` is run in.
abbrev pub wiped : Os → (wipe wipeend : ℕ) → World → World
wiped os wipe wipeend w =
    let m = fill wipe 0 (wipeend - wipe) w.disk in
    let sum = os.sha1 m 0 440 in
    record w {
      calls = w.calls + 1 + 1 + 1 + 1 + 1 + 1;
      opened = w.opened + 1;
      closed = w.closed + 1;
      mapped = w.mapped + 1;
      unmapped = w.unmapped + 1;
      disk = m;
      biossha1 = sum;
      biosboot = if zerombrp sum then false else w.biosboot;
    }

wipe_run :
    (os : Os) (rescan : Io (Unit {0})) (d : Device) (wipe wipeend : ℕ) (w w' : World)
    → wipe_first_sector os rescan d wipe wipeend w ≡ (ok tt, w')
    → (wipeend ≤ 512) × (wipe < wipeend) × (rescan (wiped os wipe wipeend w) ≡ (ok tt, w'))
unfolding wipe_first_sector mbrsha1
wipe_run os rescan d wipe wipeend w w' e = ground arith

-- The world after a wipe of `n` bytes of the boot sector.
pub record IsWiped (os : Os) (wipe n : ℕ) (w v : World) : Type 0 where
  pub zeroed : Zeroed wipe n v.disk
  pub kept : Kept wipe n w.disk v.disk
  pub sum : v.biossha1 ≡ os.sha1 v.disk 0 440
  pub boot :
      (zerombrp v.biossha1 ≡ true) × (v.biosboot ≡ false)
      ⊎ (zerombrp v.biossha1 ≡ false) × (v.biosboot ≡ w.biosboot)
  pub released : (v.opened ≡ w.opened + 1) × (v.closed ≡ w.closed + 1)

wiped-IsWiped :
    (os : Os) (wipe wipeend : ℕ) (w : World)
    → IsWiped os wipe (wipeend - wipe) w (wiped os wipe wipeend w)
wiped-IsWiped os wipe wipeend w = record {
  zeroed = λ x p q. fill_in wipe _ w.disk x 0 p q;
  kept = λ x o. fill_out wipe _ w.disk x 0 o;
  sum = refl;
  boot = ground arith;
  released = (refl, refl);
}

-- A success of `wipe_biosboot` has zeroed the 440 bytes of boot code, changed no other byte, taken the
-- checksum of what is left, cleared `biosboot` exactly if that is the checksum of zeroes, and closed
-- the device before it was scanned anew.
pub wipe_biosboot-IsWiped :
    (os : Os) (rescan : Io (Unit {0})) (d : Device) (w w' : World)
    → wipe_biosboot os rescan d w ≡ (ok tt, w')
    → (v : World) × IsWiped os 0 440 w v × (rescan v ≡ (ok tt, w'))
unfolding wipe_biosboot
wipe_biosboot-IsWiped os rescan d w w' e =
    (wiped os 0 440 w, wiped-IsWiped os 0 440 w, (wipe_run os rescan d 0 440 w w' e).2)

-- A success of `wipe_dos_ptable` has zeroed the 72 bytes behind the boot code, which hold the disk
-- signature, the four entries and the boot signature, and changed no other byte.
pub wipe_dos_ptable-IsWiped :
    (os : Os) (rescan : Io (Unit {0})) (d : Device) (w w' : World)
    → wipe_dos_ptable os rescan d w ≡ (ok tt, w')
    → (v : World) × IsWiped os 440 72 w v × (rescan v ≡ (ok tt, w'))
unfolding wipe_dos_ptable
wipe_dos_ptable-IsWiped os rescan d w w' e =
    (wiped os 440 512 w, wiped-IsWiped os 440 512 w, (wipe_run os rescan d 440 512 w w' e).2)

-- However a wipe ends, without a fault and up to the scan of the device, each descriptor that it opened
-- has been closed once. Either the range lies in the sector and is not empty, or the wipe fails and
-- leaves the world as it was.
pub wipe_first_sector_released :
    (os : Os) (d : Device) (wipe wipeend : ℕ) (w : World)
    → let (r, w') = wipe_first_sector os (pure tt) d wipe wipeend w in
      ((r ≡ abort) ⊎ (w'.opened + w.closed ≡ w'.closed + w.opened))
      × (((wipe < wipeend) × (wipeend ≤ 512)) ⊎ ((r ≡ fail) × (w' ≡ w)))
unfolding wipe_first_sector mbrsha1
wipe_first_sector_released os d wipe wipeend w = (ground arith, ground arith)
