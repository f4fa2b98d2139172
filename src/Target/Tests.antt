-- ===== src/Target/Tests.antt =====
-- Runs on a target.
use growlight.Prelude.{◌≡◌, refl, Bool, true, false, none, some, List, [], ◌∷◌, ◌++◌, arith}
use growlight.Prelude.Maybe.{◌>>=◌}
use growlight.Text.{codes, text_eq, is_graph}
use growlight.Text.Words.{word_sound, passes_sound}
use growlight.Devices.Tests.{sda1, tables}
use growlight.Mounts.{Mount, parse_mounts}
use growlight.Mounts.Parse.{handle_all}
use growlight.Target.{Host, System, mount_target, set_target}
use growlight.Target.Modes.{IsIdle, Step, Reach, IsTargeting, Reach-IsTargeting}
use growlight.Target.Fstab.{dump_device_targets, dump_blockdevs, dump_controllers, dump_targets}
use growlight.Target.Fstab.Reading.{Ready, fstab_mounts, dump_device_targets-parse_mounts}
use growlight.Target.Final.{Disk, Finish, finalize_target}
use growlight.Target.Final.Written.{Works, over, finalize_target-lacks}

-- A host on which a null pointer is refused and everything else succeeds.
abbrev host : Host
host = record {
  realpath = λ p. some p;
  open_dir = λ p. elim p [ none ↦ none | some t ↦ some 3 ];
  close = λ fd. false;
}

abbrev idle : System
idle = record { controllers = tables; growlight_target = none; targfd = none }

idle-IsIdle : IsIdle idle
idle-IsIdle = record { no_target = refl; unopened = refl }

abbrev opened : System
opened = record { controllers = tables; growlight_target = some (codes "/mnt"); targfd = some 3 }

Reach-IsTargeting_example :
    IsTargeting (mount_target host (set_target host (some (codes "/mnt")) idle).1).1
Reach-IsTargeting_example =
    Reach-IsTargeting host refl {s = idle} refl (
      Reach.next (Reach.next Reach.here (Step.setting (some (codes "/mnt")) idle))
        (Step.mounting _))

-- A handler that collects the mounts.
abbrev collect_mount : Mount → List Mount → Bool × List Mount
collect_mount m ms = (false, m ∷ ms)

sda1-Ready : Ready sda1 0 sda1.mnt
unfolding is_graph
sda1-Ready = (
  word_sound _ _ refl,
  (codes "rw", refl, word_sound _ _ refl),
  (
    word_sound _ _ refl,
    (codes "ro", refl, word_sound _ _ refl),
    (word_sound _ _ refl, (codes "rw,noexec", refl, word_sound _ _ refl), tt),
  ),
)

dump_device_targets-parse_mounts_example :
    (dump_device_targets (codes "/mnt") sda1 >>= λ text. parse_mounts collect_mount 5 text false [])
    ≡ some (
        handle_all collect_mount
          (fstab_mounts (codes "/mnt") (codes "ext4") sda1 0 sda1.mnt)
          false
          [])
unfolding is_graph text_eq
dump_device_targets-parse_mounts_example =
    dump_device_targets-parse_mounts collect_mount (codes "/mnt") (codes "ext4") sda1
      (passes_sound is_graph (codes "sda1") refl) (word_sound _ _ refl) refl refl refl sda1-Ready 5
      false [] (omega arith)

abbrev disk : Disk
disk = record { mkdir = λ p. false; openat = λ p. true; put = λ p old text. (false, over text old) }

abbrev full_disk : Disk
full_disk = record { mkdir = λ p. false; openat = λ p. true; put = λ p old text. (true, old) }

abbrev empty_root : Finish
empty_root = record { files = λ p. []; finalized = false }

disk-Works : Works disk (codes "/mnt")
disk-Works = record {
  short = omega arith;
  makes = λ p. refl;
  opens = λ p. refl;
  puts = λ p old text. refl;
}

abbrev bare : System
bare = record { controllers = []; growlight_target = some (codes "/mnt"); targfd = some 3 }

abbrev virtual : System
virtual = record bare {
  controllers = record { ident = codes "virtual"; driver = none; blockdevs = [] } ∷ [];
}

finalize_target-lacks_example : finalize_target disk virtual empty_root ≡ none
unfolding dump_targets dump_controllers dump_blockdevs
finalize_target-lacks_example =
    finalize_target-lacks disk (codes "/mnt") 3 virtual empty_root
      (codes "proc\t\t/proc\t\tproc\tdefaults\t0\t0" ++ 10 ∷ []) disk-Works refl refl refl refl
