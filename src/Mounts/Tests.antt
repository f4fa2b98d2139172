-- ===== src/Mounts/Tests.antt =====
-- Runs on mounts.
use growlight.Prelude.{◌≡◌, refl, Bool, false, none, some, [], ◌∷◌, arith}
use growlight.Text.{codes, text_eq, is_graph}
use growlight.Text.Words.{word_sound}
use growlight.Devices.{find_device, lookup_device, prefix_size, strip_prefix}
use growlight.Devices.Tests.{sda1, tables, find_nothing}
use growlight.Device.{Device}
use growlight.Target.{System}
use growlight.Mounts.{Mount, parse_mount}
use growlight.Mounts.Parse.{IsMount, print_mount, print_mounts, parse_mount-print_mount}
use growlight.Mounts.Options.{mountops, name_of, flag_for_mountop, flag_for_mountop-name_of}
use growlight.Mounts.Handle.{Kernel, Link, mount_size, mount_device, handle_mount, read_mounts}
use growlight.Mounts.Handle.InStep.{AllInStep, ControllersInStep-AllInStep}
use growlight.Mounts.Handle.Found.{read_mounts-AllInStep, HasMount, handle_mount-found}

abbrev root_mount : Mount
root_mount = record {
  dev = codes "/dev/sda1";
  mnt = codes "/";
  fs = codes "ext4";
  ops = codes "rw";
}

abbrev proc_mount : Mount
proc_mount = record {
  dev = codes "proc";
  mnt = codes "/proc";
  fs = codes "proc";
  ops = codes "rw,nosuid";
}

root_mount-IsMount : IsMount root_mount
unfolding is_graph
root_mount-IsMount = record {
  dev = word_sound _ _ refl;
  mnt = word_sound _ _ refl;
  fs = word_sound _ _ refl;
  ops = word_sound _ _ refl;
}

parse_mount-print_mount_example :
    parse_mount (print_mount root_mount (codes "0 0") (codes "rest"))
    ≡ some (root_mount, codes "rest")
parse_mount-print_mount_example =
    parse_mount-print_mount root_mount (codes "0 0") (codes "rest") root_mount-IsMount (omega arith)

abbrev kernel : Kernel
kernel = record {
  host = record { realpath = λ p. some p; open_dir = λ p. some 3; close = λ fd. false };
  statvfs = λ m. some 4096;
  unread = 0;
  mkdir = λ p. false;
  link = λ p. Link.no_link;
  mount = λ d t f o. false;
  umount2 = λ m. false;
}

abbrev system : System
system = record { controllers = tables; growlight_target = some (codes "/mnt"); targfd = none }

flag_for_mountop-name_of_example :
    name_of mountops (flag_for_mountop (codes "noexec")) ≡ codes "noexec"
unfolding flag_for_mountop text_eq
flag_for_mountop-name_of_example = flag_for_mountop-name_of (codes "noexec") (λ e. ground arith)

handle_mount-found_example :
    (d' : Device) × (find_device
        (codes "sda1")
        (handle_mount find_nothing kernel
          (codes "/srv")
          (codes "/dev/sda1")
          (codes "rw")
          (codes "ext4")
          system).controllers
      ≡ some d')
    × HasMount (codes "/srv") (codes "ext4") (codes "rw") 4096 sda1 d'
unfolding mount_size mount_device lookup_device find_device text_eq strip_prefix prefix_size
handle_mount-found_example =
    handle_mount-found find_nothing kernel (codes "/srv") (codes "/dev/sda1") (codes "rw")
      (codes "ext4") (codes "/dev/sda1") 4096 sda1 system refl refl refl refl

tables-AllInStep : AllInStep tables
tables-AllInStep = ControllersInStep-AllInStep tables ((refl, (refl, (refl, tt)), tt), (tt, tt))

read_mounts-AllInStep_example :
    (r : Bool × System) × (read_mounts find_nothing kernel (print_mounts (root_mount ∷ [])) system
      ≡ some r)
    × AllInStep r.1.controllers
read_mounts-AllInStep_example =
    read_mounts-AllInStep find_nothing kernel (print_mounts (root_mount ∷ [])) system
      (λ n cs all. all) tables-AllInStep
