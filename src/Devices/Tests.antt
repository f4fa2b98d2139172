-- ===== src/Devices/Tests.antt =====
-- Devices and tables for runs, and runs of the tables.
use growlight.Prelude.{◌≡◌, refl, false, Option, none, some, List, [], ◌∷◌}
use growlight.Text.{Text, codes}
use growlight.Device.{Device, Layout, SwapPrio}
use growlight.Devices.{Controller, prefix_size, lookup_device}
use growlight.Devices.Names.{IsBare, lookup_device-dev}

abbrev pub sda : Device
sda = record {
  name = codes "sda";
  size = 1048576;
  logsec = 512;
  physsec = 512;
  mnttype = none;
  mntsize = 0;
  mnt = [];
  mntops = [];
  swapprio = SwapPrio.swap_invalid;
  layout = Layout.layout_none;
  pttable = none;
  first_usable = 0;
  last_usable = 0;
  md_pttable = none;
  stride = 0;
  swidth = 0;
  dm_pttable = none;
}

abbrev pub sda1 : Device
sda1 = record sda {
  name = codes "sda1";
  layout = Layout.layout_partition;
  mnttype = some (codes "ext4");
  mnt = codes "/mnt" ∷ codes "/home" ∷ codes "/mnt/var" ∷ [];
  mntops = codes "rw" ∷ codes "ro" ∷ codes "rw,noexec" ∷ [];
}

abbrev pub sda2 : Device
sda2 = record sda { name = codes "sda2"; layout = Layout.layout_partition }

abbrev pub ahci : Controller
ahci = record {
  ident = codes "ahci0";
  driver = some (codes "ahci");
  blockdevs = record { dev = sda; removable = false; parts = sda1 ∷ sda2 ∷ [] } ∷ [];
}

abbrev pub nvme : Controller
nvme = record { ident = codes "nvme0"; driver = some (codes "nvme"); blockdevs = [] }

abbrev pub tables : List Controller
tables = ahci ∷ nvme ∷ []

-- A discovery that finds nothing.
abbrev pub find_nothing : Text → List Controller → Option Device × List Controller
find_nothing name cs = (none, cs)

abbrev pub make_active : Device → Device
make_active d = record d { swapprio = SwapPrio.swap_prio 0 }

pub sda2-IsBare : IsBare (codes "sda2")
unfolding prefix_size
sda2-IsBare = refl

lookup_device-dev_example :
    lookup_device find_nothing (codes "/dev/sda2") tables
    ≡ lookup_device find_nothing (codes "sda2") tables
lookup_device-dev_example = lookup_device-dev find_nothing (codes "sda2") tables sda2-IsBare
