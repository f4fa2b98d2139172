-- ===== src/Boot/Tests.antt =====
-- A partition from which both kinds of firmware are asked to boot.
use growlight.Prelude.{◌≡◌, refl, false, none, some, ◌∷◌, [], ℕ, Option}
use growlight.Text.{Text, codes, text_eq, starts_with}
use growlight.Device.{Device, Layout, Partition}
use growlight.Devices.Tests.{sda1}
use growlight.Target.{targeted_p, target_root_p, any_below}
use growlight.Devices.{string_included_p}
use growlight.Boot.{
  Stdio, write_postbase_hook, bios_script, uefi_script, prepare_bios_boot, prepare_uefi_boot,
}
use growlight.Boot.Hook.{IsUefiBootable, prepare_uefi_boot-IsUefiBootable}

abbrev working : Stdio
working = record {
  fopen_fails = false;
  vfprintf_fails = false;
  fclose_fails = false;
  chmod_fails = false;
  partial = λ t. t;
  new_mode = 0o644;
}

abbrev whole : Device
whole = record sda1 { name = codes "sda"; layout = Layout.layout_none; mnt = [] }

abbrev mounted : (type : ℕ) → Partition
mounted type = record {
  dev = record sda1 { layout = Layout.layout_partition; mnt = codes "/target" ∷ [] };
  parent = whole;
  pnumber = 1;
  extended = false;
  logical = false;
  ptype = type;
  fsector = 2048;
}

abbrev target : Option Text
target = some (codes "/target")

bios_written :
    (prepare_bios_boot working target (mounted 0x8300) none).1
    ≡ some (record { text = bios_script (codes "sda"); mode = 0o700 })
unfolding prepare_bios_boot write_postbase_hook target_root_p string_included_p text_eq
bios_written = refl

prepare_uefi_boot-IsUefiBootable_example :
    IsUefiBootable target (mounted 0xef00)
    × ((prepare_uefi_boot working target (mounted 0xef00) none).1
        ≡ some (record { text = uefi_script (mounted 0xef00).dev.name; mode = 0o700 }))
unfolding prepare_uefi_boot write_postbase_hook targeted_p any_below starts_with
prepare_uefi_boot-IsUefiBootable_example =
    prepare_uefi_boot-IsUefiBootable working target (mounted 0xef00) none refl
