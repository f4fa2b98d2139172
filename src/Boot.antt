-- ===== src/Boot.antt =====
-- src/growlight.c: `write_postbase_hook`, `prepare_bios_boot` and `prepare_uefi_boot`, which leave a
-- script for the installer. The calls of stdio and chmod are parameters; true is a return of -1. The
-- warning about the flags of the partition is left out.
pub mod Hook
mod Tests
use growlight.Prelude.{
  ℕ, Bool, true, false, not, ◌&&◌, ◌||◌, Option, none, some, List, ◌++◌, ◌==◌, if◌then◌else◌,
}
use growlight.Text.{Text, codes}
use growlight.Device.{Layout, layout_is, Partition}
use growlight.Target.{targeted_p, target_root_p}

-- A file with its permissions.
pub record Script : Type 0 where
  pub text : Text
  pub mode : ℕ

-- Whether fopen, vfprintf, fclose and chmod fail; what a failed print or close leaves in the file; and
-- the permissions of a new file.
pub record Stdio : Type 0 where
  pub fopen_fails : Bool
  pub vfprintf_fails : Bool
  pub fclose_fails : Bool
  pub chmod_fails : Bool
  pub partial : Text → Text
  pub new_mode : ℕ

abbrev mode_of : Stdio → Option Script → ℕ
mode_of io none = io.new_mode
mode_of io (some s) = s.mode

-- The script of the installer, if there is one, before and after.
unfoldable pub write_postbase_hook :
    Stdio → (text : Text) → (script : Option Script) → Bool × Option Script
write_postbase_hook io text script =
    if io.fopen_fails
    then (true, script)
    else if io.vfprintf_fails || io.fclose_fails
    then (true, some (record { text = io.partial text; mode = mode_of io script }))
    else if io.chmod_fails
    then (true, some (record { text = text; mode = mode_of io script }))
    else (false, some (record { text = text; mode = 0o700 }))

abbrev pub bios_script : (parent : Text) → Text
bios_script parent =
    codes
      "#!/bin/sh\nset -e\napt-install grub-pc\nin-target grub-install --boot-directory=/boot/grub --no-floppy /dev/"
    ++ parent
    ++ codes "\n"

abbrev pub uefi_script : (name : Text) → Text
uefi_script name =
    codes
      "#!/bin/sh\nset -e\napt-install grub-efi-amd64\nin-target /usr/lib/grub/x86_64-efi/grub-install --boot-directory=/boot/grub --no-floppy /dev/"
    ++ name
    ++ codes "\n"

-- `target` is growlight_target.
unfoldable pub prepare_bios_boot :
    Stdio → (target : Option Text) → (d : Partition) → Option Script → Bool × Option Script
unfolding write_postbase_hook target_root_p
prepare_bios_boot io target d script =
    if not (layout_is d.dev.layout Layout.layout_partition)
    then (true, script)
    else if not (target_root_p target d.dev)
    then (true, script)
    else if not (d.ptype == 0xef02) && not (d.ptype == 0x8300)
    then (true, script)
    else write_postbase_hook io (bios_script d.parent.name) script

unfoldable pub prepare_uefi_boot :
    Stdio → (target : Option Text) → (d : Partition) → Option Script → Bool × Option Script
unfolding write_postbase_hook targeted_p
prepare_uefi_boot io target d script =
    if not (layout_is d.dev.layout Layout.layout_partition)
    then (true, script)
    else if not (d.ptype == 0xef00)
    then (true, script)
    else if not (targeted_p target d.dev)
    then (true, script)
    else write_postbase_hook io (uefi_script d.dev.name) script
