-- ===== src/Readline/Handlers/General.antt =====
-- src/readline/readline.c: the commands without a device among their words.
use growlight.Prelude.{
  Bool, true, false, ◌||◌, Option, none, some, List, [], ◌∷◌, ltb, ◌==◌, if◌then◌else◌,
}
use growlight.Text.{Text, codes, text_eq}
use growlight.Devices.{Controller, Blockdev, string_included_p, or_else}
use growlight.Device.{Device}
use growlight.Logs.{maximum_log_entries}
use growlight.Readline.{
  Locale, Backend, Call, Run, Done, ◌>>=◌, ◌>>◌, perform, ignore, usage, to_buffer, path_max,
}
use growlight.Readline.Numbers.{wstrtoull}
use growlight.Readline.Listing.{list_stats}
use growlight.Readline.Handlers.Parts.{demand}

-- Whether a partition is mounted at the target.
unfoldable pub part_mounted : Text → List Device → Bool
unfolding string_included_p
part_mounted t [] = false
part_mounted t (p ∷ ps) = if string_included_p p.mnt t then true else part_mounted t ps

unfoldable pub root_blockdev : Text → List Blockdev → Option Text
unfolding part_mounted
root_blockdev t [] = none
root_blockdev t (d ∷ ds) =
    if string_included_p d.dev.mnt t || part_mounted t d.parts
    then some d.dev.name
    else root_blockdev t ds

unfoldable pub root_controller : Text → List Controller → Option Text
unfolding root_blockdev
root_controller t [] = none
root_controller t (c ∷ cs) = or_else (root_blockdev t c.blockdevs) (root_controller t cs)

module _ {ℓ} {W : Type ℓ} (b : Backend W) where
  -- ZERO_ARG_CHECK
  unfoldable pub bare : List Text → Done W → Done W
  unfolding usage
  bare [] m = m
  bare (arg ∷ args) m = usage b

  -- The message is that no target is defined.
  unfoldable pub get_target_root : Run W Text
  unfolding root_controller
  get_target_root w = elim (b.growlight_target w) [
    | none ↦ (none, b.complain w)
    | some t ↦ (root_controller t (b.get_controllers w), w)
  ]

  unfoldable pub uefiboot : List Text → Done W
  unfolding perform bare get_target_root
  uefiboot args = bare args (get_target_root >>= λ d. perform b (Call.prepare_uefi_boot d))

  unfoldable pub biosboot : List Text → Done W
  unfolding perform bare get_target_root
  biosboot args = bare args (get_target_root >>= λ d. perform b (Call.prepare_bios_boot d))

  unfoldable pub grubmap : List Text → Done W
  unfolding perform bare
  grubmap args = bare args (perform b (Call.popen_drain (codes "grub-mkdevicemap -m /dev/stdout")))

  unfoldable pub troubleshoot : List Text → Done W
  unfolding usage bare
  troubleshoot args = bare args (usage b)

  unfoldable pub stats : List Text → Done W
  unfolding bare list_stats
  stats args = bare args (list_stats b)

  unfoldable pub quit : List Text → Done W
  unfolding bare
  quit args = bare args (λ w. (some tt, b.set_lights_off w))

  -- Each of the three is run, and the result is -1 where one failed.
  unfoldable pub version : List Text → Done W
  unfolding bare ignore
  version args = bare args (
      ignore b Call.print_logo >> λ w.
      let (mkswap, w1) = b.call (Call.popen_drain (codes "mkswap --version")) w in
      let (grub, w2) = b.call (Call.popen_drain (codes "grub-mkdevicemap --version")) w1 in
      let (zfs, w3) = b.call Call.print_zfs_version w2 in
      (if mkswap || grub || zfs then none else some tt, (b.call Call.print_version w3).1))

  -- `char targ[PATH_MAX]`
  unfoldable pub target_set : Locale → Text → Done W
  unfolding perform to_buffer
  target_set l path = do targ ← to_buffer b l path_max path; perform b (Call.set_target (some targ))

  unfoldable pub target : Locale → List Text → Done W
  unfolding perform usage target_set
  target l [] = perform b Call.print_target
  target l (verb ∷ []) =
      if text_eq verb (codes "unset")
      then perform b (Call.set_target none)
      else if text_eq verb (codes "finalize")
      then perform b Call.finalize_target
      else usage b
  target l (verb ∷ path ∷ []) = if text_eq verb (codes "set") then target_set l path else usage b
  target l (verb ∷ path ∷ more ∷ args) = usage b

  unfoldable pub diags : Locale → List Text → Done W
  unfolding perform usage demand wstrtoull
  diags l [] = perform b (Call.print_logs maximum_log_entries)
  diags l (count ∷ []) = do
    n ← demand b (wstrtoull l count)
    if ltb maximum_log_entries n || n == 0 then usage b else perform b (Call.print_logs n)
  diags l (count ∷ more ∷ args) = usage b
