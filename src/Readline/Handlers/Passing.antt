-- ===== src/Readline/Handlers/Passing.antt =====
-- src/readline/readline.c: the adapters, and the commands that hand their words to another program.
use growlight.Prelude.{Bool, true, false, List, [], ◌∷◌, if◌then◌else◌}
use growlight.Text.{Text, codes, text_eq}
use growlight.Readline.{
  Locale, Backend, Call, Done, ◌>>=◌, ◌>>◌, perform, ignore, usage, or_usage, lookup_wcontroller,
}
use growlight.Readline.Listing.{list_controllers, list_virtual, walk_devices}

module _ {ℓ} {W : Type ℓ} (b : Backend W) where
  -- The three commands with a controller.
  unfoldable pub adapter_with : (verb c : Text) → Done W
  unfolding perform usage
  adapter_with verb c =
      if text_eq verb (codes "reset")
      then perform b (Call.reset_controller c)
      else if text_eq verb (codes "rescan")
      then perform b (Call.rescan_controller c)
      else if text_eq verb (codes "detail")
      then perform b (Call.detail_controller c)
      else usage b

  unfoldable pub adapter : Locale → List Text → Done W
  unfolding usage lookup_wcontroller adapter_with list_controllers
  adapter l [] = list_controllers b false
  adapter l (verb ∷ []) = if text_eq verb (codes "-v") then list_controllers b true else usage b
  adapter l (verb ∷ name ∷ []) = do c ← lookup_wcontroller b l name; adapter_with verb c
  adapter l (verb ∷ name ∷ more ∷ args) = usage b

  unfoldable pub list_zpools : (descend : Bool) → Done W
  unfolding perform ignore walk_devices
  list_zpools descend =
      ignore b Call.print_header >> walk_devices b (λ d. perform b (Call.print_zpool d descend))

  unfoldable pub zpool : List Text → Done W
  unfolding perform or_usage list_zpools
  zpool [] = list_zpools false
  zpool (verb ∷ []) =
      if text_eq verb (codes "-v")
      then list_zpools true
      else or_usage b (perform b (Call.vpopen_drain (codes "zpool") (verb ∷ [])))
  zpool (verb ∷ arg ∷ args) =
      or_usage b (perform b (Call.vpopen_drain (codes "zpool") (verb ∷ arg ∷ args)))

  unfoldable pub zfs : List Text → Done W
  unfolding perform usage
  zfs [] = usage b
  zfs (verb ∷ args) = perform b (Call.vpopen_drain (codes "zfs") (verb ∷ args))

  -- The message is that the listing is not yet implemented.
  unfoldable pub dm : List Text → Done W
  unfolding perform usage or_usage
  dm [] = usage b
  dm (verb ∷ []) =
      if text_eq verb (codes "-v")
      then usage b
      else or_usage b (perform b (Call.vpopen_drain (codes "dmsetup") (verb ∷ [])))
  dm (verb ∷ arg ∷ args) =
      or_usage b (perform b (Call.vpopen_drain (codes "dmsetup") (verb ∷ arg ∷ args)))

  -- The usage is printed, and -1 returned, whether the program failed or not.
  unfoldable pub mdadm : List Text → Done W
  unfolding ignore usage list_virtual
  mdadm [] = list_virtual b false
  mdadm (verb ∷ []) =
      if text_eq verb (codes "-v")
      then list_virtual b true
      else ignore b (Call.vpopen_drain (codes "mdadm") (verb ∷ [])) >> usage b
  mdadm (verb ∷ arg ∷ args) =
      ignore b (Call.vpopen_drain (codes "mdadm") (verb ∷ arg ∷ args)) >> usage b
