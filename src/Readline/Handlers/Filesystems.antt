-- ===== src/Readline/Handlers/Filesystems.antt =====
-- src/readline/readline.c: `fs`, `mounts`, `map` and `unmap`.
use growlight.Prelude.{Bool, false, none, some, List, [], ◌∷◌, ◌==◌, if◌then◌else◌}
use growlight.Text.{Text, codes, text_eq}
use growlight.Readline.{
  Locale, Backend, Call, Done, give, ◌>>=◌, perform, usage, lookup_wdevice, make_wfilesystem,
  prepare_wumount, prepare_wmount, wmmount,
}
use growlight.Readline.Listing.{fs_dump, list_mounts}
use growlight.Readline.Handlers.Disks.{sole}
use growlight.Readline.Handlers.Parts.{single}

abbrev starts_slash : Text → Bool
starts_slash [] = false
starts_slash (c ∷ s) = c == b'/'

module _ {ℓ} {W : Type ℓ} (b : Backend W) where
  unfoldable pub mkfs : Locale → (d : Text) → List Text → Done W
  unfolding usage make_wfilesystem
  mkfs l d (type ∷ name ∷ []) = make_wfilesystem b l d type name
  mkfs l d _ = usage b

  -- What `wmmount` returns is not looked at, and three of the commands do nothing yet.
  unfoldable pub fs_with : Locale → (verb d : Text) → List Text → Done W
  unfolding perform usage sole single mkfs wmmount
  fs_with l verb d more =
      if text_eq verb (codes "mkfs")
      then mkfs l d more
      else if text_eq verb (codes "wipefs")
      then sole b more (perform b (Call.wipe_filesystem d))
      else if text_eq verb (codes "fsck")
      then sole b more (perform b (Call.check_partition d))
      else if text_eq verb (codes "umount")
      then sole b more (perform b (Call.unmount d none))
      else if text_eq verb (codes "setuuid")
      then single b more (λ uuid. give tt)
      else if text_eq verb (codes "setlabel")
      then single b more (λ label. give tt)
      else if text_eq verb (codes "mount")
      then single b more (λ targ w. (some tt, (wmmount b l d targ w).1))
      else if text_eq verb (codes "loop")
      then single b more (λ file. give tt)
      else usage b

  unfoldable pub fs : Locale → List Text → Done W
  unfolding perform usage lookup_wdevice fs_dump fs_with
  fs l [] = fs_dump b false
  fs l (verb ∷ []) = if text_eq verb (codes "mkfs") then perform b Call.print_fstypes else usage b
  fs l (verb ∷ name ∷ more) = do d ← lookup_wdevice b l name; fs_with l verb d more

  unfoldable pub mounts : List Text → Done W
  unfolding usage list_mounts
  mounts [] = list_mounts b
  mounts (arg ∷ args) = usage b

  -- The path that is checked is the second word, and the path that is unmounted the first.
  unfoldable pub unmap : Locale → List Text → Done W
  unfolding usage lookup_wdevice prepare_wumount
  unmap l (name ∷ path ∷ []) = do
    d ← lookup_wdevice b l name
    if starts_slash path then prepare_wumount b l d name else usage b
  unmap l _ = usage b

  unfoldable pub map : Locale → List Text → Done W
  unfolding perform usage lookup_wdevice prepare_wmount
  map l [] = perform b Call.dump_targets
  map l (name ∷ path ∷ ops ∷ []) = do
    d ← lookup_wdevice b l name
    if starts_slash path then prepare_wmount b l d path ops else usage b
  map l _ = usage b
