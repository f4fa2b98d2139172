-- ===== src/Readline/Handlers/Disks.antt =====
-- src/readline/readline.c: `blockdev`, `swap` and `benchmark`.
use growlight.Prelude.{
  Bool, true, false, Option, none, some, List, [], ◌∷◌, ◌++◌, leb, if◌then◌else◌, length,
}
use growlight.Text.{Text, codes, text_eq}
use growlight.Device.{Layout}
use growlight.Popen.{bufsiz}
use growlight.Readline.{
  fail, give, ignore, Locale, Backend, Call, Done, ◌>>=◌, ◌>>◌, perform, usage, lookup_wdevice,
  make_partition_wtable,
}
use growlight.Readline.Listing.{blockdev_dump, walk_devices}

-- The command that shows more of a device; a partition has none.
unfoldable pub details_command : (layout : Layout) → (nvme : Bool) → (d : Text) → Option Text
details_command Layout.layout_none nvme d =
    some ((if nvme then codes "nvme id-ctrl /dev/" else codes "hdparm -I /dev/") ++ d)
details_command Layout.layout_mdadm nvme d = some (codes "mdadm --detail /dev/" ++ d)
details_command Layout.layout_dm nvme d = some (codes "dmsetup info /dev/" ++ d)
details_command Layout.layout_zpool nvme d = some (codes "zpool status " ++ d)
details_command Layout.layout_partition nvme d = none

module _ {ℓ} {W : Type ℓ} (b : Backend W) where
  -- A command with nothing behind the device.
  unfoldable pub sole : List Text → Done W → Done W
  unfolding usage
  sole [] m = m
  sole (arg ∷ args) m = usage b

  unfoldable pub badblocks : (d : Text) → List Text → Done W
  unfolding perform usage
  badblocks d [] = perform b (Call.badblock_scan d false)
  badblocks d (arg ∷ []) =
      if text_eq arg (codes "rw") then perform b (Call.badblock_scan d true) else usage b
  badblocks d (arg ∷ more ∷ args) = usage b

  -- What `make_partition_wtable` returns is not looked at.
  unfoldable pub mktable : Locale → (d : Text) → List Text → Done W
  unfolding usage make_partition_wtable
  mktable l d [] = usage b
  mktable l d (tbl ∷ []) = λ w. (some tt, (make_partition_wtable b l d tbl w).1)
  mktable l d (tbl ∷ more ∷ args) = usage b

  unfoldable pub run_details : Option Text → Done W
  unfolding perform
  run_details none = give tt
  run_details (some buf) =
      if leb bufsiz (length buf) then fail else perform b (Call.popen_drain buf)

  -- What is printed here is left out.
  unfoldable pub blockdev_details : (d : Text) → Done W
  unfolding perform ignore details_command run_details
  blockdev_details d =
      perform b (Call.print_drive d true)
      >> ignore b (Call.print_identified_stats d)
      >> (λ w. run_details (details_command (b.layout_of d w) (b.is_nvme d w) d) w)

  unfoldable pub blockdev_with : Locale → (verb d : Text) → List Text → Done W
  unfolding perform usage sole badblocks mktable blockdev_details
  blockdev_with l verb d more =
      if text_eq verb (codes "rescan")
      then sole more (perform b (Call.rescan_blockdev d))
      else if text_eq verb (codes "badblocks")
      then badblocks d more
      else if text_eq verb (codes "rmtable")
      then sole more (perform b (Call.wipe_ptable d))
      else if text_eq verb (codes "wipebiosboot")
      then sole more (perform b (Call.wipe_biosboot d))
      else if text_eq verb (codes "wipedosmbr")
      then sole more (perform b (Call.wipe_dosmbr d))
      else if text_eq verb (codes "ataerase")
      then sole more (perform b (Call.ata_secure_erase d))
      else if text_eq verb (codes "detail")
      then sole more (blockdev_details d)
      else if text_eq verb (codes "mktable")
      then mktable l d more
      else usage b

  unfoldable pub blockdev : Locale → List Text → Done W
  unfolding perform usage lookup_wdevice blockdev_dump blockdev_with
  blockdev l [] = blockdev_dump b false
  blockdev l (verb ∷ []) =
      if text_eq verb (codes "-v")
      then blockdev_dump b true
      else if text_eq verb (codes "mktable")
      then perform b Call.print_tabletypes
      else usage b
  blockdev l (verb ∷ name ∷ more) = do d ← lookup_wdevice b l name; blockdev_with l verb d more

  unfoldable pub swap_with : (verb d : Text) → Done W
  unfolding perform usage
  swap_with verb d =
      if text_eq verb (codes "on")
      then perform b (Call.swapondev d)
      else if text_eq verb (codes "off")
      then perform b (Call.swapoffdev d)
      else usage b

  unfoldable pub swap : Locale → List Text → Done W
  unfolding perform usage lookup_wdevice walk_devices swap_with
  swap l [] =
      perform b Call.print_header >> walk_devices b (λ d. perform b (Call.print_swaps d false))
  swap l (verb ∷ []) = usage b
  swap l (verb ∷ name ∷ []) = do d ← lookup_wdevice b l name; swap_with verb d
  swap l (verb ∷ name ∷ more ∷ args) = usage b

  unfoldable pub benchmark : Locale → List Text → Done W
  unfolding perform usage lookup_wdevice
  benchmark l [] = usage b
  benchmark l (name ∷ []) = do d ← lookup_wdevice b l name; perform b (Call.benchmark_blockdev d)
  benchmark l (name ∷ more ∷ args) = usage b
