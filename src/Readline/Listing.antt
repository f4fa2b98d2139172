-- ===== src/Readline/Listing.antt =====
-- src/readline/readline.c: the loops that print one line for each controller, device or partition.
use growlight.Prelude.{Bool, List, [], ◌∷◌, if◌then◌else◌}
use growlight.Text.{Text}
use growlight.Device.{Device, Layout, layout_is}
use growlight.Devices.{Blockdev}
use growlight.Readline.{Backend, Call, Done, perform, ignore, give, ◌>>◌}

module _ {ℓ} {W : Type ℓ} where
  -- A loop that is left with -1 at the first failure.
  unfoldable pub each {κ} : {A : Type κ} → (A → Done W) → List A → Done W
  each f [] = give tt
  each f (x ∷ xs) = f x >> each f xs

  module _ (b : Backend W) where
    -- The body of both loops of `walk_devices`: a device, then its partitions.
    unfoldable pub walk_device : (fxn : Text → Done W) → Blockdev → Done W
    unfolding each
    walk_device fxn d = fxn d.dev.name >> each (λ p. fxn p.name) d.parts

    unfoldable pub walk_devices : (fxn : Text → Done W) → Done W
    unfolding walk_device
    walk_devices fxn w = each (λ c. each (walk_device fxn) c.blockdevs) (b.get_controllers w) w

    unfoldable pub walk_blockdevs : (fxn : Blockdev → Done W) → Done W
    unfolding each
    walk_blockdevs fxn w = each (λ c. each fxn c.blockdevs) (b.get_controllers w) w

    unfoldable pub fs_dump : (descend : Bool) → Done W
    unfolding perform ignore walk_devices
    fs_dump descend =
        ignore b Call.print_header >> walk_devices (λ d. perform b (Call.print_fs d descend))

    unfoldable pub blockdev_dump : (descend : Bool) → Done W
    unfolding perform ignore walk_blockdevs
    blockdev_dump descend =
        ignore b Call.print_header
        >> walk_blockdevs (λ d. perform b (Call.print_drive d.dev.name descend))

    unfoldable pub list_controllers : (descend : Bool) → Done W
    unfolding perform each
    list_controllers descend w =
        each (λ c. perform b (Call.print_controller c.ident descend)) (b.get_controllers w) w

    unfoldable pub list_partitions : (descend : Bool) → Done W
    unfolding perform ignore walk_blockdevs
    list_partitions descend =
        ignore b Call.print_header
        >> walk_blockdevs (λ d. each (λ p. perform b (Call.print_partition p.name descend)) d.parts)

    unfoldable pub list_mounts : Done W
    unfolding perform ignore walk_devices
    list_mounts = ignore b Call.print_header >> walk_devices (λ d. perform b (Call.print_mounts d))

    unfoldable pub list_stats : Done W
    unfolding perform ignore walk_blockdevs
    list_stats =
        ignore b Call.print_header
        >> walk_blockdevs (λ d. perform b (Call.print_drive_stats d.dev.name))

    -- One device of the virtual controllers.
    unfoldable pub print_virtual : (descend : Bool) → Device → Done W
    unfolding perform
    print_virtual descend d =
        if layout_is d.layout Layout.layout_mdadm
        then perform b (Call.print_mdadm d.name descend)
        else if layout_is d.layout Layout.layout_dm
        then perform b (Call.print_dm d.name descend)
        else give tt

    unfoldable pub list_virtual : (descend : Bool) → Done W
    unfolding ignore each print_virtual
    list_virtual descend = ignore b Call.print_header >> λ w.
        each
          (λ c.
            if b.is_virtual c then each (λ d. print_virtual descend d.dev) c.blockdevs else give tt)
          (b.get_controllers w) w
