-- ===== src/Aggregate/Known.antt =====
-- Proofs on src/aggregate.c: when the programs that assemble aggregates are run.
use growlight.Prelude.{
  or_true, or_false, ◌≡◌, refl, ◌∙◌, ap, sym, subst, Bool, true, false, ◌||◌, Option, none, some,
  List, [], ◌∷◌, ◌++◌, if◌then◌else◌,
}
use growlight.Text.{Text, codes, text_eq, text_eq_sound}
use growlight.Device.{Device}
use growlight.Devices.{Blockdev, Controller}
use growlight.Popen.{Shell, vspopen_drain}
use growlight.Aggregate.{
  Seen, zpool_p, mdraid_p, see, see_parts, see_blockdevs, see_controllers, assemble_aggregates,
}

-- The types of file systems in a table, device by device.
abbrev pub type_of : Option Text → List Text
type_of none = []
type_of (some t) = t ∷ []

abbrev pub part_types : List Device → List Text
part_types [] = []
part_types (p ∷ ps) = type_of p.mnttype ++ part_types ps

abbrev pub blockdev_types : List Blockdev → List Text
blockdev_types [] = []
blockdev_types (d ∷ ds) = type_of d.dev.mnttype ++ part_types d.parts ++ blockdev_types ds

abbrev pub controller_types : List Controller → List Text
controller_types [] = []
controller_types (c ∷ cs) = blockdev_types c.blockdevs ++ controller_types cs

abbrev pub any : (Text → Bool) → List Text → Bool
any p [] = false
any p (t ∷ ts) = p t || any p ts

-- The two flags behind a list of types.
abbrev sum_up : List Text → Seen → Seen
sum_up ts s = record { zpool = s.zpool || any zpool_p ts; mdraid = s.mdraid || any mdraid_p ts }

or_assoc : (a b c : Bool) → (a || b) || c ≡ a || (b || c)
or_assoc true b c = refl
or_assoc false b c = refl

any-append : (p : Text → Bool) (xs ys : List Text) → any p (xs ++ ys) ≡ any p xs || any p ys
any-append p [] ys = refl
any-append p (x ∷ xs) ys =
    ap (λ b. p x || b) (any-append p xs ys) ∙ sym (or_assoc (p x) (any p xs) (any p ys))

Seen-ext : (s t : Seen) → s.zpool ≡ t.zpool → s.mdraid ≡ t.mdraid → s ≡ t
Seen-ext s t h k = cc

sum_up-append : (xs ys : List Text) (s : Seen) → sum_up (xs ++ ys) s ≡ sum_up ys (sum_up xs s)
sum_up-append xs ys s =
    Seen-ext _ _
      (ap (λ b. s.zpool || b) (any-append zpool_p xs ys)
        ∙ sym (or_assoc s.zpool (any zpool_p xs) (any zpool_p ys)))
      (ap (λ b. s.mdraid || b) (any-append mdraid_p xs ys)
        ∙ sym (or_assoc s.mdraid (any mdraid_p xs) (any mdraid_p ys)))

-- No type is of both kinds.
apart : (t : Text) → zpool_p t ≡ true → mdraid_p t ≡ false
unfolding zpool_p mdraid_p text_eq
apart t h =
    let e : t ≡ codes "zfs_member" = text_eq_sound t (codes "zfs_member") h in
    subst (λ u. mdraid_p u ≡ false) (sym e) refl

step_sum :
    (a b : Bool) (s : Seen)
    → (a ≡ true → b ≡ false)
    → (if a then record s { zpool = true } else if b then record s { mdraid = true } else s)
      ≡ record { zpool = s.zpool || (a || false); mdraid = s.mdraid || (b || false) }
step_sum true true s h = cc (h refl)
step_sum true false s h = Seen-ext _ _ (sym (or_true s.zpool)) (sym (or_false s.mdraid))
step_sum false true s h = Seen-ext _ _ (sym (or_false s.zpool)) (sym (or_true s.mdraid))
step_sum false false s h = Seen-ext _ _ (sym (or_false s.zpool)) (sym (or_false s.mdraid))

see-sum_up : (o : Option Text) (s : Seen) → see o s ≡ sum_up (type_of o) s
unfolding see
see-sum_up none s = Seen-ext _ _ (sym (or_false s.zpool)) (sym (or_false s.mdraid))
see-sum_up (some t) s = step_sum (zpool_p t) (mdraid_p t) s (apart t)

see_parts-sum_up : (ps : List Device) (s : Seen) → see_parts ps s ≡ sum_up (part_types ps) s
unfolding see_parts
see_parts-sum_up [] s = Seen-ext _ _ (sym (or_false s.zpool)) (sym (or_false s.mdraid))
see_parts-sum_up (p ∷ ps) s =
    see_parts-sum_up ps (see p.mnttype s)
    ∙ ap (sum_up (part_types ps)) (see-sum_up p.mnttype s)
    ∙ sym (sum_up-append (type_of p.mnttype) (part_types ps) s)

see_blockdevs-sum_up :
    (ds : List Blockdev) (s : Seen) → see_blockdevs ds s ≡ sum_up (blockdev_types ds) s
unfolding see_blockdevs
see_blockdevs-sum_up [] s = Seen-ext _ _ (sym (or_false s.zpool)) (sym (or_false s.mdraid))
see_blockdevs-sum_up (d ∷ ds) s =
    see_blockdevs-sum_up ds (see_parts d.parts (see d.dev.mnttype s))
    ∙ ap (sum_up (blockdev_types ds)) (
        see_parts-sum_up d.parts (see d.dev.mnttype s)
        ∙ ap (sum_up (part_types d.parts)) (see-sum_up d.dev.mnttype s)
        ∙ sym (sum_up-append (type_of d.dev.mnttype) (part_types d.parts) s))
    ∙ sym (sum_up-append (type_of d.dev.mnttype ++ part_types d.parts) (blockdev_types ds) s)

see_controllers-sum_up :
    (cs : List Controller) (s : Seen) → see_controllers cs s ≡ sum_up (controller_types cs) s
unfolding see_controllers
see_controllers-sum_up [] s = Seen-ext _ _ (sym (or_false s.zpool)) (sym (or_false s.mdraid))
see_controllers-sum_up (c ∷ cs) s =
    see_controllers-sum_up cs (see_blockdevs c.blockdevs s)
    ∙ ap (sum_up (controller_types cs)) (see_blockdevs-sum_up c.blockdevs s)
    ∙ sym (sum_up-append (blockdev_types c.blockdevs) (controller_types cs) s)

-- zpool is run exactly where some device or partition has the type zfs_member, mdadm exactly where one
-- has the type linux_raid_member, each once, zpool first.
pub assemble_aggregates-any :
    (sh : Shell) (cs : List Controller)
    → assemble_aggregates sh cs
      ≡ (if any zpool_p (controller_types cs)
          then (vspopen_drain sh (codes "zpool import -a -f")).1
          else [])
        ++ (if any mdraid_p (controller_types cs)
            then (vspopen_drain sh (codes "mdadm --assemble --scan")).1
            else [])
unfolding assemble_aggregates
assemble_aggregates-any sh cs =
    ap
      (λ s.
        (if s.zpool then (vspopen_drain sh (codes "zpool import -a -f")).1 else [])
        ++ (if s.mdraid then (vspopen_drain sh (codes "mdadm --assemble --scan")).1 else []))
      (see_controllers-sum_up cs (record { zpool = false; mdraid = false }))
