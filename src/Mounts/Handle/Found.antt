-- ===== src/Mounts/Handle/Found.antt =====
-- What the tables hold after mounts were taken in.
use growlight.Prelude.{
  ℕ, suc, ◌≡◌, refl, ap, ◌∙◌, Bool, Bool-cases, inl, inr, false, true, none, Option, some, List, [],
  ◌∷◌, ◌++◌, if◌then◌else◌, arith, length,
}
use growlight.Text.{Text, text_eq}
use growlight.Device.{Device}
use growlight.Devices.{add_string, Controller, find_device, lookup_device, update_device}
use growlight.Devices.Update.{omap, find_device-update_device_same}
use growlight.Target.{System}
use growlight.Mounts.Parse.{parse_mounts_keeps}
use growlight.Mounts.Handle.{
  Kernel, add_mount, change_type, at_target, mount_size, mount_device, mount_found, handle_mount,
  take_mount, read_mounts,
}
use growlight.Mounts.Handle.InStep.{
  AllInStep, Discovers, add_mount-name, mount_target-controllers, handle_mount-AllInStep,
}

-- Whether the mounts that a device has stay: it has no type, or the same one.
abbrev pub stays : (fs : Text) → Option Text → Bool
stays fs none = true
stays fs (some t) = text_eq t fs

-- What a device is with a mount more.
pub record HasMount (mnt fs ops : Text) (bytes : ℕ) (old new : Device) : Type 0 where
  pub name : new.name ≡ old.name
  pub mounts : new.mnt ≡ (if stays fs old.mnttype then old.mnt else []) ++ mnt ∷ []
  pub options : new.mntops ≡ (if stays fs old.mnttype then old.mntops else []) ++ ops ∷ []
  pub size : new.mntsize ≡ bytes
  pub type : new.mnttype ≡ (if stays fs old.mnttype then old.mnttype else some fs)

change_type-stays :
    (fs : Text) (d : Device)
    → change_type fs d
      ≡ (if stays fs d.mnttype then d else record d { mnttype = some fs; mntops = []; mnt = [] })
unfolding change_type
change_type-stays fs d =
    elim d.mnttype
      as (λ o.
        (elim o [
          | none ↦ d
          | some t ↦
              if text_eq t fs then d else record d { mnttype = some fs; mntops = []; mnt = [] }
        ])
        ≡ (if stays fs o then d else record d { mnttype = some fs; mntops = []; mnt = [] })) [
          | none ↦ refl
          | some t ↦ refl
        ]

add_mount-HasMount :
    (mnt fs ops : Text) (bytes : ℕ) (d : Device)
    → HasMount mnt fs ops bytes d (add_mount mnt fs ops bytes d)
unfolding add_mount add_string
add_mount-HasMount mnt fs ops bytes d = elim (Bool-cases (stays fs d.mnttype)) [
  | inl h ↦ rw (add_mount, change_type-stays fs d, h) (by_kept h)
  | inr h ↦ rw (add_mount, change_type-stays fs d, h) (by_lost h)
]
  where
    by_kept :
        stays fs d.mnttype ≡ true
        → HasMount mnt fs ops bytes d
            (record d { mnt = d.mnt ++ mnt ∷ []; mntops = d.mntops ++ ops ∷ []; mntsize = bytes })
    by_kept h = record {
      name = refl;
      mounts = rw h refl;
      options = rw h refl;
      size = refl;
      type = rw h refl;
    }

    by_lost :
        stays fs d.mnttype ≡ false
        → HasMount mnt fs ops bytes d
            (record d { mnttype = some fs; mnt = mnt ∷ []; mntops = ops ∷ []; mntsize = bytes })
    by_lost h = record {
      name = refl;
      mounts = rw h refl;
      options = rw h refl;
      size = refl;
      type = rw h refl;
    }

module _ (create : Text → List Controller → Option Device × List Controller) where
  mount_found-controllers :
      (k : Kernel) (mnt ops fs : Text) (size : ℕ) (d : Device) (s : System)
      → (mount_found create k mnt ops fs size d s).controllers
        ≡ update_device d.name (add_mount mnt fs ops size) s.controllers
  unfolding mount_found
  mount_found-controllers k mnt ops fs size d s =
      elim (Bool-cases (at_target s.growlight_target mnt)) [
        | inl e ↦ rw (mount_found, e) (mount_target-controllers k.host _)
        | inr e ↦ rw (mount_found, e) refl
      ]

  handle_mount-mount_found :
      (k : Kernel) (mnt dev ops fs name : Text) (size : ℕ) (d : Device) (s : System)
      → mount_size k s.growlight_target mnt ≡ some size
      → mount_device k dev fs ≡ some name
      → lookup_device create name s.controllers ≡ (some d, s.controllers)
      → handle_mount create k mnt dev ops fs s ≡ mount_found create k mnt ops fs size d s
  unfolding handle_mount
  handle_mount-mount_found k mnt dev ops fs name size d s e f g =
      rw (handle_mount, e, f, g)
        (ap (λ l. mount_found create k mnt ops fs size d (record s { controllers = l.1 })) g)

  -- A mount whose size is known and whose device is in the tables: the device that is found under its
  -- name afterwards has the path and the options at the end of its lists, and the size. What it had of
  -- mounts and options stands before them if it had no type or the same one; if it had another type, they
  -- are gone, and the type is the new one.
  pub handle_mount-found :
      (k : Kernel) (mnt dev ops fs name : Text) (size : ℕ) (d : Device) (s : System)
      → mount_size k s.growlight_target mnt ≡ some size
      → mount_device k dev fs ≡ some name
      → lookup_device create name s.controllers ≡ (some d, s.controllers)
      → find_device d.name s.controllers ≡ some d
      → (d' : Device) × (find_device d.name (handle_mount create k mnt dev ops fs s).controllers
          ≡ some d')
        × HasMount mnt fs ops size d d'
  handle_mount-found k mnt dev ops fs name size d s e f g h = (
    add_mount mnt fs ops size d,
    ap (λ t. find_device d.name t.controllers)
          (handle_mount-mount_found k mnt dev ops fs name size d s e f g)
        ∙ ap (find_device d.name) (mount_found-controllers k mnt ops fs size d s)
        ∙ find_device-update_device_same (add_mount mnt fs ops size)
            (add_mount-name mnt fs ops size) d.name s.controllers
        ∙ ap (omap (add_mount mnt fs ops size)) h,
    add_mount-HasMount mnt fs ops size d,
  )

  -- Reading the mounts, whatever the text is, comes to an end. If every device had as many options as
  -- mounts before, and the discovery of a device keeps that, then every device has so afterwards.
  pub read_mounts-AllInStep :
      (k : Kernel) (text : Text) (s : System)
      → Discovers create
      → AllInStep s.controllers
      → (r : Bool × System) × (read_mounts create k text s ≡ some r) × AllInStep r.1.controllers
  unfolding read_mounts take_mount
  read_mounts-AllInStep k text s disc all =
      parse_mounts_keeps (take_mount create k) (λ u. AllInStep u.controllers)
        (λ m u p. handle_mount-AllInStep create disc k m.mnt m.dev m.ops m.fs u p)
        (suc (length text)) text false s (omega arith) all
