-- ===== src/Mounts/Handle/InStep.antt =====
-- The mounts of a device and their options go in step, as the dump of the mounts for the target wants.
use growlight.Prelude.{
  ℕ, suc, ◌≡◌, inl, inr, refl, ap, sym, subst, ◌∙◌, Bool, Bool-cases, true, false, Option, none,
  some, List, [], ◌∷◌, arith, length, if◌then◌else◌,
}
use growlight.Text.{Text, text_eq}
use growlight.Device.{Device}
use growlight.Devices.{
  Blockdev, Controller, or_else, add_string, find_part, find_blockdev, find_device, strip_prefix,
  lookup_device, update_device,
}
use growlight.Devices.Update.{omap, find_device-update_device}
use growlight.Target.{Host, System, mount_target}
use growlight.Mounts.Handle.{
  Kernel, change_type, add_mount, at_target, mount_size, mount_device, mount_found, handle_mount,
}

abbrev pub InStep : Device → Type 0
InStep d = length d.mnt ≡ length d.mntops

length-add_string : (l : List Text) (s : Text) → length (add_string l s) ≡ suc (length l)
unfolding add_string
length-add_string [] s = refl
length-add_string (m ∷ l) s = ap suc (length-add_string l s)

change_type-InStep : (fs : Text) (d : Device) → InStep d → InStep (change_type fs d)
unfolding change_type
change_type-InStep fs d h = ground (arith, h)

add_mount-InStep :
    (mnt fs ops : Text) (n : ℕ) (d : Device) → InStep d → InStep (add_mount mnt fs ops n d)
unfolding add_mount
add_mount-InStep mnt fs ops n d h =
    length-add_string (change_type fs d).mnt mnt
    ∙ ap suc (change_type-InStep fs d h)
    ∙ sym (length-add_string (change_type fs d).mntops ops)

change_type-name : (fs : Text) (d : Device) → (change_type fs d).name ≡ d.name
unfolding change_type
change_type-name fs d = ground arith

pub add_mount-name :
    (mnt fs ops : Text) (n : ℕ) (d : Device) → (add_mount mnt fs ops n d).name ≡ d.name
unfolding add_mount
add_mount-name mnt fs ops n d = change_type-name fs d

-- Whatever device is found in the tables is in step.
abbrev pub AllInStep : List Controller → Type 0
AllInStep cs = (n : Text) (d : Device) → find_device n cs ≡ some d → InStep d

abbrev pub PartsInStep : List Device → Type 0
PartsInStep [] = Unit
PartsInStep (p ∷ ps) = InStep p × PartsInStep ps

abbrev pub BlockdevsInStep : List Blockdev → Type 0
BlockdevsInStep [] = Unit
BlockdevsInStep (d ∷ ds) = InStep d.dev × PartsInStep d.parts × BlockdevsInStep ds

abbrev pub ControllersInStep : List Controller → Type 0
ControllersInStep [] = Unit
ControllersInStep (c ∷ cs) = BlockdevsInStep c.blockdevs × ControllersInStep cs

given-InStep : (p d : Device) → InStep p → some p ≡ some d → InStep d
given-InStep p d i k = subst InStep (ap (λ o. elim o [ none ↦ p | some x ↦ x ]) k) i

first-InStep :
    (b : Bool) (p : Device) (o : Option Device) (d : Device)
    → InStep p
    → (o ≡ some d → InStep d)
    → (if b then some p else o) ≡ some d
    → InStep d
first-InStep true p o d i ih k = given-InStep p d i k
first-InStep false p o d i ih k = ih k

either-InStep :
    (o q : Option Device) (d : Device)
    → (o ≡ some d → InStep d)
    → (q ≡ some d → InStep d)
    → or_else o q ≡ some d
    → InStep d
either-InStep none q d i j k = j k
either-InStep (some x) q d i j k = i k

PartsInStep-find :
    (ps : List Device) (n : Text) (d : Device) → PartsInStep ps → find_part n ps ≡ some d → InStep d
unfolding find_part
PartsInStep-find [] n d i h = ground arith
PartsInStep-find (p ∷ ps) n d i h =
    first-InStep (text_eq n p.name) p (find_part n ps) d i.0 (PartsInStep-find ps n d i.1) h

BlockdevsInStep-find :
    (ds : List Blockdev) (n : Text) (d : Device)
    → BlockdevsInStep ds
    → find_blockdev n ds ≡ some d
    → InStep d
unfolding find_blockdev
BlockdevsInStep-find [] n d i h = ground arith
BlockdevsInStep-find (b ∷ ds) n d i h =
    first-InStep (text_eq n b.dev.name) b.dev (or_else (find_part n b.parts) (find_blockdev n ds)) d
      i.0
      (either-InStep (find_part n b.parts) (find_blockdev n ds) d (PartsInStep-find b.parts n d i.1)
        (BlockdevsInStep-find ds n d i.2))
      h

-- If every device of the tables is in step, whatever is found is.
pub ControllersInStep-AllInStep : (cs : List Controller) → ControllersInStep cs → AllInStep cs
unfolding find_device
ControllersInStep-AllInStep [] i n d h = ground arith
ControllersInStep-AllInStep (c ∷ cs) i n d h =
    either-InStep (find_blockdev n c.blockdevs) (find_device n cs) d
      (BlockdevsInStep-find c.blockdevs n d i.0) (ControllersInStep-AllInStep cs i.1 n d) h

written-InStep :
    (f : Device → Device)
    → ((d : Device) → InStep d → InStep (f d))
    → (b : Bool) (o : Option Device) → ((d : Device) → o ≡ some d → InStep d)
    → (d : Device) → (if b then omap f o else o) ≡ some d
    → InStep d
written-InStep f keeps true none all d k = ground arith
written-InStep f keeps true (some b) all d k =
    subst InStep (ap (λ o. elim o [ none ↦ f b | some x ↦ x ]) k) (keeps b (all b refl))
written-InStep f keeps false o all d k = all d k

update_device-AllInStep :
    (f : Device → Device) (m : Text) (cs : List Controller)
    → ((d : Device) → (f d).name ≡ d.name)
    → ((d : Device) → InStep d → InStep (f d))
    → AllInStep cs
    → AllInStep (update_device m f cs)
update_device-AllInStep f m cs same keeps all n d h =
    written-InStep f keeps (text_eq n m) (find_device n cs) (all n) d
      (sym (find_device-update_device f same n m cs) ∙ h)

pub mount_target-controllers :
    (h : Host) (s : System) → (mount_target h s).1.controllers ≡ s.controllers
unfolding mount_target
mount_target-controllers h s = by_fd (h.open_dir s.growlight_target) refl
  where
    by_fd :
        (o : Option ℕ)
        → h.open_dir s.growlight_target ≡ o
        → (mount_target h s).1.controllers ≡ s.controllers
    by_fd none e = rw (mount_target, e) refl
    by_fd (some fd) e = rw (mount_target, e) refl

-- A discovery adds no device that is out of step, and gives none.
abbrev pub Discovers :
    (create_new_device : Text → List Controller → Option Device × List Controller) → Type 0
Discovers create =
    (name : Text) (cs : List Controller) → AllInStep cs → AllInStep (create name cs).1

module _ (create : Text → List Controller → Option Device × List Controller)
    (disc : Discovers create) where
  lookup_device-AllInStep :
      (name : Text) (cs : List Controller)
      → AllInStep cs
      → AllInStep (lookup_device create name cs).1
  unfolding lookup_device
  lookup_device-AllInStep name cs all = by_name (strip_prefix (suc (length name)) name) refl
    where
      by_found :
          (n : Text)
          → strip_prefix (suc (length name)) name ≡ some n
          → (o : Option Device) → find_device n cs ≡ o
          → AllInStep (lookup_device create name cs).1
      by_found n e none f = rw (lookup_device, e, f) (disc n cs all)
      by_found n e (some d) f = rw (lookup_device, e, f) all

      by_name :
          (o : Option Text)
          → strip_prefix (suc (length name)) name ≡ o
          → AllInStep (lookup_device create name cs).1
      by_name none e = rw (lookup_device, e) all
      by_name (some n) e = by_found n e (find_device n cs) refl

  mount_found-AllInStep :
      (k : Kernel) (mnt ops fs : Text) (size : ℕ) (d : Device) (s : System)
      → AllInStep s.controllers
      → AllInStep (mount_found create k mnt ops fs size d s).controllers
  unfolding mount_found
  mount_found-AllInStep k mnt ops fs size d s all =
      elim (Bool-cases (at_target s.growlight_target mnt)) [
        | inl e ↦
            rw (mount_found, e) (subst AllInStep (sym (mount_target-controllers k.host _)) written)
        | inr e ↦ rw (mount_found, e) written
      ]
    where
      written : AllInStep (update_device d.name (add_mount mnt fs ops size) s.controllers)
      written =
          update_device-AllInStep (add_mount mnt fs ops size) d.name s.controllers
            (add_mount-name mnt fs ops size) (add_mount-InStep mnt fs ops size) all

  -- Taking a mount into the tables, on every branch, leaves every device with as many options as mounts,
  -- if a discovery does.
  pub handle_mount-AllInStep :
      (k : Kernel) (mnt dev ops fs : Text) (s : System)
      → AllInStep s.controllers
      → AllInStep (handle_mount create k mnt dev ops fs s).controllers
  unfolding handle_mount
  handle_mount-AllInStep k mnt dev ops fs s all =
      by_size (mount_size k s.growlight_target mnt) (mount_device k dev fs) refl refl
    where
      by_found :
          (size : ℕ) (name : Text)
          → mount_size k s.growlight_target mnt ≡ some size
          → mount_device k dev fs ≡ some name
          → (o : Option Device) → (lookup_device create name s.controllers).0 ≡ o
          → AllInStep (handle_mount create k mnt dev ops fs s).controllers
      by_found size name e f none g =
          rw (handle_mount, e, f, g) (lookup_device-AllInStep name s.controllers all)
      by_found size name e f (some d) g =
          rw (handle_mount, e, f, g)
            (mount_found-AllInStep k mnt ops fs size d _
              (lookup_device-AllInStep name s.controllers all))

      by_size :
          (o : Option ℕ) (q : Option Text)
          → mount_size k s.growlight_target mnt ≡ o
          → mount_device k dev fs ≡ q
          → AllInStep (handle_mount create k mnt dev ops fs s).controllers
      by_size none q e f = rw (handle_mount, e) all
      by_size (some size) none e f = rw (handle_mount, e, f) all
      by_size (some size) (some name) e f =
          by_found size name e f (lookup_device create name s.controllers).0 refl
