-- ===== src/Target/Modes.antt =====
-- What becomes of the target root as it is set, mounted and unset.
use growlight.Prelude.{
  ℕ, false, ◌≡◌, ◌≢◌, ◌⊎◌, inl, inr, refl, ap, sym, ◌∙◌, Option, none, some, List, [], ◌∷◌, arith,
}
use growlight.Text.{Text}
use growlight.Device.{Device}
use growlight.Devices.{Blockdev, Controller}
use growlight.Target.{
  Host, System, mount_target, unmount_target, use_parts, use_blockdevs, use_new_target, set_target,
}

-- No target, and no directory open.
pub record IsIdle (s : System) : Type 0 where
  pub no_target : s.growlight_target ≡ none
  pub unopened : s.targfd ≡ none

-- `open` refuses a null pointer (EFAULT).
abbrev pub RefusesNull : Host → Type 0
RefusesNull h = h.open_dir none ≡ none

mount_target-refused :
    (h : Host) (s : System)
    → h.open_dir s.growlight_target ≡ none
    → (mount_target h s).1 ≡ record s { targfd = none }
unfolding mount_target
mount_target-refused h s e = rw (mount_target, e) refl

module _ (h : Host) (null : RefusesNull h) where
  mount_target-IsIdle : (s : System) → IsIdle s → (mount_target h s).1 ≡ s
  mount_target-IsIdle s i =
      mount_target-refused h s (ap h.open_dir i.no_target ∙ null)
      ∙ ap (λ fd. record s { targfd = fd }) (sym i.unopened)

  use_parts-IsIdle :
      (path : Text) (ps : List Device) (s : System) → IsIdle s → use_parts h path ps s ≡ s
  unfolding use_parts
  use_parts-IsIdle path [] s i = refl
  use_parts-IsIdle path (p ∷ ps) s i =
      ground (arith, mount_target-IsIdle s i, use_parts-IsIdle path ps s i)

  use_blockdevs-IsIdle :
      (path : Text) (ds : List Blockdev) (s : System) → IsIdle s → use_blockdevs h path ds s ≡ s
  unfolding use_blockdevs
  use_blockdevs-IsIdle path [] s i = refl
  use_blockdevs-IsIdle path (d ∷ ds) s i = ground (
    arith,
    use_parts-IsIdle path d.parts s i,
    mount_target-IsIdle s i,
    use_blockdevs-IsIdle path ds s i,
  )

  use_new_target-IsIdle :
      (path : Text) (cs : List Controller) (s : System) → IsIdle s → use_new_target h path cs s ≡ s
  unfolding use_new_target
  use_new_target-IsIdle path [] s i = refl
  use_new_target-IsIdle path (c ∷ cs) s i =
      ground (arith, use_blockdevs-IsIdle path c.blockdevs s i, use_new_target-IsIdle path cs s i)

  -- Setting a target while none is set, with no directory open: the target is the resolved path, and no
  -- directory is open, also where a device is mounted at that path.
  pub set_target-IsIdle :
      (path real : Text) (s : System)
      → IsIdle s
      → h.realpath path ≡ some real
      → set_target h (some path) s ≡ (false, record s { growlight_target = some real })
  unfolding set_target
  set_target-IsIdle path real s i r =
      rw (set_target, i.no_target, r, use_new_target-IsIdle real s.controllers s i) refl

-- The calls that change the target.
pub data Step (h : Host) : System → System → Type 0 where
  setting : (path : Option Text) (s : System) → Step h s (set_target h path s).1
  mounting : (s : System) → Step h s (mount_target h s).1
  unmounting : (s : System) → Step h s (unmount_target h s).1

pub data Reach (h : Host) (s : System) : System → Type 0 where
  here : Reach h s s
  next : {t u : System} → Reach h s t → Step h t u → Reach h s u

-- A directory is open only while there is a target.
abbrev pub IsTargeting : System → Type 0
IsTargeting s = (s.targfd ≡ none) ⊎ (s.growlight_target ≢ none)

mount_target_target :
    (h : Host) (s : System) → (mount_target h s).1.growlight_target ≡ s.growlight_target
unfolding mount_target
mount_target_target h s = by_fd (h.open_dir s.growlight_target) refl
  where
    by_fd :
        (o : Option ℕ)
        → h.open_dir s.growlight_target ≡ o
        → (mount_target h s).1.growlight_target ≡ s.growlight_target
    by_fd none e = rw (mount_target, e) refl
    by_fd (some fd) e = rw (mount_target, e) refl

unmount_target-IsTargeting : (h : Host) (s : System) → (unmount_target h s).1.targfd ≡ none
unfolding unmount_target
unmount_target-IsTargeting h s = by_fd s.targfd refl
  where
    by_fd : (o : Option ℕ) → s.targfd ≡ o → (unmount_target h s).1.targfd ≡ none
    by_fd none e = rw (unmount_target, e) e
    by_fd (some fd) e = rw (unmount_target, e) refl

some-not-none : {A : Type 0} (a : A) → some a ≢ none
some-not-none a e = ground arith

set_target-IsTargeting :
    (h : Host) (path : Option Text) (s : System)
    → IsTargeting s
    → IsTargeting (set_target h path s).1
unfolding set_target
set_target-IsTargeting h none s i = by_target s.growlight_target refl
  where
    by_target : (t : Option Text) → s.growlight_target ≡ t → IsTargeting (set_target h none s).1
    by_target none e = rw (set_target, e) i
    by_target (some t) e = rw (set_target, e) (inl (unmount_target-IsTargeting h _))
set_target-IsTargeting h (some path) s i = by_target s.growlight_target (h.realpath path) refl refl
  where
    by_target :
        (t r : Option Text)
        → s.growlight_target ≡ t
        → h.realpath path ≡ r
        → IsTargeting (set_target h (some path) s).1
    by_target none none e f = rw (set_target, e, f) i
    by_target none (some real) e f = rw (set_target, e, f) (inr (some-not-none real))
    by_target (some t) r e f = rw (set_target, e) i

module _ (h : Host) (null : RefusesNull h) where
  mount_target-IsTargeting : (s : System) → IsTargeting (mount_target h s).1
  mount_target-IsTargeting s = by_target s.growlight_target refl
    where
      by_target : (t : Option Text) → s.growlight_target ≡ t → IsTargeting (mount_target h s).1
      by_target none e =
          inl (ap (λ r. r.targfd) (mount_target-refused h s (ap h.open_dir e ∙ null)))
      by_target (some t) e = inr (λ z. some-not-none t (sym e ∙ sym (mount_target_target h s) ∙ z))

  Step-IsTargeting : {s t : System} → Step h s t → IsTargeting s → IsTargeting t
  Step-IsTargeting (setting path s) i = set_target-IsTargeting h path s i
  Step-IsTargeting (mounting s) i = mount_target-IsTargeting s
  Step-IsTargeting (unmounting s) i = inl (unmount_target-IsTargeting h s)

  -- Where `open` refuses a null pointer: whatever is set, unset, mounted and unmounted, from a state with
  -- no directory open, a directory is open only while there is a target.
  pub Reach-IsTargeting : {s t : System} → s.targfd ≡ none → Reach h s t → IsTargeting t
  Reach-IsTargeting e here = inl e
  Reach-IsTargeting e (next r st) = Step-IsTargeting st (Reach-IsTargeting e r)
