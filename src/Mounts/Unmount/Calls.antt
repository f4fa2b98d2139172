-- ===== src/Mounts/Unmount/Calls.antt =====
-- Which mounts are taken down.
use growlight.Prelude.{
  ◌≡◌, ◌≢◌, ◌⊎◌, refl, ap, Bool-cases, inl, inr, true, false, Option, List, [], ◌∷◌, if◌then◌else◌,
}
use growlight.Text.{Text}
use growlight.Device.{Device}
use growlight.Target.{System, unmount_target}
use growlight.Mounts.Handle.{Kernel, at_target}
use growlight.Mounts.Unmount.{unmount_all, unmount}

-- The kernel takes down what it is asked to.
abbrev pub Unmounts : Kernel → Type 0
Unmounts k = (m : Text) → k.umount2 m ≡ false

-- The mounts that are not at a path.
abbrev pub others : (path : Option Text) → List Text → List Text
others path [] = []
others path (m ∷ ms) = if at_target path m then others path ms else m ∷ others path ms

unmount_all-others :
    (k : Kernel) (path : Option Text) (ms : List Text) (s : System)
    → Unmounts k
    → ((unmount_all k path ms s).0.0 ≡ false) × ((unmount_all k path ms s).1 ≡ others path ms)
unfolding unmount_all
unmount_all-others k path [] s u = (refl, refl)
unmount_all-others k path (m ∷ ms) s u =
    by_path (unmount_all-others k path ms s u)
      (unmount_all-others k path ms
        (if at_target s.growlight_target m then (unmount_target k.host s).1 else s) u)
      (Bool-cases (at_target path m))
  where
    by_path :
        ((unmount_all k path ms s).0.0 ≡ false) × ((unmount_all k path ms s).1 ≡ others path ms)
        → ((unmount_all k path ms
              (if at_target s.growlight_target m then (unmount_target k.host s).1 else s)).0.0
            ≡ false)
          × ((unmount_all k path ms
                (if at_target s.growlight_target m then (unmount_target k.host s).1 else s)).1
              ≡ others path ms)
        → (at_target path m ≡ true) ⊎ (at_target path m ≡ false)
        → ((unmount_all k path (m ∷ ms) s).0.0 ≡ false)
          × ((unmount_all k path (m ∷ ms) s).1 ≡ others path (m ∷ ms))
    by_path a b (inl e) = rw (unmount_all, e) a
    by_path a b (inr e) = rw (unmount_all, e, u m) (b.0, ap (λ c. m ∷ c) b.1)

-- Unmounting a mounted device takes down, where the kernel does not refuse, every one of its mounts that
-- is not at the path that is passed, in order, and all of them where no path is passed.
pub unmount-others :
    (k : Kernel) (d : Device) (path : Option Text) (s : System)
    → Unmounts k
    → d.mnt ≢ []
    → ((unmount k d path s).0.0 ≡ false) × ((unmount k d path s).1 ≡ others path d.mnt)
unfolding unmount
unmount-others k d path s u some_mount = by_mounts d.mnt refl
  where
    by_mounts :
        (l : List Text)
        → d.mnt ≡ l
        → ((unmount k d path s).0.0 ≡ false) × ((unmount k d path s).1 ≡ others path d.mnt)
    by_mounts [] e = absurd (some_mount e)
    by_mounts (m ∷ ms) e = rw (unmount, e) (unmount_all-others k path (m ∷ ms) s u)
