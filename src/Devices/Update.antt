-- ===== src/Devices/Update.antt =====
-- A write through the pointer that a lookup gave: what is found under each name afterwards.
use growlight.Prelude.{
  ◌≡◌, refl, Bool-cases, true, false, ◌⊎◌, inl, inr, Option, none, some, List, [], ◌∷◌,
  if◌then◌else◌, arith, subst,
}
use growlight.Text.{Text, text_eq, text_eq_sound}
use growlight.Device.{Device}
use growlight.Devices.{
  Blockdev, Controller, find_part, find_blockdev, find_device, update_part, update_blockdev,
  update_device,
}

abbrev pub omap {ℓ} : {A : Type ℓ} → (A → A) → Option A → Option A
omap f none = none
omap f (some a) = some (f a)

other_name : (m n x : Text) → text_eq m n ≡ false → text_eq n x ≡ true → text_eq m x ≡ false
other_name m n x h e = subst (λ t. text_eq m t ≡ false) (text_eq_sound n x e) h

module _ (f : Device → Device) (same : (d : Device) → (f d).name ≡ d.name) where
  find_part-update_part :
      (n : Text) (ps : List Device) → find_part n (update_part n f ps) ≡ omap f (find_part n ps)
  unfolding find_part update_part
  find_part-update_part n [] = refl
  find_part-update_part n (p ∷ ps) = ground (arith, same p, find_part-update_part n ps)

  find_part-update_part_other :
      (m n : Text) (ps : List Device)
      → text_eq m n ≡ false
      → find_part m (update_part n f ps) ≡ find_part m ps
  unfolding find_part update_part
  find_part-update_part_other m n [] h = refl
  find_part-update_part_other m n (p ∷ ps) h =
      ground (arith, same p, other_name m n p.name h, find_part-update_part_other m n ps h)

  find_blockdev-update :
      (n : Text) (ds : List Blockdev)
      → find_blockdev n (update_blockdev n f ds) ≡ omap f (find_blockdev n ds)
  unfolding find_blockdev update_blockdev
  find_blockdev-update n [] = refl
  find_blockdev-update n (d ∷ ds) =
      ground (arith, same d.dev, find_part-update_part n d.parts, find_blockdev-update n ds)

  find_blockdev-update_other :
      (m n : Text) (ds : List Blockdev)
      → text_eq m n ≡ false
      → find_blockdev m (update_blockdev n f ds) ≡ find_blockdev m ds
  unfolding find_blockdev update_blockdev
  find_blockdev-update_other m n [] h = refl
  find_blockdev-update_other m n (d ∷ ds) h = ground (
    arith,
    same d.dev,
    other_name m n d.dev.name h,
    find_part-update_part_other m n d.parts h,
    find_blockdev-update_other m n ds h,
  )

  pub find_device-update_device_same :
      (n : Text) (cs : List Controller)
      → find_device n (update_device n f cs) ≡ omap f (find_device n cs)
  unfolding find_device update_device
  find_device-update_device_same n [] = refl
  find_device-update_device_same n (c ∷ cs) =
      ground (arith, find_blockdev-update n c.blockdevs, find_device-update_device_same n cs)

  find_device-update_device_other :
      (m n : Text) (cs : List Controller)
      → text_eq m n ≡ false
      → find_device m (update_device n f cs) ≡ find_device m cs
  unfolding find_device update_device
  find_device-update_device_other m n [] h = refl
  find_device-update_device_other m n (c ∷ cs) h = ground (
    arith,
    find_blockdev-update_other m n c.blockdevs h,
    find_device-update_device_other m n cs h,
  )

  -- A write through the pointer of a name, which leaves the names of devices alone, changes what is
  -- found under that name by the write, and what is found under no other name.
  pub find_device-update_device :
      (m n : Text) (cs : List Controller)
      → find_device m (update_device n f cs)
        ≡ (if text_eq m n then omap f (find_device m cs) else find_device m cs)
  find_device-update_device m n cs = by_name (Bool-cases (text_eq m n))
    where
      by_name :
          (text_eq m n ≡ true) ⊎ (text_eq m n ≡ false)
          → find_device m (update_device n f cs)
            ≡ (if text_eq m n then omap f (find_device m cs) else find_device m cs)
      by_name (inl e) = rw e (
          subst (λ t. find_device m (update_device t f cs) ≡ omap f (find_device m cs))
            (text_eq_sound m n e) (find_device-update_device_same m cs))
      by_name (inr e) = rw e (find_device-update_device_other m n cs e)

find_part-name :
    (n : Text) (ps : List Device) (d : Device) → find_part n ps ≡ some d → text_eq n d.name ≡ true
unfolding find_part
find_part-name n [] d h = ground arith
find_part-name n (p ∷ ps) d h = ground (arith, find_part-name n ps d)

find_blockdev-name :
    (n : Text) (ds : List Blockdev) (d : Device)
    → find_blockdev n ds ≡ some d
    → text_eq n d.name ≡ true
unfolding find_blockdev
find_blockdev-name n [] d h = ground arith
find_blockdev-name n (b ∷ ds) d h =
    ground (arith, find_part-name n b.parts d, find_blockdev-name n ds d)

find_device-name-eq :
    (n : Text) (cs : List Controller) (d : Device)
    → find_device n cs ≡ some d
    → text_eq n d.name ≡ true
unfolding find_device
find_device-name-eq n [] d h = ground arith
find_device-name-eq n (c ∷ cs) d h =
    ground (arith, find_blockdev-name n c.blockdevs d, find_device-name-eq n cs d)

-- A device is found under its own name.
pub find_device-name :
    (n : Text) (cs : List Controller) (d : Device) → find_device n cs ≡ some d → n ≡ d.name
find_device-name n cs d h = text_eq_sound n d.name (find_device-name-eq n cs d h)
