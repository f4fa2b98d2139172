-- ===== src/Devices.antt =====
-- The tables of block devices of src/growlight.c: `lookup_controller` and `lookup_device`, and the
-- string lists of src/growlight.h. A pointer to a device is the name under which it is found. A failed
-- allocation is left out, and so is the wait of `lookup_device` for a discovery in another thread;
-- `create_new_device` is a parameter.
pub mod Update
pub mod Names
pub mod Tests
use growlight.Prelude.{
  ℕ, zero, suc, ◌==◌, Bool, true, false, Option, none, some, List, [], ◌∷◌, ◌++◌, if◌then◌else◌,
  length,
}
use growlight.Prelude.Maybe.{is_some}
use growlight.Text.{Text, codes, text_eq, starts_with, drop}
use growlight.Device.{Device}

-- A device of a controller, with the partitions that its table lists.
pub record Blockdev : Type 0 where
  pub dev : Device
  pub removable : Bool
  pub parts : List Device

-- The driver is a null pointer for the controller of the virtual devices.
pub record Controller : Type 0 where
  pub ident : Text
  pub driver : Option Text
  pub blockdevs : List Blockdev

unfoldable pub string_included_p : List Text → Text → Bool
string_included_p [] s = false
string_included_p (t ∷ sl) s = if text_eq t s then true else string_included_p sl s

unfoldable pub add_string : List Text → Text → List Text
add_string sl s = sl ++ s ∷ []

unfoldable pub add_string_exclusive : List Text → Text → List Text
unfolding string_included_p
add_string_exclusive sl s = if string_included_p sl s then sl else sl ++ s ∷ []

unfoldable pub lookup_controller : Text → List Controller → Option Controller
lookup_controller name [] = none
lookup_controller name (c ∷ cs) = if text_eq name c.ident then some c else lookup_controller name cs

-- The count of bytes that one round of the loop takes off the name.
unfoldable pub prefix_size : Text → ℕ
unfolding starts_with
prefix_size name =
    if starts_with name (codes "/")
    then 1
    else if starts_with name (codes "./")
    then 2
    else if starts_with name (codes "../")
    then 3
    else if starts_with name (codes "dev/")
    then 4
    else 0

unfoldable pub strip_prefix : (fuel : ℕ) → Text → Option Text
unfolding drop
strip_prefix zero name = none
strip_prefix (suc f) name =
    let s = prefix_size name in
    let rest = strip_prefix f (drop s name) in if s == 0 then some name else rest

unfoldable pub find_part : Text → List Device → Option Device
find_part n [] = none
find_part n (p ∷ ps) = if text_eq n p.name then some p else find_part n ps

abbrev pub or_else {ℓ} : {A : Type ℓ} → Option A → Option A → Option A
or_else none o = o
or_else (some a) o = some a

unfoldable pub find_blockdev : Text → List Blockdev → Option Device
unfolding find_part
find_blockdev n [] = none
find_blockdev n (d ∷ ds) =
    if text_eq n d.dev.name then some d.dev else or_else (find_part n d.parts) (find_blockdev n ds)

unfoldable pub find_device : Text → List Controller → Option Device
unfolding find_blockdev
find_device n [] = none
find_device n (c ∷ cs) = or_else (find_blockdev n c.blockdevs) (find_device n cs)

-- The device, and the tables behind the discovery where it was not in them; `none` means that the
-- fuel has run out.
unfoldable pub lookup_device :
    (create_new_device : Text → List Controller → Option Device × List Controller)
    → Text
    → List Controller
    → Option Device × List Controller
lookup_device create_new_device name cs = elim (strip_prefix (suc (length name)) name) [
  | none ↦ (none, cs)
  | some n ↦ elim (find_device n cs) [ none ↦ create_new_device n cs | some d ↦ (some d, cs) ]
]

-- A write through the pointer to the device of that name.
unfoldable pub update_part : Text → (Device → Device) → List Device → List Device
update_part n f [] = []
update_part n f (p ∷ ps) = if text_eq n p.name then f p ∷ ps else p ∷ update_part n f ps

unfoldable pub update_blockdev : Text → (Device → Device) → List Blockdev → List Blockdev
unfolding update_part
update_blockdev n f [] = []
update_blockdev n f (d ∷ ds) =
    if text_eq n d.dev.name
    then record d { dev = f d.dev } ∷ ds
    else if is_some (find_part n d.parts)
    then record d { parts = update_part n f d.parts } ∷ ds
    else d ∷ update_blockdev n f ds

unfoldable pub update_device : Text → (Device → Device) → List Controller → List Controller
unfolding update_blockdev
update_device n f [] = []
update_device n f (c ∷ cs) =
    if is_some (find_blockdev n c.blockdevs)
    then record c { blockdevs = update_blockdev n f c.blockdevs } ∷ cs
    else c ∷ update_device n f cs
