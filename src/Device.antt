-- ===== src/Device.antt =====
-- `struct device` of src/growlight.h, with the members that the modelled code reads; those that it
-- writes are members of `World`. The
-- union keyed off `layout` is flat: a member belongs to the arm that its comment names. A
-- partition is kept with the device that `partdev.parent` points to. Sector numbers and sizes are
-- uintmax_t, and names are lists of bytes (`name`) or of wide characters (`pname`).
use growlight.Prelude.{
  ℕ, ◌/◌, Bool, false, Option, none, some, List, String, ◌==◌, if◌then◌else◌, str_eq, sub64,
}
use growlight.Text.{Text}

-- The enum of the member `layout`.
pub data Layout : Type 0 where
  layout_none layout_mdadm layout_dm layout_partition layout_zpool : Layout

abbrev pub layout_code : Layout → ℕ
layout_code Layout.layout_none = 0
layout_code Layout.layout_mdadm = 1
layout_code Layout.layout_dm = 2
layout_code Layout.layout_partition = 3
layout_code Layout.layout_zpool = 4

abbrev pub layout_is : Layout → Layout → Bool
layout_is a b = layout_code a == layout_code b

-- The enum of the member `swapprio`: -2, -1, or a priority.
pub data SwapPrio : Type 0 where
  swap_invalid swap_inactive : SwapPrio
  swap_prio : ℕ → SwapPrio

pub record Device : Type 0 where
  pub name : Text
  pub size : ℕ
  pub logsec : ℕ
  pub physsec : ℕ
  pub mnttype : Option Text
  pub mntsize : ℕ
  pub mnt : List Text
  pub mntops : List Text
  pub swapprio : SwapPrio
  pub layout : Layout
  -- blkdev
  pub pttable : Option String
  pub first_usable : ℕ
  pub last_usable : ℕ
  -- mddev and dmdev
  pub md_pttable : Option String
  pub stride : ℕ
  pub swidth : ℕ
  pub dm_pttable : Option String

-- A device seen as a partition, through `partdev`.
pub record Partition : Type 0 where
  pub dev : Device
  pub parent : Device
  pub pnumber : ℕ
  pub extended : Bool
  pub logical : Bool
  pub ptype : ℕ
  pub fsector : ℕ

-- `first_usable_sector` and `last_usable_sector`; the divisions want `logsec` to be positive.
unfoldable pub first_usable_sector : Device → ℕ
first_usable_sector d =
    if layout_is d.layout Layout.layout_none then d.first_usable else d.physsec / d.logsec

unfoldable pub last_usable_sector : Device → ℕ
last_usable_sector d =
    if layout_is d.layout Layout.layout_none then d.last_usable else sub64 (d.size / d.logsec) 1

-- `name == NULL || strcmp(name, s)`, negated.
abbrev pub is_type : Option String → String → Bool
is_type none s = false
is_type (some t) s = str_eq t s
