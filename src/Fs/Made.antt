-- ===== src/Fs/Made.antt =====
-- What comes of making a file system.
use growlight.Prelude.{
  ◌≡◌, ◌⊎◌, inl, inr, refl, ap, ◌∙◌, Bool, Bool-cases, true, false, not, ◌&&◌, ◌||◌, Option, none,
  some, List, [], ◌∷◌, ◌++◌, arith, leb, ◌==◌, if◌then◌else◌, length,
}
use growlight.Prelude.Maybe.{is_some}
use growlight.Text.{Text, codes, text_eq, text_eq_sound}
use growlight.Device.{Device, Layout, layout_is}
use growlight.Popen.{Shell}
use growlight.Fs.Table.{FsType, Mkfs, fss}
use growlight.Fs.Commands.{Marshal, run_mkfs, ext_mkfs}
use growlight.Fs.{
  find_fs, is_swapping, name_has_quote, make_with, make_filesystem, made_types, get_fs_types,
}

-- The device that a run leaves.
abbrev pub made : (pty : Text) → Device → Bool → Device
made pty d failed = if failed then d else record d { mnttype = some pty }

abbrev Leaves : (pty : Text) → Device → (Bool × Device) × List Text → Type 0
Leaves pty d r = r.0.1 ≡ made pty d r.0.0

make_with-Leaves :
    (sh : Shell) (swapon : Text → Bool) (d : Device) (no_parts : Bool) (pty : Text)
    (name : Option Text) (pt : FsType)
    → Leaves pty d (make_with sh swapon d no_parts pty name pt)
unfolding make_with
make_with-Leaves sh swapon d no_parts pty name pt = ground arith

-- Making a file system leaves the device as it was if it fails, and otherwise gives it the type that was
-- asked for and changes nothing else.
pub make_filesystem-Leaves :
    (sh : Shell) (swapon : Text → Bool) (d : Device) (no_parts : Bool) (pty : Text)
    (name : Option Text)
    → (make_filesystem sh swapon d no_parts pty name).0.1
      ≡ made pty d (make_filesystem sh swapon d no_parts pty name).0.0
unfolding make_filesystem
make_filesystem-Leaves sh swapon d no_parts pty name =
    by_guard (Bool-cases (is_some d.mnttype || is_swapping d.swapprio || name_has_quote name))
      (find_fs pty fss) refl
  where
    by_guard :
        (is_some d.mnttype || is_swapping d.swapprio || name_has_quote name ≡ true)
          ⊎ (is_some d.mnttype || is_swapping d.swapprio || name_has_quote name ≡ false)
        → (o : Option FsType) → find_fs pty fss ≡ o
        → Leaves pty d (make_filesystem sh swapon d no_parts pty name)
    by_guard (inl e) o f = rw (make_filesystem, e) refl
    by_guard (inr e) none f = rw (make_filesystem, e, f) refl
    by_guard (inr e) (some pt) f =
        rw (make_filesystem, e, f) (make_with-Leaves sh swapon d no_parts pty name pt)

-- A device that has a file system, or is an active swap, or for which a name with a quotation mark is
-- given, is refused before a command is run.
pub make_filesystem_guarded :
    (sh : Shell) (swapon : Text → Bool) (d : Device) (no_parts : Bool) (pty : Text)
    (name : Option Text)
    → (is_some d.mnttype ≡ true) ⊎ (is_swapping d.swapprio ≡ true) ⊎ (name_has_quote name ≡ true)
    → make_filesystem sh swapon d no_parts pty name ≡ ((true, d), [])
unfolding make_filesystem
make_filesystem_guarded sh swapon d no_parts pty name (inl e) = rw (make_filesystem, e) refl
make_filesystem_guarded sh swapon d no_parts pty name (inr (inl e)) = ground (arith, e)
make_filesystem_guarded sh swapon d no_parts pty name (inr (inr e)) = ground (arith, e)

ext_mkfs-striped :
    (sh : Shell) (program dev : Text) (m : Marshal) (name : Text)
    → (m.stride == 0) ≡ false
    → (m.swidth == 0) ≡ false
    → (ext_mkfs sh program dev m name).0 ≡ false
unfolding ext_mkfs
ext_mkfs-striped sh program dev m name s w = ground (arith, s, w)

ext4 : (o : FsType) × (find_fs (codes "ext4") fss ≡ some o) × (o.mkfs ≡ some Mkfs.ext4_mkfs)
unfolding find_fs text_eq
ext4 = (_, refl, refl)

abbrev striped : Device → Option Text → Bool → Marshal
striped d name force = record { name = name; force = force; stride = d.stride; swidth = d.swidth }

make_with-striped :
    (sh : Shell) (swapon : Text → Bool) (d : Device) (no_parts : Bool) (pty : Text)
    (name : Option Text) (pt : FsType)
    → pt.mkfs ≡ some Mkfs.ext4_mkfs
    → leb 4096 (length (codes "/dev/" ++ d.name)) ≡ false
    → layout_is d.layout Layout.layout_mdadm ≡ true
    → ((force : Bool)
        → (run_mkfs sh swapon Mkfs.ext4_mkfs (codes "/dev/" ++ d.name) (striped d name force)).0
          ≡ false)
    → (make_with sh swapon d no_parts pty name pt).0 ≡ (false, record d { mnttype = some pty })
unfolding make_with
make_with-striped sh swapon d no_parts pty name pt k l a r =
    rw (make_with, l, k, a, r (not (layout_is d.layout Layout.layout_partition) && no_parts)) refl

refused_not :
    (sh : Shell) (swapon : Text → Bool) (d : Device) (no_parts : Bool) (pty : Text)
    (name : Option Text) (pt : FsType)
    → is_some d.mnttype ≡ false
    → is_swapping d.swapprio ≡ false
    → name_has_quote name ≡ false
    → find_fs pty fss ≡ some pt
    → make_filesystem sh swapon d no_parts pty name ≡ make_with sh swapon d no_parts pty name pt
unfolding make_filesystem
refused_not sh swapon d no_parts pty name pt t p q f = simp (make_filesystem, t, p, q, f)

-- Asked for ext4 on an MD array with a stride and a stripe width, which has no file system and is no
-- active swap, with a label without quotes or none and a path of less than 4096 bytes, the run succeeds
-- and the device is given the type, whatever the shell answers.
pub make_filesystem-striped :
    (sh : Shell) (swapon : Text → Bool) (d : Device) (no_parts : Bool) (name : Option Text)
    → is_some d.mnttype ≡ false
    → is_swapping d.swapprio ≡ false
    → name_has_quote name ≡ false
    → leb 4096 (length (codes "/dev/" ++ d.name)) ≡ false
    → layout_is d.layout Layout.layout_mdadm ≡ true
    → (d.stride == 0) ≡ false
    → (d.swidth == 0) ≡ false
    → (make_filesystem sh swapon d no_parts (codes "ext4") name).0
      ≡ (false, record d { mnttype = some (codes "ext4") })
unfolding make_filesystem make_with run_mkfs
make_filesystem-striped sh swapon d no_parts name t p q l a s w =
    ap (λ r. r.0) (refused_not sh swapon d no_parts (codes "ext4") name ext4.0 t p q ext4.1)
    ∙ make_with-striped sh swapon d no_parts (codes "ext4") name ext4.0 ext4.2 l a (λ force.
      ext_mkfs-striped sh (codes "mkfs.ext4") (codes "/dev/" ++ d.name) (striped d name force) _ s
        w)

-- The types of a table that have a function.
abbrev pub has_mkfs : Option FsType → Bool
has_mkfs none = false
has_mkfs (some t) = is_some t.mkfs

abbrev pub listed : Text → List (Text × Text) → Bool
listed n [] = false
listed n (t ∷ ts) = text_eq t.0 n || listed n ts

abbrev absent : Text → List FsType → Bool
absent n ts = not (is_some (find_fs n ts))

-- No name stands twice.
abbrev distinct : List FsType → Bool
distinct [] = true
distinct (t ∷ ts) = absent t.name ts && distinct ts

absent-listed :
    (n : Text) (ts : List FsType) → absent n ts ≡ true → listed n (made_types ts) ≡ false
unfolding find_fs made_types
absent-listed n [] h = refl
absent-listed n (t ∷ ts) h = ground (arith, absent-listed n ts)

listed_lem :
    (n : Text) (ts : List FsType)
    → distinct ts ≡ true
    → listed n (made_types ts) ≡ has_mkfs (find_fs n ts)
unfolding find_fs made_types
listed_lem n [] h = refl
listed_lem n (t ∷ ts) h =
    ground (arith, absent-listed t.name ts, text_eq_sound t.name n, listed_lem n ts)

fss-distinct : distinct fss ≡ true
unfolding find_fs text_eq
fss-distinct = refl

-- The types that are offered are exactly those of the table for which there is a function that makes
-- them.
pub listed-get_fs_types : (n : Text) → listed n get_fs_types ≡ has_mkfs (find_fs n fss)
unfolding get_fs_types
listed-get_fs_types n = listed_lem n fss fss-distinct
