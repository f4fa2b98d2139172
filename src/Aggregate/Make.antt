-- ===== src/Aggregate/Make.antt =====
-- src/mdadm.c, src/zfs.c and src/aggregate.c: the commands that make an aggregate, and one that stops it.
use growlight.Prelude.{
  Bool, true, false, not, Option, none, some, List, [], ◌∷◌, ◌++◌, leb, if◌then◌else◌, length,
}
use growlight.Text.{Text, codes, text_eq}
use growlight.Text.Numbers.{print_nat}
use growlight.Device.{Device, Layout, layout_is}
use growlight.Popen.{Shell, bufsiz, vspopen_drain}
use growlight.Aggregate.{Maker}

-- " %s%s", with /dev/ before a device and nothing before the word missing.
unfoldable pub md_word : Text → Text
md_word comp = 32 ∷ ((if text_eq comp (codes "missing") then [] else codes "/dev/") ++ comp)

unfoldable pub zpool_word : Text → Text
zpool_word vdev = 32 ∷ (codes "/dev/" ++ vdev)

-- The loop, on the buffer so far; `none` where a word does not fit.
unfoldable pub join_words : (Text → Text) → (buf : Text) → List Text → Option Text
join_words word buf [] = some buf
join_words word buf (c ∷ comps) =
    let next = buf ++ word c in
    let rest = join_words word next comps in if leb bufsiz (length next) then none else rest

unfoldable pub generic_mdadm_create :
    Shell → (name metadata level : Text) → (comps : List Text) → (bitmap : Bool) → Bool × List Text
unfolding join_words md_word
generic_mdadm_create sh name metadata level comps bitmap = elim (join_words md_word [] comps) [
  | none ↦ (true, [])
  | some buf ↦ vspopen_drain sh (
      codes "mdadm -C \""
      ++ name
      ++ codes "\" --auto=md -e "
      ++ metadata
      ++ codes " -l "
      ++ level
      ++ codes " -N \""
      ++ name
      ++ codes "\" -n "
      ++ print_nat (length comps)
      ++ (if bitmap then codes " -b internal" else [])
      ++ buf)
]

-- Without a device the buffer is read before it is written: `none`.
unfoldable pub generic_make_zpool :
    Shell → (type name : Text) → (vdevs : List Text) → Option (Bool × List Text)
unfolding join_words zpool_word
generic_make_zpool sh type name [] = none
generic_make_zpool sh type name (v ∷ vdevs) = some (elim (join_words zpool_word [] (v ∷ vdevs)) [
  | none ↦ (true, [])
  | some buf ↦
      vspopen_drain sh
        (codes "zpool create -f -oashift=12 " ++ name ++ codes " " ++ type ++ codes " " ++ buf)
])

-- The one device is looked up, and cryptondev is a parameter.
unfoldable pub make_crypt :
    (lookup : Text → Option Device) → (cryptondev : Device → Bool) → List Text → Bool
make_crypt lookup cryptondev (name ∷ []) = elim (lookup name) [
  | none ↦ true
  | some d ↦ cryptondev d
]
make_crypt lookup cryptondev _ = true

-- The functions that the table points to.
unfoldable pub run_maker :
    Shell
    → (lookup : Text → Option Device) → (cryptondev : Device → Bool) → Maker
    → (name : Text) → (comps : List Text) → Option (Bool × List Text)
unfolding generic_mdadm_create generic_make_zpool make_crypt
run_maker sh lookup cryptondev Maker.make_mdraid0 name comps =
    some (generic_mdadm_create sh name (codes "1.2") (codes "raid0") comps false)
run_maker sh lookup cryptondev Maker.make_mdraid1 name comps =
    some (generic_mdadm_create sh name (codes "1.2") (codes "raid1") comps true)
run_maker sh lookup cryptondev Maker.make_mdraid4 name comps =
    some (generic_mdadm_create sh name (codes "1.2") (codes "raid4") comps true)
run_maker sh lookup cryptondev Maker.make_mdraid5 name comps =
    some (generic_mdadm_create sh name (codes "1.2") (codes "raid5") comps true)
run_maker sh lookup cryptondev Maker.make_mdraid6 name comps =
    some (generic_mdadm_create sh name (codes "1.2") (codes "raid6") comps true)
run_maker sh lookup cryptondev Maker.make_mdraid10 name comps =
    some (generic_mdadm_create sh name (codes "1.2") (codes "raid10") comps true)
run_maker sh lookup cryptondev Maker.make_zmirror name comps =
    generic_make_zpool sh (codes "mirror") name comps
run_maker sh lookup cryptondev Maker.make_raidz1 name comps =
    generic_make_zpool sh (codes "raidz1") name comps
run_maker sh lookup cryptondev Maker.make_raidz2 name comps =
    generic_make_zpool sh (codes "raidz2") name comps
run_maker sh lookup cryptondev Maker.make_raidz3 name comps =
    generic_make_zpool sh (codes "raidz3") name comps
run_maker sh lookup cryptondev Maker.make_crypt name comps =
    some (make_crypt lookup cryptondev comps, [])

-- A null pointer is `none`.
unfoldable pub destroy_mdadm : Shell → Option Device → Bool × List Text
destroy_mdadm sh none = (true, [])
destroy_mdadm sh (some d) =
    if not (layout_is d.layout Layout.layout_mdadm)
    then (true, [])
    else vspopen_drain sh (codes "mdadm --stop /dev/" ++ d.name)
