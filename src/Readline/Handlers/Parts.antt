-- ===== src/Readline/Handlers/Parts.antt =====
-- src/readline/readline.c: `partition`.
use growlight.Prelude.{
  ℕ, ◌-◌, ◌^◌, Bool, true, false, ◌||◌, Option, none, some, List, [], ◌∷◌, ◌==◌, bit_and,
  if◌then◌else◌, ltb,
}
use growlight.Text.{Text, codes, text_eq}
use growlight.Readline.{
  Locale, Backend, Call, Run, Done, give, ◌>>=◌, perform, usage, or_usage, lookup_wdevice,
  wcscase_eq,
}
use growlight.Readline.Numbers.{Spec, wstrtoull, wstrtoxu, extract_partition_spec}
use growlight.Readline.Listing.{list_partitions}
use growlight.Readline.Handlers.Disks.{sole}

-- A flag is one bit of 64.
unfoldable pub is_flag : ℕ → Bool
is_flag n =
    if ltb (2 ^ 63) n || n == 0 then false else if bit_and n (n - 1) == 0 then true else false

unfoldable pub on_off : Locale → Text → Option Bool
unfolding wcscase_eq
on_off l s =
    if wcscase_eq l s (codes "on")
    then some true
    else if wcscase_eq l s (codes "off")
    then some false
    else none

module _ {ℓ} {W : Type ℓ} (b : Backend W) where
  -- A step whose failure is answered by the usage.
  unfoldable pub demand {κ} : {A : Type κ} → Option A → Run W A
  unfolding usage
  demand none = usage b
  demand (some a) = give a

  unfoldable pub setflag : Locale → (d : Text) → List Text → Done W
  unfolding perform usage demand is_flag on_off wstrtoull
  setflag l d (state ∷ flag ∷ []) = do
    n ← demand (wstrtoull l flag)
    n' ← demand (if is_flag n then some n else none)
    on ← demand (on_off l state)
    perform b (Call.partition_set_flag d n' on)
  setflag l d _ = usage b

  unfoldable pub settype : Locale → (d : Text) → List Text → Done W
  unfolding perform usage demand wstrtoxu
  settype l d (type ∷ []) = do
    code ← demand (wstrtoxu l type)
    code' ← demand (if ltb 65535 code || code == 0 then none else some code)
    perform b (Call.partition_set_code d code')
  settype l d _ = usage b

  -- A sector that the specification does not give keeps what its variable held.
  abbrev pub sector : Option ℕ → ℕ
  sector none = b.uninit
  sector (some n) = n

  unfoldable pub add_with : (d name : Text) → Spec → (code : ℕ) → Done W
  unfolding perform usage
  add_with d name spec code = elim spec.size [
    | some n ↦ usage b
    | none ↦ perform b (Call.add_partition d name (sector spec.fsec) (sector spec.lsec) code)
  ]

  unfoldable pub add : Locale → (d : Text) → List Text → Done W
  unfolding usage demand add_with extract_partition_spec wstrtoxu
  add l d (sectors ∷ name ∷ type ∷ []) = do
    spec ← demand (extract_partition_spec l sectors)
    code ← demand (wstrtoxu l type)
    add_with d name spec code
  add l d _ = usage b

  -- A command with one word behind the device.
  unfoldable pub single : List Text → (Text → Done W) → Done W
  unfolding usage
  single (arg ∷ []) m = m arg
  single _ m = usage b

  unfoldable pub partition_with : Locale → (verb d : Text) → List Text → Done W
  unfolding perform usage sole single add
  partition_with l verb d more =
      if text_eq verb (codes "setflag")
      then setflag l d more
      else if text_eq verb (codes "settype")
      then settype l d more
      else if text_eq verb (codes "add")
      then add l d more
      else if text_eq verb (codes "del")
      then sole b more (perform b (Call.wipe_partition d))
      else if text_eq verb (codes "setname")
      then single more (λ name. perform b (Call.name_partition d name))
      else if text_eq verb (codes "setuuid")
      then single more (λ uuid. perform b (Call.uuid_partition d uuid))
      else usage b

  unfoldable pub partition : Locale → List Text → Done W
  unfolding perform usage or_usage lookup_wdevice list_partitions partition_with
  partition l [] = list_partitions b false
  partition l (verb ∷ []) =
      if text_eq verb (codes "-v")
      then list_partitions b true
      else if text_eq verb (codes "setflag")
      then perform b Call.print_partition_attributes
      else if text_eq verb (codes "settype")
      then perform b Call.print_partition_types
      else usage b
  partition l (verb ∷ name ∷ more) = do
    d ← or_usage b (lookup_wdevice b l name)
    partition_with l verb d more
