-- ===== src/Match.antt =====
-- src/growlight.c: `devices_match_p` and `match_device`, the search for a device by its name, UUID
-- and label.
pub mod Related
mod Tests
use growlight.Prelude.{
  ℕ, ◌+◌, Bool, true, false, not, ◌&&◌, Option, none, some, List, [], ◌∷◌, ltb, if◌then◌else◌,
}
use growlight.Text.{Text, text_eq}

-- The members of a device that are compared.
pub record Marked : Type 0 where
  pub name : Text
  pub uuid : Option Text
  pub label : Option Text

pub record MarkedBlockdev : Type 0 where
  pub dev : Marked
  pub parts : List Marked

-- The comparison of two pointers to strings.
unfoldable pub same : Option Text → Option Text → Bool
same none none = true
same none (some b) = false
same (some a) none = false
same (some a) (some b) = text_eq a b

abbrev count : Bool → ℕ
count b = if b then 1 else 0

-- What the function returns: 0, -1 and 1.
pub data Verdict : Type 0 where
  unrelated ambiguous matching : Verdict

unfoldable pub devices_match_p : Marked → Marked → Verdict
unfolding same
devices_match_p d dd =
    let match =
      count (text_eq d.name dd.name)
      + count (same d.uuid dd.uuid)
      + count (same d.label dd.label) in
    let mismatch =
      count (not (text_eq d.name dd.name))
      + count (not (same d.uuid dd.uuid))
      + count (not (same d.label dd.label)) in
    if ltb 0 mismatch
    then (if ltb 0 match then Verdict.ambiguous else Verdict.unrelated)
    else Verdict.matching

-- How a part of the search ends: with a device, with NULL, or with no return.
pub data Search : Type 0 where
  found : Marked → Search
  stopped passed : Search

-- if(r < 0), behind the loop over the partitions or the test of the device.
abbrev after : Verdict → Search
after Verdict.unrelated = Search.passed
after Verdict.ambiguous = Search.stopped
after Verdict.matching = Search.passed

-- The loop over the partitions; `r` is what the last of them gave.
unfoldable pub match_parts : (d : Marked) → (r : Verdict) → List Marked → Search
unfolding devices_match_p
match_parts d r [] = after r
match_parts d r (dp ∷ dps) = elim (devices_match_p d dp) [
  | Verdict.matching ↦ Search.found dp
  | Verdict.ambiguous ↦ match_parts d Verdict.ambiguous dps
  | Verdict.unrelated ↦ match_parts d Verdict.unrelated dps
]

abbrev pub on_device : Marked → Verdict → Search
on_device x Verdict.matching = Search.found x
on_device x Verdict.ambiguous = Search.stopped
on_device x Verdict.unrelated = Search.passed

unfoldable pub match_blockdev : (partition : Bool) → (d : Marked) → MarkedBlockdev → Search
unfolding match_parts
match_blockdev true d cd = match_parts d Verdict.unrelated cd.parts
match_blockdev false d cd = on_device cd.dev (devices_match_p d cd.dev)

-- What a returned device and a returned NULL do to the rest of a loop.
abbrev pub or_search : Search → Search → Search
or_search (Search.found x) rest = Search.found x
or_search Search.stopped rest = Search.stopped
or_search Search.passed rest = rest

unfoldable pub match_blockdevs : (partition : Bool) → (d : Marked) → List MarkedBlockdev → Search
unfolding match_blockdev
match_blockdevs partition d [] = Search.passed
match_blockdevs partition d (cd ∷ cds) =
    or_search (match_blockdev partition d cd) (match_blockdevs partition d cds)

abbrev pub or_result : Search → Option Marked → Option Marked
or_result (Search.found x) rest = some x
or_result Search.stopped rest = none
or_result Search.passed rest = rest

-- The loop over the lists of block devices that the controllers keep.
unfoldable pub match_device :
    (partition : Bool) → (d : Marked) → List (List MarkedBlockdev) → Option Marked
unfolding match_blockdevs
match_device partition d [] = none
match_device partition d (c ∷ cs) =
    or_result (match_blockdevs partition d c) (match_device partition d cs)
