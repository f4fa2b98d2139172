-- ===== src/Match/Tests.antt =====
-- Searches among two disks without a UUID.
use growlight.Prelude.{◌≡◌, refl, false, none, some, [], List, ◌∷◌}
use growlight.Text.{Text, codes, text_eq}
use growlight.Match.{
  Marked, MarkedBlockdev, same, devices_match_p, match_blockdev, match_blockdevs, match_device,
}
use growlight.Match.Related.{first_related, match_device-first_related}

abbrev named : Text → Marked
named n = record { name = n; uuid = none; label = none }

abbrev disks : List (List MarkedBlockdev)
disks =
    (record { dev = named (codes "sda"); parts = [] } ∷ [])
    ∷ (record { dev = named (codes "sdb"); parts = [] } ∷ [])
    ∷ []

match_device-first_related_example :
    match_device false (named (codes "sdb")) disks
    ≡ first_related (named (codes "sdb")) (named (codes "sda") ∷ named (codes "sdb") ∷ [])
match_device-first_related_example = match_device-first_related (named (codes "sdb")) disks

-- The first disk is found, and the second is not.
sda_found : match_device false (named (codes "sda")) disks ≡ some (named (codes "sda"))
unfolding match_device match_blockdevs match_blockdev devices_match_p same text_eq
sda_found = refl

sdb_missed : match_device false (named (codes "sdb")) disks ≡ none
unfolding match_device match_blockdevs match_blockdev devices_match_p same text_eq
sdb_missed = refl
