-- ===== src/Mounts/Options.antt =====
-- `flag_for_mountop` of src/mounts.c, with the numbers of the flags of sys/mount.h.
use growlight.Prelude.{ℕ, ◌≡◌, ◌≢◌, refl, List, [], ◌∷◌, arith, ◌==◌, if◌then◌else◌}
use growlight.Text.{Text, codes, text_eq, text_eq_sound}

-- The table, of which the name NULL is the end.
abbrev pub mountops : List (Text × ℕ)
mountops =
    (codes "ro", 1)
    ∷ (codes "dirsync", 128)
    ∷ (codes "mand", 64)
    ∷ (codes "noatime", 1024)
    ∷ (codes "nodev", 4)
    ∷ (codes "nodiratime", 2048)
    ∷ (codes "noexec", 8)
    ∷ (codes "nosuid", 2)
    ∷ (codes "ro", 1)
    ∷ (codes "relatime", 2097152)
    ∷ (codes "silent", 32768)
    ∷ (codes "strictatime", 16777216)
    ∷ (codes "sync", 16)
    ∷ []

unfoldable pub find_flag : List (Text × ℕ) → Text → ℕ
find_flag [] op = 0
find_flag (m ∷ ms) op = if text_eq m.0 op then m.1 else find_flag ms op

unfoldable pub flag_for_mountop : Text → ℕ
unfolding find_flag
flag_for_mountop op = find_flag mountops op

-- The name of a flag in a table.
abbrev pub name_of : List (Text × ℕ) → ℕ → Text
name_of [] v = []
name_of (m ∷ ms) v = if m.1 == v then m.0 else name_of ms v

abbrev Named : List (Text × ℕ) → List (Text × ℕ) → Type 0
Named whole [] = Unit
Named whole (m ∷ ms) = (name_of whole m.1 ≡ m.0) × Named whole ms

find_flag-name_of :
    (whole ms : List (Text × ℕ)) (op : Text)
    → Named whole ms
    → find_flag ms op ≢ 0
    → name_of whole (find_flag ms op) ≡ op
unfolding find_flag
find_flag-name_of whole [] op n h = absurd (h refl)
find_flag-name_of whole (m ∷ ms) op n h =
    ground (arith, text_eq_sound m.0 op, find_flag-name_of whole ms op n.1, n.0)

-- An option that has a flag is the name of its flag, so that no two options have the same one.
pub flag_for_mountop-name_of :
    (op : Text) → flag_for_mountop op ≢ 0 → name_of mountops (flag_for_mountop op) ≡ op
unfolding flag_for_mountop
flag_for_mountop-name_of op h = find_flag-name_of mountops mountops op all_named h
  where
    all_named : Named mountops mountops
    all_named = (
      refl,
      (
        refl,
        (refl, (refl, (refl, (refl, (refl, (refl, (refl, (refl, (refl, (refl, (refl, tt))))))))))),
      ),
    )
