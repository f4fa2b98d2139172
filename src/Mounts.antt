-- ===== src/Mounts.antt =====
-- src/mounts.c: the lines of /proc/mounts, and mounting and unmounting. A failed allocation is left
-- out.
pub mod Parse
pub mod Handle
pub mod Unmount
pub mod Options
mod Tests
use growlight.Prelude.{
  ℕ, zero, suc, ◌≡◌, Bool, true, false, not, ◌&&◌, ◌||◌, Option, none, some, List, [], ◌∷◌, ltb,
  ◌==◌, if◌then◌else◌, length,
}
use growlight.Prelude.Maybe.{◌>>=◌, ◌>>◌}
use growlight.Text.{Text, codes, is_space, is_graph, text_eq, span, is_nil}

-- What `parse_mount` copies out of a line.
pub record Mount : Type 0 where
  pub dev : Text
  pub mnt : Text
  pub fs : Text
  pub ops : Text

-- One of the four fields: a word of graphic bytes that is not empty, and has a space behind it in the
-- map. The space is left.
unfoldable pub word : Text → Option (Text × Text)
unfolding span is_graph is_space
word s =
    let (w, r) = span is_graph s in
    elim r [ [] ↦ none | c ∷ r' ↦ if is_space c && not (is_nil w) then some (w, c ∷ r') else none ]

-- A field, and what stands behind its space.
unfoldable pub field : Text → Option (Text × Text)
field s = do (w, r) ← word s; elim r [ [] ↦ none | c ∷ r' ↦ some (w, r') ]

-- The bytes behind the next newline.
unfoldable pub next_line : Text → Option Text
next_line [] = none
next_line (c ∷ s) = if c == 10 then some s else next_line s

-- The map from a position on; what is returned is left of it, so that the count of bytes that the
-- source returns is the difference of the lengths.
unfoldable pub parse_mount : Text → Option (Mount × Text)
parse_mount s = do
  (dev, s1) ← field s
  (mnt, s2) ← field s1
  (fs, s3) ← field s2
  (ops, s4) ← word s3
  rest ← next_line s4
  some (record { dev = dev; mnt = mnt; fs = fs; ops = ops }, rest)

-- The loop of `parse_mounts` over a state, with the handler of a mount that tells a failure by true.
-- The result is true for the error value; `none` means that the fuel has run out.
module _ {S : Type 0} (handle : Mount → S → Bool × S) where
  unfoldable pub parse_mounts : (fuel : ℕ) → Text → Bool → S → Option (Bool × S)
  parse_mounts zero s bad st = none
  parse_mounts (suc f) [] bad st = some (bad, st)
  parse_mounts (suc f) (c ∷ s) bad st = elim (parse_mount (c ∷ s)) [
    | none ↦ some (true, st)
    | some (m, rest) ↦
        let (e, st') = handle m st in parse_mounts f rest (if e then true else bad) st'
  ]
