-- ===== src/Swap/Lines.antt =====
-- `parse_swaps` of src/swap.c: the lines of /proc/swaps. `none` stands for a read behind the end of the
-- line. The event for the user interface is left out, and so is the descriptor of the file.
pub mod Read
use growlight.Prelude.{
  ℕ, zero, suc, ◌+◌, ◌-◌, ◌*◌, ◌%◌, ◌^◌, Bool, true, false, not, ◌&&◌, ◌||◌, Option, none, some,
  List, [], ◌∷◌, ◌++◌, leb, ltb, ◌==◌, if◌then◌else◌, length,
}
use growlight.Prelude.Maybe.{◌>>=◌}
use growlight.Text.{Text, codes, text_eq, is_graph, is_space, is_nil, span}
use growlight.Text.Strtoull.{Strtoull, strtoull}
use growlight.Device.{Device, SwapPrio}
use growlight.Devices.{Controller, lookup_device, update_device}
use growlight.Swap.{swap_maxprio}

-- One call of `fgets` with room for `n` bytes: a line, with its newline where it is in the room.
unfoldable pub fgets : (n : ℕ) → Text → Text × Text
fgets zero s = ([], s)
fgets (suc n) [] = ([], [])
fgets (suc n) (c ∷ s) =
    let (line, rest) = fgets n s in if c == 10 then (c ∷ [], s) else (c ∷ line, rest)

-- The bytes behind the one that the zero byte is written over.
abbrev pub tail? : Text → Option Text
tail? [] = none
tail? (c ∷ s) = some s

-- A field that starts with whatever byte is there: that byte, the graphic ones behind it, and the rest.
unfoldable pub token : Text → Option (Text × Text)
unfolding span is_graph
token [] = none
token (c ∷ s) = let (w, r) = span is_graph s in some (c ∷ w, r)

-- The name and the type, and what stands behind the type.
unfoldable pub swap_type : (line : Text) → Option (Text × Text × Text)
unfolding token is_space
swap_type line = do
  let (name, r) = span is_graph line
  r1 ← tail? r
  (type, r2) ← token (span is_space r1).1
  some (name, type, r2)

-- The size, as it is written.
unfoldable pub swap_size : Text → Option Text
unfolding token
swap_size r = do r1 ← tail? r; (size, r2) ← token r1; some size

-- The writes through the pointer to the device, for a size that is taken.
abbrev pub take_swap : (kb : ℕ) → Device → Device
take_swap kb d = elim d.swapprio [
  | SwapPrio.swap_invalid ↦ record d {
    mntsize = (kb * 1024) % 2 ^ 64;
    mnttype = some (codes "swap");
    swapprio = swap_maxprio;
  }
  | SwapPrio.swap_inactive ↦ record d { mntsize = (kb * 1024) % 2 ^ 64 }
  | SwapPrio.swap_prio p ↦ record d { mntsize = (kb * 1024) % 2 ^ 64 }
]

module _ (create_new_device : Text → List Controller → Option Device × List Controller) where
  -- A line of a device: true is the error, in which the size may have been written already.
  unfoldable pub swap_device : (name size : Text) → List Controller → Bool × List Controller
  swap_device name size cs =
      let (found, cs') = lookup_device create_new_device name cs in
      let n = strtoull size in
      elim found [
        | none ↦ (true, cs')
        | some d ↦
            if n.erange || n.value == 0 || not (is_nil n.end)
            then (true, update_device d.name (λ e. record e { mntsize = n.value }) cs')
            else (false, update_device d.name (take_swap n.value) cs')
      ]

  unfoldable pub swap_line : (line : Text) → List Controller → Option (Bool × List Controller)
  unfolding swap_type swap_size swap_device
  swap_line line cs = do
    (name, type, r) ← swap_type line
    elim (text_eq type (codes "file")) [
      | true ↦ some (false, cs)
      | false ↦ swap_size r >>= λ size. some (swap_device name size cs)
    ]

  -- The loop over the lines behind the legend; the fuel is above the length of the text.
  unfoldable pub swap_lines : (fuel : ℕ) → Text → List Controller → Option (Bool × List Controller)
  unfolding fgets swap_line
  swap_lines zero s cs = none
  swap_lines (suc f) [] cs = some (false, cs)
  swap_lines (suc f) (c ∷ s) cs = do
    let (line, rest) = fgets 8191 (c ∷ s)
    (failed, cs') ← swap_line line cs
    elim failed [ true ↦ some (true, cs') | false ↦ swap_lines f rest cs' ]

  unfoldable pub parse_swaps : Text → List Controller → Option (Bool × List Controller)
  unfolding swap_lines
  parse_swaps s cs = swap_lines (suc (length s)) (fgets 8191 s).1 cs
