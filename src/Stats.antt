-- ===== src/Stats.antt =====
-- src/stats.c: the lines of /proc/diskstats. The file is the text that its reads give, and a failed
-- read or allocation is left out.
pub mod Lines
pub mod Files
mod Tests
use growlight.Prelude.{
  ℕ, zero, suc, ◌-◌, ◌^◌, ◌%◌, Bool, true, false, not, ◌||◌, Option, none, some, List, [], ◌∷◌,
  ◌++◌, leb, ◌==◌, if◌then◌else◌, length, take,
}
use growlight.Prelude.Maybe.{◌>>=◌, ◌>>◌}
use growlight.Text.{Text, is_space, is_digit, is_graph, is_nil, span, drop}
use growlight.Text.Numbers.{read_digits}

-- `diskstats`, with the two members of its `statpack`.
pub record Diskstats : Type 0 where
  pub name : Text
  pub sectors_read : ℕ
  pub sectors_written : ℕ

-- The buffer has 8192 bytes, of which one is for the zero byte: once the others are used, the next
-- read is for no byte at all and counts as the end of the file.
unfoldable pub read_procfs_file : (file : Text) → Text
read_procfs_file file = take 8191 file

-- The current line, with its newline if it has one, and what stands behind it.
unfoldable pub find_line_end : Text → Text × Text
find_line_end [] = ([], [])
find_line_end (c ∷ s) =
    let (line, rest) = find_line_end s in if c == 10 then (c ∷ [], s) else (c ∷ line, rest)

unfoldable pub skip : (ℕ → Bool) → Text → Text
unfolding span
skip p s = (span p s).1

-- A number of any digits, and the spaces that have to be behind it.
unfoldable pub skip_number : Text → Option Text
unfolding skip
skip_number s = elim (skip is_digit s) [
  | [] ↦ none
  | c ∷ r ↦ if is_space c then some (skip is_space (c ∷ r)) else none
]

-- The name, and what is left of the line.
unfoldable pub lex_diskstats_prefix : (line : Text) → Option (Text × Text)
unfolding skip_number
lex_diskstats_prefix line = do
  s1 ← skip_number (skip is_space line)
  s2 ← skip_number s1
  let (name, rest) = span is_graph s2
  if leb 256 (length name) || is_nil name then none else some (name, rest)

abbrev pub uintmax : ℕ → ℕ
uintmax v = if leb (2 ^ 64) v then 2 ^ 64 - 1 else v

abbrev pub read_unsigned : Text → Option (ℕ × Text)
read_unsigned [] = none
read_unsigned (c ∷ s) =
    if is_digit c then some (uintmax (read_digits 0 (c ∷ s)).0, (read_digits 0 (c ∷ s)).1) else none

abbrev pub negated : ℕ × Text → ℕ × Text
negated n = ((2 ^ 64 - n.0) % 2 ^ 64, n.1)

-- %ju of sscanf
unfoldable pub scan_ju : Text → Option (ℕ × Text)
unfolding skip read_digits
scan_ju s = elim (skip is_space s) [
  | [] ↦ none
  | c ∷ r ↦
      if c == 45
      then (read_unsigned r >>= (λ n. some (negated n)))
      else if c == 43
      then read_unsigned r
      else read_unsigned (c ∷ r)
]

-- A line, and the rest of the buffer, into which sscanf may read.
unfoldable pub lex_diskstats : (line beyond : Text) → Option Diskstats
unfolding lex_diskstats_prefix scan_ju
lex_diskstats line beyond = do
  (name, r) ← lex_diskstats_prefix line
  (f1, r1) ← scan_ju (r ++ beyond)
  (f2, r2) ← scan_ju r1
  (f3, r3) ← scan_ju r2
  (f4, r4) ← scan_ju r3
  (f5, r5) ← scan_ju r4
  (f6, r6) ← scan_ju r5
  (f7, r7) ← scan_ju r6
  some (record { name = name; sectors_read = f3; sectors_written = f7 })

-- The loop. The next line is taken from one byte behind the end of the line on. `none` is the error
-- value; the fuel is above the length of the buffer.
unfoldable pub read_stats : (fuel : ℕ) → (buf : Text) → Option (List Diskstats)
unfolding find_line_end lex_diskstats drop
read_stats zero buf = none
read_stats (suc f) [] = some []
read_stats (suc f) (c ∷ buf) = do
  let (line, beyond) = find_line_end (c ∷ buf)
  d ← lex_diskstats line beyond
  ds ← read_stats f (drop 1 beyond)
  some (d ∷ ds)

unfoldable pub read_diskstats : (file : Text) → Option (List Diskstats)
unfolding read_procfs_file read_stats
read_diskstats file = let buf = read_procfs_file file in read_stats (suc (length buf)) buf
