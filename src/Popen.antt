-- ===== src/Popen.antt =====
-- src/popen.c: a command line that the shell is to run. The conversion of a multibyte character and the
-- shell are parameters. A failed allocation is left out.
pub mod Escape
use growlight.Prelude.{
  ℕ, zero, suc, Bool, true, false, ◌||◌, Option, none, some, List, [], ◌∷◌, ◌++◌, leb, ◌==◌,
  if◌then◌else◌, length, take,
}
use growlight.Text.{Text, codes, drop}

-- What `mbrtowc` answers on the rest of a string: the errors -1 and -2, the end, or a character and the
-- count of bytes that it takes.
pub data Conversion : Type 0 where
  invalid incomplete ended : Conversion
  char : (w conv : ℕ) → Conversion

unfoldable pub is_escaped : (w : ℕ) → Bool
is_escaped w = if (w == 40 || w == 41) then true else w == 36

-- The loop, on what is left of the string; the fuel is above its length. `none` is the error. The
-- zero byte at the end of the string is left out of the list.
unfoldable pub escape_loop : (mbrtowc : Text → Conversion) → (fuel : ℕ) → Text → Option Text
unfolding is_escaped drop
escape_loop mbrtowc zero cmd = none
escape_loop mbrtowc (suc f) cmd = elim (mbrtowc cmd) [
  | invalid ↦ none
  | incomplete ↦ some []
  | ended ↦ some []
  | char w conv ↦ elim (escape_loop mbrtowc f (drop conv cmd)) [
    | none ↦ none
    | some rest ↦
        some (if is_escaped w then 92 ∷ (take conv cmd ++ rest) else take conv cmd ++ rest)
  ]
]

abbrev pub redirecterr : Text
redirecterr = codes " 2>&1 < /dev/null"

unfoldable pub sanitize_cmd : (mbrtowc : Text → Conversion) → Text → Option Text
unfolding escape_loop
sanitize_cmd mbrtowc cmd = elim (escape_loop mbrtowc (suc (length cmd)) cmd) [
  | none ↦ none
  | some san ↦ some (san ++ redirecterr)
]

-- A machine that runs commands: true is a failure of `popen`, of the reading or of the command.
pub record Shell : Type 0 where
  pub mbrtowc : Text → Conversion
  pub run : Text → Bool

-- Whether it failed, and the commands that were run.
unfoldable pub popen_drain : Shell → Text → Bool × List Text
unfolding sanitize_cmd
popen_drain sh cmd = elim (sanitize_cmd sh.mbrtowc cmd) [
  | none ↦ (true, [])
  | some safecmd ↦ (sh.run safecmd, safecmd ∷ [])
]

abbrev pub bufsiz : ℕ
bufsiz = 8192

unfoldable pub vspopen_drain : Shell → Text → Bool × List Text
unfolding popen_drain
vspopen_drain sh cmd = if leb bufsiz (length cmd) then (true, []) else popen_drain sh cmd

-- The arguments, each with a space behind it, and the room that is left of the buffer.
unfoldable pub join_args : (cmd : Text) → (args : List Text) → Option Text
join_args buf [] = some buf
join_args buf (a ∷ args) =
    let next = buf ++ (a ++ 32 ∷ []) in
    let rest = join_args next args in if leb bufsiz (length next) then none else rest

unfoldable pub vpopen_drain : Shell → (cmd : Text) → (args : List Text) → Bool × List Text
unfolding popen_drain join_args
vpopen_drain sh cmd args =
    if leb bufsiz (length (cmd ++ 32 ∷ []))
    then (true, [])
    else elim (join_args (cmd ++ 32 ∷ []) args) [
      | none ↦ (true, [])
      | some buf ↦ popen_drain sh buf
    ]
