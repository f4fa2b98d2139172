-- ===== src/Readline/Tokens.antt =====
-- src/readline/readline.c: `tokenize`. The second conversion of a word, by `mbsrtowcs` from the place and
-- the state of its first character, gives the characters that the first one gave.
use growlight.Prelude.{
  ℕ, zero, suc, Bool, true, false, not, Option, none, some, List, [], ◌∷◌, ◌++◌, ◌==◌,
  if◌then◌else◌, length,
}
use growlight.Text.{Text, drop}
use growlight.Popen.{Conversion}
use growlight.Readline.{Locale}

-- `s` is `none` between words, and the characters of the word so far within one.
pub record Lexer : Type 0 where
  pub tokes : List Text
  pub word : Option Text
  pub inquotes : Bool

abbrev pub lexer_start : Lexer
lexer_start = record { tokes = []; word = none; inquotes = false }

-- The word is complete.
abbrev pub push : Lexer → Text → Lexer
push x s = record x { tokes = x.tokes ++ s ∷ []; word = none }

-- The loop's body on a character, between words or within one.
abbrev pub step_on : Locale → ℕ → Lexer → Option Text → Lexer
step_on l w x none =
    if l.iswspace w
    then x
    else record x { word = some (w ∷ []); inquotes = (if w == b'"' then true else x.inquotes) }
step_on l w x (some s) =
    if l.iswgraph w
    then record x {
      word = some (s ++ w ∷ []);
      inquotes = (if w == b'"' then not x.inquotes else x.inquotes);
    }
    else if l.iswspace w
    then (if x.inquotes then record x { word = some (s ++ w ∷ []) } else push x s)
    else push x s

unfoldable pub step : Locale → ℕ → Lexer → Lexer
step l w x = step_on l w x x.word

-- What `tokenize` answers: the words, an error, or nothing that the language defines, where `free_tokes`
-- walks an array that has no null pointer at its end yet.
pub data Tokens : Type 0 where
  tokens : List Text → Tokens
  refused overrun : Tokens

-- `free_tokes` on the words so far: there is no array before the first of them.
abbrev pub free_tokes : List Text → Tokens → Tokens
free_tokes [] answer = answer
free_tokes (t ∷ ts) answer = Tokens.overrun

-- The body at the end of the line.
abbrev pub finish_on : Lexer → Option Text → Tokens
finish_on x none = Tokens.tokens x.tokes
finish_on x (some s) =
    if x.inquotes then free_tokes x.tokes Tokens.refused else Tokens.tokens (x.tokes ++ s ∷ [])

unfoldable pub finish : Lexer → Tokens
finish x = finish_on x x.word

-- The fuel is above the length of the line; a character that takes no byte is the end.
unfoldable pub tokenize_loop : Locale → (fuel : ℕ) → Text → Lexer → Option Tokens
unfolding step finish drop
tokenize_loop l zero line x = none
tokenize_loop l (suc f) line x = elim (l.mbrtowc line) [
  | Conversion.invalid ↦ some (free_tokes x.tokes (Tokens.tokens []))
  | Conversion.incomplete ↦ some (finish x)
  | Conversion.ended ↦ some (finish x)
  | Conversion.char w conv ↦ tokenize_loop l f (drop conv line) (step l w x)
]

unfoldable pub tokenize : Locale → Text → Option Tokens
unfolding tokenize_loop
tokenize l line = tokenize_loop l (suc (length line)) line lexer_start
