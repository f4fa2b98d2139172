-- ===== src/Readline/Quotes.antt =====
-- Proofs on src/readline/readline.c and src/fs.c: a quoted word from the line to the label of a file
-- system.
use growlight.Prelude.{
  ℕ, zero, suc, ◌<◌, ◌≡◌, refl, ◌∙◌, ap, Bool, true, false, not, ◌&&◌, ◌||◌, some, [], ◌∷◌, ◌++◌,
  arith, ◌==◌, length, snoc-append, length-snoc,
}
use growlight.Text.{Text, is_graph, is_space}
use growlight.Text.Words.{Passes}
use growlight.Device.{Device}
use growlight.Popen.{Shell}
use growlight.Fs.{make_filesystem, has_byte}
use growlight.Readline.{Locale}
use growlight.Readline.Tokens.{Lexer, Tokens, lexer_start, step, finish, tokenize_loop, tokenize}
use growlight.Readline.Rounds.{IsAscii, tokenize_loop-char, tokenize_loop-end}

-- A byte between quotes: graphic or a space, and no quote.
unfoldable pub is_quotable : ℕ → Bool
is_quotable c = (is_graph c || is_space c) && not (c == b'"')

abbrev quoted : Text → Lexer
quoted s = record { tokes = []; word = some s; inquotes = true }

quotable-low : (c : ℕ) → is_quotable c ≡ true → c < 128
unfolding is_quotable is_graph is_space
quotable-low c h = ground arith

step-quoted :
    (l : Locale) (c : ℕ) (s : Text)
    → IsAscii l
    → is_quotable c ≡ true
    → step l c (quoted s) ≡ quoted (s ++ c ∷ [])
unfolding step is_quotable
step-quoted l c s a h = ground (arith, a.graphs c (quotable-low c h), a.spaces c (quotable-low c h))

step-close :
    (l : Locale) (s : Text)
    → IsAscii l
    → step l b'"' (quoted s) ≡ record { tokes = []; word = some (s ++ b'"' ∷ []); inquotes = false }
unfolding step is_graph
step-close l s a = rw (a.graphs b'"' (omega arith)) refl

step-quote : (l : Locale) → IsAscii l → step l b'"' lexer_start ≡ quoted (b'"' ∷ [])
unfolding step is_space
step-quote l a = rw (a.spaces b'"' (omega arith)) refl

-- From within the quotes to the end of the line.
read_quoted :
    (l : Locale) (f : ℕ) (w s : Text)
    → IsAscii l
    → Passes is_quotable w
    → suc (length w) < f
    → tokenize_loop l f (w ++ b'"' ∷ []) (quoted s)
      ≡ some (Tokens.tokens ((s ++ (w ++ b'"' ∷ [])) ∷ []))
unfolding finish
read_quoted l zero w s a h n = absurd (omega arith)
read_quoted l (suc zero) w s a h n = absurd (omega arith)
read_quoted l (suc (suc f)) [] s a h n =
    tokenize_loop-char l (suc f) b'"' [] (quoted s) a (omega arith)
    ∙ ap (tokenize_loop l (suc f) []) (step-close l s a)
    ∙ tokenize_loop-end l f _ a
read_quoted l (suc (suc f)) (c ∷ w) s a h n =
    tokenize_loop-char l (suc f) c (w ++ b'"' ∷ []) (quoted s) a (quotable-low c h.0)
    ∙ ap (tokenize_loop l (suc f) (w ++ b'"' ∷ [])) (step-quoted l c s a h.0)
    ∙ read_quoted l (suc f) w (s ++ c ∷ []) a h.1 (omega arith)
    ∙ ap (λ u. some (Tokens.tokens (u ∷ []))) (snoc-append s c (w ++ b'"' ∷ []))

refuses_quote :
    (sh : Shell) (swapon : Text → Bool) (d : Device) (np : Bool) (pty s : Text)
    → make_filesystem sh swapon d np pty (some (b'"' ∷ s)) ≡ ((true, d), [])
unfolding make_filesystem has_byte
refuses_quote sh swapon d np pty s = ground arith

-- Where characters are bytes, a word in quotes keeps its quotes, and `make_filesystem` refuses it as a
-- name, runs nothing and leaves the device.
pub tokenize-make_filesystem :
    (l : Locale) (w : Text) (sh : Shell) (swapon : Text → Bool) (d : Device) (np : Bool)
    (pty : Text)
    → IsAscii l
    → Passes is_quotable w
    → (tokenize l (b'"' ∷ w ++ b'"' ∷ []) ≡ some (Tokens.tokens ((b'"' ∷ w ++ b'"' ∷ []) ∷ [])))
      × (make_filesystem sh swapon d np pty (some (b'"' ∷ w ++ b'"' ∷ [])) ≡ ((true, d), []))
unfolding tokenize
tokenize-make_filesystem l w sh swapon d np pty a h = (
  tokenize_loop-char l (suc (length (w ++ b'"' ∷ []))) b'"' (w ++ b'"' ∷ []) lexer_start a
        (omega arith)
      ∙ ap (tokenize_loop l (suc (length (w ++ b'"' ∷ []))) (w ++ b'"' ∷ [])) (step-quote l a)
      ∙ read_quoted l (suc (length (w ++ b'"' ∷ []))) w (b'"' ∷ []) a h
          (omega (arith, length-snoc w b'"')),
  refuses_quote sh swapon d np pty (w ++ b'"' ∷ []),
)
