-- ===== src/Readline/Rounds.antt =====
-- Proofs on src/readline/readline.c: the words that `tokenize` finds in a line.
use growlight.Prelude.{
  ℕ, zero, suc, ◌<◌, ◌≡◌, ◌≢◌, refl, ◌∙◌, sym, ap, Bool, true, false, not, ◌&&◌, none, some, List,
  [], ◌∷◌, ◌++◌, arith, ◌==◌, length, append-nil, snoc-append,
}
use growlight.Text.{Text, is_graph, is_space, drop}
use growlight.Text.Words.{Passes}
use growlight.Popen.Escape.{SingleByte}
use growlight.Readline.{Locale}
use growlight.Readline.Tokens.{Lexer, Tokens, lexer_start, step, finish, tokenize_loop, tokenize}

-- The C locale, and UTF-8, on bytes below 128.
pub record IsAscii (l : Locale) : Type 0 where
  pub single : SingleByte l.mbrtowc
  pub spaces : (c : ℕ) → c < 128 → l.iswspace c ≡ is_space c
  pub graphs : (c : ℕ) → c < 128 → l.iswgraph c ≡ is_graph c

-- A graphic byte that is no quote.
unfoldable pub is_bare : ℕ → Bool
is_bare c = is_graph c && not (c == b'"')

abbrev pub IsBareWord : Text → Type 0
IsBareWord w = Passes is_bare w × (w ≢ [])

abbrev pub AllBare : List Text → Type 0
AllBare [] = Unit
AllBare (w ∷ ws) = IsBareWord w × AllBare ws

-- Each word with a space in front of it.
abbrev pub spaced : List Text → Text
spaced [] = []
spaced (w ∷ ws) = 32 ∷ (w ++ spaced ws)

pub tokenize_loop-char :
    (l : Locale) (f c : ℕ) (s : Text) (x : Lexer)
    → IsAscii l
    → c < 128
    → tokenize_loop l (suc f) (c ∷ s) x ≡ tokenize_loop l f s (step l c x)
unfolding tokenize_loop drop
tokenize_loop-char l f c s x a h = rw (tokenize_loop, a.single.at_byte c s h) refl

pub tokenize_loop-end :
    (l : Locale) (f : ℕ) (x : Lexer) → IsAscii l → tokenize_loop l (suc f) [] x ≡ some (finish x)
unfolding tokenize_loop
tokenize_loop-end l f x a = rw (tokenize_loop, a.single.at_end) refl

-- The state within a word that has no quote, and between words.
abbrev within : List Text → Text → Lexer
within ts s = record { tokes = ts; word = some s; inquotes = false }

abbrev between : List Text → Lexer
between ts = record { tokes = ts; word = none; inquotes = false }

bare-low : (c : ℕ) → is_bare c ≡ true → c < 128
unfolding is_bare is_graph
bare-low c h = ground arith

bare-graph : (l : Locale) (c : ℕ) → IsAscii l → is_bare c ≡ true → l.iswgraph c ≡ true
unfolding is_bare
bare-graph l c a h = a.graphs c (bare-low c h) ∙ ground arith

bare-space : (l : Locale) (c : ℕ) → IsAscii l → is_bare c ≡ true → l.iswspace c ≡ false
unfolding is_bare is_graph is_space
bare-space l c a h = a.spaces c (bare-low c h) ∙ ground arith

bare-quote : (c : ℕ) → is_bare c ≡ true → (c == b'"') ≡ false
unfolding is_bare
bare-quote c h = ground arith

step-within :
    (l : Locale) (c : ℕ) (ts : List Text) (s : Text)
    → IsAscii l
    → is_bare c ≡ true
    → step l c (within ts s) ≡ within ts (s ++ c ∷ [])
unfolding step
step-within l c ts s a h = rw (bare-graph l c a h, bare-quote c h) refl

step-between :
    (l : Locale) (c : ℕ) (ts : List Text)
    → IsAscii l
    → is_bare c ≡ true
    → step l c (between ts) ≡ within ts (c ∷ [])
unfolding step
step-between l c ts a h = rw (bare-space l c a h, bare-quote c h) refl

blank : (l : Locale) → IsAscii l → (l.iswspace 32 ≡ true) × (l.iswgraph 32 ≡ false)
unfolding is_space is_graph
blank l a = (a.spaces 32 (omega arith), a.graphs 32 (omega arith))

step-blank :
    (l : Locale) (ts : List Text) (s : Text)
    → IsAscii l
    → step l 32 (within ts s) ≡ between (ts ++ s ∷ [])
unfolding step
step-blank l ts s a = rw ((blank l a).0, (blank l a).1) refl

-- The rest of a word, and words with spaces in front.
read_words :
    (l : Locale) (f : ℕ) (ws : List Text) (w : Text) (ts : List Text) (s : Text)
    → IsAscii l
    → AllBare ws
    → Passes is_bare w
    → length (w ++ spaced ws) < f
    → tokenize_loop l f (w ++ spaced ws) (within ts s) ≡ some (Tokens.tokens (ts ++ (s ++ w) ∷ ws))
unfolding finish
read_words l zero ws w ts s a h k n = absurd (omega arith)
read_words l (suc f) [] [] ts s a h k n =
    tokenize_loop-end l f (within ts s) a
    ∙ ap (λ u. some (Tokens.tokens (ts ++ u ∷ []))) (sym (append-nil s))
read_words l (suc f) ws (c ∷ w) ts s a h k n =
    tokenize_loop-char l f c (w ++ spaced ws) (within ts s) a (bare-low c k.0)
    ∙ ap (tokenize_loop l f (w ++ spaced ws)) (step-within l c ts s a k.0)
    ∙ read_words l f ws w ts (s ++ c ∷ []) a h k.1 (omega arith)
    ∙ ap (λ u. some (Tokens.tokens (ts ++ u ∷ ws))) (snoc-append s c w)
read_words l (suc f) ([] ∷ ws) [] ts s a h k n = absurd (h.0.1 refl)
read_words l (suc zero) ((c ∷ v) ∷ ws) [] ts s a h k n = absurd (omega arith)
read_words l (suc (suc f)) ((c ∷ v) ∷ ws) [] ts s a h k n =
    tokenize_loop-char l (suc f) 32 (c ∷ v ++ spaced ws) (within ts s) a (omega arith)
    ∙ ap (tokenize_loop l (suc f) (c ∷ v ++ spaced ws)) (step-blank l ts s a)
    ∙ tokenize_loop-char l f c (v ++ spaced ws) (between (ts ++ s ∷ [])) a (bare-low c h.0.0.0)
    ∙ ap (tokenize_loop l f (v ++ spaced ws)) (step-between l c (ts ++ s ∷ []) a h.0.0.0)
    ∙ read_words l f ws v (ts ++ s ∷ []) (c ∷ []) a h.1 h.0.0.1 (omega arith)
    ∙ ap (λ u. some (Tokens.tokens u)) (snoc-append ts s ((c ∷ v) ∷ ws))
    ∙ ap (λ u. some (Tokens.tokens (ts ++ u ∷ (c ∷ v) ∷ ws))) (sym (append-nil s))

-- Where characters are bytes, words without spaces and quotes that stand with one space between them
-- are the words that are found.
pub tokenize-spaced :
    (l : Locale) (w : Text) (ws : List Text)
    → IsAscii l
    → IsBareWord w
    → AllBare ws
    → tokenize l (w ++ spaced ws) ≡ some (Tokens.tokens (w ∷ ws))
unfolding tokenize
tokenize-spaced l [] ws a h k = absurd (h.1 refl)
tokenize-spaced l (c ∷ w) ws a h k =
    tokenize_loop-char l (suc (length (w ++ spaced ws))) c (w ++ spaced ws) lexer_start a
      (bare-low c h.0.0)
    ∙ ap (tokenize_loop l (suc (length (w ++ spaced ws))) (w ++ spaced ws))
        (step-between l c [] a h.0.0)
    ∙ read_words l (suc (length (w ++ spaced ws))) ws w [] (c ∷ []) a k h.0.1 (omega arith)
