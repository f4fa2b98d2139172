-- ===== src/Readline/Lexing.antt =====
-- Proofs on src/readline/readline.c: `tokenize` on any line, and a quoted word from the line to the label
-- of a file system.
use growlight.Prelude.{
  ℕ, zero, suc, ◌<◌, ◌≤◌, ◌≡◌, ◌≢◌, refl, subst, Bool, true, false, Bool-cases, inl, inr, Option,
  none, some, List, [], ◌∷◌, ◌++◌, arith, ◌==◌, ◌||◌, ◌&&◌, not, or_true, if◌then◌else◌, length,
}
use growlight.Text.Words.{drop-lt}
use growlight.Text.{Text, drop}
use growlight.Popen.{Conversion}
use growlight.Readline.{Locale}
use growlight.Readline.Tokens.{
  Lexer, Tokens, push, lexer_start, free_tokes, step_on, step, finish_on, finish, tokenize_loop,
  tokenize,
}

-- What mbrtowc(3) promises: a character that is no null character takes bytes that are there.
abbrev pub IsAdvancing : Locale → Type 0
IsAdvancing l =
    (s : Text) (w conv : ℕ) → l.mbrtowc s ≡ Conversion.char w conv → (0 < conv) × (conv ≤ length s)

-- Whether each word has a character.
abbrev pub Nonempty : List Text → Type 0
Nonempty [] = Unit
Nonempty (w ∷ ws) = (w ≢ []) × Nonempty ws

Nonempty-snoc : (ts : List Text) (w : Text) → Nonempty ts → w ≢ [] → Nonempty (ts ++ w ∷ [])
Nonempty-snoc [] w h k = (k, tt)
Nonempty-snoc (t ∷ ts) w h k = (h.0, Nonempty-snoc ts w h.1 k)

-- Whether invalid bytes or a quote stand in the line; the fuel is as for the loop.
abbrev pub has_trouble : Locale → (fuel : ℕ) → Text → Bool
unfolding drop
has_trouble l zero line = false
has_trouble l (suc f) line = elim (l.mbrtowc line) [
  | Conversion.invalid ↦ true
  | Conversion.incomplete ↦ false
  | Conversion.ended ↦ false
  | Conversion.char w conv ↦ w == b'"' || has_trouble l f (drop conv line)
]

-- No word is empty, and any other answer is due to trouble.
abbrev pub IsAnswer : (trouble : Bool) → Tokens → Type 0
IsAnswer trouble (Tokens.tokens ts) = Nonempty ts
IsAnswer trouble Tokens.refused = trouble ≡ true
IsAnswer trouble Tokens.overrun = trouble ≡ true

abbrev WordNonempty : Option Text → Type 0
WordNonempty none = Unit
WordNonempty (some w) = w ≢ []

abbrev IsLexer : Lexer → Type 0
IsLexer x = Nonempty x.tokes × WordNonempty x.word

snoc_nonempty : (s : Text) (c : ℕ) → s ++ c ∷ [] ≢ []
snoc_nonempty [] c e = cc
snoc_nonempty (b ∷ s) c e = cc

if-IsLexer : (b : Bool) (x y : Lexer) → IsLexer x → IsLexer y → IsLexer (if b then x else y)
if-IsLexer true x y h k = h
if-IsLexer false x y h k = k

step_on-IsLexer :
    (l : Locale) (w : ℕ) (x : Lexer) (o : Option Text)
    → IsLexer x
    → WordNonempty o
    → IsLexer (step_on l w x o)
step_on-IsLexer l w x none h k = if-IsLexer (l.iswspace w) x _ h (h.0, λ e. cc)
step_on-IsLexer l w x (some s) h k =
    let pushed : IsLexer (push x s) = (Nonempty-snoc x.tokes s h.0 k, tt) in
    if-IsLexer (l.iswgraph w) _ _ (h.0, snoc_nonempty s w)
      (if-IsLexer (l.iswspace w) _ _ (if-IsLexer x.inquotes _ _ (h.0, snoc_nonempty s w) pushed)
        pushed)

step-IsLexer : (l : Locale) (w : ℕ) (x : Lexer) → IsLexer x → IsLexer (step l w x)
unfolding step
step-IsLexer l w x h = step_on-IsLexer l w x x.word h h.1

-- Within quotes, a quote was passed.
abbrev IsQuoted : (trouble : Bool) → Lexer → Type 0
IsQuoted trouble x = (x.inquotes && not trouble) ≡ false

step_on-IsQuoted :
    (l : Locale) (w : ℕ) (b : Bool) (x : Lexer) (o : Option Text)
    → IsQuoted b x
    → IsQuoted (b || w == b'"') (step_on l w x o)
step_on-IsQuoted l w b x none h = ground (arith, h)
step_on-IsQuoted l w b x (some s) h = ground (arith, h)

step-IsQuoted :
    (l : Locale) (w : ℕ) (b : Bool) (x : Lexer)
    → IsQuoted b x
    → IsQuoted (b || w == b'"') (step l w x)
unfolding step
step-IsQuoted l w b x h = step_on-IsQuoted l w b x x.word h

free_tokes-IsAnswer :
    (ts : List Text) (b : Bool) (t : Tokens)
    → b ≡ true
    → IsAnswer b t
    → IsAnswer b (free_tokes ts t)
free_tokes-IsAnswer [] b t e a = a
free_tokes-IsAnswer (s ∷ ts) b t e a = e

-- Any trouble behind the lexer does no harm to an answer.
IsAnswer-or : (b c : Bool) (t : Tokens) → IsAnswer b t → IsAnswer (b || c) t
IsAnswer-or b c (Tokens.tokens ts) a = a
IsAnswer-or b c Tokens.refused a = rw a refl
IsAnswer-or b c Tokens.overrun a = rw a refl

quoted_trouble : (b : Bool) (x : Lexer) → IsQuoted b x → x.inquotes ≡ true → b ≡ true
quoted_trouble b x q e = ground (arith, q, e)

finish_on-IsAnswer :
    (b : Bool) (x : Lexer) (o : Option Text)
    → Nonempty x.tokes
    → WordNonempty o
    → IsQuoted b x
    → IsAnswer b (finish_on x o)
finish_on-IsAnswer b x none h k q = h
finish_on-IsAnswer b x (some s) h k q = elim (Bool-cases x.inquotes) [
  | inl e ↦
      let trouble = quoted_trouble b x q e in
      rw e (free_tokes-IsAnswer x.tokes b Tokens.refused trouble trouble)
  | inr e ↦ rw e (Nonempty-snoc x.tokes s h k)
]

finish-IsAnswer : (b c : Bool) (x : Lexer) → IsLexer x → IsQuoted b x → IsAnswer (b || c) (finish x)
unfolding finish
finish-IsAnswer b c x h q =
    IsAnswer-or b c (finish_on x x.word) (finish_on-IsAnswer b x x.word h.0 h.1 q)

module _ (l : Locale) (f : ℕ) (line : Text) (x : Lexer) where
  loop_invalid :
      l.mbrtowc line ≡ Conversion.invalid
      → tokenize_loop l (suc f) line x ≡ some (free_tokes x.tokes (Tokens.tokens []))
  unfolding tokenize_loop
  loop_invalid e = rw (tokenize_loop, e) refl

  loop_incomplete :
      l.mbrtowc line ≡ Conversion.incomplete → tokenize_loop l (suc f) line x ≡ some (finish x)
  unfolding tokenize_loop
  loop_incomplete e = rw (tokenize_loop, e) refl

  loop_ended : l.mbrtowc line ≡ Conversion.ended → tokenize_loop l (suc f) line x ≡ some (finish x)
  unfolding tokenize_loop
  loop_ended e = rw (tokenize_loop, e) refl

  loop_char :
      (w conv : ℕ)
      → l.mbrtowc line ≡ Conversion.char w conv
      → tokenize_loop l (suc f) line x ≡ tokenize_loop l f (drop conv line) (step l w x)
  unfolding tokenize_loop
  loop_char w conv e = rw (tokenize_loop, e) refl

-- The answer of the loop, and what is said of it.
abbrev Answers : (trouble : Bool) → Option Tokens → Type 0
Answers b o = (t : Tokens) × (o ≡ some t) × IsAnswer b t

or_assoc : (a b c : Bool) → (a || b) || c ≡ a || (b || c)
or_assoc true b c = refl
or_assoc false b c = refl

tokenize_loop-IsAnswer :
    (l : Locale) (f : ℕ) (line : Text) (b : Bool) (x : Lexer)
    → IsAdvancing l
    → IsLexer x
    → IsQuoted b x
    → length line < f
    → Answers (b || has_trouble l f line) (tokenize_loop l f line x)
unfolding has_trouble tokenize_loop
tokenize_loop-IsAnswer l zero line b x a h q n = absurd (omega arith)
tokenize_loop-IsAnswer l (suc f) line b x a h q n =
    by_char
      (λ w conv p k.
        tokenize_loop-IsAnswer l f (drop conv line) (b || w == b'"') (step l w x) a
          (step-IsLexer l w x h) (step-IsQuoted l w b x q)
          (omega (arith, drop-lt conv line p (omega (arith, p, k)))))
      (l.mbrtowc line) refl
  where
    by_char :
        ((w conv : ℕ)
          → 0 < conv
          → conv ≤ length line
          → Answers
              ((b || w == b'"') || has_trouble l f (drop conv line))
              (tokenize_loop l f (drop conv line) (step l w x)))
        → (c : Conversion) → l.mbrtowc line ≡ c
        → Answers (b || has_trouble l (suc f) line) (tokenize_loop l (suc f) line x)
    by_char more Conversion.invalid e =
        rw (has_trouble, e, or_true b, loop_invalid l f line x e)
          (_, refl, free_tokes-IsAnswer x.tokes true (Tokens.tokens []) refl tt)
    by_char more Conversion.incomplete e =
        rw (loop_incomplete l f line x e) (_, refl, finish-IsAnswer b _ x h q)
    by_char more Conversion.ended e =
        rw (loop_ended l f line x e) (_, refl, finish-IsAnswer b _ x h q)
    by_char more (Conversion.char w conv) e =
        let (p, k) = a line w conv e in
        rw (has_trouble, e, loop_char l f line x w conv e)
          (subst (λ t. Answers t (tokenize_loop l f (drop conv line) (step l w x)))
            (or_assoc b (w == b'"') (has_trouble l f (drop conv line))) (more w conv p k))

-- Where each character takes a byte at least, every line is answered. A line in which no byte is invalid
-- and no character is a quote is split into words, none of them empty; only with a quote or an invalid
-- byte in the line is the answer an error, or a walk behind the end of an array.
pub tokenize-Nonempty :
    (l : Locale) (line : Text)
    → IsAdvancing l
    → (t : Tokens) × (tokenize l line ≡ some t)
      × IsAnswer (has_trouble l (suc (length line)) line) t
unfolding tokenize
tokenize-Nonempty l line a =
    tokenize_loop-IsAnswer l (suc (length line)) line false lexer_start a (tt, tt) refl
      (omega arith)
