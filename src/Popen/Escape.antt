-- ===== src/Popen/Escape.antt =====
-- What the shell reads of a command line that was made safe.
use growlight.Prelude.{
  ℕ, zero, suc, ◌≡◌, ◌≢◌, ◌<◌, ◌∙◌, refl, ap, Bool, true, false, not, ◌||◌, ◌&&◌, some, [], ◌∷◌,
  ◌++◌, arith, ◌==◌, if◌then◌else◌, length,
}
use growlight.Prelude.Maybe.{◌>>=◌}
use growlight.Text.{Text, drop}
use growlight.Text.Words.{All}
use growlight.Popen.{Conversion, is_escaped, escape_loop, redirecterr, sanitize_cmd}

-- In the C locale, and in UTF-8 for a byte below 128, a character is one byte.
pub record SingleByte (mbrtowc : Text → Conversion) : Type 0 where
  pub at_end : mbrtowc [] ≡ Conversion.ended
  pub at_byte : (c : ℕ) (s : Text) → c < 128 → mbrtowc (c ∷ s) ≡ Conversion.char c 1

-- Bytes below 128, none of them a backslash or a single quote.
abbrev pub IsPlain : Text → Type 0
IsPlain = All (λ c. (c < 128) × (c ≢ 92) × (c ≢ 39))

-- Every special byte with a backslash in front of it.
abbrev pub escape : Text → Text
escape [] = []
escape (c ∷ s) = if is_escaped c then 92 ∷ c ∷ escape s else c ∷ escape s

escape_loop-step :
    (mbrtowc : Text → Conversion) (f c : ℕ) (s san : Text)
    → mbrtowc (c ∷ s) ≡ Conversion.char c 1
    → escape_loop mbrtowc f s ≡ some san
    → escape_loop mbrtowc (suc f) (c ∷ s) ≡ some (if is_escaped c then 92 ∷ c ∷ san else c ∷ san)
unfolding escape_loop drop
escape_loop-step mbrtowc f c s san e r = rw (escape_loop, e, r) refl

escape_loop_lem :
    (mbrtowc : Text → Conversion) (f : ℕ) (s : Text)
    → SingleByte mbrtowc
    → IsPlain s
    → length s < f
    → escape_loop mbrtowc f s ≡ some (escape s)
unfolding escape_loop
escape_loop_lem mbrtowc zero s b p h = absurd (omega arith)
escape_loop_lem mbrtowc (suc f) [] b p h = rw (escape_loop, b.at_end) refl
escape_loop_lem mbrtowc (suc f) (c ∷ s) b p h =
    escape_loop-step mbrtowc f c s (escape s) (b.at_byte c s p.0.0)
      (escape_loop_lem mbrtowc f s b p.1 (omega arith))

sanitize_cmd_lem :
    (mbrtowc : Text → Conversion) (s : Text)
    → SingleByte mbrtowc
    → IsPlain s
    → sanitize_cmd mbrtowc s ≡ some (escape s ++ redirecterr)
unfolding sanitize_cmd
sanitize_cmd_lem mbrtowc s b p =
    rw (sanitize_cmd, escape_loop_lem mbrtowc (suc (length s)) s b p (omega arith)) refl

-- Bytes that keep a meaning within double quotes: behind a backslash they stand for themselves.
abbrev pub is_special : ℕ → Bool
is_special c = c == 36 || c == 96 || c == 34 || c == 92

-- The removal of quotes by a POSIX shell: outside double quotes a backslash is taken off; within them it
-- is taken off in front of a special byte only. `inside` tells that a double quote is open, and `pending`
-- that a backslash was just passed. Single quotes and a backslash before a newline are left out.
abbrev pub remove_quotes : (inside pending : Bool) → Text → Text
remove_quotes inside false [] = []
remove_quotes inside true [] = 92 ∷ []
remove_quotes false true (c ∷ s) = c ∷ remove_quotes false false s
remove_quotes true true (c ∷ s) =
    let rest = remove_quotes true false s in if is_special c then c ∷ rest else 92 ∷ c ∷ rest
remove_quotes inside false (c ∷ s) =
    let closed = remove_quotes (not inside) false s in
    let escaped = remove_quotes inside true s in
    let rest = remove_quotes inside false s in
    if c == 92 then escaped else if c == 34 then closed else c ∷ rest

-- What a command should give: it loses its double quotes, and each parenthesis within them gets a
-- backslash.
abbrev pub marked : (inside : Bool) → Text → Text
marked inside [] = []
marked inside (c ∷ s) =
    let closed = marked (not inside) s in
    let rest = marked inside s in
    if c == 34 then closed else if inside && (c == 40 || c == 41) then 92 ∷ c ∷ rest else c ∷ rest

-- Whether a double quote is open behind a text.
abbrev pub ends_inside : (inside : Bool) → Text → Bool
ends_inside inside [] = inside
ends_inside inside (c ∷ s) =
    let closed = ends_inside (not inside) s in
    let rest = ends_inside inside s in if c == 34 then closed else rest

-- Whether a parenthesis or a dollar sign stands without a backslash in front of it.
abbrev pub exposed : Bool → Text → Bool
exposed quoted [] = false
exposed true (c ∷ s) = exposed false s
exposed false (c ∷ s) =
    if c == 92 then exposed true s else (if is_escaped c then true else exposed false s)

is_escaped-92 : is_escaped 92 ≡ false
unfolding is_escaped
is_escaped-92 = refl

-- One byte of the command, in front of what a shell reads next.
abbrev mark : (inside : Bool) → ℕ → (closed rest : Text) → Text
mark inside c closed rest =
    if c == 34 then closed else if inside && (c == 40 || c == 41) then 92 ∷ c ∷ rest else c ∷ rest

abbrev ByteRead : (inside : Bool) → (r : Text) → ℕ → Type 0
ByteRead inside r c =
    remove_quotes inside false (if is_escaped c then 92 ∷ c ∷ r else c ∷ r)
    ≡ mark inside c (remove_quotes (not inside) false r) (remove_quotes inside false r)

-- What is read of a byte, a text behind it and what follows.
abbrev reads : (inside : Bool) → (s t : Text) → Text
reads inside s t = marked inside s ++ remove_quotes (ends_inside inside s) false t

exposed-escape : (s t : Text) → IsPlain s → exposed false (escape s ++ t) ≡ exposed false t
exposed-escape [] t p = refl
exposed-escape (c ∷ s) t p = ground (arith, exposed-escape s t p.1, p.0.1)

redirecterr-exposed : exposed false redirecterr ≡ false
unfolding is_escaped
redirecterr-exposed = refl

-- No parenthesis or dollar sign of such a command reaches the shell without a backslash.
pub sanitize_cmd-exposed :
    (mbrtowc : Text → Conversion) (s : Text)
    → SingleByte mbrtowc
    → IsPlain s
    → (sanitize_cmd mbrtowc s >>= λ t. some (exposed false t)) ≡ some false
unfolding is_escaped
sanitize_cmd-exposed mbrtowc s b p =
    rw (sanitize_cmd_lem mbrtowc s b p)
      (ap some (exposed-escape s redirecterr p ∙ redirecterr-exposed))
