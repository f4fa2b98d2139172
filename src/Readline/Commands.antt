-- ===== src/Readline/Commands.antt =====
-- Proofs on src/readline/readline.c: from a line to the handler of its command, and the end of a session.
use growlight.Prelude.{
  ℕ, ◌≡◌, refl, ◌∙◌, ap, sym, Bool, true, false, ◌&&◌, Option, none, some, List, [], ◌∷◌, ◌++◌,
  arith, leb,
}
use growlight.Text.{Text, codes, text_eq, is_graph}
use growlight.Text.Words.{Passes, passes, passes_sound}
use growlight.Readline.{Locale, Backend, wcscase_eq}
use growlight.Readline.Rounds.{IsAscii, IsBareWord, AllBare, is_bare, spaced, tokenize-spaced}
use growlight.Readline.Session.{
  Fxn, fxns, find_fxn, run_fxn, run_entry, dispatch, Session, is_none, run_line, tty_ui,
}
use growlight.Readline.Handlers.General.{quit, bare}

abbrev pub is_lower : ℕ → Bool
is_lower c = leb 97 c && leb c 122

-- towlower(3) keeps the small letters.
abbrev pub KeepsLower : Locale → Type 0
KeepsLower l = (c : ℕ) → is_lower c ≡ true → l.towlower c ≡ c

wcscase_eq-lower :
    (l : Locale) (s t : Text)
    → KeepsLower l
    → Passes is_lower s
    → Passes is_lower t
    → wcscase_eq l s t ≡ text_eq s t
unfolding wcscase_eq text_eq
wcscase_eq-lower l [] [] k h j = refl
wcscase_eq-lower l [] (c ∷ t) k h j = refl
wcscase_eq-lower l (c ∷ s) [] k h j = refl
wcscase_eq-lower l (c ∷ s) (e ∷ t) k h j =
    rw (k c h.0, k e j.0, wcscase_eq-lower l s t k h.1 j.1) refl

abbrev AllLower : List (Text × Fxn) → Type 0
AllLower [] = Unit
AllLower (e ∷ es) = Passes is_lower e.0 × AllLower es

find_fxn-lower :
    (l : Locale) (cmd : Text) (es : List (Text × Fxn))
    → KeepsLower l
    → Passes is_lower cmd
    → AllLower es
    → find_fxn (λ n. wcscase_eq l n cmd) es ≡ find_fxn (λ n. text_eq n cmd) es
unfolding find_fxn
find_fxn-lower l cmd [] k h a = refl
find_fxn-lower l cmd (e ∷ es) k h a =
    rw (wcscase_eq-lower l e.0 cmd k a.0 h, find_fxn-lower l cmd es k h a.1) refl

abbrev all_lower : List (Text × Fxn) → Bool
all_lower [] = true
all_lower (e ∷ es) = passes is_lower e.0 && all_lower es

all_lower_sound : (es : List (Text × Fxn)) → all_lower es ≡ true → AllLower es
all_lower_sound [] h = tt
all_lower_sound (e ∷ es) h =
    (passes_sound is_lower e.0 (ground (arith, h)), all_lower_sound es (ground (arith, h)))

fxns-AllLower : AllLower fxns
unfolding fxns
fxns-AllLower = all_lower_sound fxns refl

module _ {ℓ} {W : Type ℓ} (b : Backend W) where
  -- A command in small letters is looked up letter for letter.
  dispatch-lower :
      (l : Locale) (cmd : Text) (args : List Text)
      → KeepsLower l
      → Passes is_lower cmd
      → dispatch b l cmd args ≡ run_entry b l args (find_fxn (λ n. text_eq n cmd) fxns)
  unfolding dispatch
  dispatch-lower l cmd args k h =
      ap (run_entry b l args) (find_fxn-lower l cmd fxns k h fxns-AllLower)

  -- A line of bare words runs the handler of its first word on the others.
  run_line-spaced :
      (l : Locale) (cmd : Text) (args : List Text) (s : Session b)
      → IsAscii l
      → IsBareWord cmd
      → AllBare args
      → run_line b l (cmd ++ spaced args) s ≡ (
          let (r, w) = dispatch b l cmd args s.world in
          some (record { world = w; failed = is_none b r }, b.lights_off w))
  unfolding run_line
  run_line-spaced l cmd args s a h k = rw (run_line, tokenize-spaced l cmd args a h k) refl

  dispatch-quit :
      (l : Locale)
      → KeepsLower l
      → dispatch b l (codes "quit") [] ≡ (λ w. (some tt, b.set_lights_off w))
  unfolding fxns find_fxn text_eq run_fxn quit bare
  dispatch-quit l k =
      dispatch-lower l (codes "quit") [] k (passes_sound is_lower (codes "quit") refl)

  -- What `run_line` keeps of a run.
  abbrev after_run : Option (Unit {0}) × W → Option (Session b × Bool)
  after_run (r, w) = some (record { world = w; failed = is_none b r }, b.lights_off w)

  -- A line whose only word is `quit` leaves the loop.
  run_line-quit :
      (l : Locale) (s : Session b)
      → IsAscii l
      → KeepsLower l
      → run_line b l (codes "quit") s
        ≡ some (record { world = b.set_lights_off s.world; failed = false }, true)
  unfolding is_bare is_graph
  run_line-quit l s a k =
      run_line-spaced l (codes "quit") [] s a
        (passes_sound is_bare (codes "quit") refl, λ e. ground arith) tt
      ∙ ap (λ m. after_run (m s.world)) (dispatch-quit l k)
      ∙ rw (b.lights_off-set_lights_off s.world) refl

  -- A line, then the rest of the lines.
  abbrev go_on : Locale → List Text → Option (Session b × Bool) → Option (Session b)
  go_on l lines none = none
  go_on l lines (some (s, true)) = some s
  go_on l lines (some (s, false)) = tty_ui b l lines s

  tty_ui-line :
      (l : Locale) (line : Text) (lines : List Text) (s : Session b)
      → tty_ui b l (line ∷ lines) s ≡ go_on l lines (run_line b l line s)
  unfolding tty_ui
  tty_ui-line l line lines s = by_run (run_line b l line s) refl
    where
      by_run :
          (o : Option (Session b × Bool))
          → run_line b l line s ≡ o
          → tty_ui b l (line ∷ lines) s ≡ go_on l lines o
      by_run none e = rw (tty_ui, e) refl
      by_run (some (s', true)) e = rw (tty_ui, e) refl
      by_run (some (s', false)) e = rw (tty_ui, e) refl

  go_on-same :
      (l : Locale) (o : Option (Session b × Bool)) (xs ys : List Text)
      → ((s : Session b) → tty_ui b l xs s ≡ tty_ui b l ys s)
      → go_on l xs o ≡ go_on l ys o
  go_on-same l none xs ys h = refl
  go_on-same l (some (s, true)) xs ys h = refl
  go_on-same l (some (s, false)) xs ys h = h s

  -- Where characters are bytes and small letters are kept: the first line `quit` ends the session, and
  -- what is behind it is not read.
  pub tty_ui-quit :
      (l : Locale) (lines more : List Text) (s : Session b)
      → IsAscii l
      → KeepsLower l
      → tty_ui b l (lines ++ codes "quit" ∷ more) s ≡ tty_ui b l (lines ++ codes "quit" ∷ []) s
  tty_ui-quit l [] more s a k =
      tty_ui-line l (codes "quit") more s
      ∙ ap (go_on l more) (run_line-quit l s a k)
      ∙ sym (ap (go_on l []) (run_line-quit l s a k))
      ∙ sym (tty_ui-line l (codes "quit") [] s)
  tty_ui-quit l (line ∷ lines) more s a k =
      tty_ui-line l line (lines ++ codes "quit" ∷ more) s
      ∙ go_on-same l (run_line b l line s) (lines ++ codes "quit" ∷ more)
          (lines ++ codes "quit" ∷ []) (λ s'. tty_ui-quit l lines more s' a k)
      ∙ sym (tty_ui-line l line (lines ++ codes "quit" ∷ []) s)
