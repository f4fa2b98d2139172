-- ===== src/Text/Words.antt =====
-- A word and what follows it.
use growlight.Prelude.{
  ℕ, zero, suc, ◌≤◌, ◌<◌, ◌+◌, ◌≡◌, ◌≢◌, ◌&&◌, refl, ap, Bool-cases, inl, inr, Bool, true, false,
  [], ◌∷◌, ◌++◌, arith, length,
}
use growlight.Text.{Text, is_graph, is_space, span, drop}

abbrev pub All : (ℕ → Type 0) → Text → Type 0
All P [] = Unit
All P (c ∷ s) = P c × All P s

abbrev pub Passes : (ℕ → Bool) → Text → Type 0
Passes p = All (λ c. p c ≡ true)

pub span-append :
    (p : ℕ → Bool) (w : Text) (c : ℕ) (s : Text)
    → Passes p w
    → p c ≡ false
    → span p (w ++ c ∷ s) ≡ (w, c ∷ s)
unfolding span
span-append p [] c s h stop = rw stop
span-append p (b ∷ w) c s h stop = rw (span-append p w c s h.1 stop, h.0)

-- Nothing is lost, and what is passed passes.
pub span_parts :
    (p : ℕ → Bool) (s : Text) → (s ≡ (span p s).0 ++ (span p s).1) × Passes p (span p s).0
unfolding span
span_parts p [] = (refl, tt)
span_parts p (c ∷ s) =
    let (whole, passes) = span_parts p s in
    elim (Bool-cases (p c)) [
      | inl yes_c ↦ rw yes_c (ap (λ t. c ∷ t) whole, (yes_c, passes))
      | inr no_c ↦ rw no_c (refl, tt)
    ]

-- What is left is no longer, and shorter by what was passed.
pub length-span : (p : ℕ → Bool) (s : Text) → length (span p s).0 + length (span p s).1 ≡ length s
unfolding span
length-span p [] = refl
length-span p (c ∷ s) = ground (arith, length-span p s)

pub Passes-append : (p : ℕ → Bool) (a b : Text) → Passes p a → Passes p b → Passes p (a ++ b)
Passes-append p [] b h k = k
Passes-append p (x ∷ a) b h k = (h.0, Passes-append p a b h.1 k)

-- Graphic bytes, at least one.
abbrev pub IsWord : Text → Type 0
IsWord w = Passes is_graph w × (w ≢ [])

abbrev pub passes : (ℕ → Bool) → Text → Bool
passes p [] = true
passes p (c ∷ s) = p c && passes p s

pub passes_sound : (p : ℕ → Bool) (s : Text) → passes p s ≡ true → Passes p s
passes_sound p [] h = tt
passes_sound p (c ∷ s) h = (ground (arith, h), passes_sound p s (ground (arith, h)))

pub word_sound : (c : ℕ) (s : Text) → passes is_graph (c ∷ s) ≡ true → IsWord (c ∷ s)
word_sound c s h = (passes_sound is_graph (c ∷ s) h, λ e. ground arith)

pub length-drop : (n : ℕ) (s : Text) → length (drop n s) ≤ length s
unfolding drop
length-drop zero s = omega arith
length-drop (suc n) [] = omega arith
length-drop (suc n) (c ∷ s) = omega (arith, length-drop n s)

pub drop-lt : (n : ℕ) (s : Text) → 0 < n → 0 < length s → length (drop n s) < length s
unfolding drop
drop-lt zero s p h = absurd (omega arith)
drop-lt (suc n) [] p h = absurd (omega arith)
drop-lt (suc n) (c ∷ s) p h = omega (arith, length-drop n s)

pub graph-not-space : (c : ℕ) → is_graph c ≡ true → is_space c ≡ false
unfolding is_graph is_space
graph-not-space c h = ground arith
