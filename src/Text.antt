-- ===== src/Text.antt =====
-- Texts as lists of bytes, with the tests of ctype.h in the C locale and of string.h.
pub mod Words
pub mod Numbers
pub mod Strtoull
pub mod Hex
use Prim.Native.Char.{code}
use growlight.Prelude.{
  ℕ, zero, suc, ◌≡◌, ◌↔◌, refl, Bool, true, false, not, ◌&&◌, ◌||◌, List, [], ◌∷◌, String, arith,
  ltb, leb, ◌==◌, if◌then◌else◌,
}

abbrev pub Text : Type 0
Text = List ℕ

abbrev pub codes : String → Text
codes String.[] = []
codes (String.◌∷◌ c s) = code c ∷ codes s

unfoldable pub is_space : ℕ → Bool
is_space c = c == 32 || (leb 9 c && leb c 13)

unfoldable pub is_graph : ℕ → Bool
is_graph c = leb 33 c && leb c 126

unfoldable pub is_print : ℕ → Bool
is_print c = leb 32 c && leb c 126

unfoldable pub is_digit : ℕ → Bool
is_digit c = leb 48 c && leb c 57

-- strcmp(s, t) == 0
unfoldable pub text_eq : Text → Text → Bool
text_eq [] [] = true
text_eq [] (c ∷ t) = false
text_eq (b ∷ s) [] = false
text_eq (b ∷ s) (c ∷ t) = (b == c) && text_eq s t

-- strncmp(s, p, strlen(p)) == 0
unfoldable pub starts_with : Text → Text → Bool
starts_with s [] = true
starts_with [] (c ∷ p) = false
starts_with (b ∷ s) (c ∷ p) = (b == c) && starts_with s p

unfoldable pub drop : ℕ → Text → Text
drop zero s = s
drop (suc n) [] = []
drop (suc n) (c ∷ s) = drop n s

abbrev pub is_nil : Text → Bool
is_nil [] = true
is_nil (c ∷ s) = false

-- `while(test(*s)) ++s`: what was passed, and what is left.
unfoldable pub span : (ℕ → Bool) → Text → Text × Text
span p [] = ([], [])
span p (c ∷ s) = let (a, b) = span p s in if p c then (c ∷ a, b) else ([], c ∷ s)

pub text_eq_refl : (s : Text) → text_eq s s ≡ true
unfolding text_eq
text_eq_refl [] = refl
text_eq_refl (c ∷ s) = ground (arith, text_eq_refl s)

pub text_eq_sound : (s t : Text) → text_eq s t ≡ true → s ≡ t
unfolding text_eq
text_eq_sound [] [] h = refl
text_eq_sound [] (c ∷ t) h = ground arith
text_eq_sound (b ∷ s) [] h = ground arith
text_eq_sound (b ∷ s) (c ∷ t) h = ground (arith, text_eq_sound s t)
