-- ===== src/Serial/Tidy.antt =====
-- Proofs on src/sg.c: what a cleaned serial number looks like.
use growlight.Prelude.{
  ℕ, zero, suc, ◌+◌, ◌≤◌, ◌≡◌, ◌≢◌, refl, ◌∙◌, ap, sym, subst, Bool, true, false, Bool-cases, inl,
  inr, ◌⊎◌, Option, none, some, [], ◌∷◌, ◌++◌, arith, ◌==◌, if◌then◌else◌, length, append-nil,
  snoc-append, length-snoc,
}
use growlight.Prelude.Maybe.{◌>>=◌, some_inj, >>=-eq-some}
use growlight.Text.{Text, is_space, is_print, is_graph}
use growlight.Serial.{Cleaner, clean_byte, clean_loop, drop_last, trim, fresh, cleanup_serial}

-- One byte of a text of graphic bytes and spaces, no two spaces neighbours: whether it is a space.
abbrev pub next : (inspace : Bool) → ℕ → Option Bool
next q c =
    if c == 32 then (if q then none else some true) else if is_graph c then some false else none

-- Whether the last byte is a space.
abbrev pub tidy : (inspace : Bool) → Text → Option Bool
tidy q [] = some q
tidy q (c ∷ s) = next q c >>= λ r. tidy r s

-- Nothing, or words with one space between them.
abbrev pub IsTidy : Text → Type 0
IsTidy s = (s ≡ []) ⊎ (tidy true s ≡ some false)

bind_assoc {ℓ} :
    {A : Type ℓ} (o : Option A) (f g : A → Option A) → (o >>= f) >>= g ≡ o >>= (λ a. f a >>= g)
bind_assoc none f g = refl
bind_assoc (some a) f g = refl

bind_same {ℓ} :
    {A : Type ℓ} (o : Option A) (f g : A → Option A) → ((a : A) → f a ≡ g a) → o >>= f ≡ o >>= g
bind_same none f g h = refl
bind_same (some a) f g h = h a

tidy-append : (q : Bool) (s t : Text) → tidy q (s ++ t) ≡ tidy q s >>= (λ r. tidy r t)
tidy-append q [] t = refl
tidy-append q (c ∷ s) t =
    bind_same (next q c) _ _ (λ r. tidy-append r s t)
    ∙ sym (bind_assoc (next q c) (λ r. tidy r s) (λ r. tidy r t))

-- The copy so far is read, and the flag is what was last.
abbrev IsCleaner : Cleaner → Type 0
IsCleaner x = tidy true x.clean ≡ some x.inspace

clean_byte-IsCleaner : (c : ℕ) (x : Cleaner) → IsCleaner x → IsCleaner (clean_byte c x)
unfolding clean_byte is_space is_print is_graph
clean_byte-IsCleaner c x h =
    ground (arith, h, tidy-append true x.clean (c ∷ []), tidy-append true x.clean (32 ∷ []))

clean_loop-IsCleaner : (n : ℕ) (s : Text) (x : Cleaner) → IsCleaner x → IsCleaner (clean_loop n s x)
unfolding clean_loop
clean_loop-IsCleaner zero s x h = h
clean_loop-IsCleaner (suc n) [] x h = h
clean_loop-IsCleaner (suc n) (c ∷ s) x h = elim (Bool-cases (c == 0)) [
  | inl e ↦ rw e h
  | inr e ↦ rw e (clean_loop-IsCleaner n s (clean_byte c x) (clean_byte-IsCleaner c x h))
]

clean_byte-space :
    (q r : Bool) (s : Text)
    → next q 32 ≡ some r
    → clean_byte 32 (record { clean = s; inspace = q })
      ≡ record { clean = s ++ 32 ∷ []; inspace = r }
unfolding clean_byte is_space
clean_byte-space true r s h = cc
clean_byte-space false r s h = ap (λ u. record { clean = s ++ 32 ∷ []; inspace = u }) (some_inj h)

-- A byte that is read is copied, and tells the flag.
clean_byte-next :
    (c : ℕ) (q r : Bool) (s : Text)
    → next q c ≡ some r
    → clean_byte c (record { clean = s; inspace = q }) ≡ record { clean = s ++ c ∷ []; inspace = r }
unfolding clean_byte is_space is_print is_graph
clean_byte-next c q r s h = by_space (Bool-cases (c == 32))
  where
    by_space :
        (c == 32 ≡ true) ⊎ (c == 32 ≡ false)
        → clean_byte c (record { clean = s; inspace = q })
          ≡ record { clean = s ++ c ∷ []; inspace = r }
    by_space (inl e) =
        let same : 32 ≡ c = ground (arith, e) in
        subst
          (λ u.
            next q u ≡ some r
            → clean_byte u (record { clean = s; inspace = q })
              ≡ record { clean = s ++ u ∷ []; inspace = r })
          same (clean_byte-space q r s) h
    by_space (inr e) = ground (arith, h, e)

next_nonzero : (q r : Bool) (c : ℕ) → next q c ≡ some r → (c == 0) ≡ false
unfolding is_graph
next_nonzero q r c h = ground (arith, h)

clean_loop-byte :
    (n c : ℕ) (t : Text) (x : Cleaner)
    → (c == 0) ≡ false
    → clean_loop (suc n) (c ∷ t) x ≡ clean_loop n t (clean_byte c x)
unfolding clean_loop
clean_loop-byte n c t x h = rw h refl

clean_loop-nil : (n : ℕ) (x : Cleaner) → clean_loop n [] x ≡ x
unfolding clean_loop
clean_loop-nil zero x = refl
clean_loop-nil (suc n) x = refl

-- A tidy text is copied as it is.
clean_loop-tidy :
    (n : ℕ) (t s : Text) (q r : Bool)
    → tidy q t ≡ some r
    → length t ≤ n
    → clean_loop n t (record { clean = s; inspace = q }) ≡ record { clean = s ++ t; inspace = r }
clean_loop-tidy n [] s q r h k =
    clean_loop-nil n _
    ∙ ap (λ u. record { clean = u; inspace = q }) (sym (append-nil s))
    ∙ ap (λ u. record { clean = s ++ []; inspace = u }) (some_inj h)
clean_loop-tidy zero (c ∷ t) s q r h k = absurd (omega arith)
clean_loop-tidy (suc n) (c ∷ t) s q r h k =
    let (m, one, rest) = >>=-eq-some (next q c) (λ u. tidy u t) r h in
    clean_loop-byte n c t (record { clean = s; inspace = q }) (next_nonzero q m c one)
    ∙ ap (clean_loop n t) (clean_byte-next c q m s one)
    ∙ clean_loop-tidy n t (s ++ c ∷ []) m r rest (omega arith)
    ∙ ap (λ u. record { clean = u; inspace = r }) (snoc-append s c t)

-- The end of the text: a space is dropped.
drop_last-tidy :
    (q : Bool) (s : Text) → tidy q s ≡ some true → s ≢ [] → tidy q (drop_last s) ≡ some false
unfolding drop_last
drop_last-tidy q [] h k = absurd (k refl)
drop_last-tidy q (c ∷ []) h k = ground (arith, h)
drop_last-tidy q (c ∷ b ∷ s) h k =
    let (m, one, rest) = >>=-eq-some (next q c) (λ u. tidy u (b ∷ s)) true h in
    ap (λ o. o >>= λ u. tidy u (drop_last (b ∷ s))) one ∙ drop_last-tidy m (b ∷ s) rest (λ e. cc)

trim-IsTidy : (q : Bool) (s : Text) → tidy true s ≡ some q → IsTidy (trim q s)
unfolding trim
trim-IsTidy true [] h = inl refl
trim-IsTidy false [] h = inl refl
trim-IsTidy true (c ∷ s) h = inr (drop_last-tidy true (c ∷ s) h (λ e. cc))
trim-IsTidy false (c ∷ s) h = inr h

cleanup_serial-IsTidy : (s : Text) (n : ℕ) → IsTidy (cleanup_serial s n)
unfolding cleanup_serial
cleanup_serial-IsTidy s n =
    trim-IsTidy (clean_loop n s fresh).inspace (clean_loop n s fresh).clean
      (clean_loop-IsCleaner n s fresh refl)

length-drop_last : (s : Text) → length (drop_last s) ≤ length s
unfolding drop_last
length-drop_last [] = omega arith
length-drop_last (c ∷ []) = omega arith
length-drop_last (c ∷ b ∷ s) = omega (arith, length-drop_last (b ∷ s))

length-trim : (q : Bool) (s : Text) → length (trim q s) ≤ length s
unfolding trim
length-trim q s = ground (arith, length-drop_last s)

length-clean_byte : (c : ℕ) (x : Cleaner) → length (clean_byte c x).clean ≤ suc (length x.clean)
unfolding clean_byte
length-clean_byte c x = ground (arith, length-snoc x.clean c, length-snoc x.clean 32)

length-clean_loop :
    (n : ℕ) (s : Text) (x : Cleaner) → length (clean_loop n s x).clean ≤ n + length x.clean
unfolding clean_loop
length-clean_loop zero s x = omega arith
length-clean_loop (suc n) [] x = omega arith
length-clean_loop (suc n) (c ∷ s) x = elim (Bool-cases (c == 0)) [
  | inl e ↦ rw e (omega arith)
  | inr e ↦ rw e (omega (arith, length-clean_loop n s (clean_byte c x), length-clean_byte c x))
]

length-cleanup_serial : (s : Text) (n : ℕ) → length (cleanup_serial s n) ≤ n
unfolding cleanup_serial
length-cleanup_serial s n = omega (
  arith,
  length-clean_loop n s fresh,
  length-trim (clean_loop n s fresh).inspace (clean_loop n s fresh).clean,
)

cleanup_serial-nil : (n : ℕ) → cleanup_serial [] n ≡ []
unfolding cleanup_serial trim
cleanup_serial-nil n = rw (clean_loop-nil n fresh) refl

cleanup_serial-tidy :
    (r : Text) (n : ℕ) → length r ≤ n → tidy true r ≡ some false → cleanup_serial r n ≡ r
unfolding cleanup_serial trim
cleanup_serial-tidy r n k h = rw (clean_loop-tidy n r [] true false h k) refl

tidy_again : (r : Text) (n : ℕ) → length r ≤ n → IsTidy r → cleanup_serial r n ≡ r
tidy_again r n k (inl e) = subst (λ u. cleanup_serial u n ≡ u) (sym e) (cleanup_serial-nil n)
tidy_again r n k (inr h) = cleanup_serial-tidy r n k h

-- A cleaned serial number is empty, or words of graphic characters with one space between them; it is no
-- longer than the bound, and cleaning it again changes nothing.
pub cleanup_serial_again :
    (s : Text) (n : ℕ)
    → IsTidy (cleanup_serial s n)
      × (length (cleanup_serial s n) ≤ n)
      × (cleanup_serial (cleanup_serial s n) n ≡ cleanup_serial s n)
cleanup_serial_again s n = (
  cleanup_serial-IsTidy s n,
  length-cleanup_serial s n,
  tidy_again (cleanup_serial s n) n (length-cleanup_serial s n) (cleanup_serial-IsTidy s n),
)
