-- ===== src/Devices/Names.antt =====
-- The loop that takes the leading directories off a name.
use growlight.Prelude.{
  ℕ, zero, suc, ◌<◌, ◌≡◌, ◌≢◌, ◌∙◌, ◌⊎◌, inl, inr, refl, Option, some, List, [], ◌∷◌, ◌++◌, arith,
  length,
}
use growlight.Text.Words.{drop-lt}
use growlight.Text.{Text, codes, starts_with, drop}
use growlight.Devices.{Controller, prefix_size, strip_prefix, lookup_device}
use growlight.Device.{Device}

-- A name that is left alone.
abbrev pub IsBare : Text → Type 0
IsBare s = prefix_size s ≡ 0

nil-IsBare : IsBare []
unfolding prefix_size
nil-IsBare = refl

round-lt : (s : Text) → prefix_size s ≢ 0 → length (drop (prefix_size s) s) < length s
round-lt [] h = absurd (h nil-IsBare)
round-lt (c ∷ s) h = drop-lt (prefix_size (c ∷ s)) (c ∷ s) (omega (arith, h)) (omega arith)

strip_prefix-stop : (f : ℕ) (s : Text) → IsBare s → strip_prefix (suc f) s ≡ some s
unfolding strip_prefix
strip_prefix-stop f s h = ground (arith, h)

strip_prefix-step :
    (f : ℕ) (s : Text)
    → prefix_size s ≢ 0
    → strip_prefix (suc f) s ≡ strip_prefix f (drop (prefix_size s) s)
unfolding strip_prefix
strip_prefix-step f s h = ground (arith, h)

-- The loop ends: fuel above the length of the name gives a name, and none of the four prefixes that the
-- loop looks for is left on it.
pub strip_prefix_total :
    (f : ℕ) (s : Text) → length s < f → (n : Text) × (strip_prefix f s ≡ some n) × IsBare n
strip_prefix_total zero s h = absurd (omega arith)
strip_prefix_total (suc f) s h = round (λ t k. strip_prefix_total f t k) (zero-or (prefix_size s))
  where
    zero-or : (n : ℕ) → (n ≡ 0) ⊎ (n ≢ 0)
    zero-or zero = inl refl
    zero-or (suc n) = inr (λ e. ground arith)

    round :
        ((t : Text) → length t < f → (n : Text) × (strip_prefix f t ≡ some n) × IsBare n)
        → (prefix_size s ≡ 0) ⊎ (prefix_size s ≢ 0)
        → (n : Text) × (strip_prefix (suc f) s ≡ some n) × IsBare n
    round ih (inl e) = (s, strip_prefix-stop f s e, e)
    round ih (inr e) =
        let (n, run, bare) = ih (drop (prefix_size s) s) (omega (arith, round-lt s e)) in
        (n, strip_prefix-step f s e ∙ run, bare)

dev-prefix : (n : Text) → prefix_size (codes "/dev/" ++ n) ≡ 1
unfolding prefix_size starts_with
dev-prefix n = refl

dev-prefix' : (n : Text) → prefix_size (codes "dev/" ++ n) ≡ 4
unfolding prefix_size starts_with
dev-prefix' n = refl

strip_prefix-dev :
    (f : ℕ) (n : Text) → IsBare n → strip_prefix (suc (suc (suc f))) (codes "/dev/" ++ n) ≡ some n
unfolding strip_prefix drop prefix_size starts_with
strip_prefix-dev f n h = strip_prefix-stop f n h

-- A device is found under its node in /dev exactly as under its name, for a name that has none of the
-- prefixes itself.
pub lookup_device-dev :
    (create_new_device : Text → List Controller → Option Device × List Controller) (n : Text)
    (cs : List Controller)
    → IsBare n
    → lookup_device create_new_device (codes "/dev/" ++ n) cs ≡ lookup_device create_new_device n cs
unfolding lookup_device
lookup_device-dev create n cs h =
    rw
      (
        lookup_device,
        strip_prefix-dev (suc (suc (suc (length n)))) n h,
        strip_prefix-stop (length n) n h,
      )
      refl
