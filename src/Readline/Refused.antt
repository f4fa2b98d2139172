-- ===== src/Readline/Refused.antt =====
-- Proofs on src/readline/readline.c: `partition add` with a first sector, from the words to the calls.
use growlight.Prelude.{
  ℕ, ◌^◌, ◌<◌, ◌≡◌, refl, ◌∙◌, ap, Option, none, some, List, [], ◌∷◌, ◌++◌, length,
}
use growlight.Text.{Text, codes, text_eq}
use growlight.Text.Numbers.{print_nat}
use growlight.Popen.{bufsiz}
use growlight.Readline.{Locale, Backend, Done, after, complained, usage, or_usage, lookup_wdevice}
use growlight.Readline.Numbers.{extract_partition_spec}
use growlight.Readline.Ranges.{IsNarrow, extract_partition_spec_cases}
use growlight.Readline.Handlers.Parts.{partition, partition_with, add, demand}

module _ {ℓ} {W : Type ℓ} (b : Backend W) where
  -- A sector and a colon at the front of the range: the usage.
  add-range :
      (l : Locale) (d name type r : Text) (n : ℕ)
      → extract_partition_spec l (print_nat n ++ b':' ∷ r) ≡ none
      → add b l d ((print_nat n ++ b':' ∷ r) ∷ name ∷ type ∷ []) ≡ (λ w. (none, b.complain w))
  unfolding add demand usage
  add-range l d name type r n e = rw (add, e) refl

  partition_with-add :
      (l : Locale) (d : Text) (more : List Text)
      → partition_with b l (codes "add") d more ≡ add b l d more
  unfolding partition_with text_eq
  partition_with-add l d more = refl

  -- What is done with the device that was looked up, or without one.
  abbrev with_device : (Text → Done W) → Option Text × W → Option (Unit {0}) × W
  with_device f (none, w) = (none, b.complain w)
  with_device f (some d, w) = f d w

  with_device-after :
      (f : Text → Done W) (o : Option Text × W) → after f (complained b o) ≡ with_device f o
  with_device-after f (none, w) = refl
  with_device-after f (some d, w) = refl

  partition-lookup :
      (l : Locale) (verb dev : Text) (more : List Text) (w : W)
      → partition b l (verb ∷ dev ∷ more) w
        ≡ with_device (λ d. partition_with b l verb d more) (lookup_wdevice b l dev w)
  unfolding partition or_usage
  partition-lookup l verb dev more w =
      with_device-after (λ d. partition_with b l verb d more) (lookup_wdevice b l dev w)

  -- Where characters are bytes, and for a positive number that fits: a range that starts with a first
  -- sector adds no partition; the device is looked up, and the usage is printed.
  pub partition-add :
      (l : Locale) (dev name type r : Text) (n : ℕ) (w : W)
      → IsNarrow l
      → 0 < n
      → n < 2 ^ 64
      → length (print_nat n ++ b':' ∷ r) < bufsiz
      → partition b l (codes "add" ∷ dev ∷ (print_nat n ++ b':' ∷ r) ∷ name ∷ type ∷ []) w
        ≡ (none, b.complain (lookup_wdevice b l dev w).1)
  partition-add l dev name type r n w h p q k =
      partition-lookup l (codes "add") dev ((print_nat n ++ b':' ∷ r) ∷ name ∷ type ∷ []) w
      ∙ by_lookup (lookup_wdevice b l dev w)
    where
      by_lookup :
          (o : Option Text × W)
          → with_device
              (λ d.
                partition_with b l (codes "add") d ((print_nat n ++ b':' ∷ r) ∷ name ∷ type ∷ []))
              o
            ≡ (none, b.complain o.1)
      by_lookup (none, w') = refl
      by_lookup (some d, w') =
          ap (λ m. m w')
            (partition_with-add l d ((print_nat n ++ b':' ∷ r) ∷ name ∷ type ∷ [])
              ∙ add-range l d name type r n (extract_partition_spec_cases l n r h p q k).2)
