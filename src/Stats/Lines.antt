-- ===== src/Stats/Lines.antt =====
-- The lines that the kernel prints to /proc/diskstats, read back.
use growlight.Prelude.{
  ℕ, zero, suc, ◌+◌, ◌-◌, ◌<◌, ◌^◌, ◌≡◌, ◌∙◌, refl, ap, sym, subst, Bool, true, false, ◌||◌, some,
  [], ◌∷◌, ◌++◌, arith, leb, length, append_assoc,
}
use growlight.Text.Strtoull.{not-sign}
use growlight.Text.{Text, is_space, is_digit, is_graph, is_nil, span}
use growlight.Text.Words.{graph-not-space, IsWord, span-append}
use growlight.Text.Numbers.{
  print_nat, print_nat-first, print_nat-Passes, read_digits, read_digits-print_nat,
}
use growlight.Stats.{
  Diskstats, skip, skip_number, lex_diskstats_prefix, uintmax, read_unsigned, scan_ju,
  lex_diskstats,
}

digit-digit : (d : ℕ) → d < 10 → is_digit (48 + d) ≡ true
unfolding is_digit
digit-digit d h = ground arith

digit-not-space : (d : ℕ) → d < 10 → is_space (48 + d) ≡ false
unfolding is_space
digit-not-space d h = ground arith

skip-stop : (p : ℕ → Bool) (c : ℕ) (s : Text) → p c ≡ false → skip p (c ∷ s) ≡ c ∷ s
unfolding skip span
skip-stop p c s h = rw (skip, h) refl

pub skip-go : (p : ℕ → Bool) (c : ℕ) (s : Text) → p c ≡ true → skip p (c ∷ s) ≡ skip p s
unfolding skip span
skip-go p c s h = rw (skip, h) refl

skip-digits :
    (n c : ℕ) (s : Text) → is_digit c ≡ false → skip is_digit (print_nat n ++ c ∷ s) ≡ c ∷ s
unfolding skip
skip-digits n c s h =
    ap (λ w. w.1)
      (span-append is_digit (print_nat n) c s (print_nat-Passes is_digit n digit-digit) h)

-- A text whose first byte is no space.
abbrev pub Sharp : Text → Type 0
Sharp [] = Unit
Sharp (c ∷ s) = is_space c ≡ false

pub skip-Sharp : (s : Text) → Sharp s → skip is_space s ≡ s
unfolding skip
skip-Sharp [] h = refl
skip-Sharp (c ∷ s) h = skip-stop is_space c s h

skip_number_of :
    (s : Text) (c : ℕ) (r : Text)
    → skip is_digit s ≡ c ∷ r
    → is_space c ≡ true
    → skip_number s ≡ some (skip is_space (c ∷ r))
unfolding skip_number
skip_number_of s c r e h = rw (skip_number, e, h) refl

skip_number-print : (n : ℕ) (s : Text) → Sharp s → skip_number (print_nat n ++ 32 ∷ s) ≡ some s
unfolding is_digit is_space
skip_number-print n s h =
    skip_number_of (print_nat n ++ 32 ∷ s) 32 s (skip-digits n 32 s refl) refl
    ∙ ap some (skip-go is_space 32 s refl ∙ skip-Sharp s h)

-- The spaces in front of a number, to a width.
abbrev pub blanks : (k : ℕ) → Text → Text
blanks zero s = s
blanks (suc k) s = 32 ∷ blanks k s

abbrev pub pad : (width n : ℕ) → Text → Text
pad width n s = blanks (width - length (print_nat n)) (print_nat n ++ s)

pub skip-blanks : (k : ℕ) (s : Text) → skip is_space (blanks k s) ≡ skip is_space s
unfolding is_space
skip-blanks zero s = refl
skip-blanks (suc k) s = skip-go is_space 32 (blanks k s) refl ∙ skip-blanks k s

pub blanks-append : (k : ℕ) (s t : Text) → blanks k s ++ t ≡ blanks k (s ++ t)
blanks-append zero s t = refl
blanks-append (suc k) s t = ap (λ r. 32 ∷ r) (blanks-append k s t)

skip_number-blanks :
    (n k : ℕ) (s : Text) → Sharp s → skip_number (print_nat n ++ 32 ∷ blanks k s) ≡ some s
unfolding is_digit is_space
skip_number-blanks n k s h =
    skip_number_of (print_nat n ++ 32 ∷ blanks k s) 32 (blanks k s)
      (skip-digits n 32 (blanks k s) refl) refl
    ∙ ap some (skip-go is_space 32 (blanks k s) refl ∙ skip-blanks k s ∙ skip-Sharp s h)

print_nat-digit : (n : ℕ) → (d : ℕ) × (t : Text) × (print_nat n ≡ (48 + d) ∷ t) × (d < 10)
unfolding print_nat
print_nat-digit zero = (0, [], refl, omega arith)
print_nat-digit (suc n) =
    let (d, t, same, low, high) = print_nat-first (suc n) (omega arith) in (d, t, same, high)

pub number-Sharp : (n : ℕ) (s : Text) → Sharp (print_nat n ++ s)
number-Sharp n s =
    let (d, t, same, high) = print_nat-digit n in
    subst (λ w. Sharp (w ++ s)) (sym same) (digit-not-space d high)

word-Sharp : (w s : Text) → IsWord w → Sharp (w ++ s)
word-Sharp [] s h = absurd (h.1 refl)
word-Sharp (c ∷ w) s h = graph-not-space c h.0.0

spaces : (d : ℕ) (t : Text) → d < 10 → skip is_space (32 ∷ (48 + d) ∷ t) ≡ (48 + d) ∷ t
unfolding is_space
spaces d t h =
    skip-go is_space 32 ((48 + d) ∷ t) refl ∙ skip-stop is_space (48 + d) t (digit-not-space d h)

small : (n : ℕ) → n < 2 ^ 64 → uintmax n ≡ n
small n h = ground arith

scan_ju-digit :
    (d : ℕ) (t : Text) → d < 10 → scan_ju (32 ∷ (48 + d) ∷ t) ≡ read_unsigned ((48 + d) ∷ t)
unfolding scan_ju
scan_ju-digit d t h = rw (scan_ju, spaces d t h, not-sign d 45 refl, not-sign d 43 refl) refl

read_unsigned-digit :
    (d : ℕ) (t : Text) (n : ℕ) (r : Text)
    → d < 10
    → read_digits 0 ((48 + d) ∷ t) ≡ (n, r)
    → n < 2 ^ 64
    → read_unsigned ((48 + d) ∷ t) ≡ some (n, r)
read_unsigned-digit d t n r h e b = rw (digit-digit d h, e) (ap (λ v. some (v, r)) (small n b))

scan_ju-print :
    (n : ℕ) (s : Text) → n < 2 ^ 64 → scan_ju (32 ∷ (print_nat n ++ 32 ∷ s)) ≡ some (n, 32 ∷ s)
unfolding is_digit
scan_ju-print n s h =
    let (d, t, same, high) = print_nat-digit n in
    ap (λ w. scan_ju (32 ∷ (w ++ 32 ∷ s))) same
    ∙ scan_ju-digit d (t ++ 32 ∷ s) high
    ∙ read_unsigned-digit d (t ++ 32 ∷ s) n (32 ∷ s) high
        (ap (λ w. read_digits 0 (w ++ 32 ∷ s)) (sym same) ∙ read_digits-print_nat n 32 s refl) h

-- What a line says: the numbers of the device, its name, and the first seven of the counts.
pub record Line : Type 0 where
  pub major : ℕ
  pub minor : ℕ
  pub name : Text
  pub f1 : ℕ
  pub f2 : ℕ
  pub f3 : ℕ
  pub f4 : ℕ
  pub f5 : ℕ
  pub f6 : ℕ
  pub f7 : ℕ

-- The major number has at most three digits, the name is a word of at most 255 bytes, and the counts are
-- of 64 bits.
pub record IsLine (l : Line) : Type 0 where
  pub number : length (print_nat l.major) < 4
  pub word : IsWord l.name
  pub short : length l.name < 256
  pub b1 : l.f1 < 2 ^ 64
  pub b2 : l.f2 < 2 ^ 64
  pub b3 : l.f3 < 2 ^ 64
  pub b4 : l.f4 < 2 ^ 64
  pub b5 : l.f5 < 2 ^ 64
  pub b6 : l.f6 < 2 ^ 64
  pub b7 : l.f7 < 2 ^ 64

-- The counts, each behind a space, in front of what else is printed.
abbrev pub print_counts : Line → Text → Text
print_counts l more =
    32
    ∷ (print_nat l.f1
        ++ 32
          ∷ (print_nat l.f2
              ++ 32
                ∷ (print_nat l.f3
                    ++ 32
                      ∷ (print_nat l.f4
                          ++ 32
                            ∷ (print_nat l.f5
                                ++ 32 ∷ (print_nat l.f6 ++ 32 ∷ (print_nat l.f7 ++ 32 ∷ more)))))))

-- A line without the spaces in front of it.
abbrev pub print_body : Line → Text → Text
print_body l more = print_nat l.major ++ 32 ∷ pad 7 l.minor (32 ∷ (l.name ++ print_counts l more))

abbrev pub stat_of : Line → Diskstats
stat_of l = record { name = l.name; sectors_read = l.f3; sectors_written = l.f7 }

lex_name : (w r : Text) → IsWord w → length w < 256 → leb 256 (length w) || is_nil w ≡ false
lex_name [] r h b = absurd (h.1 refl)
lex_name (c ∷ w) r h b = ground arith

prefix_of :
    (line s1 s2 name rest : Text)
    → skip_number (skip is_space line) ≡ some s1
    → skip_number s1 ≡ some s2
    → span is_graph s2 ≡ (name, rest)
    → leb 256 (length name) || is_nil name ≡ false
    → lex_diskstats_prefix line ≡ some (name, rest)
unfolding lex_diskstats_prefix
prefix_of line s1 s2 name rest a b c d = ground (arith, a, b, c, d)

pub lex_prefix-body :
    (l : Line) (line more : Text)
    → IsLine l
    → skip is_space line ≡ print_body l more
    → lex_diskstats_prefix line ≡ some (l.name, print_counts l more)
unfolding is_graph
lex_prefix-body l line more i e =
    prefix_of line (print_nat l.minor ++ 32 ∷ (l.name ++ print_counts l more))
      (l.name ++ print_counts l more) l.name (print_counts l more)
      (ap skip_number e
        ∙ skip_number-blanks l.major (7 - length (print_nat l.minor)) _ (number-Sharp l.minor _))
      (skip_number-print l.minor _ (word-Sharp l.name (print_counts l more) i.word))
      (span-append is_graph l.name 32 _ i.word.0 refl) (lex_name l.name [] i.word i.short)

pub counts-append :
    (l : Line) (more beyond : Text)
    → print_counts l more ++ beyond ≡ print_counts l (more ++ beyond)
counts-append l more beyond = simp append_assoc

pub lex_of :
    (line beyond r : Text) (l : Line)
    → lex_diskstats_prefix line ≡ some (l.name, r)
    → (more : Text) → r ++ beyond ≡ print_counts l more
    → IsLine l
    → lex_diskstats line beyond ≡ some (stat_of l)
unfolding lex_diskstats
lex_of line beyond r l e more f i =
    rw
      (
        lex_diskstats,
        e,
        f,
        scan_ju-print l.f1 _ i.b1,
        scan_ju-print l.f2 _ i.b2,
        scan_ju-print l.f3 _ i.b3,
        scan_ju-print l.f4 _ i.b4,
        scan_ju-print l.f5 _ i.b5,
        scan_ju-print l.f6 _ i.b6,
        scan_ju-print l.f7 more i.b7,
      )
      refl
