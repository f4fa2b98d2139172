-- ===== src/Stats/Files.antt =====
-- The whole of /proc/diskstats, read back.
use growlight.Prelude.{
  ℕ, zero, suc, ◌-◌, ◌≤◌, ◌≡◌, refl, ap, Bool, not, List, [], ◌∷◌, ◌++◌, arith, ◌==◌, length, take,
}
use growlight.Text.{Text}
use growlight.Text.Numbers.{print_nat}
use growlight.Stats.{read_procfs_file}
use growlight.Stats.Lines.{Line, IsLine, blanks, print_body}

abbrev pub in_line : ℕ → Bool
in_line c = not (c == 10)

abbrev pub AllLines : List Line → Type 0
AllLines [] = Unit
AllLines (l ∷ ls) = IsLine l × AllLines ls

-- The file, as "%4d %7d %s %lu ...\n" prints it: the numbers of the device to the widths 4 and 7, and
-- the same text behind the counts of each line.
abbrev pub print_stats : (tail : Text) → List Line → Text
print_stats tail [] = []
print_stats tail (l ∷ ls) =
    blanks (4 - length (print_nat l.major)) (print_body l tail ++ 10 ∷ print_stats tail ls)

take_whole : (n : ℕ) (s : Text) → length s ≤ n → take n s ≡ s
take_whole zero [] h = refl
take_whole zero (c ∷ s) h = absurd (omega arith)
take_whole (suc n) [] h = refl
take_whole (suc n) (c ∷ s) h = ap (λ r. c ∷ r) (take_whole n s (omega arith))

image : (s : Text) → length s ≤ 8191 → read_procfs_file s ≡ s
unfolding read_procfs_file
image s h = take_whole 8191 s h
