-- ===== src/Mounts/Parse.antt =====
-- Reading back what the kernel prints, and the end of the loop over it.
use growlight.Prelude.{
  ℕ, zero, suc, ◌≤◌, ◌<◌, ◌≡◌, ◌≢◌, refl, ◌∙◌, Bool, true, false, Option, none, some, List, [], ◌∷◌,
  ◌++◌, arith, length, if◌then◌else◌,
}
use growlight.Text.{Text, is_space, is_graph, span, is_nil}
use growlight.Text.Words.{All, IsWord, span-append, length-span}
use growlight.Mounts.{Mount, word, field, next_line, parse_mount, parse_mounts}

-- The four fields of a mount.
pub record IsMount (m : Mount) : Type 0 where
  pub dev : IsWord m.dev
  pub mnt : IsWord m.mnt
  pub fs : IsWord m.fs
  pub ops : IsWord m.ops

abbrev pub NoNewline : Text → Type 0
NoNewline = All (λ c. c ≢ 10)

-- A line in the format of the kernel: the fields, each with a space behind it, and two numbers.
abbrev pub print_mount : Mount → (tail rest : Text) → Text
print_mount m tail rest =
    m.dev ++ 32 ∷ (m.mnt ++ 32 ∷ (m.fs ++ 32 ∷ (m.ops ++ 32 ∷ (tail ++ 10 ∷ rest))))

word_of :
    (s w : Text) (c : ℕ) (r : Text)
    → span is_graph s ≡ (w, c ∷ r)
    → is_space c ≡ true
    → is_nil w ≡ false
    → word s ≡ some (w, c ∷ r)
unfolding word
word_of s w c r h space full = ground arith

-- What the kernel prints for a list of mounts; the numbers are 0.
abbrev pub print_mounts : List Mount → Text
print_mounts [] = []
print_mounts (m ∷ ms) = print_mount m (48 ∷ 32 ∷ 48 ∷ []) (print_mounts ms)

abbrev pub AllMounts : List Mount → Type 0
AllMounts [] = Unit
AllMounts (m ∷ ms) = IsMount m × AllMounts ms

word-append : (w s : Text) → IsWord w → word (w ++ 32 ∷ s) ≡ some (w, 32 ∷ s)
unfolding word is_space is_graph
word-append [] s h = absurd (h.1 refl)
word-append (c ∷ w) s h =
    word_of ((c ∷ w) ++ 32 ∷ s) (c ∷ w) 32 s (span-append is_graph (c ∷ w) 32 s h.0 refl) refl refl

field-append : (w s : Text) → IsWord w → field (w ++ 32 ∷ s) ≡ some (w, s)
unfolding field
field-append w s h = rw (word-append w s h) refl

next_line-append : (t s : Text) → NoNewline t → next_line (t ++ 10 ∷ s) ≡ some s
unfolding next_line
next_line-append [] s h = refl
next_line-append (c ∷ t) s h = ground (arith, next_line-append t s h.1)

-- A line whose four fields are words of graphic bytes, of the codes 33 to 126, each with a space behind
-- it and no newline in what follows them, is read back, whatever stands behind the line.
pub parse_mount-print_mount :
    (m : Mount) (tail rest : Text)
    → IsMount m
    → NoNewline tail
    → parse_mount (print_mount m tail rest) ≡ some (m, rest)
unfolding parse_mount
parse_mount-print_mount m tail rest h t =
    rw
      (
        field-append m.dev _ h.dev,
        field-append m.mnt _ h.mnt,
        field-append m.fs _ h.fs,
        word-append m.ops _ h.ops,
        next_line-append (32 ∷ tail) rest (omega arith, t),
      )
      refl

word-le : (s w r : Text) → word s ≡ some (w, r) → length r ≤ length s
unfolding word
word-le s w r h = ground (arith, length-span is_graph s)

next_line-lt : (s r : Text) → next_line s ≡ some r → length r < length s
unfolding next_line
next_line-lt [] r h = ground arith
next_line-lt (c ∷ s) r h = ground (arith, next_line-lt s r)

field-le : (s w r : Text) → field s ≡ some (w, r) → length r ≤ length s
unfolding field
field-le s w r h = grind (arith, word-le)

parse_mount-lt :
    (s : Text) (m : Mount) (r : Text) → parse_mount s ≡ some (m, r) → length r < length s
unfolding parse_mount
parse_mount-lt s m r h = grind (arith, field-le, word-le, next_line-lt)

pub empty : (m : Mount) (r : Text) → parse_mount [] ≢ some (m, r)
unfolding parse_mount field word
empty m r h = ground arith

module _ {S : Type 0} (handle : Mount → S → Bool × S) where
  -- What the handler keeps, the loop keeps.
  pub parse_mounts_keeps :
      (P : S → Type 0)
      → ((m : Mount) (st : S) → P st → P (handle m st).1)
      → (f : ℕ) (s : Text) (bad : Bool) (st : S) → length s < f
      → P st
      → (r : Bool × S) × (parse_mounts handle f s bad st ≡ some r) × P r.1
  unfolding parse_mounts
  parse_mounts_keeps P keeps zero s bad st h p = absurd (omega arith)
  parse_mounts_keeps P keeps (suc f) [] bad st h p = ((bad, st), refl, p)
  parse_mounts_keeps P keeps (suc f) (c ∷ s) bad st h p =
      after (parse_mounts_keeps P keeps f) (parse_mount (c ∷ s)) refl
    where
      after :
          ((t : Text) (b : Bool) (u : S)
            → length t < f
            → P u
            → (r : Bool × S) × (parse_mounts handle f t b u ≡ some r) × P r.1)
          → (o : Option (Mount × Text)) → parse_mount (c ∷ s) ≡ o
          → (r : Bool × S) × (parse_mounts handle (suc f) (c ∷ s) bad st ≡ some r) × P r.1
      after ih none e = ((true, st), rw (parse_mounts, e) refl, p)
      after ih (some (m, rest)) e =
          let (r, run, q) =
            ih rest (if (handle m st).0 then true else bad) (handle m st).1
              (omega (arith, parse_mount-lt (c ∷ s) m rest e)) (keeps m st p) in
          (r, rw (parse_mounts, e) run, q)

  -- The loop over the lines ends: fuel above the length of the map gives a result.
  pub parse_mounts_total :
      (f : ℕ) (s : Text) (bad : Bool) (st : S)
      → length s < f
      → (r : Bool × S) × (parse_mounts handle f s bad st ≡ some r)
  parse_mounts_total f s bad st h =
      let (r, run, _) = parse_mounts_keeps (λ u. Unit) (λ m u p. tt) f s bad st h tt in (r, run)

  pub parse_mounts-step :
      (f : ℕ) (s : Text) (m : Mount) (rest : Text) (bad : Bool) (st : S)
      → parse_mount s ≡ some (m, rest)
      → parse_mounts handle (suc f) s bad st
        ≡ parse_mounts handle f rest (if (handle m st).0 then true else bad) (handle m st).1
  unfolding parse_mounts
  parse_mounts-step f [] m rest bad st e = absurd (empty m rest e)
  parse_mounts-step f (c ∷ s) m rest bad st e = rw (parse_mounts, e) refl

  -- What the loop should do with a list of mounts: handle each in order, and remember a failure.
  abbrev pub handle_all : List Mount → Bool → S → Bool × S
  handle_all [] bad st = (bad, st)
  handle_all (m ∷ ms) bad st =
      let (e, st') = handle m st in handle_all ms (if e then true else bad) st'

  -- On the lines that the kernel prints for a list of mounts, with fuel above their number, the loop
  -- handles each mount in order and ends with the error value exactly if one of them failed.
  pub parse_mounts-print_mounts :
      (f : ℕ) (ms : List Mount) (bad : Bool) (st : S)
      → AllMounts ms
      → length ms < f
      → parse_mounts handle f (print_mounts ms) bad st ≡ some (handle_all ms bad st)
  unfolding parse_mounts
  parse_mounts-print_mounts zero ms bad st all h = absurd (omega arith)
  parse_mounts-print_mounts (suc f) [] bad st all h = refl
  parse_mounts-print_mounts (suc f) (m ∷ ms) bad st all h =
      parse_mounts-step f (print_mounts (m ∷ ms)) m (print_mounts ms) bad st
        (parse_mount-print_mount m (48 ∷ 32 ∷ 48 ∷ []) (print_mounts ms) all.0 (omega arith))
      ∙ parse_mounts-print_mounts f ms _ _ all.1 (omega arith)
