-- ===== src/Target/Fstab/Reading.antt =====
-- The lines of etc/fstab, read as the lines of /proc/mounts are.
use growlight.Prelude.{
  ℕ, zero, suc, ◌+◌, ◌<◌, ◌≡◌, ◌≢◌, ◌∙◌, refl, ap, Bool, Bool-cases, inl, inr, true, false, none,
  some, List, [], ◌∷◌, ◌++◌, arith, length, if◌then◌else◌, get_elem?, append_assoc, append-nil,
}
use growlight.Prelude.Maybe.{◌>>=◌}
use growlight.Text.{Text, codes, is_graph, text_eq, starts_with, drop}
use growlight.Text.Words.{IsWord, Passes, Passes-append}
use growlight.Device.{Device}
use growlight.Mounts.{Mount, parse_mounts}
use growlight.Mounts.Parse.{
  NoNewline, IsMount, print_mount, parse_mount-print_mount, parse_mounts-step, handle_all,
}
use growlight.Target.Fstab.{swap_valid, mount_line, mount_lines, dump_device_targets}

-- What is behind the text of the target in a path that begins with it.
abbrev pub inside : (target mnt : Text) → Text
inside target mnt = if text_eq mnt target then codes "/" else drop (length target) mnt

abbrev pub fstab_mount : (target fs : Text) → Device → (mnt ops : Text) → Mount
fstab_mount target fs d mnt ops = record {
  dev = codes "/dev/" ++ d.name;
  mnt = inside target mnt;
  fs = fs;
  ops = ops;
}

-- What the lines say: the mounts whose path begins with the target's text, each with its options.
abbrev pub fstab_mounts : (target fs : Text) → Device → ℕ → List Text → List Mount
fstab_mounts target fs d z [] = []
fstab_mounts target fs d z (m ∷ ms) =
    let rest = fstab_mounts target fs d (z + 1) ms in
    if starts_with m target
    then elim (get_elem? d.mntops z) [ none ↦ rest | some o ↦ fstab_mount target fs d m o ∷ rest ]
    else rest

-- The mounts of a device from position `z` on are words, and have options that are words.
abbrev pub Ready : Device → ℕ → List Text → Type 0
Ready d z [] = Unit
Ready d z (m ∷ ms) =
    IsWord m × ((o : Text) × (get_elem? d.mntops z ≡ some o) × IsWord o) × Ready d (z + 1) ms

tab_test : codes "\t" ≡ 9 ∷ []
tab_test = refl

Passes-drop : (n : ℕ) (s : Text) → Passes is_graph s → Passes is_graph (drop n s)
unfolding drop
Passes-drop zero s h = h
Passes-drop (suc n) [] h = h
Passes-drop (suc n) (c ∷ s) h = Passes-drop n s h.1

drop-nonempty : (m t : Text) → starts_with m t ≡ true → text_eq m t ≡ false → drop (length t) m ≢ []
unfolding starts_with text_eq drop
drop-nonempty [] [] h e = ground arith
drop-nonempty (c ∷ m) [] h e = λ z. ground arith
drop-nonempty [] (b ∷ t) h e = ground arith
drop-nonempty (c ∷ m) (b ∷ t) h e = drop-nonempty m t (ground arith) (ground arith)

root-IsWord : IsWord (codes "/")
unfolding is_graph
root-IsWord = ((refl, tt), λ z. ground arith)

below-IsWord : (target m : Text) → IsWord m → starts_with m target ≡ true → IsWord (inside target m)
below-IsWord target m w h = elim (Bool-cases (text_eq m target)) [
  | inl e ↦ rw e (root-IsWord)
  | inr e ↦ rw e (Passes-drop (length target) m w.0, drop-nonempty m target h e)
]

print_mount-append : (m : Mount) (t rest : Text) → print_mount m t [] ++ rest ≡ print_mount m t rest
print_mount-append m t rest = simp append_assoc

module _ {S : Type 0} (handle : Mount → S → Bool × S) where
  -- The text is read as these mounts, where the fuel is above a bound of their number.
  abbrev Reads : Text → List Mount → ℕ → Type 0
  Reads text ms n =
      (f : ℕ) (bad : Bool) (st : S)
      → n < f
      → parse_mounts handle f text bad st ≡ some (handle_all handle ms bad st)

  Reads-nil : (n : ℕ) → Reads [] [] n
  unfolding parse_mounts
  Reads-nil n zero bad st h = absurd (omega arith)
  Reads-nil n (suc f) bad st h = refl

  Reads-more : (text : Text) (ms : List Mount) (n : ℕ) → Reads text ms n → Reads text ms (suc n)
  Reads-more text ms n r f bad st h = r f bad st (omega arith)

  Reads-cons :
      (m : Mount) (tail rest : Text) (ms : List Mount) (n : ℕ)
      → IsMount m
      → NoNewline tail
      → Reads rest ms n
      → Reads (print_mount m tail rest) (m ∷ ms) (suc n)
  Reads-cons m tail rest ms n i t r zero bad st h = absurd (omega arith)
  Reads-cons m tail rest ms n i t r (suc f) bad st h =
      parse_mounts-step handle f (print_mount m tail rest) m rest bad st
        (parse_mount-print_mount m tail rest i t)
      ∙ r f _ _ (omega arith)

  module _ (target fs : Text) (d : Device) (name : Passes is_graph d.name) (w : IsWord fs) where
    fstab_mount-IsMount :
        (m o : Text)
        → IsWord m
        → IsWord o
        → starts_with m target ≡ true
        → IsMount (fstab_mount target fs d m o)
    unfolding is_graph
    fstab_mount-IsMount m o i j h = record {
      dev = (
        Passes-append is_graph (codes "/dev/") d.name (refl, (refl, (refl, (refl, (refl, tt)))))
            name,
        λ z. ground arith,
      );
      mnt = below-IsWord target m i h;
      fs = w;
      ops = j;
    }

    abbrev number : Text → ℕ
    number m = if text_eq m target then 1 else 2

    abbrev numbers : Text → Text
    numbers m = 48 ∷ 32 ∷ (48 + number m) ∷ []

    numbers-NoNewline : (m : Text) → NoNewline (numbers m)
    numbers-NoNewline m = ((λ e. ground arith), ((λ e. ground arith), ((λ e. ground arith), tt)))

    mount_line-below :
        (m o : Text) (z : ℕ)
        → starts_with m target ≡ true
        → get_elem? d.mntops z ≡ some o
        → mount_line target fs d z m
          ≡ some (print_mount (fstab_mount target fs d m o) (numbers m) [])
    unfolding mount_line
    mount_line-below m o z h e = elim (Bool-cases (text_eq m target)) [
      | inl t ↦ rw (mount_line, h, e, t) refl
      | inr t ↦ rw (mount_line, h, e, t) refl
    ]

    mount_line-outside :
        (m : Text) (z : ℕ) → starts_with m target ≡ false → mount_line target fs d z m ≡ some []
    unfolding mount_line
    mount_line-outside m z h = rw (mount_line, h) refl

    mount_lines-Reads :
        (ms : List Text) (z : ℕ)
        → Ready d z ms
        → (text : Text) × (mount_lines target fs d z ms ≡ some text)
          × Reads text (fstab_mounts target fs d z ms) (length ms)
    unfolding mount_lines
    mount_lines-Reads [] z r = ([], refl, Reads-nil 0)
    mount_lines-Reads (m ∷ ms) z r =
        let (text, run, reads) = mount_lines-Reads ms (z + 1) r.2 in
        let (o, e, word_o) = r.1 in
        elim (Bool-cases (starts_with m target)) [
          | inl h ↦ (
            print_mount (fstab_mount target fs d m o) (numbers m) text,
            rw (mount_line-below m o z h e, run)
                (ap some (print_mount-append (fstab_mount target fs d m o) (numbers m) text)),
            rw (h, e)
                (Reads-cons (fstab_mount target fs d m o) (numbers m) text
                  (fstab_mounts target fs d (z + 1) ms) (length ms)
                  (fstab_mount-IsMount m o r.0 word_o h) (numbers-NoNewline m) reads),
          )
          | inr h ↦ (
            text,
            rw (mount_line-outside m z h, run) refl,
            rw h (Reads-more text (fstab_mounts target fs d (z + 1) ms) (length ms) reads),
          )
        ]

    dump-lines :
        (text : Text)
        → d.mnttype ≡ some fs
        → text_eq fs (codes "zfs") ≡ false
        → swap_valid d.swapprio ≡ false
        → mount_lines target fs d 0 d.mnt ≡ some text
        → dump_device_targets target d ≡ some text
    unfolding dump_device_targets
    dump-lines text t z s e = rw (dump_device_targets, t, z, e, s) (ap some (append-nil text))

    -- The lines of etc/fstab for a device whose name, type, mounts and options are words, which is no
    -- swap and no member of a zpool: read as /proc/mounts is, they give the mounts whose path begins with
    -- the text of the target, in order, each with what is behind that text as its path (a slash where
    -- nothing is), the type of the device and its own options. A path beside the target that begins with
    -- the same text, as /mnt2/x for /mnt, is among them.
    pub dump_device_targets-parse_mounts :
        d.mnttype ≡ some fs
        → text_eq fs (codes "zfs") ≡ false
        → swap_valid d.swapprio ≡ false
        → Ready d 0 d.mnt
        → (f : ℕ) (bad : Bool) (st : S) → length d.mnt < f
        → (dump_device_targets target d >>= λ text. parse_mounts handle f text bad st)
          ≡ some (handle_all handle (fstab_mounts target fs d 0 d.mnt) bad st)
    dump_device_targets-parse_mounts t z s r f bad st h =
        let (text, run, reads) = mount_lines-Reads d.mnt 0 r in
        rw (dump-lines text t z s run) (reads f bad st h)
