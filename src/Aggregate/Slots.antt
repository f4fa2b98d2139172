-- ===== src/Aggregate/Slots.antt =====
-- Proofs on src/mdadm.c and src/aggregate.c: the counts of an MD device, and its stripe width.
use growlight.Prelude.{
  ℕ, zero, suc, ◌+◌, ◌-◌, ◌^◌, ◌<◌, ◌≤◌, ◌≡◌, ◌≢◌, refl, ◌∙◌, ap, sym, subst, Bool, true, false,
  ◌&&◌, ◌||◌, Bool-cases, inl, inr, ◌⊎◌, Option, none, some, List, [], ◌∷◌, ◌++◌, arith, ltb, ◌==◌,
  if◌then◌else◌, length, length-snoc,
}
use growlight.Prelude.Maybe.{some_inj, >>=-eq-some}
use growlight.Text.{Text, codes, text_eq}
use growlight.Aggregate.{AggregateType, aggregates, find_aggregate, get_aggregate, minus_one}
use growlight.Aggregate.Md.{
  Sysfs, Member, Link, Slots, Mddev, no_slots, slot_name, add_member, take_slot, take_slots,
  or_zero, width_of, stripe_width, filled, explore_md_sysfs,
}

-- One more slot is counted, as missing or with its name.
abbrev Counts : Slots → Slots → ℕ → Type 0
Counts s s' k =
    (s'.missing + length s'.slaves ≡ k + (s.missing + length s.slaves))
    × (s'.missing ≤ k + s.missing)

add_member-Counts :
    (s s' : Slots) (c : Text) (o : Option Member) → add_member s c o ≡ some s' → Counts s s' 1
add_member-Counts s s' c none h = cc
add_member-Counts s s' c (some m) h =
    subst (λ u. Counts s u 1) (some_inj h) (omega (arith, length-snoc s.slaves c), omega arith)

take_slot-Counts :
    (lookup : Text → Option Member) (s s' : Slots) (l : Link)
    → suc s.missing < 2 ^ 32
    → take_slot lookup s l ≡ some s'
    → Counts s s' 1
unfolding take_slot
take_slot-Counts lookup s s' Link.broken h e = cc
take_slot-Counts lookup s s' Link.absent h e =
    subst (λ u. Counts s u 1) (some_inj e) (omega arith, omega arith)
take_slot-Counts lookup s s' (Link.path lbuf) h e =
    let (c, named, added) = >>=-eq-some (slot_name lbuf) (λ c. add_member s c (lookup c)) s' e in
    add_member-Counts s s' c (lookup c) added

take_slots-Counts :
    (sys : Sysfs) (lookup : Text → Option Member) (k rd : ℕ) (s s' : Slots)
    → k + s.missing < 2 ^ 32
    → take_slots sys lookup k rd s ≡ some s'
    → Counts s s' k
unfolding take_slots
take_slots-Counts sys lookup zero rd s s' h e =
    subst (λ u. Counts s u 0) (some_inj e) (omega arith, omega arith)
take_slots-Counts sys lookup (suc k) rd s s' h e =
    let (m, first, rest) =
      >>=-eq-some (take_slot lookup s (sys.readlink rd)) (λ u. take_slots sys lookup k (suc rd) u)
        s' e in
    let one = take_slot-Counts lookup s m (sys.readlink rd) (omega arith) first in
    let more = take_slots-Counts sys lookup k (suc rd) m s' (omega (arith, one.1)) rest in
    (omega (arith, one.0, more.0), omega (arith, one.1, more.1))

abbrev all_entries : (AggregateType → Bool) → List AggregateType → Bool
all_entries P [] = true
all_entries P (t ∷ ts) = P t && all_entries P ts

and_first : (b c : Bool) → b && c ≡ true → b ≡ true
and_first true c h = refl
and_first false c h = h

and_second : (b c : Bool) → b && c ≡ true → c ≡ true
and_second true c h = h
and_second false c h = cc

find_nil : (n : Text) (t : AggregateType) → find_aggregate n [] ≡ some t → ⊥
unfolding find_aggregate
find_nil n t e = cc

find-hit :
    (n : Text) (u : AggregateType) (ts : List AggregateType)
    → text_eq u.name n ≡ true
    → find_aggregate n (u ∷ ts) ≡ some u
unfolding find_aggregate
find-hit n u ts k = rw k refl

find-miss :
    (n : Text) (u : AggregateType) (ts : List AggregateType)
    → text_eq u.name n ≡ false
    → find_aggregate n (u ∷ ts) ≡ find_aggregate n ts
unfolding find_aggregate
find-miss n u ts k = rw k refl

-- The entry that is found is one of the table.
found_in_table :
    (P : AggregateType → Bool) (n : Text) (ts : List AggregateType) (t : AggregateType)
    → all_entries P ts ≡ true
    → find_aggregate n ts ≡ some t
    → P t ≡ true
found_in_table P n [] t h e = absurd (find_nil n t e)
found_in_table P n (u ∷ ts) t h e =
    by_name (found_in_table P n ts t (and_second (P u) (all_entries P ts) h))
      (Bool-cases (text_eq u.name n))
  where
    by_name :
        (find_aggregate n ts ≡ some t → P t ≡ true)
        → (text_eq u.name n ≡ true) ⊎ (text_eq u.name n ≡ false)
        → P t ≡ true
    by_name ih (inl k) =
        subst (λ v. P v ≡ true) (some_inj (sym (find-hit n u ts k) ∙ e))
          (and_first (P u) (all_entries P ts) h)
    by_name ih (inr k) = ih (sym (find-miss n u ts k) ∙ e)

-- An array of the least count of disks can lose as many as the entry allows; one entry allows -1.
abbrev is_survivable : AggregateType → Bool
is_survivable t = t.maxfaulted == minus_one || ltb t.maxfaulted t.mindisks

get_aggregate-survivable :
    (n : Text) (t : AggregateType)
    → get_aggregate n ≡ some t
    → (t.maxfaulted ≡ minus_one) ⊎ (t.maxfaulted < t.mindisks)
unfolding get_aggregate aggregates
get_aggregate-survivable n t e =
    let survives : is_survivable t ≡ true = found_in_table is_survivable n aggregates t refl e in
    ground (arith, survives)

-- What is said of an array: each disk is missing or a member, a resync counts as one missing where none
-- is, and the stripes are no wider than the disks.
pub record IsExplored (d : Mddev) : Type 0 where
  pub missing : ℕ
  pub counted : missing + length d.slaves ≡ d.disks
  pub shown : d.degraded ≡ (if d.resync && (missing == 0) then 1 else missing)
  pub narrow : d.swidth ≤ d.disks

width_of-le : (o : Option AggregateType) (disks : ℕ) → width_of o disks ≤ disks
width_of-le none disks = omega arith
width_of-le (some t) disks = ground arith

stripe_width-le : (level : Option Text) (disks stride : ℕ) → stripe_width level disks stride ≤ disks
unfolding stripe_width
stripe_width-le none disks stride = omega arith
stripe_width-le (some level) disks stride =
    ground (arith, width_of-le (get_aggregate (codes "md" ++ level)) disks)

filled-IsExplored :
    (resync : Bool) (disks stride : ℕ) (level : Option Text) (s : Slots)
    → s.missing + length s.slaves ≡ disks
    → IsExplored (filled resync disks stride level s)
unfolding filled
filled-IsExplored resync disks stride level s h = record {
  missing = s.missing;
  counted = h;
  shown = refl;
  narrow = stripe_width-le level disks stride;
}

-- For fewer than 2 ^ 32 disks: where the directory of an array is read without an error, each disk is
-- missing or listed, a resync counts as one missing disk where none is, and the stripe width is at most
-- the count of the disks.
pub explore_md_sysfs-IsExplored :
    (sys : Sysfs) (lookup : Text → Option Member) (old : Bool) (d : Mddev)
    → or_zero (sys.get_sysfs_uint (codes "raid_disks")) < 2 ^ 32
    → explore_md_sysfs sys lookup old ≡ some d
    → IsExplored d
unfolding explore_md_sysfs
explore_md_sysfs-IsExplored sys lookup old d h e =
    let disks = or_zero (sys.get_sysfs_uint (codes "raid_disks")) in
    let (s, ran, rest) = >>=-eq-some (take_slots sys lookup disks 0 no_slots) _ d e in
    let counts = take_slots-Counts sys lookup disks 0 no_slots s (omega (arith, h)) ran in
    subst IsExplored (some_inj rest) (filled-IsExplored _ disks _ _ s (omega (arith, counts.0)))

wide :
    (disks stride n : ℕ) → 0 < disks → 0 < stride → (if disks == 0 || stride == 0 then 0 else n) ≡ n
wide disks stride n h p = ground arith

stripe_width-width_of :
    (level : Text) (disks stride : ℕ)
    → 0 < disks
    → 0 < stride
    → stripe_width (some level) disks stride ≡ width_of (get_aggregate (codes "md" ++ level)) disks
unfolding stripe_width
stripe_width-width_of level disks stride h p =
    wide disks stride (width_of (get_aggregate (codes "md" ++ level)) disks) h p

-- A level that is known, and is not the one with -1: with enough disks and a stride the stripe width is
-- the count of the disks that may not fail, and positive.
pub stripe_width-get_aggregate :
    (level : Text) (t : AggregateType) (disks stride : ℕ)
    → get_aggregate (codes "md" ++ level) ≡ some t
    → t.maxfaulted ≢ minus_one
    → t.mindisks ≤ disks
    → disks < 2 ^ 32
    → 0 < stride
    → (stripe_width (some level) disks stride + t.maxfaulted ≡ disks)
      × (0 < stripe_width (some level) disks stride)
stripe_width-get_aggregate level t disks stride e other enough small p =
    by_entry (get_aggregate-survivable (codes "md" ++ level) t e)
  where
    by_entry :
        (t.maxfaulted ≡ minus_one) ⊎ (t.maxfaulted < t.mindisks)
        → (stripe_width (some level) disks stride + t.maxfaulted ≡ disks)
          × (0 < stripe_width (some level) disks stride)
    by_entry (inl minus) = absurd (other minus)
    by_entry (inr fewer) =
        let known : stripe_width (some level) disks stride ≡ width_of (some t) disks =
          stripe_width-width_of level disks stride (omega arith) p ∙ ap (λ o. width_of o disks) e in
        let wide_enough : width_of (some t) disks ≡ disks - t.maxfaulted = ground arith in
        (omega (arith, known ∙ wide_enough), omega (arith, known ∙ wide_enough))
