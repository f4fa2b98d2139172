-- ===== src/Aggregate/Merge.antt =====
-- Proofs on src/mdadm.c: the transport of an array and those of its members.
use growlight.Prelude.{
  zero, suc, ℕ, ◌≡◌, refl, ◌∙◌, ap, sym, subst, Bool, true, false, ◌&&◌, Bool-cases, inl, inr,
  Option, none, some, List, [], ◌∷◌, ◌++◌, arith, if◌then◌else◌, append_assoc, append-nil,
}
use growlight.Prelude.Maybe.{some_inj, >>=-eq-some}
use growlight.Text.{Text, codes}
use growlight.Device.{Layout}
use growlight.Aggregate.Md.{
  Transport, same_transport, Sysfs, Member, Link, Slots, Mddev, no_slots, slot_name, merge,
  merge_member, add_member, take_slot, take_slots, or_zero, filled, explore_md_sysfs,
}

abbrev pub merge_all : Transport → List Transport → Transport
merge_all s [] = s
merge_all s (t ∷ ts) = merge_all (merge s t) ts

abbrev pub all_same : Transport → List Transport → Bool
all_same s [] = true
all_same s (t ∷ ts) = same_transport s t && all_same s ts

-- The transport that all have; without one it is unknown.
abbrev pub common : List Transport → Transport
common [] = Transport.aggregate_unknown
common (t ∷ ts) = if all_same t ts then t else Transport.aggregate_mixed

abbrev is_unknown : Transport → Bool
is_unknown t = same_transport t Transport.aggregate_unknown

abbrev pub AllKnown : List Transport → Type 0
AllKnown [] = Unit
AllKnown (t ∷ ts) = (same_transport t Transport.aggregate_unknown ≡ false) × AllKnown ts

-- What a member adds: as in the source, a device of the device mapper adds nothing.
abbrev pub arm_of : Member → Layout → List Transport
arm_of m Layout.layout_none = m.transport ∷ []
arm_of m Layout.layout_mdadm = m.transport ∷ []
arm_of m Layout.layout_partition = m.parent_transport ∷ []
arm_of m Layout.layout_zpool = m.transport ∷ []
arm_of m Layout.layout_dm = []

abbrev pub arm_of_found : Option Member → List Transport
arm_of_found none = []
arm_of_found (some m) = arm_of m m.layout

abbrev pub transports_of : (lookup : Text → Option Member) → List Text → List Transport
transports_of lookup [] = []
transports_of lookup (c ∷ cs) = arm_of_found (lookup c) ++ transports_of lookup cs

merge_mixed : (t : Transport) → merge Transport.aggregate_mixed t ≡ Transport.aggregate_mixed
unfolding merge
merge_mixed t = ground arith

merge_all_mixed :
    (ts : List Transport) → merge_all Transport.aggregate_mixed ts ≡ Transport.aggregate_mixed
merge_all_mixed [] = refl
merge_all_mixed (t ∷ ts) = ap (λ s. merge_all s ts) (merge_mixed t) ∙ merge_all_mixed ts

merge-same : (s t : Transport) → is_unknown s ≡ false → same_transport s t ≡ true → merge s t ≡ s
unfolding merge
merge-same s t h e = rw (h, e) refl

merge_other :
    (s t : Transport)
    → is_unknown s ≡ false
    → same_transport s t ≡ false
    → merge s t ≡ Transport.aggregate_mixed
unfolding merge
merge_other s t h e = rw (h, e) refl

merge_all-common :
    (s : Transport) (ts : List Transport) → is_unknown s ≡ false → merge_all s ts ≡ common (s ∷ ts)
merge_all-common s [] h = refl
merge_all-common s (t ∷ ts) h = elim (Bool-cases (same_transport s t)) [
  | inl e ↦ ap (λ u. merge_all u ts) (merge-same s t h e) ∙ merge_all-common s ts h ∙ rw e refl
  | inr e ↦ ap (λ u. merge_all u ts) (merge_other s t h e) ∙ merge_all_mixed ts ∙ rw e refl
]

merge_first : (t : Transport) → merge Transport.aggregate_unknown t ≡ t
unfolding merge
merge_first t = refl

merge_all_lem :
    (ts : List Transport) → AllKnown ts → merge_all Transport.aggregate_unknown ts ≡ common ts
merge_all_lem [] h = refl
merge_all_lem (t ∷ ts) h = ap (λ s. merge_all s ts) (merge_first t) ∙ merge_all-common t ts h.0

merge_all-append :
    (s : Transport) (xs ys : List Transport)
    → merge_all s (xs ++ ys) ≡ merge_all (merge_all s xs) ys
merge_all-append s [] ys = refl
merge_all-append s (x ∷ xs) ys = merge_all-append (merge s x) xs ys

transports_of-snoc :
    (lookup : Text → Option Member) (cs : List Text) (c : Text)
    → transports_of lookup (cs ++ c ∷ []) ≡ transports_of lookup cs ++ arm_of_found (lookup c)
transports_of-snoc lookup [] c = append-nil (arm_of_found (lookup c))
transports_of-snoc lookup (b ∷ cs) c =
    ap (λ t. arm_of_found (lookup b) ++ t) (transports_of-snoc lookup cs c)
    ∙ sym
        (append_assoc (arm_of_found (lookup b)) (transports_of lookup cs) (arm_of_found (lookup c)))

merge_member-arm_of :
    (s : Transport) (m : Member) (l : Layout) → merge_member s m l ≡ merge_all s (arm_of m l)
unfolding merge_member
merge_member-arm_of s m Layout.layout_none = refl
merge_member-arm_of s m Layout.layout_mdadm = refl
merge_member-arm_of s m Layout.layout_partition = refl
merge_member-arm_of s m Layout.layout_zpool = refl
merge_member-arm_of s m Layout.layout_dm = refl

-- The transport so far is that of the members so far.
abbrev IsMerged : (lookup : Text → Option Member) → Slots → Type 0
IsMerged lookup s =
    s.transport ≡ merge_all Transport.aggregate_unknown (transports_of lookup s.slaves)

add_member-IsMerged :
    (lookup : Text → Option Member) (s s' : Slots) (c : Text) (o : Option Member)
    → lookup c ≡ o
    → IsMerged lookup s
    → add_member s c o ≡ some s'
    → IsMerged lookup s'
add_member-IsMerged lookup s s' c none f h e = cc
add_member-IsMerged lookup s s' c (some m) f h e = subst (IsMerged lookup) (some_inj e) (
    merge_member-arm_of s.transport m m.layout
    ∙ ap (λ t. merge_all t (arm_of m m.layout)) h
    ∙ sym (
        merge_all-append Transport.aggregate_unknown (transports_of lookup s.slaves)
          (arm_of m m.layout))
    ∙ ap
        (λ o.
          merge_all Transport.aggregate_unknown (transports_of lookup s.slaves ++ arm_of_found o))
        (sym f)
    ∙ ap (merge_all Transport.aggregate_unknown) (sym (transports_of-snoc lookup s.slaves c)))

take_slot-IsMerged :
    (lookup : Text → Option Member) (s s' : Slots) (l : Link)
    → IsMerged lookup s
    → take_slot lookup s l ≡ some s'
    → IsMerged lookup s'
unfolding take_slot
take_slot-IsMerged lookup s s' Link.broken h e = cc
take_slot-IsMerged lookup s s' Link.absent h e = subst (IsMerged lookup) (some_inj e) h
take_slot-IsMerged lookup s s' (Link.path lbuf) h e =
    let (c, named, added) = >>=-eq-some (slot_name lbuf) (λ c. add_member s c (lookup c)) s' e in
    add_member-IsMerged lookup s s' c (lookup c) refl h added

take_slots-IsMerged :
    (sys : Sysfs) (lookup : Text → Option Member) (k rd : ℕ) (s s' : Slots)
    → IsMerged lookup s
    → take_slots sys lookup k rd s ≡ some s'
    → IsMerged lookup s'
unfolding take_slots
take_slots-IsMerged sys lookup zero rd s s' h e = subst (IsMerged lookup) (some_inj e) h
take_slots-IsMerged sys lookup (suc k) rd s s' h e =
    let (m, first, rest) =
      >>=-eq-some (take_slot lookup s (sys.readlink rd)) (λ u. take_slots sys lookup k (suc rd) u)
        s' e in
    take_slots-IsMerged sys lookup k (suc rd) m s'
      (take_slot-IsMerged lookup s m (sys.readlink rd) h first) rest

-- The transport of an array that is read without an error, by its members that are no devices of the
-- device mapper, where none of those has the unknown transport: it is the one that they all have, mixed
-- where they differ, and unknown without such a member. Members of the device mapper do not count,
-- whatever their transport is.
pub explore_md_sysfs-common :
    (sys : Sysfs) (lookup : Text → Option Member) (old : Bool) (d : Mddev)
    → explore_md_sysfs sys lookup old ≡ some d
    → AllKnown (transports_of lookup d.slaves)
    → d.transport ≡ common (transports_of lookup d.slaves)
unfolding explore_md_sysfs filled
explore_md_sysfs-common sys lookup old d e k =
    let (s, ran, rest) =
      >>=-eq-some
        (take_slots sys lookup (or_zero (sys.get_sysfs_uint (codes "raid_disks"))) 0 no_slots) _ d
        e in
    let merged = take_slots-IsMerged sys lookup _ 0 no_slots s refl ran in
    let same : filled _ _ _ _ s ≡ d = some_inj rest in
    sym (ap (λ u. u.transport) same)
    ∙ merged
    ∙ ap (λ u. merge_all Transport.aggregate_unknown (transports_of lookup u.slaves)) same
    ∙ merge_all_lem (transports_of lookup d.slaves) k
