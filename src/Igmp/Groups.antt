-- ===== src/Igmp/Groups.antt =====
-- Joining, leaving and asking for groups.
use sc_xtcp.Base.{
  All, Bool, Bool-cases, List, [], ap, arith, false, if◌then◌else◌, inl, inr, map, refl, true, ◌++◌,
  ◌==◌, ◌∷◌, ◌≡◌, ◌⊎◌,
}
use sc_xtcp.Base.Net.{IpAddr}
use Prim.{tt}
use sc_xtcp.Igmp.Packet.{igmp_membership_query, igmp_membership_report}
use sc_xtcp.Igmp.{Group, Igmp, pending_join}
use sc_xtcp.Igmp.Calls.{
  IgmpMsg, igmp_check_addr, igmp_checksum_valid, igmp_in, igmp_join_group, igmp_leave_group,
  is_addressed, is_delayed, is_free, leave_if,
}

-- A group that is left is not found afterwards.
left-not-addressed : (a : IpAddr) (g : Group) → is_addressed a (leave_if a g) ≡ false
unfolding is_addressed
left-not-addressed a g = elim (Bool-cases (is_addressed a g)) [ inl e ↦ rw e refl | inr e ↦ rw e e ]

-- After `igmp_leave_group` of an address, `igmp_check_addr` does not find the address.
check_addr-leave_group :
    (a : IpAddr) (gs : List Group) → igmp_check_addr a (igmp_leave_group a gs) ≡ false
unfolding igmp_check_addr igmp_leave_group
check_addr-leave_group a [] = refl
check_addr-leave_group a (g ∷ gs) = rw (left-not-addressed a g) (check_addr-leave_group a gs)

-- no group has a report that is due
abbrev pub NoneDelayed : List Group → Type 0
NoneDelayed gs = All (λ g. is_delayed g.state ≡ false) gs

same_addressed :
    (a b : IpAddr) (g : Group) → is_delayed g.state ≡ false → is_addressed a g ≡ is_addressed b g
unfolding is_addressed
same_addressed a b g h = ground arith

-- Where no group is a delayed member, the address makes no difference: `igmp_leave_group` leaves the
-- same groups for any two addresses, and `igmp_check_addr` answers the same for both.
addresses_ignored :
    (a b : IpAddr) (gs : List Group)
    → NoneDelayed gs
    → (igmp_leave_group a gs ≡ igmp_leave_group b gs)
      × (igmp_check_addr a gs ≡ igmp_check_addr b gs)
unfolding igmp_leave_group igmp_check_addr
addresses_ignored a b [] h = (refl, refl)
addresses_ignored a b (g ∷ gs) (h, hs) =
    let (e, f) = addresses_ignored a b gs hs in
    let k = same_addressed a b g h in (rw (k, e) refl, rw (k, f) refl)

-- What `igmp_join_group` does with a list: it is full, or its first free group is taken.
abbrev pub Joined : IpAddr → List Group → List Group → Type 0
Joined a gs hs =
    (All (λ g. is_free g.state ≡ false) gs × (hs ≡ gs))
    ⊎ ((ds : List Group) × (g : Group) × (es : List Group) × (gs ≡ ds ++ g ∷ es)
        × All (λ d. is_free d.state ≡ false) ds
        × (is_free g.state ≡ true)
        × (hs ≡ ds ++ record g { addr = a; state = pending_join } ∷ es))

-- `igmp_join_group` changes nothing where every group is taken, and otherwise makes the first free
-- group a pending member of the address and leaves all others as they were.
join_group-Joined : (a : IpAddr) (gs : List Group) → Joined a gs (igmp_join_group a gs)
unfolding igmp_join_group
join_group-Joined a [] = inl (tt, refl)
join_group-Joined a (g ∷ gs) = chosen (is_free g.state) refl (join_group-Joined a gs)
  where
    later :
        {hs : List Group} → is_free g.state ≡ false → Joined a gs hs → Joined a (g ∷ gs) (g ∷ hs)
    later e (inl (u, f)) = inl ((e, u), ap (λ x. g ∷ x) f)
    later e (inr (ds, h, es, f, u, k, m)) =
        inr (g ∷ ds, h, es, ap (λ x. g ∷ x) f, (e, u), k, ap (λ x. g ∷ x) m)

    chosen :
        (b : Bool)
        → is_free g.state ≡ b
        → Joined a gs (igmp_join_group a gs)
        → Joined a (g ∷ gs) (
            if b
            then record g { addr = a; state = pending_join } ∷ gs
            else g ∷ igmp_join_group a gs)
    chosen true e h = inr ([], g, gs, refl, tt, e, refl)
    chosen false e h = later e h

checksum_never_valid : (m : IgmpMsg) → igmp_checksum_valid m ≡ false
unfolding igmp_checksum_valid
checksum_never_valid m = refl

map-same : (gs : List Group) → map (λ g. g) gs ≡ gs
map-same [] = refl
map-same (g ∷ gs) = ap (λ x. g ∷ x) (map-same gs)

-- Whatever message comes in, `igmp_in` leaves every group as it was.
igmp_in-groups : (m : IgmpMsg) (s : Igmp) → (igmp_in m s).groups ≡ s.groups
unfolding igmp_in
igmp_in-groups m s =
    rw (checksum_never_valid m) (elim (Bool-cases (m.msgtype == igmp_membership_query)) [
      | inl e ↦ rw e (map-same s.groups)
      | inr e ↦ rw e (elim (Bool-cases (m.msgtype == igmp_membership_report)) [
        | inl f ↦ rw f (map-same s.groups)
        | inr f ↦ rw f (map-same s.groups)
      ])
    ])
