-- ===== src/Igmp/Periodic.antt =====
-- How many calls of `igmp_periodic` the groups need, and what they send.
use sc_xtcp.Base.{
  All, Bool, Bool-cases, List, [], ap, append-nil, append_assoc, sym, ◌++◌, ◌∙◌, arith, false, inl,
  inr, length, ltb, refl, suc, true, zero, ℕ, ◌*◌, ◌+◌, ◌-◌, ◌<◌, ◌∷◌, ◌≡◌, ◌≤◌,
}
use Prim.{tt}
use sc_xtcp.Igmp.{
  Group, Igmp, IgmpState, Station, delayed_member, idle_member, non_member, pending_join,
  pending_leave,
}
use sc_xtcp.Igmp.Packet.{create_igmp_msg}
use sc_xtcp.Igmp.Calls.{group_periodic_in, igmp_group_periodic, igmp_periodic, periodic_from}
use sc_xtcp.Igmp.Sends.{always, due, due_in, message, Message, periodic_from-sends}

-- the calls that a group may take
abbrev pub work_in : IgmpState → ℕ
work_in non_member = 0
work_in pending_join = 2
work_in delayed_member = 1
work_in idle_member = 0
work_in pending_leave = 1

abbrev pub work : List Group → ℕ
work [] = 0
work (g ∷ gs) = work_in g.state + work gs

group_work :
    (m : IgmpState) (st : Station) (g : Group) (s : Igmp)
    → g.state ≡ m
    → s.uip_len ≡ 0
    → let (h, t) = group_periodic_in m st true g s in
      (work_in h.state ≤ work_in m - 1) × ((work_in m ≡ 0) → t.uip_len ≡ 0)
unfolding group_periodic_in create_igmp_msg
group_work non_member st g s e n = (rw e (omega arith), λ z. n)
group_work pending_join st g s e n = (omega arith, λ z. absurd (omega (arith, z)))
group_work delayed_member st g s e n = (omega arith, λ z. absurd (omega (arith, z)))
group_work idle_member st g s e n = (rw e (omega arith), λ z. n)
group_work pending_leave st g s e n = (omega arith, λ z. absurd (omega (arith, z)))

-- A pass over the groups with all timers expired does some of the work, if there is any.
periodic_from-work :
    (st : Station) (i : ℕ) (gs : List Group) (s : Igmp)
    → s.uip_len ≡ 0
    → work (periodic_from st always i gs s).0 ≤ work gs - 1
unfolding periodic_from
periodic_from-work st i [] s n = omega arith
periodic_from-work st i (g ∷ gs) s n =
    cases λ m. periodic_from-work st (i + 1) gs (igmp_group_periodic st true g s).1 m
  where
    h : Group
    h = (igmp_group_periodic st true g s).0

    t : Igmp
    t = (igmp_group_periodic st true g s).1

    cases :
        (t.uip_len ≡ 0 → work (periodic_from st always (i + 1) gs t).0 ≤ work gs - 1)
        → work (periodic_from st always i (g ∷ gs) s).0 ≤ work_in g.state + work gs - 1
    cases k =
        let (less, same) = group_work g.state st g s refl n in
        elim (Bool-cases (ltb 0 t.uip_len)) [
          | inl e ↦
              let some_work : (work_in g.state ≡ 0) → 0 < 0 = λ z. ground (arith, same z) in
              rw e (nonzero (work_in g.state) less some_work)
          | inr e ↦ let rest = k (ground arith) in rw e (omega (arith, less, rest))
        ]
      where
        nonzero :
            (w : ℕ)
            → work_in h.state ≤ w - 1
            → ((w ≡ 0) → 0 < 0)
            → work_in h.state + work gs ≤ w + work gs - 1
        nonzero zero l z = absurd (omega (arith, z refl))
        nonzero (suc w) l z = omega arith

-- A call of the timer, and the packet taken out of the buffer.
unfoldable pub tick : Station → Igmp → Igmp
tick st s = record (igmp_periodic st always s) { uip_len = 0 }

abbrev pub ticks : ℕ → Station → Igmp → Igmp
ticks zero st s = s
ticks (suc n) st s = ticks n st (tick st s)

abbrev pub is_settled : IgmpState → Bool
is_settled non_member = true
is_settled pending_join = false
is_settled delayed_member = false
is_settled idle_member = true
is_settled pending_leave = false

ticks-work :
    (n : ℕ) (st : Station) (s : Igmp)
    → s.uip_len ≡ 0
    → work (ticks n st s).groups ≤ work s.groups - n
unfolding tick igmp_periodic
ticks-work zero st s z = omega arith
ticks-work (suc n) st s z =
    omega (arith, periodic_from-work st 0 s.groups s z, ticks-work n st (tick st s) refl)

settled_of : (m : IgmpState) → work_in m ≡ 0 → is_settled m ≡ true
settled_of non_member h = refl
settled_of pending_join h = absurd (omega arith)
settled_of delayed_member h = absurd (omega arith)
settled_of idle_member h = refl
settled_of pending_leave h = absurd (omega arith)

every_settled : (gs : List Group) → work gs ≡ 0 → All (λ g. is_settled g.state ≡ true) gs
every_settled [] h = tt
every_settled (g ∷ gs) h = (settled_of g.state (omega arith), every_settled gs (omega arith))

work_in_at_most : (m : IgmpState) → work_in m ≤ 2
work_in_at_most non_member = omega arith
work_in_at_most pending_join = omega arith
work_in_at_most delayed_member = omega arith
work_in_at_most idle_member = omega arith
work_in_at_most pending_leave = omega arith

work_at_most : (gs : List Group) → work gs ≤ 2 * length gs
work_at_most [] = omega arith
work_at_most (g ∷ gs) = omega (arith, work_in_at_most g.state, work_at_most gs)

-- the messages that calls of `igmp_periodic` send
abbrev pub messages : ℕ → Station → Igmp → List Message
messages zero st s = []
messages (suc n) st s = message (igmp_periodic st always s) ++ messages n st (tick st s)

ticks-messages :
    (n : ℕ) (st : Station) (s : Igmp)
    → s.uip_len ≡ 0
    → messages n st s ++ due (ticks n st s).groups ≡ due s.groups
unfolding tick igmp_periodic
ticks-messages zero st s z = refl
ticks-messages (suc n) st s z =
    append_assoc (message (igmp_periodic st always s)) (messages n st (tick st s)) _
    ∙ ap (λ l. message (igmp_periodic st always s) ++ l) (ticks-messages n st (tick st s) refl)
    ∙ periodic_from-sends st 0 s.groups s z

settled_due : (m : IgmpState) (g : Group) → is_settled m ≡ true → due_in m g ≡ []
settled_due non_member g h = refl
settled_due pending_join g h = absurd cc
settled_due delayed_member g h = absurd cc
settled_due idle_member g h = refl
settled_due pending_leave g h = absurd cc

none_due : (gs : List Group) → All (λ g. is_settled g.state ≡ true) gs → due gs ≡ []
none_due [] h = refl
none_due (g ∷ gs) (h, hs) = rw (settled_due g.state g h) (none_due gs hs)

-- With the buffer empty and every timer expired, two calls of `igmp_periodic` for each group are
-- enough: each group is then out, or a member with nothing left to report. The messages that were sent
-- are, group by group, two reports for each join, one for each delayed member, and a leave message for
-- each group that is left and whose last report was this host's, and no others.
pub ticks-settled :
    (n : ℕ) (st : Station) (s : Igmp)
    → s.uip_len ≡ 0
    → 2 * length s.groups ≤ n
    → All (λ g. is_settled g.state ≡ true) (ticks n st s).groups × (messages n st s ≡ due s.groups)
ticks-settled n st s z h =
    let settled : All (λ g. is_settled g.state ≡ true) (ticks n st s).groups =
      every_settled _ (omega (arith, ticks-work n st s z, work_at_most s.groups)) in
    (
      settled,
      sym (append-nil (messages n st s))
          ∙ ap (λ l. messages n st s ++ l) (sym (none_due (ticks n st s).groups settled))
          ∙ ticks-messages n st s z,
    )
