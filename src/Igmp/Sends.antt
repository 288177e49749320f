-- ===== src/Igmp/Sends.antt =====
-- What the groups have to send, and that a call of `igmp_periodic` sends the first of it.
use sc_xtcp.Base.{
  Bool, Bool-cases, List, Option, [], ap, append_assoc, if◌then◌else◌, none, some, sym, ◌++◌, ◌∙◌,
  arith, false, inl, inr, ltb, refl, suc, true, zero, ℕ, ◌+◌, ◌∷◌, ◌≡◌,
}
use sc_xtcp.Base.Net.{IpAddr}
use sc_xtcp.Igmp.{
  Group, Igmp, IgmpPacket, IgmpState, leavegroup_ipaddr, Station, delayed_member, idle_member,
  non_member, pending_join, pending_leave,
}
use sc_xtcp.Igmp.Packet.{create_igmp_msg, igmp_leave, igmp_membership_report}
use sc_xtcp.Igmp.Calls.{group_periodic_in, igmp_group_periodic, periodic_from}

abbrev pub always : ℕ → Bool
always i = true

-- the type of a message, where it goes, and its group
abbrev pub Message : Type 0
Message = ℕ × IpAddr × IpAddr

-- the message that a call leaves in the buffer
abbrev pub message_in : ℕ → Option IgmpPacket → List Message
message_in zero buf = []
message_in (suc n) none = []
message_in (suc n) (some p) = (p.msgtype, p.destipaddr, p.group_addr) ∷ []

abbrev pub message : Igmp → List Message
message s = message_in s.uip_len s.uip_buf

abbrev pub report : Group → Message
report g = (igmp_membership_report, g.addr, g.addr)

-- What a group has to send: a join is reported twice, and a leave only where this host was the last
-- to report.
abbrev pub due_in : IgmpState → Group → List Message
due_in non_member g = []
due_in pending_join g = report g ∷ report g ∷ []
due_in delayed_member g = report g ∷ []
due_in idle_member g = []
due_in pending_leave g = if g.flag then (igmp_leave, leavegroup_ipaddr, g.addr) ∷ [] else []

abbrev pub due : List Group → List Message
due [] = []
due (g ∷ gs) = due_in g.state g ++ due gs

-- A group sends the first of its messages, and a group that sends nothing has nothing to send.
group_sends :
    (m : IgmpState) (st : Station) (g : Group) (s : Igmp)
    → g.state ≡ m
    → s.uip_len ≡ 0
    → let (h, t) = group_periodic_in m st true g s in
      (message t ++ due_in h.state h ≡ due_in m g)
      × (ltb 0 t.uip_len ≡ false → (t.uip_len ≡ 0) × (due_in h.state h ≡ []))
unfolding group_periodic_in create_igmp_msg
group_sends non_member st g s e n = (rw (e, n) refl, λ z. (n, rw e refl))
group_sends pending_join st g s e n = (refl, λ z. absurd (ground (arith, z)))
group_sends delayed_member st g s e n = (refl, λ z. absurd (ground (arith, z)))
group_sends idle_member st g s e n = (rw (e, n) refl, λ z. (n, rw e refl))
group_sends pending_leave st g s e n = elim (Bool-cases g.flag) [
  | inl f ↦ rw f (refl, λ z. absurd (ground (arith, z)))
  | inr f ↦ rw (f, n) (refl, λ z. (refl, refl))
]

-- A pass over the groups sends the first message that they have to send.
pub periodic_from-sends :
    (st : Station) (i : ℕ) (gs : List Group) (s : Igmp)
    → s.uip_len ≡ 0
    → message (periodic_from st always i gs s).1 ++ due (periodic_from st always i gs s).0 ≡ due gs
unfolding periodic_from
periodic_from-sends st i [] s n = rw n refl
periodic_from-sends st i (g ∷ gs) s n =
    let h = (igmp_group_periodic st true g s).0 in
    let t = (igmp_group_periodic st true g s).1 in
    let (first, quiet) = group_sends g.state st g s refl n in
    elim (Bool-cases (ltb 0 t.uip_len)) [
      | inl e ↦
          rw e (
            sym (append_assoc (message t) (due_in h.state h) (due gs))
            ∙ ap (λ l. l ++ due gs) first)
      | inr e ↦
          let (z, none_due) = quiet e in
          let own : due_in g.state g ≡ [] = sym first ∙ rw (z, none_due) refl in
          rw (e, none_due, own) (periodic_from-sends st (i + 1) gs t z)
    ]
