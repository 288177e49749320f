-- ===== src/Igmp/Calls.antt =====
-- What the rest of the program calls of igmp.c, and the steps of one group.
use sc_xtcp.Base.{
  Bool, List, [], false, if◌then◌else◌, ltb, map, true, ℕ, ◌&&◌, ◌*◌, ◌+◌, ◌/◌, ◌==◌, ◌||◌, ◌∷◌,
}
use sc_xtcp.Base.Net.{IpAddr, ip_eq, word0, word1}
use sc_xtcp.Base.Words.{bit_not, int_eq, pos, u16}
use sc_xtcp.Igmp.{
  Group, Igmp, IgmpState, Station, allgroups_ipaddr, delayed_member, idle_member, non_member,
  pending_join, pending_leave,
}
use sc_xtcp.Igmp.Packet.{
  igmp_membership_query, igmp_membership_report, send_leave_group, send_membership_report,
}

-- `igmp_group_periodic`: the group, and the module's other state.
unfoldable pub group_periodic_in : IgmpState → Station → Bool → Group → Igmp → Group × Igmp
group_periodic_in non_member st expired g s = (g, s)
group_periodic_in idle_member st expired g s = (g, s)
group_periodic_in pending_join st expired g s = (
  record g { flag = true; state = delayed_member; timer = 10 * 1000 },
  send_membership_report st g s,
)
group_periodic_in delayed_member st expired g s =
    if expired
    then (record g { flag = true; state = idle_member }, send_membership_report st g s)
    else (g, s)
group_periodic_in pending_leave st expired g s =
    (record g { state = non_member }, if g.flag then send_leave_group st g s else s)

abbrev pub igmp_group_periodic : Station → Bool → Group → Igmp → Group × Igmp
igmp_group_periodic st expired g s = group_periodic_in g.state st expired g s

-- The loop of `igmp_periodic` from group `i` on: it stops at a packet.
unfoldable pub periodic_from : Station → (ℕ → Bool) → ℕ → List Group → Igmp → List Group × Igmp
periodic_from st expired i [] s = ([], s)
periodic_from st expired i (g ∷ gs) s =
    let (h, t) = igmp_group_periodic st (expired i) g s in
    let (hs, u) = periodic_from st expired (i + 1) gs t in
    if ltb 0 t.uip_len then (h ∷ gs, t) else (h ∷ hs, u)

-- `igmp_periodic`
unfoldable pub igmp_periodic : Station → (ℕ → Bool) → Igmp → Igmp
unfolding periodic_from
igmp_periodic st expired s =
    let (gs, t) = periodic_from st expired 0 s.groups s in record t { groups = gs }

-- A message that came in.
pub record IgmpMsg : Type 0 where
  pub msgtype : ℕ
  pub max_response : ℕ
  pub checksum : ℕ
  pub addr : IpAddr

-- `igmp_checksum_valid`: both sides of the test are an `int`.
unfoldable pub igmp_checksum_valid : IgmpMsg → Bool
igmp_checksum_valid m =
    let chksum = u16 (u16 (m.max_response * 256 + m.msgtype) + word0 m.addr) in
    int_eq (pos m.checksum) (bit_not (u16 (chksum + word1 m.addr)))

abbrev pub is_member : IgmpState → Bool
is_member non_member = false
is_member pending_join = false
is_member delayed_member = true
is_member idle_member = true
is_member pending_leave = false

abbrev pub is_delayed : IgmpState → Bool
is_delayed non_member = false
is_delayed pending_join = false
is_delayed delayed_member = true
is_delayed idle_member = false
is_delayed pending_leave = false

abbrev pub is_idle : IgmpState → Bool
is_idle non_member = false
is_idle pending_join = false
is_idle delayed_member = false
is_idle idle_member = true
is_idle pending_leave = false

-- a query, for one group
unfoldable pub asked : IgmpMsg → Group → Group
asked m g =
    if is_member g.state && (ip_eq m.addr allgroups_ipaddr || ip_eq m.addr g.addr)
    then record g { state = delayed_member; timer = m.max_response / 32 * 1000 }
    else g

-- a report of another member, for one group
unfoldable pub reported : IgmpMsg → Group → Group
reported m g =
    if is_delayed g.state && ip_eq m.addr g.addr
    then record g { state = idle_member; flag = false }
    else g

-- `igmp_in`
unfoldable pub igmp_in : IgmpMsg → Igmp → Igmp
igmp_in m s =
    let change =
      if m.msgtype == igmp_membership_query
      then (if igmp_checksum_valid m then asked m else λ g. g)
      else if m.msgtype == igmp_membership_report
      then (if igmp_checksum_valid m then reported m else λ g. g)
      else λ g. g in
    record s { groups = map change s.groups; uip_len = 0 }

abbrev pub is_free : IgmpState → Bool
is_free non_member = true
is_free pending_join = false
is_free delayed_member = false
is_free idle_member = false
is_free pending_leave = false

-- `igmp_join_group`: the first free group, if there is one
unfoldable pub igmp_join_group : IpAddr → List Group → List Group
igmp_join_group a [] = []
igmp_join_group a (g ∷ gs) =
    let rest = igmp_join_group a gs in
    if is_free g.state then record g { addr = a; state = pending_join } ∷ gs else g ∷ rest

-- the test that `igmp_leave_group` and `igmp_check_addr` share: the address counts for a delayed
-- member alone
unfoldable pub is_addressed : IpAddr → Group → Bool
is_addressed a g = is_idle g.state || is_delayed g.state && ip_eq a g.addr

abbrev pub leave_if : IpAddr → Group → Group
leave_if a g = if is_addressed a g then record g { state = pending_leave } else g

-- `igmp_leave_group`
unfoldable pub igmp_leave_group : IpAddr → List Group → List Group
igmp_leave_group a gs = map (leave_if a) gs

-- `igmp_check_addr`
unfoldable pub igmp_check_addr : IpAddr → List Group → Bool
igmp_check_addr a [] = false
igmp_check_addr a (g ∷ gs) = is_addressed a g || igmp_check_addr a gs
