-- ===== src/Igmp/Tests.antt =====
-- Groups on concrete lists.
use sc_xtcp.Base.{All, List, [], arith, none, refl, true, ◌∷◌, ◌≡◌}
use sc_xtcp.Base.Net.{IpAddr, zero_addr}
use sc_xtcp.Igmp.{
  Group, Igmp, IgmpState, Station, idle_member, non_member, pending_join, pending_leave,
}
use sc_xtcp.Igmp.Calls.{IgmpMsg}
use sc_xtcp.Igmp.Sends.{due}
use sc_xtcp.Igmp.Periodic.{is_settled, messages, ticks, ticks-settled}

abbrev mdns : IpAddr
mdns = record { b0 = 224; b1 = 0; b2 = 0; b3 = 251 }

abbrev other : IpAddr
other = record { b0 = 239; b1 = 1; b2 = 2; b3 = 3 }

abbrev group : IgmpState → Group
group m = record { state = m; addr = mdns; flag = true; timer = 0 }

abbrev some_groups : List Group
some_groups = group idle_member ∷ group non_member ∷ group pending_leave ∷ []

abbrev station : Station
station = record {
  uip_ethaddr = 0 ∷ 34 ∷ 151 ∷ 1 ∷ 2 ∷ 3 ∷ [];
  uip_hostaddr = zero_addr;
  uip_chksum = λ bs. 0;
}

abbrev busy : Igmp
busy = record { groups = group pending_join ∷ some_groups; ipid = 0; uip_len = 0; uip_buf = none }

-- a query to all groups, with a checksum that is right on the wire
abbrev query : IgmpMsg
query = record { msgtype = 17; max_response = 100; checksum = 39918; addr = zero_addr }

ticks-settled_example :
    All (λ g. is_settled g.state ≡ true) (ticks 8 station busy).groups
    × (messages 8 station busy ≡ due busy.groups)
ticks-settled_example = ticks-settled 8 station busy refl (omega arith)
