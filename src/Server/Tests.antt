-- ===== src/Server/Tests.antt =====
-- The server on concrete tables and commands.
use sc_xtcp.Base.{
  List, Option, [], arith, false, get_elem?, get_or, length, none, refl, some, suc, sym, true, zero,
  ℕ, ◌+◌, ◌∙◌, ◌∷◌, ◌≡◌, ◌≢◌, ◌≤◌,
}
use sc_xtcp.Base.Net.{IpAddr, zero_addr}
use sc_xtcp.Base.Words.{htons}
use mathlib.Core.Path.{subst}
use sc_xtcp.Server.IfState.{checkstate}
use sc_xtcp.Server.{
  ListenerInfo, Ref, Server, Slot, XtcpdState, blank, init_send, tcp, tcp_protocol, udp,
  udp_protocol,
}
use sc_xtcp.Server.Request.{Uip}
use sc_xtcp.Server.Appcall.{Input, xtcpd_appcall}
use sc_xtcp.Server.Events.{init_state}
use sc_xtcp.Server.Poll.{no_flags}
use sc_xtcp.Server.Invariant.{IsCalm, IsValid}
use sc_xtcp.Server.Notify.{checkstate-told, due, told}
use sc_xtcp.Server.Table.{lookup_state, slot_at}
use sc_xtcp.Server.Begin.{Began, init_state-Began}
use sc_xtcp.Server.Commands.{IsLawful}
use sc_xtcp.Server.Guid.{find_guid, find_guid_total, is_some, max_guid}
use sc_xtcp.Server.Refs.{id_at, id_of}
use sc_xtcp.Server.StackCall.{appcall-IsValid}

-- A UDP connection with an id, and a TCP connection that was never used.
abbrev udp_state : XtcpdState
udp_state = record blank {
  id = 3;
  protocol = udp_protocol;
  uip_conn = some (udp 0);
  send_request = 1;
}

abbrev udp_slot : Slot
udp_slot = record {
  ripaddr = zero_addr;
  lport = 7;
  rport = 9;
  stopped = false;
  seg = 0;
  app = udp_state;
}

abbrev tcp_slot : Slot
tcp_slot = record udp_slot { seg = 536; app = blank }

abbrev listener : ListenerInfo
listener = record { active = true; port_number = htons 80; linknum = 1 }

abbrev free_entry : ListenerInfo
free_entry = record { active = false; port_number = 0; linknum = 0 }

-- two clients, one of which wants to send at the next wait
abbrev server : Server
server = record {
  guid = 4;
  tcps = tcp_slot ∷ [];
  udps = udp_slot ∷ [];
  tcp_listeners = listener ∷ free_entry ∷ [];
  udp_listeners = [];
  xtcp_num = 2;
  prev_ifstate = some false ∷ none ∷ [];
  ifstate = false;
  flags = record no_flags { poll = true };
  slen = 0;
  script = ((0, init_send 3) ∷ []) ∷ [];
  replies = 5 ∷ [];
  trace = [];
}

-- the only connection with an id
only_udp : (r : Ref) (g : ℕ) → id_at server r ≡ some g → g ≢ 0 → r ≡ udp 0
only_udp (tcp zero) g h n = absurd (n (ground arith))
only_udp (tcp (suc i)) g h n = cc
only_udp (udp zero) g h n = refl
only_udp (udp (suc i)) g h n = cc

server-IsValid : IsValid server
server-IsValid = record {
  unique = λ r r' g h k n. only_udp r g h n ∙ sym (only_udp r' g k n);
  guid_pos = omega arith;
  guid_le = omega arith;
  small = omega arith;
}

-- a uIP library that takes the first slot, if there is one
abbrev first_slot : List Slot → IpAddr → ℕ → Option (ℕ × List Slot)
first_slot [] addr port = none
first_slot (t ∷ ts) addr port = some (0, record t { ripaddr = addr; rport = port } ∷ ts)

abbrev first_uip : Uip
first_uip = record { uip_connect = first_slot; uip_udp_new = first_slot }

Taken : List Slot → Option (ℕ × List Slot) → Type 0
Taken ts none = 0 ≤ 0
Taken ts (some (i, us)) =
    (((j : ℕ) → id_of (get_elem? us j) ≡ id_of (get_elem? ts j)) × (length us ≡ length ts))
    × (is_some (get_elem? us i) ≡ true)

first_slot-Taken : (ts : List Slot) (addr : IpAddr) (port : ℕ) → Taken ts (first_slot ts addr port)
unfolding Taken
first_slot-Taken [] addr port = omega arith
first_slot-Taken (t ∷ ts) addr port = ((same, refl), refl)
  where
    same :
        (j : ℕ)
        → id_of (get_elem? (record t { ripaddr = addr; rport = port } ∷ ts) j)
          ≡ id_of (get_elem? (t ∷ ts) j)
    same zero = refl
    same (suc j) = refl

first_slot_law :
    (ts us : List Slot) (addr : IpAddr) (port i : ℕ)
    → first_slot ts addr port ≡ some (i, us)
    → Taken ts (some (i, us))
first_slot_law ts us addr port i e = subst (Taken ts) e (first_slot-Taken ts addr port)

first_uip-IsLawful : IsLawful first_uip
unfolding Taken
first_uip-IsLawful = record {
  connect_ids = λ ts a p i us e. (first_slot_law ts us a p i e).0;
  udp_ids = λ ts a p i us e. (first_slot_law ts us a p i e).0;
  connect_in = λ ts a p i us e. (first_slot_law ts us a p i e).1;
  udp_in = λ ts a p i us e. (first_slot_law ts us a p i e).1;
}

abbrev input : Input
input = record { srcport = 9; srcipaddr = zero_addr; uip_len = 0; expired = false }

appcall-IsValid_example :
    (IsCalm server
      → (t : Server) × ((xtcpd_appcall first_uip input server (udp 0) ≡ some t)
          × IsValid t
          × IsCalm t))
    × ((t : Server)
        → xtcpd_appcall first_uip input server (udp 0) ≡ some t
        → IsValid t × (is_some (slot_at t (udp 0)) ≡ true))
appcall-IsValid_example =
    appcall-IsValid first_uip input (udp 0) server first_uip-IsLawful server-IsValid refl

init_state-Began_example :
    (g : ℕ) × (t : Server) × (init_state tcp_protocol zero_addr 20480 9 server (tcp 0) ≡ some t)
    × Began tcp_protocol zero_addr 20480 9 server (tcp 0) tcp_slot g t
init_state-Began_example =
    init_state-Began tcp_protocol zero_addr 20480 9 server (tcp 0) tcp_slot server-IsValid refl

find_guid_total_example :
    (r : ℕ) × (find_guid max_guid (λ k. is_some (lookup_state server k)) 3 ≡ some r)
    × (lookup_state server r ≡ none)
    × (1 ≤ r)
    × (r ≤ max_guid)
find_guid_total_example = find_guid_total server 3 (omega arith, omega arith) (omega arith)

checkstate-told_example :
    (told true 1 (checkstate server).trace
      ≡ due true server.ifstate (get_or server.prev_ifstate 1 none) + told true 1 server.trace)
    × (get_or (checkstate server).prev_ifstate 1 none ≡ some server.ifstate)
    × (checkstate (checkstate server) ≡ checkstate server)
checkstate-told_example = checkstate-told true server 1 (omega arith) (omega arith)

not_there : lookup_state server 8 ≡ none
unfolding lookup_state
not_there = refl

is_there : lookup_state server 3 ≡ some (udp 0)
unfolding lookup_state
is_there = refl
