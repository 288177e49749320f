-- ===== src/Support/Tests.antt =====
-- The node and the loops on concrete states.
use sc_xtcp.Base.{List, [], false, none, refl, some, true, ℕ, ◌∷◌, ◌≡◌}
use sc_xtcp.Base.Net.{zero_addr}
use sc_xtcp.Support.{IpConfig, Node, no_config}
use sc_xtcp.Support.Link.{
  Change, Implements, autoip_has, changes, changes-Implements, dhcp_has, link_up, phases_after,
  unconfigured,
}
use sc_xtcp.Support.Polling.{Stack, needs_poll}
use sc_xtcp.Autoip.{Autoip, disabled}
use sc_xtcp.Server.{Server, Slot, blank}
use sc_xtcp.Server.Request.{Uip}
use sc_xtcp.Server.Poll.{no_flags}

abbrev lease : IpConfig
lease = record {
  ipaddr = record { b0 = 192; b1 = 168; b2 = 1; b3 = 9 };
  netmask = record { b0 = 255; b1 = 255; b2 = 255; b3 = 0 };
  gateway = record { b0 = 192; b1 = 168; b2 = 1; b3 = 1 };
}

abbrev link_local_machine : Autoip
link_local_machine = record {
  state = disabled;
  probes_sent = 0;
  announces_sent = 0;
  num_conflicts = 0;
  limit_rate = false;
  rand = 0;
  seed = 0;
  timer = 0;
  ipaddr = zero_addr;
}

abbrev node : Node
node = record {
  uip_static_ip = false;
  uip_static_ipconfig = no_config;
  dhcp_done = false;
  uip_ethaddr = [];
  hostaddr = zero_addr;
  draddr = zero_addr;
  netmask = zero_addr;
  ifstate = false;
  autoip = link_local_machine;
  dhcp_calls = [];
}

abbrev history : List Change
history = link_up ∷ autoip_has zero_addr ∷ dhcp_has lease ∷ autoip_has zero_addr ∷ []

changes-Implements_example : Implements (phases_after history unconfigured) (changes history node)
changes-Implements_example = changes-Implements history unconfigured node (refl, (refl, refl))

abbrev mac : List ℕ
mac = 0 ∷ 34 ∷ 151 ∷ 1 ∷ 2 ∷ 3 ∷ []

-- A stack that is its `uip_len`, and answers each packet and each poll with a packet.
abbrev echo : Stack ℕ
echo = record {
  uip_len = λ n. n;
  set_len = λ n a. n;
  frame_type = λ a. 8;
  proto = λ a. 17;
  udp_connection = λ a. some 0;
  tcp_appstate = λ a i. blank;
  udp_appstate = λ a i. record blank { connect_request = true };
  has_ack = λ a i. true;
  uip_split_output = λ a. a;
  uip_arp_out = λ c a. a;
  uip_poll_conn = λ i a. 60;
  uip_periodic = λ i a. 60;
  uip_udp_periodic = λ i a. 60;
  uip_udp_arp_event = λ i a. 60;
  uip_udp_ackdata = λ i a. 60;
  uip_arp_ipin = λ a. a;
  uip_arp_arpin = λ a. a;
  uip_input = λ a. a;
  igmp_periodic = λ a. 46;
}

abbrev slot : Slot
slot = record { ripaddr = zero_addr; lport = 0; rport = 0; stopped = false; seg = 0; app = blank }

abbrev server : Server
server = record {
  guid = 1;
  tcps = slot ∷ [];
  udps = [];
  tcp_listeners = [];
  udp_listeners = [];
  xtcp_num = 0;
  prev_ifstate = [];
  ifstate = false;
  flags = no_flags;
  slen = 0;
  script = [];
  replies = [];
  trace = [];
}

abbrev no_uip : Uip
no_uip = record { uip_connect = λ ts a p. none; uip_udp_new = λ us a p. none }

blank-idle : needs_poll blank ≡ false
unfolding needs_poll
blank-idle = refl
