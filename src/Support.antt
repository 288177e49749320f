-- ===== src/Support.antt =====
-- The glue round uIP: module_xtcp/src/xtcp_uip/uip_server_support.c, for IPv4 with UIP_USE_DHCP,
-- UIP_USE_AUTOIP and UIP_IGMP. This file has the addresses and the link, `Support.Polling` the loops
-- over the connections.
pub mod Link
pub mod Polling
pub mod Flush
mod Tests
use sc_xtcp.Base.{
  Bool, List, Option, [], false, if◌then◌else◌, none, not, some, true, ℕ, ◌*◌, ◌+◌, ◌^◌, ◌||◌, ◌∷◌,
}
use sc_xtcp.Base.Net.{IpAddr, ip_eq, zero_addr}
use sc_xtcp.Base.Words.{u32}
use sc_xtcp.Autoip.{Autoip, autoip_init, autoip_stop}

-- `xtcp_ipconfig_t`
pub record IpConfig : Type 0 where
  pub ipaddr : IpAddr
  pub netmask : IpAddr
  pub gateway : IpAddr

-- A call of the DHCP client.
pub data DhcpCall : Type 0 where
  dhcpc_init : List ℕ → DhcpCall
  dhcpc_start : DhcpCall
  dhcpc_stop : DhcpCall

-- The variables of the file, the addresses that it sets, `uip_ifstate`, the link-local machine, and the
-- calls of the DHCP client, the last first.
pub record Node : Type 0 where
  pub uip_static_ip : Bool
  pub uip_static_ipconfig : IpConfig
  pub dhcp_done : Bool
  pub uip_ethaddr : List ℕ
  pub hostaddr : IpAddr
  pub draddr : IpAddr
  pub netmask : IpAddr
  pub ifstate : Bool
  pub autoip : Autoip
  pub dhcp_calls : List DhcpCall

abbrev pub dhcpc : DhcpCall → Node → Node
dhcpc c s = record s { dhcp_calls = c ∷ s.dhcp_calls }

abbrev pub set_addresses : IpConfig → Node → Node
set_addresses c s = record s { hostaddr = c.ipaddr; draddr = c.gateway; netmask = c.netmask }

abbrev pub no_config : IpConfig
no_config = record { ipaddr = zero_addr; netmask = zero_addr; gateway = zero_addr }

abbrev pub sum : List ℕ → ℕ
sum [] = 0
sum (n ∷ ns) = n + sum ns

abbrev pub is_set : IpAddr → Bool
is_set a = not (ip_eq a zero_addr)

-- the addresses of `uip_server_init`: of a configuration, or none
unfoldable pub configure : Option IpConfig → Node → Node
configure none s = set_addresses no_config s
configure (some c) s =
    set_addresses c
      (record s { uip_static_ipconfig = c; uip_static_ip = s.uip_static_ip || is_set c.ipaddr })

-- `uip_server_init`, less the calls that start uIP, IGMP and the clients' tables
unfoldable pub uip_server_init : Option IpConfig → List ℕ → Node → Node
uip_server_init config mac s =
    let t = configure config (record s { uip_ethaddr = mac }) in
    let hwsum = sum mac in
    dhcpc (dhcpc_init mac)
      (record t { autoip = autoip_init (u32 (hwsum + hwsum * 2 ^ 16 + hwsum * 2 ^ 24)) t.autoip })

-- `dhcpc_configured`
unfoldable pub dhcpc_configured : IpConfig → Node → Node
dhcpc_configured c s = record (set_addresses c (record s { autoip = autoip_stop s.autoip })) {
  ifstate = true;
  dhcp_done = true;
}

-- the addresses of a link-local configuration
abbrev pub link_local_config : IpAddr → IpConfig
link_local_config a = record {
  ipaddr = a;
  netmask = record { b0 = 255; b1 = 255; b2 = 0; b3 = 0 };
  gateway = zero_addr;
}

-- `autoip_configured`
unfoldable pub autoip_configured : IpAddr → Node → Node
autoip_configured a s =
    if s.dhcp_done then s else record (set_addresses (link_local_config a) s) { ifstate = true }

-- `uip_linkup`
unfoldable pub uip_linkup : Node → Node
uip_linkup s =
    let t = if s.ifstate then record s { ifstate = false } else s in
    if t.uip_static_ip
    then record (set_addresses t.uip_static_ipconfig t) { ifstate = true }
    else dhcpc dhcpc_start (record (dhcpc dhcpc_stop (record t { dhcp_done = false })) {
      autoip = autoip_stop t.autoip;
    })

-- `uip_linkdown`
unfoldable pub uip_linkdown : Node → Node
uip_linkdown s = record (dhcpc dhcpc_stop (record s { dhcp_done = false })) {
  autoip = autoip_stop s.autoip;
  ifstate = false;
}
