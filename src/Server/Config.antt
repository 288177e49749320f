-- ===== src/Server/Config.antt =====
-- The functions of uip_xtcp.c that the glue and the handler of the commands call for the addresses, the
-- groups and the state of the interface, and the one for clients on the same tile.
use sc_xtcp.Base.{Bool, List, Option, take, ℕ, ◌+◌}
use sc_xtcp.Base.Net.{IpAddr}
use sc_xtcp.Server.{Ref, Server}
use sc_xtcp.Server.Table.{update_at, with_app}
use sc_xtcp.Support.{IpConfig}
use sc_xtcp.Igmp.{Group}
use sc_xtcp.Igmp.Calls as Igmp

-- `xtcpd_get_ipconfig`, from the host's address, its netmask and its router
unfoldable pub xtcpd_get_ipconfig : IpAddr → IpAddr → IpAddr → IpConfig
xtcpd_get_ipconfig uip_hostaddr uip_netmask uip_draddr = record {
  ipaddr = uip_hostaddr;
  netmask = uip_netmask;
  gateway = uip_draddr;
}

-- `xtcpd_get_mac_address`, from the six bytes of `uip_ethaddr`
unfoldable pub xtcpd_get_mac_address : List ℕ → List ℕ
xtcpd_get_mac_address uip_ethaddr = take 6 uip_ethaddr

-- `get_uip_xtcp_ifstate`
unfoldable pub get_uip_xtcp_ifstate : Server → Bool
get_uip_xtcp_ifstate s = s.ifstate

-- `xtcpd_join_group` and `xtcpd_leave_group`, with UIP_IGMP
unfoldable pub xtcpd_join_group : IpAddr → List Group → List Group
xtcpd_join_group addr groups = Igmp.igmp_join_group addr groups

unfoldable pub xtcpd_leave_group : IpAddr → List Group → List Group
xtcpd_leave_group addr groups = Igmp.igmp_leave_group addr groups

-- `xtcpd_init_send_from_uip`
unfoldable pub xtcpd_init_send_from_uip : Ref → Server → Option Server
xtcpd_init_send_from_uip conn s =
    update_at (with_app (λ a. record a { send_request = a.send_request + 1 })) s conn
