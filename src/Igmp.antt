-- ===== src/Igmp.antt =====
-- Group membership: module_xtcp/src/xtcp_uip/igmp/igmp.c, which UIP_IGMP compiles in. `timer_expired`
-- is an argument, by the group's index, and `timer` is the interval that was last set.
pub mod Packet
pub mod Calls
pub mod Groups
pub mod Sends
pub mod Periodic
mod Tests
use sc_xtcp.Base.{Bool, List, Option, map, ℕ}
use sc_xtcp.Base.Net.{IpAddr}

-- `enum igmp_state_t`
pub data IgmpState : Type 0 where
  non_member : IgmpState
  pending_join : IgmpState
  delayed_member : IgmpState
  idle_member : IgmpState
  pending_leave : IgmpState

-- `igmp_group_state_t`
pub record Group : Type 0 where
  pub state : IgmpState
  pub addr : IpAddr
  pub flag : Bool
  pub timer : ℕ

-- A packet of this protocol: the Ethernet addresses, the IP header with its option, the message.
pub record IgmpPacket : Type 0 where
  pub dest_hwaddr : List ℕ
  pub src_hwaddr : List ℕ
  pub ethtype : ℕ
  pub ip_header : List ℕ
  pub ipchksum : ℕ
  pub srcipaddr : IpAddr
  pub destipaddr : IpAddr
  pub options : List ℕ
  pub msgtype : ℕ
  pub max_response : ℕ
  pub checksum : ℕ
  pub group_addr : IpAddr

-- `groups`, `ipid`, and what the module reads and writes of uIP's buffer
pub record Igmp : Type 0 where
  pub groups : List Group
  pub ipid : ℕ
  pub uip_len : ℕ
  pub uip_buf : Option IgmpPacket

-- What the packets take from uIP: the station's addresses, and `uip_chksum` on the header's bytes.
pub record Station : Type 0 where
  pub uip_ethaddr : List ℕ
  pub uip_hostaddr : IpAddr
  pub uip_chksum : List ℕ → ℕ

abbrev pub max_igmp_groups : ℕ
max_igmp_groups = 10

abbrev pub allgroups_ipaddr : IpAddr
allgroups_ipaddr = record { b0 = 224; b1 = 0; b2 = 0; b3 = 1 }

abbrev pub leavegroup_ipaddr : IpAddr
leavegroup_ipaddr = record { b0 = 224; b1 = 0; b2 = 0; b3 = 2 }

abbrev pub out_of : Group → Group
out_of g = record g { state = non_member }

-- `igmp_init`
unfoldable pub igmp_init : Igmp → Igmp
igmp_init s = record s { groups = map out_of s.groups }
