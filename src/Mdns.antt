-- ===== src/Mdns.antt =====
-- module_zeroconf/mdns/mdns.c, the responder for names of the local net: its data. A C string is the
-- list of its bytes without the null byte, and a `char` is a byte without a sign. The entries'
-- buffers have MDNS_MAX_NAME_LENGTH bytes in the source; the lists here have no bound of their own.
pub mod Text
pub mod Parse
pub mod Labels
pub mod Wire
pub mod Walk
pub mod Numbers
pub mod Fields
pub mod Reverse
pub mod Answer
pub mod Recv
pub mod Records
pub mod Send
pub mod Table
pub mod Room
pub mod Fits
pub mod Kept
pub mod Probes
pub mod Responses
pub mod Progress
pub mod Stage
pub mod Ready
pub mod Alive
pub mod Handler
pub mod Events
pub mod Compare
pub mod Conflict
pub mod Names
pub mod Received
mod Tests
mod NameTests
use sc_xtcp.Base.{Bool, List, false, true, ℕ, ◌||◌}
use sc_xtcp.Base.Net.{IpAddr}

-- `mdns_entry_type_t`
pub data EntryType : Type 0 where
  canonical_name_entry name_entry srv_entry : EntryType

-- `mdns_state_t`
pub data MdnsState : Type 0 where
  unused disabled probe_wait probe_partial_sent probe_sent : MdnsState
  announce_wait announce_sent active : MdnsState

-- The bits of `pending`.
pub record Pending : Type 0 where
  pub host_response : Bool
  pub ptr_response : Bool
  pub srv_response : Bool
  pub txt_response : Bool

-- `struct mdns_table_entry`, without NetBIOS
pub record Entry : Type 0 where
  pub state : MdnsState
  pub pending : Pending
  pub name : List ℕ
  pub name_prefix : List ℕ
  pub name_postfix : List ℕ
  pub txt_record : List ℕ
  pub srv_port : ℕ
  pub ipaddr : IpAddr
  pub counter : ℕ
  pub timeout : ℕ
  pub num_sent : ℕ
  pub entry_type : EntryType

-- A call of the xtcp client.
pub data Call : Type 0 where
  xtcp_init_send : Call
  xtcp_send : List ℕ → Call
  xtcp_connect : ℕ → IpAddr → Call
  xtcp_join_multicast_group : IpAddr → Call
  xtcp_set_poll_interval : ℕ → Call
  xtcp_bind_local : ℕ → Call

-- `mdns_event`, without the bit for NetBIOS
pub record MdnsEvent : Type 0 where
  pub is_up : Bool
  pub is_down : Bool
  pub entry_lost : Bool
  pub entry_active : Bool

-- `mdns_table` and `mdns_started`
pub record Mdns : Type 0 where
  pub table : List Entry
  pub mdns_started : ℕ

abbrev pub no_event : MdnsEvent
no_event = record { is_up = false; is_down = false; entry_lost = false; entry_active = false }

-- `|` of two results
abbrev pub both_events : MdnsEvent → MdnsEvent → MdnsEvent
both_events a b = record {
  is_up = a.is_up || b.is_up;
  is_down = a.is_down || b.is_down;
  entry_lost = a.entry_lost || b.entry_lost;
  entry_active = a.entry_active || b.entry_active;
}

abbrev pub nothing_pending : Pending
nothing_pending = record {
  host_response = false;
  ptr_response = false;
  srv_response = false;
  txt_response = false;
}

abbrev pub is_used : MdnsState → Bool
is_used unused = false
is_used disabled = true
is_used probe_wait = true
is_used probe_partial_sent = true
is_used probe_sent = true
is_used announce_wait = true
is_used announce_sent = true
is_used active = true

abbrev pub is_probe_wait : MdnsState → Bool
is_probe_wait probe_wait = true
is_probe_wait _ = false

abbrev pub is_announce_wait : MdnsState → Bool
is_announce_wait announce_wait = true
is_announce_wait _ = false

abbrev pub is_probe_sent : MdnsState → Bool
is_probe_sent probe_sent = true
is_probe_sent _ = false

abbrev pub is_active : MdnsState → Bool
is_active active = true
is_active _ = false

abbrev pub is_disabled : MdnsState → Bool
is_disabled disabled = true
is_disabled _ = false

abbrev pub is_srv : EntryType → Bool
is_srv srv_entry = true
is_srv name_entry = false
is_srv canonical_name_entry = false

abbrev pub is_canonical : EntryType → Bool
is_canonical canonical_name_entry = true
is_canonical name_entry = false
is_canonical srv_entry = false

-- MDNS_SERVER_PORT and the group's address
abbrev pub mdns_server_port : ℕ
mdns_server_port = 5353

abbrev pub mdns_addr : IpAddr
mdns_addr = record { b0 = 224; b1 = 0; b2 = 0; b3 = 251 }
