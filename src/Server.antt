-- ===== src/Server.antt =====
-- module_xtcp/src/xtcp_uip/uip_xtcp.c, the xtcp server over the uIP stack: its data.
-- The two connection tables of uIP hold, in each slot, the state that the server keeps for the
-- connection. A pointer to a slot, or to the state in it, is a `Ref`. Calls of the uIP library, of
-- the DHCP and IGMP clients, and what goes out on the clients' channels is a trace of `Out`.
pub mod Table
pub mod Guid
pub mod Listener
pub mod Request
pub mod Events
pub mod Poll
pub mod Appcall
pub mod IfState
pub mod Config
pub mod Refs
pub mod Invariant
pub mod Commands
pub mod Begin
pub mod Total
pub mod Calls
pub mod PollCall
pub mod StackCall
pub mod Notify
pub mod Faults
pub mod Channel
mod Tests
use sc_xtcp.Base.{Bool, List, Option, false, none, ℕ, ◌-◌, ◌^◌, ◌∷◌}
use sc_xtcp.Base.Net.{IpAddr, zero_addr}

pub data Protocol : Type 0 where
  tcp_protocol udp_protocol : Protocol

pub data ConnectionType : Type 0 where
  client_connection server_connection : ConnectionType

-- `xtcp_event_type_t`
pub data Event : Type 0 where
  new_connection recv_data request_data sent_data resend_data : Event
  timed_out aborted closed poll ifup ifdown already_handled : Event

pub data Ref : Type 0 where
  tcp udp : ℕ → Ref

-- `s->linknum` is unsigned: this is -1 in it.
abbrev pub no_link : ℕ
no_link = 2 ^ 32 - 1

-- `xtcpd_state_t`: the link, the connection as the clients see it, and the requests of the clients.
-- `tmr` is the interval that the timer was last set to.
pub record XtcpdState : Type 0 where
  pub linknum : ℕ
  pub id : ℕ
  pub protocol : Protocol
  pub connection_type : ConnectionType
  pub event : Event
  pub appstate : ℕ
  pub remote_addr : IpAddr
  pub remote_port : ℕ
  pub local_port : ℕ
  pub mss : ℕ
  pub send_request : ℕ
  pub abort_request : Bool
  pub close_request : Bool
  pub poll_interval : ℕ
  pub connect_request : Bool
  pub ack_request : Bool
  pub is_closed : Bool
  pub tmr : ℕ
  pub uip_conn : Option Ref
  pub ack_recv_mode : Bool

-- memset(s, 0, sizeof(xtcpd_state_t))
abbrev pub blank : XtcpdState
blank = record {
  linknum = 0;
  id = 0;
  protocol = tcp_protocol;
  connection_type = client_connection;
  event = new_connection;
  appstate = 0;
  remote_addr = zero_addr;
  remote_port = 0;
  local_port = 0;
  mss = 0;
  send_request = 0;
  abort_request = false;
  close_request = false;
  poll_interval = 0;
  connect_request = false;
  ack_request = false;
  is_closed = false;
  tmr = 0;
  uip_conn = none;
  ack_recv_mode = false;
}

-- What the server reads and writes of a `uip_conn` or a `uip_udp_conn`. Ports are in network order,
-- `stopped` is the flag UIP_STOPPED of `tcpstateflags`, `seg` is the `mss` of a TCP connection.
pub record Slot : Type 0 where
  pub ripaddr : IpAddr
  pub lport : ℕ
  pub rport : ℕ
  pub stopped : Bool
  pub seg : ℕ
  pub app : XtcpdState

pub record ListenerInfo : Type 0 where
  pub active : Bool
  pub port_number : ℕ
  pub linknum : ℕ

-- What leaves the server. `notify` is an event on a client's channel with the connection's id,
-- `ask_data` one that asks for at most the given number of bytes, `deliver` one that hands over
-- received bytes, and `queue_event` one that waits for the client.
pub data Out : Type 0 where
  notify : ℕ → Event → ℕ → Out
  ask_data : ℕ → Event → ℕ → ℕ → Out
  deliver : ℕ → ℕ → ℕ → Out
  queue_event : ℕ → Event → Out
  uip_listen uip_unlisten uip_udp_listen : ℕ → Out
  uip_send : ℕ → Out
  dhcpc_appcall : Out
  igmp_join_group igmp_leave_group : IpAddr → Out

-- A command of a client with its arguments, as `handle_xtcp_cmd` takes them from the channel.
pub data Command : Type 0 where
  listen : ℕ → Protocol → Command
  unlisten : ℕ → Command
  connect : ℕ → IpAddr → Protocol → Command
  bind_local : ℕ → ℕ → Command
  bind_remote : ℕ → IpAddr → ℕ → Command
  init_send abort close ack_recv ack_recv_mode pause unpause : ℕ → Command
  set_appstate set_poll_interval : ℕ → ℕ → Command
  join_group leave_group : IpAddr → Command

-- `uip_flags`, a field for each bit.
pub record Flags : Type 0 where
  pub ackdata : Bool
  pub newdata : Bool
  pub rexmit : Bool
  pub poll : Bool
  pub close : Bool
  pub abort : Bool
  pub connected : Bool
  pub timedout : Bool

-- The state of the server. `script` and `replies` are what the clients do: the commands that come
-- in at each wait for a client, with the link of each, and the length of each client's answer to an
-- event that asks for data. `trace` has the latest call first.
pub record Server : Type 0 where
  pub guid : ℕ
  pub tcps : List Slot
  pub udps : List Slot
  pub tcp_listeners : List ListenerInfo
  pub udp_listeners : List ListenerInfo
  pub xtcp_num : ℕ
  pub prev_ifstate : List (Option Bool)
  pub ifstate : Bool
  pub flags : Flags
  pub slen : ℕ
  pub script : List (List (ℕ × Command))
  pub replies : List ℕ
  pub trace : List Out

abbrev pub emit : Out → Server → Server
emit o s = record s { trace = o ∷ s.trace }
