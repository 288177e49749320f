-- ===== src/Server/Events.antt =====
-- How the server tells its clients of a connection, asks them for data, and begins one: the functions of
-- uip_xtcp.c that `xtcpd_appcall` calls. The current connection, `uip_conn` or `uip_udp_conn`, is a
-- `Ref`.
use sc_xtcp.Base.{List, Option, [], if◌then◌else◌, ltb, some, ℕ, ◌==◌, ◌>>=◌, ◌∷◌}
use sc_xtcp.Base.Net.{IpAddr}
use sc_xtcp.Base.Words.{htons}
use sc_xtcp.Server.{
  ConnectionType, Event, ListenerInfo, Protocol, Ref, Server, Slot, XtcpdState, ask_data, blank,
  emit, no_link, notify, server_connection, tcp, tcp_protocol, udp, udp_protocol, uip_send,
}
use sc_xtcp.Server.Table.{lookup_state, slot_at, update_at, with_app}
use sc_xtcp.Server.Guid.{find_guid, is_some, max_guid}
use sc_xtcp.Server.Listener.{get_listener_linknum}
use sc_xtcp.Server.Request.{Uip, service}

abbrev pub listeners_for : Protocol → Server → List ListenerInfo
listeners_for tcp_protocol s = s.tcp_listeners
listeners_for udp_protocol s = s.udp_listeners

-- the state of a connection that begins
abbrev pub fresh_state : ℕ → ConnectionType → ℕ → Protocol → IpAddr → ℕ → ℕ → Ref → XtcpdState
fresh_state link kind g p addr lport rport r = record blank {
  linknum = link;
  connection_type = kind;
  id = g;
  local_port = htons lport;
  remote_port = htons rport;
  protocol = p;
  uip_conn = some r;
  remote_addr = addr;
}

-- `xtcpd_init_state`. The search for an id has a round for each id: `find_guid_total`.
unfoldable pub init_state : Protocol → IpAddr → ℕ → ℕ → Server → Ref → Option Server
init_state p addr lport rport s r = do
  v ← slot_at s r
  let link =
      if v.app.connect_request
      then v.app.linknum
      else get_listener_linknum (listeners_for p s) lport
  let kind = if v.app.connect_request then v.app.connection_type else server_connection
  s1 ← update_at (with_app (λ _. blank)) s r
  g ← find_guid max_guid (λ k. is_some (lookup_state s1 k)) s1.guid
  update_at (with_app (λ _. fresh_state link kind g p addr lport rport r)) (record s1 { guid = g })
      r

-- `xtcpd_send_event`
unfoldable pub send_event : Event → Server → Ref → Option Server
send_event e s r = do
  v ← slot_at s r
  s' ← update_at (with_app (λ a. record a { event = e })) s r
  some (emit (notify v.app.linknum e v.app.id) s')

-- `xtcpd_event`
unfoldable pub xtcpd_event : Uip → Event → Server → Ref → Option Server
xtcpd_event lib e s r = do
  v ← slot_at s r
  if v.app.linknum == no_link then some s else (service lib s >>= λ s'. send_event e s' r)

abbrev pub first_reply : List ℕ → ℕ
first_reply [] = 0
first_reply (n ∷ ns) = n

abbrev pub later_replies : List ℕ → List ℕ
later_replies [] = []
later_replies (n ∷ ns) = ns

-- `xtcpd_send`: ask the client for data, and take the length of its answer.
unfoldable pub xtcpd_send : Event → ℕ → Server → Ref → Option (Server × ℕ)
xtcpd_send e room s r = do
  v ← slot_at s r
  s' ← update_at (with_app (λ a. record a { event = e; mss = room })) s r
  some (
    emit (ask_data v.app.linknum e v.app.id room) (record s' { replies = later_replies s.replies }),
    first_reply s.replies,
  )

-- `do_xtcpd_send`, without XTCP_ENABLE_PARTIAL_PACKET_ACK
unfoldable pub do_xtcpd_send : Uip → Event → ℕ → Server → Ref → Option (Server × ℕ)
do_xtcpd_send lib e room s r = service lib s >>= λ s'. xtcpd_send e room s' r

-- `uip_send(uip_appdata, len)`, which does nothing for no bytes
unfoldable pub send_bytes : ℕ → Server → Server
send_bytes len s = if ltb 0 len then emit (uip_send len) (record s { slen = len }) else s

-- `uip_udpconnection() ? XTCP_CLIENT_BUF_SIZE : uip_mss()`
abbrev pub room_of : Ref → Slot → ℕ
room_of (tcp i) v = v.seg
room_of (udp i) v = 1472
