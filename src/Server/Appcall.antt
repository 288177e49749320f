-- ===== src/Server/Appcall.antt =====
-- What the uIP stack calls: `xtcpd_appcall` of uip_xtcp.c and its parts. `uip_udpconnection()` holds of
-- a UDP `Ref`.
use sc_xtcp.Base.{
  Bool, Option, false, if◌then◌else◌, ltb, not, some, true, ℕ, ◌&&◌, ◌==◌, ◌>>=◌, ◌||◌,
}
use sc_xtcp.Base.Net.{IpAddr}
use sc_xtcp.Base.Words.{htons}
use sc_xtcp.Server.{
  Protocol, Ref, Server, Slot, aborted, closed, deliver, dhcpc_appcall, emit, new_connection,
  no_link, recv_data, resend_data, sent_data, tcp, tcp_protocol, timed_out, udp, udp_protocol,
}
use sc_xtcp.Server.Table.{slot_at, update_at, with_app}
use sc_xtcp.Server.Request.{Uip, service}
use sc_xtcp.Server.Events.{do_xtcpd_send, init_state, room_of, send_bytes, xtcpd_event, xtcpd_send}
use sc_xtcp.Server.Poll.{handle_poll}

-- What a call finds in uIP's buffer and clock: the packet's source, `uip_len`, and what
-- `timer_expired` says of the connection's timer.
pub record Input : Type 0 where
  pub srcport : ℕ
  pub srcipaddr : IpAddr
  pub uip_len : ℕ
  pub expired : Bool

abbrev pub is_udp : Ref → Bool
is_udp (tcp i) = false
is_udp (udp i) = true

-- DHCP's connections are served by its client: ports 67 and 68.
abbrev pub is_dhcp : Ref → Slot → Bool
is_dhcp (tcp i) v = false
is_dhcp (udp i) v = v.lport == htons 68 || v.lport == htons 67

-- A datagram says who the peer is.
unfoldable pub note_source : Input → Server → Ref → Option Server
note_source inp s (tcp i) = some s
note_source inp s (udp i) =
    if s.flags.newdata
    then update_at
        (with_app (λ a. record a { remote_port = htons inp.srcport; remote_addr = inp.srcipaddr }))
        s (udp i)
    else some s

abbrev pub protocol_of : Ref → Protocol
protocol_of (tcp i) = tcp_protocol
protocol_of (udp i) = udp_protocol

unfoldable pub accept : Uip → Server → Ref → Option Server
accept lib s r =
    if s.flags.connected
    then (slot_at s r >>= λ v. init_state (protocol_of r) v.ripaddr v.lport v.rport s r >>= λ s'.
        xtcpd_event lib new_connection s' r)
    else some s

-- `xtcpd_recv`, and `uip_stop` for a TCP connection whose client acknowledges by itself
unfoldable pub deliver_data : Uip → Input → Server → Ref → Option Server
deliver_data lib inp s r = do
  s1 ← service lib s
  v ← slot_at s1 r
  s2 ← update_at (with_app (λ a. record a { event = recv_data })) s1 r
  let s3 = emit (deliver v.app.linknum v.app.id inp.uip_len) s2
  if not (is_udp r) && v.app.ack_recv_mode
      then update_at (λ w. record w { stopped = true }) s3 r
      else some s3

-- The chain for new data, an abort or a timeout; the Boolean is an early return.
unfoldable pub incoming : Uip → Input → Server → Ref → Option (Server × Bool)
incoming lib inp s r =
    if s.flags.newdata && ltb 0 inp.uip_len
    then (slot_at s r >>= λ v.
        (if v.app.linknum == no_link then some s else deliver_data lib inp s r) >>= λ s'.
        some (s', false))
    else if s.flags.abort
    then (xtcpd_event lib aborted s r >>= λ s'. some (s', true))
    else if s.flags.timedout
    then (xtcpd_event lib timed_out s r >>= λ s'. some (s', true))
    else some (s, false)

unfoldable pub acked : Uip → Server → Ref → Option Server
acked lib s r =
    if s.flags.ackdata
    then (slot_at s r >>= λ v.
        if v.app.linknum == no_link
        then some s
        else (do_xtcpd_send lib sent_data (room_of r v) s r >>= λ t. some (send_bytes t.1 t.0)))
    else some s

unfoldable pub retransmit : Uip → Server → Ref → Option Server
retransmit lib s r =
    if s.flags.rexmit
    then (slot_at s r >>= λ v.
        if v.app.linknum == no_link
        then some s
        else (service lib s >>= λ s'.
            xtcpd_send resend_data (room_of r v) s' r >>= λ t. some (send_bytes t.1 t.0)))
    else some s

unfoldable pub polled : Uip → Input → Server → Ref → Option Server
polled lib inp s r = if s.flags.poll then handle_poll lib inp.expired s r else some s

-- The last test: the client hears of the end once.
unfoldable pub ended : Uip → Server → Ref → Option Server
ended lib s r =
    if s.flags.close
    then (slot_at s r >>= λ v.
        if v.app.is_closed
        then some s
        else (update_at (with_app (λ a. record a { is_closed = true })) s r >>= λ s'.
            xtcpd_event lib closed s' r))
    else some s

unfoldable pub after_incoming : Uip → Input → Ref → Server × Bool → Option Server
after_incoming lib inp r (s, true) = some s
after_incoming lib inp r (s, false) = acked lib s r >>= λ s1.
    retransmit lib s1 r >>= λ s2. polled lib inp s2 r >>= λ s3. ended lib s3 r

unfoldable pub xtcpd_appcall : Uip → Input → Server → Ref → Option Server
xtcpd_appcall lib inp s r = do
  v ← slot_at s r
  if is_dhcp r v
      then some (emit dhcpc_appcall s)
      else (note_source inp s r >>= λ s1.
          accept lib s1 r >>= λ s2. incoming lib inp s2 r >>= after_incoming lib inp r)
