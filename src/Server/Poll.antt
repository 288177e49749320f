-- ===== src/Server/Poll.antt =====
-- `uip_xtcpd_handle_poll` of uip_xtcp.c: the requests that the clients left in a connection.
use sc_xtcp.Base.{Bool, Option, false, if◌then◌else◌, ltb, not, some, true, ◌&&◌, ◌-◌, ◌==◌, ◌>>=◌}
use sc_xtcp.Server.{
  Flags, Ref, Server, closed, new_connection, no_link, poll, request_data, tcp, udp, udp_protocol,
}
use sc_xtcp.Server.Table.{slot_at, update_at, with_app}
use sc_xtcp.Server.Request.{Uip}
use sc_xtcp.Server.Events.{do_xtcpd_send, init_state, room_of, send_bytes, xtcpd_event}

abbrev pub no_flags : Flags
no_flags = record {
  ackdata = false;
  newdata = false;
  rexmit = false;
  poll = false;
  close = false;
  abort = false;
  connected = false;
  timedout = false;
}

-- `uip_close()` and `uip_abort()` leave this alone in `uip_flags`.
abbrev pub close_flags : Flags
close_flags = record no_flags { close = true }

abbrev pub abort_flags : Flags
abort_flags = record no_flags { abort = true }

-- An end that a client asked for: UDP is closed here, TCP by the stack.
unfoldable pub hang_up : Uip → Flags → Server → Ref → Option Server
hang_up lib f s (tcp i) = some (record s { flags = f })
hang_up lib f s (udp i) =
    update_at (λ v. record v { lport = 0 }) s (udp i) >>= λ s'. xtcpd_event lib closed s' (udp i)

-- The branch of `uip_xtcpd_handle_poll` for `connect_request`: TCP goes on in `xtcpd_appcall`.
unfoldable pub poll_connect : Uip → Server → Ref → Option Server
poll_connect lib s (tcp i) = some s
poll_connect lib s (udp i) = do
  v ← slot_at s (udp i)
  s1 ← init_state udp_protocol v.ripaddr v.lport v.rport s (udp i)
  s2 ← xtcpd_event lib new_connection s1 (udp i)
  update_at (with_app (λ a. record a { connect_request = false })) s2 (udp i)

-- The branch for `send_request`.
unfoldable pub poll_send : Uip → Server → Ref → Option Server
poll_send lib s r = do
  v ← slot_at s r
  s' ←
      if v.app.linknum == no_link
      then some s
      else (do_xtcpd_send lib request_data (room_of r v) s r >>= λ t. some (send_bytes t.1 t.0))
  update_at (with_app (λ a. record a { send_request = a.send_request - 1 })) s' r

-- The branch for the timer.
unfoldable pub poll_timer : Uip → Server → Ref → Option Server
poll_timer lib s r = do
  s' ← xtcpd_event lib poll s r
  update_at (with_app (λ a. record a { tmr = a.poll_interval })) s' r

-- the first lines of `uip_xtcpd_handle_poll`
unfoldable pub poll_ack : Server → Ref → Option Server
poll_ack s r = do
  v ← slot_at s r
  if v.app.ack_request
      then update_at (with_app (λ a. record a { ack_request = false }))
          (record s { flags = record (s.flags) { newdata = true }; slen = 0 }) r
      else some s

-- the chain of tests of `uip_xtcpd_handle_poll`
unfoldable pub poll_request : Uip → Bool → Server → Ref → Option Server
poll_request lib expired s r = do
  v ← slot_at s r
  if v.app.abort_request
      then (hang_up lib abort_flags s r >>= λ s'.
          update_at (with_app (λ a. record a { abort_request = false })) s' r)
      else if v.app.close_request
      then (hang_up lib close_flags s r >>= λ s'.
          update_at (with_app (λ a. record a { close_request = false })) s' r)
      else if v.app.connect_request
      then poll_connect lib s r
      else if ltb 0 v.app.send_request
      then poll_send lib s r
      else if not (v.app.poll_interval == 0) && expired
      then poll_timer lib s r
      else some s

unfoldable pub handle_poll : Uip → Bool → Server → Ref → Option Server
handle_poll lib expired s r = poll_ack s r >>= λ s'. poll_request lib expired s' r
