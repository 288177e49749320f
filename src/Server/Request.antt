-- ===== src/Server/Request.antt =====
-- What a client's command does: the functions that `handle_xtcp_cmd` (module_xtcp/src/xtcp_server.xc)
-- calls, and the wait for a client, in which commands of all clients are handled. `none` is a fault:
-- an access through a null pointer, or through a pointer of the other connection type.
use sc_xtcp.Base.{
  Bool, List, Option, [], false, none, on_some, some, true, ℕ, ◌*◌, ◌+◌, ◌/◌, ◌>>=◌, ◌∷◌,
}
use sc_xtcp.Base.Net.{IpAddr}
use sc_xtcp.Base.Words.{htons}
use sc_xtcp.Server.{
  Command, Protocol, Ref, Server, Slot, XtcpdState, abort, ack_recv, ack_recv_mode, bind_local,
  bind_remote, client_connection, close, connect, emit, igmp_join_group, igmp_leave_group,
  init_send, join_group, leave_group, listen, pause, set_appstate, set_poll_interval, tcp,
  tcp_protocol, udp, udp_protocol, uip_listen, uip_udp_listen, uip_unlisten, unlisten, unpause,
}
use sc_xtcp.Server.Table.{lookup_state, slot_at, update_at, with_app}
use sc_xtcp.Server.Listener.{register_listener, unregister_listener}

-- The calls of the uIP library that return a connection: its index, and the table with the addresses
-- filled in; `none` is NULL.
pub record Uip : Type 0 where
  pub uip_connect : List Slot → IpAddr → ℕ → Option (ℕ × List Slot)
  pub uip_udp_new : List Slot → IpAddr → ℕ → Option (ℕ × List Slot)

-- `s = lookup_xtcpd_state(conn_id); if (s != NULL) …`
unfoldable pub on_conn : (XtcpdState → XtcpdState) → Server → ℕ → Option Server
on_conn f s id = on_some (lookup_state s id) (some s) (update_at (with_app f) s)

unfoldable pub xtcpd_unlisten : ℕ → Server → Server
xtcpd_unlisten port s =
    emit (uip_unlisten (htons port))
      (record s { tcp_listeners = unregister_listener s.tcp_listeners port })

unfoldable pub xtcpd_listen : ℕ → ℕ → Protocol → Server → Server
xtcpd_listen linknum port tcp_protocol s =
    emit (uip_listen (htons port))
      (record s { tcp_listeners = register_listener s.tcp_listeners linknum port })
xtcpd_listen linknum port udp_protocol s =
    emit (uip_udp_listen (htons port))
      (record s { udp_listeners = register_listener s.udp_listeners linknum port })

-- `((struct uip_udp_conn *) s->s.uip_conn)` and `((struct uip_conn *) s->s.uip_conn)`: the pointer
-- is good if it was set to a connection of that type.
abbrev pub cast_to : Protocol → Option Ref → Option Ref
cast_to tcp_protocol (some (tcp i)) = some (tcp i)
cast_to udp_protocol (some (udp i)) = some (udp i)
cast_to _ _ = none

unfoldable pub xtcpd_bind_local : ℕ → ℕ → Server → Option Server
xtcpd_bind_local id port s = do
  r ← lookup_state s id
  v ← slot_at s r
  s' ← update_at (with_app (λ a. record a { local_port = port })) s r
  c ← cast_to v.app.protocol v.app.uip_conn
  update_at (λ w. record w { lport = htons port }) s' c

abbrev pub bind_udp : Protocol → Option Server → Server → Option Server
bind_udp udp_protocol result s = result
bind_udp tcp_protocol _ s = some s

unfoldable pub xtcpd_bind_remote : ℕ → IpAddr → ℕ → Server → Option Server
xtcpd_bind_remote id addr port s = do
  r ← lookup_state s id
  v ← slot_at s r
  bind_udp v.app.protocol
      (do
        s' ← update_at (with_app (λ a. record a { remote_port = port; remote_addr = addr })) s r
        c ← cast_to udp_protocol v.app.uip_conn
        update_at (λ w. record w { rport = htons port; ripaddr = addr }) s' c)
      s

abbrev pub claim : ℕ → XtcpdState → XtcpdState
claim link a = record a {
  linknum = link;
  connect_request = true;
  connection_type = client_connection;
}

unfoldable pub xtcpd_connect : Uip → ℕ → ℕ → IpAddr → Protocol → Server → Option Server
xtcpd_connect lib link port addr tcp_protocol s =
    on_some (lib.uip_connect s.tcps addr (htons port)) (some s)
      (λ (i, ts). update_at (with_app (claim link)) (record s { tcps = ts }) (tcp i))
xtcpd_connect lib link port addr udp_protocol s =
    on_some (lib.uip_udp_new s.udps addr (htons port)) (some s)
      (λ (i, us). update_at (with_app (claim link)) (record s { udps = us }) (udp i))

unfoldable pub xtcpd_init_send : ℕ → Server → Option Server
xtcpd_init_send id s = on_conn (λ a. record a { send_request = a.send_request + 1 }) s id

unfoldable pub xtcpd_set_appstate : ℕ → ℕ → Server → Option Server
xtcpd_set_appstate id x s = on_conn (λ a. record a { appstate = x }) s id

unfoldable pub xtcpd_abort : ℕ → Server → Option Server
xtcpd_abort id s = on_conn (λ a. record a { abort_request = true }) s id

unfoldable pub xtcpd_close : ℕ → Server → Option Server
xtcpd_close id s = on_conn (λ a. record a { close_request = true }) s id

unfoldable pub xtcpd_ack_recv_mode : ℕ → Server → Option Server
xtcpd_ack_recv_mode id s = on_conn (λ a. record a { ack_recv_mode = true }) s id

-- `tcpstateflags |= UIP_STOPPED` or `&= ~UIP_STOPPED` through the connection's own pointer.
unfoldable pub set_stopped : Bool → Server → Ref → Option Server
set_stopped b s r = do
  v ← slot_at s r
  c ← cast_to tcp_protocol v.app.uip_conn
  update_at (λ w. record w { stopped = b }) s c

abbrev pub ask_ack : XtcpdState → XtcpdState
ask_ack a = record a { ack_request = true }

unfoldable pub xtcpd_ack_recv : ℕ → Server → Option Server
xtcpd_ack_recv id s =
    on_some (lookup_state s id) (some s)
      (λ r. set_stopped false s r >>= λ s'. update_at (with_app ask_ack) s' r)

unfoldable pub xtcpd_pause : ℕ → Server → Option Server
xtcpd_pause id s = on_some (lookup_state s id) (some s) (set_stopped true s)

unfoldable pub xtcpd_unpause : ℕ → Server → Option Server
xtcpd_unpause id s =
    on_some (lookup_state s id) (some s)
      (λ r. set_stopped false s r >>= λ s'. update_at (with_app ask_ack) s' r)

-- `poll_interval * CLOCK_SECOND / 1000` milliseconds
abbrev pub ticks : ℕ → ℕ
ticks interval = interval * 1000 / 1000

abbrev pub set_poll : ℕ → XtcpdState → Protocol → XtcpdState
set_poll interval a udp_protocol = record a { poll_interval = interval; tmr = ticks interval }
set_poll interval a tcp_protocol = a

unfoldable pub xtcpd_set_poll_interval : ℕ → ℕ → Server → Option Server
xtcpd_set_poll_interval id interval s = on_conn (λ a. set_poll interval a a.protocol) s id

-- `handle_xtcp_cmd`, for the client on link `i`
unfoldable pub handle_xtcp_cmd : Uip → ℕ → Command → Server → Option Server
handle_xtcp_cmd lib i (listen port p) s = some (xtcpd_listen i port p s)
handle_xtcp_cmd lib i (unlisten port) s = some (xtcpd_unlisten port s)
handle_xtcp_cmd lib i (connect port addr p) s = xtcpd_connect lib i port addr p s
handle_xtcp_cmd lib i (bind_local id port) s = xtcpd_bind_local id port s
handle_xtcp_cmd lib i (bind_remote id addr port) s = xtcpd_bind_remote id addr port s
handle_xtcp_cmd lib i (init_send id) s = xtcpd_init_send id s
handle_xtcp_cmd lib i (abort id) s = xtcpd_abort id s
handle_xtcp_cmd lib i (close id) s = xtcpd_close id s
handle_xtcp_cmd lib i (ack_recv id) s = xtcpd_ack_recv id s
handle_xtcp_cmd lib i (ack_recv_mode id) s = xtcpd_ack_recv_mode id s
handle_xtcp_cmd lib i (pause id) s = xtcpd_pause id s
handle_xtcp_cmd lib i (unpause id) s = xtcpd_unpause id s
handle_xtcp_cmd lib i (set_appstate id x) s = xtcpd_set_appstate id x s
handle_xtcp_cmd lib i (set_poll_interval id n) s = xtcpd_set_poll_interval id n s
handle_xtcp_cmd lib i (join_group addr) s = some (emit (igmp_join_group addr) s)
handle_xtcp_cmd lib i (leave_group addr) s = some (emit (igmp_leave_group addr) s)

unfoldable pub run_commands : Uip → List (ℕ × Command) → Server → Option Server
run_commands lib [] s = some s
run_commands lib ((i, c) ∷ cs) s = handle_xtcp_cmd lib i c s >>= λ s'. run_commands lib cs s'

unfoldable pub serve : Uip → Server → List (List (ℕ × Command)) → Option Server
serve lib s [] = some s
serve lib s (cs ∷ rest) = run_commands lib cs (record s { script = rest })

-- `xtcpd_service_clients_until_ready`: the commands that come in until the awaited client is ready.
unfoldable pub service : Uip → Server → Option Server
unfolding serve
service lib s = serve lib s s.script
