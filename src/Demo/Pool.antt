-- ===== src/Demo/Pool.antt =====
-- The connections of a demo server: demo_protocol_transport.c of app_buffered_protocol_demo. The
-- other demo has the same functions, but for the header's flag, its own loop, and the UDP port.
use sc_xtcp.Base.{
  Bool, List, Option, [], false, get_elem?, if◌then◌else◌, length, ltb, map, none, not, on_some,
  set, some, true, ℕ, ◌%◌, ◌&&◌, ◌*◌, ◌+◌, ◌-◌, ◌==◌, ◌>>=◌, ◌^◌, ◌∷◌,
}
use sc_xtcp.Server.{
  Event, Protocol, aborted, already_handled, closed, ifdown, ifup, new_connection, poll, recv_data,
  request_data, resend_data, sent_data, tcp_protocol, timed_out, udp_protocol,
}
use sc_xtcp.Demo.Framed.{Peer, max_msg_size, protocol_recv}
use sc_xtcp.Buffered.{send_handler, set_rx_buffer, set_tx_buffer}
use sc_xtcp.Buffered.Receive.{pending}
use sc_xtcp.Demo.{client}

abbrev pub demo_port : ℕ
demo_port = 15533

abbrev pub rxbuf_len : ℕ
rxbuf_len = 2048

abbrev pub txbuf_len : ℕ
txbuf_len = 1024

abbrev pub conn_timeout_ms : ℕ
conn_timeout_ms = 500

-- `demo_protocol_state_t`, with the messages of the connection in `peer`
pub record ProtocolState : Type 0 where
  pub active : Bool
  pub last_used : ℕ
  pub conn_id : ℕ
  pub peer : Peer

-- The calls of the client library that do not go through a buffer. An application state is the place
-- of an entry of `connection_states`.
pub data PoolCall : Type 0 where
  listen_on : ℕ → Protocol → PoolCall
  abort_conn close_conn : ℕ → PoolCall
  set_appstate : ℕ → ℕ → PoolCall
  ignore_recv ignore_send : PoolCall

-- `connection_states`, and the calls, latest first
pub record Pool : Type 0 where
  pub slots : List ProtocolState
  pub calls : List PoolCall

-- What the handler reads of the `xtcp_connection_t` of an event: `appstate` is none for a null
-- pointer. `incoming` is what `xtcp_recv` would store.
pub record PoolConn : Type 0 where
  pub id : ℕ
  pub event : Event
  pub local_port : ℕ
  pub appstate : Option ℕ
  pub mss : ℕ
  pub incoming : List ℕ

abbrev pub add_call : PoolCall → Pool → Pool
add_call c p = record p { calls = c ∷ p.calls }

abbrev pub deactivate : ProtocolState → ProtocolState
deactivate s = record s { active = false }

-- `demo_protocol_init`
unfoldable pub demo_protocol_init : Pool → Pool
demo_protocol_init p =
    add_call (listen_on demo_port udp_protocol)
      (add_call (listen_on demo_port tcp_protocol) (record p { slots = map deactivate p.slots }))

-- the loop that looks for a place
unfoldable pub find_free : List ProtocolState → ℕ → Option ℕ
find_free [] i = none
find_free (s ∷ ss) i = let rest = find_free ss (i + 1) in if not s.active then some i else rest

-- an entry for a new connection
abbrev pub open_slot : ℕ → ℕ → ProtocolState → ProtocolState
open_slot id timestamp s = record s {
  active = true;
  last_used = timestamp;
  conn_id = id;
  peer = record s.peer {
    got_header = false;
    link = record s.peer.link {
      rx = set_rx_buffer s.peer.link.rx.mem rxbuf_len;
      tx = set_tx_buffer s.peer.link.tx.mem txbuf_len max_msg_size;
    };
  };
}

abbrev pub update : ℕ → (ProtocolState → Option ProtocolState) → Pool → Option Pool
update i f p = do s ← get_elem? p.slots i; t ← f s; some (record p { slots = set p.slots i t })

-- `demo_protocol_init_state`
unfoldable pub init_state : ℕ → ℕ → Pool → Option Pool
init_state id timestamp p =
    on_some (find_free p.slots 0) (some (add_call (abort_conn id) p))
      λ i. update i (λ s. some (open_slot id timestamp s)) (add_call (set_appstate id i) p)

-- `demo_protocol_free_state`
unfoldable pub free_state : Option ℕ → Pool → Option Pool
free_state none p = some p
free_state (some i) p = update i (λ s. some (deactivate s)) p

-- `demo_protocol_recv`, with a round for each byte at hand and one more
unfoldable pub recv_slot : ℕ → List ℕ → ProtocolState → Option ProtocolState
recv_slot timestamp incoming s = do
  q ← protocol_recv (length (pending incoming s.peer.link.rx) + 1) incoming s.peer
  some (record s { last_used = timestamp; peer = q })

-- `demo_protocol_send`; `resend` tells whether the event is XTCP_RESEND_DATA.
unfoldable pub send_slot : ℕ → Bool → ℕ → ProtocolState → Option ProtocolState
send_slot timestamp resend mss s =
    let r = send_handler resend mss s.peer.link.tx in
    some (record s {
      last_used = timestamp;
      peer = record s.peer {
        link = record s.peer.link { tx = r.0; actions = client r.1 ∷ s.peer.link.actions };
      };
    })

abbrev pub on_send : PoolConn → Bool → ℕ → Pool → Option Pool
on_send c resend timestamp p =
    on_some c.appstate (some (add_call ignore_send p))
      (λ i. update i (send_slot timestamp resend c.mss) p)

-- the switch over the event
unfoldable pub pool_event : PoolConn → Event → ℕ → Pool → Option Pool
pool_event c new_connection timestamp p = init_state c.id timestamp p
pool_event c recv_data timestamp p =
    on_some c.appstate (some (add_call ignore_recv p))
      (λ i. update i (recv_slot timestamp c.incoming) p)
pool_event c sent_data timestamp p = on_send c false timestamp p
pool_event c request_data timestamp p = on_send c false timestamp p
pool_event c resend_data timestamp p = on_send c true timestamp p
pool_event c timed_out timestamp p = free_state c.appstate p
pool_event c aborted timestamp p = free_state c.appstate p
pool_event c closed timestamp p = free_state c.appstate p
pool_event c poll timestamp p = some p
pool_event c ifup timestamp p = some p
pool_event c ifdown timestamp p = some p
pool_event c already_handled timestamp p = some p

abbrev pub is_relevant : Event → Bool
is_relevant ifup = false
is_relevant ifdown = false
is_relevant already_handled = false
is_relevant _ = true

abbrev pub handled : Option Pool → Option (Pool × Event)
handled none = none
handled (some p) = some (p, already_handled)

-- `demo_protocol_handle_event`, with the event that it leaves in the connection
unfoldable pub demo_protocol_handle_event : PoolConn → ℕ → Pool → Option (Pool × Event)
demo_protocol_handle_event c timestamp p =
    if is_relevant c.event && c.local_port == demo_port
    then handled (pool_event c c.event timestamp p)
    else some (p, c.event)

-- `(t - st->last_used) > DEMO_PROTOCOL_CONN_TIMEOUT_TIMER_TICKS` on `int`s
abbrev pub is_idle : ℕ → ℕ → ℕ → Bool
is_idle timer_khz t last_used =
    let elapsed = (t + (2 ^ 32 - last_used)) % 2 ^ 32 in
    ltb (conn_timeout_ms * timer_khz) elapsed && ltb elapsed (2 ^ 31)

-- `demo_protocol_periodic`: the calls; `timer_khz` is XS1_TIMER_KHZ.
unfoldable pub periodic_calls : ℕ → ℕ → List ProtocolState → List PoolCall → List PoolCall
periodic_calls timer_khz t [] cs = cs
periodic_calls timer_khz t (s ∷ ss) cs =
    periodic_calls timer_khz t ss
      (if s.active && is_idle timer_khz t s.last_used then close_conn s.conn_id ∷ cs else cs)

abbrev pub demo_protocol_periodic : ℕ → ℕ → Pool → Pool
demo_protocol_periodic timer_khz t p = record p {
  calls = periodic_calls timer_khz t p.slots p.calls;
}
