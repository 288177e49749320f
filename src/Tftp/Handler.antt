-- ===== src/Tftp/Handler.antt =====
-- The event handler of the TFTP server: module_tftp/src/tftp.xc. A call of the xtcp client library
-- or of the application is a `Call` of a trace.
use sc_xtcp.Base.{
  Bool, List, Option, [], drop, false, if◌then◌else◌, length, ltb, none, not, some, take, true, ℕ,
  ◌%◌, ◌&&◌, ◌*◌, ◌++◌, ◌+◌, ◌==◌, ◌>>=◌, ◌^◌, ◌∷◌,
}
use sc_xtcp.Server.{
  Event, Protocol, aborted, already_handled, closed, ifdown, ifup, new_connection, poll, recv_data,
  request_data, resend_data, sent_data, timed_out, udp_protocol,
}
use sc_xtcp.Tftp.{Env, Reply, Tftp, block_size, min_pkt_size, process_app_error, process_packet}

pub data TftpState : Type 0 where
  tftp_idle tftp_waiting_for_connection tftp_waiting_for_data tftp_sending_ack : TftpState
  tftp_complete : TftpState

-- The id of a connection, `none` for -1.
abbrev pub ConnId : Type 0
ConnId = Option ℕ

pub data Call : Type 0 where
  xtcp_listen : ℕ → Protocol → Call
  xtcp_close xtcp_init_send : ConnId → Call
  xtcp_bind_local xtcp_set_poll_interval : ConnId → ℕ → Call
  xtcp_send : List ℕ → Call
  xtcp_complete_send : Call
  transfer_begin transfer_error transfer_complete : Call

-- What the code calls outside, and finds outside: the answer of `tftp_app_transfer_begin` after
-- the calls that were made, and the contents of `rx_buffer` on the stack.
pub record Outside : Type 0 where
  pub net : Env
  pub app_transfer_begin : List Call → ℕ
  pub rx_buffer : List ℕ

-- What the handler reads of the `xtcp_connection_t` of an event, with the data that can be received.
pub record Conn : Type 0 where
  pub id : ℕ
  pub event : Event
  pub local_port : ℕ
  pub data_in : List ℕ

-- The variables of tftp.xc. `block_num`, `signal_error` and `signal_complete` are in `tftp`, with
-- the variables of tftp_support.c, since `tftp_process_packet` changes them. `calls` has the latest
-- call first.
pub record Handler : Type 0 where
  pub tftp_state : TftpState
  pub local_tid : ℕ
  pub prev_block_num : ℕ
  pub tx_buffer : List ℕ
  pub num_tx_bytes : ℕ
  pub tftp_conn : ConnId
  pub tftp : Tftp
  pub calls : List Call

abbrev pub default_port : ℕ
default_port = 69

abbrev pub timeout_seconds : ℕ
timeout_seconds = 3

abbrev pub rx_buffer_size : ℕ
rx_buffer_size = min_pkt_size + block_size

abbrev pub source_tid_seed : ℕ
source_tid_seed = 51337

abbrev pub call : Call → Handler → Handler
call c s = record s { calls = c ∷ s.calls }

abbrev pub go_to : TftpState → Handler → Handler
go_to st s = record s { tftp_state = st }

-- the variables that `tftp_init` and `tftp_close` clear
abbrev pub clear_signals : Tftp → Tftp
clear_signals t = record t { error = false; complete = false; block_num_glob = 0 }

abbrev pub clear : Handler → Handler
clear s = record s {
  tftp = clear_signals s.tftp;
  prev_block_num = 0;
  num_tx_bytes = 0;
  tftp_conn = none;
}

-- `tftp_init`
unfoldable pub tftp_init : Handler → Handler
tftp_init s = call (xtcp_listen default_port udp_protocol) (clear s)

-- `tftp_close`
unfoldable pub tftp_close : ConnId → Handler → Handler
tftp_close conn s = clear (call (xtcp_close conn) s)

-- `tftp_app_transfer_error(); tftp_close(c_xtcp, conn);`
abbrev pub fail_transfer : ConnId → Handler → Handler
fail_transfer conn s = tftp_close conn (call transfer_error s)

-- XTCP_IFDOWN: the last statement, `tftp_state == TFTP_IDLE;`, compares.
unfoldable pub if_down : ConnId → Handler → Handler
if_down conn s = elim s.tftp_state [
  | tftp_waiting_for_data ↦ fail_transfer conn s
  | tftp_sending_ack ↦ fail_transfer conn s
  | _ ↦ s
]

-- A reply is in `tx_buffer` and is to be sent.
unfoldable pub start_reply : ConnId → List ℕ → Handler → Handler
start_reply conn p s =
    go_to tftp_sending_ack
      (call (xtcp_init_send conn) (record s { tx_buffer = p; num_tx_bytes = length p }))

abbrev pub refused : Tftp → Tftp
refused t = record t { error = true }

-- The connection is taken: a WRQ packet is next.
abbrev pub take_connection : ConnId → Handler → Handler
take_connection conn s =
    let s1 = record s { tftp_conn = conn } in
    let s2 = call (xtcp_set_poll_interval conn (timeout_seconds * 1000)) s1 in
    go_to tftp_waiting_for_data (call (xtcp_bind_local conn s.local_tid) s2)

-- XTCP_NEW_CONNECTION, in the state and on the port that it is for
unfoldable pub accept_connection : Outside → ConnId → Handler → Option Handler
accept_connection out conn s =
    let s1 = record s { tftp_conn = conn; local_tid = (s.local_tid + 1) % 2 ^ 16 } in
    let s2 = call transfer_begin (call (xtcp_bind_local conn s1.local_tid) s1) in
    if out.app_transfer_begin s2.calls == 0
    then some (take_connection conn s2)
    else (process_app_error out.net >>= λ p.
        let s3 = record s2 { tx_buffer = p; num_tx_bytes = length p; tftp = refused s2.tftp } in
        if ltb 0 (length p) then some (start_reply conn p s3) else some (take_connection conn s3))

-- `xtcp_recv_count` into `rx_buffer`: what the array holds, and the number of bytes that came.
unfoldable pub xtcp_recv_count : List ℕ → ℕ → List ℕ → List ℕ × ℕ
xtcp_recv_count bytes count buf = (take count bytes ++ drop (length bytes) buf, length bytes)

-- The packet was processed: a reply, or none, when the number of bytes is -1.
unfoldable pub processed : ConnId → Tftp → Reply → Handler → Handler
processed conn t none s =
    go_to tftp_waiting_for_connection (fail_transfer conn (record s { tftp = t }))
processed conn t (some p) s =
    let s1 = record s { tftp = t; tx_buffer = p; num_tx_bytes = length p } in
    if ltb 0 (length p)
    then start_reply conn p s1
    else go_to tftp_waiting_for_connection (fail_transfer conn s1)

abbrev pub same_conn : ConnId → ℕ → Bool
same_conn none id = false
same_conn (some c) id = id == c

-- XTCP_RECV_DATA in state TFTP_WAITING_FOR_DATA
unfoldable pub receive : Outside → Conn → Handler → Option Handler
receive out c s =
    let rx = xtcp_recv_count c.data_in rx_buffer_size out.rx_buffer in
    if same_conn s.tftp_conn c.id
    then (process_packet out.net rx.0 rx.1 s.tftp >>= λ r. some (processed (some c.id) r.0 r.1 s))
    else some s

-- XTCP_REQUEST_DATA, XTCP_RESEND_DATA in state TFTP_SENDING_ACK
unfoldable pub send_reply : Handler → Handler
send_reply s =
    if ltb 0 s.num_tx_bytes then call (xtcp_send (take s.num_tx_bytes s.tx_buffer)) s else s

-- XTCP_SENT_DATA
unfoldable pub sent : ConnId → Handler → Handler
sent conn s =
    let s1 = record (call xtcp_complete_send s) { num_tx_bytes = 0 } in
    if s.tftp.error
    then go_to tftp_waiting_for_connection (fail_transfer conn s1)
    else if s.tftp.complete
    then go_to tftp_complete (tftp_close conn (call transfer_complete s1))
    else go_to tftp_waiting_for_data s1

-- XTCP_POLL
unfoldable pub poll_timeout : Handler → Handler
poll_timeout s =
    let next = record s { prev_block_num = s.tftp.block_num_glob } in
    elim s.tftp_state [
      | tftp_waiting_for_data ↦
          if s.prev_block_num == s.tftp.block_num_glob
          then go_to tftp_waiting_for_connection (tftp_close s.tftp_conn s)
          else next
      | _ ↦ next
    ]

-- the switch over the event
unfoldable pub dispatch : Outside → Conn → Event → Handler → Option Handler
dispatch out c ifup s = some (go_to tftp_waiting_for_connection s)
dispatch out c ifdown s = some (if_down (some c.id) s)
dispatch out c new_connection s = elim s.tftp_state [
  | tftp_waiting_for_connection ↦
      if c.local_port == default_port then accept_connection out (some c.id) s else some s
  | _ ↦ some s
]
dispatch out c recv_data s = elim s.tftp_state [
  | tftp_waiting_for_data ↦ receive out c s
  | _ ↦ some s
]
dispatch out c request_data s = some (elim s.tftp_state [ tftp_sending_ack ↦ send_reply s | _ ↦ s ])
dispatch out c resend_data s = some (elim s.tftp_state [ tftp_sending_ack ↦ send_reply s | _ ↦ s ])
dispatch out c sent_data s = some (sent (some c.id) s)
dispatch out c poll s = some (poll_timeout s)
dispatch out c timed_out s = some s
dispatch out c aborted s = some s
dispatch out c closed s = some s
dispatch out c already_handled s = some s

-- `conn.event != XTCP_IFUP && conn.event != XTCP_IFDOWN`
abbrev pub is_for_connection : Event → Bool
is_for_connection ifup = false
is_for_connection ifdown = false
is_for_connection _ = true

-- the event is of a connection that is not TFTP
abbrev pub is_foreign : Conn → Handler → Bool
is_foreign c s =
    is_for_connection c.event
    && (not (c.local_port == default_port) && not (c.local_port == s.local_tid))

abbrev pub is_complete : TftpState → Bool
is_complete tftp_complete = true
is_complete _ = false

-- `tftp_handle_event`: a fault of the packet functions is `none`.
unfoldable pub handle_event : Outside → Conn → Handler → Option Handler
handle_event out c s =
    if is_complete s.tftp_state
    then some s
    else if is_foreign c s
    then some s
    else dispatch out c c.event s

-- the events one after the other
abbrev pub handle_events : Outside → List Conn → Handler → Option Handler
handle_events out [] s = some s
handle_events out (c ∷ cs) s = handle_event out c s >>= handle_events out cs
