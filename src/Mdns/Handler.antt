-- ===== src/Mdns/Handler.antt =====
-- `mdns_handle_event`: the responder's part of the event loop.
use sc_xtcp.Base.{
  Bool, List, Option, [], false, if◌then◌else◌, some, true, ℕ, ◌&&◌, ◌++◌, ◌==◌, ◌>>=◌, ◌∷◌,
}
use sc_xtcp.Base.Net.{IpAddr}
use sc_xtcp.Server.{
  Event, already_handled, ifdown, ifup, new_connection, poll, recv_data, request_data, resend_data,
  sent_data,
}
use sc_xtcp.Mdns.{Call, Mdns, mdns_server_port, no_event, xtcp_bind_local, xtcp_set_poll_interval}
use sc_xtcp.Mdns.Recv.{mdns_recv}
use sc_xtcp.Mdns.Send.{mdns_send}
use sc_xtcp.Mdns.Table.{Step, mdns_periodic, mdns_start}

-- The fields of `conn` that the handler reads.
pub record Conn : Type 0 where
  pub conn_event : Event
  pub local_port : ℕ
  pub remote_port : ℕ

-- What the server answers: the address of `xtcp_get_ipconfig`, and for `xtcp_recv` the array and the
-- length. `junk` is what the array `addr` of `handle_mdns_ptr_query` holds before it is written, and
-- `fuel` is for `mdns_parse_name`.
pub record Answers : Type 0 where
  pub ipconfig_addr : IpAddr
  pub received : List ℕ
  pub received_len : ℕ
  pub junk : IpAddr
  pub fuel : ℕ

abbrev pub is_new_connection : Event → Bool
is_new_connection new_connection = true
is_new_connection _ = false

-- What a new connection asks for.
unfoldable pub new_connection_calls : Conn → List Call
new_connection_calls conn =
    if conn.remote_port == mdns_server_port && is_new_connection conn.conn_event
    then xtcp_set_poll_interval 125 ∷ xtcp_bind_local mdns_server_port ∷ []
    else []

unfoldable pub receive_event : Answers → Mdns → Option (Step Mdns)
receive_event ans m = do
  s ← mdns_recv ans.fuel ans.junk ans.received ans.received_len m.table
  some (record { after = record m { table = s.after }; step_calls = s.step_calls; event = s.event })

unfoldable pub send_data_event : ℕ → Mdns → Option (Step Mdns)
send_data_event t m = do
  r ← mdns_send m.table t
  some (record { after = record m { table = r.0 }; step_calls = r.1; event = no_event })

-- The second switch, for a connection of the responder's.
unfoldable pub port_event : Event → Answers → ℕ → Mdns → Option (Step Mdns)
port_event e ans t m = elim e [
  | poll ↦ some (mdns_periodic t m)
  | recv_data ↦ receive_event ans m
  | request_data ↦ send_data_event t m
  | sent_data ↦ send_data_event t m
  | resend_data ↦ send_data_event t m
  | _ ↦ some (record { after = m; step_calls = []; event = no_event })
]

-- behind the first switch: the step, and `conn`
unfoldable pub connection_event : Conn → Answers → ℕ → Mdns → Option (Step Mdns × Conn)
connection_event conn ans t m =
    let calls = new_connection_calls conn in
    if conn.local_port == mdns_server_port
    then (port_event conn.conn_event ans t m >>= λ s. some (
      record s { step_calls = calls ++ s.step_calls },
      record conn { conn_event = already_handled },
    ))
    else some (record { after = m; step_calls = calls; event = no_event }, conn)

-- `mdns_handle_event`, built without NetBIOS
unfoldable pub mdns_handle_event : Conn → Answers → ℕ → Mdns → Option (Step Mdns × Conn)
mdns_handle_event conn ans t m = elim conn.conn_event [
  | ifup ↦
      let (n, calls) = mdns_start ans.ipconfig_addr m in
      some
        (record { after = n; step_calls = calls; event = record no_event { is_up = true } }, conn)
  | ifdown ↦
      some (record { after = m; step_calls = []; event = record no_event { is_down = true } }, conn)
  | already_handled ↦ some (record { after = m; step_calls = []; event = no_event }, conn)
  | _ ↦ connection_event conn ans t m
]
