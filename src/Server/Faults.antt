-- ===== src/Server/Faults.antt =====
-- Which commands of a client fault, and whose listeners a client can end.
use sc_xtcp.Base.{none, refl, some, ℕ, ◌≡◌}
use sc_xtcp.Base.Net.{IpAddr}
use sc_xtcp.Server.{Server, Slot, udp}
use sc_xtcp.Server.Request.{
  on_conn, set_stopped, xtcpd_abort, xtcpd_ack_recv, xtcpd_ack_recv_mode, xtcpd_bind_local,
  xtcpd_bind_remote, xtcpd_close, xtcpd_init_send, xtcpd_pause, xtcpd_set_appstate,
  xtcpd_set_poll_interval, xtcpd_unpause,
}
use sc_xtcp.Server.Table.{lookup_state, slot_at}

-- No connection has the id.
abbrev pub IsUnknown : ℕ → Server → Type 0
IsUnknown id s = lookup_state s id ≡ none

-- For an id that no connection has, the two bind commands fault, while every other command on a
-- connection does nothing.
unknown_id :
    (id port x : ℕ) (addr : IpAddr) (s : Server)
    → IsUnknown id s
    → (xtcpd_bind_local id port s ≡ none)
      × (xtcpd_bind_remote id addr port s ≡ none)
      × (xtcpd_init_send id s ≡ some s)
      × (xtcpd_set_appstate id x s ≡ some s)
      × (xtcpd_set_poll_interval id x s ≡ some s)
      × (xtcpd_abort id s ≡ some s)
      × (xtcpd_close id s ≡ some s)
      × (xtcpd_ack_recv id s ≡ some s)
      × (xtcpd_ack_recv_mode id s ≡ some s)
      × (xtcpd_pause id s ≡ some s)
      × (xtcpd_unpause id s ≡ some s)
unfolding xtcpd_set_poll_interval xtcpd_bind_local xtcpd_bind_remote xtcpd_init_send
    xtcpd_set_appstate xtcpd_abort xtcpd_close xtcpd_ack_recv xtcpd_ack_recv_mode xtcpd_pause
    xtcpd_unpause on_conn
unknown_id id port x addr s h = (
  rw h refl,
  rw h refl,
  rw h refl,
  rw h refl,
  rw h refl,
  rw h refl,
  rw h refl,
  rw h refl,
  rw h refl,
  rw h refl,
  rw h refl,
)

-- For a connection in the UDP table whose `uip_conn` points to its own slot, `xtcpd_pause`,
-- `xtcpd_unpause` and `xtcpd_ack_recv` fault: they take the pointer for one to a TCP connection.
udp_flow_control :
    (id i : ℕ) (v : Slot) (s : Server)
    → lookup_state s id ≡ some (udp i)
    → slot_at s (udp i) ≡ some v
    → v.app.uip_conn ≡ some (udp i)
    → (xtcpd_pause id s ≡ none) × (xtcpd_unpause id s ≡ none) × (xtcpd_ack_recv id s ≡ none)
unfolding xtcpd_pause xtcpd_unpause xtcpd_ack_recv set_stopped
udp_flow_control id i v s h e c = (rw (h, e, c) refl, rw (h, e, c) refl, rw (h, e, c) refl)
