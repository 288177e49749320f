-- ===== src/Server/Channel/Ignored.antt =====
-- `xtcp_ignore_recv` of module_xtcp/src/xtcp_client.xc.
use sc_xtcp.Base.{List, Option, [], false, none, refl, some, true, ◌>>=◌, ◌∷◌, ◌≡◌}
use sc_xtcp.Server.{Command, Event}
use sc_xtcp.Server.Channel.{
  Net, Token, act, at_rest, client_takes, client_takes_next, ct_end, data_block, in_recv, must_recv,
  run, send_conn, server_sends_conn, server_takes, server_takes_next, takes_packet, wait,
  wait_until_ready,
}

-- the packet is taken, without the END behind it
abbrev takes_block : Net → List Token → Option Net
takes_block n (data_block ∷ ts) = some (record n { client = at_rest; to_client = ts })
takes_block n _ = none

-- `xtcp_ignore_recv`, with the server's step in between
unfoldable xtcp_ignore_recv : Net → Option Net
xtcp_ignore_recv n =
    takes_packet n n.client true >>= λ m. act server_takes_next m >>= λ q. takes_block q q.to_client

-- The server waits for the answer of the client to a packet.
abbrev with_packet : Option Event → List Command → Net
with_packet due handled = record {
  link = record {
    notified = false;
    pending_event = none;
    due = due;
    place = in_recv;
    handled = handled;
  };
  client = must_recv;
  to_server = [];
  to_client = [];
}

-- The client takes the END that was left for a notification, and the server has no event for it; when
-- the server then notifies it of an event, the client takes that END where it expects a connection.
abbrev Jams : Net → Event → Type 0
Jams m ev =
    (s : Net) × (run (client_takes_next ∷ server_takes_next ∷ wait ev ∷ []) m ≡ some s)
    × (s.to_client ≡ ct_end ∷ [])
    × (s.to_server ≡ [])
    × (act client_takes_next s ≡ none)
    × (act server_sends_conn s ≡ none)

-- Where the server waits for the client's answer to a packet and the client ignores the packet, the END
-- behind it stays on the channel. When the client then takes it before the server waits for the next
-- event, as in the steps of `Jams`, neither side can go on.
ignore_recv-Jams :
    (due : Option Event) (handled : List Command) (ev : Event)
    → (m : Net) × (xtcp_ignore_recv (with_packet due handled) ≡ some m)
      × (m.to_client ≡ ct_end ∷ [])
      × Jams m ev
unfolding xtcp_ignore_recv run act client_takes server_takes wait_until_ready send_conn
ignore_recv-Jams due handled ev = (_, refl, refl, (_, refl, refl, refl, refl, refl))
