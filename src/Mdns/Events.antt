-- ===== src/Mdns/Events.antt =====
-- The way of the entries to ACTIVE through the handler of the events.
use sc_xtcp.Base.{List, Option, [], some, ℕ, ◌+◌, ◌>>=◌, ◌∷◌}
use sc_xtcp.Base.Net.{IpAddr}
use sc_xtcp.Base.Words.{u32}
use sc_xtcp.Server.{Event, poll, request_data}
use sc_xtcp.Mdns.{Call, Entry, Mdns, mdns_server_port}
use sc_xtcp.Mdns.Handler.{Answers, mdns_handle_event}

-- The table behind an event of the connection to the group.
abbrev pub after_event : Event → Answers → ℕ → Mdns → Option Mdns
after_event e ans t m =
    mdns_handle_event
      (record { conn_event = e; local_port = mdns_server_port; remote_port = mdns_server_port }) ans
      t m
    >>= λ r. some r.0.after

-- The server asks for data at a time, and the connection is polled a delay later: the table behind
-- both, and the calls at the request.
abbrev pub event_round : Answers → ℕ × ℕ → Mdns → Option (Mdns × List Call)
event_round ans (t, delay) m = do
  r ←
      mdns_handle_event
        (record {
          conn_event = request_data;
          local_port = mdns_server_port;
          remote_port = mdns_server_port;
        })
        ans t m
  n ← after_event poll ans (u32 (t + delay)) r.0.after
  some (n, r.0.step_calls)

-- rounds, with the calls at each request
abbrev pub event_rounds : Answers → List (ℕ × ℕ) → Mdns → Option (Mdns × List (List Call))
event_rounds ans [] m = some (m, [])
event_rounds ans (r ∷ rs) m = do
  n ← event_round ans r m
  o ← event_rounds ans rs n.0
  some (o.0, n.1 ∷ o.1)

abbrev with_addr : IpAddr → Entry → Entry
with_addr a e = record e { ipaddr = a }
