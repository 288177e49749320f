-- ===== src/Httpd/Tests.antt =====
-- A request in one segment, and a page that is sent in two.
use sc_xtcp.Base.{
  All, List, [], arith, length, none, refl, replicate, some, suc, true, zero, ℕ, ◌∷◌, ◌≡◌, ◌≤◌,
}
use Prim.{tt}
use sc_xtcp.Server.{Event, recv_data, request_data, resend_data, sent_data}
use sc_xtcp.Httpd.{Conn, HttpdState, Served, httpd_handle_event, page, xtcp_init_send}
use sc_xtcp.Httpd.Delivery.{Peer, acknowledged, no_peer}
use sc_xtcp.Httpd.Connection.{Holds, is_sending, serve, serve-page}

-- "GET / "
abbrev request : List ℕ
request = 71 ∷ 69 ∷ 84 ∷ 32 ∷ 47 ∷ 32 ∷ []

abbrev fresh : HttpdState
fresh = record { active = true; conn_id = 4; dptr = none; dlen = 0; prev_dptr = 77 }

-- the first segment is lost
abbrev events : List Event
events = resend_data ∷ replicate 200 sent_data

enough : length page ≤ acknowledged events
unfolding page
enough = omega arith

-- the second of two connections
abbrev conn : Conn
conn = record { id = 4; event = recv_data; local_port = 80; mss = 100; appstate = some 1 }

abbrev states : List HttpdState
states = record fresh { conn_id = 3 } ∷ fresh ∷ []

holds : Holds 1 fresh states conn
holds = record { own = refl; port = refl; found = refl }

all_sent : (n : ℕ) → All (λ e. is_sending e ≡ true) (replicate n sent_data)
all_sent zero = tt
all_sent (suc n) = (refl, all_sent n)

serve-page_example :
    (r : Served) × (httpd_handle_event request states (record conn { event = recv_data }) ≡ some r)
    × (r.calls ≡ xtcp_init_send ∷ [])
    × (q : Peer) × (serve (request_data ∷ events) r.states conn no_peer ≡ some q)
    × (q.accepted ≡ page)
    × (q.is_closed ≡ true)
serve-page_example =
    serve-page request events 1 fresh states conn holds refl (omega arith) refl (refl, all_sent 200)
      enough
