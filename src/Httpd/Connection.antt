-- ===== src/Httpd/Connection.antt =====
-- `httpd_handle_event` for a connection whose state is in a slot of `connection_states`.
use sc_xtcp.Base.{
  All, Bool, List, Option, Option-cases, [], ap, false, get_elem?, if◌then◌else◌, inl, inr, length,
  none, refl, set, some, suc, take, true, zero, ℕ, ◌<◌, ◌>>=◌, ◌∙◌, ◌∷◌, ◌≡◌, ◌≤◌,
}
use sc_xtcp.Server.{Event, already_handled, recv_data, request_data, resend_data, sent_data}
use sc_xtcp.Httpd.{
  Conn, HttpdState, Served, get_text, http_event, httpd_handle_event, httpd_recv, httpd_send,
  is_none, page, parse_http_request, same_bytes, send_state, xtcp_init_send,
}
use sc_xtcp.Httpd.Delivery.{
  Peer, acknowledged, no_peer, parsed, peer_step, serve_events, serve_events-page,
}

-- the events of `httpd_send`
abbrev pub is_sending : Event → Bool
is_sending request_data = true
is_sending sent_data = true
is_sending resend_data = true
is_sending _ = false

-- The events of a connection up to the one at which the server closes it.
unfoldable pub serve : List Event → List HttpdState → Conn → Peer → Option Peer
serve [] states c q = some q
serve (e ∷ es) states c q =
    if q.is_closed
    then some q
    else (httpd_handle_event [] states (record c { event = e }) >>= λ r.
        serve es r.states c (peer_step e r.calls q))

get-set-same :
    (xs : List HttpdState) (i : ℕ) (s t : HttpdState)
    → get_elem? xs i ≡ some s
    → get_elem? (set xs i t) i ≡ some t
get-set-same [] i s t h = absurd cc
get-set-same (x ∷ xs) zero s t h = refl
get-set-same (x ∷ xs) (suc i) s t h = get-set-same xs i s t h

-- The connection is one to port 80 whose state is this one, in slot `i`.
pub record Holds (i : ℕ) (hs : HttpdState) (states : List HttpdState) (c : Conn) : Type 0 where
  pub own : c.appstate ≡ some i
  pub port : c.local_port ≡ 80
  pub found : get_elem? states i ≡ some hs

-- `httpd_handle_event` on its events of sending
abbrev sent_from : ℕ → HttpdState → Event → List HttpdState → Conn → Option Served
sent_from i hs e states c = send_state e c.mss hs >>= λ r.
    some (record {
      states = set states i r.0;
      conn = record c { event = already_handled };
      calls = r.1;
    })

httpd_handle_event-sending :
    (i : ℕ) (hs : HttpdState) (e : Event) (states : List HttpdState) (c : Conn)
    → is_sending e ≡ true
    → Holds i hs states c
    → httpd_handle_event [] states (record c { event = e }) ≡ sent_from i hs e states c
unfolding httpd_handle_event http_event httpd_send
httpd_handle_event-sending i hs request_data states c s h =
    rw (h.port, h.own, h.found)
      (elim (Option-cases (send_state request_data c.mss hs)) [
        | inl e ↦ rw e refl
        | inr (r, e) ↦ rw e refl
      ])
httpd_handle_event-sending i hs sent_data states c s h =
    rw (h.port, h.own, h.found)
      (elim (Option-cases (send_state sent_data c.mss hs)) [
        | inl e ↦ rw e refl
        | inr (r, e) ↦ rw e refl
      ])
httpd_handle_event-sending i hs resend_data states c s h =
    rw (h.port, h.own, h.found)
      (elim (Option-cases (send_state resend_data c.mss hs)) [
        | inl e ↦ rw e refl
        | inr (r, e) ↦ rw e refl
      ])
httpd_handle_event-sending i hs _ states c s h = absurd cc

-- Serving the connection is what its state does by itself.
serve-serve_events :
    (es : List Event) (i : ℕ) (hs : HttpdState) (states : List HttpdState) (c : Conn) (q : Peer)
    → All (λ e. is_sending e ≡ true) es
    → Holds i hs states c
    → serve es states c q ≡ serve_events c.mss es hs q
unfolding serve serve_events
serve-serve_events [] i hs states c q s h = refl
serve-serve_events (e ∷ es) i hs states c q s h =
    rw (httpd_handle_event-sending i hs e states c s.0 h)
      (elim (Option-cases (send_state e c.mss hs)) [
        | inl f ↦ rw f refl
        | inr (r, f) ↦
            rw
              (
                f,
                serve-serve_events es i r.0 (set states i r.0) c (peer_step e r.1 q) s.1 (next r.0),
              )
              refl
      ])
  where
    next : (t : HttpdState) → Holds i t (set states i t) c
    next t = record { own = h.own; port = h.port; found = get-set-same states i hs t h.found }

-- A connection to port 80 has a state in `connection_states` and waits for a request, and one comes
-- that begins with "GET ". `httpd_handle_event` then asks for an event to send. When the server asks
-- for data, and any events of `httpd_send` follow, each a resend of a lost segment or the
-- acknowledgement of the last one, and at least as many acknowledgements as the page has bytes, the
-- calls of `httpd_handle_event` bring the other end the page, each byte once and in order, and close
-- the connection. This holds for any positive mss.
pub serve-page :
    (received : List ℕ) (es : List Event) (i : ℕ) (hs : HttpdState) (states : List HttpdState)
    (c : Conn)
    → Holds i hs states c
    → hs.dptr ≡ none
    → 0 < c.mss
    → same_bytes (take 4 received) get_text ≡ true
    → All (λ e. is_sending e ≡ true) es
    → length page ≤ acknowledged es
    → (r : Served) × (httpd_handle_event received states (record c { event = recv_data }) ≡ some r)
      × (r.calls ≡ xtcp_init_send ∷ [])
      × (q : Peer) × (serve (request_data ∷ es) r.states c no_peer ≡ some q)
      × (q.accepted ≡ page)
      × (q.is_closed ≡ true)
unfolding httpd_handle_event http_event httpd_recv
serve-page received es i hs states c h null m get sends enough =
    let idle : is_none hs.dptr ≡ true = ap is_none null in
    let asked = parse_http_request hs received in
    let some_dptr : is_none asked.dptr ≡ false =
      ap (λ x. is_none x.dptr) (parsed received hs null get) in
    let after : Holds i asked (set states i asked) c = record {
      own = h.own;
      port = h.port;
      found = get-set-same states i hs asked h.found;
    } in
    let (q, served, all, shut) = serve_events-page c.mss received es hs m null get enough in
    (
      record {
        states = set states i asked;
        conn = record c { event = already_handled };
        calls = xtcp_init_send ∷ [];
      },
      rw (h.port, h.own, h.found, idle, some_dptr) refl,
      refl,
      q,
      serve-serve_events (request_data ∷ es) i asked (set states i asked) c no_peer (refl, sends)
            after
          ∙ served,
      all,
      shut,
    )
