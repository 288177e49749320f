-- ===== src/Httpd/Delivery.antt =====
-- That a request is answered with the whole page, once, however the segments are cut and resent.
use sc_xtcp.Base.{
  Bool, Bool-cases, List, Option, [], ap, arith, false, if◌then◌else◌, inl, inr, length, ltb, none,
  on_some, refl, some, take, take-append-take, take-length, true, ℕ, ◌++◌, ◌+◌, ◌-◌, ◌<◌, ◌==◌,
  ◌>>=◌, ◌∙◌, ◌∷◌, ◌≡◌, ◌≤◌,
}
use sc_xtcp.Server.{Event, request_data}
use sc_xtcp.Httpd.{
  HttpdCall, HttpdState, get_text, is_none, is_resend, page, page_bytes, parse_http_request,
  same_bytes, send_more, send_state, xtcp_close, xtcp_complete_send, xtcp_send,
}

-- The other end: what it has acknowledged, the segment on its way, and whether the server closed.
pub record Peer : Type 0 where
  pub accepted : List ℕ
  pub in_flight : List ℕ
  pub is_closed : Bool

abbrev pub sent_bytes : List HttpdCall → List ℕ
sent_bytes (xtcp_send bytes ∷ cs) = bytes
sent_bytes _ = []

abbrev pub has_close : List HttpdCall → Bool
has_close [] = false
has_close (xtcp_close ∷ cs) = true
has_close (_ ∷ cs) = has_close cs

-- A resend is for a segment that was lost; any other event of `httpd_send` acknowledges the last one.
abbrev pub peer_step : Event → List HttpdCall → Peer → Peer
peer_step e calls q = record {
  accepted = if is_resend e then q.accepted else q.accepted ++ q.in_flight;
  in_flight = sent_bytes calls;
  is_closed = has_close calls;
}

-- The events up to the one that closes the connection.
unfoldable pub serve_events : ℕ → List Event → HttpdState → Peer → Option Peer
serve_events mss [] hs q = some q
serve_events mss (e ∷ es) hs q =
    if q.is_closed
    then some q
    else (send_state e mss hs >>= λ r. serve_events mss es r.0 (peer_step e r.1 q))

-- the number of the events that are no resend
abbrev pub acknowledged : List Event → ℕ
acknowledged [] = 0
acknowledged (e ∷ es) = (if is_resend e then 0 else 1) + acknowledged es

-- The segment from `prev_dptr` to `dptr` is on its way, and what is before it was acknowledged.
record Underway (p : ℕ) (hs : HttpdState) (q : Peer) : Type 0 where
  pointer : hs.dptr ≡ some p
  behind : hs.prev_dptr ≤ p
  left : p + hs.dlen ≡ length page
  taken : q.accepted ≡ take hs.prev_dptr page
  flying : q.in_flight ≡ page_bytes hs.prev_dptr (p - hs.prev_dptr)
  open_ : q.is_closed ≡ false

segment_taken : (a p : ℕ) → a ≤ p → take a page ++ page_bytes a (p - a) ≡ take p page
segment_taken a p h = take-append-take a (p - a) page ∙ ap (λ n. take n page) (omega arith)

Delivered : ℕ → List Event → HttpdState → Peer → Type 0
Delivered mss es hs q =
    (r : Peer) × (serve_events mss es hs q ≡ some r) × (r.accepted ≡ page) × (r.is_closed ≡ true)

serve_events-closed :
    (mss : ℕ) (es : List Event) (hs : HttpdState) (q : Peer)
    → q.is_closed ≡ true
    → serve_events mss es hs q ≡ some q
unfolding serve_events
serve_events-closed mss [] hs q h = refl
serve_events-closed mss (e ∷ es) hs q h = rw h refl

received_all :
    (p : ℕ) (hs : HttpdState) (q : Peer) → Underway p hs q → q.accepted ++ q.in_flight ≡ take p page
received_all p hs q u = rw (u.taken, u.flying) (segment_taken hs.prev_dptr p u.behind)

abbrev segment_len : ℕ → HttpdState → ℕ
segment_len mss hs = if ltb mss hs.dlen then mss else hs.dlen

abbrev moved : ℕ → ℕ → HttpdState → HttpdState
moved mss p hs = record hs {
  prev_dptr = p;
  dptr = some (p + segment_len mss hs);
  dlen = hs.dlen - segment_len mss hs;
}

resend_step :
    (e : Event) (mss p : ℕ) (hs : HttpdState)
    → is_resend e ≡ true
    → hs.dptr ≡ some p
    → send_state e mss hs ≡ some (hs, xtcp_send (page_bytes hs.prev_dptr (p - hs.prev_dptr)) ∷ [])
unfolding send_state
resend_step e mss p hs r pointer = rw r (
    ap (λ o. o >>= λ x. some (hs, xtcp_send (page_bytes hs.prev_dptr (x - hs.prev_dptr)) ∷ []))
      pointer)

-- `send_more` as a function of `dptr`
abbrev more_from : ℕ → HttpdState → Option ℕ → Option (HttpdState × List HttpdCall)
more_from mss hs o = some (
    on_some o (hs, xtcp_complete_send ∷ xtcp_close ∷ [])
      (λ p.
        if hs.dlen == 0
        then (hs, xtcp_complete_send ∷ xtcp_close ∷ [])
        else (moved mss p hs, xtcp_send (page_bytes p (segment_len mss hs)) ∷ [])))

close_step :
    (e : Event) (mss p : ℕ) (hs : HttpdState)
    → is_resend e ≡ false
    → hs.dptr ≡ some p
    → (hs.dlen == 0) ≡ true
    → send_state e mss hs ≡ some (hs, xtcp_complete_send ∷ xtcp_close ∷ [])
unfolding send_state send_more
close_step e mss p hs r pointer z = rw r (ap (more_from mss hs) pointer ∙ rw z refl)

more_step :
    (e : Event) (mss p : ℕ) (hs : HttpdState)
    → is_resend e ≡ false
    → hs.dptr ≡ some p
    → (hs.dlen == 0) ≡ false
    → send_state e mss hs
      ≡ some (moved mss p hs, xtcp_send (page_bytes p (segment_len mss hs)) ∷ [])
unfolding send_state send_more
more_step e mss p hs r pointer z = rw (r, pointer, z) refl

-- a peer with a segment on its way
abbrev awaiting : List ℕ → List ℕ → Peer
awaiting accepted bytes = record { accepted = accepted; in_flight = bytes; is_closed = false }

resent-Underway :
    (p : ℕ) (hs : HttpdState) (q : Peer)
    → Underway p hs q
    → Underway p hs (awaiting q.accepted (page_bytes hs.prev_dptr (p - hs.prev_dptr)))
resent-Underway p hs q u = record {
  pointer = u.pointer;
  behind = u.behind;
  left = u.left;
  taken = u.taken;
  flying = refl;
  open_ = refl;
}

segment_len-dlen : (mss : ℕ) (hs : HttpdState) → segment_len mss hs ≤ hs.dlen
segment_len-dlen mss hs = ground arith

segment_len-positive : (mss : ℕ) (hs : HttpdState) → 0 < mss → 0 < hs.dlen → 0 < segment_len mss hs
segment_len-positive mss hs m h = ground (arith, m, h)

moved-Underway :
    (mss p : ℕ) (hs : HttpdState)
    → p + hs.dlen ≡ length page
    → Underway
        (p + segment_len mss hs)
        (moved mss p hs)
        (awaiting (take p page) (page_bytes p (segment_len mss hs)))
moved-Underway mss p hs l = record {
  pointer = refl;
  behind = omega arith;
  left = omega (arith, l, segment_len-dlen mss hs);
  taken = refl;
  flying = ap (page_bytes p) (omega arith);
  open_ = refl;
}

delivered :
    (mss p : ℕ) (es : List Event) (hs : HttpdState) (q : Peer)
    → 0 < mss
    → Underway p hs q
    → hs.dlen < acknowledged es
    → Delivered mss es hs q
unfolding serve_events Delivered
delivered mss p [] hs q m u h = absurd (omega (arith, h))
delivered mss p (e ∷ es) hs q m u h = elim (Bool-cases (is_resend e)) [
  | inl r ↦
      let fewer : hs.dlen < acknowledged es = ground (arith, h, r) in
      rw (u.open_, resend_step e mss p hs r u.pointer, r)
        (delivered mss p es hs _ m (resent-Underway p hs q u) fewer)
  | inr r ↦ elim (Bool-cases (hs.dlen == 0)) [
    | inl z ↦
        let all : q.accepted ++ q.in_flight ≡ page =
          received_all p hs q u ∙ take-length p page (ground (arith, z, u.left)) in
        let next : Peer = record { accepted = page; in_flight = []; is_closed = true } in
        rw (u.open_, close_step e mss p hs r u.pointer z, r, all)
          (next, serve_events-closed mss es hs next refl, refl, refl)
    | inr z ↦
        let some_len = segment_len-positive mss hs m (ground (arith, z)) in
        let fewer : hs.dlen - segment_len mss hs < acknowledged es =
          ground (arith, h, r, some_len, segment_len-dlen mss hs) in
        rw (u.open_, more_step e mss p hs r u.pointer z, r, received_all p hs q u)
          (delivered mss (p + segment_len mss hs) es (moved mss p hs) _ m
            (moved-Underway mss p hs u.left) fewer)
  ]
]

page_long : 0 < length page
unfolding page
page_long = omega arith

pub parsed :
    (received : List ℕ) (hs : HttpdState)
    → hs.dptr ≡ none
    → same_bytes (take 4 received) get_text ≡ true
    → parse_http_request hs received ≡ record hs { dptr = some 0; dlen = length page }
unfolding parse_http_request
parsed received hs null get =
    let idle : is_none hs.dptr ≡ true = ap is_none null in rw (idle, get) refl

abbrev pub no_peer : Peer
no_peer = record { accepted = []; in_flight = []; is_closed = false }

-- A connection that waits for a request gets one that begins with "GET ": when its data is then asked
-- for, any events of `httpd_send` follow, each a resend of a lost segment or the acknowledgement of
-- the last one, and at least as many acknowledgements as the page has bytes, the other end has the
-- page, each byte once and in order, and the connection is closed. This holds for any positive mss.
pub serve_events-page :
    (mss : ℕ) (received : List ℕ) (es : List Event) (hs : HttpdState)
    → 0 < mss
    → hs.dptr ≡ none
    → same_bytes (take 4 received) get_text ≡ true
    → length page ≤ acknowledged es
    → (r : Peer) × (serve_events mss (request_data ∷ es) (parse_http_request hs received) no_peer
        ≡ some r)
      × (r.accepted ≡ page)
      × (r.is_closed ≡ true)
unfolding serve_events Delivered
serve_events-page mss received es hs m null get enough =
    let start : HttpdState = record hs { dptr = some 0; dlen = length page } in
    let some_len = segment_len-positive mss start m page_long in
    rw
      (
        parsed received hs null get,
        more_step request_data mss 0 start refl refl (ground (arith, page_long)),
      )
      (delivered mss (0 + segment_len mss start) es (moved mss 0 start) _ m
        (moved-Underway mss 0 start (omega arith))
        (omega (arith, enough, some_len, segment_len-dlen mss start)))
