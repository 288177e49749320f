-- ===== src/Httpd.antt =====
-- app_simple_webserver/src/httpd.c, a web server with one page. A pointer into the page is its
-- position, and a pointer to a connection's state the state's position in `connection_states`.
pub mod Delivery
pub mod Connection
mod Tests
use sc_xtcp.Base.{
  Bool, List, Option, [], drop, false, get_elem?, if◌then◌else◌, length, ltb, map, none, not,
  on_some, set, some, take, true, ℕ, ◌&&◌, ◌+◌, ◌-◌, ◌==◌, ◌>>=◌, ◌||◌, ◌∷◌,
}
use sc_xtcp.Server.{
  Event, aborted, already_handled, closed, ifdown, ifup, new_connection, recv_data, request_data,
  resend_data, sent_data, timed_out,
}

-- `page`, without the null byte
unfoldable pub page : List ℕ
page =
    72 ∷ 84 ∷ 84 ∷ 80 ∷ 47 ∷ 49 ∷ 46 ∷ 48 ∷ 32 ∷ 50 ∷ 48 ∷ 48 ∷ 32 ∷ 79 ∷ 75 ∷ 10 ∷ 83 ∷ 101 ∷ 114
    ∷ 118 ∷ 101 ∷ 114 ∷ 58 ∷ 32 ∷ 120 ∷ 99 ∷ 50 ∷ 47 ∷ 112 ∷ 114 ∷ 101 ∷ 45 ∷ 49 ∷ 46 ∷ 48 ∷ 32 ∷ 40
    ∷ 104 ∷ 116 ∷ 116 ∷ 112 ∷ 58 ∷ 47 ∷ 47 ∷ 120 ∷ 109 ∷ 111 ∷ 115 ∷ 46 ∷ 99 ∷ 111 ∷ 109 ∷ 41 ∷ 10
    ∷ 67 ∷ 111 ∷ 110 ∷ 116 ∷ 101 ∷ 110 ∷ 116 ∷ 45 ∷ 116 ∷ 121 ∷ 112 ∷ 101 ∷ 58 ∷ 32 ∷ 116 ∷ 101
    ∷ 120 ∷ 116 ∷ 47 ∷ 104 ∷ 116 ∷ 109 ∷ 108 ∷ 10 ∷ 10 ∷ 60 ∷ 33 ∷ 68 ∷ 79 ∷ 67 ∷ 84 ∷ 89 ∷ 80 ∷ 69
    ∷ 32 ∷ 104 ∷ 116 ∷ 109 ∷ 108 ∷ 62 ∷ 10 ∷ 60 ∷ 104 ∷ 116 ∷ 109 ∷ 108 ∷ 62 ∷ 60 ∷ 104 ∷ 101 ∷ 97
    ∷ 100 ∷ 62 ∷ 60 ∷ 116 ∷ 105 ∷ 116 ∷ 108 ∷ 101 ∷ 62 ∷ 72 ∷ 101 ∷ 108 ∷ 108 ∷ 111 ∷ 32 ∷ 119 ∷ 111
    ∷ 114 ∷ 108 ∷ 100 ∷ 60 ∷ 47 ∷ 116 ∷ 105 ∷ 116 ∷ 108 ∷ 101 ∷ 62 ∷ 60 ∷ 47 ∷ 104 ∷ 101 ∷ 97 ∷ 100
    ∷ 62 ∷ 10 ∷ 60 ∷ 98 ∷ 111 ∷ 100 ∷ 121 ∷ 62 ∷ 72 ∷ 101 ∷ 108 ∷ 108 ∷ 111 ∷ 32 ∷ 87 ∷ 111 ∷ 114
    ∷ 108 ∷ 100 ∷ 33 ∷ 60 ∷ 47 ∷ 98 ∷ 111 ∷ 100 ∷ 121 ∷ 62 ∷ 60 ∷ 47 ∷ 104 ∷ 116 ∷ 109 ∷ 108 ∷ 62
    ∷ []

-- `httpd_state_t`, where a `dptr` that is NULL is `none`
pub record HttpdState : Type 0 where
  pub active : Bool
  pub conn_id : ℕ
  pub dptr : Option ℕ
  pub dlen : ℕ
  pub prev_dptr : ℕ

-- The fields of `xtcp_connection_t` that the server reads, with NULL as `none`.
pub record Conn : Type 0 where
  pub id : ℕ
  pub event : Event
  pub local_port : ℕ
  pub mss : ℕ
  pub appstate : Option ℕ

-- A call of the xtcp client.
pub data HttpdCall : Type 0 where
  xtcp_listen : ℕ → HttpdCall
  xtcp_init_send : HttpdCall
  xtcp_send : List ℕ → HttpdCall
  xtcp_complete_send : HttpdCall
  xtcp_close : HttpdCall
  xtcp_abort : HttpdCall
  xtcp_set_connection_appstate : ℕ → HttpdCall

-- The states, the connection and the calls behind an operation.
pub record Served : Type 0 where
  pub states : List HttpdState
  pub conn : Conn
  pub calls : List HttpdCall

-- `httpd_init`
unfoldable pub httpd_init : List HttpdState → List HttpdState × List HttpdCall
httpd_init states = (
  map {A = HttpdState} (λ s. record s { active = false; dptr = none }) states,
  xtcp_listen 80 ∷ [],
)

abbrev pub same_bytes : List ℕ → List ℕ → Bool
same_bytes [] [] = true
same_bytes [] (d ∷ ds) = false
same_bytes (c ∷ cs) [] = false
same_bytes (c ∷ cs) (d ∷ ds) = c == d && same_bytes cs ds

-- "GET "
abbrev pub get_text : List ℕ
get_text = 71 ∷ 69 ∷ 84 ∷ 32 ∷ []

abbrev pub is_none {ℓ} : {A : Type ℓ} → Option A → Bool
is_none none = true
is_none (some a) = false

-- `parse_http_request`
unfoldable pub parse_http_request : HttpdState → List ℕ → HttpdState
parse_http_request hs received =
    if not (is_none hs.dptr)
    then hs
    else if same_bytes (take 4 received) get_text
    then record hs { dptr = some 0; dlen = length page }
    else hs

-- `httpd_recv` where `xtcp_recv` has filled the array `received`
unfoldable pub httpd_recv : List ℕ → List HttpdState → Conn → Option Served
httpd_recv received states c =
    let nothing : Served = record { states = states; conn = c; calls = [] } in
    on_some c.appstate (some nothing) (λ i. get_elem? states i >>= λ hs.
    let parsed = parse_http_request hs received in
    some (
      if not (is_none hs.dptr) then nothing else record {
        states = set states i parsed;
        conn = c;
        calls = if is_none parsed.dptr then [] else xtcp_init_send ∷ [];
      }))

-- the bytes of the page from a position on
abbrev pub page_bytes : ℕ → ℕ → List ℕ
page_bytes from len = take len (drop from page)

abbrev pub is_resend : Event → Bool
is_resend resend_data = true
is_resend _ = false

-- The rest of `httpd_send`, behind the test for a resend, when the connection's mss is given.
unfoldable pub send_more : ℕ → HttpdState → HttpdState × List HttpdCall
send_more mss hs =
    on_some hs.dptr (hs, xtcp_complete_send ∷ xtcp_close ∷ [])
      (λ p.
        let len = if ltb mss hs.dlen then mss else hs.dlen in
        if hs.dlen == 0 then (hs, xtcp_complete_send ∷ xtcp_close ∷ []) else (
          record hs { prev_dptr = p; dptr = some (p + len); dlen = hs.dlen - len },
          xtcp_send (page_bytes p len) ∷ [],
        ))

-- `httpd_send` on the state. A resend before there is something to send reads from NULL.
unfoldable pub send_state : Event → ℕ → HttpdState → Option (HttpdState × List HttpdCall)
send_state e mss hs =
    if is_resend e
    then (hs.dptr >>= λ p. some (hs, xtcp_send (page_bytes hs.prev_dptr (p - hs.prev_dptr)) ∷ []))
    else some (send_more mss hs)

-- `httpd_send`; without a state it reads at NULL
unfoldable pub httpd_send : List HttpdState → Conn → Option Served
httpd_send states c = do
  i ← c.appstate
  hs ← get_elem? states i
  r ← send_state c.event c.mss hs
  some (record { states = set states i r.0; conn = c; calls = r.1 })

-- the first state that is not active, or the number of the states
abbrev pub free_slot : List HttpdState → ℕ
free_slot [] = 0
free_slot (s ∷ ss) = if s.active then free_slot ss + 1 else 0

-- `httpd_init_state`
unfoldable pub httpd_init_state : List HttpdState → Conn → Served
httpd_init_state states c =
    let i = free_slot states in
    on_some (get_elem? states i) (record { states = states; conn = c; calls = xtcp_abort ∷ [] })
      (λ s. record {
        states = set states i (record s { active = true; conn_id = c.id; dptr = none });
        conn = c;
        calls = xtcp_set_connection_appstate i ∷ [];
      })

-- `httpd_free_state`
unfoldable pub httpd_free_state : ℕ → List HttpdState → List HttpdState
httpd_free_state id states =
    map {A = HttpdState} (λ s. if s.conn_id == id then record s { active = false } else s) states

-- the switch of `httpd_handle_event` for a connection to port 80
unfoldable pub http_event : List ℕ → List HttpdState → Conn → Option Served
http_event received states c =
    let freed : Served = record { states = httpd_free_state c.id states; conn = c; calls = [] } in
    elim c.event [
      | new_connection ↦ some (httpd_init_state states c)
      | recv_data ↦ httpd_recv received states c
      | sent_data ↦ httpd_send states c
      | request_data ↦ httpd_send states c
      | resend_data ↦ httpd_send states c
      | timed_out ↦ some freed
      | aborted ↦ some freed
      | closed ↦ some freed
      | _ ↦ some (record { states = states; conn = c; calls = [] })
    ]

abbrev pub is_ignored : Event → Bool
is_ignored ifup = true
is_ignored ifdown = true
is_ignored already_handled = true
is_ignored _ = false

-- `httpd_handle_event`, but for the line it prints
unfoldable pub httpd_handle_event : List ℕ → List HttpdState → Conn → Option Served
httpd_handle_event received states c =
    if is_ignored c.event || not (c.local_port == 80)
    then some (record { states = states; conn = c; calls = [] })
    else (http_event received states c >>= λ r.
        some (record r { conn = record r.conn { event = already_handled } }))
