-- ===== src/Demo/Framed.antt =====
-- Messages behind a header of one byte: `demo_protocol_recv` of app_buffered_protocol_demo, with
-- `decode_demo_protocol_header` and `demo_protocol_process_message`. A `char` of 128 or more is over
-- the greatest length, or below 0 where `char` is signed: it is refused in both.
use sc_xtcp.Base.{
  Bool, List, Option, [], drop, false, get_or, if◌then◌else◌, ltb, none, not, some, suc, true, zero,
  ℕ, ◌==◌, ◌||◌, ◌∷◌,
}
use sc_xtcp.Buffered.{Received, recv, send}
use sc_xtcp.Buffered.Receive.{delivered}
use sc_xtcp.Demo.{Link, abort, client, print, print_overflow}

abbrev pub hdr_size : ℕ
hdr_size = 1

abbrev pub max_msg_size : ℕ
max_msg_size = 100

-- what `demo_protocol_state_t` holds of a connection's messages
pub record Peer : Type 0 where
  pub link : Link
  pub got_header : Bool
  pub len : ℕ

abbrev pub decode_header : List ℕ → ℕ
decode_header hdr = get_or hdr 0 0

abbrev pub reply : List ℕ
reply = 0 ∷ 1 ∷ 2 ∷ 3 ∷ 4 ∷ 5 ∷ 6 ∷ []

-- `demo_protocol_process_message`: `msg` is the buffer from the pointer on.
unfoldable pub process_message : List ℕ → Link → Link
process_message msg s =
    let r = send s.tx reply in
    let sent = client r.2 ∷ print (drop 1 msg) ∷ s.actions in
    record s { tx = r.0; actions = if not r.1 then print_overflow ∷ sent else sent }

-- the buffer from a pointer on
abbrev pub bytes_from : Option ℕ → List ℕ → List ℕ
bytes_from none mem = []
bytes_from (some p) mem = drop p mem

abbrev pub store_rx : Received → Peer → Peer
store_rx r s = record s { link = record s.link { rx = r.info } }

abbrev pub abort_peer : Peer → Peer
abort_peer s = record s { link = record s.link { actions = abort ∷ s.link.actions } }

-- The length in the header is tested.
unfoldable pub take_header : List ℕ → Peer → Bool × Peer
take_header hdr s =
    let s1 = record s { len = decode_header hdr } in
    if s1.len == 0 || ltb max_msg_size s1.len
    then (false, abort_peer s1)
    else (true, record s1 { got_header = true })

-- A round of the loop without a header, and whether another follows.
unfoldable pub read_header : List ℕ → Peer → Bool × Peer
read_header incoming s =
    let r = recv incoming s.link.rx hdr_size in
    let s1 = store_rx r s in
    if r.overflow
    then (false, abort_peer s1)
    else if ltb 0 r.len
    then take_header (delivered r) s1
    else (false, s1)

-- A round of the loop with a header.
unfoldable pub read_message : List ℕ → Peer → Bool × Peer
read_message incoming s =
    let r = recv incoming s.link.rx s.len in
    let s1 = store_rx r s in
    if r.overflow
    then (false, abort_peer s1)
    else if ltb 0 r.len
    then (
      true,
      record s1 {
        link = process_message (bytes_from r.buf r.info.mem) s1.link;
        got_header = false;
      },
    )
    else (false, s1)

-- `demo_protocol_recv`: the loop, on fuel. `incoming` is what the server hands over when it is asked.
unfoldable pub protocol_recv : ℕ → List ℕ → Peer → Option Peer
protocol_recv zero incoming s = none
protocol_recv (suc fuel) incoming s =
    let r = if not s.got_header then read_header incoming s else read_message incoming s in
    let rest = protocol_recv fuel incoming r.1 in if r.0 then rest else some r.1
