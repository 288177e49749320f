-- ===== src/Demo/Frames.antt =====
-- The messages that are processed against the frames of the stream.
use sc_xtcp.Base.{
  List, Option, [], if◌then◌else◌, length, none, some, true, ℕ, ◌++◌, ◌+◌, ◌<◌, ◌∷◌, ◌≡◌, ◌≤◌, ◌⊎◌,
}
use sc_xtcp.Buffered.{RxInfo, client_buf_size}
use sc_xtcp.Buffered.Receive.{IsValid, unread}
use sc_xtcp.Demo.{Action, Link, abort}
use sc_xtcp.Demo.Framed.{Peer, max_msg_size, process_message, protocol_recv}

-- How a stream of frames ends: in the middle of a frame, with the length of its message if the header
-- was read, or in a header that is refused.
pub data End : Type 0 where
  waits : Option ℕ → List ℕ → End
  refused_header : List ℕ → End

-- A stream cut into messages: each has a header with its length, which is 1 to 100.
pub data Frames : Option ℕ → List ℕ → List (List ℕ) → End → Type 0 where
  no_header : Frames none [] [] (waits none [])
  bad_header :
      {h : ℕ} {bs : List ℕ} → (h ≡ 0) ⊎ (100 < h) → Frames none (h ∷ bs) [] (refused_header bs)
  good_header :
      {h : ℕ} {bs : List ℕ} {ms : List (List ℕ)} {e : End}
      → 0 < h
      → h ≤ 100
      → Frames (some h) bs ms e
      → Frames none (h ∷ bs) ms e
  whole :
      {n : ℕ} {m bs : List ℕ} {ms : List (List ℕ)} {e : End}
      → length m ≡ n
      → Frames none bs ms e
      → Frames (some n) (m ++ bs) (m ∷ ms) e
  partial : {n : ℕ} {bs : List ℕ} → length bs < n → Frames (some n) bs [] (waits (some n) bs)

abbrev pub end_actions : End → List Action → List Action
end_actions (waits x rest) before = before
end_actions (refused_header rest) before = abort ∷ before

-- Messages are processed one after the other, each handed over with what is behind it in the buffer,
-- and at a refused header the connection is aborted.
abbrev pub Handled : List (List ℕ) → End → Link → Link → Type 0
Handled [] e s t = (t.tx ≡ s.tx) × (t.actions ≡ end_actions e s.actions)
Handled (m ∷ ms) e s t = (behind : List ℕ) × Handled ms e (process_message (m ++ behind) s) t

abbrev pub expected : Peer → Option ℕ
expected s = if s.got_header then some s.len else none

-- what the connection waits with
abbrev pub Ended : End → Peer → Type 0
Ended (waits x rest) t =
    (expected t ≡ x) × (unread t.link.rx ≡ rest) × (t.link.rx.rx_new_event ≡ true)
Ended (refused_header rest) t = unread t.link.rx ≡ rest

-- A valid receive buffer that holds a message and an event, and a length that was tested.
pub record IsReady (s : Peer) : Type 0 where
  pub valid : IsValid s.link.rx
  pub large : client_buf_size + max_msg_size ≤ s.link.rx.rx_end
  pub tested : s.got_header ≡ true → (0 < s.len) × (s.len ≤ max_msg_size)

pub stays-IsReady :
    (s t : Peer)
    → IsReady s
    → IsValid t.link.rx
    → t.link.rx.rx_end ≡ s.link.rx.rx_end
    → (t.got_header ≡ true → (0 < t.len) × (t.len ≤ max_msg_size))
    → IsReady t
stays-IsReady s t w v e h = record { valid = v; large = rw e w.large; tested = h }

pub Handled-rx :
    (ms : List (List ℕ)) (e : End) (s t : Link) (b : RxInfo)
    → Handled ms e (record s { rx = b }) t
    → Handled ms e s t
unfolding process_message
Handled-rx [] e s t b h = h
Handled-rx (m ∷ ms) e s t b (behind, h) =
    (behind, Handled-rx ms e (process_message (m ++ behind) s) t b h)

-- a run of the loop, which ends with the connection as ready as before
abbrev pub FramedRun : ℕ → List ℕ → Peer → List ℕ → Type 0
FramedRun fuel incoming s bytes =
    (ms : List (List ℕ)) × (e : End) × (t : Peer) × Frames (expected s) bytes ms e
    × (protocol_recv fuel incoming s ≡ some t)
    × Handled ms e s.link t.link
    × Ended e t
    × IsReady t
    × (t.link.rx.rx_end ≡ s.link.rx.rx_end)
