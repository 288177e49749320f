-- ===== src/Demo/Kept.antt =====
-- What each event of a connection does to the entries and their owners.
use mathlib.Core.Path.{subst}
use sc_xtcp.Buffered.Receive.{pending}
use sc_xtcp.Base.{
  Bool, List, Option, Option-cases, ap, arith, false, get_elem?, inl, inr, length, none, on_some,
  refl, some, sym, true, ℕ, ◌+◌, ◌>>=◌, ◌∙◌, ◌∷◌, ◌≡◌, ◌≢◌,
}
use sc_xtcp.Server.{
  Event, aborted, already_handled, closed, ifdown, ifup, new_connection, poll, recv_data,
  request_data, resend_data, sent_data, set_appstate, timed_out,
}
use sc_xtcp.Demo.Pool.{
  Pool, PoolCall, PoolConn, ProtocolState, add_call, deactivate, find_free, free_state, ignore_recv,
  ignore_send, init_state, is_relevant, on_send, open_slot, pool_event, recv_slot, send_slot,
  set_appstate, update,
}
use sc_xtcp.Demo.Slots.{
  IsOwned, Live, close-IsOwned, find_free-inactive, open-IsOwned, placeless-IsOwned, put_live,
  set-IsOwned,
}
use sc_xtcp.Demo.OnPool.{OnPool, update-OnPool}
use sc_xtcp.Demo.Framed.{Peer, protocol_recv}

-- the application state that a handler set
abbrev pub given : List PoolCall → Option ℕ
given (set_appstate id i ∷ cs) = some i
given _ = none

-- the events that end a connection
abbrev pub ends : Event → Bool
ends timed_out = true
ends aborted = true
ends closed = true
ends _ = false

-- a new connection
pub init_state-OnPool :
    (live : Live) (id timestamp : ℕ) (p : Pool)
    → IsOwned live p.slots
    → live id ≡ none
    → OnPool
        (λ q. IsOwned (put_live id (some (given q.calls)) live) q.slots)
        (init_state id timestamp p)
unfolding init_state
init_state-OnPool live id timestamp p w n = elim (Option-cases (find_free p.slots 0)) [
  | inl e ↦ rw e (placeless-IsOwned live p.slots id none (some none) w n (λ i x. cc) (λ i x. cc))
  | inr (i, e) ↦
      let (j, k, s, g, a) = find_free-inactive p.slots 0 i e in
      rw e (
        update-OnPool (λ q. IsOwned (put_live id (some (given q.calls)) live) q.slots) i
          (λ s. some (open_slot id timestamp s)) (add_call (set_appstate id i) p)
          λ u t x y.
            let q : open_slot id timestamp u ≡ t = cc in
            let same : i ≡ j = omega (arith, k) in
            open-IsOwned live p.slots id i s t w n
              (subst (λ z. get_elem? p.slots z ≡ some s) (sym same) g) a
              (sym (ap (λ z. z.active) q)) (sym (ap (λ z. z.conn_id) q)))
]

-- an entry that is changed in place
change-OnPool :
    (live : Live) (i : ℕ) (f : ProtocolState → Option ProtocolState) (p : Pool)
    → ((s t : ProtocolState) → f s ≡ some t → (t.active ≡ s.active) × (t.conn_id ≡ s.conn_id))
    → IsOwned live p.slots
    → OnPool (λ q. IsOwned live q.slots) (update i f p)
change-OnPool live i f p k w =
    update-OnPool (λ q. IsOwned live q.slots) i f p
      (λ s t g e. set-IsOwned live p.slots i s t w g (k s t e).0 (k s t e).1)

keeps_of :
    (u s t : ProtocolState)
    → some u ≡ some t
    → u.active ≡ s.active
    → u.conn_id ≡ s.conn_id
    → (t.active ≡ s.active) × (t.conn_id ≡ s.conn_id)
keeps_of u s t e a c =
    let r : u ≡ t = cc in (sym (ap (λ z. z.active) r) ∙ a, sym (ap (λ z. z.conn_id) r) ∙ c)

recv_slot-keeps :
    (timestamp : ℕ) (incoming : List ℕ) (s t : ProtocolState)
    → recv_slot timestamp incoming s ≡ some t
    → (t.active ≡ s.active) × (t.conn_id ≡ s.conn_id)
unfolding recv_slot
recv_slot-keeps timestamp incoming s t e =
    go (protocol_recv (length (pending incoming s.peer.link.rx) + 1) incoming s.peer) e
  where
    go :
        (m : Option Peer)
        → (m >>= λ q. some (record s { last_used = timestamp; peer = q })) ≡ some t
        → (t.active ≡ s.active) × (t.conn_id ≡ s.conn_id)
    go none h = absurd cc
    go (some q) h = keeps_of (record s { last_used = timestamp; peer = q }) s t h refl refl

send_slot-keeps :
    (timestamp : ℕ) (resend : Bool) (mss : ℕ) (s t : ProtocolState)
    → send_slot timestamp resend mss s ≡ some t
    → (t.active ≡ s.active) × (t.conn_id ≡ s.conn_id)
unfolding send_slot
send_slot-keeps timestamp resend mss s t e = keeps_of _ s t e refl refl

on_send-OnPool :
    (live : Live) (c : PoolConn) (resend : Bool) (timestamp : ℕ) (p : Pool)
    → IsOwned live p.slots
    → OnPool (λ q. IsOwned live q.slots) (on_send c resend timestamp p)
on_send-OnPool live c resend timestamp p w = with_state c.appstate
  where
    with_state :
        (a : Option ℕ)
        → OnPool
            (λ q. IsOwned live q.slots)
            (on_some a
              (some (add_call ignore_send p))
              (λ i. update i (send_slot timestamp resend c.mss) p))
    with_state none = w
    with_state (some i) =
        change-OnPool live i (send_slot timestamp resend c.mss) p
          (send_slot-keeps timestamp resend c.mss) w

receive-OnPool :
    (live : Live) (c : PoolConn) (timestamp : ℕ) (p : Pool)
    → IsOwned live p.slots
    → (a : Option ℕ)
    → OnPool
        (λ q. IsOwned live q.slots)
        (on_some a
          (some (add_call ignore_recv p))
          (λ i. update i (recv_slot timestamp c.incoming) p))
receive-OnPool live c timestamp p w none = w
receive-OnPool live c timestamp p w (some i) =
    change-OnPool live i (recv_slot timestamp c.incoming) p (recv_slot-keeps timestamp c.incoming) w

-- an event that does not begin or end a connection
pub serve-OnPool :
    (live : Live) (c : PoolConn) (ev : Event) (timestamp : ℕ) (p : Pool)
    → ev ≢ new_connection
    → ends ev ≡ false
    → IsOwned live p.slots
    → OnPool (λ q. IsOwned live q.slots) (pool_event c ev timestamp p)
unfolding pool_event
serve-OnPool live c new_connection timestamp p n h w = absurd (n refl)
serve-OnPool live c recv_data timestamp p n h w = receive-OnPool live c timestamp p w c.appstate
serve-OnPool live c sent_data timestamp p n h w = on_send-OnPool live c false timestamp p w
serve-OnPool live c request_data timestamp p n h w = on_send-OnPool live c false timestamp p w
serve-OnPool live c resend_data timestamp p n h w = on_send-OnPool live c true timestamp p w
serve-OnPool live c timed_out timestamp p n h w = absurd cc
serve-OnPool live c aborted timestamp p n h w = absurd cc
serve-OnPool live c closed timestamp p n h w = absurd cc
serve-OnPool live c poll timestamp p n h w = w
serve-OnPool live c ifup timestamp p n h w = w
serve-OnPool live c ifdown timestamp p n h w = w
serve-OnPool live c already_handled timestamp p n h w = w

free_state-OnPool :
    (live : Live) (id : ℕ) (a : Option ℕ) (p : Pool)
    → IsOwned live p.slots
    → live id ≡ some a
    → OnPool (λ q. IsOwned (put_live id none live) q.slots) (free_state a p)
unfolding free_state
free_state-OnPool live id none p w n =
    placeless-IsOwned live p.slots id (some none) none w n (λ i x. cc) (λ i x. cc)
free_state-OnPool live id (some i) p w n =
    update-OnPool (λ q. IsOwned (put_live id none live) q.slots) i (λ s. some (deactivate s)) p
      λ s t g e.
        let r : deactivate s ≡ t = cc in
        close-IsOwned live p.slots id i s t w n g (sym (ap (λ z. z.active) r))

pub leave-OnPool :
    (live : Live) (c : PoolConn) (ev : Event) (timestamp : ℕ) (p : Pool)
    → ends ev ≡ true
    → IsOwned live p.slots
    → live c.id ≡ some c.appstate
    → OnPool (λ q. IsOwned (put_live c.id none live) q.slots) (pool_event c ev timestamp p)
      × (is_relevant ev ≡ true)
unfolding pool_event
leave-OnPool live c timed_out timestamp p h w n =
    (free_state-OnPool live c.id c.appstate p w n, refl)
leave-OnPool live c aborted timestamp p h w n = (free_state-OnPool live c.id c.appstate p w n, refl)
leave-OnPool live c closed timestamp p h w n = (free_state-OnPool live c.id c.appstate p w n, refl)
leave-OnPool live c new_connection timestamp p h w n = absurd cc
leave-OnPool live c recv_data timestamp p h w n = absurd cc
leave-OnPool live c sent_data timestamp p h w n = absurd cc
leave-OnPool live c request_data timestamp p h w n = absurd cc
leave-OnPool live c resend_data timestamp p h w n = absurd cc
leave-OnPool live c poll timestamp p h w n = absurd cc
leave-OnPool live c ifup timestamp p h w n = absurd cc
leave-OnPool live c ifdown timestamp p h w n = absurd cc
leave-OnPool live c already_handled timestamp p h w n = absurd cc
