-- ===== src/Demo/Served.antt =====
-- The demo server over all events: each is handled.
use mathlib.Core.Path.{subst}
use sc_xtcp.Base.{
  Bool, Bool-cases, List, Option, false, inl, inr, length, none, on_some, refl, some, true, ℕ, ◌&&◌,
  ◌==◌, ◌≡◌, ◌≤◌, ◌⊎◌,
}
use sc_xtcp.Buffered.{client_buf_size}
use sc_xtcp.Server.{
  Event, aborted, already_handled, closed, ifdown, ifup, new_connection, poll, recv_data,
  request_data, resend_data, sent_data, timed_out,
}
use sc_xtcp.Demo.Pool.{
  Pool, PoolConn, add_call, deactivate, demo_port, demo_protocol_handle_event, free_state,
  ignore_recv, ignore_send, is_relevant, pool_event, recv_slot, send_slot, update,
}
use sc_xtcp.Demo.Slots.{IsOwned, Live}
use sc_xtcp.Demo.OnPool.{Handles}
use sc_xtcp.Demo.Owners.{
  Owned, Reach, Reach-Owned, Step, World, here, leaves, next, opens, serves, ticks,
}
use sc_xtcp.Demo.Total.{
  AllKept, Leaves, init_state-Leaves, recv_slot-IsKept, send_slot-IsKept, update-Leaves,
}

free_state-Leaves :
    (live : Live) (id : ℕ) (a : Option ℕ) (p : Pool)
    → IsOwned live p.slots
    → AllKept p.slots
    → live id ≡ some a
    → Leaves (free_state a p)
unfolding free_state
free_state-Leaves live id none p o k l = (p, refl, k)
free_state-Leaves live id (some i) p o k l =
    let (s, g, a, n) = o.owner id i l in
    let old = k i s g in
    update-Leaves i (λ u. some (deactivate u)) p s (deactivate s) k g refl
      (record { memory = old.memory; ready = λ b. old.ready a })

on_send-Leaves :
    (live : Live) (id : ℕ) (a : Option ℕ) (resend : Bool) (mss timestamp : ℕ) (p : Pool)
    → IsOwned live p.slots
    → AllKept p.slots
    → live id ≡ some a
    → Leaves (
        on_some a
          (some (add_call ignore_send p))
          (λ i. update i (send_slot timestamp resend mss) p))
on_send-Leaves live id none resend mss timestamp p o k l = (_, refl, k)
on_send-Leaves live id (some i) resend mss timestamp p o k l =
    let (s, g, a, n) = o.owner id i l in
    let (t, e, h) = send_slot-IsKept timestamp resend mss s (k i s g) in
    update-Leaves i (send_slot timestamp resend mss) p s t k g e h

receive-Leaves :
    (live : Live) (id : ℕ) (a : Option ℕ) (incoming : List ℕ) (timestamp : ℕ) (p : Pool)
    → IsOwned live p.slots
    → AllKept p.slots
    → live id ≡ some a
    → length incoming ≤ client_buf_size
    → Leaves
        (on_some a (some (add_call ignore_recv p)) (λ i. update i (recv_slot timestamp incoming) p))
receive-Leaves live id none incoming timestamp p o k l h = (_, refl, k)
receive-Leaves live id (some i) incoming timestamp p o k l h =
    let (s, g, a, n) = o.owner id i l in
    let (t, e, v) = recv_slot-IsKept timestamp incoming s (k i s g) a h in
    update-Leaves i (recv_slot timestamp incoming) p s t k g e v

-- A new connection, or one that is open with this application state.
abbrev pub Known : Live → PoolConn → Type 0
Known live c = (c.event ≡ new_connection) ⊎ (live c.id ≡ some c.appstate)

pool_event-Leaves :
    (live : Live) (c : PoolConn) (ev : Event) (timestamp : ℕ) (p : Pool)
    → IsOwned live p.slots
    → AllKept p.slots
    → (ev ≡ new_connection) ⊎ (live c.id ≡ some c.appstate)
    → length c.incoming ≤ client_buf_size
    → Leaves (pool_event c ev timestamp p)
unfolding pool_event
pool_event-Leaves live c new_connection timestamp p o k l h = init_state-Leaves c.id timestamp p k
pool_event-Leaves live c recv_data timestamp p o k (inr l) h =
    receive-Leaves live c.id c.appstate c.incoming timestamp p o k l h
pool_event-Leaves live c sent_data timestamp p o k (inr l) h =
    on_send-Leaves live c.id c.appstate false c.mss timestamp p o k l
pool_event-Leaves live c request_data timestamp p o k (inr l) h =
    on_send-Leaves live c.id c.appstate false c.mss timestamp p o k l
pool_event-Leaves live c resend_data timestamp p o k (inr l) h =
    on_send-Leaves live c.id c.appstate true c.mss timestamp p o k l
pool_event-Leaves live c timed_out timestamp p o k (inr l) h =
    free_state-Leaves live c.id c.appstate p o k l
pool_event-Leaves live c aborted timestamp p o k (inr l) h =
    free_state-Leaves live c.id c.appstate p o k l
pool_event-Leaves live c closed timestamp p o k (inr l) h =
    free_state-Leaves live c.id c.appstate p o k l
pool_event-Leaves live c poll timestamp p o k l h = (p, refl, k)
pool_event-Leaves live c ifup timestamp p o k l h = (p, refl, k)
pool_event-Leaves live c ifdown timestamp p o k l h = (p, refl, k)
pool_event-Leaves live c already_handled timestamp p o k l h = (p, refl, k)
pool_event-Leaves live c _ timestamp p o k (inl e) h = absurd cc

-- What an event of such a connection leaves.
handle_event-Leaves :
    (w : World) (c : PoolConn) (timestamp : ℕ)
    → Owned w
    → AllKept w.pool.slots
    → Known w.live c
    → length c.incoming ≤ client_buf_size
    → (q : Pool) × Handles c timestamp w.pool q × AllKept q.slots
unfolding demo_protocol_handle_event
handle_event-Leaves w c timestamp o k l h =
    let (q, e, v) = pool_event-Leaves w.live c c.event timestamp w.pool o k l h in
    elim (Bool-cases (is_relevant c.event && c.local_port == demo_port)) [
      | inl b ↦ (q, (already_handled, rw (b, e) refl), v)
      | inr b ↦ (w.pool, (c.event, rw b refl), k)
    ]

same_pool :
    (m : Option (Pool × Event)) (q r : Pool) (a b : Event)
    → m ≡ some (q, a)
    → m ≡ some (r, b)
    → q ≡ r
same_pool m q r a b e f = cc

-- An event is handled in one way.
Handles-unique :
    (c : PoolConn) (timestamp : ℕ) (p q r : Pool)
    → Handles c timestamp p q
    → Handles c timestamp p r
    → q ≡ r
Handles-unique c timestamp p q r (a, e) (b, f) = same_pool _ q r a b e f

handled-AllKept :
    (w : World) (c : PoolConn) (timestamp : ℕ) (p : Pool)
    → Owned w
    → AllKept w.pool.slots
    → Known w.live c
    → length c.incoming ≤ client_buf_size
    → Handles c timestamp w.pool p
    → AllKept p.slots
handled-AllKept w c timestamp p o k l h e =
    let (q, f, v) = handle_event-Leaves w c timestamp o k l h in
    subst (λ x. AllKept x.slots) (Handles-unique c timestamp w.pool q p f e) v

Step-AllKept : {w v : World} → Step w v → Owned w → AllKept w.pool.slots → AllKept v.pool.slots
Step-AllKept (opens {w} {p} c timestamp e l n b h) o k =
    handled-AllKept w c timestamp p o k (inl e) b h
Step-AllKept (serves {w} {p} c timestamp n e l b h) o k =
    handled-AllKept w c timestamp p o k (inr l) b h
Step-AllKept (leaves {w} {p} c timestamp e n l b h) o k =
    handled-AllKept w c timestamp p o k (inr l) b h
Step-AllKept (ticks timer_khz t) o k = k

Reach-AllKept : {w v : World} → Owned w → AllKept w.pool.slots → Reach w v → AllKept v.pool.slots
Reach-AllKept o k here = k
Reach-AllKept o k (next r st) = Step-AllKept st (Reach-Owned o r).0 (Reach-AllKept o k r)

-- Over every sequence of events that the xtcp server can send, in which an open connection's id is its
-- own and its application state comes back as it was set, from entries whose receive buffers have
-- their size, and are ready where the entry is taken: an event of a new or an open connection is
-- handled, that is, the loop over the bytes at hand ends and each entry that is used is there; an open
-- connection with an application state has an active entry with its id, every active entry belongs to
-- one open connection, and so no two connections share an entry with its buffers, and none stays taken.
pub Reach-handled :
    {w v : World} (c : PoolConn) (timestamp : ℕ)
    → Owned w
    → AllKept w.pool.slots
    → Reach w v
    → Known v.live c
    → length c.incoming ≤ client_buf_size
    → ((p : Pool) × Handles c timestamp v.pool p)
      × Owned v
      × ((a b i : ℕ) → v.live a ≡ some (some i) → v.live b ≡ some (some i) → a ≡ b)
Reach-handled {w} {v} c timestamp o k r l h =
    let owns = Reach-Owned o r in
    let (p, e, x) = handle_event-Leaves v c timestamp owns.0 (Reach-AllKept o k r) l h in
    ((p, e), owns.0, owns.1)
