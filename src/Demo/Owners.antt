-- ===== src/Demo/Owners.antt =====
-- The entries of `connection_states` over all events that the xtcp server can send.
use mathlib.Core.Path.{subst}
use sc_xtcp.Base.{ap, false, length, none, some, sym, true, ℕ, ◌≡◌, ◌≢◌, ◌≤◌}
use sc_xtcp.Server.{new_connection}
use sc_xtcp.Buffered.{client_buf_size}
use sc_xtcp.Demo.Pool.{Pool, PoolConn, demo_port, demo_protocol_periodic, is_relevant, pool_event}
use sc_xtcp.Demo.Slots.{IsOwned, IsOwned-exclusive, Live, put_live}
use sc_xtcp.Demo.OnPool.{Handles, OnPool, handled-OnPool, kept-OnPool}
use sc_xtcp.Demo.Kept.{ends, given, init_state-OnPool, leave-OnPool, serve-OnPool}

-- The entries, and the open connections as the xtcp server knows them.
pub record World : Type 0 where
  pub pool : Pool
  pub live : Live

-- What can happen: a connection opens, with an id that no open connection has and no application
-- state; an event comes in for an open connection, with the application state that was set for it;
-- such an event ends the connection; the timer runs. An event has at most
-- XTCP_CLIENT_BUF_SIZE bytes to hand over.
pub data Step : World → World → Type 0 where
  opens :
      {w : World} {p : Pool} (c : PoolConn) (timestamp : ℕ)
      → c.event ≡ new_connection
      → c.local_port ≡ demo_port
      → w.live c.id ≡ none
      → length c.incoming ≤ client_buf_size
      → Handles c timestamp w.pool p
      → Step w (record { pool = p; live = put_live c.id (some (given p.calls)) w.live })
  serves :
      {w : World} {p : Pool} (c : PoolConn) (timestamp : ℕ)
      → c.event ≢ new_connection
      → ends c.event ≡ false
      → w.live c.id ≡ some c.appstate
      → length c.incoming ≤ client_buf_size
      → Handles c timestamp w.pool p
      → Step w (record { pool = p; live = w.live })
  leaves :
      {w : World} {p : Pool} (c : PoolConn) (timestamp : ℕ)
      → ends c.event ≡ true
      → c.local_port ≡ demo_port
      → w.live c.id ≡ some c.appstate
      → length c.incoming ≤ client_buf_size
      → Handles c timestamp w.pool p
      → Step w (record { pool = p; live = put_live c.id none w.live })
  ticks :
      {w : World} (timer_khz t : ℕ)
      → Step w (record w { pool = demo_protocol_periodic timer_khz t w.pool })

pub data Reach (w : World) : World → Type 0 where
  here : Reach w w
  next : {u v : World} → Reach w u → Step u v → Reach w v

abbrev pub Owned : World → Type 0
Owned w = IsOwned w.live w.pool.slots

Step-Owned : {w v : World} → Step w v → Owned w → Owned v
unfolding pool_event
Step-Owned (opens {w} c timestamp e l n b h) o =
    handled-OnPool (λ q. IsOwned (put_live c.id (some (given q.calls)) w.live) q.slots) c timestamp
      w.pool _ (ap is_relevant e) l
      (subst
        (λ ev.
          OnPool (λ q. IsOwned (put_live c.id (some (given q.calls)) w.live) q.slots)
            (pool_event c ev timestamp w.pool))
        (sym e) (init_state-OnPool w.live c.id timestamp w.pool o n))
      h
Step-Owned (serves {w} c timestamp n e l b h) o =
    kept-OnPool (λ q. IsOwned w.live q.slots) c timestamp w.pool _
      (serve-OnPool w.live c c.event timestamp w.pool n e o) o h
Step-Owned (leaves {w} c timestamp e p l b h) o =
    let (x, r) = leave-OnPool w.live c c.event timestamp w.pool e o l in
    handled-OnPool (λ q. IsOwned (put_live c.id none w.live) q.slots) c timestamp w.pool _ r p x h
Step-Owned (ticks timer_khz t) o = o

-- Over every sequence of events that the xtcp server can send, in which an open connection's id is its
-- own and its application state comes back as it was set: an open connection with an application
-- state has an active entry with its id, every active entry belongs to one open connection, and so
-- no two connections share an entry with its buffers, and none stays taken.
pub Reach-Owned :
    {w v : World}
    → Owned w
    → Reach w v
    → Owned v × ((a b i : ℕ) → v.live a ≡ some (some i) → v.live b ≡ some (some i) → a ≡ b)
Reach-Owned o here = (o, λ a b i. IsOwned-exclusive _ _ a b i o)
Reach-Owned o (next r st) =
    let x = Step-Owned st (Reach-Owned o r).0 in (x, λ a b i. IsOwned-exclusive _ _ a b i x)
