-- ===== src/Demo/PoolTests.antt =====
-- A connection that opens, and a message for it.
use sc_xtcp.Base.{
  [], arith, false, get_elem?, inr, none, refl, replicate, some, suc, true, zero, ℕ, ◌∷◌, ◌≡◌,
}
use mathlib.Core.Path.{subst}
use sc_xtcp.Server.{new_connection, recv_data, set_appstate}
use sc_xtcp.Demo.OnPool.{Handles}
use sc_xtcp.Demo.Total.{AllKept, IsKept}
use sc_xtcp.Demo.Served.{Reach-handled}
use sc_xtcp.Demo.Pool.{
  Pool, PoolConn, ProtocolState, demo_protocol_handle_event, find_free, init_state, open_slot,
  pool_event, set_appstate,
}
use sc_xtcp.Demo.Owners.{Owned, Reach, World, here, next, opens}
use sc_xtcp.Demo.Slots.{differ, put_live}

abbrev empty : ProtocolState
empty = record {
  active = false;
  last_used = 0;
  conn_id = 0;
  peer = record {
    link = record {
      rx = record {
        rx_new_event = true;
        mem = replicate 2048 0;
        rx_end = 0;
        rx_wrptr = 0;
        rx_rdptr = 0;
      };
      tx = record {
        mem = [];
        tx_end = 0;
        tx_rdptr = 0;
        tx_prev_rdptr = 0;
        tx_wrptr = 0;
        tx_lowmark = 0;
      };
      actions = [];
    };
    got_header = false;
    len = 0;
  };
}

abbrev start : World
start = record {
  pool = record { slots = empty ∷ empty ∷ empty ∷ []; calls = [] };
  live = λ k. none;
}

abbrev conn : PoolConn
conn = record {
  id = 7;
  event = new_connection;
  local_port = 15533;
  appstate = none;
  mss = 0;
  incoming = [];
}

abbrev opened : World
opened = record {
  pool = record { slots = open_slot 7 1 empty ∷ empty ∷ empty ∷ []; calls = set_appstate 7 0 ∷ [] };
  live = put_live 7 (some (some 0)) (λ k. none);
}

-- the entries of `start`
starts : (i : ℕ) (s : ProtocolState) → get_elem? start.pool.slots i ≡ some s → empty ≡ s
starts zero s g = cc
starts (suc zero) s g = cc
starts (suc (suc zero)) s g = cc
starts (suc (suc (suc i))) s g = absurd cc

start-Owned : Owned start
start-Owned = record {
  owner = λ id i h. absurd cc;
  owned = λ i s g a. absurd (differ empty s (starts i s g) refl a);
}

start-AllKept : AllKept start.pool.slots
start-AllKept i s g = subst IsKept (starts i s g) (record { memory = refl; ready = λ a. absurd cc })

abbrev message : PoolConn
message = record {
  id = 7;
  event = recv_data;
  local_port = 15533;
  appstate = some 0;
  mss = 0;
  incoming = 2 ∷ 97 ∷ 98 ∷ 5 ∷ [];
}

start-opened : Reach start opened
unfolding demo_protocol_handle_event pool_event init_state find_free
start-opened = next here (opens conn 1 refl refl refl (omega arith) (_, refl))

Reach-handled_example :
    ((p : Pool) × Handles message 2 opened.pool p)
    × Owned opened
    × ((a b i : ℕ) → opened.live a ≡ some (some i) → opened.live b ≡ some (some i) → a ≡ b)
Reach-handled_example =
    Reach-handled message 2 start-Owned start-AllKept start-opened (inr refl) (omega arith)
