-- ===== src/Buffered/Quotient.antt =====
-- The transmit buffers up to their places in memory.
use mathlib.Core.HLevel.{Σ_prop_path}
use mathlib.Core.Quot
use mathlib.Core.Quot.{Quot, Quot-set}
use native.Mathlib.Bridge.{le_prop}
use native.Mathlib.Nat.{ℕ_set}
use sc_xtcp.Base.{
  List, ap, arith, false, length, length-append, refl, replicate, suc, sym, zero, ℕ, ◌++◌, ◌+◌, ◌-◌,
  ◌∙◌, ◌≡◌, ◌≤◌,
}
use sc_xtcp.Buffered.{TxInfo, send, send_handler}
use sc_xtcp.Buffered.Transmit.{IsValid, length-in_flight, length-waiting}
use sc_xtcp.Buffered.View.{Queue, ask_queue, put_queue, send-view, send_handler-view, view}
use sc_xtcp.Buffered.Queue.{send-Offered, send_handler-Advanced}

-- a buffer that is valid
abbrev pub Buffer : Type 0
Buffer = (b : TxInfo) × IsValid b

-- Clients and server see the same of both.
abbrev pub SameView : Buffer → Buffer → Type 0
SameView a b = view a.0 ≡ view b.0

-- a queue whose bytes fit
abbrev pub FitQueue : Type 0
FitQueue = (q : Queue) × (length q.flying + length q.waits ≤ q.size)

Queue-set : IsSet Queue
Queue-set = hlevel ℕ_set

FitQueue-set : IsSet FitQueue
FitQueue-set = hlevel (ℕ_set, le_prop)

view-fits :
    (b : TxInfo) → IsValid b → length (view b).flying + length (view b).waits ≤ (view b).size
view-fits b v =
    omega (arith, v.prev_first, v.read_first, v.write_in, length-in_flight b v, length-waiting b v)

-- what is seen of a class of buffers
pub seen : Quot SameView → FitQueue
seen =
    Quot.lift FitQueue-set (λ b. (view b.0, view-fits b.0 b.1))
      (λ a b h. Σ_prop_path (λ q. le_prop) h)

-- the queue at the start of a memory of its size
abbrev pub at_start : Queue → TxInfo
at_start q = record {
  mem = q.flying ++ (q.waits ++ replicate (q.size - (length q.flying + length q.waits)) 0);
  tx_end = q.size;
  tx_wrptr = length q.flying + length q.waits;
  tx_rdptr = length q.flying;
  tx_prev_rdptr = 0;
  tx_lowmark = q.lowmark;
}

length-replicate : {A : Type 0} (n : ℕ) (a : A) → length (replicate n a) ≡ n
length-replicate zero a = refl
length-replicate (suc n) a = ap suc (length-replicate n a)

at_start-IsValid : (q : Queue) → length q.flying + length q.waits ≤ q.size → IsValid (at_start q)
at_start-IsValid q h = record {
  prev_first = omega arith;
  read_first = omega arith;
  write_in = h;
  sized =
      rw
        (
          length-append q.flying
              (q.waits ++ replicate (q.size - (length q.flying + length q.waits)) 0),
          length-append q.waits (replicate (q.size - (length q.flying + length q.waits)) 0),
          length-replicate {A = ℕ} (q.size - (length q.flying + length q.waits)) 0,
        )
        (omega (arith, h));
}

pub laid : FitQueue → Quot SameView
laid q = Quot.mk (at_start q.0, at_start-IsValid q.0 q.1)

-- `xtcp_buffered_send` on a class
pub put_class : List ℕ → Quot SameView → Quot SameView
put_class buf =
    Quot.lift Quot-set (λ b. Quot.mk ((send b.0 buf).0, (send-Offered b.0 buf b.1).1))
      λ a b h. Quot.sound (
        ap (λ r. r.0) (send-view a.0 buf a.1)
        ∙ ap (λ q. (put_queue buf q).0) h
        ∙ sym (ap (λ r. r.0) (send-view b.0 buf b.1)))

-- the events that ask for data, on a class
pub ask_class : ℕ → Quot SameView → Quot SameView
ask_class mss =
    Quot.lift Quot-set
      (λ b. Quot.mk ((send_handler false mss b.0).0, (send_handler-Advanced mss b.0 b.1).valid))
      λ a b h. Quot.sound (
        ap (λ r. r.0) (send_handler-view mss a.0 a.1)
        ∙ ap (λ q. (ask_queue mss q).0) h
        ∙ sym (ap (λ r. r.0) (send_handler-view mss b.0 b.1)))
