-- ===== src/Buffered/TransmitTests.antt =====
-- The transmit functions on a small buffer.
use sc_xtcp.Base.{List, [], arith, false, refl, ℕ, ◌++◌, ◌∷◌, ◌≡◌}
use sc_xtcp.Buffered.{TxInfo, send, send_handler, transmit}
use sc_xtcp.Buffered.Transmit.{IsValid, Offered, in_flight, waiting}
use sc_xtcp.Buffered.View.{answers, answers-queue_answers, queue_answers, view}
use sc_xtcp.Buffered.Queue.{
  Op, ask, put, resend, run, run_fifo, send-Offered, send_handler_stays_paused,
}

-- room for four bytes, one of them in flight and one waiting
abbrev busy : TxInfo
busy = record {
  mem = 7 ∷ 8 ∷ 0 ∷ 0 ∷ [];
  tx_end = 4;
  tx_wrptr = 2;
  tx_rdptr = 1;
  tx_prev_rdptr = 0;
  tx_lowmark = 1;
}

busy-IsValid : IsValid busy
busy-IsValid = record {
  prev_first = omega arith;
  read_first = omega arith;
  write_in = omega arith;
  sized = refl;
}

-- the same buffer, with all bytes in flight
abbrev drained : TxInfo
drained = record busy { tx_rdptr = 2 }

drained-IsValid : IsValid drained
drained-IsValid = record {
  prev_first = omega arith;
  read_first = omega arith;
  write_in = omega arith;
  sized = refl;
}

abbrev bytes : List ℕ
bytes = 1 ∷ 2 ∷ []

send-Offered_example :
    Offered busy bytes (send busy bytes)
    × IsValid (send busy bytes).0
    × (in_flight (send busy bytes).0 ≡ in_flight busy)
send-Offered_example = send-Offered busy bytes busy-IsValid

abbrev ops : List Op
ops = put bytes ∷ ask 2 ∷ resend 2 ∷ ask 2 ∷ put bytes ∷ []

run_fifo_example :
    let (into, out, end) = run busy ops in (out ++ waiting end ≡ waiting busy ++ into) × IsValid end
run_fifo_example = run_fifo ops busy busy-IsValid

send_handler_stays_paused_example :
    let (c, calls) = send_handler false 1 drained in
    (calls ≡ transmit [] ∷ []) × (in_flight c ≡ []) × (waiting c ≡ [])
send_handler_stays_paused_example = send_handler_stays_paused 1 drained drained-IsValid refl

answers-queue_answers_example :
    ((answers busy ops).0 ≡ (queue_answers (view busy) ops).0)
    × (view (answers busy ops).1 ≡ (queue_answers (view busy) ops).1)
answers-queue_answers_example = answers-queue_answers ops busy busy-IsValid
