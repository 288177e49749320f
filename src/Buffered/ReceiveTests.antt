-- ===== src/Buffered/ReceiveTests.antt =====
-- The receive functions on concrete streams.
use sc_xtcp.Base.{List, [], arith, length-replicate, replicate, true, ℕ, ◌∷◌}
use sc_xtcp.Buffered.{RxInfo, recv, recv_upto}
use sc_xtcp.Buffered.Receive.{IsValid, pending}
use sc_xtcp.Buffered.Stream.{Exactly, Upto, recv-Exactly, recv_upto-Upto}

-- an empty buffer that awaits an event
abbrev fresh : RxInfo
fresh = record {
  rx_new_event = true;
  mem = replicate 1500 0;
  rx_end = 1500;
  rx_wrptr = 0;
  rx_rdptr = 0;
}

fresh-IsValid : IsValid fresh
fresh-IsValid = record {
  ordered = record {
    read_first = omega arith;
    write_in = omega arith;
    sized = length-replicate {A = ℕ} 1500 0;
  };
  large = omega arith;
  room = λ h. omega arith;
}

-- two lines, of which the second is cut off
abbrev lines : List ℕ
lines = 72 ∷ 73 ∷ 10 ∷ 72 ∷ []

recv_upto-Upto_example :
    Upto 10 (pending lines fresh) (recv_upto lines fresh 10)
    × IsValid (recv_upto lines fresh 10).info
recv_upto-Upto_example = recv_upto-Upto lines fresh 10 fresh-IsValid (omega arith)

recv-Exactly_example :
    Exactly 3 (pending lines fresh) (recv lines fresh 3) × IsValid (recv lines fresh 3).info
recv-Exactly_example = recv-Exactly lines fresh 3 fresh-IsValid (omega arith)
