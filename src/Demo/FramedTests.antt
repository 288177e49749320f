-- ===== src/Demo/FramedTests.antt =====
-- A message of two bytes, and the header of another.
use sc_xtcp.Base.{List, [], arith, false, refl, replicate, true, ℕ, ◌∷◌}
use sc_xtcp.Buffered.Receive.{pending}
use sc_xtcp.Demo.Framed.{Peer}
use sc_xtcp.Demo.Frames.{FramedRun, IsReady}
use sc_xtcp.Demo.Messages.{recv-FramedRun}

abbrev fresh : Peer
fresh = record {
  link = record {
    rx = record {
      rx_new_event = true;
      mem = replicate 2048 0;
      rx_end = 2048;
      rx_wrptr = 0;
      rx_rdptr = 0;
    };
    tx = record {
      mem = replicate 1024 0;
      tx_end = 1024;
      tx_rdptr = 0;
      tx_prev_rdptr = 0;
      tx_wrptr = 0;
      tx_lowmark = 100;
    };
    actions = [];
  };
  got_header = false;
  len = 0;
}

fresh-IsReady : IsReady fresh
fresh-IsReady = record {
  valid = record {
    ordered = record { read_first = omega arith; write_in = omega arith; sized = refl };
    large = omega arith;
    room = λ h. omega arith;
  };
  large = omega arith;
  tested = λ h. absurd cc;
}

abbrev input : List ℕ
input = 2 ∷ 97 ∷ 98 ∷ 5 ∷ []

recv-FramedRun_example : FramedRun 5 input fresh (pending input fresh.link.rx)
recv-FramedRun_example = recv-FramedRun 5 input fresh fresh-IsReady (omega arith) (omega arith)
