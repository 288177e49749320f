-- ===== src/Demo/EchoTests.antt =====
-- Two lines and the start of a third.
use sc_xtcp.Base.{List, [], arith, refl, replicate, some, true, ℕ, ◌++◌, ◌∷◌, ◌≡◌}
use sc_xtcp.Buffered.Receive.{pending, IsValid as IsReadable}
use sc_xtcp.Buffered.Transmit.{IsValid, in_flight, waiting}
use sc_xtcp.Demo.{Link}
use sc_xtcp.Demo.Echo.{demo_protocol_recv}
use sc_xtcp.Demo.Lines.{Left, split_lines}
use sc_xtcp.Demo.Room.{echoes, recv-echoes}

abbrev rxbuf_len : ℕ
rxbuf_len = 2048

abbrev fresh : Link
fresh = record {
  rx = record {
    rx_new_event = true;
    mem = replicate 2048 0;
    rx_end = 2048;
    rx_wrptr = 0;
    rx_rdptr = 0;
  };
  tx = record {
    mem = replicate 1024 0;
    tx_end = 1024;
    tx_rdptr = 0;
    tx_prev_rdptr = 0;
    tx_wrptr = 0;
    tx_lowmark = 100;
  };
  actions = [];
}

fresh-IsReadable : IsReadable fresh.rx
fresh-IsReadable = record {
  ordered = record { read_first = omega arith; write_in = omega arith; sized = refl };
  large = omega arith;
  room = λ h. omega arith;
}

fresh-IsValid : IsValid fresh.tx
fresh-IsValid = record {
  prev_first = omega arith;
  read_first = omega arith;
  write_in = omega arith;
  sized = refl;
}

-- "a", newline, newline, "b"
abbrev input : List ℕ
input = 97 ∷ 10 ∷ 10 ∷ 98 ∷ []

split_lines_test : split_lines input ≡ ((97 ∷ 10 ∷ []) ∷ (10 ∷ []) ∷ [], 98 ∷ [])
unfolding split_lines
split_lines_test = refl

recv-echoes_example :
    (t : Link) × (demo_protocol_recv 5 input fresh ≡ some t)
    × (waiting t.tx ≡ waiting fresh.tx ++ echoes (split_lines (pending input fresh.rx)).0)
    × (in_flight t.tx ≡ in_flight fresh.tx)
    × Left (split_lines (pending input fresh.rx)).1 t.rx
    × IsReadable t.rx
    × IsValid t.tx
unfolding split_lines
recv-echoes_example =
    recv-echoes 5 input fresh fresh-IsReadable fresh-IsValid (omega arith) (omega arith)
      (omega arith)
