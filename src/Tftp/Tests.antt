-- ===== src/Tftp/Tests.antt =====
-- Transfers of small files.
use sc_xtcp.Base.Words.{pos}
use sc_xtcp.Base.{
  List, [], arith, false, length, refl, some, true, ℕ, ◌%◌, ◌*◌, ◌++◌, ◌+◌, ◌/◌, ◌∷◌, ◌≡◌,
}
use sc_xtcp.Tftp.{Env, Tftp, accept_block, data_packet, make_ack_pkt, process_packet}
use sc_xtcp.Tftp.Order.{IsOrdered, run}
use sc_xtcp.Tftp.Transfer.{IsNet, Runs, acks, blocks, data_pkt, packets, run_transfer}
use sc_xtcp.Tftp.Second.{run_second_transfer, transfer, transfer_acks}
use sc_xtcp.Tftp.Handler.{clear_signals}

-- byte order functions on the two bytes of a word, and an application that takes every block
abbrev env : Env
env = record {
  hton16 = λ n. (n / 256, n % 256);
  ntoh16 = λ w. w.0 * 256 + w.1;
  process_data_block = λ bs b. 0;
}

env-IsNet : IsNet env
env-IsNet = record { round_trip = λ n h. omega arith }

abbrev idle : Tftp
idle = record {
  prev_block_num = 0;
  block_num_glob = 0;
  error = false;
  complete = false;
  received = [];
}

idle-IsOrdered : IsOrdered idle
idle-IsOrdered = record { in_order = refl; counted = omega arith }

-- a block whose packet comes twice, and one whose packet comes once
abbrev file : List (List ℕ × ℕ)
file = ((1 ∷ 2 ∷ 3 ∷ [], 1) ∷ (4 ∷ [], 0) ∷ [])

-- an acknowledgement, which nobody expects
abbrev stray : List ℕ
stray = 0 ∷ 4 ∷ 0 ∷ 1 ∷ []

run_transfer_example :
    Runs env (packets env 1 file) idle (acks env 1 file) (blocks 1 file) (0 + length file)
run_transfer_example =
    run_transfer env file 1 idle env-IsNet (λ bs b. refl) (omega arith) (omega arith)

run_second_transfer_example :
    (t : Tftp) × (run env (transfer env file) idle ≡ some (t, transfer_acks env file))
    × (t.received ≡ [] ++ blocks 1 file)
    × Runs env (transfer env file) (clear_signals t) (transfer_acks env file) [] (length file)
run_second_transfer_example =
    run_second_transfer env file file idle env-IsNet (λ bs b. refl) refl (omega arith) (omega arith)

-- the server after a first block of one byte
abbrev one_block : Tftp
one_block = record {
  prev_block_num = 1;
  block_num_glob = 1;
  error = false;
  complete = true;
  received = record { num = 1; bytes = 9 ∷ []; len = pos 1 } ∷ [];
}

first_run :
    run env (data_pkt env 1 (9 ∷ []) ∷ []) idle ≡ some (one_block, some (0 ∷ 4 ∷ 0 ∷ 1 ∷ []) ∷ [])
unfolding process_packet data_packet accept_block make_ack_pkt
first_run = refl
