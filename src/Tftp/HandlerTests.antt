-- ===== src/Tftp/HandlerTests.antt =====
-- A transfer of a small file through the events of its connection.
use sc_xtcp.Base.{
  List, [], arith, false, none, refl, replicate, some, ℕ, ◌%◌, ◌*◌, ◌+◌, ◌/◌, ◌∷◌, ◌≡◌,
}
use sc_xtcp.Server.{new_connection, recv_data, sent_data}
use sc_xtcp.Tftp.Blocks.{next_tid, session, session_calls}
use sc_xtcp.Tftp.Transfer.{blocks}
use sc_xtcp.Tftp.Session.{Completed, session-Completed}
use sc_xtcp.Tftp.Steps.{IsValid}
use sc_xtcp.Tftp.Returns.{handle_events-returns}
use sc_xtcp.Tftp.Handler.{
  Conn, Handler, Outside, handle_events, source_tid_seed, tftp_waiting_for_connection,
  tftp_waiting_for_data, xtcp_recv_count,
}
use sc_xtcp.Tftp.Exchange.{at}

abbrev outside : Outside
outside = record {
  net = record {
    hton16 = λ n. (n / 256, n % 256);
    ntoh16 = λ w. w.0 * 256 + w.1;
    process_data_block = λ bs b. 0;
  };
  app_transfer_begin = λ cs. 0;
  rx_buffer = [];
}

-- after `tftp_init` and XTCP_IFUP
abbrev ready : Handler
ready = record {
  tftp_state = tftp_waiting_for_connection;
  local_tid = source_tid_seed;
  prev_block_num = 0;
  tx_buffer = [];
  num_tx_bytes = 0;
  tftp_conn = none;
  tftp = record {
    prev_block_num = 0;
    block_num_glob = 0;
    error = false;
    complete = false;
    received = [];
  };
  calls = [];
}

abbrev serving : Handler
serving = record ready { tftp_state = tftp_waiting_for_data; tftp_conn = some 4 }

ready-IsValid : IsValid ready
ready-IsValid = record {
  ordered = record { in_order = refl; counted = omega arith };
  signalled = λ h. absurd cc;
  buffered = omega arith;
  bounded = omega arith;
  replying = λ c h k. absurd cc;
  reported = refl;
}

-- a full block, and one of two bytes
abbrev two_blocks : List (List ℕ × ℕ)
two_blocks = (replicate 512 7, 1) ∷ (1 ∷ 2 ∷ [], 0) ∷ []

session-Completed_example :
    Completed outside
      (session outside.net 4 (next_tid ready) 0 two_blocks)
      ready
      (blocks 1 two_blocks)
      (session_calls outside.net 4 (next_tid ready) 0 two_blocks [])
session-Completed_example =
    session-Completed outside 4 0 two_blocks ready (record { round_trip = λ n h. omega arith })
      (λ bs b. refl) (λ cs. refl) refl refl refl refl (refl, omega arith) (omega arith)

-- an event that opens a connection, a read request, and the reply sent
abbrev refused_read : List Conn
refused_read =
    at 4 69 new_connection [] ∷ at 4 51338 recv_data (0 ∷ 1 ∷ []) ∷ at 4 69 sent_data [] ∷ []

handle_events-returns_example :
    (t : Handler) × (handle_events outside refused_read ready ≡ some t) × IsValid t
unfolding xtcp_recv_count
handle_events-returns_example = handle_events-returns outside refused_read ready ready-IsValid (
  λ h. absurd (omega (arith, h)),
  (λ h. absurd (omega (arith, h)), (λ h. absurd (omega (arith, h)), tt)),
)
