-- ===== src/Blocking/Tests.antt =====
-- A write with a segment that is lost, and a read of two segments.
use sc_xtcp.Base.{List, [], arith, refl, some, true, ℕ, ◌∷◌, ◌≡◌}
use sc_xtcp.Server.{Event, new_connection, recv_data, request_data, resend_data, sent_data}
use sc_xtcp.Blocking.{Incoming, Reading, Writing, xtcp_read, xtcp_write}
use sc_xtcp.Blocking.Write.{IsFaithful, fresh}
use sc_xtcp.Blocking.Progress.{xtcp_write-succeeds}
use sc_xtcp.Blocking.Own.{IsOwn}
use sc_xtcp.Blocking.Read.{Ends, xtcp_read-Ends}

abbrev comes : Event → ℕ → List ℕ → Incoming
comes ev id bytes = record { event = ev; id = id; mss = 2; bytes = bytes }

abbrev text : List ℕ
text = 1 ∷ 2 ∷ 3 ∷ []

abbrev write_events : List Incoming
write_events =
    comes request_data 5 []
    ∷ comes resend_data 5 []
    ∷ comes sent_data 5 []
    ∷ comes new_connection 6 []
    ∷ comes sent_data 5 []
    ∷ comes request_data 5 []
    ∷ []

xtcp_write-succeeds_example :
    (v : Writing) × (rest : List Incoming) × (xtcp_write 5 text write_events ≡ some (v, rest))
    × (v.success ≡ true)
    × (fresh v.calls ≡ text)
    × IsOwn 5 v.calls
    × IsFaithful v.calls
xtcp_write-succeeds_example =
    xtcp_write-succeeds 5 text write_events
      (omega arith, (omega arith, (omega arith, (omega arith, (omega arith, (omega arith, tt))))))
      (refl, (refl, (refl, (refl, (refl, (refl, tt)))))) (omega arith)

abbrev read_events : List Incoming
read_events =
    comes recv_data 5 (1 ∷ 2 ∷ []) ∷ comes sent_data 5 [] ∷ comes recv_data 5 (3 ∷ []) ∷ []

abbrev empty : Reading
empty = record { mem = 0 ∷ 0 ∷ 0 ∷ 0 ∷ []; rlen = 0; calls = [] }

xtcp_read-Ends_example : Ends 5 3 read_events empty (xtcp_read 5 3 read_events empty)
xtcp_read-Ends_example = xtcp_read-Ends 5 3 read_events empty (omega arith)
