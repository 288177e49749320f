-- ===== src/Tftp/Fault.antt =====
-- Every packet of a connection through to what the application is told.
use sc_xtcp.Base.{List, [], false, length, none, some, true, ℕ, ◌∷◌, ◌≡◌, ◌⊎◌}
use sc_xtcp.Server.{recv_data}
use sc_xtcp.Tftp.{Tftp, opcode_ack, opcode_data, opcode_error, opcode_wrq, read16}
use sc_xtcp.Tftp.Replies.{kind_of}
use sc_xtcp.Tftp.Kinds.{is_last}
use sc_xtcp.Tftp.Exchange.{at, exchange, reply_calls, rx}
use sc_xtcp.Tftp.Handler.{
  Call, Handler, Outside, TftpState, handle_event, handle_events, tftp_complete,
  tftp_waiting_for_connection, tftp_waiting_for_data, transfer_complete, transfer_error, xtcp_close,
  xtcp_complete_send,
}

-- the server after a close
abbrev pub IsClosed : Handler → Type 0
IsClosed s =
    (s.tftp_conn ≡ none) × (s.num_tx_bytes ≡ 0) × (s.tftp.error ≡ false) × (s.tftp.complete ≡ false)

-- a connection that is closed after these calls, in this state
abbrev pub ClosedAfter : ℕ → TftpState → List Call → Handler → Type 0
ClosedAfter id st cs t = (t.tftp_state ≡ st) × (t.calls ≡ xtcp_close (some id) ∷ cs) × IsClosed t

-- What a packet comes to: an ERROR packet closes the connection; any other is answered by a reply,
-- handed over `d + 1` times. After an error packet the connection is closed. Acknowledged are only
-- write requests and data packets, and a data packet with less than a block ends the transfer.
abbrev pub ErrorTold : Outside → ℕ → List ℕ → Handler → Type 0
ErrorTold out id bytes s =
    (read16 out.net (rx out bytes) 0 ≡ opcode_error)
    × (t : Handler) × (handle_event out (at id s.local_tid recv_data bytes) s ≡ some t)
    × ClosedAfter id tftp_waiting_for_connection (transfer_error ∷ s.calls) t

abbrev pub ReplyTold : Outside → ℕ → List ℕ → List ℕ → Handler → Handler → Type 0
ReplyTold out id bytes p before t =
    ((kind_of p ≡ out.net.hton16 opcode_error)
      × ClosedAfter id tftp_waiting_for_connection (transfer_error ∷ before.calls) t)
    ⊎ (((kind_of p ≡ out.net.hton16 opcode_ack)
          × (read16 out.net (rx out bytes) 0 ≡ opcode_data)
          × (is_last (length bytes) ≡ true)
          × ClosedAfter id tftp_complete (transfer_complete ∷ before.calls) t)
        ⊎ ((kind_of p ≡ out.net.hton16 opcode_ack)
            × ((read16 out.net (rx out bytes) 0 ≡ opcode_wrq)
                ⊎ ((read16 out.net (rx out bytes) 0 ≡ opcode_data)
                    × (is_last (length bytes) ≡ false)))
            × (t.tftp_state ≡ tftp_waiting_for_data)
            × (t.calls ≡ before.calls)
            × (t.num_tx_bytes ≡ 0)))

abbrev pub reply_sent : ℕ → List ℕ → ℕ → Handler → Handler
reply_sent id p d s = record s { calls = xtcp_complete_send ∷ reply_calls id p d s.calls }

abbrev pub Exchanged : Outside → ℕ → List ℕ → ℕ → Handler → Type 0
Exchanged out id bytes d s =
    ErrorTold out id bytes s
    ⊎ ((p : List ℕ) × (t : Handler) × (handle_events out (exchange id s.local_tid bytes d []) s
          ≡ some t)
        × ReplyTold out id bytes p (reply_sent id p d s) t)
