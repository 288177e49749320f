-- ===== src/Tftp/Blocks.antt =====
-- The packets of a transfer, and what each does to a server that waits for it.
use sc_xtcp.Base.{
  List, [], arith, drop, false, length, refl, some, suc, take-append_le, take-length, ℕ, ◌%◌, ◌++◌,
  ◌+◌, ◌-◌, ◌<◌, ◌^◌, ◌∙◌, ◌∷◌, ◌≡◌, ◌≤◌,
}
use sc_xtcp.Server.{new_connection}
use sc_xtcp.Tftp.{
  Env, Tftp, block_size, data_packet, image_filename, make_ack_pkt, min_pkt_size, next_string,
  octet, opcode_wrq, process_packet, str_eq, word_bytes, write_request,
}
use sc_xtcp.Tftp.Transfer.{IsNet, TakesAll, block_of, data_pkt, next-Replied, seen}
use sc_xtcp.Tftp.Exchange.{at, exchange, exchange-sent, replied, reply_calls, rx}
use sc_xtcp.Tftp.Handler.{
  Call, Conn, Handler, Outside, default_port, handle_events, sent, tftp_waiting_for_data,
  transfer_begin, transfer_complete, xtcp_bind_local, xtcp_close, xtcp_complete_send,
  xtcp_recv_count, xtcp_set_poll_interval,
}

-- the write request of a client
abbrev pub wrq_pkt : Env → List ℕ
wrq_pkt env = word_bytes (env.hton16 opcode_wrq) ++ image_filename ++ 0 ∷ octet ++ 0 ∷ []

-- A file as its blocks, each with the number of times that its acknowledgement is asked for again:
-- all but the last are full, and the last is not.
abbrev pub IsFile : List (List ℕ × ℕ) → Type 0
IsFile [] = 0 < 0
IsFile ((bs, d) ∷ []) = length bs < block_size
IsFile ((bs, d) ∷ f ∷ fs) = (length bs ≡ block_size) × IsFile (f ∷ fs)

abbrev pub file_events : Env → ℕ → ℕ → ℕ → List (List ℕ × ℕ) → List Conn
file_events env id port k [] = []
file_events env id port k ((bs, d) ∷ fs) =
    exchange id port (data_pkt env k bs).0 d (file_events env id port (k + 1) fs)

-- what the blocks add to the trace
abbrev pub file_calls : Env → ℕ → ℕ → List (List ℕ × ℕ) → List Call → List Call
file_calls env id k [] cs = cs
file_calls env id k ((bs, d) ∷ fs) cs =
    file_calls env id (k + 1) fs (xtcp_complete_send ∷ reply_calls id (make_ack_pkt env k) d cs)

-- the events of a transfer: the connection, the write request, the blocks
abbrev pub session : Env → ℕ → ℕ → ℕ → List (List ℕ × ℕ) → List Conn
session env id port d fs =
    at id default_port new_connection []
    ∷ exchange id port (wrq_pkt env) d (file_events env id port 1 fs)

abbrev pub next_tid : Handler → ℕ
next_tid s = (s.local_tid + 1) % 2 ^ 16

-- the calls for a connection, latest first
abbrev pub open_calls : ℕ → ℕ → List Call → List Call
open_calls id port cs =
    xtcp_bind_local (some id) port
    ∷ xtcp_set_poll_interval (some id) 3000
    ∷ transfer_begin
    ∷ xtcp_bind_local (some id) port
    ∷ cs

-- the calls of a whole transfer, latest first
abbrev pub session_calls : Env → ℕ → ℕ → ℕ → List (List ℕ × ℕ) → List Call → List Call
session_calls env id port d fs cs =
    xtcp_close (some id)
    ∷ transfer_complete
    ∷ file_calls env id 1 fs
        (xtcp_complete_send ∷ reply_calls id (make_ack_pkt env 0) d (open_calls id port cs))

junk_behind :
    (env : Env) (a b c d : ℕ) (bs : List ℕ) (s : Tftp) (js : List ℕ)
    → data_packet env (a ∷ b ∷ c ∷ d ∷ bs ++ js) (min_pkt_size + length bs) s
      ≡ data_packet env (a ∷ b ∷ c ∷ d ∷ bs) (min_pkt_size + length bs) s
unfolding data_packet
junk_behind env a b c d bs s js =
    rw (take-append_le (min_pkt_size + length bs - min_pkt_size) bs js (omega arith)) refl

-- What is on the stack behind a packet is not read.
junk_not_read :
    (out : Outside) (k : ℕ) (bs : List ℕ) (s : Tftp)
    → IsNet out.net
    → length bs ≤ block_size
    → process_packet out.net (rx out (data_pkt out.net k bs).0) (length (data_pkt out.net k bs).0) s
      ≡ process_packet out.net (data_pkt out.net k bs).0 (data_pkt out.net k bs).1 s
unfolding process_packet xtcp_recv_count
junk_not_read out k bs s n h = rw (n.round_trip 3 (omega arith)) (
    rw (take-length 512 bs h, four (length bs))
      (junk_behind out.net _ _ _ _ bs s (drop (length (data_pkt out.net k bs).0) out.rx_buffer)))
  where
    four : (m : ℕ) → suc (suc (suc (suc m))) ≡ min_pkt_size + m
    four m = omega arith

pub wrq_acknowledged :
    (out : Outside) (s : Tftp)
    → IsNet out.net
    → process_packet out.net (rx out (wrq_pkt out.net)) (length (wrq_pkt out.net)) s
      ≡ some (s, some (make_ack_pkt out.net 0))
unfolding process_packet write_request xtcp_recv_count str_eq next_string
wrq_acknowledged out s n = rw (n.round_trip 2 (omega arith)) refl

-- The server waits for block `k` of the connection.
pub record IsWaiting (id k : ℕ) (s : Handler) : Type 0 where
  pub waiting : s.tftp_state ≡ tftp_waiting_for_data
  pub connected : s.tftp_conn ≡ some id
  pub no_error : s.tftp.error ≡ false
  pub not_complete : s.tftp.complete ≡ false
  pub next : k ≡ s.tftp.prev_block_num + 1

-- the packet variables after a block that is next
abbrev pub taken : ℕ → List ℕ → Tftp → Tftp
taken k bs t = record (seen k bs t) {
  prev_block_num = k;
  received = t.received ++ block_of k bs ∷ [];
}

pub block_exchanged :
    (out : Outside) (id k d : ℕ) (bs : List ℕ) (s : Handler) (es : List Conn)
    → IsNet out.net
    → TakesAll out.net
    → IsWaiting id k s
    → k < 256
    → length bs ≤ block_size
    → handle_events out (exchange id s.local_tid (data_pkt out.net k bs).0 d es) s
      ≡ handle_events out es
          (sent (some id) (replied id (taken k bs s.tftp) (make_ack_pkt out.net k) d s))
unfolding make_ack_pkt
block_exchanged out id k d bs s es n p w h l =
    exchange-sent out id (data_pkt out.net k bs).0 (taken k bs s.tftp) (make_ack_pkt out.net k) d s
      es w.waiting w.connected
      (junk_not_read out k bs s.tftp n l ∙ next-Replied out.net k bs s.tftp n h w.next (p _ _))
      (omega arith)
