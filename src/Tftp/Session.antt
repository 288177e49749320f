-- ===== src/Tftp/Session.antt =====
-- A whole transfer through the events of its connection.
use sc_xtcp.Base.{
  List, [], ap, append-nil, append_assoc, arith, false, length, ltb, refl, some, sym, true, ℕ, ◌++◌,
  ◌+◌, ◌<◌, ◌∙◌, ◌∷◌, ◌≡◌, ◌≤◌,
}
use sc_xtcp.Server.{new_connection}
use sc_xtcp.Tftp.{Block, Env, block_size, make_ack_pkt, min_pkt_size}
use sc_xtcp.Tftp.Transfer.{IsNet, TakesAll, block_of, blocks}
use sc_xtcp.Tftp.Exchange.{at, exchange-sent, replied, reply_calls}
use sc_xtcp.Tftp.Handler.{
  Call, Conn, Handler, Outside, accept_connection, call, default_port, dispatch, go_to,
  handle_event, handle_events, sent, tftp_close, tftp_complete, tftp_waiting_for_connection,
  tftp_waiting_for_data, transfer_complete, xtcp_close, xtcp_complete_send,
}
use sc_xtcp.Tftp.Blocks.{
  IsFile, IsWaiting, block_exchanged, file_calls, file_events, next_tid, open_calls, session,
  session_calls, taken, wrq_acknowledged, wrq_pkt,
}

-- What a transfer comes to: its end, the blocks and the calls.
abbrev pub Completed : Outside → List Conn → Handler → List Block → List Call → Type 0
Completed out es s bs cs =
    (t : Handler) × (handle_events out es s ≡ some t)
    × (t.tftp_state ≡ tftp_complete)
    × (t.tftp.received ≡ s.tftp.received ++ bs)
    × (t.calls ≡ cs)

-- the server after the last block
abbrev pub after_last : Env → ℕ → ℕ → ℕ → List ℕ → Handler → Handler
after_last env id k d bs s =
    let u = replied id (taken k bs s.tftp) (make_ack_pkt env k) d s in
    go_to tftp_complete (
      tftp_close (some id)
        (call transfer_complete (record (call xtcp_complete_send u) { num_tx_bytes = 0 })))

last-sent :
    (env : Env) (id k d : ℕ) (bs : List ℕ) (s : Handler)
    → IsWaiting id k s
    → length bs < block_size
    → sent (some id) (replied id (taken k bs s.tftp) (make_ack_pkt env k) d s)
      ≡ after_last env id k d bs s
unfolding sent
last-sent env id k d bs s w h =
    let short : ltb (min_pkt_size + length bs) (block_size + min_pkt_size) ≡ true = ground arith in
    rw (w.no_error, w.not_complete, short) refl

-- the server after a full block, waiting for the next
abbrev pub after_block : Env → ℕ → ℕ → ℕ → List ℕ → Handler → Handler
after_block env id k d bs s = record (replied id (taken k bs s.tftp) (make_ack_pkt env k) d s) {
  num_tx_bytes = 0;
  tftp_state = tftp_waiting_for_data;
  calls = xtcp_complete_send ∷ reply_calls id (make_ack_pkt env k) d s.calls;
}

full-sent :
    (env : Env) (id k d : ℕ) (bs : List ℕ) (s : Handler)
    → IsWaiting id k s
    → length bs ≡ block_size
    → sent (some id) (replied id (taken k bs s.tftp) (make_ack_pkt env k) d s)
      ≡ after_block env id k d bs s
unfolding sent
full-sent env id k d bs s w h =
    let long : ltb (min_pkt_size + length bs) (block_size + min_pkt_size) ≡ false = ground arith in
    rw (w.no_error, w.not_complete, long) refl

full-IsWaiting :
    (env : Env) (id k d : ℕ) (bs : List ℕ) (s : Handler)
    → IsWaiting id k s
    → length bs ≡ block_size
    → IsWaiting id (k + 1) (after_block env id k d bs s)
full-IsWaiting env id k d bs s w h =
    let long : ltb (min_pkt_size + length bs) (block_size + min_pkt_size) ≡ false = ground arith in
    record {
      waiting = refl;
      connected = w.connected;
      no_error = w.no_error;
      not_complete = rw (w.not_complete, long) refl;
      next = refl;
    }

-- the events before are known to lead here
Completed-after :
    (out : Outside) (es fs : List Conn) (s u : Handler) (bs cs : List Block) (ks : List Call)
    → handle_events out es s ≡ handle_events out fs u
    → u.tftp.received ≡ s.tftp.received ++ bs
    → Completed out fs u cs ks
    → Completed out es s (bs ++ cs) ks
Completed-after out es fs s u bs cs ks e f (t, g, st, r, k) =
    (t, e ∙ g, st, r ∙ ap (λ x. x ++ cs) f ∙ append_assoc s.tftp.received bs cs, k)

file_Completed :
    (out : Outside) (id k : ℕ) (fs : List (List ℕ × ℕ)) (s : Handler)
    → IsNet out.net
    → TakesAll out.net
    → IsWaiting id k s
    → IsFile fs
    → k + length fs ≤ 256
    → Completed out
        (file_events out.net id s.local_tid k fs)
        s
        (blocks k fs)
        (xtcp_close (some id) ∷ transfer_complete ∷ file_calls out.net id k fs s.calls)
unfolding tftp_close
file_Completed out id k [] s n p w f l = absurd (omega (arith, f))
file_Completed out id k ((bs, d) ∷ []) s n p w f l = (
  after_last out.net id k d bs s,
  block_exchanged out id k d bs s [] n p w (omega (arith, l)) (omega (arith, f))
      ∙ ap some (last-sent out.net id k d bs s w f),
  refl,
  refl,
  refl,
)
file_Completed out id k ((bs, d) ∷ f ∷ fs) s n p w (h, g) l =
    Completed-after out (file_events out.net id s.local_tid k ((bs, d) ∷ f ∷ fs))
      (file_events out.net id s.local_tid (k + 1) (f ∷ fs)) s (after_block out.net id k d bs s)
      (block_of k bs ∷ []) (blocks (k + 1) (f ∷ fs)) _
      (block_exchanged out id k d bs s (file_events out.net id s.local_tid (k + 1) (f ∷ fs)) n p w
          (omega (arith, l)) (omega (arith, h))
        ∙ ap (handle_events out (file_events out.net id s.local_tid (k + 1) (f ∷ fs)))
            (full-sent out.net id k d bs s w h))
      refl
      (file_Completed out id (k + 1) (f ∷ fs) (after_block out.net id k d bs s) n p
        (full-IsWaiting out.net id k d bs s w h) g (omega (arith, l)))

-- the server after a write request
abbrev pub after_wrq : Env → ℕ → ℕ → Handler → Handler
after_wrq env id d s = record s {
  tx_buffer = make_ack_pkt env 0;
  num_tx_bytes = 0;
  tftp_state = tftp_waiting_for_data;
  calls = xtcp_complete_send ∷ reply_calls id (make_ack_pkt env 0) d s.calls;
}

wrq-sent :
    (env : Env) (id d : ℕ) (s : Handler)
    → s.tftp.error ≡ false
    → s.tftp.complete ≡ false
    → sent (some id) (replied id s.tftp (make_ack_pkt env 0) d s) ≡ after_wrq env id d s
unfolding sent
wrq-sent env id d s e f = rw (e, f) refl

-- the server after a connection
abbrev pub opened : ℕ → Handler → Handler
opened id s = record s {
  local_tid = next_tid s;
  tftp_conn = some id;
  tftp_state = tftp_waiting_for_data;
  calls = open_calls id (next_tid s) s.calls;
}

connection-opened :
    (out : Outside) (id : ℕ) (s : Handler)
    → s.tftp_state ≡ tftp_waiting_for_connection
    → ((cs : List Call) → out.app_transfer_begin cs ≡ 0)
    → handle_event out (at id default_port new_connection []) s ≡ some (opened id s)
unfolding handle_event dispatch accept_connection
connection-opened out id s e b = rw (e, b _) refl

-- A whole transfer, in a server that waits for a connection, has no signal up and has accepted no
-- block yet, with an application that is ready and takes every block, and byte order functions that
-- undo each other: the connection, the write request and the blocks of a file of at most 255 blocks,
-- the reply to each asked for again any number of times. The server ends in its last state, the
-- application was passed the blocks of the file in order and once each, and the calls are exactly:
-- the connection is taken, each packet's acknowledgement is sent each time it is asked for, the end
-- is reported once, and the connection is closed.
pub session-Completed :
    (out : Outside) (id d : ℕ) (fs : List (List ℕ × ℕ)) (s : Handler)
    → IsNet out.net
    → TakesAll out.net
    → ((cs : List Call) → out.app_transfer_begin cs ≡ 0)
    → s.tftp_state ≡ tftp_waiting_for_connection
    → s.tftp.error ≡ false
    → s.tftp.complete ≡ false
    → s.tftp.prev_block_num ≡ 0
    → IsFile fs
    → length fs ≤ 255
    → Completed out
        (session out.net id (next_tid s) d fs)
        s
        (blocks 1 fs)
        (session_calls out.net id (next_tid s) d fs s.calls)
unfolding make_ack_pkt
session-Completed out id d fs s n p b st e c q f l =
    let es = file_events out.net id (next_tid s) 1 fs in
    let u = after_wrq out.net id d (opened id s) in
    Completed-after out (session out.net id (next_tid s) d fs) es s u [] (blocks 1 fs) _
      (rw (connection-opened out id s st b) (
        exchange-sent out id (wrq_pkt out.net) s.tftp (make_ack_pkt out.net 0) d (opened id s) es
          refl refl (wrq_acknowledged out s.tftp n) (omega arith)
        ∙ ap (handle_events out es) (wrq-sent out.net id d (opened id s) e c)))
      (sym (append-nil s.tftp.received))
      (file_Completed out id 1 fs u n p
        (record {
          waiting = refl;
          connected = refl;
          no_error = e;
          not_complete = c;
          next = omega (arith, q);
        })
        f (omega (arith, l)))
