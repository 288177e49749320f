-- ===== src/Tftp/Exchange.antt =====
-- A packet and its reply, through the events of the connection.
use sc_xtcp.Base.{
  List, [], ap, arith, false, if_ind, length, ltb, not, refl, some, suc, take-length, true, zero, ℕ,
  ◌&&◌, ◌<◌, ◌==◌, ◌∙◌, ◌∷◌, ◌≡◌,
}
use sc_xtcp.Server.{Event, recv_data, request_data, resend_data, sent_data}
use sc_xtcp.Tftp.{Tftp, process_packet}
use sc_xtcp.Tftp.Transfer.{repeat}
use sc_xtcp.Tftp.Handler.{
  Call, Conn, Handler, Outside, default_port, dispatch, handle_event, handle_events, is_complete,
  is_for_connection, is_foreign, processed, receive, rx_buffer_size, same_conn, send_reply, sent,
  start_reply, tftp_sending_ack, tftp_waiting_for_data, xtcp_init_send, xtcp_recv_count, xtcp_send,
}

abbrev pub at : ℕ → ℕ → Event → List ℕ → Conn
at id port ev bytes = record { id = id; event = ev; local_port = port; data_in = bytes }

-- A packet comes in, the reply is asked for, asked for again as often as the number says, and sent.
abbrev pub exchange : ℕ → ℕ → List ℕ → ℕ → List Conn → List Conn
exchange id port bytes d cs =
    at id port recv_data bytes
    ∷ at id port request_data []
    ∷ repeat d (at id port resend_data []) (at id port sent_data [] ∷ cs)

-- the calls that send a reply
abbrev pub reply_calls : ℕ → List ℕ → ℕ → List Call → List Call
reply_calls id p d cs = xtcp_send p ∷ repeat d (xtcp_send p) (xtcp_init_send (some id) ∷ cs)

-- the server with a reply in its buffer
abbrev pub replying : Tftp → List ℕ → List Call → Handler → Handler
replying t p cs s = record s {
  tftp = t;
  tx_buffer = p;
  num_tx_bytes = length p;
  tftp_state = tftp_sending_ack;
  calls = cs;
}

-- a reply that was handed over `d + 1` times
abbrev pub replied : ℕ → Tftp → List ℕ → ℕ → Handler → Handler
replied id t p d s = replying t p (reply_calls id p d s.calls) s

-- what `rx_buffer` holds after the packet
abbrev pub rx : Outside → List ℕ → List ℕ
rx out bytes = (xtcp_recv_count bytes rx_buffer_size out.rx_buffer).0

-- An event of the connection's port in a state that is not the last is handled.
pub handle_event-dispatch :
    (out : Outside) (c : Conn) (s : Handler)
    → is_complete s.tftp_state ≡ false
    → c.local_port ≡ s.local_tid
    → handle_event out c s ≡ dispatch out c c.event s
unfolding handle_event
handle_event-dispatch out c s h e = rw h (
    if_ind (λ r. r ≡ dispatch out c c.event s) (is_foreign c s)
      (λ k. absurd (own_port c.local_port s.local_tid e k)) (λ k. refl))
  where
    own_port :
        (p q : ℕ)
        → p ≡ q
        → (is_for_connection c.event && (not (p == default_port) && not (p == q))) ≡ true
        → ⊥
    own_port p q f k = let g : (p == q) ≡ true = ground arith in ground (arith, f, g, k)

request-reply :
    (t : Tftp) (p : List ℕ) (cs : List Call) (s : Handler)
    → 0 < length p
    → send_reply (replying t p cs s) ≡ replying t p (xtcp_send p ∷ cs) s
unfolding send_reply
request-reply t p cs s h = rw (some_bytes, take-length (length p) p (omega arith)) refl
  where
    some_bytes : ltb 0 (length p) ≡ true
    some_bytes = ground (arith, h)

repeat-snoc : {A : Type 0} (d : ℕ) (x : A) (xs : List A) → repeat d x (x ∷ xs) ≡ x ∷ repeat d x xs
repeat-snoc zero x xs = refl
repeat-snoc (suc d) x xs = ap (◌∷◌ x) (repeat-snoc d x xs)

resends-replying :
    (out : Outside) (id : ℕ) (t : Tftp) (p : List ℕ) (cs : List Call) (d : ℕ) (s : Handler)
    (es : List Conn)
    → 0 < length p
    → handle_events out (repeat d (at id s.local_tid resend_data []) es) (replying t p cs s)
      ≡ handle_events out es (replying t p (repeat d (xtcp_send p) cs) s)
unfolding dispatch
resends-replying out id t p cs zero s es h = refl
resends-replying out id t p cs (suc d) s es h =
    rw
      (
        handle_event-dispatch out (at id s.local_tid resend_data []) (replying t p cs s) refl refl,
        request-reply t p cs s h,
      )
      (resends-replying out id t p (xtcp_send p ∷ cs) d s es h
        ∙ ap (λ c. handle_events out es (replying t p c s)) (repeat-snoc d (xtcp_send p) cs))

-- A reply of the packet functions is sent, and what follows is the answer to XTCP_SENT_DATA.
pub exchange-sent :
    (out : Outside) (id : ℕ) (bytes : List ℕ) (t : Tftp) (p : List ℕ) (d : ℕ) (s : Handler)
    (es : List Conn)
    → s.tftp_state ≡ tftp_waiting_for_data
    → s.tftp_conn ≡ some id
    → process_packet out.net (rx out bytes) (length bytes) s.tftp ≡ some (t, some p)
    → 0 < length p
    → handle_events out (exchange id s.local_tid bytes d es) s
      ≡ handle_events out es (sent (some id) (replied id t p d s))
unfolding dispatch receive processed start_reply xtcp_recv_count
exchange-sent out id bytes t p d s es e f g h =
    let first = xtcp_init_send (some id) ∷ s.calls in
    let not_last : is_complete s.tftp_state ≡ false = rw e refl in
    let own : same_conn s.tftp_conn id ≡ true = rw f (ground arith) in
    let some_bytes : ltb 0 (length p) ≡ true = ground (arith, h) in
    rw
      (
        handle_event-dispatch out (at id s.local_tid recv_data bytes) s not_last refl,
        e,
        own,
        g,
        some_bytes,
        handle_event-dispatch out (at id s.local_tid request_data [])
            (replying t p (xtcp_init_send (some id) ∷ s.calls) s) refl refl,
        request-reply t p (xtcp_init_send (some id) ∷ s.calls) s h,
      )
      (resends-replying out id t p (xtcp_send p ∷ first) d s (at id s.local_tid sent_data [] ∷ es) h
        ∙ ap (λ c. handle_events out (at id s.local_tid sent_data [] ∷ es) (replying t p c s))
            (repeat-snoc d (xtcp_send p) first)
        ∙ rw
            (handle_event-dispatch out (at id s.local_tid sent_data []) (replied id t p d s) refl
              refl)
            refl)
