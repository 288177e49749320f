-- ===== src/Tftp/Returns.antt =====
-- That the TFTP event handler returns.
use sc_xtcp.Base.{
  All, List, Option, [], ap, arith, drop, if_ind, length, ltb, none, refl, some, ℕ, ◌==◌, ◌>>=◌,
  ◌∙◌, ◌∷◌, ◌≡◌,
}
use mathlib.Core.Path.{subst}
use sc_xtcp.Tftp.{Reply, Tftp, opcode_wrq, process_packet, read16}
use sc_xtcp.Server.{
  Event, aborted, already_handled, closed, ifdown, ifup, new_connection, poll, recv_data,
  request_data, resend_data, sent_data, timed_out,
}
use sc_xtcp.Tftp.Replies.{Answered, HasStrings, process_packet-Answered}
use sc_xtcp.Tftp.Handler.{
  Conn, ConnId, Handler, Outside, accept_connection, default_port, dispatch, handle_event,
  handle_events, is_complete, is_foreign, processed, receive, rx_buffer_size, same_conn,
  xtcp_recv_count,
}
use sc_xtcp.Tftp.Steps.{Holds, IsValid, in_state}
use sc_xtcp.Tftp.Calls.{app_error-Sized, handle_event-IsValid}

-- The packet in `rx_buffer` after `xtcp_recv_count`, where it is a write request, has two strings.
abbrev pub IsReadable : Outside → Conn → Type 0
IsReadable out c =
    read16 out.net (xtcp_recv_count c.data_in rx_buffer_size out.rx_buffer).0 0 ≡ opcode_wrq
    → HasStrings (drop 2 (xtcp_recv_count c.data_in rx_buffer_size out.rx_buffer).0)

-- There is a result.
abbrev Returns : Option Handler → Type 0
Returns none = ⊥
Returns (some s) = Unit

receive-Returns :
    (out : Outside) (c : Conn) (s : Handler) → IsReadable out c → Returns (receive out c s)
unfolding receive
receive-Returns out c s h =
    let rx = xtcp_recv_count c.data_in rx_buffer_size out.rx_buffer in
    if_ind Returns (same_conn s.tftp_conn c.id)
      (λ e.
        answer (read16 out.net rx.0 0) (process_packet out.net rx.0 rx.1 s.tftp)
          (process_packet-Answered out.net rx.0 rx.1 s.tftp h))
      (λ e. tt)
  where
    answer :
        (op : ℕ) (m : Option (Tftp × Reply))
        → Answered out.net op s.tftp m
        → Returns (m >>= λ r. some (processed (some c.id) r.0 r.1 s))
    answer op none a = absurd (omega (arith, a))
    answer op (some r) a = tt

accept_connection-Returns :
    (out : Outside) (conn : ConnId) (s : Handler) → Returns (accept_connection out conn s)
unfolding accept_connection
accept_connection-Returns out conn s =
    let (p, f, l, m) = app_error-Sized out.net in
    if_ind Returns (out.app_transfer_begin _ == 0) (λ h. tt)
      (λ h. rw f (if_ind Returns (ltb 0 (length p)) (λ k. tt) (λ k. tt)))

dispatch-Returns :
    (out : Outside) (c : Conn) (ev : Event) (s : Handler)
    → IsReadable out c
    → Returns (dispatch out c ev s)
unfolding dispatch
dispatch-Returns out c new_connection s h =
    in_state Returns s.tftp_state (λ f. tt)
      (λ f.
        if_ind Returns (c.local_port == default_port)
          (λ g. accept_connection-Returns out (some c.id) s) (λ g. tt))
      (λ f. tt) (λ f. tt) (λ f. tt)
dispatch-Returns out c recv_data s h =
    in_state Returns s.tftp_state (λ f. tt) (λ f. tt) (λ f. receive-Returns out c s h) (λ f. tt)
      (λ f. tt)
dispatch-Returns out c ifup s h = tt
dispatch-Returns out c ifdown s h = tt
dispatch-Returns out c request_data s h = tt
dispatch-Returns out c resend_data s h = tt
dispatch-Returns out c sent_data s h = tt
dispatch-Returns out c poll s h = tt
dispatch-Returns out c timed_out s h = tt
dispatch-Returns out c aborted s h = tt
dispatch-Returns out c closed s h = tt
dispatch-Returns out c already_handled s h = tt

handle_event-Returns :
    (out : Outside) (c : Conn) (s : Handler) → IsReadable out c → Returns (handle_event out c s)
unfolding handle_event
handle_event-Returns out c s h =
    if_ind Returns (is_complete s.tftp_state) (λ e. tt)
      λ e. if_ind Returns (is_foreign c s) (λ k. tt) (λ k. dispatch-Returns out c c.event s h)

returned : (m : Option Handler) → Returns m → (t : Handler) × (m ≡ some t)
returned none h = absurd h
returned (some t) h = (t, refl)

-- Whatever events come in, of any connection and in any order, where the two strings of each write
-- request end in `rx_buffer`: the handler returns, the application was passed the blocks 1, 2, ... in
-- order and once each, it was told of the end of a transfer once if the server is in its last state
-- and not yet otherwise, an error or end signal is up only while there is a reply to be sent, and a
-- reply is in the buffer: `IsValid` is kept.
pub handle_events-returns :
    (out : Outside) (cs : List Conn) (s : Handler)
    → IsValid s
    → All (IsReadable out) cs
    → (t : Handler) × (handle_events out cs s ≡ some t) × IsValid t
handle_events-returns out [] s v a = (s, refl, v)
handle_events-returns out (c ∷ cs) s v a =
    let (t, e) = returned (handle_event out c s) (handle_event-Returns out c s a.0) in
    let w : IsValid t = subst (Holds IsValid) e (handle_event-IsValid out c s v) in
    let (u, f, x) = handle_events-returns out cs t w a.1 in
    (u, ap (λ m. m >>= handle_events out cs) e ∙ f, x)
