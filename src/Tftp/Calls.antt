-- ===== src/Tftp/Calls.antt =====
-- What the application is told, and what is ready to be sent, whatever events come in.
use sc_xtcp.Base.{
  List, Option, ap, arith, false, if_ind, length, ltb, none, refl, some, ℕ, ◌==◌, ◌>>=◌, ◌∙◌, ◌≡◌,
  ◌≤◌,
}
use sc_xtcp.Tftp.{Env, Reply, Tftp, make_error_pkt, process_app_error, process_packet}
use sc_xtcp.Tftp.Sized.{Sized, process_packet-Sized}
use sc_xtcp.Server.{
  Event, aborted, already_handled, closed, ifdown, ifup, new_connection, poll, recv_data,
  request_data, resend_data, sent_data, timed_out,
}
use sc_xtcp.Tftp.Order.{IsOrdered, Ordered, process_packet-Ordered}
use sc_xtcp.Tftp.Handler.{
  Conn, ConnId, Handler, Outside, TftpState, accept_connection, default_port, dispatch,
  handle_event, is_complete, is_foreign, poll_timeout, processed, receive, refused, rx_buffer_size,
  same_conn, sent, tftp_complete, tftp_idle, tftp_sending_ack, tftp_waiting_for_connection,
  tftp_waiting_for_data, xtcp_recv_count,
}
use sc_xtcp.Tftp.Steps.{
  Holds, IsValid, completions, ended, if_down-IsValid, in_state, processed-IsValid,
  send_reply-IsValid, start_reply-IsValid, tftp_close-IsValid,
}

receive-IsValid :
    (out : Outside) (c : Conn) (s : Handler)
    → IsValid s
    → s.tftp_state ≡ tftp_waiting_for_data
    → Holds IsValid (receive out c s)
unfolding receive
receive-IsValid out c s v e =
    let rx = xtcp_recv_count c.data_in rx_buffer_size out.rx_buffer in
    if_ind (Holds IsValid) (same_conn s.tftp_conn c.id)
      (λ h.
        answer (process_packet out.net rx.0 rx.1 s.tftp)
          (process_packet-Ordered out.net rx.0 rx.1 s.tftp v.ordered)
          (process_packet-Sized out.net rx.0 rx.1 s.tftp))
      (λ h. v)
  where
    answer :
        (m : Option (Tftp × Reply))
        → Ordered m
        → Sized m
        → Holds IsValid (m >>= λ r. some (processed (some c.id) r.0 r.1 s))
    answer none o z = omega arith
    answer (some (t, r)) o z = processed-IsValid (some c.id) t r s v e o z

poll_timeout-IsValid : (s : Handler) → IsValid s → IsValid (poll_timeout s)
unfolding poll_timeout
poll_timeout-IsValid s v =
    in_state IsValid s.tftp_state (λ e. next) (λ e. next)
      (λ e.
        if_ind IsValid (s.prev_block_num == s.tftp.block_num_glob)
          (λ h.
            tftp_close-IsValid tftp_waiting_for_connection s.tftp_conn s v.ordered v.bounded
              (v.reported ∙ ap ended e))
          (λ h. next))
      (λ e. next) (λ e. next)
  where
    next : IsValid (record s { prev_block_num = s.tftp.block_num_glob })
    next = record {
      ordered = v.ordered;
      signalled = v.signalled;
      buffered = v.buffered;
      bounded = v.bounded;
      replying = v.replying;
      reported = v.reported;
    }

pub app_error-Sized :
    (env : Env) → (p : List ℕ) × (process_app_error env ≡ some p) × (4 ≤ length p) × (length p ≤ 29)
unfolding process_app_error make_error_pkt
app_error-Sized env = (_, refl, omega arith, omega arith)

accept_connection-IsValid :
    (out : Outside) (conn : ConnId) (s : Handler)
    → IsValid s
    → completions s.calls ≡ 0
    → Holds IsValid (accept_connection out conn s)
unfolding accept_connection
accept_connection-IsValid out conn s v e =
    let (p, f, l, m) = app_error-Sized out.net in
    if_ind (Holds IsValid) (out.app_transfer_begin _ == 0)
      (λ h. record {
        ordered = v.ordered;
        signalled = v.signalled;
        buffered = v.buffered;
        bounded = v.bounded;
        replying = λ c k n. absurd cc;
        reported = e;
      })
      (λ h. rw f (
        if_ind (Holds IsValid) (ltb 0 (length p))
          (λ k.
            start_reply-IsValid conn p _ (refused-IsOrdered s.tftp v.ordered) (omega (arith, l)) m
              e)
          (λ k. absurd (ground (arith, l)))))
  where
    refused-IsOrdered : (t : Tftp) → IsOrdered t → IsOrdered (refused t)
    refused-IsOrdered t w = record { in_order = w.in_order; counted = w.counted }

sent-IsValid :
    (conn : ConnId) (s : Handler) → IsValid s → completions s.calls ≡ 0 → IsValid (sent conn s)
unfolding sent
sent-IsValid conn s v e =
    if_ind IsValid s.tftp.error
      (λ h. tftp_close-IsValid tftp_waiting_for_connection conn _ v.ordered v.bounded e)
      λ h.
        if_ind IsValid s.tftp.complete
          (λ k. tftp_close-IsValid tftp_complete conn _ v.ordered v.bounded (omega (arith, e)))
          (λ k. record {
            ordered = v.ordered;
            signalled = λ l. absurd (ground (arith, h, k, l));
            buffered = omega arith;
            bounded = v.bounded;
            replying = λ c l m. absurd cc;
            reported = e;
          })

dispatch-IsValid :
    (out : Outside) (c : Conn) (ev : Event) (s : Handler)
    → IsValid s
    → completions s.calls ≡ 0
    → Holds IsValid (dispatch out c ev s)
unfolding dispatch
dispatch-IsValid out c ifup s v e = record {
  ordered = v.ordered;
  signalled = v.signalled;
  buffered = v.buffered;
  bounded = v.bounded;
  replying = λ c k m. absurd cc;
  reported = e;
}
dispatch-IsValid out c ifdown s v e = if_down-IsValid (some c.id) s v
dispatch-IsValid out c new_connection s v e =
    in_state (Holds IsValid) s.tftp_state (λ f. v)
      (λ f.
        if_ind (Holds IsValid) (c.local_port == default_port)
          (λ g. accept_connection-IsValid out (some c.id) s v e) (λ g. v))
      (λ f. v) (λ f. v) (λ f. v)
dispatch-IsValid out c recv_data s v e =
    in_state (Holds IsValid) s.tftp_state (λ f. v) (λ f. v) (λ f. receive-IsValid out c s v f)
      (λ f. v) (λ f. v)
dispatch-IsValid out c request_data s v e =
    in_state IsValid s.tftp_state (λ f. v) (λ f. v) (λ f. v) (λ f. send_reply-IsValid s v) (λ f. v)
dispatch-IsValid out c resend_data s v e =
    in_state IsValid s.tftp_state (λ f. v) (λ f. v) (λ f. v) (λ f. send_reply-IsValid s v) (λ f. v)
dispatch-IsValid out c sent_data s v e = sent-IsValid (some c.id) s v e
dispatch-IsValid out c poll s v e = poll_timeout-IsValid s v
dispatch-IsValid out c timed_out s v e = v
dispatch-IsValid out c aborted s v e = v
dispatch-IsValid out c closed s v e = v
dispatch-IsValid out c already_handled s v e = v

pub handle_event-IsValid :
    (out : Outside) (c : Conn) (s : Handler) → IsValid s → Holds IsValid (handle_event out c s)
unfolding handle_event
handle_event-IsValid out c s v =
    if_ind (Holds IsValid) (is_complete s.tftp_state) (λ h. v)
      λ h.
        if_ind (Holds IsValid) (is_foreign c s) (λ k. v)
          (λ k. dispatch-IsValid out c c.event s v (v.reported ∙ not_ended s.tftp_state h))
  where
    not_ended : (st : TftpState) → is_complete st ≡ false → ended st ≡ 0
    not_ended tftp_idle h = refl
    not_ended tftp_waiting_for_connection h = refl
    not_ended tftp_waiting_for_data h = refl
    not_ended tftp_sending_ack h = refl
    not_ended tftp_complete h = absurd cc
