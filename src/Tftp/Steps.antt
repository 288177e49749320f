-- ===== src/Tftp/Steps.antt =====
-- What the simple steps of the TFTP event handler keep, whatever events come in.
use sc_xtcp.Base.{
  List, Option, [], ap, arith, if_ind, length, ltb, none, refl, some, true, ℕ, ◌+◌, ◌<◌, ◌||◌, ◌∙◌,
  ◌∷◌, ◌≡◌, ◌≤◌,
}
use sc_xtcp.Tftp.{Reply, Tftp}
use sc_xtcp.Tftp.Sized.{Sized}
use sc_xtcp.Tftp.Order.{IsOrdered}
use sc_xtcp.Tftp.Handler.{
  Call, ConnId, Handler, TftpState, call, clear_signals, fail_transfer, go_to, if_down, processed,
  send_reply, start_reply, tftp_close, tftp_complete, tftp_idle, tftp_sending_ack,
  tftp_waiting_for_connection, tftp_waiting_for_data, transfer_complete, transfer_error,
}

-- how often the end of a transfer was reported
abbrev pub completions : List Call → ℕ
completions [] = 0
completions (transfer_complete ∷ cs) = 1 + completions cs
completions (_ ∷ cs) = completions cs

-- how often it should have been
abbrev pub ended : TftpState → ℕ
ended tftp_complete = 1
ended _ = 0

-- The blocks that were passed on are in order; a signal goes with a reply that is to be sent; a reply
-- is in the buffer of 29 bytes, and there is one where the server sends to a connection; the end of
-- a transfer was reported once, or not yet.
pub record IsValid (s : Handler) : Type 0 where
  pub ordered : IsOrdered s.tftp
  pub signalled : (s.tftp.error || s.tftp.complete) ≡ true → 0 < s.num_tx_bytes
  pub buffered : s.num_tx_bytes ≤ length s.tx_buffer
  pub bounded : length s.tx_buffer ≤ 29
  pub replying :
      (c : ℕ) → s.tftp_state ≡ tftp_sending_ack → s.tftp_conn ≡ some c → 0 < s.num_tx_bytes
  pub reported : completions s.calls ≡ ended s.tftp_state

-- What holds of a result where there is one.
abbrev pub Holds : (Handler → Type 0) → Option Handler → Type 0
Holds P none = 0 ≤ 0
Holds P (some s) = P s

clear_signals-IsOrdered : (t : Tftp) → IsOrdered t → IsOrdered (clear_signals t)
clear_signals-IsOrdered t v = record { in_order = v.in_order; counted = v.counted }

-- After a close the state is any that fits the reports.
pub tftp_close-IsValid :
    (st : TftpState) (conn : ConnId) (s : Handler)
    → IsOrdered s.tftp
    → length s.tx_buffer ≤ 29
    → completions s.calls ≡ ended st
    → IsValid (go_to st (tftp_close conn s))
unfolding tftp_close
tftp_close-IsValid st conn s v l e = record {
  ordered = clear_signals-IsOrdered s.tftp v;
  signalled = λ h. absurd cc;
  buffered = omega arith;
  bounded = l;
  replying = λ c h k. absurd cc;
  reported = e;
}

pub start_reply-IsValid :
    (conn : ConnId) (p : List ℕ) (s : Handler)
    → IsOrdered s.tftp
    → 0 < length p
    → length p ≤ 29
    → completions s.calls ≡ 0
    → IsValid (start_reply conn p s)
unfolding start_reply
start_reply-IsValid conn p s v h l e = record {
  ordered = v;
  signalled = λ k. h;
  buffered = omega arith;
  bounded = l;
  replying = λ c k m. h;
  reported = e;
}

pub processed-IsValid :
    (conn : ConnId) (t : Tftp) (r : Reply) (s : Handler)
    → IsValid s
    → s.tftp_state ≡ tftp_waiting_for_data
    → IsOrdered t
    → Sized (some (t, r))
    → IsValid (processed conn t r s)
unfolding processed
processed-IsValid conn t none s v st o z =
    tftp_close-IsValid tftp_waiting_for_connection conn _ o v.bounded (v.reported ∙ ap ended st)
processed-IsValid conn t (some p) s v st o z =
    if_ind IsValid (ltb 0 (length p))
      (λ h.
        start_reply-IsValid conn p (record s { tftp = t; tx_buffer = p; num_tx_bytes = length p }) o
          (omega (arith, z.0)) z.1 (v.reported ∙ ap ended st))
      (λ h. absurd (ground (arith, z.0)))

-- A step in one state, in another.
pub in_state {ℓ κ} :
    {A : Type ℓ} (P : A → Type κ) (st : TftpState) {w x y z u : A}
    → (st ≡ tftp_idle → P w)
    → (st ≡ tftp_waiting_for_connection → P x)
    → (st ≡ tftp_waiting_for_data → P y)
    → (st ≡ tftp_sending_ack → P z)
    → (st ≡ tftp_complete → P u)
    → P (elim st [
      | tftp_idle ↦ w
      | tftp_waiting_for_connection ↦ x
      | tftp_waiting_for_data ↦ y
      | tftp_sending_ack ↦ z
      | tftp_complete ↦ u
    ])
in_state P tftp_idle a b c d e = a refl
in_state P tftp_waiting_for_connection a b c d e = b refl
in_state P tftp_waiting_for_data a b c d e = c refl
in_state P tftp_sending_ack a b c d e = d refl
in_state P tftp_complete a b c d e = e refl

pub if_down-IsValid : (conn : ConnId) (s : Handler) → IsValid s → IsValid (if_down conn s)
unfolding if_down tftp_close
if_down-IsValid conn s v =
    in_state IsValid s.tftp_state (λ e. v) (λ e. v) (λ e. lost) (λ e. lost) (λ e. v)
  where
    lost : IsValid (fail_transfer conn s)
    lost =
        tftp_close-IsValid s.tftp_state conn (call transfer_error s) v.ordered v.bounded v.reported

pub send_reply-IsValid : (s : Handler) → IsValid s → IsValid (send_reply s)
unfolding send_reply
send_reply-IsValid s v =
    if_ind IsValid (ltb 0 s.num_tx_bytes)
      (λ h. record {
        ordered = v.ordered;
        signalled = v.signalled;
        buffered = v.buffered;
        bounded = v.bounded;
        replying = v.replying;
        reported = v.reported;
      })
      (λ h. v)
