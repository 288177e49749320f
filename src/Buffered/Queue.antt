-- ===== src/Buffered/Queue.antt =====
-- The transmit buffer as a queue of bytes: what each call does to it, and to a sequence of calls.
use sc_xtcp.Base.{
  Bool, Bool-cases, List, [], ap, append-nil, append_assoc, arith, drop, drop-length, drop-nil,
  false, inl, inr, leb, length, length-take, ltb, min, refl, sym, take, take-append-drop,
  take-length, take-nil, true, ℕ, ◌&&◌, ◌++◌, ◌+◌, ◌-◌, ◌∙◌, ◌∷◌, ◌≡◌,
}
use native.Mathlib.Decide.{dec_le}
use sc_xtcp.Buffered.{
  Call, TxInfo, call_if, compact, send, send_buffer_remaining, send_handler, store, transmit,
  unpause,
}
use sc_xtcp.Buffered.Transmit.{
  IsValid, Offered, accepted, compact-IsValid, compact-keeps, in_flight, length-waiting, rejected,
  store-IsValid, store-Offered, store-in_flight, waiting,
}
use sc_xtcp.Buffered.Memory.{drop-slice, slice, take-slice}

Offered-transfer :
    (b c : TxInfo) (buf : List ℕ) (r : TxInfo × Bool × List Call)
    → in_flight c ≡ in_flight b
    → waiting c ≡ waiting b
    → c.tx_end ≡ b.tx_end
    → c.tx_lowmark ≡ b.tx_lowmark
    → Offered c buf r
    → Offered b buf r
Offered-transfer b c buf r f w e l (accepted fits a q calls) =
    accepted (omega (arith, ap length f, ap length w)) a (q ∙ ap (λ xs. xs ++ buf) w)
      (calls ∙ ground (arith, ap length w))
Offered-transfer b c buf r f w e l (rejected full a q calls) =
    rejected (omega (arith, ap length f, ap length w)) a (q ∙ w) calls

compact-fixed :
    (b : TxInfo)
    → ((compact b).tx_end ≡ b.tx_end)
      × ((compact b).tx_lowmark ≡ b.tx_lowmark)
      × ((compact b).tx_prev_rdptr ≡ 0)
unfolding compact
compact-fixed b = (refl, refl, refl)

-- `xtcp_buffered_send` on a valid buffer keeps the invariant and the bytes in flight, and queues
-- all of the bytes exactly where they fit beside those in flight and those waiting, and else none.
-- It asks for a send event exactly when it queues and nothing was waiting, and pauses the
-- connection exactly when it queues and less room than the low mark is left.
pub send-Offered :
    (b : TxInfo) (buf : List ℕ)
    → IsValid b
    → Offered b buf (send b buf) × IsValid (send b buf).0 × (in_flight (send b buf).0 ≡ in_flight b)
unfolding send
send-Offered b buf v = elim (Bool-cases (ltb (b.tx_end - b.tx_wrptr) (length buf))) [
  | inl e ↦ rw e (
    Offered-transfer b (compact b) buf (store (compact b) buf) (compact-keeps b v).0
        (compact-keeps b v).1 (compact-fixed b).0 (compact-fixed b).1
        (store-Offered (compact b) buf (compact-IsValid b v) (inl (compact-fixed b).2)),
    store-IsValid (compact b) buf (compact-IsValid b v),
    store-in_flight (compact b) buf (compact-IsValid b v) ∙ (compact-keeps b v).0,
  )
  | inr e ↦
      rw e
        (store-Offered b buf v (inr (ground arith)), store-IsValid b buf v, store-in_flight b buf v)
]

take-min : (m : ℕ) (xs : List ℕ) → take (min (length xs) m) xs ≡ take m xs
take-min m xs = elim (dec_le m (length xs)) [
  | yes h ↦ ap (λ n. take n xs) (omega arith)
  | no h ↦ take-length (min (length xs) m) xs (omega arith) ∙ sym (take-length m xs (omega arith))
]

drop-min : (m : ℕ) (xs : List ℕ) → drop (min (length xs) m) xs ≡ drop m xs
drop-min m xs = elim (dec_le m (length xs)) [
  | yes h ↦ ap (λ n. drop n xs) (omega arith)
  | no h ↦ drop-length (min (length xs) m) xs (omega arith) ∙ sym (drop-length m xs (omega arith))
]

-- What an event that asks for new data does: what was in flight is forgotten, as many waiting bytes
-- as the segment size allows are sent and are in flight now, and the others wait on. The connection
-- is resumed where the room was under the low mark and the bytes just sent would make up for it.
pub record Advanced (mss : ℕ) (b : TxInfo) (r : TxInfo × List Call) : Type 0 where
  pub valid : IsValid r.0
  pub flying : in_flight r.0 ≡ take mss (waiting b)
  pub left : waiting r.0 ≡ drop mss (waiting b)
  pub sent :
      r.1
      ≡ transmit (take mss (waiting b))
        ∷ call_if
            (ltb (send_buffer_remaining b) b.tx_lowmark
              && leb b.tx_lowmark (send_buffer_remaining b + length (take mss (waiting b))))
            unpause
            []

module _ (mss : ℕ) (b : TxInfo) (v : IsValid b) where
  abbrev burst : ℕ
  burst = min (b.tx_wrptr - b.tx_rdptr) mss

  burst-min : burst ≡ min (length (waiting b)) mss
  burst-min = ap (λ n. min n mss) (sym (length-waiting b v))

  sent_slice : slice b.mem b.tx_rdptr (b.tx_rdptr + burst) ≡ take mss (waiting b)
  sent_slice =
      sym (take-slice b.mem b.tx_rdptr b.tx_wrptr burst (omega (arith, v)))
      ∙ ap (λ n. take n (waiting b)) burst-min
      ∙ take-min mss (waiting b)

  left_slice : slice b.mem (b.tx_rdptr + burst) b.tx_wrptr ≡ drop mss (waiting b)
  left_slice =
      sym (drop-slice b.mem b.tx_rdptr b.tx_wrptr burst)
      ∙ ap (λ n. drop n (waiting b)) burst-min
      ∙ drop-min mss (waiting b)

  length-burst : length (take mss (waiting b)) ≡ burst
  length-burst = omega (arith, length-take mss (waiting b), burst-min)

-- On a valid buffer XTCP_REQUEST_DATA and XTCP_SENT_DATA keep the invariant, take the bytes last
-- sent for acknowledged, and send the next waiting bytes, at most `mss` of them, in their order.
pub send_handler-Advanced :
    (mss : ℕ) (b : TxInfo) → IsValid b → Advanced mss b (send_handler false mss b)
unfolding send_handler send_buffer_remaining
send_handler-Advanced mss b v = record {
  valid = ground arith;
  flying = sent_slice mss b v;
  left = left_slice mss b v;
  sent = rw (length-burst mss b v, sent_slice mss b v);
}

-- XTCP_RESEND_DATA, after any event that asked for data, sends the very bytes that the event sent
-- and changes nothing.
send_handler-resend :
    (mss mss' : ℕ) (b : TxInfo)
    → IsValid b
    → let (c, calls) = send_handler false mss b in
      send_handler true mss' c ≡ (c, transmit (take mss (waiting b)) ∷ [])
unfolding send_handler
send_handler-resend mss mss' b v = rw (sent_slice mss b v)

-- The calls of an application and the events of the server, in their order.
pub data Op : Type 0 where
  put : List ℕ → Op
  ask resend : ℕ → Op

-- the bytes that `send` took
abbrev pub taken : Bool → List ℕ → List ℕ
taken true buf = buf
taken false buf = []

abbrev pub first_sent : List Call → List ℕ
first_sent (transmit xs ∷ calls) = xs
first_sent _ = []

-- The bytes accepted by `send`, the bytes sent for the first time, and the buffer at the end.
unfoldable pub run : TxInfo → List Op → List ℕ × List ℕ × TxInfo
run b [] = ([], [], b)
run b (put buf ∷ ops) =
    let (c, done, calls) = send b buf in
    let (into, out, end) = run c ops in (taken done buf ++ into, out, end)
run b (ask mss ∷ ops) =
    let (c, calls) = send_handler false mss b in
    let (into, out, end) = run c ops in (into, first_sent calls ++ out, end)
run b (resend mss ∷ ops) = run (send_handler true mss b).0 ops

waiting_of_Offered :
    (b : TxInfo) (buf : List ℕ) (r : TxInfo × Bool × List Call)
    → Offered b buf r
    → waiting r.0 ≡ waiting b ++ taken r.1 buf
waiting_of_Offered b buf r (accepted _ a w _) = w ∙ rw a
waiting_of_Offered b buf r (rejected _ a w _) = w ∙ rw (a, append-nil)

waiting-send :
    (b : TxInfo) (buf : List ℕ)
    → IsValid b
    → waiting (send b buf).0 ≡ waiting b ++ taken (send b buf).1 buf
waiting-send b buf v = waiting_of_Offered b buf (send b buf) (send-Offered b buf v).0

resend_keeps : (mss : ℕ) (b : TxInfo) → (send_handler true mss b).0 ≡ b
unfolding send_handler
resend_keeps mss b = refl

-- Over every sequence of calls and events on a valid buffer, the bytes sent followed by those that
-- wait at the end are the bytes that waited at the start followed by those accepted: none is lost,
-- doubled or out of order.
pub run_fifo :
    (ops : List Op) (b : TxInfo)
    → IsValid b
    → let (into, out, end) = run b ops in (out ++ waiting end ≡ waiting b ++ into) × IsValid end
unfolding run
run_fifo [] b v = (sym (append-nil (waiting b)), v)
run_fifo (put buf ∷ ops) b v =
    let (c, done, calls) = send b buf in
    let (into, out, end) = run c ops in
    let (fifo, valid) = run_fifo ops c (send-Offered b buf v).1 in
    (
      fifo
          ∙ ap (λ l. l ++ into) (waiting-send b buf v)
          ∙ append_assoc (waiting b) (taken done buf) into,
      valid,
    )
run_fifo (ask mss ∷ ops) b v =
    let (c, calls) = send_handler false mss b in
    let (into, out, end) = run c ops in
    let adv = send_handler-Advanced mss b v in
    let (fifo, valid) = run_fifo ops c adv.valid in
    (
      ap (λ l. (l ++ out) ++ waiting end) (ap first_sent adv.sent)
          ∙ append_assoc (take mss (waiting b)) out (waiting end)
          ∙ ap (◌++◌ (take mss (waiting b))) (fifo ∙ ap (λ l. l ++ into) adv.left)
          ∙ sym (append_assoc (take mss (waiting b)) (drop mss (waiting b)) into)
          ∙ ap (λ l. l ++ into) (take-append-drop mss (waiting b)),
      valid,
    )
run_fifo (resend mss ∷ ops) b v =
    let same : IsValid (send_handler true mss b).0 = rw (resend_keeps mss b) v in
    let (fifo, valid) = run_fifo ops (send_handler true mss b).0 same in
    (
      fifo ∙ ap (λ c. waiting c ++ (run (send_handler true mss b).0 ops).0) (resend_keeps mss b),
      valid,
    )

-- On a valid buffer with no byte waiting, the event that reports an acknowledgement makes one call,
-- a send of no bytes, and so does not resume the connection, although afterwards no byte is in
-- flight or waiting.
pub send_handler_stays_paused :
    (mss : ℕ) (b : TxInfo)
    → IsValid b
    → waiting b ≡ []
    → let (c, calls) = send_handler false mss b in
      (calls ≡ transmit [] ∷ []) × (in_flight c ≡ []) × (waiting c ≡ [])
send_handler_stays_paused mss b v h =
    let adv = send_handler-Advanced mss b v in
    let nothing = ap (take mss) h ∙ take-nil mss in
    (
      adv.sent ∙ rw nothing (ground arith),
      adv.flying ∙ nothing,
      adv.left ∙ ap (drop mss) h ∙ drop-nil mss,
    )
