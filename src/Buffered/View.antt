-- ===== src/Buffered/View.antt =====
-- The transmit buffer as a queue: what clients and server see of it, without memory and pointers.
use mathlib.Core.Path.{subst}
use sc_xtcp.Base.{
  Bool, List, [], ap, arith, drop, false, if_ind, if◌then◌else◌, leb, length, ltb, refl, sym, take,
  true, ℕ, ◌&&◌, ◌++◌, ◌+◌, ◌-◌, ◌==◌, ◌∙◌, ◌∷◌, ◌≡◌,
}
use sc_xtcp.Buffered.{
  Call, TxInfo, call_if, compact, init_send, pause, send, send_buffer_remaining, send_handler,
  store, transmit, unpause,
}
use sc_xtcp.Buffered.Transmit.{
  IsValid, Offered, accepted, in_flight, length-in_flight, length-waiting, rejected, waiting,
}
use sc_xtcp.Buffered.Queue.{Op, ask, put, resend, send-Offered, send_handler-Advanced}

-- The bytes that were sent last, the bytes that wait, and the two sizes.
pub record Queue : Type 0 where
  pub flying : List ℕ
  pub waits : List ℕ
  pub size : ℕ
  pub lowmark : ℕ

abbrev pub room : Queue → ℕ
room q = q.size - (length q.flying + length q.waits)

-- Bytes are queued where they fit in the room. A send event is asked for if nothing waited, and the
-- connection is paused if the room left is under the low mark.
abbrev pub put_queue : List ℕ → Queue → Queue × Bool × List Call
put_queue buf q =
    let q1 : Queue = record q { waits = q.waits ++ buf } in
    if ltb q.size (length q.flying + length q.waits + length buf) then (q, false, []) else (
      q1,
      true,
      call_if (length q.waits == 0) init_send (call_if (ltb (room q1) q.lowmark) pause []),
    )

-- The next bytes are sent, at most `mss`, and those sent last are forgotten. The connection is resumed
-- where these bytes bring the room back over the low mark.
abbrev pub ask_queue : ℕ → Queue → Queue × List Call
ask_queue mss q = (
  record q { flying = take mss q.waits; waits = drop mss q.waits },
  transmit (take mss q.waits)
      ∷ call_if (ltb (room q) q.lowmark && leb q.lowmark (room q + length (take mss q.waits)))
          unpause [],
)

-- what a client or the server gets
abbrev pub Answer : Type 0
Answer = Bool × List Call

-- The answers of the queue to calls and events, and the queue at the end.
abbrev pub queue_answers : Queue → List Op → List Answer × Queue
queue_answers q [] = ([], q)
queue_answers q (put buf ∷ ops) =
    let r = put_queue buf q in let rest = queue_answers r.0 ops in ((r.1, r.2) ∷ rest.0, rest.1)
queue_answers q (ask mss ∷ ops) =
    let r = ask_queue mss q in let rest = queue_answers r.0 ops in ((true, r.1) ∷ rest.0, rest.1)
queue_answers q (resend mss ∷ ops) =
    let rest = queue_answers q ops in ((true, transmit q.flying ∷ []) ∷ rest.0, rest.1)

-- The answers of the buffer.
unfoldable pub answers : TxInfo → List Op → List Answer × TxInfo
answers b [] = ([], b)
answers b (put buf ∷ ops) =
    let r = send b buf in let rest = answers r.0 ops in ((r.1, r.2) ∷ rest.0, rest.1)
answers b (ask mss ∷ ops) =
    let r = send_handler false mss b in let rest = answers r.0 ops in ((true, r.1) ∷ rest.0, rest.1)
answers b (resend mss ∷ ops) =
    let r = send_handler true mss b in let rest = answers r.0 ops in ((true, r.1) ∷ rest.0, rest.1)

abbrev pub view : TxInfo → Queue
view b = record { flying = in_flight b; waits = waiting b; size = b.tx_end; lowmark = b.tx_lowmark }

room-view : (b : TxInfo) → IsValid b → room (view b) ≡ send_buffer_remaining b
unfolding send_buffer_remaining
room-view b v =
    omega (arith, v.prev_first, v.read_first, v.write_in, length-in_flight b v, length-waiting b v)

-- the sizes of a buffer are those of another
abbrev Sized : TxInfo → TxInfo → Type 0
Sized b c = (c.tx_end ≡ b.tx_end) × (c.tx_lowmark ≡ b.tx_lowmark)

store-Sized : (b c : TxInfo) (buf : List ℕ) → Sized b c → Sized b (store c buf).0
unfolding store
store-Sized b c buf h =
    if_ind (λ (r : TxInfo × Bool × List Call). Sized b r.0)
      (ltb (c.tx_end - c.tx_wrptr) (length buf)) (λ e. h) (λ e. h)

send-Sized : (b : TxInfo) (buf : List ℕ) → Sized b (send b buf).0
unfolding send compact
send-Sized b buf = store-Sized b _ buf (
    if_ind (Sized b) (ltb (b.tx_end - b.tx_wrptr) (length buf)) {x = compact b} {y = b}
      (λ e. (refl, refl)) (λ e. (refl, refl)))

abbrev pub queue : List ℕ → List ℕ → ℕ → ℕ → Queue
queue f w s l = record { flying = f; waits = w; size = s; lowmark = l }

abbrev pub result : Queue → Bool → List Call → Queue × Bool × List Call
result q b c = (q, b, c)

pub queue_path :
    {f g w x : List ℕ} {s t l m : ℕ} → f ≡ g → w ≡ x → s ≡ t → l ≡ m → queue f w s l ≡ queue g x t m
queue_path h i j k = cc

answer_path :
    {q r : Queue} {a b : Bool} {c d : List Call}
    → q ≡ r
    → a ≡ b
    → c ≡ d
    → result q a c ≡ result r b d
answer_path h i j = cc

-- `xtcp_buffered_send` is the queue's operation.
pub send-view :
    (b : TxInfo) (buf : List ℕ)
    → IsValid b
    → (view (send b buf).0, (send b buf).1, (send b buf).2) ≡ put_queue buf (view b)
send-view b buf v =
    let (o, w, f) = send-Offered b buf v in
    let (e, m) = send-Sized b buf in go (send b buf) o w f e m
  where
    go :
        (r : TxInfo × Bool × List Call)
        → Offered b buf r
        → IsValid r.0
        → in_flight r.0 ≡ in_flight b
        → r.0.tx_end ≡ b.tx_end
        → r.0.tx_lowmark ≡ b.tx_lowmark
        → (view r.0, r.1, r.2) ≡ put_queue buf (view b)
    go r (accepted h a q c) w f e m =
        let fits : ltb b.tx_end (length (in_flight b) + length (waiting b) + length buf) ≡ false =
          ground (arith, h) in
        let same = queue_path f q e m in
        rw fits (
          answer_path same a (
            c
            ∙ ap
                (λ n.
                  call_if (length (waiting b) == 0) init_send
                    (call_if (ltb n b.tx_lowmark) pause []))
                (sym (room-view r.0 w) ∙ ap room same)))
    go r (rejected h a q c) w f e m =
        let full : ltb b.tx_end (length (in_flight b) + length (waiting b) + length buf) ≡ true =
          ground (arith, h) in
        rw full (answer_path (queue_path f q e m) a c)

send_handler-Sized : (mss : ℕ) (b : TxInfo) → Sized b (send_handler false mss b).0
unfolding send_handler
send_handler-Sized mss b = (refl, refl)

-- The events that ask for new data are the queue's operation.
pub send_handler-view :
    (mss : ℕ) (b : TxInfo)
    → IsValid b
    → result (view (send_handler false mss b).0) true (send_handler false mss b).1
      ≡ result (ask_queue mss (view b)).0 true (ask_queue mss (view b)).1
send_handler-view mss b v =
    let a = send_handler-Advanced mss b v in
    let (e, m) = send_handler-Sized mss b in
    answer_path (queue_path a.flying a.left e m) refl (rw (room-view b v) a.sent)

-- A first answer that agrees, and answers after it that agree.
agree_first :
    (r q : Queue × Bool × List Call) (rest : List Answer × TxInfo) (ops : List Op)
    → r ≡ q
    → (rest.0 ≡ (queue_answers r.0 ops).0) × (view rest.1 ≡ (queue_answers r.0 ops).1)
    → ((r.1, r.2) ∷ rest.0 ≡ (q.1, q.2) ∷ (queue_answers q.0 ops).0)
      × (view rest.1 ≡ (queue_answers q.0 ops).1)
agree_first r q rest ops e h =
    subst
      (λ (x : Queue × Bool × List Call).
        ((r.1, r.2) ∷ rest.0 ≡ (x.1, x.2) ∷ (queue_answers x.0 ops).0)
        × (view rest.1 ≡ (queue_answers x.0 ops).1))
      e (ap (◌∷◌ (r.1, r.2)) h.0, h.1)

-- From a valid buffer, over every sequence of calls and events, `xtcp_buffered_send` and
-- `xtcp_buffered_send_handler` answer as the queue does: with the same refusals, the same bytes sent
-- and sent again, and the same requests to send, pause and resume, and the buffer holds at the end
-- what the queue holds. The places of the bytes in memory, and their moves, are not seen.
pub answers-queue_answers :
    (ops : List Op) (b : TxInfo)
    → IsValid b
    → ((answers b ops).0 ≡ (queue_answers (view b) ops).0)
      × (view (answers b ops).1 ≡ (queue_answers (view b) ops).1)
unfolding answers send_handler
answers-queue_answers [] b v = (refl, refl)
answers-queue_answers (put buf ∷ ops) b v =
    agree_first (view (send b buf).0, (send b buf).1, (send b buf).2) (put_queue buf (view b))
      (answers (send b buf).0 ops) ops (send-view b buf v)
      (answers-queue_answers ops (send b buf).0 (send-Offered b buf v).1)
answers-queue_answers (ask mss ∷ ops) b v =
    agree_first (view (send_handler false mss b).0, true, (send_handler false mss b).1)
      ((ask_queue mss (view b)).0, true, (ask_queue mss (view b)).1)
      (answers (send_handler false mss b).0 ops) ops (send_handler-view mss b v)
      (answers-queue_answers ops (send_handler false mss b).0 (send_handler-Advanced mss b v).valid)
answers-queue_answers (resend mss ∷ ops) b v =
    agree_first (view b, true, transmit (in_flight b) ∷ [])
      (view b, true, transmit (in_flight b) ∷ []) (answers b ops) ops refl
      (answers-queue_answers ops b v)
