-- ===== src/Buffered/Transmit.antt =====
-- The transmit half of xtcp_buffered_client.c: the two queues that the three pointers delimit.
use sc_xtcp.Base.{
  Bool, Bool-cases, List, [], ap, arith, false, inl, inr, length, ltb, refl, true, ℕ, ◌++◌, ◌+◌,
  ◌-◌, ◌<◌, ◌==◌, ◌∙◌, ◌≡◌, ◌≤◌, ◌⊎◌,
}
use sc_xtcp.Buffered.Memory.{
  length-slice, length-write_at, slice, slice-cut, slice-moved, slice-write_at,
  slice-write_at_before, write_at,
}
use sc_xtcp.Buffered.{
  Call, TxInfo, call_if, compact, init_send, pause, send_buffer_remaining, store,
}

-- The pointers are in order and inside the buffer.
pub record IsValid (b : TxInfo) : Type 0 where
  pub prev_first : b.tx_prev_rdptr ≤ b.tx_rdptr
  pub read_first : b.tx_rdptr ≤ b.tx_wrptr
  pub write_in : b.tx_wrptr ≤ b.tx_end
  pub sized : length b.mem ≡ b.tx_end

-- the bytes handed to the server and not acknowledged
abbrev pub in_flight : TxInfo → List ℕ
in_flight b = slice b.mem b.tx_prev_rdptr b.tx_rdptr

-- the bytes that wait for the next request
abbrev pub waiting : TxInfo → List ℕ
waiting b = slice b.mem b.tx_rdptr b.tx_wrptr

-- The whole content.
pub queued : TxInfo → List ℕ
queued b = slice b.mem b.tx_prev_rdptr b.tx_wrptr

in_flight-append-waiting : (b : TxInfo) → IsValid b → in_flight b ++ waiting b ≡ queued b
unfolding queued
in_flight-append-waiting b v =
    slice-cut b.mem b.tx_prev_rdptr b.tx_rdptr b.tx_wrptr v.prev_first v.read_first

length-queued : (b : TxInfo) → IsValid b → length (queued b) ≡ b.tx_wrptr - b.tx_prev_rdptr
unfolding queued
length-queued b v = length-slice b.mem b.tx_prev_rdptr b.tx_wrptr (omega arith)

pub compact-IsValid : (b : TxInfo) → IsValid b → IsValid (compact b)
unfolding compact queued
compact-IsValid b v = ground (arith, length-queued b v, length-write_at b.mem 0 (queued b))

-- Compaction moves the bytes and keeps both queues.
pub compact-keeps :
    (b : TxInfo)
    → IsValid b
    → (in_flight (compact b) ≡ in_flight b) × (waiting (compact b) ≡ waiting b)
unfolding compact
compact-keeps b v = (
  ap (λ n. slice moved n (b.tx_rdptr - b.tx_prev_rdptr)) (omega arith)
      ∙ slice-moved b.mem b.tx_prev_rdptr b.tx_wrptr b.tx_prev_rdptr b.tx_rdptr (omega arith)
          (omega arith) (omega arith) (omega arith),
  slice-moved b.mem b.tx_prev_rdptr b.tx_wrptr b.tx_rdptr b.tx_wrptr (omega arith) (omega arith)
      (omega arith) (omega arith),
)
  where
    moved : List ℕ
    moved = write_at b.mem 0 (slice b.mem b.tx_prev_rdptr b.tx_wrptr)

-- What `xtcp_buffered_send` does with the bytes `buf`: it queues them all, asks for a send event if
-- nothing was waiting, and pauses the connection if the room left is under the low mark; or it
-- refuses them all, which happens exactly where they do not fit.
pub data Offered (b : TxInfo) (buf : List ℕ) (r : TxInfo × Bool × List Call) : Type 0 where
  accepted :
      length (in_flight b) + length (waiting b) + length buf ≤ b.tx_end
      → r.1 ≡ true
      → waiting r.0 ≡ waiting b ++ buf
      → r.2
        ≡ call_if
            (length (waiting b) == 0)
            init_send
            (call_if (ltb (send_buffer_remaining r.0) b.tx_lowmark) pause [])
      → Offered b buf r
  rejected :
      b.tx_end < length (in_flight b) + length (waiting b) + length buf
      → r.1 ≡ false
      → waiting r.0 ≡ waiting b
      → r.2 ≡ []
      → Offered b buf r

pub store-IsValid : (b : TxInfo) (buf : List ℕ) → IsValid b → IsValid (store b buf).0
unfolding store
store-IsValid b buf v = ground (arith, length-write_at b.mem b.tx_wrptr buf)

pub store-in_flight :
    (b : TxInfo) (buf : List ℕ) → IsValid b → in_flight (store b buf).0 ≡ in_flight b
unfolding store
store-in_flight b buf v =
    ground (arith, slice-write_at_before b.mem b.tx_prev_rdptr b.tx_rdptr b.tx_wrptr buf)

module _ (b : TxInfo) (v : IsValid b) where
  pub length-in_flight : length (in_flight b) ≡ b.tx_rdptr - b.tx_prev_rdptr
  length-in_flight = length-slice b.mem b.tx_prev_rdptr b.tx_rdptr (omega arith)

  pub length-waiting : length (waiting b) ≡ b.tx_wrptr - b.tx_rdptr
  length-waiting = length-slice b.mem b.tx_rdptr b.tx_wrptr (omega arith)

-- `store` on a buffer that has been compacted, or has the room.
pub store-Offered :
    (b : TxInfo) (buf : List ℕ)
    → IsValid b
    → (b.tx_prev_rdptr ≡ 0) ⊎ (length buf ≤ b.tx_end - b.tx_wrptr)
    → Offered b buf (store b buf)
unfolding store send_buffer_remaining
store-Offered b buf v h = elim (Bool-cases (ltb (b.tx_end - b.tx_wrptr) (length buf))) [
  | inl e ↦ rw e (rejected (ground (arith, l1, l2)) refl refl refl)
  | inr e ↦ rw e (
      accepted (ground (arith, l1, l2)) refl
        (slice-write_at b.mem b.tx_rdptr b.tx_wrptr buf (omega arith) (ground arith))
        (ground (arith, l1, l2)))
]
  where
    l1 : length (in_flight b) ≡ b.tx_rdptr - b.tx_prev_rdptr
    l1 = length-in_flight b v

    l2 : length (waiting b) ≡ b.tx_wrptr - b.tx_rdptr
    l2 = length-waiting b v
