-- ===== src/Buffered/Receive.antt =====
-- The receive half of xtcp_buffered_client.c: no overrun, and what the two receive functions hand
-- over of the byte stream.
use sc_xtcp.Base.{
  Bool-cases, List, Option, [], arith, drop, false, if◌then◌else◌, inl, inr, length, ltb, none,
  refl, some, sym, take, true, ℕ, ◌++◌, ◌+◌, ◌-◌, ◌<◌, ◌≡◌, ◌≤◌,
}
use sc_xtcp.Buffered.{RxInfo, Received, client_buf_size, fill, no_data, some_data}
use sc_xtcp.Buffered.Memory.{
  slice, write_at, length-slice, length-write_at, slice-write_at, slice-write_at_zero, take-slice,
  drop-slice,
}

-- The pointers are in order and inside the buffer.
pub record IsOrdered (b : RxInfo) : Type 0 where
  pub read_first : b.rx_rdptr ≤ b.rx_wrptr
  pub write_in : b.rx_wrptr ≤ b.rx_end
  pub sized : length b.mem ≡ b.rx_end

-- The invariant between calls: where an event is awaited there is room for the longest one.
pub record IsValid (b : RxInfo) : Type 0 where
  pub ordered : IsOrdered b
  pub large : client_buf_size ≤ b.rx_end
  pub room : b.rx_new_event ≡ true → b.rx_wrptr + client_buf_size ≤ b.rx_end

-- the bytes received and not handed over yet
abbrev pub unread : RxInfo → List ℕ
unread b = slice b.mem b.rx_rdptr b.rx_wrptr

-- the bytes that a call has to work with
abbrev pub pending : List ℕ → RxInfo → List ℕ
pending incoming b = if b.rx_new_event then unread b ++ incoming else unread b

-- the bytes at `*buf`
abbrev pub handed : Option ℕ → List ℕ → ℕ → List ℕ
handed none mem len = []
handed (some p) mem len = slice mem p (p + len)

abbrev pub delivered : Received → List ℕ
delivered r = handed r.buf r.info.mem r.len

pub fill-IsOrdered :
    (incoming : List ℕ) (b : RxInfo)
    → IsValid b
    → length incoming ≤ client_buf_size
    → IsOrdered (fill incoming b)
unfolding fill
fill-IsOrdered incoming b v h =
    ground (arith, length-write_at b.mem b.rx_wrptr incoming, v.room, v.ordered)

pub fill-no_event : (incoming : List ℕ) (b : RxInfo) → (fill incoming b).rx_new_event ≡ false
unfolding fill
fill-no_event incoming b = ground arith

pub unread-fill :
    (incoming : List ℕ) (b : RxInfo)
    → IsValid b
    → length incoming ≤ client_buf_size
    → unread (fill incoming b) ≡ pending incoming b
unfolding fill
unread-fill incoming b v h = elim (Bool-cases b.rx_new_event) [
  | inl e ↦ rw e (
      slice-write_at b.mem b.rx_rdptr b.rx_wrptr incoming v.ordered.read_first
        (omega (arith, v.room e, v.ordered)))
  | inr e ↦ rw e
]

-- Where the slice fills the memory from its start, moving it there keeps the buffer's size.
length-moved : (b : RxInfo) → IsOrdered b → length (write_at b.mem 0 (unread b)) ≡ b.rx_end
length-moved b v =
    omega (arith, v, length-write_at b.mem 0 (unread b), length-slice b.mem b.rx_rdptr b.rx_wrptr)

pub no_data-IsValid :
    (b : RxInfo) → IsOrdered b → client_buf_size ≤ b.rx_end → IsValid (no_data b).info
unfolding no_data
no_data-IsValid b v h = ground (arith, length-moved b v)

pub some_data-IsValid :
    (b : RxInfo) (len : ℕ)
    → IsOrdered b
    → client_buf_size ≤ b.rx_end
    → b.rx_new_event ≡ false
    → len ≤ b.rx_wrptr - b.rx_rdptr
    → IsValid (some_data b len).info
unfolding some_data
some_data-IsValid b len v h e l = ground arith

-- Without enough bytes they are kept and an event is awaited, or they are all handed over.
pub data Refused (bytes : List ℕ) (r : Received) : Type 0 where
  wait :
      r.len ≡ 0
      → r.buf ≡ none
      → r.overflow ≡ false
      → r.info.rx_new_event ≡ true
      → unread r.info ≡ bytes
      → Refused bytes r
  spill :
      r.overflow ≡ true
      → delivered r ≡ bytes
      → r.len ≡ length bytes
      → unread r.info ≡ []
      → r.info.rx_end < length bytes + client_buf_size
      → Refused bytes r

pub no_data-Refused : (b : RxInfo) → IsOrdered b → Refused (unread b) (no_data b)
unfolding no_data
no_data-Refused b v = elim (Bool-cases (ltb (b.rx_end - remaining) client_buf_size)) [
  | inl e ↦ rw e (spill refl kept' (sym sized) refl (ground (arith, sized)))
  | inr e ↦ rw e (wait refl refl refl refl kept)
]
  where
    remaining : ℕ
    remaining = b.rx_wrptr - b.rx_rdptr

    sized : length (unread b) ≡ remaining
    sized = length-slice b.mem b.rx_rdptr b.rx_wrptr (omega arith)

    kept : slice (write_at b.mem 0 (unread b)) 0 remaining ≡ unread b
    kept = slice-write_at_zero b.mem (unread b) remaining (sym sized)

    kept' : slice (write_at b.mem 0 (unread b)) 0 (0 + remaining) ≡ unread b
    kept' = slice-write_at_zero b.mem (unread b) (0 + remaining) (omega (arith, sized))

-- `some_data` hands over the first bytes and keeps the others.
pub some_data-split :
    (b : RxInfo) (len : ℕ)
    → IsOrdered b
    → len ≤ b.rx_wrptr - b.rx_rdptr
    → (delivered (some_data b len) ≡ take len (unread b))
      × (unread (some_data b len).info ≡ drop len (unread b))
unfolding some_data
some_data-split b len v h = (
  sym (take-slice b.mem b.rx_rdptr b.rx_wrptr len (omega arith)),
  sym (drop-slice b.mem b.rx_rdptr b.rx_wrptr len),
)
