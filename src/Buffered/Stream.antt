-- ===== src/Buffered/Stream.antt =====
-- What `xtcp_buffered_recv_upto` and `xtcp_buffered_recv` do to the stream of received bytes.
use sc_xtcp.Base.{
  All, Bool-cases, List, Option, [], ap, append_assoc, arith, drop, drop-append_length, false, inl,
  inr, length, length-append, ltb, none, refl, some, sym, take, take-append, ℕ, ◌++◌, ◌+◌, ◌-◌, ◌<◌,
  ◌==◌, ◌∙◌, ◌∷◌, ◌≡◌, ◌≢◌, ◌≤◌,
}
use sc_xtcp.Buffered.Memory.{length-slice}
use sc_xtcp.Buffered.{
  Received, RxInfo, client_buf_size, fill, find_delim, recv, recv_found, recv_upto, some_data,
}
use sc_xtcp.Buffered.Receive.{
  IsOrdered, IsValid, Refused, delivered, fill-IsOrdered, fill-no_event, no_data-IsValid,
  no_data-Refused, pending, some_data-IsValid, some_data-split, unread, unread-fill,
}

-- A stream of bytes cut behind its first delimiter.
pub record IsCut (delim : ℕ) (bytes pre rest : List ℕ) : Type 0 where
  pub clear : All (λ c. c ≢ delim) pre
  pub whole : bytes ≡ pre ++ delim ∷ rest

find_delim-none :
    (delim : ℕ) (xs : List ℕ) (n : ℕ) → find_delim delim xs n ≡ none → All (λ c. c ≢ delim) xs
unfolding find_delim
find_delim-none delim [] n h = tt
find_delim-none delim (c ∷ cs) n h = elim (Bool-cases (c == delim)) [
  | inl e ↦ absurd (ground arith)
  | inr e ↦ (ground arith, find_delim-none delim cs (n + 1) (ground arith))
]

find_delim-some :
    (delim : ℕ) (xs : List ℕ) (n k : ℕ)
    → find_delim delim xs n ≡ some k
    → (pre : List ℕ) × (rest : List ℕ) × IsCut delim xs pre rest × (k ≡ n + length pre + 1)
unfolding find_delim
find_delim-some delim [] n k h = absurd (ground arith)
find_delim-some delim (c ∷ cs) n k h = elim (Bool-cases (c == delim)) [
  | inl e ↦ ([], cs, record { clear = tt; whole = ground arith }, ground arith)
  | inr e ↦
      let (pre, rest, cut, size) = find_delim-some delim cs (n + 1) k (ground arith) in
      (
        c ∷ pre,
        rest,
        record { clear = (ground arith, cut.clear); whole = ap (◌∷◌ c) cut.whole },
        omega arith,
      )
]

-- The outcomes of `recv_upto` on the bytes at hand: a chunk that ends in the first delimiter, or,
-- where there is no delimiter, a refusal.
pub data Upto (delim : ℕ) (bytes : List ℕ) (r : Received) : Type 0 where
  chunk :
      (pre rest : List ℕ)
      → IsCut delim bytes pre rest
      → delivered r ≡ pre ++ delim ∷ []
      → r.len ≡ length pre + 1
      → unread r.info ≡ rest
      → r.overflow ≡ false
      → Upto delim bytes r
  refused : All (λ c. c ≢ delim) bytes → Refused bytes r → Upto delim bytes r

length-unread : (b : RxInfo) → IsOrdered b → length (unread b) ≡ b.rx_wrptr - b.rx_rdptr
length-unread b v = length-slice b.mem b.rx_rdptr b.rx_wrptr (omega arith)

len-some_data : (b : RxInfo) (k : ℕ) → (some_data b k).len ≡ k
unfolding some_data
len-some_data b k = refl

overflow-some_data : (b : RxInfo) (k : ℕ) → (some_data b k).overflow ≡ false
unfolding some_data
overflow-some_data b k = refl

IsCut-parts :
    (delim : ℕ) (bytes pre rest : List ℕ) (k : ℕ)
    → IsCut delim bytes pre rest
    → k ≡ length pre + 1
    → (k ≤ length bytes) × (take k bytes ≡ pre ++ delim ∷ []) × (drop k bytes ≡ rest)
IsCut-parts delim bytes pre rest k cut h = (
  omega (arith, ap length split, length-append (pre ++ delim ∷ []) rest, sized),
  ap (take k) split ∙ take-append k (pre ++ delim ∷ []) rest (omega (arith, sized)),
  ap (drop k) split ∙ drop-append_length k (pre ++ delim ∷ []) rest (omega (arith, sized)),
)
  where
    split : bytes ≡ (pre ++ delim ∷ []) ++ rest
    split = cut.whole ∙ sym (append_assoc pre (delim ∷ []) rest)

    sized : length (pre ++ delim ∷ []) ≡ length pre + 1
    sized = length-append pre (delim ∷ [])

recv_found-Upto :
    (delim : ℕ) (b : RxInfo) (o : Option ℕ)
    → IsOrdered b
    → find_delim delim (unread b) 0 ≡ o
    → Upto delim (unread b) (recv_found b o)
unfolding recv_found
recv_found-Upto delim b none v h =
    refused (find_delim-none delim (unread b) 0 h) (no_data-Refused b v)
recv_found-Upto delim b (some k) v h =
    let (pre, rest, cut, size) = find_delim-some delim (unread b) 0 k h in
    let (fits, head, tail) = IsCut-parts delim (unread b) pre rest k cut (omega arith) in
    let (given, kept) = some_data-split b k v (omega (arith, length-unread b v)) in
    chunk pre rest cut (given ∙ head) (len-some_data b k ∙ size ∙ omega arith) (kept ∙ tail)
      (overflow-some_data b k)

recv_found-IsValid :
    (delim : ℕ) (b : RxInfo) (o : Option ℕ)
    → IsOrdered b
    → client_buf_size ≤ b.rx_end
    → b.rx_new_event ≡ false
    → find_delim delim (unread b) 0 ≡ o
    → IsValid (recv_found b o).info
unfolding recv_found
recv_found-IsValid delim b none v l e h = no_data-IsValid b v l
recv_found-IsValid delim b (some k) v l e h =
    let (pre, rest, cut, size) = find_delim-some delim (unread b) 0 k h in
    let (fits, head, tail) = IsCut-parts delim (unread b) pre rest k cut (omega arith) in
    some_data-IsValid b k v l e (omega (arith, length-unread b v))

pub rx_end-fill : (incoming : List ℕ) (b : RxInfo) → (fill incoming b).rx_end ≡ b.rx_end
unfolding fill
rx_end-fill incoming b = ground arith

-- From a valid buffer and an event of at most XTCP_CLIENT_BUF_SIZE bytes, `xtcp_buffered_recv_upto`
-- hands over exactly the bytes up to and with the first delimiter of the stream and keeps those
-- behind it; where the stream has no delimiter it keeps all bytes and awaits an event, or hands all
-- of them over with `*overflow` set. The buffer is valid again.
pub recv_upto-Upto :
    (incoming : List ℕ) (b : RxInfo) (delim : ℕ)
    → IsValid b
    → length incoming ≤ client_buf_size
    → Upto delim (pending incoming b) (recv_upto incoming b delim)
      × IsValid (recv_upto incoming b delim).info
unfolding recv_upto
recv_upto-Upto incoming b delim v h = (
  rw (← unread-fill incoming b v h) (recv_found-Upto delim (fill incoming b) _ ready refl),
  recv_found-IsValid delim (fill incoming b) _ ready large (fill-no_event incoming b) refl,
)
  where
    ready : IsOrdered (fill incoming b)
    ready = fill-IsOrdered incoming b v h

    large : client_buf_size ≤ (fill incoming b).rx_end
    large = omega (arith, v.large, rx_end-fill incoming b)

-- The outcomes of `recv` for `len` bytes.
pub data Exactly (len : ℕ) (bytes : List ℕ) (r : Received) : Type 0 where
  block :
      len ≤ length bytes
      → delivered r ≡ take len bytes
      → r.len ≡ len
      → unread r.info ≡ drop len bytes
      → r.overflow ≡ false
      → Exactly len bytes r
  short : length bytes < len → Refused bytes r → Exactly len bytes r

-- From a valid buffer and an event of at most XTCP_CLIENT_BUF_SIZE bytes, `xtcp_buffered_recv`
-- hands over the first `len` bytes of the stream and keeps the others where there are so many;
-- where there are fewer it keeps all and awaits an event, or hands all over with `*overflow` set.
-- The buffer is valid again.
pub recv-Exactly :
    (incoming : List ℕ) (b : RxInfo) (len : ℕ)
    → IsValid b
    → length incoming ≤ client_buf_size
    → Exactly len (pending incoming b) (recv incoming b len) × IsValid (recv incoming b len).info
unfolding recv
recv-Exactly incoming b len v h =
    rw (← unread-fill incoming b v h) (elim (Bool-cases (ltb (c.rx_wrptr - c.rx_rdptr) len)) [
      | inl e ↦
          rw e
            (short (ground (arith, sized)) (no_data-Refused c ready), no_data-IsValid c ready large)
      | inr e ↦ rw e (
        block (ground (arith, sized)) (some_data-split c len ready (ground arith)).0
            (len-some_data c len) (some_data-split c len ready (ground arith)).1
            (overflow-some_data c len),
        some_data-IsValid c len ready large (fill-no_event incoming b) (ground arith),
      )
    ])
  where
    c : RxInfo
    c = fill incoming b

    ready : IsOrdered c
    ready = fill-IsOrdered incoming b v h

    large : client_buf_size ≤ c.rx_end
    large = omega (arith, v.large, rx_end-fill incoming b)

    sized : length (unread c) ≡ c.rx_wrptr - c.rx_rdptr
    sized = length-unread c ready
