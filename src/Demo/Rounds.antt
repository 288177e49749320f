-- ===== src/Demo/Rounds.antt =====
-- The rounds of the loop that reads messages.
use sc_xtcp.Base.{
  Bool-cases, List, arith, false, if_ind, if◌then◌else◌, inl, inr, length, ltb, not, refl, some,
  suc, true, ℕ, ◌+◌, ◌-◌, ◌<◌, ◌==◌, ◌||◌, ◌∙◌, ◌≡◌, ◌≤◌, ◌⊎◌,
}
use sc_xtcp.Buffered.{Received, RxInfo, client_buf_size, fill, no_data, recv, some_data}
use sc_xtcp.Buffered.Receive.{Refused, delivered, fill-no_event, spill, unread, wait}
use sc_xtcp.Buffered.Stream.{rx_end-fill}
use sc_xtcp.Demo.Framed.{
  Peer, abort_peer, bytes_from, decode_header, hdr_size, max_msg_size, process_message,
  protocol_recv, read_header, read_message, store_rx, take_header,
}
use sc_xtcp.Demo.Lines.{no_data-no_event}

-- Where bytes are handed over no event is awaited.
abbrev Quiet : Received → Type 0
Quiet r = 0 < r.len → r.overflow ≡ false → r.info.rx_new_event ≡ false

pub recv-no_event : (incoming : List ℕ) (b : RxInfo) (len : ℕ) → Quiet (recv incoming b len)
unfolding recv some_data
recv-no_event incoming b len =
    if_ind Quiet (ltb ((fill incoming b).rx_wrptr - (fill incoming b).rx_rdptr) len)
      (λ f. no_data-no_event (fill incoming b)) (λ f h e. fill-no_event incoming b)

rx_end-no_data : (b : RxInfo) → (no_data b).info.rx_end ≡ b.rx_end
unfolding no_data
rx_end-no_data b = ground arith

pub rx_end-recv :
    (incoming : List ℕ) (b : RxInfo) (len : ℕ) → (recv incoming b len).info.rx_end ≡ b.rx_end
unfolding recv some_data
rx_end-recv incoming b len =
    elim (Bool-cases (ltb ((fill incoming b).rx_wrptr - (fill incoming b).rx_rdptr) len)) [
      | inl f ↦ rw f (rx_end-no_data (fill incoming b) ∙ rx_end-fill incoming b)
      | inr f ↦ rw f (rx_end-fill incoming b)
    ]

-- Where the loop ends after this round.
pub last-round :
    (fuel : ℕ) (incoming : List ℕ) (s t : Peer)
    → (if not s.got_header then read_header incoming s else read_message incoming s) ≡ (false, t)
    → protocol_recv (suc fuel) incoming s ≡ some t
unfolding protocol_recv
last-round fuel incoming s t e = rw e refl

pub next-round :
    (fuel : ℕ) (incoming : List ℕ) (s u : Peer) (t : Peer)
    → (if not s.got_header then read_header incoming s else read_message incoming s) ≡ (true, u)
    → protocol_recv fuel incoming u ≡ some t
    → protocol_recv (suc fuel) incoming s ≡ some t
unfolding protocol_recv
next-round fuel incoming s u t e f = rw e f

-- An event is awaited: fewer bytes than the message, or none for a header, do not fill the buffer.
pub short-waits :
    (bytes : List ℕ) (r : Received)
    → Refused bytes r
    → length bytes ≤ max_msg_size
    → client_buf_size + max_msg_size ≤ r.info.rx_end
    → (r.len ≡ 0) × (r.overflow ≡ false) × (r.info.rx_new_event ≡ true) × (unread r.info ≡ bytes)
short-waits bytes r (wait l b o e u) h k = (l, o, e, u)
short-waits bytes r (spill o d l u w) h k = absurd (omega (arith, w, h, k))

-- a round that waits for more
pub idle-header :
    (incoming : List ℕ) (s : Peer)
    → (recv incoming s.link.rx hdr_size).len ≡ 0
    → (recv incoming s.link.rx hdr_size).overflow ≡ false
    → read_header incoming s ≡ (false, store_rx (recv incoming s.link.rx hdr_size) s)
unfolding read_header
idle-header incoming s l o = rw (o, l) refl

pub idle-message :
    (incoming : List ℕ) (s : Peer)
    → (recv incoming s.link.rx s.len).len ≡ 0
    → (recv incoming s.link.rx s.len).overflow ≡ false
    → read_message incoming s ≡ (false, store_rx (recv incoming s.link.rx s.len) s)
unfolding read_message
idle-message incoming s l o = rw (o, l) refl

pub some-header :
    (incoming : List ℕ) (s : Peer)
    → (recv incoming s.link.rx hdr_size).len ≡ 1
    → (recv incoming s.link.rx hdr_size).overflow ≡ false
    → read_header incoming s
      ≡ take_header
          (delivered (recv incoming s.link.rx hdr_size))
          (store_rx (recv incoming s.link.rx hdr_size) s)
unfolding read_header
some-header incoming s l o = rw (o, l) refl

-- the connection after a message
abbrev pub after_message : Received → Peer → Peer
after_message r s = record s {
  link = process_message (bytes_from r.buf r.info.mem) (record s.link { rx = r.info });
  got_header = false;
}

pub some-message :
    (incoming : List ℕ) (s : Peer)
    → 0 < s.len
    → (recv incoming s.link.rx s.len).len ≡ s.len
    → (recv incoming s.link.rx s.len).overflow ≡ false
    → read_message incoming s ≡ (true, after_message (recv incoming s.link.rx s.len) s)
unfolding read_message
some-message incoming s k l o =
    let some_len : ltb 0 s.len ≡ true = ground (arith, k) in rw (o, l, some_len) refl

pub take_header-good :
    (hdr : List ℕ) (h : ℕ) (s : Peer)
    → decode_header hdr ≡ h
    → 0 < h
    → h ≤ max_msg_size
    → take_header hdr s ≡ (true, record s { len = h; got_header = true })
unfolding take_header
take_header-good hdr h s e k l =
    let some_len : (h == 0) ≡ false = ground (arith, k) in
    let small : ltb max_msg_size h ≡ false = ground (arith, l) in rw (e, some_len, small) refl

pub take_header-bad :
    (hdr : List ℕ) (h : ℕ) (s : Peer)
    → decode_header hdr ≡ h
    → (h ≡ 0) ⊎ (max_msg_size < h)
    → take_header hdr s ≡ (false, abort_peer (record s { len = h }))
unfolding take_header
take_header-bad hdr h s e k =
    let outside : (h == 0 || ltb max_msg_size h) ≡ true = ground (arith, k) in rw (e, outside) refl
