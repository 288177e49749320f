-- ===== src/Buffered.antt =====
-- module_xtcp/src/xtcp_buffered_client.c: a receive and a transmit buffer between an application and
-- the xtcp server. `xtcp_bufinfo_t` is two records, since no function uses both halves of it.
-- A pointer into a buffer is its distance from the buffer's start, so `rx_buf` and `tx_buf` are 0.
-- The calls of the client interface on the channel are values that a function returns.
pub mod Memory
pub mod Receive
pub mod Stream
pub mod Transmit
pub mod Queue
pub mod View
pub mod Quotient
mod ReceiveTests
mod TransmitTests
use sc_xtcp.Base.{
  Bool, List, Option, [], false, if◌then◌else◌, leb, length, ltb, min, none, some, true, ℕ, ◌&&◌,
  ◌+◌, ◌-◌, ◌==◌, ◌∷◌,
}
use Memory.{slice, write_at}

-- XTCP_CLIENT_BUF_SIZE: one receive event carries at most this many bytes.
abbrev pub client_buf_size : ℕ
client_buf_size = 1472

-- the receive half of `xtcp_bufinfo_t`; `mem` holds the bytes behind `rx_buf`
pub record RxInfo : Type 0 where
  pub rx_new_event : Bool
  pub mem : List ℕ
  pub rx_end : ℕ
  pub rx_wrptr : ℕ
  pub rx_rdptr : ℕ

-- the transmit half
pub record TxInfo : Type 0 where
  pub mem : List ℕ
  pub tx_end : ℕ
  pub tx_wrptr : ℕ
  pub tx_rdptr : ℕ
  pub tx_prev_rdptr : ℕ
  pub tx_lowmark : ℕ

unfoldable pub set_rx_buffer : List ℕ → ℕ → RxInfo
set_rx_buffer buf buflen = record {
  rx_new_event = true;
  mem = buf;
  rx_end = buflen;
  rx_wrptr = 0;
  rx_rdptr = 0;
}

unfoldable pub set_tx_buffer : List ℕ → ℕ → ℕ → TxInfo
set_tx_buffer buf buflen lowmark = record {
  mem = buf;
  tx_end = buflen;
  tx_rdptr = 0;
  tx_prev_rdptr = 0;
  tx_wrptr = 0;
  tx_lowmark = lowmark;
}

-- What a receive call leaves: the buffer, the returned length, where `*buf` points if it was set,
-- and whether `*overflow` was set.
pub record Received : Type 0 where
  pub info : RxInfo
  pub len : ℕ
  pub buf : Option ℕ
  pub overflow : Bool

-- The first step of both receive functions. `incoming` is what `xtcp_recv` stores if it is called.
unfoldable pub fill : List ℕ → RxInfo → RxInfo
fill incoming b =
    if b.rx_new_event
    then record b {
      mem = write_at b.mem b.rx_wrptr incoming;
      rx_wrptr = b.rx_wrptr + length incoming;
      rx_new_event = false;
    }
    else b

-- The search loop over the bytes from `p` to `rx_wrptr`, `n` being `p - rx_rdptr`: the length up to
-- and with the first delimiter.
unfoldable pub find_delim : ℕ → List ℕ → ℕ → Option ℕ
find_delim delim [] n = none
find_delim delim (c ∷ cs) n = if c == delim then some (n + 1) else find_delim delim cs (n + 1)

-- The branch for too few bytes: move them to the start, and either report an overflow, with all the
-- bytes handed over, or wait for the next event.
unfoldable pub no_data : RxInfo → Received
no_data b =
    let remaining = b.rx_wrptr - b.rx_rdptr in
    let moved = write_at b.mem 0 (slice b.mem b.rx_rdptr b.rx_wrptr) in
    if ltb (b.rx_end - remaining) client_buf_size
    then record {
      info = record b { mem = moved; rx_rdptr = 0; rx_wrptr = 0 };
      len = remaining;
      buf = some 0;
      overflow = true;
    }
    else record {
      info = record b { mem = moved; rx_rdptr = 0; rx_wrptr = remaining; rx_new_event = true };
      len = 0;
      buf = none;
      overflow = false;
    }

-- The branch that hands over `len` bytes.
unfoldable pub some_data : RxInfo → ℕ → Received
some_data b len = record {
  info = record b { rx_rdptr = b.rx_rdptr + len };
  len = len;
  buf = some b.rx_rdptr;
  overflow = false;
}

unfoldable pub recv_found : RxInfo → Option ℕ → Received
recv_found b none = no_data b
recv_found b (some len) = some_data b len

unfoldable pub recv_upto : List ℕ → RxInfo → ℕ → Received
unfolding recv_found
recv_upto incoming b0 delim =
    let b = fill incoming b0 in
    recv_found b (find_delim delim (slice b.mem b.rx_rdptr b.rx_wrptr) 0)

unfoldable pub recv : List ℕ → RxInfo → ℕ → Received
recv incoming b0 len =
    let b = fill incoming b0 in
    if ltb (b.rx_wrptr - b.rx_rdptr) len then no_data b else some_data b len

-- What a client does on the channel.
pub data Call : Type 0 where
  init_send pause unpause : Call
  transmit : List ℕ → Call

abbrev pub call_if : Bool → Call → List Call → List Call
call_if true c cs = c ∷ cs
call_if false c cs = cs

-- Room at the end is made by moving the bytes from `tx_prev_rdptr` on to the start.
unfoldable pub compact : TxInfo → TxInfo
compact b = record b {
  mem = write_at b.mem 0 (slice b.mem b.tx_prev_rdptr b.tx_wrptr);
  tx_prev_rdptr = 0;
  tx_rdptr = b.tx_rdptr - b.tx_prev_rdptr;
  tx_wrptr = b.tx_wrptr - b.tx_prev_rdptr;
}

-- The second half of `send`: refuse, or store the bytes.
unfoldable pub store : TxInfo → List ℕ → TxInfo × Bool × List Call
store b buf = if ltb (b.tx_end - b.tx_wrptr) (length buf) then (b, false, []) else (
  record b { mem = write_at b.mem b.tx_wrptr buf; tx_wrptr = b.tx_wrptr + length buf },
  true,
  call_if (b.tx_rdptr == b.tx_wrptr) init_send
      (call_if (ltb (b.tx_end - b.tx_wrptr - length buf + b.tx_prev_rdptr) b.tx_lowmark) pause []),
)

unfoldable pub send : TxInfo → List ℕ → TxInfo × Bool × List Call
send b buf = store (if ltb (b.tx_end - b.tx_wrptr) (length buf) then compact b else b) buf

unfoldable pub send_buffer_remaining : TxInfo → ℕ
send_buffer_remaining b = b.tx_end - b.tx_wrptr + b.tx_prev_rdptr

-- The handler of the three events that ask for data. `resend` tells whether it is XTCP_RESEND_DATA.
unfoldable pub send_handler : Bool → ℕ → TxInfo → TxInfo × List Call
send_handler true mss b = (b, transmit (slice b.mem b.tx_prev_rdptr b.tx_rdptr) ∷ [])
send_handler false mss b =
    let space_left = b.tx_end - b.tx_wrptr + b.tx_prev_rdptr in
    let len = min (b.tx_wrptr - b.tx_rdptr) mss in
    (
      record b { tx_prev_rdptr = b.tx_rdptr; tx_rdptr = b.tx_rdptr + len },
      transmit (slice b.mem b.tx_rdptr (b.tx_rdptr + len))
          ∷ call_if (ltb space_left b.tx_lowmark && leb b.tx_lowmark (space_left + len)) unpause [],
    )
