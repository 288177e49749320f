-- ===== src/Demo.antt =====
-- The two demo servers over the buffered client: experimental/app_buffered_protocol_demo_2/src/
-- demo_protocol.c, which echoes lines, and experimental/app_buffered_protocol_demo/src, which reads
-- messages behind a header that holds their length. What both do with their buffers.
pub mod Echo
pub mod Lines
pub mod Room
pub mod Framed
pub mod Frames
pub mod Rounds
pub mod Headers
pub mod Messages
pub mod Pool
pub mod Slots
pub mod OnPool
pub mod Kept
pub mod Owners
pub mod Total
pub mod Served
mod EchoTests
mod FramedTests
mod PoolTests
use sc_xtcp.Base.{List, ℕ, ◌∷◌}
use sc_xtcp.Buffered.{Call, RxInfo, TxInfo, send}

-- What a demo server does for a connection: calls of the buffered client, an abort, a string that is
-- printed, given by the bytes from its start to the end of the buffer, and the note that a send was
-- refused.
pub data Action : Type 0 where
  client : List Call → Action
  abort : Action
  print : List ℕ → Action
  print_overflow : Action

-- The two halves of `bufinfo`, and the actions, latest first.
pub record Link : Type 0 where
  pub rx : RxInfo
  pub tx : TxInfo
  pub actions : List Action

-- `xtcp_buffered_send`, with the result passed over
abbrev pub send_link : List ℕ → Link → Link
send_link buf s = let r = send s.tx buf in record s { tx = r.0; actions = client r.2 ∷ s.actions }
