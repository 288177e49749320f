-- ===== src/Blocking.antt =====
-- module_xtcp/src/xtcp_blocking_client.xc: a client that waits for its events. What the xtcp server
-- sends is a list of events, and the calls of the client interface are a trace.
pub mod Write
pub mod Own
pub mod Progress
pub mod Read
mod Tests
use sc_xtcp.Base.{
  Bool, List, Option, [], false, if◌then◌else◌, length, ltb, min, none, not, some, true, ℕ, ◌+◌,
  ◌-◌, ◌==◌, ◌∷◌,
}
use sc_xtcp.Server.{
  Event, aborted, closed, ifdown, new_connection, recv_data, request_data, resend_data, sent_data,
  timed_out,
}
use sc_xtcp.Buffered.Memory.{slice, write_at}

-- What `xtcp_event` takes from the channel, with the bytes that can be received.
pub record Incoming : Type 0 where
  pub event : Event
  pub id : ℕ
  pub mss : ℕ
  pub bytes : List ℕ

-- A call of the client interface, with the connection's id: `sendi` with the event that it answers.
pub data Call : Type 0 where
  init_send : ℕ → Call
  close : ℕ → Call
  sendi : ℕ → Event → List ℕ → Call
  delay_receive : ℕ → Call

-- `xtcp_wait_for_ifup` and `xtcp_wait_for_connection`: the event that ends the wait, and those behind.
unfoldable pub wait_for : (Event → Bool) → List Incoming → Option (Incoming × List Incoming)
wait_for is_awaited [] = none
wait_for is_awaited (c ∷ cs) =
    let rest = wait_for is_awaited cs in if is_awaited c.event then some (c, cs) else rest

-- `index`, `prev` and `success` of `xtcp_write`, and the calls, latest first
pub record Writing : Type 0 where
  pub index : ℕ
  pub prev : ℕ
  pub success : Bool
  pub finished : Bool
  pub calls : List Call

-- XTCP_REQUEST_DATA and XTCP_SENT_DATA
unfoldable pub send_next : List ℕ → Incoming → Writing → Writing
send_next buf c w =
    let sendlen = min (length buf - w.index) c.mss in
    record w {
      prev = w.index;
      index = w.index + sendlen;
      finished = if sendlen == 0 then true else w.finished;
      calls = sendi c.id c.event (slice buf w.index (w.index + sendlen)) ∷ w.calls;
    }

abbrev pub fail : Writing → Writing
fail w = record w { finished = true; success = false }

abbrev pub fail_own : ℕ → Incoming → Writing → Writing
fail_own id c w = if c.id == id then fail w else w

-- the switch over the event
unfoldable pub write_event : ℕ → List ℕ → Incoming → Event → Writing → Writing
write_event id buf c new_connection w = record w { calls = close c.id ∷ w.calls }
write_event id buf c request_data w = send_next buf c w
write_event id buf c sent_data w = send_next buf c w
write_event id buf c resend_data w = record w {
  calls = sendi c.id c.event (slice buf w.prev w.index) ∷ w.calls;
}
write_event id buf c recv_data w = record w {
  success = if not (w.prev == length buf) then false else w.success;
  finished = true;
  calls = delay_receive c.id ∷ w.calls;
}
write_event id buf c timed_out w = fail_own id c w
write_event id buf c aborted w = fail_own id c w
write_event id buf c closed w = fail_own id c w
write_event id buf c ifdown w = fail w
write_event id buf c _ w = w

-- the loop: none if the events end before it does
unfoldable pub write_loop : ℕ → List ℕ → List Incoming → Writing → Option (Writing × List Incoming)
write_loop id buf [] w = if w.finished then some (w, []) else none
write_loop id buf (c ∷ cs) w =
    let rest = write_loop id buf cs (write_event id buf c c.event w) in
    if w.finished then some (w, c ∷ cs) else rest

-- `xtcp_write`
unfoldable pub xtcp_write : ℕ → List ℕ → List Incoming → Option (Writing × List Incoming)
xtcp_write id buf cs =
    write_loop id buf cs
      (record { index = 0; prev = 0; success = true; finished = false; calls = init_send id ∷ [] })

-- `buf` and `rlen` of `xtcp_read`, and the calls, latest first
pub record Reading : Type 0 where
  pub mem : List ℕ
  pub rlen : ℕ
  pub calls : List Call

-- the switch of `xtcp_read`: none where it returns -1
unfoldable pub read_event : ℕ → Incoming → Event → Reading → Option Reading
read_event id c new_connection r = some (record r { calls = close c.id ∷ r.calls })
read_event id c recv_data r =
    some (record r { mem = write_at r.mem r.rlen c.bytes; rlen = r.rlen + length c.bytes })
read_event id c request_data r = some (record r { calls = sendi c.id c.event [] ∷ r.calls })
read_event id c sent_data r = some (record r { calls = sendi c.id c.event [] ∷ r.calls })
read_event id c resend_data r = some (record r { calls = sendi c.id c.event [] ∷ r.calls })
read_event id c timed_out r = if c.id == id then none else some r
read_event id c aborted r = if c.id == id then none else some r
read_event id c closed r = if c.id == id then none else some r
read_event id c ifdown r = none
read_event id c _ r = some r

-- How `xtcp_read` ends: it has enough bytes, the connection failed, or the events end first.
pub data ReadResult : Type 0 where
  read_bytes : Reading → List Incoming → ReadResult
  read_failed : Reading → List Incoming → ReadResult
  read_waits : Reading → ReadResult

abbrev pub read_on : Option Reading → (Reading → ReadResult) → ReadResult → ReadResult
read_on none f d = d
read_on (some r) f d = f r

-- `xtcp_read`
unfoldable pub xtcp_read : ℕ → ℕ → List Incoming → Reading → ReadResult
xtcp_read id minlen [] r = if ltb r.rlen minlen then read_waits r else read_bytes r []
xtcp_read id minlen (c ∷ cs) r =
    let rest = read_on (read_event id c c.event r) (xtcp_read id minlen cs) (read_failed r cs) in
    if ltb r.rlen minlen then rest else read_bytes r (c ∷ cs)
