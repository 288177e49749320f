-- ===== src/Demo/Messages.antt =====
-- The loop that reads messages gets through the frames of the stream.
use sc_xtcp.Base.{
  Bool-cases, List, Option, [], ap, arith, drop, inl, inr, length, length-drop, length-take, none,
  refl, some, suc, sym, take, take-append-drop, true, zero, ℕ, ◌++◌, ◌+◌, ◌-◌, ◌<◌, ◌∙◌, ◌∷◌, ◌≡◌,
  ◌≤◌,
}
use sc_xtcp.Buffered.{Received, client_buf_size, recv}
use sc_xtcp.Buffered.Receive.{IsValid, delivered, handed, pending}
use sc_xtcp.Buffered.Stream.{Exactly, block, recv-Exactly, short}
use sc_xtcp.Demo.Headers.{Rest, header-FramedRun, if_not-true, pending-quiet}
use sc_xtcp.Demo.Framed.{Peer, bytes_from, hdr_size, process_message, store_rx}
use sc_xtcp.Demo.Frames.{
  FramedRun, Frames, Handled, Handled-rx, IsReady, partial, stays-IsReady, waits, whole,
}
use mathlib.Core.Path.{subst}
use sc_xtcp.Demo.Rounds.{
  after_message, idle-message, last-round, next-round, recv-no_event, rx_end-recv, short-waits,
  some-message,
}

-- A pointer that was handed out has the bytes behind it.
handed-bytes_from :
    (r : Received) (m : List ℕ)
    → delivered r ≡ m
    → (behind : List ℕ) × (bytes_from r.buf r.info.mem ≡ m ++ behind)
handed-bytes_from r m h =
    let (behind, e) = split r.buf r.info.mem r.len in (behind, e ∙ ap (λ l. l ++ behind) h)
  where
    split :
        (o : Option ℕ) (mem : List ℕ) (len : ℕ)
        → (behind : List ℕ) × (bytes_from o mem ≡ handed o mem len ++ behind)
    split none mem len = ([], refl)
    split (some p) mem len =
        (drop (p + len - p) (drop p mem), sym (take-append-drop (p + len - p) (drop p mem)))

message-FramedRun :
    (fuel : ℕ) (incoming : List ℕ) (s : Peer) (bytes : List ℕ)
    → IsReady s
    → s.got_header ≡ true
    → length bytes < suc fuel
    → Exactly s.len bytes (recv incoming s.link.rx s.len)
    → IsValid (recv incoming s.link.rx s.len).info
    → Rest fuel incoming
    → FramedRun (suc fuel) incoming s bytes
unfolding process_message
message-FramedRun fuel incoming s bytes w g l (short k f) v rest =
    let r = recv incoming s.link.rx s.len in
    let (z, o, e, u) =
      short-waits bytes r f (omega (arith, k, (w.tested g).1))
        (rw (rx_end-recv incoming s.link.rx s.len) w.large) in
    (
      [],
      waits (some s.len) bytes,
      store_rx r s,
      rw g (partial k),
      last-round fuel incoming s (store_rx r s)
          (if_not-true s.got_header _ _ g ∙ idle-message incoming s z o),
      (refl, refl),
      (rw g refl, u, e),
      stays-IsReady s (store_rx r s) w v (rx_end-recv incoming s.link.rx s.len) w.tested,
      rx_end-recv incoming s.link.rx s.len,
    )
message-FramedRun fuel incoming s bytes w g l (block k d z u o) v rest =
    let r = recv incoming s.link.rx s.len in
    let some_len = (w.tested g).0 in
    let quiet = recv-no_event incoming s.link.rx s.len (omega (arith, z, some_len)) o in
    let p = pending-quiet incoming r.info (drop s.len bytes) quiet u in
    let ready : IsReady (after_message r s) = record {
      valid = v;
      large = rw (rx_end-recv incoming s.link.rx s.len) w.large;
      tested = λ x. absurd cc;
    } in
    let (ms, end, t, frames, run, handled, ended, good, same) =
      rest (after_message r s) ready
        (rw p (omega (arith, length-drop s.len bytes, l, some_len, k))) in
    let (behind, b) = handed-bytes_from r (take s.len bytes) d in
    (
      take s.len bytes ∷ ms,
      end,
      t,
      rw g (
          subst (λ x. Frames (some s.len) x (take s.len bytes ∷ ms) end)
            (take-append-drop s.len bytes)
            (whole (omega (arith, length-take s.len bytes, k))
              (subst (λ x. Frames none x ms end) p frames))),
      next-round fuel incoming s (after_message r s) t
          (if_not-true s.got_header _ _ g ∙ some-message incoming s some_len z o) run,
      (
        behind,
        Handled-rx ms end (process_message (take s.len bytes ++ behind) s.link) t.link r.info (
            subst (λ x. Handled ms end (process_message x (record s.link { rx = r.info })) t.link) b
              handled),
      ),
      ended,
      good,
      same ∙ rx_end-recv incoming s.link.rx s.len,
    )

-- From a valid receive buffer that holds an event and a message besides, with a tested length if the
-- header was read, an event of at most XTCP_CLIENT_BUF_SIZE bytes, and more fuel than there are bytes
-- at hand: the loop ends; the bytes at hand are cut into headers of 1 to 100 and messages of that
-- length, each message is processed once, in order; then either a header is refused and the
-- connection aborted, or the rest of an unfinished frame is kept and an event awaited. The buffer, of
-- the same size, and the tested length are valid again.
pub recv-FramedRun :
    (fuel : ℕ) (incoming : List ℕ) (s : Peer)
    → IsReady s
    → length incoming ≤ client_buf_size
    → length (pending incoming s.link.rx) < fuel
    → FramedRun fuel incoming s (pending incoming s.link.rx)
recv-FramedRun zero incoming s w h l = absurd (omega (arith, l))
recv-FramedRun (suc fuel) incoming s w h l =
    let rest : Rest fuel incoming = λ u r k. recv-FramedRun fuel incoming u r h k in
    elim (Bool-cases s.got_header) [
      | inr g ↦
          let (x, v) = recv-Exactly incoming s.link.rx hdr_size w.valid h in
          header-FramedRun fuel incoming s _ w g l x v rest
      | inl g ↦
          let (x, v) = recv-Exactly incoming s.link.rx s.len w.valid h in
          message-FramedRun fuel incoming s _ w g l x v rest
    ]
