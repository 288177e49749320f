-- ===== src/Server/StackCall.antt =====
-- `xtcpd_appcall` leaves a valid server, and finishes where the clients' commands are calm.
use sc_xtcp.Server.Calls.{
  Ensures, Good, aside, ask, ask_after_wait, begin_at, chain, change, either, sent, tell, wait,
  with_slot,
}
use sc_xtcp.Server.Appcall.{
  Input, accept, acked, after_incoming, deliver_data, ended, incoming, is_dhcp, is_udp, note_source,
  polled, protocol_of, retransmit, xtcpd_appcall,
}
use sc_xtcp.Server.Events.{init_state, room_of}
use mathlib.Core.Path.{subst}
use sc_xtcp.Base.{
  Bool, Option, Option-cases, arith, false, if◌then◌else◌, inl, inr, ltb, none, not, refl, some,
  true, ◌&&◌, ◌==◌, ◌>>=◌, ◌≡◌, ◌⊎◌,
}
use sc_xtcp.Server.{
  Ref, Server, Slot, aborted, closed, new_connection, no_link, recv_data, resend_data, tcp,
  timed_out, udp,
}
use sc_xtcp.Server.Request.{Uip, service}
use sc_xtcp.Server.Commands.{IsLawful}
use sc_xtcp.Server.Guid.{is_some}
use sc_xtcp.Server.Invariant.{IsCalm, IsValid}
use sc_xtcp.Server.Table.{slot_at, update_at, with_app}
use sc_xtcp.Server.PollCall.{handle_poll-Ensures}

module _ (lib : Uip) (l : IsLawful lib) (calm : Bool) (inp : Input) where
  note_source-Ensures :
      (r : Ref) (s : Server) → Good calm r s → Ensures calm r (note_source inp s r)
  unfolding note_source
  note_source-Ensures (tcp i) s g = g
  note_source-Ensures (udp i) s g =
      either calm (udp i) s.flags.newdata _ _ (change calm (udp i) s _ g (λ v. refl)) g

  accept-Ensures : (r : Ref) (s : Server) → Good calm r s → Ensures calm r (accept lib s r)
  unfolding accept
  accept-Ensures r s g =
      either calm r s.flags.connected _ _
        (with_slot calm r s _ g λ v _.
          chain calm r (init_state (protocol_of r) v.ripaddr v.lport v.rport s r) _
            (begin_at lib l calm r (protocol_of r) v.ripaddr v.lport v.rport s g)
            λ t k. tell lib l calm r new_connection t k)
        g

  deliver_data-Ensures :
      (r : Ref) (s : Server) → Good calm r s → Ensures calm r (deliver_data lib inp s r)
  unfolding deliver_data
  deliver_data-Ensures r s g = chain calm r (service lib s) _ (wait lib l calm r s g) λ t k.
      with_slot calm r t _ k λ v _.
        chain calm r (update_at (with_app (λ a. record a { event = recv_data })) t r) _
          (change calm r t _ k (λ v. refl))
          λ u m.
            either calm r (not (is_udp r) && v.app.ack_recv_mode) _ _
              (change calm r _ _ (aside calm r u _ m refl refl refl (λ c. c)) (λ v. refl))
              (aside calm r u _ m refl refl refl (λ c. c))

  acked-Ensures : (r : Ref) (s : Server) → Good calm r s → Ensures calm r (acked lib s r)
  unfolding acked
  acked-Ensures r s g =
      either calm r s.flags.ackdata _ _
        (with_slot calm r s _ g λ v _.
          either calm r (v.app.linknum == no_link) _ _ g
            (sent lib l calm r _ (ask_after_wait lib l calm r _ (room_of r v) s g)))
        g

  retransmit-Ensures : (r : Ref) (s : Server) → Good calm r s → Ensures calm r (retransmit lib s r)
  unfolding retransmit
  retransmit-Ensures r s g =
      either calm r s.flags.rexmit _ _
        (with_slot calm r s _ g λ v _. either calm r (v.app.linknum == no_link) _ _ g (
          chain calm r (service lib s) _ (wait lib l calm r s g)
            λ t k. sent lib l calm r _ (ask lib l calm r resend_data (room_of r v) t k)))
        g

  polled-Ensures : (r : Ref) (s : Server) → Good calm r s → Ensures calm r (polled lib inp s r)
  unfolding polled
  polled-Ensures r s g =
      either calm r s.flags.poll _ _ (handle_poll-Ensures lib l calm inp.expired r s g) g

  ended-Ensures : (r : Ref) (s : Server) → Good calm r s → Ensures calm r (ended lib s r)
  unfolding ended
  ended-Ensures r s g =
      either calm r s.flags.close _ _
        (with_slot calm r s _ g λ v _. either calm r v.app.is_closed _ _ g (
          chain calm r (update_at (with_app (λ a. record a { is_closed = true })) s r) _
            (change calm r s _ g (λ v. refl)) λ t k. tell lib l calm r closed t k))
        g

  after-Ensures :
      (r : Ref) (s : Server) (over : Bool)
      → Good calm r s
      → Ensures calm r (after_incoming lib inp r (s, over))
  unfolding after_incoming
  after-Ensures r s true g = g
  after-Ensures r s false g = chain calm r (acked lib s r) _ (acked-Ensures r s g) λ s1 g1.
      chain calm r (retransmit lib s1 r) _ (retransmit-Ensures r s1 g1) λ s2 g2.
        chain calm r (polled lib inp s2 r) _ (polled-Ensures r s2 g2) λ s3 g3. ended-Ensures r s3 g3

  -- what an early return carries with the server
  then_rest :
      (r : Ref) (over : Bool) (m : Option Server)
      → Ensures calm r m
      → Ensures calm r ((m >>= λ t. some (t, over)) >>= after_incoming lib inp r)
  then_rest r over none h = h
  then_rest r over (some t) h = after-Ensures r t over h

  either_rest :
      (r : Ref) (b : Bool) (m n : Option (Server × Bool))
      → Ensures calm r (m >>= after_incoming lib inp r)
      → Ensures calm r (n >>= after_incoming lib inp r)
      → Ensures calm r ((if b then m else n) >>= after_incoming lib inp r)
  either_rest r true m n h k = h
  either_rest r false m n h k = k

  incoming-Ensures :
      (r : Ref) (s : Server)
      → Good calm r s
      → Ensures calm r (incoming lib inp s r >>= after_incoming lib inp r)
  unfolding incoming
  incoming-Ensures r s g =
      either_rest r (s.flags.newdata && ltb 0 inp.uip_len) _ _
        (data_in (Option-cases (slot_at s r)))
        (either_rest r s.flags.abort _ _ (then_rest r true _ (tell lib l calm r aborted s g)) (
          either_rest r s.flags.timedout _ _ (then_rest r true _ (tell lib l calm r timed_out s g))
            (after-Ensures r s false g)))
    where
      data_in :
          (slot_at s r ≡ none) ⊎ ((v : Slot) × (slot_at s r ≡ some v))
          → Ensures calm r (
              (slot_at s r >>= λ v.
              (if v.app.linknum == no_link then some s else deliver_data lib inp s r) >>= λ s'.
              some (s', false))
              >>= after_incoming lib inp r)
      data_in (inl e) = absurd (ground (arith, g.present))
      data_in (inr (v, e)) = rw e (
          then_rest r false _
            (either calm r (v.app.linknum == no_link) _ _ g (deliver_data-Ensures r s g)))

  -- what holds of a call at a connection whose slot is there
  call-Ensures : (r : Ref) (s : Server) → Good calm r s → Ensures calm r (xtcpd_appcall lib inp s r)
  unfolding xtcpd_appcall
  call-Ensures r s g = with_slot calm r s _ g λ v _.
      either calm r (is_dhcp r v) _ _ (aside calm r s _ g refl refl refl (λ c. c)) (
        chain calm r (note_source inp s r) _ (note_source-Ensures r s g) λ s1 g1.
          chain calm r (accept lib s1 r) _ (accept-Ensures r s1 g1)
            λ s2 g2. incoming-Ensures r s2 g2)

-- Let the uIP library keep the server's state in every entry when it opens a connection, let no two
-- slots have the same id but 0, let the counter from which ids are taken be from 1 to MAX_GUID, let
-- there be fewer slots than ids, and let the current connection have a slot. If no client sends a command
-- that can fault, `xtcpd_appcall` does not fault and no such command is still to come. Whatever they
-- send, if it returns, ids, counter and slots are still so and the connection has a slot.
pub appcall-IsValid :
    (lib : Uip) (inp : Input) (r : Ref) (s : Server)
    → IsLawful lib
    → IsValid s
    → is_some (slot_at s r) ≡ true
    → (IsCalm s → (t : Server) × ((xtcpd_appcall lib inp s r ≡ some t) × IsValid t × IsCalm t))
      × ((t : Server)
          → xtcpd_appcall lib inp s r ≡ some t
          → IsValid t × (is_some (slot_at t r) ≡ true))
appcall-IsValid lib inp r s l v p = (
  (λ c.
      returns _
        (call-Ensures lib l true inp r s (record { valid = v; present = p; quiet = λ _. c }))),
  λ t e.
      let g =
        subst (Ensures false r) e
          (call-Ensures lib l false inp r s (record { valid = v; present = p; quiet = λ h. cc })) in
      (g.valid, g.present),
)
  where
    returns :
        (o : Option Server)
        → Ensures true r o
        → (t : Server) × ((o ≡ some t) × IsValid t × IsCalm t)
    returns none h = cc
    returns (some t) g = (t, (refl, g.valid, g.quiet refl))
