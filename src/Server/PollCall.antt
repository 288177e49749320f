-- ===== src/Server/PollCall.antt =====
-- `uip_xtcpd_handle_poll` leaves a valid server, and finishes where the clients' commands are calm.
use sc_xtcp.Server.Calls.{
  Ensures, Good, aside, ask_after_wait, begin_at, chain, change, either, finish, sent, tell,
  with_slot,
}
use sc_xtcp.Base.{Bool, ltb, not, refl, ◌&&◌, ◌==◌}
use sc_xtcp.Server.{
  Flags, Ref, Server, closed, new_connection, no_link, poll, tcp, udp, udp_protocol,
}
use sc_xtcp.Server.Request.{Uip}
use sc_xtcp.Server.Events.{init_state, room_of, xtcpd_event}
use sc_xtcp.Server.Poll.{
  abort_flags, close_flags, handle_poll, hang_up, poll_ack, poll_connect, poll_request, poll_send,
  poll_timer,
}
use sc_xtcp.Server.Commands.{IsLawful}
use sc_xtcp.Server.Table.{update_at}

-- The parts of `uip_xtcpd_handle_poll`.
module _ (lib : Uip) (l : IsLawful lib) (calm : Bool) where
  hang_up-Ensures :
      (f : Flags) (r : Ref) (s : Server) → Good calm r s → Ensures calm r (hang_up lib f s r)
  unfolding hang_up
  hang_up-Ensures f (tcp i) s g = aside calm (tcp i) s _ g refl refl refl (λ c. c)
  hang_up-Ensures f (udp i) s g =
      chain calm (udp i) (update_at (λ v. record v { lport = 0 }) s (udp i)) _
        (change calm (udp i) s _ g (λ v. refl)) λ t k. tell lib l calm (udp i) closed t k

  poll_connect-Ensures :
      (r : Ref) (s : Server) → Good calm r s → Ensures calm r (poll_connect lib s r)
  unfolding poll_connect
  poll_connect-Ensures (tcp i) s g = g
  poll_connect-Ensures (udp i) s g = with_slot calm (udp i) s _ g λ v _.
      chain calm (udp i) (init_state udp_protocol v.ripaddr v.lport v.rport s (udp i)) _
        (begin_at lib l calm (udp i) udp_protocol v.ripaddr v.lport v.rport s g)
        λ t k.
          finish lib l calm (udp i) _ (xtcpd_event lib new_connection t (udp i)) (λ a. refl)
            (tell lib l calm (udp i) new_connection t k)

  poll_send-Ensures : (r : Ref) (s : Server) → Good calm r s → Ensures calm r (poll_send lib s r)
  unfolding poll_send
  poll_send-Ensures r s g = with_slot calm r s _ g λ v _.
      finish lib l calm r _ _ (λ a. refl)
        (either calm r (v.app.linknum == no_link) _ _ g
          (sent lib l calm r _ (ask_after_wait lib l calm r _ (room_of r v) s g)))

  poll_timer-Ensures : (r : Ref) (s : Server) → Good calm r s → Ensures calm r (poll_timer lib s r)
  unfolding poll_timer
  poll_timer-Ensures r s g =
      finish lib l calm r _ (xtcpd_event lib poll s r) (λ a. refl) (tell lib l calm r poll s g)

  poll_ack-Ensures : (r : Ref) (s : Server) → Good calm r s → Ensures calm r (poll_ack s r)
  unfolding poll_ack
  poll_ack-Ensures r s g = with_slot calm r s _ g λ v _.
      either calm r v.app.ack_request _ _
        (change calm r _ _ (aside calm r s _ g refl refl refl (λ c. c)) (λ v. refl)) g

  poll_request-Ensures :
      (expired : Bool) (r : Ref) (s : Server)
      → Good calm r s
      → Ensures calm r (poll_request lib expired s r)
  unfolding poll_request
  poll_request-Ensures expired r s g = with_slot calm r s _ g λ v _.
      either calm r v.app.abort_request _ _
        (finish lib l calm r _ _ (λ a. refl) (hang_up-Ensures abort_flags r s g))
        (either calm r v.app.close_request _ _
          (finish lib l calm r _ _ (λ a. refl) (hang_up-Ensures close_flags r s g))
          (either calm r v.app.connect_request _ _ (poll_connect-Ensures r s g) (
            either calm r (ltb 0 v.app.send_request) _ _ (poll_send-Ensures r s g) (
              either calm r (not (v.app.poll_interval == 0) && expired) _ _
                (poll_timer-Ensures r s g) g))))

  pub handle_poll-Ensures :
      (expired : Bool) (r : Ref) (s : Server)
      → Good calm r s
      → Ensures calm r (handle_poll lib expired s r)
  unfolding handle_poll
  handle_poll-Ensures expired r s g =
      chain calm r (poll_ack s r) _ (poll_ack-Ensures r s g)
        λ t k. poll_request-Ensures expired r t k
