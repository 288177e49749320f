-- ===== src/Support/Flush.antt =====
-- No packet stays in the buffer, and no connection with work is passed over.
use sc_xtcp.Base.{
  Bool, Bool-cases, Option, arith, false, if◌then◌else◌, inl, inr, length, ltb, none, not, refl,
  some, suc, true, zero, ℕ, ◌&&◌, ◌+◌, ◌==◌, ◌≡◌,
}
use sc_xtcp.Base.Words.{htons}
use sc_xtcp.Server.{Ref, Server, Slot}
use sc_xtcp.Server.Request.{Uip}
use sc_xtcp.Server.Poll.{handle_poll, poll_ack, poll_request}
use sc_xtcp.Server.Table.{slot_at}
use sc_xtcp.Support.Polling.{
  Stack, arp_event, arp_in_packet, check_connection_poll, for_each, ip_in, needs_poll, poll_tcp,
  poll_udp, process_incoming_packet, process_periodic_timer, process_udp_acks, send_ack, tcp_timer,
  transmit, transmit_raw, tx_buffer, udp_timer, uip_conns,
}

-- Where an empty buffer stays empty at each round, it is empty after the loop.
for_each-keeps :
    {A : Type 0} (P : A → Type 0) (f : ℕ → A → A) (n i : ℕ) (a : A)
    → ((j : ℕ) (b : A) → P b → P (f j b))
    → P a
    → P (for_each i n f a)
unfolding for_each
for_each-keeps P f zero i a h p = p
for_each-keeps P f (suc n) i a h p = for_each-keeps P f n (i + 1) (f i a) h (h i a p)

module _ {A : Type 0} (k : Stack A) (sets : (n : ℕ) (a : A) → k.uip_len (k.set_len n a) ≡ n) where
  IsFlushed : A → Type 0
  IsFlushed a = k.uip_len a ≡ 0

  transmit-IsFlushed : (c : Option ℕ) (a : A) → IsFlushed (transmit k c a)
  unfolding transmit tx_buffer IsFlushed
  transmit-IsFlushed c a = elim (Bool-cases (ltb 0 (k.uip_len a))) [
    | inl e ↦ rw e (sets 0 _)
    | inr e ↦ rw e (ground arith)
  ]

  transmit_raw-IsFlushed : (a : A) → IsFlushed (transmit_raw k a)
  unfolding transmit_raw tx_buffer IsFlushed
  transmit_raw-IsFlushed a = elim (Bool-cases (ltb 0 (k.uip_len a))) [
    | inl e ↦ rw e (sets 0 _)
    | inr e ↦ rw e (ground arith)
  ]

  IsFlushed-if : (b : Bool) (x y : A) → IsFlushed x → IsFlushed y → IsFlushed (if b then x else y)
  IsFlushed-if true x y h g = h
  IsFlushed-if false x y h g = g

  poll-IsFlushed : (a : A) → IsFlushed a → IsFlushed (check_connection_poll k a)
  unfolding check_connection_poll poll_tcp poll_udp
  poll-IsFlushed a h =
      for_each-keeps IsFlushed (poll_udp k) uip_conns 0 _
        (λ i b g.
          IsFlushed-if (needs_poll (k.udp_appstate b i)) _ _ (transmit-IsFlushed (some i) _) g)
        (for_each-keeps IsFlushed (poll_tcp k) uip_conns 0 a
          (λ i b g.
            IsFlushed-if (needs_poll (k.tcp_appstate b i)) _ _ (transmit-IsFlushed none _) g)
          h)

  incoming-IsFlushed :
      (length : ℕ) (a : A) → IsFlushed a → IsFlushed (process_incoming_packet k length a)
  unfolding process_incoming_packet ip_in arp_in_packet arp_event
  incoming-IsFlushed length a h =
      IsFlushed-if (k.frame_type a == htons 2048) _ _ (transmit-IsFlushed _ _) (
        IsFlushed-if (k.frame_type a == htons 2054) _ _
          (for_each-keeps IsFlushed (arp_event k) uip_conns 0 _
            (λ i b g. transmit-IsFlushed (some i) _) (transmit_raw-IsFlushed _))
          h)

  acks-IsFlushed : (a : A) → IsFlushed a → IsFlushed (process_udp_acks k a)
  unfolding process_udp_acks send_ack
  acks-IsFlushed a h =
      for_each-keeps IsFlushed (send_ack k) uip_conns 0 a
        (λ i b g. IsFlushed-if (k.has_ack b i) _ _ (transmit-IsFlushed (some i) _) g) h

  timer-IsFlushed : (a : A) → IsFlushed (process_periodic_timer k a)
  unfolding process_periodic_timer udp_timer tcp_timer
  timer-IsFlushed a =
      for_each-keeps IsFlushed (tcp_timer k) uip_conns 0 _ (λ i b g. transmit-IsFlushed none _)
        (for_each-keeps IsFlushed (udp_timer k) uip_conns 0 _
          (λ i b g. transmit-IsFlushed (some i) _) (transmit_raw-IsFlushed _))

-- If uIP keeps the length that it is given, the packet buffer is empty after each of the four entry
-- points that finds it empty.
entry_points_flush :
    {A : Type 0} (k : Stack A) (length : ℕ) (a : A)
    → ((n : ℕ) (b : A) → k.uip_len (k.set_len n b) ≡ n)
    → k.uip_len a ≡ 0
    → (k.uip_len (check_connection_poll k a) ≡ 0)
      × (k.uip_len (process_incoming_packet k length a) ≡ 0)
      × (k.uip_len (process_udp_acks k a) ≡ 0)
      × (k.uip_len (process_periodic_timer k a) ≡ 0)
unfolding IsFlushed
entry_points_flush k length a sets h = (
  poll-IsFlushed k sets a h,
  incoming-IsFlushed k sets length a h,
  acks-IsFlushed k sets a h,
  timer-IsFlushed k sets a,
)

-- A connection that `xtcpd_check_connection_poll` passes over has nothing to do: a poll of it changes
-- nothing and sends nothing, as long as its timer has not expired.
no_poll-idle :
    (lib : Uip) (s : Server) (r : Ref) (v : Slot)
    → slot_at s r ≡ some v
    → needs_poll v.app ≡ false
    → handle_poll lib false s r ≡ some s
unfolding handle_poll poll_ack poll_request needs_poll
no_poll-idle lib s r v e h =
    let ack : v.app.ack_request ≡ false = ground arith in
    let aborts : v.app.abort_request ≡ false = ground arith in
    let closes : v.app.close_request ≡ false = ground arith in
    let connects : v.app.connect_request ≡ false = ground arith in
    let sends : ltb 0 v.app.send_request ≡ false = ground arith in
    let waits : (not (v.app.poll_interval == 0) && false) ≡ false = ground arith in
    rw (e, ack, e, aborts, closes, connects, sends, waits) refl
