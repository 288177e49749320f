-- ===== src/Support/Polling.antt =====
-- The loops of uip_server_support.c over the connections. uIP is a parameter: its state is `A`, and its
-- functions are the fields of `Stack`.
use sc_xtcp.Base.{
  Bool, Option, if◌then◌else◌, length, ltb, none, some, suc, zero, ℕ, ◌+◌, ◌==◌, ◌||◌,
}
use sc_xtcp.Base.Words.{htons}
use sc_xtcp.Server.{XtcpdState}

pub record Stack (A : Type 0) : Type 0 where
  pub uip_len : A → ℕ
  pub set_len : ℕ → A → A
  pub frame_type : A → ℕ
  pub proto : A → ℕ
  pub udp_connection : A → Option ℕ
  pub tcp_appstate : A → ℕ → XtcpdState
  pub udp_appstate : A → ℕ → XtcpdState
  pub has_ack : A → ℕ → Bool
  pub uip_split_output : A → A
  pub uip_arp_out : Option ℕ → A → A
  pub uip_poll_conn : ℕ → A → A
  pub uip_periodic : ℕ → A → A
  pub uip_udp_periodic : ℕ → A → A
  pub uip_udp_arp_event : ℕ → A → A
  pub uip_udp_ackdata : ℕ → A → A
  pub uip_arp_ipin : A → A
  pub uip_arp_arpin : A → A
  pub uip_input : A → A
  pub igmp_periodic : A → A

-- UIP_CONNS and UIP_UDP_CONNS
abbrev pub uip_conns : ℕ
uip_conns = 10

-- `needs_poll`
unfoldable pub needs_poll : XtcpdState → Bool
needs_poll a =
    a.connect_request || ltb 0 a.send_request || a.abort_request || a.close_request || a.ack_request

-- a loop of `n` rounds from `i` on
unfoldable pub for_each : {A : Type 0} → ℕ → ℕ → (ℕ → A → A) → A → A
for_each i zero f a = a
for_each i (suc n) f a = for_each (i + 1) n f (f i a)

module _ {A : Type 0} (k : Stack A) where
  -- `xtcp_tx_buffer`
  unfoldable pub tx_buffer : A → A
  tx_buffer a = k.set_len 0 (k.uip_split_output a)

  -- a packet that is there goes out, after `uip_arp_out` for `c`
  unfoldable pub transmit : Option ℕ → A → A
  transmit c a = if ltb 0 (k.uip_len a) then tx_buffer (k.uip_arp_out c a) else a

  unfoldable pub transmit_raw : A → A
  transmit_raw a = if ltb 0 (k.uip_len a) then tx_buffer a else a

  unfoldable pub poll_tcp : ℕ → A → A
  poll_tcp i a = if needs_poll (k.tcp_appstate a i) then transmit none (k.uip_poll_conn i a) else a

  unfoldable pub poll_udp : ℕ → A → A
  poll_udp i a =
      if needs_poll (k.udp_appstate a i) then transmit (some i) (k.uip_udp_periodic i a) else a

  -- `xtcpd_check_connection_poll`
  unfoldable pub check_connection_poll : A → A
  check_connection_poll a = for_each 0 uip_conns poll_udp (for_each 0 uip_conns poll_tcp a)

  -- UIP_PROTO_ICMP and UIP_PROTO_IGMP
  unfoldable pub reply_to : A → Option ℕ
  reply_to a = if k.proto a == 1 || k.proto a == 2 then none else k.udp_connection a

  unfoldable pub arp_event : ℕ → A → A
  arp_event i a = transmit (some i) (k.uip_udp_arp_event i a)

  unfoldable pub ip_in : ℕ → A → A
  ip_in length a =
      let b = k.uip_input (k.uip_arp_ipin (k.set_len length a)) in transmit (reply_to b) b

  unfoldable pub arp_in_packet : ℕ → A → A
  arp_in_packet length a =
      for_each 0 uip_conns arp_event (transmit_raw (k.uip_arp_arpin (k.set_len length a)))

  -- `xtcp_process_incoming_packet`, with UIP_ETHTYPE_IP and UIP_ETHTYPE_ARP
  unfoldable pub process_incoming_packet : ℕ → A → A
  process_incoming_packet length a =
      if k.frame_type a == htons 2048
      then ip_in length a
      else if k.frame_type a == htons 2054
      then arp_in_packet length a
      else a

  unfoldable pub send_ack : ℕ → A → A
  send_ack i a = if k.has_ack a i then transmit (some i) (k.uip_udp_ackdata i a) else a

  -- `xtcp_process_udp_acks`
  unfoldable pub process_udp_acks : A → A
  process_udp_acks a = for_each 0 uip_conns send_ack a

  unfoldable pub udp_timer : ℕ → A → A
  udp_timer i a = transmit (some i) (k.uip_udp_periodic i a)

  unfoldable pub tcp_timer : ℕ → A → A
  tcp_timer i a = transmit none (k.uip_periodic i a)

  -- `xtcp_process_periodic_timer`
  unfoldable pub process_periodic_timer : A → A
  process_periodic_timer a =
      for_each 0 uip_conns tcp_timer
        (for_each 0 uip_conns udp_timer (transmit_raw (k.igmp_periodic a)))
