-- ===== src/Support/Link.antt =====
-- The node's addresses over link changes and configurations, against the phases of the interface.
use sc_xtcp.Base.{Bool-cases, List, [], arith, false, inl, inr, refl, some, true, ℕ, ◌||◌, ◌∷◌, ◌≡◌}
use sc_xtcp.Base.Net.{IpAddr}
use sc_xtcp.Support.{
  IpConfig, Node, autoip_configured, configure, dhcpc_configured, dhcpc_init, dhcpc_stop, is_set,
  link_local_config, uip_linkdown, uip_linkup, uip_server_init,
}
use sc_xtcp.Autoip.{autoip_stop, disabled}

-- What happens to the node.
pub data Change : Type 0 where
  link_up : Change
  link_down : Change
  dhcp_has : IpConfig → Change
  autoip_has : IpAddr → Change

abbrev pub change : Change → Node → Node
change link_up s = uip_linkup s
change link_down s = uip_linkdown s
change (dhcp_has c) s = dhcpc_configured c s
change (autoip_has a) s = autoip_configured a s

abbrev pub changes : List Change → Node → Node
changes [] s = s
changes (c ∷ cs) s = changes cs (change c s)

-- What the clients are promised: no address, the lease, or a link-local address until there is a lease.
pub data Phase : Type 0 where
  unconfigured : Phase
  leased : IpConfig → Phase
  link_local : IpAddr → Phase

abbrev pub phase_after : Change → Phase → Phase
phase_after link_up p = unconfigured
phase_after link_down p = unconfigured
phase_after (dhcp_has c) p = leased c
phase_after (autoip_has a) unconfigured = link_local a
phase_after (autoip_has a) (leased c) = leased c
phase_after (autoip_has a) (link_local b) = link_local a

abbrev pub phases_after : List Change → Phase → Phase
phases_after [] p = p
phases_after (c ∷ cs) p = phases_after cs (phase_after c p)

abbrev pub HasAddresses : IpConfig → Node → Type 0
HasAddresses c s = (s.hostaddr ≡ c.ipaddr) × (s.netmask ≡ c.netmask) × (s.draddr ≡ c.gateway)

-- How a node without a static address shows its phase.
abbrev pub Shows : Phase → Node → Type 0
Shows unconfigured s = (s.ifstate ≡ false) × (s.dhcp_done ≡ false)
Shows (leased c) s =
    (s.ifstate ≡ true) × (s.dhcp_done ≡ true) × HasAddresses c s × (s.autoip.state ≡ disabled)
Shows (link_local a) s =
    (s.ifstate ≡ true) × (s.dhcp_done ≡ false) × HasAddresses (link_local_config a) s

abbrev pub Implements : Phase → Node → Type 0
Implements p s = (s.uip_static_ip ≡ false) × Shows p s

linkup-Implements : (p : Phase) (s : Node) → Implements p s → Implements unconfigured (uip_linkup s)
unfolding uip_linkup
linkup-Implements p s (d, h) = elim (Bool-cases s.ifstate) [
  | inl e ↦ rw (e, d) (refl, (refl, refl))
  | inr e ↦ rw (e, d) (refl, (refl, refl))
]

autoip-Implements :
    (a : IpAddr) (p : Phase) (s : Node)
    → Implements p s
    → Implements (phase_after (autoip_has a) p) (autoip_configured a s)
unfolding autoip_configured
autoip-Implements a unconfigured s (d, h) = rw (h.1) (d, (refl, refl, (refl, refl, refl)))
autoip-Implements a (leased c) s (d, h) = rw (h.1) (d, (h.0, refl, h.2, h.3))
autoip-Implements a (link_local b) s (d, h) = rw (h.1) (d, (refl, refl, (refl, refl, refl)))

change-Implements :
    (c : Change) (p : Phase) (s : Node) → Implements p s → Implements (phase_after c p) (change c s)
unfolding uip_linkdown dhcpc_configured autoip_stop
change-Implements link_up p s h = linkup-Implements p s h
change-Implements link_down p s h = (h.0, (refl, refl))
change-Implements (dhcp_has c) p s h = (h.0, (refl, refl, (refl, refl, refl), refl))
change-Implements (autoip_has a) p s h = autoip-Implements a p s h

-- For a node without a static address and any sequence of link changes, leases and link-local
-- configurations, the state of the interface and the addresses are those of the phases: nothing after a
-- link change, the last lease with the link-local machine stopped, or the last link-local address
-- where no lease came first.
pub changes-Implements :
    (cs : List Change) (p : Phase) (s : Node)
    → Implements p s
    → Implements (phases_after cs p) (changes cs s)
changes-Implements [] p s h = h
changes-Implements (c ∷ cs) p s h =
    changes-Implements cs (phase_after c p) (change c s) (change-Implements c p s h)

-- A node that `uip_server_init` gave a static address other than zero has that configuration and an
-- interface that is up once the link has gone down and come up after it, and has stopped the DHCP
-- client and not started it.
static_linkup :
    (c : IpConfig) (mac : List ℕ) (s : Node)
    → is_set c.ipaddr ≡ true
    → let t = uip_linkup (uip_linkdown (uip_server_init (some c) mac s)) in
      (t.ifstate ≡ true)
      × HasAddresses c t
      × (t.dhcp_calls ≡ dhcpc_stop ∷ dhcpc_init mac ∷ s.dhcp_calls)
unfolding uip_server_init configure uip_linkdown uip_linkup
static_linkup c mac s h =
    let e : (s.uip_static_ip || is_set c.ipaddr) ≡ true = ground arith in
    rw e (refl, (refl, refl, refl), refl)
