-- ===== src/Autoip.antt =====
-- IPv4 link-local addresses: module_xtcp/src/xtcp_uip/autoip/autoip.c. `timer_expired` is an argument
-- of the calls that ask it, and `timer` is the interval that was last set.
pub mod Invariant
pub mod Progress
pub mod Conflict
mod Tests
use sc_xtcp.Base.{
  Bool, List, Option, [], false, if◌then◌else◌, ltb, none, not, replicate, some, true, ℕ, ◌%◌, ◌&&◌,
  ◌*◌, ◌+◌, ◌-◌, ◌/◌, ◌==◌, ◌^◌, ◌||◌, ◌∷◌,
}
use sc_xtcp.Base.Net.{IpAddr, ip_eq, zero_addr}
use sc_xtcp.Base.Words.{htons, u32}

-- `enum autoip_machine_state`
pub data MachineState : Type 0 where
  disabled : MachineState
  no_address : MachineState
  wait_for_probe : MachineState
  probing : MachineState
  wait_for_announce : MachineState
  announcing : MachineState
  configured : MachineState

-- `struct autoip_state_t`; `seed` and `rand` are below 2 ^ 32
pub record Autoip : Type 0 where
  pub state : MachineState
  pub probes_sent : ℕ
  pub announces_sent : ℕ
  pub num_conflicts : ℕ
  pub limit_rate : Bool
  pub rand : ℕ
  pub seed : ℕ
  pub timer : ℕ
  pub ipaddr : IpAddr

-- `struct arp_hdr`
pub record ArpHdr : Type 0 where
  pub dest : List ℕ
  pub src : List ℕ
  pub ethtype : ℕ
  pub hwtype : ℕ
  pub protocol : ℕ
  pub hwlen : ℕ
  pub protolen : ℕ
  pub opcode : ℕ
  pub shwaddr : List ℕ
  pub sipaddr : IpAddr
  pub dhwaddr : List ℕ
  pub dipaddr : IpAddr

-- What a call does besides its state: the packet in `uip_buf`, and the address that it passes to
-- `autoip_configured`.
pub record Effects : Type 0 where
  pub packet : Option ArpHdr
  pub told : Option IpAddr

abbrev pub nothing : Effects
nothing = record { packet = none; told = none }

abbrev pub sends : ArpHdr → Effects
sends p = record { packet = some p; told = none }

abbrev pub clock_second : ℕ
clock_second = 1000

-- `rand`
abbrev pub next_rand : ℕ → ℕ
next_rand x = u32 (1664525 * x + 1013904223)

-- `autoip_init`
unfoldable pub autoip_init : ℕ → Autoip → Autoip
autoip_init seed s = record s {
  state = disabled;
  probes_sent = 0;
  announces_sent = 0;
  num_conflicts = 0;
  limit_rate = false;
  seed = seed;
  rand = seed;
}

-- `random_timer_set`: the product is an unsigned int before it is a long long.
unfoldable pub random_timer_set : ℕ → ℕ → Autoip → Autoip
random_timer_set a b s =
    let r = next_rand s.rand in record s { rand = r; timer = a + u32 (r * (b - a)) / 2 ^ 32 }

-- `autoip_arp_pkt`
abbrev pub autoip_arp_pkt : ArpHdr
autoip_arp_pkt = record {
  dest = replicate 6 255;
  src = replicate 6 0;
  ethtype = htons 2054;
  hwtype = htons 1;
  protocol = htons 2048;
  hwlen = 6;
  protolen = 4;
  opcode = htons 1;
  shwaddr = replicate 6 0;
  sipaddr = zero_addr;
  dhwaddr = replicate 6 0;
  dipaddr = zero_addr;
}

-- `create_arp_packet`, with `uip_ethaddr`
abbrev pub create_arp_packet : List ℕ → ArpHdr
create_arp_packet mac = record autoip_arp_pkt { src = mac; shwaddr = mac }

-- `send_probe`
unfoldable pub send_probe : List ℕ → Autoip → Autoip × Effects
send_probe mac s = (
  random_timer_set (1 * clock_second) (2 * clock_second)
      (record s { probes_sent = s.probes_sent + 1 }),
  sends (record (create_arp_packet mac) { dipaddr = s.ipaddr }),
)

-- `send_announce`
unfoldable pub send_announce : List ℕ → Autoip → Autoip × Effects
send_announce mac s = (
  record s { announces_sent = s.announces_sent + 1; timer = 2 * clock_second },
  sends (record (create_arp_packet mac) { dipaddr = s.ipaddr; sipaddr = s.ipaddr }),
)

-- NO_ADDRESS: choose an address
unfoldable pub choose : Autoip → Autoip
choose s =
    let r = next_rand s.rand in
    random_timer_set 0 (1 * clock_second) (record s {
      rand = r;
      ipaddr = record { b0 = 169; b1 = 254; b2 = r % 256; b3 = r / 256 % 256 };
      state = wait_for_probe;
    })

-- WAIT_FOR_ANNOUNCE after a conflict; `num_conflicts` is reset before it is compared.
unfoldable pub give_up : Autoip → Autoip
give_up s =
    let cleared = record s {
      state = no_address;
      probes_sent = 0;
      announces_sent = 0;
      num_conflicts = 0;
    } in
    record cleared {
      limit_rate = s.limit_rate || ltb 10 cleared.num_conflicts;
      timer = 60 * clock_second;
    }

-- ANNOUNCING: the last announcement configures the address.
unfoldable pub announce : List ℕ → Autoip → Autoip × Effects
announce mac s =
    let (t, out) = send_announce mac s in
    if t.announces_sent == 2
    then (record t { state = configured }, record out { told = some t.ipaddr })
    else (t, out)

-- the states of `autoip_periodic`
unfoldable pub periodic_in : MachineState → List ℕ → Bool → Autoip → Autoip × Effects
periodic_in disabled mac expired s = (s, nothing)
periodic_in no_address mac expired s =
    if not s.limit_rate || expired then (choose s, nothing) else (s, nothing)
periodic_in wait_for_probe mac expired s =
    if expired then send_probe mac (record s { state = probing }) else (s, nothing)
periodic_in probing mac expired s =
    if expired
    then (if s.probes_sent == 3
        then (record s { state = wait_for_announce; timer = 2 * clock_second }, nothing)
        else send_probe mac s)
    else (s, nothing)
periodic_in wait_for_announce mac expired s =
    if expired
    then (if s.num_conflicts == 0
        then send_announce mac (record s { state = announcing })
        else (give_up s, nothing))
    else (s, nothing)
periodic_in announcing mac expired s = announce mac s
periodic_in configured mac expired s = (s, nothing)

-- `autoip_periodic`
abbrev pub autoip_periodic : List ℕ → Bool → Autoip → Autoip × Effects
autoip_periodic mac expired s = periodic_in s.state mac expired s

-- the states in which `autoip_arp_in` looks at a packet
abbrev pub is_claiming : MachineState → Bool
is_claiming wait_for_probe = true
is_claiming probing = true
is_claiming wait_for_announce = true
is_claiming disabled = false
is_claiming no_address = false
is_claiming announcing = false
is_claiming configured = false

-- `autoip_arp_in`, with the packet's sender
unfoldable pub autoip_arp_in : IpAddr → Autoip → Autoip
autoip_arp_in sipaddr s =
    if is_claiming s.state && ip_eq sipaddr s.ipaddr
    then record s { num_conflicts = s.num_conflicts + 1 }
    else s

abbrev pub is_disabled : MachineState → Bool
is_disabled disabled = true
is_disabled no_address = false
is_disabled wait_for_probe = false
is_disabled probing = false
is_disabled wait_for_announce = false
is_disabled announcing = false
is_disabled configured = false

-- `autoip_start`
unfoldable pub autoip_start : Autoip → Autoip
autoip_start s =
    if is_disabled s.state
    then (let t = autoip_init s.seed s in record t { rand = next_rand t.rand; state = no_address })
    else s

-- `autoip_stop`
unfoldable pub autoip_stop : Autoip → Autoip
autoip_stop s = record s { state = disabled }

-- A call from the rest of the program.
pub data Call : Type 0 where
  periodic : Bool → Call
  arp_in : IpAddr → Call
  start : Call
  stop : Call

abbrev pub call : List ℕ → Call → Autoip → Autoip × Effects
call mac (periodic expired) s = autoip_periodic mac expired s
call mac (arp_in a) s = (autoip_arp_in a s, nothing)
call mac start s = (autoip_start s, nothing)
call mac stop s = (autoip_stop s, nothing)

-- the effects of a sequence of calls, in order
abbrev pub run : List ℕ → List Call → Autoip → Autoip × List Effects
run mac [] s = (s, [])
run mac (c ∷ cs) s = let (t, e) = call mac c s in let (u, es) = run mac cs t in (u, e ∷ es)
