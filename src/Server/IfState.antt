-- ===== src/Server/IfState.antt =====
-- The interface's state as the clients are told of it: `xtcpd_init`, `uip_xtcp_checkstate` and the
-- functions that set the state.
use sc_xtcp.Base.{
  Bool, List, Option, [], false, if◌then◌else◌, none, not, replicate, some, suc, true, zero, ℕ, ◌+◌,
  ◌∷◌,
}
use sc_xtcp.Server.{Event, Out, Server, emit, ifdown, ifup, queue_event}

-- MAX_XTCP_CLIENTS
abbrev pub max_xtcp_clients : ℕ
max_xtcp_clients = 10

-- `xtcpd_init`: -1 in `prev_ifstate` is `none`.
unfoldable pub xtcpd_init : ℕ → Server → Server
xtcpd_init n s = record s { xtcp_num = n; prev_ifstate = replicate max_xtcp_clients none }

unfoldable pub uip_xtcp_up : Server → Server
uip_xtcp_up s = record s { ifstate = true }

unfoldable pub uip_xtcp_down : Server → Server
uip_xtcp_down s = record s { ifstate = false }

-- `uip_xtcpd_send_config`
abbrev pub config_event : Bool → Event
config_event true = ifup
config_event false = ifdown

abbrev pub same_state : Option Bool → Bool → Bool
same_state none b = false
same_state (some true) b = b
same_state (some false) b = not b

-- The loop of `uip_xtcp_checkstate` from link `i` on, with the rounds that are left: what
-- `prev_ifstate` becomes, and the events that are queued, in their order.
unfoldable pub check_links : Bool → ℕ → ℕ → List (Option Bool) → List (Option Bool) × List Out
check_links ifs i zero ps = (ps, [])
check_links ifs i (suc n) [] = ([], [])
check_links ifs i (suc n) (p ∷ ps) =
    let (qs, out) = check_links ifs (i + 1) n ps in
    if same_state p ifs
    then (p ∷ qs, out)
    else (some ifs ∷ qs, queue_event i (config_event ifs) ∷ out)

abbrev pub emit_all : List Out → Server → Server
emit_all [] s = s
emit_all (o ∷ os) s = emit_all os (emit o s)

unfoldable pub checkstate : Server → Server
unfolding check_links
checkstate s =
    let (ps, out) = check_links s.ifstate 0 s.xtcp_num s.prev_ifstate in
    emit_all out (record s { prev_ifstate = ps })
