-- ===== src/Server/Table.antt =====
-- The connection tables: access through a pointer, and the search for a connection by its id.
use sc_xtcp.Base.{
  List, Option, [], get_elem?, if◌then◌else◌, none, set, some, ℕ, ◌+◌, ◌==◌, ◌>>=◌, ◌∷◌,
}
use sc_xtcp.Server.{Ref, Server, Slot, XtcpdState, tcp, udp}

-- The slot behind a pointer.
abbrev pub slot_at : Server → Ref → Option Slot
slot_at s (tcp i) = get_elem? s.tcps i
slot_at s (udp i) = get_elem? s.udps i

abbrev pub put_slot : Server → Ref → Slot → Server
put_slot s (tcp i) v = record s { tcps = set s.tcps i v }
put_slot s (udp i) v = record s { udps = set s.udps i v }

-- `lookup_xtcpd_state`: the two tables are searched in step, TCP first, for as long as either lasts.
unfoldable pub lookup_from : ℕ → ℕ → List Slot → List Slot → Option Ref
lookup_from id i [] [] = none
lookup_from id i (t ∷ ts) [] = if t.app.id == id then some (tcp i) else lookup_from id (i + 1) ts []
lookup_from id i [] (u ∷ us) = if u.app.id == id then some (udp i) else lookup_from id (i + 1) [] us
lookup_from id i (t ∷ ts) (u ∷ us) =
    if t.app.id == id
    then some (tcp i)
    else if u.app.id == id
    then some (udp i)
    else lookup_from id (i + 1) ts us

unfoldable pub lookup_state : Server → ℕ → Option Ref
unfolding lookup_from
lookup_state s id = lookup_from id 0 s.tcps s.udps

-- Change the slot behind a pointer; a dangling one is a fault.
unfoldable pub update_at : (Slot → Slot) → Server → Ref → Option Server
update_at f s r = slot_at s r >>= λ v. some (put_slot s r (f v))

abbrev pub with_app : (XtcpdState → XtcpdState) → Slot → Slot
with_app f v = record v { app = f v.app }
