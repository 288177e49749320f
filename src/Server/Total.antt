-- ===== src/Server/Total.antt =====
-- Calm commands never fault, so that a wait for a client ends in a server.
use sc_xtcp.Base.{
  All, List, Option, Option-cases, [], arith, inl, inr, none, on_some, refl, some, true, ℕ, ◌>>=◌,
  ◌∷◌, ◌≡◌,
}
use sc_xtcp.Base.Net.{IpAddr}
use sc_xtcp.Base.Words.{htons}
use sc_xtcp.Server.{
  Command, Protocol, Ref, Server, Slot, XtcpdState, abort, ack_recv, ack_recv_mode, bind_local,
  bind_remote, close, connect, init_send, join_group, leave_group, listen, pause, set_appstate,
  set_poll_interval, tcp, tcp_protocol, udp, udp_protocol, unlisten, unpause,
}
use sc_xtcp.Server.Table.{lookup_state, slot_at, update_at, with_app}
use sc_xtcp.Server.Commands.{IsLawful}
use sc_xtcp.Server.Guid.{is_some}
use sc_xtcp.Server.Invariant.{AreCalm, IsCalm, is_calm}
use sc_xtcp.Server.Refs.{id_at, lookup_sound}
use sc_xtcp.Server.Request.{
  Uip, handle_xtcp_cmd, on_conn, run_commands, serve, service, xtcpd_abort, xtcpd_ack_recv_mode,
  xtcpd_close, xtcpd_connect, xtcpd_init_send, xtcpd_set_appstate, xtcpd_set_poll_interval,
}

abbrev pub Runs : Option Server → Type 0
Runs o = is_some o ≡ true

>>=-Runs :
    (m : Option Server) (f : Server → Option Server)
    → Runs m
    → ((t : Server) → m ≡ some t → Runs (f t))
    → Runs (m >>= f)
>>=-Runs none f h k = cc
>>=-Runs (some t) f h k = k t refl

pub update_at-Runs :
    (f : Slot → Slot) (s : Server) (r : Ref) → is_some (slot_at s r) ≡ true → Runs (update_at f s r)
unfolding update_at
update_at-Runs f s r h = elim (Option-cases (slot_at s r)) [
  | inl e ↦ absurd (ground arith)
  | inr (v, e) ↦ rw e
]

exists_of_id : (s : Server) (r : Ref) (g : ℕ) → id_at s r ≡ some g → is_some (slot_at s r) ≡ true
exists_of_id s r g h = ground arith

on_some-Runs {ℓ} :
    {A : Type ℓ} (s : Server) (o : Option A) (f : A → Option Server)
    → ((a : A) → o ≡ some a → Runs (f a))
    → Runs (on_some o (some s) f)
on_some-Runs s none f h = refl
on_some-Runs s (some a) f h = h a refl

on_conn-Runs : (f : XtcpdState → XtcpdState) (s : Server) (id : ℕ) → Runs (on_conn f s id)
unfolding on_conn
on_conn-Runs f s id =
    on_some-Runs s (lookup_state s id) _
      λ r e. update_at-Runs (with_app f) s r (exists_of_id s r id (lookup_sound s id r e))

connect-Runs :
    (lib : Uip) (link port : ℕ) (addr : IpAddr) (p : Protocol) (s : Server)
    → IsLawful lib
    → Runs (xtcpd_connect lib link port addr p s)
unfolding xtcpd_connect
connect-Runs lib link port addr tcp_protocol s l =
    on_some-Runs s (lib.uip_connect s.tcps addr (htons port)) _ λ (i, ts) e.
      update_at-Runs _ (record s { tcps = ts }) (tcp i)
        (l.connect_in s.tcps addr (htons port) i ts e)
connect-Runs lib link port addr udp_protocol s l =
    on_some-Runs s (lib.uip_udp_new s.udps addr (htons port)) _ λ (i, us) e.
      update_at-Runs _ (record s { udps = us }) (udp i) (l.udp_in s.udps addr (htons port) i us e)

command-Runs :
    (lib : Uip) (i : ℕ) (c : Command) (s : Server)
    → IsLawful lib
    → is_calm c ≡ true
    → Runs (handle_xtcp_cmd lib i c s)
unfolding handle_xtcp_cmd xtcpd_init_send xtcpd_abort xtcpd_close xtcpd_ack_recv_mode
    xtcpd_set_appstate xtcpd_set_poll_interval
command-Runs lib i (listen port p) s l h = refl
command-Runs lib i (unlisten port) s l h = refl
command-Runs lib i (connect port addr p) s l h = connect-Runs lib i port addr p s l
command-Runs lib i (bind_local id port) s l h = absurd (ground arith)
command-Runs lib i (bind_remote id addr port) s l h = absurd (ground arith)
command-Runs lib i (init_send id) s l h = on_conn-Runs _ s id
command-Runs lib i (abort id) s l h = on_conn-Runs _ s id
command-Runs lib i (close id) s l h = on_conn-Runs _ s id
command-Runs lib i (ack_recv id) s l h = absurd (ground arith)
command-Runs lib i (ack_recv_mode id) s l h = on_conn-Runs _ s id
command-Runs lib i (pause id) s l h = absurd (ground arith)
command-Runs lib i (unpause id) s l h = absurd (ground arith)
command-Runs lib i (set_appstate id x) s l h = on_conn-Runs _ s id
command-Runs lib i (set_poll_interval id n) s l h = on_conn-Runs _ s id
command-Runs lib i (join_group addr) s l h = refl
command-Runs lib i (leave_group addr) s l h = refl

run_commands-Runs :
    (lib : Uip) (cs : List (ℕ × Command)) (s : Server)
    → IsLawful lib
    → AreCalm cs
    → Runs (run_commands lib cs s)
unfolding run_commands
run_commands-Runs lib [] s l h = refl
run_commands-Runs lib ((i, c) ∷ cs) s l h =
    >>=-Runs (handle_xtcp_cmd lib i c s) _ (command-Runs lib i c s l h.0)
      (λ t _. run_commands-Runs lib cs t l h.1)

serve-Runs :
    (lib : Uip) (s : Server) (css : List (List (ℕ × Command)))
    → IsLawful lib
    → All AreCalm css
    → Runs (serve lib s css)
unfolding serve
serve-Runs lib s [] l h = refl
serve-Runs lib s (cs ∷ rest) l h = run_commands-Runs lib cs _ l h.0

pub service-Runs : (lib : Uip) (s : Server) → IsLawful lib → IsCalm s → Runs (service lib s)
unfolding service
service-Runs lib s l h = serve-Runs lib s s.script l h
