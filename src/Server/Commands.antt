-- ===== src/Server/Commands.antt =====
-- Every command of a client keeps the ids of the connections, and a wait for a client with it.
use sc_xtcp.Base.{
  All, Bool, List, Option, [], false, get_elem?, length, on_some, refl, some, sym, true, ℕ, ◌>>=◌,
  ◌∷◌, ◌≡◌,
}
use sc_xtcp.Base.Words.{htons}
use mathlib.Core.Path.{subst}
use sc_xtcp.Base.Net.{IpAddr}
use sc_xtcp.Server.{
  Command, Protocol, Ref, Server, Slot, XtcpdState, abort, ack_recv, ack_recv_mode, bind_local,
  bind_remote, close, connect, init_send, join_group, leave_group, listen, pause, set_appstate,
  set_poll_interval, tcp, tcp_protocol, udp, udp_protocol, unlisten, unpause,
}
use sc_xtcp.Server.Request.{
  Uip, ask_ack, bind_udp, cast_to, handle_xtcp_cmd, on_conn, run_commands, serve, service, set_poll,
  set_stopped, xtcpd_abort, xtcpd_ack_recv, xtcpd_ack_recv_mode, xtcpd_bind_local,
  xtcpd_bind_remote, xtcpd_close, xtcpd_connect, xtcpd_init_send, xtcpd_listen, xtcpd_pause,
  xtcpd_set_appstate, xtcpd_set_poll_interval, xtcpd_unlisten, xtcpd_unpause,
}
use sc_xtcp.Server.Invariant.{
  >>=-KeepsIf, AreCalm, Keeps, KeepsIf, Keeps-refl, need-KeepsIf, on_some-KeepsIf, tables-Keeps,
  trans-KeepsIf, update_at-KeepsIf,
}
use sc_xtcp.Server.Refs.{id_of}
use sc_xtcp.Server.Table.{lookup_state, slot_at, update_at, with_app}
use sc_xtcp.Server.Guid.{is_some}

-- What the uIP library does when it opens a connection: it returns an entry of the table, and keeps
-- the state of the server in every entry.
pub record IsLawful (lib : Uip) : Type 0 where
  pub connect_ids :
      (ts : List Slot) (addr : IpAddr) (port i : ℕ) (us : List Slot)
      → lib.uip_connect ts addr port ≡ some (i, us)
      → ((j : ℕ) → id_of (get_elem? us j) ≡ id_of (get_elem? ts j)) × (length us ≡ length ts)
  pub udp_ids :
      (ts : List Slot) (addr : IpAddr) (port i : ℕ) (us : List Slot)
      → lib.uip_udp_new ts addr port ≡ some (i, us)
      → ((j : ℕ) → id_of (get_elem? us j) ≡ id_of (get_elem? ts j)) × (length us ≡ length ts)
  pub connect_in :
      (ts : List Slot) (addr : IpAddr) (port i : ℕ) (us : List Slot)
      → lib.uip_connect ts addr port ≡ some (i, us)
      → is_some (get_elem? us i) ≡ true
  pub udp_in :
      (ts : List Slot) (addr : IpAddr) (port i : ℕ) (us : List Slot)
      → lib.uip_udp_new ts addr port ≡ some (i, us)
      → is_some (get_elem? us i) ≡ true

on_conn-KeepsIf :
    (f : XtcpdState → XtcpdState) (s : Server) (id : ℕ)
    → ((a : XtcpdState) → (f a).id ≡ a.id)
    → KeepsIf s (on_conn f s id)
unfolding on_conn
on_conn-KeepsIf f s id h =
    on_some-KeepsIf s (lookup_state s id) _
      (λ r _. update_at-KeepsIf (with_app f) s r (λ v. h v.app))

bind_local-KeepsIf : (id port : ℕ) (s : Server) → KeepsIf s (xtcpd_bind_local id port s)
unfolding xtcpd_bind_local
bind_local-KeepsIf id port s = need-KeepsIf s (lookup_state s id) _ λ r _.
    need-KeepsIf s (slot_at s r) _ λ v _.
      >>=-KeepsIf s _ _ (update_at-KeepsIf _ s r (λ v. refl)) λ t.
        need-KeepsIf t (cast_to v.app.protocol v.app.uip_conn) _
          λ c _. update_at-KeepsIf _ t c (λ v. refl)

bind_udp-KeepsIf :
    (p : Protocol) (o : Option Server) (s : Server) → KeepsIf s o → KeepsIf s (bind_udp p o s)
bind_udp-KeepsIf tcp_protocol o s h = Keeps-refl s
bind_udp-KeepsIf udp_protocol o s h = h

bind_remote-KeepsIf :
    (id : ℕ) (addr : IpAddr) (port : ℕ) (s : Server) → KeepsIf s (xtcpd_bind_remote id addr port s)
unfolding xtcpd_bind_remote
bind_remote-KeepsIf id addr port s = need-KeepsIf s (lookup_state s id) _ λ r _.
    need-KeepsIf s (slot_at s r) _ λ v _. bind_udp-KeepsIf v.app.protocol _ s (
      >>=-KeepsIf s _ _ (update_at-KeepsIf _ s r (λ v. refl)) λ t.
        need-KeepsIf t (cast_to udp_protocol v.app.uip_conn) _
          λ c _. update_at-KeepsIf _ t c (λ v. refl))

set_stopped-KeepsIf : (b : Bool) (s : Server) (r : Ref) → KeepsIf s (set_stopped b s r)
unfolding set_stopped
set_stopped-KeepsIf b s r = need-KeepsIf s (slot_at s r) _ λ v _.
    need-KeepsIf s (cast_to tcp_protocol v.app.uip_conn) _
      λ c _. update_at-KeepsIf _ s c (λ v. refl)

resume-KeepsIf :
    (s : Server) (id : ℕ)
    → KeepsIf s (
        on_some
          (lookup_state s id)
          (some s)
          (λ r. set_stopped false s r >>= λ s'. update_at (with_app ask_ack) s' r))
resume-KeepsIf s id = on_some-KeepsIf s (lookup_state s id) _ λ r _.
    >>=-KeepsIf s _ _ (set_stopped-KeepsIf false s r) λ t. update_at-KeepsIf _ t r (λ v. refl)

id-set_poll : (n : ℕ) (a : XtcpdState) (p : Protocol) → (set_poll n a p).id ≡ a.id
id-set_poll n a tcp_protocol = refl
id-set_poll n a udp_protocol = refl

-- The table that the library returns has the ids of the table that it was given.
tcps-Keeps :
    (s : Server) (ts : List Slot)
    → ((j : ℕ) → id_of (get_elem? ts j) ≡ id_of (get_elem? s.tcps j)) × (length ts ≡ length s.tcps)
    → Keeps s (record s { tcps = ts })
tcps-Keeps s ts h = record {
  same_ids = elim [ tcp j ↦ h.0 j | udp j ↦ refl ];
  same_tcps = h.1;
  same_udps = refl;
  same_guid = refl;
  calm = λ c. c;
}

udps-Keeps :
    (s : Server) (us : List Slot)
    → ((j : ℕ) → id_of (get_elem? us j) ≡ id_of (get_elem? s.udps j)) × (length us ≡ length s.udps)
    → Keeps s (record s { udps = us })
udps-Keeps s us h = record {
  same_ids = elim [ tcp j ↦ refl | udp j ↦ h.0 j ];
  same_tcps = refl;
  same_udps = h.1;
  same_guid = refl;
  calm = λ c. c;
}

connect-KeepsIf :
    (lib : Uip) (link port : ℕ) (addr : IpAddr) (p : Protocol) (s : Server)
    → IsLawful lib
    → KeepsIf s (xtcpd_connect lib link port addr p s)
unfolding xtcpd_connect
connect-KeepsIf lib link port addr tcp_protocol s l =
    on_some-KeepsIf s (lib.uip_connect s.tcps addr (htons port)) _ λ (i, ts) e.
      trans-KeepsIf s (record s { tcps = ts }) _
        (tcps-Keeps s ts (l.connect_ids s.tcps addr (htons port) i ts e))
        (update_at-KeepsIf _ (record s { tcps = ts }) (tcp i) (λ v. refl))
connect-KeepsIf lib link port addr udp_protocol s l =
    on_some-KeepsIf s (lib.uip_udp_new s.udps addr (htons port)) _ λ (i, us) e.
      trans-KeepsIf s (record s { udps = us }) _
        (udps-Keeps s us (l.udp_ids s.udps addr (htons port) i us e))
        (update_at-KeepsIf _ (record s { udps = us }) (udp i) (λ v. refl))

listen-Keeps : (i port : ℕ) (p : Protocol) (s : Server) → Keeps s (xtcpd_listen i port p s)
unfolding xtcpd_listen
listen-Keeps i port tcp_protocol s = tables-Keeps s _ refl refl refl (λ c. c)
listen-Keeps i port udp_protocol s = tables-Keeps s _ refl refl refl (λ c. c)

command-KeepsIf :
    (lib : Uip) (i : ℕ) (c : Command) (s : Server)
    → IsLawful lib
    → KeepsIf s (handle_xtcp_cmd lib i c s)
unfolding handle_xtcp_cmd xtcpd_unlisten xtcpd_init_send xtcpd_abort xtcpd_close xtcpd_ack_recv_mode
    xtcpd_ack_recv xtcpd_pause xtcpd_unpause xtcpd_set_appstate xtcpd_set_poll_interval
command-KeepsIf lib i (listen port p) s l = listen-Keeps i port p s
command-KeepsIf lib i (unlisten port) s l = tables-Keeps s _ refl refl refl (λ c. c)
command-KeepsIf lib i (connect port addr p) s l = connect-KeepsIf lib i port addr p s l
command-KeepsIf lib i (bind_local id port) s l = bind_local-KeepsIf id port s
command-KeepsIf lib i (bind_remote id addr port) s l = bind_remote-KeepsIf id addr port s
command-KeepsIf lib i (init_send id) s l = on_conn-KeepsIf _ s id (λ a. refl)
command-KeepsIf lib i (abort id) s l = on_conn-KeepsIf _ s id (λ a. refl)
command-KeepsIf lib i (close id) s l = on_conn-KeepsIf _ s id (λ a. refl)
command-KeepsIf lib i (ack_recv id) s l = resume-KeepsIf s id
command-KeepsIf lib i (ack_recv_mode id) s l = on_conn-KeepsIf _ s id (λ a. refl)
command-KeepsIf lib i (pause id) s l =
    on_some-KeepsIf s (lookup_state s id) _ (λ r _. set_stopped-KeepsIf true s r)
command-KeepsIf lib i (unpause id) s l = resume-KeepsIf s id
command-KeepsIf lib i (set_appstate id x) s l = on_conn-KeepsIf _ s id (λ a. refl)
command-KeepsIf lib i (set_poll_interval id n) s l =
    on_conn-KeepsIf _ s id (λ a. id-set_poll n a a.protocol)
command-KeepsIf lib i (join_group addr) s l = tables-Keeps s _ refl refl refl (λ c. c)
command-KeepsIf lib i (leave_group addr) s l = tables-Keeps s _ refl refl refl (λ c. c)

run_commands-KeepsIf :
    (lib : Uip) (cs : List (ℕ × Command)) (s : Server)
    → IsLawful lib
    → KeepsIf s (run_commands lib cs s)
unfolding run_commands
run_commands-KeepsIf lib [] s l = Keeps-refl s
run_commands-KeepsIf lib ((i, c) ∷ cs) s l =
    >>=-KeepsIf s _ _ (command-KeepsIf lib i c s l) λ t. run_commands-KeepsIf lib cs t l

serve-KeepsIf :
    (lib : Uip) (s : Server) (css : List (List (ℕ × Command)))
    → IsLawful lib
    → css ≡ s.script
    → KeepsIf s (serve lib s css)
unfolding serve
serve-KeepsIf lib s [] l e = Keeps-refl s
serve-KeepsIf lib s (cs ∷ rest) l e =
    trans-KeepsIf s (record s { script = rest }) _
      (tables-Keeps s (record s { script = rest }) refl refl refl
        (λ c. (subst (All AreCalm) (sym e) c).1))
      (run_commands-KeepsIf lib cs (record s { script = rest }) l)

pub service-KeepsIf : (lib : Uip) (s : Server) → IsLawful lib → KeepsIf s (service lib s)
unfolding service
service-KeepsIf lib s l = serve-KeepsIf lib s s.script l refl
