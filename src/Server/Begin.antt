-- ===== src/Server/Begin.antt =====
-- The start of a connection, `xtcpd_init_state`: it always finishes, with an id of its own.
use sc_xtcp.Base.{
  Bool-cases, ap, arith, if◌then◌else◌, inl, inr, length, length-set, none, refl, set, some, sym, ℕ,
  ◌+◌, ◌<◌, ◌∙◌, ◌≡◌, ◌≢◌, ◌≤◌, ◌⊎◌,
}
use sc_xtcp.Base.Net.{IpAddr}
use sc_xtcp.Server.{
  ConnectionType, Protocol, Ref, Server, Slot, XtcpdState, blank, server_connection, tcp, udp,
}
use sc_xtcp.Server.Table.{lookup_state, put_slot, slot_at, update_at, with_app}
use sc_xtcp.Server.Events.{fresh_state, init_state, listeners_for}
use sc_xtcp.Server.Guid.{find_guid, find_guid_total, is_some, max_guid}
use sc_xtcp.Server.Invariant.{IsUnique, IsValid}
use sc_xtcp.Server.Listener.{get_listener_linknum}
use sc_xtcp.Server.Refs.{id_at, id_of, lookup_complete, ref_eq, ref_eq_iff, slot_at-put_slot}

-- The link and the kind of a connection that begins: those of the client that asked for it, or those
-- that the listener for the port says.
abbrev pub begin_link : Protocol → ℕ → Server → XtcpdState → ℕ
begin_link p lport s a =
    if a.connect_request then a.linknum else get_listener_linknum (listeners_for p s) lport

abbrev pub begin_kind : XtcpdState → ConnectionType
begin_kind a = if a.connect_request then a.connection_type else server_connection

-- What `xtcpd_init_state` on the slot `v` at `r` of `s` leaves.
pub record Began (p : Protocol) (addr : IpAddr) (lport rport : ℕ) (s : Server) (r : Ref) (v : Slot)
    (g : ℕ) (t : Server) : Type 0 where
  pub low : 1 ≤ g
  pub high : g ≤ max_guid
  pub unused : (r' : Ref) → r' ≢ r → id_at s r' ≢ some g
  pub slot :
      slot_at t r
      ≡ some (record v {
        app = fresh_state (begin_link p lport s v.app) (begin_kind v.app) g p addr lport rport r;
      })
  pub others : (r' : Ref) → r' ≢ r → slot_at t r' ≡ slot_at s r'
  pub valid : IsValid t
  pub same_script : t.script ≡ s.script

slot_at_guid : (s : Server) (g : ℕ) (r : Ref) → slot_at (record s { guid = g }) r ≡ slot_at s r
slot_at_guid s g (tcp i) = refl
slot_at_guid s g (udp i) = refl

put_slot_ne :
    (s : Server) (r r' : Ref) (v w : Slot)
    → slot_at s r ≡ some w
    → r' ≢ r
    → slot_at (put_slot s r v) r' ≡ slot_at s r'
put_slot_ne s r r' v w h ne = elim (Bool-cases (ref_eq r r')) [
  | inl e ↦ absurd (ne (sym ((ref_eq_iff r r').0 e)))
  | inr e ↦ slot_at-put_slot s r r' v w h ∙ rw e
]

put_slot_eq :
    (s : Server) (r : Ref) (v w : Slot) → slot_at s r ≡ some w → slot_at (put_slot s r v) r ≡ some v
put_slot_eq s r v w h = slot_at-put_slot s r r v w h ∙ rw ((ref_eq_iff r r).1 refl)

-- The two writes of `xtcpd_init_state`, to clear the state and to fill it.
abbrev cleared : Server → Ref → Slot → Server
cleared s r v = put_slot s r (with_app (λ _. blank) v)

abbrev filled : Server → Ref → Slot → ℕ → XtcpdState → Server
filled s r v g a = put_slot (record (cleared s r v) { guid = g }) r (record v { app = a })

cleared-slot :
    (s : Server) (r : Ref) (v : Slot)
    → slot_at s r ≡ some v
    → slot_at (cleared s r v) r ≡ some (with_app (λ _. blank) v)
cleared-slot s r v h = put_slot_eq s r (with_app (λ _. blank) v) v h

filled-slot :
    (s : Server) (r : Ref) (v : Slot) (g : ℕ) (a : XtcpdState)
    → slot_at s r ≡ some v
    → slot_at (filled s r v g a) r ≡ some (record v { app = a })
filled-slot s r v g a h =
    put_slot_eq (record (cleared s r v) { guid = g }) r (record v { app = a })
      (with_app (λ _. blank) v) (slot_at_guid (cleared s r v) g r ∙ cleared-slot s r v h)

filled-others :
    (s : Server) (r r' : Ref) (v : Slot) (g : ℕ) (a : XtcpdState)
    → slot_at s r ≡ some v
    → r' ≢ r
    → slot_at (filled s r v g a) r' ≡ slot_at s r'
filled-others s r r' v g a h ne =
    put_slot_ne (record (cleared s r v) { guid = g }) r r' (record v { app = a })
      (with_app (λ _. blank) v) (slot_at_guid (cleared s r v) g r ∙ cleared-slot s r v h) ne
    ∙ slot_at_guid (cleared s r v) g r'
    ∙ put_slot_ne s r r' (with_app (λ _. blank) v) v h ne

ref_cases : (r r' : Ref) → (r ≡ r') ⊎ (r ≢ r')
ref_cases r r' = elim (Bool-cases (ref_eq r r')) [
  | inl e ↦ inl ((ref_eq_iff r r').0 e)
  | inr e ↦ inr (λ p. cc ((ref_eq_iff r r').1 p))
]

filled-IsUnique :
    (s : Server) (r : Ref) (v : Slot) (g : ℕ) (a : XtcpdState)
    → IsUnique s
    → slot_at s r ≡ some v
    → a.id ≡ g
    → ((r' : Ref) → r' ≢ r → id_at s r' ≢ some g)
    → IsUnique (filled s r v g a)
filled-IsUnique s r v g a u h ia fresh r1 r2 k p q nz = elim (ref_cases r1 r) [
  | inl e1 ↦ elim (ref_cases r2 r) [
    | inl e2 ↦ e1 ∙ sym e2
    | inr n2 ↦ absurd (fresh r2 n2 (there r2 n2 q ∙ ap some (sym (here r1 e1 p) ∙ ia)))
  ]
  | inr n1 ↦ elim (ref_cases r2 r) [
    | inl e2 ↦ absurd (fresh r1 n1 (there r1 n1 p ∙ ap some (sym (here r2 e2 q) ∙ ia)))
    | inr n2 ↦ u r1 r2 k (there r1 n1 p) (there r2 n2 q) nz
  ]
]
  where
    there : (r' : Ref) → r' ≢ r → id_at (filled s r v g a) r' ≡ some k → id_at s r' ≡ some k
    there r' ne e = ap id_of (sym (filled-others s r r' v g a h ne)) ∙ e

    here : (r' : Ref) → r' ≡ r → id_at (filled s r v g a) r' ≡ some k → a.id ≡ k
    here r' e l =
        let same : some a.id ≡ some k =
          sym (ap id_of (ap (slot_at (filled s r v g a)) e ∙ filled-slot s r v g a h)) ∙ l in
        cc

length-filled :
    (s : Server) (r : Ref) (v : Slot) (g : ℕ) (a : XtcpdState)
    → (length (filled s r v g a).tcps ≡ length s.tcps)
      × (length (filled s r v g a).udps ≡ length s.udps)
      × ((filled s r v g a).guid ≡ g)
length-filled s (tcp i) v g a =
    (length-set (set s.tcps i _) i _ ∙ length-set s.tcps i _, refl, refl)
length-filled s (udp i) v g a =
    (refl, length-set (set s.udps i _) i _ ∙ length-set s.udps i _, refl)

-- The cleared table has a free id, and the slot itself holds none.
cleared_fresh :
    (s : Server) (r r' : Ref) (v : Slot) (g : ℕ)
    → slot_at s r ≡ some v
    → lookup_state (cleared s r v) g ≡ none
    → r' ≢ r
    → id_at s r' ≢ some g
cleared_fresh s r r' v g h l ne k =
    lookup_complete (cleared s r v) g r' l
      (ap id_of (put_slot_ne s r r' (with_app (λ _. blank) v) v h ne) ∙ k)

small-cleared :
    (s : Server) (r : Ref) (v : Slot)
    → IsValid s
    → length (cleared s r v).tcps + length (cleared s r v).udps < max_guid
small-cleared s (tcp i) v valid =
    omega (arith, valid.small, length-set s.tcps i (with_app (λ _. blank) v))
small-cleared s (udp i) v valid =
    omega (arith, valid.small, length-set s.udps i (with_app (λ _. blank) v))

guid-cleared : (s : Server) (r : Ref) (v : Slot) → (cleared s r v).guid ≡ s.guid
guid-cleared s (tcp i) v = refl
guid-cleared s (udp i) v = refl

init_state_runs :
    (p : Protocol) (addr : IpAddr) (lport rport : ℕ) (s : Server) (r : Ref) (v : Slot) (g : ℕ)
    → slot_at s r ≡ some v
    → find_guid max_guid (λ k. is_some (lookup_state (cleared s r v) k)) (cleared s r v).guid
      ≡ some g
    → init_state p addr lport rport s r
      ≡ some (
          filled s r v g
            (fresh_state (begin_link p lport s v.app) (begin_kind v.app) g p addr lport rport r))
unfolding init_state update_at
init_state_runs p addr lport rport s r v g h found =
    rw (h, found, slot_at_guid (cleared s r v) g r ∙ cleared-slot s r v h)

filled-IsValid :
    (s : Server) (r : Ref) (v : Slot) (g : ℕ) (a : XtcpdState)
    → IsValid s
    → slot_at s r ≡ some v
    → a.id ≡ g
    → (1 ≤ g) × (g ≤ max_guid)
    → ((r' : Ref) → r' ≢ r → id_at s r' ≢ some g)
    → IsValid (filled s r v g a)
filled-IsValid s r v g a valid h ia range fresh = record {
  unique = filled-IsUnique s r v g a valid.unique h ia fresh;
  guid_pos = omega (arith, (length-filled s r v g a).2, range.0);
  guid_le = omega (arith, (length-filled s r v g a).2, range.1);
  small = omega (arith, (length-filled s r v g a).0, (length-filled s r v g a).1, valid.small);
}

script-filled :
    (s : Server) (r : Ref) (v : Slot) (g : ℕ) (a : XtcpdState)
    → (filled s r v g a).script ≡ s.script
script-filled s (tcp i) v g a = refl
script-filled s (udp i) v g a = refl

began :
    (p : Protocol) (addr : IpAddr) (lport rport : ℕ) (s : Server) (r : Ref) (v : Slot)
    → IsValid s
    → slot_at s r ≡ some v
    → (g : ℕ)
    → find_guid max_guid (λ k. is_some (lookup_state (cleared s r v) k)) (cleared s r v).guid
      ≡ some g
    → ((r' : Ref) → r' ≢ r → id_at s r' ≢ some g)
    → (1 ≤ g) × (g ≤ max_guid)
    → (g : ℕ) × (t : Server) × (init_state p addr lport rport s r ≡ some t)
      × Began p addr lport rport s r v g t
began p addr lport rport s r v valid h g found fresh range =
    let a = fresh_state (begin_link p lport s v.app) (begin_kind v.app) g p addr lport rport r in
    (
      g,
      filled s r v g a,
      init_state_runs p addr lport rport s r v g h found,
      record {
        low = range.0;
        high = range.1;
        unused = fresh;
        slot = filled-slot s r v g a h;
        others = λ r' ne. filled-others s r r' v g a h ne;
        valid = filled-IsValid s r v g a valid h refl range fresh;
        same_script = script-filled s r v g a;
      },
    )

guid_range :
    (s : Server) (r : Ref) (v : Slot)
    → IsValid s
    → (1 ≤ (cleared s r v).guid) × ((cleared s r v).guid ≤ max_guid)
guid_range s r v valid = rw (guid-cleared s r v) (valid.guid_pos, valid.guid_le)

-- In a valid server `xtcpd_init_state` on an existing slot always finishes. The connection gets an
-- id from 1 to MAX_GUID that no other slot has; the requests of its clients are cleared, its link is
-- that of the client that asked for it or of the listener for the port; no other slot changes; and
-- the server is valid again.
pub init_state-Began :
    (p : Protocol) (addr : IpAddr) (lport rport : ℕ) (s : Server) (r : Ref) (v : Slot)
    → IsValid s
    → slot_at s r ≡ some v
    → (g : ℕ) × (t : Server) × (init_state p addr lport rport s r ≡ some t)
      × Began p addr lport rport s r v g t
init_state-Began p addr lport rport s r v valid h =
    let (g, found, free, low, high) =
      find_guid_total (cleared s r v) (cleared s r v).guid (guid_range s r v valid)
        (small-cleared s r v valid) in
    began p addr lport rport s r v valid h g found (λ r' ne. cleared_fresh s r r' v g h free ne)
      (low, high)
