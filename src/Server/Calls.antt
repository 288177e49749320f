-- ===== src/Server/Calls.antt =====
-- How a call of the stack is shown to leave a valid server, and to finish where the clients' commands
-- are calm: a condition on servers, its rules, and the steps that all calls share.
use sc_xtcp.Base.Net.{IpAddr}
use mathlib.Core.Path.{subst}
use sc_xtcp.Base.{
  All, Bool, Bool-cases, Option, Option-cases, arith, false, if◌then◌else◌, inl, inr, ltb, none,
  refl, some, sym, true, ℕ, ◌==◌, ◌>>=◌, ◌≡◌, ◌⊎◌,
}
use sc_xtcp.Server.{Event, Protocol, Ref, Server, Slot, XtcpdState, no_link}
use sc_xtcp.Server.Request.{Uip, service}
use sc_xtcp.Server.Events.{
  do_xtcpd_send, init_state, send_bytes, send_event, xtcpd_event, xtcpd_send,
}
use sc_xtcp.Server.Commands.{IsLawful, service-KeepsIf}
use sc_xtcp.Server.Guid.{is_some}
use sc_xtcp.Server.Invariant.{
  AreCalm, IsCalm, IsValid, Keeps, Keeps-IsValid, KeepsIf, tables-Keeps, update_at-KeepsIf,
}
use sc_xtcp.Server.Refs.{id_at}
use sc_xtcp.Server.Table.{slot_at, update_at, with_app}
use sc_xtcp.Server.Total.{Runs, service-Runs, update_at-Runs}
use sc_xtcp.Server.Begin.{init_state-Began}

-- A server in a call for the connection at `r`. Where `calm`, the clients' commands cannot fault.
pub record Good (calm : Bool) (r : Ref) (s : Server) : Type 0 where
  pub valid : IsValid s
  pub present : is_some (slot_at s r) ≡ true
  pub quiet : calm ≡ true → IsCalm s

-- A step ends in a good server, or it faults where the commands are not calm.
abbrev pub Ensures : Bool → Ref → Option Server → Type 0
Ensures calm r none = calm ≡ false
Ensures calm r (some t) = Good calm r t

present_of_Keeps :
    (s t : Server) (r : Ref)
    → id_at t r ≡ id_at s r
    → is_some (slot_at s r) ≡ true
    → is_some (slot_at t r) ≡ true
present_of_Keeps s t r e h = elim (Option-cases (slot_at t r)) [
  | inl n ↦ absurd (ground arith)
  | inr (v, k) ↦ rw k
]

Good-Keeps : (calm : Bool) (r : Ref) (s t : Server) → Good calm r s → Keeps s t → Good calm r t
Good-Keeps calm r s t g k = record {
  valid = Keeps-IsValid k g.valid;
  present = present_of_Keeps s t r (k.same_ids r) g.present;
  quiet = λ h. k.calm (g.quiet h);
}

-- A step that keeps the ids, and finishes where the commands are calm.
pub keep :
    (calm : Bool) (r : Ref) (s : Server) (o : Option Server)
    → Good calm r s
    → KeepsIf s o
    → (calm ≡ true → Runs o)
    → Ensures calm r o
keep true r s none g k h = cc (h refl)
keep false r s none g k h = refl
keep calm r s (some t) g k h = Good-Keeps calm r s t g k

pub chain :
    (calm : Bool) (r : Ref) (m : Option Server) (f : Server → Option Server)
    → Ensures calm r m
    → ((t : Server) → Good calm r t → Ensures calm r (f t))
    → Ensures calm r (m >>= f)
chain calm r none f h k = h
chain calm r (some t) f h k = k t h

-- The slot is there.
pub with_slot :
    (calm : Bool) (r : Ref) (s : Server) (f : Slot → Option Server)
    → Good calm r s
    → ((v : Slot) → slot_at s r ≡ some v → Ensures calm r (f v))
    → Ensures calm r (slot_at s r >>= f)
with_slot calm r s f g k = found (slot_at s r) g.present k
  where
    found :
        (o : Option Slot)
        → is_some o ≡ true
        → ((v : Slot) → o ≡ some v → Ensures calm r (f v))
        → Ensures calm r (o >>= f)
    found none h k = cc
    found (some v) h k = k v refl

pub either :
    (calm : Bool) (r : Ref) (b : Bool) (m n : Option Server)
    → Ensures calm r m
    → Ensures calm r n
    → Ensures calm r (if b then m else n)
either calm r true m n h k = h
either calm r false m n h k = k

pub change :
    (calm : Bool) (r : Ref) (s : Server) (f : Slot → Slot)
    → Good calm r s
    → ((v : Slot) → (f v).app.id ≡ v.app.id)
    → Ensures calm r (update_at f s r)
change calm r s f g h =
    keep calm r s (update_at f s r) g (update_at-KeepsIf f s r h)
      (λ _. update_at-Runs f s r g.present)

-- A step that leaves the tables and the commands alone.
pub aside :
    (calm : Bool) (r : Ref) (s t : Server)
    → Good calm r s
    → t.tcps ≡ s.tcps
    → t.udps ≡ s.udps
    → t.guid ≡ s.guid
    → (IsCalm s → IsCalm t)
    → Good calm r t
aside calm r s t g h k e c = Good-Keeps calm r s t g (tables-Keeps s t h k e c)

module _ (lib : Uip) (l : IsLawful lib) (calm : Bool) (r : Ref) where
  pub wait : (s : Server) → Good calm r s → Ensures calm r (service lib s)
  wait s g =
      keep calm r s (service lib s) g (service-KeepsIf lib s l)
        (λ h. service-Runs lib s l (g.quiet h))

  event : (e : Event) (s : Server) → Good calm r s → Ensures calm r (send_event e s r)
  unfolding send_event
  event e s g = with_slot calm r s _ g λ v _.
      chain calm r (update_at (with_app (λ a. record a { event = e })) s r) _
        (change calm r s _ g (λ v. refl)) λ t k. aside calm r t _ k refl refl refl (λ c. c)

  pub tell : (e : Event) (s : Server) → Good calm r s → Ensures calm r (xtcpd_event lib e s r)
  unfolding xtcpd_event
  tell e s g = with_slot calm r s _ g λ v _.
      either calm r (v.app.linknum == no_link) _ _ g
        (chain calm r (service lib s) _ (wait s g) λ t k. event e t k)

  pub begin_at :
      (p : Protocol) (addr : IpAddr) (lport rport : ℕ) (s : Server)
      → Good calm r s
      → Ensures calm r (init_state p addr lport rport s r)
  begin_at p addr lport rport s g = started (Option-cases (slot_at s r))
    where
      started :
          (slot_at s r ≡ none) ⊎ ((v : Slot) × (slot_at s r ≡ some v))
          → Ensures calm r (init_state p addr lport rport s r)
      started (inl e) = absurd (ground (arith, g.present))
      started (inr (v, e)) =
          let (i, t, runs, b) = init_state-Began p addr lport rport s r v g.valid e in
          rw runs (record {
            valid = b.valid;
            present = rw (b.slot);
            quiet = λ h. subst (All AreCalm) (sym b.same_script) (g.quiet h);
          })

  -- A step that also returns a number.
  abbrev pub EnsuresPair : Option (Server × ℕ) → Type 0
  EnsuresPair none = calm ≡ false
  EnsuresPair (some (t, n)) = Good calm r t

  pub chain_pair :
      (m : Option Server) (f : Server → Option (Server × ℕ))
      → Ensures calm r m
      → ((t : Server) → Good calm r t → EnsuresPair (f t))
      → EnsuresPair (m >>= f)
  chain_pair none f h k = h
  chain_pair (some t) f h k = k t h

  pub with_slot_pair :
      (s : Server) (f : Slot → Option (Server × ℕ))
      → Good calm r s
      → ((v : Slot) → EnsuresPair (f v))
      → EnsuresPair (slot_at s r >>= f)
  with_slot_pair s f g k = found (slot_at s r) g.present
    where
      found : (o : Option Slot) → is_some o ≡ true → EnsuresPair (o >>= f)
      found none h = cc
      found (some v) h = k v

  pub ask :
      (e : Event) (room : ℕ) (s : Server) → Good calm r s → EnsuresPair (xtcpd_send e room s r)
  unfolding xtcpd_send
  ask e room s g = with_slot_pair s _ g λ v.
      chain_pair (update_at (with_app (λ a. record a { event = e; mss = room })) s r) _
        (change calm r s _ g (λ v. refl)) λ t k. aside calm r t _ k refl refl refl (λ c. c)

  give : (n : ℕ) (s : Server) → Good calm r s → Good calm r (send_bytes n s)
  unfolding send_bytes
  give n s g = elim (Bool-cases (ltb 0 n)) [
    | inl e ↦ rw e (aside calm r s _ g refl refl refl (λ c. c))
    | inr e ↦ rw e g
  ]

  pub sent :
      (m : Option (Server × ℕ))
      → EnsuresPair m
      → Ensures calm r (m >>= λ t. some (send_bytes t.1 t.0))
  sent none h = h
  sent (some (t, n)) h = give n t h

  pub ask_after_wait :
      (e : Event) (room : ℕ) (s : Server)
      → Good calm r s
      → EnsuresPair (do_xtcpd_send lib e room s r)
  unfolding do_xtcpd_send
  ask_after_wait e room s g = chain_pair (service lib s) _ (wait s g) λ t k. ask e room t k

  pub finish :
      (f : XtcpdState → XtcpdState) (m : Option Server)
      → ((a : XtcpdState) → (f a).id ≡ a.id)
      → Ensures calm r m
      → Ensures calm r (m >>= λ s'. update_at (with_app f) s' r)
  finish f m h g = chain calm r m _ g λ t k. change calm r t (with_app f) k (λ v. h v.app)
