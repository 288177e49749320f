-- ===== src/Demo/OnPool.antt =====
-- What holds of a pool after an event of a connection.
use sc_xtcp.Base.{
  Bool, Option, arith, false, get_elem?, if◌then◌else◌, none, refl, set, some, sym, true, ℕ, ◌&&◌,
  ◌==◌, ◌>>=◌, ◌∙◌, ◌≡◌,
}
use mathlib.Core.Path.{subst}
use sc_xtcp.Server.{Event}
use sc_xtcp.Demo.Pool.{
  Pool, PoolConn, ProtocolState, demo_port, demo_protocol_handle_event, handled, is_relevant,
  pool_event, update,
}

abbrev pub Handles : PoolConn → ℕ → Pool → Pool → Type 0
Handles c timestamp p q = (ev : Event) × (demo_protocol_handle_event c timestamp p ≡ some (q, ev))

-- What holds of a pool where there is one.
abbrev pub OnPool : (Pool → Type 0) → Option Pool → Type 0
OnPool P none = Unit
OnPool P (some p) = P p

-- the pool of a handler's result
result-OnPool :
    (P : Pool → Type 0) (m : Option Pool) (q : Pool) (ev : Event)
    → OnPool P m
    → handled m ≡ some (q, ev)
    → P q
result-OnPool P none q ev h e = absurd cc
result-OnPool P (some p) q ev h e = let f : p ≡ q = cc in subst P f h

pub handled-OnPool :
    (P : Pool → Type 0) (c : PoolConn) (timestamp : ℕ) (p q : Pool)
    → is_relevant c.event ≡ true
    → c.local_port ≡ demo_port
    → OnPool P (pool_event c c.event timestamp p)
    → Handles c timestamp p q
    → P q
unfolding demo_protocol_handle_event
handled-OnPool P c timestamp p q r l h (ev, e) =
    let port : (c.local_port == demo_port) ≡ true = ground (arith, l) in
    result-OnPool P (pool_event c c.event timestamp p) q ev h
      (sym (picked (is_relevant c.event && c.local_port == demo_port) _ _ (rw (r, port) refl)) ∙ e)
  where
    picked : (b : Bool) (x y : Option (Pool × Event)) → b ≡ true → (if b then x else y) ≡ x
    picked true x y h = refl
    picked false x y h = absurd cc

-- what the events of a connection keep
pub kept-OnPool :
    (P : Pool → Type 0) (c : PoolConn) (timestamp : ℕ) (p q : Pool)
    → OnPool P (pool_event c c.event timestamp p)
    → P p
    → Handles c timestamp p q
    → P q
unfolding demo_protocol_handle_event
kept-OnPool P c timestamp p q h d (ev, e) =
    split (is_relevant c.event && c.local_port == demo_port) e
  where
    split :
        (b : Bool)
        → (if b then handled (pool_event c c.event timestamp p) else some (p, c.event))
          ≡ some (q, ev)
        → P q
    split true f = result-OnPool P (pool_event c c.event timestamp p) q ev h f
    split false f = let g : p ≡ q = cc in subst P g d

pub update-OnPool :
    (P : Pool → Type 0) (i : ℕ) (f : ProtocolState → Option ProtocolState) (p : Pool)
    → ((s t : ProtocolState)
        → get_elem? p.slots i ≡ some s
        → f s ≡ some t
        → P (record p { slots = set p.slots i t }))
    → OnPool P (update i f p)
update-OnPool P i f p h = at_entry (get_elem? p.slots i) (λ s t e g. h s t e g)
  where
    at_change :
        (m : Option ProtocolState)
        → ((t : ProtocolState) → m ≡ some t → P (record p { slots = set p.slots i t }))
        → OnPool P (m >>= λ t. some (record p { slots = set p.slots i t }))
    at_change none k = tt
    at_change (some t) k = k t refl

    at_entry :
        (m : Option ProtocolState)
        → ((s t : ProtocolState)
            → m ≡ some s
            → f s ≡ some t
            → P (record p { slots = set p.slots i t }))
        → OnPool P (m >>= λ s. f s >>= λ t. some (record p { slots = set p.slots i t }))
    at_entry none k = tt
    at_entry (some s) k = at_change (f s) (λ t g. k s t refl g)
