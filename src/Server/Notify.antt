-- ===== src/Server/Notify.antt =====
-- Whom `uip_xtcp_checkstate` tells of the interface's state.
use sc_xtcp.Base.{
  Bool, Bool-cases, List, Option, [], ap, arith, false, get_or, if◌then◌else◌, inl, inr, length,
  none, refl, some, suc, true, zero, ℕ, ◌&&◌, ◌+◌, ◌<◌, ◌==◌, ◌∙◌, ◌∷◌, ◌≡◌,
}
use mathlib.Core.Path.{subst}
use sc_xtcp.Server.{Event, Out, Server, emit, ifdown, ifup, queue_event}
use sc_xtcp.Server.IfState.{check_links, checkstate, config_event, emit_all, same_state}

-- whether an event tells that the interface is up, or down
abbrev pub says : Bool → Event → Bool
says true ifup = true
says false ifdown = true
says _ _ = false

-- what waits for a client, of the events that tell one state
abbrev pub is_for : Bool → ℕ → Out → ℕ
is_for q i (queue_event j e) = if i == j && says q e then 1 else 0
is_for q i _ = 0

abbrev pub told : Bool → ℕ → List Out → ℕ
told q i [] = 0
told q i (o ∷ os) = is_for q i o + told q i os

-- A client is told the interface's state where the state that it was last told differs, and never
-- the other state.
abbrev pub due : Bool → Bool → Option Bool → ℕ
due true true (some true) = 0
due true true _ = 1
due false false (some false) = 0
due false false _ = 1
due true false _ = 0
due false true _ = 0

due_same : (q b : Bool) (p : Option Bool) → same_state p b ≡ true → due q b p ≡ 0
due_same true true none h = absurd cc
due_same true true (some true) h = refl
due_same true true (some false) h = absurd cc
due_same false false none h = absurd cc
due_same false false (some false) h = refl
due_same false false (some true) h = absurd cc
due_same true false p h = refl
due_same false true p h = refl

due_other :
    (q b : Bool) (p : Option Bool)
    → same_state p b ≡ false
    → due q b p ≡ (if says q (config_event b) then 1 else 0)
due_other true true none h = refl
due_other true true (some true) h = absurd cc
due_other true true (some false) h = refl
due_other false false none h = refl
due_other false false (some false) h = absurd cc
due_other false false (some true) h = refl
due_other true false p h = refl
due_other false true p h = refl

same_state-some : (b : Bool) → same_state (some b) b ≡ true
same_state-some true = refl
same_state-some false = refl

told-before :
    (q b : Bool) (k i n : ℕ) (ps : List (Option Bool))
    → k < i
    → told q k (check_links b i n ps).1 ≡ 0
unfolding check_links
told-before q b k i zero ps h = refl
told-before q b k i (suc n) [] h = refl
told-before q b k i (suc n) (p ∷ ps) h =
    let rest = told-before q b k (i + 1) n ps (omega arith) in
    elim (Bool-cases (same_state p b)) [ inl e ↦ rw e rest | inr e ↦ rw e (ground (arith, rest)) ]

here : (b : Bool) (i : ℕ) → (if i + 0 == i && b then 1 else 0) + 0 ≡ (if b then 1 else 0)
here true i = ground arith
here false i = ground arith

told-at :
    (q b : Bool) (j i n : ℕ) (ps : List (Option Bool))
    → j < n
    → j < length ps
    → told q (i + j) (check_links b i n ps).1 ≡ due q b (get_or ps j none)
unfolding check_links
told-at q b j i zero ps h l = absurd (omega (arith, h))
told-at q b j i (suc n) [] h l = absurd (omega (arith, l))
told-at q b zero i (suc n) (p ∷ ps) h l =
    let rest : told q (i + 0) (check_links b (i + 1) n ps).1 ≡ 0 =
      told-before q b (i + 0) (i + 1) n ps (omega arith) in
    elim (Bool-cases (same_state p b)) [
      | inl e ↦ rw (e, due_same q b p e) rest
      | inr e ↦ rw (e, due_other q b p e, rest) (here (says q (config_event b)) i)
    ]
told-at q b (suc j) i (suc n) (p ∷ ps) h l =
    let e : i + suc j ≡ i + 1 + j = omega arith in
    let rest = told-at q b j (i + 1) n ps (omega (arith, h)) (omega (arith, l)) in
    rw e (elim (Bool-cases (same_state p b)) [
      | inl f ↦ rw f rest
      | inr f ↦ rw f (ground (arith, rest))
    ])

same_state-path : (p : Option Bool) (b : Bool) → same_state p b ≡ true → p ≡ some b
same_state-path none b h = absurd cc
same_state-path (some true) true h = refl
same_state-path (some true) false h = absurd cc
same_state-path (some false) true h = absurd cc
same_state-path (some false) false h = refl

-- Every link is then known to have been told the interface's state.
check_links-known :
    (b : Bool) (j i n : ℕ) (ps : List (Option Bool))
    → j < n
    → j < length ps
    → get_or (check_links b i n ps).0 j none ≡ some b
unfolding check_links
check_links-known b j i zero ps h l = absurd (omega (arith, h))
check_links-known b j i (suc n) [] h l = absurd (omega (arith, l))
check_links-known b zero i (suc n) (p ∷ ps) h l = elim (Bool-cases (same_state p b)) [
  | inl e ↦ rw e (same_state-path p b e)
  | inr e ↦ rw e refl
]
check_links-known b (suc j) i (suc n) (p ∷ ps) h l =
    let rest = check_links-known b j (i + 1) n ps (omega (arith, h)) (omega (arith, l)) in
    elim (Bool-cases (same_state p b)) [ inl e ↦ rw e rest | inr e ↦ rw e rest ]

told-emit_all :
    (q : Bool) (j : ℕ) (os : List Out) (s : Server)
    → told q j (emit_all os s).trace ≡ told q j os + told q j s.trace
told-emit_all q j [] s = omega arith
told-emit_all q j (o ∷ os) s = omega (arith, told-emit_all q j os (emit o s))

-- A second check of the links that the first one wrote finds nothing.
check_links-again :
    (b : Bool) (i n : ℕ) (ps : List (Option Bool))
    → check_links b i n (check_links b i n ps).0 ≡ ((check_links b i n ps).0, [])
unfolding check_links
check_links-again b i zero ps = refl
check_links-again b i (suc n) [] = refl
check_links-again b i (suc n) (p ∷ ps) =
    let rest = check_links-again b (i + 1) n ps in
    elim (Bool-cases (same_state p b)) [
      | inl e ↦ rw (e, e, rest) refl
      | inr e ↦ rw (e, same_state-some b, rest) refl
    ]

emit_all-fields :
    (os : List Out) (s : Server)
    → ((emit_all os s).ifstate ≡ s.ifstate)
      × ((emit_all os s).xtcp_num ≡ s.xtcp_num)
      × ((emit_all os s).prev_ifstate ≡ s.prev_ifstate)
emit_all-fields [] s = (refl, refl, refl)
emit_all-fields (o ∷ os) s = emit_all-fields os (emit o s)

-- A second `uip_xtcp_checkstate` without a change of the interface between them does nothing.
checkstate_idempotent : (s : Server) → checkstate (checkstate s) ≡ checkstate s
unfolding checkstate
checkstate_idempotent s =
    again
      (emit_all (check_links s.ifstate 0 s.xtcp_num s.prev_ifstate).1
        (record s { prev_ifstate = (check_links s.ifstate 0 s.xtcp_num s.prev_ifstate).0 }))
      (emit_all-fields (check_links s.ifstate 0 s.xtcp_num s.prev_ifstate).1
        (record s { prev_ifstate = (check_links s.ifstate 0 s.xtcp_num s.prev_ifstate).0 }))
      (check_links-again s.ifstate 0 s.xtcp_num s.prev_ifstate)
  where
    again :
        {b : Bool} {n : ℕ} {ps : List (Option Bool)} (t : Server)
        → ((t.ifstate ≡ b) × (t.xtcp_num ≡ n) × (t.prev_ifstate ≡ ps))
        → check_links b 0 n ps ≡ (ps, [])
        → checkstate t ≡ t
    again t (e, f, g) h =
        let k : check_links t.ifstate 0 t.xtcp_num t.prev_ifstate ≡ (t.prev_ifstate, []) =
          rw (e, f, g) h in
        rw k refl

-- `uip_xtcp_checkstate` queues one XTCP_IFUP, or where the interface is down one XTCP_IFDOWN, for each
-- connected client whose last known state differs from that of the interface, none for a client whose
-- state is the same, and never the other event. It notes the state as known to each connected client,
-- so that a second check without a change of the interface between them does nothing.
pub checkstate-told :
    (q : Bool) (s : Server) (j : ℕ)
    → j < s.xtcp_num
    → j < length s.prev_ifstate
    → (told q j (checkstate s).trace
        ≡ due q s.ifstate (get_or s.prev_ifstate j none) + told q j s.trace)
      × (get_or (checkstate s).prev_ifstate j none ≡ some s.ifstate)
      × (checkstate (checkstate s) ≡ checkstate s)
unfolding checkstate
checkstate-told q s j h l =
    let out = (check_links s.ifstate 0 s.xtcp_num s.prev_ifstate).1 in
    let next = record s { prev_ifstate = (check_links s.ifstate 0 s.xtcp_num s.prev_ifstate).0 } in
    let shift : 0 + j ≡ j = omega arith in
    let at : told q j out ≡ due q s.ifstate (get_or s.prev_ifstate j none) =
      subst (λ k. told q k out ≡ due q s.ifstate (get_or s.prev_ifstate j none)) shift
        (told-at q s.ifstate j 0 s.xtcp_num s.prev_ifstate h l) in
    (
      told-emit_all q j out next ∙ ap (λ k. k + told q j s.trace) at,
      ap (λ ps. get_or ps j none) (emit_all-fields out next).2
          ∙ check_links-known s.ifstate j 0 s.xtcp_num s.prev_ifstate h l,
      checkstate_idempotent s,
    )
