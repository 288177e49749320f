-- ===== src/Autoip/Progress.antt =====
-- How many expired timers the link-local machine needs until it has its address.
use sc_xtcp.Base.Net.{ip_eq}
use sc_xtcp.Base.{
  Bool, Bool-cases, List, [], arith, false, if◌then◌else◌, inl, inr, not, refl, suc, true, ℕ, ◌&&◌,
  ◌+◌, ◌-◌, ◌<◌, ◌==◌, ◌||◌, ◌∷◌, ◌≡◌, ◌≤◌,
}
use mathlib.Core.Path.{subst}
use sc_xtcp.Autoip.{
  Autoip, Call, MachineState, announce, announcing, arp_in, autoip_arp_in, autoip_start, call,
  choose, configured, disabled, give_up, is_claiming, is_disabled, no_address, periodic,
  periodic_in, probing, random_timer_set, run, send_announce, send_probe, start, stop,
  wait_for_announce, wait_for_probe,
}
use sc_xtcp.Autoip.Invariant.{IsAt, IsLinkLocal, IsValid, call-IsValid}

-- the timers that have yet to expire
abbrev pub remaining_in : MachineState → ℕ → ℕ
remaining_in disabled probes = 0
remaining_in no_address probes = 7
remaining_in wait_for_probe probes = 6
remaining_in probing probes = 6 - probes
remaining_in wait_for_announce probes = 2
remaining_in announcing probes = 1
remaining_in configured probes = 0

abbrev pub remaining : Autoip → ℕ
remaining s = remaining_in s.state s.probes_sent

-- Nobody stops the machine, and no packet comes from the very address that it has at the time.
abbrev pub IsUndisturbed : Autoip → Call → Type 0
IsUndisturbed s (periodic expired) = 0 ≤ 0
IsUndisturbed s (arp_in a) = ip_eq a s.ipaddr ≡ false
IsUndisturbed s start = 0 ≤ 0
IsUndisturbed s stop = 0 < 0

-- Each call of a run is undisturbed where it comes.
abbrev pub AreUndisturbed : List ℕ → List Call → Autoip → Type 0
AreUndisturbed mac [] s = 0 ≤ 0
AreUndisturbed mac (c ∷ cs) s = IsUndisturbed s c × AreUndisturbed mac cs (call mac c s).0

-- the calls that find the timer expired
abbrev pub expiries : List Call → ℕ
expiries [] = 0
expiries (periodic true ∷ cs) = suc (expiries cs)
expiries (_ ∷ cs) = expiries cs

-- A machine that was started and has heard of no conflict.
pub record IsClaiming (s : Autoip) : Type 0 where
  pub valid : IsValid s
  pub is_started : is_disabled s.state ≡ false
  pub no_conflict : s.num_conflicts ≡ 0

-- A call takes timers off, and the machine stays started and free of conflicts.
Moved : ℕ → Autoip → Autoip → Type 0
Moved n s t =
    (is_disabled t.state ≡ false) × (t.num_conflicts ≡ 0) × (remaining t ≤ remaining s - n)

unmoved : (s : Autoip) → IsClaiming s → Moved 0 s s
unfolding Moved
unmoved s c = (c.is_started, c.no_conflict, omega arith)

periodic_in-Moved :
    (m : MachineState) (mac : List ℕ) (expired : Bool) (s : Autoip)
    → s.state ≡ m
    → IsAt m s
    → IsClaiming s
    → Moved (if expired then 1 else 0) s (periodic_in m mac expired s).0
unfolding Moved periodic_in choose random_timer_set send_probe give_up announce send_announce
periodic_in-Moved disabled mac expired s e h c = absurd (ground (arith, c.is_started))
periodic_in-Moved no_address mac expired s e h c =
    let f : (not s.limit_rate || expired) ≡ true = ground (arith, c.valid) in
    rw f (
      refl,
      c.no_conflict,
      rw e (elim (Bool-cases expired) [ inl x ↦ rw x (omega arith) | inr x ↦ rw x (omega arith) ]),
    )
periodic_in-Moved wait_for_probe mac false s e h c = unmoved s c
periodic_in-Moved wait_for_probe mac true s e h c = (refl, c.no_conflict, rw e (omega arith))
periodic_in-Moved probing mac false s e h c = unmoved s c
periodic_in-Moved probing mac true s e h c = elim (Bool-cases (s.probes_sent == 3)) [
  | inl f ↦ rw f (refl, c.no_conflict, rw e (ground arith))
  | inr f ↦ rw f (rw e refl, c.no_conflict, rw e (omega arith))
]
periodic_in-Moved wait_for_announce mac false s e h c = unmoved s c
periodic_in-Moved wait_for_announce mac true s e h c =
    let f : (s.num_conflicts == 0) ≡ true = ground (arith, c.no_conflict) in
    rw f (refl, c.no_conflict, rw e (omega arith))
periodic_in-Moved announcing mac expired s e h c =
    let f : (s.announces_sent + 1 == 2) ≡ true = ground arith in
    rw f (refl, c.no_conflict, omega arith)
periodic_in-Moved configured mac expired s e h c = (rw e refl, c.no_conflict, rw e (omega arith))

and-false : (b c : Bool) → c ≡ false → (b && c) ≡ false
and-false true c e = e
and-false false c e = refl

call-Moved :
    (mac : List ℕ) (c : Call) (s : Autoip)
    → IsClaiming s
    → IsUndisturbed s c
    → Moved (expiries (c ∷ [])) s (call mac c s).0
unfolding Moved autoip_arp_in autoip_start
call-Moved mac (periodic true) s k u = periodic_in-Moved s.state mac true s refl (k.valid.at) k
call-Moved mac (periodic false) s k u = periodic_in-Moved s.state mac false s refl (k.valid.at) k
call-Moved mac (arp_in a) s k u =
    rw (and-false (is_claiming s.state) (ip_eq a s.ipaddr) u) (unmoved s k)
call-Moved mac start s k u = rw (k.is_started) (unmoved s k)
call-Moved mac stop s k u = absurd (omega (arith, u))

expiries-cons : (c : Call) (cs : List Call) → expiries (c ∷ cs) ≡ expiries (c ∷ []) + expiries cs
expiries-cons (periodic true) cs = omega arith
expiries-cons (periodic false) cs = omega arith
expiries-cons (arp_in a) cs = omega arith
expiries-cons start cs = omega arith
expiries-cons stop cs = omega arith

call-IsClaiming :
    (mac : List ℕ) (c : Call) (s : Autoip)
    → IsClaiming s
    → IsUndisturbed s c
    → IsClaiming (call mac c s).0
unfolding Moved
call-IsClaiming mac c s k u =
    let m = call-Moved mac c s k u in
    record { valid = call-IsValid mac c s k.valid; is_started = m.0; no_conflict = m.1 }

-- Each undisturbed call of a started machine without conflict that finds its timer expired takes one
-- off the timers that remain, and no other undisturbed call adds one: after calls with `n` expiries,
-- at most `remaining s - n` remain.
run-remaining :
    (mac : List ℕ) (cs : List Call) (s : Autoip)
    → IsClaiming s
    → AreUndisturbed mac cs s
    → IsClaiming (run mac cs s).0 × (remaining (run mac cs s).0 ≤ remaining s - expiries cs)
unfolding Moved
run-remaining mac [] s k u = (k, omega arith)
run-remaining mac (c ∷ cs) s k (u, us) =
    let m = call-Moved mac c s k u in
    let (claiming, least) =
      run-remaining mac cs (call mac c s).0 (call-IsClaiming mac c s k u) us in
    (claiming, omega (arith, m, expiries-cons c cs, least))

none-remaining :
    (m : MachineState) (s : Autoip)
    → IsAt m s
    → is_disabled m ≡ false
    → remaining_in m s.probes_sent ≤ 0
    → m ≡ configured
none-remaining disabled s h d r = cc
none-remaining no_address s h d r = absurd (omega arith)
none-remaining wait_for_probe s h d r = absurd (omega arith)
none-remaining probing s h d r = absurd (omega arith)
none-remaining wait_for_announce s h d r = absurd (omega arith)
none-remaining announcing s h d r = absurd (omega arith)
none-remaining configured s h d r = refl

remaining_at_most : (m : MachineState) (probes : ℕ) → remaining_in m probes ≤ 7
remaining_at_most disabled p = omega arith
remaining_at_most no_address p = omega arith
remaining_at_most wait_for_probe p = omega arith
remaining_at_most probing p = omega arith
remaining_at_most wait_for_announce p = omega arith
remaining_at_most announcing p = omega arith
remaining_at_most configured p = omega arith

-- A started machine that has counted no conflict is configured, with a link-local address, after any
-- calls that find the timer expired at least seven times, where none of them stops it and no ARP
-- packet among them comes from the address that it has at the time.
pub run_configures :
    (mac : List ℕ) (cs : List Call) (s : Autoip)
    → IsClaiming s
    → AreUndisturbed mac cs s
    → 7 ≤ expiries cs
    → ((run mac cs s).0.state ≡ configured) × IsLinkLocal (run mac cs s).0.ipaddr
run_configures mac cs s k u n =
    let (c, least) = run-remaining mac cs s k u in
    let t = (run mac cs s).0 in
    let e =
      none-remaining t.state t c.valid.at c.is_started
        (omega (arith, least, remaining_at_most s.state s.probes_sent, n)) in
    (e, linked t.state t e c.valid.at)
  where
    linked : (m : MachineState) (t : Autoip) → m ≡ configured → IsAt m t → IsLinkLocal t.ipaddr
    linked m t e h = (subst (λ x. IsAt x t) e h).3
