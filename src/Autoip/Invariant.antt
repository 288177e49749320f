-- ===== src/Autoip/Invariant.antt =====
-- What holds of the link-local machine after any calls.
use sc_xtcp.Base.{
  Bool, Bool-cases, List, [], arith, false, inl, inr, refl, true, ℕ, ◌&&◌, ◌+◌, ◌<◌, ◌==◌, ◌∷◌, ◌≡◌,
  ◌≤◌,
}
use sc_xtcp.Base.Net.{IpAddr, ip_eq}
use sc_xtcp.Autoip.{
  Autoip, Call, MachineState, announce, announcing, arp_in, autoip_arp_in, autoip_init,
  autoip_start, autoip_stop, call, choose, configured, disabled, give_up, is_claiming, is_disabled,
  no_address, periodic, periodic_in, probing, random_timer_set, run, send_announce, send_probe,
  start, stop, wait_for_announce, wait_for_probe,
}

-- an address of 169.254/16
abbrev pub IsLinkLocal : IpAddr → Type 0
IsLinkLocal a = (a.b0 ≡ 169) × (a.b1 ≡ 254) × (a.b2 < 256) × (a.b3 < 256)

-- How far the machine is in each state.
abbrev pub IsAt : MachineState → Autoip → Type 0
IsAt disabled s = s.limit_rate ≡ false
IsAt no_address s = (s.probes_sent ≡ 0) × (s.announces_sent ≡ 0) × (s.num_conflicts ≡ 0)
IsAt wait_for_probe s = (s.probes_sent ≡ 0) × (s.announces_sent ≡ 0) × IsLinkLocal s.ipaddr
IsAt probing s =
    (0 < s.probes_sent) × (s.probes_sent ≤ 3) × (s.announces_sent ≡ 0) × IsLinkLocal s.ipaddr
IsAt wait_for_announce s = (s.probes_sent ≡ 3) × (s.announces_sent ≡ 0) × IsLinkLocal s.ipaddr
IsAt announcing s =
    (s.probes_sent ≡ 3) × (s.announces_sent ≡ 1) × (s.num_conflicts ≡ 0) × IsLinkLocal s.ipaddr
IsAt configured s =
    (s.probes_sent ≡ 3) × (s.announces_sent ≡ 2) × (s.num_conflicts ≡ 0) × IsLinkLocal s.ipaddr

pub record IsValid (s : Autoip) : Type 0 where
  pub at : IsAt s.state s
  pub unlimited : s.limit_rate ≡ false

-- The delay is never longer than its least value.
random_timer_set_least : (a b : ℕ) (s : Autoip) → (random_timer_set a b s).timer ≡ a
unfolding random_timer_set
random_timer_set_least a b s = omega arith

init-IsValid : (seed : ℕ) (s : Autoip) → IsValid (autoip_init seed s)
unfolding autoip_init
init-IsValid seed s = record { at = refl; unlimited = refl }

periodic_in-IsValid :
    (m : MachineState) (mac : List ℕ) (expired : Bool) (s : Autoip)
    → s.state ≡ m
    → IsAt m s
    → s.limit_rate ≡ false
    → IsValid (periodic_in m mac expired s).0
unfolding periodic_in choose random_timer_set send_probe give_up announce send_announce
periodic_in-IsValid disabled mac expired s e h l = record { at = rw e l; unlimited = l }
periodic_in-IsValid no_address mac expired s e h l =
    rw l (record { at = (h.0, h.1, (refl, refl, ground arith, ground arith)); unlimited = refl })
periodic_in-IsValid wait_for_probe mac false s e h l = record { at = rw e h; unlimited = l }
periodic_in-IsValid wait_for_probe mac true s e h l = record {
  at = (ground arith, ground arith, h.1, h.2);
  unlimited = l;
}
periodic_in-IsValid probing mac false s e h l = record { at = rw e h; unlimited = l }
periodic_in-IsValid probing mac true s e h l = elim (Bool-cases (s.probes_sent == 3)) [
  | inl f ↦ rw f (record { at = (ground arith, h.2, h.3); unlimited = l })
  | inr f ↦ rw f (record { at = rw e (ground arith, ground arith, h.2, h.3); unlimited = l })
]
periodic_in-IsValid wait_for_announce mac false s e h l = record { at = rw e h; unlimited = l }
periodic_in-IsValid wait_for_announce mac true s e h l = elim (Bool-cases (s.num_conflicts == 0)) [
  | inl f ↦ rw f (record { at = (h.0, ground arith, ground arith, h.2); unlimited = l })
  | inr f ↦ rw f (record { at = (refl, refl, refl); unlimited = rw l (ground arith) })
]
periodic_in-IsValid announcing mac expired s e h l =
    let f : (s.announces_sent + 1 == 2) ≡ true = ground arith in
    rw f (record { at = (h.0, ground arith, h.2, h.3); unlimited = l })
periodic_in-IsValid configured mac expired s e h l = record { at = rw e h; unlimited = l }

arp_in-IsValid : (a : IpAddr) (s : Autoip) → IsValid s → IsValid (autoip_arp_in a s)
unfolding autoip_arp_in
arp_in-IsValid a s v = elim (Bool-cases (is_claiming s.state && ip_eq a s.ipaddr)) [
  | inl e ↦ rw e (record { at = still s.state refl (ground arith) v.at; unlimited = v.unlimited })
  | inr e ↦ rw e v
]
  where
    still :
        (m : MachineState)
        → s.state ≡ m
        → is_claiming m ≡ true
        → IsAt m s
        → IsAt m (record s { num_conflicts = s.num_conflicts + 1 })
    still disabled e c h = cc
    still no_address e c h = cc
    still wait_for_probe e c h = h
    still probing e c h = h
    still wait_for_announce e c h = h
    still announcing e c h = cc
    still configured e c h = cc

start-IsValid : (s : Autoip) → IsValid s → IsValid (autoip_start s)
unfolding autoip_start autoip_init
start-IsValid s v = elim (Bool-cases (is_disabled s.state)) [
  | inl e ↦ rw e (record { at = (refl, refl, refl); unlimited = refl })
  | inr e ↦ rw e v
]

pub call-IsValid : (mac : List ℕ) (c : Call) (s : Autoip) → IsValid s → IsValid (call mac c s).0
unfolding autoip_stop
call-IsValid mac (periodic expired) s v =
    periodic_in-IsValid s.state mac expired s refl v.at v.unlimited
call-IsValid mac (arp_in a) s v = arp_in-IsValid a s v
call-IsValid mac start s v = start-IsValid s v
call-IsValid mac stop s v = record { at = v.unlimited; unlimited = v.unlimited }

run-IsValid : (mac : List ℕ) (cs : List Call) (s : Autoip) → IsValid s → IsValid (run mac cs s).0
run-IsValid mac [] s v = v
run-IsValid mac (c ∷ cs) s v = run-IsValid mac cs (call mac c s).0 (call-IsValid mac c s v)

-- After `autoip_init` and any sequence of calls the rate limit is not set, and unless the machine
-- is disabled its counters agree with its state: at most three probes and two announcements were
-- counted, an address that is announced or configured had no conflict, and from the wait for the
-- first probe on the address lies in 169.254/16.
pub run_after_init-IsValid :
    (mac : List ℕ) (seed : ℕ) (cs : List Call) (s : Autoip)
    → IsValid (run mac cs (autoip_init seed s)).0
run_after_init-IsValid mac seed cs s = run-IsValid mac cs _ (init-IsValid seed s)
