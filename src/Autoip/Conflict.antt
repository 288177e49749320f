-- ===== src/Autoip/Conflict.antt =====
-- What follows when another host already has the address, and the packets where none has.
use sc_xtcp.Base.{
  All, Bool, Bool-cases, List, Option, [], ap, arith, false, inl, inr, none, refl, replicate, some,
  sym, true, ℕ, ◌&&◌, ◌++◌, ◌<◌, ◌==◌, ◌∙◌, ◌∷◌, ◌≡◌, ◌≤◌, ◌⊎◌,
}
use sc_xtcp.Base.Net.{ip_eq, zero_addr}
use mathlib.Core.Path.{subst}
use sc_xtcp.Autoip.Invariant.{IsAt, IsValid, call-IsValid}
use Prim.{tt}
use sc_xtcp.Autoip.{
  ArpHdr, Autoip, Call, Effects, MachineState, announce, announcing, arp_in, autoip_arp_in,
  autoip_start, call, choose, configured, create_arp_packet, disabled, give_up, is_claiming,
  is_disabled, no_address, nothing, periodic, periodic_in, probing, random_timer_set, run,
  send_announce, send_probe, sends, start, stop, wait_for_announce, wait_for_probe,
}

-- The machine claims an address of which it has heard a conflict.
pub record IsContended (s : Autoip) : Type 0 where
  pub valid : IsValid s
  pub claims : is_claiming s.state ≡ true
  pub conflict : 0 < s.num_conflicts

-- Nothing in the effects takes the address: no call of `autoip_configured`, and no packet whose
-- sender's address is set.
abbrev pub ClaimsNothing : Option ArpHdr → Type 0
ClaimsNothing none = 0 ≤ 0
ClaimsNothing (some p) = p.sipaddr ≡ zero_addr

abbrev pub IsSilent : Effects → Type 0
IsSilent e = (e.told ≡ none) × ClaimsNothing e.packet

abbrev pub not_stop : Call → Bool
not_stop (periodic expired) = true
not_stop (arp_in a) = true
not_stop start = true
not_stop stop = false

Moved : Autoip → Autoip × Effects → Type 0
Moved s (t, e) =
    IsSilent e
    × (((is_claiming t.state ≡ true) × (0 < t.num_conflicts) × (t.ipaddr ≡ s.ipaddr))
        ⊎ (t.state ≡ no_address))

contended : (s : Autoip) → IsContended s → Moved s (s, nothing)
unfolding Moved
contended s k = ((refl, omega arith), inl (k.claims, k.conflict, refl))

periodic_in-Moved :
    (m : MachineState) (mac : List ℕ) (expired : Bool) (s : Autoip)
    → s.state ≡ m
    → IsContended s
    → Moved s (periodic_in m mac expired s)
unfolding Moved periodic_in random_timer_set send_probe give_up
periodic_in-Moved disabled mac expired s e k = absurd (ground (arith, k.claims))
periodic_in-Moved no_address mac expired s e k = absurd (ground (arith, k.claims))
periodic_in-Moved wait_for_probe mac false s e k = contended s k
periodic_in-Moved wait_for_probe mac true s e k = ((refl, refl), inl (refl, k.conflict, refl))
periodic_in-Moved probing mac false s e k = contended s k
periodic_in-Moved probing mac true s e k = elim (Bool-cases (s.probes_sent == 3)) [
  | inl f ↦ rw f ((refl, omega arith), inl (refl, k.conflict, refl))
  | inr f ↦ rw f ((refl, refl), inl (rw e refl, k.conflict, refl))
]
periodic_in-Moved wait_for_announce mac false s e k = contended s k
periodic_in-Moved wait_for_announce mac true s e k =
    let f : (s.num_conflicts == 0) ≡ false = ground (arith, k.conflict) in
    rw f ((refl, omega arith), inr refl)
periodic_in-Moved announcing mac expired s e k = absurd (ground (arith, k.claims))
periodic_in-Moved configured mac expired s e k = absurd (ground (arith, k.claims))

not-disabled : (m : MachineState) → is_claiming m ≡ true → is_disabled m ≡ false
not-disabled disabled h = cc
not-disabled no_address h = refl
not-disabled wait_for_probe h = refl
not-disabled probing h = refl
not-disabled wait_for_announce h = refl
not-disabled announcing h = refl
not-disabled configured h = refl

call-Moved :
    (mac : List ℕ) (c : Call) (s : Autoip)
    → IsContended s
    → not_stop c ≡ true
    → Moved s (call mac c s)
unfolding Moved autoip_arp_in autoip_start
call-Moved mac (periodic expired) s k n = periodic_in-Moved s.state mac expired s refl k
call-Moved mac (arp_in a) s k n = elim (Bool-cases (is_claiming s.state && ip_eq a s.ipaddr)) [
  | inl e ↦ rw e ((refl, omega arith), inl (k.claims, omega arith, refl))
  | inr e ↦ rw e (contended s k)
]
call-Moved mac start s k n = rw (not-disabled s.state k.claims) (contended s k)
call-Moved mac stop s k n = cc

-- Until it is back in NO_ADDRESS, the machine takes no address: the run of the calls, or of a first
-- part of them that ends in NO_ADDRESS.
abbrev pub Avoided : List ℕ → List Call → Autoip → Type 0
Avoided mac cs s =
    (All IsSilent (run mac cs s).1
      × IsContended (run mac cs s).0
      × ((run mac cs s).0.ipaddr ≡ s.ipaddr))
    ⊎ ((ds : List Call) × (bs : List Call) × (cs ≡ ds ++ bs)
        × ((run mac ds s).0.state ≡ no_address)
        × All IsSilent (run mac ds s).1)

-- Where the machine claims an address and has counted a conflict, any calls but `autoip_stop`
-- announce nothing and configure nothing until the machine has gone back to NO_ADDRESS.
pub conflict-Avoided :
    (mac : List ℕ) (cs : List Call) (s : Autoip)
    → IsContended s
    → All (λ c. not_stop c ≡ true) cs
    → Avoided mac cs s
unfolding Moved
conflict-Avoided mac [] s k u = inl (tt, k, refl)
conflict-Avoided mac (c ∷ cs) s k (u, us) =
    moved (call-Moved mac c s k u) (λ j. conflict-Avoided mac cs t j us)
  where
    t : Autoip
    t = (call mac c s).0

    later :
        IsSilent (call mac c s).1 → t.ipaddr ≡ s.ipaddr → Avoided mac cs t → Avoided mac (c ∷ cs) s
    later q e (inl (qs, j, f)) = inl ((q, qs), j, f ∙ e)
    later q e (inr (ds, bs, f, n, qs)) = inr (c ∷ ds, bs, ap (λ x. c ∷ x) f, n, (q, qs))

    moved : Moved s (call mac c s) → (IsContended t → Avoided mac cs t) → Avoided mac (c ∷ cs) s
    moved (q, inl (claims, conflict, e)) r =
        let j : IsContended t = record {
          valid = call-IsValid mac c s k.valid;
          claims = claims;
          conflict = conflict;
        } in
        later q e (r j)
    moved (q, inr n) r = inr (c ∷ [], cs, refl, n, (q, tt))

abbrev pub probe_of : List ℕ → Autoip → Effects
probe_of mac s = sends (record (create_arp_packet mac) { dipaddr = s.ipaddr })

abbrev pub announce_of : List ℕ → Autoip → Effects
announce_of mac s =
    sends (record (create_arp_packet mac) { dipaddr = s.ipaddr; sipaddr = s.ipaddr })

abbrev pub Traced : List ℕ → Autoip × List Effects → Type 0
Traced mac (t, es) =
    (t.state ≡ configured)
    × (es
        ≡ nothing
          ∷ probe_of mac t
          ∷ probe_of mac t
          ∷ probe_of mac t
          ∷ nothing
          ∷ announce_of mac t
          ∷ record (announce_of mac t) { told = some t.ipaddr }
          ∷ [])

abbrev idle : Autoip → Autoip
idle s = record s {
  state = no_address;
  probes_sent = 0;
  announces_sent = 0;
  num_conflicts = 0;
  limit_rate = false;
}

idle_is : (s : Autoip) → IsValid s → s.state ≡ no_address → s ≡ idle s
idle_is s v e =
    let h = subst (λ m. IsAt m s) e v.at in
    record_path s.state s.probes_sent s.announces_sent s.num_conflicts s.limit_rate e h.0 h.1 h.2
      v.unlimited
  where
    record_path :
        (m : MachineState) (p a n : ℕ) (l : Bool)
        → m ≡ no_address
        → p ≡ 0
        → a ≡ 0
        → n ≡ 0
        → l ≡ false
        → record s {
          state = m;
          probes_sent = p;
          announces_sent = a;
          num_conflicts = n;
          limit_rate = l;
        }
          ≡ idle s
    record_path m p a n l e0 e1 e2 e3 e4 = cc

-- From NO_ADDRESS, seven expired timers and nothing else send three probes and two announcements for
-- the address that is chosen, in this order, and the last one reports it to `autoip_configured`.
periodic_trace :
    (mac : List ℕ) (s : Autoip)
    → IsValid s
    → s.state ≡ no_address
    → Traced mac (run mac (replicate 7 (periodic true)) s)
unfolding periodic_in choose random_timer_set send_probe announce send_announce
periodic_trace mac s v e =
    subst (λ x. Traced mac (run mac (replicate 7 (periodic true)) x)) (sym (idle_is s v e))
      (refl, refl)
