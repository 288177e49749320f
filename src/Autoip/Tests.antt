-- ===== src/Autoip/Tests.antt =====
-- The link-local machine on concrete runs.
use sc_xtcp.Base.{List, [], arith, false, refl, replicate, true, ℕ, ◌∷◌, ◌≡◌}
use sc_xtcp.Base.Net.{IpAddr, zero_addr}
use Prim.{tt}
use sc_xtcp.Autoip.{
  Autoip, Call, arp_in, autoip_init, choose, configured, no_address, periodic, periodic_in,
  random_timer_set, run, start, wait_for_probe,
}
use sc_xtcp.Autoip.Invariant.{IsLinkLocal, IsValid, run_after_init-IsValid}
use sc_xtcp.Autoip.Progress.{IsClaiming, run_configures}
use sc_xtcp.Autoip.Conflict.{Avoided, IsContended, conflict-Avoided}

abbrev mac : List ℕ
mac = 0 ∷ 34 ∷ 151 ∷ 1 ∷ 2 ∷ 3 ∷ []

abbrev address : IpAddr
address = record { b0 = 169; b1 = 254; b2 = 3; b3 = 4 }

-- a machine that was just started
abbrev started : Autoip
started = record {
  state = no_address;
  probes_sent = 0;
  announces_sent = 0;
  num_conflicts = 0;
  limit_rate = false;
  rand = 5;
  seed = 5;
  timer = 0;
  ipaddr = zero_addr;
}

started-IsValid : IsValid started
started-IsValid = record { at = (refl, refl, refl); unlimited = refl }

started-IsClaiming : IsClaiming started
started-IsClaiming = record { valid = started-IsValid; is_started = refl; no_conflict = refl }

-- a machine that waits for its first probe and has heard of another host with its address
abbrev doubted : Autoip
doubted = record started { state = wait_for_probe; num_conflicts = 1; ipaddr = address }

doubted-IsContended : IsContended doubted
doubted-IsContended = record {
  valid = record { at = (refl, refl, (refl, refl, omega arith, omega arith)); unlimited = refl };
  claims = refl;
  conflict = omega arith;
}

abbrev later : List Call
later = start ∷ periodic true ∷ arp_in address ∷ periodic true ∷ []

run_after_init-IsValid_example : IsValid (run mac later (autoip_init 77 doubted)).0
run_after_init-IsValid_example = run_after_init-IsValid mac 77 later doubted

-- seven expired timers, a call before a timer has expired, and a packet of another link-local host
abbrev quiet : List Call
quiet = periodic false ∷ arp_in address ∷ replicate 7 (periodic true)

run_configures_example :
    ((run mac quiet started).0.state ≡ configured) × IsLinkLocal (run mac quiet started).0.ipaddr
unfolding sc_xtcp.Autoip.periodic_in sc_xtcp.Autoip.choose sc_xtcp.Autoip.random_timer_set
run_configures_example =
    run_configures mac quiet started started-IsClaiming
      (
        omega arith,
        (
          refl,
          (
            omega arith,
            (
              omega arith,
              (
                omega arith,
                (omega arith, (omega arith, (omega arith, (omega arith, omega arith)))),
              ),
            ),
          ),
        ),
      )
      (omega arith)

conflict-Avoided_example : Avoided mac later doubted
conflict-Avoided_example =
    conflict-Avoided mac later doubted doubted-IsContended (refl, (refl, (refl, (refl, tt))))
