-- ===== src/Mdns/Stage.antt =====
-- How far an entry is on the way to ACTIVE, and what `mdns_send` and `mdns_periodic` do to that.
use sc_xtcp.Base.{
  All, Bool, Bool-cases, List, [], ap, arith, false, if◌then◌else◌, inl, inr, ltb, map, refl, true,
  ℕ, ◌+◌, ◌<◌, ◌^◌, ◌∷◌, ◌≡◌, ◌≤◌, ◌⊎◌,
}
use sc_xtcp.Base.Words.{u32}
use sc_xtcp.Mdns.{
  Entry, active, announce_sent, announce_wait, is_probe_wait, probe_sent, probe_wait, unused,
}
use sc_xtcp.Mdns.Kept.{after_probe, responded, to_partial, waiting}
use sc_xtcp.Mdns.Progress.{probes_done, send_done}
use sc_xtcp.Mdns.Send.{probe_timeout}
use sc_xtcp.Mdns.Table.{periodic_entries, periodic_entry, timeafter}

-- The delay is above the longest wait of an entry, 2.5 seconds, and below half the clock's range.
abbrev pub IsLater : ℕ × ℕ → Type 0
IsLater (t, delay) = (250000000 < delay) × (delay < 2 ^ 31)

timeafter_lem :
    (t delay wait : ℕ)
    → IsLater (t, delay)
    → wait ≤ 250000000
    → timeafter (u32 (t + delay)) (u32 (t + wait)) ≡ true
timeafter_lem t delay wait later h = ground (arith, later, h)

-- How far an entry is.
pub data Stage : Type 0 where
  probing announcing_ : ℕ → Stage
  finished : Stage

abbrev pub AtStage : Stage → Entry → Type 0
AtStage (probing n) e = (e.state ≡ probe_wait) × (e.num_sent ≡ n)
AtStage (announcing_ n) e = (e.state ≡ announce_wait) × (e.num_sent ≡ n)
AtStage finished e = (e.state ≡ active) × (0 ≤ e.num_sent)

abbrev pub next : Stage → Stage
next (probing n) = if ltb (n + 1) 3 then probing (n + 1) else announcing_ 0
next (announcing_ n) = if ltb (n + 1) 3 then announcing_ (n + 1) else finished
next finished = finished

-- the entry when `mdns_periodic` comes to it
abbrev pub AfterSend : ℕ → Stage → Entry → Type 0
AfterSend t (probing n) e =
    (e.state ≡ probe_sent) × (e.num_sent ≡ n + 1) × (e.timeout ≡ probe_timeout t e.counter)
AfterSend t (announcing_ n) e =
    (e.state ≡ announce_sent) × (e.num_sent ≡ n + 1) × (e.timeout ≡ u32 (t + 100000000))
AfterSend t finished e = (e.state ≡ active) × (0 ≤ e.num_sent) × (0 ≤ e.timeout)

abbrev pub IsStage : Stage → Entry → Type 0
IsStage s e = (e.state ≡ unused) ⊎ AtStage s e

abbrev pub IsAfterSend : ℕ → Stage → Entry → Type 0
IsAfterSend t s e = (e.state ≡ unused) ⊎ AfterSend t s e

pub periodic_stage :
    (t delay : ℕ) (s : Stage) (e : Entry)
    → IsLater (t, delay)
    → IsAfterSend t s e
    → IsStage (next s) (periodic_entry (u32 (t + delay)) e).after
unfolding periodic_entry
periodic_stage t delay s e later (inl u) = rw u (inl refl)
periodic_stage t delay (probing n) e later (inr (state, num, timeout)) =
    let k : timeafter (u32 (t + delay)) (probe_timeout t e.counter) ≡ true =
      elim (Bool-cases (ltb e.counter 15)) [
        | inl c ↦ rw c (timeafter_lem t delay 25000000 later (omega arith))
        | inr c ↦ rw c (timeafter_lem t delay 250000000 later (omega arith))
      ] in
    elim (Bool-cases (ltb (n + 1) 3)) [
      | inl c ↦ rw (state, timeout, k, num, c) (inr (refl, refl))
      | inr c ↦ rw (state, timeout, k, num, c) (inr (refl, refl))
    ]
periodic_stage t delay (announcing_ n) e later (inr (state, num, timeout)) =
    let k = timeafter_lem t delay 100000000 later (omega arith) in
    elim (Bool-cases (ltb (n + 1) 3)) [
      | inl c ↦ rw (state, timeout, k, num, c) (inr (refl, refl))
      | inr c ↦ rw (state, timeout, k, num, c) (inr (refl, omega arith))
    ]
periodic_stage t delay finished e later (inr (state, num, timeout)) = rw state (inr (refl, num))

pub All-map :
    (P Q : Entry → Type 0) (f : Entry → Entry) (es : List Entry)
    → ((e : Entry) → P e → Q (f e))
    → All P es
    → All Q (map f es)
All-map P Q f [] step h = h
All-map P Q f (e ∷ es) step h = (step e h.0, All-map P Q f es step h.1)

probe_stage :
    (t n : ℕ) (e : Entry)
    → IsStage (probing n) e
    → IsAfterSend t (probing n) (after_probe t (to_partial e))
probe_stage t n e (inl u) = rw u (inl refl)
probe_stage t n e (inr (state, num)) = rw (state, num) (inr (refl, refl, refl))

probed_stage :
    (t n : ℕ) (e : Entry) → IsAfterSend t (probing n) e → IsAfterSend t (probing n) (responded t e)
probed_stage t n e (inl u) = rw u (inl refl)
probed_stage t n e (inr (state, num, timeout)) = rw (state, num, timeout) (inr (refl, refl, refl))

announce_stage :
    (t n : ℕ) (e : Entry)
    → IsStage (announcing_ n) e
    → IsAfterSend t (announcing_ n) (responded t (after_probe t (to_partial e)))
announce_stage t n e (inl u) = rw u (inl refl)
announce_stage t n e (inr (state, num)) = rw (state, num) (inr (refl, refl, refl))

finished_stage :
    (t : ℕ) (e : Entry)
    → IsStage finished e
    → IsAfterSend t finished (responded t (after_probe t (to_partial e)))
finished_stage t e (inl u) = rw u (inl refl)
finished_stage t e (inr (state, num)) = rw state (inr (refl, num, omega arith))

abbrev is_probing : Stage → Bool
is_probing (probing n) = true
is_probing (announcing_ n) = false
is_probing finished = false

later_wait :
    (s : Stage) (e : Entry) → is_probing s ≡ false → IsStage s e → is_probe_wait e.state ≡ false
later_wait s e other (inl u) = rw u refl
later_wait (probing n) e other (inr h) = cc
later_wait (announcing_ n) e other (inr h) = rw h.0 refl
later_wait finished e other (inr h) = rw h.0 refl

pub no_wait :
    (s : Stage) (es : List Entry) → is_probing s ≡ false → All (IsStage s) es → waiting es ≡ 0
no_wait s [] other h = refl
no_wait s (e ∷ es) other h = rw (later_wait s e other h.0, no_wait s es other h.1) refl

module _ (t : ℕ) (s : Stage) (table : List Entry) (h : All (IsStage s) table) where
  after_probes :
      (Q : Entry → Type 0)
      → ((e : Entry) → IsStage s e → Q (after_probe t (to_partial e)))
      → All Q (probes_done t table)
  after_probes Q step =
      All-map (λ x. Q (after_probe t x)) Q (after_probe t) (map to_partial table) (λ x k. k)
        (All-map (IsStage s) (λ x. Q (after_probe t x)) to_partial table step h)

  after_responses :
      (Q : Entry → Type 0)
      → ((e : Entry) → IsStage s e → Q (responded t (after_probe t (to_partial e))))
      → All Q (map (responded t) (probes_done t table))
  after_responses Q step =
      All-map (λ x. Q (responded t x)) Q (responded t) (probes_done t table) (λ x k. k)
        (after_probes (λ x. Q (responded t x)) step)

pub send_stage :
    (t : ℕ) (s : Stage) (table : List Entry)
    → All (IsStage s) table
    → All (IsAfterSend t s) (send_done t table)
send_stage t (probing n) table h = elim (Bool-cases (ltb 0 (waiting table))) [
  | inl w ↦ rw w (after_probes t (probing n) table h _ (probe_stage t n))
  | inr w ↦ rw w (
      after_responses t (probing n) table h _
        (λ e k. probed_stage t n (after_probe t (to_partial e)) (probe_stage t n e k)))
]
send_stage t (announcing_ n) table h =
    rw (no_wait (announcing_ n) table refl h)
      (after_responses t (announcing_ n) table h _ (announce_stage t n))
send_stage t finished table h =
    rw (no_wait finished table refl h) (after_responses t finished table h _ (finished_stage t))

pub periodic_map :
    (t : ℕ) (es : List Entry)
    → (periodic_entries t es).after ≡ map (λ e. (periodic_entry t e).after) es
unfolding periodic_entries
periodic_map t [] = refl
periodic_map t (e ∷ es) = ap (λ r. (periodic_entry t e).after ∷ r) (periodic_map t es)
