-- ===== src/Mdns/Alive.antt =====
-- That the entries become active: the probes, the announcements, and the periodic step behind each.
use sc_xtcp.Base.{
  All, Bool, List, [], ap, arith, false, inl, inr, length, map, refl, some, true, ℕ, if◌then◌else◌,
  ◌*◌, ◌+◌, ◌<◌, ◌==◌, ◌∙◌, ◌∷◌, ◌≡◌, ◌≤◌,
}
use sc_xtcp.Base.Words.{u32}
use Prim.{tt}
use mathlib.Core.Path.{subst}
use sc_xtcp.Mdns.Probes.{IsProbed}
use sc_xtcp.Mdns.Responses.{IsAnnounced, announcing}
use sc_xtcp.Mdns.{Call, Entry, Mdns, MdnsState, active, is_used, unused}
use sc_xtcp.Mdns.Room.{IsShort}
use sc_xtcp.Mdns.Kept.{any_canonical, waiting}
use sc_xtcp.Mdns.Progress.{IsTold, mdns_send_fits, probes_done, send_done}
use sc_xtcp.Mdns.Stage.{
  All-map, IsAfterSend, IsLater, IsStage, Stage, announcing_, no_wait, finished, next, periodic_map,
  periodic_stage, probing, send_stage,
}
use sc_xtcp.Mdns.Table.{
  mdns_periodic, mdns_start_entries, periodic_entry, start_entries, start_entry,
}
use sc_xtcp.Mdns.Records.{buf_size, header_size}
use sc_xtcp.Mdns.Ready.{
  Ready, Ready-map, periodic_entry-Kept, round, rounds, send_done-Ready, start_entry-Kept,
}

-- The table is ready and at the stage, and the entries have been started.
abbrev pub Stands : ℕ → List Bool → Stage → Mdns → Type 0
Stands l used s m = Ready l used m.table × All (IsStage s) m.table × ((m.mdns_started == 1) ≡ false)

-- the number of the entries that are in use
abbrev pub count : List Bool → ℕ
count [] = 0
count (b ∷ bs) = (if b then 1 else 0) + count bs

-- What is sent at a stage: one probe with a question for each entry that is in use, or one response
-- with a record for each.
abbrev pub Says : ℕ → Stage → List Call → Type 0
Says u (probing n) calls = 0 < u → IsProbed u calls
Says u (announcing_ n) calls = 0 < u → IsAnnounced u calls
Says u finished calls = 0 ≤ u

abbrev pub Speaks : ℕ → Stage → List (List Call) → Type 0
Speaks u s [] = 0 ≤ u
Speaks u s (calls ∷ more) = Says u s calls × Speaks u (next s) more

stage_waiting :
    (n : ℕ) (es : List Entry)
    → All (IsStage (probing n)) es
    → waiting es ≡ count (map (λ e. is_used e.state) es)
stage_waiting n [] h = refl
stage_waiting n (e ∷ es) (inl u, h) = rw (u, stage_waiting n es h) refl
stage_waiting n (e ∷ es) (inr u, h) = rw (u.0, stage_waiting n es h) refl

stage_announcing :
    (n t : ℕ) (es : List Entry)
    → All (IsStage (announcing_ n)) es
    → announcing (probes_done t es) ≡ count (map (λ e. is_used e.state) es)
stage_announcing n t [] h = refl
stage_announcing n t (e ∷ es) (inl u, h) = rw (u, stage_announcing n t es h) refl
stage_announcing n t (e ∷ es) (inr u, h) = rw (u.0, stage_announcing n t es h) refl

told-Says :
    (s : Stage) (t : ℕ) (used : List Bool) (table : List Entry) (calls : List Call)
    → map (λ e. is_used e.state) table ≡ used
    → All (IsStage s) table
    → IsTold t table calls
    → Says (count used) s calls
told-Says (probing n) t used table calls us stage told =
    let same : waiting table ≡ count used = stage_waiting n table stage ∙ ap count us in
    subst (λ k. 0 < k → IsProbed k calls) same told.0
told-Says (announcing_ n) t used table calls us stage told =
    let same : announcing (probes_done t table) ≡ count used =
      stage_announcing n t table stage ∙ ap count us in
    subst (λ k. 0 < k → IsAnnounced k calls) same
      (told.1 (no_wait (announcing_ n) table refl stage))
told-Says finished t used table calls us stage told = omega arith

round-Stands :
    (l : ℕ) (used : List Bool) (s : Stage) (r : ℕ × ℕ) (m : Mdns)
    → IsLater r
    → Stands l used s m
    → (n : Mdns) × (calls : List Call) × (round r m ≡ some (n, calls))
      × Says (count used) s calls
      × Stands l used (next s) n
unfolding mdns_periodic
round-Stands l used s (t, delay) m later (ready, stage, started) =
    let (calls, sent, _, told) = mdns_send_fits l t m.table ready.0 ready.1 ready.2 in
    let step : Entry → Entry = λ e. (periodic_entry (u32 (t + delay)) e).after in
    rw (sent, started, periodic_map (u32 (t + delay)) (send_done t m.table))
      (
        record { table = map step (send_done t m.table); mdns_started = m.mdns_started },
        calls,
        refl,
        told-Says s t used m.table calls ready.3 stage told,
        (
          Ready-map l used step (send_done t m.table) (periodic_entry-Kept (u32 (t + delay)))
              (send_done-Ready l t used m.table ready),
          All-map (IsAfterSend t s) (IsStage (next s)) step (send_done t m.table)
              (λ e. periodic_stage t delay s e later) (send_stage t s m.table stage),
          started,
        ),
      )

times : List (ℕ × ℕ) → Stage → Stage
times [] s = s
times (r ∷ rs) s = times rs (next s)

rounds_stand :
    (l : ℕ) (used : List Bool) (rs : List (ℕ × ℕ)) (s : Stage) (m : Mdns)
    → All IsLater rs
    → Stands l used s m
    → (n : Mdns) × (said : List (List Call)) × (rounds rs m ≡ some (n, said))
      × Speaks (count used) s said
      × Stands l used (times rs s) n
unfolding times
rounds_stand l used [] s m later h = (m, [], refl, omega arith, h)
rounds_stand l used (r ∷ rs) s m later h =
    let (n, calls, first, says, stands) = round-Stands l used s r m later.0 h in
    let (o, said, rest, speaks, done) = rounds_stand l used rs (next s) n later.1 stands in
    (o, calls ∷ said, rw (first, rest) refl, (says, speaks), done)

six_rounds : (rs : List (ℕ × ℕ)) → length rs ≡ 6 → times rs (probing 0) ≡ finished
unfolding times
six_rounds (a ∷ b ∷ c ∷ d ∷ e ∷ f ∷ []) h = refl
six_rounds [] h = absurd (omega (arith, h))
six_rounds (a ∷ []) h = absurd (omega (arith, h))
six_rounds (a ∷ b ∷ []) h = absurd (omega (arith, h))
six_rounds (a ∷ b ∷ c ∷ []) h = absurd (omega (arith, h))
six_rounds (a ∷ b ∷ c ∷ d ∷ []) h = absurd (omega (arith, h))
six_rounds (a ∷ b ∷ c ∷ d ∷ e ∷ []) h = absurd (omega (arith, h))
six_rounds (a ∷ b ∷ c ∷ d ∷ e ∷ f ∷ g ∷ rest) h = absurd (omega (arith, h))

start_map : (es : List Entry) → (start_entries es).0 ≡ map start_entry es
unfolding start_entries
start_map [] = refl
start_map (e ∷ es) = ap (λ r. start_entry e ∷ r) (start_map es)

started-IsStage : (t : ℕ) (e : Entry) → IsStage (probing 0) (periodic_entry t (start_entry e)).after
unfolding periodic_entry
started-IsStage t e = ground arith

started_stages :
    (t : ℕ) (es : List Entry)
    → All (IsStage (probing 0)) (map (λ e. (periodic_entry t e).after) (map start_entry es))
started_stages t [] = tt
started_stages t (e ∷ es) = (started-IsStage t e, started_stages t es)

-- what an entry's state comes to
abbrev pub final_state : Bool → MdnsState
final_state true = active
final_state false = unused

final_states :
    (es : List Entry)
    → All (IsStage finished) es
    → map (λ e. e.state) es ≡ map final_state (map (λ e. is_used e.state) es)
final_states [] h = refl
final_states (e ∷ es) (inl u, h) = rw (u, final_states es h) refl
final_states (e ∷ es) (inr u, h) = rw (u.0, final_states es h) refl

-- When the interface came up and the texts have room as for `mdns_send_fits`, the first periodic step
-- and six rounds, each a call of `mdns_send` and a periodic step more than 2.5 seconds and less than
-- half the clock's range later, at whatever times, leave every entry that is in use ACTIVE and every
-- other one as it is. No step fails, and each of the first three sends the probes of all entries in
-- use, each of the next three their announcements.
pub rounds-mdns_periodic :
    (l t : ℕ) (m : Mdns) (rs : List (ℕ × ℕ))
    → m.mdns_started ≡ 1
    → All (IsShort l) m.table
    → any_canonical m.table ≡ true
    → header_size + length m.table * (13 * l + 168) ≤ buf_size
    → All IsLater rs
    → length rs ≡ 6
    → (n : Mdns) × (said : List (List Call)) × (rounds rs (mdns_periodic t m).after
        ≡ some (n, said))
      × Speaks (count (map (λ e. is_used e.state) m.table)) (probing 0) said
      × (map (λ e. e.state) n.table ≡ map final_state (map (λ e. is_used e.state) m.table))
unfolding mdns_periodic mdns_start_entries
rounds-mdns_periodic l t m rs started short canonical room later six =
    let first : Mdns = record {
      table = map (λ e. (periodic_entry t e).after) (map start_entry m.table);
      mdns_started = 2;
    } in
    let begun : (mdns_periodic t m).after ≡ first =
      rw (started, start_map m.table, periodic_map t (map start_entry m.table)) refl in
    let used = map (λ e. is_used e.state) m.table in
    let ready =
      Ready-map l used (λ e. (periodic_entry t e).after) (map start_entry m.table)
        (periodic_entry-Kept t)
        (Ready-map l used start_entry m.table start_entry-Kept (short, canonical, room, refl)) in
    let (n, said, ran, speaks, ((_, _, _, us), all_done, _)) =
      rounds_stand l used rs (probing 0) first later (ready, started_stages t m.table, refl) in
    rw begun (
      n,
      said,
      ran,
      speaks,
      final_states n.table (rw⁻¹ (six_rounds rs six) all_done) ∙ ap (map final_state) us,
    )
