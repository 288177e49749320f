-- ===== src/Mdns/Progress.antt =====
-- `mdns_send` on a table whose records have room, and how far an entry comes by it.
use sc_xtcp.Base.{
  All, Bool-cases, List, [], ap, arith, if◌then◌else◌, inl, inr, length, ltb, map, refl, some, true,
  ℕ, ◌*◌, ◌+◌, ◌<◌, ◌∙◌, ◌∷◌, ◌≡◌, ◌≤◌,
}
use Prim.{tt}
use sc_xtcp.Mdns.{Call, Entry, xtcp_send}
use sc_xtcp.Mdns.Room.{IsShort}
use sc_xtcp.Mdns.Kept.{
  IsShort-map, IsSmall, Named-map, Named-to_partial, after_probe, after_probe-same,
  after_probe-texts, any_canonical, length-map, responded, to_partial, to_partial-texts, waiting,
}
use sc_xtcp.Mdns.Probes.{IsProbed, send_probes_fit}
use sc_xtcp.Mdns.Responses.{IsAnnounced, announcing, send_responses_fit}
use sc_xtcp.Mdns.Send.{announced, mdns_send, probed}
use sc_xtcp.Mdns.Records.{buf_size, header_size}

times_le : (n l : ℕ) → n * (7 * l + 82) ≤ n * (13 * l + 168)
times_le n l =
    let split : n * (13 * l + 168) ≡ n * (7 * l + 82) + n * (6 * l + 86) = grind arith in
    omega (arith, split)

-- the table that `mdns_send_probes` leaves, and that `mdns_send` leaves
abbrev pub probes_done : ℕ → List Entry → List Entry
probes_done t table = map (after_probe t) (map to_partial table)

abbrev pub send_done : ℕ → List Entry → List Entry
send_done t table =
    if ltb 0 (waiting table) then probes_done t table else map (responded t) (probes_done t table)

-- What is sent: for entries in PROBE_WAIT one packet with a question for each; where there are none,
-- for entries in ANNOUNCE_WAIT one response with a record for each.
abbrev pub IsTold : ℕ → List Entry → List Call → Type 0
IsTold t table calls =
    (0 < waiting table → IsProbed (waiting table) calls)
    × (waiting table ≡ 0
        → 0 < announcing (probes_done t table)
        → IsAnnounced (announcing (probes_done t table)) calls)

pub mdns_send_fits :
    (l t : ℕ) (table : List Entry)
    → All (IsShort l) table
    → any_canonical table ≡ true
    → header_size + length table * (13 * l + 168) ≤ buf_size
    → (calls : List Call) × (mdns_send table t ≡ some (send_done t table, calls))
      × All IsSmall calls
      × IsTold t table calls
unfolding mdns_send
mdns_send_fits l t table short canonical room =
    let (p, probes, after, sent, small, probed) =
      send_probes_fit l t table short canonical (omega (arith, room, times_le (length table) l)) in
    let later =
      IsShort-map l (after_probe t) (map to_partial table) (after_probe-texts t)
        (IsShort-map l to_partial table to_partial-texts short) in
    let named =
      Named-map l (after_probe t) [] (map to_partial table) (after_probe-same t)
        (Named-to_partial l table short canonical) in
    let same =
      ap (λ n. n * (13 * l + 168))
        (length-map (after_probe t) (map to_partial table) ∙ length-map to_partial table) in
    elim (Bool-cases (ltb 0 (waiting table))) [
      | inl w ↦
          rw (probes, sent, w, after)
            (p.calls, refl, small, (probed, λ z. absurd (ground (arith, w, z))))
      | inr w ↦
          let (r, responses, after', is_sent, small', announced) =
            send_responses_fit l t (probes_done t table) later named (omega (arith, room, same)) in
          rw (probes, sent, w, after, responses, after')
            (
              (if r.is_sent then r.calls else xtcp_send [] ∷ []),
              refl,
              elim (Bool-cases r.is_sent) [ inl b ↦ rw b small' | inr b ↦ rw b (omega arith, tt) ],
              (
                (λ z. absurd (ground (arith, w, z))),
                λ z some_wait. rw (is_sent some_wait) (announced some_wait),
              ),
            )
    ]
