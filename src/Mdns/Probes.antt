-- ===== src/Mdns/Probes.antt =====
-- `mdns_send_probes` where the packet has room for the records of every entry.
use sc_xtcp.Base.{
  All, Bool, Bool-cases, List, Option, [], ap, append-nil, append_assoc, arith, false,
  if◌then◌else◌, inl, inr, length, ltb, map, refl, some, suc, sym, true, ℕ, ◌*◌, ◌++◌, ◌+◌, ◌<◌,
  ◌∙◌, ◌∷◌, ◌≡◌, ◌≤◌,
}
use sc_xtcp.Mdns.{Call, Entry, is_probe_wait, xtcp_send}
use sc_xtcp.Mdns.Records.{Message, buf_size, header, header_size, probe_size}
use sc_xtcp.Mdns.Room.{IsShort}
use sc_xtcp.Mdns.Fits.{Named, entry_records_grow, probe-Grows}
use Prim.{tt}
use sc_xtcp.Mdns.Kept.{
  IsShort-map, IsSmall, Named-replace, Named-to_partial, after_probe, after_probe-same,
  any_canonical, length-map, to_partial, to_partial-texts, waiting,
}
use sc_xtcp.Mdns.Send.{
  Sent, authority_entries, authority_entry, is_partial_sent, mdns_send_probes, no_message,
  probe_entries, probe_entry,
}

pub times_suc : (n k : ℕ) → suc n * k ≡ k + n * k
times_suc n k = grind arith

-- The entries become these, with `k` bytes of room for each.
abbrev pub Done : ℕ → Message → ℕ → ℕ → Option (Message × List Entry) → List Entry → Type 0
Done k m n j o es =
    (m' : Message) × (o ≡ some (m', es))
    × (length m'.body ≤ length m.body + n * k)
    × (m.number + j ≤ m'.number)

probe_entry_fits :
    (l : ℕ) (m : Message) (e : Entry)
    → IsShort l e
    → header_size + (length m.body + (l + 6)) ≤ buf_size
    → (m' : Message) × (probe_entry m e ≡ some (m', to_partial e))
      × (length m'.body ≤ length m.body + (l + 6))
      × (m.number + (if is_probe_wait e.state then 1 else 0) ≤ m'.number)
unfolding probe_entry probe_size
probe_entry_fits l m e short room = elim (Bool-cases (is_probe_wait e.state)) [
  | inl w ↦
      let (n, sent, le, num) = probe-Grows l e short m room in
      let fits : ltb (4 + length e.name + (12 + length m.body)) 1472 ≡ true =
        ground (arith, room, short.short_name) in
      rw (w, fits, sent) (n, refl, le, num)
  | inr w ↦ rw w (m, refl, omega arith, omega arith)
]

probe_entries_fit :
    (l : ℕ) (m : Message) (es : List Entry)
    → All (IsShort l) es
    → header_size + (length m.body + length es * (l + 6)) ≤ buf_size
    → Done (l + 6) m (length es) (waiting es) (probe_entries m es) (map to_partial es)
unfolding probe_entries
probe_entries_fit l m [] short room = (m, refl, omega arith, omega arith)
probe_entries_fit l m (e ∷ es) short room =
    let step = times_suc (length es) (l + 6) in
    let (n, first, le, num) = probe_entry_fits l m e short.0 (omega (arith, room, step)) in
    let (o, rest, le', num') = probe_entries_fit l n es short.1 (omega (arith, room, step, le)) in
    (o, rw (first, rest) refl, omega (arith, le, le', step), omega (arith, num, num'))

authority_entry_fits :
    (l t : ℕ) (table : List Entry) (m : Message) (e : Entry)
    → IsShort l e
    → Named l table
    → header_size + (length m.body + (6 * l + 76)) ≤ buf_size
    → (m' : Message) × (authority_entry t table m e ≡ some (m', after_probe t e))
      × (length m'.body ≤ length m.body + (6 * l + 76))
      × (m.number ≤ m'.number)
unfolding authority_entry
authority_entry_fits l t table m e short named room = elim (Bool-cases (is_partial_sent e.state)) [
  | inl w ↦
      let (n, sent, le, num) = entry_records_grow l e short table named m room in
      rw (w, sent) (n, refl, le, omega (arith, num))
  | inr w ↦ rw w (m, refl, omega arith, omega arith)
]

authority_entries_fit :
    (l t : ℕ) (before : List Entry) (m : Message) (es : List Entry)
    → All (IsShort l) es
    → Named l (before ++ es)
    → header_size + (length m.body + length es * (6 * l + 76)) ≤ buf_size
    → Done
        (6 * l + 76)
        m
        (length es)
        0
        (authority_entries t before m es)
        (before ++ map (after_probe t) es)
unfolding authority_entries
authority_entries_fit l t before m [] short named room =
    (m, ap (λ x. some (m, x)) (sym (append-nil before)), omega arith, omega arith)
authority_entries_fit l t before m (e ∷ es) short named room =
    let step = times_suc (length es) (6 * l + 76) in
    let (n, first, le, num) =
      authority_entry_fits l t (before ++ e ∷ es) m e short.0 named (omega (arith, room, step)) in
    let next = Named-replace l before es e (after_probe t e) (after_probe-same t e) named in
    let (o, rest, le', num') =
      authority_entries_fit l t (before ++ after_probe t e ∷ []) n es short.1 next
        (omega (arith, room, step, le)) in
    (
      o,
      rw first rest ∙ ap (λ x. some (o, x)) (append_assoc before (after_probe t e ∷ []) _),
      omega (arith, le, le', step),
      omega (arith, num, num'),
    )

probe_entries_idle :
    (m : Message) (es : List Entry) → waiting es ≡ 0 → probe_entries m es ≡ some (m, es)
unfolding probe_entries probe_entry
probe_entries_idle m [] h = refl
probe_entries_idle m (e ∷ es) h = elim (Bool-cases (is_probe_wait e.state)) [
  | inl w ↦ absurd (ground (arith, w, h))
  | inr w ↦ rw (w, probe_entries_idle m es (ground (arith, w, h))) refl
]

times_add : (n l : ℕ) → n * (7 * l + 82) ≡ n * (l + 6) + n * (6 * l + 76)
times_add n l = grind arith

probes_number :
    (table mid : List Entry) (q : Message)
    → probe_entries no_message table ≡ some (q, mid)
    → waiting table ≤ q.number
    → ltb 0 q.number ≡ ltb 0 (waiting table)
probes_number table mid q probes le = elim (Bool-cases (ltb 0 (waiting table))) [
  | inl w ↦ ground (arith, w, le)
  | inr w ↦
      let none_sent : q ≡ no_message =
        some_first (q, mid) (no_message, table)
          (sym probes ∙ probe_entries_idle no_message table (ground (arith, w))) in
      rw (none_sent, w) refl
]
  where
    some_first : (x y : Message × List Entry) → some x ≡ some y → x.0 ≡ y.0
    some_first x y e = cc

-- One packet with a question for each of `n` entries, at least.
abbrev pub IsProbed : ℕ → List Call → Type 0
IsProbed n calls =
    (q : ℕ) × (a : ℕ) × (body : List ℕ) × (calls ≡ xtcp_send (header 0 q 0 a ++ body) ∷ [])
    × (n ≤ q)

sent_probes :
    (t : ℕ) (table mid es : List Entry) (q a : Message)
    → probe_entries no_message table ≡ some (q, mid)
    → authority_entries t [] (record q { number = 0 }) mid ≡ some (a, es)
    → header_size + length a.body ≤ buf_size
    → (s : Sent) × (mdns_send_probes table t ≡ some s)
      × (s.table_after ≡ es)
      × (s.is_sent ≡ ltb 0 q.number)
      × All IsSmall s.calls
      × (0 < q.number → IsProbed q.number s.calls)
unfolding mdns_send_probes header
sent_probes t table mid es q a probes auth room =
    rw (probes, auth)
      (
        record {
          table_after = es;
          calls =
              if ltb 0 q.number
              then xtcp_send (header 0 q.number 0 a.number ++ a.body) ∷ []
              else [];
          is_sent = ltb 0 q.number;
        },
        refl,
        refl,
        refl,
        small (ltb 0 q.number),
        (λ some_wait.
            let e : ltb 0 q.number ≡ true = ground (arith, some_wait) in
            (q.number, a.number, a.body, rw e refl, omega arith)),
      )
  where
    small :
        (b : Bool)
        → All IsSmall (if b then xtcp_send (header 0 q.number 0 a.number ++ a.body) ∷ [] else [])
    small true = (omega (arith, room), tt)
    small false = tt

pub send_probes_fit :
    (l t : ℕ) (table : List Entry)
    → All (IsShort l) table
    → any_canonical table ≡ true
    → header_size + length table * (7 * l + 82) ≤ buf_size
    → (s : Sent) × (mdns_send_probes table t ≡ some s)
      × (s.table_after ≡ map (after_probe t) (map to_partial table))
      × (s.is_sent ≡ ltb 0 (waiting table))
      × All IsSmall s.calls
      × (0 < waiting table → IsProbed (waiting table) s.calls)
send_probes_fit l t table short canonical room =
    rest
      (probe_entries_fit l no_message table short (omega (arith, room, times_add (length table) l)))
  where
    rest :
        Done
          (l + 6)
          no_message
          (length table)
          (waiting table)
          (probe_entries no_message table)
          (map to_partial table)
        → (s : Sent) × (mdns_send_probes table t ≡ some s)
          × (s.table_after ≡ map (after_probe t) (map to_partial table))
          × (s.is_sent ≡ ltb 0 (waiting table))
          × All IsSmall s.calls
          × (0 < waiting table → IsProbed (waiting table) s.calls)
    rest (q, probes, le, num) =
        let sum = times_add (length table) l in
        let same = ap (λ n. n * (6 * l + 76)) (length-map to_partial table) in
        let (a, found, le', _) =
          authority_entries_fit l t [] (record q { number = 0 }) (map to_partial table)
            (IsShort-map l to_partial table to_partial-texts short)
            (Named-to_partial l table short canonical) (omega (arith, room, sum, le, same)) in
        let (s, sent, after, some_sent, small, probed) =
          sent_probes t table (map to_partial table) _ q a probes found
            (omega (arith, room, sum, le, le', same)) in
        (
          s,
          sent,
          after,
          some_sent ∙ probes_number table (map to_partial table) q probes (omega (arith, num)),
          small,
          (λ some_wait.
              fewer q.number s.calls (omega (arith, num)) (probed (omega (arith, num, some_wait)))),
        )
      where
        fewer :
            (n : ℕ) (cs : List Call)
            → waiting table ≤ n
            → IsProbed n cs
            → IsProbed (waiting table) cs
        fewer n cs h (i, j, body, e, k) = (i, j, body, e, omega (arith, h, k))
