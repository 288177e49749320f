-- ===== src/Mdns/Ready.antt =====
-- What `mdns_send` and `mdns_periodic` keep of a table that has room.
use sc_xtcp.Base.{
  All, Bool, Bool-cases, List, Option, [], arith, inl, inr, length, ltb, map, refl, some, sym, true,
  ℕ, ◌*◌, ◌+◌, ◌>>=◌, ◌∙◌, ◌∷◌, ◌≡◌, ◌≤◌,
}
use sc_xtcp.Base.Words.{u32}
use sc_xtcp.Mdns.{Call, Entry, Mdns, is_canonical, is_used}
use sc_xtcp.Mdns.Room.{IsShort}
use sc_xtcp.Mdns.Kept.{
  IsShort-map, SameTexts, after_probe, any_canonical, length-map, responded, to_partial, waiting,
}
use sc_xtcp.Mdns.Progress.{probes_done, send_done}
use sc_xtcp.Mdns.Send.{mdns_send}
use sc_xtcp.Mdns.Table.{mdns_periodic, periodic_entry, start_entry}
use sc_xtcp.Mdns.Records.{buf_size, header_size}

-- `mdns_send` at the time `t`, and `mdns_periodic` a delay later
abbrev pub round : ℕ × ℕ → Mdns → Option (Mdns × List Call)
round (t, delay) m = do
  r ← mdns_send m.table t
  some ((mdns_periodic (u32 (t + delay)) (record m { table = r.0 })).after, r.1)

-- rounds, with what `mdns_send` sends in each
abbrev pub rounds : List (ℕ × ℕ) → Mdns → Option (Mdns × List (List Call))
rounds [] m = some (m, [])
rounds (r ∷ rs) m = do n ← round r m; o ← rounds rs n.0; some (o.0, n.1 ∷ o.1)

-- what stays as it is all the time, with the entries that are in use
abbrev pub Ready : ℕ → List Bool → List Entry → Type 0
Ready l used table =
    All (IsShort l) table
    × (any_canonical table ≡ true)
    × (header_size + length table * (13 * l + 168) ≤ buf_size)
    × (map (λ e. is_used e.state) table ≡ used)

pub any_canonical-map :
    (f : Entry → Entry) (es : List Entry)
    → ((e : Entry) → is_canonical e.entry_type ≡ is_canonical (f e).entry_type)
    → any_canonical (map f es) ≡ any_canonical es
any_canonical-map f [] same = refl
any_canonical-map f (e ∷ es) same = rw (sym (same e), any_canonical-map f es same) refl

pub used-map :
    (f : Entry → Entry) (es : List Entry)
    → ((e : Entry) → is_used (f e).state ≡ is_used e.state)
    → map (λ e. is_used e.state) (map f es) ≡ map (λ e. is_used e.state) es
used-map f [] same = refl
used-map f (e ∷ es) same = rw (same e, used-map f es same) refl

abbrev Kept : Entry → Entry → Type 0
Kept e f =
    SameTexts e f
    × (is_canonical e.entry_type ≡ is_canonical f.entry_type)
    × (is_used f.state ≡ is_used e.state)

pub Ready-map :
    (l : ℕ) (used : List Bool) (f : Entry → Entry) (es : List Entry)
    → ((e : Entry) → Kept e (f e))
    → Ready l used es
    → Ready l used (map f es)
Ready-map l used f es same (short, canonical, room, us) = (
  IsShort-map l f es (λ e. (same e).0) short,
  any_canonical-map f es (λ e. (same e).1) ∙ canonical,
  rw (length-map f es) room,
  used-map f es (λ e. (same e).2) ∙ us,
)

to_partial-Kept : (e : Entry) → Kept e (to_partial e)
to_partial-Kept e = ground arith

after_probe-Kept : (t : ℕ) (e : Entry) → Kept e (after_probe t e)
after_probe-Kept t e = ground arith

responded-Kept : (t : ℕ) (e : Entry) → Kept e (responded t e)
responded-Kept t e = ground arith

pub start_entry-Kept : (e : Entry) → Kept e (start_entry e)
start_entry-Kept e = ground arith

pub periodic_entry-Kept : (t : ℕ) (e : Entry) → Kept e (periodic_entry t e).after
unfolding periodic_entry
periodic_entry-Kept t e = ground arith

pub send_done-Ready :
    (l t : ℕ) (used : List Bool) (table : List Entry)
    → Ready l used table
    → Ready l used (send_done t table)
send_done-Ready l t used table ready =
    let probed =
      Ready-map l used (after_probe t) (map to_partial table) (after_probe-Kept t)
        (Ready-map l used to_partial table to_partial-Kept ready) in
    elim (Bool-cases (ltb 0 (waiting table))) [
      | inl w ↦ rw w probed
      | inr w ↦
          rw w (Ready-map l used (responded t) (probes_done t table) (responded-Kept t) probed)
    ]
