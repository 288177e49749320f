-- ===== src/Mdns/Responses.antt =====
-- `mdns_send_responses` where the packet has room for the records of every entry.
use sc_xtcp.Base.{
  All, Bool, Bool-cases, List, Option, [], ap, append-nil, append_assoc, arith, false,
  if◌then◌else◌, inl, inr, length, ltb, map, refl, some, sym, true, ℕ, ◌*◌, ◌++◌, ◌+◌, ◌<◌, ◌∙◌,
  ◌∷◌, ◌≡◌, ◌≤◌,
}
use Prim.{tt}
use mathlib.Core.Path.{subst}
use sc_xtcp.Mdns.{Call, Entry, MdnsState, is_announce_wait, is_used, nothing_pending, xtcp_send}
use sc_xtcp.Mdns.Records.{
  Message, buf_size, header, header_size, mdns_response_size, mdns_send_host_response,
  mdns_send_ptr_response, mdns_send_srv_response, mdns_send_txt_response,
}
use sc_xtcp.Mdns.Room.{Grows, IsShort}
use sc_xtcp.Mdns.Fits.{Named, entry_records_grow, host-Grows, ptr-Grows, srv-Grows, txt-Grows}
use sc_xtcp.Mdns.Kept.{
  IsShort-same, IsSmall, Named-replace, SameName, after_announce, after_announce-same,
  after_announce-texts, responded,
}
use sc_xtcp.Mdns.Probes.{Done, times_suc}
use sc_xtcp.Mdns.Send.{
  Sent, announce_entry, mdns_send_responses, no_message, pending_responses, response_entries,
  response_entry, when_pending,
}

when-Grows :
    (k : ℕ) (b : Bool) (f : Message → Option Message) (m : Message)
    → Grows k 1 f m
    → Grows k 0 (when_pending b f) m
unfolding when_pending
when-Grows k false f m grows room = (m, refl, omega arith, omega arith)
when-Grows k true f m grows room =
    let (n, e, le, num) = grows room in (n, e, le, omega (arith, num))

pub cleared : Entry → Entry
cleared e = record e { pending = nothing_pending }

pending_responses_fit :
    (l : ℕ) (table : List Entry) (m : Message) (e : Entry)
    → IsShort l e
    → Named l table
    → header_size + (length m.body + (7 * l + 92)) ≤ buf_size
    → (m' : Message) × (pending_responses table m e ≡ some (m', cleared e))
      × (length m'.body ≤ length m.body + (7 * l + 92))
      × (m.number ≤ m'.number)
unfolding pending_responses cleared
pending_responses_fit l table m e short named room =
    let (h, e1, le1, n1) =
      when-Grows (l + 16) e.pending.host_response (λ n. mdns_send_host_response n e) m
        (host-Grows l e short m) (omega (arith, room)) in
    let (p, e2, le2, n2) =
      when-Grows (2 * l + 42) e.pending.ptr_response (λ n. mdns_send_ptr_response n e) h
        (ptr-Grows l e short h) (omega (arith, room, le1)) in
    let (s, e3, le3, n3) =
      when-Grows (2 * l + 20) e.pending.srv_response (λ n. mdns_send_srv_response table n e) p
        (srv-Grows l e short table named p) (omega (arith, room, le1, le2)) in
    let (x, e4, le4, n4) =
      when-Grows (2 * l + 14) e.pending.txt_response (λ n. mdns_send_txt_response n e) s
        (txt-Grows l e short s) (omega (arith, room, le1, le2, le3)) in
    (x, rw (e1, e2, e3, e4) refl, omega (arith, le1, le2, le3, le4), omega (arith, n1, n2, n3, n4))

announce_entry_fits :
    (l t : ℕ) (table : List Entry) (m : Message) (e : Entry)
    → IsShort l e
    → Named l table
    → header_size + (length m.body + (6 * l + 76)) ≤ buf_size
    → (m' : Message) × (announce_entry t table m e ≡ some (m', after_announce t e))
      × (length m'.body ≤ length m.body + (6 * l + 76))
      × (m.number + (if is_announce_wait e.state then 1 else 0) ≤ m'.number)
unfolding announce_entry
announce_entry_fits l t table m e short named room = elim (Bool-cases (is_announce_wait e.state)) [
  | inl w ↦
      let (n, sent, le, num) = entry_records_grow l e short table named m room in
      rw (w, sent) (n, refl, le, num)
  | inr w ↦ rw w (m, refl, omega arith, omega arith)
]

-- the number of the entries in ANNOUNCE_WAIT
abbrev pub announcing : List Entry → ℕ
announcing [] = 0
announcing (e ∷ es) = (if is_announce_wait e.state then 1 else 0) + announcing es

waits-used : (s : MdnsState) → is_used s ≡ false → is_announce_wait s ≡ false
waits-used s h = ground (arith, h)

response_entry_fits :
    (l t : ℕ) (before : List Entry) (m : Message) (e : Entry) (behind : List Entry)
    → IsShort l e
    → Named l (before ++ e ∷ behind)
    → header_size + (length m.body + (13 * l + 168)) ≤ buf_size
    → (m' : Message) × (response_entry t before m e behind ≡ some (m', responded t e))
      × (length m'.body ≤ length m.body + (13 * l + 168))
      × (m.number + (if is_announce_wait e.state then 1 else 0) ≤ m'.number)
unfolding response_entry mdns_response_size cleared
response_entry_fits l t before m e behind short named room = elim (Bool-cases (is_used e.state)) [
  | inl u ↦
      let fits : ltb (10 + 2 * length e.name + 4 + (12 + length m.body)) 1472 ≡ true =
        ground (arith, room, short.short_name) in
      let next =
        subst (Named l) (append_assoc before (after_announce t e ∷ []) behind)
          (Named-replace l before behind e (after_announce t e) (after_announce-same t e) named) in
      let (n, first, le, num) =
        announce_entry_fits l t (before ++ e ∷ behind) m e short named (omega (arith, room)) in
      let (o, second, le', num') =
        pending_responses_fit l (before ++ after_announce t e ∷ behind) n (after_announce t e)
          (IsShort-same l e (after_announce t e) (after_announce-texts t e) short) next
          (omega (arith, room, le)) in
      rw (u, fits, first, second) (o, refl, omega (arith, le, le'), omega (arith, num, num'))
  | inr u ↦ rw (u, waits-used e.state u) (m, refl, omega arith, omega arith)
]

responded-same : (t : ℕ) (e : Entry) → SameName e (responded t e)
responded-same t e = ground arith

response_entries_fit :
    (l t : ℕ) (before : List Entry) (m : Message) (es : List Entry)
    → All (IsShort l) es
    → Named l (before ++ es)
    → header_size + (length m.body + length es * (13 * l + 168)) ≤ buf_size
    → Done
        (13 * l + 168)
        m
        (length es)
        (announcing es)
        (response_entries t before m es)
        (before ++ map (responded t) es)
unfolding response_entries
response_entries_fit l t before m [] short named room =
    (m, ap (λ x. some (m, x)) (sym (append-nil before)), omega arith, omega arith)
response_entries_fit l t before m (e ∷ es) short named room =
    let step = times_suc (length es) (13 * l + 168) in
    let (n, first, le, num) =
      response_entry_fits l t before m e es short.0 named (omega (arith, room, step)) in
    let next = Named-replace l before es e (responded t e) (responded-same t e) named in
    let (o, rest, le', num') =
      response_entries_fit l t (before ++ responded t e ∷ []) n es short.1 next
        (omega (arith, room, step, le)) in
    (
      o,
      rw first rest ∙ ap (λ x. some (o, x)) (append_assoc before (responded t e ∷ []) _),
      omega (arith, le, le', step),
      omega (arith, num, num'),
    )

-- One packet with an answer for each of `n` entries, at least.
abbrev pub IsAnnounced : ℕ → List Call → Type 0
IsAnnounced n calls =
    (a : ℕ) × (body : List ℕ) × (calls ≡ xtcp_send (header 132 0 a 0 ++ body) ∷ []) × (n ≤ a)

pub send_responses_fit :
    (l t : ℕ) (table : List Entry)
    → All (IsShort l) table
    → Named l table
    → header_size + length table * (13 * l + 168) ≤ buf_size
    → (s : Sent) × (mdns_send_responses table t ≡ some s)
      × (s.table_after ≡ map (responded t) table)
      × (0 < announcing table → s.is_sent ≡ true)
      × All IsSmall s.calls
      × (0 < announcing table → IsAnnounced (announcing table) s.calls)
unfolding mdns_send_responses header
send_responses_fit l t table short named room =
    let (a, found, le, num) =
      response_entries_fit l t [] no_message table short named (omega (arith, room)) in
    rw found (
      record {
        table_after = map (responded t) table;
        calls = if ltb 0 a.number then xtcp_send (header 132 0 a.number 0 ++ a.body) ∷ [] else [];
        is_sent = ltb 0 a.number;
      },
      refl,
      refl,
      (λ some_wait. ground (arith, num, some_wait)),
      elim (Bool-cases (ltb 0 a.number)) [
        | inl s ↦ rw s (omega (arith, room, le), tt)
        | inr s ↦ rw s tt
      ],
      (λ some_wait.
          let e : ltb 0 a.number ≡ true = ground (arith, num, some_wait) in
          (a.number, a.body, rw e refl, omega (arith, num))),
    )
