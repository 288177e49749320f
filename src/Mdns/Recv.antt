-- ===== src/Mdns/Recv.antt =====
-- `mdns_recv`: what a packet does to the table. `msg` is the array that holds it, and `fuel` is for
-- `mdns_parse_name`.
use sc_xtcp.Base.{
  Bool, List, Option, [], drop, if◌then◌else◌, ltb, none, not, on_some, some, suc, true, zero, ℕ,
  ◌&&◌, ◌++◌, ◌+◌, ◌==◌, ◌>>=◌, ◌||◌, ◌∷◌,
}
use sc_xtcp.Base.Net.{IpAddr, ip_eq}
use sc_xtcp.Mdns.{
  Entry, MdnsEvent, MdnsState, both_events, is_active, is_announce_wait, is_disabled, is_probe_sent,
  is_probe_wait, is_srv, is_used, no_event, nothing_pending, probe_wait, xtcp_init_send,
}
use sc_xtcp.Mdns.Text.{update_name}
use sc_xtcp.Mdns.Parse.{mdns_compare_name, mdns_parse_name, mdns_parse_rev_ip}
use sc_xtcp.Mdns.Answer.{
  answer_len, answer_size, answer_ttl, loses_tie_break, mdns_answer_conflict, read16,
}
use sc_xtcp.Mdns.Table.{Step, send_request}
use sc_xtcp.Mdns.Records.{header_size}

abbrev pub idle {ℓ} : {A : Type ℓ} → A → Step A
idle a = record { after = a; step_calls = []; event = no_event }

abbrev pub asks {ℓ} : {A : Type ℓ} → A → Step A
asks a = record { after = a; step_calls = xtcp_init_send ∷ []; event = no_event }

-- the entry's step, in front of the others
abbrev pub in_front : Step Entry → Step (List Entry) → Step (List Entry)
in_front s r = record {
  after = s.after ∷ r.after;
  step_calls = s.step_calls ++ r.step_calls;
  event = both_events s.event r.event;
}

-- one step behind another
abbrev pub behind_step {ℓ κ} : {A : Type ℓ} {B : Type κ} → Step A → Step B → Step B
behind_step s r = record {
  after = r.after;
  step_calls = s.step_calls ++ r.step_calls;
  event = both_events s.event r.event;
}

-- A loop over the table that treats the first entry of those that `f` does not leave out, and breaks.
unfoldable pub first_entry :
    (Entry → Option (Option (Step Entry))) → List Entry → Option (Step (List Entry))
first_entry f [] = some (idle [])
first_entry f (e ∷ es) = f e >>= λ treated.
    on_some treated (first_entry f es >>= λ r. some (in_front (idle e) r))
      (λ s. some (in_front s (idle es)))

-- A loop over the whole table.
unfoldable pub each_entry : (Entry → Option (Step Entry)) → List Entry → Option (Step (List Entry))
each_entry f [] = some (idle [])
each_entry f (e ∷ es) = do s ← f e; r ← each_entry f es; some (in_front s r)

abbrev pub with_ptr : Entry → Entry
with_ptr e = record e { pending = record e.pending { ptr_response = true } }

-- The round of the loop of `handle_mdns_ptr_query`: its first test on names, its second on services.
-- `junk` is what `addr` held before.
unfoldable pub ptr_query_entry : IpAddr → List ℕ → ℕ → Entry → Option (Option (Step Entry))
ptr_query_entry junk msg query_name e =
    if not (is_active e.state)
    then some none
    else if is_srv e.entry_type
    then (mdns_compare_name e.name_postfix (drop query_name msg) msg >>= λ c.
        some (if c == 0 then some (asks (with_ptr e)) else none))
    else (mdns_parse_rev_ip (drop query_name msg) junk msg >>= λ r.
        some (if r.0 && ip_eq r.1 e.ipaddr then some (asks (with_ptr e)) else none))

-- `handle_mdns_ptr_query`
unfoldable pub handle_mdns_ptr_query : IpAddr → List ℕ → ℕ → List Entry → Option (Step (List Entry))
handle_mdns_ptr_query junk msg query_name table =
    first_entry (ptr_query_entry junk msg query_name) table

-- What a query of the type asks of the entry in `mdns_recv`.
unfoldable pub query_entry : ℕ → Entry → Step Entry
query_entry qtype e =
    if is_srv e.entry_type
    then (let srv = qtype == 33 || qtype == 255 in
        let txt = qtype == 16 || qtype == 255 in
        record {
          after = record e {
            pending = record e.pending {
              srv_response = e.pending.srv_response || srv;
              txt_response = e.pending.txt_response || txt;
            };
          };
          step_calls = send_request srv ++ send_request txt;
          event = no_event;
        })
    else if qtype == 1 || qtype == 255
    then asks (record e { pending = record e.pending { host_response = true } })
    else idle e

unfoldable pub named_query : List ℕ → ℕ → ℕ → Entry → Option (Option (Step Entry))
named_query msg dptr qtype e =
    if is_active e.state
    then (mdns_compare_name e.name (drop dptr msg) msg >>= λ c.
        some (if c == 0 then some (query_entry qtype e) else none))
    else some none

-- A question of the class `qclass` and the type `qtype`.
unfoldable pub question : IpAddr → List ℕ → ℕ → ℕ → ℕ → List Entry → Option (Step (List Entry))
question junk msg dptr qclass qtype table =
    if qclass == 1
    then (if qtype == 12
        then handle_mdns_ptr_query junk msg dptr table
        else first_entry (named_query msg dptr qtype) table)
    else some (idle table)

-- The loop over the questions: its step, and `dptr` behind it.
unfoldable pub questions :
    ℕ → IpAddr → List ℕ → ℕ → ℕ → ℕ → List Entry → Option (ℕ × Step (List Entry))
questions fuel junk msg eom zero dptr table = some (dptr, idle table)
questions fuel junk msg eom (suc n) dptr table = mdns_parse_name fuel msg dptr eom >>= λ parsed.
    on_some parsed (some (dptr, idle table)) (λ qry. read16 msg (qry + 2) >>= λ qclass.
    read16 msg qry >>= λ qtype. question junk msg dptr qclass qtype table >>= λ s.
    questions fuel junk msg eom n (qry + 4) s.after >>= λ r. some (r.0, behind_step s r.1))

abbrev pub is_probing : MdnsState → Bool
is_probing s = is_probe_wait s || is_probe_sent s

abbrev pub lost_event : MdnsEvent
lost_event = record no_event { entry_lost = true }

abbrev pub renamed : Entry → Entry
renamed e = update_name (record e { counter = e.counter + 1 })

abbrev pub back_to_probing : Entry → Entry
back_to_probing e = record e { state = probe_wait; num_sent = 0 }

-- What a conflict does in `handle_mdns_response`.
unfoldable pub conflicted : Entry → Step Entry
conflicted e = record {
  after = back_to_probing (if is_probing e.state then renamed e else e);
  step_calls = send_request (not (is_probe_wait e.state) || not (is_announce_wait e.state));
  event = if is_probing e.state then lost_event else no_event;
}

-- The round of its loop on an entry with the answer's name.
unfoldable pub answered : List ℕ → ℕ → Entry → Option (Step Entry)
answered msg ans e = do
  conflict ← mdns_answer_conflict msg ans e
  if conflict
      then some (conflicted e)
      else (answer_ttl msg ans >>= λ ttl.
          some (idle (if ltb 127 ttl then record e { pending = nothing_pending } else e)))

unfoldable pub response_round : List ℕ → ℕ → ℕ → Entry → Option (Step Entry)
response_round msg query_name ans e =
    if is_used e.state && not (is_disabled e.state)
    then (mdns_compare_name e.name (drop query_name msg) msg >>= λ c.
        if c == 0 then answered msg ans e else some (idle e))
    else some (idle e)

-- `handle_mdns_response`
unfoldable pub handle_mdns_response : List ℕ → ℕ → ℕ → List Entry → Option (Step (List Entry))
handle_mdns_response msg query_name ans table = each_entry (response_round msg query_name ans) table

-- The loop over the answers.
unfoldable pub answers : ℕ → List ℕ → ℕ → ℕ → ℕ → List Entry → Option (ℕ × Step (List Entry))
answers fuel msg eom zero dptr table = some (dptr, idle table)
answers fuel msg eom (suc n) dptr table = mdns_parse_name fuel msg dptr eom >>= λ parsed.
    on_some parsed (some (dptr, idle table)) (λ ans.
      handle_mdns_response msg dptr ans table >>= λ s. answer_len msg ans >>= λ len.
      answers fuel msg eom n (ans + answer_size + len) s.after >>= λ r.
      some (r.0, behind_step s r.1))

-- What a lost tie break does in `handle_mdns_auth`.
unfoldable pub tie_lost : Entry → Step Entry
tie_lost e = record {
  after = back_to_probing (renamed e);
  step_calls = send_request (not (is_probe_wait e.state));
  event = lost_event;
}

unfoldable pub auth_round : ℕ → List ℕ → ℕ → ℕ → ℕ → Entry → Option (Step Entry)
auth_round fuel msg eom auth n e =
    if is_probing e.state
    then (loses_tie_break fuel msg eom e auth n >>= λ loses.
        some (if loses then tie_lost e else idle e))
    else some (idle e)

-- `handle_mdns_auth`
unfoldable pub handle_mdns_auth : ℕ → List ℕ → ℕ → ℕ → ℕ → List Entry → Option (Step (List Entry))
handle_mdns_auth fuel msg eom auth n table = each_entry (auth_round fuel msg eom auth n) table

-- `mdns_recv`, when `xtcp_recv` has filled the array and returned `len`
unfoldable pub mdns_recv : ℕ → IpAddr → List ℕ → ℕ → List Entry → Option (Step (List Entry))
mdns_recv fuel junk msg len table = do
  nquestions ← read16 msg 4
  nanswers ← read16 msg 6
  nauth ← read16 msg 8
  q ← questions fuel junk msg len nquestions header_size table
  a ← answers fuel msg len nanswers q.0 q.1.after
  s ← handle_mdns_auth fuel msg len a.0 nauth a.1.after
  some (behind_step q.1 (behind_step a.1 s))
