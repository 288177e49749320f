-- ===== src/Mdns/Send.antt =====
-- `mdns_send`: what the responder answers when the server asks for data. The table's entries before
-- the one that a loop is at are `before`, those behind it `behind`.
use sc_xtcp.Base.{
  Bool, List, Option, [], false, if◌then◌else◌, length, ltb, some, true, ℕ, ◌&&◌, ◌++◌, ◌+◌, ◌>>=◌,
  ◌∷◌,
}
use sc_xtcp.Base.Words.{u32}
use sc_xtcp.Mdns.{
  Call, Entry, MdnsState, announce_sent, is_announce_wait, is_probe_wait, is_used, nothing_pending,
  probe_partial_sent, probe_sent, xtcp_send,
}
use sc_xtcp.Mdns.Records.{
  Message, buf_size, entry_records, header, header_size, mdns_response_size,
  mdns_send_host_response, mdns_send_probe, mdns_send_ptr_response, mdns_send_srv_response,
  mdns_send_txt_response, probe_size,
}

abbrev pub is_partial_sent : MdnsState → Bool
is_partial_sent probe_partial_sent = true
is_partial_sent _ = false

abbrev pub no_message : Message
no_message = record { body = []; number = 0 }

-- A round of the first loop of `mdns_send_probes`.
unfoldable pub probe_entry : Message → Entry → Option (Message × Entry)
probe_entry m e =
    if is_probe_wait e.state && ltb (probe_size e + (header_size + length m.body)) buf_size
    then (mdns_send_probe m e >>= λ n. some (n, record e { state = probe_partial_sent }))
    else some (m, e)

unfoldable pub probe_entries : Message → List Entry → Option (Message × List Entry)
probe_entries m [] = some (m, [])
probe_entries m (e ∷ es) = do r ← probe_entry m e; s ← probe_entries r.0 es; some (s.0, r.1 ∷ s.1)

-- the time of the next probe
abbrev pub probe_timeout : ℕ → ℕ → ℕ
probe_timeout t counter = if ltb counter 15 then u32 (t + 25000000) else u32 (t + 250000000)

abbrev pub probed : ℕ → Entry → Entry
probed t e = record e {
  num_sent = e.num_sent + 1;
  state = probe_sent;
  timeout = probe_timeout t e.counter;
}

-- A round of its second loop, where the whole table is `table`.
unfoldable pub authority_entry : ℕ → List Entry → Message → Entry → Option (Message × Entry)
authority_entry t table m e =
    if is_partial_sent e.state
    then (entry_records table m e >>= λ n. some (n, probed t e))
    else some (m, e)

unfoldable pub authority_entries :
    ℕ → List Entry → Message → List Entry → Option (Message × List Entry)
authority_entries t before m [] = some (m, before)
authority_entries t before m (e ∷ behind) = do
  r ← authority_entry t (before ++ e ∷ behind) m e
  authority_entries t (before ++ r.1 ∷ []) r.0 behind

-- The table, the call of the client, and the result.
pub record Sent : Type 0 where
  pub table_after : List Entry
  pub calls : List Call
  pub is_sent : Bool

-- `mdns_send_probes`
unfoldable pub mdns_send_probes : List Entry → ℕ → Option Sent
mdns_send_probes table t = do
  q ← probe_entries no_message table
  a ← authority_entries t [] (record q.0 { number = 0 }) q.1
  let sent = ltb 0 q.0.number
  some (record {
    table_after = a.1;
    calls = if sent then xtcp_send (header 0 q.0.number 0 a.0.number ++ a.0.body) ∷ [] else [];
    is_sent = sent;
  })

-- The response to a query, and its bit of `pending`.
unfoldable pub when_pending : Bool → (Message → Option Message) → Message → Option Message
when_pending false send m = some m
when_pending true send m = send m

abbrev pub announced : ℕ → Entry → Entry
announced t e = record e {
  num_sent = e.num_sent + 1;
  state = announce_sent;
  timeout = u32 (t + 100000000);
}

unfoldable pub announce_entry : ℕ → List Entry → Message → Entry → Option (Message × Entry)
announce_entry t table m e =
    if is_announce_wait e.state
    then (entry_records table m e >>= λ n. some (n, announced t e))
    else some (m, e)

-- the four tests of `pending`
unfoldable pub pending_responses : List Entry → Message → Entry → Option (Message × Entry)
pending_responses table m e = do
  h ← when_pending e.pending.host_response (λ n. mdns_send_host_response n e) m
  p ← when_pending e.pending.ptr_response (λ n. mdns_send_ptr_response n e) h
  s ← when_pending e.pending.srv_response (λ n. mdns_send_srv_response table n e) p
  x ← when_pending e.pending.txt_response (λ n. mdns_send_txt_response n e) s
  some (x, record e { pending = nothing_pending })

-- A round of the loop of `mdns_send_responses`.
unfoldable pub response_entry :
    ℕ → List Entry → Message → Entry → List Entry → Option (Message × Entry)
response_entry t before m e behind =
    if is_used e.state && ltb (mdns_response_size e + (header_size + length m.body)) buf_size
    then (announce_entry t (before ++ e ∷ behind) m e >>= λ r.
        pending_responses (before ++ r.1 ∷ behind) r.0 r.1)
    else some (m, e)

unfoldable pub response_entries :
    ℕ → List Entry → Message → List Entry → Option (Message × List Entry)
response_entries t before m [] = some (m, before)
response_entries t before m (e ∷ behind) = do
  r ← response_entry t before m e behind
  response_entries t (before ++ r.1 ∷ []) r.0 behind

-- `mdns_send_responses`
unfoldable pub mdns_send_responses : List Entry → ℕ → Option Sent
mdns_send_responses table t = do
  a ← response_entries t [] no_message table
  let sent = ltb 0 a.0.number
  some (record {
    table_after = a.1;
    calls = if sent then xtcp_send (header 132 0 a.0.number 0 ++ a.0.body) ∷ [] else [];
    is_sent = sent;
  })

-- `mdns_send`, built without NetBIOS: an empty packet where there is nothing to send
unfoldable pub mdns_send : List Entry → ℕ → Option (List Entry × List Call)
mdns_send table t = do
  p ← mdns_send_probes table t
  if p.is_sent
      then some (p.table_after, p.calls)
      else (mdns_send_responses p.table_after t >>= λ r.
          some (r.table_after, if r.is_sent then r.calls else xtcp_send [] ∷ []))
