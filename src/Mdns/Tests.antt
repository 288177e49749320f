-- ===== src/Mdns/Tests.antt =====
-- Names, packets and a table on concrete inputs.
use sc_xtcp.Base.{
  All, List, [], append-nil, arith, inl, inr, map, refl, some, sym, true, ℕ, ◌++◌, ◌∷◌, ◌≡◌, ◌⊎◌,
}
use sc_xtcp.Base.Net.{IpAddr}
use Prim.{tt}
use sc_xtcp.Base.Words.{ℤ}
use sc_xtcp.Mdns.Parse.{
  compare_ends, compare_label, compare_rounds, end_round, goes_on, mdns_compare_name,
  mdns_parse_name, parse_round, parse_rounds,
}
use sc_xtcp.Mdns.Text.{counter_text, digits_back, mdns_itoa, update_name}
use sc_xtcp.Mdns.{
  Entry, Mdns, MdnsState, active, canonical_name_entry, disabled, no_event, nothing_pending,
  probe_sent, probe_wait, srv_entry, unused, xtcp_init_send,
}
use sc_xtcp.Mdns.Fields.{IsAddr}
use sc_xtcp.Mdns.Compare.{flipped}
use sc_xtcp.Mdns.Conflict.{
  compare_host_answer-host_answer, host_answer, service_conflict_own_answers, srv_answer,
  txt_answer,
}
use sc_xtcp.Mdns.Handler.{Answers}
use sc_xtcp.Mdns.Received.{mdns_recv-IsNamed}
use sc_xtcp.Mdns.Names.{IsNamed}
use sc_xtcp.Mdns.Table.{Step}
use sc_xtcp.Mdns.Recv.{
  answered, answers, auth_round, conflicted, each_entry, handle_mdns_auth, handle_mdns_response,
  mdns_recv, questions, response_round,
}
use sc_xtcp.Mdns.Answer.{
  compare_rdata, find_lowest_matching_answer, is_nonzero, loses_tie_break, lowest_from,
  mdns_answer_conflict, mdns_compare_answer, mdns_compare_host_answer, name_loses, read16,
}

-- "x" and "local"
abbrev pub x_text : List ℕ
x_text = 120 ∷ []

abbrev pub local : List ℕ
local = 108 ∷ 111 ∷ 99 ∷ 97 ∷ 108 ∷ []

abbrev pub our_addr : IpAddr
our_addr = record { b0 = 169; b1 = 254; b2 = 1; b3 = 20 }

abbrev pub their_addr : IpAddr
their_addr = record { b0 = 169; b1 = 254; b2 = 7; b3 = 3 }

abbrev host : MdnsState → IpAddr → Entry
host s a = record {
  state = s;
  pending = nothing_pending;
  name = x_text ++ 46 ∷ local;
  name_prefix = x_text;
  name_postfix = local;
  txt_record = [];
  srv_port = 0;
  ipaddr = a;
  counter = 0;
  timeout = 0;
  num_sent = 0;
  entry_type = canonical_name_entry;
}

abbrev free : Entry
free = record (host unused our_addr) { name = []; name_prefix = []; name_postfix = [] }

abbrev table_of : MdnsState → List Entry
table_of s = host s our_addr ∷ free ∷ []

pub our_addr-IsAddr : IsAddr our_addr
our_addr-IsAddr = record {
  byte0 = omega arith;
  byte1 = omega arith;
  byte2 = omega arith;
  byte3 = omega arith;
}

abbrev times : List (ℕ × ℕ)
times =
    (5, 300000000)
    ∷ (300000009, 300000000)
    ∷ (4000000000, 300000000)
    ∷ (1000, 400000000)
    ∷ (0, 250000001)
    ∷ (7, 2000000000)
    ∷ []

abbrev server : Answers
server = record {
  ipconfig_addr = our_addr;
  received = [];
  received_len = 0;
  junk = their_addr;
  fuel = 0;
}

abbrev registered : Mdns
registered = record { table = table_of disabled; mdns_started = 0 }

-- a response that gives our name another address
abbrev response : List ℕ
response =
    0 ∷ 0 ∷ 132 ∷ 0 ∷ 0 ∷ 0 ∷ 0 ∷ 1 ∷ 0 ∷ 0 ∷ 0 ∷ 0 ∷ 1 ∷ 120 ∷ 5 ∷ local
    ++ 0 ∷ host_answer (host active their_addr)

-- the name is lost, and "x-1.local" is to be probed
abbrev renamed_step : Step (List Entry)
renamed_step = record {
  after =
      record (host probe_wait our_addr) { name = x_text ++ 45 ∷ 49 ∷ 46 ∷ local; counter = 1 }
      ∷ free
      ∷ [];
  step_calls = xtcp_init_send ∷ [];
  event = record no_event { entry_lost = true };
}

recv_response : mdns_recv 50 their_addr response 35 (table_of probe_sent) ≡ some renamed_step
unfolding mdns_recv read16 questions answers handle_mdns_response handle_mdns_auth each_entry
    mdns_parse_name parse_rounds parse_round end_round response_round mdns_compare_name
    compare_rounds compare_label goes_on compare_ends answered mdns_answer_conflict
    mdns_compare_host_answer mdns_compare_answer compare_rdata auth_round conflicted update_name
    counter_text mdns_itoa digits_back loses_tie_break find_lowest_matching_answer lowest_from
    name_loses
recv_response = refl

table_of-IsNamed : All IsNamed (table_of probe_sent)
unfolding update_name counter_text
table_of-IsNamed = (inr refl, (inl refl, tt))

mdns_recv-IsNamed_example :
    All IsNamed renamed_step.after
    × ((renamed_step.event.entry_lost ≡ true)
        ⊎ (map (λ e. e.name) renamed_step.after ≡ map (λ e. e.name) (table_of probe_sent)))
mdns_recv-IsNamed_example =
    mdns_recv-IsNamed 50 their_addr response 35 (table_of probe_sent) renamed_step recv_response
      table_of-IsNamed

-- the two hosts' probes
compare_host_answer-host_answer_example :
    (c d : ℤ) × (mdns_compare_host_answer
        (0 ∷ host_answer (host active our_addr))
        1
        (host active their_addr)
      ≡ some c)
    × (mdns_compare_host_answer (host_answer (host active their_addr)) 0 (host active our_addr)
        ≡ some d)
    × (d ≡ flipped c)
    × (is_nonzero c ≡ true)
compare_host_answer-host_answer_example =
    compare_host_answer-host_answer (0 ∷ host_answer (host active our_addr))
      (host_answer (host active their_addr)) 1 0 (host active our_addr) (host active their_addr) []
      [] refl refl

abbrev our_service : Entry
our_service = record (host active our_addr) {
  entry_type = srv_entry;
  txt_record = 118 ∷ 61 ∷ 49 ∷ [];
  srv_port = 80;
}

service_conflict_own_answers_example :
    (mdns_answer_conflict (srv_answer (x_text ++ 46 ∷ local) our_service) 0 our_service ≡ some true)
    × (mdns_answer_conflict (txt_answer our_service) 0 our_service ≡ some true)
service_conflict_own_answers_example =
    service_conflict_own_answers (srv_answer (x_text ++ 46 ∷ local) our_service)
      (txt_answer our_service) 0 0 120 (46 ∷ local) (x_text ++ 46 ∷ local) our_service [] [] refl
      refl (omega arith) (omega arith) (omega arith)
      (sym (append-nil (srv_answer (x_text ++ 46 ∷ local) our_service)))
      (sym (append-nil (txt_answer our_service)))
