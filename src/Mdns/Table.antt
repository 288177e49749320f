-- ===== src/Mdns/Table.antt =====
-- mdns.c: the table of the names, the periodic step and the handler of the events.
use sc_xtcp.Base.{
  Bool, List, [], false, if◌then◌else◌, leb, length, ltb, map, not, suc, true, zero, ℕ, ◌&&◌, ◌++◌,
  ◌+◌, ◌-◌, ◌==◌, ◌^◌, ◌∷◌,
}
use sc_xtcp.Base.Net.{IpAddr}
use sc_xtcp.Base.Words.{u32}
use sc_xtcp.Mdns.{
  Call, Entry, EntryType, Mdns, MdnsEvent, active, announce_sent, announce_wait, both_events,
  canonical_name_entry, disabled, is_srv, is_used, mdns_addr, mdns_server_port, name_entry,
  no_event, nothing_pending, probe_sent, probe_wait, srv_entry, unused, xtcp_connect,
  xtcp_init_send, xtcp_join_multicast_group,
}
use sc_xtcp.Mdns.Text.{update_name}

-- MDNS_NUM_TABLE_ENTRIES
abbrev pub num_table_entries : ℕ
num_table_entries = 5

-- `timeafter`, on unsigned numbers of 32 bits
abbrev pub timeafter : ℕ → ℕ → Bool
timeafter a b = leb (2 ^ 31) (u32 (b + (2 ^ 32 - a)))

-- `mdns_init`
unfoldable pub mdns_init : Mdns → Mdns × List Call
mdns_init m = (
  record m { table = map {A = Entry} (λ e. record e { state = unused }) m.table },
  xtcp_connect mdns_server_port mdns_addr ∷ [],
)

abbrev pub start_entry : Entry → Entry
start_entry e = if is_used e.state then record e { state = probe_wait; num_sent = 0 } else e

abbrev pub send_request : Bool → List Call
send_request true = xtcp_init_send ∷ []
send_request false = []

-- The loop of `mdns_start_entries`: the table and the calls.
unfoldable pub start_entries : List Entry → List Entry × List Call
start_entries [] = ([], [])
start_entries (e ∷ es) =
    let rest = start_entries es in
    (start_entry e ∷ rest.0, send_request (is_used e.state) ++ rest.1)

-- `mdns_start_entries`
unfoldable pub mdns_start_entries : Mdns → Mdns × List Call
mdns_start_entries m =
    let started = start_entries m.table in
    (record { table = started.0; mdns_started = 2 }, started.1)

-- `mdns_start`
unfoldable pub mdns_start : IpAddr → Mdns → Mdns × List Call
mdns_start ipaddr m = (
  record { table = map {A = Entry} (λ e. record e { ipaddr = ipaddr }) m.table; mdns_started = 1 },
  xtcp_join_multicast_group mdns_addr ∷ [],
)

-- What a step does: the entry or the entries, the calls and the result.
pub record Step {ℓ} (A : Type ℓ) : Type ℓ where
  pub after : A
  pub step_calls : List Call
  pub event : MdnsEvent

-- The switch of `mdns_periodic` on an entry's state, at the time `t`.
unfoldable pub periodic_entry : ℕ → Entry → Step Entry
periodic_entry t e =
    let stays : Step Entry = record { after = e; step_calls = []; event = no_event } in
    elim e.state [
      | probe_sent ↦
          if timeafter t e.timeout
          then record {
            after =
                if ltb e.num_sent 3
                then record e { state = probe_wait }
                else record e { state = announce_wait; num_sent = 0 };
            step_calls = xtcp_init_send ∷ [];
            event = no_event;
          }
          else stays
      | announce_sent ↦
          if timeafter t e.timeout
          then (if ltb e.num_sent 3
              then record {
                after = record e { state = announce_wait };
                step_calls = xtcp_init_send ∷ [];
                event = no_event;
              }
              else record {
                after = record e { state = active };
                step_calls = [];
                event = record no_event { entry_active = true };
              })
          else stays
      | _ ↦ stays
    ]

unfoldable pub periodic_entries : ℕ → List Entry → Step (List Entry)
periodic_entries t [] = record { after = []; step_calls = []; event = no_event }
periodic_entries t (e ∷ es) =
    let first = periodic_entry t e in
    let rest = periodic_entries t es in
    record {
      after = first.after ∷ rest.after;
      step_calls = first.step_calls ++ rest.step_calls;
      event = both_events first.event rest.event;
    }

-- `mdns_periodic`
unfoldable pub mdns_periodic : ℕ → Mdns → Step Mdns
mdns_periodic t m =
    let begun = if m.mdns_started == 1 then mdns_start_entries m else (m, []) in
    let s = periodic_entries t begun.0.table in
    record {
      after = record begun.0 { table = s.after };
      step_calls = begun.1 ++ s.step_calls;
      event = s.event;
    }

-- `strcmp(a, b) == 0`
abbrev pub text_eq : List ℕ → List ℕ → Bool
text_eq [] [] = true
text_eq [] (d ∷ ds) = false
text_eq (c ∷ cs) [] = false
text_eq (c ∷ cs) (d ∷ ds) = c == d && text_eq cs ds

-- the first position at which the test holds, or the number of the entries
abbrev pub find_entry : (Entry → Bool) → List Entry → ℕ
find_entry p [] = 0
find_entry p (e ∷ es) = if p e then 0 else find_entry p es + 1

-- ".local"
abbrev pub dot_local : List ℕ
dot_local = 46 ∷ 108 ∷ 111 ∷ 99 ∷ 97 ∷ 108 ∷ []

-- "local"
abbrev pub local_text : List ℕ
local_text = 108 ∷ 111 ∷ 99 ∷ 97 ∷ 108 ∷ []

-- The assignments of `mdns_add_entry` to the entry.
unfoldable pub filled_entry : List ℕ → List ℕ → List ℕ → ℕ → EntryType → Entry → Entry
filled_entry name_prefix name_postfix txt srv_port entry_type e =
    record (update_name (record e {
      entry_type = entry_type;
      state = disabled;
      pending = nothing_pending;
      name_prefix = name_prefix;
      name_postfix = if is_srv entry_type then name_postfix ++ dot_local else name_postfix;
      txt_record = if is_srv entry_type then txt else e.txt_record;
      counter = 0;
    })) { srv_port = srv_port }

-- the entry that `mdns_add_entry` takes, or the number of the entries
unfoldable pub entry_place : List ℕ → List ℕ → List Entry → ℕ
entry_place name_prefix name_postfix table =
    let same =
      find_entry
        (λ e.
          is_used e.state
          && text_eq name_postfix e.name_postfix
          && text_eq name_prefix e.name_prefix)
        table in
    if same == length table then find_entry (λ e. not (is_used e.state)) table else same

abbrev pub change_entry : (Entry → Entry) → ℕ → List Entry → List Entry
change_entry f i [] = []
change_entry f zero (e ∷ es) = f e ∷ es
change_entry f (suc i) (e ∷ es) = e ∷ change_entry f i es

-- `mdns_add_entry`, whose callers all give no address
unfoldable pub mdns_add_entry : List ℕ → List ℕ → List ℕ → ℕ → EntryType → List Entry → List Entry
mdns_add_entry name_prefix name_postfix txt srv_port entry_type table =
    change_entry (filled_entry name_prefix name_postfix txt srv_port entry_type)
      (entry_place name_prefix name_postfix table) table

-- `mdns_register_canonical_name`
unfoldable pub mdns_register_canonical_name : List ℕ → List Entry → List Entry
mdns_register_canonical_name name table =
    mdns_add_entry name local_text [] 0 canonical_name_entry table

-- `mdns_register_name`
unfoldable pub mdns_register_name : List ℕ → List Entry → List Entry
mdns_register_name name table = mdns_add_entry name local_text [] 0 name_entry table

-- `mdns_register_service`
unfoldable pub mdns_register_service : List ℕ → List ℕ → ℕ → List ℕ → List Entry → List Entry
mdns_register_service name srv_type srv_port txt table =
    mdns_add_entry name srv_type txt srv_port srv_entry table
