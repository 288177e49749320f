-- ===== src/Mdns/Received.antt =====
-- What `mdns_recv` does to the names of the table.
use sc_xtcp.Base.{
  All, Bool, Bool-cases, List, Option, [], arith, drop, false, if◌then◌else◌, inl, inr, map, none,
  not, on_some, refl, some, suc, true, zero, ℕ, ◌&&◌, ◌+◌, ◌==◌, ◌>>=◌, ◌||◌, ◌∷◌, ◌≡◌, ◌≤◌, ◌⊎◌,
}
use sc_xtcp.Base.Net.{IpAddr, ip_eq}
use mathlib.Core.Path.{subst}
use sc_xtcp.Mdns.{Entry, is_active, is_srv}
use sc_xtcp.Mdns.Names.{
  EntryStep, IsNamed, OnResult, TableKept, TableStep, auth_round_kept, each_entry_kept, kept_parts,
  on_any, on_bind, on_if, response_round_kept, TableKept-cons, TableKept-nil, TableKept-then,
}
use sc_xtcp.Mdns.Text.{update_name}
use sc_xtcp.Mdns.Recv.{
  answers, asks, auth_round, each_entry, first_entry, handle_mdns_auth, handle_mdns_ptr_query,
  handle_mdns_response, idle, in_front, mdns_recv, named_query, ptr_query_entry, query_entry,
  question, questions, with_ptr,
}
use sc_xtcp.Mdns.Table.{Step}
use sc_xtcp.Mdns.Parse.{mdns_compare_name, mdns_parse_name, mdns_parse_rev_ip}
use sc_xtcp.Mdns.Answer.{answer_len, answer_size, read16}
use sc_xtcp.Mdns.Records.{header_size}

-- a step on an entry that is treated, or none
abbrev FoundStep : Entry → Option (Step Entry) → Type 0
FoundStep e none = 0 ≤ 0
FoundStep e (some s) = EntryStep e s

table_same : (es : List Entry) → TableKept false es es
table_same es = record { table_named = λ h. h; table_told = inr refl }

first_entry_kept :
    (f : Entry → Option (Option (Step Entry))) (table : List Entry)
    → ((e : Entry) → OnResult (FoundStep e) (f e))
    → OnResult (TableStep table) (first_entry f table)
unfolding first_entry
first_entry_kept f [] h = TableKept-nil
first_entry_kept f (e ∷ es) h =
    let rest = first_entry_kept f es h in
    on_bind (FoundStep e) (TableStep (e ∷ es)) (f e) _ (h e) (λ a k.
      elim a
          as (λ o.
            FoundStep e o
            → OnResult (TableStep (e ∷ es)) (
                on_some o (first_entry f es >>= λ r. some (in_front (idle e) r))
                  (λ s. some (in_front s (idle es))))) [
                    | none ↦ λ _.
                        on_bind (TableStep es) (TableStep (e ∷ es)) (first_entry f es) _ rest
                          (λ r m.
                            TableKept-cons false r.event.entry_lost e e es r.after
                              (kept_parts e e refl refl refl) m)
                    | some s ↦ λ step.
                        TableKept-cons s.event.entry_lost false e s.after es es step (table_same es)
                  ]
        k)

ptr_query_entry_kept :
    (junk : IpAddr) (msg : List ℕ) (query_name : ℕ) (e : Entry)
    → OnResult (FoundStep e) (ptr_query_entry junk msg query_name e)
unfolding ptr_query_entry update_name
ptr_query_entry_kept junk msg query_name e =
    on_if (FoundStep e) (not (is_active e.state)) _ _ (λ _. omega arith)
      (λ _.
        on_if (FoundStep e) (is_srv e.entry_type) _ _
          (λ _.
            on_bind (λ c. 0 ≤ 0) (FoundStep e)
              (mdns_compare_name e.name_postfix (drop query_name msg) msg) _ (on_any _)
              (λ c _. asked (c == 0)))
          (λ _.
            on_bind (λ c. 0 ≤ 0) (FoundStep e) (mdns_parse_rev_ip (drop query_name msg) junk msg) _
              (on_any _) (λ r _. asked (r.0 && ip_eq r.1 e.ipaddr))))
  where
    asked : (b : Bool) → FoundStep e (if b then some (asks (with_ptr e)) else none)
    asked true = kept_parts e (with_ptr e) refl refl refl
    asked false = omega arith

named_query_kept :
    (msg : List ℕ) (dptr qtype : ℕ) (e : Entry)
    → OnResult (FoundStep e) (named_query msg dptr qtype e)
unfolding named_query query_entry update_name
named_query_kept msg dptr qtype e =
    on_if (FoundStep e) (is_active e.state) _ _
      (λ _.
        on_bind (λ c. 0 ≤ 0) (FoundStep e) (mdns_compare_name e.name (drop dptr msg) msg) _
          (on_any _)
          (λ c _. elim (Bool-cases (c == 0)) [ inl z ↦ rw z asked | inr z ↦ rw z (omega arith) ]))
      (λ _. omega arith)
  where
    asked : EntryStep e (query_entry qtype e)
    asked = elim (Bool-cases (is_srv e.entry_type)) [
      | inl s ↦ rw s (kept_parts e _ refl refl refl)
      | inr s ↦ elim (Bool-cases (qtype == 1 || qtype == 255)) [
        | inl q ↦ rw (s, q) (kept_parts e _ refl refl refl)
        | inr q ↦ rw (s, q) (kept_parts e e refl refl refl)
      ]
    ]

question_kept :
    (junk : IpAddr) (msg : List ℕ) (dptr qclass qtype : ℕ) (table : List Entry)
    → OnResult (TableStep table) (question junk msg dptr qclass qtype table)
unfolding question handle_mdns_ptr_query
question_kept junk msg dptr qclass qtype table =
    on_if (TableStep table) (qclass == 1) _ _
      (λ _.
        on_if (TableStep table) (qtype == 12) _ _
          (λ _. first_entry_kept _ table (ptr_query_entry_kept junk msg dptr))
          (λ _. first_entry_kept _ table (named_query_kept msg dptr qtype)))
      (λ _. table_same table)

on_null {ℓ κ} :
    {A B : Type ℓ} (P : B → Type κ) (p : Option A) (x : Option B) (f : A → Option B)
    → OnResult P x
    → ((a : A) → OnResult P (f a))
    → OnResult P (on_some p x f)
on_null P none x f h k = h
on_null P (some a) x f h k = k a

abbrev LoopStep : List Entry → ℕ × Step (List Entry) → Type 0
LoopStep table r = TableStep table r.1

questions_kept :
    (fuel : ℕ) (junk : IpAddr) (msg : List ℕ) (eom n dptr : ℕ) (table : List Entry)
    → OnResult (LoopStep table) (questions fuel junk msg eom n dptr table)
unfolding questions
questions_kept fuel junk msg eom zero dptr table = table_same table
questions_kept fuel junk msg eom (suc n) dptr table =
    on_bind (λ p. 0 ≤ 0) (LoopStep table) (mdns_parse_name fuel msg dptr eom) _ (on_any _)
      (λ parsed _.
        on_null (LoopStep table) parsed (some (dptr, idle table)) _ (table_same table) (λ qry.
          on_bind (λ c. 0 ≤ 0) (LoopStep table) (read16 msg (qry + 2)) _ (on_any _)
            (λ qclass _.
              on_bind (λ c. 0 ≤ 0) (LoopStep table) (read16 msg qry) _ (on_any _)
                (λ qtype _.
                  on_bind (TableStep table) (LoopStep table)
                    (question junk msg dptr qclass qtype table) _
                    (question_kept junk msg dptr qclass qtype table)
                    (λ s k.
                      on_bind (LoopStep s.after) (LoopStep table)
                        (questions fuel junk msg eom n (qry + 4) s.after) _
                        (questions_kept fuel junk msg eom n (qry + 4) s.after)
                        (λ r m.
                          TableKept-then s.event.entry_lost r.1.event.entry_lost table s.after
                            r.1.after k m))))))

answers_kept :
    (fuel : ℕ) (msg : List ℕ) (eom n dptr : ℕ) (table : List Entry)
    → OnResult (LoopStep table) (answers fuel msg eom n dptr table)
unfolding answers handle_mdns_response
answers_kept fuel msg eom zero dptr table = table_same table
answers_kept fuel msg eom (suc n) dptr table =
    on_bind (λ p. 0 ≤ 0) (LoopStep table) (mdns_parse_name fuel msg dptr eom) _ (on_any _)
      (λ parsed _.
        on_null (LoopStep table) parsed (some (dptr, idle table)) _ (table_same table) (λ ans.
          on_bind (TableStep table) (LoopStep table) (handle_mdns_response msg dptr ans table) _
            (each_entry_kept _ table (response_round_kept msg dptr ans))
            (λ s k.
              on_bind (λ c. 0 ≤ 0) (LoopStep table) (answer_len msg ans) _ (on_any _)
                (λ len _.
                  on_bind (LoopStep s.after) (LoopStep table)
                    (answers fuel msg eom n (ans + answer_size + len) s.after) _
                    (answers_kept fuel msg eom n (ans + answer_size + len) s.after)
                    (λ r m.
                      TableKept-then s.event.entry_lost r.1.event.entry_lost table s.after r.1.after
                        k m)))))

recv_kept :
    (fuel : ℕ) (junk : IpAddr) (msg : List ℕ) (len : ℕ) (table : List Entry)
    → OnResult (TableStep table) (mdns_recv fuel junk msg len table)
unfolding mdns_recv handle_mdns_auth
recv_kept fuel junk msg len table =
    on_bind (λ c. 0 ≤ 0) (TableStep table) (read16 msg 4) _ (on_any _)
      (λ nquestions _.
        on_bind (λ c. 0 ≤ 0) (TableStep table) (read16 msg 6) _ (on_any _)
          (λ nanswers _.
            on_bind (λ c. 0 ≤ 0) (TableStep table) (read16 msg 8) _ (on_any _)
              (λ nauth _.
                on_bind (LoopStep table) (TableStep table)
                  (questions fuel junk msg len nquestions header_size table) _
                  (questions_kept fuel junk msg len nquestions header_size table)
                  (λ q k.
                    on_bind (LoopStep q.1.after) (TableStep table)
                      (answers fuel msg len nanswers q.0 q.1.after) _
                      (answers_kept fuel msg len nanswers q.0 q.1.after)
                      (λ a m.
                        on_bind (TableStep a.1.after) (TableStep table)
                          (each_entry (auth_round fuel msg len a.0 nauth) a.1.after) _
                          (each_entry_kept _ a.1.after (auth_round_kept fuel msg len a.0 nauth))
                          (λ s o.
                            TableKept-then q.1.event.entry_lost
                              (a.1.event.entry_lost || s.event.entry_lost) table q.1.after s.after k
                              (TableKept-then a.1.event.entry_lost s.event.entry_lost q.1.after
                                a.1.after s.after m o)))))))

-- After a received packet, if it makes no fault, every entry in use still has the name that
-- `update_name` makes of its parts and its counter; and unless the result tells the client that a name
-- was lost, the entries have the names that they had.
pub mdns_recv-IsNamed :
    (fuel : ℕ) (junk : IpAddr) (msg : List ℕ) (len : ℕ) (table : List Entry) (s : Step (List Entry))
    → mdns_recv fuel junk msg len table ≡ some s
    → All IsNamed table
    → All IsNamed s.after
      × ((s.event.entry_lost ≡ true) ⊎ (map (λ e. e.name) s.after ≡ map (λ e. e.name) table))
mdns_recv-IsNamed fuel junk msg len table s ran named =
    let kept : TableStep table s =
      subst (OnResult (TableStep table)) ran (recv_kept fuel junk msg len table) in
    (kept.table_named named, kept.table_told)
