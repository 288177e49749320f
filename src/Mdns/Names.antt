-- ===== src/Mdns/Names.antt =====
-- What a received packet does to the names.
use sc_xtcp.Base.{
  All, Bool, Bool-cases, List, Option, [], arith, drop, false, if◌then◌else◌, inl, inr, ltb, map,
  none, not, refl, some, sym, true, ℕ, ◌&&◌, ◌==◌, ◌>>=◌, ◌||◌, ◌∙◌, ◌∷◌, ◌≡◌, ◌≤◌, ◌⊎◌,
}
use Prim.{Unit, tt}
use sc_xtcp.Mdns.{Entry, is_disabled, is_used, nothing_pending, unused}
use sc_xtcp.Mdns.Text.{update_name}
use sc_xtcp.Mdns.Recv.{
  answered, auth_round, back_to_probing, conflicted, each_entry, idle, is_probing, renamed,
  response_round, tie_lost,
}
use sc_xtcp.Mdns.Table.{Step}
use sc_xtcp.Mdns.Answer.{answer_ttl, loses_tie_break, mdns_answer_conflict}
use sc_xtcp.Mdns.Parse.{mdns_compare_name}

-- An entry in use has the name that `update_name` makes of its parts and its counter.
abbrev pub IsNamed : Entry → Type 0
IsNamed e = (e.state ≡ unused) ⊎ (e.name ≡ (update_name e).name)

-- What an entry, and the table, may become, with the bit for a lost name.
pub record EntryKept (lost : Bool) (e f : Entry) : Type 0 where
  pub entry_named : IsNamed e → IsNamed f
  pub entry_told : (lost ≡ true) ⊎ (f.name ≡ e.name)

pub record TableKept (lost : Bool) (table after : List Entry) : Type 0 where
  pub table_named : All IsNamed table → All IsNamed after
  pub table_told : (lost ≡ true) ⊎ (map (λ e. e.name) after ≡ map (λ e. e.name) table)

pub TableKept-nil : TableKept false [] []
TableKept-nil = record { table_named = λ h. h; table_told = inr refl }

pub TableKept-cons :
    (b c : Bool) (e f : Entry) (es fs : List Entry)
    → EntryKept b e f
    → TableKept c es fs
    → TableKept (b || c) (e ∷ es) (f ∷ fs)
TableKept-cons b c e f es fs k ks = record {
  table_named = λ h. (k.entry_named h.0, ks.table_named h.1);
  table_told = told b c k.entry_told ks.table_told;
}
  where
    told :
        (b c : Bool)
        → (b ≡ true) ⊎ (f.name ≡ e.name)
        → (c ≡ true) ⊎ (map (λ x. x.name) fs ≡ map (λ x. x.name) es)
        → (b || c ≡ true) ⊎ (map (λ x. x.name) (f ∷ fs) ≡ map (λ x. x.name) (e ∷ es))
    told true c k ks = inl refl
    told false true k ks = inl refl
    told false false (inl k) ks = cc
    told false false (inr k) (inl m) = cc
    told false false (inr k) (inr m) = inr (rw (k, m) refl)

pub TableKept-then :
    (b c : Bool) (es fs gs : List Entry)
    → TableKept b es fs
    → TableKept c fs gs
    → TableKept (b || c) es gs
TableKept-then b c es fs gs k m = record {
  table_named = λ h. m.table_named (k.table_named h);
  table_told = told b c k.table_told m.table_told;
}
  where
    told :
        (b c : Bool)
        → (b ≡ true) ⊎ (map (λ x. x.name) fs ≡ map (λ x. x.name) es)
        → (c ≡ true) ⊎ (map (λ x. x.name) gs ≡ map (λ x. x.name) fs)
        → (b || c ≡ true) ⊎ (map (λ x. x.name) gs ≡ map (λ x. x.name) es)
    told true c k ks = inl refl
    told false true k ks = inl refl
    told false false (inl k) ks = cc
    told false false (inr k) (inl m) = cc
    told false false (inr k) (inr m) = inr (m ∙ k)

-- the result, if there is one, has the property
abbrev pub OnResult {ℓ κ} : {A : Type ℓ} → (A → Type κ) → Option A → Type κ
OnResult P none = Unit {κ}
OnResult P (some a) = P a

abbrev pub EntryStep : Entry → Step Entry → Type 0
EntryStep e s = EntryKept s.event.entry_lost e s.after

abbrev pub TableStep : List Entry → Step (List Entry) → Type 0
TableStep table s = TableKept s.event.entry_lost table s.after

pub on_bind {ℓ κ ρ} :
    {A B : Type ℓ} (P : A → Type κ) (Q : B → Type ρ) (o : Option A) (f : A → Option B)
    → OnResult P o
    → ((a : A) → P a → OnResult Q (f a))
    → OnResult Q (o >>= f)
on_bind P Q none f h step = tt
on_bind P Q (some a) f h step = step a h

pub on_if {ℓ κ} :
    {A : Type ℓ} (P : A → Type κ) (b : Bool) (x y : Option A)
    → (b ≡ true → OnResult P x)
    → (b ≡ false → OnResult P y)
    → OnResult P (if b then x else y)
on_if P true x y h k = h refl
on_if P false x y h k = k refl

-- Whatever the result.
pub on_any {ℓ} : {A : Type ℓ} (o : Option A) → OnResult (λ a. 0 ≤ 0) o
on_any none = tt
on_any (some a) = omega arith

pub kept_parts :
    (e f : Entry)
    → f.state ≡ e.state
    → f.name ≡ e.name
    → (update_name f).name ≡ (update_name e).name
    → EntryKept false e f
kept_parts e f a b c = record { entry_named = named; entry_told = inr b }
  where
    named : IsNamed e → IsNamed f
    named (inl u) = inl (a ∙ u)
    named (inr n) = inr (b ∙ (n ∙ sym c))

kept_back : (e : Entry) → is_used e.state ≡ true → EntryKept false e (back_to_probing e)
unfolding update_name
kept_back e used = record { entry_named = named; entry_told = inr refl }
  where
    named : IsNamed e → IsNamed (back_to_probing e)
    named (inl u) = absurd (ground (arith, used, u))
    named (inr n) = inr n

kept_renamed : (e : Entry) → EntryKept true e (back_to_probing (renamed e))
unfolding update_name
kept_renamed e = record { entry_named = λ h. inr refl; entry_told = inl refl }

conflicted_kept : (e : Entry) → is_used e.state ≡ true → EntryStep e (conflicted e)
unfolding conflicted
conflicted_kept e used = elim (Bool-cases (is_probing e.state)) [
  | inl p ↦ rw p (kept_renamed e)
  | inr p ↦ rw p (kept_back e used)
]

answered_kept :
    (msg : List ℕ) (ans : ℕ) (e : Entry)
    → is_used e.state ≡ true
    → OnResult (EntryStep e) (answered msg ans e)
unfolding answered update_name
answered_kept msg ans e used =
    on_bind (λ c. 0 ≤ 0) (EntryStep e) (mdns_answer_conflict msg ans e) _ (on_any _)
      (λ conflict _.
        on_if (EntryStep e) conflict _ _ (λ _. conflicted_kept e used)
          (λ _.
            on_bind (λ c. 0 ≤ 0) (EntryStep e) (answer_ttl msg ans) _ (on_any _)
              (λ ttl _. elim (Bool-cases (ltb 127 ttl)) [
                | inl b ↦
                    rw b (kept_parts e (record e { pending = nothing_pending }) refl refl refl)
                | inr b ↦ rw b (kept_parts e e refl refl refl)
              ])))

pub response_round_kept :
    (msg : List ℕ) (query_name ans : ℕ) (e : Entry)
    → OnResult (EntryStep e) (response_round msg query_name ans e)
unfolding response_round
response_round_kept msg query_name ans e =
    on_if (EntryStep e) (is_used e.state && not (is_disabled e.state)) _ _
      (λ used.
        on_bind (λ c. 0 ≤ 0) (EntryStep e) (mdns_compare_name e.name (drop query_name msg) msg) _
          (on_any _)
          (λ c _.
            on_if (EntryStep e) (c == 0) _ _ (λ _. answered_kept msg ans e (ground (arith, used)))
              (λ _. kept_parts e e refl refl refl)))
      (λ _. kept_parts e e refl refl refl)

pub auth_round_kept :
    (fuel : ℕ) (msg : List ℕ) (eom auth n : ℕ) (e : Entry)
    → OnResult (EntryStep e) (auth_round fuel msg eom auth n e)
unfolding auth_round tie_lost
auth_round_kept fuel msg eom auth n e =
    on_if (EntryStep e) (is_probing e.state) _ _
      (λ _.
        on_bind (λ c. 0 ≤ 0) (EntryStep e) (loses_tie_break fuel msg eom e auth n) _ (on_any _)
          (λ loses _. elim loses as (λ b. EntryStep e (if b then tie_lost e else idle e)) [
            | true ↦ kept_renamed e
            | false ↦ kept_parts e e refl refl refl
          ]))
      (λ _. kept_parts e e refl refl refl)

pub each_entry_kept :
    (f : Entry → Option (Step Entry)) (table : List Entry)
    → ((e : Entry) → OnResult (EntryStep e) (f e))
    → OnResult (TableStep table) (each_entry f table)
unfolding each_entry
each_entry_kept f [] h = TableKept-nil
each_entry_kept f (e ∷ es) h =
    let rest = each_entry_kept f es h in
    on_bind (EntryStep e) (TableStep (e ∷ es)) (f e) _ (h e) (λ s k.
      on_bind (TableStep es) (TableStep (e ∷ es)) (each_entry f es) _ rest
        (λ r m. TableKept-cons s.event.entry_lost r.event.entry_lost e s.after es r.after k m))
