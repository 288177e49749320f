-- ===== src/Server/Refs.antt =====
-- Laws of the connection tables: reading after a write, and what the search by id finds.
use sc_xtcp.Base.{
  Bool, Bool-cases, List, Option, [], ap, arith, false, get_elem?, if◌then◌else◌, inl, inr, none,
  refl, set, some, suc, true, zero, ℕ, ◌+◌, ◌==◌, ◌↔◌, ◌∙◌, ◌∷◌, ◌≡◌, ◌≢◌, ◌⊎◌,
}
use sc_xtcp.Server.{Ref, Server, Slot, tcp, udp}
use sc_xtcp.Server.Table.{lookup_from, lookup_state, put_slot, slot_at}
use sc_xtcp.Server.Guid.{elem, ids, is_some, is_some-lookup_from}

get_elem?-set {ℓ} :
    {A : Type ℓ} (xs : List A) (i j : ℕ) (v : A)
    → get_elem? (set xs i v) j
      ≡ (if i == j then (if is_some (get_elem? xs j) then some v else none) else get_elem? xs j)
get_elem?-set [] i j v = ground arith
get_elem?-set (x ∷ xs) zero zero v = refl
get_elem?-set (x ∷ xs) zero (suc j) v = ground arith
get_elem?-set (x ∷ xs) (suc i) zero v = ground arith
get_elem?-set (x ∷ xs) (suc i) (suc j) v = get_elem?-set xs i j v ∙ ground arith

abbrev pub ref_eq : Ref → Ref → Bool
ref_eq (tcp i) (tcp j) = i == j
ref_eq (udp i) (udp j) = i == j
ref_eq _ _ = false

pub ref_eq_iff : (r r' : Ref) → (ref_eq r r' ≡ true) ↔ (r ≡ r')
ref_eq_iff (tcp i) (tcp j) = ground arith
ref_eq_iff (udp i) (udp j) = ground arith
ref_eq_iff (tcp i) (udp j) = ground arith
ref_eq_iff (udp i) (tcp j) = ground arith

-- A write to a slot that exists is read back there, and changes no other slot.
pub slot_at-put_slot :
    (s : Server) (r r' : Ref) (v w : Slot)
    → slot_at s r ≡ some w
    → slot_at (put_slot s r v) r' ≡ (if ref_eq r r' then some v else slot_at s r')
slot_at-put_slot s (tcp i) (tcp j) v w h = ground (arith, get_elem?-set s.tcps i j v)
slot_at-put_slot s (udp i) (udp j) v w h = ground (arith, get_elem?-set s.udps i j v)
slot_at-put_slot s (tcp i) (udp j) v w h = refl
slot_at-put_slot s (udp i) (tcp j) v w h = refl

-- The id at a pointer.
abbrev pub id_of : Option Slot → Option ℕ
id_of none = none
id_of (some v) = some v.app.id

abbrev pub id_at : Server → Ref → Option ℕ
id_at s r = id_of (slot_at s r)

-- What a search that started at index `i` found.
abbrev FoundAt : ℕ → ℕ → List Slot → List Slot → Ref → Type 0
FoundAt g i ts us r =
    (j : ℕ) × (((r ≡ tcp (i + j)) × (id_of (get_elem? ts j) ≡ some g))
      ⊎ ((r ≡ udp (i + j)) × (id_of (get_elem? us j) ≡ some g)))

-- The same one step later.
FoundAt-later :
    (g i : ℕ) (t u : Slot) (ts us : List Slot) (r : Ref)
    → FoundAt g (i + 1) ts us r
    → FoundAt g i (t ∷ ts) (u ∷ us) r
FoundAt-later g i t u ts us r (j, inl h) = (suc j, inl (h.0 ∙ ap tcp (omega arith), h.1))
FoundAt-later g i t u ts us r (j, inr h) = (suc j, inr (h.0 ∙ ap udp (omega arith), h.1))

FoundAt-later_tcp :
    (g i : ℕ) (t : Slot) (ts : List Slot) (r : Ref)
    → FoundAt g (i + 1) ts [] r
    → FoundAt g i (t ∷ ts) [] r
FoundAt-later_tcp g i t ts r (j, inl h) = (suc j, inl (h.0 ∙ ap tcp (omega arith), h.1))
FoundAt-later_tcp g i t ts r (j, inr h) = absurd (ground arith)

FoundAt-later_udp :
    (g i : ℕ) (u : Slot) (us : List Slot) (r : Ref)
    → FoundAt g (i + 1) [] us r
    → FoundAt g i [] (u ∷ us) r
FoundAt-later_udp g i u us r (j, inl h) = absurd (ground arith)
FoundAt-later_udp g i u us r (j, inr h) = (suc j, inr (h.0 ∙ ap udp (omega arith), h.1))

lookup_from-FoundAt :
    (g i : ℕ) (ts us : List Slot) (r : Ref) → lookup_from g i ts us ≡ some r → FoundAt g i ts us r
unfolding lookup_from
lookup_from-FoundAt g i [] [] r h = absurd (ground arith)
lookup_from-FoundAt g i (t ∷ ts) [] r h = elim (Bool-cases (t.app.id == g)) [
  | inl e ↦ (0, inl (ground arith, ground arith))
  | inr e ↦ FoundAt-later_tcp g i t ts r (lookup_from-FoundAt g (i + 1) ts [] r (ground arith))
]
lookup_from-FoundAt g i [] (u ∷ us) r h = elim (Bool-cases (u.app.id == g)) [
  | inl e ↦ (0, inr (ground arith, ground arith))
  | inr e ↦ FoundAt-later_udp g i u us r (lookup_from-FoundAt g (i + 1) [] us r (ground arith))
]
lookup_from-FoundAt g i (t ∷ ts) (u ∷ us) r h = elim (Bool-cases (t.app.id == g)) [
  | inl e ↦ (0, inl (ground arith, ground arith))
  | inr e ↦ elim (Bool-cases (u.app.id == g)) [
    | inl k ↦ (0, inr (ground arith, ground arith))
    | inr k ↦ FoundAt-later g i t u ts us r (lookup_from-FoundAt g (i + 1) ts us r (ground arith))
  ]
]

-- The connection that is found has the id.
pub lookup_sound : (s : Server) (g : ℕ) (r : Ref) → lookup_state s g ≡ some r → id_at s r ≡ some g
unfolding lookup_state
lookup_sound s g r h = named (lookup_from-FoundAt g 0 s.tcps s.udps r h)
  where
    named : FoundAt g 0 s.tcps s.udps r → id_at s r ≡ some g
    named (j, inl k) = let e : 0 + j ≡ j = omega arith in rw (k.0 ∙ ap tcp e) (k.1)
    named (j, inr k) = let e : 0 + j ≡ j = omega arith in rw (k.0 ∙ ap udp e) (k.1)

elem-ids : (g j : ℕ) (vs : List Slot) → id_of (get_elem? vs j) ≡ some g → elem g (ids vs) ≡ true
elem-ids g j [] h = absurd (ground arith)
elem-ids g zero (v ∷ vs) h = ground arith
elem-ids g (suc j) (v ∷ vs) h = ground (arith, elem-ids g j vs h)

-- Where nothing is found, no connection has the id.
pub lookup_complete : (s : Server) (g : ℕ) (r : Ref) → lookup_state s g ≡ none → id_at s r ≢ some g
unfolding lookup_state
lookup_complete s g (tcp j) h k =
    ground (arith, is_some-lookup_from g 0 s.tcps s.udps, elem-ids g j s.tcps k)
lookup_complete s g (udp j) h k =
    ground (arith, is_some-lookup_from g 0 s.tcps s.udps, elem-ids g j s.udps k)
