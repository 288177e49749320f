-- ===== src/Server/Guid.antt =====
-- The search for a connection id that no other connection has (`guid` of uip_xtcp.c), and that the
-- unbounded loop of the source ends.
use sc_xtcp.Base.{
  Bool, Bool-cases, List, Option, [], ap, arith, false, if◌then◌else◌, inl, inr, leb, length,
  length-append, ltb, none, refl, some, suc, sym, true, zero, ℕ, ◌++◌, ◌+◌, ◌-◌, ◌<◌, ◌==◌, ◌||◌,
  ◌∙◌, ◌∷◌, ◌≡◌, ◌≢◌, ◌≤◌, ◌⊎◌,
}
use sc_xtcp.Server.{Server, Slot}
use sc_xtcp.Server.Table.{lookup_from, lookup_state}

-- MAX_GUID
abbrev pub max_guid : ℕ
max_guid = 200

-- `guid++; if (guid > MAX_GUID) guid = 1;`
abbrev pub next_guid : ℕ → ℕ
next_guid g = if ltb max_guid (g + 1) then 1 else g + 1

-- `while (lookup_xtcpd_state(guid) != NULL) { … }` with fuel; `none` is fuel that ran out.
unfoldable pub find_guid : ℕ → (ℕ → Bool) → ℕ → Option ℕ
find_guid zero taken g = none
find_guid (suc fuel) taken g =
    let rest = find_guid fuel taken (next_guid g) in if taken g then rest else some g

abbrev pub elem : ℕ → List ℕ → Bool
elem g [] = false
elem g (x ∷ xs) = x == g || elem g xs

-- how many of 1, …, n are in the list
hits : ℕ → List ℕ → ℕ
hits zero l = 0
hits (suc n) l = (if elem (suc n) l then 1 else 0) + hits n l

hits-nil : (n : ℕ) → hits n [] ≡ 0
unfolding hits
hits-nil zero = refl
hits-nil (suc n) = omega (arith, hits-nil n)

hits-cons : (n x : ℕ) (l : List ℕ) → hits n (x ∷ l) ≤ (if leb x n then 1 else 0) + hits n l
unfolding hits
hits-cons zero x l = ground arith
hits-cons (suc n) x l = ground (arith, hits-cons n x l)

hits-le : (n : ℕ) (l : List ℕ) → hits n l ≤ length l
hits-le n [] = omega (arith, hits-nil n)
hits-le n (x ∷ l) = ground (arith, hits-cons n x l, hits-le n l)

free_or_full :
    (n : ℕ) (l : List ℕ) → ((g : ℕ) × (1 ≤ g) × (g ≤ n) × (elem g l ≡ false)) ⊎ (hits n l ≡ n)
unfolding hits
free_or_full zero l = inr refl
free_or_full (suc n) l = elim (Bool-cases (elem (suc n) l)) [
  | inr e ↦ inl (suc n, omega arith, omega arith, e)
  | inl e ↦ elim (free_or_full n l) [
    | inl (g, low, high, free) ↦ inl (g, low, omega arith, free)
    | inr full ↦ inr (rw e (omega (arith, full)))
  ]
]

-- Among more numbers than the list is long, one is not in it.
free_exists : (n : ℕ) (l : List ℕ) → length l < n → (g : ℕ) × (1 ≤ g) × (g ≤ n) × (elem g l ≡ false)
free_exists n l h = elim (free_or_full n l) [
  | inl found ↦ found
  | inr full ↦ absurd (omega (arith, hits-le n l))
]

-- the rounds from `g` to `f`
abbrev distance : ℕ → ℕ → ℕ
distance g f = if leb g f then f - g else f + max_guid - g

-- With a free id in reach the search ends at a free id.
find_guid_reaches :
    (fuel : ℕ) (taken : ℕ → Bool) (g f : ℕ)
    → (1 ≤ g) × (g ≤ max_guid)
    → (1 ≤ f) × (f ≤ max_guid)
    → taken f ≡ false
    → distance g f < fuel
    → (r : ℕ) × (find_guid fuel taken g ≡ some r) × (taken r ≡ false) × (1 ≤ r) × (r ≤ max_guid)
unfolding find_guid
find_guid_reaches zero taken g f hg hf free h = absurd (omega arith)
find_guid_reaches (suc fuel) taken g f hg hf free h = elim (Bool-cases (taken g)) [
  | inr e ↦ (g, rw e, e, hg.0, hg.1)
  | inl e ↦
      let apart : g ≢ f = λ p. cc in
      let near : distance (next_guid g) f < fuel = ground arith in
      rw e (find_guid_reaches fuel taken (next_guid g) f (ground arith) hf free near)
]

-- the ids of a table
abbrev pub ids : List Slot → List ℕ
ids [] = []
ids (v ∷ vs) = v.app.id ∷ ids vs

length-ids : (vs : List Slot) → length (ids vs) ≡ length vs
length-ids [] = refl
length-ids (v ∷ vs) = ap suc (length-ids vs)

elem-append : (g : ℕ) (xs ys : List ℕ) → elem g (xs ++ ys) ≡ (elem g xs || elem g ys)
elem-append g [] ys = refl
elem-append g (x ∷ xs) ys = ground (arith, elem-append g xs ys)

abbrev pub is_some {ℓ} : {A : Type ℓ} → Option A → Bool
is_some none = false
is_some (some a) = true

-- The search by id finds a connection exactly where some slot has the id.
pub is_some-lookup_from :
    (g i : ℕ) (ts us : List Slot)
    → is_some (lookup_from g i ts us) ≡ (elem g (ids ts) || elem g (ids us))
unfolding lookup_from
is_some-lookup_from g i [] [] = refl
is_some-lookup_from g i (t ∷ ts) [] = ground (arith, is_some-lookup_from g (i + 1) ts [])
is_some-lookup_from g i [] (u ∷ us) = ground (arith, is_some-lookup_from g (i + 1) [] us)
is_some-lookup_from g i (t ∷ ts) (u ∷ us) = ground (arith, is_some-lookup_from g (i + 1) ts us)

none_of_is_some {ℓ} : {A : Type ℓ} (o : Option A) → is_some o ≡ false → o ≡ none
none_of_is_some none h = refl
none_of_is_some (some a) h = cc

distance_lt :
    (g f : ℕ) → (1 ≤ g) × (g ≤ max_guid) → (1 ≤ f) × (f ≤ max_guid) → distance g f < max_guid
distance_lt g f hg hf = ground arith

free_id :
    (s : Server)
    → length s.tcps + length s.udps < max_guid
    → (f : ℕ) × ((1 ≤ f) × (f ≤ max_guid)) × (is_some (lookup_state s f) ≡ false)
unfolding lookup_state
free_id s small =
    let fits : length (ids s.tcps ++ ids s.udps) < max_guid =
      omega
        (arith, length-append (ids s.tcps) (ids s.udps), length-ids s.tcps, length-ids s.udps) in
    let (f, low, high, free) = free_exists max_guid (ids s.tcps ++ ids s.udps) fits in
    (
      f,
      (low, high),
      is_some-lookup_from f 0 s.tcps s.udps ∙ sym (elem-append f (ids s.tcps) (ids s.udps)) ∙ free,
    )

-- Where there are fewer connections than ids, a free id is found in as many rounds as there are ids.
pub find_guid_total :
    (s : Server) (g : ℕ)
    → (1 ≤ g) × (g ≤ max_guid)
    → length s.tcps + length s.udps < max_guid
    → (r : ℕ) × (find_guid max_guid (λ k. is_some (lookup_state s k)) g ≡ some r)
      × (lookup_state s r ≡ none)
      × (1 ≤ r)
      × (r ≤ max_guid)
find_guid_total s g hg small =
    let (f, range, unused) = free_id s small in
    let (r, found, fresh, low, high) =
      find_guid_reaches max_guid (λ k. is_some (lookup_state s k)) g f hg range unused
        (distance_lt g f hg range) in
    (r, found, none_of_is_some (lookup_state s r) fresh, low, high)
