-- ===== src/Demo/Slots.antt =====
-- Which connection owns which entry of `connection_states`.
use sc_xtcp.Base.{
  Bool-cases, List, Option, [], ap, arith, false, get_elem?, if◌then◌else◌, inl, inr, none, refl,
  set, some, suc, sym, true, zero, ℕ, ◌+◌, ◌==◌, ◌∙◌, ◌∷◌, ◌≡◌, ◌≢◌, ◌⊎◌,
}
use sc_xtcp.Demo.Pool.{ProtocolState, find_free}

-- The connections that are open, each with the application state that was set for it.
abbrev pub Live : Type 0
Live = ℕ → Option (Option ℕ)

abbrev pub put_live : ℕ → Option (Option ℕ) → Live → Live
put_live id v live = λ k. if k == id then v else live k

-- An open connection with an application state has an active entry with its id, and an active entry is
-- the one of the open connection whose id it has.
pub record IsOwned (live : Live) (slots : List ProtocolState) : Type 0 where
  pub owner :
      (id i : ℕ)
      → live id ≡ some (some i)
      → (s : ProtocolState) × (get_elem? slots i ≡ some s) × (s.active ≡ true) × (s.conn_id ≡ id)
  pub owned :
      (i : ℕ) (s : ProtocolState)
      → get_elem? slots i ≡ some s
      → s.active ≡ true
      → live s.conn_id ≡ some (some i)

module _ {A : Type 0} where
  pub get-set-same :
      (xs : List A) (i : ℕ) (s t : A) → get_elem? xs i ≡ some s → get_elem? (set xs i t) i ≡ some t
  get-set-same [] i s t h = absurd cc
  get-set-same (x ∷ xs) zero s t h = refl
  get-set-same (x ∷ xs) (suc i) s t h = get-set-same xs i s t h

  pub get-set-other :
      (xs : List A) (i j : ℕ) (t : A) → i ≢ j → get_elem? (set xs i t) j ≡ get_elem? xs j
  get-set-other [] i j t h = refl
  get-set-other (x ∷ xs) zero zero t h = absurd (h refl)
  get-set-other (x ∷ xs) zero (suc j) t h = refl
  get-set-other (x ∷ xs) (suc i) zero t h = refl
  get-set-other (x ∷ xs) (suc i) (suc j) t h = get-set-other xs i j t (λ e. h (omega (arith, e)))

-- the free place is that of an entry that is not active
pub find_free-inactive :
    (ss : List ProtocolState) (k i : ℕ)
    → find_free ss k ≡ some i
    → (j : ℕ) × (i ≡ k + j) × (s : ProtocolState) × (get_elem? ss j ≡ some s) × (s.active ≡ false)
unfolding find_free
find_free-inactive [] k i h = absurd cc
find_free-inactive (s ∷ ss) k i h = elim (Bool-cases s.active) [
  | inr e ↦ let f : k ≡ i = ground (arith, h, e) in (0, omega (arith, f), s, refl, e)
  | inl e ↦
      let f : find_free ss (k + 1) ≡ some i = ground (arith, h, e) in
      let (j, m, t, g, a) = find_free-inactive ss (k + 1) i f in (suc j, omega (arith, m), t, g, a)
]

-- Two places are the same or not.
pub place-cases : (i j : ℕ) → (i ≡ j) ⊎ (i ≢ j)
place-cases i j = elim (Bool-cases (i == j)) [
  | inl e ↦ inl (ground arith)
  | inr e ↦ inr (ground arith)
]

put_live-same : (id : ℕ) (v : Option (Option ℕ)) (live : Live) → put_live id v live id ≡ v
put_live-same id v live = let e : (id == id) ≡ true = ground arith in rw e refl

put_live-other :
    (id k : ℕ) (v : Option (Option ℕ)) (live : Live) → k ≢ id → put_live id v live k ≡ live k
put_live-other id k v live h = let e : (k == id) ≡ false = ground (arith, h) in rw e refl

pub differ : (s u : ProtocolState) → s ≡ u → s.active ≡ false → u.active ≡ true → ⊥
differ s u e a b = let c : s.active ≡ u.active = ap (λ x. x.active) e in cc

same_id : (s u : ProtocolState) → s ≡ u → u.conn_id ≡ s.conn_id
same_id s u e = sym (ap (λ x. x.conn_id) e)

absent : (v : Option (Option ℕ)) (i : ℕ) → v ≡ none → v ≡ some (some i) → ⊥
absent v i e f = cc

other_place : (v : Option (Option ℕ)) (i j : ℕ) → v ≡ some (some i) → v ≡ some (some j) → i ≡ j
other_place v i j e f = cc

-- A change of an entry that leaves its owner.
pub set-IsOwned :
    (live : Live) (slots : List ProtocolState) (i : ℕ) (s t : ProtocolState)
    → IsOwned live slots
    → get_elem? slots i ≡ some s
    → t.active ≡ s.active
    → t.conn_id ≡ s.conn_id
    → IsOwned live (set slots i t)
set-IsOwned live slots i s t w g a c = record {
  owner = λ id j h.
      let (u, e, b, d) = w.owner id j h in
      elim (place-cases i j) [
        | inl f ↦
            let q : s ≡ u = cc in
            (
              t,
              ap (get_elem? (set slots i t)) (sym f) ∙ get-set-same slots i s t g,
              a ∙ ap (λ x. x.active) q ∙ b,
              c ∙ ap (λ x. x.conn_id) q ∙ d,
            )
        | inr f ↦ (u, get-set-other slots i j t f ∙ e, b, d)
      ];
  owned = λ j u h b. elim (place-cases i j) [
    | inl f ↦
        let k = get-set-same slots i s t g in
        let q : t ≡ u = cc in
        let x : s.active ≡ true = sym a ∙ ap (λ x. x.active) q ∙ b in
        let y : s.conn_id ≡ u.conn_id = sym c ∙ ap (λ x. x.conn_id) q in
        ap live (sym y) ∙ w.owned i s g x ∙ ap (λ x. some (some x)) f
    | inr f ↦ w.owned j u (sym (get-set-other slots i j t f) ∙ h) b
  ];
}

-- A new connection takes a place that is not active.
pub open-IsOwned :
    (live : Live) (slots : List ProtocolState) (id i : ℕ) (s t : ProtocolState)
    → IsOwned live slots
    → live id ≡ none
    → get_elem? slots i ≡ some s
    → s.active ≡ false
    → t.active ≡ true
    → t.conn_id ≡ id
    → IsOwned (put_live id (some (some i)) live) (set slots i t)
open-IsOwned live slots id i s t w n g a b c = record {
  owner = λ k j h. elim (place-cases k id) [
    | inl f ↦
        let p = put_live-same id (some (some i)) live in
        let q : i ≡ j = cc in
        (t, ap (get_elem? (set slots i t)) (sym q) ∙ get-set-same slots i s t g, b, c ∙ sym f)
    | inr f ↦
        let (u, e, d, m) = w.owner k j (sym (put_live-other id k (some (some i)) live f) ∙ h) in
        let o : i ≢ j = λ x. absurd (differ s u (cc) a d) in
        (u, get-set-other slots i j t o ∙ e, d, m)
  ];
  owned = λ j u h d. elim (place-cases i j) [
    | inl f ↦
        let k = get-set-same slots i s t g in
        let q : t ≡ u = cc in
        let y : u.conn_id ≡ id = sym (ap (λ x. x.conn_id) q) ∙ c in
        ap (put_live id (some (some i)) live) y
        ∙ put_live-same id (some (some i)) live
        ∙ ap (λ x. some (some x)) f
    | inr f ↦
        let k = w.owned j u (sym (get-set-other slots i j t f) ∙ h) d in
        let o : u.conn_id ≢ id = λ x. absurd (absent (live id) j n (ap live (sym x) ∙ k)) in
        put_live-other id u.conn_id (some (some i)) live o ∙ k
  ];
}

-- A connection without a place comes or goes.
pub placeless-IsOwned :
    (live : Live) (slots : List ProtocolState) (id : ℕ) (v w : Option (Option ℕ))
    → IsOwned live slots
    → live id ≡ v
    → ((i : ℕ) → v ≢ some (some i))
    → ((i : ℕ) → w ≢ some (some i))
    → IsOwned (put_live id w live) slots
placeless-IsOwned live slots id v w o e f g = record {
  owner = λ k j h. elim (place-cases k id) [
    | inl x ↦ absurd (g j (sym (put_live-same id w live) ∙ ap (put_live id w live) (sym x) ∙ h))
    | inr x ↦ o.owner k j (sym (put_live-other id k w live x) ∙ h)
  ];
  owned = λ j u h d.
      let k = o.owned j u h d in
      put_live-other id u.conn_id w live (λ x. f j (sym e ∙ ap live (sym x) ∙ k)) ∙ k;
}

-- A connection with a place goes, and its place is free.
pub close-IsOwned :
    (live : Live) (slots : List ProtocolState) (id i : ℕ) (s t : ProtocolState)
    → IsOwned live slots
    → live id ≡ some (some i)
    → get_elem? slots i ≡ some s
    → t.active ≡ false
    → IsOwned (put_live id none live) (set slots i t)
close-IsOwned live slots id i s t w n g a = record {
  owner = λ k j h. elim (place-cases k id) [
    | inl x ↦
        absurd (absent _ j (put_live-same id none live) (ap (put_live id none live) (sym x) ∙ h))
    | inr x ↦
        let (u, e, d, m) = w.owner k j (sym (put_live-other id k none live x) ∙ h) in
        let (v, q, r, y) = w.owner id i n in
        let o : i ≢ j = λ z. x (sym m ∙ same_id v u (cc) ∙ y) in
        (u, get-set-other slots i j t o ∙ e, d, m)
  ];
  owned = λ j u h d. elim (place-cases i j) [
    | inl f ↦ let k = get-set-same slots i s t g in absurd (differ t u (cc) a d)
    | inr f ↦
        let k = w.owned j u (sym (get-set-other slots i j t f) ∙ h) d in
        let o : u.conn_id ≢ id = λ x. f (other_place (live id) i j n (ap live (sym x) ∙ k)) in
        put_live-other id u.conn_id none live o ∙ k
  ];
}

-- No two connections have one place.
pub IsOwned-exclusive :
    (live : Live) (slots : List ProtocolState) (a b i : ℕ)
    → IsOwned live slots
    → live a ≡ some (some i)
    → live b ≡ some (some i)
    → a ≡ b
IsOwned-exclusive live slots a b i w e f =
    let (u, g, h, k) = w.owner a i e in
    let (v, x, y, z) = w.owner b i f in sym k ∙ same_id v u (cc) ∙ z
