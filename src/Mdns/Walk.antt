-- ===== src/Mdns/Walk.antt =====
-- When `mdns_parse_name` ends.
use sc_xtcp.Base.{
  All, Bool-cases, List, Option, [], arith, false, get_elem?, inl, inr, length, ltb, none, refl,
  some, suc, true, zero, ℕ, ◌%◌, ◌++◌, ◌+◌, ◌-◌, ◌/◌, ◌<◌, ◌==◌, ◌∷◌, ◌≡◌, ◌≤◌,
}
use sc_xtcp.Mdns.Parse.{
  Scan, again, end_round, first_saved, is_pointer, mdns_parse_name, parse_round, parse_rounds,
  pointer_to,
}
use sc_xtcp.Mdns.Labels.{At, At-cons, At-get}

-- no byte of the array starts a compression pointer
abbrev pub IsPlain : List ℕ → Type 0
IsPlain msg = All (λ n. n < 192) msg

get_in : (msg : List ℕ) (i : ℕ) → i < length msg → (n : ℕ) × (get_elem? msg i ≡ some n)
get_in [] i h = absurd (omega arith)
get_in (x ∷ msg) zero h = (x, refl)
get_in (x ∷ msg) (suc i) h = get_in msg i (omega arith)

plain_get : (msg : List ℕ) (i n : ℕ) → IsPlain msg → get_elem? msg i ≡ some n → n < 192
plain_get [] i n p h = cc
plain_get (x ∷ msg) zero n p h = ground (arith, p.0)
plain_get (x ∷ msg) (suc i) n p h = plain_get msg i n p.1 h

-- NULL, or a position at most one behind the limit
abbrev pub IsWithin : ℕ → Option ℕ → Type 0
IsWithin limit none = 0 ≤ limit
IsWithin limit (some p) = p ≤ limit + 1

Ends : ℕ → Option (Option ℕ) → Type 0
Ends limit o = (p : Option ℕ) × (o ≡ some p) × IsWithin limit p

module _ (msg : List ℕ) (limit : ℕ) (plain : IsPlain msg) (inside : limit < length msg) where
  parse_rounds_end :
      (fuel i : ℕ)
      → i ≤ limit
      → limit - i < fuel
      → Ends limit (parse_rounds fuel msg limit (record { query = i; saved = none }))
  unfolding Ends parse_rounds parse_round end_round
  parse_rounds_end zero i le f = absurd (omega arith)
  parse_rounds_end (suc fuel) i le f =
      let (n, e) = get_in msg i (omega arith) in
      let small : is_pointer n ≡ false = ground (arith, plain_get msg i n plain e) in
      elim (Bool-cases (ltb limit (i + 1))) [
        | inl h ↦ rw (e, h) (none, refl, omega arith)
        | inr h ↦ elim (Bool-cases (ltb limit (i + 1 + n))) [
          | inl g ↦ rw (e, h, small, g) (none, refl, omega arith)
          | inr g ↦
              let (c, k) = get_in msg (i + 1 + n) (ground (arith, inside)) in
              let later = parse_rounds_end fuel (i + 1 + n) (ground arith) (ground (arith, f)) in
              elim (Bool-cases (c == 0)) [
                | inl z ↦ rw (e, h, small, g, k, z) (some (i + 1 + n + 1), refl, ground arith)
                | inr z ↦ rw (e, h, small, g, k, z) later
              ]
        ]
      ]

-- In a packet without compression pointers that lies in its array with a byte behind it,
-- `mdns_parse_name` ends within as many rounds as there are positions up to the limit, with NULL or
-- a position at most one behind the limit.
pub parse_name_ends :
    (msg : List ℕ) (limit query fuel : ℕ)
    → IsPlain msg
    → limit < length msg
    → limit < fuel
    → (p : Option ℕ) × (mdns_parse_name fuel msg query limit ≡ some p) × IsWithin limit p
unfolding mdns_parse_name Ends
parse_name_ends msg limit query fuel plain inside f = elim (Bool-cases (ltb limit query)) [
  | inl e ↦ rw e (none, refl, omega arith)
  | inr e ↦
      rw e (parse_rounds_end msg limit plain inside fuel query (ground arith) (ground (arith, f)))
]

-- the two bytes of a pointer to a position
abbrev pub pointer_at : ℕ → List ℕ
pointer_at i = (192 + i / 256) ∷ i % 256 ∷ []

-- the loop at a pointer that it has followed once
abbrev pub followed : ℕ → Scan
followed i = record { query = i; saved = some (i + 1 + 1) }

self_round :
    (msg : List ℕ) (limit i : ℕ) (post : List ℕ) (s : Scan)
    → At msg i (pointer_at i ++ post)
    → i < 16384
    → i + 1 ≤ limit
    → s.query ≡ i
    → first_saved s.saved (i + 1 + 1) ≡ i + 1 + 1
    → parse_round msg limit s ≡ some (again (followed i))
unfolding parse_round end_round
self_round msg limit i post s at small w q v =
    let first = At-get msg i (192 + i / 256) (i % 256 ∷ post) at in
    let second =
      At-get msg (i + 1) (i % 256) post (At-cons msg i (192 + i / 256) (i % 256 ∷ post) at) in
    let no_end : ltb limit (i + 1) ≡ false = ground (arith, w) in
    let pointer : is_pointer (192 + i / 256) ≡ true = ground arith in
    let here : pointer_to (192 + i / 256) (i % 256) ≡ i = omega (arith, small) in
    let inside : ltb limit i ≡ false = ground (arith, w) in
    let more : (192 + i / 256 == 0) ≡ false = ground arith in
    rw (q, first, no_end, pointer, second, here, inside, first, more, v) refl

loops :
    (fuel : ℕ) (msg : List ℕ) (limit : ℕ) (s t : Scan)
    → parse_round msg limit s ≡ some (again t)
    → parse_round msg limit t ≡ some (again t)
    → parse_rounds fuel msg limit s ≡ none
unfolding parse_rounds
loops zero msg limit s t h k = refl
loops (suc fuel) msg limit s t h k = rw h (loops fuel msg limit t t k k)

-- At a compression pointer to itself inside a packet the loop of `mdns_parse_name` comes back to the
-- same state, so that no number of rounds ends it.
pub parse_name_loops :
    (fuel : ℕ) (msg : List ℕ) (limit i : ℕ) (post : List ℕ)
    → At msg i (pointer_at i ++ post)
    → i < 16384
    → i + 1 ≤ limit
    → (parse_round msg limit (followed i) ≡ some (again (followed i)))
      × (mdns_parse_name fuel msg i limit ≡ none)
unfolding mdns_parse_name
parse_name_loops fuel msg limit i post at small w =
    let start : Scan = record { query = i; saved = none } in
    let once = self_round msg limit i post start at small w refl refl in
    let repeated = self_round msg limit i post (followed i) at small w refl refl in
    let inside : ltb limit i ≡ false = ground (arith, w) in
    rw inside (repeated, loops fuel msg limit start (followed i) once repeated)
