-- ===== src/Server/Channel/Rounds.antt =====
-- What every run of the two sides leaves, and that it comes to rest.
use sc_xtcp.Base.{
  All, List, Option, [], ap, arith, inl, inr, length, none, refl, some, suc, true, zero, ℕ, ◌+◌,
  ◌-◌, ◌<◌, ◌>>=◌, ◌∙◌, ◌∷◌, ◌≡◌, ◌≤◌, ◌⊎◌,
}
use mathlib.Core.Path.{subst}
use sc_xtcp.Server.Channel.{
  Act, Link, Net, Token, act, at_rest, at_select, client_step, client_takes_next, from_client,
  from_server, run, server_step, server_takes_next, xtcpd_server_init,
}
use sc_xtcp.Server.Channel.Settle.{IsAtRest, goes_on, left, next_step}
use sc_xtcp.Server.Channel.Nearer.{goes_on-less}
use sc_xtcp.Server.Channel.Acts.{OnNet, act-IsAgreed, client_takes-IsAgreed, server_takes-IsAgreed}
use sc_xtcp.Server.Channel.Agree.{IsAgreed, on_way}
use sc_xtcp.Server.Channel.Weight.{steps_left-le}

after_act :
    (m : Option Net) (acts : List Act)
    → OnNet IsAgreed m
    → ((n : Net) → IsAgreed n → OnNet IsAgreed (run acts n))
    → OnNet IsAgreed (m >>= run acts)
after_act none acts w h = tt
after_act (some m) acts w h = h m w

run-IsAgreed : (acts : List Act) (n : Net) → IsAgreed n → OnNet IsAgreed (run acts n)
unfolding run
run-IsAgreed [] n v = v
run-IsAgreed (a ∷ acts) n v =
    after_act (act a n) acts (act-IsAgreed a n v) (λ m w. run-IsAgreed acts m w)

-- At most `k` steps, each one that a side has before it, bring both sides to rest.
abbrev pub Settles : ℕ → Net → Type 0
Settles k n =
    (acts : List Act) × (length acts ≤ k)
    × All (λ a. goes_on a ≡ true) acts
    × (m : Net) × (run acts n ≡ some m)
    × IsAtRest m

settled : (k : ℕ) (n : Net) → IsAtRest n → Settles k n
unfolding run
settled k n r = ([], omega arith, tt, n, refl, r)

one_more :
    (k : ℕ) (a : Act) (n m : Net)
    → goes_on a ≡ true
    → act a n ≡ some m
    → Settles k m
    → Settles (suc k) n
unfolding run
one_more k a n m g e (acts, l, all, end, r, rest) =
    (a ∷ acts, omega (arith, l), (g, all), end, ap (λ x. x >>= run acts) e ∙ r, rest)

settles : (k : ℕ) (n : Net) → IsAgreed n → left n ≤ k → Settles k n
settles zero n v h = elim (next_step n v) [
  | inl r ↦ settled zero n r
  | inr (a, g, (m, e, w, less)) ↦ absurd (omega (arith, less, h))
]
settles (suc k) n v h = elim (next_step n v) [
  | inl r ↦ settled (suc k) n r
  | inr (a, g, (m, e, w, less)) ↦ one_more k a n m g e (settles k m w (omega (arith, less, h)))
]

-- A token that is on its way to a side is one that it expects.
abbrev pub Expects : Net → Type 0
Expects n =
    ((n.to_client ≡ []) ⊎ ((m : Net) × (act client_takes_next n ≡ some m)))
    × ((n.to_server ≡ []) ⊎ ((m : Net) × (act server_takes_next n ≡ some m)))

expects : (n : Net) → IsAgreed n → Expects n
unfolding act
expects n v = (by_client n.to_client refl, by_server n.to_server refl)
  where
    by_client :
        (ts : List Token) → n.to_client ≡ ts → (ts ≡ []) ⊎ ((m : Net) × (client_step n ts ≡ some m))
    by_client [] e = inl refl
    by_client (t ∷ ts) e =
        let (k, out, f, w) = client_takes-IsAgreed n t ts v e in
        inr (_, ap (λ x. x >>= λ r. some (from_client (record n { to_client = ts }) r.0 r.1)) f)

    by_server :
        (ts : List Token) → n.to_server ≡ ts → (ts ≡ []) ⊎ ((m : Net) × (server_step n ts ≡ some m))
    by_server [] e = inl refl
    by_server (t ∷ ts) e =
        let (l, out, f, w) = server_takes-IsAgreed n t ts v e in
        inr (_, ap (λ x. x >>= λ r. some (from_server (record n { to_server = ts }) r)) f)

-- After `xtcpd_server_init` both sides agree, with nothing on its way.
server_init-IsAgreed :
    (l : Link)
    → l.place ≡ at_select
    → l.due ≡ none
    → IsAgreed
        (record { link = xtcpd_server_init l; client = at_rest; to_server = []; to_client = [] })
unfolding xtcpd_server_init on_way
server_init-IsAgreed l e d = record { agreed = rw e refl; fits = rw e (rw d refl, tt) }

-- what holds of the end of a run of steps that go on
abbrev OnEnd : List Act → Net → Option Net → Type 0
OnEnd acts n none = Unit
OnEnd acts n (some m) = IsAgreed m × (length acts + left m ≤ left n)

one_further :
    (acts : List Act) (n p : Net) (o : Option Net)
    → left p < left n
    → OnEnd acts p o
    → (a : Act) → OnEnd (a ∷ acts) n o
one_further acts n p none less h a = tt
one_further acts n p (some m) less (v, h) a = (v, omega (arith, less, h))

run-OnEnd :
    (acts : List Act) (n : Net)
    → IsAgreed n
    → All (λ a. goes_on a ≡ true) acts
    → OnEnd acts n (run acts n)
unfolding run
run-OnEnd [] n v g = (v, omega arith)
run-OnEnd (a ∷ acts) n v (g, gs) = go (act a n) refl (λ p w. run-OnEnd acts p w gs)
  where
    go :
        (x : Option Net)
        → act a n ≡ x
        → ((p : Net) → IsAgreed p → OnEnd acts p (run acts p))
        → OnEnd (a ∷ acts) n (x >>= run acts)
    go none f k = tt
    go (some p) f k =
        let w : IsAgreed p = subst (OnNet IsAgreed) f (act-IsAgreed a n v) in
        one_further acts n p (run acts p) (goes_on-less a n p g v f) (k p w) a

-- From a state in which both sides agree on what is on its way, as they do at rest, after any steps of
-- both: the next token for each side is one that it expects. Whichever steps they then take that go on
-- with what was begun, there are at most 18 of them, and what is left of 18 is enough to bring both to
-- rest with more such steps, with nothing on its way and no event queued or due. `delay` and new
-- commands and events are not among these steps.
pub run-Settles :
    (acts more : List Act) (n m p : Net)
    → IsAgreed n
    → run acts n ≡ some m
    → All (λ a. goes_on a ≡ true) more
    → run more m ≡ some p
    → Expects m × (length more ≤ 18) × Settles (18 - length more) p
run-Settles acts more n m p v e g f =
    let w : IsAgreed m = subst (OnNet IsAgreed) e (run-IsAgreed acts n v) in
    let few = steps_left-le m.client m.link.place m.link in
    let (u, h) : OnEnd more m (some p) = subst (OnEnd more m) f (run-OnEnd more m w g) in
    (expects m w, omega (arith, few, h), settles (18 - length more) p u (omega (arith, few, h)))
