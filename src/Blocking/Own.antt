-- ===== src/Blocking/Own.antt =====
-- That `xtcp_write` sends to its own connection.
use mathlib.Core.Path.{subst}
use sc_xtcp.Base.{
  All, Option, none, Bool, List, [], arith, false, if_ind, inl, inr, not, some, true, ℕ, ◌==◌, ◌∷◌,
  ◌≡◌, ◌≤◌,
}
use sc_xtcp.Server.{
  Event, aborted, already_handled, closed, ifdown, ifup, init_send, new_connection, poll, recv_data,
  request_data, resend_data, sent_data, timed_out,
}
use sc_xtcp.Blocking.{Call, Incoming, Writing, init_send, sendi, send_next, write_event, write_loop}
use sc_xtcp.Blocking.Write.{loop_ends}

-- An event that does not end the call early: it hands over no data, is no XTCP_IFDOWN and no close of
-- this connection, and only this connection's events ask for data.
abbrev pub is_benign : ℕ → ℕ → Event → Bool
is_benign id other recv_data = false
is_benign id other ifdown = false
is_benign id other timed_out = not (other == id)
is_benign id other aborted = not (other == id)
is_benign id other closed = not (other == id)
is_benign id other request_data = other == id
is_benign id other sent_data = other == id
is_benign id other resend_data = other == id
is_benign id other _ = true

-- a call that sends nothing to another connection
abbrev pub IsTo : ℕ → Call → Type 0
IsTo id (sendi other ev bs) = other ≡ id
IsTo id _ = 0 ≤ 0

-- the call that was made first, of calls of which the latest is the first
abbrev pub first_call : List Call → Option Call
first_call [] = none
first_call (c ∷ []) = some c
first_call (_ ∷ d ∷ cs) = first_call (d ∷ cs)

-- The first call asks for an event of the connection, and all bytes are sent to it.
abbrev pub IsOwn : ℕ → List Call → Type 0
IsOwn id cs = (first_call cs ≡ some (init_send id)) × All (IsTo id) cs

cons-IsOwn : (id : ℕ) (c : Call) (cs : List Call) → IsTo id c → IsOwn id cs → IsOwn id (c ∷ cs)
cons-IsOwn id c [] t (f, a) = absurd cc
cons-IsOwn id c (d ∷ cs) t (f, a) = (f, (t, a))

write_event-IsOwn :
    (id : ℕ) (buf : List ℕ) (c : Incoming) (ev : Event) (w : Writing)
    → is_benign id c.id ev ≡ true
    → IsOwn id w.calls
    → IsOwn id (write_event id buf c ev w).calls
unfolding write_event send_next
write_event-IsOwn id buf c new_connection w b o = cons-IsOwn id _ w.calls (omega arith) o
write_event-IsOwn id buf c request_data w b o = cons-IsOwn id _ w.calls (ground (arith, b)) o
write_event-IsOwn id buf c sent_data w b o = cons-IsOwn id _ w.calls (ground (arith, b)) o
write_event-IsOwn id buf c resend_data w b o = cons-IsOwn id _ w.calls (ground (arith, b)) o
write_event-IsOwn id buf c recv_data w b o = cons-IsOwn id _ w.calls (omega arith) o
write_event-IsOwn id buf c timed_out w b o =
    if_ind {A = Writing} (λ v. IsOwn id v.calls) (c.id == id) (λ h. o) (λ h. o)
write_event-IsOwn id buf c aborted w b o =
    if_ind {A = Writing} (λ v. IsOwn id v.calls) (c.id == id) (λ h. o) (λ h. o)
write_event-IsOwn id buf c closed w b o =
    if_ind {A = Writing} (λ v. IsOwn id v.calls) (c.id == id) (λ h. o) (λ h. o)
write_event-IsOwn id buf c ifdown w b o = o
write_event-IsOwn id buf c ifup w b o = o
write_event-IsOwn id buf c poll w b o = o
write_event-IsOwn id buf c already_handled w b o = o

-- no event ends the call early
abbrev pub IsBenign : ℕ → List Incoming → Type 0
IsBenign id = All (λ c. is_benign id c.id c.event ≡ true)

pub write_loop-IsOwn :
    (id : ℕ) (buf : List ℕ) (cs : List Incoming) (w v : Writing) (rest : List Incoming)
    → IsBenign id cs
    → IsOwn id w.calls
    → write_loop id buf cs w ≡ some (v, rest)
    → IsOwn id v.calls
unfolding write_loop
write_loop-IsOwn id buf [] w v rest b o e = elim (loop_ends w.finished w v [] rest none e) [
  | inl (f, q) ↦ subst (λ x. IsOwn id x.calls) q o
  | inr (f, q) ↦ absurd cc
]
write_loop-IsOwn id buf (c ∷ cs) w v rest b o e =
    elim (loop_ends w.finished w v (c ∷ cs) rest _ e) [
      | inl (f, q) ↦ subst (λ x. IsOwn id x.calls) q o
      | inr (f, q) ↦
          write_loop-IsOwn id buf cs (write_event id buf c c.event w) v rest b.1
            (write_event-IsOwn id buf c c.event w b.0 o) q
    ]
