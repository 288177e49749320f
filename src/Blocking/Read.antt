-- ===== src/Blocking/Read.antt =====
-- What `xtcp_read` returns.
use Prim.{tt}
use sc_xtcp.Base.{
  All, Bool, List, Option, [], ap, append-nil, append_assoc, arith, false, if_ind, length,
  length-append, ltb, none, refl, some, sym, true, ℕ, ◌++◌, ◌+◌, ◌<◌, ◌==◌, ◌∙◌, ◌∷◌, ◌≡◌, ◌≤◌,
}
use sc_xtcp.Server.{
  Event, aborted, already_handled, closed, ifdown, ifup, new_connection, poll, recv_data,
  request_data, resend_data, sent_data, timed_out,
}
use sc_xtcp.Buffered.Memory.{length-write_at, slice, slice-write_at}
use sc_xtcp.Blocking.{
  Incoming, ReadResult, Reading, read_bytes, read_event, read_failed, read_on, read_waits,
  xtcp_read,
}

-- the bytes that an event brings
abbrev pub got : Event → List ℕ → List ℕ
got recv_data bytes = bytes
got _ bytes = []

-- the bytes that events bring
abbrev pub arrived : List Incoming → List ℕ
arrived [] = []
arrived (c ∷ cs) = got c.event c.bytes ++ arrived cs

-- the bytes that were read
abbrev pub read_so_far : Reading → List ℕ
read_so_far r = slice r.mem 0 r.rlen

-- The array holds `bytes` more than before.
pub record Grown (bytes : List ℕ) (r q : Reading) : Type 0 where
  pub longer : read_so_far q ≡ read_so_far r ++ bytes
  pub counted : q.rlen ≡ r.rlen + length bytes
  pub same_size : length q.mem ≡ length r.mem

same-Grown : (r q : Reading) → q.mem ≡ r.mem → q.rlen ≡ r.rlen → Grown [] r q
same-Grown r q m l = record {
  longer = rw (m, l) (sym (append-nil (read_so_far r)));
  counted = omega (arith, l);
  same_size = ap length m;
}

-- the events that make `xtcp_read` fail
abbrev pub fails : ℕ → ℕ → Event → Bool
fails id other timed_out = other == id
fails id other aborted = other == id
fails id other closed = other == id
fails id other ifdown = true
fails id other _ = false

-- What an event leaves, or that it makes the call fail.
abbrev Left : ℕ → Incoming → Event → Reading → Option Reading → Type 0
Left id c ev r none = fails id c.id ev ≡ true
Left id c ev r (some q) = (fails id c.id ev ≡ false) × Grown (got ev c.bytes) r q

read_event-Left :
    (id : ℕ) (c : Incoming) (ev : Event) (r : Reading)
    → r.rlen + length (got ev c.bytes) ≤ length r.mem
    → Left id c ev r (read_event id c ev r)
unfolding read_event
read_event-Left id c new_connection r h = (refl, same-Grown r _ refl refl)
read_event-Left id c recv_data r h = (
  refl,
  record {
    longer = slice-write_at r.mem 0 r.rlen c.bytes (omega arith) h;
    counted = refl;
    same_size = length-write_at r.mem r.rlen c.bytes h;
  },
)
read_event-Left id c request_data r h = (refl, same-Grown r _ refl refl)
read_event-Left id c sent_data r h = (refl, same-Grown r _ refl refl)
read_event-Left id c resend_data r h = (refl, same-Grown r _ refl refl)
read_event-Left id c timed_out r h =
    if_ind (Left id c timed_out r) (c.id == id) (λ e. e) (λ e. (e, same-Grown r r refl refl))
read_event-Left id c aborted r h =
    if_ind (Left id c aborted r) (c.id == id) (λ e. e) (λ e. (e, same-Grown r r refl refl))
read_event-Left id c closed r h =
    if_ind (Left id c closed r) (c.id == id) (λ e. e) (λ e. (e, same-Grown r r refl refl))
read_event-Left id c ifdown r h = refl
read_event-Left id c ifup r h = (refl, same-Grown r r refl refl)
read_event-Left id c poll r h = (refl, same-Grown r r refl refl)
read_event-Left id c already_handled r h = (refl, same-Grown r r refl refl)

-- no event makes the call fail
abbrev pub AreCalm : ℕ → List Incoming → Type 0
AreCalm id = All (λ c. fails id c.id c.event ≡ false)

-- How a call ends: with at least `minlen` bytes, those that the events before its end brought, behind
-- the ones that were there; at the first event that makes it fail, with fewer bytes so far; or it
-- waits. It goes on at no event that makes it fail.
abbrev pub Ends : ℕ → ℕ → List Incoming → Reading → ReadResult → Type 0
Ends id minlen cs r (read_bytes t rest) =
    (used : List Incoming) × (cs ≡ used ++ rest)
    × AreCalm id used
    × (minlen ≤ t.rlen)
    × Grown (arrived used) r t
Ends id minlen cs r (read_failed t rest) =
    (used : List Incoming) × (c : Incoming) × (cs ≡ used ++ c ∷ rest)
    × AreCalm id used
    × (fails id c.id c.event ≡ true)
    × (t.rlen < minlen)
    × Grown (arrived used) r t
Ends id minlen cs r (read_waits t) = AreCalm id cs × (t.rlen < minlen) × Grown (arrived cs) r t

Grown-trans :
    (r q t : Reading) (xs ys : List ℕ) → Grown xs r q → Grown ys q t → Grown (xs ++ ys) r t
Grown-trans r q t xs ys g h = record {
  longer = h.longer ∙ ap (λ l. l ++ ys) g.longer ∙ append_assoc (read_so_far r) xs ys;
  counted = omega (arith, h.counted, g.counted, length-append xs ys);
  same_size = h.same_size ∙ g.same_size;
}

-- an event more at the front
Ends-cons :
    (id minlen : ℕ) (c : Incoming) (cs : List Incoming) (r q : Reading) (x : ReadResult)
    → (fails id c.id c.event ≡ false) × Grown (got c.event c.bytes) r q
    → Ends id minlen cs q x
    → Ends id minlen (c ∷ cs) r x
Ends-cons id minlen c cs r q (read_bytes t rest) (b, g) (used, e, a, m, h) =
    (c ∷ used, ap (◌∷◌ c) e, (b, a), m, Grown-trans r q t _ _ g h)
Ends-cons id minlen c cs r q (read_failed t rest) (b, g) (used, d, e, a, f, m, h) =
    (c ∷ used, d, ap (◌∷◌ c) e, (b, a), f, m, Grown-trans r q t _ _ g h)
Ends-cons id minlen c cs r q (read_waits t) (b, g) (a, m, h) =
    ((b, a), m, Grown-trans r q t _ _ g h)

-- Where the array has room for all that comes in, of whatever connection: `xtcp_read` returns at least
-- `minlen` bytes, the ones that the events before its end brought, in order and once each, none of these
-- events being a timeout, an abort or a close of its own connection or XTCP_IFDOWN; or it fails at the
-- first such event, with fewer bytes so far; or it waits, where there is none and fewer bytes come.
pub xtcp_read-Ends :
    (id minlen : ℕ) (cs : List Incoming) (r : Reading)
    → r.rlen + length (arrived cs) ≤ length r.mem
    → Ends id minlen cs r (xtcp_read id minlen cs r)
unfolding xtcp_read
xtcp_read-Ends id minlen [] r h =
    if_ind (Ends id minlen [] r) (ltb r.rlen minlen)
      (λ e. (tt, ground (arith, e), same-Grown r r refl refl))
      (λ e. ([], refl, tt, ground (arith, e), same-Grown r r refl refl))
xtcp_read-Ends id minlen (c ∷ cs) r h =
    if_ind (Ends id minlen (c ∷ cs) r) (ltb r.rlen minlen)
      (λ e.
        go_on (read_event id c c.event r) (read_event-Left id c c.event r (omega (arith, h, room)))
          (ground (arith, e))
          (λ q g. xtcp_read-Ends id minlen cs q (omega (arith, h, room, g.counted, g.same_size))))
      (λ e. ([], refl, tt, ground (arith, e), same-Grown r r refl refl))
  where
    room :
        length (got c.event c.bytes ++ arrived cs)
        ≡ length (got c.event c.bytes) + length (arrived cs)
    room = length-append (got c.event c.bytes) (arrived cs)

    go_on :
        (m : Option Reading)
        → Left id c c.event r m
        → r.rlen < minlen
        → ((q : Reading)
            → Grown (got c.event c.bytes) r q
            → Ends id minlen cs q (xtcp_read id minlen cs q))
        → Ends id minlen (c ∷ cs) r (read_on m (xtcp_read id minlen cs) (read_failed r cs))
    go_on none l e k = ([], c, refl, tt, l, e, same-Grown r r refl refl)
    go_on (some q) l e k = Ends-cons id minlen c cs r q (xtcp_read id minlen cs q) l (k q l.1)
