-- ===== src/Server/Channel/Settle.antt =====
-- Whatever the two sides have done, the steps that they have before them bring both to rest.
use sc_xtcp.Base.{
  Bool, List, Option, Option-cases, [], ap, arith, false, inl, inr, none, refl, some, sym, true, ℕ,
  ◌<◌, ◌>>=◌, ◌||◌, ◌∙◌, ◌∷◌, ◌≡◌, ◌⊎◌,
}
use mathlib.Core.Path.{subst}
use sc_xtcp.Server.{Event, recv_data}
use sc_xtcp.Server.Channel.{
  Act, Client, Link, Net, Place, Token, act, at_delivery, at_rest, at_select, client_step,
  client_takes_next, connection, from_client, from_server, has, in_data, in_delivery, in_event,
  in_recv, in_send, must_recv, must_send, ready, recv, reply, send, send_conn, server_sends_conn,
  server_step, server_takes_next,
}
use sc_xtcp.Server.Channel.Turns.{
  OnTurn, Turn, in_loop, nobody, to_client_next, to_server_next, turn, with_packet, with_request,
}
use sc_xtcp.Server.Channel.Acts.{OnNet, act-IsAgreed, client_takes-IsAgreed, server_takes-IsAgreed}
use sc_xtcp.Server.Channel.Agree.{Fits, IsAgreed, IsTold, asks, behind_end, is_recv, on_way}
use sc_xtcp.Server.Channel.Less.{
  ClientLess, ClientNearer, ServerLess, ServerNearer, client-Nearer, server-Nearer,
}
use sc_xtcp.Server.Channel.Weight.{rest_steps, steps_left}

-- a step that goes on with what was begun; `delay` asks for the packet again
abbrev pub goes_on : Act → Bool
goes_on recv = true
goes_on send = true
goes_on client_takes_next = true
goes_on server_takes_next = true
goes_on server_sends_conn = true
goes_on _ = false

-- Both sides are at rest, nothing is on its way, and no event is queued or due.
pub record IsAtRest (n : Net) : Type 0 where
  pub resting : n.client ≡ at_rest
  pub selecting : n.link.place ≡ at_select
  pub nothing_sent : n.to_server ≡ []
  pub nothing_received : n.to_client ≡ []
  pub nothing_queued : n.link.pending_event ≡ none
  pub nothing_due : n.link.due ≡ none

abbrev pub left : Net → ℕ
left n = steps_left n.client n.link.place n.link

-- What a step leaves: both agree, and fewer steps are left.
abbrev pub Nearer : Net → Act → Type 0
Nearer n a = (m : Net) × (act a n ≡ some m) × IsAgreed m × (left m < left n)

done : (n : Net) (a : Act) (m : Net) → IsAgreed n → act a n ≡ some m → left m < left n → Nearer n a
done n a m v e h = (m, e, subst (OnNet IsAgreed) e (act-IsAgreed a n v), h)

pub client_turn :
    (n : Net) (t : Token) (ts : List Token)
    → IsAgreed n
    → n.to_client ≡ t ∷ ts
    → Nearer n client_takes_next
unfolding act
client_turn n t ts v e =
    let (k, out, f, w) = client_takes-IsAgreed n t ts v e in
    let nearer : ClientNearer n.client n.link.place n.link (some (n.to_server, t ∷ ts)) =
      subst (ClientNearer n.client n.link.place n.link)
        (v.agreed ∙ ap (λ x. some (n.to_server, x)) e)
        (client-Nearer n.client n.link.place n.link.notified n.link refl v.fits) in
    (
      _,
      ap (client_step n) e
          ∙ ap (λ x. x >>= λ r. some (from_client (record n { to_client = ts }) r.0 r.1)) f,
      w,
      subst (ClientLess n.client n.link.place n.link) f nearer,
    )

pub server_turn :
    (n : Net) (t : Token) (ts : List Token)
    → IsAgreed n
    → n.to_server ≡ t ∷ ts
    → Nearer n server_takes_next
unfolding act
server_turn n t ts v e =
    let (l, out, f, w) = server_takes-IsAgreed n t ts v e in
    let nearer : ServerNearer n.client n.link.place n.link (some (t ∷ ts, n.to_client)) =
      subst (ServerNearer n.client n.link.place n.link)
        (v.agreed ∙ ap (λ x. some (x, n.to_client)) e)
        (server-Nearer n.client n.link.place n.link.notified n.link refl v.fits) in
    (
      _,
      ap (server_step n) e
          ∙ ap (λ x. x >>= λ r. some (from_server (record n { to_server = ts }) r)) f,
      w,
      subst (ServerLess n.client n.link.place n.link) f nearer,
    )

-- a client that has a packet before it, or is asked for one, and goes to `j`
abbrev OwnLess : Client → Client → Place → Link → Option (List Token × List Token) → Type 0
OwnLess k j p l none = Unit
OwnLess k j p l (some x) = steps_left j p l < steps_left k p l

own_behind :
    (k j : Client) (ev : Event) (l : Link) (b : Bool) (ts : List Token)
    → (b ≡ true → steps_left j (in_delivery ev) l < steps_left k (in_delivery ev) l)
    → OwnLess k j (in_delivery ev) l (behind_end b ts)
own_behind k j ev l true ts h = h refl
own_behind k j ev l false ts h = tt

packet_nearer :
    (p : Place) (n : Bool) (l : Link) → OwnLess must_recv in_data p l (on_way must_recv p n)
unfolding on_way steps_left
packet_nearer (in_delivery ev) n l =
    own_behind must_recv in_data ev l (is_recv ev) [] (λ h. omega arith)
packet_nearer in_recv n l = omega arith
packet_nearer _ n l = tt

reply_steps : (ev : Event) → asks ev ≡ true → rest_steps ev < 3
reply_steps recv_data h = absurd cc
reply_steps ev h = omega arith

reply_nearer :
    (p : Place) (n : Bool) (l : Link) → OwnLess must_send at_rest p l (on_way must_send p n)
unfolding on_way steps_left
reply_nearer (in_delivery ev) n l = own_behind must_send at_rest ev l (asks ev) [] (reply_steps ev)
reply_nearer in_send n l = omega arith
reply_nearer _ n l = tt

pub packet_turn : (n : Net) → IsAgreed n → n.client ≡ must_recv → Nearer n recv
unfolding act
packet_turn n v e =
    let less : steps_left in_data n.link.place n.link < steps_left must_recv n.link.place n.link =
      subst (OwnLess must_recv in_data n.link.place n.link)
        (ap (λ k. on_way k n.link.place n.link.notified) (sym e) ∙ v.agreed)
        (packet_nearer n.link.place n.link.notified n.link) in
    done n recv (from_client n in_data (ready true ∷ [])) v (rw e refl) (rw e less)

pub request_turn : (n : Net) → IsAgreed n → n.client ≡ must_send → Nearer n send
unfolding act
request_turn n v e =
    let less : steps_left at_rest n.link.place n.link < steps_left must_send n.link.place n.link =
      subst (OwnLess must_send at_rest n.link.place n.link)
        (ap (λ k. on_way k n.link.place n.link.notified) (sym e) ∙ v.agreed)
        (reply_nearer n.link.place n.link.notified n.link) in
    done n send (from_client n at_rest (reply ∷ [])) v (rw e refl) (rw e less)

abbrev OnLoop : Client → Event → Link → Option (List Token × List Token) → Type 0
OnLoop k ev l none = Unit
OnLoop k ev l (some x) =
    steps_left k (in_delivery ev) (record l { place = in_delivery ev }) < steps_left k at_delivery l

loop_nearer :
    (k : Client) (n : Bool) (ev : Event) (l : Link) → OnLoop k ev l (on_way k at_delivery n)
unfolding on_way steps_left
loop_nearer in_event n ev l = omega arith
loop_nearer _ n ev l = tt

pub loop_turn : (n : Net) → IsAgreed n → n.link.place ≡ at_delivery → Nearer n server_sends_conn
unfolding act send_conn
loop_turn n v e = elim (Option-cases n.link.due) [
  | inl d ↦ absurd (no_event (ap has d) (subst (λ p. Fits p n.link) e v.fits).1)
  | inr (ev, d) ↦
      let less =
        subst (OnLoop n.client ev n.link)
          (ap (λ p. on_way n.client p n.link.notified) (sym e) ∙ v.agreed)
          (loop_nearer n.client n.link.notified ev n.link) in
      done n server_sends_conn
        (from_server n (record n.link { place = in_delivery ev }, connection ev ∷ [])) v
        (rw (e, d) refl)
        (subst
          (λ p.
            steps_left n.client (in_delivery ev) (record n.link { place = in_delivery ev })
            < steps_left n.client p n.link)
          (sym e) less)
]
  where
    no_event : has n.link.due ≡ false → has n.link.due ≡ true → ⊥
    no_event a b = cc

nothing_told :
    (pending due : Option Event)
    → (has pending || has due) ≡ false
    → (pending ≡ none) × (due ≡ none)
nothing_told none none h = (refl, refl)
nothing_told none (some ev) h = absurd cc
nothing_told (some ev) due h = absurd cc

-- Both sides are at rest, or one has a step before it.
pub next_step : (n : Net) → IsAgreed n → IsAtRest n ⊎ ((a : Act) × (goes_on a ≡ true) × Nearer n a)
next_step n v = go (
    subst (OnTurn n.client n.link.place n.link.notified) v.agreed
      (turn n.client n.link.place n.link.notified))
  where
    go :
        Turn n.client n.link.place n.link.notified n.to_server n.to_client
        → IsAtRest n ⊎ ((a : Act) × (goes_on a ≡ true) × Nearer n a)
    go (to_client_next t ts e) = inr (client_takes_next, refl, client_turn n t ts v e)
    go (to_server_next t ts e) = inr (server_takes_next, refl, server_turn n t ts v e)
    go (in_loop e) = inr (server_sends_conn, refl, loop_turn n v e)
    go (with_packet e) = inr (recv, refl, packet_turn n v e)
    go (with_request e) = inr (send, refl, request_turn n v e)
    go (nobody k p b s c) =
        let (told, configures) : IsTold n.link = subst (λ p. Fits p n.link) p v.fits in
        let (queued, due) = nothing_told n.link.pending_event n.link.due (sym told ∙ b) in
        inl (record {
          resting = k;
          selecting = p;
          nothing_sent = s;
          nothing_received = c;
          nothing_queued = queued;
          nothing_due = due;
        })
