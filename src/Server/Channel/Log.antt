-- ===== src/Server/Channel/Log.antt =====
-- Every run handles the commands of the client once each and in order.
use sc_xtcp.Base.{
  Bool, List, Option, Option-cases, [], ap, false, if_ind, inl, inr, none, refl, some, sym, true,
  ◌++◌, ◌>>=◌, ◌∙◌, ◌∷◌, ◌≡◌,
}
use mathlib.Core.Path.{subst}
use sc_xtcp.Server.{Command, Event}
use sc_xtcp.Server.Channel.{
  Act, Client, Link, Net, Place, Token, act, at_delivery, at_rest, at_select, client_step,
  client_takes_next, delay, from_loop, from_rest, from_select, in_delivery, is_config, must_recv,
  must_send, queue, recv, run, send, send_cmd, send_conn, sends_packet, server_sends_conn,
  server_step, server_takes_next, takes_packet, wait, wait_until_ready, xtcpd_queue_event,
}
use sc_xtcp.Server.Channel.Settle.{IsAtRest}
use sc_xtcp.Server.Channel.Handled.{
  ClientKeeps, ClientLog, ServerKeeps, ServerLog, asked, client-Keeps, in_flight, log, server-Keeps,
}
use sc_xtcp.Server.Channel.Acts.{OnNet, act-IsAgreed, client_takes-IsAgreed, server_takes-IsAgreed}
use sc_xtcp.Server.Channel.Agree.{IsAgreed}

-- What a step adds to the commands.
abbrev Logs : Net → Act → Option Net → Type 0
Logs n a = OnNet (λ m. log m ≡ asked (a ∷ []) (log n))

client_next-Logs :
    (n : Net) (ts : List Token)
    → IsAgreed n
    → n.to_client ≡ ts
    → Logs n client_takes_next (client_step n ts)
client_next-Logs n [] v e = tt
client_next-Logs n (t ∷ ts) v e =
    let (k, out, f, w) = client_takes-IsAgreed n t ts v e in
    let keeps : ClientKeeps n.client n.link.place (some (n.to_server, t ∷ ts)) =
      subst (ClientKeeps n.client n.link.place) (v.agreed ∙ ap (λ x. some (n.to_server, x)) e)
        (client-Keeps n.client n.link.place n.link.notified) in
    rw f (ap (λ x. x ++ n.link.handled) (subst (ClientLog n.client n.link.place) f keeps))

server_next-Logs :
    (n : Net) (ts : List Token)
    → IsAgreed n
    → n.to_server ≡ ts
    → Logs n server_takes_next (server_step n ts)
server_next-Logs n [] v e = tt
server_next-Logs n (t ∷ ts) v e =
    let (l, out, f, w) = server_takes-IsAgreed n t ts v e in
    let keeps : ServerKeeps n.client n.link.place n.link (some (t ∷ ts, n.to_client)) =
      subst (ServerKeeps n.client n.link.place n.link)
        (v.agreed ∙ ap (λ x. some (x, n.to_client)) e)
        (server-Keeps n.client n.link.place n.link.notified n.link) in
    rw f (subst (ServerLog n.client n.link.place n.link) f keeps)

from_rest-Logs :
    (n : Net) (c : Command) (k : Client) → n.client ≡ k → Logs n (send_cmd c) (from_rest n k c)
from_rest-Logs n c at_rest e = rw e refl
from_rest-Logs n c _ e = tt

takes_packet-Logs :
    (n : Net) (b : Bool) (k : Client) → n.client ≡ k → Logs n recv (takes_packet n k b)
takes_packet-Logs n true must_recv e = rw e refl
takes_packet-Logs n false must_recv e = rw e refl
takes_packet-Logs n _ _ e = tt

sends_packet-Logs : (n : Net) (k : Client) → n.client ≡ k → Logs n send (sends_packet n k)
sends_packet-Logs n must_send e = rw e refl
sends_packet-Logs n _ e = tt

from_select-Logs :
    (n : Net) (p : Place) (due : Option Event) (l : Link) (out : List Token)
    → n.link.place ≡ p
    → (n.link.place ≡ at_select → l.place ≡ at_select)
    → l.handled ≡ n.link.handled
    → Logs n server_takes_next (from_select n p due (l, out))
from_select-Logs n at_select none l out e h d =
    ap (λ p. in_flight n.client p ++ l.handled) (h e ∙ sym e)
    ∙ ap (λ cs. in_flight n.client n.link.place ++ cs) d
from_select-Logs n _ _ l out e h d = tt

delivery_flight : (k : Client) (ev : Event) → in_flight k (in_delivery ev) ≡ in_flight k at_delivery
delivery_flight at_rest ev = refl
delivery_flight k ev = refl

from_loop-Logs : (n : Net) (p : Place) → n.link.place ≡ p → Logs n server_sends_conn (from_loop n p)
unfolding send_conn
from_loop-Logs n at_delivery e = elim (Option-cases n.link.due) [
  | inl d ↦ rw d tt
  | inr (ev, d) ↦ rw d (
      ap (λ cs. cs ++ n.link.handled)
        (delivery_flight n.client ev ∙ ap (in_flight n.client) (sym e)))
]
from_loop-Logs n _ e = tt

act-Logs : (a : Act) (n : Net) → IsAgreed n → Logs n a (act a n)
unfolding act xtcpd_queue_event wait_until_ready
act-Logs (send_cmd c) n v = from_rest-Logs n c n.client refl
act-Logs recv n v = takes_packet-Logs n true n.client refl
act-Logs delay n v = takes_packet-Logs n false n.client refl
act-Logs send n v = sends_packet-Logs n n.client refl
act-Logs client_takes_next n v = client_next-Logs n n.to_client v refl
act-Logs server_takes_next n v = server_next-Logs n n.to_server v refl
act-Logs server_sends_conn n v = from_loop-Logs n n.link.place refl
act-Logs (queue ev) n v =
    if_ind (Logs n (queue ev)) (is_config ev)
      (λ h. from_select-Logs n n.link.place n.link.due _ _ refl (λ e. e) refl) (λ h. tt)
act-Logs (wait ev) n v = from_select-Logs n n.link.place n.link.due _ _ refl (λ e. refl) refl

asked-cons :
    (a : Act) (acts : List Act) (cs : List Command)
    → asked (a ∷ acts) cs ≡ asked acts (asked (a ∷ []) cs)
asked-cons (send_cmd c) acts cs = refl
asked-cons a acts cs = refl

run-Logs :
    (acts : List Act) (n m : Net) → IsAgreed n → run acts n ≡ some m → log m ≡ asked acts (log n)
unfolding run
run-Logs [] n m v e = let same : n ≡ m = cc in ap log (sym same)
run-Logs (a ∷ acts) n m v e =
    first (act a n) (act-Logs a n v) (act-IsAgreed a n v) e (λ q w. run-Logs acts q m w)
  where
    first :
        (x : Option Net)
        → Logs n a x
        → OnNet IsAgreed x
        → (x >>= run acts) ≡ some m
        → ((q : Net) → IsAgreed q → run acts q ≡ some m → log m ≡ asked acts (log q))
        → log m ≡ asked (a ∷ acts) (log n)
    first none l w f k = cc
    first (some q) l w f k = k q w f ∙ ap (asked acts) l ∙ sym (asked-cons a acts (log n))

-- Between two states in which both sides are at rest and agree, the commands that the server has handled
-- are the ones that the client has sent, once each and in order, whatever events come in between.
pub run-handled :
    (acts : List Act) (n m : Net)
    → IsAgreed n
    → IsAtRest n
    → run acts n ≡ some m
    → IsAtRest m
    → m.link.handled ≡ asked acts n.link.handled
run-handled acts n m v r e q =
    ap (λ k. in_flight k m.link.place ++ m.link.handled) (sym q.resting)
    ∙ run-Logs acts n m v e
    ∙ ap (λ k. asked acts (in_flight k n.link.place ++ n.link.handled)) r.resting
