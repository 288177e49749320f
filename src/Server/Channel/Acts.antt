-- ===== src/Server/Channel/Acts.antt =====
-- The server and a client agree after every sequence of steps.
use sc_xtcp.Base.{
  Bool, List, Option, Option-cases, [], ap, false, if_ind, inl, inr, none, not, refl, some, sym,
  true, ◌||◌, ◌∙◌, ◌∷◌, ◌≡◌,
}
use mathlib.Core.Path.{subst}
use sc_xtcp.Server.{Command, Event}
use sc_xtcp.Server.Channel.{
  Act, Client, Link, Net, Place, Token, act, at_delivery, at_rest, at_select, client_step,
  client_takes, client_takes_next, connection, delay, from_client, from_loop, from_rest,
  from_select, from_server, has, in_cmd_first, in_data, in_delivery, is_config, must_recv,
  must_send, note, notify_client, queue, recv, send, send_cmd, send_conn, sends_packet,
  server_sends_conn, server_step, server_takes, server_takes_next, takes_packet, wait,
  wait_until_ready, xtcpd_queue_event,
}
use sc_xtcp.Server.Channel.Agree.{Configures, Fits, IsAgreed, on_way}
use sc_xtcp.Server.Channel.Takes.{
  ClientAgrees, ClientGood, ServerAgrees, ServerGood, client-Good, server-Good,
}
use sc_xtcp.Server.Channel.Sends.{
  Brings, Sends, cmd-Sends, conn-Brings, delay-Sends, notify-Brings, recv-Sends, reply-Sends,
}

-- What holds of a net that a step leaves, if it can be made.
abbrev pub OnNet : (Net → Type 0) → Option Net → Type 0
OnNet P none = Unit
OnNet P (some n) = P n

-- The token that comes next to the client is one that it expects, and both sides agree when it has
-- taken it.
pub client_takes-IsAgreed :
    (n : Net) (t : Token) (ts : List Token)
    → IsAgreed n
    → n.to_client ≡ t ∷ ts
    → (k : Client) × (out : List Token) × (client_takes n.client t ≡ some (k, out))
      × IsAgreed (from_client (record n { to_client = ts }) k out)
client_takes-IsAgreed n t ts v e = taken (client_takes n.client t) refl good
  where
    good : ClientAgrees n.link.place n.link.notified n.to_server ts (client_takes n.client t)
    good =
        subst (ClientGood n.client n.link.place n.link.notified)
          (v.agreed ∙ ap (λ x. some (n.to_server, x)) e)
          (client-Good n.client n.link.place n.link.notified n.link refl v.fits)

    taken :
        (r : Option (Client × List Token))
        → client_takes n.client t ≡ r
        → ClientAgrees n.link.place n.link.notified n.to_server ts r
        → (k : Client) × (out : List Token) × (client_takes n.client t ≡ some (k, out))
          × IsAgreed (from_client (record n { to_client = ts }) k out)
    taken none q h = absurd h
    taken (some (k, out)) q h = (k, out, q, record { agreed = h; fits = v.fits })

-- The same for the server.
pub server_takes-IsAgreed :
    (n : Net) (t : Token) (ts : List Token)
    → IsAgreed n
    → n.to_server ≡ t ∷ ts
    → (l : Link) × (out : List Token) × (server_takes n.link.place t n.link ≡ some (l, out))
      × IsAgreed (from_server (record n { to_server = ts }) (l, out))
server_takes-IsAgreed n t ts v e = taken (server_takes n.link.place t n.link) refl good
  where
    good : ServerAgrees n.client ts n.to_client (server_takes n.link.place t n.link)
    good =
        subst (ServerGood n.client n.link.place n.link)
          (v.agreed ∙ ap (λ x. some (x, n.to_client)) e)
          (server-Good n.client n.link.place n.link.notified n.link refl v.fits)

    taken :
        (r : Option (Link × List Token))
        → server_takes n.link.place t n.link ≡ r
        → ServerAgrees n.client ts n.to_client r
        → (l : Link) × (out : List Token) × (server_takes n.link.place t n.link ≡ some (l, out))
          × IsAgreed (from_server (record n { to_server = ts }) (l, out))
    taken none q h = absurd h
    taken (some (l, out)) q h = (l, out, q, record { agreed = h.0; fits = h.1 })

-- A step of the client's own.
from_client-IsAgreed :
    (n : Net) (k : Client) (out : List Token)
    → IsAgreed n
    → Sends k n.link.place n.link.notified out (on_way n.client n.link.place n.link.notified)
    → IsAgreed (from_client n k out)
from_client-IsAgreed n k out v h = record {
  agreed = subst (Sends k n.link.place n.link.notified out) v.agreed h;
  fits = v.fits;
}

from_rest-IsAgreed :
    (n : Net) (c : Command) (k : Client)
    → IsAgreed n
    → n.client ≡ k
    → OnNet IsAgreed (from_rest n k c)
from_rest-IsAgreed n c at_rest v e =
    from_client-IsAgreed n (in_cmd_first c) _ v (rw e (cmd-Sends c n.link.place n.link.notified))
from_rest-IsAgreed n c _ v e = tt

takes_packet-IsAgreed :
    (n : Net) (b : Bool) (k : Client)
    → IsAgreed n
    → n.client ≡ k
    → OnNet IsAgreed (takes_packet n k b)
takes_packet-IsAgreed n true must_recv v e =
    from_client-IsAgreed n in_data _ v (rw e (recv-Sends n.link.place n.link.notified))
takes_packet-IsAgreed n false must_recv v e =
    from_client-IsAgreed n at_rest _ v (rw e (delay-Sends n.link.place n.link.notified))
takes_packet-IsAgreed n _ _ v e = tt

sends_packet-IsAgreed :
    (n : Net) (k : Client) → IsAgreed n → n.client ≡ k → OnNet IsAgreed (sends_packet n k)
sends_packet-IsAgreed n must_send v e =
    from_client-IsAgreed n at_rest _ v (rw e (reply-Sends n.link.place n.link.notified))
sends_packet-IsAgreed n _ v e = tt

-- A notification at the select, for an event that is queued or due.
notify-IsAgreed :
    (n : Net) (l : Link)
    → IsAgreed n
    → n.link.place ≡ at_select
    → l.place ≡ at_select
    → l.notified ≡ n.link.notified
    → Configures l.pending_event
    → (has l.pending_event || has l.due) ≡ true
    → IsAgreed (from_server n (notify_client l))
notify-IsAgreed n l v e d q c h = record {
  agreed =
      rw (d, q)
        (subst (Brings n.client at_select true (note (not n.link.notified)))
          (ap (λ p. on_way n.client p n.link.notified) (sym e) ∙ v.agreed)
          (notify-Brings n.client n.link.notified));
  fits = rw d (sym h, c);
}

from_select-IsAgreed :
    (n : Net) (p : Place) (due : Option Event) (l : Link)
    → n.link.place ≡ p
    → n.link.due ≡ due
    → (n.link.place ≡ at_select → IsAgreed (from_server n (notify_client l)))
    → OnNet IsAgreed (from_select n p due (notify_client l))
from_select-IsAgreed n at_select none l e d h = h e
from_select-IsAgreed n _ _ l e d h = tt

or-true : (b : Bool) → (b || true) ≡ true
or-true true = refl
or-true false = refl

queue-IsAgreed :
    (n : Net) (ev : Event)
    → IsAgreed n
    → is_config ev ≡ true
    → OnNet IsAgreed (from_select n n.link.place n.link.due (xtcpd_queue_event ev n.link))
unfolding xtcpd_queue_event
queue-IsAgreed n ev v c =
    from_select-IsAgreed n n.link.place n.link.due (record n.link { pending_event = some ev }) refl
      refl (λ e. notify-IsAgreed n _ v e e refl c refl)

wait-IsAgreed :
    (n : Net) (ev : Event)
    → IsAgreed n
    → OnNet IsAgreed (from_select n n.link.place n.link.due (wait_until_ready ev n.link))
unfolding wait_until_ready
wait-IsAgreed n ev v =
    from_select-IsAgreed n n.link.place n.link.due
      (record n.link { due = some ev; place = at_select }) refl refl
      (λ e. notify-IsAgreed n _ v e refl refl (subst (λ p. Fits p n.link) e v.fits).1 (or-true _))

from_loop-IsAgreed :
    (n : Net) (p : Place) → IsAgreed n → n.link.place ≡ p → OnNet IsAgreed (from_loop n p)
unfolding send_conn
from_loop-IsAgreed n at_delivery v e = elim (Option-cases n.link.due) [
  | inl d ↦ rw d tt
  | inr (ev, d) ↦ rw d (record {
    agreed =
        subst (Brings n.client (in_delivery ev) n.link.notified (connection ev ∷ []))
          (ap (λ p. on_way n.client p n.link.notified) (sym e) ∙ v.agreed)
          (conn-Brings n.client ev n.link.notified);
    fits = ((subst (λ p. Fits p n.link) e v.fits).0, refl);
  })
]
from_loop-IsAgreed n _ v e = tt

-- the next token is taken, if there is one
client_next-IsAgreed :
    (n : Net) (ts : List Token) → IsAgreed n → n.to_client ≡ ts → OnNet IsAgreed (client_step n ts)
client_next-IsAgreed n [] v e = tt
client_next-IsAgreed n (t ∷ ts) v e =
    let (k, out, f, w) = client_takes-IsAgreed n t ts v e in rw f w

server_next-IsAgreed :
    (n : Net) (ts : List Token) → IsAgreed n → n.to_server ≡ ts → OnNet IsAgreed (server_step n ts)
server_next-IsAgreed n [] v e = tt
server_next-IsAgreed n (t ∷ ts) v e =
    let (l, out, f, w) = server_takes-IsAgreed n t ts v e in rw f w

pub act-IsAgreed : (a : Act) (n : Net) → IsAgreed n → OnNet IsAgreed (act a n)
unfolding act
act-IsAgreed (send_cmd c) n v = from_rest-IsAgreed n c n.client v refl
act-IsAgreed recv n v = takes_packet-IsAgreed n true n.client v refl
act-IsAgreed delay n v = takes_packet-IsAgreed n false n.client v refl
act-IsAgreed send n v = sends_packet-IsAgreed n n.client v refl
act-IsAgreed client_takes_next n v = client_next-IsAgreed n n.to_client v refl
act-IsAgreed server_takes_next n v = server_next-IsAgreed n n.to_server v refl
act-IsAgreed server_sends_conn n v = from_loop-IsAgreed n n.link.place v refl
act-IsAgreed (queue ev) n v =
    if_ind (OnNet IsAgreed) (is_config ev) (queue-IsAgreed n ev v) (λ h. tt)
act-IsAgreed (wait ev) n v = wait-IsAgreed n ev v
