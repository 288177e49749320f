-- ===== src/Server/Channel/Nearer.antt =====
-- That every step that goes on brings both sides nearer to the rest.
use sc_xtcp.Base.{List, [], ap, none, refl, some, sym, true, ◌<◌, ◌∙◌, ◌∷◌, ◌≡◌}
use mathlib.Core.Path.{subst}
use sc_xtcp.Server.Channel.{
  Act, Client, Net, Place, Token, act, at_delivery, client_step, delay, from_loop, queue, send_cmd,
  sends_packet, takes_packet, wait, client_takes_next, must_recv, must_send, recv, send,
  server_sends_conn, server_step, server_takes_next,
}
use sc_xtcp.Server.Channel.Agree.{IsAgreed}
use sc_xtcp.Server.Channel.Settle.{
  Nearer, client_turn, goes_on, left, loop_turn, packet_turn, request_turn, server_turn,
}

from_packet : (k : Client) (n m : Net) → takes_packet n k true ≡ some m → k ≡ must_recv
from_packet must_recv n m e = refl
from_packet _ n m e = cc

from_request : (k : Client) (n m : Net) → sends_packet n k ≡ some m → k ≡ must_send
from_request must_send n m e = refl
from_request _ n m e = cc

from_delivery : (p : Place) (n m : Net) → from_loop n p ≡ some m → p ≡ at_delivery
from_delivery at_delivery n m e = refl
from_delivery _ n m e = cc

the_same : (n m : Net) (a : Act) → act a n ≡ some m → Nearer n a → left m < left n
the_same n m a e (k, f, w, less) = subst (λ x. left x < left n) (same k (sym f ∙ e)) less
  where
    same : (x : Net) → some x ≡ some m → x ≡ m
    same x h = cc

-- Every step that goes on comes nearer to the rest.
pub goes_on-less :
    (a : Act) (n m : Net) → goes_on a ≡ true → IsAgreed n → act a n ≡ some m → left m < left n
unfolding act
goes_on-less recv n m g v e = the_same n m recv e (packet_turn n v (from_packet n.client n m e))
goes_on-less send n m g v e = the_same n m send e (request_turn n v (from_request n.client n m e))
goes_on-less client_takes_next n m g v e = go n.to_client refl
  where
    go : (ts : List Token) → n.to_client ≡ ts → left m < left n
    go [] f = absurd (no_token (sym (ap (client_step n) f) ∙ e))
      where
        no_token : none ≡ some m → ⊥
        no_token h = cc
    go (t ∷ ts) f = the_same n m client_takes_next e (client_turn n t ts v f)
goes_on-less server_takes_next n m g v e = go n.to_server refl
  where
    go : (ts : List Token) → n.to_server ≡ ts → left m < left n
    go [] f = absurd (no_token (sym (ap (server_step n) f) ∙ e))
      where
        no_token : none ≡ some m → ⊥
        no_token h = cc
    go (t ∷ ts) f = the_same n m server_takes_next e (server_turn n t ts v f)
goes_on-less server_sends_conn n m g v e =
    the_same n m server_sends_conn e (loop_turn n v (from_delivery n.link.place n m e))
goes_on-less (send_cmd c) n m g v e = absurd cc
goes_on-less delay n m g v e = absurd cc
goes_on-less (queue ev) n m g v e = absurd cc
goes_on-less (wait ev) n m g v e = absurd cc
