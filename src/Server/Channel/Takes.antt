-- ===== src/Server/Channel/Takes.antt =====
-- Each side expects the token that comes next, and both agree after it.
use sc_xtcp.Base.{Bool, List, Option, [], false, none, refl, some, true, ◌++◌, ◌∷◌, ◌≡◌}
use mathlib.Core.Path.{subst}
use sc_xtcp.Server.{
  Command, Event, ifdown, ifup, new_connection, recv_data, request_data, resend_data, sent_data,
}
use sc_xtcp.Server.Channel.{
  Client, Link, Place, Token, after_delivery, after_event, answered, at_delivery, at_rest,
  at_select, client_takes, cmd_token, ct_end, has, in_cmd_first, in_cmd_last, in_cmd_second,
  in_command, in_data, in_data_end, in_delivery, in_event, in_queued, in_recv, in_send, is_config,
  must_recv, must_send, note, queued_taken, ready, server_takes, wait_until_ready,
}
use sc_xtcp.Server.Channel.Agree.{
  Configures, Fits, IsQuiet, IsTold, asks, behind_end, is_recv, on_way, owed,
}

-- What the client takes leaves both in agreement.
abbrev pub ClientAgrees :
    Place → Bool → List Token → List Token → Option (Client × List Token) → Type 0
ClientAgrees p n ts tc none = ⊥
ClientAgrees p n ts tc (some (k, out)) = on_way k p n ≡ some (ts ++ out, tc)

-- The same for the token that is first on its way.
abbrev pub ClientGood : Client → Place → Bool → Option (List Token × List Token) → Type 0
ClientGood k p n none = Unit
ClientGood k p n (some (ts, [])) = Unit
ClientGood k p n (some (ts, t ∷ tc)) = ClientAgrees p n ts tc (client_takes k t)

-- the client behind the connection of an event
event-Agrees :
    (ev : Event) → on_way (after_event ev) (in_delivery ev) false ≡ some (ct_end ∷ [], [])
unfolding on_way after_event
event-Agrees new_connection = refl
event-Agrees ev = refl

config-Agrees :
    (ev : Event)
    → is_config ev ≡ true
    → on_way (after_event ev) (in_queued ev) false ≡ some (ct_end ∷ [], [])
unfolding on_way after_event
config-Agrees ifup h = refl
config-Agrees ifdown h = refl
config-Agrees ev h = absurd cc

client-behind :
    (k : Client) (p : Place) (n b : Bool) (ts : List Token) → ClientGood k p n (behind_end b ts)
client-behind k p n true ts = tt
client-behind k p n false ts = tt

pub client-Good :
    (k : Client) (p : Place) (n : Bool) (l : Link)
    → l.notified ≡ n
    → Fits p l
    → ClientGood k p n (on_way k p n)
unfolding on_way client_takes
client-Good at_rest at_select true l e f = refl
client-Good at_rest at_select false l e f = tt
client-Good (in_cmd_first c) at_select true l e f = refl
client-Good (in_cmd_first c) at_select false l e f = tt
client-Good (in_cmd_last c) at_select n l e f = refl
client-Good in_data at_select n l e f = refl
client-Good in_data_end at_select n l e f = refl
client-Good (in_cmd_first c) in_command n l e f = refl
client-Good (in_cmd_second c) in_command n l e f = refl
client-Good in_event (in_queued ev) false l e f = config-Agrees ev f.1
client-Good in_event (in_queued ev) true l e f = absurd cc
client-Good in_event (in_delivery ev) false l e f = event-Agrees ev
client-Good in_event (in_delivery ev) true l e f = absurd cc
client-Good in_event at_select true l e f = tt
client-Good in_event at_select false l e f = tt
client-Good (in_cmd_second c) at_select true l e f = tt
client-Good (in_cmd_second c) at_select false l e f = tt
client-Good must_recv (in_delivery ev) n l e f =
    client-behind must_recv (in_delivery ev) n (is_recv ev) _
client-Good in_data (in_delivery ev) n l e f =
    client-behind in_data (in_delivery ev) n (is_recv ev) _
client-Good must_send (in_delivery ev) n l e f =
    client-behind must_send (in_delivery ev) n (asks ev) _
client-Good must_recv at_select n l e f = tt
client-Good must_send at_select n l e f = tt
client-Good in_data_end at_delivery n l e f = tt
client-Good _ _ n l e f = tt

-- What the server takes leaves both in agreement.
abbrev pub ServerAgrees : Client → List Token → List Token → Option (Link × List Token) → Type 0
ServerAgrees k ts tc none = ⊥
ServerAgrees k ts tc (some (l, out)) =
    (on_way k l.place l.notified ≡ some (ts, tc ++ out)) × Fits l.place l

abbrev pub ServerGood : Client → Place → Link → Option (List Token × List Token) → Type 0
ServerGood k p l none = Unit
ServerGood k p l (some ([], tc)) = Unit
ServerGood k p l (some (t ∷ ts, tc)) = ServerAgrees k ts tc (server_takes p t l)

-- An END at the select, by what is queued and what is due.
answered-Agrees :
    (pending due : Option Event) (l : Link)
    → l.pending_event ≡ pending
    → l.due ≡ due
    → l.notified ≡ true
    → IsTold l
    → ServerAgrees in_event [] [] (some (answered pending l))
unfolding on_way
answered-Agrees (some ev) due l e d n t = (refl, (refl, subst Configures e t.1))
answered-Agrees none (some ev) l e d n t = rw d (refl, ((refl, e), refl))
answered-Agrees none none l e d n t = absurd cc

-- The END of a queued event's connection.
queued-Agrees :
    (k : Client) (due : Option Event) (l : Link) (ts : List Token)
    → l.due ≡ due
    → ((n : Bool) → on_way k at_select n ≡ some (ts, note n))
    → ServerAgrees k ts [] (some (queued_taken l))
queued-Agrees k due l ts d h = (h (has l.due), (refl, tt))

-- The END of a connection that was due.
delivered-Agrees :
    (k : Client) (ev : Event) (l : Link) (ts : List Token)
    → IsQuiet l
    → l.due ≡ some ev
    → on_way k (after_delivery ev l).place false ≡ some (ts, [])
    → ServerAgrees k ts [] (some (after_delivery ev l, []))
unfolding after_delivery
delivered-Agrees k recv_data l ts q d h = (rw q.0 h, (q, rw d refl))
delivered-Agrees k request_data l ts q d h = (rw q.0 h, (q, rw d refl))
delivered-Agrees k sent_data l ts q d h = (rw q.0 h, (q, rw d refl))
delivered-Agrees k resend_data l ts q d h = (rw q.0 h, (q, rw d refl))
delivered-Agrees k ev l ts q d h = (rw q.0 h, (rw (q.0, q.1) refl, rw q.1 tt))

server-behind :
    (k : Client) (ev : Event) (b : Bool) (l : Link) (ts : List Token)
    → IsQuiet l
    → l.due ≡ some ev
    → (b ≡ true → on_way k (after_delivery ev l).place false ≡ some (ts, []))
    → ServerGood k (in_delivery ev) l (behind_end b ts)
unfolding server_takes
server-behind k ev true l ts q d h = delivered-Agrees k ev l ts q d (h refl)
server-behind k ev false l ts q d h = tt

rest-Agrees :
    (ev : Event) (l : Link) → on_way at_rest (after_delivery ev l).place false ≡ some (owed ev, [])
unfolding on_way after_delivery
rest-Agrees recv_data l = refl
rest-Agrees ev l = refl

asking-Agrees :
    (ev : Event) (c : Command) (l : Link)
    → on_way (in_cmd_first c) (after_delivery ev l).place false
      ≡ some (owed ev ++ cmd_token ∷ [], [])
unfolding on_way after_delivery
asking-Agrees recv_data c l = refl
asking-Agrees ev c l = refl

recv-Agrees :
    (ev : Event) (l : Link)
    → is_recv ev ≡ true
    → (on_way must_recv (after_delivery ev l).place false ≡ some ([], []))
      × (on_way in_data (after_delivery ev l).place false ≡ some (ready true ∷ [], []))
unfolding on_way after_delivery
recv-Agrees recv_data l h = (refl, refl)
recv-Agrees ev l h = absurd cc

send-Agrees :
    (ev : Event) (l : Link)
    → asks ev ≡ true
    → on_way must_send (after_delivery ev l).place false ≡ some ([], [])
unfolding on_way after_delivery
send-Agrees request_data l h = refl
send-Agrees sent_data l h = refl
send-Agrees resend_data l h = refl
send-Agrees ev l h = absurd cc

pub server-Good :
    (k : Client) (p : Place) (n : Bool) (l : Link)
    → l.notified ≡ n
    → Fits p l
    → ServerGood k p l (on_way k p n)
unfolding on_way server_takes wait_until_ready
server-Good (in_cmd_first c) at_select true l e f = (rw e refl, f)
server-Good (in_cmd_first c) at_select false l e f = (rw e refl, f)
server-Good (in_cmd_second c) at_select true l e f = (rw e refl, f)
server-Good (in_cmd_second c) at_select false l e f = tt
server-Good in_event at_select true l e f = answered-Agrees l.pending_event l.due l refl refl e f
server-Good in_event at_select false l e f = tt
server-Good (in_cmd_last c) in_command n l e f = (refl, f)
server-Good at_rest (in_queued ev) n l e f = queued-Agrees at_rest l.due l [] refl (λ n. refl)
server-Good (in_cmd_first c) (in_queued ev) n l e f =
    queued-Agrees (in_cmd_first c) l.due l (cmd_token ∷ []) refl (λ n. refl)
server-Good at_rest (in_delivery ev) n l e f =
    delivered-Agrees at_rest ev l (owed ev) f.0 f.1 (rest-Agrees ev l)
server-Good (in_cmd_first c) (in_delivery ev) n l e f =
    delivered-Agrees (in_cmd_first c) ev l (owed ev ++ cmd_token ∷ []) f.0 f.1
      (asking-Agrees ev c l)
server-Good must_recv (in_delivery ev) n l e f =
    server-behind must_recv ev (is_recv ev) l [] f.0 f.1 (λ h. (recv-Agrees ev l h).0)
server-Good in_data (in_delivery ev) n l e f =
    server-behind in_data ev (is_recv ev) l (ready true ∷ []) f.0 f.1 (λ h. (recv-Agrees ev l h).1)
server-Good must_send (in_delivery ev) n l e f =
    server-behind must_send ev (asks ev) l [] f.0 f.1 (send-Agrees ev l)
server-Good in_data in_recv n l e f = rw (f.0.0, f.0.1) (refl, (refl, tt))
server-Good at_rest in_recv n l e f = rw (f.0.0, f.0.1) (refl, (refl, tt))
server-Good (in_cmd_first c) in_recv n l e f = rw (f.0.0, f.0.1) (refl, (refl, tt))
server-Good at_rest in_send n l e f = rw (f.0.0, f.0.1) (refl, (refl, tt))
server-Good (in_cmd_first c) in_send n l e f = rw (f.0.0, f.0.1) (refl, (refl, tt))
server-Good in_data_end at_select n l e f = tt
server-Good _ _ n l e f = tt
