-- ===== src/Server/Channel/Less.antt =====
-- Each step that a side has before it brings both nearer to rest.
use sc_xtcp.Base.{Bool, List, Option, [], arith, false, none, refl, some, true, ◌+◌, ◌<◌, ◌∷◌, ◌≡◌}
use sc_xtcp.Server.{
  Command, Event, ifdown, ifup, new_connection, recv_data, request_data, resend_data, sent_data,
}
use sc_xtcp.Server.Channel.{
  Client, Link, Place, Token, after_delivery, after_event, answered, at_rest, at_select,
  client_takes, in_cmd_first, in_cmd_last, in_cmd_second, in_command, in_data, in_data_end,
  in_delivery, in_event, in_queued, in_recv, in_send, is_config, must_recv, must_send, ready,
  server_takes, wait_until_ready,
}
use sc_xtcp.Server.Channel.Agree.{Fits, IsTold, asks, behind_end, is_recv, on_way}
use sc_xtcp.Server.Channel.Weight.{due_steps, event_steps, rest_steps, steps_left}

-- fewer steps are left with the client at its next place
abbrev pub ClientLess : Client → Place → Link → Option (Client × List Token) → Type 0
ClientLess k p l none = Unit
ClientLess k p l (some (j, out)) = steps_left j p l < steps_left k p l

abbrev pub ClientNearer : Client → Place → Link → Option (List Token × List Token) → Type 0
ClientNearer k p l none = Unit
ClientNearer k p l (some (ts, [])) = Unit
ClientNearer k p l (some (ts, t ∷ tc)) = ClientLess k p l (client_takes k t)

told_steps : (l : Link) → l.notified ≡ true → IsTold l → 0 < event_steps l
told_steps l e t = ground (arith, e, t.0)

taken_steps : (ev : Event) (l : Link) → steps_left (after_event ev) (in_delivery ev) l < 6
unfolding steps_left after_event
taken_steps new_connection l = omega arith
taken_steps ev l = omega arith

config_steps :
    (ev : Event) (l : Link)
    → is_config ev ≡ true
    → steps_left (after_event ev) (in_queued ev) l < 2 + due_steps l
unfolding steps_left after_event
config_steps ifup l h = omega arith
config_steps ifdown l h = omega arith
config_steps ev l h = absurd cc

client_behind :
    (k : Client) (p : Place) (l : Link) (b : Bool) (ts : List Token)
    → ClientNearer k p l (behind_end b ts)
client_behind k p l true ts = tt
client_behind k p l false ts = tt

pub client-Nearer :
    (k : Client) (p : Place) (n : Bool) (l : Link)
    → l.notified ≡ n
    → Fits p l
    → ClientNearer k p l (on_way k p n)
unfolding on_way client_takes steps_left
client-Nearer at_rest at_select true l e f = omega (arith, told_steps l e f)
client-Nearer at_rest at_select false l e f = tt
client-Nearer (in_cmd_first c) at_select true l e f = omega arith
client-Nearer (in_cmd_first c) at_select false l e f = tt
client-Nearer (in_cmd_second c) at_select true l e f = tt
client-Nearer (in_cmd_second c) at_select false l e f = tt
client-Nearer (in_cmd_last c) at_select n l e f = omega arith
client-Nearer in_data at_select n l e f = omega arith
client-Nearer in_data_end at_select n l e f = omega arith
client-Nearer (in_cmd_first c) in_command n l e f = omega arith
client-Nearer (in_cmd_second c) in_command n l e f = omega arith
client-Nearer in_event at_select true l e f = tt
client-Nearer in_event at_select false l e f = tt
client-Nearer in_event (in_queued ev) n l e f = config_steps ev l f.1
client-Nearer in_event (in_delivery ev) n l e f = taken_steps ev l
client-Nearer must_recv (in_delivery ev) n l e f =
    client_behind must_recv (in_delivery ev) l (is_recv ev) _
client-Nearer in_data (in_delivery ev) n l e f =
    client_behind in_data (in_delivery ev) l (is_recv ev) _
client-Nearer must_send (in_delivery ev) n l e f =
    client_behind must_send (in_delivery ev) l (asks ev) _
client-Nearer must_recv at_select n l e f = tt
client-Nearer must_send at_select n l e f = tt
client-Nearer _ _ n l e f = tt

-- fewer steps are left with the server at its next place
abbrev pub ServerLess : Client → Place → Link → Option (Link × List Token) → Type 0
ServerLess k p l none = Unit
ServerLess k p l (some (m, out)) = steps_left k m.place m < steps_left k p l

abbrev pub ServerNearer : Client → Place → Link → Option (List Token × List Token) → Type 0
ServerNearer k p l none = Unit
ServerNearer k p l (some ([], tc)) = Unit
ServerNearer k p l (some (t ∷ ts, tc)) = ServerLess k p l (server_takes p t l)

answered_steps :
    (pending due : Option Event) (l : Link)
    → l.pending_event ≡ pending
    → l.due ≡ due
    → l.notified ≡ true
    → IsTold l
    → ServerLess in_event at_select l (some (answered pending l))
unfolding steps_left
answered_steps (some ev) due l e d n t = rw e (omega arith)
answered_steps none (some ev) l e d n t = rw (e, d) (omega arith)
answered_steps none none l e d n t = absurd cc

rest_nearer :
    (ev : Event) (l : Link)
    → l.pending_event ≡ none
    → steps_left at_rest (after_delivery ev l).place (after_delivery ev l) < rest_steps ev
unfolding steps_left after_delivery
rest_nearer recv_data l q = omega arith
rest_nearer request_data l q = omega arith
rest_nearer sent_data l q = omega arith
rest_nearer resend_data l q = omega arith
rest_nearer ev l q = rw q (omega arith)

asking_nearer :
    (ev : Event) (c : Command) (l : Link)
    → l.pending_event ≡ none
    → steps_left (in_cmd_first c) (after_delivery ev l).place (after_delivery ev l)
      < 5 + rest_steps ev
unfolding steps_left after_delivery
asking_nearer recv_data c l q = omega arith
asking_nearer request_data c l q = omega arith
asking_nearer sent_data c l q = omega arith
asking_nearer resend_data c l q = omega arith
asking_nearer ev c l q = rw q (omega arith)

recv_nearer :
    (ev : Event) (l : Link)
    → is_recv ev ≡ true
    → (steps_left must_recv (after_delivery ev l).place (after_delivery ev l) < 5)
      × (steps_left in_data (after_delivery ev l).place (after_delivery ev l) < 4)
unfolding steps_left after_delivery
recv_nearer recv_data l h = (omega arith, omega arith)
recv_nearer ev l h = absurd cc

send_nearer :
    (ev : Event) (l : Link)
    → asks ev ≡ true
    → steps_left must_send (after_delivery ev l).place (after_delivery ev l) < 3
unfolding steps_left after_delivery
send_nearer request_data l h = omega arith
send_nearer sent_data l h = omega arith
send_nearer resend_data l h = omega arith
send_nearer ev l h = absurd cc

server_behind :
    (k : Client) (ev : Event) (l : Link) (b : Bool) (ts : List Token)
    → (b ≡ true
        → steps_left k (after_delivery ev l).place (after_delivery ev l)
          < steps_left k (in_delivery ev) l)
    → ServerNearer k (in_delivery ev) l (behind_end b ts)
unfolding server_takes
server_behind k ev l true ts h = h refl
server_behind k ev l false ts h = tt

pub server-Nearer :
    (k : Client) (p : Place) (n : Bool) (l : Link)
    → l.notified ≡ n
    → Fits p l
    → ServerNearer k p l (on_way k p n)
unfolding on_way server_takes steps_left wait_until_ready
server-Nearer (in_cmd_first c) at_select n l e f = omega arith
server-Nearer (in_cmd_second c) at_select true l e f = omega arith
server-Nearer (in_cmd_second c) at_select false l e f = tt
server-Nearer in_event at_select true l e f = answered_steps l.pending_event l.due l refl refl e f
server-Nearer in_event at_select false l e f = tt
server-Nearer (in_cmd_last c) in_command n l e f = omega arith
server-Nearer at_rest (in_queued ev) n l e f = omega arith
server-Nearer (in_cmd_first c) (in_queued ev) n l e f = omega arith
server-Nearer at_rest (in_delivery ev) n l e f = rest_nearer ev l f.0.1
server-Nearer (in_cmd_first c) (in_delivery ev) n l e f = asking_nearer ev c l f.0.1
server-Nearer must_recv (in_delivery ev) n l e f =
    server_behind must_recv ev l (is_recv ev) [] (λ h. (recv_nearer ev l h).0)
server-Nearer in_data (in_delivery ev) n l e f =
    server_behind in_data ev l (is_recv ev) (ready true ∷ []) (λ h. (recv_nearer ev l h).1)
server-Nearer must_send (in_delivery ev) n l e f =
    server_behind must_send ev l (asks ev) [] (send_nearer ev l)
server-Nearer in_data in_recv n l e f = rw f.0.1 (omega arith)
server-Nearer at_rest in_recv n l e f = rw f.0.1 (omega arith)
server-Nearer (in_cmd_first c) in_recv n l e f = rw f.0.1 (omega arith)
server-Nearer at_rest in_send n l e f = rw f.0.1 (omega arith)
server-Nearer (in_cmd_first c) in_send n l e f = rw f.0.1 (omega arith)
server-Nearer in_data_end at_select n l e f = tt
server-Nearer _ _ n l e f = tt
