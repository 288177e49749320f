-- ===== src/Server/Channel/Handled.antt =====
-- The commands that a client sends are handled once each and in order.
use sc_xtcp.Base.{Bool, List, Option, [], ap, false, none, refl, some, true, ◌++◌, ◌∷◌, ◌≡◌}
use sc_xtcp.Server.{Command, Event, recv_data}
use sc_xtcp.Server.Channel.{
  Act, Client, Link, Net, Place, Token, after_delivery, after_event, answered, at_rest, at_select,
  client_takes, in_cmd_first, in_cmd_last, in_cmd_second, in_command, in_data, in_data_end,
  in_delivery, in_event, in_queued, in_recv, in_send, must_recv, must_send, ready, send_cmd,
  server_takes, wait_until_ready,
}
use sc_xtcp.Server.Channel.Agree.{asks, behind_end, is_recv, on_way}

abbrev pub last_flight : Command → Place → List Command
last_flight c in_command = c ∷ []
last_flight c _ = []

-- the command that was sent and is not handled yet
abbrev pub in_flight : Client → Place → List Command
in_flight (in_cmd_first c) p = c ∷ []
in_flight (in_cmd_second c) p = c ∷ []
in_flight (in_cmd_last c) p = last_flight c p
in_flight at_rest p = []
in_flight in_event p = []
in_flight must_recv p = []
in_flight must_send p = []
in_flight in_data p = []
in_flight in_data_end p = []

-- the commands up to now, latest first
abbrev pub log : Net → List Command
log n = in_flight n.client n.link.place ++ n.link.handled

-- The commands that steps send, on top of those before them.
abbrev pub asked : List Act → List Command → List Command
asked [] cs = cs
asked (send_cmd c ∷ acts) cs = asked acts (c ∷ cs)
asked (_ ∷ acts) cs = asked acts cs

abbrev pub ClientLog : Client → Place → Option (Client × List Token) → Type 0
ClientLog k p none = Unit
ClientLog k p (some (j, out)) = in_flight j p ≡ in_flight k p

abbrev pub ClientKeeps : Client → Place → Option (List Token × List Token) → Type 0
ClientKeeps k p none = Unit
ClientKeeps k p (some (ts, [])) = Unit
ClientKeeps k p (some (ts, t ∷ tc)) = ClientLog k p (client_takes k t)

event_log : (ev : Event) (p : Place) → in_flight (after_event ev) p ≡ []
unfolding after_event
event_log recv_data p = refl
event_log ev p = refl

client_behind_log :
    (k : Client) (p : Place) (b : Bool) (ts : List Token) → ClientKeeps k p (behind_end b ts)
client_behind_log k p true ts = tt
client_behind_log k p false ts = tt

pub client-Keeps : (k : Client) (p : Place) (n : Bool) → ClientKeeps k p (on_way k p n)
unfolding on_way client_takes
client-Keeps at_rest at_select true = refl
client-Keeps at_rest at_select false = tt
client-Keeps (in_cmd_first c) at_select true = refl
client-Keeps (in_cmd_first c) at_select false = tt
client-Keeps (in_cmd_second c) at_select true = tt
client-Keeps (in_cmd_second c) at_select false = tt
client-Keeps (in_cmd_last c) at_select n = refl
client-Keeps in_data at_select n = refl
client-Keeps in_data_end at_select n = refl
client-Keeps (in_cmd_first c) in_command n = refl
client-Keeps (in_cmd_second c) in_command n = refl
client-Keeps in_event at_select true = tt
client-Keeps in_event at_select false = tt
client-Keeps in_event (in_queued ev) n = event_log ev (in_queued ev)
client-Keeps in_event (in_delivery ev) n = event_log ev (in_delivery ev)
client-Keeps must_recv (in_delivery ev) n =
    client_behind_log must_recv (in_delivery ev) (is_recv ev) []
client-Keeps in_data (in_delivery ev) n =
    client_behind_log in_data (in_delivery ev) (is_recv ev) (ready true ∷ [])
client-Keeps must_send (in_delivery ev) n =
    client_behind_log must_send (in_delivery ev) (asks ev) []
client-Keeps must_recv at_select n = tt
client-Keeps must_send at_select n = tt
client-Keeps _ _ n = tt

abbrev pub ServerLog : Client → Place → Link → Option (Link × List Token) → Type 0
ServerLog k p l none = Unit
ServerLog k p l (some (m, out)) = in_flight k m.place ++ m.handled ≡ in_flight k p ++ l.handled

abbrev pub ServerKeeps : Client → Place → Link → Option (List Token × List Token) → Type 0
ServerKeeps k p l none = Unit
ServerKeeps k p l (some ([], tc)) = Unit
ServerKeeps k p l (some (t ∷ ts, tc)) = ServerLog k p l (server_takes p t l)

delivery_log : (ev : Event) (l : Link) → (after_delivery ev l).handled ≡ l.handled
unfolding after_delivery
delivery_log recv_data l = refl
delivery_log ev l = refl

server_behind_log :
    (k : Client) (ev : Event) (l : Link) (b : Bool) (ts : List Token)
    → ServerLog k (in_delivery ev) l (some (after_delivery ev l, []))
    → ServerKeeps k (in_delivery ev) l (behind_end b ts)
unfolding server_takes
server_behind_log k ev l true ts h = h
server_behind_log k ev l false ts h = tt

answered_log :
    (pending : Option Event) (l : Link) → ServerLog in_event at_select l (some (answered pending l))
answered_log none l = refl
answered_log (some ev) l = refl

pub server-Keeps : (k : Client) (p : Place) (n : Bool) (l : Link) → ServerKeeps k p l (on_way k p n)
unfolding on_way server_takes wait_until_ready
server-Keeps (in_cmd_first c) at_select n l = refl
server-Keeps (in_cmd_second c) at_select true l = refl
server-Keeps (in_cmd_second c) at_select false l = tt
server-Keeps in_event at_select true l = answered_log l.pending_event l
server-Keeps in_event at_select false l = tt
server-Keeps (in_cmd_last c) in_command n l = refl
server-Keeps at_rest (in_queued ev) n l = refl
server-Keeps (in_cmd_first c) (in_queued ev) n l = refl
server-Keeps at_rest (in_delivery ev) n l = delivery_log ev l
server-Keeps (in_cmd_first c) (in_delivery ev) n l = ap (λ cs. c ∷ cs) (delivery_log ev l)
server-Keeps must_recv (in_delivery ev) n l =
    server_behind_log must_recv ev l (is_recv ev) [] (delivery_log ev l)
server-Keeps in_data (in_delivery ev) n l =
    server_behind_log in_data ev l (is_recv ev) (ready true ∷ []) (delivery_log ev l)
server-Keeps must_send (in_delivery ev) n l =
    server_behind_log must_send ev l (asks ev) [] (delivery_log ev l)
server-Keeps in_data in_recv n l = refl
server-Keeps at_rest in_recv n l = refl
server-Keeps (in_cmd_first c) in_recv n l = refl
server-Keeps at_rest in_send n l = refl
server-Keeps (in_cmd_first c) in_send n l = refl
server-Keeps in_data_end at_select n l = tt
server-Keeps _ _ n l = tt
