-- ===== src/Server/Channel.antt =====
-- The channel between the server and one client: `notified` and `pending_event` of
-- module_xtcp/src/xtcp_server.xc, and `send_cmd`, `xtcp_event` and the transfers of
-- module_xtcp/src/xtcp_client.xc. What is on its way is a list in each direction. A place is a
-- point at which one side waits for the other. The END tokens of a `master` and a `slave` are
-- written out where the other side checks for them itself; the transfer of a packet is the token `data`
-- or `reply`, and the words of a command or a connection, sent at once with the END behind them, are one
-- token.
pub mod Agree
pub mod Takes
pub mod Sends
pub mod Acts
pub mod Weight
pub mod Less
pub mod Turns
pub mod Settle
pub mod Nearer
pub mod Rounds
pub mod Handled
pub mod Log
pub mod Ignored
mod Tests
use sc_xtcp.Base.{
  Bool, List, Option, [], false, if◌then◌else◌, none, not, some, true, ◌++◌, ◌>>=◌, ◌∷◌,
}
use sc_xtcp.Server.{Command, Event, ifdown, ifup, recv_data, request_data, resend_data, sent_data}

-- What is sent on the channel; `ct_end` is XS1_CT_END.
pub data Token : Type 0 where
  ct_end cmd_token : Token
  command : Command → Token
  connection : Event → Token
  ready : Bool → Token
  data_block reply : Token

-- Where the server is with this client: at the select, behind the token of a command, at the end of the
-- connection of a queued event, behind the loop that waited for the client, at the end of the
-- connection of the event that it waited for, and in the two transactions that follow one.
pub data Place : Type 0 where
  at_select in_command at_delivery in_recv in_send : Place
  in_queued in_delivery : Event → Place

-- `notified[i]` and `pending_event[i]`, none for -1; `due` is the event for which the server waits
-- where i is `waiting_link`. `handled` has the commands, latest first.
pub record Link : Type 0 where
  pub notified : Bool
  pub pending_event : Option Event
  pub due : Option Event
  pub place : Place
  pub handled : List Command

-- `outct(c, XS1_CT_END); notified[i] = 1;` unless the client was notified
abbrev pub note : Bool → List Token
note true = ct_end ∷ []
note false = []

abbrev pub notify_client : Link → Link × List Token
notify_client l = (record l { notified = true }, note (not l.notified))

-- `xtcpd_server_init`
unfoldable pub xtcpd_server_init : Link → Link
xtcpd_server_init l = record l { notified = false; pending_event = none }

-- `xtcpd_queue_event`
unfoldable pub xtcpd_queue_event : Event → Link → Link × List Token
xtcpd_queue_event ev l = notify_client (record l { pending_event = some ev })

-- The start of `xtcpd_service_clients_until_ready`, called for an event.
unfoldable pub wait_until_ready : Event → Link → Link × List Token
wait_until_ready ev l = notify_client (record l { due = some ev; place = at_select })

-- the loop is left if the server waits for this client and no notification is out
abbrev pub leave_loop : Option Event → Place
leave_loop none = at_select
leave_loop (some ev) = at_delivery

-- XS1_CT_END at the select: the client answered
abbrev pub answered : Option Event → Link → Link × List Token
answered none l = (record l { notified = false; place = leave_loop l.due }, [])
answered (some ev) l = (record l { notified = false; place = in_queued ev }, connection ev ∷ [])

abbrev pub has : Option Event → Bool
has none = false
has (some ev) = true

-- the end of the connection that was queued: a notification for the event that is due
abbrev pub queued_taken : Link → Link × List Token
queued_taken l =
    (record l { notified = has l.due; pending_event = none; place = at_select }, note (has l.due))

-- The rest of `xtcpd_recv` or `xtcpd_send` behind the connection, or of `xtcpd_send_event`.
unfoldable pub after_delivery : Event → Link → Link
after_delivery recv_data l = record l { place = in_recv }
after_delivery request_data l = record l { place = in_send }
after_delivery sent_data l = record l { place = in_send }
after_delivery resend_data l = record l { place = in_send }
after_delivery _ l = record l { due = none; place = at_select }

abbrev pub finished : Link → Link
finished l = record l { due = none; place = at_select }

-- What the server does with the next token, and what it sends; a token that it does not expect is a
-- fault.
unfoldable pub server_takes : Place → Token → Link → Option (Link × List Token)
server_takes at_select ct_end l = some (answered l.pending_event l)
server_takes at_select cmd_token l =
    some (record l { place = in_command }, ct_end ∷ note (not l.notified))
server_takes in_command (command c) l =
    some (record l { place = at_select; handled = c ∷ l.handled }, ct_end ∷ note l.notified)
server_takes (in_queued ev) ct_end l = some (queued_taken l)
server_takes (in_delivery ev) ct_end l = some (after_delivery ev l, [])
server_takes in_recv (ready true) l = some (finished l, data_block ∷ ct_end ∷ [])
server_takes in_recv (ready false) l = some (wait_until_ready recv_data l)
server_takes in_send reply l = some (finished l, [])
server_takes _ _ l = none

-- `send_conn_and_complete` for the event that is due
unfoldable pub send_conn : Link → Option (Link × List Token)
send_conn l = l.due >>= λ ev. some (record l { place = in_delivery ev }, connection ev ∷ [])

-- Where the client is: at rest, at the checks of `send_cmd`, in `xtcp_event`, behind an event that
-- hands over or asks for data, and in `xtcp_recv`.
pub data Client : Type 0 where
  at_rest in_event must_recv must_send in_data in_data_end : Client
  in_cmd_first in_cmd_second in_cmd_last : Command → Client

-- what an event asks of the client
unfoldable pub after_event : Event → Client
after_event recv_data = must_recv
after_event request_data = must_send
after_event sent_data = must_send
after_event resend_data = must_send
after_event _ = at_rest

-- What the client does with the next token, and what it sends.
unfoldable pub client_takes : Client → Token → Option (Client × List Token)
client_takes at_rest ct_end = some (in_event, ct_end ∷ [])
client_takes in_event (connection ev) = some (after_event ev, ct_end ∷ [])
client_takes (in_cmd_first c) ct_end = some (in_cmd_second c, [])
client_takes (in_cmd_second c) ct_end = some (in_cmd_last c, command c ∷ [])
client_takes (in_cmd_last c) ct_end = some (at_rest, [])
client_takes in_data data_block = some (in_data_end, [])
client_takes in_data_end ct_end = some (at_rest, [])
client_takes _ _ = none

-- The channel with both sides.
pub record Net : Type 0 where
  pub link : Link
  pub client : Client
  pub to_server : List Token
  pub to_client : List Token

-- What each side does next on its own: `send_cmd`, `xtcp_recv`, the answer 0 that delays a packet, and
-- `xtcp_send`; and the server's calls for this client.
pub data Act : Type 0 where
  send_cmd : Command → Act
  recv delay send : Act
  client_takes_next server_takes_next server_sends_conn : Act
  queue wait : Event → Act

abbrev pub is_config : Event → Bool
is_config ifup = true
is_config ifdown = true
is_config _ = false

abbrev pub from_client : Net → Client → List Token → Net
from_client n k out = record n { client = k; to_server = n.to_server ++ out }

abbrev pub from_server : Net → Link × List Token → Net
from_server n (l, out) = record n { link = l; to_client = n.to_client ++ out }

abbrev pub client_step : Net → List Token → Option Net
client_step n [] = none
client_step n (t ∷ ts) =
    client_takes n.client t >>= λ r. some (from_client (record n { to_client = ts }) r.0 r.1)

abbrev pub server_step : Net → List Token → Option Net
server_step n [] = none
server_step n (t ∷ ts) =
    server_takes n.link.place t n.link >>= λ r. some (from_server (record n { to_server = ts }) r)

abbrev pub from_rest : Net → Client → Command → Option Net
from_rest n at_rest c = some (from_client n (in_cmd_first c) (cmd_token ∷ []))
from_rest n _ c = none

abbrev pub takes_packet : Net → Client → Bool → Option Net
takes_packet n must_recv true = some (from_client n in_data (ready true ∷ []))
takes_packet n must_recv false = some (from_client n at_rest (ready false ∷ []))
takes_packet n _ b = none

abbrev pub sends_packet : Net → Client → Option Net
sends_packet n must_send = some (from_client n at_rest (reply ∷ []))
sends_packet n _ = none

-- The server calls for a client from the select, with no other event for which it waits.
abbrev pub from_select : Net → Place → Option Event → Link × List Token → Option Net
from_select n at_select none r = some (from_server n r)
from_select n _ _ r = none

abbrev pub from_loop : Net → Place → Option Net
from_loop n at_delivery = send_conn n.link >>= λ r. some (from_server n r)
from_loop n _ = none

-- One step of either side; none where it is not at that point, or at a fault.
unfoldable pub act : Act → Net → Option Net
act (send_cmd c) n = from_rest n n.client c
act recv n = takes_packet n n.client true
act delay n = takes_packet n n.client false
act send n = sends_packet n n.client
act client_takes_next n = client_step n n.to_client
act server_takes_next n = server_step n n.to_server
act server_sends_conn n = from_loop n n.link.place
act (queue ev) n =
    let next = from_select n n.link.place n.link.due (xtcpd_queue_event ev n.link) in
    if is_config ev then next else none
act (wait ev) n = from_select n n.link.place n.link.due (wait_until_ready ev n.link)

unfoldable pub run : List Act → Net → Option Net
run [] n = some n
run (a ∷ acts) n = act a n >>= run acts
