-- ===== src/Server/Channel/Agree.antt =====
-- What is on its way between the server and a client, by the places of both.
use sc_xtcp.Base.{Bool, List, Option, [], false, none, some, true, ◌++◌, ◌||◌, ◌∷◌, ◌≡◌}
use sc_xtcp.Server.{Event, recv_data, request_data, resend_data, sent_data}
use sc_xtcp.Server.Channel.{
  Client, Link, Net, Place, Token, at_delivery, at_rest, at_select, cmd_token, command, connection,
  ct_end, data_block, has, in_cmd_first, in_cmd_last, in_cmd_second, in_command, in_data,
  in_data_end, in_delivery, in_event, in_queued, in_recv, in_send, is_config, must_recv, must_send,
  note, ready, reply,
}

-- what a client at rest has sent behind the END of a connection
abbrev pub owed : Event → List Token
owed recv_data = ready false ∷ []
owed request_data = reply ∷ []
owed sent_data = reply ∷ []
owed resend_data = reply ∷ []
owed _ = []

abbrev pub asks : Event → Bool
asks request_data = true
asks sent_data = true
asks resend_data = true
asks _ = false

-- an END and what follows it, if the event is one that the client is at
abbrev pub behind_end : Bool → List Token → Option (List Token × List Token)
behind_end true ts = some (ct_end ∷ ts, [])
behind_end false ts = none

abbrev pub is_recv : Event → Bool
is_recv recv_data = true
is_recv _ = false

-- The tokens to the server and to the client, where `notified` is this; none where the places do not
-- go together.
unfoldable pub on_way : Client → Place → Bool → Option (List Token × List Token)
on_way at_rest at_select n = some ([], note n)
on_way (in_cmd_first c) at_select n = some (cmd_token ∷ [], note n)
on_way (in_cmd_second c) at_select true = some (cmd_token ∷ [], [])
on_way (in_cmd_last c) at_select n = some ([], ct_end ∷ note n)
on_way in_event at_select true = some (ct_end ∷ [], [])
on_way in_data at_select n = some ([], data_block ∷ ct_end ∷ note n)
on_way in_data_end at_select n = some ([], ct_end ∷ note n)
on_way (in_cmd_first c) in_command n = some ([], ct_end ∷ ct_end ∷ [])
on_way (in_cmd_second c) in_command n = some ([], ct_end ∷ [])
on_way (in_cmd_last c) in_command n = some (command c ∷ [], [])
on_way in_event (in_queued ev) n = some ([], connection ev ∷ [])
on_way at_rest (in_queued ev) n = some (ct_end ∷ [], [])
on_way (in_cmd_first c) (in_queued ev) n = some (ct_end ∷ cmd_token ∷ [], [])
on_way in_event at_delivery n = some ([], [])
on_way in_event (in_delivery ev) n = some ([], connection ev ∷ [])
on_way at_rest (in_delivery ev) n = some (ct_end ∷ owed ev, [])
on_way (in_cmd_first c) (in_delivery ev) n = some (ct_end ∷ (owed ev ++ cmd_token ∷ []), [])
on_way must_recv (in_delivery ev) n = behind_end (is_recv ev) []
on_way in_data (in_delivery ev) n = behind_end (is_recv ev) (ready true ∷ [])
on_way must_send (in_delivery ev) n = behind_end (asks ev) []
on_way must_recv in_recv n = some ([], [])
on_way in_data in_recv n = some (ready true ∷ [], [])
on_way at_rest in_recv n = some (ready false ∷ [], [])
on_way (in_cmd_first c) in_recv n = some (ready false ∷ cmd_token ∷ [], [])
on_way must_send in_send n = some ([], [])
on_way at_rest in_send n = some (reply ∷ [], [])
on_way (in_cmd_first c) in_send n = some (reply ∷ cmd_token ∷ [], [])
on_way _ _ n = none

abbrev pub Configures : Option Event → Type 0
Configures none = Unit
Configures (some ev) = is_config ev ≡ true

-- The client is notified just where an event is queued for it or the server waits for it.
abbrev pub IsTold : Link → Type 0
IsTold l = (l.notified ≡ (has l.pending_event || has l.due)) × Configures l.pending_event

abbrev pub IsQuiet : Link → Type 0
IsQuiet l = (l.notified ≡ false) × (l.pending_event ≡ none)

-- What holds of the two variables and of the event that is due, by the place of the server.
abbrev pub Fits : Place → Link → Type 0
Fits at_select l = IsTold l
Fits in_command l = IsTold l
Fits (in_queued ev) l = (l.notified ≡ false) × (is_config ev ≡ true)
Fits at_delivery l = IsQuiet l × (has l.due ≡ true)
Fits (in_delivery ev) l = IsQuiet l × (l.due ≡ some ev)
Fits in_recv l = IsQuiet l × (has l.due ≡ true)
Fits in_send l = IsQuiet l × (has l.due ≡ true)

-- Both sides agree on what is on its way.
pub record IsAgreed (n : Net) : Type 0 where
  pub agreed : on_way n.client n.link.place n.link.notified ≡ some (n.to_server, n.to_client)
  pub fits : Fits n.link.place n.link
