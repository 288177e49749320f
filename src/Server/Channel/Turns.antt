-- ===== src/Server/Channel/Turns.antt =====
-- Whose turn it is, by the places of both sides.
use sc_xtcp.Base.{Bool, List, Option, [], false, none, refl, some, true, ◌++◌, ◌∷◌, ◌≡◌}
use sc_xtcp.Server.Channel.{
  Client, Place, Token, at_delivery, at_rest, at_select, cmd_token, command, connection, ct_end,
  data_block, in_cmd_first, in_cmd_last, in_cmd_second, in_command, in_data, in_data_end,
  in_delivery, in_event, in_queued, in_recv, in_send, must_recv, must_send, note, ready, reply,
}
use sc_xtcp.Server.Channel.Agree.{asks, behind_end, is_recv, on_way, owed}

-- whose turn it is
pub data Turn (k : Client) (p : Place) (n : Bool) (ts tc : List Token) : Type 0 where
  to_client_next : (t : Token) (r : List Token) → tc ≡ t ∷ r → Turn k p n ts tc
  to_server_next : (t : Token) (r : List Token) → ts ≡ t ∷ r → Turn k p n ts tc
  in_loop : p ≡ at_delivery → Turn k p n ts tc
  with_packet : k ≡ must_recv → Turn k p n ts tc
  with_request : k ≡ must_send → Turn k p n ts tc
  nobody : k ≡ at_rest → p ≡ at_select → n ≡ false → ts ≡ [] → tc ≡ [] → Turn k p n ts tc

abbrev pub OnTurn : Client → Place → Bool → Option (List Token × List Token) → Type 0
OnTurn k p n none = Unit
OnTurn k p n (some (ts, tc)) = Turn k p n ts tc

behind_turn :
    (k : Client) (p : Place) (n b : Bool) (ts : List Token) → OnTurn k p n (behind_end b ts)
behind_turn k p n true ts = to_server_next ct_end ts refl
behind_turn k p n false ts = tt

pub turn : (k : Client) (p : Place) (n : Bool) → OnTurn k p n (on_way k p n)
unfolding on_way
turn at_rest at_select true = to_client_next ct_end [] refl
turn at_rest at_select false = nobody refl refl refl refl refl
turn (in_cmd_first c) at_select n = to_server_next cmd_token [] refl
turn (in_cmd_second c) at_select true = to_server_next cmd_token [] refl
turn (in_cmd_second c) at_select false = tt
turn (in_cmd_last c) at_select n = to_client_next ct_end (note n) refl
turn in_event at_select true = to_server_next ct_end [] refl
turn in_event at_select false = tt
turn in_data at_select n = to_client_next data_block (ct_end ∷ note n) refl
turn in_data_end at_select n = to_client_next ct_end (note n) refl
turn (in_cmd_first c) in_command n = to_client_next ct_end (ct_end ∷ []) refl
turn (in_cmd_second c) in_command n = to_client_next ct_end [] refl
turn (in_cmd_last c) in_command n = to_server_next (command c) [] refl
turn in_event (in_queued ev) n = to_client_next (connection ev) [] refl
turn at_rest (in_queued ev) n = to_server_next ct_end [] refl
turn (in_cmd_first c) (in_queued ev) n = to_server_next ct_end (cmd_token ∷ []) refl
turn in_event at_delivery n = in_loop refl
turn in_event (in_delivery ev) n = to_client_next (connection ev) [] refl
turn at_rest (in_delivery ev) n = to_server_next ct_end (owed ev) refl
turn (in_cmd_first c) (in_delivery ev) n = to_server_next ct_end (owed ev ++ cmd_token ∷ []) refl
turn must_recv (in_delivery ev) n = behind_turn must_recv (in_delivery ev) n (is_recv ev) []
turn in_data (in_delivery ev) n =
    behind_turn in_data (in_delivery ev) n (is_recv ev) (ready true ∷ [])
turn must_send (in_delivery ev) n = behind_turn must_send (in_delivery ev) n (asks ev) []
turn must_recv in_recv n = with_packet refl
turn in_data in_recv n = to_server_next (ready true) [] refl
turn at_rest in_recv n = to_server_next (ready false) [] refl
turn (in_cmd_first c) in_recv n = to_server_next (ready false) (cmd_token ∷ []) refl
turn must_send in_send n = with_request refl
turn at_rest in_send n = to_server_next reply [] refl
turn (in_cmd_first c) in_send n = to_server_next reply (cmd_token ∷ []) refl
turn in_data_end in_command n = tt
turn _ _ n = tt
