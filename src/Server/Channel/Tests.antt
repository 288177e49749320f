-- ===== src/Server/Channel/Tests.antt =====
-- A command and two events on a channel.
use sc_xtcp.Base.{List, [], false, length, none, refl, some, true, ◌-◌, ◌∷◌, ◌≡◌, ◌≤◌}
use sc_xtcp.Server.{Command, close, ifup, recv_data}
use sc_xtcp.Server.Channel.{
  Act, Net, act, at_rest, at_select, client_takes, client_takes_next, ct_end, in_cmd_last, in_event,
  queue, run, send_cmd, server_takes, server_takes_next, wait, wait_until_ready, xtcpd_queue_event,
}
use sc_xtcp.Server.Channel.Settle.{IsAtRest}
use sc_xtcp.Server.Channel.Rounds.{Expects, Settles, run-Settles}
use sc_xtcp.Server.Channel.Log.{run-handled}
use sc_xtcp.Server.Channel.Agree.{IsAgreed, on_way}

abbrev quiet : List Command → Net
quiet handled = record {
  link = record {
    notified = false;
    pending_event = none;
    due = none;
    place = at_select;
    handled = handled;
  };
  client = at_rest;
  to_server = [];
  to_client = [];
}

quiet-IsAgreed : IsAgreed (quiet [])
unfolding on_way
quiet-IsAgreed = record { agreed = refl; fits = (refl, tt) }

quiet-IsAtRest : (handled : List Command) → IsAtRest (quiet handled)
quiet-IsAtRest handled = record {
  resting = refl;
  selecting = refl;
  nothing_sent = refl;
  nothing_received = refl;
  nothing_queued = refl;
  nothing_due = refl;
}

-- The interface comes up and a packet comes in while the client sends a command.
abbrev crossing : List Act
crossing =
    queue ifup
    ∷ send_cmd (close 5)
    ∷ wait recv_data
    ∷ client_takes_next
    ∷ server_takes_next
    ∷ client_takes_next
    ∷ server_takes_next
    ∷ []

abbrev crossed : Net
crossed = record {
  link = record {
    notified = true;
    pending_event = some ifup;
    due = some recv_data;
    place = at_select;
    handled = close 5 ∷ [];
  };
  client = in_cmd_last (close 5);
  to_server = [];
  to_client = ct_end ∷ ct_end ∷ [];
}

-- The client ends its command and takes the notification.
abbrev two_more : List Act
two_more = client_takes_next ∷ client_takes_next ∷ []

abbrev told : Net
told = record crossed { client = in_event; to_server = ct_end ∷ []; to_client = [] }

run-Settles_example : Expects crossed × (length two_more ≤ 18) × Settles (18 - length two_more) told
unfolding run act client_takes server_takes wait_until_ready xtcpd_queue_event
run-Settles_example =
    run-Settles crossing two_more (quiet []) crossed told quiet-IsAgreed refl (refl, (refl, tt))
      refl

abbrev one_command : List Act
one_command =
    send_cmd (close 5)
    ∷ server_takes_next
    ∷ client_takes_next
    ∷ client_takes_next
    ∷ server_takes_next
    ∷ client_takes_next
    ∷ []

run-handled_example : (quiet (close 5 ∷ [])).link.handled ≡ close 5 ∷ []
unfolding run act client_takes server_takes
run-handled_example =
    run-handled one_command (quiet []) (quiet (close 5 ∷ [])) quiet-IsAgreed (quiet-IsAtRest [])
      refl (quiet-IsAtRest (close 5 ∷ []))
