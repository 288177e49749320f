-- ===== src/Server/Channel/Weight.antt =====
-- How many steps the two sides have before them until both are at rest.
use sc_xtcp.Base.{arith, if◌then◌else◌, ℕ, ◌+◌, ◌-◌, ◌≤◌}
use sc_xtcp.Server.{Event}
use sc_xtcp.Server.Channel.{
  Client, Link, Place, at_delivery, at_rest, at_select, has, in_cmd_first, in_cmd_last,
  in_cmd_second, in_command, in_data, in_data_end, in_delivery, in_event, in_queued, in_recv,
  in_send, must_recv, must_send,
}
use sc_xtcp.Server.Channel.Agree.{is_recv}

-- the steps of the event that is due, and of the queued event before it
abbrev pub due_steps : Link → ℕ
due_steps l = if has l.due then 9 else 0

abbrev pub event_steps : Link → ℕ
event_steps l = (if has l.pending_event then 4 else 0) + due_steps l

-- what is left of a connection that a client at rest has acknowledged
abbrev pub rest_steps : Event → ℕ
rest_steps ev = if is_recv ev then 11 else 2

unfoldable pub steps_left : Client → Place → Link → ℕ
steps_left at_rest at_select l = event_steps l
steps_left (in_cmd_first c) at_select l = 5 + event_steps l
steps_left (in_cmd_second c) at_select l = 4 + event_steps l
steps_left (in_cmd_last c) at_select l = 1 + event_steps l
steps_left in_event at_select l = event_steps l - 1
steps_left in_data at_select l = 2 + event_steps l
steps_left in_data_end at_select l = 1 + event_steps l
steps_left (in_cmd_first c) in_command l = 4 + event_steps l
steps_left (in_cmd_second c) in_command l = 3 + event_steps l
steps_left (in_cmd_last c) in_command l = 2 + event_steps l
steps_left in_event (in_queued ev) l = 2 + due_steps l
steps_left at_rest (in_queued ev) l = 1 + due_steps l
steps_left (in_cmd_first c) (in_queued ev) l = 6 + due_steps l
steps_left in_event at_delivery l = 7
steps_left in_event (in_delivery ev) l = 6
steps_left must_recv (in_delivery ev) l = 5
steps_left in_data (in_delivery ev) l = 4
steps_left must_send (in_delivery ev) l = 3
steps_left at_rest (in_delivery ev) l = rest_steps ev
steps_left (in_cmd_first c) (in_delivery ev) l = 5 + rest_steps ev
steps_left must_recv in_recv l = 4
steps_left in_data in_recv l = 3
steps_left at_rest in_recv l = 10
steps_left (in_cmd_first c) in_recv l = 15
steps_left must_send in_send l = 2
steps_left at_rest in_send l = 1
steps_left (in_cmd_first c) in_send l = 6
steps_left _ _ l = 0

pub steps_left-le : (k : Client) (p : Place) (l : Link) → steps_left k p l ≤ 18
unfolding steps_left
steps_left-le k p l = by_cases k p l (events l)
  where
    events : (l : Link) → event_steps l ≤ 13
    events l = ground arith

    by_cases : (k : Client) (p : Place) (l : Link) → event_steps l ≤ 13 → steps_left k p l ≤ 18
    by_cases at_rest at_select l h = ground (arith, h)
    by_cases _ _ l h = ground (arith, h)
