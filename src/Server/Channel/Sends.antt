-- ===== src/Server/Channel/Sends.antt =====
-- What a side sends of its own keeps both in agreement.
use sc_xtcp.Base.{Bool, List, Option, [], false, none, not, refl, some, true, ◌++◌, ◌∷◌, ◌≡◌}
use sc_xtcp.Server.{Command, Event, recv_data, request_data, resend_data, sent_data}
use sc_xtcp.Server.Channel.{
  Client, Place, Token, at_delivery, at_rest, at_select, cmd_token, connection, ct_end,
  in_cmd_first, in_cmd_last, in_cmd_second, in_command, in_data, in_data_end, in_delivery, in_event,
  in_queued, in_recv, in_send, must_recv, must_send, note, ready, reply,
}
use sc_xtcp.Server.Channel.Agree.{asks, behind_end, is_recv, on_way}

-- A client that goes to `k` and sends `out`.
abbrev pub Sends : Client → Place → Bool → List Token → Option (List Token × List Token) → Type 0
Sends k p n out none = Unit
Sends k p n out (some (ts, tc)) = on_way k p n ≡ some (ts ++ out, tc)

pub cmd-Sends :
    (c : Command) (p : Place) (n : Bool)
    → Sends (in_cmd_first c) p n (cmd_token ∷ []) (on_way at_rest p n)
unfolding on_way
cmd-Sends c at_select n = refl
cmd-Sends c in_command n = tt
cmd-Sends c (in_queued ev) n = refl
cmd-Sends c at_delivery n = tt
cmd-Sends c (in_delivery ev) n = refl
cmd-Sends c in_recv n = refl
cmd-Sends c in_send n = refl

-- the same where the event of the connection is one for the client's place
Sends-behind :
    (k : Client) (p : Place) (n b : Bool) (out : List Token)
    → (b ≡ true → on_way k p n ≡ some (ct_end ∷ out, []))
    → Sends k p n out (behind_end b [])
Sends-behind k p n true out h = h refl
Sends-behind k p n false out h = tt

recv-end :
    (ev : Event) (n : Bool)
    → is_recv ev ≡ true
    → (on_way in_data (in_delivery ev) n ≡ some (ct_end ∷ ready true ∷ [], []))
      × (on_way at_rest (in_delivery ev) n ≡ some (ct_end ∷ ready false ∷ [], []))
unfolding on_way
recv-end recv_data n h = (refl, refl)
recv-end ev n h = absurd cc

send-end :
    (ev : Event) (n : Bool)
    → asks ev ≡ true
    → on_way at_rest (in_delivery ev) n ≡ some (ct_end ∷ reply ∷ [], [])
unfolding on_way
send-end request_data n h = refl
send-end sent_data n h = refl
send-end resend_data n h = refl
send-end ev n h = absurd cc

pub recv-Sends : (p : Place) (n : Bool) → Sends in_data p n (ready true ∷ []) (on_way must_recv p n)
unfolding on_way
recv-Sends (in_delivery ev) n =
    Sends-behind in_data (in_delivery ev) n (is_recv ev) _ (λ h. (recv-end ev n h).0)
recv-Sends in_recv n = refl
recv-Sends _ n = tt

pub delay-Sends :
    (p : Place) (n : Bool) → Sends at_rest p n (ready false ∷ []) (on_way must_recv p n)
unfolding on_way
delay-Sends (in_delivery ev) n =
    Sends-behind at_rest (in_delivery ev) n (is_recv ev) _ (λ h. (recv-end ev n h).1)
delay-Sends in_recv n = refl
delay-Sends _ n = tt

pub reply-Sends : (p : Place) (n : Bool) → Sends at_rest p n (reply ∷ []) (on_way must_send p n)
unfolding on_way
reply-Sends (in_delivery ev) n = Sends-behind at_rest (in_delivery ev) n (asks ev) _ (send-end ev n)
reply-Sends in_send n = refl
reply-Sends _ n = tt

-- A server that goes to `p` and sends `out`.
abbrev pub Brings : Client → Place → Bool → List Token → Option (List Token × List Token) → Type 0
Brings k p n out none = Unit
Brings k p n out (some (ts, tc)) = on_way k p n ≡ some (ts, tc ++ out)

pub notify-Brings :
    (k : Client) (n : Bool) → Brings k at_select true (note (not n)) (on_way k at_select n)
unfolding on_way
notify-Brings at_rest true = refl
notify-Brings at_rest false = refl
notify-Brings in_event true = refl
notify-Brings in_event false = tt
notify-Brings in_data true = refl
notify-Brings in_data false = refl
notify-Brings in_data_end true = refl
notify-Brings in_data_end false = refl
notify-Brings (in_cmd_first c) true = refl
notify-Brings (in_cmd_first c) false = refl
notify-Brings (in_cmd_second c) true = refl
notify-Brings (in_cmd_second c) false = tt
notify-Brings (in_cmd_last c) true = refl
notify-Brings (in_cmd_last c) false = refl
notify-Brings must_recv n = tt
notify-Brings must_send n = tt

pub conn-Brings :
    (k : Client) (ev : Event) (n : Bool)
    → Brings k (in_delivery ev) n (connection ev ∷ []) (on_way k at_delivery n)
unfolding on_way
conn-Brings in_event ev n = refl
conn-Brings _ ev n = tt
