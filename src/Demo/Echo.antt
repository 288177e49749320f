-- ===== src/Demo/Echo.antt =====
-- The echo of lines: `demo_protocol_recv` of app_buffered_protocol_demo_2.
use sc_xtcp.Base.{
  List, Option, [], if◌then◌else◌, ltb, none, not, some, suc, zero, ℕ, ◌&&◌, ◌==◌, ◌∷◌,
}
use sc_xtcp.Buffered.{Received, recv_upto}
use sc_xtcp.Buffered.Receive.{delivered}
use sc_xtcp.Demo.{Link, send_link}

-- '\n'
abbrev pub newline : ℕ
newline = 10

-- "Echo: " with its null byte, as `sizeof(echo_header)` counts it
abbrev pub echo_header : List ℕ
echo_header = 69 ∷ 99 ∷ 104 ∷ 111 ∷ 58 ∷ 32 ∷ 0 ∷ []

-- the two calls of `xtcp_buffered_send` for a line
unfoldable pub echo : List ℕ → Link → Link
echo buf s = send_link buf (send_link echo_header s)

-- the `if` of the loop's body
abbrev pub answer : Received → Link → Link
answer r s =
    let s1 = record s { rx = r.info } in
    if ltb 0 r.len && not r.overflow then echo (delivered r) s1 else s1

-- `demo_protocol_recv` on a connection that has a state: the loop, on fuel. `incoming` is what the
-- server hands over when it is asked.
unfoldable pub demo_protocol_recv : ℕ → List ℕ → Link → Option Link
demo_protocol_recv zero incoming s = none
demo_protocol_recv (suc fuel) incoming s =
    let r = recv_upto incoming s.rx newline in
    let again = demo_protocol_recv fuel incoming (answer r s) in
    if not (r.len == 0) && not r.overflow then again else some (answer r s)
