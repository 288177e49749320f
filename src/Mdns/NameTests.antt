-- ===== src/Mdns/NameTests.antt =====
-- Names on concrete packets.
use sc_xtcp.Base.{
  List, Option, [], arith, drop, length, none, refl, some, true, ℕ, ◌++◌, ◌+◌, ◌∷◌, ◌≡◌, ◌≤◌,
}
use Prim.{tt}
use sc_xtcp.Mdns.Parse.{again, mdns_compare_name, mdns_parse_name, mdns_parse_rev_ip, parse_round}
use sc_xtcp.Mdns.Text.{mdns_encode_ip, mdns_encode_name}
use sc_xtcp.Mdns.Room.{encode_name-length}
use sc_xtcp.Mdns.Reverse.{parse_rev_ip-encode_ip}
use sc_xtcp.Mdns.Labels.{IsLabel}
use sc_xtcp.Mdns.Wire.{name_round_trip}
use sc_xtcp.Mdns.Walk.{IsPlain, IsWithin, followed, parse_name_ends, parse_name_loops}
use sc_xtcp.Mdns.Tests.{local, our_addr, our_addr-IsAddr, their_addr, x_text}

x_text-IsLabel : IsLabel x_text
x_text-IsLabel = (omega arith, omega arith, ((refl, refl), tt))

local-IsLabel : IsLabel local
local-IsLabel = (
  omega arith,
  omega arith,
  ((refl, refl), ((refl, refl), ((refl, refl), ((refl, refl), ((refl, refl), tt))))),
)

name_round_trip_example :
    let name = x_text ++ 46 ∷ local in
    let msg = 7 ∷ mdns_encode_name name ++ 1 ∷ [] in
    (mdns_parse_name 2 msg 1 30 ≡ some (some (1 + length (mdns_encode_name name))))
    × (mdns_compare_name name (drop 1 msg) msg ≡ some 0)
name_round_trip_example =
    name_round_trip x_text (local ∷ []) (7 ∷ []) (1 ∷ []) 2 30 (x_text-IsLabel, (local-IsLabel, tt))
      (omega arith) short
  where
    short : 1 + length (mdns_encode_name (x_text ++ 46 ∷ local)) ≤ 31
    short = omega (arith, encode_name-length (x_text ++ 46 ∷ local))

parse_rev_ip-encode_ip_example :
    mdns_parse_rev_ip (mdns_encode_ip our_addr ++ 0 ∷ []) their_addr [] ≡ some (true, our_addr)
parse_rev_ip-encode_ip_example =
    parse_rev_ip-encode_ip our_addr their_addr (0 ∷ []) [] our_addr-IsAddr

-- a label, and bytes behind the packet
abbrev plain_packet : List ℕ
plain_packet = 0 ∷ 1 ∷ 120 ∷ 0 ∷ 9 ∷ []

plain_packet-IsPlain : IsPlain plain_packet
plain_packet-IsPlain = (omega arith, (omega arith, (omega arith, (omega arith, (omega arith, tt)))))

parse_name_ends_example :
    (p : Option ℕ) × (mdns_parse_name 4 plain_packet 1 3 ≡ some p) × IsWithin 3 p
parse_name_ends_example =
    parse_name_ends plain_packet 3 1 4 plain_packet-IsPlain (omega arith) (omega arith)

-- a pointer at position 2 to position 2
parse_name_loops_example :
    (parse_round (0 ∷ 0 ∷ 192 ∷ 2 ∷ []) 4 (followed 2) ≡ some (again (followed 2)))
    × (mdns_parse_name 1000 (0 ∷ 0 ∷ 192 ∷ 2 ∷ []) 2 4 ≡ none)
parse_name_loops_example =
    parse_name_loops 1000 (0 ∷ 0 ∷ 192 ∷ 2 ∷ []) 4 2 [] refl (omega arith) (omega arith)
