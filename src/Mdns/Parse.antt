-- ===== src/Mdns/Parse.antt =====
-- How mdns.c reads names. A pointer into the received packet is a position in `msg`, the array that
-- holds it, or the bytes of the array from there on. A read outside the array is `none`.
use sc_xtcp.Base.{
  Bool, List, Option, [], drop, false, get_elem?, if◌then◌else◌, leb, length, ltb, none, not, some,
  suc, take, true, zero, ℕ, ◌%◌, ◌&&◌, ◌*◌, ◌++◌, ◌+◌, ◌-◌, ◌==◌, ◌>>=◌, ◌||◌, ◌∷◌,
}
use sc_xtcp.Base.Net.{IpAddr}
use sc_xtcp.Mdns.Text.{arpa, backwards, in_addr}

-- `(n & 0xc0) == 0xc0`, and the position that the two bytes give
abbrev pub is_pointer : ℕ → Bool
is_pointer n = leb 192 n

abbrev pub pointer_to : ℕ → ℕ → ℕ
pointer_to n m = n % 64 * 256 + m

-- `query` and `saved_endptr` of `mdns_parse_name`
pub record Scan : Type 0 where
  pub query : ℕ
  pub saved : Option ℕ

-- What a round of the loop ends in: another round, or the function's result, `none` for NULL.
pub data Round : Type 0 where
  again : Scan → Round
  result : Option ℕ → Round

abbrev pub first_saved : Option ℕ → ℕ → ℕ
first_saved none p = p
first_saved (some q) p = q

-- The test at the end of a round, with `query` in the packet.
unfoldable pub end_round : List ℕ → Scan → Option Round
end_round msg s = do
  c ← get_elem? msg s.query
  some (if c == 0 then result (some (first_saved s.saved s.query + 1)) else again s)

-- A round of the loop of `mdns_parse_name`.
unfoldable pub parse_round : List ℕ → ℕ → Scan → Option Round
parse_round msg limit s = do
  n ← get_elem? msg s.query
  let next = s.query + 1
  if ltb limit next
      then some (result none)
      else if is_pointer n
      then (get_elem? msg next >>= λ m.
          let target : Scan = record {
            query = pointer_to n m;
            saved = some (first_saved s.saved (next + 1));
          } in
          if ltb limit target.query then some (result none) else end_round msg target)
      else if ltb limit (next + n)
      then some (result none)
      else end_round msg (record s { query = next + n })

-- The loop, for at most `fuel` rounds: it has no bound in the source.
unfoldable pub parse_rounds : ℕ → List ℕ → ℕ → Scan → Option (Option ℕ)
parse_rounds zero msg limit s = none
parse_rounds (suc fuel) msg limit s =
    parse_round msg limit s >>= elim [ result p ↦ some p | again t ↦ parse_rounds fuel msg limit t ]

-- `mdns_parse_name`: the position behind the name, or NULL
unfoldable pub mdns_parse_name : ℕ → List ℕ → ℕ → ℕ → Option (Option ℕ)
mdns_parse_name fuel msg query limit =
    if ltb limit query
    then some none
    else parse_rounds fuel msg limit (record { query = query; saved = none })

-- What the loop over a label ends in: the function's result, or what is left of both names.
pub data Compared : Type 0 where
  decided : ℕ → Compared
  moved : List ℕ → List ℕ → Compared

unfoldable pub compare_label : ℕ → List ℕ → List ℕ → Option Compared
compare_label zero query response = some (moved query response)
compare_label (suc n) [] response = some (moved [] response)
compare_label (suc n) (c ∷ query) [] = none
compare_label (suc n) (c ∷ query) (d ∷ response) =
    let rest = compare_label n query response in
    if ltb d c then some (decided 1) else if ltb c d then some (decided 255) else rest

-- the last lines of `mdns_compare_name`; 255 is -1 in a byte
unfoldable pub compare_ends : List ℕ → List ℕ → Option ℕ
compare_ends (c ∷ query) response = some 1
compare_ends [] [] = none
compare_ends [] (d ∷ response) = some (if d == 0 then 0 else 255)

abbrev pub without_first : List ℕ → List ℕ
without_first [] = []
without_first (c ∷ cs) = cs

-- whether both names go on
unfoldable pub goes_on : List ℕ → List ℕ → Option Bool
goes_on query [] = none
goes_on [] (d ∷ response) = some false
goes_on (c ∷ query) (d ∷ response) = some (not (d == 0))

-- The loop of `mdns_compare_name`. Each further round takes a byte of `query` at least, so its length
-- bounds them.
unfoldable pub compare_rounds : ℕ → List ℕ → List ℕ → List ℕ → Option ℕ
compare_rounds zero query response msg = none
compare_rounds (suc fuel) query [] msg = none
compare_rounds (suc fuel) query (n ∷ response) msg =
    if is_pointer n
    then (get_elem? response 0 >>= λ m. compare_ends query (drop (pointer_to n m) msg))
    else (compare_label n query response >>= elim [
      | decided c ↦ some c
      | moved q r ↦ goes_on (without_first q) r >>= λ more.
          if more
          then compare_rounds fuel (without_first q) r msg
          else compare_ends (without_first q) r
    ])

-- `mdns_compare_name`
unfoldable pub mdns_compare_name : List ℕ → List ℕ → List ℕ → Option ℕ
mdns_compare_name query response msg = compare_rounds (suc (length query)) query response msg

-- The loop over the digits of a field, from the last one on.
unfoldable pub field_value : ℕ → List ℕ → Bool × ℕ
field_value base [] = (true, 0)
field_value base (d ∷ ds) =
    let (ok, rest) = field_value (base * 10) ds in
    if ltb d 48 || ltb 57 d then (false, rest) else (ok, (d - 48) * base + rest)

-- `addr[3 - i] = n`
abbrev pub set_field : ℕ → ℕ → IpAddr → IpAddr
set_field zero n a = record a { b3 = n }
set_field (suc zero) n a = record a { b2 = n }
set_field (suc (suc zero)) n a = record a { b1 = n }
set_field (suc (suc (suc zero))) n a = record a { b0 = n }
set_field (suc (suc (suc (suc i)))) n a = a

-- `res`, `curField` and `addr`
pub record RevIp : Type 0 where
  pub res : Bool
  pub cur_field : ℕ
  pub addr : IpAddr

-- What a label of `n` bytes does to them.
unfoldable pub rev_field : ℕ → List ℕ → RevIp → RevIp
rev_field n bytes s =
    let (ok, sum) = field_value 1 (backwards (take n bytes) []) in
    if ltb s.cur_field 4 && s.res
    then (if leb n 3
        then (if ltb 255 sum
            then record s { res = false; cur_field = s.cur_field + 1 }
            else record {
              res = ok;
              cur_field = s.cur_field + 1;
              addr = set_field s.cur_field sum s.addr;
            })
        else record s { res = false; cur_field = s.cur_field + 1 })
    else s

-- The loop of `mdns_parse_rev_ip`: what it leaves, and `query`. Each round takes a byte, so the length
-- of the array bounds them.
unfoldable pub rev_rounds : ℕ → List ℕ → RevIp → List ℕ → Option (RevIp × List ℕ)
rev_rounds zero query s msg = none
rev_rounds (suc fuel) [] s msg = none
rev_rounds (suc fuel) (n ∷ query) s msg =
    if is_pointer n
    then (get_elem? query 0 >>= λ m. some (s, drop (pointer_to n m) msg))
    else if ltb (length query) n
    then none
    else (get_elem? (drop n query) 0 >>= λ c.
        let t = rev_field n query s in
        if not (c == 0) && ltb t.cur_field 4
        then rev_rounds fuel (drop n query) t msg
        else some (t, drop n query))

-- "in-addr.arpa"
abbrev pub in_addr_arpa : List ℕ
in_addr_arpa = in_addr ++ 46 ∷ arpa

-- `mdns_parse_rev_ip`: its result, and what it leaves in `addr`
unfoldable pub mdns_parse_rev_ip : List ℕ → IpAddr → List ℕ → Option (Bool × IpAddr)
mdns_parse_rev_ip query addr msg = do
  r ← rev_rounds (suc (length query)) query (record { res = true; cur_field = 0; addr = addr }) msg
  c ← mdns_compare_name in_addr_arpa r.1 msg
  some (r.0.res && c == 0, r.0.addr)
