-- ===== src/Mdns/Answer.antt =====
-- How mdns.c compares the records of a packet: an answer is the position of its `struct mdns_answer` in
-- `msg`, the array that holds the packet. A read outside the array, and one at NULL, is `none`.
use sc_xtcp.Base.{
  Bool, List, Option, [], drop, false, get_elem?, if◌then◌else◌, ltb, none, not, some, suc, true,
  zero, ℕ, ◌%◌, ◌&&◌, ◌*◌, ◌+◌, ◌==◌, ◌>>=◌, ◌||◌, ◌∷◌,
}
use sc_xtcp.Base.Words.{negsuc, pos, ℤ}
use sc_xtcp.Mdns.{Entry, srv_entry}
use sc_xtcp.Mdns.Parse.{mdns_compare_name, mdns_parse_name}

-- `NTOHS` and `HTONL` of what stands at the position
unfoldable pub read16 : List ℕ → ℕ → Option ℕ
read16 msg p = do a ← get_elem? msg p; b ← get_elem? msg (p + 1); some (a * 256 + b)

unfoldable pub read32 : List ℕ → ℕ → Option ℕ
read32 msg p = do a ← read16 msg p; b ← read16 msg (p + 2); some (a * 65536 + b)

-- sizeof(struct mdns_answer), and the fields
abbrev pub answer_size : ℕ
answer_size = 10

abbrev pub answer_type : List ℕ → ℕ → Option ℕ
answer_type msg ans = read16 msg ans

abbrev pub answer_class : List ℕ → ℕ → Option ℕ
answer_class msg ans = read16 msg (ans + 2)

abbrev pub answer_ttl : List ℕ → ℕ → Option ℕ
answer_ttl msg ans = read32 msg (ans + 4)

abbrev pub answer_len : List ℕ → ℕ → Option ℕ
answer_len msg ans = read16 msg (ans + 8)

-- The loop over the bytes and the comparison of the lengths.
unfoldable pub compare_rdata : ℕ → List ℕ → List ℕ → Option ℤ
compare_rdata zero rdata [] = some (pos 0)
compare_rdata zero rdata (c ∷ cs) = some (negsuc 0)
compare_rdata (suc n) rdata [] = some (pos 1)
compare_rdata (suc n) [] (c ∷ cs) = none
compare_rdata (suc n) (d ∷ rdata) (c ∷ cs) =
    let rest = compare_rdata n rdata cs in
    if ltb c d then some (pos 1) else if ltb d c then some (negsuc 0) else rest

-- `mdns_compare_answer`
unfoldable pub mdns_compare_answer : List ℕ → ℕ → ℕ → List ℕ → Option ℤ
mdns_compare_answer msg ans rrtype txt = do
  class_field ← answer_class msg ans
  ans_type ← answer_type msg ans
  len ← answer_len msg ans
  let ans_class = class_field % 32768
  if ltb 1 ans_class
      then some (pos 1)
      else if ltb ans_class 1
      then some (negsuc 0)
      else if ltb rrtype ans_type
      then some (pos 1)
      else if ltb ans_type rrtype
      then some (negsuc 0)
      else compare_rdata len (drop (ans + answer_size) msg) txt

-- `mdns_compare_host_answer`, whose lines are those of `mdns_compare_answer` with the address
unfoldable pub mdns_compare_host_answer : List ℕ → ℕ → Entry → Option ℤ
mdns_compare_host_answer msg ans e =
    mdns_compare_answer msg ans 1 (e.ipaddr.b0 ∷ e.ipaddr.b1 ∷ e.ipaddr.b2 ∷ e.ipaddr.b3 ∷ [])

-- `mdns_compare_srv_answer`
unfoldable pub mdns_compare_srv_answer : List ℕ → ℕ → Entry → Option ℤ
mdns_compare_srv_answer msg ans e = mdns_compare_answer msg ans 33 e.name

-- `mdns_compare_txt_answer`
unfoldable pub mdns_compare_txt_answer : List ℕ → ℕ → Option ℤ
mdns_compare_txt_answer msg ans = mdns_compare_answer msg ans 16 []

abbrev pub is_negative : ℤ → Bool
is_negative (pos n) = false
is_negative (negsuc n) = true

abbrev pub is_positive : ℤ → Bool
is_positive (pos n) = ltb 0 n
is_positive (negsuc n) = false

abbrev pub is_nonzero : ℤ → Bool
is_nonzero c = is_negative c || is_positive c

-- the case of a service in `mdns_answer_conflict`
unfoldable pub service_conflict : List ℕ → ℕ → Entry → Option Bool
service_conflict msg ans e = do
  ans_type ← answer_type msg ans
  if ans_type == 16
      then (mdns_compare_txt_answer msg ans >>= λ c. some (is_nonzero c))
      else if ans_type == 33
      then (mdns_compare_srv_answer msg ans e >>= λ c. some (is_nonzero c))
      else some false

-- `mdns_answer_conflict`
unfoldable pub mdns_answer_conflict : List ℕ → ℕ → Entry → Option Bool
mdns_answer_conflict msg ans e = elim e.entry_type [
  | srv_entry ↦ service_conflict msg ans e
  | _ ↦ (mdns_compare_host_answer msg ans e >>= λ c. some (is_nonzero c))
]

-- The loop of `answer_is_lower`, up to the shorter length, and the comparison of the lengths.
unfoldable pub lower_rdata : ℕ → ℕ → List ℕ → List ℕ → Option Bool
lower_rdata zero len2 rdata1 rdata2 = some (ltb 0 len2)
lower_rdata (suc n) zero rdata1 rdata2 = some false
lower_rdata (suc n) (suc m) [] rdata2 = none
lower_rdata (suc n) (suc m) (a ∷ rdata1) [] = none
lower_rdata (suc n) (suc m) (a ∷ rdata1) (b ∷ rdata2) =
    let rest = lower_rdata n m rdata1 rdata2 in if ltb a b then some true else rest

-- `answer_is_lower`
unfoldable pub answer_is_lower : List ℕ → ℕ → ℕ → Option Bool
answer_is_lower msg ans1 ans2 = do
  len1 ← answer_len msg ans1
  len2 ← answer_len msg ans2
  class1 ← answer_class msg ans1
  class2 ← answer_class msg ans2
  type1 ← answer_type msg ans1
  type2 ← answer_type msg ans2
  if ltb class1 class2 || ltb type1 type2
      then some true
      else lower_rdata len1 len2 (drop (ans1 + answer_size) msg) (drop (ans2 + answer_size) msg)

-- whether the pointer is not `ignore`
abbrev pub is_other : Option ℕ → ℕ → Bool
is_other none ans = true
is_other (some p) ans = not (p == ans)

-- the new value of `lowest`
unfoldable pub lower_answer : List ℕ → ℕ → Option ℕ → Option (Option ℕ)
lower_answer msg ans none = some (some ans)
lower_answer msg ans (some lowest) = do
  lower ← answer_is_lower msg ans lowest
  some (some (if lower then ans else lowest))

-- The loop of `find_lowest_matching_answer`. `fuel` is for `mdns_parse_name`, and `eom` is the
-- position of the packet's end.
unfoldable pub lowest_from :
    ℕ → List ℕ → ℕ → Entry → Option ℕ → ℕ → ℕ → Option ℕ → Option (Option ℕ)
lowest_from fuel msg eom e ignore zero dptr lowest = some lowest
lowest_from fuel msg eom e ignore (suc n) dptr lowest = do
  parsed ← mdns_parse_name fuel msg dptr eom
  ans ← parsed
  len ← answer_len msg ans
  c ← mdns_compare_name e.name (drop dptr msg) msg
  next ← if c == 0 && is_other ignore ans then lower_answer msg ans lowest else some lowest
  lowest_from fuel msg eom e ignore n (ans + answer_size + len) next

-- `find_lowest_matching_answer`
unfoldable pub find_lowest_matching_answer :
    ℕ → List ℕ → ℕ → Entry → ℕ → ℕ → Option ℕ → Option (Option ℕ)
find_lowest_matching_answer fuel msg eom e dptr num_rr ignore =
    lowest_from fuel msg eom e ignore num_rr dptr none

-- The case of a name in `loses_tie_break`.
unfoldable pub name_loses : List ℕ → Entry → Option ℕ → Option Bool
name_loses msg e none = some false
name_loses msg e (some ans) = do c ← mdns_compare_host_answer msg ans e; some (is_positive c)

-- The case of a service, behind the first search.
unfoldable pub service_loses : ℕ → List ℕ → ℕ → Entry → ℕ → ℕ → Option ℕ → Option Bool
service_loses fuel msg eom e auth n none = some false
service_loses fuel msg eom e auth n (some ans) = do
  res ← mdns_compare_txt_answer msg ans
  if is_negative res
      then some false
      else if is_positive res
      then some true
      else (find_lowest_matching_answer fuel msg eom e auth n (some ans) >>= λ found.
          found >>= λ second. mdns_compare_srv_answer msg second e >>= λ c. some (is_positive c))

-- `loses_tie_break`
unfoldable pub loses_tie_break : ℕ → List ℕ → ℕ → Entry → ℕ → ℕ → Option Bool
loses_tie_break fuel msg eom e auth n = do
  lowest ← find_lowest_matching_answer fuel msg eom e auth n none
  elim e.entry_type [
    | srv_entry ↦ service_loses fuel msg eom e auth n lowest
    | _ ↦ name_loses msg e lowest
  ]
