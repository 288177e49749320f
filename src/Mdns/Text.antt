-- ===== src/Mdns/Text.antt =====
-- The texts of mdns.c: decimal numbers, the names of the entries, and names as a packet has them.
use sc_xtcp.Base.{List, [], if◌then◌else◌, length, suc, zero, ℕ, ◌%◌, ◌++◌, ◌+◌, ◌/◌, ◌==◌, ◌∷◌}
use sc_xtcp.Base.Net.{IpAddr}
use sc_xtcp.Base.Words.{u8}
use sc_xtcp.Mdns.{Entry, EntryType, is_srv}

-- The first loop of `mdns_itoa`, which stores the last digit first. A number has fewer digits than
-- rounds are left where the rounds exceed it.
unfoldable pub digits_back : ℕ → ℕ → List ℕ
digits_back zero x = []
digits_back (suc n) x =
    let more = digits_back n (x / 10) in (48 + x % 10) ∷ (if x / 10 == 0 then [] else more)

abbrev pub backwards : List ℕ → List ℕ → List ℕ
backwards [] done = done
backwards (x ∷ xs) done = backwards xs (x ∷ done)

-- `mdns_itoa`, for a number that is not negative
unfoldable pub mdns_itoa : ℕ → List ℕ
mdns_itoa x = backwards (digits_back (suc x) x) []

-- what stands between the two parts of a name
unfoldable pub counter_text : EntryType → ℕ → List ℕ
counter_text t n =
    if n == 0 then [] else if is_srv t then 32 ∷ 40 ∷ mdns_itoa n ++ 41 ∷ [] else 45 ∷ mdns_itoa n

-- `update_name`
unfoldable pub update_name : Entry → Entry
update_name e = record e {
  name = e.name_prefix ++ counter_text e.entry_type e.counter ++ 46 ∷ e.name_postfix;
}

abbrev pub unless_empty : List ℕ → List ℕ → List ℕ
unless_empty [] more = []
unless_empty (c ∷ cs) more = more

-- The loop of `mdns_encode_name`, where `label` is what stands behind the length byte. A name that
-- ends in a dot has no empty label behind it.
unfoldable pub encode_from : List ℕ → List ℕ → List ℕ
encode_from label [] = u8 (length label) ∷ label
encode_from label (c ∷ cs) =
    let next = encode_from [] cs in
    let same = encode_from (label ++ c ∷ []) cs in
    if c == 46 then u8 (length label) ∷ label ++ unless_empty cs next else same

-- `mdns_encode_name`
unfoldable pub mdns_encode_name : List ℕ → List ℕ
mdns_encode_name src = encode_from [] src ++ 0 ∷ []

-- one number of `mdns_encode_ip`
abbrev pub encode_field : ℕ → List ℕ
encode_field n = u8 (length (mdns_itoa n)) ∷ mdns_itoa n

-- "in-addr" and "arpa"
abbrev pub in_addr : List ℕ
in_addr = 105 ∷ 110 ∷ 45 ∷ 97 ∷ 100 ∷ 100 ∷ 114 ∷ []

abbrev pub arpa : List ℕ
arpa = 97 ∷ 114 ∷ 112 ∷ 97 ∷ []

-- what `mdns_encode_ip` writes behind the numbers
abbrev pub in_addr_labels : List ℕ
in_addr_labels = 7 ∷ in_addr ++ 4 ∷ arpa ++ 0 ∷ []

-- `mdns_encode_ip`
unfoldable pub mdns_encode_ip : IpAddr → List ℕ
mdns_encode_ip a =
    encode_field a.b3
    ++ (encode_field a.b2 ++ (encode_field a.b1 ++ (encode_field a.b0 ++ in_addr_labels)))
