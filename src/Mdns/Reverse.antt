-- ===== src/Mdns/Reverse.antt =====
-- Addresses as names: `mdns_encode_ip` and `mdns_parse_rev_ip`.
use sc_xtcp.Base.Words.{u8}
use sc_xtcp.Base.{
  Bool, List, Option, [], ap, append_assoc, arith, drop, drop-append_length, false, if◌then◌else◌,
  leb, length, length-append, ltb, refl, some, suc, take, take-append, true, zero, ℕ, ◌&&◌, ◌*◌,
  ◌++◌, ◌+◌, ◌<◌, ◌==◌, ◌>>=◌, ◌∙◌, ◌∷◌, ◌≡◌, ◌≤◌,
}
use sc_xtcp.Base.Net.{IpAddr}
use sc_xtcp.Mdns.Parse.{
  RevIp, compare_ends, compare_label, compare_rounds, field_value, goes_on, in_addr_arpa,
  is_pointer, mdns_compare_name, mdns_parse_rev_ip, rev_field, rev_rounds, set_field,
}
use sc_xtcp.Mdns.Text.{backwards, encode_field, in_addr_labels, mdns_encode_ip, mdns_itoa}
use sc_xtcp.Mdns.Numbers.{itoa-backwards}
use sc_xtcp.Mdns.Fields.{IsAddr, field_value-digits, itoa-length}

-- A round of `mdns_parse_rev_ip` on a field that `mdns_encode_ip` wrote.
field-read :
    (x : ℕ) (s : RevIp) (rest : List ℕ)
    → x < 256
    → s.cur_field < 4
    → s.res ≡ true
    → rev_field (length (mdns_itoa x)) (mdns_itoa x ++ rest) s
      ≡ record { res = true; cur_field = s.cur_field + 1; addr = set_field s.cur_field x s.addr }
unfolding rev_field
field-read x s rest h c r =
    let text : take (length (mdns_itoa x)) (mdns_itoa x ++ rest) ≡ mdns_itoa x =
      take-append (length (mdns_itoa x)) (mdns_itoa x) rest refl in
    let value : field_value 1 (backwards (mdns_itoa x) []) ≡ (true, 1 * x) =
      ap (field_value 1) (itoa-backwards x) ∙ field_value-digits (suc x) x 1 (omega arith) in
    let four : ltb s.cur_field 4 ≡ true = ground (arith, c) in
    let three : leb (length (mdns_itoa x)) 3 ≡ true = ground (arith, itoa-length x (omega arith)) in
    let fits : ltb 255 (1 * x) ≡ false = ground arith in
    let plain : 1 * x ≡ x = omega arith in rw (text, value, four, r, three, fits, plain) refl

rev_round :
    (x c : ℕ) (s : RevIp) (rest msg : List ℕ) (fuel : ℕ)
    → x < 256
    → s.cur_field < 4
    → s.res ≡ true
    → (c == 0) ≡ false
    → rev_rounds (suc fuel) (encode_field x ++ c ∷ rest) s msg ≡ (
        let t : RevIp = record {
          res = true;
          cur_field = s.cur_field + 1;
          addr = set_field s.cur_field x s.addr;
        } in
        if ltb (s.cur_field + 1) 4 then rev_rounds fuel (c ∷ rest) t msg else some (t, c ∷ rest))
unfolding rev_rounds
rev_round x c s rest msg fuel h four r z =
    let len = itoa-length x (omega arith) in
    let byte : u8 (length (mdns_itoa x)) ≡ length (mdns_itoa x) = omega (arith, len) in
    let plain : is_pointer (length (mdns_itoa x)) ≡ false = ground (arith, len) in
    let long = length-append (mdns_itoa x) (c ∷ rest) in
    let there : ltb (length (mdns_itoa x ++ c ∷ rest)) (length (mdns_itoa x)) ≡ false =
      ground (arith, long) in
    let behind : drop (length (mdns_itoa x)) (mdns_itoa x ++ c ∷ rest) ≡ c ∷ rest =
      drop-append_length (length (mdns_itoa x)) (mdns_itoa x) (c ∷ rest) refl in
    rw (byte, plain, there, behind, field-read x s (c ∷ rest) h four r, z) refl

compare_in_addr :
    (post msg : List ℕ) → mdns_compare_name in_addr_arpa (in_addr_labels ++ post) msg ≡ some 0
unfolding mdns_compare_name compare_rounds compare_label goes_on compare_ends
compare_in_addr post msg = refl

length-nonzero : (x : ℕ) → x < 256 → (u8 (length (mdns_itoa x)) == 0) ≡ false
length-nonzero x h = ground (arith, itoa-length x (omega arith))

fields :
    (a b : IpAddr) (post msg : List ℕ) (fuel : ℕ)
    → IsAddr a
    → rev_rounds
        (suc (suc (suc (suc fuel))))
        (encode_field a.b3
          ++ (encode_field a.b2
              ++ (encode_field a.b1 ++ (encode_field a.b0 ++ (in_addr_labels ++ post)))))
        (record { res = true; cur_field = 0; addr = b })
        msg
      ≡ some (record { res = true; cur_field = 4; addr = a }, in_addr_labels ++ post)
fields a b post msg fuel v =
    rev_round a.b3 (u8 (length (mdns_itoa a.b2))) s0 (mdns_itoa a.b2 ++ rest2) msg
      (suc (suc (suc fuel))) v.byte3 (omega arith) refl (length-nonzero a.b2 v.byte2)
    ∙ rev_round a.b2 (u8 (length (mdns_itoa a.b1))) s1 (mdns_itoa a.b1 ++ rest1) msg
        (suc (suc fuel)) v.byte2 (omega arith) refl (length-nonzero a.b1 v.byte1)
    ∙ rev_round a.b1 (u8 (length (mdns_itoa a.b0))) s2 (mdns_itoa a.b0 ++ rest0) msg (suc fuel)
        v.byte1 (omega arith) refl (length-nonzero a.b0 v.byte0)
    ∙ rev_round a.b0 7 s3 (drop 1 rest0) msg fuel v.byte0 (omega arith) refl refl
  where
    rest0 : List ℕ
    rest0 = in_addr_labels ++ post

    rest1 : List ℕ
    rest1 = encode_field a.b0 ++ rest0

    rest2 : List ℕ
    rest2 = encode_field a.b1 ++ rest1

    s0 : RevIp
    s0 = record { res = true; cur_field = 0; addr = b }

    s1 : RevIp
    s1 = record { res = true; cur_field = 1; addr = set_field 0 a.b3 b }

    s2 : RevIp
    s2 = record { res = true; cur_field = 2; addr = set_field 1 a.b2 (set_field 0 a.b3 b) }

    s3 : RevIp
    s3 = record {
      res = true;
      cur_field = 3;
      addr = set_field 2 a.b1 (set_field 1 a.b2 (set_field 0 a.b3 b));
    }

-- the last lines of `mdns_parse_rev_ip`
abbrev judged : List ℕ → RevIp × List ℕ → Option (Bool × IpAddr)
judged msg r = mdns_compare_name in_addr_arpa r.1 msg >>= λ c. some (r.0.res && c == 0, r.0.addr)

-- the bytes of `mdns_encode_ip` with others behind
abbrev ip_labels : IpAddr → List ℕ → List ℕ
ip_labels a post =
    encode_field a.b3
    ++ (encode_field a.b2 ++ (encode_field a.b1 ++ (encode_field a.b0 ++ (in_addr_labels ++ post))))

encode_ip-labels : (a : IpAddr) (post : List ℕ) → mdns_encode_ip a ++ post ≡ ip_labels a post
unfolding mdns_encode_ip
encode_ip-labels a post =
    append_assoc (encode_field a.b3) _ post
    ∙ ap (λ x. encode_field a.b3 ++ x)
        (append_assoc (encode_field a.b2) _ post
          ∙ ap (λ x. encode_field a.b2 ++ x)
              (append_assoc (encode_field a.b1) _ post
                ∙ ap (λ x. encode_field a.b1 ++ x) (append_assoc (encode_field a.b0) _ post)))

ip_labels-length : (a : IpAddr) (post : List ℕ) → IsAddr a → 3 ≤ length (ip_labels a post)
ip_labels-length a post v = omega (
  arith,
  itoa-length a.b3 (omega (arith, v.byte3)),
  length-append (mdns_itoa a.b3)
      (encode_field a.b2 ++ (encode_field a.b1 ++ (encode_field a.b0 ++ (in_addr_labels ++ post)))),
  length-append (mdns_itoa a.b2)
      (encode_field a.b1 ++ (encode_field a.b0 ++ (in_addr_labels ++ post))),
  length-append (mdns_itoa a.b1) (encode_field a.b0 ++ (in_addr_labels ++ post)),
)

-- The name that `mdns_encode_ip` writes for an address, anywhere in a packet, is parsed by
-- `mdns_parse_rev_ip` to the address, whatever `addr` held before.
pub parse_rev_ip-encode_ip :
    (a b : IpAddr) (post msg : List ℕ)
    → IsAddr a
    → mdns_parse_rev_ip (mdns_encode_ip a ++ post) b msg ≡ some (true, a)
unfolding mdns_parse_rev_ip
parse_rev_ip-encode_ip a b post msg v =
    ap (λ w. rev_rounds (suc (length w)) w start msg >>= λ r. judged msg r)
      (encode_ip-labels a post)
    ∙ parsed (length (ip_labels a post)) (ip_labels-length a post v)
  where
    start : RevIp
    start = record { res = true; cur_field = 0; addr = b }

    parsed :
        (n : ℕ)
        → 3 ≤ n
        → (rev_rounds (suc n) (ip_labels a post) start msg >>= λ r. judged msg r) ≡ some (true, a)
    parsed (suc (suc (suc n))) h = rw (fields a b post msg n v, compare_in_addr post msg) refl
    parsed zero h = absurd (omega arith)
    parsed (suc zero) h = absurd (omega arith)
    parsed (suc (suc zero)) h = absurd (omega arith)
