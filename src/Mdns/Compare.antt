-- ===== src/Mdns/Compare.antt =====
-- How `mdns_compare_answer` reads a record that stands in a packet.
use sc_xtcp.Base.Words.{negsuc, pos, ℤ}
use sc_xtcp.Base.{
  Bool-cases, List, [], arith, false, inl, inr, length, ltb, not, refl, some, suc, true, zero, ℕ,
  ◌%◌, ◌*◌, ◌++◌, ◌+◌, ◌/◌, ◌<◌, ◌==◌, ◌∷◌, ◌≡◌,
}
use sc_xtcp.Base.Net.{IpAddr, ip_eq}
use sc_xtcp.Mdns.Labels.{At, At-append, At-cons, At-get}
use sc_xtcp.Mdns.Answer.{compare_rdata, is_nonzero, mdns_compare_answer, read16}
use sc_xtcp.Mdns.Records.{answer, bytes2, bytes4}
use sc_xtcp.Mdns.Table.{text_eq}

abbrev pub address_bytes : IpAddr → List ℕ
address_bytes a = a.b0 ∷ a.b1 ∷ a.b2 ∷ a.b3 ∷ []

pub read16-At :
    (msg : List ℕ) (p a b : ℕ) (post : List ℕ)
    → At msg p (a ∷ b ∷ post)
    → read16 msg p ≡ some (a * 256 + b)
unfolding read16
read16-At msg p a b post at =
    rw (At-get msg p a (b ∷ post) at, At-get msg (p + 1) b post (At-cons msg p a (b ∷ post) at))
      refl

word : (n : ℕ) → n < 65536 → n / 256 % 256 * 256 + n % 256 ≡ n
word n h = omega arith

no_less : (n : ℕ) → ltb n n ≡ false
no_less n = ground arith

-- The answer that stands at `p`, of a type and with data whose lengths are below 2 ^ 16, compares as
-- its data does.
pub compare_answer-At :
    (msg : List ℕ) (p type class rrtype : ℕ) (rdata txt post : List ℕ)
    → At msg p (answer type class (length rdata) ++ (rdata ++ post))
    → type < 65536
    → length rdata < 65536
    → class < 65536
    → class % 32768 ≡ 1
    → rrtype ≡ type
    → mdns_compare_answer msg p rrtype txt ≡ compare_rdata (length rdata) (rdata ++ post) txt
unfolding mdns_compare_answer
compare_answer-At msg p type class rrtype rdata txt post at small short fits one same =
    let behind = bytes4 255 ++ (bytes2 (length rdata) ++ (rdata ++ post)) in
    let classes = At-append msg p (bytes2 type) (bytes2 class ++ behind) at in
    let lengths =
      At-append msg p (bytes2 type ++ (bytes2 class ++ bytes4 255))
        (bytes2 (length rdata) ++ (rdata ++ post)) at in
    let all = At-append msg p (answer type class (length rdata)) (rdata ++ post) at in
    let t = read16-At msg p (type / 256 % 256) (type % 256) (bytes2 class ++ behind) at in
    let c = read16-At msg (p + 2) (class / 256 % 256) (class % 256) behind classes in
    let n =
      read16-At msg (p + 8) (length rdata / 256 % 256) (length rdata % 256) (rdata ++ post)
        lengths in
    rw
      (
        c,
        t,
        n,
        word type small,
        word class fits,
        word (length rdata) short,
        one,
        same,
        no_less type,
        all,
      )
      refl

abbrev pub flipped : ℤ → ℤ
flipped (pos zero) = pos 0
flipped (pos (suc n)) = negsuc n
flipped (negsuc n) = pos (n + 1)

-- The comparison of two texts of one length, from either side.
pub compare_rdata-flipped :
    (xs ys post post' : List ℕ)
    → length xs ≡ length ys
    → (c d : ℤ) × (compare_rdata (length xs) (xs ++ post) ys ≡ some c)
      × (compare_rdata (length ys) (ys ++ post') xs ≡ some d)
      × (d ≡ flipped c)
      × (is_nonzero c ≡ not (text_eq xs ys))
unfolding compare_rdata
compare_rdata-flipped [] [] post post' h = (pos 0, pos 0, refl, refl, refl, refl)
compare_rdata-flipped [] (y ∷ ys) post post' h = absurd (omega (arith, h))
compare_rdata-flipped (x ∷ xs) [] post post' h = absurd (omega (arith, h))
compare_rdata-flipped (x ∷ xs) (y ∷ ys) post post' h = elim (Bool-cases (ltb x y)) [
  | inl a ↦
      let no : ltb y x ≡ false = ground (arith, a) in
      let other : (x == y) ≡ false = ground (arith, a) in
      rw (a, no, other) (negsuc 0, pos 1, refl, refl, refl, refl)
  | inr a ↦ elim (Bool-cases (ltb y x)) [
    | inl b ↦
        let other : (x == y) ≡ false = ground (arith, b) in
        rw (a, b, other) (pos 1, negsuc 0, refl, refl, refl, refl)
    | inr b ↦
        let same : (x == y) ≡ true = ground (arith, a, b) in
        rw (a, b, same) (compare_rdata-flipped xs ys post post' (omega (arith, h)))
  ]
]

pub address_eq : (a b : IpAddr) → text_eq (address_bytes a) (address_bytes b) ≡ ip_eq a b
address_eq a b = ground arith
