-- ===== src/Mdns/Conflict.antt =====
-- Whose answer wins: what `mdns_compare_host_answer` makes of the records that the responder writes.
use mathlib.Core.Path.{subst}
use sc_xtcp.Base.Words.{negsuc, pos, ℤ}
use sc_xtcp.Base.{
  List, [], ap, arith, false, length, length-append, ltb, not, refl, some, suc, true, zero, ℕ, ◌++◌,
  ◌+◌, ◌<◌, ◌∙◌, ◌∷◌, ◌≡◌, ◌≤◌,
}
use sc_xtcp.Base.Net.{ip_eq}
use sc_xtcp.Mdns.{Entry, srv_entry}
use sc_xtcp.Mdns.Labels.{At}
use sc_xtcp.Mdns.Answer.{
  compare_rdata, is_nonzero, mdns_answer_conflict, mdns_compare_answer, mdns_compare_host_answer,
  mdns_compare_srv_answer, mdns_compare_txt_answer, read16, service_conflict,
}
use sc_xtcp.Mdns.Records.{answer, bytes2}
use sc_xtcp.Mdns.Text.{encode_from, mdns_encode_name}
use sc_xtcp.Mdns.Room.{encode_name-length}
use sc_xtcp.Mdns.Compare.{
  address_bytes, address_eq, compare_answer-At, compare_rdata-flipped, flipped, read16-At,
}

-- the answer that `mdns_send_host_response` writes behind the name
abbrev pub host_answer : Entry → List ℕ
host_answer e = answer 1 32769 4 ++ address_bytes e.ipaddr

-- Two entries see each other's address record, as `mdns_send_host_response`
-- writes it, in a packet: the comparisons come to opposite results, so that at most one of them loses
-- the tie break, and both are 0 just when the addresses are the same.
pub compare_host_answer-host_answer :
    (msg msg' : List ℕ) (p p' : ℕ) (a b : Entry) (post post' : List ℕ)
    → At msg p (host_answer a ++ post)
    → At msg' p' (host_answer b ++ post')
    → (c d : ℤ) × (mdns_compare_host_answer msg p b ≡ some c)
      × (mdns_compare_host_answer msg' p' a ≡ some d)
      × (d ≡ flipped c)
      × (is_nonzero c ≡ not (ip_eq a.ipaddr b.ipaddr))
unfolding mdns_compare_host_answer
compare_host_answer-host_answer msg msg' p p' a b post post' here there =
    let (c, d, one, other, opposite, equal) =
      compare_rdata-flipped (address_bytes a.ipaddr) (address_bytes b.ipaddr) post post' refl in
    let first =
      compare_answer-At msg p 1 32769 1 (address_bytes a.ipaddr) (address_bytes b.ipaddr) post here
        (omega arith) (omega arith) (omega arith) refl refl in
    let second =
      compare_answer-At msg' p' 1 32769 1 (address_bytes b.ipaddr) (address_bytes a.ipaddr) post'
        there (omega arith) (omega arith) (omega arith) refl refl in
    (c, d, first ∙ one, second ∙ other, opposite, equal ∙ ap not (address_eq a.ipaddr b.ipaddr))

-- the two answers of a service behind its name
abbrev pub srv_answer : List ℕ → Entry → List ℕ
srv_answer canonical_name e =
    answer 33 1 (6 + length (mdns_encode_name canonical_name))
    ++ (bytes2 0 ++ bytes2 0 ++ bytes2 e.srv_port ++ mdns_encode_name canonical_name)

abbrev pub txt_answer : Entry → List ℕ
txt_answer e = answer 16 1 (length (mdns_encode_name e.txt_record)) ++ mdns_encode_name e.txt_record

compare_rdata-nil : (n : ℕ) (rdata : List ℕ) → 0 < n → compare_rdata n rdata [] ≡ some (pos 1)
unfolding compare_rdata
compare_rdata-nil zero rdata h = absurd (omega (arith, h))
compare_rdata-nil (suc n) rdata h = refl

encode_name-nonempty : (s : List ℕ) → 0 < length (mdns_encode_name s)
unfolding mdns_encode_name
encode_name-nonempty s = omega (arith, length-append (encode_from [] s) (0 ∷ []))

-- A service's own SRV answer is higher than its name, since its first byte is 0.
srv_answer-name :
    (msg : List ℕ) (p c : ℕ) (cs canonical_name : List ℕ) (e : Entry) (post : List ℕ)
    → e.name ≡ c ∷ cs
    → 0 < c
    → length canonical_name ≤ 1000
    → At msg p (srv_answer canonical_name e ++ post)
    → (read16 msg p ≡ some 33) × (mdns_compare_answer msg p 33 e.name ≡ some (negsuc 0))
unfolding compare_rdata
srv_answer-name msg p c cs canonical_name e post name c0 h here =
    let no : ltb c 0 ≡ false = ground (arith, c0) in
    let less : ltb 0 c ≡ true = ground (arith, c0) in
    (
      read16-At msg p 0 33 _ at,
      compare_answer-At msg p 33 1 33 rdata e.name post at (omega arith)
            (omega (arith, six, encode_name-length canonical_name, h)) (omega arith) refl refl
          ∙ rw (name, no, less) refl,
    )
  where
    rdata : List ℕ
    rdata = bytes2 0 ++ bytes2 0 ++ bytes2 e.srv_port ++ mdns_encode_name canonical_name

    six : 6 + length (mdns_encode_name canonical_name) ≡ length rdata
    six = omega arith

    at : At msg p (answer 33 1 (length rdata) ++ (rdata ++ post))
    at = subst (λ n. At msg p (answer 33 1 n ++ (rdata ++ post))) six here

-- A service's own TXT answer is longer than the empty text.
txt_answer-empty :
    (msg : List ℕ) (p : ℕ) (e : Entry) (post : List ℕ)
    → length e.txt_record ≤ 1000
    → At msg p (txt_answer e ++ post)
    → (read16 msg p ≡ some 16) × (mdns_compare_answer msg p 16 [] ≡ some (pos 1))
txt_answer-empty msg p e post h there = (
  read16-At msg p 0 16 _ there,
  compare_answer-At msg p 16 1 16 (mdns_encode_name e.txt_record) [] post there (omega arith)
        (omega (arith, encode_name-length e.txt_record, h)) (omega arith) refl refl
      ∙ compare_rdata-nil _ _ (encode_name-nonempty e.txt_record),
)

-- A service's own SRV answer and its own TXT answer, as the responder writes them, are both a conflict
-- for the service, whose name is not empty.
pub service_conflict_own_answers :
    (msg msg' : List ℕ) (p p' c : ℕ) (cs canonical_name : List ℕ) (e : Entry) (post post' : List ℕ)
    → e.entry_type ≡ srv_entry
    → e.name ≡ c ∷ cs
    → 0 < c
    → length canonical_name ≤ 1000
    → length e.txt_record ≤ 1000
    → At msg p (srv_answer canonical_name e ++ post)
    → At msg' p' (txt_answer e ++ post')
    → (mdns_answer_conflict msg p e ≡ some true) × (mdns_answer_conflict msg' p' e ≡ some true)
unfolding mdns_answer_conflict service_conflict mdns_compare_srv_answer mdns_compare_txt_answer
service_conflict_own_answers msg msg' p p' c cs canonical_name e post post' srv name c0 h k here
      there =
    let (kind, higher) = srv_answer-name msg p c cs canonical_name e post name c0 h here in
    let (kind', longer) = txt_answer-empty msg' p' e post' k there in
    rw (srv, kind, higher, kind', longer) (refl, refl)
