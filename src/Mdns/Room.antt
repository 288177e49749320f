-- ===== src/Mdns/Room.antt =====
-- The lengths of the records that mdns.c writes, and when they fit into its array.
use sc_xtcp.Base.{
  Bool-cases, List, Option, [], arith, false, inl, inr, length, length-append, ltb, refl, some, ℕ,
  ◌*◌, ◌++◌, ◌+◌, ◌==◌, ◌>>=◌, ◌∷◌, ◌≡◌, ◌≤◌,
}
use sc_xtcp.Base.Net.{IpAddr}
use sc_xtcp.Mdns.Fields.{IsAddr, itoa-length}
use sc_xtcp.Mdns.{Entry, is_srv}
use sc_xtcp.Mdns.Text.{
  encode_field, encode_from, in_addr_labels, mdns_encode_ip, mdns_encode_name, mdns_itoa,
  unless_empty,
}
use sc_xtcp.Mdns.Records.{
  Message, answer, buf_size, bytes2, header_size, host_record, probe_bytes, ptr_record, put,
  srv_record, txt_record_bytes,
}

unless_empty-length : (s more : List ℕ) → length (unless_empty s more) ≤ length more
unless_empty-length [] more = omega arith
unless_empty-length (c ∷ s) more = omega arith

encode_from-length :
    (label cs : List ℕ) → length (encode_from label cs) ≤ length label + length cs + 1
unfolding encode_from
encode_from-length label [] = omega arith
encode_from-length label (c ∷ cs) = elim (Bool-cases (c == 46)) [
  | inl e ↦ rw e (
      omega (
        arith,
        length-append label (unless_empty cs (encode_from [] cs)),
        unless_empty-length cs (encode_from [] cs),
        encode_from-length [] cs,
      ))
  | inr e ↦
      rw e (omega (arith, encode_from-length (label ++ c ∷ []) cs, length-append label (c ∷ [])))
]

pub encode_name-length : (s : List ℕ) → length (mdns_encode_name s) ≤ length s + 2
unfolding mdns_encode_name
encode_name-length s =
    omega (arith, length-append (encode_from [] s) (0 ∷ []), encode_from-length [] s)

encode_ip-length : (a : IpAddr) → IsAddr a → length (mdns_encode_ip a) ≤ 30
unfolding mdns_encode_ip
encode_ip-length a v = omega (
  arith,
  itoa-length a.b3 (omega (arith, v.byte3)),
  itoa-length a.b2 (omega (arith, v.byte2)),
  itoa-length a.b1 (omega (arith, v.byte1)),
  itoa-length a.b0 (omega (arith, v.byte0)),
  length-append (mdns_itoa a.b3)
      (encode_field a.b2 ++ (encode_field a.b1 ++ (encode_field a.b0 ++ in_addr_labels))),
  length-append (mdns_itoa a.b2) (encode_field a.b1 ++ (encode_field a.b0 ++ in_addr_labels)),
  length-append (mdns_itoa a.b1) (encode_field a.b0 ++ in_addr_labels),
  length-append (mdns_itoa a.b0) in_addr_labels,
)

-- The texts of an entry have at most `l` bytes, and its address is one.
pub record IsShort (l : ℕ) (e : Entry) : Type 0 where
  pub short_name : length e.name ≤ l
  pub short_postfix : length e.name_postfix ≤ l
  pub short_txt : length e.txt_record ≤ l
  pub is_addr : IsAddr e.ipaddr

-- The step adds at most `k` bytes and at least `j` records, and `k` bytes fit.
abbrev pub Grows : ℕ → ℕ → (Message → Option Message) → Message → Type 0
Grows k j step m =
    header_size + (length m.body + k) ≤ buf_size
    → (m' : Message) × (step m ≡ some m')
      × (length m'.body ≤ length m.body + k)
      × (m.number + j ≤ m'.number)

pub put-Grows : (k : ℕ) (bytes : List ℕ) (m : Message) → length bytes ≤ k → Grows k 1 (put bytes) m
unfolding put
put-Grows k bytes m h room =
    let fits : ltb buf_size (header_size + (length m.body + length bytes)) ≡ false =
      ground (arith, h) in
    rw fits (
      record { body = m.body ++ bytes; number = m.number + 1 },
      refl,
      omega (arith, h, length-append m.body bytes),
      omega arith,
    )

pub then-Grows :
    (k j k' j' : ℕ) (f g : Message → Option Message) (m : Message)
    → Grows k j f m
    → ((n : Message) → Grows k' j' g n)
    → Grows (k + k') (j + j') (λ x. f x >>= g) m
then-Grows k j k' j' f g m p q room =
    let (n, e, le, num) = p (omega (arith, room)) in
    let (n', e', le', num') = q n (omega (arith, room, le)) in
    (n', rw e e', omega (arith, le, le'), omega (arith, num, num'))

module _ (l : ℕ) (e : Entry) (short : IsShort l e) where
  pub host_record-length : length (host_record e) ≤ l + 16
  unfolding host_record
  host_record-length = omega (
    arith,
    encode_name-length e.name,
    short.short_name,
    length-append (mdns_encode_name e.name)
        (answer 1 32769 4 ++ e.ipaddr.b0 ∷ e.ipaddr.b1 ∷ e.ipaddr.b2 ∷ e.ipaddr.b3 ∷ []),
  )

  pub probe_bytes-length : length (probe_bytes e) ≤ l + 6
  unfolding probe_bytes
  probe_bytes-length = omega (
    arith,
    encode_name-length e.name,
    short.short_name,
    length-append (mdns_encode_name e.name) (bytes2 255 ++ bytes2 1),
  )

  pub ptr_record-length : length (ptr_record e) ≤ 2 * l + 42
  unfolding ptr_record
  ptr_record-length = elim (Bool-cases (is_srv e.entry_type)) [
    | inl s ↦ rw s (
        omega (
          arith,
          encode_name-length e.name,
          short.short_name,
          encode_name-length e.name_postfix,
          short.short_postfix,
          length-append (mdns_encode_name e.name_postfix) behind,
        ))
    | inr s ↦ rw s (
        omega (
          arith,
          encode_name-length e.name,
          short.short_name,
          encode_ip-length e.ipaddr short.is_addr,
          length-append (mdns_encode_ip e.ipaddr) behind,
        ))
  ]
    where
      behind : List ℕ
      behind = answer 12 1 (length (mdns_encode_name e.name)) ++ mdns_encode_name e.name

  pub srv_record-length : (c : List ℕ) → length c ≤ l → length (srv_record c e) ≤ 2 * l + 20
  unfolding srv_record
  srv_record-length c h = omega (
    arith,
    encode_name-length e.name,
    short.short_name,
    encode_name-length c,
    h,
    length-append (mdns_encode_name e.name) (
        answer 33 1 (6 + length (mdns_encode_name c))
        ++ (bytes2 0 ++ bytes2 0 ++ bytes2 e.srv_port ++ mdns_encode_name c)),
  )

  pub txt_record_bytes-length : length (txt_record_bytes e) ≤ 2 * l + 14
  unfolding txt_record_bytes
  txt_record_bytes-length = omega (
    arith,
    encode_name-length e.name,
    short.short_name,
    encode_name-length e.txt_record,
    short.short_txt,
    length-append (mdns_encode_name e.name)
        (answer 16 1 (length (mdns_encode_name e.txt_record)) ++ mdns_encode_name e.txt_record),
  )
