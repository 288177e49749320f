-- ===== src/Mdns/Records.antt =====
-- The records that mdns.c writes into its array `data`: the bytes of each, and `dptr` that moves on
-- behind them. Writing behind the end of the array is `none`.
use sc_xtcp.Base.{
  List, Option, [], if◌then◌else◌, length, ltb, none, not, some, ℕ, ◌%◌, ◌&&◌, ◌*◌, ◌++◌, ◌+◌, ◌/◌,
  ◌>>=◌, ◌∷◌,
}
use sc_xtcp.Mdns.{Entry, is_canonical, is_probe_wait, is_srv}
use sc_xtcp.Mdns.Text.{mdns_encode_ip, mdns_encode_name}

-- XTCP_CLIENT_BUF_SIZE
abbrev pub buf_size : ℕ
buf_size = 1472

-- sizeof(struct mdns_hdr)
abbrev pub header_size : ℕ
header_size = 12

-- a number that HTONS or HTONL turned around, as the bytes in memory
abbrev pub bytes2 : ℕ → List ℕ
bytes2 n = n / 256 % 256 ∷ n % 256 ∷ []

abbrev pub bytes4 : ℕ → List ℕ
bytes4 n = n / 16777216 % 256 ∷ n / 65536 % 256 ∷ n / 256 % 256 ∷ n % 256 ∷ []

-- `struct mdns_answer`, with a ttl of 255
abbrev pub answer : ℕ → ℕ → ℕ → List ℕ
answer type class len = bytes2 type ++ bytes2 class ++ bytes4 255 ++ bytes2 len

-- `data`: the bytes between the header and `dptr`, and the number of the records there
pub record Message : Type 0 where
  pub body : List ℕ
  pub number : ℕ

-- The bytes go to `dptr`.
unfoldable pub put : List ℕ → Message → Option Message
put bytes m =
    if ltb buf_size (header_size + (length m.body + length bytes))
    then none
    else some (record { body = m.body ++ bytes; number = m.number + 1 })

unfoldable pub host_record : Entry → List ℕ
host_record e =
    mdns_encode_name e.name
    ++ (answer 1 32769 4 ++ e.ipaddr.b0 ∷ e.ipaddr.b1 ∷ e.ipaddr.b2 ∷ e.ipaddr.b3 ∷ [])

-- `mdns_send_host_response`
unfoldable pub mdns_send_host_response : Message → Entry → Option Message
mdns_send_host_response m e = put (host_record e) m

-- `mdns_get_canonical_name`, which also finds entries that are not in use
unfoldable pub mdns_get_canonical_name : List Entry → Option (List ℕ)
mdns_get_canonical_name [] = none
mdns_get_canonical_name (e ∷ es) =
    let rest = mdns_get_canonical_name es in
    if not (is_probe_wait e.state) && is_canonical e.entry_type then some e.name else rest

unfoldable pub ptr_record : Entry → List ℕ
ptr_record e =
    let name =
      if is_srv e.entry_type then mdns_encode_name e.name_postfix else mdns_encode_ip e.ipaddr in
    let ans_name = mdns_encode_name e.name in name ++ (answer 12 1 (length ans_name) ++ ans_name)

-- `mdns_send_ptr_response`
unfoldable pub mdns_send_ptr_response : Message → Entry → Option Message
mdns_send_ptr_response m e = put (ptr_record e) m

unfoldable pub srv_record : List ℕ → Entry → List ℕ
srv_record canonical_name e =
    let target_name = mdns_encode_name canonical_name in
    mdns_encode_name e.name
    ++ (answer 33 1 (6 + length target_name)
        ++ (bytes2 0 ++ bytes2 0 ++ bytes2 e.srv_port ++ target_name))

-- `mdns_send_srv_response`: without a canonical name it reads at NULL
unfoldable pub mdns_send_srv_response : List Entry → Message → Entry → Option Message
mdns_send_srv_response table m e = do
  name ← mdns_get_canonical_name table
  put (srv_record name e) m

unfoldable pub txt_record_bytes : Entry → List ℕ
txt_record_bytes e =
    let ans_txt = mdns_encode_name e.txt_record in
    mdns_encode_name e.name ++ (answer 16 1 (length ans_txt) ++ ans_txt)

-- `mdns_send_txt_response`
unfoldable pub mdns_send_txt_response : Message → Entry → Option Message
mdns_send_txt_response m e = put (txt_record_bytes e) m

unfoldable pub probe_bytes : Entry → List ℕ
probe_bytes e = mdns_encode_name e.name ++ (bytes2 255 ++ bytes2 1)

-- `mdns_send_probe`
unfoldable pub mdns_send_probe : Message → Entry → Option Message
mdns_send_probe m e = put (probe_bytes e) m

-- `probe_size`
unfoldable pub probe_size : Entry → ℕ
probe_size e = 4 + length e.name

-- `mdns_response_size`
unfoldable pub mdns_response_size : Entry → ℕ
mdns_response_size e = 10 + 2 * length e.name + 4

-- The records that an entry is announced by: all three of a service, or its address.
unfoldable pub entry_records : List Entry → Message → Entry → Option Message
entry_records table m e =
    if is_srv e.entry_type
    then (mdns_send_ptr_response m e >>= λ p.
        mdns_send_srv_response table p e >>= λ s. mdns_send_txt_response s e)
    else mdns_send_host_response m e

-- `struct mdns_hdr`, whose id, second flags and number of further records are 0
unfoldable pub header : ℕ → ℕ → ℕ → ℕ → List ℕ
header flags1 numquestions numanswers numauthrr =
    bytes2 0
    ++ flags1 ∷ 0 ∷ (bytes2 numquestions ++ (bytes2 numanswers ++ (bytes2 numauthrr ++ bytes2 0)))
