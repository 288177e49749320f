-- ===== src/Mdns/Fits.antt =====
-- `mdns_send` where the packet has room for the records of every entry.
use sc_xtcp.Base.{Bool-cases, List, arith, inl, inr, length, some, ℕ, ◌*◌, ◌+◌, ◌>>=◌, ◌≡◌, ◌≤◌}
use sc_xtcp.Mdns.{Entry, is_srv}
use sc_xtcp.Mdns.Records.{
  Message, entry_records, host_record, mdns_get_canonical_name, mdns_send_host_response,
  mdns_send_probe, mdns_send_ptr_response, mdns_send_srv_response, mdns_send_txt_response,
  probe_bytes, ptr_record, srv_record, txt_record_bytes,
}
use sc_xtcp.Mdns.Room.{
  Grows, IsShort, host_record-length, probe_bytes-length, ptr_record-length, put-Grows,
  srv_record-length, then-Grows, txt_record_bytes-length,
}

-- The canonical name is there, and is short.
abbrev pub Named : ℕ → List Entry → Type 0
Named l table = (c : List ℕ) × (mdns_get_canonical_name table ≡ some c) × (length c ≤ l)

module _ (l : ℕ) (e : Entry) (short : IsShort l e) where
  pub host-Grows : (m : Message) → Grows (l + 16) 1 (λ x. mdns_send_host_response x e) m
  unfolding mdns_send_host_response
  host-Grows m = put-Grows (l + 16) (host_record e) m (host_record-length l e short)

  pub ptr-Grows : (m : Message) → Grows (2 * l + 42) 1 (λ x. mdns_send_ptr_response x e) m
  unfolding mdns_send_ptr_response
  ptr-Grows m = put-Grows (2 * l + 42) (ptr_record e) m (ptr_record-length l e short)

  pub txt-Grows : (m : Message) → Grows (2 * l + 14) 1 (λ x. mdns_send_txt_response x e) m
  unfolding mdns_send_txt_response
  txt-Grows m = put-Grows (2 * l + 14) (txt_record_bytes e) m (txt_record_bytes-length l e short)

  pub srv-Grows :
      (table : List Entry)
      → Named l table
      → (m : Message) → Grows (2 * l + 20) 1 (λ x. mdns_send_srv_response table x e) m
  unfolding mdns_send_srv_response
  srv-Grows table (c, found, h) m room =
      rw found (put-Grows (2 * l + 20) (srv_record c e) m (srv_record-length l e short c h) room)

  pub probe-Grows : (m : Message) → Grows (l + 6) 1 (λ x. mdns_send_probe x e) m
  unfolding mdns_send_probe
  probe-Grows m = put-Grows (l + 6) (probe_bytes e) m (probe_bytes-length l e short)

  pub entry_records_grow :
      (table : List Entry)
      → Named l table
      → (m : Message) → Grows (6 * l + 76) 1 (λ x. entry_records table x e) m
  unfolding entry_records
  entry_records_grow table named m room = elim (Bool-cases (is_srv e.entry_type)) [
    | inl s ↦
        let later : (n : Message)
            → Grows (4 * l + 34) 2
                (λ x. mdns_send_srv_response table x e >>= λ y. mdns_send_txt_response y e) n =
          λ n r.
            let (o, step, le, num) =
              then-Grows (2 * l + 20) 1 (2 * l + 14) 1 (λ x. mdns_send_srv_response table x e)
                (λ x. mdns_send_txt_response x e) n (srv-Grows table named n) txt-Grows
                (omega (arith, r)) in
            (o, step, omega (arith, le), num) in
        let (n, step, le, num) =
          then-Grows (2 * l + 42) 1 (4 * l + 34) 2 (λ x. mdns_send_ptr_response x e)
            (λ x. mdns_send_srv_response table x e >>= λ y. mdns_send_txt_response y e) m
            (ptr-Grows m) later (omega (arith, room)) in
        rw s (n, step, omega (arith, le), omega (arith, num))
    | inr s ↦
        let (n, step, le, num) = host-Grows m (omega (arith, room)) in
        rw s (n, step, omega (arith, le), omega (arith, num))
  ]
