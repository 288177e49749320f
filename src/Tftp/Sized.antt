-- ===== src/Tftp/Sized.antt =====
-- Every reply of the packet functions fits the transmit buffer.
use sc_xtcp.Base.{
  Bool-cases, List, Option, [], arith, drop, if_ind, inl, inr, leb, length, length-append, ltb,
  none, not, some, true, ℕ, ◌*◌, ◌++◌, ◌+◌, ◌==◌, ◌>>=◌, ◌∷◌, ◌≡◌, ◌≤◌,
}
use sc_xtcp.Tftp.{
  Env, Reply, Tftp, accept_block, block_size, data_packet, image_filename, make_ack_pkt,
  make_error_pkt, max_file_size, next_string, octet, opcode_ack, opcode_data, opcode_error,
  opcode_rrq, opcode_wrq, process_packet, read16, reject, str_eq, write_request,
}

-- A reply is an error packet or an acknowledgement.
abbrev pub Sized : Option (Tftp × Reply) → Type 0
Sized none = 0 ≤ 0
Sized (some (t, none)) = 0 ≤ 0
Sized (some (t, some p)) = (4 ≤ length p) × (length p ≤ 29)

reject-Sized : (env : Env) (code : ℕ) (msg : List ℕ) (s : Tftp) → Sized (reject env code msg s)
unfolding reject make_error_pkt
reject-Sized env code msg s = elim (Bool-cases (ltb (length msg) 25)) [
  | inl e ↦ rw e (omega arith, omega (arith, within msg e))
  | inr e ↦ rw e (omega arith)
]
  where
    within : (xs : List ℕ) → ltb (length xs) 25 ≡ true → length (xs ++ 0 ∷ []) ≤ 25
    within xs e = ground (arith, length-append xs (0 ∷ []))

bind-Sized :
    {A : Type 0} (m : Option A) (f : A → Option (Tftp × Reply))
    → ((x : A) → Sized (f x))
    → Sized (m >>= f)
bind-Sized none f h = omega arith
bind-Sized (some x) f h = h x

ack-Sized :
    (env : Env) (k : ℕ) → (4 ≤ length (make_ack_pkt env k)) × (length (make_ack_pkt env k) ≤ 29)
unfolding make_ack_pkt
ack-Sized env k = (omega arith, omega arith)

write_request-Sized : (env : Env) (name : List ℕ) (s : Tftp) → Sized (write_request env name s)
unfolding write_request
write_request-Sized env name s = bind-Sized (str_eq 11 name image_filename) _ λ named.
    if_ind Sized (not named) (λ h. reject-Sized env _ _ s)
      λ h. bind-Sized (next_string name) _ λ mode.
        bind-Sized (str_eq 5 mode octet) _
          λ binary. if_ind Sized (not binary) (λ k. reject-Sized env _ _ s) (λ k. ack-Sized env 0)

data_packet-Sized : (env : Env) (rx : List ℕ) (n : ℕ) (s : Tftp) → Sized (data_packet env rx n s)
unfolding data_packet accept_block
data_packet-Sized env rx n s =
    if_ind Sized (read16 env rx 2 == s.prev_block_num + 1)
      (λ h.
        if_ind Sized (leb max_file_size (read16 env rx 2 * block_size))
          (λ k. reject-Sized env _ _ _)
          (λ k.
            if_ind Sized (not (env.process_data_block s.received _ == 0))
              (λ l. reject-Sized env _ _ _) (λ l. ack-Sized env _)))
      (λ h. ack-Sized env _)

pub process_packet-Sized :
    (env : Env) (rx : List ℕ) (n : ℕ) (s : Tftp) → Sized (process_packet env rx n s)
unfolding process_packet
process_packet-Sized env rx n s =
    let op = read16 env rx 0 in
    if_ind Sized (op == opcode_rrq) (λ h. reject-Sized env _ _ s)
      λ h.
        if_ind Sized (op == opcode_wrq) (λ k. write_request-Sized env (drop 2 rx) s)
          λ k.
            if_ind Sized (op == opcode_data) (λ l. data_packet-Sized env rx n s)
              λ l.
                if_ind Sized (op == opcode_ack) (λ m. reject-Sized env _ _ s)
                  λ m.
                    if_ind Sized (op == opcode_error) (λ o. omega arith)
                      (λ o. reject-Sized env _ _ s)
