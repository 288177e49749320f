-- ===== src/Tftp/Kinds.antt =====
-- Which packets are acknowledged, and which of these end a transfer.
use sc_xtcp.Base.{
  Bool, List, Option, [], arith, drop, false, if◌then◌else◌, inl, inr, leb, length, ltb, none, not,
  refl, some, true, ℕ, ◌*◌, ◌++◌, ◌+◌, ◌>>=◌, ◌≤◌, ◌==◌, ◌||◌, ◌∷◌, ◌≡◌, ◌⊎◌,
}
use sc_xtcp.Tftp.{
  Env, Reply, Tftp, accept_block, block_size, data_packet, make_ack_pkt, make_error_pkt,
  max_file_size, min_pkt_size, opcode_ack, opcode_data, opcode_error, opcode_rrq, opcode_wrq,
  error_not_defined, image_filename, invalid_filename, invalid_mode, next_string, octet,
  process_packet, read16, reject, str_eq, word_bytes, write_request,
}
use sc_xtcp.Tftp.Replies.{kind_of}

-- The last packet of a transfer is a data packet with less than a block.
abbrev pub is_last : ℕ → Bool
is_last n = ltb n (block_size + min_pkt_size)

-- Only write requests and data packets are acknowledged, and of these only the last data packet
-- signals the end.
abbrev pub Acknowledges : ℕ → ℕ → Tftp → Tftp → Type 0
Acknowledges op n s t =
    ((op ≡ opcode_wrq) × (t.complete ≡ s.complete))
    ⊎ ((op ≡ opcode_data) × (t.complete ≡ (s.complete || is_last n)))

abbrev pub Suits : Env → ℕ → ℕ → Tftp → Option (Tftp × Reply) → Type 0
Suits env op n s none = 0 ≤ 0
Suits env op n s (some (t, none)) = op ≡ opcode_error
Suits env op n s (some (t, some p)) =
    ((kind_of p ≡ env.hton16 opcode_error) × (t.error ≡ true))
    ⊎ ((kind_of p ≡ env.hton16 opcode_ack) × (t.error ≡ s.error) × Acknowledges op n s t)

reject-Suits :
    (env : Env) (op n code : ℕ) (msg : List ℕ) (s t : Tftp)
    → Suits env op n s (reject env code msg t)
unfolding reject make_error_pkt
reject-Suits env op n code msg s t = go (ltb (length msg) 25)
  where
    go :
        (b : Bool)
        → Suits env op n s (
            (if b
              then some (
                  word_bytes (env.hton16 opcode_error)
                  ++ word_bytes (env.hton16 code)
                  ++ msg
                  ++ 0 ∷ [])
              else none)
            >>= λ p. some (record t { error = true }, some p))
    go true = inl (refl, refl)
    go false = omega arith

if-Suits :
    (env : Env) (op n : ℕ) (s : Tftp) (b : Bool) (m k : Option (Tftp × Reply))
    → (b ≡ true → Suits env op n s m)
    → (b ≡ false → Suits env op n s k)
    → Suits env op n s (if b then m else k)
if-Suits env op n s true m k f g = f refl
if-Suits env op n s false m k f g = g refl

data_packet-Suits :
    (env : Env) (op : ℕ) (rx : List ℕ) (n : ℕ) (s : Tftp)
    → op ≡ opcode_data
    → Suits env op n s (data_packet env rx n s)
unfolding data_packet accept_block make_ack_pkt
data_packet-Suits env op rx n s e =
    if-Suits env op n s (read16 env rx 2 == s.prev_block_num + 1) _ _
      (λ h.
        if-Suits env op n s (leb max_file_size (read16 env rx 2 * block_size)) _ _
          (λ k. reject-Suits env op n _ [] s _)
          λ k.
            if-Suits env op n s (not (env.process_data_block s.received _ == 0)) _ _
              (λ l. reject-Suits env op n _ [] s _) (λ l. inr (refl, refl, inr (e, refl))))
      (λ h. inr (refl, refl, inr (e, refl)))

write_request-Suits :
    (env : Env) (op n : ℕ) (name : List ℕ) (s : Tftp)
    → op ≡ opcode_wrq
    → Suits env op n s (write_request env name s)
unfolding write_request make_ack_pkt
write_request-Suits env op n name s e = named (str_eq 11 name image_filename)
  where
    binary :
        (o : Option Bool)
        → Suits env op n s (
            o >>= λ c.
            if not c
            then reject env error_not_defined invalid_mode s
            else some (s, some (make_ack_pkt env 0)))
    binary none = omega arith
    binary (some c) =
        if-Suits env op n s (not c) _ _ (λ h. reject-Suits env op n _ invalid_mode s s)
          (λ h. inr (refl, refl, inl (e, refl)))

    mode_of :
        (o : Option (List ℕ))
        → Suits env op n s (
            o >>= λ mode. str_eq 5 mode octet >>= λ c.
            if not c
            then reject env error_not_defined invalid_mode s
            else some (s, some (make_ack_pkt env 0)))
    mode_of none = omega arith
    mode_of (some mode) = binary (str_eq 5 mode octet)

    named :
        (o : Option Bool)
        → Suits env op n s (
            o >>= λ b.
            if not b
            then reject env error_not_defined invalid_filename s
            else (next_string name >>= λ mode. str_eq 5 mode octet >>= λ c.
                if not c
                then reject env error_not_defined invalid_mode s
                else some (s, some (make_ack_pkt env 0))))
    named none = omega arith
    named (some b) =
        if-Suits env op n s (not b) _ _ (λ h. reject-Suits env op n _ invalid_filename s s)
          (λ h. mode_of (next_string name))

-- What is replied to a packet suits its kind.
pub process_packet-Suits :
    (env : Env) (rx : List ℕ) (n : ℕ) (s : Tftp)
    → Suits env (read16 env rx 0) n s (process_packet env rx n s)
unfolding process_packet
process_packet-Suits env rx n s =
    let op = read16 env rx 0 in
    if-Suits env op n s (op == opcode_rrq) _ _ (λ h. reject-Suits env op n _ _ s s)
      λ h.
        if-Suits env op n s (op == opcode_wrq) _ _
          (λ k. write_request-Suits env op n (drop 2 rx) s (ground (arith, k)))
          λ k.
            if-Suits env op n s (op == opcode_data) _ _
              (λ l. data_packet-Suits env op rx n s (ground (arith, l)))
              λ l.
                if-Suits env op n s (op == opcode_ack) _ _ (λ m. reject-Suits env op n _ [] s s)
                  λ m.
                    if-Suits env op n s (op == opcode_error) _ _ (λ o. ground (arith, o))
                      (λ o. reject-Suits env op n _ [] s s)
