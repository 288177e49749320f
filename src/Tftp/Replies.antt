-- ===== src/Tftp/Replies.antt =====
-- What every packet is answered with.
use sc_xtcp.Base.{
  Bool, Bool-cases, List, Option, [], arith, drop, false, get_or, if◌then◌else◌, inl, inr, leb,
  length, length-append, ltb, none, not, refl, some, suc, true, zero, ℕ, ◌*◌, ◌++◌, ◌+◌, ◌<◌, ◌==◌,
  ◌∷◌, ◌≡◌, ◌≤◌, ◌⊎◌,
}
use sc_xtcp.Tftp.{
  Env, Reply, Tftp, accept_block, block_size, data_packet, error_access_violation, error_disk_full,
  error_illegal_operation, error_not_defined, image_filename, invalid_filename, invalid_mode,
  make_ack_pkt, make_error_pkt, max_file_size, next_string, octet, opcode_ack, opcode_data,
  opcode_error, opcode_rrq, opcode_wrq, process_packet, read16, read_not_supported, reject, str_eq,
  write_request,
}

-- the first word of a packet
abbrev pub kind_of : List ℕ → ℕ × ℕ
kind_of p = (get_or p 0 0, get_or p 1 0)

-- An answer: an error packet and the error signal, or an acknowledgement and no new signal, either of
-- at most 29 bytes, the size of the buffer.
abbrev pub IsReply : Env → Bool → Bool → List ℕ → Type 0
IsReply env before after p =
    (4 ≤ length p)
    × (length p ≤ 29)
    × (((kind_of p ≡ env.hton16 opcode_error) × (after ≡ true))
        ⊎ ((kind_of p ≡ env.hton16 opcode_ack) × (after ≡ before)))

abbrev pub Answered : Env → ℕ → Tftp → Option (Tftp × Reply) → Type 0
Answered env op s none = 0 < 0
Answered env op s (some (t, none)) = (op ≡ opcode_error) × (t ≡ s)
Answered env op s (some (t, some p)) = IsReply env s.error t.error p

reject-Answered :
    (env : Env) (op code : ℕ) (msg : List ℕ) (s t : Tftp)
    → ltb (length msg) 25 ≡ true
    → Answered env op s (reject env code msg t)
unfolding reject make_error_pkt
reject-Answered env op code msg s t h =
    rw h (omega arith, omega (arith, bounded msg h), inl (refl, refl))
  where
    bounded : (xs : List ℕ) → ltb (length xs) 25 ≡ true → length (xs ++ 0 ∷ []) ≤ 25
    bounded xs e = ground (arith, length-append xs (0 ∷ []))

ack-IsReply : (env : Env) (error : Bool) (k : ℕ) → IsReply env error error (make_ack_pkt env k)
unfolding make_ack_pkt
ack-IsReply env error k = (omega arith, omega arith, inr (refl, refl))

Answered-if :
    (env : Env) (op : ℕ) (s : Tftp) (b : Bool) (m n : Option (Tftp × Reply))
    → (b ≡ true → Answered env op s m)
    → (b ≡ false → Answered env op s n)
    → Answered env op s (if b then m else n)
Answered-if env op s true m n h k = h refl
Answered-if env op s false m n h k = k refl

data_packet-Answered :
    (env : Env) (op : ℕ) (rx : List ℕ) (n : ℕ) (s : Tftp)
    → Answered env op s (data_packet env rx n s)
unfolding data_packet accept_block
data_packet-Answered env op rx n s =
    Answered-if env op s (read16 env rx 2 == s.prev_block_num + 1) _ _
      (λ h.
        Answered-if env op s (leb max_file_size (read16 env rx 2 * block_size)) _ _
          (λ k. reject-Answered env op error_disk_full [] s _ refl)
          λ k.
            Answered-if env op s (not (env.process_data_block s.received _ == 0)) _ _
              (λ l. reject-Answered env op error_access_violation [] s _ refl)
              (λ l. ack-IsReply env s.error _))
      (λ h. ack-IsReply env s.error _)

-- `str_eq` returns where the string ends in the buffer.
str_eq-total :
    (n : ℕ) (xs ys ms : List ℕ) → next_string xs ≡ some ms → (b : Bool) × (str_eq n xs ys ≡ some b)
unfolding str_eq next_string
str_eq-total zero xs ys ms e = (true, refl)
str_eq-total (suc n) [] ys ms e = cc
str_eq-total (suc n) (x ∷ xs) [] ms e = (x == 0, refl)
str_eq-total (suc n) (x ∷ xs) (y ∷ ys) ms e = elim (Bool-cases (x == y)) [
  | inr f ↦ (false, rw f refl)
  | inl f ↦ elim (Bool-cases (x == 0)) [
    | inl g ↦ (true, rw (f, g) refl)
    | inr g ↦
        let t : next_string xs ≡ some ms = ground arith in
        let (b, h) = str_eq-total n xs ys ms t in (b, rw (f, g) h)
  ]
]

-- The two strings of a write request end in the buffer.
abbrev pub HasStrings : List ℕ → Type 0
HasStrings name =
    (mode : List ℕ) × (rest : List ℕ) × (next_string name ≡ some mode)
    × (next_string mode ≡ some rest)

write_request-Answered :
    (env : Env) (op : ℕ) (name : List ℕ) (s : Tftp)
    → HasStrings name
    → Answered env op s (write_request env name s)
unfolding write_request
write_request-Answered env op name s (mode, rest, e, f) =
    let (b, g) = str_eq-total 11 name image_filename mode e in
    let (c, h) = str_eq-total 5 mode octet rest f in
    rw (g, e, h)
      (Answered-if env op s (not b) _ _
        (λ x. reject-Answered env op error_not_defined invalid_filename s s refl)
        λ x.
          Answered-if env op s (not c) _ _
            (λ y. reject-Answered env op error_not_defined invalid_mode s s refl)
            (λ y. ack-IsReply env s.error 0))

pub process_packet-Answered :
    (env : Env) (rx : List ℕ) (n : ℕ) (s : Tftp)
    → (read16 env rx 0 ≡ opcode_wrq → HasStrings (drop 2 rx))
    → Answered env (read16 env rx 0) s (process_packet env rx n s)
unfolding process_packet
process_packet-Answered env rx n s w =
    let op = read16 env rx 0 in
    Answered-if env op s (op == opcode_rrq) _ _
      (λ h. reject-Answered env op error_not_defined read_not_supported s s refl)
      λ h.
        Answered-if env op s (op == opcode_wrq) _ _
          (λ k. write_request-Answered env op (drop 2 rx) s (w (ground arith)))
          λ k.
            Answered-if env op s (op == opcode_data) _ _ (λ l. data_packet-Answered env op rx n s)
              λ l.
                Answered-if env op s (op == opcode_ack) _ _
                  (λ m. reject-Answered env op error_illegal_operation [] s s refl)
                  λ m.
                    Answered-if env op s (op == opcode_error) _ _ (λ o. (ground arith, refl))
                      (λ o. reject-Answered env op error_illegal_operation [] s s refl)
