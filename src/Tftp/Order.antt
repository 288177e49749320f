-- ===== src/Tftp/Order.antt =====
-- Which blocks reach the application.
use sc_xtcp.Base.{
  Bool, Bool-cases, List, Option, [], ap, arith, drop, false, if◌then◌else◌, inl, inr, leb, length,
  ltb, min, none, not, refl, some, suc, sym, true, zero, ℕ, ◌*◌, ◌++◌, ◌+◌, ◌==◌, ◌>>=◌, ◌∙◌, ◌∷◌,
  ◌≡◌, ◌≤◌,
}
use mathlib.Core.Path.{subst}
use sc_xtcp.Tftp.{
  Block, Env, Reply, Tftp, accept_block, block_size, data_packet, error_illegal_operation,
  error_not_defined, image_filename, invalid_filename, invalid_mode, make_error_pkt, max_file_size,
  next_string, octet, opcode_ack, opcode_data, opcode_error, opcode_rrq, opcode_wrq, process_packet,
  read16, read_not_supported, reject, str_eq, write_request,
}

-- The packets that come in, with their lengths, and the replies; a fault ends the run.
abbrev pub run : Env → List (List ℕ × ℕ) → Tftp → Option (Tftp × List Reply)
run env [] s = some (s, [])
run env ((rx, n) ∷ ps) s = do
  r ← process_packet env rx n s
  u ← run env ps r.0
  some (u.0, r.1 ∷ u.1)

-- k, k + 1, ...
abbrev pub count_from : ℕ → ℕ → List ℕ
count_from k zero = []
count_from k (suc n) = k ∷ count_from (k + 1) n

abbrev pub nums : List Block → List ℕ
nums [] = []
nums (b ∷ bs) = b.num ∷ nums bs

-- The blocks that were passed are 1, 2, ... up to the last accepted one, less than 256.
pub record IsOrdered (s : Tftp) : Type 0 where
  pub in_order : nums s.received ≡ count_from 1 (length s.received)
  pub counted : length s.received ≡ min s.prev_block_num 255

nums-append : (bs : List Block) (b : Block) → nums (bs ++ b ∷ []) ≡ nums bs ++ b.num ∷ []
nums-append [] b = refl
nums-append (c ∷ bs) b = ap (λ x. c.num ∷ x) (nums-append bs b)

count_from-append : (k n : ℕ) → count_from k (suc n) ≡ count_from k n ++ (k + n) ∷ []
count_from-append k zero = ap (λ x. x ∷ []) (omega arith)
count_from-append k (suc n) =
    ap (λ x. k ∷ x)
      (count_from-append (k + 1) n ∙ ap (λ x. count_from (k + 1) n ++ x ∷ []) (omega arith))

length-snoc : (bs : List Block) (b : Block) → length (bs ++ b ∷ []) ≡ length bs + 1
length-snoc [] b = omega arith
length-snoc (c ∷ bs) b = omega (arith, length-snoc bs b)

-- What holds of a result where there is one.
abbrev pub Ordered : Option (Tftp × Reply) → Type 0
Ordered none = 0 ≤ 0
Ordered (some (t, r)) = IsOrdered t

reject-Ordered :
    (env : Env) (code : ℕ) (msg : List ℕ) (s : Tftp) → IsOrdered s → Ordered (reject env code msg s)
unfolding reject make_error_pkt
reject-Ordered env code msg s v = elim (Bool-cases (ltb (length msg) 25)) [
  | inl e ↦ rw e (record { in_order = v.in_order; counted = v.counted })
  | inr e ↦ rw e (omega arith)
]

Ordered-if :
    (b : Bool) (m n : Option (Tftp × Reply))
    → (b ≡ true → Ordered m)
    → (b ≡ false → Ordered n)
    → Ordered (if b then m else n)
Ordered-if true m n h k = h refl
Ordered-if false m n h k = k refl

accept_block-Ordered :
    (env : Env) (b : Block) (s : Tftp)
    → IsOrdered s
    → b.num ≡ s.prev_block_num + 1
    → Ordered (accept_block env b s)
unfolding accept_block
accept_block-Ordered env b s v e =
    Ordered-if (leb max_file_size (b.num * block_size)) _ _
      (λ h.
        reject-Ordered env _ [] _
          (record { in_order = v.in_order; counted = ground (arith, v.counted) }))
      λ h.
        let k = length-snoc s.received b in
        let n : b.num ≡ 1 + length s.received = ground (arith, v.counted) in
        let l : suc (length s.received) ≡ length s.received + 1 = omega arith in
        let w : IsOrdered (record s { prev_block_num = b.num; received = s.received ++ b ∷ [] }) =
          record {
            in_order =
                rw (k, nums-append s.received b, v.in_order)
                  (ap (λ x. count_from 1 (length s.received) ++ x ∷ []) n
                    ∙ sym (count_from-append 1 (length s.received))
                    ∙ ap (count_from 1) l);
            counted = ground (arith, v.counted);
          } in
        Ordered-if (not (env.process_data_block s.received b == 0)) _ _
          (λ f. reject-Ordered env _ [] _ w) (λ f. w)

same-IsOrdered :
    (s t : Tftp)
    → t.received ≡ s.received
    → t.prev_block_num ≡ s.prev_block_num
    → IsOrdered s
    → IsOrdered t
same-IsOrdered s t e f v = record { in_order = rw e (v.in_order); counted = rw (e, f) (v.counted) }

bind-Ordered :
    {A : Type 0} (m : Option A) (f : A → Option (Tftp × Reply))
    → ((x : A) → Ordered (f x))
    → Ordered (m >>= f)
bind-Ordered none f h = omega arith
bind-Ordered (some x) f h = h x

data_packet-Ordered :
    (env : Env) (rx : List ℕ) (n : ℕ) (s : Tftp) → IsOrdered s → Ordered (data_packet env rx n s)
unfolding data_packet
data_packet-Ordered env rx n s v =
    Ordered-if (read16 env rx 2 == s.prev_block_num + 1) _ _
      (λ h. accept_block-Ordered env _ _ (same-IsOrdered s _ refl refl v) (ground arith))
      (λ h. same-IsOrdered s _ refl refl v)

write_request-Ordered :
    (env : Env) (name : List ℕ) (s : Tftp) → IsOrdered s → Ordered (write_request env name s)
unfolding write_request
write_request-Ordered env name s v = bind-Ordered (str_eq 11 name image_filename) _ λ named.
    Ordered-if (not named) _ _ (λ h. reject-Ordered env error_not_defined invalid_filename s v)
      λ h. bind-Ordered (next_string name) _ λ mode. bind-Ordered (str_eq 5 mode octet) _ λ binary.
        Ordered-if (not binary) _ _ (λ k. reject-Ordered env error_not_defined invalid_mode s v)
          (λ k. v)

pub process_packet-Ordered :
    (env : Env) (rx : List ℕ) (n : ℕ) (s : Tftp) → IsOrdered s → Ordered (process_packet env rx n s)
unfolding process_packet
process_packet-Ordered env rx n s v =
    let op = read16 env rx 0 in
    Ordered-if (op == opcode_rrq) _ _
      (λ h. reject-Ordered env error_not_defined read_not_supported s v)
      λ h.
        Ordered-if (op == opcode_wrq) _ _ (λ k. write_request-Ordered env (drop 2 rx) s v)
          λ k.
            Ordered-if (op == opcode_data) _ _ (λ l. data_packet-Ordered env rx n s v)
              λ l.
                Ordered-if (op == opcode_ack) _ _
                  (λ m. reject-Ordered env error_illegal_operation [] s v)
                  λ m.
                    Ordered-if (op == opcode_error) _ _ (λ o. v)
                      (λ o. reject-Ordered env error_illegal_operation [] s v)

-- What holds of a run where there is one.
abbrev pub RunOrdered : Option (Tftp × List Reply) → Type 0
RunOrdered none = 0 ≤ 0
RunOrdered (some (t, rs)) = IsOrdered t

run-Ordered :
    (env : Env) (ps : List (List ℕ × ℕ)) (s : Tftp) → IsOrdered s → RunOrdered (run env ps s)
run-Ordered env [] s v = v
run-Ordered env ((rx, n) ∷ ps) s v =
    after (process_packet env rx n s) (process_packet-Ordered env rx n s v)
      (λ t w. run-Ordered env ps t w)
  where
    then_reply :
        (r : Reply) (m : Option (Tftp × List Reply))
        → RunOrdered m
        → RunOrdered (m >>= λ u. some (u.0, r ∷ u.1))
    then_reply r none h = h
    then_reply r (some (t, rs)) h = h

    after :
        (m : Option (Tftp × Reply))
        → Ordered m
        → ((t : Tftp) → IsOrdered t → RunOrdered (run env ps t))
        → RunOrdered (m >>= λ r. run env ps r.0 >>= λ u. some (u.0, r.1 ∷ u.1))
    after none h k = omega arith
    after (some (t, r)) h k = then_reply r (run env ps t) (k t h)

-- Whatever packets come in, if none faults, the application has been passed the blocks 1, 2, ... in
-- order and once each, up to the last accepted one and never one past 255: `IsOrdered` is kept.
run-IsOrdered :
    (env : Env) (ps : List (List ℕ × ℕ)) (s t : Tftp) (rs : List Reply)
    → IsOrdered s
    → run env ps s ≡ some (t, rs)
    → IsOrdered t
run-IsOrdered env ps s t rs v e = subst RunOrdered e (run-Ordered env ps s v)
