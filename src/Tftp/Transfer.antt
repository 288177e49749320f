-- ===== src/Tftp/Transfer.antt =====
-- A whole transfer, with repeated packets.
use sc_xtcp.Base.{
  List, [], ap, append-nil, append_assoc, arith, false, leb, length, ltb, refl, some, suc, sym,
  take, take-length, true, zero, ℕ, ◌*◌, ◌++◌, ◌+◌, ◌-◌, ◌<◌, ◌==◌, ◌^◌, ◌||◌, ◌∙◌, ◌∷◌, ◌≡◌, ◌≢◌,
  ◌≤◌,
}
use sc_xtcp.Base.Words.{pos, ℤ}
use mathlib.Core.Path.{subst}
use sc_xtcp.Tftp.{
  Block, Env, Reply, Tftp, accept_block, block_size, data_len, data_packet, make_ack_pkt,
  max_file_size, min_pkt_size, opcode_data, process_packet, word_bytes,
}
use sc_xtcp.Tftp.Order.{run}

-- What the code relies on: the byte order functions undo each other on 16-bit words.
pub record IsNet (env : Env) : Type 0 where
  pub round_trip : (n : ℕ) → n < 2 ^ 16 → env.ntoh16 (env.hton16 n) ≡ n

-- A data packet of a client, with its length.
abbrev pub data_pkt : Env → ℕ → List ℕ → List ℕ × ℕ
data_pkt env k bs = (
  word_bytes (env.hton16 opcode_data) ++ word_bytes (env.hton16 k) ++ bs,
  min_pkt_size + length bs,
)

-- The packet of each block, sent once and then as often as the number beside the block says.
abbrev pub repeat : {A : Type 0} → ℕ → A → List A → List A
repeat zero x xs = xs
repeat (suc n) x xs = x ∷ repeat n x xs

abbrev pub packets : Env → ℕ → List (List ℕ × ℕ) → List (List ℕ × ℕ)
packets env k [] = []
packets env k ((bs, d) ∷ fs) =
    data_pkt env k bs ∷ repeat d (data_pkt env k bs) (packets env (k + 1) fs)

-- an acknowledgement of each packet
abbrev pub acks : Env → ℕ → List (List ℕ × ℕ) → List Reply
acks env k [] = []
acks env k ((bs, d) ∷ fs) =
    some (make_ack_pkt env k) ∷ repeat d (some (make_ack_pkt env k)) (acks env (k + 1) fs)

abbrev pub block_of : ℕ → List ℕ → Block
block_of k bs = record { num = k; bytes = bs; len = pos (length bs) }

abbrev pub blocks : ℕ → List (List ℕ × ℕ) → List Block
blocks k [] = []
blocks k ((bs, d) ∷ fs) = block_of k bs ∷ blocks (k + 1) fs

-- what every data packet does
abbrev pub seen : ℕ → List ℕ → Tftp → Tftp
seen k bs s = record s {
  complete = s.complete || ltb (min_pkt_size + length bs) (block_size + min_pkt_size);
  block_num_glob = k;
}

abbrev pub Replied : Env → ℕ → Tftp → List ℕ → Tftp → Type 0
Replied env k t bs s =
    process_packet env (data_pkt env k bs).0 (data_pkt env k bs).1 s
    ≡ some (t, some (make_ack_pkt env k))

data_pkt-data :
    (env : Env) (k : ℕ) (bs : List ℕ) (s : Tftp)
    → IsNet env
    → process_packet env (data_pkt env k bs).0 (data_pkt env k bs).1 s
      ≡ data_packet env (data_pkt env k bs).0 (data_pkt env k bs).1 s
unfolding process_packet
data_pkt-data env k bs s n = rw (n.round_trip 3 (omega arith)) refl

sent_block :
    (k : ℕ) (bs : List ℕ)
    → record {
      num = k;
      bytes = take (min_pkt_size + length bs - min_pkt_size) bs;
      len = data_len (min_pkt_size + length bs);
    }
      ≡ block_of k bs
sent_block k bs =
    same _ _ (ap (λ n. take n bs) (same_length bs) ∙ take-length (length bs) bs (omega arith))
      (rw (long bs) (ap pos (same_length bs)))
  where
    same_length : (xs : List ℕ) → min_pkt_size + length xs - min_pkt_size ≡ length xs
    same_length xs = omega arith

    long : (xs : List ℕ) → ltb (min_pkt_size + length xs) min_pkt_size ≡ false
    long xs = ground arith

    same :
        (xs : List ℕ) (l : ℤ)
        → xs ≡ bs
        → l ≡ pos (length bs)
        → record { num = k; bytes = xs; len = l } ≡ block_of k bs
    same xs l e f = cc

-- A packet whose block is not next is acknowledged and its block is dropped.
pub stale-Replied :
    (env : Env) (k : ℕ) (bs : List ℕ) (s : Tftp)
    → IsNet env
    → k < 2 ^ 16
    → k ≢ s.prev_block_num + 1
    → Replied env k (seen k bs s) bs s
unfolding data_packet
stale-Replied env k bs s n w h = data_pkt-data env k bs s n ∙ rw (n.round_trip k w, other k h) refl
  where
    other : (i : ℕ) → i ≢ s.prev_block_num + 1 → (i == s.prev_block_num + 1) ≡ false
    other i f = ground arith

accepted :
    (env : Env) (k : ℕ) (bs : List ℕ) (s : Tftp)
    → k < 256
    → env.process_data_block s.received (block_of k bs) ≡ 0
    → accept_block env (block_of k bs) s
      ≡ some (
        record s { prev_block_num = k; received = s.received ++ block_of k bs ∷ [] },
        some (make_ack_pkt env k),
      )
unfolding accept_block
accepted env k bs s w p =
    let e : leb max_file_size (k * block_size) ≡ false = ground arith in rw (e, p) refl

-- A packet whose block is next goes to the application.
pub next-Replied :
    (env : Env) (k : ℕ) (bs : List ℕ) (s : Tftp)
    → IsNet env
    → k < 256
    → k ≡ s.prev_block_num + 1
    → env.process_data_block s.received (block_of k bs) ≡ 0
    → Replied env k
        (record (seen k bs s) { prev_block_num = k; received = s.received ++ block_of k bs ∷ [] })
        bs
        s
unfolding data_packet
next-Replied env k bs s n w h p =
    let e : (k == s.prev_block_num + 1) ≡ true = ground arith in
    data_pkt-data env k bs s n
    ∙ rw (n.round_trip k (omega (arith, w)), e, sent_block k bs)
        (accepted env k bs (seen k bs s) w p)

-- The next packets, when one is known to be replied to.
pub run-cons :
    (env : Env) (k : ℕ) (bs : List ℕ) (s t u : Tftp) (ps : List (List ℕ × ℕ)) (rs : List Reply)
    → Replied env k t bs s
    → run env ps t ≡ some (u, rs)
    → run env (data_pkt env k bs ∷ ps) s ≡ some (u, some (make_ack_pkt env k) ∷ rs)
run-cons env k bs s t u ps rs e f = rw (e, f) refl

-- A run that answers with these replies, and passes these blocks on.
abbrev pub Runs : Env → List (List ℕ × ℕ) → Tftp → List Reply → List Block → ℕ → Type 0
Runs env ps s rs bs prev =
    (t : Tftp) × (run env ps s ≡ some (t, rs))
    × (t.received ≡ s.received ++ bs)
    × (t.prev_block_num ≡ prev)
    × (t.error ≡ s.error)

pub run-repeat :
    (env : Env) (d k : ℕ) (bs : List ℕ) (s : Tftp) (ps : List (List ℕ × ℕ)) (rs : List Reply)
    (os : List Block) (prev : ℕ)
    → IsNet env
    → k < 2 ^ 16
    → k ≢ s.prev_block_num + 1
    → ((t : Tftp)
        → t.received ≡ s.received
        → t.prev_block_num ≡ s.prev_block_num
        → t.error ≡ s.error
        → Runs env ps t rs os prev)
    → Runs env (repeat d (data_pkt env k bs) ps) s (repeat d (some (make_ack_pkt env k)) rs) os prev
run-repeat env zero k bs s ps rs os prev n w h r = r s refl refl refl
run-repeat env (suc d) k bs s ps rs os prev n w h r =
    let (u, e, f, g, m) = run-repeat env d k bs (seen k bs s) ps rs os prev n w h r in
    (u, run-cons env k bs s (seen k bs s) u _ _ (stale-Replied env k bs s n w h) e, f, g, m)

-- An application that takes every block.
abbrev pub TakesAll : Env → Type 0
TakesAll env = (bs : List Block) (b : Block) → env.process_data_block bs b ≡ 0

-- the run of the packets from block `k` on
abbrev Goes : Env → List (List ℕ × ℕ) → ℕ → Tftp → ℕ → Type 0
Goes env fs k s prev = Runs env (packets env k fs) s (acks env k fs) (blocks k fs) prev

-- A transfer whose first block is next and whose last number is below 256, each packet repeated any
-- number of times: every packet is acknowledged with its number, and the application is passed each
-- block once, in order, with its bytes; no error is signalled.
pub run_transfer :
    (env : Env) (fs : List (List ℕ × ℕ)) (k : ℕ) (s : Tftp)
    → IsNet env
    → TakesAll env
    → k ≡ s.prev_block_num + 1
    → k + length fs ≤ 256
    → Runs env (packets env k fs) s (acks env k fs) (blocks k fs) (s.prev_block_num + length fs)
run_transfer env [] k s n p h w = (s, refl, sym (append-nil s.received), omega arith, refl)
run_transfer env ((bs, d) ∷ fs) k s n p h w =
    let s1 : Tftp = record (seen k bs s) {
      prev_block_num = k;
      received = s.received ++ block_of k bs ∷ [];
    } in
    let (u, e, f, g, m) =
      run-repeat env d k bs s1 (packets env (k + 1) fs) (acks env (k + 1) fs) (blocks (k + 1) fs)
        (k + length fs) n (omega (arith, w)) (other k)
        (λ t e f g.
          rest t e f g (run_transfer env fs (k + 1) t n p (rw f refl) (omega (arith, w)))) in
    (
      u,
      run-cons env k bs s s1 u _ _ (next-Replied env k bs s n (omega (arith, w)) h (p _ _)) e,
      f ∙ append_assoc s.received (block_of k bs ∷ []) (blocks (k + 1) fs),
      omega (arith, g, h),
      m,
    )
  where
    other : (i : ℕ) → i ≢ i + 1
    other i e = omega arith

    rest :
        (t : Tftp)
        → t.received ≡ s.received ++ block_of k bs ∷ []
        → t.prev_block_num ≡ k
        → t.error ≡ s.error
        → Goes env fs (k + 1) t (t.prev_block_num + length fs)
        → Goes env fs (k + 1) t (k + length fs)
    rest t e f g r = subst (λ q. Goes env fs (k + 1) t (q + length fs)) f r
