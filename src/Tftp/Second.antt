-- ===== src/Tftp/Second.antt =====
-- A transfer after an earlier one.
use sc_xtcp.Base.{
  List, [], append-nil, arith, length, refl, some, suc, ◌++◌, ◌≡◌, sym, ℕ, ◌+◌, ◌<◌, ◌^◌, ◌∷◌, ◌≢◌,
  ◌≤◌,
}
use mathlib.Core.Path.{subst}
use sc_xtcp.Tftp.{
  Block, Env, Reply, Tftp, make_ack_pkt, next_string, process_packet, str_eq, write_request,
}
use sc_xtcp.Tftp.Order.{run}
use sc_xtcp.Tftp.Blocks.{wrq_pkt}
use sc_xtcp.Tftp.Handler.{clear_signals}
use sc_xtcp.Tftp.Transfer.{
  IsNet, Runs, TakesAll, acks, blocks, run_transfer, packets, run-cons, run-repeat, seen,
  stale-Replied,
}

stale_packets :
    (env : Env) (fs : List (List ℕ × ℕ)) (s : Tftp)
    → IsNet env
    → s.prev_block_num < 2 ^ 16
    → length fs ≤ s.prev_block_num
    → Runs env (packets env 1 fs) s (acks env 1 fs) [] s.prev_block_num
stale_packets env fs s n b w = go fs 1 s (omega (arith, w)) b
  where
    go :
        (gs : List (List ℕ × ℕ)) (k : ℕ) (t : Tftp)
        → k + length gs ≤ t.prev_block_num + 1
        → t.prev_block_num < 2 ^ 16
        → Runs env (packets env k gs) t (acks env k gs) [] t.prev_block_num
    go [] k t l b = (t, refl, sym (append-nil t.received), refl, refl)
    go ((bs, d) ∷ gs) k t l b =
        let t1 = seen k bs t in
        let (u, e, f, g, m) =
          run-repeat env d k bs t1 (packets env (k + 1) gs) (acks env (k + 1) gs) []
            t.prev_block_num n (omega (arith, l, b)) (early k t l)
            (λ v e f g.
              subst (Runs env (packets env (k + 1) gs) v (acks env (k + 1) gs) []) f
                (go gs (k + 1) v (rw f (omega (arith, l))) (rw f b))) in
        (
          u,
          run-cons env k bs t t1 u _ _
              (stale-Replied env k bs t n (omega (arith, l, b)) (early k t l)) e,
          f,
          g,
          m,
        )
      where
        early :
            (i : ℕ) (v : Tftp)
            → i + suc (length gs) ≤ v.prev_block_num + 1
            → i ≢ v.prev_block_num + 1
        early i v h e = omega arith

request_answered :
    (env : Env) (s : Tftp)
    → IsNet env
    → process_packet env (wrq_pkt env) (length (wrq_pkt env)) s
      ≡ some (s, some (make_ack_pkt env 0))
unfolding process_packet write_request str_eq next_string
request_answered env s n = rw (n.round_trip 2 (omega arith)) refl

-- the packets of a transfer that the client asks for, and their acknowledgements
abbrev pub transfer : Env → List (List ℕ × ℕ) → List (List ℕ × ℕ)
transfer env fs = (wrq_pkt env, length (wrq_pkt env)) ∷ packets env 1 fs

abbrev pub transfer_acks : Env → List (List ℕ × ℕ) → List Reply
transfer_acks env fs = some (make_ack_pkt env 0) ∷ acks env 1 fs

-- A request in front of a run.
request-Runs :
    (env : Env) (fs : List (List ℕ × ℕ)) (s : Tftp) (bs : List Block) (p : ℕ)
    → IsNet env
    → Runs env (packets env 1 fs) s (acks env 1 fs) bs p
    → Runs env (transfer env fs) s (transfer_acks env fs) bs p
request-Runs env fs s bs p n (t, e, f, g, h) = (t, rw (request_answered env s n, e) refl, f, g, h)

-- In a server that has accepted no block, with byte order functions that undo each other on 16-bit
-- words, whose application takes every block, a transfer of at most
-- 255 blocks that starts with a write request reaches the application whole. When the server then
-- clears its signals, as `tftp_close` does, and a second transfer of no more blocks than the first comes
-- with a write request of its own, each packet of it is acknowledged and none of its blocks is passed on.
pub run_second_transfer :
    (env : Env) (fs gs : List (List ℕ × ℕ)) (s : Tftp)
    → IsNet env
    → TakesAll env
    → s.prev_block_num ≡ 0
    → length fs < 256
    → length gs ≤ length fs
    → (t : Tftp) × (run env (transfer env fs) s ≡ some (t, transfer_acks env fs))
      × (t.received ≡ s.received ++ blocks 1 fs)
      × Runs env (transfer env gs) (clear_signals t) (transfer_acks env gs) [] (length fs)
run_second_transfer env fs gs s n all fresh short fewer =
    let (t, e, received, prev, _) =
      request-Runs env fs s (blocks 1 fs) (s.prev_block_num + length fs) n
        (run_transfer env fs 1 s n all (omega (arith, fresh)) (omega (arith, short))) in
    let known : t.prev_block_num ≡ length fs = omega (arith, prev, fresh) in
    let second =
      stale_packets env gs (clear_signals t) n (omega (arith, known, short))
        (omega (arith, known, fewer)) in
    (
      t,
      e,
      received,
      subst (Runs env (transfer env gs) (clear_signals t) (transfer_acks env gs) []) known
          (request-Runs env gs (clear_signals t) [] t.prev_block_num n second),
    )
