-- ===== src/Demo/Room.antt =====
-- The echo of lines where the transmit buffer has room for it.
use sc_xtcp.Base.{
  Bool-cases, List, [], ap, append-nil, append_assoc, arith, if_ind, inl, inr, length,
  length-append, ltb, refl, some, sym, ℕ, ◌++◌, ◌+◌, ◌-◌, ◌<◌, ◌∙◌, ◌∷◌, ◌≡◌, ◌≤◌,
}
use sc_xtcp.Buffered.{TxInfo, client_buf_size, compact, send, store}
use sc_xtcp.Buffered.Receive.{pending, IsValid as IsReadable}
use sc_xtcp.Buffered.Transmit.{IsValid, Offered, accepted, in_flight, rejected, waiting}
use sc_xtcp.Buffered.Queue.{send-Offered}
use sc_xtcp.Demo.{Link}
use sc_xtcp.Demo.Echo.{demo_protocol_recv, echo, echo_header}
use sc_xtcp.Demo.Lines.{Left, echo_all, recv-EchoRun, split_lines}

-- A buffer that holds as much and more bytes, in its room.
pub record Appended (b : TxInfo) (bytes : List ℕ) (c : TxInfo) : Type 0 where
  pub valid : IsValid c
  pub flying : in_flight c ≡ in_flight b
  pub queued : waiting c ≡ waiting b ++ bytes
  pub end_kept : c.tx_end ≡ b.tx_end

-- the bytes fit
abbrev pub Fits : TxInfo → List ℕ → Type 0
Fits b bytes = length (in_flight b) + length (waiting b) + length bytes ≤ b.tx_end

tx_end-store : (b : TxInfo) (buf : List ℕ) → (store b buf).0.tx_end ≡ b.tx_end
unfolding store
tx_end-store b buf = elim (Bool-cases (ltb (b.tx_end - b.tx_wrptr) (length buf))) [
  | inl e ↦ rw e refl
  | inr e ↦ rw e refl
]

tx_end-send : (b : TxInfo) (buf : List ℕ) → (send b buf).0.tx_end ≡ b.tx_end
unfolding send compact
tx_end-send b buf =
    tx_end-store _ buf
    ∙ if_ind (λ c. c.tx_end ≡ b.tx_end) (ltb (b.tx_end - b.tx_wrptr) (length buf)) {x = compact b}
        {y = b} (λ h. refl) (λ h. refl)

-- Bytes that fit are queued.
send-Appended : (b : TxInfo) (buf : List ℕ) → IsValid b → Fits b buf → Appended b buf (send b buf).0
send-Appended b buf v h =
    let (o, w, f) = send-Offered b buf v in
    record { valid = w; flying = f; queued = taken o; end_kept = tx_end-send b buf }
  where
    taken : Offered b buf (send b buf) → waiting (send b buf).0 ≡ waiting b ++ buf
    taken (accepted _ _ q _) = q
    taken (rejected k _ _ _) = absurd (omega (arith, h, k))

Appended-trans :
    (b c d : TxInfo) (xs ys : List ℕ) → Appended b xs c → Appended c ys d → Appended b (xs ++ ys) d
Appended-trans b c d xs ys p q = record {
  valid = q.valid;
  flying = q.flying ∙ p.flying;
  queued = q.queued ∙ ap (λ l. l ++ ys) p.queued ∙ append_assoc (waiting b) xs ys;
  end_kept = q.end_kept ∙ p.end_kept;
}

-- What is left of the room serves the next bytes.
Fits-rest : (b c : TxInfo) (xs ys : List ℕ) → Fits b (xs ++ ys) → Appended b xs c → Fits c ys
Fits-rest b c xs ys h p =
    rw (p.flying, p.queued, p.end_kept)
      (omega (arith, h, length-append (waiting b) xs, length-append xs ys))

Fits-first : (b : TxInfo) (xs ys : List ℕ) → Fits b (xs ++ ys) → Fits b xs
Fits-first b xs ys h = omega (arith, h, length-append xs ys)

-- the header and the line, for each line
abbrev pub echoes : List (List ℕ) → List ℕ
echoes [] = []
echoes (l ∷ ls) = (echo_header ++ l) ++ echoes ls

echo-Appended :
    (l : List ℕ) (s : Link)
    → IsValid s.tx
    → Fits s.tx (echo_header ++ l)
    → Appended s.tx (echo_header ++ l) (echo l s).tx
unfolding echo
echo-Appended l s v h =
    let p = send-Appended s.tx echo_header v (Fits-first s.tx echo_header l h) in
    Appended-trans s.tx (send s.tx echo_header).0 _ echo_header l p
      (send-Appended (send s.tx echo_header).0 l p.valid (Fits-rest s.tx _ echo_header l h p))

echo_all-Appended :
    (ls : List (List ℕ)) (s : Link)
    → IsValid s.tx
    → Fits s.tx (echoes ls)
    → Appended s.tx (echoes ls) (echo_all ls s).tx
echo_all-Appended [] s v h = record {
  valid = v;
  flying = refl;
  queued = sym (append-nil (waiting s.tx));
  end_kept = refl;
}
echo_all-Appended (l ∷ ls) s v h =
    let p = echo-Appended l s v (Fits-first s.tx (echo_header ++ l) (echoes ls) h) in
    Appended-trans s.tx (echo l s).tx _ (echo_header ++ l) (echoes ls) p (
      echo_all-Appended ls (echo l s) p.valid
        (Fits-rest s.tx (echo l s).tx (echo_header ++ l) (echoes ls) h p))

-- From valid buffers, with an event of at most XTCP_CLIENT_BUF_SIZE bytes, more fuel than there are
-- bytes at hand, and room in the transmit buffer for the echoes: the loop ends, the header and each
-- complete line at hand are queued behind what waited, in order and once each, and the bytes behind
-- the last newline are kept, with an event awaited, or given up where they leave no room for one.
-- Both buffers are valid again.
pub recv-echoes :
    (fuel : ℕ) (incoming : List ℕ) (s : Link)
    → IsReadable s.rx
    → IsValid s.tx
    → length incoming ≤ client_buf_size
    → length (pending incoming s.rx) < fuel
    → Fits s.tx (echoes (split_lines (pending incoming s.rx)).0)
    → (t : Link) × (demo_protocol_recv fuel incoming s ≡ some t)
      × (waiting t.tx ≡ waiting s.tx ++ echoes (split_lines (pending incoming s.rx)).0)
      × (in_flight t.tx ≡ in_flight s.tx)
      × Left (split_lines (pending incoming s.rx)).1 t.rx
      × IsReadable t.rx
      × IsValid t.tx
recv-echoes fuel incoming s v w h l f =
    let (t, (e, m, left, valid)) = recv-EchoRun fuel incoming s v h l in
    let p = echo_all-Appended (split_lines (pending incoming s.rx)).0 s w f in
    let same : t.tx ≡ (echo_all (split_lines (pending incoming s.rx)).0 s).tx = ap (λ u. u.tx) m in
    (t, e, rw same p.queued, rw same p.flying, left, valid, rw same p.valid)
