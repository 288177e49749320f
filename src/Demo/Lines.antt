-- ===== src/Demo/Lines.antt =====
-- The echo of lines against the lines of the stream.
use mathlib.Core.Path.{subst}
use sc_xtcp.Base.{
  All, Bool, List, Option, [], ap, arith, false, if◌then◌else◌, inl, inr, length, length-append,
  ltb, none, not, refl, some, suc, true, zero, ℕ, ◌&&◌, ◌++◌, ◌+◌, ◌<◌, ◌==◌, ◌∙◌, ◌∷◌, ◌≡◌, ◌≢◌,
  ◌≤◌, ◌⊎◌,
}
use sc_xtcp.Buffered.{
  Received, RxInfo, client_buf_size, fill, no_data, recv_found, recv_upto, some_data,
}
use sc_xtcp.Buffered.Receive.{
  IsValid, Refused, delivered, fill-no_event, pending, spill, unread, wait,
}
use sc_xtcp.Buffered.Stream.{IsCut, Upto, chunk, recv_upto-Upto, refused}
use sc_xtcp.Demo.{Link}
use sc_xtcp.Demo.Echo.{demo_protocol_recv, echo, newline}

-- a byte before the lines and the rest that follow it
abbrev pub put_byte : ℕ → List (List ℕ) × List ℕ → List (List ℕ) × List ℕ
put_byte c ([], rest) = ([], c ∷ rest)
put_byte c (l ∷ ls, rest) = ((c ∷ l) ∷ ls, rest)

-- The complete lines of a stream, each with its newline, and the bytes behind the last newline.
unfoldable pub split_lines : List ℕ → List (List ℕ) × List ℕ
split_lines [] = ([], [])
split_lines (c ∷ cs) =
    let r = split_lines cs in if c == newline then ((c ∷ []) ∷ r.0, r.1) else put_byte c r

-- each line echoed
abbrev pub echo_all : List (List ℕ) → Link → Link
echo_all [] s = s
echo_all (l ∷ ls) s = echo_all ls (echo l s)

split_lines-clear :
    (bytes : List ℕ) → All (λ c. c ≢ newline) bytes → split_lines bytes ≡ ([], bytes)
unfolding split_lines
split_lines-clear [] h = refl
split_lines-clear (c ∷ cs) h =
    let e : (c == newline) ≡ false = ground (arith, h.0) in rw (e, split_lines-clear cs h.1) refl

split_lines-cut :
    (bytes pre rest : List ℕ)
    → IsCut newline bytes pre rest
    → split_lines bytes ≡ ((pre ++ newline ∷ []) ∷ (split_lines rest).0, (split_lines rest).1)
unfolding split_lines
split_lines-cut bytes pre rest cut = ap split_lines cut.whole ∙ go pre cut.clear
  where
    go :
        (xs : List ℕ)
        → All (λ c. c ≢ newline) xs
        → split_lines (xs ++ newline ∷ rest)
          ≡ ((xs ++ newline ∷ []) ∷ (split_lines rest).0, (split_lines rest).1)
    go [] h = refl
    go (c ∷ cs) h = let e : (c == newline) ≡ false = ground (arith, h.0) in rw (e, go cs h.1) refl

pub no_data-no_event :
    (b : RxInfo)
    → 0 < (no_data b).len
    → (no_data b).overflow ≡ false
    → (no_data b).info.rx_new_event ≡ false
unfolding no_data
no_data-no_event b h e = ground (arith, h, e)

-- Where bytes are handed over no event is awaited.
found-no_event :
    (b : RxInfo) (o : Option ℕ)
    → b.rx_new_event ≡ false
    → 0 < (recv_found b o).len
    → (recv_found b o).overflow ≡ false
    → (recv_found b o).info.rx_new_event ≡ false
unfolding recv_found some_data
found-no_event b none n h e = no_data-no_event b h e
found-no_event b (some k) n h e = n

recv_upto-no_event :
    (incoming : List ℕ) (b : RxInfo) (delim : ℕ)
    → 0 < (recv_upto incoming b delim).len
    → (recv_upto incoming b delim).overflow ≡ false
    → (recv_upto incoming b delim).info.rx_new_event ≡ false
unfolding recv_upto
recv_upto-no_event incoming b delim h e =
    found-no_event (fill incoming b) _ (fill-no_event incoming b) h e

-- The bytes behind the last newline: kept, with an event awaited, or, where they leave no room for an
-- event, given up.
abbrev pub Left : List ℕ → RxInfo → Type 0
Left rest b =
    ((unread b ≡ rest) × (b.rx_new_event ≡ true))
    ⊎ ((unread b ≡ []) × (b.rx_end < length rest + client_buf_size))

-- a run of the loop that leaves `t`
abbrev pub EchoRun : ℕ → List ℕ → Link → List ℕ → Link → Type 0
EchoRun fuel incoming s bytes t =
    (demo_protocol_recv fuel incoming s ≡ some t)
    × (t ≡ record (echo_all (split_lines bytes).0 s) { rx = t.rx })
    × Left (split_lines bytes).1 t.rx
    × IsValid t.rx

abbrev with_rx : RxInfo → Link → Link
with_rx b s = record s { rx = b }

echo_all-rx :
    (ls : List (List ℕ)) (s : Link) (b : RxInfo)
    → echo_all ls (record s { rx = b }) ≡ record (echo_all ls s) { rx = b }
unfolding echo
echo_all-rx [] s b = refl
echo_all-rx (l ∷ ls) s b = echo_all-rx ls (echo l s) b

and_false : (b : Bool) → (b && false) ≡ false
and_false true = refl
and_false false = refl

-- the loop after a call that hands nothing over to be echoed
stop-EchoRun :
    (fuel : ℕ) (incoming : List ℕ) (s : Link) (bytes : List ℕ)
    → All (λ c. c ≢ newline) bytes
    → Refused bytes (recv_upto incoming s.rx newline)
    → IsValid (recv_upto incoming s.rx newline).info
    → EchoRun (suc fuel) incoming s bytes (record s { rx = (recv_upto incoming s.rx newline).info })
unfolding demo_protocol_recv
stop-EchoRun fuel incoming s bytes clear (wait len buf overflow event kept) v =
    rw (len, split_lines-clear bytes clear) (refl, refl, inl (kept, event), v)
stop-EchoRun fuel incoming s bytes clear (spill overflow given len kept small) v =
    rw (overflow, split_lines-clear bytes clear)
      (
        rw
            (
              and_false (not ((recv_upto incoming s.rx newline).len == 0)),
              and_false (ltb 0 (recv_upto incoming s.rx newline).len),
            )
            refl,
        refl,
        inr (kept, small),
        v,
      )

line-EchoRun :
    (fuel : ℕ) (incoming : List ℕ) (s : Link) (bytes pre rest : List ℕ) (t : Link)
    → IsCut newline bytes pre rest
    → delivered (recv_upto incoming s.rx newline) ≡ pre ++ newline ∷ []
    → (recv_upto incoming s.rx newline).len ≡ length pre + 1
    → (recv_upto incoming s.rx newline).overflow ≡ false
    → EchoRun fuel incoming
        (echo (pre ++ newline ∷ []) (record s { rx = (recv_upto incoming s.rx newline).info }))
        rest
        t
    → EchoRun (suc fuel) incoming s bytes t
unfolding demo_protocol_recv echo
line-EchoRun fuel incoming s bytes pre rest t cut given len overflow (e, m, left, v) =
    let some_len : ltb 0 (length pre + 1) ≡ true = ground arith in
    let not_none : (length pre + 1 == 0) ≡ false = ground arith in
    rw (given, len, overflow, some_len, not_none, split_lines-cut bytes pre rest cut)
      (
        e,
        m
            ∙ ap (with_rx t.rx) (
                echo_all-rx (split_lines rest).0 (echo (pre ++ newline ∷ []) s)
                  (recv_upto incoming s.rx newline).info),
        left,
        v,
      )

-- The loop gets through the lines of the bytes at hand, whatever room there is for the echoes.
pub recv-EchoRun :
    (fuel : ℕ) (incoming : List ℕ) (s : Link)
    → IsValid s.rx
    → length incoming ≤ client_buf_size
    → length (pending incoming s.rx) < fuel
    → (t : Link) × EchoRun fuel incoming s (pending incoming s.rx) t
unfolding echo
recv-EchoRun zero incoming s v h l = absurd (omega (arith, l))
recv-EchoRun (suc fuel) incoming s v h l =
    outcome (pending incoming s.rx) l (recv_upto-Upto incoming s.rx newline v h).0
      (λ u w k. recv-EchoRun fuel incoming u w h k)
  where
    r : Received
    r = recv_upto incoming s.rx newline

    valid : IsValid r.info
    valid = (recv_upto-Upto incoming s.rx newline v h).1

    outcome :
        (bytes : List ℕ)
        → length bytes < suc fuel
        → Upto newline bytes r
        → ((u : Link)
            → IsValid u.rx
            → length (pending incoming u.rx) < fuel
            → (t : Link) × EchoRun fuel incoming u (pending incoming u.rx) t)
        → (t : Link) × EchoRun (suc fuel) incoming s bytes t
    outcome bytes k (refused clear f) rec =
        (record s { rx = r.info }, stop-EchoRun fuel incoming s bytes clear f valid)
    outcome bytes k (chunk pre rest cut given len kept overflow) rec =
        let quiet : r.info.rx_new_event ≡ false =
          recv_upto-no_event incoming s.rx newline (omega (arith, len)) overflow in
        let left : pending incoming r.info ≡ rest = rw quiet kept in
        let (t, run) =
          rec (echo (pre ++ newline ∷ []) (record s { rx = r.info })) valid
            (rw left (omega (arith, k, ap length cut.whole, length-append pre (newline ∷ rest)))) in
        (
          t,
          line-EchoRun fuel incoming s bytes pre rest t cut given len overflow (
              subst
                (λ b.
                  EchoRun fuel incoming (echo (pre ++ newline ∷ []) (record s { rx = r.info })) b t)
                left run),
        )
