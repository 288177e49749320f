-- ===== src/Blocking/Progress.antt =====
-- `xtcp_write` returns with success where nothing ends it early.
use Prim.{tt}
use sc_xtcp.Base.{
  Bool, Bool-cases, List, [], arith, false, if_ind, if◌then◌else◌, inl, inr, length, min, not, refl,
  some, suc, take-length, true, ℕ, ◌+◌, ◌-◌, ◌<◌, ◌==◌, ◌∙◌, ◌∷◌, ◌≡◌, ◌≤◌, ◌⊎◌,
}
use sc_xtcp.Server.{
  Event, aborted, already_handled, closed, ifdown, ifup, init_send, new_connection, poll, recv_data,
  request_data, resend_data, sent_data, timed_out,
}
use sc_xtcp.Blocking.{
  Incoming, Writing, fail_own, init_send, send_next, write_event, write_loop, xtcp_write,
}
use sc_xtcp.Blocking.Write.{HasMss, IsFaithful, IsSending, fresh, write_loop-IsSending}
use sc_xtcp.Blocking.Own.{IsBenign, IsOwn, is_benign, write_loop-IsOwn}

-- an event that asks for data
abbrev pub is_ask : Event → Bool
is_ask request_data = true
is_ask sent_data = true
is_ask _ = false

abbrev pub asks : List Incoming → ℕ
asks [] = 0
asks (c ∷ cs) = if is_ask c.event then suc (asks cs) else asks cs

-- what an event that is benign leaves: it is the last, or `n` bytes less are to be sent
abbrev Goes : List ℕ → Writing → ℕ → Writing → Type 0
Goes buf w n v =
    (v.success ≡ true)
    × (v.index ≤ length buf)
    × ((v.finished ≡ true)
        ⊎ ((v.finished ≡ false) × (length buf - v.index + n ≤ length buf - w.index)))

send_next-Goes :
    (buf : List ℕ) (c : Incoming) (w : Writing)
    → 0 < c.mss
    → w.finished ≡ false
    → w.success ≡ true
    → w.index ≤ length buf
    → Goes buf w 1 (send_next buf c w)
unfolding send_next
send_next-Goes buf c w m f s i =
    let n = min (length buf - w.index) c.mss in
    elim (Bool-cases (n == 0)) [
      | inl e ↦ (s, omega arith, inl (rw e refl))
      | inr e ↦ (s, omega arith, inr (rw e f, ground (arith, e, i)))
    ]

same-Goes :
    (buf : List ℕ) (w : Writing)
    → w.finished ≡ false
    → w.success ≡ true
    → w.index ≤ length buf
    → Goes buf w 0 w
same-Goes buf w f s i = (s, i, inr (f, omega arith))

fail_own-Goes :
    (id : ℕ) (buf : List ℕ) (c : Incoming) (w : Writing)
    → not (c.id == id) ≡ true
    → w.finished ≡ false
    → w.success ≡ true
    → w.index ≤ length buf
    → Goes buf w 0 (fail_own id c w)
fail_own-Goes id buf c w b f s i =
    if_ind (Goes buf w 0) (c.id == id) (λ h. absurd (ground (arith, b, h)))
      (λ h. same-Goes buf w f s i)

benign-Goes :
    (id : ℕ) (buf : List ℕ) (c : Incoming) (ev : Event) (w : Writing)
    → is_benign id c.id ev ≡ true
    → 0 < c.mss
    → w.finished ≡ false
    → w.success ≡ true
    → w.index ≤ length buf
    → Goes buf w (if is_ask ev then 1 else 0) (write_event id buf c ev w)
unfolding write_event
benign-Goes id buf c new_connection w b m f s i = (s, i, inr (f, omega arith))
benign-Goes id buf c request_data w b m f s i = send_next-Goes buf c w m f s i
benign-Goes id buf c sent_data w b m f s i = send_next-Goes buf c w m f s i
benign-Goes id buf c resend_data w b m f s i = (s, i, inr (f, omega arith))
benign-Goes id buf c recv_data w b m f s i = absurd cc
benign-Goes id buf c timed_out w b m f s i = fail_own-Goes id buf c w b f s i
benign-Goes id buf c aborted w b m f s i = fail_own-Goes id buf c w b f s i
benign-Goes id buf c closed w b m f s i = fail_own-Goes id buf c w b f s i
benign-Goes id buf c ifdown w b m f s i = absurd cc
benign-Goes id buf c ifup w b m f s i = same-Goes buf w f s i
benign-Goes id buf c poll w b m f s i = same-Goes buf w f s i
benign-Goes id buf c already_handled w b m f s i = same-Goes buf w f s i

-- the loop succeeds
abbrev pub Succeeds : ℕ → List ℕ → List Incoming → Writing → Type 0
Succeeds id buf cs w =
    (v : Writing) × (rest : List Incoming) × (write_loop id buf cs w ≡ some (v, rest))
    × (v.success ≡ true)

finished-Succeeds :
    (id : ℕ) (buf : List ℕ) (cs : List Incoming) (w : Writing)
    → w.finished ≡ true
    → w.success ≡ true
    → Succeeds id buf cs w
unfolding write_loop
finished-Succeeds id buf [] w f s = (w, [], rw f refl, s)
finished-Succeeds id buf (c ∷ cs) w f s = (w, c ∷ cs, rw f refl, s)

if_false {ℓ} : {A : Type ℓ} (b : Bool) (x y : A) → b ≡ false → (if b then x else y) ≡ y
if_false true x y e = absurd cc
if_false false x y e = refl

less : (b : Bool) (x y n : ℕ) → x + (if b then 1 else 0) ≤ y → y < (if b then suc n else n) → x < n
less true x y n h l = omega (arith, h, l)
less false x y n h l = omega (arith, h, l)

write_loop-Succeeds :
    (id : ℕ) (buf : List ℕ) (cs : List Incoming) (w : Writing)
    → HasMss cs
    → IsBenign id cs
    → w.finished ≡ false
    → w.success ≡ true
    → w.index ≤ length buf
    → length buf - w.index < asks cs
    → Succeeds id buf cs w
unfolding write_loop
write_loop-Succeeds id buf [] w m b f s i l = absurd (omega (arith, l))
write_loop-Succeeds id buf (c ∷ cs) w m b f s i l =
    let u = write_event id buf c c.event w in
    let (t, j, x) = benign-Goes id buf c c.event w b.0 m.0 f s i in
    let (v, rest, e, k) : Succeeds id buf cs u = elim x [
      | inl g ↦ finished-Succeeds id buf cs u g t
      | inr (g, h) ↦ write_loop-Succeeds id buf cs u m.1 b.1 g t j (less (is_ask c.event) _ _ _ h l)
    ] in
    (v, rest, if_false w.finished _ _ f ∙ e, k)

start-IsSending :
    (id : ℕ) (buf : List ℕ)
    → IsSending buf (record {
      index = 0;
      prev = 0;
      success = true;
      finished = false;
      calls = init_send id ∷ [];
    })
start-IsSending id buf = record {
  in_order = omega arith;
  inside = omega arith;
  sent = refl;
  last = refl;
  faithful = tt;
  whole = λ h k. absurd cc;
}

-- Where every event tells a segment size, none ends the call early, data is asked for by this
-- connection only, and more often than there are bytes: `xtcp_write` returns with success, its first
-- call asks for an event of the connection, all bytes were sent to this connection, those that it sent
-- for the first time are the buffer's, in order and once each, and every request to send again was
-- answered with the bytes sent last.
pub xtcp_write-succeeds :
    (id : ℕ) (buf : List ℕ) (cs : List Incoming)
    → HasMss cs
    → IsBenign id cs
    → length buf < asks cs
    → (v : Writing) × (rest : List Incoming) × (xtcp_write id buf cs ≡ some (v, rest))
      × (v.success ≡ true)
      × (fresh v.calls ≡ buf)
      × IsOwn id v.calls
      × IsFaithful v.calls
unfolding xtcp_write
xtcp_write-succeeds id buf cs m b l =
    let (v, rest, e, s) =
      write_loop-Succeeds id buf cs _ m b refl refl (omega arith) (omega (arith, l)) in
    let (k, f) = write_loop-IsSending id buf cs _ v rest m (start-IsSending id buf) e in
    (
      v,
      rest,
      e,
      s,
      k.sent ∙ take-length v.index buf (omega (arith, k.whole f s)),
      write_loop-IsOwn id buf cs _ v rest b (refl, (omega arith, tt)) e,
      k.faithful,
    )
