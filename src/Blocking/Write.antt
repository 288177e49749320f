-- ===== src/Blocking/Write.antt =====
-- What `xtcp_write` sends.
use mathlib.Core.Path.{subst}
use sc_xtcp.Base.{
  All, Bool, Bool-cases, List, Option, [], ap, arith, drop, false, if_ind, if◌then◌else◌, inl, inr,
  length, min, none, refl, some, sym, take, take-append-take, true, ℕ, ◌++◌, ◌-◌, ◌<◌, ◌==◌, ◌∙◌,
  ◌∷◌, ◌≡◌, ◌≤◌, ◌⊎◌,
}
use sc_xtcp.Server.{
  Event, aborted, already_handled, closed, ifdown, ifup, new_connection, poll, recv_data,
  request_data, resend_data, sent_data, timed_out,
}
use sc_xtcp.Buffered.Memory.{slice}
use sc_xtcp.Blocking.{
  Call, Incoming, Writing, fail, fail_own, send_next, sendi, write_event, write_loop,
}

abbrev pub is_resend : Event → Bool
is_resend resend_data = true
is_resend _ = false

-- the bytes that were sent for the first time
abbrev pub fresh : List Call → List ℕ
fresh [] = []
fresh (sendi id ev bs ∷ cs) = if is_resend ev then fresh cs else fresh cs ++ bs
fresh (_ ∷ cs) = fresh cs

-- the bytes that were sent last
abbrev pub last_sent : List Call → List ℕ
last_sent [] = []
last_sent (sendi id ev bs ∷ cs) = bs
last_sent (_ ∷ cs) = last_sent cs

-- Every XTCP_RESEND_DATA was answered with the bytes that were sent last.
abbrev pub IsFaithful : List Call → Type 0
IsFaithful [] = Unit
IsFaithful (sendi id ev bs ∷ cs) = (is_resend ev ≡ true → bs ≡ last_sent cs) × IsFaithful cs
IsFaithful (_ ∷ cs) = IsFaithful cs

-- The bytes up to `index` were sent, those from `prev` on last, and success is told for all bytes.
pub record IsSending (buf : List ℕ) (w : Writing) : Type 0 where
  pub in_order : w.prev ≤ w.index
  pub inside : w.index ≤ length buf
  pub sent : fresh w.calls ≡ take w.index buf
  pub last : last_sent w.calls ≡ slice buf w.prev w.index
  pub faithful : IsFaithful w.calls
  pub whole : w.finished ≡ true → w.success ≡ true → w.index ≡ length buf

send_next-IsSending :
    (buf : List ℕ) (c : Incoming) (w : Writing)
    → is_resend c.event ≡ false
    → 0 < c.mss
    → IsSending buf w
    → IsSending buf (send_next buf c w)
unfolding send_next
send_next-IsSending buf c w r m v =
    let chunk = min (length buf - w.index) c.mss in
    record {
      in_order = omega arith;
      inside = omega (arith, v.inside);
      sent =
          rw (r, v.sent)
            (ap (λ n. take w.index buf ++ take n (drop w.index buf)) (omega arith)
              ∙ take-append-take w.index chunk buf);
      last = refl;
      faithful = (λ h. absurd cc, v.faithful);
      whole = λ h k. elim (Bool-cases (chunk == 0)) [
        | inl e ↦ ground (arith, v.inside, m, e)
        | inr e ↦
            let full : w.index ≡ length buf = v.whole (sym (rw e refl) ∙ h) k in
            absurd (ground (arith, full, e))
      ];
    }

fail-IsSending : (buf : List ℕ) (w : Writing) → IsSending buf w → IsSending buf (fail w)
fail-IsSending buf w v = record {
  in_order = v.in_order;
  inside = v.inside;
  sent = v.sent;
  last = v.last;
  faithful = v.faithful;
  whole = λ h k. absurd cc;
}

fail_own-IsSending :
    (id : ℕ) (buf : List ℕ) (c : Incoming) (w : Writing)
    → IsSending buf w
    → IsSending buf (fail_own id c w)
fail_own-IsSending id buf c w v =
    if_ind (IsSending buf) (c.id == id) (λ h. fail-IsSending buf w v) (λ h. v)

write_event-IsSending :
    (id : ℕ) (buf : List ℕ) (c : Incoming) (ev : Event) (w : Writing)
    → c.event ≡ ev
    → 0 < c.mss
    → IsSending buf w
    → IsSending buf (write_event id buf c ev w)
unfolding write_event
write_event-IsSending id buf c new_connection w e m v = record {
  in_order = v.in_order;
  inside = v.inside;
  sent = v.sent;
  last = v.last;
  faithful = v.faithful;
  whole = v.whole;
}
write_event-IsSending id buf c request_data w e m v =
    send_next-IsSending buf c w (ap is_resend e) m v
write_event-IsSending id buf c sent_data w e m v = send_next-IsSending buf c w (ap is_resend e) m v
write_event-IsSending id buf c resend_data w e m v =
    let r : is_resend c.event ≡ true = ap is_resend e in
    record {
      in_order = v.in_order;
      inside = v.inside;
      sent = rw r v.sent;
      last = refl;
      faithful = (λ h. sym v.last, v.faithful);
      whole = v.whole;
    }
write_event-IsSending id buf c recv_data w e m v = record {
  in_order = v.in_order;
  inside = v.inside;
  sent = v.sent;
  last = v.last;
  faithful = v.faithful;
  whole = λ h k. ground (arith, k, v.in_order, v.inside);
}
write_event-IsSending id buf c timed_out w e m v = fail_own-IsSending id buf c w v
write_event-IsSending id buf c aborted w e m v = fail_own-IsSending id buf c w v
write_event-IsSending id buf c closed w e m v = fail_own-IsSending id buf c w v
write_event-IsSending id buf c ifdown w e m v = fail-IsSending buf w v
write_event-IsSending id buf c ifup w e m v = v
write_event-IsSending id buf c poll w e m v = v
write_event-IsSending id buf c already_handled w e m v = v

-- every event tells a segment size
abbrev pub HasMss : List Incoming → Type 0
HasMss = All (λ c. 0 < c.mss)

-- The loop ends here or goes on.
pub loop_ends :
    (b : Bool) (w v : Writing) (cs rest : List Incoming) (m : Option (Writing × List Incoming))
    → (if b then some (w, cs) else m) ≡ some (v, rest)
    → ((b ≡ true) × (w ≡ v)) ⊎ ((b ≡ false) × (m ≡ some (v, rest)))
loop_ends true w v cs rest m e = inl (refl, cc)
loop_ends false w v cs rest m e = inr (refl, e)

pub write_loop-IsSending :
    (id : ℕ) (buf : List ℕ) (cs : List Incoming) (w v : Writing) (rest : List Incoming)
    → HasMss cs
    → IsSending buf w
    → write_loop id buf cs w ≡ some (v, rest)
    → IsSending buf v × (v.finished ≡ true)
unfolding write_loop
write_loop-IsSending id buf [] w v rest m k e = elim (loop_ends w.finished w v [] rest none e) [
  | inl (f, q) ↦ (subst (IsSending buf) q k, sym (ap (λ x. x.finished) q) ∙ f)
  | inr (f, q) ↦ absurd cc
]
write_loop-IsSending id buf (c ∷ cs) w v rest m k e =
    elim (loop_ends w.finished w v (c ∷ cs) rest _ e) [
      | inl (f, q) ↦ (subst (IsSending buf) q k, sym (ap (λ x. x.finished) q) ∙ f)
      | inr (f, q) ↦
          write_loop-IsSending id buf cs (write_event id buf c c.event w) v rest m.1
            (write_event-IsSending id buf c c.event w refl m.0 k) q
    ]
