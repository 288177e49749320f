-- ===== src/Demo/Headers.antt =====
-- The rounds of the loop that read a header.
use sc_xtcp.Base.{
  Bool, Bool-cases, List, [], ap, arith, false, if◌then◌else◌, inl, inr, length, ltb, none, not,
  refl, some, suc, true, ℕ, ◌<◌, ◌==◌, ◌||◌, ◌∙◌, ◌∷◌, ◌≡◌, ◌≤◌, ◌⊎◌,
}
use sc_xtcp.Buffered.{RxInfo, recv}
use sc_xtcp.Buffered.Receive.{IsValid, delivered, pending, unread}
use sc_xtcp.Buffered.Stream.{Exactly, block, short}
use sc_xtcp.Demo.Framed.{
  Peer, abort_peer, decode_header, hdr_size, max_msg_size, read_header, store_rx,
}
use sc_xtcp.Demo.Frames.{
  FramedRun, Frames, Handled-rx, IsReady, bad_header, good_header, no_header, refused_header,
  stays-IsReady, waits,
}
use mathlib.Core.Path.{subst}
use sc_xtcp.Demo.Rounds.{
  idle-header, last-round, next-round, recv-no_event, rx_end-recv, short-waits, some-header,
  take_header-bad, take_header-good,
}

-- what the rounds that follow are known to do
abbrev pub Rest : ℕ → List ℕ → Type 0
Rest fuel incoming =
    (u : Peer)
    → IsReady u
    → length (pending incoming u.link.rx) < fuel
    → FramedRun fuel incoming u (pending incoming u.link.rx)

if_not-false {ℓ} : {A : Type ℓ} (c : Bool) (x y : A) → c ≡ false → (if not c then x else y) ≡ x
if_not-false true x y h = absurd cc
if_not-false false x y h = refl

pub if_not-true {ℓ} : {A : Type ℓ} (c : Bool) (x y : A) → c ≡ true → (if not c then x else y) ≡ y
if_not-true true x y h = refl
if_not-true false x y h = absurd cc

-- the bytes at hand after bytes were handed over
pub pending-quiet :
    (incoming : List ℕ) (b : RxInfo) (bytes : List ℕ)
    → b.rx_new_event ≡ false
    → unread b ≡ bytes
    → pending incoming b ≡ bytes
pending-quiet incoming b bytes q u = rw q u

-- A good header, and the rounds after it.
good-FramedRun :
    (fuel : ℕ) (incoming : List ℕ) (s : Peer) (h : ℕ) (bs : List ℕ)
    → IsReady s
    → s.got_header ≡ false
    → 0 < h
    → h ≤ max_msg_size
    → read_header incoming s ≡ (
      true,
      record (store_rx (recv incoming s.link.rx hdr_size) s) { len = h; got_header = true },
    )
    → pending incoming (recv incoming s.link.rx hdr_size).info ≡ bs
    → length bs < fuel
    → IsValid (recv incoming s.link.rx hdr_size).info
    → Rest fuel incoming
    → FramedRun (suc fuel) incoming s (h ∷ bs)
good-FramedRun fuel incoming s h bs w g k l e p f v rest =
    let u : Peer = record (store_rx (recv incoming s.link.rx hdr_size) s) {
      len = h;
      got_header = true;
    } in
    let ready : IsReady u = record {
      valid = v;
      large = rw (rx_end-recv incoming s.link.rx hdr_size) w.large;
      tested = λ x. (k, l);
    } in
    let (ms, end, t, frames, run, handled, ended, good, same) = rest u ready (rw p f) in
    (
      ms,
      end,
      t,
      rw g (good_header k l (subst (λ b. Frames (some h) b ms end) p frames)),
      next-round fuel incoming s u t (if_not-false s.got_header _ _ g ∙ e) run,
      Handled-rx ms end s.link t.link (recv incoming s.link.rx hdr_size).info handled,
      ended,
      good,
      same ∙ rx_end-recv incoming s.link.rx hdr_size,
    )

pub header-FramedRun :
    (fuel : ℕ) (incoming : List ℕ) (s : Peer) (bytes : List ℕ)
    → IsReady s
    → s.got_header ≡ false
    → length bytes < suc fuel
    → Exactly hdr_size bytes (recv incoming s.link.rx hdr_size)
    → IsValid (recv incoming s.link.rx hdr_size).info
    → Rest fuel incoming
    → FramedRun (suc fuel) incoming s bytes
header-FramedRun fuel incoming s [] w g l (short k f) v rest =
    let r = recv incoming s.link.rx hdr_size in
    let (z, o, e, u) =
      short-waits [] r f (omega arith) (rw (rx_end-recv incoming s.link.rx hdr_size) w.large) in
    (
      [],
      waits none [],
      store_rx r s,
      rw g no_header,
      last-round fuel incoming s (store_rx r s)
          (if_not-false s.got_header _ _ g ∙ idle-header incoming s z o),
      (refl, refl),
      (rw g refl, u, e),
      stays-IsReady s (store_rx r s) w v (rx_end-recv incoming s.link.rx hdr_size) w.tested,
      rx_end-recv incoming s.link.rx hdr_size,
    )
header-FramedRun fuel incoming s [] w g l (block k d z u o) v rest = absurd (omega (arith, k))
header-FramedRun fuel incoming s (h ∷ bs) w g l (short k f) v rest = absurd (omega (arith, k))
header-FramedRun fuel incoming s (h ∷ bs) w g l (block k d z u o) v rest =
    let r = recv incoming s.link.rx hdr_size in
    let first : decode_header (delivered r) ≡ h = ap decode_header d in
    let header = some-header incoming s z o in
    let quiet = recv-no_event incoming s.link.rx hdr_size (omega (arith, z)) o in
    elim (Bool-cases (h == 0 || ltb max_msg_size h)) [
      | inl b ↦
          let bad : (h ≡ 0) ⊎ (100 < h) = ground (arith, b) in
          (
            [],
            refused_header bs,
            abort_peer (record (store_rx r s) { len = h }),
            rw g (bad_header bad),
            last-round fuel incoming s _ (
                if_not-false s.got_header _ _ g
                ∙ header
                ∙ take_header-bad (delivered r) h (store_rx r s) first bad),
            (refl, refl),
            u,
            stays-IsReady s (abort_peer (record (store_rx r s) { len = h })) w v
                (rx_end-recv incoming s.link.rx hdr_size) (λ x. absurd cc),
            rx_end-recv incoming s.link.rx hdr_size,
          )
      | inr b ↦
          let (some_len, small) : (0 < h) × (h ≤ 100) = (ground (arith, b), ground (arith, b)) in
          good-FramedRun fuel incoming s h bs w g some_len small
            (header ∙ take_header-good (delivered r) h (store_rx r s) first some_len small)
            (pending-quiet incoming r.info bs quiet u) (omega (arith, l)) v rest
    ]
