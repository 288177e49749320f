-- ===== src/Demo/Total.antt =====
-- That each event of a connection finds its entry, and what it leaves of the receive buffers.
use sc_xtcp.Base.{
  Bool, List, Option, Option-cases, arith, get_elem?, inl, inr, length, refl, set, some, sym, true,
  ℕ, ◌+◌, ◌∙◌, ◌≡◌, ◌≤◌,
}
use mathlib.Core.Path.{subst}
use sc_xtcp.Buffered.{client_buf_size, set_rx_buffer}
use sc_xtcp.Buffered.Receive.{pending}
use sc_xtcp.Demo.Pool.{
  Pool, ProtocolState, add_call, find_free, handled, init_state, open_slot, recv_slot, rxbuf_len,
  send_slot, set_appstate, update,
}
use sc_xtcp.Demo.Frames.{IsReady}
use sc_xtcp.Demo.Messages.{recv-FramedRun}
use sc_xtcp.Demo.Slots.{find_free-inactive, get-set-other, get-set-same, place-cases}

-- An entry has a receive buffer of its size, which is ready where the entry is taken.
pub record IsKept (s : ProtocolState) : Type 0 where
  pub memory : length s.peer.link.rx.mem ≡ rxbuf_len
  pub ready : s.active ≡ true → IsReady s.peer

abbrev pub AllKept : List ProtocolState → Type 0
AllKept ss = (i : ℕ) (s : ProtocolState) → get_elem? ss i ≡ some s → IsKept s

set-AllKept :
    (ss : List ProtocolState) (i : ℕ) (s t : ProtocolState)
    → AllKept ss
    → get_elem? ss i ≡ some s
    → IsKept t
    → AllKept (set ss i t)
set-AllKept ss i s t k g h j u e = elim (place-cases i j) [
  | inl q ↦
      let there : get_elem? (set ss i t) j ≡ some t =
        subst (λ x. get_elem? (set ss i t) x ≡ some t) q (get-set-same ss i s t g) in
      let same : t ≡ u = cc in subst IsKept same h
  | inr q ↦ k j u (sym (get-set-other ss i j t q) ∙ e)
]

-- The entry that a call works on is there, and what the call leaves is kept.
abbrev pub Leaves : Option Pool → Type 0
Leaves m = (q : Pool) × (m ≡ some q) × AllKept q.slots

pub update-Leaves :
    (i : ℕ) (f : ProtocolState → Option ProtocolState) (p : Pool) (s t : ProtocolState)
    → AllKept p.slots
    → get_elem? p.slots i ≡ some s
    → f s ≡ some t
    → IsKept t
    → Leaves (update i f p)
update-Leaves i f p s t k g e h =
    (record p { slots = set p.slots i t }, rw (g, e) refl, set-AllKept p.slots i s t k g h)

open_slot-IsKept :
    (id timestamp : ℕ) (s : ProtocolState) → IsKept s → IsKept (open_slot id timestamp s)
unfolding set_rx_buffer
open_slot-IsKept id timestamp s k = record {
  memory = k.memory;
  ready = λ a. record {
    valid = record {
      ordered = record { read_first = omega arith; write_in = omega arith; sized = k.memory };
      large = omega arith;
      room = λ h. omega arith;
    };
    large = omega arith;
    tested = λ h. absurd cc;
  };
}

pub recv_slot-IsKept :
    (timestamp : ℕ) (incoming : List ℕ) (s : ProtocolState)
    → IsKept s
    → s.active ≡ true
    → length incoming ≤ client_buf_size
    → (t : ProtocolState) × (recv_slot timestamp incoming s ≡ some t) × IsKept t
unfolding recv_slot
recv_slot-IsKept timestamp incoming s k a h =
    let bytes = pending incoming s.peer.link.rx in
    let (ms, end, t, frames, run, handled, ended, good, same) =
      recv-FramedRun (length bytes + 1) incoming s.peer (k.ready a) h (omega arith) in
    (
      record s { last_used = timestamp; peer = t },
      rw run refl,
      record {
        memory = good.valid.ordered.sized ∙ same ∙ sym (k.ready a).valid.ordered.sized ∙ k.memory;
        ready = λ b. good;
      },
    )

pub send_slot-IsKept :
    (timestamp : ℕ) (resend : Bool) (mss : ℕ) (s : ProtocolState)
    → IsKept s
    → (t : ProtocolState) × (send_slot timestamp resend mss s ≡ some t) × IsKept t
unfolding send_slot
send_slot-IsKept timestamp resend mss s k = (
  _,
  refl,
  record {
    memory = k.memory;
    ready =
        λ a. let r = k.ready a in record { valid = r.valid; large = r.large; tested = r.tested };
  },
)

pub init_state-Leaves :
    (id timestamp : ℕ) (p : Pool) → AllKept p.slots → Leaves (init_state id timestamp p)
unfolding init_state
init_state-Leaves id timestamp p k = elim (Option-cases (find_free p.slots 0)) [
  | inl e ↦ rw e (_, refl, k)
  | inr (i, e) ↦
      let (j, m, s, g, a) = find_free-inactive p.slots 0 i e in
      let same : j ≡ i = omega (arith, m) in
      let there : get_elem? p.slots i ≡ some s = subst (λ x. get_elem? p.slots x ≡ some s) same g in
      rw e (
        update-Leaves i (λ u. some (open_slot id timestamp u)) (add_call (set_appstate id i) p) s
          (open_slot id timestamp s) k there refl (open_slot-IsKept id timestamp s (k i s there)))
]
