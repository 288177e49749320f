-- ===== src/Server/Invariant.antt =====
-- The invariant of the server: no two connections have the same id, and there is always a free one.
use sc_xtcp.Base.{
  All, Bool, List, Option, [], ap, arith, false, get_elem?, if◌then◌else◌, length, length-set, none,
  on_some, refl, some, sym, true, ℕ, ◌+◌, ◌<◌, ◌>>=◌, ◌∙◌, ◌∷◌, ◌≡◌, ◌≢◌, ◌≤◌,
}
use sc_xtcp.Server.{
  Command, Ref, Server, Slot, ack_recv, bind_local, bind_remote, pause, tcp, udp, unpause,
}
use sc_xtcp.Server.Refs.{id_at, id_of, ref_eq, ref_eq_iff, slot_at-put_slot}
use sc_xtcp.Server.Table.{put_slot, slot_at, update_at}
use sc_xtcp.Server.Guid.{max_guid}

-- No two slots share an id, where 0 is the id of a slot that was never used.
abbrev pub IsUnique : Server → Type 0
IsUnique s = (r r' : Ref) (g : ℕ) → id_at s r ≡ some g → id_at s r' ≡ some g → g ≢ 0 → r ≡ r'

pub record IsValid (s : Server) : Type 0 where
  pub unique : IsUnique s
  pub guid_pos : 1 ≤ s.guid
  pub guid_le : s.guid ≤ max_guid
  pub small : length s.tcps + length s.udps < max_guid

-- The commands that cannot fault: the others go through a pointer that the client's id may not have.
abbrev pub is_calm : Command → Bool
is_calm (bind_local id port) = false
is_calm (bind_remote id addr port) = false
is_calm (ack_recv id) = false
is_calm (pause id) = false
is_calm (unpause id) = false
is_calm _ = true

abbrev pub AreCalm : List (ℕ × Command) → Type 0
AreCalm [] = Unit
AreCalm ((i, c) ∷ cs) = (is_calm c ≡ true) × AreCalm cs

-- Every command that is still to come is calm.
abbrev pub IsCalm : Server → Type 0
IsCalm s = All AreCalm s.script

-- What every step that begins no connection keeps: the ids, the sizes of the tables and the counter.
pub record Keeps (s s' : Server) : Type 0 where
  pub same_ids : (r : Ref) → id_at s' r ≡ id_at s r
  pub same_tcps : length s'.tcps ≡ length s.tcps
  pub same_udps : length s'.udps ≡ length s.udps
  pub same_guid : s'.guid ≡ s.guid
  pub calm : IsCalm s → IsCalm s'

pub Keeps-refl : (s : Server) → Keeps s s
Keeps-refl s = record {
  same_ids = λ r. refl;
  same_tcps = refl;
  same_udps = refl;
  same_guid = refl;
  calm = λ c. c;
}

-- A step that leaves the tables alone.
pub tables-Keeps :
    (s t : Server)
    → t.tcps ≡ s.tcps
    → t.udps ≡ s.udps
    → t.guid ≡ s.guid
    → (IsCalm s → IsCalm t)
    → Keeps s t
tables-Keeps s t h k g c = record {
  same_ids = elim [
    | tcp j ↦ ap (λ vs. id_of (get_elem? vs j)) h
    | udp j ↦ ap (λ vs. id_of (get_elem? vs j)) k
  ];
  same_tcps = ap length h;
  same_udps = ap length k;
  same_guid = g;
  calm = c;
}

Keeps-trans : {s t u : Server} → Keeps s t → Keeps t u → Keeps s u
Keeps-trans h k = record {
  same_ids = λ r. k.same_ids r ∙ h.same_ids r;
  same_tcps = k.same_tcps ∙ h.same_tcps;
  same_udps = k.same_udps ∙ h.same_udps;
  same_guid = k.same_guid ∙ h.same_guid;
  calm = λ c. k.calm (h.calm c);
}

pub Keeps-IsValid : {s t : Server} → Keeps s t → IsValid s → IsValid t
Keeps-IsValid h v = record {
  unique = λ r r' g p q. v.unique r r' g (sym (h.same_ids r) ∙ p) (sym (h.same_ids r') ∙ q);
  guid_pos = omega (arith, h.same_guid, v.guid_pos);
  guid_le = omega (arith, h.same_guid, v.guid_le);
  small = omega (arith, h.same_tcps, h.same_udps, v.small);
}

-- A step that ends in a server, or in a fault, keeps these where it ends in a server.
abbrev pub KeepsIf : Server → Option Server → Type 0
KeepsIf s none = Unit
KeepsIf s (some t) = Keeps s t

length-put_slot :
    (s : Server) (r : Ref) (v : Slot)
    → (length (put_slot s r v).tcps ≡ length s.tcps)
      × (length (put_slot s r v).udps ≡ length s.udps)
      × ((put_slot s r v).guid ≡ s.guid)
length-put_slot s (tcp i) v = (length-set s.tcps i v, refl, refl)
length-put_slot s (udp i) v = (refl, length-set s.udps i v, refl)

id_at-put_slot :
    (s : Server) (r r' : Ref) (v w : Slot)
    → slot_at s r ≡ some w
    → id_at (put_slot s r v) r' ≡ (if ref_eq r r' then some v.app.id else id_at s r')
id_at-put_slot s r r' v w h = ap id_of (slot_at-put_slot s r r' v w h) ∙ ground arith

same_if :
    (b : Bool) (x y : ℕ) (o : Option ℕ)
    → (b ≡ true → o ≡ some y)
    → x ≡ y
    → (if b then some x else o) ≡ o
same_if true x y o h e = rw e (sym (h refl))
same_if false x y o h e = refl

calm-put_slot : (s : Server) (r : Ref) (v : Slot) → IsCalm s → IsCalm (put_slot s r v)
calm-put_slot s (tcp i) v c = c
calm-put_slot s (udp i) v c = c

put_slot-Keeps :
    (s : Server) (r : Ref) (v w : Slot)
    → slot_at s r ≡ some w
    → v.app.id ≡ w.app.id
    → Keeps s (put_slot s r v)
put_slot-Keeps s r v w h e = record {
  same_ids = λ r'.
      id_at-put_slot s r r' v w h
      ∙ same_if (ref_eq r r') v.app.id w.app.id (id_at s r')
          (λ k. ap (id_at s) (sym ((ref_eq_iff r r').0 k)) ∙ ap id_of h) e;
  same_tcps = (length-put_slot s r v).0;
  same_udps = (length-put_slot s r v).1;
  same_guid = (length-put_slot s r v).2;
  calm = calm-put_slot s r v;
}

-- A step that needs a value which may be missing.
pub need-KeepsIf {ℓ} :
    {A : Type ℓ} (s : Server) (o : Option A) (f : A → Option Server)
    → ((a : A) → o ≡ some a → KeepsIf s (f a))
    → KeepsIf s (o >>= f)
need-KeepsIf s none f h = tt
need-KeepsIf s (some a) f h = h a refl

-- A step for a connection that may not exist.
pub on_some-KeepsIf {ℓ} :
    {A : Type ℓ} (s : Server) (o : Option A) (f : A → Option Server)
    → ((a : A) → o ≡ some a → KeepsIf s (f a))
    → KeepsIf s (on_some o (some s) f)
on_some-KeepsIf s none f h = Keeps-refl s
on_some-KeepsIf s (some a) f h = h a refl

-- A change of a slot that leaves the id alone.
pub update_at-KeepsIf :
    (f : Slot → Slot) (s : Server) (r : Ref)
    → ((v : Slot) → (f v).app.id ≡ v.app.id)
    → KeepsIf s (update_at f s r)
unfolding update_at
update_at-KeepsIf f s r h =
    need-KeepsIf s (slot_at s r) _ (λ v e. put_slot-Keeps s r (f v) v e (h v))

pub trans-KeepsIf : (s t : Server) (o : Option Server) → Keeps s t → KeepsIf t o → KeepsIf s o
trans-KeepsIf s t none h k = tt
trans-KeepsIf s t (some u) h k = Keeps-trans h k

-- Steps in a row.
pub >>=-KeepsIf :
    (s : Server) (m : Option Server) (f : Server → Option Server)
    → KeepsIf s m
    → ((t : Server) → KeepsIf t (f t))
    → KeepsIf s (m >>= f)
>>=-KeepsIf s none f h k = tt
>>=-KeepsIf s (some t) f h k = trans-KeepsIf s t (f t) h (k t)

if-KeepsIf :
    (s : Server) (b : Bool) (m n : Option Server)
    → KeepsIf s m
    → KeepsIf s n
    → KeepsIf s (if b then m else n)
if-KeepsIf s true m n h k = h
if-KeepsIf s false m n h k = k
