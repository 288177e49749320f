-- ===== src/Mdns/Kept.antt =====
-- What the loops of `mdns_send` do to an entry that they have room for, and what that keeps.
use sc_xtcp.Base.{
  All, Bool, Bool-cases, List, [], ap, append_assoc, arith, false, if◌then◌else◌, inl, inr, length,
  map, refl, suc, sym, true, ℕ, ◌++◌, ◌+◌, ◌||◌, ◌∙◌, ◌∷◌, ◌≡◌, ◌≤◌,
}
use mathlib.Core.Path.{subst}
use sc_xtcp.Mdns.{
  Call, Entry, is_announce_wait, is_canonical, is_probe_wait, is_used, nothing_pending,
  probe_partial_sent, xtcp_bind_local, xtcp_connect, xtcp_init_send, xtcp_join_multicast_group,
  xtcp_send, xtcp_set_poll_interval,
}
use sc_xtcp.Mdns.Records.{buf_size, mdns_get_canonical_name}
use sc_xtcp.Mdns.Room.{IsShort}
use sc_xtcp.Mdns.Fits.{Named}
use sc_xtcp.Mdns.Send.{announced, is_partial_sent, probed}
use sc_xtcp.Mdns.Fields.{IsAddr}

-- What the two loops of `mdns_send_probes` do to an entry that they have room for.
abbrev pub to_partial : Entry → Entry
to_partial e = if is_probe_wait e.state then record e { state = probe_partial_sent } else e

abbrev pub after_probe : ℕ → Entry → Entry
after_probe t e = if is_partial_sent e.state then probed t e else e

abbrev pub after_announce : ℕ → Entry → Entry
after_announce t e = if is_announce_wait e.state then announced t e else e

abbrev pub responded : ℕ → Entry → Entry
responded t e =
    if is_used e.state then record (after_announce t e) { pending = nothing_pending } else e

-- the number of the entries in PROBE_WAIT
abbrev pub waiting : List Entry → ℕ
waiting [] = 0
waiting (e ∷ es) = (if is_probe_wait e.state then 1 else 0) + waiting es

-- the call's packet has at most as many bytes as the array
abbrev pub IsSmall : Call → Type 0
IsSmall (xtcp_send bytes) = length bytes ≤ buf_size
IsSmall (xtcp_connect port a) = port ≤ port
IsSmall xtcp_init_send = 0 ≤ 0
IsSmall (xtcp_join_multicast_group a) = 0 ≤ 0
IsSmall (xtcp_set_poll_interval n) = n ≤ n
IsSmall (xtcp_bind_local n) = n ≤ n

-- The change of an entry keeps what `mdns_get_canonical_name` reads of it.
abbrev pub SameName : Entry → Entry → Type 0
SameName e f =
    (is_probe_wait e.state ≡ is_probe_wait f.state)
    × (is_canonical e.entry_type ≡ is_canonical f.entry_type)
    × (e.name ≡ f.name)

canonical_name-replace :
    (before behind : List Entry) (e f : Entry)
    → SameName e f
    → mdns_get_canonical_name (before ++ e ∷ behind)
      ≡ mdns_get_canonical_name (before ++ f ∷ behind)
unfolding mdns_get_canonical_name
canonical_name-replace [] behind e f (s, t, n) = rw (s, t, n) refl
canonical_name-replace (d ∷ before) behind e f same =
    rw (canonical_name-replace before behind e f same) refl

pub Named-replace :
    (l : ℕ) (before behind : List Entry) (e f : Entry)
    → SameName e f
    → Named l (before ++ e ∷ behind)
    → Named l ((before ++ f ∷ []) ++ behind)
Named-replace l before behind e f same (c, found, h) = (
  c,
  ap mdns_get_canonical_name (append_assoc before (f ∷ []) behind)
      ∙ (sym (canonical_name-replace before behind e f same) ∙ found),
  h,
)

pub after_probe-same : (t : ℕ) (e : Entry) → SameName e (after_probe t e)
after_probe-same t e = ground arith

pub after_announce-same : (t : ℕ) (e : Entry) → SameName e (after_announce t e)
after_announce-same t e = ground arith

-- The names and the address are the same.
abbrev pub SameTexts : Entry → Entry → Type 0
SameTexts e f =
    (e.name ≡ f.name)
    × (e.name_postfix ≡ f.name_postfix)
    × (e.txt_record ≡ f.txt_record)
    × (e.ipaddr ≡ f.ipaddr)

pub IsShort-same : (l : ℕ) (e f : Entry) → SameTexts e f → IsShort l e → IsShort l f
IsShort-same l e f (n, p, x, a) s = record {
  short_name = subst (λ w. length w ≤ l) n s.short_name;
  short_postfix = subst (λ w. length w ≤ l) p s.short_postfix;
  short_txt = subst (λ w. length w ≤ l) x s.short_txt;
  is_addr = subst IsAddr a s.is_addr;
}

pub IsShort-map :
    (l : ℕ) (f : Entry → Entry) (es : List Entry)
    → ((e : Entry) → SameTexts e (f e))
    → All (IsShort l) es
    → All (IsShort l) (map f es)
IsShort-map l f [] same short = short
IsShort-map l f (e ∷ es) same short =
    (IsShort-same l e (f e) (same e) short.0, IsShort-map l f es same short.1)

pub to_partial-texts : (e : Entry) → SameTexts e (to_partial e)
to_partial-texts e = ground arith

pub after_probe-texts : (t : ℕ) (e : Entry) → SameTexts e (after_probe t e)
after_probe-texts t e = ground arith

pub after_announce-texts : (t : ℕ) (e : Entry) → SameTexts e (after_announce t e)
after_announce-texts t e = ground arith

pub Named-map :
    (l : ℕ) (f : Entry → Entry) (before es : List Entry)
    → ((e : Entry) → SameName e (f e))
    → Named l (before ++ es)
    → Named l (before ++ map f es)
Named-map l f before [] same named = named
Named-map l f before (e ∷ es) same named =
    subst (Named l) (append_assoc before (f e ∷ []) (map f es)) (
      Named-map l f (before ++ f e ∷ []) es same (Named-replace l before es e (f e) (same e) named))

-- whether there is an entry of the kind of the canonical name
abbrev pub any_canonical : List Entry → Bool
any_canonical [] = false
any_canonical (e ∷ es) = is_canonical e.entry_type || any_canonical es

to_partial-waits : (e : Entry) → is_probe_wait (to_partial e).state ≡ false
to_partial-waits e = ground arith

to_partial-type : (e : Entry) → (to_partial e).entry_type ≡ e.entry_type
to_partial-type e = ground arith

pub Named-to_partial :
    (l : ℕ) (es : List Entry)
    → All (IsShort l) es
    → any_canonical es ≡ true
    → Named l (map to_partial es)
unfolding mdns_get_canonical_name
Named-to_partial l [] short h = cc
Named-to_partial l (e ∷ es) short h = elim (Bool-cases (is_canonical e.entry_type)) [
  | inl c ↦
      rw (to_partial-waits e, to_partial-type e, c)
        (
          (to_partial e).name,
          refl,
          (IsShort-same l e (to_partial e) (to_partial-texts e) short.0).short_name,
        )
  | inr c ↦
      rw (to_partial-waits e, to_partial-type e, c)
        (Named-to_partial l es short.1 (sym (rw c refl) ∙ h))
]

pub length-map : (f : Entry → Entry) (es : List Entry) → length (map f es) ≡ length es
length-map f [] = refl
length-map f (e ∷ es) = ap suc (length-map f es)
