-- ===== src/Server/Listener.antt =====
-- The tables of listeners: which link a new connection on a local port belongs to.
use sc_xtcp.Base.{
  Bool, List, [], arith, false, if◌then◌else◌, not, refl, true, ℕ, ◌&&◌, ◌==◌, ◌||◌, ◌∷◌, ◌≡◌,
}
use sc_xtcp.Base.Words.{htons}
use sc_xtcp.Server.{ListenerInfo, no_link}

-- NUM_TCP_LISTENERS and NUM_UDP_LISTENERS
abbrev pub num_listeners : ℕ
num_listeners = 10

-- `get_listener_linknum`: the link of the first active entry for the port, in network order, or -1.
unfoldable pub get_listener_linknum : List ListenerInfo → ℕ → ℕ
get_listener_linknum [] local_port = no_link
get_listener_linknum (l ∷ ls) local_port =
    if l.active && local_port == l.port_number
    then l.linknum
    else get_listener_linknum ls local_port

-- `unregister_listener`: every active entry for the port is made inactive.
unfoldable pub unregister_listener : List ListenerInfo → ℕ → List ListenerInfo
unregister_listener [] port_number = []
unregister_listener (l ∷ ls) port_number =
    (if l.port_number == htons port_number && l.active then record l { active = false } else l)
    ∷ unregister_listener ls port_number

-- `register_listener`: the first inactive entry is taken; without one nothing is done.
unfoldable pub register_listener : List ListenerInfo → ℕ → ℕ → List ListenerInfo
register_listener [] linknum port_number = []
register_listener (l ∷ ls) linknum port_number =
    if not l.active
    then record { active = true; port_number = htons port_number; linknum = linknum } ∷ ls
    else l ∷ register_listener ls linknum port_number

-- the entries for a port
abbrev pub is_free : List ListenerInfo → Bool
is_free [] = false
is_free (l ∷ ls) = not l.active || is_free ls

abbrev pub has_listener : List ListenerInfo → ℕ → Bool
has_listener [] p = false
has_listener (l ∷ ls) p = (l.active && p == l.port_number) || has_listener ls p

-- After `unregister_listener` no link is found for the port, and the other ports keep theirs.
get-unregister :
    (ls : List ListenerInfo) (port p : ℕ)
    → get_listener_linknum (unregister_listener ls port) p
      ≡ (if p == htons port then no_link else get_listener_linknum ls p)
unfolding get_listener_linknum unregister_listener
get-unregister [] port p = ground arith
get-unregister (l ∷ ls) port p = ground (arith, get-unregister ls port p)

-- After `register_listener` on a table with a free entry the port that had no listener has the new
-- link, and every other port keeps its own.
get-register :
    (ls : List ListenerInfo) (linknum port p : ℕ)
    → is_free ls ≡ true
    → has_listener ls (htons port) ≡ false
    → get_listener_linknum (register_listener ls linknum port) p
      ≡ (if p == htons port then linknum else get_listener_linknum ls p)
unfolding get_listener_linknum register_listener
get-register [] linknum port p free fresh = ground arith
get-register (l ∷ ls) linknum port p free fresh = ground (arith, get-register ls linknum port p)

-- A full table is left as it is.
register-full :
    (ls : List ListenerInfo) (linknum port : ℕ)
    → is_free ls ≡ false
    → register_listener ls linknum port ≡ ls
unfolding register_listener
register-full [] linknum port full = refl
register-full (l ∷ ls) linknum port full = ground (arith, register-full ls linknum port)
