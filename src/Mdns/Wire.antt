-- ===== src/Mdns/Wire.antt =====
-- Names in packets: what `mdns_encode_name` writes is what `mdns_parse_name` and `mdns_compare_name`
-- read.
use sc_xtcp.Base.{
  All, List, [], ap, append_assoc, arith, drop, drop-append_length, false, if◌then◌else◌, length,
  length-append, ltb, none, refl, some, suc, true, zero, ℕ, ◌++◌, ◌+◌, ◌<◌, ◌==◌, ◌>>=◌, ◌∙◌, ◌∷◌,
  ◌≡◌, ◌≤◌,
}
use sc_xtcp.Mdns.Parse.{
  again, compare_ends, compare_label, compare_rounds, end_round, goes_on, is_pointer,
  mdns_compare_name, mdns_parse_name, moved, parse_round, parse_rounds, result,
}
use sc_xtcp.Mdns.Text.{mdns_encode_name}
use sc_xtcp.Mdns.Labels.{
  At, At-append, At-cons, At-get, IsLabel, encode_name-wire, join, join_nonempty, wire,
}

-- A round of `mdns_parse_name` on a label.
parse_label :
    (msg : List ℕ) (limit i : ℕ) (l ys : List ℕ) (c : ℕ)
    → IsLabel l
    → At msg i (length l ∷ l ++ c ∷ ys)
    → i + 1 + length l ≤ limit
    → parse_round msg limit (record { query = i; saved = none })
      ≡ some (
          if c == 0
          then result (some (i + 1 + length l + 1))
          else again (record { query = i + 1 + length l; saved = none }))
unfolding parse_round end_round
parse_label msg limit i l ys c h at w =
    let first = At-get msg i (length l) (l ++ c ∷ ys) at in
    let rest = At-append msg (i + 1) l (c ∷ ys) (At-cons msg i (length l) (l ++ c ∷ ys) at) in
    let last = At-get msg (i + 1 + length l) c ys rest in
    let no_end : ltb limit (i + 1) ≡ false = ground (arith, w) in
    let plain : is_pointer (length l) ≡ false = ground (arith, h.1) in
    let inside : ltb limit (i + 1 + length l) ≡ false = ground (arith, w) in
    rw (first, no_end, plain, inside, last) refl

parse_wire :
    (ls : List (List ℕ)) (l : List ℕ) (msg : List ℕ) (limit i fuel : ℕ) (post : List ℕ)
    → All IsLabel (l ∷ ls)
    → At msg i (wire (l ∷ ls) ++ post)
    → i + length (wire (l ∷ ls)) ≤ limit + 1
    → length (l ∷ ls) ≤ fuel
    → parse_rounds fuel msg limit (record { query = i; saved = none })
      ≡ some (some (i + length (wire (l ∷ ls))))
unfolding parse_rounds
parse_wire ls l msg limit i zero post h at w f = absurd (omega arith)
parse_wire [] l msg limit i (suc fuel) post (h, hs) at w f =
    let sum = length-append l (0 ∷ []) in
    let here : At msg i (length l ∷ l ++ 0 ∷ post) =
      at ∙ ap (λ x. length l ∷ x) (append_assoc l (0 ∷ []) post) in
    let end : i + 1 + length l + 1 ≡ i + length (wire (l ∷ [])) = omega (arith, sum) in
    rw (parse_label msg limit i l post 0 h here (omega (arith, w, sum)))
      (ap (λ n. some (some n)) end)
parse_wire (m ∷ ls) l msg limit i (suc fuel) post (h, (k, ks)) at w f =
    let tail = (m ++ wire ls) ++ post in
    let shape : wire (l ∷ m ∷ ls) ++ post ≡ length l ∷ l ++ length m ∷ tail =
      ap (λ x. length l ∷ x) (append_assoc l (wire (m ∷ ls)) post) in
    let here : At msg i (length l ∷ l ++ length m ∷ tail) = at ∙ shape in
    let sum = length-append l (wire (m ∷ ls)) in
    let more : (length m == 0) ≡ false = ground (arith, k.0) in
    let next : At msg (i + 1 + length l) (length m ∷ tail) =
      At-append msg (i + 1) l (length m ∷ tail)
        (At-cons msg i (length l) (l ++ length m ∷ tail) here) in
    let later =
      parse_wire ls m msg limit (i + 1 + length l) fuel post (k, ks) next (omega (arith, w, sum))
        (omega (arith, f)) in
    let end : i + 1 + length l + length (wire (m ∷ ls)) ≡ i + length (wire (l ∷ m ∷ ls)) =
      omega (arith, sum) in
    rw (parse_label msg limit i l tail (length m) h here (omega (arith, w, sum)), more)
      (later ∙ ap (λ n. some (some n)) end)

-- `mdns_compare_name` on one label.
compare_same : (l q r : List ℕ) → compare_label (length l) (l ++ q) (l ++ r) ≡ some (moved q r)
unfolding compare_label
compare_same [] q r = refl
compare_same (c ∷ l) q r = let e : ltb c c ≡ false = ground arith in rw (e, compare_same l q r) refl

compare_all : (l r : List ℕ) → compare_label (length l) l (l ++ r) ≡ some (moved [] r)
unfolding compare_label
compare_all [] r = refl
compare_all (c ∷ l) r = let e : ltb c c ≡ false = ground arith in rw (e, compare_all l r) refl

goes_on_both :
    (q r : List ℕ) (d : ℕ) → 0 < length q → (d == 0) ≡ false → goes_on q (d ∷ r) ≡ some true
unfolding goes_on
goes_on_both [] r d h e = absurd (omega arith)
goes_on_both (c ∷ q) r d h e = rw e refl

compare_wire :
    (ls : List (List ℕ)) (l : List ℕ) (dot fuel : ℕ) (post msg : List ℕ)
    → All IsLabel (l ∷ ls)
    → length (l ∷ ls) ≤ fuel
    → compare_rounds fuel (join dot (l ∷ ls)) (wire (l ∷ ls) ++ post) msg ≡ some 0
unfolding compare_rounds goes_on compare_ends
compare_wire ls l dot zero post msg h f = absurd (omega arith)
compare_wire [] l dot (suc fuel) post msg (h, hs) f =
    let plain : is_pointer (length l) ≡ false = ground (arith, h.1) in
    rw (plain, append_assoc l (0 ∷ []) post, compare_all l (0 ∷ post)) ends
  where
    ends :
        goes_on [] (0 ∷ post) >>= (λ more.
          if more then compare_rounds fuel [] (0 ∷ post) msg else compare_ends [] (0 ∷ post))
        ≡ some 0
    ends = refl
compare_wire (m ∷ ls) l dot (suc fuel) post msg (h, (k, ks)) f =
    let plain : is_pointer (length l) ≡ false = ground (arith, h.1) in
    let some_left : (length m == 0) ≡ false = ground (arith, k.0) in
    rw
      (
        plain,
        append_assoc l (wire (m ∷ ls)) post,
        compare_same l (dot ∷ join dot (m ∷ ls)) (wire (m ∷ ls) ++ post),
        goes_on_both (join dot (m ∷ ls)) ((m ++ wire ls) ++ post) (length m)
            (join_nonempty dot m ls k) some_left,
      )
      (compare_wire ls m dot fuel post msg (k, ks) (omega (arith, f)))

labels_in_length :
    (dot : ℕ) (ls : List (List ℕ)) → All IsLabel ls → length ls ≤ suc (length (join dot ls))
labels_in_length dot [] h = omega arith
labels_in_length dot (l ∷ []) h = omega arith
labels_in_length dot (l ∷ m ∷ ls) (h, hs) =
    omega (arith, labels_in_length dot (m ∷ ls) hs, length-append l (dot ∷ join dot (m ∷ ls)), h.0)

-- A name of labels, encoded anywhere in a packet that holds it up to its end, is parsed to the position
-- behind it within as many rounds as it has labels, and compares equal to the name.
pub name_round_trip :
    (l : List ℕ) (ls : List (List ℕ)) (pre post : List ℕ) (fuel limit : ℕ)
    → All IsLabel (l ∷ ls)
    → length (l ∷ ls) ≤ fuel
    → length pre + length (mdns_encode_name (join 46 (l ∷ ls))) ≤ limit + 1
    → let name = join 46 (l ∷ ls) in
      let msg = pre ++ (mdns_encode_name name ++ post) in
      (mdns_parse_name fuel msg (length pre) limit
        ≡ some (some (length pre + length (mdns_encode_name name))))
      × (mdns_compare_name name (drop (length pre) msg) msg ≡ some 0)
unfolding mdns_parse_name mdns_compare_name
name_round_trip l ls pre post fuel limit h f w =
    let e = encode_name-wire l ls h in
    let at = drop-append_length (length pre) pre (wire (l ∷ ls) ++ post) refl in
    let room : length pre + length (wire (l ∷ ls)) ≤ limit + 1 = omega (arith, w, same_length e) in
    let inside : ltb limit (length pre) ≡ false = ground (arith, room) in
    rw (e, inside, at)
      (
        parse_wire ls l (pre ++ (wire (l ∷ ls) ++ post)) limit (length pre) fuel post h at room f,
        compare_wire ls l 46 (suc (length (join 46 (l ∷ ls)))) post (pre ++ (wire (l ∷ ls) ++ post))
            h (labels_in_length 46 (l ∷ ls) h),
      )
  where
    same_length : {xs ys : List ℕ} → xs ≡ ys → length xs ≡ length ys
    same_length e = ap length e

-- `mdns_compare_name` takes a name for equal to an encoded one whatever byte stands in it for each dot.
compare_name_any_dot :
    (dot : ℕ) (l : List ℕ) (ls : List (List ℕ)) (post msg : List ℕ)
    → All IsLabel (l ∷ ls)
    → mdns_compare_name (join dot (l ∷ ls)) (mdns_encode_name (join 46 (l ∷ ls)) ++ post) msg
      ≡ some 0
unfolding mdns_compare_name
compare_name_any_dot dot l ls post msg h = rw (encode_name-wire l ls h) (
    compare_wire ls l dot (suc (length (join dot (l ∷ ls)))) post msg h
      (labels_in_length dot (l ∷ ls) h))
