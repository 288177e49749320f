-- ===== src/Mdns/Labels.antt =====
-- Names as lists of labels, and how `mdns_encode_name` writes them.
use sc_xtcp.Base.{
  All, List, [], ap, append-nil, append_assoc, arith, drop, drop-append_length, drop-drop, drop-nil,
  false, get_elem?, length, length-append, refl, some, suc, sym, zero, ℕ, ◌++◌, ◌+◌, ◌<◌, ◌==◌, ◌∙◌,
  ◌∷◌, ◌≡◌,
}
use sc_xtcp.Base.Words.{u8}
use sc_xtcp.Mdns.Text.{encode_from, mdns_encode_name}

-- A label: from 1 to 63 bytes, none of them a dot or the null byte.
abbrev pub IsLetter : ℕ → Type 0
IsLetter c = ((c == 46) ≡ false) × ((c == 0) ≡ false)

abbrev pub IsLabel : List ℕ → Type 0
IsLabel l = (0 < length l) × (length l < 64) × All IsLetter l

-- the labels with a byte between them
abbrev pub join : ℕ → List (List ℕ) → List ℕ
join dot [] = []
join dot (l ∷ []) = l
join dot (l ∷ m ∷ ls) = l ++ dot ∷ join dot (m ∷ ls)

-- the labels as a packet has them
abbrev pub wire : List (List ℕ) → List ℕ
wire [] = 0 ∷ []
wire (l ∷ ls) = length l ∷ l ++ wire ls

-- what stands at a position
abbrev pub At : List ℕ → ℕ → List ℕ → Type 0
At msg i xs = drop i msg ≡ xs

pub At-get : (msg : List ℕ) (i n : ℕ) (xs : List ℕ) → At msg i (n ∷ xs) → get_elem? msg i ≡ some n
At-get [] i n xs h = cc (drop-nil {A = ℕ} i)
At-get (x ∷ msg) zero n xs h = cc
At-get (x ∷ msg) (suc i) n xs h = At-get msg i n xs h

pub At-cons : (msg : List ℕ) (i n : ℕ) (xs : List ℕ) → At msg i (n ∷ xs) → At msg (i + 1) xs
At-cons msg i n xs h = sym (drop-drop 1 i msg) ∙ ap (drop 1) h

pub At-append :
    (msg : List ℕ) (i : ℕ) (xs ys : List ℕ) → At msg i (xs ++ ys) → At msg (i + length xs) ys
At-append msg i xs ys h =
    sym (drop-drop (length xs) i msg)
    ∙ ap (drop (length xs)) h
    ∙ drop-append_length (length xs) xs ys refl

-- `mdns_encode_name` up to the next dot, and to the end.
encode_from-dot :
    (label l ys : List ℕ)
    → All IsLetter l
    → 0 < length ys
    → encode_from label (l ++ 46 ∷ ys)
      ≡ u8 (length (label ++ l)) ∷ (label ++ l) ++ encode_from [] ys
unfolding encode_from
encode_from-dot label [] [] h p = absurd (omega arith)
encode_from-dot label [] (y ∷ ys) h p = rw (append-nil label) refl
encode_from-dot label (x ∷ l) ys (h, hs) p =
    rw (h.0, encode_from-dot (label ++ x ∷ []) l ys hs p, append_assoc label (x ∷ []) l) refl

encode_from-end :
    (label l : List ℕ)
    → All IsLetter l
    → encode_from label l ≡ u8 (length (label ++ l)) ∷ label ++ l
unfolding encode_from
encode_from-end label [] h = rw (append-nil label) refl
encode_from-end label (x ∷ l) (h, hs) =
    rw (h.0, encode_from-end (label ++ x ∷ []) l hs, append_assoc label (x ∷ []) l) refl

pub join_nonempty :
    (dot : ℕ) (l : List ℕ) (ls : List (List ℕ)) → IsLabel l → 0 < length (join dot (l ∷ ls))
join_nonempty dot l [] h = h.0
join_nonempty dot l (m ∷ ls) h = omega (arith, h.0, length-append l (dot ∷ join dot (m ∷ ls)))

byte_length : (l : List ℕ) → IsLabel l → u8 (length l) ≡ length l
byte_length l h = omega (arith, h.1)

encode_from-join :
    (ls : List (List ℕ)) (l : List ℕ)
    → All IsLabel (l ∷ ls)
    → encode_from [] (join 46 (l ∷ ls)) ++ 0 ∷ [] ≡ wire (l ∷ ls)
encode_from-join [] l (h, hs) = rw (encode_from-end [] l h.2, byte_length l h) refl
encode_from-join (m ∷ ls) l (h, hs) =
    rw (encode_from-dot [] l (join 46 (m ∷ ls)) h.2 (join_nonempty 46 m ls hs.0), byte_length l h)
      (ap (λ x. length l ∷ x)
        (append_assoc l (encode_from [] (join 46 (m ∷ ls))) (0 ∷ [])
          ∙ ap (λ x. l ++ x) (encode_from-join ls m hs)))

pub encode_name-wire :
    (l : List ℕ) (ls : List (List ℕ))
    → All IsLabel (l ∷ ls)
    → mdns_encode_name (join 46 (l ∷ ls)) ≡ wire (l ∷ ls)
unfolding mdns_encode_name
encode_name-wire l ls h = encode_from-join ls l h
