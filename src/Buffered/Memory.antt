-- ===== src/Buffered/Memory.antt =====
-- The bytes behind `rx_buf` and `tx_buf`. A pointer into a buffer is its distance from the start.
use sc_xtcp.Base.{
  List, ap, append_assoc, arith, drop, drop-append, drop-drop, drop-take, length, length-append,
  length-drop, length-take, sym, take, take-append, take-append-take, take-append_le, take-take, ℕ,
  ◌++◌, ◌+◌, ◌-◌, ◌∙◌, ◌≡◌, ◌≤◌,
}

-- the bytes from pointer `a` up to pointer `b`
abbrev pub slice : List ℕ → ℕ → ℕ → List ℕ
slice mem a b = take (b - a) (drop a mem)

-- memcpy and memmove to pointer `off`
unfoldable pub write_at : List ℕ → ℕ → List ℕ → List ℕ
write_at mem off xs = take off mem ++ (xs ++ drop (off + length xs) mem)

pub length-slice : (mem : List ℕ) (a b : ℕ) → b ≤ length mem → length (slice mem a b) ≡ b - a
length-slice mem a b h = omega (arith, length-take (b - a) (drop a mem), length-drop a mem)

pub length-write_at :
    (mem : List ℕ) (off : ℕ) (xs : List ℕ)
    → off + length xs ≤ length mem
    → length (write_at mem off xs) ≡ length mem
unfolding write_at
length-write_at mem off xs h = omega (
  arith,
  length-append (take off mem) (xs ++ drop (off + length xs) mem),
  length-append xs (drop (off + length xs) mem),
  length-take off mem,
  length-drop (off + length xs) mem,
)

-- Writing at the end of a slice extends it.
pub slice-write_at :
    (mem : List ℕ) (a off : ℕ) (xs : List ℕ)
    → a ≤ off
    → off + length xs ≤ length mem
    → slice (write_at mem off xs) a (off + length xs) ≡ slice mem a off ++ xs
unfolding write_at
slice-write_at mem a off xs ha h =
    ap (take (off + length xs - a)) (moved ∙ sym (append_assoc (slice mem a off) xs rest))
    ∙ take-append (off + length xs - a) (slice mem a off ++ xs) rest sized
  where
    rest : List ℕ
    rest = drop (off + length xs) mem

    moved : drop a (take off mem ++ (xs ++ rest)) ≡ slice mem a off ++ (xs ++ rest)
    moved =
        drop-append a (take off mem) (xs ++ rest) (omega (arith, length-take off mem))
        ∙ ap (λ l. l ++ (xs ++ rest)) (drop-take a off mem)

    sized : off + length xs - a ≡ length (slice mem a off ++ xs)
    sized = omega (arith, length-append (slice mem a off) xs, length-slice mem a off (omega arith))

-- Moving a slice to the start keeps its bytes.
pub slice-write_at_zero :
    (mem : List ℕ) (xs : List ℕ) (n : ℕ) → n ≡ length xs → slice (write_at mem 0 xs) 0 n ≡ xs
unfolding write_at
slice-write_at_zero mem xs n h = take-append (n - 0) xs (drop (0 + length xs) mem) (omega arith)

-- A slice is cut at a pointer inside it.
pub slice-cut :
    (mem : List ℕ) (a b c : ℕ) → a ≤ b → b ≤ c → slice mem a b ++ slice mem b c ≡ slice mem a c
slice-cut mem a b c h k =
    ap (λ l. slice mem a b ++ take (c - b) l) shift
    ∙ take-append-take (b - a) (c - b) (drop a mem)
    ∙ ap (λ n. take n (drop a mem)) (omega arith)
  where
    aim : a + (b - a) ≡ b
    aim = omega arith

    shift : drop b mem ≡ drop (b - a) (drop a mem)
    shift = ap (λ n. drop n mem) (sym aim) ∙ sym (drop-drop (b - a) a mem)

-- The first bytes of a slice, and the rest of it.
pub take-slice :
    (mem : List ℕ) (a b k : ℕ) → a + k ≤ b → take k (slice mem a b) ≡ slice mem a (a + k)
take-slice mem a b k h =
    take-take k (b - a) (drop a mem) (omega arith) ∙ ap (λ n. take n (drop a mem)) (omega arith)

pub drop-slice : (mem : List ℕ) (a b k : ℕ) → drop k (slice mem a b) ≡ slice mem (a + k) b
drop-slice mem a b k =
    drop-take k (b - a) (drop a mem)
    ∙ ap (take (b - a - k)) (drop-drop k a mem)
    ∙ ap (λ n. take n (drop (a + k) mem)) (omega arith)

-- A slice inside another.
slice-inner :
    (mem : List ℕ) (a b c d : ℕ)
    → a ≤ c
    → c ≤ d
    → d ≤ b
    → take (d - c) (drop (c - a) (slice mem a b)) ≡ slice mem c d
slice-inner mem a b c d h k l =
    ap (take (d - c)) (drop-slice mem a b (c - a) ∙ ap (λ n. slice mem n b) aim)
    ∙ take-slice mem c b (d - c) (omega arith)
    ∙ ap (λ n. take n (drop c mem)) (omega arith)
  where
    aim : a + (c - a) ≡ c
    aim = omega arith

-- Where the bytes from `a` to `b` are moved to the start, all slices between move with them.
pub slice-moved :
    (mem : List ℕ) (a b c d : ℕ)
    → a ≤ c
    → c ≤ d
    → d ≤ b
    → b ≤ length mem
    → slice (write_at mem 0 (slice mem a b)) (c - a) (d - a) ≡ slice mem c d
slice-moved mem a b c d h k l fits =
    sym (slice-inner moved 0 (b - a) (c - a) (d - a) (omega arith) (omega arith) (omega arith))
    ∙ ap (take (d - a - (c - a))) (ap (drop (c - a - 0)) whole)
    ∙ ap (λ n. take n (drop (c - a - 0) (slice mem a b))) (omega arith)
    ∙ ap (λ n. take (d - c) (drop n (slice mem a b))) (omega arith)
    ∙ slice-inner mem a b c d h k l
  where
    moved : List ℕ
    moved = write_at mem 0 (slice mem a b)

    whole : slice moved 0 (b - a) ≡ slice mem a b
    whole = slice-write_at_zero mem (slice mem a b) (b - a) (sym (length-slice mem a b fits))

-- A slice that ends before a write is left alone.
pub slice-write_at_before :
    (mem : List ℕ) (a b off : ℕ) (xs : List ℕ)
    → a ≤ b
    → b ≤ off
    → off ≤ length mem
    → slice (write_at mem off xs) a b ≡ slice mem a b
unfolding write_at
slice-write_at_before mem a b off xs h k l =
    ap (take (b - a)) (drop-append a (take off mem) rest (omega (arith, length-take off mem)))
    ∙ take-append_le (b - a) (drop a (take off mem)) rest
        (omega (arith, length-drop a (take off mem), length-take off mem))
    ∙ ap (take (b - a)) (drop-take a off mem)
    ∙ take-take (b - a) (off - a) (drop a mem) (omega arith)
  where
    rest : List ℕ
    rest = xs ++ drop (off + length xs) mem
