-- ===== src/Mdns/Numbers.antt =====
-- Decimal numbers in names: `mdns_itoa` and the names that it makes different.
use sc_xtcp.Base.{
  All, Bool-cases, List, [], ap, arith, inl, inr, refl, suc, sym, zero, ℕ, ◌*◌, ◌++◌, ◌+◌, ◌-◌, ◌/◌,
  ◌<◌, ◌==◌, ◌∙◌, ◌∷◌, ◌≡◌, ◌≤◌,
}
use Prim.{tt}
use sc_xtcp.Mdns.Text.{backwards, digits_back, mdns_itoa}

-- the number that digits stand for, the last digit first
abbrev pub back_value : List ℕ → ℕ
back_value [] = 0
back_value (d ∷ ds) = (d - 48) + 10 * back_value ds

-- the number of a decimal text
abbrev pub decimal : List ℕ → ℕ
decimal ds = back_value (backwards ds [])

digits_back-value : (n x : ℕ) → x < n → back_value (digits_back n x) ≡ x
unfolding digits_back
digits_back-value zero x h = absurd (omega arith)
digits_back-value (suc n) x h = elim (Bool-cases (x / 10 == 0)) [
  | inl e ↦ rw e (ground arith)
  | inr e ↦ let rest = digits_back-value n (x / 10) (ground arith) in rw e (omega (arith, rest))
]

backwards-append : (xs ys zs : List ℕ) → backwards (xs ++ ys) zs ≡ backwards ys (backwards xs zs)
backwards-append [] ys zs = refl
backwards-append (x ∷ xs) ys zs = backwards-append xs ys (x ∷ zs)

backwards_twice : (xs done : List ℕ) → backwards (backwards xs done) [] ≡ backwards done xs
backwards_twice [] done = refl
backwards_twice (x ∷ xs) done = backwards_twice xs (x ∷ done)

pub itoa-backwards : (x : ℕ) → backwards (mdns_itoa x) [] ≡ digits_back (suc x) x
unfolding mdns_itoa
itoa-backwards x = backwards_twice (digits_back (suc x) x) []

itoa-decimal : (x : ℕ) → decimal (mdns_itoa x) ≡ x
itoa-decimal x = ap back_value (itoa-backwards x) ∙ digits_back-value (suc x) x (omega arith)

itoa-injective : (x y : ℕ) → mdns_itoa x ≡ mdns_itoa y → x ≡ y
itoa-injective x y h = sym (itoa-decimal x) ∙ ap decimal h ∙ itoa-decimal y

-- `mdns_itoa` writes digits.
abbrev pub IsDigit : ℕ → Type 0
IsDigit d = (48 ≤ d) × (d ≤ 57)

digits_back-digits : (n x : ℕ) → All IsDigit (digits_back n x)
unfolding digits_back
digits_back-digits zero x = tt
digits_back-digits (suc n) x = elim (Bool-cases (x / 10 == 0)) [
  | inl e ↦ rw e ((omega arith, omega arith), tt)
  | inr e ↦ rw e ((omega arith, omega arith), digits_back-digits n (x / 10))
]

backwards-All :
    (P : ℕ → Type 0) (xs done : List ℕ) → All P xs → All P done → All P (backwards xs done)
backwards-All P [] done h k = k
backwards-All P (x ∷ xs) done (h, hs) k = backwards-All P xs (x ∷ done) hs (h, k)

itoa-digits : (x : ℕ) → All IsDigit (mdns_itoa x)
unfolding mdns_itoa
itoa-digits x = backwards-All IsDigit (digits_back (suc x) x) [] (digits_back-digits (suc x) x) tt

-- `mdns_itoa` writes decimal digits that stand for its argument.
itoa_value : (x : ℕ) → All IsDigit (mdns_itoa x) × (decimal (mdns_itoa x) ≡ x)
itoa_value x = (itoa-digits x, itoa-decimal x)
