-- ===== src/Mdns/Fields.antt =====
-- The decimal fields of an address: their lengths and their values.
use sc_xtcp.Base.{
  Bool-cases, List, [], ap, arith, false, inl, inr, length, ltb, refl, suc, true, zero, ℕ, ◌%◌, ◌*◌,
  ◌+◌, ◌-◌, ◌/◌, ◌<◌, ◌==◌, ◌||◌, ◌∙◌, ◌∷◌, ◌≡◌, ◌≤◌,
}
use sc_xtcp.Base.Net.{IpAddr}
use sc_xtcp.Mdns.Parse.{field_value}
use sc_xtcp.Mdns.Text.{backwards, digits_back, mdns_itoa}

-- The fields are bytes.
pub record IsAddr (a : IpAddr) : Type 0 where
  pub byte0 : a.b0 < 256
  pub byte1 : a.b1 < 256
  pub byte2 : a.b2 < 256
  pub byte3 : a.b3 < 256

scaled : (q r base : ℕ) → r * base + base * 10 * q ≡ base * (q * 10 + r)
scaled q r base = grind arith

pub field_value-digits :
    (n x base : ℕ) → x < n → field_value base (digits_back n x) ≡ (true, base * x)
unfolding field_value digits_back
field_value-digits zero x base h = absurd (omega arith)
field_value-digits (suc n) x base h =
    let digit : (ltb (48 + x % 10) 48 || ltb 57 (48 + x % 10)) ≡ false = ground arith in
    elim (Bool-cases (x / 10 == 0)) [
      | inl e ↦
          let small : x ≡ x % 10 = ground arith in
          let off : 48 + x % 10 - 48 ≡ x = omega (arith, small) in
          let last : x * base + 0 ≡ base * x = grind arith in rw (e, digit, off, last) refl
      | inr e ↦
          let rest = field_value-digits n (x / 10) (base * 10) (ground arith) in
          let off : 48 + x % 10 - 48 ≡ x % 10 = omega arith in
          let split : x / 10 * 10 + x % 10 ≡ x = omega arith in
          let whole : x % 10 * base + base * 10 * (x / 10) ≡ base * x =
            scaled (x / 10) (x % 10) base ∙ ap (λ y. base * y) split in
          rw (e, digit, off, rest, whole) refl
    ]

-- A number below 1000 has one to three digits.
digit-length : (n x : ℕ) → x < n → x < 10 → length (digits_back n x) ≡ 1
unfolding digits_back
digit-length zero x h w = absurd (omega arith)
digit-length (suc n) x h w = let e : (x / 10 == 0) ≡ true = ground arith in rw e refl

digits-step :
    (n x m : ℕ)
    → ((y : ℕ) → y < n → y < m → (0 < length (digits_back n y)) × (length (digits_back n y) ≤ 2))
    → x < suc n
    → x < 10 * m
    → (0 < length (digits_back (suc n) x)) × (length (digits_back (suc n) x) ≤ 3)
unfolding digits_back
digits-step n x m k h w = elim (Bool-cases (x / 10 == 0)) [
  | inl e ↦ rw e (omega arith, omega arith)
  | inr e ↦
      let rest = k (x / 10) (ground arith) (omega (arith, w)) in
      rw e (omega arith, omega (arith, rest))
]

two_digits :
    (n y : ℕ) → y < n → y < 100 → (0 < length (digits_back n y)) × (length (digits_back n y) ≤ 2)
unfolding digits_back
two_digits zero y h w = absurd (omega arith)
two_digits (suc n) y h w = elim (Bool-cases (y / 10 == 0)) [
  | inl e ↦ rw e (omega arith, omega arith)
  | inr e ↦
      let rest = digit-length n (y / 10) (ground arith) (omega (arith, w)) in
      rw e (omega arith, omega (arith, rest))
]

three_digits :
    (x : ℕ) → x < 1000 → (0 < length (digits_back (suc x) x)) × (length (digits_back (suc x) x) ≤ 3)
three_digits x w = digits-step x x 100 (two_digits x) (omega arith) (omega (arith, w))

length-backwards : (xs done : List ℕ) → length (backwards xs done) ≡ length xs + length done
length-backwards [] done = omega arith
length-backwards (x ∷ xs) done = omega (arith, length-backwards xs (x ∷ done))

pub itoa-length : (x : ℕ) → x < 1000 → (0 < length (mdns_itoa x)) × (length (mdns_itoa x) ≤ 3)
unfolding mdns_itoa
itoa-length x w = omega (arith, three_digits x w, length-backwards (digits_back (suc x) x) [])
