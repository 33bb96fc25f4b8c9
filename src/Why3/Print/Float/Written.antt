-- ===== src/Why3/Print/Float/Written.antt =====
-- why3/src/printer.rs: the number that the digits of `print_float` stand for.
use creusot.Prelude.{
  ℕ, zero, suc, ◌+◌, ◌-◌, ◌*◌, ◌/◌, ◌%◌, ◌^◌, ◌≤◌, ◌<◌, arith, [], ◌∷◌, ◌++◌, length, length-append,
  ltb, if◌then◌else◌, Bool-cases, inl, inr, ◌≡◌, refl, ap, ◌∙◌,
}
use creusot.Prelude.Decimal.{Text}
use creusot.Why3.Print.Float.{
  hex_digit, hex_width, hex_digits, at_least, padded_hex, without_bit_52, fraction,
}

-- The value of a hexadecimal digit, and of a text of them behind `n`.
unfoldable pub digit_value : ℕ → ℕ
digit_value c = if ltb c b'a' then c - b'0' else (c - b'a') + 10

unfoldable pub hex_value : ℕ → Text → ℕ
hex_value n [] = n
hex_value n (c ∷ s) = hex_value (n * 16 + digit_value c) s

digit_value-hex_digit : (d : ℕ) → d < 16 → digit_value (hex_digit d) ≡ d
unfolding digit_value hex_digit
digit_value-hex_digit d h = ground arith

hex_value-append : (n : ℕ) (s t : Text) → hex_value n (s ++ t) ≡ hex_value (hex_value n s) t
unfolding hex_value
hex_value-append n [] t = refl
hex_value-append n (c ∷ s) t = hex_value-append (n * 16 + digit_value c) s t

hex_value-hex_digits : (k n : ℕ) → n < 16 ^ k → hex_value 0 (hex_digits k n) ≡ n
unfolding hex_digits hex_value
hex_value-hex_digits zero n h = omega (arith, h)
hex_value-hex_digits (suc k) n h =
    hex_value-append 0 (hex_digits k (n / 16)) (hex_digit (n % 16) ∷ [])
    ∙ omega (
      arith,
      hex_value-hex_digits k (n / 16) (omega (arith, h)),
      digit_value-hex_digit (n % 16) (omega arith),
    )

length-hex_digits : (k n : ℕ) → length (hex_digits k n) ≡ k
unfolding hex_digits
length-hex_digits zero n = refl
length-hex_digits (suc k) n =
    length-append (hex_digits k (n / 16)) (hex_digit (n % 16) ∷ [])
    ∙ omega (arith, length-hex_digits k (n / 16))

-- A number below 16 ^ k needs at most k digits, and one that is not needs more.
hex_width-le : (k f n : ℕ) → n < 16 ^ suc k → hex_width f n ≤ suc k
unfolding hex_width
hex_width-le k zero n h = omega arith
hex_width-le zero (suc f) n h = ground arith
hex_width-le (suc k) (suc f) n h = ground (arith, hex_width-le k f (n / 16))

sixteen_pos : (k : ℕ) → 1 ≤ 16 ^ k
sixteen_pos zero = omega arith
sixteen_pos (suc k) = omega (arith, sixteen_pos k)

hex_width-lt : (k f n : ℕ) → k ≤ f → 16 ^ k ≤ n → k < hex_width f n
unfolding hex_width
hex_width-lt zero zero n h g = omega arith
hex_width-lt zero (suc f) n h g = ground arith
hex_width-lt (suc k) zero n h g = absurd (omega (arith, h))
hex_width-lt (suc k) (suc f) n h g = ground (arith, sixteen_pos k, hex_width-lt k f (n / 16))

without_bit_52-mod :
    (mantissa : ℕ) → mantissa < 2 ^ 53 → without_bit_52 mantissa ≡ mantissa % 2 ^ 52
unfolding without_bit_52
without_bit_52-mod mantissa h = omega (arith, h)

-- A width of at least 12, and the 13th digit where the number has one.
padded_hex-width :
    (n : ℕ) → n < 2 ^ 52 → at_least 12 (hex_width 16 n) ≡ (if ltb n (2 ^ 48) then 12 else 13)
padded_hex-width n h = elim (Bool-cases (ltb n (2 ^ 48))) [
  | inl small ↦ ground (arith, hex_width-le 11 16 n)
  | inr large ↦ ground (arith, hex_width-le 12 16 n, hex_width-lt 12 16 n)
]

digits_of_fraction :
    (k n : ℕ) (width : at_least 12 (hex_width 16 n) ≡ k)
    → n < 16 ^ k
    → (hex_value 0 (padded_hex 12 n) ≡ n) × (length (padded_hex 12 n) ≡ k)
unfolding padded_hex
digits_of_fraction k n width h = rw (width) (hex_value-hex_digits k n h, length-hex_digits k n)

scaled_digits :
    (n : ℕ)
    → n < 2 ^ 52
    → hex_value 0 (padded_hex 12 n) * 2 ^ 52
      ≡ (if ltb n (2 ^ 48) then 16 else 1) * n * 16 ^ length (padded_hex 12 n)
scaled_digits n h = elim (Bool-cases (ltb n (2 ^ 48))) [
  | inl small ↦
      let width = padded_hex-width n h ∙ ap (λ b. if b then 12 else 13) small in
      let (v, l) = digits_of_fraction 12 n width (ground arith) in rw (small, v, l) (omega arith)
  | inr large ↦
      let width = padded_hex-width n h ∙ ap (λ b. if b then 12 else 13) large in
      let (v, l) = digits_of_fraction 13 n width (omega (arith, h)) in
      rw (large, v, l) (omega arith)
]

-- For every mantissa below 2 ^ 53, of a normal number or a subnormal one: the digits behind the point, read
-- as a hexadecimal fraction, are the bits of the mantissa below the bit of 2 ^ 52, over 2 ^ 52, when
-- these are at least a sixteenth; below it they stand for sixteen times that fraction, as one digit is
-- missing. The bit of 2 ^ 52 is not in the digits, of a subnormal number either.
pub fraction-mantissa :
    (mantissa : ℕ)
    → mantissa < 2 ^ 53
    → hex_value 0 (fraction mantissa) * 2 ^ 52
      ≡ (if ltb (mantissa % 2 ^ 52) (2 ^ 48) then 16 else 1)
        * (mantissa % 2 ^ 52)
        * 16 ^ length (fraction mantissa)
unfolding fraction
fraction-mantissa mantissa h =
    rw (without_bit_52-mod mantissa h) (scaled_digits (mantissa % 2 ^ 52) (omega arith))
