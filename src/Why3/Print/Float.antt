-- ===== src/Why3/Print/Float.antt =====
-- why3/src/printer.rs: `print_float`, the literal of a number. What it asks of the number (`num::Float` and
-- the standard library) is a parameter, `Floats`, of the number's bits.
pub mod Written
use creusot.Prelude.{
  ℕ, zero, suc, ◌+◌, ◌-◌, ◌*◌, ◌/◌, ◌%◌, ◌^◌, Bool, true, false, ◌&&◌, List, [], ◌∷◌, ◌++◌, ltb,
  ◌==◌, if◌then◌else◌,
}
use creusot.Prelude.Decimal.{Text, codes, decimal}
use creusot.Why3.Types.{ℤ, pos, negsuc}

pub record Floats : Type 0 where
  pub mantissa : ℕ → ℕ
  pub exponent : ℕ → ℤ
  pub is_subnormal : ℕ → Bool
  pub is_whole : ℕ → Bool
  pub is_negative : ℕ → Bool
  pub is_zero : ℕ → Bool
  pub shown : ℕ → Text

unfoldable pub hex_digit : ℕ → ℕ
hex_digit d = if ltb d 10 then b'0' + d else b'a' + (d - 10)

-- The digits that a number needs, the fuel at least that many.
unfoldable pub hex_width : ℕ → ℕ → ℕ
hex_width zero n = 1
hex_width (suc f) n = let rest = hex_width f (n / 16) in if ltb n 16 then 1 else suc rest

-- The last digits of a number.
unfoldable pub hex_digits : ℕ → ℕ → Text
hex_digits zero n = []
hex_digits (suc k) n = hex_digits k (n / 16) ++ hex_digit (n % 16) ∷ []

abbrev pub at_least : ℕ → ℕ → ℕ
at_least least n = if ltb n least then least else n

-- `format!("{:0wx}", n)` of a `u64`, with the width written out.
unfoldable pub padded_hex : ℕ → ℕ → Text
padded_hex width n = hex_digits (at_least width (hex_width 16 n)) n

-- `mantissa & !(1 << 52)`
unfoldable pub without_bit_52 : ℕ → ℕ
without_bit_52 mantissa = mantissa - (mantissa / 2 ^ 52 % 2) * 2 ^ 52

-- `format!("{}", n)` of an integer.
unfoldable pub decimal_integer : ℤ → Text
decimal_integer (pos n) = decimal n
decimal_integer (negsuc n) = codes "-" ++ decimal (suc n)

unfoldable pub plus_52 : ℤ → ℤ
plus_52 (pos n) = pos (n + 52)
plus_52 (negsuc n) = if ltb n 52 then pos (51 - n) else negsuc (n - 52)

-- The digits behind the point.
unfoldable pub fraction : ℕ → Text
fraction mantissa = padded_hex 12 (without_bit_52 mantissa)

unfoldable pub print_float : Floats → ℕ → Text
print_float F f =
    if F.is_whole f
    then (if F.is_negative f && F.is_zero f then codes "-" else []) ++ F.shown f ++ codes ".0"
    else (if F.is_negative f then codes "-" else [])
      ++ codes "0x"
      ++ (if F.is_subnormal f then codes "0" else codes "1")
      ++ codes "."
      ++ fraction (F.mantissa f)
      ++ codes "p"
      ++ decimal_integer (plus_52 (F.exponent f))
