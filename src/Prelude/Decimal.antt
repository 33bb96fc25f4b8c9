-- ===== src/Prelude/Decimal.antt =====
-- Texts as lists of code points, and the decimal print of an unsigned number, which is what
-- Rust's `format!("{}", n)` writes.
use Prim.Native.Nat.{ℕ, zero, suc, ◌+◌, ◌-◌, ◌*◌, ◌/◌, ◌%◌, ◌≤◌, ◌<◌}
use Prim.Native.Char.{code}
use Prim.Native.String.{String}
use mathlib.Core.Path.{◌≡◌, refl, ◌∙◌}
use mathlib.Core.Logic.{inl, inr}
use mathlib.Core.List.{List, [], ◌∷◌, ◌++◌}
use native.Mathlib.Omega.{arith}
use creusot.Prelude.Tests.{ltb, if◌then◌else◌, Bool-cases}
use creusot.Prelude.Lists.{All, All-append}

abbrev pub Text : Type 0
Text = List ℕ

-- The code points of a literal.
abbrev pub codes : String → Text
codes String.[] = []
codes (String.◌∷◌ c s) = code c ∷ codes s

abbrev pub IsDigit : ℕ → Type 0
IsDigit c = (b'0' ≤ c) × (c ≤ b'9')

-- One digit for each division by ten; the fuel is above the number.
print_digits : ℕ → ℕ → Text
print_digits zero n = []
print_digits (suc f) n =
    let front = print_digits f (n / 10) in
    if ltb n 10 then (b'0' + n) ∷ [] else front ++ (b'0' + n % 10) ∷ []

unfoldable pub decimal : ℕ → Text
unfolding print_digits
decimal n = print_digits (suc n) n

-- The number that digits spell behind `n`.
abbrev pub value : ℕ → Text → ℕ
value n [] = n
value n (c ∷ s) = value (n * 10 + (c - b'0')) s

value-append : (n : ℕ) (s t : Text) → value n (s ++ t) ≡ value (value n s) t
value-append n [] t = refl
value-append n (c ∷ s) t = value-append (n * 10 + (c - b'0')) s t

value-print_digits : (f n : ℕ) → n < f → value 0 (print_digits f n) ≡ n
unfolding print_digits
value-print_digits zero n h = absurd (omega arith)
value-print_digits (suc f) n h = elim (Bool-cases (ltb n 10)) [
  | inl small ↦ rw small (omega arith)
  | inr large ↦ rw large (
      value-append 0 (print_digits f (n / 10)) ((b'0' + n % 10) ∷ [])
      ∙ ground (arith, value-print_digits f (n / 10)))
]

print_digits-IsDigit : (f n : ℕ) → All IsDigit (print_digits f n)
unfolding print_digits
print_digits-IsDigit zero n = tt
print_digits-IsDigit (suc f) n = elim (Bool-cases (ltb n 10)) [
  | inl small ↦ rw small (ground arith)
  | inr large ↦ rw large (
      All-append IsDigit (print_digits f (n / 10)) _ (print_digits-IsDigit f (n / 10))
        (omega arith))
]

pub value-decimal : (n : ℕ) → value 0 (decimal n) ≡ n
unfolding decimal
value-decimal n = value-print_digits (suc n) n (omega arith)

pub decimal-IsDigit : (n : ℕ) → All IsDigit (decimal n)
unfolding decimal
decimal-IsDigit n = print_digits-IsDigit (suc n) n

pub decimal-injective : (m n : ℕ) → decimal m ≡ decimal n → m ≡ n
decimal-injective m n e = cc (value-decimal m, value-decimal n)
