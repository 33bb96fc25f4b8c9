-- ===== src/Why3/Name/Laws.antt =====
-- why3/src/name.rs: fresh identifiers differ from all earlier ones; no identifier is a keyword.
use mathlib.Core.List.{append_cancel_right}
use creusot.Prelude.{
  ℕ, suc, zero, ◌+◌, ◌^◌, ◌<◌, ◌≤◌, Bool, true, false, List, [], ◌∷◌, ◌++◌, ◌≡◌, ◌≢◌, ◌↔◌, refl, ap,
  arith, ◌==◌, if◌then◌else◌, Bool-cases, inl, inr, ==_iff,
}
use creusot.Prelude.Decimal.{Text, codes}
use creusot.Prelude.Texts.{text_eq_iff, contains}
use creusot.Why3.Name.{to_identifier, is_reserved, reserved_str, Ident, ident_eq, fresh_u64}

pub ident_eq_iff : (a b : Ident) → (ident_eq a b ≡ true) ↔ (a ≡ b)
unfolding ident_eq
ident_eq_iff a b =
    ground (arith, text_eq_iff a.name b.name, text_eq_iff a.src b.src, ==_iff a.id b.id)

-- A text holds a character.
unfoldable pub has_char : ℕ → Text → Bool
has_char c [] = false
has_char c (d ∷ s) = elim (d == c) [ true ↦ true | false ↦ has_char c s ]

pub has_char-append :
    (c : ℕ) (s t : Text) → has_char c (s ++ t) ≡ (if has_char c s then true else has_char c t)
unfolding has_char
has_char-append c [] t = refl
has_char-append c (d ∷ s) t = ground (arith, has_char-append c s t)

none_has : ℕ → List Text → Bool
none_has c [] = true
none_has c (s ∷ ss) = if has_char c s then false else none_has c ss

contains-none_has :
    (c : ℕ) (ts : List Text) (s : Text)
    → none_has c ts ≡ true
    → contains ts s ≡ true
    → has_char c s ≡ false
unfolding contains none_has
contains-none_has c [] s h k = cc
contains-none_has c (t ∷ ts) s h k = ground (arith, text_eq_iff t s, contains-none_has c ts s)

-- No keyword holds a quote, so a name that holds one is no keyword.
pub is_reserved_of_quote : (s : Text) → has_char b'\'' s ≡ true → is_reserved s ≡ false
unfolding is_reserved
is_reserved_of_quote s h = elim (Bool-cases (contains reserved_str s)) [
  | inl e ↦ cc (contains-none_has b'\'' reserved_str s keywords e)
  | inr e ↦ e
]
  where
    keywords : none_has b'\'' reserved_str ≡ true
    keywords = unfold none_has has_char reserved_str in refl

has_quote-append : (s : Text) → has_char b'\'' (s ++ codes "'") ≡ true
has_quote-append s = rw (has_char-append b'\'' s (codes "'")) (unfold has_char in ground arith)

-- What `to_identifier` returns is never a keyword.
pub to_identifier_lem : (n : Text) → is_reserved (to_identifier n) ≡ false
unfolding to_identifier
to_identifier_lem n = elim (Bool-cases (is_reserved n)) [
  | inl e ↦ rw e (is_reserved_of_quote (n ++ codes "'") (has_quote-append n))
  | inr e ↦ rw e e
]

-- On names that hold no quote: `to_identifier` never returns a keyword, returns a name unchanged exactly
-- if it is no keyword, and returns one name for two exactly if they are one.
pub to_identifier_cases :
    (m n : Text)
    → has_char b'\'' m ≡ false
    → has_char b'\'' n ≡ false
    → (is_reserved (to_identifier m) ≡ false)
      × ((to_identifier m ≡ m) ↔ (is_reserved m ≡ false))
      × ((to_identifier m ≡ to_identifier n) ↔ (m ≡ n))
unfolding to_identifier
to_identifier_cases m n hm hn = (
  to_identifier_lem m,
  ground (arith, has_quote-append m),
  (
    λ e.
        ground (arith, has_quote-append m, has_quote-append n, append_cancel_right m n (codes "'")),
    λ e. ap to_identifier e,
  ),
)

-- The counter before call number `n`, from the counter before the first.
unfoldable pub counter_at : ℕ → ℕ → ℕ
counter_at zero counter = counter
counter_at (suc n) counter = counter_at n (fresh_u64 counter).1

counter_at-add : (n counter : ℕ) → counter + n < 2 ^ 64 → counter_at n counter ≡ counter + n
unfolding counter_at fresh_u64
counter_at-add zero counter h = omega arith
counter_at-add (suc n) counter h = ground (arith, counter_at-add n (counter + 1))

-- From a counter of at least one, and until it reaches its last value, two calls return different
-- numbers, and the earlier one is at least one.
pub fresh_u64-ne :
    (counter i j : ℕ)
    → 1 ≤ counter
    → counter + j < 2 ^ 64
    → i < j
    → ((fresh_u64 (counter_at i counter)).0 ≢ (fresh_u64 (counter_at j counter)).0)
      × (1 ≤ (fresh_u64 (counter_at i counter)).0)
unfolding fresh_u64
fresh_u64-ne counter i j h k l =
    omega (arith, counter_at-add i counter (omega arith), counter_at-add j counter k)
