-- ===== src/Naming/Decode.antt =====
-- creusot/src/naming.rs: a reader of the names that `translate_name` and `value_name` write, by the
-- comments of the source: `qy123z` stands for the code point 123, and a prefix `v_` is stripped.
use creusot.Prelude.{
  ℕ, ◌+◌, ◌-◌, ◌*◌, false, ◌&&◌, [], ◌∷◌, ◌++◌, Option, none, some, ◌≡◌, refl, sym, ap, ◌∙◌, arith,
  ◌==◌, if◌then◌else◌, head?, All, append_assoc, append-nil, Option-cases, inl, inr, Bool-cases,
  ==_iff,
}
use creusot.Prelude.Decimal.{Text, decimal, value, IsDigit, value-decimal, decimal-IsDigit}
use creusot.Naming.{
  translate_name, push_translate_name, push_translate_loop, translate_char, escape_code,
  escaped_underscore, value_name, type_name,
}

-- Reading plain characters, the `y` of an escape, or the digits of an escape.
pub data Mode : Type 0 where
  plain after_q : Mode
  number : ℕ → Mode

unfoldable pub decode_step : Mode → ℕ → Option ℕ → Mode × Text
decode_step plain c peek =
    if c == b'q' && (elim peek [ none ↦ false | some d ↦ d == b'y' ])
    then (after_q, [])
    else (plain, c ∷ [])
decode_step after_q c peek = (number 0, [])
decode_step (number k) c peek =
    if c == b'z' then (plain, k ∷ []) else (number (k * 10 + (c - b'0')), [])

unfoldable pub decode_from : Mode → Text → Text
decode_from m [] = []
decode_from m (c ∷ s) = let next = decode_step m c (head? s) in next.1 ++ decode_from next.0 s

unfoldable pub decode : Text → Text
unfolding decode_from decode_step
decode s = decode_from plain s

-- What the loop writes, with no accumulator.
unfoldable pub emitted : Text → Text
emitted [] = []
emitted (c ∷ s) = translate_char c (head? s) ++ emitted s

pub push_translate_loop-emitted : (s dest : Text) → push_translate_loop s dest ≡ dest ++ emitted s
unfolding push_translate_loop emitted
push_translate_loop-emitted [] dest = sym (append-nil dest)
push_translate_loop-emitted (c ∷ s) dest = simp (push_translate_loop-emitted s, append_assoc)

-- Digits and `z` behind `qy` read as one code point.
decode-number :
    (k : ℕ) (ds rest : Text)
    → All IsDigit ds
    → decode_from (number k) (ds ++ b'z' ∷ rest) ≡ value k ds ∷ decode_from plain rest
unfolding decode_from decode_step
decode-number k [] rest h = refl
decode-number k (d ∷ ds) rest h = ground (arith, decode-number (k * 10 + (d - b'0')) ds rest)

decode-escape_code :
    (c : ℕ) (rest : Text) → decode_from plain (escape_code c ++ rest) ≡ c ∷ decode_from plain rest
unfolding escape_code
decode-escape_code c rest = rw (append_assoc (decimal c) (b'z' ∷ []) rest) (
    unfold decode_from decode_step in
    (decode-number 0 (decimal c) rest (decimal-IsDigit c)
      ∙ ap (λ n. n ∷ decode_from plain rest) (value-decimal c)))

-- A `y` at the head of the written text was a `y` of the source.
head-emitted : (s : Text) → head? (emitted s) ≡ some b'y' → head? s ≡ some b'y'
unfolding emitted translate_char
head-emitted [] h = h
head-emitted (c ∷ s) h = ground arith

decode-translate_char :
    (c : ℕ) (peek : Option ℕ) (rest : Text)
    → (head? rest ≡ some b'y' → peek ≡ some b'y')
    → decode_from plain (translate_char c peek ++ rest) ≡ c ∷ decode_from plain rest
unfolding translate_char decode_from decode_step
decode-translate_char c none rest h =
    ground (arith, decode-escape_code c rest, Option-cases (head? rest))
decode-translate_char c (some d) rest h =
    ground (arith, decode-escape_code c rest, Option-cases (head? rest))

decode-emitted : (s : Text) → decode_from plain (emitted s) ≡ s
unfolding emitted
decode-emitted [] = unfold decode_from in refl
decode-emitted (c ∷ s) =
    decode-translate_char c (head? s) (emitted s) (head-emitted s)
    ∙ ap (λ r. c ∷ r) (decode-emitted s)

decode-initial : (s : Text) → decode_from plain (escaped_underscore ++ emitted s) ≡ b'_' ∷ s
unfolding decode_from decode_step
decode-initial s = ap (λ r. b'_' ∷ r) (decode-emitted s)

-- Reading the fragment that `translate_name` writes gives the Rust name back, whatever its
-- characters are.
pub decode-translate_name : (n : Text) → decode (translate_name n) ≡ n
unfolding translate_name decode push_translate_name
decode-translate_name [] = refl
decode-translate_name (c ∷ s) = elim (Bool-cases (c == b'_')) [
  | inl e ↦
      rw (e, push_translate_loop-emitted s escaped_underscore)
        (decode-initial s ∙ ap (λ d. d ∷ s) (sym ((==_iff c b'_').0 e)))
  | inr e ↦ rw (e, push_translate_loop-emitted (c ∷ s) []) (decode-emitted (c ∷ s))
]

pub translate_name-injective : (m n : Text) → translate_name m ≡ translate_name n → m ≡ n
translate_name-injective m n e =
    sym (decode-translate_name m) ∙ ap decode e ∙ decode-translate_name n

-- Strips the prefix that `value_name` or `type_name` inserts, with the letter `v` or `t`.
pub strip_prefix : ℕ → Text → Text
strip_prefix letter [] = []
strip_prefix letter (c ∷ []) = c ∷ []
strip_prefix letter (c ∷ d ∷ s) = if c == letter && d == b'_' then s else c ∷ d ∷ s

-- The comment of `value_name`: if the name starts with `v_`, just strip it. So for `type_name` and
-- `t_`.
pub strip_prefix-value_name :
    (n : Text) → (strip_prefix b'v' (value_name n) ≡ n) × (strip_prefix b't' (type_name n) ≡ n)
unfolding strip_prefix value_name type_name
strip_prefix-value_name [] = ground arith
strip_prefix-value_name (c ∷ []) = ground arith
strip_prefix-value_name (c ∷ d ∷ s) = ground arith

pub translate_name-nil : translate_name [] ≡ []
unfolding translate_name push_translate_name
translate_name-nil = refl
