-- ===== src/Naming/Shape.antt =====
-- creusot/src/naming.rs: which characters the written names hold, and where their underscores are.
use creusot.Prelude.{
  ℕ, Bool, true, false, ◌&&◌, ◌||◌, [], ◌∷◌, ◌++◌, Option, none, some, ◌≡◌, refl, arith, ◌==◌,
  head?, All, All-append, append_assoc, Bool-cases, inl, inr,
}
use creusot.Prelude.Decimal.{Text, decimal, IsDigit, decimal-IsDigit}
use creusot.Naming.{
  translate_name, push_translate_name, push_translate_loop, translate_char, escape_code, head_is,
  escaped_underscore, is_ascii_alphanumeric, is_ascii_lowercase, to_alphanumeric,
  to_alphanumeric_loop, variable_name,
}
use creusot.Naming.Decode.{emitted, push_translate_loop-emitted}

-- An ASCII letter, digit or underscore.
abbrev pub IsWordChar : ℕ → Type 0
IsWordChar c = (is_ascii_alphanumeric c || c == b'_') ≡ true

-- Nothing follows, or an underscore does.
abbrev pub blocked : Text → Bool
blocked [] = true
blocked (c ∷ s) = c == b'_'

-- Each underscore is followed by a character that is no underscore.
abbrev pub IsSpaced : Text → Type 0
IsSpaced [] = Unit
IsSpaced (c ∷ s) = ((c == b'_' && blocked s) ≡ false) × IsSpaced s

-- A part of a Why3 name that stays apart from its neighbours when they are joined by `__`.
pub record IsFragment (s : Text) : Type 0 where
  pub starts : head_is (λ c. c == b'_') s ≡ false
  pub spaced : IsSpaced s
  pub word : All IsWordChar s

pub digits-IsWordChar : (s : Text) → All IsDigit s → All IsWordChar s
digits-IsWordChar [] h = tt
digits-IsWordChar (c ∷ s) h = (ground arith, digits-IsWordChar s h.1)

pub digits-IsSpaced : (ds s : Text) → All IsDigit ds → IsSpaced s → IsSpaced (ds ++ s)
digits-IsSpaced [] s h k = k
digits-IsSpaced (d ∷ ds) s h k = (ground arith, digits-IsSpaced ds s h.1 k)

pub escape_code-IsWordChar : (c : ℕ) → All IsWordChar (escape_code c)
unfolding escape_code
escape_code-IsWordChar c = (
  refl,
  (
    refl,
    All-append IsWordChar (decimal c) (b'z' ∷ []) (digits-IsWordChar _ (decimal-IsDigit c))
        (refl, tt),
  ),
)

escape_code-IsSpaced : (c : ℕ) (s : Text) → IsSpaced s → IsSpaced (escape_code c ++ s)
unfolding escape_code
escape_code-IsSpaced c s h =
    rw (append_assoc (decimal c) (b'z' ∷ []) s)
      (refl, (refl, digits-IsSpaced (decimal c) (b'z' ∷ s) (decimal-IsDigit c) (refl, h)))

translate_char-IsWordChar : (c : ℕ) (peek : Option ℕ) → All IsWordChar (translate_char c peek)
unfolding translate_char
translate_char-IsWordChar c none = ground (arith, escape_code-IsWordChar c)
translate_char-IsWordChar c (some d) = ground (arith, escape_code-IsWordChar c)

emitted-IsWordChar : (s : Text) → All IsWordChar (emitted s)
unfolding emitted
emitted-IsWordChar [] = tt
emitted-IsWordChar (c ∷ s) =
    All-append IsWordChar (translate_char c (head? s)) (emitted s)
      (translate_char-IsWordChar c (head? s)) (emitted-IsWordChar s)

blocked-emitted : (s : Text) → blocked (emitted s) ≡ true → blocked s ≡ true
unfolding emitted translate_char
blocked-emitted [] h = refl
blocked-emitted (c ∷ s) h = ground arith

translate_char-IsSpaced :
    (c : ℕ) (s t : Text)
    → (blocked t ≡ true → blocked s ≡ true)
    → IsSpaced t
    → IsSpaced (translate_char c (head? s) ++ t)
unfolding translate_char
translate_char-IsSpaced c [] t h k = ground (arith, escape_code-IsSpaced c t k)
translate_char-IsSpaced c (d ∷ s) t h k = ground (arith, escape_code-IsSpaced c t k)

emitted-IsSpaced : (s : Text) → IsSpaced (emitted s)
unfolding emitted
emitted-IsSpaced [] = tt
emitted-IsSpaced (c ∷ s) =
    translate_char-IsSpaced c s (emitted s) (blocked-emitted s) (emitted-IsSpaced s)

emitted_starts :
    (c : ℕ) (s : Text) → (c == b'_') ≡ false → head_is (λ d. d == b'_') (emitted (c ∷ s)) ≡ false
unfolding emitted translate_char
emitted_starts c s h = ground arith

initial-IsFragment : (s : Text) → IsFragment (escaped_underscore ++ emitted s)
initial-IsFragment s = record {
  starts = refl;
  spaced = (refl, (refl, (refl, (refl, (refl, emitted-IsSpaced s)))));
  word = (refl, (refl, (refl, (refl, (refl, emitted-IsWordChar s)))));
}

-- What `translate_name` writes is made of ASCII letters, digits and underscores, does not start or
-- end with an underscore, and has no two underscores in a row.
pub translate_name-IsFragment : (n : Text) → IsFragment (translate_name n)
unfolding translate_name push_translate_name
translate_name-IsFragment [] =
    unfold push_translate_loop in record { starts = refl; spaced = tt; word = tt }
translate_name-IsFragment (c ∷ s) = elim (Bool-cases (c == b'_')) [
  | inl e ↦ rw (e, push_translate_loop-emitted s escaped_underscore) (initial-IsFragment s)
  | inr e ↦
      rw (e, push_translate_loop-emitted (c ∷ s) [])
        (record {
          starts = emitted_starts c s e;
          spaced = emitted-IsSpaced (c ∷ s);
          word = emitted-IsWordChar (c ∷ s);
        })
]

to_alphanumeric_loop-IsWordChar :
    (s dest : Text) → All IsWordChar dest → All IsWordChar (to_alphanumeric_loop s dest)
unfolding to_alphanumeric_loop
to_alphanumeric_loop-IsWordChar [] dest h = h
to_alphanumeric_loop-IsWordChar (c ∷ s) dest h =
    to_alphanumeric_loop-IsWordChar s _ (elim (Bool-cases (is_ascii_alphanumeric c || c == b'_')) [
      | inl e ↦ rw e (All-append IsWordChar dest (c ∷ []) h (e, tt))
      | inr e ↦ rw e (
          All-append IsWordChar ((dest ++ b'_' ∷ []) ++ decimal c) (b'_' ∷ [])
            (All-append IsWordChar (dest ++ b'_' ∷ []) (decimal c)
              (All-append IsWordChar dest (b'_' ∷ []) h (refl, tt))
              (digits-IsWordChar _ (decimal-IsDigit c)))
            (refl, tt))
    ])

-- A variable name is made of ASCII letters, digits and underscores, and starts with a lower case
-- letter or an underscore.
pub variable_name_valid :
    (n : Text)
    → All IsWordChar (variable_name n)
      × (head_is (λ c. is_ascii_lowercase c || c == b'_') (variable_name n) ≡ true)
unfolding variable_name to_alphanumeric
variable_name_valid n =
    let loop = to_alphanumeric_loop n [] in
    let word = to_alphanumeric_loop-IsWordChar n [] tt in
    elim (Bool-cases (head_is (λ c. is_ascii_lowercase c || c == b'_') loop)) [
      | inl e ↦ rw e (word, e)
      | inr e ↦ rw e ((refl, (refl, word)), refl)
    ]
