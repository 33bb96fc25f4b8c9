-- ===== src/Naming.antt =====
-- creusot/src/naming.rs: the names of Why3 items made from Rust names. A Rust string is the list of
-- its code points, and an interned `Symbol` is its text.
pub mod Decode
pub mod Shape
pub mod Path
use creusot.Prelude.{
  ℕ, Bool, true, false, ◌&&◌, ◌||◌, not, List, [], ◌∷◌, ◌++◌, Option, none, some, ◌≡◌, refl, leb,
  ◌==◌, if◌then◌else◌, head?,
}
use creusot.Prelude.Decimal.{Text, codes, decimal}

abbrev pub is_ascii_lowercase : ℕ → Bool
is_ascii_lowercase c = leb b'a' c && leb c b'z'

abbrev pub is_ascii_alphanumeric : ℕ → Bool
is_ascii_alphanumeric c =
    is_ascii_lowercase c || ((leb b'A' c && leb c b'Z') || (leb b'0' c && leb c b'9'))

-- `str::starts_with` on a predicate, and on a prefix of two characters.
abbrev pub head_is : (ℕ → Bool) → Text → Bool
head_is p [] = false
head_is p (c ∷ s) = p c

abbrev pub starts_with_two : ℕ → ℕ → Text → Bool
starts_with_two a b [] = false
starts_with_two a b (c ∷ s) = c == a && head_is (λ d. d == b) s

unfoldable pub value_name : Text → Text
value_name name =
    if head_is is_ascii_lowercase name && not (starts_with_two b'v' b'_' name)
    then name
    else codes "v_" ++ name

unfoldable pub type_name : Text → Text
type_name name =
    if head_is is_ascii_lowercase name && not (starts_with_two b't' b'_' name)
    then name
    else codes "t_" ++ name

-- The loop of `to_alphanumeric` over the characters left, with the text written so far.
to_alphanumeric_loop : Text → Text → Text
to_alphanumeric_loop [] dest = dest
to_alphanumeric_loop (c ∷ chars) dest = to_alphanumeric_loop chars (
    if is_ascii_alphanumeric c || c == b'_'
    then dest ++ c ∷ []
    else (dest ++ b'_' ∷ []) ++ decimal c ++ b'_' ∷ [])

unfoldable pub to_alphanumeric : Text → Text
unfolding to_alphanumeric_loop
to_alphanumeric n = to_alphanumeric_loop n []

unfoldable pub variable_name : Text → Text
unfolding to_alphanumeric
variable_name name =
    let name' = to_alphanumeric name in
    if head_is (λ c. is_ascii_lowercase c || c == b'_') name' then name' else codes "v_" ++ name'

abbrev pub escaped_underscore : Text
escaped_underscore = codes "qy95z"

-- `dest.push_str(&format!("qy{}z", c as u32))`
unfoldable pub escape_code : ℕ → Text
escape_code c = b'q' ∷ b'y' ∷ (decimal c ++ b'z' ∷ [])

-- What one round of `push_translate_name` writes for `c`, where `peek` is the next character.
unfoldable pub translate_char : ℕ → Option ℕ → Text
unfolding escape_code
translate_char c peek =
    let is_qy = c == b'q' && (elim peek [ none ↦ false | some d ↦ d == b'y' ]) in
    if c == b'_'
    then (elim peek [
      | none ↦ escaped_underscore
      | some d ↦ if d == b'_' then escaped_underscore else b'_' ∷ []
    ])
    else if is_ascii_alphanumeric c && not is_qy
    then c ∷ []
    else escape_code c

-- The `while` loop of `push_translate_name`.
pub push_translate_loop : Text → Text → Text
push_translate_loop [] dest = dest
push_translate_loop (c ∷ chars) dest =
    push_translate_loop chars (dest ++ translate_char c (head? chars))

unfoldable pub push_translate_name : Text → Text → Text
unfolding push_translate_loop
push_translate_name [] dest = push_translate_loop [] dest
push_translate_name (c ∷ chars) dest =
    if c == b'_'
    then push_translate_loop chars (dest ++ escaped_underscore)
    else push_translate_loop (c ∷ chars) dest

unfoldable pub translate_name : Text → Text
unfolding push_translate_name
translate_name n = push_translate_name n []

unfoldable pub translate_accessor_name : Text → Text → Text
translate_accessor_name variant field =
    type_name (translate_name variant) ++ codes "__" ++ translate_name field
