-- ===== src/Why3/Name/Qualified.antt =====
-- why3/src/name.rs: the functions of `QName`. Whether a character is lower case is an answer of the
-- Unicode tables, and so a parameter.
pub mod RoundTrip
use mathlib.Core.List.{reverse}
use creusot.Prelude.{
  ℕ, Bool, true, false, ◌&&◌, not, List, [], ◌∷◌, ◌++◌, Option, none, some, ◌≡◌, refl, ◌==◌,
  if◌then◌else◌,
}
use creusot.Prelude.Decimal.{Text, codes}
use creusot.Prelude.Texts.{text_eq}
use creusot.Why3.Name.{QName}

abbrev pub is_empty {ℓ} : {A : Type ℓ} → List A → Bool
is_empty [] = true
is_empty (x ∷ xs) = false

unfoldable pub is_ident : QName → Text → Bool
is_ident q ident = is_empty q.module_path && text_eq q.name ident

-- `none` stands for the failed assertion.
unfoldable pub as_ident : QName → Option Text
as_ident q = if is_empty q.module_path then some q.name else none

starts_lowercase : (ℕ → Bool) → Text → Bool
starts_lowercase is_lowercase [] = false
starts_lowercase is_lowercase (c ∷ s) = is_lowercase c

-- `skip_while`
skip_lowercase : (ℕ → Bool) → List Text → List Text
skip_lowercase is_lowercase [] = []
skip_lowercase is_lowercase (m ∷ ms) =
    if starts_lowercase is_lowercase m then skip_lowercase is_lowercase ms else m ∷ ms

unfoldable pub without_search_path : (ℕ → Bool) → QName → QName
unfolding skip_lowercase starts_lowercase
without_search_path is_lowercase q = record q {
  module_path = skip_lowercase is_lowercase q.module_path;
}

-- The loop of `to_string` over the modules.
to_string_loop : List Text → Text → Text
to_string_loop [] s = s
to_string_loop (m ∷ ms) s = to_string_loop ms ((s ++ m) ++ b'.' ∷ [])

unfoldable pub to_string : QName → Text
unfolding to_string_loop
to_string q = to_string_loop q.module_path [] ++ q.name

-- `str::split('.')`
cons_head : ℕ → List Text → List Text
cons_head c [] = (c ∷ []) ∷ []
cons_head c (p ∷ ps) = (c ∷ p) ∷ ps

unfoldable pub split_dots : Text → List Text
unfolding cons_head
split_dots [] = [] ∷ []
split_dots (c ∷ s) = let rest = split_dots s in if c == b'.' then [] ∷ rest else cons_head c rest

-- The loop of `parse`, from the right: the characters left, those behind, and `in_paren`.
parse_loop : Text → Text → Bool → QName
parse_loop [] behind in_paren = record { module_path = []; name = behind }
parse_loop (c ∷ left) behind in_paren =
    let rest =
      parse_loop left (c ∷ behind)
        (if c == b')' then true else if c == b'(' then false else in_paren) in
    if c == b'.' && not in_paren
    then record { module_path = split_dots (reverse left); name = behind }
    else rest

unfoldable pub parse : Text → QName
unfolding parse_loop
parse s = parse_loop (reverse s) [] false

unfoldable pub unqual : Text → QName
unqual s = record { module_path = []; name = s }

split_last : Text → List Text → List Text × Text
split_last s [] = ([], s)
split_last s (t ∷ ts) = (s ∷ (split_last t ts).0, (split_last t ts).1)

-- `From<T> for QName`; `none` stands for the panic at an empty name.
unfoldable pub from_symbols : List Text → Option QName
unfolding split_last
from_symbols [] = none
from_symbols (s ∷ ss) =
    some (record { module_path = (split_last s ss).0; name = (split_last s ss).1 })
