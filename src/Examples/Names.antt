-- ===== src/Examples/Names.antt =====
-- why3/src/name.rs: concrete names.
use creusot.Prelude.{false, [], ◌∷◌, ◌≡◌, ◌≢◌, ◌≤◌, ◌↔◌, refl, arith}
use creusot.Prelude.Decimal.{codes}
use creusot.Prelude.Texts.{contains, text_eq}
use creusot.Why3.Name.{QName, to_identifier, is_reserved, reserved_str, fresh_u64}
use creusot.Why3.Name.Laws.{has_char, to_identifier_cases, counter_at, fresh_u64-ne}
use creusot.Why3.Name.Qualified.{parse, to_string, split_dots}
use creusot.Why3.Name.Qualified.RoundTrip.{parse-to_string, IsQName, operator}

to_identifier_runs : to_identifier (codes "let") ≡ codes "let'"
unfolding to_identifier is_reserved reserved_str contains text_eq
to_identifier_runs = refl

parse_runs :
    parse (codes "set.Set.(.[])")
    ≡ record { module_path = codes "set" ∷ codes "Set" ∷ []; name = codes "(.[])" }
unfolding parse split_dots
parse_runs = refl

to_identifier_cases_example :
    (is_reserved (to_identifier (codes "let")) ≡ false)
    × ((to_identifier (codes "let") ≡ codes "let") ↔ (is_reserved (codes "let") ≡ false))
    × ((to_identifier (codes "let") ≡ to_identifier (codes "x")) ↔ (codes "let" ≡ codes "x"))
unfolding has_char
to_identifier_cases_example = to_identifier_cases (codes "let") (codes "x") refl refl

fresh_u64-ne_example :
    ((fresh_u64 (counter_at 1 5)).0 ≢ (fresh_u64 (counter_at 3 5)).0)
    × (1 ≤ (fresh_u64 (counter_at 1 5)).0)
fresh_u64-ne_example = fresh_u64-ne 5 1 3 (omega arith) (omega arith) (omega arith)

abbrev set_get : QName
set_get = record { module_path = codes "set" ∷ codes "Set" ∷ []; name = codes "(.[])" }

set_get_name : IsQName (codes "(.[])")
set_get_name = operator (codes ".[]") (omega arith) refl

parse-to_string_example : parse (to_string set_get) ≡ set_get
parse-to_string_example = parse-to_string set_get set_get_name (omega arith)
