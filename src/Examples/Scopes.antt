-- ===== src/Examples/Scopes.antt =====
-- why3/src/printer.rs: a scope with two binders of one name.
use creusot.Prelude.{false, List, [], ◌∷◌, none, some, ◌≡◌, ◌≢◌, refl}
use creusot.Prelude.Decimal.{Text, codes, decimal}
use creusot.Prelude.Texts.{contains, text_eq}
use creusot.Why3.Name.{Ident, to_identifier, is_reserved, reserved_str, ident_eq}
use creusot.Why3.Scope.{Scope, new, open_scope, close, bind, get, set, find_symbol}
use creusot.Why3.Scope.Fresh.{find_symbol_lem}
use creusot.Why3.Scope.Undo.{bind_all, close-bind_all-open_scope}
use creusot.Why3.Scope.Reach.{Op, open_op, bind_op, run, get-ne, run_progress}

abbrev x1 : Ident
x1 = record { name = codes "to"; src = []; id = 1 }

abbrev x2 : Ident
x2 = record { name = codes "to"; src = []; id = 2 }

abbrev ops : List Op
ops = open_op ∷ bind_op x1 ∷ bind_op x2 ∷ []

abbrev two_names : Scope
two_names = record {
  rename = set (set (λ _. none) x1 (some (codes "to'"))) x2 (some (codes "to''0"));
  bound = codes "to''0" ∷ codes "to'" ∷ [];
  undo = ((x2, none) ∷ (x1, none) ∷ []) ∷ [];
}

two_names_reached : run ops new ≡ some two_names
unfolding run new open_scope bind find_symbol to_identifier is_reserved reserved_str contains
    text_eq decimal set ident_eq
two_names_reached = refl

x1-ne : two_names.rename x1 ≢ none
unfolding set ident_eq text_eq
x1-ne e = cc e

x2-ne : two_names.rename x2 ≢ none
unfolding set ident_eq text_eq
x2-ne e = cc e

get-ne_example : (get two_names x1 ≢ get two_names x2) × (is_reserved (get two_names x1) ≡ false)
get-ne_example = get-ne ops two_names x1 x2 two_names_reached x1-ne x2-ne (λ e. cc e)

run_progress_example :
    ((t : Scope) × (bind x1 two_names ≡ some t)) × ((t : Scope) × (close two_names ≡ some t))
run_progress_example = run_progress ops two_names x1 two_names_reached (λ e. cc e)

find_symbol_lem_example :
    (found : Text) × (find_symbol 2
        (codes "f" ∷ [])
        (to_identifier (codes "f"))
        0
        (to_identifier (codes "f"))
      ≡ some found)
    × (contains (codes "f" ∷ []) found ≡ false)
    × (is_reserved found ≡ false)
find_symbol_lem_example = find_symbol_lem (codes "f" ∷ []) (codes "f")

close-bind_all-open_scope_example :
    (t : Scope) × (bind_all (x1 ∷ x1 ∷ []) (open_scope two_names) ≡ some t)
    × (close t ≡ some two_names)
close-bind_all-open_scope_example = close-bind_all-open_scope (x1 ∷ x1 ∷ []) two_names
