-- ===== src/Why3/Scope.antt =====
-- why3/src/printer.rs: `Scope`, which gives each identifier in scope the name that is printed. A map
-- is a function, a set is a list. The undo stack and its frames have the last item pushed first.
pub mod Fresh
pub mod Undo
pub mod Distinct
pub mod Reach
use creusot.Prelude.{
  ℕ, zero, suc, Bool, true, false, List, [], ◌∷◌, ◌++◌, Option, none, some, ◌≡◌, refl, length,
  if◌then◌else◌,
}
use creusot.Prelude.Decimal.{Text, codes, decimal}
use creusot.Prelude.Texts.{contains, remove}
use creusot.Why3.Name.{Ident, ident_eq, to_identifier}

abbrev pub Renaming : Type 0
Renaming = Ident → Option Text

abbrev pub Frame : Type 0
Frame = List (Ident × Option Text)

pub record Scope : Type 0 where
  pub rename : Renaming
  pub bound : List Text
  pub undo : List Frame

-- `HashMap::insert` and `remove`: the value of one key is given anew.
unfoldable pub set : Renaming → Ident → Option Text → Renaming
set rename ident value other = if ident_eq ident other then value else rename other

unfoldable pub new : Scope
new = record { rename = λ _. none; bound = []; undo = [] }

unfoldable pub open_scope : Scope → Scope
open_scope s = record s { undo = [] ∷ s.undo }

-- One round of the loop of `close`; `none` is the panic of `unwrap`.
unfoldable pub undo_one : Ident × Option Text → Renaming × List Text → Option (Renaming × List Text)
undo_one (ident, old) (rename, bound) = elim (rename ident) [
  | none ↦ none
  | some sym ↦ some (set rename ident old, remove bound sym)
]

unfoldable pub undo_all : Frame → Renaming × List Text → Option (Renaming × List Text)
undo_all [] maps = some maps
undo_all (entry ∷ frame) maps = elim (undo_one entry maps) [
  | none ↦ none
  | some maps' ↦ undo_all frame maps'
]

close_with : List Frame → Renaming × List Text → Option Scope
close_with [] maps = none
close_with (frame ∷ undo) maps = elim (undo_all frame maps) [
  | none ↦ none
  | some (rename, bound) ↦ some (record { rename = rename; bound = bound; undo = undo })
]

unfoldable pub close : Scope → Option Scope
unfolding close_with
close s = close_with s.undo (s.rename, s.bound)

-- The symbol that is tried in round `i`.
unfoldable pub candidate : Text → ℕ → Text
candidate name zero = name
candidate name (suc i) = name ++ b'\'' ∷ decimal i

-- The loop of `bind`, with fuel: `sym` is the symbol of round `i`.
unfoldable pub find_symbol : ℕ → List Text → Text → ℕ → Text → Option Text
find_symbol zero bound name i sym = none
find_symbol (suc f) bound name i sym = elim (contains bound sym) [
  | false ↦ some sym
  | true ↦ find_symbol f bound name (suc i) (name ++ b'\'' ∷ decimal i)
]

bind_with : List Frame → Ident → Scope → Option Text → Option Scope
bind_with undo ident s none = none
bind_with [] ident s (some sym) = none
bind_with (frame ∷ undo) ident s (some sym) = some (record {
  rename = set s.rename ident (some sym);
  bound = sym ∷ s.bound;
  undo = ((ident, s.rename ident) ∷ frame) ∷ undo;
})

-- `none` is the panic where no scope was opened. The fuel is above the number of bound symbols.
unfoldable pub bind : Ident → Scope → Option Scope
unfolding bind_with
bind ident s =
    let name = to_identifier ident.name in
    bind_with s.undo ident s (find_symbol (suc (length s.bound)) s.bound name 0 name)

unfoldable pub get : Scope → Ident → Text
get s ident = elim (s.rename ident) [ some sym ↦ sym | none ↦ codes "ERROR_UNBOUND_" ++ ident.name ]
