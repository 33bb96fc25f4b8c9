-- ===== src/Why3/Print.antt =====
-- why3/src/printer.rs: the three scopes of the printer, and how printing passes them along. The crate
-- `pretty` is a parameter, `Docs`: the documents and what the printers build them with.
pub mod Bound
pub mod Terms
pub mod Coma
pub mod Decls
pub mod Float
use Prim.Native.String.{String}
use creusot.Prelude.{ℕ, Bool, true, false, List, [], ◌∷◌, ◌++◌, Option, none, some}
use creusot.Prelude.Decimal.{Text, codes}
use creusot.Why3.Name.{Ident}
use creusot.Why3.Types.{ℤ}
use creusot.Why3.Print.Float.{Floats}
use creusot.Why3.Scope
use creusot.Why3.Scope.{Scope, open_scope, close, bind, get}

-- `double_quotes`, `parens` and so on enclose a document; `quoted` is the text that `{:?}` writes of a
-- string, and `floats` what `print_float` asks of the bits of a number.
-- `partition_point` is the slice's method, given what the predicate says of each item.
pub record Docs : Type 1 where
  pub Doc : Type 0
  pub nil : Doc
  pub line : Doc
  pub line_or_nil : Doc
  pub hardline : Doc
  pub space : Doc
  pub text : Text → Doc
  pub number : ℕ → Doc
  pub integer : ℤ → Doc
  pub append : Doc → Doc → Doc
  pub concat : List Doc → Doc
  pub intersperse : List Doc → Doc → Doc
  pub group : Doc → Doc
  pub align : Doc → Doc
  pub parens : Doc → Doc
  pub braces : Doc → Doc
  pub brackets : Doc → Doc
  pub double_quotes : Doc → Doc
  pub nest : ℕ → Doc → Doc
  pub indent : ℕ → Doc → Doc
  pub enclose : Doc → Doc → Doc → Doc
  pub is_nil : Doc → Bool
  pub quoted : Text → Text
  pub floats : Floats
  pub partition_point : List Bool → ℕ

pub record Why3Scope : Type 0 where
  pub value_scope : Scope
  pub type_scope : Scope
  pub span_scope : Scope

unfoldable pub new : Why3Scope
new = record { value_scope = Scope.new; type_scope = Scope.new; span_scope = Scope.new }

-- What prints changes the scopes, and can panic.
abbrev pub M : Type 0 → Type 0
M A = Why3Scope → Option (A × Why3Scope)

abbrev pub ret : {A : Type 0} → A → M A
ret a s = some (a, s)

infixl 5 ◌>>=◌ ◌>>◌
abbrev pub ◌>>=◌ : {A B : Type 0} → M A → (A → M B) → M B
◌>>=◌ m f s = elim (m s) [ none ↦ none | some next ↦ f next.0 next.1 ]

abbrev pub ◌>>◌ : {B : Type 0} → M (Unit {0}) → M B → M B
m >> k = m >>= λ _. k

-- A panic of the printer.
abbrev pub panic : {A : Type 0} → M A
panic s = none

-- What may be a panic.
abbrev pub result : {A : Type 0} → Option A → M A
result none = panic
result (some a) = ret a

unfoldable pub open_scopes : M (Unit {0})
open_scopes s = some (
  tt,
  record {
    value_scope = open_scope s.value_scope;
    type_scope = open_scope s.type_scope;
    span_scope = open_scope s.span_scope;
  },
)

unfoldable pub close_scopes : M (Unit {0})
close_scopes s = elim (close s.value_scope) [
  | none ↦ none
  | some v ↦ elim (close s.type_scope) [
    | none ↦ none
    | some t ↦ elim (close s.span_scope) [
      | none ↦ none
      | some p ↦ some (tt, record { value_scope = v; type_scope = t; span_scope = p })
    ]
  ]
]

unfoldable pub bind_value : Ident → M (Unit {0})
bind_value ident s = elim (bind ident s.value_scope) [
  | none ↦ none
  | some v ↦ some (tt, record s { value_scope = v })
]

unfoldable pub bind_type : Ident → M (Unit {0})
bind_type ident s = elim (bind ident s.type_scope) [
  | none ↦ none
  | some t ↦ some (tt, record s { type_scope = t })
]

unfoldable pub bind_span : Ident → M (Unit {0})
bind_span ident s = elim (bind ident s.span_scope) [
  | none ↦ none
  | some p ↦ some (tt, record s { span_scope = p })
]

unfoldable pub get_value : Ident → M Text
get_value ident s = some (get s.value_scope ident, s)

unfoldable pub get_type : Ident → M Text
get_type ident s = some (get s.type_scope ident, s)

unfoldable pub get_span : Ident → M Text
get_span ident s = some (get s.span_scope ident, s)

-- `scope.open(); let doc = m; scope.close(); doc`
unfoldable pub scoped : {A : Type 0} → M A → M A
unfolding open_scopes close_scopes
scoped m = do open_scopes; doc ← m; close_scopes; ret doc

-- The part of a document that does not depend on the scopes, and what comes of one that does.
unfoldable pub mapped : {A B : Type 0} → (A → B) → M A → M B
mapped f m = do a ← m; ret (f a)

-- Each item in turn, as an iterator over them makes the documents.
unfoldable pub each : {A B : Type 0} → (A → M B) → List A → M (List B)
each f [] = ret []
each f (x ∷ xs) = do y ← f x; ys ← each f xs; ret (y ∷ ys)

module _ (D : Docs) where
  open D use {Doc}

  abbrev pub lit : String → M Doc
  lit t = ret (D.text (codes t))

  chained : Doc → List (M Doc) → M Doc
  chained d [] = ret d
  chained d (m ∷ ms) = do e ← m; chained (D.append d e) ms

  -- `a.append(b).append(c)` and `docs![alloc, a, b, c]`: each is printed in turn.
  unfoldable pub docs : List (M Doc) → M Doc
  unfolding chained
  docs [] = ret D.nil
  docs (m ∷ ms) = do d ← m; chained d ms

  unfoldable pub pretty_value_name : Ident → M Doc
  pretty_value_name ident = mapped D.text (get_value ident)

  unfoldable pub pretty_type_name : Ident → M Doc
  pretty_type_name ident = mapped D.text (get_type ident)

  unfoldable pub pretty_span_name : Ident → M Doc
  pretty_span_name ident = mapped D.text (get_span ident)

  -- `alloc.intersperse(items.iter().map(f), separator)`
  unfoldable pub interspersed : {A : Type 0} → (A → M Doc) → List A → Doc → M Doc
  interspersed f items separator = mapped (λ ds. D.intersperse ds separator) (each f items)
