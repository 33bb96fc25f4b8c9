-- ===== src/Why3/Print/Decls/Declared.antt =====
-- why3/src/declaration.rs: the names that declarations declare, and the declarations whose expressions can
-- be printed.
use creusot.Prelude.{List, [], ◌∷◌, ◌++◌, map, Option, none, some, All}
use creusot.Why3.Exp.{Exp}
use creusot.Why3.Coma.{Defn}
use creusot.Why3.Declaration.{
  Contract, AdtDecl, Decl, adt, alias_of, opaque_type, logic_decl, logic_defn, ty_decl, pred_decl,
  use_decls, axiom_decl, goal_decl, constant_decl, coma_decl, let_spans, meta_decl, comment,
}
use creusot.Why3.Print.Bound.{Bound, value, type_name, span_name}
use creusot.Why3.Print.Terms.Printable.{IsPrintable}
use creusot.Why3.Print.Terms.Names.{bound_values}
use creusot.Why3.Print.Coma.Printable.{IsPrintableExpr}
use creusot.Why3.Print.Decls.{member_names}

-- A type, and then its constructors or fields, of each in turn.
unfoldable pub adts_declared : List AdtDecl → List Bound
adts_declared [] = []
adts_declared (t ∷ tys) =
    type_name t.ty_name ∷ (bound_values (member_names t.sumrecord) ++ adts_declared tys)

unfoldable pub declared : Decl → List Bound
declared (logic_defn log) = value log.sig.name ∷ []
declared (pred_decl p) = value p.sig.name ∷ []
declared (ty_decl (adt tys)) = adts_declared tys
declared (ty_decl (alias_of ty_name params alias)) = type_name ty_name ∷ []
declared (ty_decl (opaque_type ty_name params)) = type_name ty_name ∷ []
declared (logic_decl v) = value v.sig.name ∷ []
declared (use_decls uses) = []
declared (axiom_decl a) = value a.name ∷ []
declared (goal_decl g) = value g.name ∷ []
declared (constant_decl c) = value c.name ∷ []
declared (coma_decl (Defn.handler prototype body)) = value prototype.name ∷ []
declared (let_spans spans) = map (λ s. span_name s.name) spans
declared (meta_decl m) = []
declared (comment c) = []

unfoldable pub all_declared : List Decl → List Bound
all_declared [] = []
all_declared (d ∷ ds) = declared d ++ all_declared ds

abbrev pub IsPrintableOption : Option Exp → Type 0
IsPrintableOption none = Unit
IsPrintableOption (some e) = IsPrintable e

abbrev pub IsPrintableContract : Contract → Type 0
IsPrintableContract c =
    All (λ r. IsPrintable r.exp) c.requires
    × All (λ r. IsPrintable r.exp) c.ensures
    × IsPrintableOption c.variant

abbrev pub IsPrintableDecl : Decl → Type 0
IsPrintableDecl (logic_defn log) = IsPrintableContract log.sig.contract × IsPrintable log.body
IsPrintableDecl (pred_decl p) = IsPrintableContract p.sig.contract × IsPrintable p.body
IsPrintableDecl (ty_decl t) = Unit
IsPrintableDecl (logic_decl v) = IsPrintableContract v.sig.contract
IsPrintableDecl (use_decls uses) = Unit
IsPrintableDecl (axiom_decl a) = IsPrintable a.axiom_exp
IsPrintableDecl (goal_decl g) = IsPrintable g.goal
IsPrintableDecl (constant_decl c) = IsPrintableOption c.body
IsPrintableDecl (coma_decl (Defn.handler prototype body)) = IsPrintableExpr body
IsPrintableDecl (let_spans spans) = Unit
IsPrintableDecl (meta_decl m) = Unit
IsPrintableDecl (comment c) = Unit
