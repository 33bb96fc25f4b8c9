-- ===== src/Why3/Coma.antt =====
-- why3/src/coma.rs: the expressions of Coma, and what builds and asks them. A `Box<[Param]>` is a
-- `Params`, and so for the definitions; a `Box<[Var]>` and the assignments are lists.
pub mod Free
use creusot.Prelude.{
  Bool, true, false, ◌||◌, ◌&&◌, not, List, [], ◌∷◌, Option, none, some, if◌then◌else◌,
}
use creusot.Prelude.Decimal.{Text}
use creusot.Why3.Name.{Ident, Name, QName, local, global, local_name, ident_eq}
use creusot.Why3.Types.{WhyType, Attribute}
use creusot.Why3.Exp.{Exp}

pub data IsRef : Type 0 where
  a_ref not_ref : IsRef

pub record Var : Type 0 where
  pub ident : Ident
  pub type_of : WhyType
  pub term : Exp
  pub is_ref : IsRef

mutual
  pub data Param : Type 0 where
    ty : WhyType → Param
    term reference : Ident → WhyType → Param
    cont : Ident → List Ident → Params → Param

  pub data Params : Type 0 where
    nil : Params
    cons : Param → Params → Params

pub record Prototype : Type 0 where
  pub name : Ident
  pub attrs : List Attribute
  pub params : Params

mutual
  pub data Expr : Type 0 where
    name : Name → Expr
    app : Expr → Arg → Expr
    lambda : Params → Expr → Expr
    defn : Expr → Bool → Defns → Expr
    assign : Expr → List (Ident × Exp) → Expr
    let_in : Expr → List Var → Expr
    assert assume : Exp → Expr → Expr
    black_box white_box : Expr → Expr
    any : Expr

  pub data Arg : Type 0 where
    ty : WhyType → Arg
    term : Exp → Arg
    ref : Ident → Arg
    cont : Expr → Arg

  pub data Defn : Type 0 where
    handler : Prototype → Expr → Defn

  pub data Defns : Type 0 where
    nil : Defns
    cons : Defn → Defns → Defns

-- `Param::as_term`; `none` is the panic "not a term".
unfoldable pub as_term : Param → Option (Ident × WhyType)
as_term (Param.ty _) = none
as_term (Param.term id t) = some (id, t)
as_term (Param.reference _ _) = none
as_term (Param.cont _ _ _) = none

unfoldable pub simple : Ident → Expr → Defn
simple nm body = Defn.handler (record { name = nm; attrs = []; params = Params.nil }) body

unfoldable pub var : Ident → Expr
var v = Expr.name (local_name v)

unfoldable pub constant : QName → Expr
constant q = Expr.name (global q)

-- `Expr::app`.
unfoldable pub app_all : Expr → List Arg → Expr
app_all self [] = self
app_all self (a ∷ args) = app_all (Expr.app self a) args

unfoldable pub assign_one : Expr → Ident → Exp → Expr
assign_one self lhs rhs = Expr.assign self ((lhs, rhs) ∷ [])

-- `as_variable`
unfoldable pub as_variable : Expr → Option Ident
as_variable (Expr.name (local nm none)) = some nm
as_variable _ = none

unfoldable pub is_guarded : Expr → Bool
is_guarded (Expr.assert _ e) = is_guarded e
is_guarded (Expr.defn e _ _) = is_guarded e
is_guarded (Expr.black_box _) = true
is_guarded _ = false

-- Whether a parameter is a continuation of this name.
unfoldable pub in_params : Params → Ident → Bool
in_params Params.nil symbol = false
in_params (Params.cons (Param.cont n _ _) ps) symbol = ident_eq n symbol || in_params ps symbol
in_params (Params.cons (Param.ty _) ps) symbol = in_params ps symbol
in_params (Params.cons (Param.term _ _) ps) symbol = in_params ps symbol
in_params (Params.cons (Param.reference _ _) ps) symbol = in_params ps symbol

unfoldable mutual
  pub occurs : Expr → Ident → Bool
  occurs (Expr.name (local v _)) symbol = ident_eq v symbol
  occurs (Expr.name (global _)) symbol = false
  occurs (Expr.app e arg) symbol = occurs_arg arg symbol || occurs e symbol
  occurs (Expr.lambda params body) symbol = not (in_params params symbol) && occurs body symbol
  occurs (Expr.defn e _ defs) symbol = occurs e symbol || occurs_defns defs symbol
  occurs (Expr.assign e _) symbol = occurs e symbol
  occurs (Expr.let_in e _) symbol = occurs e symbol
  occurs (Expr.assert _ e) symbol = occurs e symbol
  occurs (Expr.assume _ e) symbol = occurs e symbol
  occurs (Expr.black_box e) symbol = occurs e symbol
  occurs (Expr.white_box e) symbol = occurs e symbol
  occurs Expr.any symbol = false

  pub occurs_arg : Arg → Ident → Bool
  occurs_arg (Arg.ty _) symbol = false
  occurs_arg (Arg.term _) symbol = false
  occurs_arg (Arg.ref _) symbol = false
  occurs_arg (Arg.cont e) symbol = occurs e symbol

  pub occurs_defns : Defns → Ident → Bool
  occurs_defns Defns.nil symbol = false
  occurs_defns (Defns.cons (Defn.handler prototype body) defs) symbol =
      (not (in_params prototype.params symbol) && occurs body symbol) || occurs_defns defs symbol

-- Whether the expression is the variable of this name.
unfoldable pub is_variable : Expr → Ident → Bool
is_variable self ident = elim (as_variable self) [ none ↦ false | some nm ↦ ident_eq nm ident ]

-- `x [ x = z ]` is replaced by `z`.
unfoldable pub where_ : Expr → Defns → Expr
where_ self Defns.nil = Expr.defn self true Defns.nil
where_ self (Defns.cons (Defn.handler prototype body) Defns.nil) =
    if not (occurs body prototype.name) && is_variable self prototype.name
    then body
    else Expr.defn self true (Defns.cons (Defn.handler prototype body) Defns.nil)
where_ self (Defns.cons d (Defns.cons e defs)) =
    Expr.defn self true (Defns.cons d (Defns.cons e defs))
