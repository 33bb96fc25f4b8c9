-- ===== src/Why3/Declaration.antt =====
-- why3/src/declaration.rs: the declarations of Why3, and their contracts.
pub mod Meant
use creusot.Prelude.{ℕ, Bool, true, false, ◌&&◌, List, [], ◌∷◌, map, Option, none, some}
use creusot.Prelude.Decimal.{Text}
use creusot.Why3.Name.{Ident}
use creusot.Why3.Types.{WhyType, Attribute, ℤ}
use creusot.Why3.Exp.{Exp, Exps}
use creusot.Why3.Exp.Build.{implies, lazy_conj, mk_true}
use creusot.Why3.Exp.Reassociate.{reassociate}
use creusot.Why3.Coma.{Defn}

pub record Span : Type 0 where
  pub name : Ident
  pub path : Text
  pub start_line : ℕ
  pub start_column : ℕ
  pub end_line : ℕ
  pub end_column : ℕ

pub record Condition : Type 0 where
  pub exp : Exp
  pub expl : Text

pub record Contract : Type 0 where
  pub requires : List Condition
  pub ensures : List Condition
  pub variant : Option Exp

-- A `Trigger` is an `Exps`.
pub record Signature : Type 0 where
  pub name : Ident
  pub trigger_of : Option Exps
  pub attrs : List Attribute
  pub retty : Option WhyType
  pub args : List (Ident × WhyType)
  pub contract : Contract

pub record LogicDefn : Type 0 where
  pub sig : Signature
  pub body : Exp

pub record Predicate : Type 0 where
  pub sig : Signature
  pub body : Exp

pub record ConstructorDecl : Type 0 where
  pub name : Ident
  pub fields : List WhyType

pub record FieldDecl : Type 0 where
  pub name : Ident
  pub type_of : WhyType

pub data SumRecord : Type 0 where
  a_sum : List ConstructorDecl → SumRecord
  a_record : List FieldDecl → SumRecord

pub record AdtDecl : Type 0 where
  pub ty_name : Ident
  pub ty_params : List Ident
  pub sumrecord : SumRecord

pub data TyDecl : Type 0 where
  adt : List AdtDecl → TyDecl
  alias_of : Ident → List Ident → WhyType → TyDecl
  opaque_type : Ident → List Ident → TyDecl

pub data DeclKind : Type 0 where
  function_kind predicate_kind constant_kind : DeclKind

pub record LogicDecl : Type 0 where
  pub kind : Option DeclKind
  pub sig : Signature

pub record Use : Type 0 where
  pub name : List Text
  pub export : Bool

pub record Axiom : Type 0 where
  pub name : Ident
  pub rewrite : Bool
  pub axiom_exp : Exp

pub record Goal : Type 0 where
  pub name : Ident
  pub goal : Exp

pub record ConstantDecl : Type 0 where
  pub name : Ident
  pub type_of : WhyType
  pub body : Option Exp

pub data MetaIdent : Type 0 where
  a_string : Text → MetaIdent
  an_ident : Text → MetaIdent

pub data MetaArg : Type 0 where
  an_integer : ℤ → MetaArg

pub record Meta : Type 0 where
  pub name : MetaIdent
  pub args : List MetaArg

pub data Decl : Type 0 where
  logic_decl : LogicDecl → Decl
  logic_defn : LogicDefn → Decl
  ty_decl : TyDecl → Decl
  pred_decl : Predicate → Decl
  use_decls : List Use → Decl
  axiom_decl : Axiom → Decl
  goal_decl : Goal → Decl
  constant_decl : ConstantDecl → Decl
  coma_decl : Defn → Decl
  let_spans : List Span → Decl
  meta_decl : Meta → Decl
  comment : Text → Decl

pub record Module : Type 0 where
  pub name : Text
  pub decls : List Decl
  pub attrs : List Attribute
  pub meta : Option Text

-- `Decl::function` and `Decl::predicate`.
unfoldable pub function : Signature → Option Exp → Decl
function sig (some body) = logic_defn (record { sig = sig; body = body })
function sig none = logic_decl (record { kind = some function_kind; sig = sig })

unfoldable pub predicate : Signature → Option Exp → Decl
predicate sig (some body) = pred_decl (record { sig = record sig { retty = none }; body = body })
predicate sig none =
    logic_decl (record { kind = some predicate_kind; sig = record sig { retty = none } })

unfoldable pub labelled_exp : Condition → Exp
labelled_exp c = Exp.attr (Attribute.attr c.expl) c.exp

unfoldable pub unlabelled_exp : Condition → Exp
unlabelled_exp c = c.exp

abbrev pub is_empty_list : {A : Type 0} → List A → Bool
is_empty_list [] = true
is_empty_list (x ∷ xs) = false

abbrev pub no_variant : {A : Type 0} → Option A → Bool
no_variant none = true
no_variant (some a) = false

-- `Contract::is_empty`
unfoldable pub contract_is_empty : Contract → Bool
contract_is_empty c = is_empty_list c.requires && (is_empty_list c.ensures && no_variant c.variant)

-- `fold(postcond, Exp::lazy_conj)`
unfoldable pub conj_from : Exp → List Exp → Exp
conj_from postcond [] = postcond
conj_from postcond (e ∷ es) = conj_from (lazy_conj postcond e) es

-- What the four conjunctions share; `none` is a panic of `reassociate`.
unfoldable pub conj : List Exp → Option Exp
conj [] = some mk_true
conj (e ∷ es) = reassociate (conj_from e es)

unfoldable pub ensures_conj : Contract → Option Exp
ensures_conj c = conj (map (λ k. k.exp) c.ensures)

unfoldable pub ensures_conj_labelled : Contract → Option Exp
ensures_conj_labelled c = conj (map labelled_exp c.ensures)

unfoldable pub requires_conj : Contract → Option Exp
requires_conj c = conj (map (λ k. k.exp) c.requires)

unfoldable pub requires_conj_labelled : Contract → Option Exp
requires_conj_labelled c = conj (map labelled_exp c.requires)

-- `rfold`: the last condition is the innermost.
unfoldable pub implied : List Condition → Exp → Exp
implied [] conclusion = conclusion
implied (c ∷ cs) conclusion = implies c.exp (implied cs conclusion)

unfoldable pub requires_implies : Contract → Exp → Exp
requires_implies c conclusion = implied c.requires conclusion
