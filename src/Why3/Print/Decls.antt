-- ===== src/Why3/Print/Decls.antt =====
-- why3/src/printer.rs: how declarations and modules are printed.
pub mod Declared
pub mod Parts
pub mod Safe
use creusot.Prelude.{Bool, true, false, List, [], ◌∷◌, ◌++◌, map, Option, none, some, if◌then◌else◌}
use creusot.Prelude.Decimal.{Text, codes}
use creusot.Why3.Name.{Ident}
use creusot.Why3.Types.{WhyType, complex}
use creusot.Why3.Exp.{Exp}
use creusot.Why3.Declaration.{
  Span, Condition, Contract, Signature, LogicDefn, Predicate, ConstructorDecl, FieldDecl, SumRecord,
  AdtDecl, TyDecl, DeclKind, LogicDecl, Use, Axiom, Goal, ConstantDecl, MetaIdent, MetaArg, Meta,
  Decl, Module, a_sum, a_record, adt, alias_of, opaque_type, function_kind, predicate_kind,
  constant_kind, a_string, an_ident, an_integer, logic_decl, logic_defn, ty_decl, pred_decl,
  use_decls, axiom_decl, goal_decl, constant_decl, coma_decl, let_spans, meta_decl, comment,
  is_empty_list,
}
use creusot.Why3.Print.{
  Docs, Why3Scope, new, M, ret, ◌>>=◌, ◌>>◌, scoped, open_scopes, mapped, each, bind_value,
  bind_type, bind_span, docs, lit, pretty_value_name, pretty_type_name, pretty_span_name,
  interspersed,
}
use creusot.Why3.Print.Terms.{pretty_attribute, pretty_type, ty_parens}
use creusot.Why3.Print.Terms.Expressions.{pretty_exp}
use creusot.Why3.Print.Coma.{bind_values, pretty_defn}

abbrev pub kind_text : Option DeclKind → Text
kind_text (some function_kind) = codes "function "
kind_text (some predicate_kind) = codes "predicate "
kind_text (some constant_kind) = codes "constant "
kind_text none = []

-- The constructors or the fields of a type.
unfoldable pub member_names : SumRecord → List Ident
member_names (a_sum constrs) = map (λ c. c.name) constrs
member_names (a_record fields) = map (λ f. f.name) fields

unfoldable pub bind_adts : List AdtDecl → M (Unit {0})
bind_adts [] = ret tt
bind_adts (t ∷ tys) =
    bind_type t.ty_name >> (bind_values (member_names t.sumrecord) >> bind_adts tys)

module _ (D : Docs) where
  open D use {Doc}

  unfoldable pub pretty_span : Span → M Doc
  pretty_span self =
      bind_span self.name
      >> docs D (
          lit D "let%span"
          ∷ ret D.space
          ∷ pretty_span_name D self.name
          ∷ ret D.space
          ∷ lit D "="
          ∷ ret D.space
          ∷ ret (D.double_quotes (D.text self.path))
          ∷ ret D.space
          ∷ ret (D.number self.start_line)
          ∷ ret D.space
          ∷ ret (D.number self.start_column)
          ∷ ret D.space
          ∷ ret (D.number self.end_line)
          ∷ ret D.space
          ∷ ret (D.number self.end_column)
          ∷ [])

  unfoldable pub pretty_requires : Condition → M Doc
  pretty_requires req =
      docs D (lit D "requires " ∷ mapped D.braces (pretty_exp D req.exp) ∷ ret D.hardline ∷ [])

  unfoldable pub pretty_ensures : Condition → M Doc
  pretty_ensures ens = docs D (
      lit D "ensures "
      ∷ mapped D.braces (docs D (ret D.space ∷ pretty_exp D ens.exp ∷ ret D.space ∷ []))
      ∷ ret D.hardline
      ∷ [])

  -- `for x in xs { doc = doc.append(f(x)) }`
  unfoldable pub extended : {A : Type 0} → (A → M Doc) → List A → Doc → M Doc
  extended f [] doc = ret doc
  extended f (x ∷ xs) doc = do d ← f x; extended f xs (D.append doc d)

  unfoldable pub pretty_variant : Option Exp → Doc → M Doc
  pretty_variant none doc = ret doc
  pretty_variant (some v) doc =
      mapped (λ d. D.append doc d)
        (docs D (lit D "variant " ∷ mapped D.braces (pretty_exp D v) ∷ ret D.hardline ∷ []))

  unfoldable pub pretty_contract : Contract → M Doc
  pretty_contract self = extended pretty_requires self.requires D.nil >>= λ d.
      extended pretty_ensures self.ensures d >>= λ e. pretty_variant self.variant e

  -- `pretty_binder`, of an argument and its type.
  unfoldable pub pretty_argument : Ident × WhyType → M Doc
  pretty_argument (id, t) =
      bind_value id
      >> mapped D.parens (docs D (pretty_value_name D id ∷ lit D " : " ∷ pretty_type D t ∷ []))

  unfoldable pub arg_list : List (Ident × WhyType) → M Doc
  arg_list args = interspersed D pretty_argument args D.space

  unfoldable pub pretty_retty : Option WhyType → M Doc
  pretty_retty none = ret D.nil
  pretty_retty (some t) = docs D (lit D " : " ∷ pretty_type D t ∷ [])

  -- The attributes, and an empty document behind them.
  unfoldable pub pretty_attrs_nil : Signature → M Doc
  pretty_attrs_nil self =
      mapped (λ ds. D.intersperse (ds ++ D.nil ∷ []) D.space) (each (pretty_attribute D) self.attrs)

  unfoldable pub pretty_signature : Signature → M Doc
  pretty_signature self =
      mapped (λ d. D.group (D.nest 2 d))
        (docs D (
          pretty_value_name D self.name
          ∷ ret D.space
          ∷ pretty_attrs_nil self
          ∷ arg_list self.args
          ∷ pretty_retty self.retty
          ∷ docs D (ret D.line_or_nil ∷ pretty_contract self.contract ∷ [])
          ∷ []))

  -- `Predicate` and `LogicDefn`.
  unfoldable pub pretty_defined : Text → Signature → Exp → M Doc
  pretty_defined keyword sig body =
      bind_value sig.name
      >> scoped (
          docs D (
            mapped D.group (
              docs D (
                ret (D.text keyword)
                ∷ docs D (pretty_signature sig ∷ ret D.line_or_nil ∷ lit D " =" ∷ [])
                ∷ []))
            ∷ ret D.line
            ∷ mapped (D.indent 2) (pretty_exp D body)
            ∷ []))

  unfoldable pub pretty_logic_decl : LogicDecl → M Doc
  pretty_logic_decl self =
      bind_value self.sig.name
      >> scoped (
          docs D (
            ret (elim self.kind [ none ↦ D.nil | some k ↦ D.text (kind_text (some k)) ])
            ∷ pretty_signature self.sig
            ∷ []))

  unfoldable pub pretty_axiom : Axiom → M Doc
  pretty_axiom self =
      bind_value self.name
      >> docs D (
          lit D "axiom "
          ∷ pretty_value_name D self.name
          ∷ (if self.rewrite then lit D " [@rewrite] : " else lit D " : ")
          ∷ pretty_exp D self.axiom_exp
          ∷ [])

  unfoldable pub pretty_goal : Goal → M Doc
  pretty_goal self =
      bind_value self.name
      >> docs D (
          lit D "goal " ∷ pretty_value_name D self.name ∷ lit D " : " ∷ pretty_exp D self.goal ∷ [])

  unfoldable pub pretty_constant_body : Option Exp → M Doc
  pretty_constant_body none = ret D.nil
  pretty_constant_body (some b) = docs D (lit D " = " ∷ pretty_exp D b ∷ [])

  unfoldable pub pretty_constant_decl : ConstantDecl → M Doc
  pretty_constant_decl self =
      bind_value self.name
      >> scoped (
          docs D (
            lit D "constant "
            ∷ pretty_value_name D self.name
            ∷ lit D " : "
            ∷ pretty_type D self.type_of
            ∷ pretty_constant_body self.body
            ∷ []))

  unfoldable pub pretty_use : Use → M Doc
  pretty_use self = docs D (
      lit D "use "
      ∷ (if self.export then lit D "export " else ret D.nil)
      ∷ ret (D.intersperse (map D.text self.name) (D.text (codes ".")))
      ∷ [])

  unfoldable pub pretty_meta_ident : MetaIdent → M Doc
  pretty_meta_ident (an_ident i) = ret (D.text i)
  pretty_meta_ident (a_string s) = ret (D.text (D.quoted s))

  unfoldable pub pretty_meta_arg : MetaArg → M Doc
  pretty_meta_arg (an_integer i) = ret (D.integer i)

  unfoldable pub pretty_meta : Meta → M Doc
  pretty_meta self = docs D (
      lit D "meta "
      ∷ pretty_meta_ident self.name
      ∷ ret D.space
      ∷ interspersed D pretty_meta_arg self.args D.space
      ∷ [])

  unfoldable pub pretty_constructor : ConstructorDecl → M Doc
  pretty_constructor self =
      if is_empty_list self.fields
      then pretty_value_name D self.name
      else docs D (
          pretty_value_name D self.name
          ∷ ret D.space
          ∷ interspersed D (λ t. ty_parens D t (pretty_type D t)) self.fields (D.text (codes " "))
          ∷ [])

  unfoldable pub pretty_field : FieldDecl → M Doc
  pretty_field self =
      docs D (pretty_value_name D self.name ∷ lit D ": " ∷ pretty_type D self.type_of ∷ [])

  unfoldable pub pretty_ty_param : Ident → M Doc
  pretty_ty_param p = bind_type p >> docs D (lit D "'" ∷ pretty_type_name D p ∷ [])

  unfoldable pub pretty_sum_record : SumRecord → M Doc
  pretty_sum_record (a_sum constrs) =
      interspersed D (λ c. docs D (lit D "| " ∷ pretty_constructor c ∷ [])) constrs D.hardline
  pretty_sum_record (a_record fields) =
      mapped (λ d. D.group (D.braces d))
        (docs D (
          ret D.nil
          ∷ ret D.space
          ∷ mapped D.align
              (interspersed D pretty_field fields (D.append (D.text (codes ";")) D.line))
          ∷ ret D.space
          ∷ []))

  -- One type of a group, `hdr` the keyword in front of it.
  unfoldable pub pretty_adt : Text → AdtDecl → M Doc
  pretty_adt hdr self = docs D (
      docs D (
        ret D.nil
        ∷ ret (D.text hdr)
        ∷ lit D " "
        ∷ pretty_type_name D self.ty_name
        ∷ lit D " "
        ∷ interspersed D pretty_ty_param self.ty_params D.space
        ∷ [])
      ∷ docs D (lit D " =" ∷ ret D.hardline ∷ [])
      ∷ mapped (D.indent 2) (pretty_sum_record self.sumrecord)
      ∷ [])

  -- `once("type").chain(repeat("with"))`
  unfoldable pub pretty_adts : Text → List AdtDecl → M (List Doc)
  pretty_adts hdr [] = ret []
  pretty_adts hdr (t ∷ tys) = do
    d ← pretty_adt hdr t
    ds ← pretty_adts (codes "with") tys
    ret (d ∷ ds)

  unfoldable pub pretty_ty_decl : TyDecl → M Doc
  pretty_ty_decl (opaque_type name params) =
      bind_type name
      >> scoped (
          docs D (
            lit D "type "
            ∷ pretty_type_name D name
            ∷ (if is_empty_list params
                then ret D.nil
                else docs D (lit D " " ∷ interspersed D pretty_ty_param params D.space ∷ []))
            ∷ []))
  pretty_ty_decl (alias_of name params alias) =
      bind_type name
      >> scoped (
          docs D (
            lit D "type "
            ∷ pretty_type_name D name
            ∷ lit D " "
            ∷ interspersed D pretty_ty_param params D.space
            ∷ docs D (lit D " =" ∷ ret D.hardline ∷ [])
            ∷ mapped (D.indent 2) (pretty_type D alias)
            ∷ []))
  pretty_ty_decl (adt tys) =
      bind_adts tys
      >> mapped (λ ds. D.intersperse ds D.hardline) (scoped (pretty_adts (codes "type") tys))

  unfoldable pub pretty_decl : Decl → M Doc
  pretty_decl (logic_defn log) = pretty_defined (codes "function ") log.sig log.body
  pretty_decl (pred_decl p) = pretty_defined (codes "predicate ") p.sig p.body
  pretty_decl (ty_decl t) = pretty_ty_decl t
  pretty_decl (logic_decl v) = pretty_logic_decl v
  pretty_decl (use_decls uses) = interspersed D pretty_use uses D.hardline
  pretty_decl (axiom_decl a) = pretty_axiom a
  pretty_decl (goal_decl g) = pretty_goal g
  pretty_decl (constant_decl c) = pretty_constant_decl c
  pretty_decl (coma_decl d) = pretty_defn D d
  pretty_decl (let_spans spans) = interspersed D pretty_span spans D.hardline
  pretty_decl (meta_decl m) = pretty_meta m
  pretty_decl (comment c) = docs D (lit D "(* " ∷ ret (D.text c) ∷ lit D " *)" ∷ [])

  unfoldable pub pretty_blocks : List Decl → M Doc
  pretty_blocks items = interspersed D pretty_decl items (D.append D.hardline D.hardline)

  abbrev pub meta_text : Option Text → Doc
  meta_text none = D.nil
  meta_text (some m) = D.append (D.append (D.text (codes " (* ")) (D.text m)) (D.text (codes " *)"))

  unfoldable pub pretty_module : Module → M Doc
  pretty_module self = scoped (
      docs D (
        lit D "module "
        ∷ ret (D.text self.name)
        ∷ (if is_empty_list self.attrs
            then ret D.nil
            else mapped D.concat
                (each (λ a. docs D (ret D.space ∷ pretty_attribute D a ∷ [])) self.attrs))
        ∷ ret (meta_text self.meta)
        ∷ ret D.hardline
        ∷ mapped (D.indent 2) (pretty_blocks self.decls)
        ∷ ret D.hardline
        ∷ lit D "end"
        ∷ []))

  -- The document of `render_module`, and that of `render_decls`.
  unfoldable pub module_doc : Module → Option (Doc × Why3Scope)
  module_doc self = pretty_module self new

  unfoldable pub decls_doc : List Decl → Option (Doc × Why3Scope)
  decls_doc decls = (open_scopes >> pretty_blocks decls) new
