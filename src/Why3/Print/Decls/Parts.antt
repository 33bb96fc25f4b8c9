-- ===== src/Why3/Print/Decls/Parts.antt =====
-- why3/src/printer.rs: what printing the parts of a declaration does to the scopes.
use mathlib.Core.Path.{subst as transport_along}
use creusot.Prelude.{List, [], ◌∷◌, ◌++◌, map, append-nil, Option, none, some, ◌≡◌, refl, ap, All}
use creusot.Prelude.Decimal.{Text}
use creusot.Why3.Name.{Ident}
use creusot.Why3.Types.{WhyType}
use creusot.Why3.Exp.{Exp}
use creusot.Why3.Declaration.{
  Span, Condition, Contract, Signature, ConstructorDecl, FieldDecl, SumRecord, AdtDecl, a_sum,
  a_record, is_empty_list,
}
use creusot.Why3.Print.{Docs, M, ◌>>◌, bind_type, bind_span, interspersed}
use creusot.Why3.Print.Bound.{
  Bound, value, type_name, span_name, Binds, Quiet, bind_bound, bind_bound-Binds, ret-Binds,
  >>=-Binds, then-Quiet, mapped-Binds, each-Quiet, all_bounds,
}
use creusot.Why3.Print.Bound.Documents.{
  ◌▹◌, docs-Quiet, docs-Binds, interspersed-Quiet, interspersed-Binds, pretty_value_name-Quiet,
  pretty_type_name-Quiet, pretty_span_name-Quiet,
}
use creusot.Why3.Print.Bound.Scoped.{scoped-Quiet}
use creusot.Why3.Print.Terms.Printable.{IsPrintable}
use creusot.Why3.Print.Terms.Names.{
  bound_values, if-Binds, pretty_attribute-Quiet, pretty_type-Quiet, ty_parens-Quiet,
}
use creusot.Why3.Print.Terms.Safe.{pretty_exp-Quiet}
use creusot.Why3.Print.Coma.Binders.{bind_values-Binds, bound_first}
use creusot.Why3.Print.Decls.{
  member_names, bind_adts, pretty_span, pretty_requires, pretty_ensures, extended, pretty_variant,
  pretty_contract, pretty_argument, arg_list, pretty_retty, pretty_attrs_nil, pretty_signature,
  pretty_defined, pretty_constructor, pretty_field, pretty_ty_param, pretty_sum_record,
}
use creusot.Why3.Print.Decls.Declared.{adts_declared, IsPrintableOption, IsPrintableContract}

pub type_first :
    {A : Type 0} (id : Ident) (m : M A) → Quiet m → Binds (type_name id ∷ []) (bind_type id >> m)
unfolding bind_bound
type_first id m h =
    then-Quiet (type_name id ∷ []) (bind_type id) _ (bind_bound-Binds (type_name id)) λ _. h

pub bind_adts-Binds : (tys : List AdtDecl) → Binds (adts_declared tys) (bind_adts tys)
unfolding bind_adts adts_declared bind_bound
bind_adts-Binds [] = ret-Binds tt
bind_adts-Binds (t ∷ tys) =
    >>=-Binds (type_name t.ty_name ∷ []) _ (bind_type t.ty_name) _
      (bind_bound-Binds (type_name t.ty_name))
      λ _.
        >>=-Binds (bound_values (member_names t.sumrecord)) (adts_declared tys) _ _
          (bind_values-Binds (member_names t.sumrecord)) λ _. bind_adts-Binds tys

-- The names of the arguments, which are bound in the scope that the declaration has opened.
unfoldable pub argument_bounds : Signature → List Bound
argument_bounds sig = all_bounds (λ a. value a.0 ∷ []) sig.args

unfoldable pub params_bounds : List Ident → List Bound
params_bounds params = all_bounds (λ p. type_name p ∷ []) params

module _ (D : Docs) where
  open D use {Doc}

  pub pretty_span-Binds : (s : Span) → Binds (span_name s.name ∷ []) (pretty_span D s)
  unfolding pretty_span bind_bound
  pretty_span-Binds s =
      then-Quiet (span_name s.name ∷ []) (bind_span s.name) _ (bind_bound-Binds (span_name s.name))
        λ _. docs-Quiet D _ (
          ret-Binds _
          ▹ ret-Binds _
          ▹ pretty_span_name-Quiet D s.name
          ▹ ret-Binds _
          ▹ ret-Binds _
          ▹ ret-Binds _
          ▹ ret-Binds _
          ▹ ret-Binds _
          ▹ ret-Binds _
          ▹ ret-Binds _
          ▹ ret-Binds _
          ▹ ret-Binds _
          ▹ ret-Binds _
          ▹ ret-Binds _
          ▹ ret-Binds _
          ▹ tt)

  pub spans_bound :
      (spans : List Span)
      → all_bounds (λ s. span_name s.name ∷ []) spans ≡ map (λ s. span_name s.name) spans
  unfolding all_bounds
  spans_bound [] = refl
  spans_bound (s ∷ spans) = ap (λ t. span_name s.name ∷ t) (spans_bound spans)

  extended-Quiet :
      {A : Type 0} {P : A → Type 0} (f : A → M Doc) (xs : List A) (doc : Doc)
      → ((x : A) → P x → Quiet (f x))
      → All P xs
      → Quiet (extended D f xs doc)
  unfolding extended
  extended-Quiet f [] doc h ps = ret-Binds doc
  extended-Quiet f (x ∷ xs) doc h ps =
      then-Quiet [] (f x) _ (h x ps.0) λ d. extended-Quiet f xs (D.append doc d) h ps.1

  pretty_requires-Quiet : (c : Condition) → IsPrintable c.exp → Quiet (pretty_requires D c)
  unfolding pretty_requires
  pretty_requires-Quiet c h =
      docs-Quiet D _
        (ret-Binds _ ▹ mapped-Binds [] _ _ (pretty_exp-Quiet D c.exp h) ▹ ret-Binds _ ▹ tt)

  pretty_ensures-Quiet : (c : Condition) → IsPrintable c.exp → Quiet (pretty_ensures D c)
  unfolding pretty_ensures
  pretty_ensures-Quiet c h = docs-Quiet D _ (
      ret-Binds _
      ▹ mapped-Binds [] _ _
          (docs-Quiet D _ (ret-Binds _ ▹ pretty_exp-Quiet D c.exp h ▹ ret-Binds _ ▹ tt))
      ▹ ret-Binds _
      ▹ tt)

  pretty_variant-Quiet :
      (v : Option Exp) (doc : Doc) → IsPrintableOption v → Quiet (pretty_variant D v doc)
  unfolding pretty_variant
  pretty_variant-Quiet none doc h = ret-Binds doc
  pretty_variant-Quiet (some e) doc h = mapped-Binds [] _ _ (
      docs-Quiet D _
        (ret-Binds _ ▹ mapped-Binds [] _ _ (pretty_exp-Quiet D e h) ▹ ret-Binds _ ▹ tt))

  pretty_contract-Quiet : (c : Contract) → IsPrintableContract c → Quiet (pretty_contract D c)
  unfolding pretty_contract
  pretty_contract-Quiet c (hr, he, hv) =
      then-Quiet [] _ _ (extended-Quiet _ c.requires D.nil pretty_requires-Quiet hr) λ d.
        then-Quiet [] _ _ (extended-Quiet _ c.ensures d pretty_ensures-Quiet he)
          λ e. pretty_variant-Quiet c.variant e hv

  pretty_argument-Binds : (a : Ident × WhyType) → Binds (value a.0 ∷ []) (pretty_argument D a)
  unfolding pretty_argument
  pretty_argument-Binds (id, t) = bound_first id _ (
      mapped-Binds [] _ _
        (docs-Quiet D _ (pretty_value_name-Quiet D id ▹ ret-Binds _ ▹ pretty_type-Quiet D t ▹ tt)))

  pretty_retty-Quiet : (t : Option WhyType) → Quiet (pretty_retty D t)
  unfolding pretty_retty
  pretty_retty-Quiet none = ret-Binds _
  pretty_retty-Quiet (some t) = docs-Quiet D _ (ret-Binds _ ▹ pretty_type-Quiet D t ▹ tt)

  pub pretty_signature-Binds :
      (sig : Signature)
      → IsPrintableContract sig.contract
      → Binds (argument_bounds sig) (pretty_signature D sig)
  unfolding pretty_signature pretty_attrs_nil arg_list argument_bounds
  pretty_signature-Binds sig h =
      transport_along (λ bs. Binds bs (pretty_signature D sig)) (append-nil (argument_bounds sig))
        (mapped-Binds _ _ _ (
          docs-Binds D ([] ∷ [] ∷ [] ∷ argument_bounds sig ∷ [] ∷ [] ∷ []) _ (
            pretty_value_name-Quiet D sig.name
            ▹ ret-Binds _
            ▹ mapped-Binds [] _ _ (each-Quiet _ sig.attrs (pretty_attribute-Quiet D))
            ▹ interspersed-Binds D _ _ sig.args D.space pretty_argument-Binds
            ▹ pretty_retty-Quiet sig.retty
            ▹ docs-Quiet D _ (ret-Binds _ ▹ pretty_contract-Quiet sig.contract h ▹ tt)
            ▹ tt)))

  pub pretty_defined-Binds :
      (keyword : Text) (sig : Signature) (body : Exp)
      → IsPrintableContract sig.contract
      → IsPrintable body
      → Binds (value sig.name ∷ []) (pretty_defined D keyword sig body)
  unfolding pretty_defined
  pretty_defined-Binds keyword sig body h k = bound_first sig.name _ (
      scoped-Quiet _ _ (
        docs-Binds D (([] ++ ((argument_bounds sig ++ []) ++ [])) ∷ [] ∷ [] ∷ []) _ (
          mapped-Binds _ _ _ (
            docs-Binds D ([] ∷ (argument_bounds sig ++ []) ∷ []) _ (
              ret-Binds _
              ▹ docs-Binds D (argument_bounds sig ∷ [] ∷ [] ∷ []) _
                  (pretty_signature-Binds sig h ▹ ret-Binds _ ▹ ret-Binds _ ▹ tt)
              ▹ tt))
          ▹ ret-Binds _
          ▹ mapped-Binds [] _ _ (pretty_exp-Quiet D body k)
          ▹ tt)))

  pretty_ty_param-Binds : (p : Ident) → Binds (type_name p ∷ []) (pretty_ty_param D p)
  unfolding pretty_ty_param
  pretty_ty_param-Binds p =
      type_first p _ (docs-Quiet D _ (ret-Binds _ ▹ pretty_type_name-Quiet D p ▹ tt))

  pub params-Binds :
      (params : List Ident)
      → Binds (params_bounds params) (interspersed D (pretty_ty_param D) params D.space)
  unfolding params_bounds
  params-Binds params = interspersed-Binds D _ _ params D.space pretty_ty_param-Binds

  pretty_constructor-Quiet : (c : ConstructorDecl) → Quiet (pretty_constructor D c)
  unfolding pretty_constructor
  pretty_constructor-Quiet c =
      if-Binds [] (is_empty_list c.fields) _ _ (pretty_value_name-Quiet D c.name) (
        docs-Quiet D _ (
          pretty_value_name-Quiet D c.name
          ▹ ret-Binds _
          ▹ interspersed-Quiet D _ c.fields _ (λ t. ty_parens-Quiet D t _ (pretty_type-Quiet D t))
          ▹ tt))

  pretty_field-Quiet : (f : FieldDecl) → Quiet (pretty_field D f)
  unfolding pretty_field
  pretty_field-Quiet f =
      docs-Quiet D _
        (pretty_value_name-Quiet D f.name ▹ ret-Binds _ ▹ pretty_type-Quiet D f.type_of ▹ tt)

  pub pretty_sum_record-Quiet : (s : SumRecord) → Quiet (pretty_sum_record D s)
  unfolding pretty_sum_record
  pretty_sum_record-Quiet (a_sum constrs) =
      interspersed-Quiet D _ constrs _
        λ c. docs-Quiet D _ (ret-Binds _ ▹ pretty_constructor-Quiet c ▹ tt)
  pretty_sum_record-Quiet (a_record fields) = mapped-Binds [] _ _ (
      docs-Quiet D _ (
        ret-Binds _
        ▹ ret-Binds _
        ▹ mapped-Binds [] _ _ (interspersed-Quiet D _ fields _ pretty_field-Quiet)
        ▹ ret-Binds _
        ▹ tt))
