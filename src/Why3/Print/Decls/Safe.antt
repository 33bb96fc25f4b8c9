-- ===== src/Why3/Print/Decls/Safe.antt =====
-- why3/src/printer.rs: printing a declaration binds the names that it declares, and printing a module leaves
-- the scopes as they were.
use mathlib.Core.Path.{subst as transport_along}
use creusot.Prelude.{List, [], ◌∷◌, ◌++◌, append-nil, Option, none, some, ◌≡◌, refl, All}
use creusot.Prelude.Decimal.{Text}
use creusot.Why3.Exp.{Exp}
use creusot.Why3.Coma.{Defn}
use creusot.Why3.Declaration.{
  AdtDecl, TyDecl, Decl, Module, MetaIdent, MetaArg, Use, adt, alias_of, opaque_type, a_string,
  an_ident, an_integer, logic_decl, logic_defn, ty_decl, pred_decl, use_decls, axiom_decl,
  goal_decl, constant_decl, coma_decl, let_spans, meta_decl, comment, is_empty_list,
}
use creusot.Why3.Print.{Docs, Why3Scope, new, open_scopes, close_scopes, each, interspersed}
use creusot.Why3.Print.Bound.{
  Bound, Binds, Quiet, bind_bounds, ret-Binds, then-Quiet, mapped-Binds, each-Quiet,
}
use creusot.Why3.Print.Bound.Documents.{
  ◌▹◌, docs-Quiet, docs-Binds, interspersed-Quiet, interspersed-Binds, pretty_value_name-Quiet,
  pretty_type_name-Quiet,
}
use creusot.Why3.Print.Bound.Scoped.{scoped-Quiet, close-bind_bounds-open}
use creusot.Why3.Print.Terms.Names.{if-Binds, cons-Binds, pretty_attribute-Quiet, pretty_type-Quiet}
use creusot.Why3.Print.Terms.Safe.{pretty_exp-Quiet}
use creusot.Why3.Print.Coma.Printable.{PartitionsWithin}
use creusot.Why3.Print.Coma.Binders.{bound_first}
use creusot.Why3.Print.Coma.Safe.{pretty_defn-Binds}
use creusot.Why3.Print.Decls.Parts.{
  bind_adts-Binds, type_first, pretty_span-Binds, spans_bound, argument_bounds,
  pretty_signature-Binds, pretty_defined-Binds, params_bounds, params-Binds,
  pretty_sum_record-Quiet,
}
use creusot.Why3.Print.Decls.{
  pretty_span, pretty_logic_decl, pretty_axiom, pretty_goal, pretty_constant_body,
  pretty_constant_decl, pretty_use, pretty_meta_ident, pretty_meta_arg, pretty_meta, pretty_adt,
  pretty_adts, pretty_ty_decl, pretty_decl, pretty_blocks, pretty_module, module_doc, decls_doc,
}
use creusot.Why3.Print.Decls.Declared.{
  adts_declared, declared, all_declared, IsPrintableOption, IsPrintableDecl,
}

module _ (D : Docs) where
  open D use {Doc}

  pretty_adt-Binds :
      (hdr : Text) (t : AdtDecl) → Binds (params_bounds t.ty_params) (pretty_adt D hdr t)
  unfolding pretty_adt
  pretty_adt-Binds hdr t =
      transport_along (λ bs. Binds bs (pretty_adt D hdr t)) (simp (append-nil))
        (docs-Binds D ((params_bounds t.ty_params ++ []) ∷ [] ∷ [] ∷ []) _ (
          docs-Binds D ([] ∷ [] ∷ [] ∷ [] ∷ [] ∷ params_bounds t.ty_params ∷ []) _ (
            ret-Binds _
            ▹ ret-Binds _
            ▹ ret-Binds _
            ▹ pretty_type_name-Quiet D t.ty_name
            ▹ ret-Binds _
            ▹ params-Binds D t.ty_params
            ▹ tt)
          ▹ docs-Quiet D _ (ret-Binds _ ▹ ret-Binds _ ▹ tt)
          ▹ mapped-Binds [] _ _ (pretty_sum_record-Quiet D t.sumrecord)
          ▹ tt))

  adts_params : List AdtDecl → List Bound
  adts_params [] = []
  adts_params (t ∷ tys) = params_bounds t.ty_params ++ adts_params tys

  pretty_adts-Binds :
      (hdr : Text) (tys : List AdtDecl) → Binds (adts_params tys) (pretty_adts D hdr tys)
  unfolding pretty_adts adts_params
  pretty_adts-Binds hdr [] = ret-Binds []
  pretty_adts-Binds hdr (t ∷ tys) =
      cons-Binds (params_bounds t.ty_params) (adts_params tys) _ _ _ (pretty_adt-Binds hdr t)
        (pretty_adts-Binds _ tys)

  pretty_ty_decl-Binds : (t : TyDecl) → Binds (declared (ty_decl t)) (pretty_ty_decl D t)
  unfolding pretty_ty_decl declared
  pretty_ty_decl-Binds (opaque_type name []) = type_first name _ (
      scoped-Quiet [] _
        (docs-Quiet D _ (ret-Binds _ ▹ pretty_type_name-Quiet D name ▹ ret-Binds _ ▹ tt)))
  pretty_ty_decl-Binds (opaque_type name (p ∷ params)) = type_first name _ (
      scoped-Quiet _ _ (
        docs-Binds D ([] ∷ [] ∷ (params_bounds (p ∷ params) ++ []) ∷ []) _ (
          ret-Binds _
          ▹ pretty_type_name-Quiet D name
          ▹ docs-Binds D ([] ∷ params_bounds (p ∷ params) ∷ []) _
              (ret-Binds _ ▹ params-Binds D (p ∷ params) ▹ tt)
          ▹ tt)))
  pretty_ty_decl-Binds (alias_of name params alias) = type_first name _ (
      scoped-Quiet _ _ (
        docs-Binds D ([] ∷ [] ∷ [] ∷ params_bounds params ∷ [] ∷ [] ∷ []) _ (
          ret-Binds _
          ▹ pretty_type_name-Quiet D name
          ▹ ret-Binds _
          ▹ params-Binds D params
          ▹ docs-Quiet D _ (ret-Binds _ ▹ ret-Binds _ ▹ tt)
          ▹ mapped-Binds [] _ _ (pretty_type-Quiet D alias)
          ▹ tt)))
  pretty_ty_decl-Binds (adt tys) =
      then-Quiet (adts_declared tys) _ _ (bind_adts-Binds tys)
        λ _. mapped-Binds [] _ _ (scoped-Quiet _ _ (pretty_adts-Binds _ tys))

  pretty_constant_body-Quiet :
      (b : Option Exp) → IsPrintableOption b → Quiet (pretty_constant_body D b)
  unfolding pretty_constant_body
  pretty_constant_body-Quiet none h = ret-Binds _
  pretty_constant_body-Quiet (some e) h = docs-Quiet D _ (ret-Binds _ ▹ pretty_exp-Quiet D e h ▹ tt)

  pretty_use-Quiet : (u : Use) → Quiet (pretty_use D u)
  unfolding pretty_use
  pretty_use-Quiet u =
      docs-Quiet D _
        (ret-Binds _ ▹ if-Binds [] u.export _ _ (ret-Binds _) (ret-Binds _) ▹ ret-Binds _ ▹ tt)

  pretty_meta_ident-Quiet : (i : MetaIdent) → Quiet (pretty_meta_ident D i)
  unfolding pretty_meta_ident
  pretty_meta_ident-Quiet (an_ident i) = ret-Binds _
  pretty_meta_ident-Quiet (a_string s) = ret-Binds _

  pretty_meta_arg-Quiet : (a : MetaArg) → Quiet (pretty_meta_arg D a)
  unfolding pretty_meta_arg
  pretty_meta_arg-Quiet (an_integer i) = ret-Binds _

  pub pretty_decl-Binds :
      (d : Decl) → PartitionsWithin D → IsPrintableDecl d → Binds (declared d) (pretty_decl D d)
  unfolding pretty_decl declared pretty_axiom pretty_goal pretty_constant_decl pretty_logic_decl
      pretty_meta
  pretty_decl-Binds (logic_defn log) within h = pretty_defined-Binds D _ log.sig log.body h.0 h.1
  pretty_decl-Binds (pred_decl p) within h = pretty_defined-Binds D _ p.sig p.body h.0 h.1
  pretty_decl-Binds (ty_decl (adt tys)) within h = pretty_ty_decl-Binds (adt tys)
  pretty_decl-Binds (ty_decl (alias_of name params alias)) within h =
      pretty_ty_decl-Binds (alias_of name params alias)
  pretty_decl-Binds (ty_decl (opaque_type name params)) within h =
      pretty_ty_decl-Binds (opaque_type name params)
  pretty_decl-Binds (logic_decl v) within h = bound_first v.sig.name _ (
      scoped-Quiet _ _ (
        docs-Binds D ([] ∷ argument_bounds v.sig ∷ []) _
          (ret-Binds _ ▹ pretty_signature-Binds D v.sig h ▹ tt)))
  pretty_decl-Binds (use_decls uses) within h = interspersed-Quiet D _ uses _ pretty_use-Quiet
  pretty_decl-Binds (axiom_decl a) within h = bound_first a.name _ (
      docs-Quiet D _ (
        ret-Binds _
        ▹ pretty_value_name-Quiet D a.name
        ▹ if-Binds [] a.rewrite _ _ (ret-Binds _) (ret-Binds _)
        ▹ pretty_exp-Quiet D a.axiom_exp h
        ▹ tt))
  pretty_decl-Binds (goal_decl g) within h = bound_first g.name _ (
      docs-Quiet D _ (
        ret-Binds _
        ▹ pretty_value_name-Quiet D g.name
        ▹ ret-Binds _
        ▹ pretty_exp-Quiet D g.goal h
        ▹ tt))
  pretty_decl-Binds (constant_decl c) within h = bound_first c.name _ (
      scoped-Quiet [] _ (
        docs-Quiet D _ (
          ret-Binds _
          ▹ pretty_value_name-Quiet D c.name
          ▹ ret-Binds _
          ▹ pretty_type-Quiet D c.type_of
          ▹ pretty_constant_body-Quiet c.body h
          ▹ tt)))
  pretty_decl-Binds (coma_decl (Defn.handler prototype body)) within h =
      pretty_defn-Binds D prototype body within h
  pretty_decl-Binds (let_spans spans) within h =
      transport_along (λ bs. Binds bs (interspersed D (pretty_span D) spans D.hardline))
        (spans_bound D spans) (interspersed-Binds D _ _ spans D.hardline (pretty_span-Binds D))
  pretty_decl-Binds (meta_decl m) within h = docs-Quiet D _ (
      ret-Binds _
      ▹ pretty_meta_ident-Quiet m.name
      ▹ ret-Binds _
      ▹ interspersed-Quiet D _ m.args _ pretty_meta_arg-Quiet
      ▹ tt)
  pretty_decl-Binds (comment c) within h =
      docs-Quiet D _ (ret-Binds _ ▹ ret-Binds _ ▹ ret-Binds _ ▹ tt)

  -- Printing a declaration whose expressions can be printed succeeds wherever the names that it declares can
  -- be bound, and what it does to the scopes is exactly to bind these names, in their order.
  pub pretty_decl_lem :
      (d : Decl) (s t : Why3Scope)
      → PartitionsWithin D
      → IsPrintableDecl d
      → bind_bounds (declared d) s ≡ some (tt, t)
      → (doc : Doc) × (pretty_decl D d s ≡ some (doc, t))
  pretty_decl_lem d s t within h bound = (pretty_decl-Binds d within h).runs s t bound

  each_decl-Binds :
      (ds : List Decl)
      → PartitionsWithin D
      → All IsPrintableDecl ds
      → Binds (all_declared ds) (each (pretty_decl D) ds)
  unfolding each all_declared
  each_decl-Binds [] within h = ret-Binds []
  each_decl-Binds (d ∷ ds) within h =
      cons-Binds (declared d) (all_declared ds) _ _ _ (pretty_decl-Binds d within h.0)
        (each_decl-Binds ds within h.1)

  pub pretty_blocks-Binds :
      (ds : List Decl)
      → PartitionsWithin D
      → All IsPrintableDecl ds
      → Binds (all_declared ds) (pretty_blocks D ds)
  unfolding pretty_blocks interspersed
  pretty_blocks-Binds ds within h = mapped-Binds _ _ _ (each_decl-Binds ds within h)

  pretty_module-Quiet :
      (m : Module) → PartitionsWithin D → All IsPrintableDecl m.decls → Quiet (pretty_module D m)
  unfolding pretty_module
  pretty_module-Quiet m within h = scoped-Quiet _ _ (
      docs-Binds D ([] ∷ [] ∷ [] ∷ [] ∷ [] ∷ all_declared m.decls ∷ [] ∷ [] ∷ []) _ (
        ret-Binds _
        ▹ ret-Binds _
        ▹ if-Binds [] (is_empty_list m.attrs) _ _ (ret-Binds _) (
            mapped-Binds [] _ _ (
              each-Quiet _ m.attrs
                λ a. docs-Quiet D _ (ret-Binds _ ▹ pretty_attribute-Quiet D a ▹ tt)))
        ▹ ret-Binds _
        ▹ ret-Binds _
        ▹ mapped-Binds _ _ _ (pretty_blocks-Binds m.decls within h)
        ▹ ret-Binds _
        ▹ ret-Binds _
        ▹ tt))

  -- A module whose expressions can be printed is rendered without a panic, and rendering it ends with the
  -- empty scopes that it starts with.
  pub module_doc-new :
      (m : Module)
      → PartitionsWithin D
      → All IsPrintableDecl m.decls
      → (d : Doc) × (module_doc D m ≡ some (d, new))
  unfolding module_doc bind_bounds
  module_doc-new m within h = (pretty_module-Quiet m within h).runs new new refl

  -- Declarations whose expressions can be printed are rendered without a panic, and the scope that was
  -- opened for them can be closed, which gives the empty scopes.
  pub decls_doc-close :
      (ds : List Decl)
      → PartitionsWithin D
      → All IsPrintableDecl ds
      → (d : Doc) × (t : Why3Scope) × (decls_doc D ds ≡ some (d, t))
        × (close_scopes t ≡ some (tt, new))
  unfolding decls_doc open_scopes
  decls_doc-close ds within h =
      let (t, bound, closed) = close-bind_bounds-open (all_declared ds) new in
      let (d, run) = (pretty_blocks-Binds ds within h).runs _ t bound in (d, t, run, closed)
