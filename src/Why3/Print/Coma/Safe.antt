-- ===== src/Why3/Print/Coma/Safe.antt =====
-- why3/src/coma.rs: printing Coma does not panic, and leaves the scopes as they were.
use creusot.Prelude.{
  arith, Bool, true, false, not, List, [], ◌∷◌, map, length-map, split_at-IsSome, some, ◌≡◌, refl,
  All,
}
use creusot.Why3.Name.{Ident}
use creusot.Why3.Exp.{Exp}
use creusot.Why3.Coma.{Var, Prototype, Expr, Arg, Defn, Defns}
use creusot.Why3.Print.{Docs, Why3Scope, M, ◌>>=◌, each}
use creusot.Why3.Print.Bound.{
  Bound, value, Binds, Quiet, runs-Quiet, ret-Binds, then-Quiet, mapped-Binds, all_bounds,
  each-Binds,
}
use creusot.Why3.Print.Bound.Documents.{
  pretty_value_name-Quiet, ◌▹◌, docs-Quiet, docs-Binds, interspersed-Quiet,
}
use creusot.Why3.Print.Bound.Scoped.{scoped-Quiet, scoped_then-Quiet}
use creusot.Why3.Print.Terms.Printable.{IsPrintable}
use creusot.Why3.Print.Terms.Names.{
  bound_values, if-Binds, cons-Binds, cons-Quiet, name_value-Quiet, pretty_attribute-Quiet,
  pretty_type-Quiet,
}
use creusot.Why3.Print.Terms.Safe.{pretty_exp-Quiet}
use creusot.Why3.Print.Coma.Printable.{
  IsPrintableExpr, IsPrintableArg, ArePrintableDefns, PartitionsWithin,
}
use creusot.Why3.Print.Coma.Binders.{
  param_ids, bind_values-Binds, bound_first, each-All, pretty_params-Binds,
}
use creusot.Why3.Print.Coma.{
  Layout, handler_names, is_empty, needs_parens, parts_doc, app_doc, assembled, pretty_var,
  pretty_assignment, pretty_attrs, pretty_params_of, rec_defn, nonrec_defn, pretty_nonrec,
  NonRecDefnDoc, with_handlers, with_named, layout, pretty_arg, pretty_rec_defns,
  pretty_nonrec_defns, pretty_expr, pretty_defn,
}

module _ (D : Docs) where
  open D use {Doc}

  pretty_var-Binds : (v : Var) → IsPrintable v.term → Binds (value v.ident ∷ []) (pretty_var D v)
  unfolding pretty_var
  pretty_var-Binds v h = bound_first v.ident _ (
      docs-Quiet D _ (
        ret-Binds _
        ▹ pretty_value_name-Quiet D v.ident
        ▹ ret-Binds _
        ▹ pretty_type-Quiet D v.type_of
        ▹ ret-Binds _
        ▹ pretty_exp-Quiet D v.term h
        ▹ tt))

  var_ids : List Var → List Ident
  var_ids [] = []
  var_ids (v ∷ vs) = v.ident ∷ var_ids vs

  each_var-Binds :
      (vs : List Var)
      → All (λ v. IsPrintable v.term) vs
      → Binds (bound_values (var_ids vs)) (each (pretty_var D) vs)
  unfolding each var_ids
  each_var-Binds [] h = ret-Binds []
  each_var-Binds (v ∷ vs) h =
      cons-Binds (value v.ident ∷ []) (bound_values (var_ids vs)) _ _ _ (pretty_var-Binds v h.0)
        (each_var-Binds vs h.1)

  pretty_assignment-Quiet : (a : Ident × Exp) → IsPrintable a.1 → Quiet (pretty_assignment D a)
  unfolding pretty_assignment
  pretty_assignment-Quiet (id, t) h = docs-Quiet D _ (
      ret-Binds _
      ▹ pretty_value_name-Quiet D id
      ▹ ret-Binds _
      ▹ ret-Binds _
      ▹ ret-Binds _
      ▹ pretty_exp-Quiet D t h
      ▹ tt)

  pretty_attrs-Quiet : (p : Prototype) → Quiet (pretty_attrs D p)
  unfolding pretty_attrs
  pretty_attrs-Quiet p = interspersed-Quiet D _ p.attrs D.space (pretty_attribute-Quiet D)

  pretty_params_of-Binds :
      (p : Prototype) → Binds (bound_values (param_ids p.params)) (pretty_params_of D p)
  unfolding pretty_params_of
  pretty_params_of-Binds p = mapped-Binds _ _ _ (pretty_params-Binds D p.params)

  pub rec_defn-Quiet : (p : Prototype) (body : M Doc) → Quiet body → Quiet (rec_defn D p body)
  unfolding rec_defn
  rec_defn-Quiet p body h = scoped-Quiet _ _ (
      docs-Binds D ([] ∷ [] ∷ [] ∷ bound_values (param_ids p.params) ∷ [] ∷ [] ∷ [] ∷ []) _ (
        pretty_value_name-Quiet D p.name
        ▹ pretty_attrs-Quiet p
        ▹ ret-Binds _
        ▹ pretty_params_of-Binds p
        ▹ ret-Binds _
        ▹ ret-Binds _
        ▹ mapped-Binds [] _ _ h
        ▹ tt))

  nonrec_defn-Quiet : (p : Prototype) (body : M Doc) → Quiet body → Quiet (nonrec_defn D p body)
  unfolding nonrec_defn
  nonrec_defn-Quiet p body h =
      scoped_then-Quiet (λ _. bound_values (param_ids p.params)) _ _ (pretty_attrs-Quiet p)
        λ attrs.
          then-Quiet _ _ _ (pretty_params_of-Binds p)
            λ params. then-Quiet [] _ _ (mapped-Binds [] _ _ h) λ b. ret-Binds _

  pretty_nonrec-Binds : (d : NonRecDefnDoc D) → Binds (value d.0 ∷ []) (pretty_nonrec D d)
  unfolding pretty_nonrec
  pretty_nonrec-Binds (id, attrs, params, body) = bound_first id _ (
      docs-Quiet D _ (
        pretty_value_name-Quiet D id
        ▹ ret-Binds _
        ▹ ret-Binds _
        ▹ ret-Binds _
        ▹ ret-Binds _
        ▹ ret-Binds _
        ▹ ret-Binds _
        ▹ tt))

  with_handlers-Quiet :
      (main : M Doc) (handlers : M (List Doc))
      → Quiet main
      → Quiet handlers
      → Quiet (with_handlers D main handlers)
  unfolding with_handlers
  with_handlers-Quiet main handlers h k =
      then-Quiet [] _ _ h λ d. then-Quiet [] _ _ k λ ds. ret-Binds _

  with_named-Binds :
      (bs : List Bound) (handlers : M (List Doc)) (main : M Doc)
      → Binds bs handlers
      → Quiet main
      → Binds bs (with_named D handlers main)
  unfolding with_named
  with_named-Binds bs handlers main h k =
      then-Quiet bs _ _ h λ ds. then-Quiet [] _ _ k λ d. ret-Binds _

  -- `split_at` is given an index within the list.
  app_doc-IsSome : (l : Layout Doc) → PartitionsWithin D → (d : Doc) × (app_doc D l ≡ some d)
  unfolding app_doc
  app_doc-IsSome l within =
      let answers = map (λ a. not a.0) l.args in
      let (parts, e) =
        split_at-IsSome (D.partition_point answers) l.args
          (omega (arith, within answers, length-map (λ (a : Bool × Doc). not a.0) l.args)) in
      (parts_doc D l parts.0 parts.1, rw (e, app_doc) refl)

  assembled-Quiet : (l : Layout Doc) → PartitionsWithin D → Quiet (assembled D l)
  unfolding assembled
  assembled-Quiet l within =
      let (d, e) = app_doc-IsSome l within in
      if-Binds [] (is_empty l.args) _ _ (ret-Binds l.head) (rw (e) (ret-Binds d))

  module _ (within : PartitionsWithin D) where
    whole : (m : M (Layout Doc)) → Quiet m → Quiet (m >>= assembled D)
    whole m h = then-Quiet [] m _ h λ l. assembled-Quiet l within

    mutual
      unfolding layout pretty_arg pretty_rec_defns pretty_nonrec_defns

      layout-Quiet : (e : Expr) → IsPrintableExpr e → Quiet (layout D e)
      layout-Quiet (Expr.name nm) h = mapped-Binds [] _ _ (name_value-Quiet D nm)
      layout-Quiet (Expr.app e arg) h =
          then-Quiet [] _ _ (layout-Quiet e h.0)
            λ l. then-Quiet [] _ _ (arg-Quiet arg h.1) λ d. ret-Binds _
      layout-Quiet (Expr.lambda params body) h = mapped-Binds [] _ _ (
          scoped-Quiet (bound_values (param_ids params)) _ (
            then-Quiet _ _ _ (pretty_params-Binds D params)
              λ ps. then-Quiet [] _ _ (whole _ (layout-Quiet body h)) λ b. ret-Binds _))
      layout-Quiet (Expr.defn k true defs) h = mapped-Binds [] _ _ (
          scoped-Quiet (bound_values (handler_names defs)) _ (
            then-Quiet _ _ _ (bind_values-Binds (handler_names defs)) λ _.
              with_handlers-Quiet _ _ (whole _ (layout-Quiet k h.0)) (rec_defns-Quiet defs h.1)))
      layout-Quiet (Expr.defn k false defs) h = mapped-Binds [] _ _ (
          scoped_then-Quiet (all_bounds λ d. value d.0 ∷ []) _ _ (nonrec_defns-Quiet defs h.1)
            λ printed.
              with_named-Binds _ _ _ (each-Binds _ _ printed pretty_nonrec-Binds)
                (whole _ (layout-Quiet k h.0)))
      layout-Quiet (Expr.assign k asgns) h = mapped-Binds [] _ _ (
          docs-Quiet D _ (
            mapped-Binds [] _ _ (each-All _ asgns pretty_assignment-Quiet h.1)
            ▹ ret-Binds _
            ▹ if-Binds [] (needs_parens k) _ _ (mapped-Binds [] _ _ (whole _ (layout-Quiet k h.0)))
                (whole _ (layout-Quiet k h.0))
            ▹ tt))
      layout-Quiet (Expr.let_in k lets) h = mapped-Binds [] _ _ (
          scoped-Quiet (bound_values (var_ids lets)) _ (
            then-Quiet _ _ _ (mapped-Binds _ _ _ (each_var-Binds lets h.1))
              λ ls. docs-Quiet D _ (whole _ (layout-Quiet k h.0) ▹ ret-Binds _ ▹ tt)))
      layout-Quiet (Expr.assert t e) h = mapped-Binds [] _ _ (
          docs-Quiet D _ (
            mapped-Binds [] _ _ (pretty_exp-Quiet D t h.0)
            ▹ ret-Binds _
            ▹ whole _ (layout-Quiet e h.1)
            ▹ tt))
      layout-Quiet (Expr.assume t e) h = mapped-Binds [] _ _ (
          docs-Quiet D _ (
            mapped-Binds [] _ _ (pretty_exp-Quiet D t h.0)
            ▹ ret-Binds _
            ▹ whole _ (layout-Quiet e h.1)
            ▹ tt))
      layout-Quiet (Expr.black_box e) h = mapped-Binds [] _ _ (
          mapped-Binds [] _ _
            (docs-Quiet D _ (ret-Binds _ ▹ ret-Binds _ ▹ whole _ (layout-Quiet e h) ▹ tt)))
      layout-Quiet (Expr.white_box e) h = mapped-Binds [] _ _ (
          mapped-Binds [] _ _
            (docs-Quiet D _ (ret-Binds _ ▹ ret-Binds _ ▹ whole _ (layout-Quiet e h) ▹ tt)))
      layout-Quiet Expr.any h = mapped-Binds [] _ _ (ret-Binds _)

      arg-Quiet : (a : Arg) → IsPrintableArg a → Quiet (pretty_arg D a)
      arg-Quiet (Arg.ty t) h = mapped-Binds [] _ _ (pretty_type-Quiet D t)
      arg-Quiet (Arg.term t) h = mapped-Binds [] _ _ (pretty_exp-Quiet D t h)
      arg-Quiet (Arg.ref r) h = docs-Quiet D _ (ret-Binds _ ▹ pretty_value_name-Quiet D r ▹ tt)
      arg-Quiet (Arg.cont e) h = mapped-Binds [] _ _ (whole _ (layout-Quiet e h))

      rec_defns-Quiet : (defs : Defns) → ArePrintableDefns defs → Quiet (pretty_rec_defns D defs)
      rec_defns-Quiet Defns.nil h = ret-Binds []
      rec_defns-Quiet (Defns.cons (Defn.handler p body) defs) h =
          cons-Quiet _ _ _ (rec_defn-Quiet p _ (whole _ (layout-Quiet body h.0)))
            (rec_defns-Quiet defs h.1)

      nonrec_defns-Quiet :
          (defs : Defns) → ArePrintableDefns defs → Quiet (pretty_nonrec_defns D defs)
      nonrec_defns-Quiet Defns.nil h = ret-Binds []
      nonrec_defns-Quiet (Defns.cons (Defn.handler p body) defs) h =
          cons-Quiet _ _ _ (nonrec_defn-Quiet p _ (whole _ (layout-Quiet body h.0)))
            (nonrec_defns-Quiet defs h.1)

  pub pretty_expr-Quiet :
      (e : Expr) → PartitionsWithin D → IsPrintableExpr e → Quiet (pretty_expr D e)
  unfolding pretty_expr
  pretty_expr-Quiet e within h = whole within _ (layout-Quiet within e h)

  pub pretty_defn-Binds :
      (p : Prototype) (body : Expr)
      → PartitionsWithin D
      → IsPrintableExpr body
      → Binds (value p.name ∷ []) (pretty_defn D (Defn.handler p body))
  unfolding pretty_defn
  pretty_defn-Binds p body within h = bound_first p.name _ (
      scoped-Quiet [] _
        (docs-Quiet D _ (ret-Binds _ ▹ rec_defn-Quiet p _ (pretty_expr-Quiet body within h) ▹ tt)))

  -- Printing a program of Coma never panics, if its terms can be printed, and it leaves the scopes exactly as
  -- they were: the names of parameters, handlers and variables are unbound again.
  pub pretty_expr_lem :
      (e : Expr) (s : Why3Scope)
      → PartitionsWithin D
      → IsPrintableExpr e
      → (d : Doc) × (pretty_expr D e s ≡ some (d, s))
  pretty_expr_lem e s within h = runs-Quiet (pretty_expr D e) s (pretty_expr-Quiet e within h)
