-- ===== src/Why3/Print/Coma.antt =====
-- why3/src/coma.rs: how Coma is printed.
pub mod Printable
pub mod Binders
pub mod Safe
use creusot.Prelude.{
  Bool, true, false, not, ◌&&◌, List, [], ◌∷◌, ◌++◌, map, Option, none, some, if◌then◌else◌,
  split_at,
}
use creusot.Prelude.Decimal.{Text, codes}
use creusot.Why3.Name.{Ident}
use creusot.Why3.Types.{WhyType}
use creusot.Why3.Exp.{Exp}
use creusot.Why3.Coma.{IsRef, Var, Param, Params, Prototype, Expr, Arg, Defn, Defns, a_ref, not_ref}
use creusot.Why3.Print.{
  Docs, M, ret, result, ◌>>=◌, ◌>>◌, scoped, mapped, each, bind_value, docs, lit, pretty_value_name,
  interspersed,
}
use creusot.Why3.Print.Terms.{name_value, pretty_attribute, pretty_type, pretty_bound}
use creusot.Why3.Print.Terms.Expressions.{pretty_exp, joined_by}

abbrev pub is_lambda : Expr → Bool
is_lambda (Expr.lambda _ _) = true
is_lambda _ = false

abbrev pub is_cont : Arg → Bool
is_cont (Arg.cont _) = true
is_cont _ = false

-- The head of an application stands in parentheses.
abbrev pub needs_paren : Expr → Bool
needs_paren (Expr.app _ _) = false
needs_paren (Expr.name _) = false
needs_paren Expr.any = false
needs_paren (Expr.lambda _ _) = false
needs_paren _ = true

-- The expression under an assignment stands in parentheses.
abbrev pub needs_parens : Expr → Bool
needs_parens (Expr.let_in _ _) = true
needs_parens (Expr.defn _ _ _) = true
needs_parens _ = false

abbrev pub is_empty : {A : Type 0} → List A → Bool
is_empty [] = true
is_empty (x ∷ xs) = false

abbrev pub no_params : Params → Bool
no_params Params.nil = true
no_params (Params.cons p ps) = false

-- `defn.prototype.name` of each.
unfoldable pub handler_names : Defns → List Ident
handler_names Defns.nil = []
handler_names (Defns.cons (Defn.handler prototype body) defs) = prototype.name ∷ handler_names defs

-- `for_each(|defn| scope.bind_value(defn.prototype.name))`
unfoldable pub bind_values : List Ident → M (Unit {0})
bind_values [] = ret tt
bind_values (id ∷ ids) = bind_value id >> bind_values ids

-- The application that the loop over `cur` collects: its head, whether it is an application at all, and the
-- arguments from the first to the last, with whether each is a continuation.
pub record Layout (A : Type 0) : Type 0 where
  pub head : A
  pub parenthesized : Bool
  pub args : List (Bool × A)

module _ (D : Docs) where
  open D use {Doc}

  unfoldable pub brackets_around : Doc → Doc
  brackets_around doc = if not (D.is_nil doc) then D.nest 2 (D.brackets doc) else doc

  unfoldable pub bracket_list : List Doc → Doc → Doc
  bracket_list ds separator =
      let body = D.group (D.intersperse ds separator) in
      if D.is_nil body
      then body
      else D.group (
          D.append
            (D.append D.line (D.nest 0 (D.brackets (D.append (D.append D.space body) D.space))))
            D.line)

  abbrev pub bar : Doc
  bar = D.append D.line (D.text (codes "| "))

  unfoldable mutual
    pub pretty_param : Param → M Doc
    pretty_param (Param.ty t) = docs D (lit D "< " ∷ pretty_type D t ∷ lit D " >" ∷ [])
    pretty_param (Param.term id t) =
        bind_value id
        >> mapped D.parens (docs D (pretty_value_name D id ∷ lit D ":" ∷ pretty_type D t ∷ []))
    pretty_param (Param.reference id t) =
        bind_value id
        >> docs D (lit D "&" ∷ pretty_value_name D id ∷ lit D ":" ∷ pretty_type D t ∷ [])
    pretty_param (Param.cont id writes params) =
        bind_value id
        >> scoped (
            mapped D.parens (
              docs D (
                pretty_value_name D id
                ∷ ret D.space
                ∷ mapped brackets_around
                    (interspersed D (pretty_value_name D) writes (D.text (codes " ")))
                ∷ ret D.space
                ∷ joined_by D (D.text (codes " ")) (pretty_params params)
                ∷ [])))

    pub pretty_params : Params → M (List Doc)
    pretty_params Params.nil = ret []
    pretty_params (Params.cons p ps) = do d ← pretty_param p; ds ← pretty_params ps; ret (d ∷ ds)

  unfoldable pub pretty_var : Var → M Doc
  pretty_var v =
      bind_value v.ident
      >> docs D (
          ret (elim v.is_ref [ a_ref ↦ D.text (codes "& ") | not_ref ↦ D.nil ])
          ∷ pretty_value_name D v.ident
          ∷ lit D " : "
          ∷ pretty_type D v.type_of
          ∷ lit D " = "
          ∷ pretty_exp D v.term
          ∷ [])

  unfoldable pub pretty_assignment : Ident × Exp → M Doc
  pretty_assignment (id, t) = docs D (
      lit D "&"
      ∷ pretty_value_name D id
      ∷ ret D.space
      ∷ lit D "<-"
      ∷ ret D.space
      ∷ pretty_exp D t
      ∷ [])

  -- The arguments in front of the continuations and those after them stand apart.
  unfoldable pub parts_doc : Layout Doc → List (Bool × Doc) → List (Bool × Doc) → Doc
  parts_doc l front back =
      let ty_term = map (λ a. a.1) front in
      let conts = map (λ a. a.1) back in
      D.nest 2 (
        D.group (
          D.append
            (D.append
              (D.group (
                D.append (D.append (if l.parenthesized then D.parens l.head else l.head) D.line)
                  (D.intersperse ty_term D.line)))
              (if not (is_empty ty_term) && not (is_empty conts) then D.line else D.line_or_nil))
            (D.intersperse conts D.line)))

  -- The document of an application whose arguments are printed; `none` is the panic of `split_at`.
  unfoldable pub app_doc : Layout Doc → Option Doc
  app_doc l = elim (split_at (D.partition_point (map (λ a. not a.0) l.args)) l.args) [
    | none ↦ none
    | some parts ↦ some (parts_doc l parts.0 parts.1)
  ]

  -- An expression that is no application is its head.
  unfoldable pub assembled : Layout Doc → M Doc
  assembled l = if is_empty l.args then ret l.head else result (app_doc l)

  -- The header of a definition, in the scope of its parameters: `print_rec_defn` and `print_nonrec_defn`.
  unfoldable pub pretty_attrs : Prototype → M Doc
  pretty_attrs prototype = interspersed D (pretty_attribute D) prototype.attrs D.space

  unfoldable pub pretty_params_of : Prototype → M Doc
  pretty_params_of prototype = joined_by D (D.text (codes " ")) (pretty_params prototype.params)

  unfoldable pub rec_defn : Prototype → M Doc → M Doc
  rec_defn prototype body = scoped (
      docs D (
        pretty_value_name D prototype.name
        ∷ pretty_attrs prototype
        ∷ ret D.space
        ∷ pretty_params_of prototype
        ∷ lit D "="
        ∷ ret D.space
        ∷ mapped (λ d. D.group (D.nest 2 d)) body
        ∷ []))

  -- `NonRecDefnDoc`: the name, and the documents of the attributes, the parameters and the body.
  abbrev pub NonRecDefnDoc : Type 0
  NonRecDefnDoc = Ident × Doc × Doc × Doc

  unfoldable pub nonrec_defn : Prototype → M Doc → M NonRecDefnDoc
  nonrec_defn prototype body = scoped (do
    attrs ← pretty_attrs prototype
    params ← pretty_params_of prototype
    b ← mapped (λ d. D.group (D.nest 2 d)) body
    ret (prototype.name, attrs, params, b))

  unfoldable pub pretty_nonrec : NonRecDefnDoc → M Doc
  pretty_nonrec (id, attrs, params, body) =
      bind_value id
      >> docs D (
          pretty_value_name D id
          ∷ ret attrs
          ∷ ret D.space
          ∷ ret params
          ∷ lit D "->"
          ∷ ret D.space
          ∷ ret body
          ∷ [])

  -- An expression that is no application.
  abbrev pub alone : M Doc → Expr → M (Layout Doc)
  alone m e = mapped (λ d. record { head = d; parenthesized = needs_paren e; args = [] }) m

  -- The expression and then its handlers, and the other way round.
  unfoldable pub with_handlers : M Doc → M (List Doc) → M Doc
  with_handlers main handlers = do d ← main; ds ← handlers; ret (D.append d (bracket_list ds bar))

  unfoldable pub with_named : M (List Doc) → M Doc → M Doc
  with_named handlers main = do ds ← handlers; d ← main; ret (D.append d (bracket_list ds bar))

  unfoldable mutual
    -- The application that an expression is, or the document of an expression that is none.
    pub layout : Expr → M (Layout Doc)
    layout (Expr.name nm) = alone (name_value D nm) (Expr.name nm)
    layout (Expr.app e arg) = do
      l ← layout e
      d ← pretty_arg arg
      ret (record l { args = l.args ++ (is_cont arg, d) ∷ [] })
    layout (Expr.lambda params body) =
        alone
          (scoped (do
            ps ← pretty_params params
            b ← layout body >>= assembled
            ret (
                D.parens (
                  D.nest 2 (
                    D.group (
                      D.append
                        (D.append
                          (if no_params params
                            then D.text (codes "->")
                            else D.append
                                (D.append (D.text (codes "fun "))
                                  (D.intersperse ps (D.text (codes " "))))
                                (D.text (codes " ->")))
                          D.line)
                        b))))))
          (Expr.lambda params body)
    layout (Expr.defn k rec handlers) =
        let main = layout k >>= assembled in
        let recursive = pretty_rec_defns handlers in
        let nonrecursive = pretty_nonrec_defns handlers in
        alone
          (scoped (
            if rec
            then bind_values (handler_names handlers) >> with_handlers main recursive
            else nonrecursive >>= λ printed. with_named (each pretty_nonrec printed) main))
          (Expr.defn k rec handlers)
    layout (Expr.let_in k lets) =
        alone
          (scoped (do
            ls ← mapped (λ ds. bracket_list ds bar) (each pretty_var lets)
            docs D ((layout k >>= assembled) ∷ ret ls ∷ [])))
          (Expr.let_in k lets)
    layout (Expr.assign k asgns) =
        let printed = layout k >>= assembled in
        alone
          (docs D (
            mapped (λ ds. bracket_list ds bar) (each pretty_assignment asgns)
            ∷ ret (if is_empty asgns then D.nil else D.line_or_nil)
            ∷ (if needs_parens k then mapped D.parens printed else printed)
            ∷ []))
          (Expr.assign k asgns)
    layout (Expr.assert t e) =
        alone
          (docs D (
            mapped (λ d. D.group (D.braces d)) (pretty_exp D t)
            ∷ ret D.line
            ∷ (layout e >>= assembled)
            ∷ []))
          (Expr.assert t e)
    layout (Expr.assume t e) =
        alone
          (docs D (
            mapped (D.enclose (D.text (codes "-{")) (D.text (codes "}-"))) (pretty_exp D t)
            ∷ ret D.line
            ∷ (layout e >>= assembled)
            ∷ []))
          (Expr.assume t e)
    layout (Expr.black_box e) =
        alone (mapped D.parens (docs D (lit D "!" ∷ ret D.space ∷ (layout e >>= assembled) ∷ [])))
          (Expr.black_box e)
    layout (Expr.white_box e) =
        alone (mapped D.parens (docs D (lit D "?" ∷ ret D.space ∷ (layout e >>= assembled) ∷ [])))
          (Expr.white_box e)
    layout Expr.any = alone (lit D "any") Expr.any

    pub pretty_arg : Arg → M Doc
    pretty_arg (Arg.ty t) =
        mapped (D.enclose (D.text (codes "<")) (D.text (codes ">"))) (pretty_type D t)
    pretty_arg (Arg.term t) = mapped D.braces (pretty_exp D t)
    pretty_arg (Arg.ref r) = docs D (lit D "& " ∷ pretty_value_name D r ∷ [])
    pretty_arg (Arg.cont e) =
        mapped (if is_lambda e then (λ d. d) else D.parens) (layout e >>= assembled)

    pub pretty_rec_defns : Defns → M (List Doc)
    pretty_rec_defns Defns.nil = ret []
    pretty_rec_defns (Defns.cons (Defn.handler prototype body) defs) = do
      d ← rec_defn prototype (layout body >>= assembled)
      ds ← pretty_rec_defns defs
      ret (d ∷ ds)

    pub pretty_nonrec_defns : Defns → M (List NonRecDefnDoc)
    pretty_nonrec_defns Defns.nil = ret []
    pretty_nonrec_defns (Defns.cons (Defn.handler prototype body) defs) = do
      d ← nonrec_defn prototype (layout body >>= assembled)
      ds ← pretty_nonrec_defns defs
      ret (d ∷ ds)

  -- `Expr::pretty`
  unfoldable pub pretty_expr : Expr → M Doc
  pretty_expr e = layout e >>= assembled

  -- `Defn::pretty`
  unfoldable pub pretty_defn : Defn → M Doc
  pretty_defn (Defn.handler prototype body) =
      bind_value prototype.name
      >> scoped (docs D (lit D "let rec " ∷ rec_defn prototype (pretty_expr body) ∷ []))
