-- ===== src/Why3/Print/Terms/Safe.antt =====
-- why3/src/printer.rs: printing an expression does not panic, and leaves the scopes as they were.
use creusot.Prelude.{
  arith, ◌&&◌, not, ltb, ◌==◌, List, [], ◌∷◌, ◌++◌, none, some, ◌≡◌, if◌then◌else◌,
}
use creusot.Prelude.Decimal.{codes}
use creusot.Why3.Name.{Ident}
use creusot.Why3.Types.{WhyType}
use creusot.Why3.Exp.{
  Exp, Exps, NamedExps, Arms, Triggers, BinOp, Constant, let_in, var, record_literal, rec_up,
  rec_field, constructor, fun_literal, const, binary_op, unary_op, call, lam, match_with,
  if_then_else, ascribe, impl, forall_in, exists_in, nil, cons, no_field, field, no_arm, arm,
  no_trigger, trigger, int, uint, float, string, other, bool, char,
}
use creusot.Why3.Exp.Semantics.{binder_ids, quantified_ids, pattern_ids}
use creusot.Why3.Exp.Precedence.{Precedence, rank, precedence, exp_associativity, atom}
use creusot.Why3.Print.{Docs, Why3Scope, M, mapped, ret, ◌>>=◌, scoped, docs, lit, interspersed}
use creusot.Why3.Print.Bound.{Bound, Binds, Quiet, runs-Quiet, ret-Binds, >>=-Binds, mapped-Binds}
use creusot.Why3.Print.Bound.Documents.{◌▹◌, docs-Quiet, docs-Binds}
use creusot.Why3.Print.Bound.Scoped.{scoped-Quiet}
use creusot.Why3.Print.Terms.{
  no_exps, has_trigger, is_sign_negative, dir_index, pretty_constant, parens, infix_op,
  pretty_quantified,
}
use creusot.Why3.Print.Terms.Expressions.{
  joined_by, branch, pretty_exp, pretty_within, pretty_exps, pretty_fields, pretty_arms,
  pretty_triggers,
}
use creusot.Why3.Print.Terms.Printable.{
  HasSign, IsPrintableConstant, IsPrintable, ArePrintable, ArePrintableFields, ArePrintableArms,
  ArePrintableTriggers,
}
use creusot.Why3.Print.Terms.Names.{
  bound_values, if-Binds, cons-Quiet, name_value-Quiet, pretty_attribute-Quiet, pretty_type-Quiet,
  of_type-Quiet, quantified-Binds, binders-Binds,
}
use creusot.Why3.Print.Terms.Matched.{pretty_pattern-Binds}

module _ (D : Docs) where
  open D use {Doc}

  pub parens-Quiet :
      (prec : Precedence) (child : Exp) (m : M Doc) → Quiet m → Quiet (parens D prec child m)
  unfolding parens
  parens-Quiet prec child m h = if-Binds [] (rank (precedence child) == rank atom) _ _ h (
      if-Binds [] (ltb (rank (precedence child)) (rank prec)) _ _ (mapped-Binds [] _ m h) (
        if-Binds []
          ((rank (precedence child) == rank prec)
            && not (dir_index (exp_associativity child) == dir_index (exp_associativity child)))
          _ _ (mapped-Binds [] _ m h) h))

  -- The associativity, which the code compares with itself, makes no difference.
  pub parens_lem :
      (prec : Precedence) (child : Exp) (m : M Doc)
      → parens D prec child m ≡ (
          if not (rank (precedence child) == rank atom) && ltb (rank (precedence child)) (rank prec)
          then mapped D.parens m
          else m)
  unfolding parens
  parens_lem prec child m = ground arith

  infix_op-Quiet : (op : BinOp) → HasSign op → Quiet (infix_op D op)
  unfolding infix_op
  infix_op-Quiet op (sign, has) = rw (has, infix_op) (ret-Binds (D.text sign))

  constant-Quiet : (k : Constant) → IsPrintableConstant k → Quiet (pretty_constant D k)
  unfolding pretty_constant
  constant-Quiet (other o) h = ret-Binds _
  constant-Quiet (bool b) h = if-Binds [] b _ _ (ret-Binds _) (ret-Binds _)
  constant-Quiet (char c ty) h = of_type-Quiet D _ ty (ret-Binds _)
  constant-Quiet (int i none) h = ret-Binds _
  constant-Quiet (int i (some ty)) h = of_type-Quiet D _ ty (ret-Binds _)
  constant-Quiet (uint i none) h = ret-Binds _
  constant-Quiet (uint i (some ty)) h = of_type-Quiet D _ ty (ret-Binds _)
  constant-Quiet (string s) h = ret-Binds _
  constant-Quiet (float f none) h =
      rw (h) (if-Binds [] (is_sign_negative f) _ _ (ret-Binds _) (ret-Binds _))
  constant-Quiet (float f (some ty)) h = rw (h) (of_type-Quiet D _ ty (ret-Binds _))

  -- Names bound by a binder in front, and a body that binds none.
  headed-Quiet :
      (ids : List Ident) (head binder arrow body : M Doc)
      → Quiet head
      → Binds (bound_values ids) binder
      → Quiet arrow
      → Quiet body
      → Quiet (scoped (docs D (head ∷ binder ∷ arrow ∷ body ∷ [])))
  headed-Quiet ids head binder arrow body h b a k =
      scoped-Quiet _ _ (docs-Binds D ([] ∷ bound_values ids ∷ [] ∷ [] ∷ []) _ (h ▹ b ▹ a ▹ k ▹ tt))

  first-Quiet :
      {A B : Type 0} (bs : List Bound) (m : M A) (f : A → M B)
      → Quiet m
      → ((a : A) → Binds bs (f a))
      → Binds bs (m >>= f)
  first-Quiet bs m f h k = >>=-Binds [] bs m f h k

  branch-Quiet : (m : M Doc) (end : Doc) → Quiet m → Quiet (branch D m end)
  branch-Quiet m end h =
      docs-Quiet D _
        (mapped-Binds [] _ _ (docs-Quiet D _ (ret-Binds _ ▹ h ▹ tt)) ▹ ret-Binds _ ▹ tt)

  -- What `forall` and `exists` share.
  quantified-Quiet :
      (bs : List (Ident × WhyType)) (ts : Triggers) (head body : M Doc) (within : M (List Doc))
      → Quiet head
      → Quiet within
      → Quiet body
      → Quiet (
          scoped (
            docs D (
              head
              ∷ interspersed D (pretty_quantified D) bs (D.text (codes ", "))
              ∷ (if has_trigger ts
                  then docs D
                      (lit D " [" ∷ joined_by D (D.text (codes " | ")) within ∷ lit D "]" ∷ [])
                  else ret D.nil)
              ∷ lit D " . "
              ∷ body
              ∷ [])))
  quantified-Quiet bs ts head body within h w k = scoped-Quiet _ _ (
      docs-Binds D ([] ∷ bound_values (quantified_ids bs) ∷ [] ∷ [] ∷ [] ∷ []) _ (
        h
        ▹ quantified-Binds D bs _
        ▹ if-Binds [] (has_trigger ts) _ _
            (docs-Quiet D _ (ret-Binds _ ▹ mapped-Binds [] _ _ w ▹ ret-Binds _ ▹ tt)) (ret-Binds _)
        ▹ ret-Binds _
        ▹ k
        ▹ tt))

  mutual
    unfolding pretty_exp pretty_within pretty_exps pretty_fields pretty_arms pretty_triggers

    exp-Quiet : (e : Exp) → IsPrintable e → Quiet (pretty_exp D e)
    exp-Quiet (let_in p arg body) h = scoped-Quiet (bound_values (pattern_ids p) ++ []) _ (
        first-Quiet _ (pretty_exp D arg) _ (exp-Quiet arg h.0) λ a.
          docs-Binds D ([] ∷ bound_values (pattern_ids p) ∷ [] ∷ [] ∷ [] ∷ [] ∷ []) _ (
            ret-Binds _
            ▹ pretty_pattern-Binds D p
            ▹ ret-Binds _
            ▹ ret-Binds _
            ▹ ret-Binds _
            ▹ exp-Quiet body h.1
            ▹ tt))
    exp-Quiet (var v) h = name_value-Quiet D v
    exp-Quiet (record_literal fields) h = mapped-Binds [] _ _ (
        docs-Quiet D _
          (ret-Binds _ ▹ mapped-Binds [] _ _ (fields-Quiet fields h) ▹ ret-Binds _ ▹ tt))
    exp-Quiet (rec_up r updates) h = mapped-Binds [] _ _ (
        docs-Quiet D _ (
          ret-Binds _
          ▹ parens-Quiet _ r _ (exp-Quiet r h.0)
          ▹ ret-Binds _
          ▹ mapped-Binds [] _ _ (fields-Quiet updates h.1)
          ▹ ret-Binds _
          ▹ tt))
    exp-Quiet (rec_field r label) h =
        docs-Quiet D _
          (parens-Quiet _ r _ (exp-Quiet r h) ▹ ret-Binds _ ▹ name_value-Quiet D label ▹ tt)
    exp-Quiet (Exp.tuple es) h = mapped-Binds [] _ _ (mapped-Binds [] _ _ (within-Quiet _ es h))
    exp-Quiet (constructor c es) h = docs-Quiet D _ (
        name_value-Quiet D c
        ▹ if-Binds [] (no_exps es) _ _ (ret-Binds _)
            (docs-Quiet D _ (ret-Binds _ ▹ mapped-Binds [] _ _ (within-Quiet _ es h) ▹ tt))
        ▹ tt)
    exp-Quiet (fun_literal es) h = mapped-Binds [] _ _ (mapped-Binds [] _ _ (within-Quiet _ es h))
    exp-Quiet (const k) h = constant-Quiet k h
    exp-Quiet (binary_op op l r) (sign, hl, hr) = mapped-Binds [] _ _ (
        docs-Quiet D _ (
          parens-Quiet _ l _ (exp-Quiet l hl)
          ▹ ret-Binds _
          ▹ infix_op-Quiet op sign
          ▹ ret-Binds _
          ▹ parens-Quiet _ r _ (exp-Quiet r hr)
          ▹ tt))
    exp-Quiet (unary_op op e) h =
        docs-Quiet D _ (ret-Binds _ ▹ parens-Quiet _ e _ (exp-Quiet e h) ▹ tt)
    exp-Quiet (call f es) h = docs-Quiet D _ (
        parens-Quiet _ f _ (exp-Quiet f h.0)
        ▹ ret-Binds _
        ▹ mapped-Binds [] _ _ (within-Quiet _ es h.1)
        ▹ tt)
    exp-Quiet (Exp.attr a e) h =
        docs-Quiet D _ (pretty_attribute-Quiet D a ▹ ret-Binds _ ▹ exp-Quiet e h ▹ tt)
    exp-Quiet (lam bs body) h =
        headed-Quiet (binder_ids bs) _ _ _ _ (ret-Binds _) (binders-Binds D bs _) (ret-Binds _)
          (exp-Quiet body h)
    exp-Quiet (match_with e arms) h = docs-Quiet D _ (
        ret-Binds _
        ▹ exp-Quiet e h.0
        ▹ ret-Binds _
        ▹ ret-Binds _
        ▹ mapped-Binds [] _ _ (arms-Quiet arms h.1)
        ▹ tt)
    exp-Quiet (if_then_else c l r) (hc, hl, hr) = mapped-Binds [] _ _ (
        docs-Quiet D _ (
          ret-Binds _
          ▹ exp-Quiet c hc
          ▹ ret-Binds _
          ▹ branch-Quiet _ _ (exp-Quiet l hl)
          ▹ ret-Binds _
          ▹ branch-Quiet _ _ (exp-Quiet r hr)
          ▹ tt))
    exp-Quiet (ascribe e ty) h = mapped-Binds [] _ _ (
        docs-Quiet D _
          (parens-Quiet _ e _ (exp-Quiet e h) ▹ ret-Binds _ ▹ pretty_type-Quiet D ty ▹ tt))
    exp-Quiet (impl l r) h = docs-Quiet D _ (
        parens-Quiet _ l _ (exp-Quiet l h.0)
        ▹ mapped-Binds [] _ _
            (docs-Quiet D _ (ret-Binds _ ▹ ret-Binds _ ▹ parens-Quiet _ r _ (exp-Quiet r h.1) ▹ tt))
        ▹ tt)
    exp-Quiet (forall_in bs ts e) h =
        quantified-Quiet bs ts _ _ _ (ret-Binds _) (triggers-Quiet ts h.0) (exp-Quiet e h.1)
    exp-Quiet (exists_in bs ts e) h =
        quantified-Quiet bs ts _ _ _ (ret-Binds _) (triggers-Quiet ts h.0) (exp-Quiet e h.1)

    within-Quiet :
        (prec : Precedence) (es : Exps) → ArePrintable es → Quiet (pretty_within D prec es)
    within-Quiet prec nil h = ret-Binds []
    within-Quiet prec (cons e es) h =
        cons-Quiet _ _ _ (parens-Quiet prec e _ (exp-Quiet e h.0)) (within-Quiet prec es h.1)

    exps-Quiet : (es : Exps) → ArePrintable es → Quiet (pretty_exps D es)
    exps-Quiet nil h = ret-Binds []
    exps-Quiet (cons e es) h = cons-Quiet _ _ _ (exp-Quiet e h.0) (exps-Quiet es h.1)

    fields-Quiet : (fs : NamedExps) → ArePrintableFields fs → Quiet (pretty_fields D fs)
    fields-Quiet no_field h = ret-Binds []
    fields-Quiet (field name e fs) h =
        cons-Quiet _ _ _
          (docs-Quiet D _
            (name_value-Quiet D name ▹ ret-Binds _ ▹ parens-Quiet _ e _ (exp-Quiet e h.0) ▹ tt))
          (fields-Quiet fs h.1)

    arms-Quiet : (arms : Arms) → ArePrintableArms arms → Quiet (pretty_arms D arms)
    arms-Quiet no_arm h = ret-Binds []
    arms-Quiet (arm p e rest) h =
        cons-Quiet _ _ _
          (headed-Quiet (pattern_ids p) _ _ _ _ (ret-Binds _) (pretty_pattern-Binds D p)
            (ret-Binds _) (exp-Quiet e h.0))
          (arms-Quiet rest h.1)

    triggers-Quiet : (ts : Triggers) → ArePrintableTriggers ts → Quiet (pretty_triggers D ts)
    triggers-Quiet no_trigger h = ret-Binds []
    triggers-Quiet (trigger es ts) h =
        cons-Quiet _ _ _ (mapped-Binds [] _ _ (exps-Quiet es h.0)) (triggers-Quiet ts h.1)

  pub pretty_exp-Quiet : (e : Exp) → IsPrintable e → Quiet (pretty_exp D e)
  pretty_exp-Quiet e h = exp-Quiet e h

  -- Printing an expression never panics, if the constants in it are finite and its operators have a sign in
  -- Why3, and it leaves the scopes exactly as they were, whatever names the expression binds.
  pub pretty_exp_lem :
      (e : Exp) (s : Why3Scope) → IsPrintable e → (d : Doc) × (pretty_exp D e s ≡ some (d, s))
  pretty_exp_lem e s h = runs-Quiet (pretty_exp D e) s (pretty_exp-Quiet e h)
