-- ===== src/Why3/Print/Terms/Expressions.antt =====
-- why3/src/printer.rs: `pretty` of expressions and of triggers.
use creusot.Prelude.{List, [], ◌∷◌, if◌then◌else◌}
use creusot.Prelude.Decimal.{Text, codes}
use creusot.Why3.Exp.{
  Exp, Exps, NamedExps, Arms, Triggers, UnOp, let_in, var, record_literal, rec_up, rec_field,
  constructor, fun_literal, const, binary_op, unary_op, call, lam, match_with, if_then_else,
  ascribe, impl, forall_in, exists_in, nil, cons, no_field, field, no_arm, arm, no_trigger, trigger,
  not_op, neg, float_neg,
}
use creusot.Why3.Exp.Precedence.{
  Precedence, precedence, next, if_let, attribute, cast, app, brackets,
}
use creusot.Why3.Print.{Docs, M, ret, ◌>>=◌, scoped, mapped, docs, lit, interspersed}
use creusot.Why3.Print.Terms.{
  no_exps, has_trigger, left_precedence, right_precedence, name_value, pretty_attribute,
  pretty_type, pretty_constant, pretty_binder, pretty_pattern, parens, sep_end_by, infix_op,
  pretty_quantified,
}

-- The sign of a unary operator.
abbrev pub un_op_sign : UnOp → Text
un_op_sign not_op = codes "not "
un_op_sign neg = codes "- "
un_op_sign float_neg = codes ".- "

module _ (D : Docs) where
  open D use {Doc}

  abbrev pub joined_by : Doc → M (List Doc) → M Doc
  joined_by separator m = mapped (λ ds. D.intersperse ds separator) m

  -- `{ .. }` around the fields of a record, `start` in front of them.
  abbrev pub braced : M Doc → M Doc
  braced m = mapped (λ d. D.group (D.braces d)) m

  abbrev pub aligned_fields : M (List Doc) → M Doc
  aligned_fields m =
      mapped (λ ds. D.align (D.intersperse ds (D.append (D.text (codes ";")) D.line))) m

  -- `line.append(doc).nest(2).append(end)`, a branch of a conditional.
  abbrev pub branch : M Doc → Doc → M Doc
  branch m end = docs D (mapped (D.nest 2) (docs D (ret D.line ∷ m ∷ [])) ∷ ret end ∷ [])

  unfoldable mutual
    pub pretty_exp : Exp → M Doc
    pretty_exp (let_in pattern arg body) = scoped (do
      a ← pretty_exp arg
      docs D (
          lit D "let "
          ∷ pretty_pattern D pattern
          ∷ lit D " = "
          ∷ ret a
          ∷ lit D " in "
          ∷ pretty_exp body
          ∷ []))
    pretty_exp (var v) = name_value D v
    pretty_exp (rec_field r label) = docs D (
        parens D (next (precedence (rec_field r label))) r (pretty_exp r)
        ∷ lit D "."
        ∷ name_value D label
        ∷ [])
    pretty_exp (Exp.tuple args) =
        mapped D.parens (joined_by (D.text (codes ", ")) (pretty_within cast args))
    pretty_exp (constructor ctor args) =
        let printed = pretty_within brackets args in
        docs D (
          name_value D ctor
          ∷ (if no_exps args
              then ret D.nil
              else docs D (ret D.space ∷ joined_by (D.text (codes " ")) printed ∷ []))
          ∷ [])
    pretty_exp (fun_literal exps) =
        mapped (D.enclose (D.text (codes "[|")) (D.text (codes "|]")))
          (joined_by (D.text (codes ";")) (pretty_within if_let exps))
    pretty_exp (const c) = pretty_constant D c
    pretty_exp (unary_op op e) =
        docs D (
          ret (D.text (un_op_sign op))
          ∷ parens D (precedence (unary_op op e)) e (pretty_exp e)
          ∷ [])
    pretty_exp (binary_op op l r) = mapped D.group (
        docs D (
          parens D (left_precedence (binary_op op l r)) l (pretty_exp l)
          ∷ ret D.line
          ∷ infix_op D op
          ∷ ret D.space
          ∷ parens D (right_precedence (binary_op op l r)) r (pretty_exp r)
          ∷ []))
    pretty_exp (call f args) = docs D (
        parens D (precedence (call f args)) f (pretty_exp f)
        ∷ ret D.space
        ∷ joined_by D.space (pretty_within (next app) args)
        ∷ [])
    pretty_exp (Exp.attr a e) = docs D (pretty_attribute D a ∷ ret D.space ∷ pretty_exp e ∷ [])
    pretty_exp (lam binders body) = scoped (
        docs D (
          lit D "fun "
          ∷ interspersed D (pretty_binder D) binders D.space
          ∷ lit D " -> "
          ∷ pretty_exp body
          ∷ []))
    pretty_exp (match_with scrut brs) = docs D (
        lit D "match "
        ∷ pretty_exp scrut
        ∷ lit D " with"
        ∷ ret D.hardline
        ∷ mapped (λ ds. D.indent 2 (D.append (sep_end_by D ds D.hardline) (D.text (codes "end"))))
            (pretty_arms brs)
        ∷ [])
    pretty_exp (if_then_else s i e) = mapped D.group (
        docs D (
          lit D "if "
          ∷ pretty_exp s
          ∷ lit D " then"
          ∷ branch (pretty_exp i) D.line
          ∷ lit D "else"
          ∷ branch (pretty_exp e) D.line_or_nil
          ∷ []))
    pretty_exp (forall_in binders trig e) =
        let within = pretty_triggers trig in
        scoped (
          docs D (
            lit D "forall "
            ∷ interspersed D (pretty_quantified D) binders (D.text (codes ", "))
            ∷ (if has_trigger trig
                then docs D (lit D " [" ∷ joined_by (D.text (codes " | ")) within ∷ lit D "]" ∷ [])
                else ret D.nil)
            ∷ lit D " . "
            ∷ pretty_exp e
            ∷ []))
    pretty_exp (exists_in binders trig e) =
        let within = pretty_triggers trig in
        scoped (
          docs D (
            lit D "exists "
            ∷ interspersed D (pretty_quantified D) binders (D.text (codes ", "))
            ∷ (if has_trigger trig
                then docs D (lit D " [" ∷ joined_by (D.text (codes " | ")) within ∷ lit D "]" ∷ [])
                else ret D.nil)
            ∷ lit D " . "
            ∷ pretty_exp e
            ∷ []))
    pretty_exp (impl hyp e) = docs D (
        parens D (precedence (impl hyp e)) hyp (pretty_exp hyp)
        ∷ mapped D.group (
            docs D (
              ret D.line ∷ lit D " -> " ∷ parens D (precedence (impl hyp e)) e (pretty_exp e) ∷ []))
        ∷ [])
    pretty_exp (ascribe e t) = mapped D.group (
        docs D (
          parens D (precedence (ascribe e t)) e (pretty_exp e)
          ∷ lit D " : "
          ∷ pretty_type D t
          ∷ []))
    pretty_exp (rec_up r updates) = braced (
        docs D (
          ret D.space
          ∷ parens D (next (precedence (rec_up r updates))) r (pretty_exp r)
          ∷ lit D " with "
          ∷ aligned_fields (pretty_fields updates)
          ∷ ret D.space
          ∷ []))
    pretty_exp (record_literal fields) =
        braced (docs D (ret D.space ∷ aligned_fields (pretty_fields fields) ∷ ret D.space ∷ []))

    -- Each operand in parentheses where its precedence asks for them.
    pub pretty_within : Precedence → Exps → M (List Doc)
    pretty_within prec nil = ret []
    pretty_within prec (cons e es) = do
      d ← parens D prec e (pretty_exp e)
      ds ← pretty_within prec es
      ret (d ∷ ds)

    pub pretty_exps : Exps → M (List Doc)
    pretty_exps nil = ret []
    pretty_exps (cons e es) = do d ← pretty_exp e; ds ← pretty_exps es; ret (d ∷ ds)

    pub pretty_fields : NamedExps → M (List Doc)
    pretty_fields no_field = ret []
    pretty_fields (field nm a rest) = do
      d ← docs D (name_value D nm ∷ lit D " = " ∷ parens D (next attribute) a (pretty_exp a) ∷ [])
      ds ← pretty_fields rest
      ret (d ∷ ds)

    pub pretty_arms : Arms → M (List Doc)
    pretty_arms no_arm = ret []
    pretty_arms (arm pat br rest) = do
      d ← scoped (docs D (lit D "| " ∷ pretty_pattern D pat ∷ lit D " -> " ∷ pretty_exp br ∷ []))
      ds ← pretty_arms rest
      ret (d ∷ ds)

    pub pretty_triggers : Triggers → M (List Doc)
    pretty_triggers no_trigger = ret []
    pretty_triggers (trigger es rest) = do
      d ← joined_by (D.text (codes ", ")) (pretty_exps es)
      ds ← pretty_triggers rest
      ret (d ∷ ds)
