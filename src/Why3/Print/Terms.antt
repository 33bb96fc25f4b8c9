-- ===== src/Why3/Print/Terms.antt =====
-- why3/src/printer.rs: how names, types, patterns and expressions are printed.
pub mod Expressions
pub mod Printable
pub mod Names
pub mod Matched
pub mod Safe
pub mod Panics
use creusot.Prelude.{
  ℕ, ◌/◌, ◌%◌, ◌^◌, Bool, true, false, not, ◌&&◌, ◌||◌, List, [], ◌∷◌, ◌++◌, Option, none, some,
  map, if◌then◌else◌, ◌==◌, ltb,
}
use creusot.Prelude.Decimal.{Text, codes}
use creusot.Why3.Name.{Ident, Name, QName, local, global}
use creusot.Why3.Types.{WhyType, WhyTypes, Attribute, t_var, t_constructor, t_app, t_fun, complex}
use creusot.Why3.Types
use creusot.Why3.Exp.{
  Exp, Exps, NamedExps, Arms, Triggers, BinOp, UnOp, Constant, Binder, Pattern, Patterns,
  NamedPatterns, wild, unnamed, named, typed, wildcard, var_p, tuple_p, cons_p, rec_p, p_nil,
  p_cons, f_nil, f_cons, let_in, var, record_literal, rec_up, rec_field, constructor, fun_literal,
  const, binary_op, unary_op, call, lam, match_with, if_then_else, ascribe, impl, forall_in,
  exists_in, nil, cons, no_field, field, no_arm, arm, no_trigger, trigger, int, uint, float, string,
  other, bool, char,
}
use creusot.Why3.Exp
use creusot.Why3.Exp.Precedence.{
  Precedence, AssocDir, leftward, rightward, rank, precedence, exp_associativity, next, if_let,
  attribute, cast, app, brackets, atom,
}
use creusot.Why3.Print.Float.{print_float}
use creusot.Why3.Print.{
  Docs, M, ret, panic, ◌>>=◌, ◌>>◌, scoped, mapped, bind_value, docs, lit, pretty_value_name,
  pretty_type_name, pretty_span_name, interspersed,
}

-- Whether two directions, or their absence, differ.
abbrev pub dir_index : Option AssocDir → ℕ
dir_index none = 0
dir_index (some leftward) = 1
dir_index (some rightward) = 2

-- `BinOp` to its sign; `none` is `unreachable!`.
unfoldable pub bin_op_to_string : BinOp → Option Text
bin_op_to_string BinOp.log_and = some (codes "/\\")
bin_op_to_string BinOp.lazy_and = some (codes "&&")
bin_op_to_string BinOp.log_or = some (codes "\\/")
bin_op_to_string BinOp.lazy_or = some (codes "||")
bin_op_to_string BinOp.bit_and = none
bin_op_to_string BinOp.bit_or = none
bin_op_to_string BinOp.bit_xor = none
bin_op_to_string BinOp.shl = none
bin_op_to_string BinOp.shr = none
bin_op_to_string BinOp.add = some (codes "+")
bin_op_to_string BinOp.sub = some (codes "-")
bin_op_to_string BinOp.mul = some (codes "*")
bin_op_to_string BinOp.div = some (codes "/")
bin_op_to_string BinOp.mod_op = some (codes "%")
bin_op_to_string BinOp.eq = some (codes "=")
bin_op_to_string BinOp.ne = some (codes "<>")
bin_op_to_string BinOp.gt = some (codes ">")
bin_op_to_string BinOp.ge = some (codes ">=")
bin_op_to_string BinOp.lt = some (codes "<")
bin_op_to_string BinOp.le = some (codes "<=")
bin_op_to_string BinOp.float_add = some (codes ".+")
bin_op_to_string BinOp.float_sub = some (codes ".-")
bin_op_to_string BinOp.float_mul = some (codes ".*")
bin_op_to_string BinOp.float_div = some (codes "./")
bin_op_to_string BinOp.float_eq = some (codes ".=")
bin_op_to_string BinOp.float_lt = some (codes ".<")
bin_op_to_string BinOp.float_le = some (codes ".<=")
bin_op_to_string BinOp.float_gt = some (codes ".>")
bin_op_to_string BinOp.float_ge = some (codes ".>=")

-- `f64::is_finite` and `is_sign_negative`, of the bits.
abbrev pub is_finite : ℕ → Bool
is_finite bits = not (((bits / 2 ^ 52) % 2 ^ 11) == 2047)

abbrev pub is_sign_negative : ℕ → Bool
is_sign_negative bits = (bits / 2 ^ 63) == 1

abbrev pub is_cons_p : Pattern → Bool
is_cons_p (cons_p c ps) = true
is_cons_p _ = false

abbrev pub no_patterns : Patterns → Bool
no_patterns p_nil = true
no_patterns (p_cons p ps) = false

abbrev pub no_exps : Exps → Bool
no_exps nil = true
no_exps (cons e es) = false

abbrev pub no_types : WhyTypes → Bool
no_types WhyTypes.nil = true
no_types (WhyTypes.cons t ts) = false

-- `trig.iter().any(|t| !t.0.is_empty())`
abbrev pub has_trigger : Triggers → Bool
has_trigger no_trigger = false
has_trigger (trigger es ts) = not (no_exps es) || has_trigger ts

-- The precedences that the operands of a binary operator are printed in.
unfoldable pub left_precedence : Exp → Precedence
left_precedence self = elim (exp_associativity self) [
  | none ↦ next (precedence self)
  | some dir ↦ elim dir [ leftward ↦ precedence self | rightward ↦ next (precedence self) ]
]

unfoldable pub right_precedence : Exp → Precedence
right_precedence self = elim (exp_associativity self) [
  | none ↦ next (precedence self)
  | some dir ↦ elim dir [ leftward ↦ next (precedence self) | rightward ↦ precedence self ]
]

module _ (D : Docs) where
  open D use {Doc}

  unfoldable pub pretty_qname : QName → M Doc
  pretty_qname q =
      ret (D.intersperse (map D.text (q.module_path ++ q.name ∷ [])) (D.text (codes ".")))

  unfoldable pub name_value : Name → M Doc
  name_value (local i none) = pretty_value_name D i
  name_value (local i (some s)) = docs D (pretty_value_name D i ∷ ret (D.text s) ∷ [])
  name_value (global q) = pretty_qname q

  unfoldable pub name_type : Name → M Doc
  name_type (local i none) = pretty_type_name D i
  name_type (local i (some s)) = docs D (pretty_type_name D i ∷ ret (D.text s) ∷ [])
  name_type (global q) = pretty_qname q

  unfoldable pub pretty_attribute : Attribute → M Doc
  pretty_attribute (Attribute.attr s) = mapped D.brackets (docs D (lit D "@" ∷ ret (D.text s) ∷ []))
  pretty_attribute (Attribute.named_span s) =
      mapped D.brackets (docs D (lit D "%#" ∷ pretty_span_name D s ∷ []))
  pretty_attribute (Attribute.span f ls cs le ce) = mapped D.brackets (
      docs D (
        lit D "#"
        ∷ ret (D.double_quotes (D.text f))
        ∷ ret D.space
        ∷ ret (D.number ls)
        ∷ ret D.space
        ∷ ret (D.number cs)
        ∷ ret D.space
        ∷ ret (D.number le)
        ∷ ret D.space
        ∷ ret (D.number ce)
        ∷ []))

  -- `ty_parens!`
  unfoldable pub ty_parens : WhyType → M Doc → M Doc
  ty_parens ty printed = if complex ty then mapped D.parens printed else printed

  unfoldable mutual
    pub pretty_type : WhyType → M Doc
    pretty_type (t_var v) = pretty_type_name D v
    pretty_type (t_constructor ty) = name_type ty
    pretty_type (t_fun a b) =
        docs D (ty_parens a (pretty_type a) ∷ lit D " -> " ∷ ty_parens b (pretty_type b) ∷ [])
    pretty_type (t_app tyf args) =
        let rest = pretty_type_args args in
        if no_types args
        then pretty_type tyf
        else docs D
            (pretty_type tyf ∷ ret D.space ∷ mapped (λ ds. D.intersperse ds D.space) rest ∷ [])
    pretty_type (WhyType.tuple tys) = pretty_tuple tys

    -- A tuple of one type is that type.
    pub pretty_tuple : WhyTypes → M Doc
    pretty_tuple WhyTypes.nil = ret (D.parens (D.intersperse [] (D.text (codes ", "))))
    pretty_tuple (WhyTypes.cons ty tys) =
        let first = pretty_type ty in
        let rest = pretty_types tys in
        if no_types tys
        then first
        else mapped (λ ds. D.parens (D.intersperse ds (D.text (codes ", "))))
            (do d ← first; ds ← rest; ret (d ∷ ds))

    pub pretty_types : WhyTypes → M (List Doc)
    pretty_types WhyTypes.nil = ret []
    pretty_types (WhyTypes.cons ty tys) = do d ← pretty_type ty; ds ← pretty_types tys; ret (d ∷ ds)

    pub pretty_type_args : WhyTypes → M (List Doc)
    pretty_type_args WhyTypes.nil = ret []
    pretty_type_args (WhyTypes.cons ty tys) = do
      d ← ty_parens ty (pretty_type ty)
      ds ← pretty_type_args tys
      ret (d ∷ ds)

  -- `.append(" : ").append(t.pretty(..)).parens()`
  unfoldable pub of_type : M Doc → WhyType → M Doc
  of_type m ty = mapped D.parens (docs D (m ∷ lit D " : " ∷ pretty_type ty ∷ []))

  -- `none` is the failed assertion on a number that is not finite.
  unfoldable pub pretty_constant : Constant → M Doc
  pretty_constant (other o) = ret (D.text o)
  pretty_constant (bool b) = if b then lit D "true" else lit D "false"
  pretty_constant (char c ty) = of_type (ret (D.number c)) ty
  pretty_constant (int i none) = ret (D.integer i)
  pretty_constant (int i (some ty)) = of_type (ret (D.integer i)) ty
  pretty_constant (uint i none) = ret (D.number i)
  pretty_constant (uint i (some ty)) = of_type (ret (D.number i)) ty
  pretty_constant (string s) = ret (D.text (D.quoted s))
  pretty_constant (float f none) =
      if is_finite f
      then (if is_sign_negative f
          then ret (D.parens (D.text (print_float D.floats f)))
          else ret (D.text (print_float D.floats f)))
      else panic
  pretty_constant (float f (some ty)) =
      if is_finite f then of_type (ret (D.text (print_float D.floats f))) ty else panic

  -- `scope.bind_value(*id); id.pretty_value_name(alloc, scope)`
  unfoldable pub pretty_bound : Ident → M Doc
  pretty_bound id = bind_value id >> pretty_value_name D id

  unfoldable pub pretty_typed_id : Option Ident → M Doc
  pretty_typed_id none = lit D "_"
  pretty_typed_id (some id) = pretty_bound id

  unfoldable pub pretty_binder : Binder → M Doc
  pretty_binder wild = lit D "_"
  pretty_binder (unnamed ty) = pretty_type ty
  pretty_binder (named id) = pretty_bound id
  pretty_binder (typed ghost ids ty) = mapped D.parens (
      docs D (
        (if ghost then lit D "ghost " else ret D.nil)
        ∷ docs D (interspersed D pretty_typed_id ids D.space ∷ lit D " : " ∷ pretty_type ty ∷ [])
        ∷ []))

  unfoldable mutual
    pub pretty_pattern : Pattern → M Doc
    pretty_pattern wildcard = lit D "_"
    pretty_pattern (var_p v) = pretty_bound v
    pretty_pattern (tuple_p ps) =
        mapped (λ ds. D.parens (D.intersperse ds (D.text (codes ", ")))) (pretty_patterns ps)
    pretty_pattern (cons_p c ps) =
        let rest = pretty_sub_patterns ps in
        if no_patterns ps
        then name_value c
        else docs D (
            name_value c
            ∷ ret D.space
            ∷ mapped (λ ds. D.intersperse ds (D.text (codes " "))) rest
            ∷ [])
    pretty_pattern (rec_p fs) =
        mapped (λ ds. D.braces (D.intersperse ds (D.text (codes " ; ")))) (pretty_pattern_fields fs)

    pub pretty_patterns : Patterns → M (List Doc)
    pretty_patterns p_nil = ret []
    pretty_patterns (p_cons p ps) = do d ← pretty_pattern p; ds ← pretty_patterns ps; ret (d ∷ ds)

    pub pretty_sub_patterns : Patterns → M (List Doc)
    pretty_sub_patterns p_nil = ret []
    pretty_sub_patterns (p_cons p ps) = do
      d ← mapped (if is_cons_p p then D.parens else (λ x. x)) (pretty_pattern p)
      ds ← pretty_sub_patterns ps
      ret (d ∷ ds)

    pub pretty_pattern_fields : NamedPatterns → M (List Doc)
    pretty_pattern_fields f_nil = ret []
    pretty_pattern_fields (f_cons name p fs) = do
      d ← docs D (name_value name ∷ lit D " = " ∷ pretty_pattern p ∷ [])
      ds ← pretty_pattern_fields fs
      ret (d ∷ ds)

  -- The function `parens`, of a child and of what prints it.
  unfoldable pub parens : Precedence → Exp → M Doc → M Doc
  parens prec child printed =
      let child_prec = precedence child in
      if rank child_prec == rank atom
      then printed
      else if ltb (rank child_prec) (rank prec)
      then mapped D.parens printed
      else if (rank child_prec == rank prec)
          && not (dir_index (exp_associativity child) == dir_index (exp_associativity child))
      then mapped D.parens printed
      else printed

  abbrev pub sep_end_from : Doc → List Doc → Doc → Doc
  sep_end_from result [] separator = result
  sep_end_from result (d ∷ ds) separator =
      sep_end_from (D.append (D.append result d) separator) ds separator

  unfoldable pub sep_end_by : List Doc → Doc → Doc
  sep_end_by ds separator = sep_end_from D.nil ds separator

  unfoldable pub infix_op : BinOp → M Doc
  infix_op op = elim (bin_op_to_string op) [ none ↦ panic | some sign ↦ ret (D.text sign) ]

  -- A variable of a quantifier, with its type.
  unfoldable pub pretty_quantified : Ident × WhyType → M Doc
  pretty_quantified (b, t) = docs D (pretty_bound b ∷ lit D " : " ∷ pretty_type t ∷ [])
