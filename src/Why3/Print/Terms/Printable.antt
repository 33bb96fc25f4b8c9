-- ===== src/Why3/Print/Terms/Printable.antt =====
-- why3/src/printer.rs: the expressions that can be printed. The bitwise operators have no sign in Why3
-- (`unreachable!`), and a number that is not finite has no literal (the assertion in `Constant::pretty`).
use creusot.Prelude.{true, some, ◌≡◌}
use creusot.Prelude.Decimal.{Text}
use creusot.Why3.Exp.{
  Exp, Exps, NamedExps, Arms, Triggers, BinOp, Constant, let_in, var, record_literal, rec_up,
  rec_field, constructor, fun_literal, const, binary_op, unary_op, call, attr, lam, match_with,
  if_then_else, ascribe, impl, forall_in, exists_in, nil, cons, no_field, field, no_arm, arm,
  no_trigger, trigger, int, uint, float, string, other, bool, char,
}
use creusot.Why3.Print.Terms.{bin_op_to_string, is_finite}

abbrev pub HasSign : BinOp → Type 0
HasSign op = (sign : Text) × (bin_op_to_string op ≡ some sign)

abbrev pub IsPrintableConstant : Constant → Type 0
IsPrintableConstant (int i ty) = Unit
IsPrintableConstant (uint i ty) = Unit
IsPrintableConstant (float f ty) = is_finite f ≡ true
IsPrintableConstant (string s) = Unit
IsPrintableConstant (other s) = Unit
IsPrintableConstant (bool b) = Unit
IsPrintableConstant (char c ty) = Unit

abbrev mutual
  pub IsPrintable : Exp → Type 0
  IsPrintable (let_in p arg body) = IsPrintable arg × IsPrintable body
  IsPrintable (var v) = Unit
  IsPrintable (record_literal fields) = ArePrintableFields fields
  IsPrintable (rec_up r updates) = IsPrintable r × ArePrintableFields updates
  IsPrintable (rec_field r label) = IsPrintable r
  IsPrintable (Exp.tuple es) = ArePrintable es
  IsPrintable (constructor c es) = ArePrintable es
  IsPrintable (fun_literal es) = ArePrintable es
  IsPrintable (const k) = IsPrintableConstant k
  IsPrintable (binary_op op l r) = HasSign op × IsPrintable l × IsPrintable r
  IsPrintable (unary_op op e) = IsPrintable e
  IsPrintable (call f es) = IsPrintable f × ArePrintable es
  IsPrintable (attr a e) = IsPrintable e
  IsPrintable (lam bs body) = IsPrintable body
  IsPrintable (match_with e arms) = IsPrintable e × ArePrintableArms arms
  IsPrintable (if_then_else c l r) = IsPrintable c × IsPrintable l × IsPrintable r
  IsPrintable (ascribe e ty) = IsPrintable e
  IsPrintable (impl l r) = IsPrintable l × IsPrintable r
  IsPrintable (forall_in bs ts e) = ArePrintableTriggers ts × IsPrintable e
  IsPrintable (exists_in bs ts e) = ArePrintableTriggers ts × IsPrintable e

  pub ArePrintable : Exps → Type 0
  ArePrintable nil = Unit
  ArePrintable (cons e es) = IsPrintable e × ArePrintable es

  pub ArePrintableFields : NamedExps → Type 0
  ArePrintableFields no_field = Unit
  ArePrintableFields (field name e fs) = IsPrintable e × ArePrintableFields fs

  pub ArePrintableArms : Arms → Type 0
  ArePrintableArms no_arm = Unit
  ArePrintableArms (arm p e rest) = IsPrintable e × ArePrintableArms rest

  pub ArePrintableTriggers : Triggers → Type 0
  ArePrintableTriggers no_trigger = Unit
  ArePrintableTriggers (trigger es ts) = ArePrintable es × ArePrintableTriggers ts
