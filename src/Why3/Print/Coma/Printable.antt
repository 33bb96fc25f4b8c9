-- ===== src/Why3/Print/Coma/Printable.antt =====
-- why3/src/coma.rs: the programs whose terms can be printed.
use creusot.Prelude.{◌≤◌, Bool, List, length, All}
use creusot.Why3.Coma.{Expr, Arg, Defn, Defns}
use creusot.Why3.Print.{Docs}
use creusot.Why3.Print.Terms.Printable.{IsPrintable}

abbrev mutual
  pub IsPrintableExpr : Expr → Type 0
  IsPrintableExpr (Expr.name nm) = Unit
  IsPrintableExpr (Expr.app e arg) = IsPrintableExpr e × IsPrintableArg arg
  IsPrintableExpr (Expr.lambda ps body) = IsPrintableExpr body
  IsPrintableExpr (Expr.defn e rec defs) = IsPrintableExpr e × ArePrintableDefns defs
  IsPrintableExpr (Expr.assign e asgns) = IsPrintableExpr e × All (λ a. IsPrintable a.1) asgns
  IsPrintableExpr (Expr.let_in e lets) = IsPrintableExpr e × All (λ v. IsPrintable v.term) lets
  IsPrintableExpr (Expr.assert t e) = IsPrintable t × IsPrintableExpr e
  IsPrintableExpr (Expr.assume t e) = IsPrintable t × IsPrintableExpr e
  IsPrintableExpr (Expr.black_box e) = IsPrintableExpr e
  IsPrintableExpr (Expr.white_box e) = IsPrintableExpr e
  IsPrintableExpr Expr.any = Unit

  pub IsPrintableArg : Arg → Type 0
  IsPrintableArg (Arg.ty t) = Unit
  IsPrintableArg (Arg.term t) = IsPrintable t
  IsPrintableArg (Arg.ref r) = Unit
  IsPrintableArg (Arg.cont e) = IsPrintableExpr e

  pub ArePrintableDefns : Defns → Type 0
  ArePrintableDefns Defns.nil = Unit
  ArePrintableDefns (Defns.cons (Defn.handler prototype body) defs) =
      IsPrintableExpr body × ArePrintableDefns defs

-- The documented bound of `partition_point`.
abbrev pub PartitionsWithin : Docs → Type 0
PartitionsWithin D = (bs : List Bool) → D.partition_point bs ≤ length bs
