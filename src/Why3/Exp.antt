-- ===== src/Why3/Exp.antt =====
-- why3/src/exp.rs and why3/src/exp/binder.rs: the expressions of Why3. A `Box<[Exp]>` is an `Exps`, and
-- so for the lists of fields, arms and triggers; an `f64` is its bit pattern.
pub mod Build
pub mod Simplify
pub mod Visit
pub mod Vars
pub mod Semantics
pub mod Coincidence
pub mod Subst
pub mod Occurs
pub mod Precedence
pub mod Reassociate
use creusot.Prelude.{ℕ, Bool, true, false, List, [], ◌∷◌, Option, none, some}
use creusot.Prelude.Decimal.{Text}
use creusot.Why3.Name.{Ident, Name, QName, local, global}
use creusot.Why3.Types.{WhyType, Attribute, ℤ}

pub data BinOp : Type 0 where
  log_and log_or lazy_and lazy_or bit_and bit_or bit_xor shl shr add float_add sub float_sub mul :
      BinOp
  float_mul div float_div mod_op eq float_eq lt float_lt le float_le gt float_gt ge float_ge ne :
      BinOp

pub data UnOp : Type 0 where
  not_op neg float_neg : UnOp

pub data Constant : Type 0 where
  int : ℤ → Option WhyType → Constant
  uint : ℕ → Option WhyType → Constant
  float : ℕ → Option WhyType → Constant
  string other : Text → Constant
  bool : Bool → Constant
  char : ℕ → WhyType → Constant

pub data Binder : Type 0 where
  wild : Binder
  unnamed : WhyType → Binder
  named : Ident → Binder
  typed : Bool → List (Option Ident) → WhyType → Binder

mutual
  pub data Pattern : Type 0 where
    wildcard : Pattern
    var_p : Ident → Pattern
    tuple_p : Patterns → Pattern
    cons_p : Name → Patterns → Pattern
    rec_p : NamedPatterns → Pattern

  pub data Patterns : Type 0 where
    p_nil : Patterns
    p_cons : Pattern → Patterns → Patterns

  pub data NamedPatterns : Type 0 where
    f_nil : NamedPatterns
    f_cons : Name → Pattern → NamedPatterns → NamedPatterns

mutual
  pub data Exp : Type 0 where
    let_in : Pattern → Exp → Exp → Exp
    var : Name → Exp
    record_literal : NamedExps → Exp
    rec_up : Exp → NamedExps → Exp
    rec_field : Exp → Name → Exp
    tuple : Exps → Exp
    constructor : Name → Exps → Exp
    fun_literal : Exps → Exp
    const : Constant → Exp
    binary_op : BinOp → Exp → Exp → Exp
    unary_op : UnOp → Exp → Exp
    call : Exp → Exps → Exp
    attr : Attribute → Exp → Exp
    lam : List Binder → Exp → Exp
    match_with : Exp → Arms → Exp
    if_then_else : Exp → Exp → Exp → Exp
    ascribe : Exp → WhyType → Exp
    impl : Exp → Exp → Exp
    forall_in : List (Ident × WhyType) → Triggers → Exp → Exp
    exists_in : List (Ident × WhyType) → Triggers → Exp → Exp

  pub data Exps : Type 0 where
    nil : Exps
    cons : Exp → Exps → Exps

  pub data NamedExps : Type 0 where
    no_field : NamedExps
    field : Name → Exp → NamedExps → NamedExps

  pub data Arms : Type 0 where
    no_arm : Arms
    arm : Pattern → Exp → Arms → Arms

  pub data Triggers : Type 0 where
    no_trigger : Triggers
    trigger : Exps → Triggers → Triggers
