-- ===== src/Why3/Exp/Precedence.antt =====
-- why3/src/exp.rs: the precedence and the associativity of expressions, and the step of `reassociate`
-- that rotates a nested application of one operator.
pub mod Rotation
use creusot.Prelude.{ℕ, Bool, true, false, Option, none, some, ◌==◌, if◌then◌else◌}
use creusot.Why3.Exp.{
  Exp, BinOp, UnOp, let_in, var, record_literal, rec_up, rec_field, constructor, fun_literal, const,
  binary_op, unary_op, call, attr, lam, match_with, if_then_else, ascribe, forall_in, exists_in,
}

-- From the lowest to the highest.
pub data Precedence : Type 0 where
  if_let attribute cast implication disj conj negation infix1 infix2 infix3 infix4 : Precedence
  prefix_op abs app projection brackets atom bang_op : Precedence

pub data AssocDir : Type 0 where
  leftward rightward : AssocDir

-- The place of a precedence, from the lowest to the highest: the order that `Precedence` derives.
unfoldable pub rank : Precedence → ℕ
rank if_let = 0
rank attribute = 1
rank cast = 2
rank implication = 3
rank disj = 4
rank conj = 5
rank negation = 6
rank infix1 = 7
rank infix2 = 8
rank infix3 = 9
rank infix4 = 10
rank prefix_op = 11
rank abs = 12
rank app = 13
rank projection = 14
rank brackets = 15
rank atom = 16
rank bang_op = 17

unfoldable pub op_precedence : BinOp → Precedence
op_precedence BinOp.log_and = conj
op_precedence BinOp.lazy_and = conj
op_precedence BinOp.log_or = disj
op_precedence BinOp.lazy_or = disj
op_precedence BinOp.bit_and = infix2
op_precedence BinOp.bit_or = infix2
op_precedence BinOp.bit_xor = infix2
op_precedence BinOp.shl = infix2
op_precedence BinOp.shr = infix2
op_precedence BinOp.add = infix2
op_precedence BinOp.sub = infix2
op_precedence BinOp.mul = infix3
op_precedence BinOp.div = infix3
op_precedence BinOp.mod_op = infix3
op_precedence BinOp.eq = infix1
op_precedence BinOp.lt = infix1
op_precedence BinOp.le = infix1
op_precedence BinOp.ne = infix1
op_precedence BinOp.ge = infix1
op_precedence BinOp.gt = infix1
op_precedence BinOp.float_add = infix4
op_precedence BinOp.float_sub = infix4
op_precedence BinOp.float_mul = infix4
op_precedence BinOp.float_div = infix4
op_precedence BinOp.float_eq = infix4
op_precedence BinOp.float_lt = infix4
op_precedence BinOp.float_le = infix4
op_precedence BinOp.float_gt = infix4
op_precedence BinOp.float_ge = infix4

unfoldable pub associative : BinOp → Bool
associative BinOp.log_and = true
associative BinOp.lazy_and = true
associative BinOp.log_or = true
associative BinOp.lazy_or = true
associative BinOp.add = true
associative BinOp.mul = true
associative _ = false

unfoldable pub next : Precedence → Precedence
next if_let = attribute
next attribute = cast
next cast = implication
next implication = disj
next disj = conj
next conj = negation
next negation = infix1
next infix1 = infix2
next infix2 = infix3
next infix3 = infix4
next infix4 = prefix_op
next prefix_op = abs
next abs = app
next app = projection
next projection = brackets
next brackets = atom
next atom = bang_op
next bang_op = bang_op

unfoldable pub associativity : Precedence → Option AssocDir
associativity infix2 = some leftward
associativity infix3 = some leftward
associativity conj = some rightward
associativity disj = some rightward
associativity app = some leftward
associativity abs = some rightward
associativity _ = none

unfoldable pub precedence : Exp → Precedence
precedence (let_in _ _ _) = if_let
precedence (lam _ _) = abs
precedence (var _) = atom
precedence (rec_up _ _) = app
precedence (rec_field _ _) = projection
precedence (Exp.tuple _) = atom
precedence (constructor _ _) = app
precedence (fun_literal _) = atom
precedence (match_with _ _) = abs
precedence (if_then_else _ _ _) = if_let
precedence (const _) = atom
precedence (unary_op UnOp.neg _) = prefix_op
precedence (unary_op UnOp.float_neg _) = prefix_op
precedence (unary_op UnOp.not_op _) = negation
precedence (binary_op op _ _) = op_precedence op
precedence (call _ _) = app
precedence (Exp.impl _ _) = implication
precedence (forall_in _ _ _) = if_let
precedence (exists_in _ _ _) = if_let
precedence (ascribe _ _) = cast
precedence (attr _ _) = attribute
precedence (record_literal _) = atom

unfoldable pub exp_associativity : Exp → Option AssocDir
exp_associativity e = associativity (precedence e)

-- The place of an operator in the enumeration, by which `==` of operators is decided.
unfoldable pub op_index : BinOp → ℕ
op_index BinOp.log_and = 0
op_index BinOp.log_or = 1
op_index BinOp.lazy_and = 2
op_index BinOp.lazy_or = 3
op_index BinOp.bit_and = 4
op_index BinOp.bit_or = 5
op_index BinOp.bit_xor = 6
op_index BinOp.shl = 7
op_index BinOp.shr = 8
op_index BinOp.add = 9
op_index BinOp.float_add = 10
op_index BinOp.sub = 11
op_index BinOp.float_sub = 12
op_index BinOp.mul = 13
op_index BinOp.float_mul = 14
op_index BinOp.div = 15
op_index BinOp.float_div = 16
op_index BinOp.mod_op = 17
op_index BinOp.eq = 18
op_index BinOp.float_eq = 19
op_index BinOp.lt = 20
op_index BinOp.float_lt = 21
op_index BinOp.le = 22
op_index BinOp.float_le = 23
op_index BinOp.gt = 24
op_index BinOp.float_gt = 25
op_index BinOp.ge = 26
op_index BinOp.float_ge = 27
op_index BinOp.ne = 28

-- `l op (rl op rr)` becomes `(l op rl) op rr`; `none` where nothing is reordered.
unfoldable pub rotate_left : BinOp → Exp → Exp → Option Exp
rotate_left op l (binary_op iop rl rr) =
    if op_index iop == op_index op then some (binary_op op (binary_op iop l rl) rr) else none
rotate_left op l _ = none

-- `(ll op lr) op r` becomes `ll op (lr op r)`.
unfoldable pub rotate_right : BinOp → Exp → Exp → Option Exp
rotate_right op (binary_op iop ll lr) r =
    if op_index iop == op_index op then some (binary_op op ll (binary_op iop lr r)) else none
rotate_right op _ r = none

-- What the `match` does with an operator that is associative; the outer `none` is a panic of `unwrap`.
unfoldable pub reorder : BinOp → Exp → Exp → Option (Option Exp)
reorder op l r = elim (associativity (op_precedence op)) [
  | none ↦ none
  | some dir ↦ elim dir [
    | leftward ↦ some (rotate_left op l r)
    | rightward ↦ some (rotate_right op l r)
  ]
]
