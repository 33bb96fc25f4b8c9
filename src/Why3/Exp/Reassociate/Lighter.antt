-- ===== src/Why3/Exp/Reassociate/Lighter.antt =====
-- why3/src/exp.rs: a rotation makes an expression lighter.
use creusot.Prelude.{
  ℕ, suc, ◌+◌, ◌*◌, ◌<◌, arith, true, Option, none, some, ◌≡◌, refl, sym, ap, ◌∙◌, Bool-cases, inl,
  inr, ◌==◌, some_eq,
}
use mathlib.Core.Path.{subst}
use creusot.Why3.Exp.{Exp, BinOp, binary_op}
use creusot.Why3.Exp.Precedence.{
  AssocDir, leftward, rightward, associativity, op_precedence, op_index, reorder, rotate_left,
  rotate_right,
}
use creusot.Why3.Exp.Precedence.Rotation.{op_index-injective}
use creusot.Why3.Exp.Reassociate.{weigh, weight}

weight_leftward :
    (op : BinOp) (l r : Exp)
    → associativity (op_precedence op) ≡ some leftward
    → weight (binary_op op l r) ≡ suc (weight l + 2 * weight r)
unfolding weight weigh
weight_leftward op l r e = rw (e) refl

weight_rightward :
    (op : BinOp) (l r : Exp)
    → associativity (op_precedence op) ≡ some rightward
    → weight (binary_op op l r) ≡ suc (2 * weight l + weight r)
unfolding weight weigh
weight_rightward op l r e = rw (e) refl

same_direction :
    (iop op : BinOp) (dir : AssocDir)
    → op_index iop == op_index op ≡ true
    → associativity (op_precedence op) ≡ some dir
    → associativity (op_precedence iop) ≡ some dir
same_direction iop op dir same e =
    ap (λ o. associativity (op_precedence o)) (op_index-injective iop op same) ∙ e

-- A reordered application weighs less.
rotate_left-weight :
    (op : BinOp) (l r o : Exp)
    → associativity (op_precedence op) ≡ some leftward
    → rotate_left op l r ≡ some o
    → weight o < weight (binary_op op l r)
unfolding rotate_left
rotate_left-weight op l (binary_op iop rl rr) o e h =
    elim (Bool-cases (op_index iop == op_index op)) [
      | inl same ↦
          let inner = same_direction iop op leftward same e in
          subst (λ x. weight x < weight (binary_op op l (binary_op iop rl rr)))
            (some_eq (rw (same) at h))
            (omega (
              arith,
              weight_leftward op l (binary_op iop rl rr) e,
              weight_leftward iop rl rr inner,
              weight_leftward op (binary_op iop l rl) rr e,
              weight_leftward iop l rl inner,
            ))
      | inr different ↦ absurd (cc (rw (different) at h))
    ]
rotate_left-weight op l _ o e h = absurd (cc h)

rotate_right-weight :
    (op : BinOp) (l r o : Exp)
    → associativity (op_precedence op) ≡ some rightward
    → rotate_right op l r ≡ some o
    → weight o < weight (binary_op op l r)
unfolding rotate_right
rotate_right-weight op (binary_op iop ll lr) r o e h =
    elim (Bool-cases (op_index iop == op_index op)) [
      | inl same ↦
          let inner = same_direction iop op rightward same e in
          subst (λ x. weight x < weight (binary_op op (binary_op iop ll lr) r))
            (some_eq (rw (same) at h))
            (omega (
              arith,
              weight_rightward op (binary_op iop ll lr) r e,
              weight_rightward iop ll lr inner,
              weight_rightward op ll (binary_op iop lr r) e,
              weight_rightward iop lr r inner,
            ))
      | inr different ↦ absurd (cc (rw (different) at h))
    ]
rotate_right-weight op _ r o e h = absurd (cc h)

pub reorder_leftward :
    (op : BinOp) (l r : Exp)
    → associativity (op_precedence op) ≡ some leftward
    → reorder op l r ≡ some (rotate_left op l r)
unfolding reorder
reorder_leftward op l r e = rw (e, reorder) refl

pub reorder_rightward :
    (op : BinOp) (l r : Exp)
    → associativity (op_precedence op) ≡ some rightward
    → reorder op l r ≡ some (rotate_right op l r)
unfolding reorder
reorder_rightward op l r e = rw (e, reorder) refl

pub reorder_total :
    (op : BinOp) (l r : Exp) (dir : AssocDir)
    → associativity (op_precedence op) ≡ some dir
    → (o : Option Exp) × (reorder op l r ≡ some o)
reorder_total op l r leftward e = (rotate_left op l r, reorder_leftward op l r e)
reorder_total op l r rightward e = (rotate_right op l r, reorder_rightward op l r e)

pub reorder-weight :
    (op : BinOp) (l r o : Exp) (dir : AssocDir)
    → associativity (op_precedence op) ≡ some dir
    → reorder op l r ≡ some (some o)
    → weight o < weight (binary_op op l r)
reorder-weight op l r o leftward e h =
    rotate_left-weight op l r o e (some_eq (sym (reorder_leftward op l r e) ∙ h))
reorder-weight op l r o rightward e h =
    rotate_right-weight op l r o e (some_eq (sym (reorder_rightward op l r e) ∙ h))

operands_below : (a : Option AssocDir) (m n : ℕ) → (m < weigh a m n) × (n < weigh a m n)
unfolding weigh
operands_below none m n = (omega arith, omega arith)
operands_below (some leftward) m n = (omega arith, omega arith)
operands_below (some rightward) m n = (omega arith, omega arith)

pub operands_lighter :
    (op : BinOp) (l r : Exp)
    → (weight l < weight (binary_op op l r)) × (weight r < weight (binary_op op l r))
unfolding weight
operands_lighter op l r = operands_below (associativity (op_precedence op)) (weight l) (weight r)
