-- ===== src/Why3/Exp/Reassociate/Settled.antt =====
-- why3/src/exp.rs: the expressions in which `reassociate` has nothing left to reorder.
use creusot.Prelude.{
  ℕ, Bool, true, false, not, ◌||◌, Option, none, some, ◌≡◌, refl, sym, ap, ◌∙◌, Bool-cases, inl,
  inr, some_eq, ◌==◌,
}
use creusot.Why3.Exp.{
  Exp, Exps, NamedExps, Arms, Triggers, BinOp, let_in, var, record_literal, rec_up, rec_field,
  constructor, fun_literal, const, binary_op, unary_op, call, attr, lam, match_with, if_then_else,
  ascribe, impl, forall_in, exists_in, nil, cons, no_field, field, no_arm, arm, no_trigger, trigger,
}
use creusot.Why3.Exp.Reassociate.Lighter.{reorder_leftward, reorder_rightward}
use creusot.Why3.Exp.Precedence.{
  AssocDir, leftward, rightward, associativity, op_precedence, op_index, associative, reorder,
  rotate_left, rotate_right,
}

-- The operator of an application.
abbrev pub head : Exp → Option ℕ
head (binary_op op l r) = some (op_index op)
head _ = none

abbrev pub differs : Option ℕ → BinOp → Bool
differs none op = true
differs (some i) op = not (i == op_index op)

-- The operand that a rotation would take apart is no application of the same operator.
abbrev pub rests : Option AssocDir → BinOp → Exp → Exp → Bool
rests none op l r = true
rests (some leftward) op l r = differs (head r) op
rests (some rightward) op l r = differs (head l) op

abbrev pub at_rest : BinOp → Exp → Exp → Bool
at_rest op l r = not (associative op) || rests (associativity (op_precedence op)) op l r

abbrev pub IsAtRest : Exp → Type 0
IsAtRest (binary_op op l r) = at_rest op l r ≡ true
IsAtRest _ = Unit

-- No application anywhere in the expression is left to reorder.
abbrev mutual
  pub IsSettled : Exp → Type 0
  IsSettled (let_in p arg body) = IsSettled arg × IsSettled body
  IsSettled (var v) = Unit
  IsSettled (record_literal fields) = AreSettledFields fields
  IsSettled (rec_up r updates) = IsSettled r × AreSettledFields updates
  IsSettled (rec_field r label) = IsSettled r
  IsSettled (Exp.tuple es) = AreSettled es
  IsSettled (constructor c es) = AreSettled es
  IsSettled (fun_literal es) = AreSettled es
  IsSettled (const k) = Unit
  IsSettled (binary_op op l r) = (at_rest op l r ≡ true) × IsSettled l × IsSettled r
  IsSettled (unary_op op e) = IsSettled e
  IsSettled (call f es) = IsSettled f × AreSettled es
  IsSettled (attr a e) = IsSettled e
  IsSettled (lam bs body) = IsSettled body
  IsSettled (match_with e arms) = IsSettled e × AreSettledArms arms
  IsSettled (if_then_else c l r) = IsSettled c × IsSettled l × IsSettled r
  IsSettled (ascribe e ty) = IsSettled e
  IsSettled (impl l r) = IsSettled l × IsSettled r
  IsSettled (forall_in bs ts e) = AreSettledTriggers ts × IsSettled e
  IsSettled (exists_in bs ts e) = AreSettledTriggers ts × IsSettled e

  pub AreSettled : Exps → Type 0
  AreSettled nil = Unit
  AreSettled (cons e es) = IsSettled e × AreSettled es

  pub AreSettledFields : NamedExps → Type 0
  AreSettledFields no_field = Unit
  AreSettledFields (field name e fs) = IsSettled e × AreSettledFields fs

  pub AreSettledArms : Arms → Type 0
  AreSettledArms no_arm = Unit
  AreSettledArms (arm p e rest) = IsSettled e × AreSettledArms rest

  pub AreSettledTriggers : Triggers → Type 0
  AreSettledTriggers no_trigger = Unit
  AreSettledTriggers (trigger es ts) = AreSettled es × AreSettledTriggers ts

rests-head :
    (a : Option AssocDir) (op : BinOp) (l r m n : Exp)
    → head l ≡ head m
    → head r ≡ head n
    → rests a op l r ≡ rests a op m n
rests-head none op l r m n h k = refl
rests-head (some leftward) op l r m n h k = ap (λ i. differs i op) k
rests-head (some rightward) op l r m n h k = ap (λ i. differs i op) h

-- Whether an application is at rest depends on the operators of its operands alone.
pub at_rest-head :
    (op : BinOp) (l r m n : Exp)
    → head l ≡ head m
    → head r ≡ head n
    → at_rest op l r ≡ at_rest op m n
at_rest-head op l r m n h k =
    ap (λ b. not (associative op) || b)
      (rests-head (associativity (op_precedence op)) op l r m n h k)

rotate_left-differs :
    (op : BinOp) (l r : Exp) → rotate_left op l r ≡ none → differs (head r) op ≡ true
unfolding rotate_left
rotate_left-differs op l (binary_op iop rl rr) h = elim (Bool-cases (op_index iop == op_index op)) [
  | inl same ↦ absurd (cc (rw (same) at h))
  | inr different ↦ ap not different
]
rotate_left-differs op l _ h = refl

rotate_right-differs :
    (op : BinOp) (l r : Exp) → rotate_right op l r ≡ none → differs (head l) op ≡ true
unfolding rotate_right
rotate_right-differs op (binary_op iop ll lr) r h =
    elim (Bool-cases (op_index iop == op_index op)) [
      | inl same ↦ absurd (cc (rw (same) at h))
      | inr different ↦ ap not different
    ]
rotate_right-differs op _ r h = refl

or_right : (b : Bool) → (b || true) ≡ true
or_right true = refl
or_right false = refl

-- What is not reordered is at rest.
pub reorder-IsAtRest :
    (op : BinOp) (l r : Exp) (dir : AssocDir)
    → associativity (op_precedence op) ≡ some dir
    → reorder op l r ≡ some none
    → IsAtRest (binary_op op l r)
reorder-IsAtRest op l r leftward e h =
    ap (λ b. not (associative op) || b)
      (ap (λ a. rests a op l r) e
        ∙ rotate_left-differs op l r (some_eq (sym (reorder_leftward op l r e) ∙ h)))
    ∙ or_right (not (associative op))
reorder-IsAtRest op l r rightward e h =
    ap (λ b. not (associative op) || b)
      (ap (λ a. rests a op l r) e
        ∙ rotate_right-differs op l r (some_eq (sym (reorder_rightward op l r e) ∙ h)))
    ∙ or_right (not (associative op))

rotate_left-head :
    (op : BinOp) (l r o : Exp) → rotate_left op l r ≡ some o → head o ≡ some (op_index op)
unfolding rotate_left
rotate_left-head op l (binary_op iop rl rr) o h = elim (Bool-cases (op_index iop == op_index op)) [
  | inl same ↦ ap head (sym (some_eq (rw (same) at h)))
  | inr different ↦ absurd (cc (rw (different) at h))
]
rotate_left-head op l _ o h = absurd (cc h)

rotate_right-head :
    (op : BinOp) (l r o : Exp) → rotate_right op l r ≡ some o → head o ≡ some (op_index op)
unfolding rotate_right
rotate_right-head op (binary_op iop ll lr) r o h = elim (Bool-cases (op_index iop == op_index op)) [
  | inl same ↦ ap head (sym (some_eq (rw (same) at h)))
  | inr different ↦ absurd (cc (rw (different) at h))
]
rotate_right-head op _ r o h = absurd (cc h)

-- A rotation keeps the operator.
pub reorder-head :
    (op : BinOp) (l r o : Exp) (dir : AssocDir)
    → associativity (op_precedence op) ≡ some dir
    → reorder op l r ≡ some (some o)
    → head o ≡ some (op_index op)
reorder-head op l r o leftward e h =
    rotate_left-head op l r o (some_eq (sym (reorder_leftward op l r e) ∙ h))
reorder-head op l r o rightward e h =
    rotate_right-head op l r o (some_eq (sym (reorder_rightward op l r e) ∙ h))
