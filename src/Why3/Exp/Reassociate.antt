-- ===== src/Why3/Exp/Reassociate.antt =====
-- why3/src/exp.rs: `super_visit_mut` and the traversal of `reassociate`. The visit of a reordered
-- application is on fuel, the weight of the expression, which every rotation and every child lowers.
pub mod Lighter
pub mod Settled
pub mod Children
pub mod Keeps
use creusot.Prelude.{
  ℕ, zero, suc, ◌+◌, ◌*◌, ◌<◌, Bool, true, false, List, [], ◌∷◌, Option, none, some, ◌≡◌, refl,
  if◌then◌else◌,
}
use creusot.Why3.Exp.{
  Exp, Exps, NamedExps, Arms, Triggers, BinOp, let_in, var, record_literal, rec_up, rec_field,
  constructor, fun_literal, const, binary_op, unary_op, call, attr, lam, match_with, if_then_else,
  ascribe, impl, forall_in, exists_in, nil, cons, no_field, field, no_arm, arm, no_trigger, trigger,
}
use creusot.Why3.Exp.Precedence.{
  AssocDir, leftward, rightward, associativity, op_precedence, associative, reorder,
}

infixl 5 ◌>>=◌
abbrev ◌>>=◌ : {A B : Type 0} → Option A → (A → Option B) → Option B
m >>= f = elim m [ none ↦ none | some a ↦ f a ]

module _ (f : Exp → Option Exp) where
  unfoldable pub super_exps : Exps → Option Exps
  super_exps nil = some nil
  super_exps (cons e es) = do a ← f e; ds ← super_exps es; some (cons a ds)

  unfoldable pub super_fields : NamedExps → Option NamedExps
  super_fields no_field = some no_field
  super_fields (field name e fs) = do a ← f e; ds ← super_fields fs; some (field name a ds)

  unfoldable pub super_arms : Arms → Option Arms
  super_arms no_arm = some no_arm
  super_arms (arm p e rest) = do a ← f e; ds ← super_arms rest; some (arm p a ds)

  unfoldable pub super_triggers : Triggers → Option Triggers
  super_triggers no_trigger = some no_trigger
  super_triggers (trigger es ts) = do a ← super_exps es; ds ← super_triggers ts; some (trigger a ds)

  unfoldable pub super_visit : Exp → Option Exp
  super_visit (let_in p arg body) = do a ← f arg; b ← f body; some (let_in p a b)
  super_visit (var v) = some (var v)
  super_visit (rec_up r updates) = do a ← f r; fs ← super_fields updates; some (rec_up a fs)
  super_visit (rec_field r label) = do a ← f r; some (rec_field a label)
  super_visit (Exp.tuple es) = do ds ← super_exps es; some (Exp.tuple ds)
  super_visit (constructor c es) = do ds ← super_exps es; some (constructor c ds)
  super_visit (fun_literal es) = do ds ← super_exps es; some (fun_literal ds)
  super_visit (const k) = some (const k)
  super_visit (binary_op op l r) = do a ← f l; b ← f r; some (binary_op op a b)
  super_visit (unary_op op e) = do a ← f e; some (unary_op op a)
  super_visit (call e es) = do a ← f e; ds ← super_exps es; some (call a ds)
  super_visit (lam bs e) = do a ← f e; some (lam bs a)
  super_visit (match_with e arms) = do a ← f e; ds ← super_arms arms; some (match_with a ds)
  super_visit (if_then_else c l r) = do a ← f c; b ← f l; d ← f r; some (if_then_else a b d)
  super_visit (ascribe e ty) = do a ← f e; some (ascribe a ty)
  super_visit (impl l r) = do a ← f l; b ← f r; some (impl a b)
  super_visit (forall_in bs ts e) = do ds ← super_triggers ts; a ← f e; some (forall_in bs ds a)
  super_visit (exists_in bs ts e) = do ds ← super_triggers ts; a ← f e; some (exists_in bs ds a)
  super_visit (attr k e) = do a ← f e; some (attr k a)
  super_visit (record_literal fs) = do ds ← super_fields fs; some (record_literal ds)

-- `Reassociate::visit_mut`, `visit` for its calls of itself; `none` is the panic of `unwrap`.
unfoldable pub reassociate_step : (Exp → Option Exp) → Exp → Option Exp
reassociate_step visit (binary_op op l r) =
    if associative op
    then (elim (reorder op l r) [
      | none ↦ none
      | some reordered ↦ elim reordered [
        | none ↦ super_visit visit (binary_op op l r)
        | some o ↦ visit o
      ]
    ])
    else super_visit visit (binary_op op l r)
reassociate_step visit e = super_visit visit e

-- `none` is also fuel that has run out.
unfoldable pub reassociate_with : ℕ → Exp → Option Exp
reassociate_with zero e = none
reassociate_with (suc n) e = reassociate_step (reassociate_with n) e

-- The operand that a rotation takes apart weighs twice.
unfoldable pub weigh : Option AssocDir → ℕ → ℕ → ℕ
weigh none l r = suc (l + r)
weigh (some leftward) l r = suc (l + 2 * r)
weigh (some rightward) l r = suc (2 * l + r)

unfoldable mutual
  pub weight : Exp → ℕ
  weight (let_in p arg body) = suc (weight arg + weight body)
  weight (var v) = 1
  weight (record_literal fs) = suc (weight_fields fs)
  weight (rec_up r fs) = suc (weight r + weight_fields fs)
  weight (rec_field r label) = suc (weight r)
  weight (Exp.tuple es) = suc (weight_exps es)
  weight (constructor c es) = suc (weight_exps es)
  weight (fun_literal es) = suc (weight_exps es)
  weight (const k) = 1
  weight (binary_op op l r) = weigh (associativity (op_precedence op)) (weight l) (weight r)
  weight (unary_op op e) = suc (weight e)
  weight (call e es) = suc (weight e + weight_exps es)
  weight (attr a e) = suc (weight e)
  weight (lam bs e) = suc (weight e)
  weight (match_with e arms) = suc (weight e + weight_arms arms)
  weight (if_then_else c l r) = suc (weight c + weight l + weight r)
  weight (ascribe e ty) = suc (weight e)
  weight (impl l r) = suc (weight l + weight r)
  weight (forall_in bs ts e) = suc (weight_triggers ts + weight e)
  weight (exists_in bs ts e) = suc (weight_triggers ts + weight e)

  pub weight_exps : Exps → ℕ
  weight_exps nil = 0
  weight_exps (cons e es) = weight e + weight_exps es

  pub weight_fields : NamedExps → ℕ
  weight_fields no_field = 0
  weight_fields (field name e fs) = weight e + weight_fields fs

  pub weight_arms : Arms → ℕ
  weight_arms no_arm = 0
  weight_arms (arm p e rest) = weight e + weight_arms rest

  pub weight_triggers : Triggers → ℕ
  weight_triggers no_trigger = 0
  weight_triggers (trigger es ts) = weight_exps es + weight_triggers ts

unfoldable pub reassociate : Exp → Option Exp
reassociate e = reassociate_with (suc (weight e)) e
