-- ===== src/Why3/Exp/Vars.antt =====
-- What the theorems about why3/src/exp.rs ask of an expression: a property of all its local
-- variables, free or bound, and the number of identifiers that its binders bind.
use creusot.Prelude.{ℕ, ◌+◌, Option, length}
use creusot.Prelude.Decimal.{Text}
use creusot.Why3.Name.{Ident, local, global}
use creusot.Why3.Exp.Semantics.{binder_ids, quantified_ids, pattern_ids}
use creusot.Why3.Exp.{
  Exp, Exps, NamedExps, Arms, Triggers, let_in, var, record_literal, rec_up, rec_field, constructor,
  fun_literal, const, binary_op, unary_op, call, attr, lam, match_with, if_then_else, ascribe, impl,
  forall_in, exists_in, nil, cons, no_field, field, no_arm, arm, no_trigger, trigger,
}

module _ (P : Ident → Option Text → Type 0) where
  abbrev mutual
    pub AllVars : Exp → Type 0
    AllVars (let_in p arg body) = AllVars arg × AllVars body
    AllVars (var (local v suffix)) = P v suffix
    AllVars (var (global q)) = Unit
    AllVars (record_literal fields) = AllVarsFields fields
    AllVars (rec_up r updates) = AllVars r × AllVarsFields updates
    AllVars (rec_field r label) = AllVars r
    AllVars (Exp.tuple es) = AllVarsExps es
    AllVars (constructor c es) = AllVarsExps es
    AllVars (fun_literal es) = AllVarsExps es
    AllVars (const k) = Unit
    AllVars (binary_op op l r) = AllVars l × AllVars r
    AllVars (unary_op op e) = AllVars e
    AllVars (call f es) = AllVars f × AllVarsExps es
    AllVars (attr a e) = AllVars e
    AllVars (lam bs body) = AllVars body
    AllVars (match_with e arms) = AllVars e × AllVarsArms arms
    AllVars (if_then_else c l r) = AllVars c × AllVars l × AllVars r
    AllVars (ascribe e ty) = AllVars e
    AllVars (impl l r) = AllVars l × AllVars r
    AllVars (forall_in bs ts e) = AllVarsTriggers ts × AllVars e
    AllVars (exists_in bs ts e) = AllVarsTriggers ts × AllVars e

    pub AllVarsExps : Exps → Type 0
    AllVarsExps nil = Unit
    AllVarsExps (cons e es) = AllVars e × AllVarsExps es

    pub AllVarsFields : NamedExps → Type 0
    AllVarsFields no_field = Unit
    AllVarsFields (field name e fs) = AllVars e × AllVarsFields fs

    pub AllVarsArms : Arms → Type 0
    AllVarsArms no_arm = Unit
    AllVarsArms (arm p e rest) = AllVars e × AllVarsArms rest

    pub AllVarsTriggers : Triggers → Type 0
    AllVarsTriggers no_trigger = Unit
    AllVarsTriggers (trigger es ts) = AllVarsExps es × AllVarsTriggers ts

unfoldable mutual
  pub draws : Exp → ℕ
  draws (let_in p arg body) = draws arg + (length (pattern_ids p) + draws body)
  draws (var x) = 0
  draws (record_literal fields) = draws_fields fields
  draws (rec_up r updates) = draws r + draws_fields updates
  draws (rec_field r label) = draws r
  draws (Exp.tuple es) = draws_exps es
  draws (constructor c es) = draws_exps es
  draws (fun_literal es) = draws_exps es
  draws (const k) = 0
  draws (binary_op op l r) = draws l + draws r
  draws (unary_op op e) = draws e
  draws (call f es) = draws f + draws_exps es
  draws (attr a e) = draws e
  draws (lam bs body) = length (binder_ids bs) + draws body
  draws (match_with e arms) = draws e + draws_arms arms
  draws (if_then_else c l r) = draws c + (draws l + draws r)
  draws (ascribe e ty) = draws e
  draws (impl l r) = draws l + draws r
  draws (forall_in bs ts e) = length (quantified_ids bs) + (draws_triggers ts + draws e)
  draws (exists_in bs ts e) = length (quantified_ids bs) + (draws_triggers ts + draws e)

  pub draws_exps : Exps → ℕ
  draws_exps nil = 0
  draws_exps (cons e es) = draws e + draws_exps es

  pub draws_fields : NamedExps → ℕ
  draws_fields no_field = 0
  draws_fields (field name e fs) = draws e + draws_fields fs

  pub draws_arms : Arms → ℕ
  draws_arms no_arm = 0
  draws_arms (arm p e rest) = length (pattern_ids p) + (draws e + draws_arms rest)

  pub draws_triggers : Triggers → ℕ
  draws_triggers no_trigger = 0
  draws_triggers (trigger es ts) = draws_exps es + draws_triggers ts
