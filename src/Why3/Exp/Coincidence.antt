-- ===== src/Why3/Exp/Coincidence.antt =====
-- The meaning of an expression depends only on the values of its variables.
use mathlib.Core.Path.{fun_ext}
use creusot.Prelude.{ℕ, suc, List, [], ◌∷◌, none, some, ◌≡◌, refl, ap, ap₂, Bool-cases, inl, inr}
use creusot.Why3.Name.{Ident, local, global, ident_eq}
use creusot.Why3.Exp.{
  Exp, Exps, NamedExps, Arms, Triggers, let_in, var, record_literal, rec_up, rec_field, constructor,
  fun_literal, const, binary_op, unary_op, call, attr, lam, match_with, if_then_else, ascribe, impl,
  forall_in, exists_in, nil, cons, no_field, field, no_arm, arm, no_trigger, trigger,
}
use creusot.Why3.Exp.Semantics.{
  Meaning, eval, eval_exps, eval_fields, eval_arms, eval_triggers, extend, assign, binder_ids,
  binder_shape, pattern_ids, pattern_shape, quantified_ids, quantified_shape,
}
use creusot.Why3.Exp.Vars.{AllVars, AllVarsExps, AllVarsFields, AllVarsArms, AllVarsTriggers}

-- Environments that agree on the identifiers of a set.
abbrev pub Agree : {V : Type 0} → (Ident → Type 0) → (Ident → V) → (Ident → V) → Type 0
Agree Q env env' = (v : Ident) → Q v → env v ≡ env' v

module _ {V : Type 0} (Q : Ident → Type 0) where
  pub assign-Agree :
      (env env' : Ident → V) (id : Ident) (value : V)
      → Agree Q env env'
      → Agree Q (assign env id value) (assign env' id value)
  unfolding assign
  assign-Agree env env' id value h v q = elim (Bool-cases (ident_eq id v)) [
    | inl e ↦ rw e
    | inr e ↦ rw e (h v q)
  ]

  pub extend-Agree :
      (ids : List Ident) (env env' : Ident → V) (values : ℕ → V)
      → Agree Q env env'
      → Agree Q (extend env ids values) (extend env' ids values)
  unfolding extend
  extend-Agree [] env env' values h = h
  extend-Agree (id ∷ ids) env env' values h =
      extend-Agree ids (assign env id (values 0)) (assign env' id (values 0)) (λ n. values (suc n))
        (assign-Agree env env' id (values 0) h)

module _ (S : Meaning) (Q : Ident → Type 0) where
  open S use {V}

  mutual
    unfolding eval

    exp-Agree :
        (e : Exp) (env env' : Ident → V)
        → Agree Q env env'
        → AllVars (λ v _. Q v) e
        → eval S env e ≡ eval S env' e
    exp-Agree (let_in p arg body) env env' h k =
        ap₂ (S.bind (pattern_shape p)) (exp-Agree arg env env' h k.0)
          (fun_ext λ vs. exp-Agree body _ _ (extend-Agree Q (pattern_ids p) env env' vs h) k.1)
    exp-Agree (var (local v none)) env env' h k = h v k
    exp-Agree (var (local v (some suffix))) env env' h k = ap (S.suffixed suffix) (h v k)
    exp-Agree (var (global q)) env env' h k = refl
    exp-Agree (record_literal fields) env env' h k =
        ap S.record_of (eval_fields-Agree fields env env' h k)
    exp-Agree (rec_up r updates) env env' h k =
        ap₂ S.update (exp-Agree r env env' h k.0) (eval_fields-Agree updates env env' h k.1)
    exp-Agree (rec_field r label) env env' h k =
        ap (λ v. S.project v label) (exp-Agree r env env' h k)
    exp-Agree (Exp.tuple es) env env' h k = ap S.tuple_of (eval_exps-Agree es env env' h k)
    exp-Agree (constructor c es) env env' h k = ap (S.construct c) (eval_exps-Agree es env env' h k)
    exp-Agree (fun_literal es) env env' h k = ap S.function_of (eval_exps-Agree es env env' h k)
    exp-Agree (const c) env env' h k = refl
    exp-Agree (binary_op op l r) env env' h k =
        ap₂ (S.binary op) (exp-Agree l env env' h k.0) (exp-Agree r env env' h k.1)
    exp-Agree (unary_op op e) env env' h k = ap (S.unary op) (exp-Agree e env env' h k)
    exp-Agree (call f es) env env' h k =
        ap₂ S.apply (exp-Agree f env env' h k.0) (eval_exps-Agree es env env' h k.1)
    exp-Agree (attr a e) env env' h k = ap (S.marked a) (exp-Agree e env env' h k)
    exp-Agree (lam bs body) env env' h k =
        ap (S.abstraction (binder_shape bs))
          (fun_ext λ vs. exp-Agree body _ _ (extend-Agree Q (binder_ids bs) env env' vs h) k)
    exp-Agree (match_with e arms) env env' h k =
        ap₂ S.branch (exp-Agree e env env' h k.0) (eval_arms-Agree arms env env' h k.1)
    exp-Agree (if_then_else c l r) env env' h k = λ i.
        S.choose (exp-Agree c env env' h k.0 i) (exp-Agree l env env' h k.1 i)
          (exp-Agree r env env' h k.2 i)
    exp-Agree (ascribe e ty) env env' h k = ap (λ v. S.cast v ty) (exp-Agree e env env' h k)
    exp-Agree (impl l r) env env' h k =
        ap₂ S.implication (exp-Agree l env env' h k.0) (exp-Agree r env env' h k.1)
    exp-Agree (forall_in bs ts e) env env' h k =
        ap₂ (S.for_all (quantified_shape bs))
          (fun_ext
            λ vs. eval_triggers-Agree ts _ _ (extend-Agree Q (quantified_ids bs) env env' vs h) k.0)
          (fun_ext λ vs. exp-Agree e _ _ (extend-Agree Q (quantified_ids bs) env env' vs h) k.1)
    exp-Agree (exists_in bs ts e) env env' h k =
        ap₂ (S.there_is (quantified_shape bs))
          (fun_ext
            λ vs. eval_triggers-Agree ts _ _ (extend-Agree Q (quantified_ids bs) env env' vs h) k.0)
          (fun_ext λ vs. exp-Agree e _ _ (extend-Agree Q (quantified_ids bs) env env' vs h) k.1)

    eval_exps-Agree :
        (es : Exps) (env env' : Ident → V)
        → Agree Q env env'
        → AllVarsExps (λ v _. Q v) es
        → eval_exps S env es ≡ eval_exps S env' es
    eval_exps-Agree nil env env' h k = refl
    eval_exps-Agree (cons e es) env env' h k =
        ap₂ (λ x xs. x ∷ xs) (exp-Agree e env env' h k.0) (eval_exps-Agree es env env' h k.1)

    eval_fields-Agree :
        (fs : NamedExps) (env env' : Ident → V)
        → Agree Q env env'
        → AllVarsFields (λ v _. Q v) fs
        → eval_fields S env fs ≡ eval_fields S env' fs
    eval_fields-Agree no_field env env' h k = refl
    eval_fields-Agree (field name e fs) env env' h k =
        ap₂ (λ x xs. (name, x) ∷ xs) (exp-Agree e env env' h k.0)
          (eval_fields-Agree fs env env' h k.1)

    eval_arms-Agree :
        (arms : Arms) (env env' : Ident → V)
        → Agree Q env env'
        → AllVarsArms (λ v _. Q v) arms
        → eval_arms S env arms ≡ eval_arms S env' arms
    eval_arms-Agree no_arm env env' h k = refl
    eval_arms-Agree (arm p e rest) env env' h k =
        ap₂ (λ x xs. (pattern_shape p, x) ∷ xs)
          (fun_ext λ vs. exp-Agree e _ _ (extend-Agree Q (pattern_ids p) env env' vs h) k.0)
          (eval_arms-Agree rest env env' h k.1)

    eval_triggers-Agree :
        (ts : Triggers) (env env' : Ident → V)
        → Agree Q env env'
        → AllVarsTriggers (λ v _. Q v) ts
        → eval_triggers S env ts ≡ eval_triggers S env' ts
    eval_triggers-Agree no_trigger env env' h k = refl
    eval_triggers-Agree (trigger es ts) env env' h k =
        ap₂ (λ x xs. x ∷ xs) (eval_exps-Agree es env env' h k.0)
          (eval_triggers-Agree ts env env' h k.1)

  -- Environments that agree on all the variables of an expression give it the same meaning.
  pub eval-Agree :
      (e : Exp) (env env' : Ident → V)
      → Agree Q env env'
      → AllVars (λ v _. Q v) e
      → eval S env e ≡ eval S env' e
  eval-Agree = exp-Agree
