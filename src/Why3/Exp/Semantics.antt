-- ===== src/Why3/Exp/Semantics.antt =====
-- A compositional meaning of Why3 expressions, against which why3/src/exp.rs is specified: the values
-- and the meaning of each construct are a parameter, in which a binder is a function of the values
-- that it binds, so that the names of binders do not matter.
use creusot.Prelude.{ℕ, suc, List, [], ◌∷◌, ◌++◌, Option, none, some, if◌then◌else◌}
use creusot.Prelude.Decimal.{Text}
use creusot.Why3.Name.{Ident, Name, QName, local, global, ident_eq}
use creusot.Why3.Types.{WhyType, Attribute}
use creusot.Why3.Exp.{
  Exp, Exps, NamedExps, Arms, Triggers, BinOp, UnOp, Constant, Binder, wild, unnamed, named, typed,
  Pattern, Patterns, NamedPatterns, wildcard, var_p, tuple_p, cons_p, rec_p, p_nil, p_cons, f_nil,
  f_cons, let_in, var, record_literal, rec_up, rec_field, constructor, fun_literal, const,
  binary_op, unary_op, call, attr, lam, match_with, if_then_else, ascribe, impl, forall_in,
  exists_in, nil, cons, no_field, field, no_arm, arm, no_trigger, trigger,
}

-- The identifiers of a binder, from left to right, and what is left without them.
abbrev pub blank : Ident
blank = record { name = []; src = []; id = 0 }

unfoldable pub typed_ids : List (Option Ident) → List Ident
typed_ids [] = []
typed_ids (none ∷ ids) = typed_ids ids
typed_ids (some id ∷ ids) = id ∷ typed_ids ids

unfoldable pub typed_shape : List (Option Ident) → List (Option Ident)
typed_shape [] = []
typed_shape (none ∷ ids) = none ∷ typed_shape ids
typed_shape (some id ∷ ids) = some blank ∷ typed_shape ids

unfoldable pub binder_ids : List Binder → List Ident
binder_ids [] = []
binder_ids (wild ∷ bs) = binder_ids bs
binder_ids (unnamed ty ∷ bs) = binder_ids bs
binder_ids (named id ∷ bs) = id ∷ binder_ids bs
binder_ids (typed ghost ids ty ∷ bs) = typed_ids ids ++ binder_ids bs

unfoldable pub binder_shape : List Binder → List Binder
binder_shape [] = []
binder_shape (wild ∷ bs) = wild ∷ binder_shape bs
binder_shape (unnamed ty ∷ bs) = unnamed ty ∷ binder_shape bs
binder_shape (named id ∷ bs) = named blank ∷ binder_shape bs
binder_shape (typed ghost ids ty ∷ bs) = typed ghost (typed_shape ids) ty ∷ binder_shape bs

unfoldable pub quantified_ids : List (Ident × WhyType) → List Ident
quantified_ids [] = []
quantified_ids ((id, ty) ∷ bs) = id ∷ quantified_ids bs

unfoldable pub quantified_shape : List (Ident × WhyType) → List WhyType
quantified_shape [] = []
quantified_shape ((id, ty) ∷ bs) = ty ∷ quantified_shape bs

unfoldable mutual
  pub pattern_ids : Pattern → List Ident
  pattern_ids wildcard = []
  pattern_ids (var_p id) = id ∷ []
  pattern_ids (tuple_p ps) = patterns_ids ps
  pattern_ids (cons_p c ps) = patterns_ids ps
  pattern_ids (rec_p fs) = fields_ids fs

  pub patterns_ids : Patterns → List Ident
  patterns_ids p_nil = []
  patterns_ids (p_cons p ps) = pattern_ids p ++ patterns_ids ps

  pub fields_ids : NamedPatterns → List Ident
  fields_ids f_nil = []
  fields_ids (f_cons name p fs) = pattern_ids p ++ fields_ids fs

unfoldable mutual
  pub pattern_shape : Pattern → Pattern
  pattern_shape wildcard = wildcard
  pattern_shape (var_p id) = var_p blank
  pattern_shape (tuple_p ps) = tuple_p (patterns_shape ps)
  pattern_shape (cons_p c ps) = cons_p c (patterns_shape ps)
  pattern_shape (rec_p fs) = rec_p (fields_shape fs)

  pub patterns_shape : Patterns → Patterns
  patterns_shape p_nil = p_nil
  patterns_shape (p_cons p ps) = p_cons (pattern_shape p) (patterns_shape ps)

  pub fields_shape : NamedPatterns → NamedPatterns
  fields_shape f_nil = f_nil
  fields_shape (f_cons name p fs) = f_cons name (pattern_shape p) (fields_shape fs)

-- The values and the constructs.
pub record Meaning : Type 1 where
  pub V : Type 0
  pub global_var : QName → V
  pub suffixed : Text → V → V
  pub record_of : List (Name × V) → V
  pub update : V → List (Name × V) → V
  pub project : V → Name → V
  pub tuple_of : List V → V
  pub construct : Name → List V → V
  pub function_of : List V → V
  pub constant : Constant → V
  pub binary : BinOp → V → V → V
  pub unary : UnOp → V → V
  pub apply : V → List V → V
  pub marked : Attribute → V → V
  pub abstraction : List Binder → ((ℕ → V) → V) → V
  pub bind : Pattern → V → ((ℕ → V) → V) → V
  pub branch : V → List (Pattern × ((ℕ → V) → V)) → V
  pub choose : V → V → V → V
  pub cast : V → WhyType → V
  pub implication : V → V → V
  pub for_all : List WhyType → ((ℕ → V) → List (List V)) → ((ℕ → V) → V) → V
  pub there_is : List WhyType → ((ℕ → V) → List (List V)) → ((ℕ → V) → V) → V

-- An environment with one identifier, or several in turn, given new values.
unfoldable pub assign : {V : Type 0} → (Ident → V) → Ident → V → Ident → V
assign env id v other = if ident_eq id other then v else env other

unfoldable pub extend : {V : Type 0} → (Ident → V) → List Ident → (ℕ → V) → Ident → V
extend env [] values = env
extend env (id ∷ ids) values = extend (assign env id (values 0)) ids (λ n. values (suc n))

module _ (S : Meaning) where
  open S use {V}

  unfoldable mutual
    pub eval : (Ident → V) → Exp → V
    eval env (let_in p arg body) =
        S.bind (pattern_shape p) (eval env arg) (λ vs. eval (extend env (pattern_ids p) vs) body)
    eval env (var (local v none)) = env v
    eval env (var (local v (some suffix))) = S.suffixed suffix (env v)
    eval env (var (global q)) = S.global_var q
    eval env (record_literal fields) = S.record_of (eval_fields env fields)
    eval env (rec_up r updates) = S.update (eval env r) (eval_fields env updates)
    eval env (rec_field r label) = S.project (eval env r) label
    eval env (Exp.tuple es) = S.tuple_of (eval_exps env es)
    eval env (constructor c es) = S.construct c (eval_exps env es)
    eval env (fun_literal es) = S.function_of (eval_exps env es)
    eval env (const k) = S.constant k
    eval env (binary_op op l r) = S.binary op (eval env l) (eval env r)
    eval env (unary_op op e) = S.unary op (eval env e)
    eval env (call f es) = S.apply (eval env f) (eval_exps env es)
    eval env (attr a e) = S.marked a (eval env e)
    eval env (lam bs body) =
        S.abstraction (binder_shape bs) (λ vs. eval (extend env (binder_ids bs) vs) body)
    eval env (match_with e arms) = S.branch (eval env e) (eval_arms env arms)
    eval env (if_then_else c l r) = S.choose (eval env c) (eval env l) (eval env r)
    eval env (ascribe e ty) = S.cast (eval env e) ty
    eval env (impl l r) = S.implication (eval env l) (eval env r)
    eval env (forall_in bs ts e) =
        S.for_all (quantified_shape bs) (λ vs. eval_triggers (extend env (quantified_ids bs) vs) ts)
          (λ vs. eval (extend env (quantified_ids bs) vs) e)
    eval env (exists_in bs ts e) =
        S.there_is (quantified_shape bs)
          (λ vs. eval_triggers (extend env (quantified_ids bs) vs) ts)
          (λ vs. eval (extend env (quantified_ids bs) vs) e)

    pub eval_exps : (Ident → V) → Exps → List V
    eval_exps env nil = []
    eval_exps env (cons e es) = eval env e ∷ eval_exps env es

    pub eval_fields : (Ident → V) → NamedExps → List (Name × V)
    eval_fields env no_field = []
    eval_fields env (field name e fs) = (name, eval env e) ∷ eval_fields env fs

    pub eval_arms : (Ident → V) → Arms → List (Pattern × ((ℕ → V) → V))
    eval_arms env no_arm = []
    eval_arms env (arm p e rest) =
        (pattern_shape p, λ vs. eval (extend env (pattern_ids p) vs) e) ∷ eval_arms env rest

    pub eval_triggers : (Ident → V) → Triggers → List (List V)
    eval_triggers env no_trigger = []
    eval_triggers env (trigger es ts) = eval_exps env es ∷ eval_triggers env ts
