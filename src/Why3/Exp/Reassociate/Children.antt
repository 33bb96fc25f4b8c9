-- ===== src/Why3/Exp/Reassociate/Children.antt =====
-- why3/src/exp.rs: a visit that keeps the meaning of lighter expressions keeps it of their parents.
use creusot.Prelude.{◌∙◌, ℕ, ◌<◌, arith, ◌∷◌, Option, some, ◌≡◌, refl, ap, ap₂}
use creusot.Why3.Name.{Ident}
use creusot.Why3.Exp.{
  Exp, Exps, NamedExps, Arms, Triggers, let_in, var, record_literal, rec_up, rec_field, constructor,
  fun_literal, const, binary_op, unary_op, call, attr, lam, match_with, if_then_else, ascribe, impl,
  forall_in, exists_in, nil, cons, no_field, field, no_arm, arm, no_trigger, trigger,
}
use creusot.Why3.Exp.Semantics.{
  Meaning, extend, pattern_shape, pattern_ids, binder_shape, binder_ids, quantified_shape,
  quantified_ids, eval, eval_exps, eval_fields, eval_arms, eval_triggers,
}
use creusot.Why3.Exp.Reassociate.Settled.{
  head, IsAtRest, IsSettled, AreSettled, AreSettledFields, AreSettledArms, AreSettledTriggers,
  at_rest-head,
}
use creusot.Why3.Exp.Reassociate.Lighter.{operands_lighter}
use creusot.Why3.Exp.Reassociate.{
  super_exps, super_fields, super_arms, super_triggers, super_visit, weight, weight_exps,
  weight_fields, weight_arms, weight_triggers,
}

module _ (S : Meaning) where
  -- The visit of an expression gives one of the same value.
  pub record Good (f : Exp → Option Exp) (e : Exp) : Type 0 where
    pub out : Exp
    pub gives : f e ≡ some out
    pub same : (env : Ident → S.V) → eval S env out ≡ eval S env e
    pub settled : IsSettled out
    pub head_same : head out ≡ head e

  pub record GoodExps (f : Exp → Option Exp) (es : Exps) : Type 0 where
    pub out : Exps
    pub gives : super_exps f es ≡ some out
    pub same : (env : Ident → S.V) → eval_exps S env out ≡ eval_exps S env es
    pub settled : AreSettled out

  pub record GoodFields (f : Exp → Option Exp) (fs : NamedExps) : Type 0 where
    pub out : NamedExps
    pub gives : super_fields f fs ≡ some out
    pub same : (env : Ident → S.V) → eval_fields S env out ≡ eval_fields S env fs
    pub settled : AreSettledFields out

  pub record GoodArms (f : Exp → Option Exp) (arms : Arms) : Type 0 where
    pub out : Arms
    pub gives : super_arms f arms ≡ some out
    pub same : (env : Ident → S.V) → eval_arms S env out ≡ eval_arms S env arms
    pub settled : AreSettledArms out

  pub record GoodTriggers (f : Exp → Option Exp) (ts : Triggers) : Type 0 where
    pub out : Triggers
    pub gives : super_triggers f ts ≡ some out
    pub same : (env : Ident → S.V) → eval_triggers S env out ≡ eval_triggers S env ts
    pub settled : AreSettledTriggers out

  -- A visit that is good for what weighs less than `n`.
  abbrev pub GoodBelow : ℕ → (Exp → Option Exp) → Type 0
  GoodBelow n f = (e : Exp) → weight e < n → Good f e

  super_exps-GoodExps :
      (n : ℕ) (f : Exp → Option Exp) (es : Exps)
      → GoodBelow n f
      → weight_exps es < n
      → GoodExps f es
  unfolding super_exps weight_exps eval_exps
  super_exps-GoodExps n f nil h w = record {
    out = nil;
    gives = refl;
    same = λ env. refl;
    settled = tt;
  }
  super_exps-GoodExps n f (cons e es) h w =
      let a = h e (omega (arith, w)) in
      let rest = super_exps-GoodExps n f es h (omega (arith, w)) in
      record {
        out = cons a.out rest.out;
        gives = rw (a.gives, super_exps) (rw (rest.gives) refl);
        same = λ env. ap₂ (λ v vs. v ∷ vs) (a.same env) (rest.same env);
        settled = (a.settled, rest.settled);
      }

  super_fields-GoodFields :
      (n : ℕ) (f : Exp → Option Exp) (fs : NamedExps)
      → GoodBelow n f
      → weight_fields fs < n
      → GoodFields f fs
  unfolding super_fields weight_fields eval_fields
  super_fields-GoodFields n f no_field h w = record {
    out = no_field;
    gives = refl;
    same = λ env. refl;
    settled = tt;
  }
  super_fields-GoodFields n f (field nm e fs) h w =
      let a = h e (omega (arith, w)) in
      let rest = super_fields-GoodFields n f fs h (omega (arith, w)) in
      record {
        out = field nm a.out rest.out;
        gives = rw (a.gives, super_fields) (rw (rest.gives) refl);
        same = λ env. ap₂ (λ v vs. (nm, v) ∷ vs) (a.same env) (rest.same env);
        settled = (a.settled, rest.settled);
      }

  super_arms-GoodArms :
      (n : ℕ) (f : Exp → Option Exp) (arms : Arms)
      → GoodBelow n f
      → weight_arms arms < n
      → GoodArms f arms
  unfolding super_arms weight_arms eval_arms
  super_arms-GoodArms n f no_arm h w = record {
    out = no_arm;
    gives = refl;
    same = λ env. refl;
    settled = tt;
  }
  super_arms-GoodArms n f (arm p e arms) h w =
      let a = h e (omega (arith, w)) in
      let rest = super_arms-GoodArms n f arms h (omega (arith, w)) in
      record {
        out = arm p a.out rest.out;
        gives = rw (a.gives, super_arms) (rw (rest.gives) refl);
        same = λ env i.
            (pattern_shape p, λ vs. a.same (extend env (pattern_ids p) vs) i) ∷ rest.same env i;
        settled = (a.settled, rest.settled);
      }

  super_triggers-GoodTriggers :
      (n : ℕ) (f : Exp → Option Exp) (ts : Triggers)
      → GoodBelow n f
      → weight_triggers ts < n
      → GoodTriggers f ts
  unfolding super_triggers weight_triggers eval_triggers
  super_triggers-GoodTriggers n f no_trigger h w = record {
    out = no_trigger;
    gives = refl;
    same = λ env. refl;
    settled = tt;
  }
  super_triggers-GoodTriggers n f (trigger es ts) h w =
      let a = super_exps-GoodExps n f es h (omega (arith, w)) in
      let rest = super_triggers-GoodTriggers n f ts h (omega (arith, w)) in
      record {
        out = trigger a.out rest.out;
        gives = rw (a.gives, super_triggers) (rw (rest.gives) refl);
        same = λ env. ap₂ (λ v vs. v ∷ vs) (a.same env) (rest.same env);
        settled = (a.settled, rest.settled);
      }

  -- One child, two, or a child and a list.
  one_child :
      (f : Exp → Option Exp) (e c : Exp) (k : Exp → Exp)
      → Good f c
      → ((a : Exp) → IsSettled a → IsSettled (k a))
      → ((a : Exp) → head (k a) ≡ head e)
      → ((a : Exp) → f c ≡ some a → super_visit f e ≡ some (k a))
      → ((a : Exp)
          → ((env : Ident → S.V) → eval S env a ≡ eval S env c)
          → (env : Ident → S.V) → eval S env (k a) ≡ eval S env e)
      → Good (super_visit f) e
  one_child f e c k g settle same_head run keep = record {
    out = k g.out;
    gives = run g.out g.gives;
    same = keep g.out g.same;
    settled = settle g.out g.settled;
    head_same = same_head g.out;
  }

  two_children :
      (f : Exp → Option Exp) (e c d : Exp) (k : Exp → Exp → Exp)
      → Good f c
      → Good f d
      → ((a b : Exp) → IsSettled a → IsSettled b → IsSettled (k a b))
      → ((a b : Exp) → head (k a b) ≡ head e)
      → ((a b : Exp) → f c ≡ some a → f d ≡ some b → super_visit f e ≡ some (k a b))
      → ((a b : Exp)
          → ((env : Ident → S.V) → eval S env a ≡ eval S env c)
          → ((env : Ident → S.V) → eval S env b ≡ eval S env d)
          → (env : Ident → S.V) → eval S env (k a b) ≡ eval S env e)
      → Good (super_visit f) e
  two_children f e c d k g h settle same_head run keep = record {
    out = k g.out h.out;
    gives = run g.out h.out g.gives h.gives;
    same = keep g.out h.out g.same h.same;
    settled = settle g.out h.out g.settled h.settled;
    head_same = same_head g.out h.out;
  }

  pub super_visit-Good :
      (f : Exp → Option Exp) (e : Exp)
      → GoodBelow (weight e) f
      → IsAtRest e
      → Good (super_visit f) e
  unfolding super_visit weight eval
  super_visit-Good f (let_in p arg body) h rest =
      two_children f (let_in p arg body) arg body (let_in p) (h arg (omega arith))
        (h body (omega arith)) (λ a b s t. (s, t)) (λ a b. refl)
        (λ a b ea eb. rw (ea, super_visit) (rw (eb) refl))
        λ a b sa sb env i.
          S.bind (pattern_shape p) (sa env i) (λ vs. sb (extend env (pattern_ids p) vs) i)
  super_visit-Good f (var v) h rest = record {
    out = var v;
    gives = refl;
    same = λ env. refl;
    settled = tt;
    head_same = refl;
  }
  super_visit-Good f (const k) h rest = record {
    out = const k;
    gives = refl;
    same = λ env. refl;
    settled = tt;
    head_same = refl;
  }
  super_visit-Good f (record_literal fs) h rest =
      let a = super_fields-GoodFields (weight (record_literal fs)) f fs h (omega arith) in
      record {
        out = record_literal a.out;
        gives = rw (a.gives, super_visit) refl;
        same = λ env. ap S.record_of (a.same env);
        settled = a.settled;
        head_same = refl;
      }
  super_visit-Good f (rec_up r fs) h rest =
      let a = h r (omega arith) in
      let b = super_fields-GoodFields (weight (rec_up r fs)) f fs h (omega arith) in
      record {
        out = rec_up a.out b.out;
        gives = rw (a.gives, super_visit) (rw (b.gives) refl);
        same = λ env. ap₂ S.update (a.same env) (b.same env);
        settled = (a.settled, b.settled);
        head_same = refl;
      }
  super_visit-Good f (rec_field r label) h rest =
      one_child f (rec_field r label) r (λ a. rec_field a label) (h r (omega arith)) (λ a s. s)
        (λ a. refl) (λ a ea. rw (ea, super_visit) refl)
        λ a sa env. ap (λ v. S.project v label) (sa env)
  super_visit-Good f (Exp.tuple es) h rest =
      let a = super_exps-GoodExps (weight (Exp.tuple es)) f es h (omega arith) in
      record {
        out = Exp.tuple a.out;
        gives = rw (a.gives, super_visit) refl;
        same = λ env. ap S.tuple_of (a.same env);
        settled = a.settled;
        head_same = refl;
      }
  super_visit-Good f (constructor c es) h rest =
      let a = super_exps-GoodExps (weight (constructor c es)) f es h (omega arith) in
      record {
        out = constructor c a.out;
        gives = rw (a.gives, super_visit) refl;
        same = λ env. ap (S.construct c) (a.same env);
        settled = a.settled;
        head_same = refl;
      }
  super_visit-Good f (fun_literal es) h rest =
      let a = super_exps-GoodExps (weight (fun_literal es)) f es h (omega arith) in
      record {
        out = fun_literal a.out;
        gives = rw (a.gives, super_visit) refl;
        same = λ env. ap S.function_of (a.same env);
        settled = a.settled;
        head_same = refl;
      }
  super_visit-Good f (binary_op op l r) h rest =
      let (below_l, below_r) = operands_lighter op l r in
      let a = h l below_l in
      let b = h r below_r in
      record {
        out = binary_op op a.out b.out;
        gives = rw (a.gives, super_visit) (rw (b.gives) refl);
        same = λ env. ap₂ (S.binary op) (a.same env) (b.same env);
        settled =
            (at_rest-head op a.out b.out l r a.head_same b.head_same ∙ rest, a.settled, b.settled);
        head_same = refl;
      }
  super_visit-Good f (unary_op op e) h rest =
      one_child f (unary_op op e) e (unary_op op) (h e (omega arith)) (λ a s. s) (λ a. refl)
        (λ a ea. rw (ea, super_visit) refl) λ a sa env. ap (S.unary op) (sa env)
  super_visit-Good f (call e es) h rest =
      let a = h e (omega arith) in
      let b = super_exps-GoodExps (weight (call e es)) f es h (omega arith) in
      record {
        out = call a.out b.out;
        gives = rw (a.gives, super_visit) (rw (b.gives) refl);
        same = λ env. ap₂ S.apply (a.same env) (b.same env);
        settled = (a.settled, b.settled);
        head_same = refl;
      }
  super_visit-Good f (attr k e) h rest =
      one_child f (attr k e) e (attr k) (h e (omega arith)) (λ a s. s) (λ a. refl)
        (λ a ea. rw (ea, super_visit) refl) λ a sa env. ap (S.marked k) (sa env)
  super_visit-Good f (lam bs e) h rest =
      one_child f (lam bs e) e (lam bs) (h e (omega arith)) (λ a s. s) (λ a. refl)
        (λ a ea. rw (ea, super_visit) refl)
        λ a sa env i. S.abstraction (binder_shape bs) (λ vs. sa (extend env (binder_ids bs) vs) i)
  super_visit-Good f (match_with e arms) h rest =
      let a = h e (omega arith) in
      let b = super_arms-GoodArms (weight (match_with e arms)) f arms h (omega arith) in
      record {
        out = match_with a.out b.out;
        gives = rw (a.gives, super_visit) (rw (b.gives) refl);
        same = λ env. ap₂ S.branch (a.same env) (b.same env);
        settled = (a.settled, b.settled);
        head_same = refl;
      }
  super_visit-Good f (if_then_else c l r) h rest =
      let a = h c (omega arith) in
      let b = h l (omega arith) in
      let d = h r (omega arith) in
      record {
        out = if_then_else a.out b.out d.out;
        gives = rw (a.gives, super_visit) (rw (b.gives) (rw (d.gives) refl));
        same = λ env i. S.choose (a.same env i) (b.same env i) (d.same env i);
        settled = (a.settled, b.settled, d.settled);
        head_same = refl;
      }
  super_visit-Good f (ascribe e ty) h rest =
      one_child f (ascribe e ty) e (λ a. ascribe a ty) (h e (omega arith)) (λ a s. s) (λ a. refl)
        (λ a ea. rw (ea, super_visit) refl) λ a sa env. ap (λ v. S.cast v ty) (sa env)
  super_visit-Good f (impl l r) h rest =
      two_children f (impl l r) l r impl (h l (omega arith)) (h r (omega arith)) (λ a b s t. (s, t))
        (λ a b. refl) (λ a b ea eb. rw (ea, super_visit) (rw (eb) refl))
        λ a b sa sb env. ap₂ S.implication (sa env) (sb env)
  super_visit-Good f (forall_in bs ts e) h rest =
      let a = super_triggers-GoodTriggers (weight (forall_in bs ts e)) f ts h (omega arith) in
      let b = h e (omega arith) in
      record {
        out = forall_in bs a.out b.out;
        gives = rw (a.gives, super_visit) (rw (b.gives) refl);
        same = λ env i.
            S.for_all (quantified_shape bs) (λ vs. a.same (extend env (quantified_ids bs) vs) i)
              (λ vs. b.same (extend env (quantified_ids bs) vs) i);
        settled = (a.settled, b.settled);
        head_same = refl;
      }
  super_visit-Good f (exists_in bs ts e) h rest =
      let a = super_triggers-GoodTriggers (weight (exists_in bs ts e)) f ts h (omega arith) in
      let b = h e (omega arith) in
      record {
        out = exists_in bs a.out b.out;
        gives = rw (a.gives, super_visit) (rw (b.gives) refl);
        same = λ env i.
            S.there_is (quantified_shape bs) (λ vs. a.same (extend env (quantified_ids bs) vs) i)
              (λ vs. b.same (extend env (quantified_ids bs) vs) i);
        settled = (a.settled, b.settled);
        head_same = refl;
      }
