-- ===== src/Why3/Coma/Free.antt =====
-- why3/src/coma.rs: the symbols that are free in an expression, by which `occurs` and `where_` are judged.
use mathlib.Core.Path.{subst as transport_along}
use creusot.Prelude.{
  Bool, true, false, ◌||◌, ◌&&◌, not, none, some, ◌≡◌, ◌⊎◌, ◌↔◌, inl, inr, refl, ap, Bool-cases,
}
use creusot.Why3.Name.{Ident, local, global, ident_eq}
use creusot.Why3.Name.Laws.{ident_eq_iff}
use creusot.Why3.Coma.{
  Param, Params, Expr, Arg, Defn, Defns, in_params, occurs, occurs_arg, occurs_defns, as_variable,
  is_variable, where_,
}

module _ (k : Ident) where
  -- A parameter of this name, of whatever kind.
  abbrev pub IsParam : Params → Type 0
  IsParam Params.nil = ⊥
  IsParam (Params.cons (Param.ty t) ps) = IsParam ps
  IsParam (Params.cons (Param.term id t) ps) = (id ≡ k) ⊎ IsParam ps
  IsParam (Params.cons (Param.reference id t) ps) = (id ≡ k) ⊎ IsParam ps
  IsParam (Params.cons (Param.cont id writes params) ps) = (id ≡ k) ⊎ IsParam ps

  abbrev pub IsHandler : Defns → Type 0
  IsHandler Defns.nil = ⊥
  IsHandler (Defns.cons (Defn.handler prototype body) defs) = (prototype.name ≡ k) ⊎ IsHandler defs

  -- The handlers are bound in the expression, and in their own bodies when the group is recursive.
  abbrev mutual
    pub IsFree : Expr → Type 0
    IsFree (Expr.name (local v suffix)) = v ≡ k
    IsFree (Expr.name (global q)) = ⊥
    IsFree (Expr.app e arg) = IsFreeArg arg ⊎ IsFree e
    IsFree (Expr.lambda params body) = (IsParam params → ⊥) × IsFree body
    IsFree (Expr.defn e true defs) = (IsHandler defs → ⊥) × (IsFree e ⊎ IsFreeDefns defs)
    IsFree (Expr.defn e false defs) = ((IsHandler defs → ⊥) × IsFree e) ⊎ IsFreeDefns defs
    IsFree (Expr.assign e asgns) = IsFree e
    IsFree (Expr.let_in e lets) = IsFree e
    IsFree (Expr.assert t e) = IsFree e
    IsFree (Expr.assume t e) = IsFree e
    IsFree (Expr.black_box e) = IsFree e
    IsFree (Expr.white_box e) = IsFree e
    IsFree Expr.any = ⊥

    pub IsFreeArg : Arg → Type 0
    IsFreeArg (Arg.ty t) = ⊥
    IsFreeArg (Arg.term t) = ⊥
    IsFreeArg (Arg.ref r) = ⊥
    IsFreeArg (Arg.cont e) = IsFree e

    pub IsFreeDefns : Defns → Type 0
    IsFreeDefns Defns.nil = ⊥
    IsFreeDefns (Defns.cons (Defn.handler prototype body) defs) =
        ((IsParam prototype.params → ⊥) × IsFree body) ⊎ IsFreeDefns defs

  in_params-IsParam : (ps : Params) → in_params ps k ≡ true → IsParam ps
  unfolding in_params
  in_params-IsParam Params.nil h = absurd (cc h)
  in_params-IsParam (Params.cons (Param.ty t) ps) h = in_params-IsParam ps h
  in_params-IsParam (Params.cons (Param.term id t) ps) h = inr (in_params-IsParam ps h)
  in_params-IsParam (Params.cons (Param.reference id t) ps) h = inr (in_params-IsParam ps h)
  in_params-IsParam (Params.cons (Param.cont id writes params) ps) h =
      elim (Bool-cases (ident_eq id k)) [
        | inl same ↦ inl ((ident_eq_iff id k).0 same)
        | inr differs ↦ inr (in_params-IsParam ps (rw (differs) at h))
      ]

  not_in_params : (ps : Params) → (IsParam ps → ⊥) → in_params ps k ≡ false
  not_in_params ps h = elim (Bool-cases (in_params ps k)) [
    | inl inside ↦ absurd (h (in_params-IsParam ps inside))
    | inr outside ↦ outside
  ]

  or_true : (a b : Bool) → (a ≡ true) ⊎ (b ≡ true) → (a || b) ≡ true
  or_true true b h = refl
  or_true false b (inl e) = absurd (cc e)
  or_true false b (inr e) = e

  under_params :
      (ps : Params) (b : Bool) → (IsParam ps → ⊥) → b ≡ true → (not (in_params ps k) && b) ≡ true
  under_params ps b h e = rw (not_in_params ps h, e) refl

  mutual
    unfolding occurs occurs_arg occurs_defns

    occurs_when_free : (e : Expr) → IsFree e → occurs e k ≡ true
    occurs_when_free (Expr.name (local v suffix)) h = (ident_eq_iff v k).1 h
    occurs_when_free (Expr.name (global q)) h = elim h [ ]
    occurs_when_free (Expr.app e arg) (inl h) = or_true _ _ (inl (occurs_in_arg arg h))
    occurs_when_free (Expr.app e arg) (inr h) = or_true _ _ (inr (occurs_when_free e h))
    occurs_when_free (Expr.lambda params body) (outside, h) =
        under_params params _ outside (occurs_when_free body h)
    occurs_when_free (Expr.defn e true defs) (outside, inl h) =
        or_true _ _ (inl (occurs_when_free e h))
    occurs_when_free (Expr.defn e true defs) (outside, inr h) =
        or_true _ _ (inr (occurs_in_defns defs h))
    occurs_when_free (Expr.defn e false defs) (inl (outside, h)) =
        or_true _ _ (inl (occurs_when_free e h))
    occurs_when_free (Expr.defn e false defs) (inr h) = or_true _ _ (inr (occurs_in_defns defs h))
    occurs_when_free (Expr.assign e asgns) h = occurs_when_free e h
    occurs_when_free (Expr.let_in e lets) h = occurs_when_free e h
    occurs_when_free (Expr.assert t e) h = occurs_when_free e h
    occurs_when_free (Expr.assume t e) h = occurs_when_free e h
    occurs_when_free (Expr.black_box e) h = occurs_when_free e h
    occurs_when_free (Expr.white_box e) h = occurs_when_free e h
    occurs_when_free Expr.any h = elim h [ ]

    occurs_in_arg : (a : Arg) → IsFreeArg a → occurs_arg a k ≡ true
    occurs_in_arg (Arg.ty t) h = elim h [ ]
    occurs_in_arg (Arg.term t) h = elim h [ ]
    occurs_in_arg (Arg.ref r) h = elim h [ ]
    occurs_in_arg (Arg.cont e) h = occurs_when_free e h

    occurs_in_defns : (defs : Defns) → IsFreeDefns defs → occurs_defns defs k ≡ true
    occurs_in_defns Defns.nil h = elim h [ ]
    occurs_in_defns (Defns.cons (Defn.handler prototype body) defs) (inl (outside, h)) =
        or_true _ _ (inl (under_params prototype.params _ outside (occurs_when_free body h)))
    occurs_in_defns (Defns.cons (Defn.handler prototype body) defs) (inr h) =
        or_true _ _ (inr (occurs_in_defns defs h))

  -- A symbol that is free in an expression occurs in it.
  pub occurs-IsFree : (e : Expr) → IsFree e → occurs e k ≡ true
  occurs-IsFree e h = occurs_when_free e h

-- Handlers without parameters.
abbrev pub HaveNoParams : Defns → Type 0
HaveNoParams Defns.nil = Unit
HaveNoParams (Defns.cons (Defn.handler prototype body) defs) =
    (prototype.params ≡ Params.nil) × HaveNoParams defs

is_variable-name : (e : Expr) (x : Ident) → is_variable e x ≡ true → e ≡ Expr.name (local x none)
unfolding is_variable as_variable
is_variable-name (Expr.name (local v none)) x h =
    ap (λ u. Expr.name (local u none)) ((ident_eq_iff v x).0 h)
is_variable-name (Expr.name (local v (some s))) x h = absurd (cc h)
is_variable-name (Expr.name (global q)) x h = absurd (cc h)
is_variable-name (Expr.app e a) x h = absurd (cc h)
is_variable-name (Expr.lambda ps e) x h = absurd (cc h)
is_variable-name (Expr.defn e r ds) x h = absurd (cc h)
is_variable-name (Expr.assign e ds) x h = absurd (cc h)
is_variable-name (Expr.let_in e ds) x h = absurd (cc h)
is_variable-name (Expr.assert t e) x h = absurd (cc h)
is_variable-name (Expr.assume t e) x h = absurd (cc h)
is_variable-name (Expr.black_box e) x h = absurd (cc h)
is_variable-name (Expr.white_box e) x h = absurd (cc h)
is_variable-name Expr.any x h = absurd (cc h)

-- `z` and `x [ x = z ]`, when `x` does not occur in `z`.
unfolded :
    (k x : Ident) (ps : Params) (body : Expr)
    → ps ≡ Params.nil
    → occurs body x ≡ false
    → IsFree k body ↔ (((x ≡ k) ⊎ ⊥ → ⊥) × ((x ≡ k) ⊎ (((IsParam k ps → ⊥) × IsFree k body) ⊎ ⊥)))
unfolded k x ps body none_there absent = (
  (λ h. (other h, inr (inl ((λ p. transport_along (IsParam k) none_there p), h)))),
  λ h. back h.0 h.1,
)
  where
    other : IsFree k body → (x ≡ k) ⊎ ⊥ → ⊥
    other h (inl same) = absurd (cc (occurs-IsFree k body h, ap (occurs body) same, absent))
    other h (inr impossible) = impossible

    back : ((x ≡ k) ⊎ ⊥ → ⊥) → (x ≡ k) ⊎ (((IsParam k ps → ⊥) × IsFree k body) ⊎ ⊥) → IsFree k body
    back h (inl same) = absurd (h (inl same))
    back h (inr (inl (outside, free))) = free
    back h (inr (inr impossible)) = absurd impossible

same_free : {A : Type 0} → A ↔ A
same_free = ((λ a. a), λ a. a)

-- Around handlers without parameters, `where_` gives an expression with the free symbols of the group of
-- handlers that it stands for.
pub where_-IsFree :
    (k : Ident) (self : Expr) (defs : Defns)
    → HaveNoParams defs
    → IsFree k (where_ self defs) ↔ IsFree k (Expr.defn self true defs)
unfolding where_
where_-IsFree k self Defns.nil h = same_free
where_-IsFree k self (Defns.cons d (Defns.cons e defs)) h = same_free
where_-IsFree k self (Defns.cons (Defn.handler prototype body) Defns.nil) h =
    elim (Bool-cases (occurs body prototype.name)) [
      | inl found ↦ rw (found) same_free
      | inr absent ↦ elim (Bool-cases (is_variable self prototype.name)) [
        | inl variable ↦
            rw (absent, variable, is_variable-name self prototype.name variable)
              (unfolded k prototype.name prototype.params body h.0 absent)
        | inr different ↦ rw (absent, different) same_free
      ]
    ]
