-- ===== src/Why3/Exp/Visit.antt =====
-- why3/src/exp.rs and why3/src/exp/binder.rs: fresh names for binders, and the capture-avoiding
-- substitution `BoundSubst`. The functions take the counter of `fresh_u64` and return it; `none` is
-- the panic of `unimplemented!`. Where `visit_mut` calls `super_visit_mut`, its arm is written out.
use creusot.Prelude.{ℕ, List, [], ◌∷◌, Option, none, some, if◌then◌else◌}
use creusot.Why3.Name.{Ident, local, global, ident_eq, refresh}
use creusot.Prelude.Decimal.{Text}
use creusot.Why3.Types.{WhyType}
use creusot.Why3.Exp.{
  Exp, Exps, NamedExps, Arms, Triggers, Binder, wild, unnamed, named, typed, Pattern, Patterns,
  NamedPatterns, wildcard, var_p, tuple_p, cons_p, rec_p, p_nil, p_cons, f_nil, f_cons, let_in, var,
  record_literal, rec_up, rec_field, constructor, fun_literal, const, binary_op, unary_op, call,
  attr, lam, match_with, if_then_else, ascribe, impl, forall_in, exists_in, nil, cons, no_field,
  field, no_arm, arm, no_trigger, trigger,
}

-- `HashMap<Ident, Ident>` and `HashMap<Ident, Exp>`.
abbrev pub Bound : Type 0
Bound = Ident → Option Ident

abbrev pub Subst : Type 0
Subst = Ident → Option Exp

unfoldable pub insert {ℓ} : {A : Type ℓ} → (Ident → Option A) → Ident → A → Ident → Option A
insert m key value other = if ident_eq key other then some value else m other

-- A computation that draws fresh numbers, renames, and cannot fail: the state is the map of bound
-- variables with the counter.
abbrev pub R : Type 0 → Type 0
R A = Bound × ℕ → A × (Bound × ℕ)

unfoldable pub refresh_var : Ident → R Ident
refresh_var id (bound, counter) =
    let id2 = refresh id counter in (id2.0, (insert bound id id2.0, id2.1))

unfoldable pub refresh_typed : List (Option Ident) → R (List (Option Ident))
refresh_typed [] st = ([], st)
refresh_typed (none ∷ ids) st = let rest = refresh_typed ids st in (none ∷ rest.0, rest.1)
refresh_typed (some id ∷ ids) st =
    let id2 = refresh_var id st in
    let rest = refresh_typed ids id2.1 in (some id2.0 ∷ rest.0, rest.1)

-- `Binder::refresh`
unfoldable pub refresh_binder : Binder → R Binder
refresh_binder wild st = (wild, st)
refresh_binder (unnamed ty) st = (unnamed ty, st)
refresh_binder (named id) st = let id2 = refresh_var id st in (named id2.0, id2.1)
refresh_binder (typed ghost ids ty) st =
    let ids2 = refresh_typed ids st in (typed ghost ids2.0 ty, ids2.1)

unfoldable pub refresh_binders : List Binder → R (List Binder)
refresh_binders [] st = ([], st)
refresh_binders (b ∷ bs) st =
    let b2 = refresh_binder b st in let rest = refresh_binders bs b2.1 in (b2.0 ∷ rest.0, rest.1)

-- The loop over the variables of a quantifier.
unfoldable pub refresh_quantified : List (Ident × WhyType) → R (List (Ident × WhyType))
refresh_quantified [] st = ([], st)
refresh_quantified ((id, ty) ∷ bs) st =
    let id2 = refresh_var id st in
    let rest = refresh_quantified bs id2.1 in ((id2.0, ty) ∷ rest.0, rest.1)

-- `Pattern::refresh`
unfoldable mutual
  pub refresh_pattern : Pattern → R Pattern
  refresh_pattern wildcard st = (wildcard, st)
  refresh_pattern (var_p id) st = let id2 = refresh_var id st in (var_p id2.0, id2.1)
  refresh_pattern (tuple_p ps) st = let ps2 = refresh_patterns ps st in (tuple_p ps2.0, ps2.1)
  refresh_pattern (cons_p c ps) st = let ps2 = refresh_patterns ps st in (cons_p c ps2.0, ps2.1)
  refresh_pattern (rec_p fs) st = let fs2 = refresh_fields fs st in (rec_p fs2.0, fs2.1)

  pub refresh_patterns : Patterns → R Patterns
  refresh_patterns p_nil st = (p_nil, st)
  refresh_patterns (p_cons p ps) st =
      let p2 = refresh_pattern p st in
      let rest = refresh_patterns ps p2.1 in (p_cons p2.0 rest.0, rest.1)

  pub refresh_fields : NamedPatterns → R NamedPatterns
  refresh_fields f_nil st = (f_nil, st)
  refresh_fields (f_cons name p fs) st =
      let p2 = refresh_pattern p st in
      let rest = refresh_fields fs p2.1 in (f_cons name p2.0 rest.0, rest.1)

-- A visit draws fresh numbers and can panic.
abbrev pub M : Type 0 → Type 0
M A = ℕ → Option (A × ℕ)

abbrev pub ret : {A : Type 0} → A → M A
ret a counter = some (a, counter)

infixl 5 ◌>>=◌
abbrev pub ◌>>=◌ : {A B : Type 0} → M A → (A → M B) → M B
◌>>=◌ m f counter = elim (m counter) [ none ↦ none | some next ↦ f next.0 next.1 ]

-- The variable case: a bound variable is renamed, with its suffix; a free one is replaced.
unfoldable pub visit_local : Subst → Bound → Ident → Option Text → M Exp
visit_local subst bound v suffix counter = elim (bound v) [
  | some w ↦ some (var (local w suffix), counter)
  | none ↦ elim (subst v) [
    | none ↦ some (var (local v suffix), counter)
    | some e ↦ elim suffix [ none ↦ some (e, counter) | some _ ↦ none ]
  ]
]

-- Renames a binder with fresh numbers, and goes on with the binder and the map of bound variables.
abbrev pub with_fresh : {A B : Type 0} → R A → Bound → (A → Bound → M B) → M B
with_fresh r bound k counter = let fresh = r (bound, counter) in k fresh.0 fresh.1.0 fresh.1.1

unfoldable mutual
  pub visit : Subst → Bound → Exp → M Exp
  visit subst bound (var (local v suffix)) = visit_local subst bound v suffix
  visit subst bound (var (global q)) = ret (var (global q))
  visit subst bound (lam binders body) =
      with_fresh (refresh_binders binders) bound
        λ binders2 bound2. do body2 ← visit subst bound2 body; ret (lam binders2 body2)
  visit subst bound (let_in pattern arg body) = visit subst bound arg >>= λ arg2.
      with_fresh (refresh_pattern pattern) bound
        λ pattern2 bound2. do body2 ← visit subst bound2 body; ret (let_in pattern2 arg2 body2)
  visit subst bound (match_with scrut arms) = do
    scrut2 ← visit subst bound scrut
    arms2 ← visit_arms subst bound arms
    ret (match_with scrut2 arms2)
  visit subst bound (forall_in binders trig e) =
      with_fresh (refresh_quantified binders) bound λ binders2 bound2. do
        trig2 ← visit_triggers subst bound2 trig
        e2 ← visit subst bound2 e
        ret (forall_in binders2 trig2 e2)
  visit subst bound (exists_in binders trig e) =
      with_fresh (refresh_quantified binders) bound λ binders2 bound2. do
        trig2 ← visit_triggers subst bound2 trig
        e2 ← visit subst bound2 e
        ret (exists_in binders2 trig2 e2)
  visit subst bound (record_literal fields) = do
    fields2 ← visit_fields subst bound fields
    ret (record_literal fields2)
  visit subst bound (rec_up r updates) = do
    r2 ← visit subst bound r
    updates2 ← visit_fields subst bound updates
    ret (rec_up r2 updates2)
  visit subst bound (rec_field r label) = do r2 ← visit subst bound r; ret (rec_field r2 label)
  visit subst bound (Exp.tuple es) = do es2 ← visit_exps subst bound es; ret (Exp.tuple es2)
  visit subst bound (constructor c es) = do es2 ← visit_exps subst bound es; ret (constructor c es2)
  visit subst bound (fun_literal es) = do es2 ← visit_exps subst bound es; ret (fun_literal es2)
  visit subst bound (const k) = ret (const k)
  visit subst bound (binary_op op l r) = do
    l2 ← visit subst bound l
    r2 ← visit subst bound r
    ret (binary_op op l2 r2)
  visit subst bound (unary_op op e) = do e2 ← visit subst bound e; ret (unary_op op e2)
  visit subst bound (call f es) = do
    f2 ← visit subst bound f
    es2 ← visit_exps subst bound es
    ret (call f2 es2)
  visit subst bound (attr a e) = do e2 ← visit subst bound e; ret (attr a e2)
  visit subst bound (if_then_else c l r) = do
    c2 ← visit subst bound c
    l2 ← visit subst bound l
    r2 ← visit subst bound r
    ret (if_then_else c2 l2 r2)
  visit subst bound (ascribe e ty) = do e2 ← visit subst bound e; ret (ascribe e2 ty)
  visit subst bound (impl l r) = do
    l2 ← visit subst bound l
    r2 ← visit subst bound r
    ret (impl l2 r2)

  pub visit_exps : Subst → Bound → Exps → M Exps
  visit_exps subst bound nil = ret nil
  visit_exps subst bound (cons e es) = do
    e2 ← visit subst bound e
    es2 ← visit_exps subst bound es
    ret (cons e2 es2)

  pub visit_fields : Subst → Bound → NamedExps → M NamedExps
  visit_fields subst bound no_field = ret no_field
  visit_fields subst bound (field name e fs) = do
    e2 ← visit subst bound e
    fs2 ← visit_fields subst bound fs
    ret (field name e2 fs2)

  pub visit_arms : Subst → Bound → Arms → M Arms
  visit_arms subst bound no_arm = ret no_arm
  visit_arms subst bound (arm p e rest) = with_fresh (refresh_pattern p) bound λ p2 bound2. do
    e2 ← visit subst bound2 e
    rest2 ← visit_arms subst bound rest
    ret (arm p2 e2 rest2)

  pub visit_triggers : Subst → Bound → Triggers → M Triggers
  visit_triggers subst bound no_trigger = ret no_trigger
  visit_triggers subst bound (trigger es ts) = do
    es2 ← visit_exps subst bound es
    ts2 ← visit_triggers subst bound ts
    ret (trigger es2 ts2)

-- `Exp::subst`
unfoldable pub subst : Exp → Subst → M Exp
unfolding visit
subst e σ = visit σ (λ _. none) e
