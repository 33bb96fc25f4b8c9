-- ===== src/Why3/Exp/Occurs/Sound.antt =====
-- why3/src/exp.rs: a variable that `occurences` does not count has no influence on the meaning.
use mathlib.Core.Path.{fun_ext}
use creusot.Prelude.{
  ℕ, suc, ◌+◌, true, false, ◌||◌, List, [], ◌∷◌, ◌++◌, none, some, ◌≡◌, refl, sym, ap, ap₂, ◌∙◌,
  ◌⊎◌, inl, inr, Bool-cases, arith,
}
use creusot.Why3.Name.{Ident, local, global, ident_eq}
use creusot.Why3.Name.Laws.{ident_eq_iff}
use creusot.Why3.Exp.{
  Exp, Exps, NamedExps, Arms, Triggers, Pattern, Patterns, NamedPatterns, wildcard, var_p, tuple_p,
  cons_p, rec_p, p_nil, p_cons, f_nil, f_cons, let_in, var, record_literal, rec_up, rec_field,
  constructor, fun_literal, const, binary_op, unary_op, call, attr, lam, match_with, if_then_else,
  ascribe, impl, forall_in, exists_in, nil, cons, no_field, field, no_arm, arm, no_trigger, trigger,
}
use creusot.Why3.Exp.Semantics.{
  Meaning, eval, eval_exps, eval_fields, eval_arms, eval_triggers, extend, assign, binder_ids,
  binder_shape, pattern_ids, patterns_ids, fields_ids, pattern_shape, quantified_ids,
  quantified_shape,
}
use creusot.Why3.Exp.Coincidence.{Agree, extend-Agree, assign-Agree}
use creusot.Why3.Exp.Subst.Through.{insert_same, insert_other}
use creusot.Why3.Exp.Occurs.{
  Counts, bump, or_zero, remove_key, remove_keys, merge, mem_ident, set_extend, binders,
  fold_binders, fold_fields, no_counts, occ, occ_exps, occ_fields, occ_arms, occ_triggers,
  occurences,
}

-- Identifiers other than `x`.
abbrev pub Other : Ident → Ident → Type 0
Other x v = ident_eq x v ≡ false

mem_ident-append :
    (vs ws : List Ident) (x : Ident) → mem_ident (vs ++ ws) x ≡ mem_ident vs x || mem_ident ws x
unfolding mem_ident
mem_ident-append [] ws x = refl
mem_ident-append (v ∷ vs) ws x = ground (arith, mem_ident-append vs ws x)

mem_ident-set_extend :
    (set vs : List Ident) (x : Ident)
    → mem_ident (set_extend set vs) x ≡ mem_ident set x || mem_ident vs x
unfolding mem_ident set_extend
mem_ident-set_extend set [] x = ground arith
mem_ident-set_extend set (v ∷ vs) x = ground (
  arith,
  mem_ident-set_extend set vs x,
  mem_ident-set_extend (set ++ v ∷ []) vs x,
  mem_ident-append set (v ∷ []) x,
  ident_eq_iff v x,
)

-- The set of a pattern's binders holds the identifiers of the pattern.
mutual
  unfolding binders pattern_ids mem_ident

  mem-binders : (p : Pattern) (x : Ident) → mem_ident (binders p) x ≡ mem_ident (pattern_ids p) x
  mem-binders wildcard x = refl
  mem-binders (var_p s) x = refl
  mem-binders (tuple_p ps) x = mem-fold_binders ps [] x
  mem-binders (cons_p c ps) x = mem-fold_binders ps [] x
  mem-binders (rec_p fs) x = mem-fold_fields fs [] x

  mem-fold_binders :
      (ps : Patterns) (set : List Ident) (x : Ident)
      → mem_ident (fold_binders ps set) x ≡ mem_ident set x || mem_ident (patterns_ids ps) x
  mem-fold_binders p_nil set x = ground arith
  mem-fold_binders (p_cons p ps) set x = ground (
    arith,
    mem-fold_binders ps (set_extend set (binders p)) x,
    mem_ident-set_extend set (binders p) x,
    mem-binders p x,
    mem_ident-append (pattern_ids p) (patterns_ids ps) x,
  )

  mem-fold_fields :
      (fs : NamedPatterns) (set : List Ident) (x : Ident)
      → mem_ident (fold_fields fs set) x ≡ mem_ident set x || mem_ident (fields_ids fs) x
  mem-fold_fields f_nil set x = ground arith
  mem-fold_fields (f_cons name p fs) set x = ground (
    arith,
    mem-fold_fields fs (set_extend set (binders p)) x,
    mem_ident-set_extend set (binders p) x,
    mem-binders p x,
    mem_ident-append (pattern_ids p) (fields_ids fs) x,
  )

pattern-cases :
    (p : Pattern) (x : Ident) {A : Type 0}
    → (mem_ident (binders p) x ≡ true) ⊎ A
    → (mem_ident (pattern_ids p) x ≡ true) ⊎ A
pattern-cases p x (inl e) = inl (sym (mem-binders p x) ∙ e)
pattern-cases p x (inr a) = inr a

assign_new :
    {V : Type 0} (x id : Ident) (env env' : Ident → V) (value : V) (u : Ident)
    → ident_eq id x ≡ true
    → Agree (Other x) env env'
    → assign env id value u ≡ assign env' id value u
unfolding assign
assign_new x id env env' value u e k = elim (Bool-cases (ident_eq id u)) [
  | inl same ↦ rw same
  | inr other ↦
      rw other (k u (ground (arith, ident_eq_iff id x, ident_eq_iff x u, ident_eq_iff id u)))
]

-- Environments that agree but at `x` agree everywhere once `x` has a new value.
extend-Agree_all :
    {V : Type 0} (x : Ident) (ids : List Ident) (env env' : Ident → V) (values : ℕ → V)
    → mem_ident ids x ≡ true
    → Agree (Other x) env env'
    → (v : Ident) → extend env ids values v ≡ extend env' ids values v
unfolding mem_ident extend
extend-Agree_all x [] env env' values h k v = absurd (cc h)
extend-Agree_all x (id ∷ ids) env env' values h k v = elim (Bool-cases (ident_eq id x)) [
  | inl e ↦
      extend-Agree (λ _. Unit {0}) ids (assign env id (values 0)) (assign env' id (values 0))
        (λ n. values (suc n)) (λ u _. assign_new x id env env' (values 0) u e k) v tt
  | inr e ↦
      extend-Agree_all x ids (assign env id (values 0)) (assign env' id (values 0))
        (λ n. values (suc n)) (rw e at h) (assign-Agree (Other x) env env' id (values 0) k) v
]

module _ (S : Meaning) (x : Ident) where
  open S use {V}

  -- A value that does not depend on the value of `x`.
  abbrev pub Ignores : {B : Type 0} → ((Ident → V) → B) → Type 0
  Ignores f = (env env' : Ident → V) → Agree (Other x) env env' → f env ≡ f env'

  merge-none : (m saved : Counts) → merge m saved x ≡ none → (m x ≡ none) × (saved x ≡ none)
  unfolding merge
  merge-none m saved h = ground arith

  remove_keys-none :
      (ids : List Ident) (m : Counts)
      → remove_keys m ids x ≡ none
      → (mem_ident ids x ≡ true) ⊎ (m x ≡ none)
  unfolding remove_keys remove_key mem_ident
  remove_keys-none [] m h = inr h
  remove_keys-none (v ∷ ids) m h = elim (Bool-cases (ident_eq v x)) [
    | inl e ↦ inl (rw e)
    | inr e ↦ ground (arith, remove_keys-none ids (remove_key m v) h)
  ]

  local-Ignores :
      (v : Ident) (m : Counts) → bump m v 1 x ≡ none → (m x ≡ none) × Ignores (λ env. env v)
  unfolding bump
  local-Ignores v m h = elim (Bool-cases (ident_eq v x)) [
    | inl e ↦ absurd (cc (insert_same m v x (or_zero (m v) + 1) e))
    | inr e ↦ (
      sym (insert_other m v x (or_zero (m v) + 1) e) ∙ h,
      λ env env' k. k v (ground (arith, ident_eq_iff v x, ident_eq_iff x v)),
    )
  ]

  binder-Ignores :
      {B : Type 0} (ids : List Ident) (f : (Ident → V) → B) (m : Counts)
      → (m x ≡ none → Ignores f)
      → (mem_ident ids x ≡ true) ⊎ (m x ≡ none)
      → (vs : ℕ → V) → Ignores (λ env. f (extend env ids vs))
  binder-Ignores ids f m h (inl e) vs env env' k =
      ap f (fun_ext λ v. extend-Agree_all x ids env env' vs e k v)
  binder-Ignores ids f m h (inr e) vs env env' k =
      h e _ _ (extend-Agree (Other x) ids env env' vs k)

  mutual
    unfolding occ eval

    exp-Ignores :
        (e : Exp) (m : Counts) → occ e m x ≡ none → (m x ≡ none) × Ignores (λ env. eval S env e)
    exp-Ignores (let_in p arg body) m h =
        let (rest, saved) =
          merge-none (occ arg (remove_keys (occ body no_counts) (binders p))) m h in
        let (c, d) = exp-Ignores arg (remove_keys (occ body no_counts) (binders p)) rest in
        let cases = pattern-cases p x (remove_keys-none (binders p) (occ body no_counts) c) in
        (
          saved,
          λ env env' k i. S.bind (pattern_shape p) (d env env' k i) (
              fun_ext
                (λ vs.
                  binder-Ignores (pattern_ids p) (λ w. eval S w body) (occ body no_counts)
                    (λ z. (exp-Ignores body no_counts z).1) cases vs env env' k)
                i),
        )
    exp-Ignores (var (local v none)) m h = local-Ignores v m h
    exp-Ignores (var (local v (some s))) m h =
        let (a, b) = local-Ignores v m h in (a, λ env env' k. ap (S.suffixed s) (b env env' k))
    exp-Ignores (var (global q)) m h = (h, λ env env' k. refl)
    exp-Ignores (record_literal fields) m h =
        let (a, b) = fields-Ignores fields m h in (a, λ env env' k. ap S.record_of (b env env' k))
    exp-Ignores (rec_up r updates) m h =
        let (c, d) = fields-Ignores updates (occ r m) h in
        let (a, b) = exp-Ignores r m c in
        (a, λ env env' k. ap₂ S.update (b env env' k) (d env env' k))
    exp-Ignores (rec_field r label) m h =
        let (a, b) = exp-Ignores r m h in
        (a, λ env env' k. ap (λ a. S.project a label) (b env env' k))
    exp-Ignores (Exp.tuple es) m h =
        let (a, b) = exps-Ignores es m h in (a, λ env env' k. ap S.tuple_of (b env env' k))
    exp-Ignores (constructor c es) m h =
        let (a, b) = exps-Ignores es m h in (a, λ env env' k. ap (S.construct c) (b env env' k))
    exp-Ignores (fun_literal es) m h =
        let (a, b) = exps-Ignores es m h in (a, λ env env' k. ap S.function_of (b env env' k))
    exp-Ignores (const k) m h = (h, λ env env' k. refl)
    exp-Ignores (binary_op op l r) m h =
        let (c, d) = exp-Ignores r (occ l m) h in
        let (a, b) = exp-Ignores l m c in
        (a, λ env env' k. ap₂ (S.binary op) (b env env' k) (d env env' k))
    exp-Ignores (unary_op op e) m h =
        let (a, b) = exp-Ignores e m h in (a, λ env env' k. ap (S.unary op) (b env env' k))
    exp-Ignores (call f es) m h =
        let (c, d) = exps-Ignores es (occ f m) h in
        let (a, b) = exp-Ignores f m c in
        (a, λ env env' k. ap₂ S.apply (b env env' k) (d env env' k))
    exp-Ignores (attr mark e) m h =
        let (a, b) = exp-Ignores e m h in (a, λ env env' k. ap (S.marked mark) (b env env' k))
    exp-Ignores (lam bs body) m h =
        let (a, b) = exp-Ignores body m h in
        (
          a,
          λ env env' k.
              ap (S.abstraction (binder_shape bs))
                (fun_ext λ vs. b _ _ (extend-Agree (Other x) (binder_ids bs) env env' vs k)),
        )
    exp-Ignores (match_with e arms) m h =
        let (c, d) = arms-Ignores arms (occ e m) h in
        let (a, b) = exp-Ignores e m c in
        (a, λ env env' k. ap₂ S.branch (b env env' k) (d env env' k))
    exp-Ignores (if_then_else c l r) m h =
        let (p, q) = exp-Ignores r (occ l (occ c m)) h in
        let (u, v) = exp-Ignores l (occ c m) p in
        let (a, b) = exp-Ignores c m u in
        (a, λ env env' k i. S.choose (b env env' k i) (v env env' k i) (q env env' k i))
    exp-Ignores (ascribe e ty) m h =
        let (a, b) = exp-Ignores e m h in (a, λ env env' k. ap (λ a. S.cast a ty) (b env env' k))
    exp-Ignores (impl l r) m h =
        let (c, d) = exp-Ignores r (occ l m) h in
        let (a, b) = exp-Ignores l m c in
        (a, λ env env' k. ap₂ S.implication (b env env' k) (d env env' k))
    exp-Ignores (forall_in bs ts e) m h =
        let counts = occ_triggers ts (occ e no_counts) in
        let (rest, saved) = merge-none (remove_keys counts (quantified_ids bs)) m h in
        let both : counts x ≡ none
            → Ignores (λ env. eval_triggers S env ts) × Ignores (λ env. eval S env e) =
          λ z. (
            (triggers-Ignores ts (occ e no_counts) z).1,
            (exp-Ignores e no_counts (triggers-Ignores ts (occ e no_counts) z).0).1,
          ) in
        let cases = remove_keys-none (quantified_ids bs) counts rest in
        (
          saved,
          λ env env' k.
              ap₂ (S.for_all (quantified_shape bs))
                (fun_ext λ vs.
                  binder-Ignores (quantified_ids bs) (λ w. eval_triggers S w ts) counts
                    (λ z. (both z).0) cases vs env env' k)
                (fun_ext λ vs.
                  binder-Ignores (quantified_ids bs) (λ w. eval S w e) counts (λ z. (both z).1)
                    cases vs env env' k),
        )
    exp-Ignores (exists_in bs ts e) m h =
        let counts = occ_triggers ts (occ e no_counts) in
        let (rest, saved) = merge-none (remove_keys counts (quantified_ids bs)) m h in
        let both : counts x ≡ none
            → Ignores (λ env. eval_triggers S env ts) × Ignores (λ env. eval S env e) =
          λ z. (
            (triggers-Ignores ts (occ e no_counts) z).1,
            (exp-Ignores e no_counts (triggers-Ignores ts (occ e no_counts) z).0).1,
          ) in
        let cases = remove_keys-none (quantified_ids bs) counts rest in
        (
          saved,
          λ env env' k.
              ap₂ (S.there_is (quantified_shape bs))
                (fun_ext λ vs.
                  binder-Ignores (quantified_ids bs) (λ w. eval_triggers S w ts) counts
                    (λ z. (both z).0) cases vs env env' k)
                (fun_ext λ vs.
                  binder-Ignores (quantified_ids bs) (λ w. eval S w e) counts (λ z. (both z).1)
                    cases vs env env' k),
        )

    exps-Ignores :
        (es : Exps) (m : Counts)
        → occ_exps es m x ≡ none
        → (m x ≡ none) × Ignores (λ env. eval_exps S env es)
    exps-Ignores nil m h = (h, λ env env' k. refl)
    exps-Ignores (cons e es) m h =
        let (c, d) = exps-Ignores es (occ e m) h in
        let (a, b) = exp-Ignores e m c in
        (a, λ env env' k. ap₂ (λ a b. a ∷ b) (b env env' k) (d env env' k))

    fields-Ignores :
        (fs : NamedExps) (m : Counts)
        → occ_fields fs m x ≡ none
        → (m x ≡ none) × Ignores (λ env. eval_fields S env fs)
    fields-Ignores no_field m h = (h, λ env env' k. refl)
    fields-Ignores (field name e fs) m h =
        let (c, d) = fields-Ignores fs (occ e m) h in
        let (a, b) = exp-Ignores e m c in
        (a, λ env env' k. ap₂ (λ a b. (name, a) ∷ b) (b env env' k) (d env env' k))

    arms-Ignores :
        (arms : Arms) (m : Counts)
        → occ_arms arms m x ≡ none
        → (m x ≡ none) × Ignores (λ env. eval_arms S env arms)
    arms-Ignores no_arm m h = (h, λ env env' k. refl)
    arms-Ignores (arm p e rest) m h =
        let (c, d) = arms-Ignores rest (occ e m) h in
        let (a, b) = exp-Ignores e m c in
        (
          a,
          λ env env' k.
              ap₂ (λ f fs. (pattern_shape p, f) ∷ fs)
                (fun_ext λ vs. b _ _ (extend-Agree (Other x) (pattern_ids p) env env' vs k))
                (d env env' k),
        )

    triggers-Ignores :
        (ts : Triggers) (m : Counts)
        → occ_triggers ts m x ≡ none
        → (m x ≡ none) × Ignores (λ env. eval_triggers S env ts)
    triggers-Ignores no_trigger m h = (h, λ env env' k. refl)
    triggers-Ignores (trigger es ts) m h =
        let (c, d) = triggers-Ignores ts (occ_exps es m) h in
        let (a, b) = exps-Ignores es m c in
        (a, λ env env' k. ap₂ (λ a b. a ∷ b) (b env env' k) (d env env' k))

  -- A variable that is not counted has no influence on the meaning: in two environments that agree on
  -- all other variables, the expression has one value.
  pub occurences-none :
      (e : Exp) (env env' : Ident → V)
      → occurences e x ≡ none
      → Agree (Other x) env env'
      → eval S env e ≡ eval S env' e
  unfolding occurences
  occurences-none e env env' h k = (exp-Ignores e no_counts h).1 env env' k
