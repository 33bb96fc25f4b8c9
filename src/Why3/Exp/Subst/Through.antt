-- ===== src/Why3/Exp/Subst/Through.antt =====
-- why3/src/exp.rs: what a visit of `BoundSubst` keeps of the environments before and after it.
use native.Mathlib.Nat.{mod-eq_of_lt}
use creusot.Prelude.{
  ℕ, suc, ◌+◌, ◌<◌, ◌≤◌, ◌^◌, true, false, List, [], ◌∷◌, Option, none, some, ◌≡◌, ◌≢◌, refl, sym,
  ap, ◌∙◌, arith, length, Bool-cases, Option-cases, inl, inr, some_eq,
}
use creusot.Prelude.Decimal.{Text}
use creusot.Why3.Name.{Ident, ident_eq, fresh_u64, refresh}
use creusot.Why3.Name.Laws.{ident_eq_iff}
use creusot.Why3.Exp.{Exp}
use creusot.Why3.Exp.Semantics.{Meaning, eval, assign, extend}
use creusot.Why3.Exp.Vars.{AllVars}
use creusot.Why3.Exp.Visit.{Bound, Subst, insert, refresh_var}
use creusot.Why3.Exp.Coincidence.{eval-Agree}
use creusot.Why3.Exp.Subst.Refresh.{refresh_ids}

-- The numbers of the variables that bound ones are renamed to are drawn already.
abbrev pub InRange : Bound → ℕ → Type 0
InRange bound counter = (v w : Ident) → bound v ≡ some w → w.id < counter

pub insert_same {ℓ} :
    {A : Type ℓ} (m : Ident → Option A) (k v : Ident) (x : A)
    → ident_eq k v ≡ true
    → insert m k x v ≡ some x
unfolding insert
insert_same m k v x e = rw e

pub insert_other {ℓ} :
    {A : Type ℓ} (m : Ident → Option A) (k v : Ident) (x : A)
    → ident_eq k v ≡ false
    → insert m k x v ≡ m v
unfolding insert
insert_other m k v x e = rw e

pub assign_same :
    {V : Type 0} (env : Ident → V) (k v : Ident) (x : V)
    → ident_eq k v ≡ true
    → assign env k x v ≡ x
unfolding assign
assign_same env k v x e = rw e

pub assign_other :
    {V : Type 0} (env : Ident → V) (k v : Ident) (x : V)
    → ident_eq k v ≡ false
    → assign env k x v ≡ env v
unfolding assign
assign_other env k v x e = rw e

id-ne : (k v : Ident) → k.id ≢ v.id → ident_eq k v ≡ false
id-ne k v h = elim (Bool-cases (ident_eq k v)) [
  | inl e ↦ absurd (h (ap (λ (i : Ident). i.id) ((ident_eq_iff k v).0 e)))
  | inr e ↦ e
]

refresh_var_lem :
    (v : Ident) (bound : Bound) (counter : ℕ)
    → counter + 1 < 2 ^ 64
    → (out : Ident) × (out.id ≡ counter)
      × (refresh_var v (bound, counter) ≡ (out, (insert bound v out, counter + 1)))
unfolding refresh_var refresh fresh_u64
refresh_var_lem v bound counter h = (record v { id = counter }, refl, rw (mod-eq_of_lt h))

insert-InRange :
    (v out : Ident) (bound : Bound) (counter : ℕ)
    → out.id ≡ counter
    → InRange bound counter
    → InRange (insert bound v out) (counter + 1)
insert-InRange v out bound counter h r u w e = elim (Bool-cases (ident_eq v u)) [
  | inl same ↦
      let eq : out ≡ w = some_eq (sym (insert_same bound v u out same) ∙ e) in
      rw (← eq) (omega arith)
  | inr other ↦ omega (arith, r u w (sym (insert_other bound v u out other) ∙ e))
]

-- The counter after a list of identifiers, and the range of the map after it.
pub refresh_ids_lem :
    (ids : List Ident) (bound : Bound) (counter : ℕ)
    → counter + length ids < 2 ^ 64
    → InRange bound counter
    → ((refresh_ids ids (bound, counter)).1.1 ≡ counter + length ids)
      × InRange (refresh_ids ids (bound, counter)).1.0 (counter + length ids)
unfolding refresh_ids
refresh_ids_lem [] bound counter h r = (omega arith, λ v w e. omega (arith, r v w e))
refresh_ids_lem (v ∷ ids) bound counter h r =
    let (out, at, run) = refresh_var_lem v bound counter (omega arith) in
    let (a, b) =
      refresh_ids_lem ids (insert bound v out) (counter + 1) (omega arith)
        (insert-InRange v out bound counter at r) in
    rw run (omega (arith, a), λ u w e. omega (arith, b u w e))

-- All variables of the terms that are put in are older than the first number drawn.
abbrev pub IsOld : Subst → ℕ → Type 0
IsOld σ start = (v : Ident) (t : Exp) → σ v ≡ some t → AllVars (λ u _. u.id < start) t

-- Variables of the expression are older too, and one with a suffix is not replaced.
abbrev pub IsReady : Subst → ℕ → Ident → Option Text → Type 0
IsReady σ start v none = v.id < start
IsReady σ start v (some s) = (v.id < start) × (σ v ≡ none)

module _ (S : Meaning) (σ : Subst) (start : ℕ) where
  open S use {V}

  -- The value of a variable of the expression before the visit, in the environment after it.
  unfoldable pub through : Bound → (Ident → V) → Ident → V
  through bound env v = elim (bound v) [
    | some w ↦ env w
    | none ↦ elim (σ v) [ some t ↦ eval S env t | none ↦ env v ]
  ]

  -- `before` is the environment of the expression visited, `after` the one of the result.
  abbrev pub Follows : Bound → (Ident → V) → (Ident → V) → Type 0
  Follows bound before after = (v : Ident) → v.id < start → before v ≡ through bound after v

  through-assign :
      (bound : Bound) (counter : ℕ) (out v : Ident) (x : V) (env : Ident → V)
      → IsOld σ start
      → InRange bound counter
      → start ≤ counter
      → out.id ≡ counter
      → v.id < start
      → through bound (assign env out x) v ≡ through bound env v
  unfolding through
  through-assign bound counter out v x env old r s e h = elim (Option-cases (bound v)) [
    | inr renamed ↦
        rw (renamed.1, through)
          (assign_other env out renamed.0 x
            (id-ne out renamed.0 (omega (arith, r v renamed.0 renamed.1))))
    | inl free ↦ elim (Option-cases (σ v)) [
      | inl kept ↦ rw (free, kept, through) (assign_other env out v x (id-ne out v (omega arith)))
      | inr put ↦
          rw (free, put.1, through)
            (eval-Agree S (λ u. u.id < start) put.0 (assign env out x) env
              (λ u q. assign_other env out u x (id-ne out u (omega arith))) (old v put.0 put.1))
    ]
  ]

  through-insert_same :
      (bound : Bound) (k u out : Ident) (env : Ident → V)
      → ident_eq k u ≡ true
      → through (insert bound k out) env u ≡ env out
  unfolding through
  through-insert_same bound k u out env e = rw (insert_same bound k u out e, through)

  through-insert_other :
      (bound : Bound) (k u out : Ident) (env : Ident → V)
      → ident_eq k u ≡ false
      → through (insert bound k out) env u ≡ through bound env u
  unfolding through
  through-insert_other bound k u out env e = rw (insert_other bound k u out e, through)

  -- One identifier, renamed and given a value on both sides.
  assign-Follows :
      (bound : Bound) (counter : ℕ) (k out : Ident) (x : V) (before after : Ident → V)
      → IsOld σ start
      → InRange bound counter
      → start ≤ counter
      → out.id ≡ counter
      → Follows bound before after
      → Follows (insert bound k out) (assign before k x) (assign after out x)
  assign-Follows bound counter k out x before after old r s at f u h =
      elim (Bool-cases (ident_eq k u)) [
        | inl same ↦
            assign_same before k u x same
            ∙ sym (
                through-insert_same bound k u out (assign after out x) same
                ∙ assign_same after out out x ((ident_eq_iff out out).1 refl))
        | inr other ↦
            assign_other before k u x other
            ∙ f u h
            ∙ sym (
                through-insert_other bound k u out (assign after out x) other
                ∙ through-assign bound counter out u x after old r s at h)
      ]

  -- The identifiers of a binder.
  pub extend-Follows :
      (ids : List Ident) (bound : Bound) (counter : ℕ) (values : ℕ → V) (before after : Ident → V)
      → IsOld σ start
      → counter + length ids < 2 ^ 64
      → InRange bound counter
      → start ≤ counter
      → Follows bound before after
      → Follows
          (refresh_ids ids (bound, counter)).1.0
          (extend before ids values)
          (extend after (refresh_ids ids (bound, counter)).0 values)
  unfolding refresh_ids extend
  extend-Follows [] bound counter values before after old h r s f = f
  extend-Follows (k ∷ ids) bound counter values before after old h r s f =
      let (out, at, run) = refresh_var_lem k bound counter (omega arith) in
      rw run (
        extend-Follows ids (insert bound k out) (counter + 1) (λ n. values (suc n))
          (assign before k (values 0)) (assign after out (values 0)) old (omega arith)
          (insert-InRange k out bound counter at r) (omega arith)
          (assign-Follows bound counter k out (values 0) before after old r s at f))
