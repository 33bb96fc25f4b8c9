-- ===== src/Why3/Exp/Occurs/Let.antt =====
-- why3/src/exp.rs: `Exp::let_` drops the binding, substitutes it, or keeps it.
use creusot.Prelude.{
  ℕ, ◌+◌, ◌<◌, ◌^◌, none, some, ◌≡◌, sym, ap, ◌∙◌, Bool-cases, Option-cases, inl, inr, some_eq,
  ◌==◌,
}
use mathlib.Core.Path.{subst as transport_along, fun_ext}
use creusot.Why3.Name.{Ident, ident_eq}
use creusot.Why3.Exp.{Exp, let_in, var_p}
use creusot.Why3.Exp.Semantics.{Meaning, eval, assign, extend, blank, pattern_ids, pattern_shape}
use creusot.Why3.Exp.Vars.{AllVars, draws}
use creusot.Why3.Exp.Visit.{Subst, insert}
use creusot.Why3.Exp.Subst.Through.{
  IsOld, IsReady, insert_same, insert_other, assign_same, assign_other,
}
use creusot.Why3.Exp.Subst.Correct.{eval-subst, substituted}
use creusot.Why3.Exp.Occurs.{occurences, mk_let}
use creusot.Why3.Exp.Occurs.Sound.{occurences-none}

-- The substitution that puts in one term.
abbrev pub single : Ident → Exp → Subst
single ident arg = insert (λ _. none) ident arg

pub single-IsOld :
    (ident : Ident) (arg : Exp) (start : ℕ)
    → AllVars (λ u _. u.id < start) arg
    → IsOld (single ident arg) start
single-IsOld ident arg start h v t e = elim (Bool-cases (ident_eq ident v)) [
  | inl same ↦
      transport_along (AllVars (λ u _. u.id < start))
        (some_eq (sym (insert_same (λ _. none) ident v arg same) ∙ e)) h
  | inr other ↦ absurd (cc (insert_other (λ _. none) ident v arg other))
]

substituted-single :
    (S : Meaning) (ident : Ident) (arg : Exp) (env : Ident → S.V)
    → substituted S (single ident arg) env ≡ assign env ident (eval S env arg)
substituted-single S ident arg env = fun_ext (λ v. at v)
  where
    at : (v : Ident) → substituted S (single ident arg) env v ≡ assign env ident (eval S env arg) v
    at v =
        unfold substituted in
        elim (Bool-cases (ident_eq ident v)) [
          | inl e ↦
              rw (insert_same (λ _. none) ident v arg e, substituted)
                (sym (assign_same env ident v (eval S env arg) e))
          | inr e ↦
              rw (insert_other {A = Exp} (λ _. none) ident v arg e, substituted)
                (sym (assign_other env ident v (eval S env arg) e))
        ]

-- `let x = arg in body` means `body` where `x` has the value of `arg`.
abbrev pub LetLaw : Meaning → Type 0
LetLaw S = (v : S.V) (f : (ℕ → S.V) → S.V) → S.bind (var_p blank) v f ≡ f (λ _. v)

module _ (S : Meaning) (law : LetLaw S) (ident : Ident) (arg body : Exp) where
  eval-dropped :
      (env : Ident → S.V)
      → occurences body ident ≡ none
      → eval S env body ≡ eval S (assign env ident (eval S env arg)) body
  eval-dropped env h =
      occurences-none S ident body env (assign env ident (eval S env arg)) h
        (λ v k. sym (assign_other env ident v (eval S env arg) k))

  eval-let_in :
      (env : Ident → S.V)
      → eval S env (let_in (var_p ident) arg body) ≡ eval S (assign env ident (eval S env arg)) body
  unfolding eval pattern_ids pattern_shape extend
  eval-let_in env =
      law (eval S env arg) (λ vs. eval S (extend env (pattern_ids (var_p ident)) vs) body)

  -- Where `let` binds its value in the meaning, the variables of the argument and of the body are older
  -- than the counter, the identifier does not stand with a suffix, and the counter does not wrap around:
  -- whatever `let_` makes of a binding (it drops it, substitutes it or keeps it), it does not panic,
  -- and the result has the value of the body where the identifier has the value of the argument.
  pub eval-mk_let :
      (counter : ℕ)
      → AllVars (λ u _. u.id < counter) arg
      → AllVars (IsReady (single ident arg) counter) body
      → counter + draws body < 2 ^ 64
      → (out : Exp) × (after : ℕ) × (mk_let ident arg body counter ≡ some (out, after))
        × ((env : Ident → S.V) → eval S env out ≡ eval S (assign env ident (eval S env arg)) body)
  unfolding mk_let
  eval-mk_let counter old ready small = elim (Option-cases (occurences body ident)) [
    | inl absent ↦ (body, counter, rw (absent, mk_let), λ env. eval-dropped env absent)
    | inr found ↦ elim (Bool-cases (found.0 == 1)) [
      | inl once ↦
          let (out, run, keeps) =
            eval-subst S (single ident arg) body counter (single-IsOld ident arg counter old) ready
              small in
          (
            out,
            counter + draws body,
            rw (found.1, mk_let) (rw once run),
            λ env. keeps env ∙ ap (λ e. eval S e body) (substituted-single S ident arg env),
          )
      | inr often ↦
          (let_in (var_p ident) arg body, counter, rw (found.1, mk_let) (rw often), eval-let_in)
    ]
  ]
