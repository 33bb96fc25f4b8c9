-- ===== src/Why3/Exp/Subst/Correct.antt =====
-- why3/src/exp.rs: `Exp::subst` and `Exp::let_`.
use creusot.Prelude.{ℕ, ◌+◌, ◌<◌, ◌^◌, none, some, ◌≡◌, refl, arith}
use creusot.Why3.Name.{Ident}
use creusot.Why3.Exp.{Exp}
use creusot.Why3.Exp.Semantics.{Meaning, eval}
use creusot.Why3.Exp.Vars.{AllVars, draws}
use creusot.Why3.Exp.Visit.{Subst, subst}
use creusot.Why3.Exp.Subst.Through.{IsOld, IsReady, through}
use creusot.Why3.Exp.Subst.Sound.{visit-Keeps}

-- The environment in which a variable has the value of the term that is put in for it.
unfoldable pub substituted : (S : Meaning) → Subst → (Ident → S.V) → Ident → S.V
substituted S σ env v = elim (σ v) [ some t ↦ eval S env t | none ↦ env v ]

-- Where all variables of the expression and of the terms are older than the counter, no variable that
-- is replaced has a suffix, and the counter does not wrap around: `subst` does not panic, it draws as
-- many numbers as the expression binds identifiers, and in every meaning of expressions the result has
-- the value of the expression where each variable has the value of the term put in for it. So no
-- variable of a term is captured by a binder.
pub eval-subst :
    (S : Meaning) (σ : Subst) (e : Exp) (counter : ℕ)
    → IsOld σ counter
    → AllVars (IsReady σ counter) e
    → counter + draws e < 2 ^ 64
    → (out : Exp) × (subst e σ counter ≡ some (out, counter + draws e))
      × ((env : Ident → S.V) → eval S env out ≡ eval S (substituted S σ env) e)
unfolding subst through substituted
eval-subst S σ e counter old ready small =
    let (out, run, keeps) =
      visit-Keeps S σ counter old e (λ _. none) counter ready small (λ v w h. absurd (cc h))
        (omega arith) in
    (out, run, λ env. keeps (substituted S σ env) env (λ v h. refl))
