-- ===== src/Examples/Substitution.antt =====
-- why3/src/exp.rs: substitution under a binder of the variable that is put in.
use creusot.Prelude.{ℕ, ◌+◌, Bool, true, false, [], ◌∷◌, none, some, ◌≡◌, refl, sym, arith}
use creusot.Prelude.Decimal.{codes}
use creusot.Prelude.Texts.{text_eq}
use creusot.Why3.Name.{Ident, local, ident_eq}
use creusot.Why3.Exp.{Exp, var, lam, binary_op, BinOp, named}
use creusot.Why3.Exp.Semantics.{eval, assign, binder_ids}
use creusot.Why3.Exp.Vars.{draws}
use creusot.Why3.Exp.Visit.{subst, insert}
use creusot.Why3.Exp.Subst.Correct.{eval-subst, substituted}
use creusot.Why3.Exp.Occurs.{occurences, mk_let, occ, bump}
use creusot.Why3.Exp.Occurs.Let.{single, single-IsOld, eval-mk_let}
use creusot.Why3.Exp.Occurs.Sound.{occurences-none}
use creusot.Why3.Exp.Subst.Through.{assign_other}
use creusot.Examples.Truths.{truths}

abbrev x : Ident
x = record { name = codes "x"; src = []; id = 1 }

abbrev y : Ident
y = record { name = codes "y"; src = []; id = 2 }

abbrev var_y : Exp
var_y = var (local y none)

-- `fun y -> x /\ y`, with `y` put in for `x`.
abbrev body : Exp
body = lam (named y ∷ []) (binary_op BinOp.log_and (var (local x none)) var_y)

draws-body : draws body ≡ 1
unfolding draws binder_ids
draws-body = refl

eval-subst_example :
    (out : Exp) × (subst body (single x var_y) 3 ≡ some (out, 3 + draws body))
    × ((env : Ident → Bool)
        → eval truths env out ≡ eval truths (substituted truths (single x var_y) env) body)
eval-subst_example =
    eval-subst truths (single x var_y) body 3 (single-IsOld x var_y 3 (omega arith))
      (omega arith, omega arith) (omega (arith, draws-body))

eval-mk_let_example :
    (out : Exp) × (after : ℕ) × (mk_let x var_y body 3 ≡ some (out, after))
    × ((env : Ident → Bool)
        → eval truths env out ≡ eval truths (assign env x (eval truths env var_y)) body)
eval-mk_let_example =
    eval-mk_let truths (λ v f. refl) x var_y body 3 (omega arith) (omega arith, omega arith)
      (omega (arith, draws-body))

y_without_x : occurences var_y x ≡ none
unfolding occurences occ bump insert ident_eq text_eq
y_without_x = refl

occurences-none_example :
    eval truths (λ v. true) var_y ≡ eval truths (assign (λ v. true) x false) var_y
occurences-none_example =
    occurences-none truths x var_y (λ v. true) (assign (λ v. true) x false) y_without_x
      (λ v k. sym (assign_other (λ v. true) x v false k))
