-- ===== src/Examples/Simplify.antt =====
-- why3/src/exp.rs: what the functions that build expressions make of `true`.
use creusot.Prelude.{Bool, true, false, [], none, ◌≡◌}
use creusot.Prelude.Decimal.{codes}
use creusot.Why3.Name.{Ident, local}
use creusot.Why3.Exp.{Exp, BinOp, var, const, bool, no_trigger, forall_in, exists_in}
use creusot.Why3.Exp.Build.{
  lazy_and, log_and, log_or, implies, mk_eq, mk_if, forall_trig, exists_trig,
}
use creusot.Why3.Exp.Semantics.{eval}
use creusot.Why3.Exp.Simplify.{eval_connectives, eval-mk_if, eval_quantifiers, IsBusy}
use creusot.Examples.Truths.{truths, truths_logic, connective}

abbrev x : Ident
x = record { name = codes "x"; src = []; id = 1 }

abbrev var_x : Exp
var_x = var (local x none)

abbrev yes_env : Ident → Bool
yes_env v = true

abbrev yes_e : Exp
yes_e = const (bool true)

abbrev no_e : Exp
no_e = const (bool false)

eval_connectives_example :
    (eval truths yes_env (lazy_and yes_e var_x) ≡ connective BinOp.lazy_and true true)
    × (eval truths yes_env (log_and yes_e var_x) ≡ connective BinOp.log_and true true)
    × (eval truths yes_env (log_or yes_e var_x) ≡ connective BinOp.log_or true true)
    × (eval truths yes_env (mk_eq yes_e var_x) ≡ connective BinOp.eq true true)
    × (eval truths yes_env (implies yes_e var_x) ≡ true)
unfolding eval
eval_connectives_example = eval_connectives truths truths_logic yes_env yes_e var_x tt tt

eval-mk_if_example : eval truths yes_env (mk_if no_e yes_e var_x) ≡ true
unfolding eval
eval-mk_if_example = eval-mk_if truths truths_logic yes_env no_e yes_e var_x tt

eval_quantifiers_example :
    (eval truths yes_env (forall_trig [] no_trigger var_x)
      ≡ eval truths yes_env (forall_in [] no_trigger var_x))
    × (eval truths yes_env (exists_trig [] no_trigger var_x)
        ≡ eval truths yes_env (exists_in [] no_trigger var_x))
    × IsBusy (forall_trig [] no_trigger var_x)
    × IsBusy (exists_trig [] no_trigger var_x)
unfolding IsBusy
eval_quantifiers_example = eval_quantifiers truths truths_logic yes_env [] no_trigger var_x tt
