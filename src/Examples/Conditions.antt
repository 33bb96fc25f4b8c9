-- ===== src/Examples/Conditions.antt =====
-- why3/src/exp.rs and why3/src/declaration.rs: reassociation and contracts by truth values.
use creusot.Prelude.{Bool, true, false, [], ◌∷◌, map, none, some, ◌≡◌, refl}
use creusot.Prelude.Decimal.{codes}
use creusot.Why3.Name.{Ident}
use creusot.Why3.Exp.{Exp, BinOp, const, binary_op, bool}
use creusot.Why3.Exp.Semantics.{eval}
use creusot.Why3.Exp.Precedence.{
  associative, op_precedence, associativity, reorder, rotate_left, rotate_right, op_index,
}
use creusot.Why3.Exp.Reassociate.{
  reassociate, reassociate_with, reassociate_step, super_visit, weight, weigh,
}
use creusot.Why3.Exp.Reassociate.Settled.{IsSettled}
use creusot.Why3.Exp.Reassociate.Keeps.{ReordersAssociative, eval-reassociate}
use creusot.Why3.Declaration.{
  Condition, Contract, requires_conj, requires_conj_labelled, ensures_conj, ensures_conj_labelled,
  requires_implies,
}
use creusot.Why3.Declaration.Meant.{
  ClosedLogic, all_of, imply_from, eval_conjunctions, eval-requires_implies,
}
use creusot.Examples.Truths.{truths, truths_logic}

abbrev yes_e : Exp
yes_e = const (bool true)

abbrev no_e : Exp
no_e = const (bool false)

truths_law : ReordersAssociative truths
unfolding associative
truths_law BinOp.log_and h true b c = refl
truths_law BinOp.log_and h false b c = refl
truths_law BinOp.log_or h true b c = refl
truths_law BinOp.log_or h false b c = refl
truths_law BinOp.lazy_and h true b c = refl
truths_law BinOp.lazy_and h false b c = refl
truths_law BinOp.lazy_or h a b c = refl
truths_law BinOp.add h a b c = refl
truths_law BinOp.mul h a b c = refl
truths_law _ h a b c = absurd (cc h)

truths_closed : ClosedLogic truths truths_logic
truths_closed = record { conjunction = λ v w h k. tt; implied_truth = λ v w h k. tt }

-- `1 + (2 + 3)`, with truth values for the numbers, becomes `(1 + 2) + 3`.
abbrev right_nested : Exp
right_nested = binary_op BinOp.add yes_e (binary_op BinOp.add no_e yes_e)

reassociated :
    reassociate right_nested ≡ some (binary_op BinOp.add (binary_op BinOp.add yes_e no_e) yes_e)
unfolding reassociate reassociate_with reassociate_step super_visit weight weigh associative
    op_precedence associativity reorder rotate_left rotate_right op_index
reassociated = refl

eval-reassociate_example :
    (out : Exp) × (reassociate right_nested ≡ some out)
    × ((env : Ident → Bool) → eval truths env out ≡ eval truths env right_nested)
    × IsSettled out
eval-reassociate_example = eval-reassociate truths truths_law right_nested

abbrev no_env : Ident → Bool
no_env _ = false

abbrev c_yes : Condition
c_yes = record { exp = yes_e; expl = codes "expl:f requires" }

abbrev c_sum : Condition
c_sum = record { exp = right_nested; expl = codes "expl:f ensures" }

abbrev two_conditions : Contract
two_conditions = record {
  requires = c_sum ∷ c_yes ∷ c_sum ∷ [];
  ensures = c_sum ∷ [];
  variant = none;
}

eval_conjunctions_example :
    ((out : Exp) × (requires_conj two_conditions ≡ some out)
      × (eval truths no_env out
          ≡ all_of truths
              (map (λ (k : Condition). eval truths no_env k.exp) two_conditions.requires)))
    × ((out : Exp) × (requires_conj_labelled two_conditions ≡ some out)
        × (eval truths no_env out
            ≡ all_of truths
                (map (λ (k : Condition). eval truths no_env k.exp) two_conditions.requires)))
    × ((out : Exp) × (ensures_conj two_conditions ≡ some out)
        × (eval truths no_env out
            ≡ all_of truths
                (map (λ (k : Condition). eval truths no_env k.exp) two_conditions.ensures)))
    × ((out : Exp) × (ensures_conj_labelled two_conditions ≡ some out)
        × (eval truths no_env out
            ≡ all_of truths
                (map (λ (k : Condition). eval truths no_env k.exp) two_conditions.ensures)))
eval_conjunctions_example =
    eval_conjunctions truths truths_logic truths_closed truths_law no_env two_conditions
      (tt, (tt, (tt, tt))) (tt, tt)

eval-requires_implies_example :
    eval truths no_env (requires_implies two_conditions no_e)
    ≡ imply_from truths
        (map (λ (k : Condition). eval truths no_env k.exp) two_conditions.requires)
        (eval truths no_env no_e)
eval-requires_implies_example =
    eval-requires_implies truths truths_logic truths_closed truths_law no_env two_conditions no_e
      (tt, (tt, (tt, tt))) tt
