-- ===== src/Examples/Truths.antt =====
-- why3/src/exp.rs: a meaning of expressions by truth values, in which a binder gives `false`.
use creusot.Prelude.{Bool, true, false, ◌&&◌, ◌||◌, ◌≡◌, refl, if◌then◌else◌}
use creusot.Why3.Exp.{BinOp, bool}
use creusot.Why3.Exp.Semantics.{Meaning}
use creusot.Why3.Exp.Simplify.{Logic}

abbrev pub connective : BinOp → Bool → Bool → Bool
connective BinOp.lazy_and a b = a && b
connective BinOp.log_and a b = a && b
connective BinOp.log_or a b = a || b
connective BinOp.eq true b = b
connective BinOp.eq false true = false
connective BinOp.eq false false = true
connective _ a b = a

abbrev pub truths : Meaning
truths = record {
  V = Bool;
  global_var = λ q. false;
  suffixed = λ s v. v;
  record_of = λ fs. false;
  update = λ r fs. r;
  project = λ r label. r;
  tuple_of = λ vs. false;
  construct = λ c vs. false;
  function_of = λ vs. false;
  constant = λ k. elim k [ bool b ↦ b | _ ↦ false ];
  binary = connective;
  unary = λ op a. a;
  apply = λ f vs. f;
  marked = λ a v. v;
  abstraction = λ bs f. f (λ _. false);
  bind = λ p v f. f (λ _. v);
  branch = λ v arms. v;
  choose = λ c l r. if c then l else r;
  cast = λ v ty. v;
  implication = λ l r. if l then r else true;
  for_all = λ bs ts f. f (λ _. false);
  there_is = λ bs ts f. f (λ _. false);
}

pub truth_right : (v : Bool) → v && true ≡ v
truth_right true = refl
truth_right false = refl

pub truth_or : (v : Bool) → v || true ≡ true
truth_or true = refl
truth_or false = refl

pub truth_eq : (v : Bool) → connective BinOp.eq v true ≡ v
truth_eq true = refl
truth_eq false = refl

pub truth_implied : (v : Bool) → (if v then true else true) ≡ true
truth_implied true = refl
truth_implied false = refl

pub truth_chosen : (c v : Bool) → (if c then v else v) ≡ v
truth_chosen true v = refl
truth_chosen false v = refl

abbrev pub truths_logic : Logic truths
truths_logic = record {
  IsTruth = λ v. Unit;
  attribute = λ a v. refl;
  lazy_left = λ v h. refl;
  lazy_right = λ v h. truth_right v;
  and_left = λ v h. refl;
  and_right = λ v h. truth_right v;
  or_left = λ v h. refl;
  or_right = λ v h. truth_or v;
  eq_left = λ v h. refl;
  eq_right = λ v h. truth_eq v;
  impl_left = λ v h. refl;
  impl_right = λ v h. truth_implied v;
  choose_true = λ v w. refl;
  choose_false = λ v w. refl;
  choose_same = λ c v h. truth_chosen c v;
  for_all_true = λ bs ts. refl;
  for_all_none = λ ts v. refl;
  there_is_false = λ bs ts. refl;
  there_is_none = λ ts v. refl;
}
