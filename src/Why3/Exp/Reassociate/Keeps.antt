-- ===== src/Why3/Exp/Reassociate/Keeps.antt =====
-- why3/src/exp.rs: `reassociate` ends without a panic, and keeps the meaning.
use creusot.Prelude.{
  not, ◌||◌, ap, ℕ, zero, suc, ◌<◌, arith, true, Option, none, some, ◌≡◌, refl, sym, ◌∙◌,
  Bool-cases, inl, inr, some_eq,
}
use mathlib.Core.Path.{subst}
use creusot.Why3.Name.{Ident}
use creusot.Why3.Exp.{
  Exp, BinOp, let_in, var, record_literal, rec_up, rec_field, constructor, fun_literal, const,
  binary_op, unary_op, call, attr, lam, match_with, if_then_else, ascribe, impl, forall_in,
  exists_in,
}
use creusot.Why3.Exp.Semantics.{Meaning, eval}
use creusot.Why3.Exp.Precedence.{AssocDir, associativity, op_precedence, associative, reorder}
use creusot.Why3.Exp.Precedence.Rotation.{direction, reorder-IsKept, IsKept}
use creusot.Why3.Exp.Reassociate.Children.{Good, GoodBelow, super_visit-Good}
use creusot.Why3.Exp.Reassociate.Settled.{
  IsAtRest, IsSettled, rests, reorder-IsAtRest, reorder-head,
}
use creusot.Why3.Exp.Reassociate.Lighter.{reorder-weight, reorder_total}
use creusot.Why3.Exp.Reassociate.{
  super_visit, reassociate_step, reassociate_with, reassociate, weight,
}

module _ (S : Meaning) where
  -- The operators that are reordered are associative in the meaning.
  abbrev pub ReordersAssociative : Type 0
  ReordersAssociative =
      (op : BinOp)
      → associative op ≡ true
      → (a b c : S.V) → S.binary op (S.binary op a b) c ≡ S.binary op a (S.binary op b c)

  as_visited :
      (f : Exp → Option Exp) (e : Exp)
      → GoodBelow S (weight e) f
      → IsAtRest e
      → reassociate_step f e ≡ super_visit f e
      → Good S (reassociate_step f) e
  as_visited f e h rest step =
      let g = super_visit-Good S f e h rest in
      record {
        out = g.out;
        gives = step ∙ g.gives;
        same = g.same;
        settled = g.settled;
        head_same = g.head_same;
      }

  module _ (law : ReordersAssociative) where
    reordered_same :
        (op : BinOp) (l r o : Exp)
        → associative op ≡ true
        → reorder op l r ≡ some (some o)
        → (env : Ident → S.V) → eval S env o ≡ eval S env (binary_op op l r)
    reordered_same op l r o h e env =
        let (p, given, kept) = reorder-IsKept S env op l r h (law op h) in
        subst (IsKept S env op l r) (some_eq (sym given ∙ e)) kept

    reordered-Good :
        (f : Exp → Option Exp) (op : BinOp) (l r : Exp) (dir : AssocDir) (o : Option Exp)
        → GoodBelow S (weight (binary_op op l r)) f
        → associative op ≡ true
        → associativity (op_precedence op) ≡ some dir
        → reorder op l r ≡ some o
        → Good S (reassociate_step f) (binary_op op l r)
    unfolding reassociate_step
    reordered-Good f op l r dir none h yes_op e given =
        let g = super_visit-Good S f (binary_op op l r) h (reorder-IsAtRest op l r dir e given) in
        record {
          out = g.out;
          gives = rw (yes_op, given) g.gives;
          same = g.same;
          settled = g.settled;
          head_same = g.head_same;
        }
    reordered-Good f op l r dir (some o) h yes_op e given =
        let g = h o (reorder-weight op l r o dir e given) in
        record {
          out = g.out;
          gives = rw (yes_op, given) g.gives;
          same = λ env. g.same env ∙ reordered_same op l r o yes_op given env;
          settled = g.settled;
          head_same = g.head_same ∙ reorder-head op l r o dir e given;
        }

    reassociate_step-Good :
        (f : Exp → Option Exp) (e : Exp) → GoodBelow S (weight e) f → Good S (reassociate_step f) e
    unfolding reassociate_step
    reassociate_step-Good f (binary_op op l r) h = elim (Bool-cases (associative op)) [
      | inl yes_op ↦
          let (dir, e) = direction op yes_op in
          let (o, given) = reorder_total op l r dir e in
          reordered-Good f op l r dir o h yes_op e given
      | inr no_op ↦
          let rest = ap (λ b. not b || rests (associativity (op_precedence op)) op l r) no_op in
          let g = super_visit-Good S f (binary_op op l r) h rest in
          record {
            out = g.out;
            gives = rw (no_op) g.gives;
            same = g.same;
            settled = g.settled;
            head_same = g.head_same;
          }
    ]
    reassociate_step-Good f (let_in p arg body) h = as_visited f (let_in p arg body) h tt refl
    reassociate_step-Good f (var v) h = as_visited f (var v) h tt refl
    reassociate_step-Good f (const k) h = as_visited f (const k) h tt refl
    reassociate_step-Good f (record_literal fs) h = as_visited f (record_literal fs) h tt refl
    reassociate_step-Good f (rec_up r fs) h = as_visited f (rec_up r fs) h tt refl
    reassociate_step-Good f (rec_field r label) h = as_visited f (rec_field r label) h tt refl
    reassociate_step-Good f (Exp.tuple es) h = as_visited f (Exp.tuple es) h tt refl
    reassociate_step-Good f (constructor c es) h = as_visited f (constructor c es) h tt refl
    reassociate_step-Good f (fun_literal es) h = as_visited f (fun_literal es) h tt refl
    reassociate_step-Good f (unary_op op e) h = as_visited f (unary_op op e) h tt refl
    reassociate_step-Good f (call e es) h = as_visited f (call e es) h tt refl
    reassociate_step-Good f (attr k e) h = as_visited f (attr k e) h tt refl
    reassociate_step-Good f (lam bs e) h = as_visited f (lam bs e) h tt refl
    reassociate_step-Good f (match_with e arms) h = as_visited f (match_with e arms) h tt refl
    reassociate_step-Good f (if_then_else c l r) h = as_visited f (if_then_else c l r) h tt refl
    reassociate_step-Good f (ascribe e ty) h = as_visited f (ascribe e ty) h tt refl
    reassociate_step-Good f (impl l r) h = as_visited f (impl l r) h tt refl
    reassociate_step-Good f (forall_in bs ts e) h = as_visited f (forall_in bs ts e) h tt refl
    reassociate_step-Good f (exists_in bs ts e) h = as_visited f (exists_in bs ts e) h tt refl

    reassociate_with-Good : (n : ℕ) (e : Exp) → weight e < n → Good S (reassociate_with n) e
    unfolding reassociate_with
    reassociate_with-Good zero e w = absurd (omega (arith, w))
    reassociate_with-Good (suc n) e w =
        let g =
          reassociate_step-Good (reassociate_with n) e
            (λ c lighter. reassociate_with-Good n c (omega (arith, lighter, w))) in
        record {
          out = g.out;
          gives = g.gives;
          same = g.same;
          settled = g.settled;
          head_same = g.head_same;
        }

    -- Where the operators that `associative` names are associative in the meaning, `reassociate` ends without
    -- a panic and within its fuel, its result has the value of the expression in every environment, and nothing
    -- in the result is left to reorder: no operand on the side that a rotation would take apart is an application
    -- of the same associative operator.
    pub eval-reassociate :
        (e : Exp)
        → (out : Exp) × (reassociate e ≡ some out)
          × ((env : Ident → S.V) → eval S env out ≡ eval S env e)
          × IsSettled out
    unfolding reassociate
    eval-reassociate e =
        let g = reassociate_with-Good (suc (weight e)) e (omega arith) in
        (g.out, g.gives, g.same, g.settled)
