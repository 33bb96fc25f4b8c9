-- ===== src/Why3/Declaration/Meant.antt =====
-- why3/src/declaration.rs: what the conjunctions of a contract and its implication mean.
use creusot.Prelude.{true, List, [], ◌∷◌, map, some, ◌≡◌, refl, sym, ap, ◌∙◌, All}
use mathlib.Core.Path.{subst}
use creusot.Why3.Name.{Ident}
use creusot.Why3.Exp.{Exp, BinOp, bool}
use creusot.Why3.Exp.Build.{lazy_conj, lazy_and, mk_true}
use creusot.Why3.Exp.Semantics.{Meaning, eval}
use creusot.Why3.Exp.Simplify.{Logic, eval_connectives}
use creusot.Why3.Exp.Reassociate.Keeps.{ReordersAssociative, eval-reassociate}
use creusot.Why3.Declaration.{
  Condition, Contract, labelled_exp, conj_from, conj, ensures_conj, ensures_conj_labelled,
  requires_conj, requires_conj_labelled, implied, requires_implies,
}

module _ (S : Meaning) (L : Logic S) where
  -- Conjunctions and implications of truth values are truth values.
  pub record ClosedLogic : Type 0 where
    pub conjunction :
        (v w : S.V) → L.IsTruth v → L.IsTruth w → L.IsTruth (S.binary BinOp.lazy_and v w)
    pub implied_truth : (v w : S.V) → L.IsTruth v → L.IsTruth w → L.IsTruth (S.implication v w)

-- `&&` from left to right, and `->` from right to left.
unfoldable pub and_from : (S : Meaning) → S.V → List S.V → S.V
and_from S v [] = v
and_from S v (w ∷ ws) = and_from S (S.binary BinOp.lazy_and v w) ws

unfoldable pub all_of : (S : Meaning) → List S.V → S.V
all_of S [] = S.constant (bool true)
all_of S (v ∷ vs) = and_from S v vs

unfoldable pub imply_from : (S : Meaning) → List S.V → S.V → S.V
imply_from S [] w = w
imply_from S (v ∷ vs) w = S.implication v (imply_from S vs w)

module _ (S : Meaning) (L : Logic S) (C : ClosedLogic S L) (law : ReordersAssociative S)
    (env : Ident → S.V) where
  abbrev pub value_of : Condition → S.V
  value_of k = eval S env k.exp

  abbrev pub AreTruths : List Condition → Type 0
  AreTruths cs = All (λ k. L.IsTruth (value_of k)) cs

  eval-conj_from :
      (g : Condition → Exp) (e : Exp) (cs : List Condition)
      → ((k : Condition) → eval S env (g k) ≡ value_of k)
      → L.IsTruth (eval S env e)
      → AreTruths cs
      → eval S env (conj_from e (map g cs)) ≡ and_from S (eval S env e) (map value_of cs)
  unfolding conj_from and_from lazy_conj
  eval-conj_from g e [] same he h = refl
  eval-conj_from g e (k ∷ cs) same he h =
      let truth = subst L.IsTruth (sym (same k)) h.0 in
      let both =
        (eval_connectives S L env e (g k) he truth).0
        ∙ ap (S.binary BinOp.lazy_and (eval S env e)) (same k) in
      eval-conj_from g (lazy_and e (g k)) cs same
        (subst L.IsTruth (sym both) (C.conjunction _ _ he h.0)) h.1
      ∙ ap (λ v. and_from S v (map value_of cs)) both

  eval-conj :
      (g : Condition → Exp) (cs : List Condition)
      → ((k : Condition) → eval S env (g k) ≡ value_of k)
      → AreTruths cs
      → (out : Exp) × (conj (map g cs) ≡ some out) × (eval S env out ≡ all_of S (map value_of cs))
  unfolding conj all_of mk_true eval
  eval-conj g [] same h = (mk_true, refl, refl)
  eval-conj g (k ∷ cs) same h =
      let (out, given, kept, settled) = eval-reassociate S law (conj_from (g k) (map g cs)) in
      (
        out,
        given,
        kept env
            ∙ eval-conj_from g (g k) cs same (subst L.IsTruth (sym (same k)) h.0) h.1
            ∙ ap (λ v. and_from S v (map value_of cs)) (same k),
      )

  labelled_same : (k : Condition) → eval S env (labelled_exp k) ≡ value_of k
  unfolding labelled_exp eval
  labelled_same k = L.attribute _ _

  -- In a meaning with the laws of logic: the conjunctions of the preconditions and of the postconditions do not
  -- panic, and with the labels or without them their value is the conjunction of the values, from left to right.
  pub eval_conjunctions :
      (c : Contract)
      → AreTruths c.requires
      → AreTruths c.ensures
      → ((out : Exp) × (requires_conj c ≡ some out)
          × (eval S env out ≡ all_of S (map value_of c.requires)))
        × ((out : Exp) × (requires_conj_labelled c ≡ some out)
            × (eval S env out ≡ all_of S (map value_of c.requires)))
        × ((out : Exp) × (ensures_conj c ≡ some out)
            × (eval S env out ≡ all_of S (map value_of c.ensures)))
        × ((out : Exp) × (ensures_conj_labelled c ≡ some out)
            × (eval S env out ≡ all_of S (map value_of c.ensures)))
  unfolding requires_conj requires_conj_labelled ensures_conj ensures_conj_labelled
  eval_conjunctions c hr he = (
    eval-conj (λ k. k.exp) c.requires (λ k. refl) hr,
    eval-conj labelled_exp c.requires labelled_same hr,
    eval-conj (λ k. k.exp) c.ensures (λ k. refl) he,
    eval-conj labelled_exp c.ensures labelled_same he,
  )

  eval-implied :
      (cs : List Condition) (e : Exp)
      → AreTruths cs
      → L.IsTruth (eval S env e)
      → (eval S env (implied cs e) ≡ imply_from S (map value_of cs) (eval S env e))
        × L.IsTruth (eval S env (implied cs e))
  unfolding implied imply_from
  eval-implied [] e h he = (refl, he)
  eval-implied (k ∷ cs) e h he =
      let (rest, truth) = eval-implied cs e h.1 he in
      let (_, _, _, _, both) = eval_connectives S L env k.exp (implied cs e) h.0 truth in
      (
        both ∙ ap (S.implication (value_of k)) rest,
        subst L.IsTruth (sym both) (C.implied_truth _ _ h.0 truth),
      )

  -- In a meaning with the laws of logic: `requires_implies` has the value of the conclusion under all preconditions, the first
  -- one outermost.
  pub eval-requires_implies :
      (c : Contract) (conclusion : Exp)
      → AreTruths c.requires
      → L.IsTruth (eval S env conclusion)
      → eval S env (requires_implies c conclusion)
        ≡ imply_from S (map value_of c.requires) (eval S env conclusion)
  unfolding requires_implies
  eval-requires_implies c conclusion h hc = (eval-implied c.requires conclusion h hc).0
