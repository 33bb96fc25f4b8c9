-- ===== src/Why3/Exp/Simplify.antt =====
-- why3/src/exp.rs: the simplifications of the functions that build expressions keep the meaning.
use mathlib.Core.Path.{fun_ext}
use creusot.Prelude.{
  ℕ, Bool, true, false, ◌≢◌, List, [], ◌∷◌, ◌≡◌, refl, sym, ap, ◌∙◌, Bool-cases, inl, inr,
  if◌then◌else◌,
}
use creusot.Why3.Name.{Ident}
use creusot.Why3.Name.Qualified.{is_empty}
use creusot.Why3.Types.{WhyType, Attribute}
use creusot.Why3.Exp.{
  Exp, Triggers, BinOp, const, bool, attr, binary_op, if_then_else, forall_in, exists_in,
}
use creusot.Why3.Exp.Semantics.{
  Meaning, eval, eval_triggers, extend, quantified_ids, quantified_shape,
}
use creusot.Why3.Exp.Build.{
  is_true, is_false, lazy_and, log_and, log_or, implies, mk_eq, mk_if, forall_trig, exists_trig,
}

-- The constant, under any attributes.
pub data Decided (b : Bool) : Exp → Type 0 where
  constant : (c : Bool) → c ≡ b → Decided b (const (bool c))
  marked : (a : Attribute) {e : Exp} → Decided b e → Decided b (attr a e)

-- Not a quantifier that binds nothing or whose body is the constant that decides it.
unfoldable pub IsBusy : Exp → Type 0
IsBusy (forall_in bs ts e) = (bs ≢ []) × (¬ Decided true e)
IsBusy (exists_in bs ts e) = (bs ≢ []) × (¬ Decided false e)
IsBusy _ = Unit

is_true-Decided : {e : Exp} → Decided true e → is_true e ≡ true
unfolding is_true
is_true-Decided (constant c h) = h
is_true-Decided (marked a d) = is_true-Decided d

is_false-Decided : {e : Exp} → Decided false e → is_false e ≡ true
unfolding is_false
is_false-Decided (constant true h) = cc h
is_false-Decided (constant false h) = refl
is_false-Decided (marked a d) = is_false-Decided d

forall_trig-IsBusy :
    (bs : List (Ident × WhyType)) (ts : Triggers) (e : Exp)
    → IsBusy e
    → IsBusy (forall_trig bs ts e)
unfolding forall_trig IsBusy
forall_trig-IsBusy [] ts e busy = elim (Bool-cases (is_true e)) [
  | inl h ↦ rw h busy
  | inr h ↦ rw h busy
]
forall_trig-IsBusy (b ∷ bs) ts e busy = elim (Bool-cases (is_true e)) [
  | inl h ↦ rw h busy
  | inr h ↦ rw h ((λ q. cc q), λ d. cc (is_true-Decided d, h))
]

exists_trig-IsBusy :
    (bs : List (Ident × WhyType)) (ts : Triggers) (e : Exp)
    → IsBusy e
    → IsBusy (exists_trig bs ts e)
unfolding exists_trig IsBusy
exists_trig-IsBusy [] ts e busy = elim (Bool-cases (is_false e)) [
  | inl h ↦ rw h busy
  | inr h ↦ rw h busy
]
exists_trig-IsBusy (b ∷ bs) ts e busy = elim (Bool-cases (is_false e)) [
  | inl h ↦ rw h busy
  | inr h ↦ rw h ((λ q. cc q), λ d. cc (is_false-Decided d, h))
]

-- What the meanings of the connectives are held to, on truth values.
pub record Logic (S : Meaning) : Type 1 where
  pub IsTruth : S.V → Type 0
  pub attribute : (a : Attribute) (v : S.V) → S.marked a v ≡ v
  pub lazy_left : (v : S.V) → IsTruth v → S.binary BinOp.lazy_and (S.constant (bool true)) v ≡ v
  pub lazy_right : (v : S.V) → IsTruth v → S.binary BinOp.lazy_and v (S.constant (bool true)) ≡ v
  pub and_left : (v : S.V) → IsTruth v → S.binary BinOp.log_and (S.constant (bool true)) v ≡ v
  pub and_right : (v : S.V) → IsTruth v → S.binary BinOp.log_and v (S.constant (bool true)) ≡ v
  pub or_left :
      (v : S.V)
      → IsTruth v
      → S.binary BinOp.log_or (S.constant (bool true)) v ≡ S.constant (bool true)
  pub or_right :
      (v : S.V)
      → IsTruth v
      → S.binary BinOp.log_or v (S.constant (bool true)) ≡ S.constant (bool true)
  pub eq_left : (v : S.V) → IsTruth v → S.binary BinOp.eq (S.constant (bool true)) v ≡ v
  pub eq_right : (v : S.V) → IsTruth v → S.binary BinOp.eq v (S.constant (bool true)) ≡ v
  pub impl_left : (v : S.V) → IsTruth v → S.implication (S.constant (bool true)) v ≡ v
  pub impl_right :
      (v : S.V) → IsTruth v → S.implication v (S.constant (bool true)) ≡ S.constant (bool true)
  pub choose_true : (v w : S.V) → S.choose (S.constant (bool true)) v w ≡ v
  pub choose_false : (v w : S.V) → S.choose (S.constant (bool false)) v w ≡ w
  pub choose_same : (c v : S.V) → IsTruth c → S.choose c v v ≡ v
  pub for_all_true :
      (bs : List WhyType) (ts : (ℕ → S.V) → List (List S.V))
      → S.for_all bs ts (λ _. S.constant (bool true)) ≡ S.constant (bool true)
  pub for_all_none : (ts : (ℕ → S.V) → List (List S.V)) (v : S.V) → S.for_all [] ts (λ _. v) ≡ v
  pub there_is_false :
      (bs : List WhyType) (ts : (ℕ → S.V) → List (List S.V))
      → S.there_is bs ts (λ _. S.constant (bool false)) ≡ S.constant (bool false)
  pub there_is_none : (ts : (ℕ → S.V) → List (List S.V)) (v : S.V) → S.there_is [] ts (λ _. v) ≡ v

module _ (S : Meaning) (L : Logic S) (env : Ident → S.V) where
  is_true_sound : (e : Exp) → is_true e ≡ true → eval S env e ≡ S.constant (bool true)
  unfolding is_true eval
  is_true_sound (const (bool b)) h = ap (λ x. S.constant (bool x)) h
  is_true_sound (attr a e) h = L.attribute a (eval S env e) ∙ is_true_sound e h
  is_true_sound _ h = absurd (cc h)

  is_false_sound : (e : Exp) → is_false e ≡ true → eval S env e ≡ S.constant (bool false)
  unfolding is_false eval
  is_false_sound (const (bool true)) h = absurd (cc h)
  is_false_sound (const (bool false)) h = refl
  is_false_sound (attr a e) h = L.attribute a (eval S env e) ∙ is_false_sound e h
  is_false_sound _ h = absurd (cc h)

  -- The shape that `eq`, `lazy_and` and `log_and` share.
  unit_like :
      (op : BinOp) (l r : Exp)
      → (eval S env l ≡ S.constant (bool true)
          → S.binary op (eval S env l) (eval S env r) ≡ eval S env r)
      → (eval S env r ≡ S.constant (bool true)
          → S.binary op (eval S env l) (eval S env r) ≡ eval S env l)
      → eval S env (if is_true l then r else if is_true r then l else binary_op op l r)
        ≡ S.binary op (eval S env l) (eval S env r)
  unit_like op l r left right = elim (Bool-cases (is_true l)) [
    | inl e ↦ rw e (sym (left (is_true_sound l e)))
    | inr e ↦ elim (Bool-cases (is_true r)) [
      | inl k ↦ rw (e, k) (sym (right (is_true_sound r k)))
      | inr k ↦ rw (e, k) (unfold eval in refl)
    ]
  ]

  -- In a meaning with the laws `Logic`, on operands that are truth values, the functions that build `&&`, `/\`, `\/`, `=` and `->`
  -- give expressions with the value of the connective, whatever they simplify.
  pub eval_connectives :
      (l r : Exp)
      → L.IsTruth (eval S env l)
      → L.IsTruth (eval S env r)
      → (eval S env (lazy_and l r) ≡ S.binary BinOp.lazy_and (eval S env l) (eval S env r))
        × (eval S env (log_and l r) ≡ S.binary BinOp.log_and (eval S env l) (eval S env r))
        × (eval S env (log_or l r) ≡ S.binary BinOp.log_or (eval S env l) (eval S env r))
        × (eval S env (mk_eq l r) ≡ S.binary BinOp.eq (eval S env l) (eval S env r))
        × (eval S env (implies l r) ≡ S.implication (eval S env l) (eval S env r))
  unfolding lazy_and log_and mk_eq
  eval_connectives l r hl hr = (
    unit_like BinOp.lazy_and l r (λ e. rw e (L.lazy_left _ hr)) (λ e. rw e (L.lazy_right _ hl)),
    unit_like BinOp.log_and l r (λ e. rw e (L.and_left _ hr)) (λ e. rw e (L.and_right _ hl)),
    eval-log_or,
    unit_like BinOp.eq l r (λ e. rw e (L.eq_left _ hr)) (λ e. rw e (L.eq_right _ hl)),
    eval-implies,
  )
    where
      eval-log_or : eval S env (log_or l r) ≡ S.binary BinOp.log_or (eval S env l) (eval S env r)
      eval-log_or =
          unfold log_or in
          elim (Bool-cases (is_true l)) [
            | inl e ↦ rw (e, is_true_sound l e) (sym (L.or_left _ hr))
            | inr e ↦ elim (Bool-cases (is_true r)) [
              | inl k ↦ rw (e, k, is_true_sound r k) (sym (L.or_right _ hl))
              | inr k ↦ rw (e, k) (unfold eval in refl)
            ]
          ]

      eval-implies : eval S env (implies l r) ≡ S.implication (eval S env l) (eval S env r)
      eval-implies =
          unfold implies in
          elim (Bool-cases (is_true l)) [
            | inl e ↦ rw (e, is_true_sound l e) (sym (L.impl_left _ hr))
            | inr e ↦ elim (Bool-cases (is_true r)) [
              | inl k ↦ rw (e, k, is_true_sound r k) (sym (L.impl_right _ hl))
              | inr k ↦ rw (e, k) (unfold eval in refl)
            ]
          ]

  -- In a meaning with the laws `Logic`: `if_` gives an expression with the value of the conditional, where the condition is a truth value.
  pub eval-mk_if :
      (c t e : Exp)
      → L.IsTruth (eval S env c)
      → eval S env (mk_if c t e) ≡ S.choose (eval S env c) (eval S env t) (eval S env e)
  unfolding mk_if
  eval-mk_if c t e hc = elim (Bool-cases (is_true c)) [
    | inl yes_c ↦ elim (Bool-cases (is_true t)) [
      | inl yes_t ↦ elim (Bool-cases (is_true e)) [
        | inl yes_e ↦
            rw (yes_c, yes_t, yes_e, is_true_sound t yes_t, is_true_sound e yes_e)
              (sym (L.choose_same _ _ hc))
        | inr no_e ↦ rw (yes_c, yes_t, no_e, is_true_sound c yes_c) (sym (L.choose_true _ _))
      ]
      | inr no_t ↦ rw (yes_c, no_t, is_true_sound c yes_c) (sym (L.choose_true _ _))
    ]
    | inr no_c ↦ elim (Bool-cases (is_true t)) [
      | inl yes_t ↦ elim (Bool-cases (is_true e)) [
        | inl yes_e ↦
            rw (no_c, yes_t, yes_e, is_true_sound t yes_t, is_true_sound e yes_e)
              (sym (L.choose_same _ _ hc))
        | inr no_e ↦ rw (no_c, yes_t, no_e) (chosen_by_false)
      ]
      | inr no_t ↦ rw (no_c, no_t) (chosen_by_false)
    ]
  ]
    where
      chosen_by_false :
          eval S env (if is_false c then e else if_then_else c t e)
          ≡ S.choose (eval S env c) (eval S env t) (eval S env e)
      chosen_by_false = elim (Bool-cases (is_false c)) [
        | inl false_c ↦ rw (false_c, is_false_sound c false_c) (sym (L.choose_false _ _))
        | inr other ↦ rw other (unfold eval in refl)
      ]

module _ (S : Meaning) (L : Logic S) where
  forall_unwrapped :
      (env : Ident → S.V) (bs : List (Ident × WhyType)) (ts : Triggers) (e : Exp)
      → eval S env (if is_empty bs then e else forall_in bs ts e) ≡ eval S env (forall_in bs ts e)
  unfolding eval quantified_ids quantified_shape extend
  forall_unwrapped env [] ts e = sym (L.for_all_none _ _)
  forall_unwrapped env (b ∷ bs) ts e = refl

  exists_unwrapped :
      (env : Ident → S.V) (bs : List (Ident × WhyType)) (ts : Triggers) (e : Exp)
      → eval S env (if is_empty bs then e else exists_in bs ts e) ≡ eval S env (exists_in bs ts e)
  unfolding eval quantified_ids quantified_shape extend
  exists_unwrapped env [] ts e = sym (L.there_is_none _ _)
  exists_unwrapped env (b ∷ bs) ts e = refl

  -- In a meaning with the laws `Logic`, and around a body that is itself no idle quantifier, one that
  -- binds nothing or whose body is the constant that decides it: the functions that build quantifiers
  -- give expressions with the value of the quantifier, and never an idle quantifier.
  pub eval_quantifiers :
      (env : Ident → S.V) (bs : List (Ident × WhyType)) (ts : Triggers) (e : Exp)
      → IsBusy e
      → (eval S env (forall_trig bs ts e) ≡ eval S env (forall_in bs ts e))
        × (eval S env (exists_trig bs ts e) ≡ eval S env (exists_in bs ts e))
        × IsBusy (forall_trig bs ts e)
        × IsBusy (exists_trig bs ts e)
  unfolding forall_trig exists_trig eval
  eval_quantifiers env bs ts e busy = (
    eval-forall_trig,
    eval-exists_trig,
    forall_trig-IsBusy bs ts e busy,
    exists_trig-IsBusy bs ts e busy,
  )
    where
      value : (ℕ → S.V) → S.V
      value vs = eval S (extend env (quantified_ids bs) vs) e

      hints : (ℕ → S.V) → List (List S.V)
      hints vs = eval_triggers S (extend env (quantified_ids bs) vs) ts

      all_true : is_true e ≡ true → value ≡ (λ _. S.constant (bool true))
      all_true h = fun_ext (λ vs. is_true_sound S L (extend env (quantified_ids bs) vs) e h)

      all_false : is_false e ≡ true → value ≡ (λ _. S.constant (bool false))
      all_false h = fun_ext (λ vs. is_false_sound S L (extend env (quantified_ids bs) vs) e h)

      eval-forall_trig : eval S env (forall_trig bs ts e) ≡ eval S env (forall_in bs ts e)
      eval-forall_trig = elim (Bool-cases (is_true e)) [
        | inl h ↦
            rw (h, is_true_sound S L env e h, forall_trig)
              (sym (
                ap (S.for_all (quantified_shape bs) hints) (all_true h)
                ∙ L.for_all_true (quantified_shape bs) hints))
        | inr h ↦ rw (h, forall_trig) (forall_unwrapped env bs ts e)
      ]

      eval-exists_trig : eval S env (exists_trig bs ts e) ≡ eval S env (exists_in bs ts e)
      eval-exists_trig = elim (Bool-cases (is_false e)) [
        | inl h ↦
            rw (h, is_false_sound S L env e h, exists_trig)
              (sym (
                ap (S.there_is (quantified_shape bs) hints) (all_false h)
                ∙ L.there_is_false (quantified_shape bs) hints))
        | inr h ↦ rw (h, exists_trig) (exists_unwrapped env bs ts e)
      ]
