-- ===== src/Why3/Print/Terms/Panics.antt =====
-- why3/src/printer.rs: an expression is printed only if it can be.
use mathlib.Core.Path.{subst}
use creusot.Prelude.{
  ℕ, ◌⊎◌, Bool, true, false, not, ◌&&◌, ltb, ◌==◌, List, [], ◌∷◌, none, some, ◌≡◌, refl, sym, ◌∙◌,
  Option-cases, inl, inr, if◌then◌else◌, All,
}
use creusot.Why3.Exp.{
  Exp, Exps, NamedExps, Arms, Triggers, BinOp, Constant, let_in, var, record_literal, rec_up,
  rec_field, constructor, fun_literal, const, binary_op, unary_op, call, lam, match_with,
  if_then_else, ascribe, impl, forall_in, exists_in, nil, cons, no_field, field, no_arm, arm,
  no_trigger, trigger, int, uint, float, string, other, bool, char,
}
use creusot.Why3.Exp.Precedence.{Precedence, rank, precedence, atom}
use creusot.Why3.Print.{
  Docs, Why3Scope, M, ret, panic, ◌>>=◌, ◌>>◌, scoped, open_scopes, close_scopes, mapped, docs, lit,
  chained,
}
use creusot.Why3.Print.Terms.{
  has_trigger, is_finite, bin_op_to_string, pretty_constant, parens, infix_op,
}
use creusot.Why3.Print.Terms.Expressions.{
  branch, joined_by, pretty_exp, pretty_within, pretty_exps, pretty_fields, pretty_arms,
  pretty_triggers,
}
use creusot.Why3.Print.Terms.Printable.{
  HasSign, IsPrintableConstant, IsPrintable, ArePrintable, ArePrintableFields, ArePrintableArms,
  ArePrintableTriggers,
}
use creusot.Why3.Print.Terms.Safe.{parens_lem, pretty_exp_lem}

-- A printer that does not panic, somewhere.
abbrev Succeeds : {A : Type 0} → M A → Type 0
Succeeds {A} m = (s : Why3Scope) × (r : A × Why3Scope) × (m s ≡ some r)

both_parts :
    {A B : Type 0} (m : M A) (f : A → M B)
    → Succeeds (m >>= f)
    → Succeeds m × ((a : A) × Succeeds (f a))
both_parts {A = A} m f (s, r, e) = elim (Option-cases (m s)) [
  | inl stuck ↦ absurd (cc (stuck_whole stuck, e))
  | inr next ↦ ((s, next.0, next.1), (next.0.0, (next.0.1, r, sym (step next.0 next.1) ∙ e)))
]
  where
    stuck_whole : m s ≡ none → (m >>= f) s ≡ none
    stuck_whole stuck = rw (stuck, ◌>>=◌)

    step : (n : A × Why3Scope) → m s ≡ some n → (m >>= f) s ≡ f n.0 n.1
    step n given = rw (given, ◌>>=◌)

first_part : {A B : Type 0} (m : M A) (f : A → M B) → Succeeds (m >>= f) → Succeeds m
first_part m f h = (both_parts m f h).0

mapped_part : {A B : Type 0} (f : A → B) (m : M A) → Succeeds (mapped f m) → Succeeds m
unfolding mapped
mapped_part f m h = first_part m _ h

scoped_part : {A : Type 0} (m : M A) → Succeeds (scoped m) → Succeeds m
unfolding scoped
scoped_part m h =
    let (opened, (u, rest)) = both_parts open_scopes (λ _. do doc ← m; close_scopes; ret doc) h in
    first_part m (λ doc. do close_scopes; ret doc) rest

list_parts :
    {A B C : Type 0} (m : M A) (ms : M B) (f : A → B → C)
    → Succeeds (do d ← m; ds ← ms; ret (f d ds))
    → Succeeds m × Succeeds ms
list_parts m ms f h = let (one, (d, rest)) = both_parts m _ h in (one, first_part ms _ rest)

if_part :
    {A : Type 0} (test : Bool) (m n : M A)
    → Succeeds (if test then m else n)
    → ((test ≡ true) × Succeeds m) ⊎ ((test ≡ false) × Succeeds n)
if_part true m n h = inl (refl, h)
if_part false m n h = inr (refl, h)

module _ (D : Docs) where
  open D use {Doc}

  chained_parts : (d : Doc) (ms : List (M Doc)) → Succeeds (chained D d ms) → All Succeeds ms
  unfolding chained
  chained_parts d [] h = tt
  chained_parts d (m ∷ ms) h =
      let (one, (e, rest)) = both_parts m _ h in (one, chained_parts (D.append d e) ms rest)

  docs_parts : (ms : List (M Doc)) → Succeeds (docs D ms) → All Succeeds ms
  unfolding docs
  docs_parts [] h = tt
  docs_parts (m ∷ ms) h = let (one, (d, rest)) = both_parts m _ h in (one, chained_parts d ms rest)

  parens_part :
      (prec : Precedence) (child : Exp) (m : M Doc) → Succeeds (parens D prec child m) → Succeeds m
  parens_part prec child m h =
      inner
        (not (rank (precedence child) == rank atom) && ltb (rank (precedence child)) (rank prec))
        (subst Succeeds (parens_lem D prec child m) h)
    where
      inner : (b : Bool) → Succeeds (if b then mapped D.parens m else m) → Succeeds m
      inner true h = mapped_part D.parens m h
      inner false h = h

  branch_part : (m : M Doc) (end : Doc) → Succeeds (branch D m end) → Succeeds m
  branch_part m end h = (docs_parts _ (mapped_part _ _ ((docs_parts _ h).0))).1.0

  infix_op-HasSign : (op : BinOp) → Succeeds (infix_op D op) → HasSign op
  unfolding infix_op
  infix_op-HasSign op (s, r, e) = elim (Option-cases (bin_op_to_string op)) [
    | inl missing ↦ absurd (cc (stuck missing, e))
    | inr sign ↦ sign
  ]
    where
      stuck : bin_op_to_string op ≡ none → infix_op D op s ≡ none
      stuck missing = rw (missing, infix_op)

  finite_if_printed :
      (f : ℕ) (m : M Doc) → Succeeds (if is_finite f then m else panic) → is_finite f ≡ true
  finite_if_printed f m h = elim (if_part (is_finite f) m panic h) [
    | inl finite ↦ finite.0
    | inr (infinite, (s, r, e)) ↦ absurd (cc e)
  ]

  constant-IsPrintableConstant :
      (k : Constant) → Succeeds (pretty_constant D k) → IsPrintableConstant k
  unfolding pretty_constant
  constant-IsPrintableConstant (int i ty) h = tt
  constant-IsPrintableConstant (uint i ty) h = tt
  constant-IsPrintableConstant (float f none) h = finite_if_printed f _ h
  constant-IsPrintableConstant (float f (some ty)) h = finite_if_printed f _ h
  constant-IsPrintableConstant (string s) h = tt
  constant-IsPrintableConstant (other s) h = tt
  constant-IsPrintableConstant (bool b) h = tt
  constant-IsPrintableConstant (char c ty) h = tt

  hidden_triggers : (ts : Triggers) → has_trigger ts ≡ false → ArePrintableTriggers ts
  hidden_triggers no_trigger h = tt
  hidden_triggers (trigger nil ts) h = (tt, hidden_triggers ts h)
  hidden_triggers (trigger (cons e es) ts) h = absurd (cc h)

  shown_triggers :
      (ts : Triggers) (separator : Doc) (n : M Doc)
      → (Succeeds (pretty_triggers D ts) → ArePrintableTriggers ts)
      → Succeeds (
          if has_trigger ts
          then docs D (lit D " [" ∷ joined_by D separator (pretty_triggers D ts) ∷ lit D "]" ∷ [])
          else n)
      → ArePrintableTriggers ts
  shown_triggers ts separator n printed h = elim (if_part (has_trigger ts) _ n h) [
    | inl shown ↦ printed (mapped_part _ _ ((docs_parts _ shown.1).1.0))
    | inr hidden ↦ hidden_triggers ts hidden.0
  ]

  mutual
    unfolding pretty_exp pretty_within pretty_exps pretty_fields pretty_arms pretty_triggers

    printed_exp : (e : Exp) → Succeeds (pretty_exp D e) → IsPrintable e
    printed_exp (let_in p arg body) h =
        let (one, (a, rest)) = both_parts (pretty_exp D arg) _ (scoped_part _ h) in
        (printed_exp arg one, printed_exp body ((docs_parts _ rest).1.1.1.1.1.0))
    printed_exp (var v) h = tt
    printed_exp (record_literal fs) h =
        printed_fields fs (mapped_part _ _ ((docs_parts _ (mapped_part _ _ h)).1.0))
    printed_exp (rec_up r fs) h =
        let parts = docs_parts _ (mapped_part _ _ h) in
        (
          printed_exp r (parens_part _ r _ (parts.1.0)),
          printed_fields fs (mapped_part _ _ (parts.1.1.1.0)),
        )
    printed_exp (rec_field r label) h = printed_exp r (parens_part _ r _ ((docs_parts _ h).0))
    printed_exp (Exp.tuple es) h = printed_within _ es (mapped_part _ _ (mapped_part _ _ h))
    printed_exp (constructor c nil) h = tt
    printed_exp (constructor c (cons e es)) h =
        printed_within _ (cons e es) (mapped_part _ _ ((docs_parts _ ((docs_parts _ h).1.0)).1.0))
    printed_exp (fun_literal es) h = printed_within _ es (mapped_part _ _ (mapped_part _ _ h))
    printed_exp (const k) h = constant-IsPrintableConstant k h
    printed_exp (binary_op op l r) h =
        let parts = docs_parts _ (mapped_part _ _ h) in
        (
          infix_op-HasSign op (parts.1.1.0),
          printed_exp l (parens_part _ l _ (parts.0)),
          printed_exp r (parens_part _ r _ (parts.1.1.1.1.0)),
        )
    printed_exp (unary_op op e) h = printed_exp e (parens_part _ e _ ((docs_parts _ h).1.0))
    printed_exp (call e es) h =
        let parts = docs_parts _ h in
        (
          printed_exp e (parens_part _ e _ (parts.0)),
          printed_within _ es (mapped_part _ _ (parts.1.1.0)),
        )
    printed_exp (Exp.attr k e) h = printed_exp e ((docs_parts _ h).1.1.0)
    printed_exp (lam bs e) h = printed_exp e ((docs_parts _ (scoped_part _ h)).1.1.1.0)
    printed_exp (match_with e arms) h =
        let parts = docs_parts _ h in
        (printed_exp e (parts.1.0), printed_arms arms (mapped_part _ _ (parts.1.1.1.1.0)))
    printed_exp (if_then_else c l r) h =
        let parts = docs_parts _ (mapped_part _ _ h) in
        (
          printed_exp c (parts.1.0),
          printed_exp l (branch_part _ _ (parts.1.1.1.0)),
          printed_exp r (branch_part _ _ (parts.1.1.1.1.1.0)),
        )
    printed_exp (ascribe e ty) h =
        printed_exp e (parens_part _ e _ ((docs_parts _ (mapped_part _ _ h)).0))
    printed_exp (impl l r) h =
        let parts = docs_parts _ h in
        (
          printed_exp l (parens_part _ l _ (parts.0)),
          printed_exp r (parens_part _ r _ ((docs_parts _ (mapped_part _ _ (parts.1.0))).1.1.0)),
        )
    printed_exp (forall_in bs ts e) h =
        let parts = docs_parts _ (scoped_part _ h) in
        (shown_triggers ts _ _ (printed_triggers ts) (parts.1.1.0), printed_exp e (parts.1.1.1.1.0))
    printed_exp (exists_in bs ts e) h =
        let parts = docs_parts _ (scoped_part _ h) in
        (shown_triggers ts _ _ (printed_triggers ts) (parts.1.1.0), printed_exp e (parts.1.1.1.1.0))

    printed_within :
        (prec : Precedence) (es : Exps) → Succeeds (pretty_within D prec es) → ArePrintable es
    printed_within prec nil h = tt
    printed_within prec (cons e es) h =
        let (one, rest) = list_parts _ (pretty_within D prec es) _ h in
        (printed_exp e (parens_part prec e _ one), printed_within prec es rest)

    printed_exps : (es : Exps) → Succeeds (pretty_exps D es) → ArePrintable es
    printed_exps nil h = tt
    printed_exps (cons e es) h =
        let (one, rest) = list_parts (pretty_exp D e) (pretty_exps D es) _ h in
        (printed_exp e one, printed_exps es rest)

    printed_fields : (fs : NamedExps) → Succeeds (pretty_fields D fs) → ArePrintableFields fs
    printed_fields no_field h = tt
    printed_fields (field name e fs) h =
        let (one, rest) = list_parts _ (pretty_fields D fs) _ h in
        (printed_exp e (parens_part _ e _ ((docs_parts _ one).1.1.0)), printed_fields fs rest)

    printed_arms : (arms : Arms) → Succeeds (pretty_arms D arms) → ArePrintableArms arms
    printed_arms no_arm h = tt
    printed_arms (arm p e rest_arms) h =
        let (one, rest) = list_parts _ (pretty_arms D rest_arms) _ h in
        (printed_exp e ((docs_parts _ (scoped_part _ one)).1.1.1.0), printed_arms rest_arms rest)

    printed_triggers : (ts : Triggers) → Succeeds (pretty_triggers D ts) → ArePrintableTriggers ts
    printed_triggers no_trigger h = tt
    printed_triggers (trigger es ts) h =
        let (one, rest) = list_parts _ (pretty_triggers D ts) _ h in
        (printed_exps es (mapped_part _ _ one), printed_triggers ts rest)

  -- Printing an expression gives a document and the scopes as they were when the constants in it are finite and
  -- its operators have a sign in Why3, and panics when that is not so.
  pub pretty_exp_cases :
      (e : Exp) (s : Why3Scope)
      → (IsPrintable e × ((d : Doc) × (pretty_exp D e s ≡ some (d, s))))
        ⊎ ((IsPrintable e → ⊥) × (pretty_exp D e s ≡ none))
  pretty_exp_cases e s = elim (Option-cases (pretty_exp D e s)) [
    | inl stuck ↦
        inr ((λ h. let (d, given) = pretty_exp_lem D e s h in absurd (cc (stuck, given))), stuck)
    | inr (r, given) ↦ let h = printed_exp e (s, r, given) in inl (h, pretty_exp_lem D e s h)
  ]
