-- ===== src/Why3/Exp/Occurs.antt =====
-- why3/src/exp.rs: `Exp::occurences`, the counts of the local variables, and `Exp::let_`. A map is a
-- function. Only `let` and the quantifiers take their binders out: a `fun` and a `match` do not.
pub mod Sound
pub mod Let
use creusot.Prelude.{
  ℕ, ◌+◌, Bool, true, false, ◌||◌, List, [], ◌∷◌, ◌++◌, Option, none, some, if◌then◌else◌, ◌==◌,
}
use creusot.Why3.Name.{Ident, Name, local, global, ident_eq}
use creusot.Why3.Types.{WhyType}
use creusot.Why3.Exp.Visit.{M, ret, subst, insert}
use creusot.Why3.Exp.Semantics.{quantified_ids}
use creusot.Why3.Exp.{
  Exp, Exps, NamedExps, Arms, Triggers, Pattern, Patterns, NamedPatterns, wildcard, var_p, tuple_p,
  cons_p, rec_p, p_nil, p_cons, f_nil, f_cons, let_in, var, record_literal, rec_up, rec_field,
  constructor, fun_literal, const, binary_op, unary_op, call, attr, lam, match_with, if_then_else,
  ascribe, impl, forall_in, exists_in, nil, cons, no_field, field, no_arm, arm, no_trigger, trigger,
}

abbrev pub Counts : Type 0
Counts = Ident → Option ℕ

abbrev pub or_zero : Option ℕ → ℕ
or_zero none = 0
or_zero (some n) = n

-- `*occurs.entry(v).or_insert(0) += n`
unfoldable pub bump : Counts → Ident → ℕ → Counts
bump m v n = insert m v (or_zero (m v) + n)

unfoldable pub remove_key : Counts → Ident → Counts
remove_key m v other = if ident_eq v other then none else m other

unfoldable pub remove_keys : Counts → List Ident → Counts
remove_keys m [] = m
remove_keys m (v ∷ vs) = remove_keys (remove_key m v) vs

-- Each entry of the second map is added to the first.
unfoldable pub merge : Counts → Counts → Counts
merge m saved v = elim (saved v) [ none ↦ m v | some n ↦ some (or_zero (m v) + n) ]

-- An `IndexSet<Ident>` is a list without duplicates.
unfoldable pub mem_ident : List Ident → Ident → Bool
mem_ident [] v = false
mem_ident (w ∷ ws) v = ident_eq w v || mem_ident ws v

unfoldable pub set_extend : List Ident → List Ident → List Ident
set_extend set [] = set
set_extend set (v ∷ vs) = set_extend (if mem_ident set v then set else set ++ v ∷ []) vs

-- `Pattern::binders`
unfoldable mutual
  pub binders : Pattern → List Ident
  binders wildcard = []
  binders (var_p s) = s ∷ []
  binders (tuple_p ps) = fold_binders ps []
  binders (cons_p c ps) = fold_binders ps []
  binders (rec_p fs) = fold_fields fs []

  pub fold_binders : Patterns → List Ident → List Ident
  fold_binders p_nil set = set
  fold_binders (p_cons p ps) set = fold_binders ps (set_extend set (binders p))

  pub fold_fields : NamedPatterns → List Ident → List Ident
  fold_fields f_nil set = set
  fold_fields (f_cons name p fs) set = fold_fields fs (set_extend set (binders p))

abbrev pub no_counts : Counts
no_counts v = none

-- The visitor `Occurs`, which adds to its map.
unfoldable mutual
  pub occ : Exp → Counts → Counts
  occ (var (local v suffix)) m = bump m v 1
  occ (var (global q)) m = m
  occ (let_in p arg body) m = merge (occ arg (remove_keys (occ body no_counts) (binders p))) m
  occ (forall_in bs ts e) m =
      merge (remove_keys (occ_triggers ts (occ e no_counts)) (quantified_ids bs)) m
  occ (exists_in bs ts e) m =
      merge (remove_keys (occ_triggers ts (occ e no_counts)) (quantified_ids bs)) m
  occ (record_literal fields) m = occ_fields fields m
  occ (rec_up r updates) m = occ_fields updates (occ r m)
  occ (rec_field r label) m = occ r m
  occ (Exp.tuple es) m = occ_exps es m
  occ (constructor c es) m = occ_exps es m
  occ (fun_literal es) m = occ_exps es m
  occ (const k) m = m
  occ (binary_op op l r) m = occ r (occ l m)
  occ (unary_op op e) m = occ e m
  occ (call f es) m = occ_exps es (occ f m)
  occ (attr a e) m = occ e m
  occ (lam bs body) m = occ body m
  occ (match_with e arms) m = occ_arms arms (occ e m)
  occ (if_then_else c l r) m = occ r (occ l (occ c m))
  occ (ascribe e ty) m = occ e m
  occ (impl l r) m = occ r (occ l m)

  pub occ_exps : Exps → Counts → Counts
  occ_exps nil m = m
  occ_exps (cons e es) m = occ_exps es (occ e m)

  pub occ_fields : NamedExps → Counts → Counts
  occ_fields no_field m = m
  occ_fields (field name e fs) m = occ_fields fs (occ e m)

  pub occ_arms : Arms → Counts → Counts
  occ_arms no_arm m = m
  occ_arms (arm p e rest) m = occ_arms rest (occ e m)

  pub occ_triggers : Triggers → Counts → Counts
  occ_triggers no_trigger m = m
  occ_triggers (trigger es ts) m = occ_triggers ts (occ_exps es m)

unfoldable pub occurences : Exp → Counts
unfolding occ
occurences e = occ e no_counts

unfoldable pub occurs : Exp → Ident → Bool
occurs e id = elim (occurences e id) [ none ↦ false | some n ↦ true ]

-- `Exp::let_`
unfoldable pub mk_let : Ident → Exp → Exp → M Exp
mk_let ident arg body = elim (occurences body ident) [
  | none ↦ ret body
  | some n ↦
      if n == 1
      then subst body (insert (λ _. none) ident arg)
      else ret (let_in (var_p ident) arg body)
]
