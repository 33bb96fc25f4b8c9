-- ===== src/Why3/Exp/Subst/Refresh.antt =====
-- why3/src/exp.rs: the `refresh` functions rename the identifiers of a binder from left to right and
-- keep the rest of it.
use creusot.Prelude.{ℕ, List, [], ◌∷◌, ◌++◌, Option, none, some, ◌≡◌, refl, ap, ap₂, ◌∙◌, sym}
use creusot.Why3.Name.{Ident}
use creusot.Why3.Types.{WhyType}
use creusot.Why3.Exp.{
  Binder, wild, unnamed, named, typed, Pattern, Patterns, NamedPatterns, wildcard, var_p, tuple_p,
  cons_p, rec_p, p_nil, p_cons, f_nil, f_cons,
}
use creusot.Why3.Exp.Visit.{
  R, Bound, refresh_var, refresh_typed, refresh_binder, refresh_binders, refresh_quantified,
  refresh_pattern, refresh_patterns, refresh_fields,
}
use creusot.Why3.Exp.Semantics.{
  blank, typed_ids, typed_shape, binder_ids, binder_shape, quantified_ids, quantified_shape,
  pattern_ids, patterns_ids, fields_ids, pattern_shape, patterns_shape, fields_shape,
}

unfoldable pub refresh_ids : List Ident → R (List Ident)
refresh_ids [] st = ([], st)
refresh_ids (id ∷ ids) st =
    let id2 = refresh_var id st in let rest = refresh_ids ids id2.1 in (id2.0 ∷ rest.0, rest.1)

-- The renamed identifiers and the state after are those of the list of identifiers, and the shape is
-- the one before.
abbrev pub Renames :
    {A Shape : Type 0} → (A → List Ident) → (A → Shape) → A → A × (Bound × ℕ) → (Bound × ℕ) → Type 0
Renames ids shape a out st =
    (ids out.0 ≡ (refresh_ids (ids a) st).0)
    × (out.1 ≡ (refresh_ids (ids a) st).1)
    × (shape out.0 ≡ shape a)

refresh_ids-append :
    (is js : List Ident) (st : Bound × ℕ)
    → ((refresh_ids (is ++ js) st).0
        ≡ (refresh_ids is st).0 ++ (refresh_ids js (refresh_ids is st).1).0)
      × ((refresh_ids (is ++ js) st).1 ≡ (refresh_ids js (refresh_ids is st).1).1)
unfolding refresh_ids
refresh_ids-append [] js st = (refl, refl)
refresh_ids-append (i ∷ is) js st =
    let (p, q) = refresh_ids-append is js (refresh_var i st).1 in
    (ap (λ r. (refresh_var i st).0 ∷ r) p, q)

-- Two parts, one behind the other.
join :
    (is js is2 js2 : List Ident) (st mid after : Bound × ℕ)
    → is2 ≡ (refresh_ids is st).0
    → mid ≡ (refresh_ids is st).1
    → js2 ≡ (refresh_ids js mid).0
    → after ≡ (refresh_ids js mid).1
    → (is2 ++ js2 ≡ (refresh_ids (is ++ js) st).0) × (after ≡ (refresh_ids (is ++ js) st).1)
join is js is2 js2 st mid after a b c d =
    let (p, q) = refresh_ids-append is js st in
    (
      ap₂ (λ x y. x ++ y) a (c ∙ ap (λ m. (refresh_ids js m).0) b) ∙ sym p,
      d ∙ ap (λ m. (refresh_ids js m).1) b ∙ sym q,
    )

refresh_typed-Renames :
    (ids : List (Option Ident)) (st : Bound × ℕ)
    → Renames typed_ids typed_shape ids (refresh_typed ids st) st
unfolding refresh_typed typed_ids typed_shape refresh_ids
refresh_typed-Renames [] st = (refl, refl, refl)
refresh_typed-Renames (none ∷ ids) st =
    let (a, b, c) = refresh_typed-Renames ids st in (a, b, ap (λ r. none ∷ r) c)
refresh_typed-Renames (some id ∷ ids) st =
    let (a, b, c) = refresh_typed-Renames ids (refresh_var id st).1 in
    (ap (λ r. (refresh_var id st).0 ∷ r) a, b, ap (λ r. some blank ∷ r) c)

pub refresh_binders-Renames :
    (bs : List Binder) (st : Bound × ℕ)
    → Renames binder_ids binder_shape bs (refresh_binders bs st) st
unfolding refresh_binders refresh_binder binder_ids binder_shape refresh_ids
refresh_binders-Renames [] st = (refl, refl, refl)
refresh_binders-Renames (wild ∷ bs) st =
    let (a, b, c) = refresh_binders-Renames bs st in (a, b, ap (λ r. wild ∷ r) c)
refresh_binders-Renames (unnamed ty ∷ bs) st =
    let (a, b, c) = refresh_binders-Renames bs st in (a, b, ap (λ r. unnamed ty ∷ r) c)
refresh_binders-Renames (named id ∷ bs) st =
    let (a, b, c) = refresh_binders-Renames bs (refresh_var id st).1 in
    (ap (λ r. (refresh_var id st).0 ∷ r) a, b, ap (λ r. named blank ∷ r) c)
refresh_binders-Renames (typed ghost ids ty ∷ bs) st =
    let (a, b, c) = refresh_typed-Renames ids st in
    let (d, e, f) = refresh_binders-Renames bs (refresh_typed ids st).1 in
    let (p, q) = join (typed_ids ids) (binder_ids bs) _ _ st _ _ a b d e in
    (p, q, ap₂ (λ x y. typed ghost x ty ∷ y) c f)

pub refresh_quantified-Renames :
    (bs : List (Ident × WhyType)) (st : Bound × ℕ)
    → Renames quantified_ids quantified_shape bs (refresh_quantified bs st) st
unfolding refresh_quantified quantified_ids quantified_shape refresh_ids
refresh_quantified-Renames [] st = (refl, refl, refl)
refresh_quantified-Renames ((id, ty) ∷ bs) st =
    let (a, b, c) = refresh_quantified-Renames bs (refresh_var id st).1 in
    (ap (λ r. (refresh_var id st).0 ∷ r) a, b, ap (λ r. ty ∷ r) c)

mutual
  unfolding refresh_pattern pattern_ids pattern_shape refresh_ids

  pattern-Renames :
      (p : Pattern) (st : Bound × ℕ) → Renames pattern_ids pattern_shape p (refresh_pattern p st) st
  pattern-Renames wildcard st = (refl, refl, refl)
  pattern-Renames (var_p id) st = (refl, refl, refl)
  pattern-Renames (tuple_p ps) st = let (a, b, c) = patterns-Renames ps st in (a, b, ap tuple_p c)
  pattern-Renames (cons_p name ps) st =
      let (a, b, c) = patterns-Renames ps st in (a, b, ap (cons_p name) c)
  pattern-Renames (rec_p fs) st = let (a, b, c) = fields-Renames fs st in (a, b, ap rec_p c)

  patterns-Renames :
      (ps : Patterns) (st : Bound × ℕ)
      → Renames patterns_ids patterns_shape ps (refresh_patterns ps st) st
  patterns-Renames p_nil st = (refl, refl, refl)
  patterns-Renames (p_cons p ps) st =
      let (a, b, c) = pattern-Renames p st in
      let (d, e, f) = patterns-Renames ps (refresh_pattern p st).1 in
      let (x, y) = join (pattern_ids p) (patterns_ids ps) _ _ st _ _ a b d e in
      (x, y, ap₂ p_cons c f)

  fields-Renames :
      (fs : NamedPatterns) (st : Bound × ℕ)
      → Renames fields_ids fields_shape fs (refresh_fields fs st) st
  fields-Renames f_nil st = (refl, refl, refl)
  fields-Renames (f_cons name p fs) st =
      let (a, b, c) = pattern-Renames p st in
      let (d, e, f) = fields-Renames fs (refresh_pattern p st).1 in
      let (x, y) = join (pattern_ids p) (fields_ids fs) _ _ st _ _ a b d e in
      (x, y, ap₂ (f_cons name) c f)

pub refresh_pattern-Renames :
    (p : Pattern) (st : Bound × ℕ) → Renames pattern_ids pattern_shape p (refresh_pattern p st) st
refresh_pattern-Renames = pattern-Renames
