-- ===== src/Why3/Print/Terms/Matched.antt =====
-- why3/src/printer.rs: printing a pattern binds the variables of the pattern, from left to right.
use mathlib.Core.Path.{subst as transport_along}
use creusot.Prelude.{[], ◌∷◌, append-nil, some, ◌≡◌, List}
use creusot.Why3.Name.{Ident}
use creusot.Why3.Exp.{
  Pattern, Patterns, NamedPatterns, wildcard, var_p, tuple_p, cons_p, rec_p, p_nil, p_cons, f_nil,
  f_cons,
}
use creusot.Why3.Exp.Semantics.{pattern_ids, patterns_ids, fields_ids}
use creusot.Why3.Print.{Docs, Why3Scope, M, docs}
use creusot.Why3.Print.Bound.{Binds, Quiet, bind_bounds, ret-Binds, mapped-Binds}
use creusot.Why3.Print.Bound.Documents.{◌▹◌, docs-Binds}
use creusot.Why3.Print.Terms.{
  pretty_pattern, pretty_patterns, pretty_sub_patterns, pretty_pattern_fields,
}
use creusot.Why3.Print.Terms.Names.{appended, bound_values, name_value-Quiet, pretty_bound-Binds}

module _ (D : Docs) where
  open D use {Doc}

  -- `docs` of printers of which only the last binds names.
  last_of_three :
      (ids : List Ident) (l m n : M Doc)
      → Quiet l
      → Quiet m
      → Binds (bound_values ids) n
      → Binds (bound_values ids) (docs D (l ∷ m ∷ n ∷ []))
  last_of_three ids l m n h k w =
      transport_along (λ bs. Binds bs (docs D (l ∷ m ∷ n ∷ []))) (append-nil (bound_values ids))
        (docs-Binds D ([] ∷ [] ∷ bound_values ids ∷ []) _ (h ▹ k ▹ w ▹ tt))

  mutual
    unfolding pretty_pattern pretty_patterns pretty_sub_patterns pretty_pattern_fields pattern_ids
        patterns_ids fields_ids

    pattern-Binds : (p : Pattern) → Binds (bound_values (pattern_ids p)) (pretty_pattern D p)
    pattern-Binds wildcard = ret-Binds _
    pattern-Binds (var_p v) = pretty_bound-Binds D v
    pattern-Binds (tuple_p ps) = mapped-Binds _ _ _ (patterns-Binds ps)
    pattern-Binds (cons_p c p_nil) = name_value-Quiet D c
    pattern-Binds (cons_p c (p_cons p ps)) =
        last_of_three (patterns_ids (p_cons p ps)) _ _ _ (name_value-Quiet D c) (ret-Binds _)
          (mapped-Binds _ _ _ (sub_patterns-Binds (p_cons p ps)))
    pattern-Binds (rec_p fs) = mapped-Binds _ _ _ (fields-Binds fs)

    patterns-Binds : (ps : Patterns) → Binds (bound_values (patterns_ids ps)) (pretty_patterns D ps)
    patterns-Binds p_nil = ret-Binds []
    patterns-Binds (p_cons p ps) =
        appended (pattern_ids p) (patterns_ids ps) _ _ _ (pattern-Binds p) (patterns-Binds ps)

    sub_patterns-Binds :
        (ps : Patterns) → Binds (bound_values (patterns_ids ps)) (pretty_sub_patterns D ps)
    sub_patterns-Binds p_nil = ret-Binds []
    sub_patterns-Binds (p_cons p ps) =
        appended (pattern_ids p) (patterns_ids ps) _ _ _ (mapped-Binds _ _ _ (pattern-Binds p))
          (sub_patterns-Binds ps)

    fields-Binds :
        (fs : NamedPatterns) → Binds (bound_values (fields_ids fs)) (pretty_pattern_fields D fs)
    fields-Binds f_nil = ret-Binds []
    fields-Binds (f_cons name p fs) =
        appended (pattern_ids p) (fields_ids fs) _ _ _
          (last_of_three (pattern_ids p) _ _ _ (name_value-Quiet D name) (ret-Binds _)
            (pattern-Binds p))
          (fields-Binds fs)

  pub pretty_pattern-Binds :
      (p : Pattern) → Binds (bound_values (pattern_ids p)) (pretty_pattern D p)
  pretty_pattern-Binds p = pattern-Binds p

  -- Printing a pattern binds the variables of the pattern, from left to right, and nothing else, wherever they
  -- can be bound.
  pub pretty_pattern_lem :
      (p : Pattern) (s t : Why3Scope)
      → bind_bounds (bound_values (pattern_ids p)) s ≡ some (tt, t)
      → (d : Doc) × (pretty_pattern D p s ≡ some (d, t))
  pretty_pattern_lem p s t h = (pretty_pattern-Binds p).runs s t h
