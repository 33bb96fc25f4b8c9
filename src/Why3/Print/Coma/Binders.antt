-- ===== src/Why3/Print/Coma/Binders.antt =====
-- why3/src/coma.rs: printing parameters binds their names.
use creusot.Prelude.{List, [], ◌∷◌, ◌++◌, All}
use creusot.Why3.Name.{Ident}
use creusot.Why3.Coma.{Param, Params}
use creusot.Why3.Print.{Docs, M, ◌>>◌, each, bind_value}
use creusot.Why3.Print.Bound.{
  value, Binds, Quiet, ret-Binds, >>=-Binds, then-Quiet, mapped-Binds, bind_bound, bind_bound-Binds,
}
use creusot.Why3.Print.Bound.Documents.{
  pretty_value_name-Quiet, ◌▹◌, docs-Quiet, docs-Binds, interspersed-Quiet,
}
use creusot.Why3.Print.Bound.Scoped.{scoped-Quiet}
use creusot.Why3.Print.Terms.Names.{bound_values, appended, cons-Quiet, pretty_type-Quiet}
use creusot.Why3.Print.Coma.{bind_values, pretty_param, pretty_params}

-- The names of a parameter: those of the parameters of a continuation mean nothing.
unfoldable pub param_ids : Params → List Ident
param_ids Params.nil = []
param_ids (Params.cons (Param.ty t) ps) = param_ids ps
param_ids (Params.cons (Param.term id t) ps) = id ∷ param_ids ps
param_ids (Params.cons (Param.reference id t) ps) = id ∷ param_ids ps
param_ids (Params.cons (Param.cont id writes params) ps) = id ∷ param_ids ps

pub bind_values-Binds : (ids : List Ident) → Binds (bound_values ids) (bind_values ids)
unfolding bind_values bind_bound
bind_values-Binds [] = ret-Binds tt
bind_values-Binds (id ∷ ids) =
    >>=-Binds (value id ∷ []) (bound_values ids) (bind_value id) _ (bind_bound-Binds (value id))
      λ _. bind_values-Binds ids

pub bound_first :
    {A : Type 0} (id : Ident) (m : M A) → Quiet m → Binds (value id ∷ []) (bind_value id >> m)
unfolding bind_bound
bound_first id m h =
    then-Quiet (value id ∷ []) (bind_value id) _ (bind_bound-Binds (value id)) λ _. h

pub each-All :
    {A B : Type 0} {P : A → Type 0} (f : A → M B) (xs : List A)
    → ((x : A) → P x → Quiet (f x))
    → All P xs
    → Quiet (each f xs)
unfolding each
each-All f [] h ps = ret-Binds []
each-All f (x ∷ xs) h ps = cons-Quiet (f x) (each f xs) _ (h x ps.0) (each-All f xs h ps.1)

module _ (D : Docs) where
  open D use {Doc}

  mutual
    unfolding pretty_param pretty_params param_ids

    params-Binds : (ps : Params) → Binds (bound_values (param_ids ps)) (pretty_params D ps)
    params-Binds Params.nil = ret-Binds []
    params-Binds (Params.cons (Param.ty t) ps) =
        appended [] (param_ids ps) _ _ _
          (docs-Quiet D _ (ret-Binds _ ▹ pretty_type-Quiet D t ▹ ret-Binds _ ▹ tt))
          (params-Binds ps)
    params-Binds (Params.cons (Param.term id t) ps) =
        appended (id ∷ []) (param_ids ps) _ _ _
          (bound_first id _ (
            mapped-Binds [] _ _ (
              docs-Quiet D _
                (pretty_value_name-Quiet D id ▹ ret-Binds _ ▹ pretty_type-Quiet D t ▹ tt))))
          (params-Binds ps)
    params-Binds (Params.cons (Param.reference id t) ps) =
        appended (id ∷ []) (param_ids ps) _ _ _
          (bound_first id _ (
            docs-Quiet D _ (
              ret-Binds _
              ▹ pretty_value_name-Quiet D id
              ▹ ret-Binds _
              ▹ pretty_type-Quiet D t
              ▹ tt)))
          (params-Binds ps)
    params-Binds (Params.cons (Param.cont id writes params) ps) =
        appended (id ∷ []) (param_ids ps) _ _ _
          (bound_first id _ (
            scoped-Quiet (bound_values (param_ids params) ++ []) _ (
              mapped-Binds _ _ _ (
                docs-Binds D ([] ∷ [] ∷ [] ∷ [] ∷ bound_values (param_ids params) ∷ []) _ (
                  pretty_value_name-Quiet D id
                  ▹ ret-Binds _
                  ▹ mapped-Binds [] _ _
                      (interspersed-Quiet D _ writes _ (pretty_value_name-Quiet D))
                  ▹ ret-Binds _
                  ▹ mapped-Binds _ _ _ (params-Binds params)
                  ▹ tt)))))
          (params-Binds ps)

  pub pretty_params-Binds : (ps : Params) → Binds (bound_values (param_ids ps)) (pretty_params D ps)
  pretty_params-Binds ps = params-Binds ps
