-- ===== src/Why3/Print/Terms/Names.antt =====
-- why3/src/printer.rs: what printing names, types, patterns and binders does to the scopes.
use mathlib.Core.Path.{subst as transport_along}
use mathlib.Core.List.{map-append}
use creusot.Prelude.{
  Bool, true, false, List, [], ◌∷◌, ◌++◌, map, append-nil, Option, none, some, ◌≡◌, refl, sym, ap,
  ◌∙◌, if◌then◌else◌,
}
use creusot.Why3.Name.{Ident, Name, QName, local, global}
use creusot.Why3.Types.{WhyType, WhyTypes, Attribute, t_var, t_constructor, t_app, t_fun, complex}
use creusot.Why3.Exp.{Binder, wild, unnamed, named, typed}
use creusot.Why3.Exp.Semantics.{typed_ids, binder_ids, quantified_ids}
use creusot.Why3.Print.{Docs, M, ret, ◌>>=◌, bind_value, interspersed}
use creusot.Why3.Print.Bound.{
  Bound, value, Binds, Quiet, ret-Binds, >>=-Binds, then-Quiet, mapped-Binds, bind_bound,
  bind_bound-Binds, all_bounds,
}
use creusot.Why3.Print.Bound.Documents.{
  ◌▹◌, docs-Quiet, docs-Binds, pretty_value_name-Quiet, pretty_type_name-Quiet,
  pretty_span_name-Quiet, interspersed-Binds,
}
use creusot.Why3.Print.Terms.{
  no_types, pretty_qname, name_value, name_type, pretty_attribute, ty_parens, pretty_type,
  pretty_tuple, pretty_types, pretty_type_args, of_type, pretty_bound, pretty_typed_id,
  pretty_binder, pretty_quantified,
}

abbrev pub bound_values : List Ident → List Bound
bound_values ids = map value ids

pub if-Binds :
    {A : Type 0} (bs : List Bound) (test : Bool) (m n : M A)
    → Binds bs m
    → Binds bs n
    → Binds bs (if test then m else n)
if-Binds bs true m n h k = h
if-Binds bs false m n h k = k

-- A list of documents, the first one first.
pub cons-Binds :
    {A B : Type 0} (bs cs : List Bound) (m : M A) (ms : M (List A)) (f : A → List A → B)
    → Binds bs m
    → Binds cs ms
    → Binds (bs ++ cs) (do d ← m; ds ← ms; ret (f d ds))
cons-Binds bs cs m ms f h k =
    >>=-Binds bs cs m _ h λ d. then-Quiet cs ms _ k λ ds. ret-Binds (f d ds)

pub cons-Quiet :
    {A B : Type 0} (m : M A) (ms : M (List A)) (f : A → List A → B)
    → Quiet m
    → Quiet ms
    → Quiet (do d ← m; ds ← ms; ret (f d ds))
cons-Quiet m ms f h k = then-Quiet [] m _ h λ d. then-Quiet [] ms _ k λ ds. ret-Binds (f d ds)

-- One printer and then others, their names those of a list.
pub appended :
    {A B : Type 0} (xs ys : List Ident) (m : M A) (ms : M (List A)) (f : A → List A → B)
    → Binds (bound_values xs) m
    → Binds (bound_values ys) ms
    → Binds (bound_values (xs ++ ys)) (do d ← m; ds ← ms; ret (f d ds))
appended xs ys m ms f h k =
    transport_along (λ bs. Binds bs (do d ← m; ds ← ms; ret (f d ds))) (sym (map-append _ xs ys))
      (cons-Binds (bound_values xs) (bound_values ys) m ms f h k)

module _ (D : Docs) where
  open D use {Doc}

  pub pretty_qname-Quiet : (q : QName) → Quiet (pretty_qname D q)
  unfolding pretty_qname
  pretty_qname-Quiet q = ret-Binds _

  pub name_value-Quiet : (n : Name) → Quiet (name_value D n)
  unfolding name_value
  name_value-Quiet (local i none) = pretty_value_name-Quiet D i
  name_value-Quiet (local i (some s)) =
      docs-Quiet D _ (pretty_value_name-Quiet D i ▹ ret-Binds _ ▹ tt)
  name_value-Quiet (global q) = pretty_qname-Quiet q

  pub name_type-Quiet : (n : Name) → Quiet (name_type D n)
  unfolding name_type
  name_type-Quiet (local i none) = pretty_type_name-Quiet D i
  name_type-Quiet (local i (some s)) =
      docs-Quiet D _ (pretty_type_name-Quiet D i ▹ ret-Binds _ ▹ tt)
  name_type-Quiet (global q) = pretty_qname-Quiet q

  pub pretty_attribute-Quiet : (a : Attribute) → Quiet (pretty_attribute D a)
  unfolding pretty_attribute
  pretty_attribute-Quiet (Attribute.attr s) =
      mapped-Binds [] _ _ (docs-Quiet D _ (ret-Binds _ ▹ ret-Binds _ ▹ tt))
  pretty_attribute-Quiet (Attribute.named_span s) =
      mapped-Binds [] _ _ (docs-Quiet D _ (ret-Binds _ ▹ pretty_span_name-Quiet D s ▹ tt))
  pretty_attribute-Quiet (Attribute.span f ls cs le ce) = mapped-Binds [] _ _ (
      docs-Quiet D _ (
        ret-Binds _
        ▹ ret-Binds _
        ▹ ret-Binds _
        ▹ ret-Binds _
        ▹ ret-Binds _
        ▹ ret-Binds _
        ▹ ret-Binds _
        ▹ ret-Binds _
        ▹ ret-Binds _
        ▹ ret-Binds _
        ▹ tt))

  pub ty_parens-Quiet : (ty : WhyType) (m : M Doc) → Quiet m → Quiet (ty_parens D ty m)
  unfolding ty_parens
  ty_parens-Quiet ty m h = if-Binds [] (complex ty) _ _ (mapped-Binds [] _ m h) h

  mutual
    unfolding pretty_type pretty_tuple pretty_types pretty_type_args

    type-Quiet : (ty : WhyType) → Quiet (pretty_type D ty)
    type-Quiet (t_var v) = pretty_type_name-Quiet D v
    type-Quiet (t_constructor n) = name_type-Quiet n
    type-Quiet (t_fun a b) =
        docs-Quiet D _ (
          ty_parens-Quiet a _ (type-Quiet a)
          ▹ ret-Binds _
          ▹ ty_parens-Quiet b _ (type-Quiet b)
          ▹ tt)
    type-Quiet (t_app f args) = if-Binds [] (no_types args) _ _ (type-Quiet f) (
        docs-Quiet D _
          (type-Quiet f ▹ ret-Binds _ ▹ mapped-Binds [] _ _ (type_args-Quiet args) ▹ tt))
    type-Quiet (WhyType.tuple tys) = tuple-Quiet tys

    tuple-Quiet : (tys : WhyTypes) → Quiet (pretty_tuple D tys)
    tuple-Quiet WhyTypes.nil = ret-Binds _
    tuple-Quiet (WhyTypes.cons ty tys) =
        if-Binds [] (no_types tys) _ _ (type-Quiet ty)
          (mapped-Binds [] _ _ (cons-Quiet _ _ _ (type-Quiet ty) (types-Quiet tys)))

    types-Quiet : (tys : WhyTypes) → Quiet (pretty_types D tys)
    types-Quiet WhyTypes.nil = ret-Binds []
    types-Quiet (WhyTypes.cons ty tys) = cons-Quiet _ _ _ (type-Quiet ty) (types-Quiet tys)

    type_args-Quiet : (tys : WhyTypes) → Quiet (pretty_type_args D tys)
    type_args-Quiet WhyTypes.nil = ret-Binds []
    type_args-Quiet (WhyTypes.cons ty tys) =
        cons-Quiet _ _ _ (ty_parens-Quiet ty _ (type-Quiet ty)) (type_args-Quiet tys)

  pub pretty_type-Quiet : (ty : WhyType) → Quiet (pretty_type D ty)
  pretty_type-Quiet ty = type-Quiet ty

  pub of_type-Quiet : (m : M Doc) (ty : WhyType) → Quiet m → Quiet (of_type D m ty)
  unfolding of_type
  of_type-Quiet m ty h =
      mapped-Binds [] _ _ (docs-Quiet D _ (h ▹ ret-Binds _ ▹ pretty_type-Quiet ty ▹ tt))

  pub pretty_bound-Binds : (id : Ident) → Binds (value id ∷ []) (pretty_bound D id)
  unfolding pretty_bound bind_bound
  pretty_bound-Binds id =
      then-Quiet (value id ∷ []) (bind_value id) _ (bind_bound-Binds (value id))
        λ _. pretty_value_name-Quiet D id

  pub pretty_quantified-Binds :
      (b : Ident × WhyType) → Binds (value b.0 ∷ []) (pretty_quantified D b)
  unfolding pretty_quantified
  pretty_quantified-Binds (id, ty) =
      docs-Binds D ((value id ∷ []) ∷ [] ∷ [] ∷ []) _
        (pretty_bound-Binds id ▹ ret-Binds _ ▹ pretty_type-Quiet ty ▹ tt)

  pub typed_id-Binds :
      (id : Option Ident) → Binds (bound_values (typed_ids (id ∷ []))) (pretty_typed_id D id)
  unfolding pretty_typed_id typed_ids
  typed_id-Binds none = ret-Binds _
  typed_id-Binds (some id) = pretty_bound-Binds id

  -- Items that are printed one after the other, `ids` the names that a list of them binds.
  interspersed_along :
      {A : Type 0} (ids : List A → List Ident) (f : A → M Doc) (xs : List A) (separator : Doc)
      → (ids [] ≡ [])
      → ((x : A) (ys : List A) → ids (x ∷ ys) ≡ ids (x ∷ []) ++ ids ys)
      → ((x : A) → Binds (bound_values (ids (x ∷ []))) (f x))
      → Binds (bound_values (ids xs)) (interspersed D f xs separator)
  unfolding all_bounds
  interspersed_along {A = A} ids f xs separator start step h =
      transport_along (λ bs. Binds bs (interspersed D f xs separator)) (names xs)
        (interspersed-Binds D (λ x. bound_values (ids (x ∷ []))) f xs separator h)
    where
      names :
          (ys : List A) → all_bounds (λ x. bound_values (ids (x ∷ []))) ys ≡ bound_values (ids ys)
      names [] = sym (ap bound_values start)
      names (y ∷ ys) =
          ap (λ t. bound_values (ids (y ∷ [])) ++ t) (names ys)
          ∙ sym (map-append value (ids (y ∷ [])) (ids ys))
          ∙ sym (ap bound_values (step y ys))

  pub quantified-Binds :
      (bs : List (Ident × WhyType)) (separator : Doc)
      → Binds (bound_values (quantified_ids bs)) (interspersed D (pretty_quantified D) bs separator)
  unfolding quantified_ids
  quantified-Binds bs separator =
      interspersed_along quantified_ids _ bs separator refl (λ x ys. refl) pretty_quantified-Binds

  typed_ids_step :
      (id : Option Ident) (ids : List (Option Ident))
      → typed_ids (id ∷ ids) ≡ typed_ids (id ∷ []) ++ typed_ids ids
  unfolding typed_ids
  typed_ids_step none ids = refl
  typed_ids_step (some id) ids = refl

  binder_ids_step :
      (b : Binder) (bs : List Binder) → binder_ids (b ∷ bs) ≡ binder_ids (b ∷ []) ++ binder_ids bs
  unfolding binder_ids
  binder_ids_step wild bs = refl
  binder_ids_step (unnamed ty) bs = refl
  binder_ids_step (named id) bs = refl
  binder_ids_step (typed ghost ids ty) bs =
      ap (λ t. t ++ binder_ids bs) (sym (append-nil (typed_ids ids)))

  pub binder-Binds : (b : Binder) → Binds (bound_values (binder_ids (b ∷ []))) (pretty_binder D b)
  unfolding pretty_binder binder_ids typed_ids
  binder-Binds wild = ret-Binds _
  binder-Binds (unnamed ty) = pretty_type-Quiet ty
  binder-Binds (named id) = pretty_bound-Binds id
  binder-Binds (typed ghost ids ty) =
      transport_along (λ bs. Binds bs (pretty_binder D (typed ghost ids ty))) names
        (mapped-Binds (joined_names) _ _ (
          docs-Binds D ([] ∷ (bound_values (typed_ids ids) ++ []) ∷ []) _ (
            if-Binds [] ghost _ _ (ret-Binds _) (ret-Binds _)
            ▹ docs-Binds D (bound_values (typed_ids ids) ∷ [] ∷ [] ∷ []) _ (
                interspersed_along typed_ids _ ids D.space refl typed_ids_step typed_id-Binds
                ▹ ret-Binds _
                ▹ pretty_type-Quiet ty
                ▹ tt)
            ▹ tt)))
    where
      joined_names : List Bound
      joined_names = (bound_values (typed_ids ids) ++ []) ++ []

      names : joined_names ≡ bound_values (typed_ids ids ++ [])
      names = simp (append-nil)

  pub binders-Binds :
      (bs : List Binder) (separator : Doc)
      → Binds (bound_values (binder_ids bs)) (interspersed D (pretty_binder D) bs separator)
  unfolding binder_ids
  binders-Binds bs separator =
      interspersed_along binder_ids _ bs separator refl binder_ids_step binder-Binds
