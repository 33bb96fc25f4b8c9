-- ===== src/Why3/Print/Bound/Documents.antt =====
-- why3/src/printer.rs: what documents that are put together bind.
use creusot.Prelude.{List, [], ◌∷◌, ◌++◌, All}
use creusot.Why3.Name.{Ident}
use creusot.Why3.Print.{
  Docs, M, get_value, get_type, get_span, docs, chained, pretty_value_name, pretty_type_name,
  pretty_span_name, interspersed,
}
use creusot.Why3.Print.Bound.{
  Bound, Binds, Quiet, ret-Binds, >>=-Binds, then-Quiet, mapped-Binds, reads-Quiet, each-Quiet,
  all_bounds, each-Binds,
}

infixr 4 ◌▹◌
-- What holds of the first printer, and of those after it.
abbrev pub ◌▹◌ : {A B : Type 0} → A → B → A × B
a ▹ b = (a, b)

module _ (D : Docs) where
  open D use {Doc}

  pub pretty_value_name-Quiet : (i : Ident) → Quiet (pretty_value_name D i)
  unfolding pretty_value_name get_value
  pretty_value_name-Quiet i = mapped-Binds [] D.text _ (reads-Quiet _)

  pub pretty_type_name-Quiet : (i : Ident) → Quiet (pretty_type_name D i)
  unfolding pretty_type_name get_type
  pretty_type_name-Quiet i = mapped-Binds [] D.text _ (reads-Quiet _)

  pub pretty_span_name-Quiet : (i : Ident) → Quiet (pretty_span_name D i)
  unfolding pretty_span_name get_span
  pretty_span_name-Quiet i = mapped-Binds [] D.text _ (reads-Quiet _)

  chained-Quiet : (d : Doc) (ms : List (M Doc)) → All Quiet ms → Quiet (chained D d ms)
  unfolding chained
  chained-Quiet d [] h = ret-Binds d
  chained-Quiet d (m ∷ ms) h = then-Quiet [] m _ h.0 λ e. chained-Quiet (D.append d e) ms h.1

  pub docs-Quiet : (ms : List (M Doc)) → All Quiet ms → Quiet (docs D ms)
  unfolding docs
  docs-Quiet [] h = ret-Binds D.nil
  docs-Quiet (m ∷ ms) h = then-Quiet [] m _ h.0 λ d. chained-Quiet d ms h.1

  -- Each printer binds the names of its own list.
  abbrev pub EachBinds : List (List Bound) → List (M Doc) → Type 0
  EachBinds [] [] = Unit
  EachBinds [] (m ∷ ms) = ⊥
  EachBinds (bs ∷ rest) [] = ⊥
  EachBinds (bs ∷ rest) (m ∷ ms) = Binds bs m × EachBinds rest ms

  abbrev pub joined : List (List Bound) → List Bound
  joined [] = []
  joined (bs ∷ rest) = bs ++ joined rest

  chained-Binds :
      (d : Doc) (names : List (List Bound)) (ms : List (M Doc))
      → EachBinds names ms
      → Binds (joined names) (chained D d ms)
  unfolding chained
  chained-Binds d [] [] h = ret-Binds d
  chained-Binds d [] (m ∷ ms) h = elim h [ ]
  chained-Binds d (bs ∷ rest) [] h = elim h [ ]
  chained-Binds d (bs ∷ rest) (m ∷ ms) h =
      >>=-Binds bs (joined rest) m _ h.0 λ e. chained-Binds (D.append d e) rest ms h.1

  pub docs-Binds :
      (names : List (List Bound)) (ms : List (M Doc))
      → EachBinds names ms
      → Binds (joined names) (docs D ms)
  unfolding docs
  docs-Binds [] [] h = ret-Binds D.nil
  docs-Binds [] (m ∷ ms) h = elim h [ ]
  docs-Binds (bs ∷ rest) [] h = elim h [ ]
  docs-Binds (bs ∷ rest) (m ∷ ms) h =
      >>=-Binds bs (joined rest) m _ h.0 λ d. chained-Binds d rest ms h.1

  pub interspersed-Quiet :
      {A : Type 0} (f : A → M Doc) (xs : List A) (separator : Doc)
      → ((x : A) → Quiet (f x))
      → Quiet (interspersed D f xs separator)
  unfolding interspersed
  interspersed-Quiet f xs separator h = mapped-Binds [] _ _ (each-Quiet f xs h)

  pub interspersed-Binds :
      {A : Type 0} (g : A → List Bound) (f : A → M Doc) (xs : List A) (separator : Doc)
      → ((x : A) → Binds (g x) (f x))
      → Binds (all_bounds g xs) (interspersed D f xs separator)
  unfolding interspersed
  interspersed-Binds g f xs separator h = mapped-Binds (all_bounds g xs) _ _ (each-Binds g f xs h)
