-- ===== src/Why3/Print/Bound/Scoped.antt =====
-- why3/src/printer.rs: what is bound between `open` and `close` is undone.
use creusot.Prelude.{List, [], ◌∷◌, some, ◌≡◌, refl, ap, ◌∙◌, Option-cases, inl, inr, some_eq}
use creusot.Why3.Name.{Ident}
use creusot.Why3.Scope.{Scope, open_scope, bind}
use creusot.Why3.Scope.Undo.{bind_all, close-bind_all-open_scope}
use creusot.Why3.Print.{
  Why3Scope, M, ret, ◌>>=◌, ◌>>◌, open_scopes, close_scopes, bind_value, bind_type, bind_span,
  scoped,
}
use creusot.Why3.Print.Bound.{
  Bound, value, type_name, span_name, bind_bound, bind_bounds, Binds, Quiet, bind_step,
}

-- The names of each kind.
values : List Bound → List Ident
values [] = []
values (value i ∷ bs) = i ∷ values bs
values (type_name i ∷ bs) = values bs
values (span_name i ∷ bs) = values bs

types : List Bound → List Ident
types [] = []
types (value i ∷ bs) = types bs
types (type_name i ∷ bs) = i ∷ types bs
types (span_name i ∷ bs) = types bs

spans : List Bound → List Ident
spans [] = []
spans (value i ∷ bs) = spans bs
spans (type_name i ∷ bs) = spans bs
spans (span_name i ∷ bs) = i ∷ spans bs

first_bind :
    (i : Ident) (ids : List Ident) (s t : Scope)
    → bind_all (i ∷ ids) s ≡ some t
    → (u : Scope) × (bind i s ≡ some u) × (bind_all ids u ≡ some t)
unfolding bind_all
first_bind i ids s t e = elim (Option-cases (bind i s)) [
  | inl stuck ↦ absurd (cc (rw (stuck, bind_all) at e))
  | inr next ↦ (next.0, next.1, (rw (next.1, bind_all) at e))
]

-- Binding in the three scopes apart is binding in all.
bind_bounds_of_parts :
    (bs : List Bound) (v t p v' t' p' : Scope)
    → bind_all (values bs) v ≡ some v'
    → bind_all (types bs) t ≡ some t'
    → bind_all (spans bs) p ≡ some p'
    → bind_bounds bs (record { value_scope = v; type_scope = t; span_scope = p })
      ≡ some (tt, record { value_scope = v'; type_scope = t'; span_scope = p' })
unfolding bind_bounds bind_all values types spans bind_bound bind_value bind_type bind_span
bind_bounds_of_parts [] v t p v' t' p' ev et ep = λ k. some (
  tt,
  record { value_scope = some_eq ev k; type_scope = some_eq et k; span_scope = some_eq ep k },
)
bind_bounds_of_parts (value i ∷ bs) v t p v' t' p' ev et ep =
    let (u, one, rest) = first_bind i (values bs) v v' ev in
    bind_step (bind_value i) (λ _. bind_bounds bs) _ _ tt (rw (one, bind_value) refl)
    ∙ bind_bounds_of_parts bs u t p v' t' p' rest et ep
bind_bounds_of_parts (type_name i ∷ bs) v t p v' t' p' ev et ep =
    let (u, one, rest) = first_bind i (types bs) t t' et in
    bind_step (bind_type i) (λ _. bind_bounds bs) _ _ tt (rw (one, bind_type) refl)
    ∙ bind_bounds_of_parts bs v u p v' t' p' ev rest ep
bind_bounds_of_parts (span_name i ∷ bs) v t p v' t' p' ev et ep =
    let (u, one, rest) = first_bind i (spans bs) p p' ep in
    bind_step (bind_span i) (λ _. bind_bounds bs) _ _ tt (rw (one, bind_span) refl)
    ∙ bind_bounds_of_parts bs v t u v' t' p' ev et rest

-- After `open` any names can be bound, and `close` then gives the scopes before it back.
pub close-bind_bounds-open :
    (bs : List Bound) (s : Why3Scope)
    → (t : Why3Scope) × (bind_bounds bs (record {
      value_scope = open_scope s.value_scope;
      type_scope = open_scope s.type_scope;
      span_scope = open_scope s.span_scope;
    })
        ≡ some (tt, t))
      × (close_scopes t ≡ some (tt, s))
unfolding close_scopes
close-bind_bounds-open bs s =
    let (v, ev, cv) = close-bind_all-open_scope (values bs) s.value_scope in
    let (t, et, ct) = close-bind_all-open_scope (types bs) s.type_scope in
    let (p, ep, cp) = close-bind_all-open_scope (spans bs) s.span_scope in
    (
      record { value_scope = v; type_scope = t; span_scope = p },
      bind_bounds_of_parts bs _ _ _ v t p ev et ep,
      rw (cv, close_scopes) (rw (ct) (rw cp)),
    )

-- A printer between `open` and `close` leaves the scopes as they were, whatever it binds.
pub scoped-Quiet : {A : Type 0} (bs : List Bound) (m : M A) → Binds bs m → Quiet (scoped m)
unfolding scoped open_scopes bind_bounds
scoped-Quiet bs m h = record {
  runs = λ s t e.
      let (u, bound, closed) = close-bind_bounds-open bs s in
      let (a, run) = h.runs _ u bound in
      (
        a,
        bind_step m (λ d. close_scopes >> ret d) _ u a run
            ∙ bind_step close_scopes (λ _. ret a) u s tt closed
            ∙ ap (λ w. some (a, w.1)) (some_eq e),
      );
}

-- And so when the names it binds depend on what was printed before any was bound.
pub scoped_then-Quiet :
    {A B : Type 0} (names : A → List Bound) (m : M A) (f : A → M B)
    → Quiet m
    → ((a : A) → Binds (names a) (f a))
    → Quiet (scoped (m >>= f))
unfolding scoped open_scopes bind_bounds
scoped_then-Quiet names m f h k = record {
  runs = λ s t e.
      let opened : Why3Scope = record {
        value_scope = open_scope s.value_scope;
        type_scope = open_scope s.type_scope;
        span_scope = open_scope s.span_scope;
      } in
      let (a, first) = h.runs opened opened refl in
      let (u, bound, closed) = close-bind_bounds-open (names a) s in
      let (b, run) = (k a).runs opened u bound in
      (
        b,
        bind_step (m >>= f) (λ d. close_scopes >> ret d) opened u b
              (bind_step m f opened opened a first ∙ run)
            ∙ bind_step close_scopes (λ _. ret b) u s tt closed
            ∙ ap (λ w. some (b, w.1)) (some_eq e),
      );
}
