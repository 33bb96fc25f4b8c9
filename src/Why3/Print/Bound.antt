-- ===== src/Why3/Print/Bound.antt =====
-- why3/src/printer.rs: what printing does to the scopes. A printer binds names in the scope that is open,
-- and leaves everything else as it was; what it binds between `open` and `close` is undone.
pub mod Documents
pub mod Scoped
use creusot.Prelude.{
  List, [], ◌∷◌, ◌++◌, none, some, ◌≡◌, refl, sym, ap, ◌∙◌, Option-cases, inl, inr, some_eq, All,
}
use creusot.Why3.Name.{Ident}
use creusot.Why3.Scope.{Scope, open_scope, bind}
use creusot.Why3.Scope.Undo.{bind_all, close-bind_all-open_scope}
use creusot.Why3.Print.{
  Docs, Why3Scope, M, ret, ◌>>=◌, ◌>>◌, open_scopes, close_scopes, bind_value, bind_type, bind_span,
  get_value, get_type, get_span, scoped, mapped, each, docs, chained, pretty_value_name,
  pretty_type_name, pretty_span_name, interspersed,
}

pub data Bound : Type 0 where
  value type_name span_name : Ident → Bound

unfoldable pub bind_bound : Bound → M (Unit {0})
bind_bound (value i) = bind_value i
bind_bound (type_name i) = bind_type i
bind_bound (span_name i) = bind_span i

-- The names bound from left to right.
unfoldable pub bind_bounds : List Bound → M (Unit {0})
bind_bounds [] = ret tt
bind_bounds (b ∷ bs) = bind_bound b >> bind_bounds bs

-- A printer succeeds wherever its names can be bound, and its effect on the scopes is to bind them.
pub record Binds {A : Type 0} (bs : List Bound) (m : M A) : Type 0 where
  pub runs : (s t : Why3Scope) → bind_bounds bs s ≡ some (tt, t) → (a : A) × (m s ≡ some (a, t))

-- A printer that binds nothing leaves the scopes as they are.
abbrev pub Quiet : {A : Type 0} → M A → Type 0
Quiet m = Binds [] m

-- A printer that binds nothing, run.
pub runs-Quiet : {A : Type 0} (m : M A) (s : Why3Scope) → Quiet m → (a : A) × (m s ≡ some (a, s))
unfolding bind_bounds
runs-Quiet m s h = h.runs s s refl

pub bind_step :
    {A B : Type 0} (m : M A) (f : A → M B) (s t : Why3Scope) (a : A)
    → m s ≡ some (a, t)
    → (m >>= f) s ≡ f a t
bind_step m f s t a e = rw (e, ◌>>=◌)

bind_stuck :
    {A B : Type 0} (m : M A) (f : A → M B) (s : Why3Scope) → m s ≡ none → (m >>= f) s ≡ none
bind_stuck m f s e = rw (e, ◌>>=◌)

bind_bounds_append :
    (bs cs : List Bound) (s t : Why3Scope)
    → bind_bounds (bs ++ cs) s ≡ some (tt, t)
    → (u : Why3Scope) × (bind_bounds bs s ≡ some (tt, u)) × (bind_bounds cs u ≡ some (tt, t))
unfolding bind_bounds
bind_bounds_append [] cs s t e = (s, refl, e)
bind_bounds_append (b ∷ bs) cs s t e = elim (Option-cases (bind_bound b s)) [
  | inl stuck ↦ absurd (cc (bind_stuck (bind_bound b) (λ _. bind_bounds (bs ++ cs)) s stuck, e))
  | inr next ↦
      let step =
        bind_step (bind_bound b) (λ _. bind_bounds (bs ++ cs)) s next.0.1 next.0.0 next.1 in
      let (u, f, g) = bind_bounds_append bs cs next.0.1 t (sym step ∙ e) in
      (u, bind_step (bind_bound b) (λ _. bind_bounds bs) s next.0.1 next.0.0 next.1 ∙ f, g)
]

pub ret-Binds : {A : Type 0} (a : A) → Quiet (ret a)
unfolding bind_bounds
ret-Binds a = record { runs = λ s t e. (a, ap (λ u. some (a, u.1)) (some_eq e)) }

pub >>=-Binds :
    {A B : Type 0} (bs cs : List Bound) (m : M A) (f : A → M B)
    → Binds bs m
    → ((a : A) → Binds cs (f a))
    → Binds (bs ++ cs) (m >>= f)
>>=-Binds bs cs m f h k = record {
  runs = λ s t e.
      let (u, p, q) = bind_bounds_append bs cs s t e in
      let (a, r) = h.runs s u p in let (b, w) = (k a).runs u t q in (b, bind_step m f s u a r ∙ w);
}

pub then-Quiet :
    {A B : Type 0} (bs : List Bound) (m : M A) (f : A → M B)
    → Binds bs m
    → ((a : A) → Quiet (f a))
    → Binds bs (m >>= f)
unfolding bind_bounds
then-Quiet bs m f h k = record {
  runs = λ s t e.
      let (a, r) = h.runs s t e in
      let (b, w) = (k a).runs t t refl in (b, bind_step m f s t a r ∙ w);
}

pub mapped-Binds :
    {A B : Type 0} (bs : List Bound) (f : A → B) (m : M A) → Binds bs m → Binds bs (mapped f m)
unfolding mapped
mapped-Binds bs f m h = then-Quiet bs m _ h (λ a. ret-Binds (f a))

bound_after :
    (m : M (Unit {0})) (s t : Why3Scope)
    → (m >>= λ _. ret tt) s ≡ some (tt, t)
    → (a : Unit {0}) × (m s ≡ some (a, t))
bound_after m s t e = elim (Option-cases (m s)) [
  | inl stuck ↦ absurd (cc (bind_stuck m (λ _. ret tt) s stuck, e))
  | inr next ↦
      let same = sym (bind_step m (λ _. ret tt) s next.0.1 next.0.0 next.1) ∙ e in
      (tt, next.1 ∙ ap (λ u. some (tt, u.1)) (some_eq same))
]

pub bind_bound-Binds : (b : Bound) → Binds (b ∷ []) (bind_bound b)
unfolding bind_bounds
bind_bound-Binds b = record { runs = λ s t e. bound_after (bind_bound b) s t e }

pub reads-Quiet : {A : Type 0} (read : Why3Scope → A) → Quiet {A = A} (λ s. some (read s, s))
unfolding bind_bounds
reads-Quiet read = record { runs = λ s t e. (read s, ap (λ u. some (read s, u.1)) (some_eq e)) }

pub each-Quiet :
    {A B : Type 0} (f : A → M B) (xs : List A) → ((x : A) → Quiet (f x)) → Quiet (each f xs)
unfolding each
each-Quiet f [] h = ret-Binds []
each-Quiet f (x ∷ xs) h =
    then-Quiet [] (f x) _ (h x)
      λ y. then-Quiet [] (each f xs) _ (each-Quiet f xs h) λ ys. ret-Binds (y ∷ ys)

-- The names that the items of a list bind, from left to right.
unfoldable pub all_bounds : {A : Type 0} → (A → List Bound) → List A → List Bound
all_bounds g [] = []
all_bounds g (x ∷ xs) = g x ++ all_bounds g xs

pub each-Binds :
    {A B : Type 0} (g : A → List Bound) (f : A → M B) (xs : List A)
    → ((x : A) → Binds (g x) (f x))
    → Binds (all_bounds g xs) (each f xs)
unfolding each all_bounds
each-Binds g f [] h = ret-Binds []
each-Binds g f (x ∷ xs) h =
    >>=-Binds (g x) (all_bounds g xs) (f x) _ (h x)
      λ y. mapped-ret (all_bounds g xs) (λ ys. y ∷ ys) (each f xs) (each-Binds g f xs h)
  where
    mapped-ret :
        {C E : Type 0} (bs : List Bound) (k : C → E) (m : M C)
        → Binds bs m
        → Binds bs (do c ← m; ret (k c))
    mapped-ret bs k m h = then-Quiet bs m _ h (λ c. ret-Binds (k c))
