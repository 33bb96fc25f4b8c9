-- ===== src/Why3/Exp/Subst/Steps.antt =====
-- why3/src/exp.rs: the steps of a visit of `BoundSubst`: its computations, its variables, and what
-- it passes on where it goes under a binder.
use native.Mathlib.Nat.{add_assoc, add-zero}
use creusot.Prelude.{
  ℕ, ◌+◌, ◌<◌, ◌≤◌, ◌^◌, List, Option, none, some, ◌≡◌, sym, ap, ◌∙◌, length, Option-cases, inl,
  inr,
}
use creusot.Prelude.Decimal.{Text}
use creusot.Why3.Name.{Ident, local}
use creusot.Why3.Exp.{Exp, var}
use creusot.Why3.Exp.Semantics.{Meaning, eval, extend}
use creusot.Why3.Exp.Vars.{draws}
use creusot.Why3.Exp.Visit.{Bound, Subst, R, M, ret, ◌>>=◌, with_fresh, visit, visit_local}
use creusot.Why3.Exp.Subst.Refresh.{Renames}
use creusot.Why3.Exp.Subst.Through.{
  InRange, refresh_ids_lem, IsOld, IsReady, through, Follows, extend-Follows,
}

-- Two computations one behind the other.
pub bind-some :
    {A B : Type 0} (m : M A) (f : A → M B) (counter d e : ℕ) (a : A) (b : B)
    → m counter ≡ some (a, counter + d)
    → f a (counter + d) ≡ some (b, (counter + d) + e)
    → (m >>= f) counter ≡ some (b, counter + (d + e))
bind-some m f counter d e a b p q =
    rw (p, ◌>>=◌) (q ∙ ap (λ n. some (b, n)) (add_assoc counter d e))

pub map-some :
    {A B : Type 0} (m : M A) (f : A → B) (counter d : ℕ) (a : A)
    → m counter ≡ some (a, counter + d)
    → (m >>= λ x. ret (f x)) counter ≡ some (f a, counter + d)
map-some m f counter d a p = rw (p, ◌>>=◌)

pub two-some :
    {A B C : Type 0} (m : M A) (n : M B) (f : A → B → C) (counter d e : ℕ) (a : A) (b : B)
    → m counter ≡ some (a, counter + d)
    → n (counter + d) ≡ some (b, (counter + d) + e)
    → (m >>= λ x. n >>= λ y. ret (f x y)) counter ≡ some (f a b, counter + (d + e))
two-some m n f counter d e a b p q =
    bind-some m (λ x. n >>= λ y. ret (f x y)) counter d e a (f a b) p
      (map-some n (f a) (counter + d) e b q)

pub with_fresh-some :
    {A B : Type 0} (r : R A) (bound : Bound) (k : A → Bound → M B) (counter n d : ℕ) (b : B)
    → (r (bound, counter)).1.1 ≡ counter + n
    → k (r (bound, counter)).0 (r (bound, counter)).1.0 (counter + n) ≡ some (b, (counter + n) + d)
    → with_fresh r bound k counter ≡ some (b, counter + (n + d))
with_fresh-some r bound k counter n d b p q =
    rw p (q ∙ ap (λ m. some (b, m)) (add_assoc counter n d))

module _ (S : Meaning) (σ : Subst) (start : ℕ) (old : IsOld σ start) where
  open S use {V}

  -- A visit succeeds, draws as many numbers as there are bound identifiers, and keeps the meaning.
  abbrev pub Keeps :
      {A B : Type 0} → (Bound → A → M A) → ((Ident → V) → A → B) → (A → ℕ) → Bound → ℕ → A → Type 0
  Keeps {A} go meaning count bound counter a =
      (out : A) × (go bound a counter ≡ some (out, counter + count a))
      × ((before after : Ident → V)
          → Follows S σ start bound before after
          → meaning after out ≡ meaning before a)

  -- The three cases of a variable: renamed, kept, replaced.
  renamed :
      (v w : Ident) (suffix : Option Text) (bound : Bound) (counter : ℕ)
      → bound v ≡ some w
      → visit_local σ bound v suffix counter ≡ some (var (local w suffix), counter + 0)
  unfolding visit_local
  renamed v w suffix bound counter e =
      rw (e, visit_local) (ap (λ n. some (var (local w suffix), n)) (sym (add-zero counter)))

  kept :
      (v : Ident) (suffix : Option Text) (bound : Bound) (counter : ℕ)
      → bound v ≡ none
      → σ v ≡ none
      → visit_local σ bound v suffix counter ≡ some (var (local v suffix), counter + 0)
  unfolding visit_local
  kept v suffix bound counter e k =
      rw (e, k, visit_local) (ap (λ n. some (var (local v suffix), n)) (sym (add-zero counter)))

  replaced :
      (v : Ident) (t : Exp) (bound : Bound) (counter : ℕ)
      → bound v ≡ none
      → σ v ≡ some t
      → visit_local σ bound v none counter ≡ some (t, counter + 0)
  unfolding visit_local
  replaced v t bound counter e k =
      rw (e, k, visit_local) (ap (λ n. some (t, n)) (sym (add-zero counter)))

  through-renamed :
      (v w : Ident) (bound : Bound) (env : Ident → V)
      → bound v ≡ some w
      → through S σ start bound env v ≡ env w
  unfolding through
  through-renamed v w bound env e = rw (e, through)

  through-kept :
      (v : Ident) (bound : Bound) (env : Ident → V)
      → bound v ≡ none
      → σ v ≡ none
      → through S σ start bound env v ≡ env v
  unfolding through
  through-kept v bound env e k = rw (e, k, through)

  through-replaced :
      (v : Ident) (t : Exp) (bound : Bound) (env : Ident → V)
      → bound v ≡ none
      → σ v ≡ some t
      → through S σ start bound env v ≡ eval S env t
  unfolding through
  through-replaced v t bound env e k = rw (e, k, through)

  pub visit_local-Keeps :
      (v : Ident) (suffix : Option Text) (bound : Bound) (counter : ℕ)
      → IsReady σ start v suffix
      → Keeps (visit σ) (eval S) draws bound counter (var (local v suffix))
  unfolding visit draws eval
  visit_local-Keeps v none bound counter h = elim (Option-cases (bound v)) [
    | inr b ↦ (
      var (local b.0 none),
      renamed v b.0 none bound counter b.1,
      λ before after f. sym (f v h ∙ through-renamed v b.0 bound after b.1),
    )
    | inl free ↦ elim (Option-cases (σ v)) [
      | inl k ↦ (
        var (local v none),
        kept v none bound counter free k,
        λ before after f. sym (f v h ∙ through-kept v bound after free k),
      )
      | inr put ↦ (
        put.0,
        replaced v put.0 bound counter free put.1,
        λ before after f. sym (f v h ∙ through-replaced v put.0 bound after free put.1),
      )
    ]
  ]
  visit_local-Keeps v (some s) bound counter h = elim (Option-cases (bound v)) [
    | inr b ↦ (
      var (local b.0 (some s)),
      renamed v b.0 (some s) bound counter b.1,
      λ before after f. ap (S.suffixed s) (sym (f v h.0 ∙ through-renamed v b.0 bound after b.1)),
    )
    | inl free ↦ (
      var (local v (some s)),
      kept v (some s) bound counter free h.1,
      λ before after f. ap (S.suffixed s) (sym (f v h.0 ∙ through-kept v bound after free h.1)),
    )
  ]

  -- What a visit under a binder starts from.
  pub under :
      {A Shape : Type 0} (r : A → R A) (ids : A → List Ident) (shape : A → Shape) (a : A)
      → ((st : Bound × ℕ) → Renames ids shape a (r a st) st)
      → (bound : Bound) (counter : ℕ) → counter + length (ids a) < 2 ^ 64
      → InRange bound counter
      → start ≤ counter
      → ((r a (bound, counter)).1.1 ≡ counter + length (ids a))
        × InRange (r a (bound, counter)).1.0 (counter + length (ids a))
        × (shape (r a (bound, counter)).0 ≡ shape a)
        × ((before after : Ident → V) (values : ℕ → V)
            → Follows S σ start bound before after
            → Follows S σ start
                (r a (bound, counter)).1.0
                (extend before (ids a) values)
                (extend after (ids (r a (bound, counter)).0) values))
  under r ids shape a renames bound counter h range s =
      let (same_ids, same_state, same_shape) = renames (bound, counter) in
      let (counted, ranged) = refresh_ids_lem (ids a) bound counter h range in
      rw (same_ids, same_state)
        (
          counted,
          ranged,
          same_shape,
          λ before after values f.
              extend-Follows S σ start (ids a) bound counter values before after old h range s f,
        )
