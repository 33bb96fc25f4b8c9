-- ===== src/Contracts/Effects.antt =====
-- creusot-contracts/src/resolve.rs and the bodies of creusot-contracts/src/std/option.rs: what a body
-- does besides returning, in order. It calls a closure on a shared borrow of a value, and it drops a
-- value. The verifier adds that a dropped value is resolved, which a postcondition can then promise.
use creusot.Prelude.{List, [], ◌∷◌, ◌++◌, Option, none, some, ◌⊎◌, inl, inr, ◌≡◌}
use creusot.Contracts.Closures.{FnOnce, Borrow}

pub data Event (T : Type 0) : Type 0 where
  called : T → Event T
  dropped : T → Event T

abbrev pub Run : Type 0 → Type 0 → Type 0
Run T A = A × List (Event T)

module _ {T : Type 0} where
  infixl 5 ◌>>=◌ ◌>>◌
  abbrev pub ret : {A : Type 0} → A → Run T A
  ret a = (a, [])

  abbrev pub ◌>>=◌ : {A B : Type 0} → Run T A → (A → Run T B) → Run T B
  m >>= f = ((f m.0).0, m.1 ++ (f m.0).1)

  abbrev pub ◌>>◌ : {B : Type 0} → Run T (Unit {0}) → Run T B → Run T B
  m >> k = m >>= λ _. k

  -- `f(&t)`
  unfoldable pub call_ref : {B : Type 0} → FnOnce T B → T → Run T B
  call_ref f t = (f.call t, called t ∷ [])

  -- The end of the scope of an owned value.
  unfoldable pub drop_value : T → Run T (Unit {0})
  drop_value t = (tt, dropped t ∷ [])

  unfoldable pub drop_option : Option T → Run T (Unit {0})
  drop_option none = ret tt
  drop_option (some t) = drop_value t

  -- The values that a closure was called on.
  unfoldable pub calls : List (Event T) → List T
  calls [] = []
  calls (called t ∷ es) = t ∷ calls es
  calls (dropped t ∷ es) = calls es

  -- Every dropped value is resolved.
  unfoldable pub Resolved : (T → Type 0) → List (Event T) → Type 0
  Resolved resolve [] = Unit
  Resolved resolve (called t ∷ es) = Resolved resolve es
  Resolved resolve (dropped t ∷ es) = resolve t × Resolved resolve es

  -- `resolve` and `inv` of an option are those of the value that it holds.
  unfoldable pub OfValue : (T → Type 0) → Option T → Type 0
  OfValue p none = Unit
  OfValue p (some t) = p t

  -- A mutable borrow is resolved if it ends with the value that it has.
  unfoldable pub ResolvedBorrow : Borrow T → Type 0
  ResolvedBorrow b = b.final ≡ b.current

-- The values of two types.
unfoldable pub Either : {T U : Type 0} → (T → Type 0) → (U → Type 0) → T ⊎ U → Type 0
Either p q (inl t) = p t
Either p q (inr u) = q u
