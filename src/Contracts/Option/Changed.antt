-- ===== src/Contracts/Option/Changed.antt =====
-- creusot-contracts/src/std/option.rs: the functions that change an option meet their contracts.
use creusot.Prelude.{Bool, true, false, Option, none, some, ◌≡◌, refl, Bool-cases, inl, inr}
use mathlib.Core.Path.{subst}
use creusot.Contracts.Closures.{FnOnce, FnOnceMut, Borrow, returned}
use creusot.Contracts.Effects.{Resolved, OfValue, drop_option, drop_value}
use creusot.Contracts.Option.{
  as_mut, as_mut_slice, borrowed, insert, get_or_insert, get_or_insert_with, as_mut_unwrap, take,
  take_if, replace,
}
use creusot.Contracts.Option.Specs.{
  OnNone, AsMutEnsures, AsMutSliceEnsures, InsertEnsures, GetOrInsertEnsures,
  GetOrInsertWithEnsures, TakeEnsures, TakeIfRequires, TakeIfEnsures, ReplaceEnsures,
}

module _ {T : Type 0} where
  -- With whatever value the borrow that they return ends, `as_mut` and `as_mut_slice` meet their
  -- postconditions, as do `take` and `replace`.
  pub changes_hold :
      (self : Option T) (value ended : T)
      → AsMutEnsures self (as_mut self ended).0 (as_mut self ended).1
        × AsMutSliceEnsures self (as_mut_slice self ended).0 (as_mut_slice self ended).1
        × TakeEnsures self (take self).0 (take self).1
        × ReplaceEnsures self value (replace self value).0 (replace self value).1
  unfolding AsMutEnsures as_mut AsMutSliceEnsures as_mut_slice take replace
  changes_hold none value ended = ((refl, refl), refl, (refl, refl), (refl, refl))
  changes_hold (some t) value ended = (
    (record { current = t; final = ended }, refl, refl, refl),
    (record { current = t; final = ended }, refl, refl, refl, refl, refl, refl),
    (refl, refl),
    (refl, refl),
  )

  -- With whatever value the borrow that they return ends, where the closure may be called if there is no
  -- value, and where what `insert` and `get_or_insert` drop is resolved: `insert`, `get_or_insert` and
  -- `get_or_insert_with` do not reach their `unreachable!` or a failing `unwrap`, and meet their
  -- postconditions.
  pub inserts_hold :
      (self : Option T) (value ended : T) (f : FnOnce Unit T) (resolve : T → Type 0)
      → OnNone self f
      → Resolved resolve (insert self value ended).1
      → Resolved resolve (get_or_insert self value ended).1
      → (a : Borrow T × Option T) × (b : Borrow T × Option T) × (c : Borrow T × Option T) × ((insert
            self value ended).0
          ≡ returned a)
        × ((get_or_insert self value ended).0 ≡ returned b)
        × (get_or_insert_with self f ended ≡ returned c)
        × InsertEnsures resolve self value a.0 a.1
        × GetOrInsertEnsures resolve self value b.0 b.1
        × GetOrInsertWithEnsures self f c.0 c.1
        × (a.0.final ≡ ended)
        × (b.0.final ≡ ended)
        × (c.0.final ≡ ended)
  unfolding OnNone insert borrowed get_or_insert get_or_insert_with as_mut_unwrap as_mut
      InsertEnsures GetOrInsertEnsures GetOrInsertWithEnsures drop_option drop_value Resolved
      OfValue
  inserts_hold none value ended f resolve h hi hg = (
    (record { current = value; final = ended }, some ended),
    (record { current = value; final = ended }, some ended),
    (record { current = f.call tt; final = ended }, some ended),
    refl,
    refl,
    refl,
    (tt, refl, refl),
    (refl, refl),
    (f.met tt h, refl),
    refl,
    refl,
    refl,
  )
  inserts_hold (some t) value ended f resolve h hi hg = (
    (record { current = value; final = ended }, some ended),
    (record { current = t; final = ended }, some ended),
    (record { current = t; final = ended }, some ended),
    refl,
    refl,
    refl,
    (hi.0, refl, refl),
    (refl, refl, hg.0),
    (refl, refl),
    refl,
    refl,
    refl,
  )

  -- On an option with the invariant of its type, and where the closure may be called on every borrow of
  -- the value that has the invariant, if there is a value, `take_if` meets its postcondition: it takes
  -- the value that the closure leaves exactly if the closure returns true.
  pub take_if-TakeIfEnsures :
      {inv : T → Type 0} (self : Option T) (predicate : FnOnceMut inv Bool)
      → OfValue inv self
      → TakeIfRequires self predicate
      → TakeIfEnsures self predicate (take_if self predicate).0 (take_if self predicate).1
  unfolding OfValue TakeIfRequires TakeIfEnsures take_if take
  take_if-TakeIfEnsures none predicate i h = (refl, refl)
  take_if-TakeIfEnsures (some t) predicate i h = elim (Bool-cases (predicate.call t).0) [
    | inl e ↦
        rw (e, TakeIfEnsures)
          (
            record { current = t; final = (predicate.call t).1 },
            true,
            (i, (predicate.met t i h).0),
            refl,
            subst (predicate.postcondition_once _) e (predicate.met t i h).1,
            (refl, refl),
          )
    | inr e ↦
        rw (e, TakeIfEnsures)
          (
            record { current = t; final = (predicate.call t).1 },
            false,
            (i, (predicate.met t i h).0),
            refl,
            subst (predicate.postcondition_once _) e (predicate.met t i h).1,
            (refl, refl),
          )
  ]
