-- ===== src/Contracts/Option/Specs.antt =====
-- creusot-contracts/src/std/option.rs: the `requires` and `ensures` of the functions of `Option`, by
-- the cases that they distinguish. `self` comes first, then the other arguments, then the result and,
-- for `&mut self`, the value `^self`. `resolve` and the invariant of a type, `inv`, are parameters.
use creusot.Prelude.{Bool, true, false, List, Option, none, some, ◌≡◌, if◌then◌else◌, length, head?}
use creusot.Contracts.Closures.{FnOnce, FnOnceMut, Borrow, BorrowInv, Result, ok, err}
use creusot.Contracts.Effects.{OfValue, ResolvedBorrow}

module _ {T : Type 0} where
  -- The preconditions: of a closure on the value, and of one that stands in for it.
  unfoldable pub OnSome : {U : Type 0} → Option T → FnOnce T U → Type 0
  OnSome none f = Unit
  OnSome (some t) f = f.precondition t

  unfoldable pub OnNone : {U : Type 0} → Option T → FnOnce Unit U → Type 0
  OnNone none f = f.precondition tt
  OnNone (some t) f = Unit

  unfoldable pub IsSomeAndEnsures : Option T → FnOnce T Bool → Bool → Type 0
  IsSomeAndEnsures none f result = result ≡ false
  IsSomeAndEnsures (some t) f result = f.postcondition_once t result

  unfoldable pub AsMutEnsures : Option T → Option (Borrow T) → Option T → Type 0
  AsMutEnsures none result final = (result ≡ none) × (final ≡ none)
  AsMutEnsures (some t) result final =
      (r : Borrow T) × (result ≡ some r) × (some t ≡ some r.current) × (final ≡ some r.final)

  unfoldable pub AsSliceEnsures : Option T → List T → Type 0
  AsSliceEnsures none result = length result ≡ 0
  AsSliceEnsures (some t) result = (length result ≡ 1) × (head? result ≡ some t)

  unfoldable pub AsMutSliceEnsures : Option T → Borrow (List T) → Option T → Type 0
  AsMutSliceEnsures none result final = length result.current ≡ 0
  AsMutSliceEnsures (some t) result final =
      (b : Borrow T) × (some t ≡ some b.current)
      × (final ≡ some b.final)
      × (head? result.current ≡ some b.current)
      × (head? result.final ≡ some b.final)
      × (length result.current ≡ 1)
      × (length result.final ≡ 1)

  unfoldable pub UnwrapOrEnsures : (T → Type 0) → Option T → T → T → Type 0
  UnwrapOrEnsures resolve none default result = result ≡ default
  UnwrapOrEnsures resolve (some t) default result = (some t ≡ some result) × resolve default

  unfoldable pub UnwrapOrElseEnsures : Option T → FnOnce Unit T → T → Type 0
  UnwrapOrElseEnsures none f result = f.postcondition_once tt result
  UnwrapOrElseEnsures (some t) f result = result ≡ t

  unfoldable pub InspectEnsures : Option T → FnOnce T Unit → Option T → Type 0
  InspectEnsures none f result = result ≡ none
  InspectEnsures (some t) f result = (result ≡ some t) × f.postcondition_once t tt

  -- The case of a value, by the result.
  unfoldable pub FilterSome : (T → Type 0) → T → FnOnce T Bool → Option T → Type 0
  FilterSome resolve t predicate none = predicate.postcondition_once t false × resolve t
  FilterSome resolve t predicate (some r) = predicate.postcondition_once t true × (r ≡ t)

  unfoldable pub FilterEnsures : (T → Type 0) → Option T → FnOnce T Bool → Option T → Type 0
  FilterEnsures resolve none predicate result = result ≡ none
  FilterEnsures resolve (some t) predicate result = FilterSome resolve t predicate result

  unfoldable pub OrEnsures : (T → Type 0) → Option T → Option T → Option T → Type 0
  OrEnsures resolve none optb result = result ≡ optb
  OrEnsures resolve (some t) optb result = (result ≡ some t) × OfValue resolve optb

  unfoldable pub OrElseEnsures : Option T → FnOnce Unit (Option T) → Option T → Type 0
  OrElseEnsures none f result = f.postcondition_once tt result
  OrElseEnsures (some t) f result = result ≡ some t

  unfoldable pub XorEnsures : (T → Type 0) → Option T → Option T → Option T → Type 0
  XorEnsures resolve none none result = result ≡ none
  XorEnsures resolve (some t1) (some t2) result = (result ≡ none) × resolve t1 × resolve t2
  XorEnsures resolve (some t) none result = result ≡ some t
  XorEnsures resolve none (some t) result = result ≡ some t

  unfoldable pub InsertEnsures : (T → Type 0) → Option T → T → Borrow T → Option T → Type 0
  InsertEnsures resolve self value result final =
      OfValue resolve self × (result.current ≡ value) × (final ≡ some result.final)

  unfoldable pub GetOrInsertEnsures : (T → Type 0) → Option T → T → Borrow T → Option T → Type 0
  GetOrInsertEnsures resolve none value result final =
      (result.current ≡ value) × (final ≡ some result.final)
  GetOrInsertEnsures resolve (some t) value result final =
      (some t ≡ some result.current) × (final ≡ some result.final) × resolve value

  unfoldable pub GetOrInsertWithEnsures : Option T → FnOnce Unit T → Borrow T → Option T → Type 0
  GetOrInsertWithEnsures none f result final =
      f.postcondition_once tt result.current × (final ≡ some result.final)
  GetOrInsertWithEnsures (some t) f result final =
      (some t ≡ some result.current) × (final ≡ some result.final)

  abbrev pub TakeEnsures : Option T → Option T → Option T → Type 0
  TakeEnsures self result final = (result ≡ self) × (final ≡ none)

  module _ {inv : T → Type 0} where
    unfoldable pub TakeIfRequires : Option T → FnOnceMut inv Bool → Type 0
    TakeIfRequires none predicate = Unit
    TakeIfRequires (some t) predicate =
        (b : Borrow T) → BorrowInv inv b → b.current ≡ t → predicate.precondition b

    unfoldable pub TakeIfEnsures : Option T → FnOnceMut inv Bool → Option T → Option T → Type 0
    TakeIfEnsures none predicate result final = (result ≡ none) × (final ≡ none)
    TakeIfEnsures (some cur) predicate result final =
        (b : Borrow T) × (res : Bool) × BorrowInv inv b
        × (cur ≡ b.current)
        × predicate.postcondition_once b res
        × (if res
            then (final ≡ none) × (result ≡ some b.final)
            else (final ≡ some b.final) × (result ≡ none))

  abbrev pub ReplaceEnsures : Option T → T → Option T → Option T → Type 0
  ReplaceEnsures self value result final = (result ≡ self) × (final ≡ some value)

  unfoldable pub FlattenEnsures : Option (Option T) → Option T → Type 0
  FlattenEnsures none result = result ≡ none
  FlattenEnsures (some opt) result = some opt ≡ some result

  unfoldable pub CopiedEnsures : Option (Borrow T) → Option T → Type 0
  CopiedEnsures none result = result ≡ none
  CopiedEnsures (some b) result =
      (t : Borrow T) × (some b ≡ some t) × (result ≡ some t.current) × ResolvedBorrow t

  module _ {U : Type 0} where
    unfoldable pub MapEnsures : Option T → FnOnce T U → Option U → Type 0
    MapEnsures none f result = result ≡ none
    MapEnsures (some t) f result = (r : U) × (result ≡ some r) × f.postcondition_once t r

    unfoldable pub MapOrEnsures : Option T → U → FnOnce T U → U → Type 0
    MapOrEnsures none default f result = result ≡ default
    MapOrEnsures (some t) default f result = f.postcondition_once t result

    unfoldable pub MapOrElseEnsures : Option T → FnOnce Unit U → FnOnce T U → U → Type 0
    MapOrElseEnsures none default f result = default.postcondition_once tt result
    MapOrElseEnsures (some t) default f result = f.postcondition_once t result

    unfoldable pub OkOrEnsures : (U → Type 0) → Option T → U → Result T U → Type 0
    OkOrEnsures resolve none error result = result ≡ err error
    OkOrEnsures resolve (some t) error result = (result ≡ ok t) × resolve error

    unfoldable pub OkOrElseEnsures : Option T → FnOnce Unit U → Result T U → Type 0
    OkOrElseEnsures none error result = (r : U) × (result ≡ err r) × error.postcondition_once tt r
    OkOrElseEnsures (some t) error result = result ≡ ok t

    unfoldable pub AndEnsures :
        (T → Type 0) → (U → Type 0) → Option T → Option U → Option U → Type 0
    AndEnsures resolve resolve' none optb result = (result ≡ none) × OfValue resolve' optb
    AndEnsures resolve resolve' (some t) optb result = (result ≡ optb) × resolve t

    unfoldable pub AndThenEnsures : Option T → FnOnce T (Option U) → Option U → Type 0
    AndThenEnsures none f result = result ≡ none
    AndThenEnsures (some t) f result = f.postcondition_once t result

    unfoldable pub ZipEnsures :
        (T → Type 0) → (U → Type 0) → Option T → Option U → Option (T × U) → Type 0
    ZipEnsures resolve resolve' (some t) (some u) result = result ≡ some (t, u)
    ZipEnsures resolve resolve' none other result = (result ≡ none) × OfValue resolve' other
    ZipEnsures resolve resolve' (some t) none result = (result ≡ none) × resolve t

    unfoldable pub UnzipEnsures : Option (T × U) → Option T × Option U → Type 0
    UnzipEnsures none result = result ≡ (none, none)
    UnzipEnsures (some (t, u)) result = result ≡ (some t, some u)

    unfoldable pub TransposeEnsures : Option (Result T U) → Result (Option T) U → Type 0
    TransposeEnsures none result = result ≡ ok none
    TransposeEnsures (some (ok t)) result = result ≡ ok (some t)
    TransposeEnsures (some (err e)) result = result ≡ err e
