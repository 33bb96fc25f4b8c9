-- ===== src/Examples/Contracts.antt =====
-- creusot-contracts/src/std/option.rs: options and closures on numbers.
use creusot.Prelude.{ℕ, ◌+◌, ◌%◌, ◌<◌, Bool, true, Option, none, some, ◌≡◌, refl, arith, ltb}
use creusot.Contracts.Closures.{FnOnce, FnOnceMut, Borrow, Result, err, returned}
use creusot.Contracts.Option.{
  is_some_and, as_slice, unwrap_or, or, xor, ok_or, and, zip, map, map_or, map_or_else, and_then,
  inspect, filter, unwrap_or_else, unwrap_or_default, or_else, ok_or_else, take_if, insert,
  get_or_insert, get_or_insert_with,
}
use creusot.Contracts.Option.Specs.{
  UnwrapOrEnsures, OrEnsures, XorEnsures, OkOrEnsures, AndEnsures, ZipEnsures, OnSome, OnNone,
  IsSomeAndEnsures, MapEnsures, MapOrEnsures, MapOrElseEnsures, AndThenEnsures, InspectEnsures,
  FilterEnsures, UnwrapOrElseEnsures, OrElseEnsures, OkOrElseEnsures, TakeIfRequires, TakeIfEnsures,
  InsertEnsures, GetOrInsertEnsures, GetOrInsertWithEnsures,
}
use creusot.Contracts.Effects.{Resolved, OfValue, Either, calls, call_ref, drop_value, drop_option}
use creusot.Contracts.Option.Read.{combinations_hold}
use creusot.Contracts.Option.Called.{called_on_value, called_instead}
use creusot.Prelude.{[], ◌∷◌, inl, inr}
use creusot.Contracts.Option.Iter.{Produces}
use creusot.Contracts.Option.Changed.{inserts_hold, take_if-TakeIfEnsures}

abbrev nothing : Option ℕ
nothing = none

abbrev three : Option ℕ
three = some 3

-- A closure that may be called below ten, and one that needs no argument.
abbrev below_ten : {B : Type 0} → (ℕ → B) → FnOnce ℕ B
below_ten f = record {
  precondition = λ n. n < 10;
  postcondition_once = λ n r. r ≡ f n;
  call = f;
  met = λ n h. refl;
}

abbrev constant : {B : Type 0} → B → FnOnce Unit B
constant b = record {
  precondition = λ u. Unit;
  postcondition_once = λ u r. r ≡ b;
  call = λ u. b;
  met = λ u h. refl;
}

-- The numbers that stand for a type with an invariant, and for what is resolved.
abbrev IsSmall : ℕ → Type 0
IsSmall n = n < 100

below_hundred : (n : ℕ) → n % 100 < 100
below_hundred n = omega arith

-- Adds one below a hundred, and answers whether the value was below ten.
abbrev bump : FnOnceMut IsSmall Bool
bump = record {
  precondition = λ b. b.current < 10;
  postcondition_once = λ b r. (b.final ≡ (b.current + 1) % 100) × (r ≡ ltb b.current 10);
  call = λ n. (ltb n 10, (n + 1) % 100);
  met = λ n i h. (below_hundred (n + 1), (refl, refl));
}

abbrev pair : Option (ℕ × Bool)
pair = some (3, true)

abbrev result : Option (Result ℕ Bool)
result = some (err true)

abbrev borrow : Option (Borrow ℕ)
borrow = some (record { current = 1; final = 2 })

-- Whether the number is below two, which three is not.
abbrev below_two : FnOnce ℕ Bool
below_two = below_ten (λ n. ltb n 2)

called_on_value_example :
    IsSomeAndEnsures three below_two (is_some_and three below_two)
    × FilterEnsures IsSmall three below_two (filter three below_two).0
    × MapEnsures three (below_ten (λ n. n + 1)) (map three (below_ten (λ n. n + 1)))
    × MapOrEnsures three 0 (below_ten (λ n. n + 1)) (map_or three 0 (below_ten (λ n. n + 1)))
    × AndThenEnsures three (below_ten (λ n. some n)) (and_then three (below_ten (λ n. some n)))
    × InspectEnsures three (below_ten (λ n. tt)) (inspect three (below_ten (λ n. tt))).0
    × (calls (filter three below_two).1 ≡ as_slice three)
    × (calls (inspect three (below_ten (λ n. tt))).1 ≡ as_slice three)
unfolding OnSome Resolved filter call_ref drop_value
called_on_value_example =
    called_on_value three below_two (below_ten (λ n. n + 1)) (below_ten (λ n. some n))
      (below_ten (λ n. tt)) 0 IsSmall (omega arith) (omega arith) (omega arith) (omega arith)
      (omega arith, tt)

called_instead_example :
    UnwrapOrElseEnsures nothing (constant 4) (unwrap_or_else nothing (constant 4))
    × UnwrapOrElseEnsures nothing (constant 4) (unwrap_or_default nothing (constant 4))
    × OrElseEnsures nothing (constant three) (or_else nothing (constant three))
    × OkOrElseEnsures nothing (constant true) (ok_or_else nothing (constant true))
    × MapOrElseEnsures nothing
        (constant true)
        (below_ten (λ n. ltb n 2))
        (map_or_else nothing (constant true) (below_ten (λ n. ltb n 2)))
unfolding OnNone OnSome
called_instead_example =
    called_instead nothing (constant 4) (constant three) (constant true) (below_ten (λ n. ltb n 2))
      tt tt tt tt

inserts_hold_example :
    (a : Borrow ℕ × Option ℕ) × (b : Borrow ℕ × Option ℕ) × (c : Borrow ℕ × Option ℕ) × ((insert
        three 7 9).0
      ≡ returned a)
    × ((get_or_insert three 7 9).0 ≡ returned b)
    × (get_or_insert_with three (constant 4) 9 ≡ returned c)
    × InsertEnsures IsSmall three 7 a.0 a.1
    × GetOrInsertEnsures IsSmall three 7 b.0 b.1
    × GetOrInsertWithEnsures three (constant 4) c.0 c.1
    × (a.0.final ≡ 9)
    × (b.0.final ≡ 9)
    × (c.0.final ≡ 9)
unfolding OnNone Resolved insert get_or_insert drop_value drop_option
inserts_hold_example =
    inserts_hold three 7 9 (constant 4) IsSmall tt (omega arith, tt) (omega arith, tt)

bump_allowed : TakeIfRequires three bump
unfolding TakeIfRequires
bump_allowed b i e = omega (arith, e)

take_if-TakeIfEnsures_example :
    TakeIfEnsures three bump (take_if three bump).0 (take_if three bump).1
unfolding OfValue
take_if-TakeIfEnsures_example = take_if-TakeIfEnsures three bump (omega arith) bump_allowed

combinations_hold_example :
    UnwrapOrEnsures IsSmall three 1 (unwrap_or three 1).0
    × OrEnsures IsSmall three (some 5) (or three (some 5)).0
    × XorEnsures IsSmall three (some 5) (xor three (some 5)).0
    × OkOrEnsures IsSmall three 8 (ok_or three 8).0
    × AndEnsures IsSmall IsSmall three nothing (and three nothing).0
    × ZipEnsures IsSmall IsSmall three nothing (zip three nothing).0
unfolding Resolved Either unwrap_or or xor ok_or and zip drop_value drop_option
combinations_hold_example =
    combinations_hold three (some 5) nothing 1 8 IsSmall IsSmall (omega arith, tt) (omega arith, tt)
      (omega arith, (omega arith, tt)) (omega arith, tt) (omega arith, tt) (omega arith, tt)

abbrev view : Option ℕ → Option ℕ
view o = o

all_of_three : Produces view three (3 ∷ []) nothing
unfolding Produces
all_of_three = inr (3, refl, refl, refl)

none_left : Produces view nothing [] nothing
unfolding Produces
none_left = inl (refl, refl)
