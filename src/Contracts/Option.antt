-- ===== src/Contracts/Option.antt =====
-- creusot-contracts/src/std/option.rs: the bodies that the functions of `Option` are specified with.
-- A shared borrow is the value. A function that takes `&mut self` returns the value that it leaves in
-- `self` last; where it returns a mutable borrow, it takes the value with which that borrow ends.
-- A body whose contract speaks of what it drops, or that calls a closure on a shared borrow, is a `Run`.
pub mod Specs
pub mod Read
pub mod Called
pub mod Changed
pub mod Iter
use creusot.Prelude.{
  Bool, true, false, List, [], ◌∷◌, ◌++◌, Option, none, some, ◌⊎◌, inl, inr, if◌then◌else◌,
}
use creusot.Contracts.Closures.{
  FnOnce, FnOnceMut, Borrow, Result, ok, err, Outcome, returned, panicked,
}
use creusot.Contracts.Effects.{Run, ret, ◌>>=◌, ◌>>◌, call_ref, drop_value, drop_option}

module _ {T : Type 0} where
  unfoldable pub is_some : Option T → Bool
  is_some none = false
  is_some (some _) = true

  unfoldable pub is_none : Option T → Bool
  is_none none = true
  is_none (some _) = false

  unfoldable pub is_some_and : Option T → FnOnce T Bool → Bool
  is_some_and none f = false
  is_some_and (some t) f = f.call t

  unfoldable pub as_ref : Option T → Option T
  as_ref none = none
  as_ref (some t) = some t

  unfoldable pub as_mut : Option T → T → Option (Borrow T) × Option T
  as_mut none ended = (none, none)
  as_mut (some t) ended = (some (record { current = t; final = ended }), some ended)

  unfoldable pub as_slice : Option T → List T
  as_slice none = []
  as_slice (some t) = t ∷ []

  unfoldable pub as_mut_slice : Option T → T → Borrow (List T) × Option T
  as_mut_slice none ended = (record { current = []; final = [] }, none)
  as_mut_slice (some t) ended = (record { current = t ∷ []; final = ended ∷ [] }, some ended)

  unfoldable pub unwrap : Option T → Outcome T
  unwrap none = panicked
  unwrap (some t) = returned t

  unfoldable pub expect : {Msg : Type 0} → Option T → Msg → Outcome T
  expect none msg = panicked
  expect (some t) msg = returned t

  unfoldable pub unwrap_unchecked : Option T → Outcome T
  unwrap_unchecked none = panicked
  unwrap_unchecked (some t) = returned t

  unfoldable pub unwrap_or : Option T → T → Run T T
  unwrap_or none default = ret default
  unwrap_or (some t) default = drop_value default >> ret t

  unfoldable pub unwrap_or_else : Option T → FnOnce Unit T → T
  unwrap_or_else none f = f.call tt
  unwrap_or_else (some t) f = t

  -- `T::default` is a closure of no argument.
  unfoldable pub unwrap_or_default : Option T → FnOnce Unit T → T
  unwrap_or_default none default = default.call tt
  unwrap_or_default (some t) default = t

  unfoldable pub inspect : Option T → FnOnce T Unit → Run T (Option T)
  inspect none f = ret none
  inspect (some t) f = call_ref f t >> ret (some t)

  unfoldable pub filter : Option T → FnOnce T Bool → Run T (Option T)
  filter none predicate = ret none
  filter (some t) predicate =
      call_ref predicate t >>= λ keep. if keep then ret (some t) else (drop_value t >> ret none)

  unfoldable pub or : Option T → Option T → Run T (Option T)
  or none optb = ret optb
  or (some t) optb = drop_option optb >> ret (some t)

  unfoldable pub or_else : Option T → FnOnce Unit (Option T) → Option T
  or_else none f = f.call tt
  or_else (some t) f = some t

  unfoldable pub xor : Option T → Option T → Run T (Option T)
  xor (some t) none = ret (some t)
  xor none (some t) = ret (some t)
  xor none none = ret none
  xor (some t1) (some t2) = drop_value t1 >> drop_value t2 >> ret none

  -- `match self { None => unreachable!(), Some(v) => v }`, as a mutable borrow.
  unfoldable pub borrowed : Option T → T → Outcome (Borrow T × Option T)
  borrowed none ended = panicked
  borrowed (some v) ended = returned (record { current = v; final = ended }, some ended)

  -- The assignment drops the value that `self` holds.
  unfoldable pub insert : Option T → T → T → Run T (Outcome (Borrow T × Option T))
  insert self value ended = drop_option self >> ret (borrowed (some value) ended)

  -- The value is moved into `self`, or dropped at the end.
  unfoldable pub get_or_insert : Option T → T → T → Run T (Outcome (Borrow T × Option T))
  get_or_insert none value ended = ret (borrowed (some value) ended)
  get_or_insert (some v) value ended = drop_value value >> ret (borrowed (some v) ended)

  -- `self.as_mut().unwrap()`
  unfoldable pub as_mut_unwrap : Option T → T → Outcome (Borrow T × Option T)
  as_mut_unwrap self ended =
      let (borrow, after) = as_mut self ended in
      elim borrow [ none ↦ panicked | some b ↦ returned (b, after) ]

  unfoldable pub get_or_insert_with : Option T → FnOnce Unit T → T → Outcome (Borrow T × Option T)
  get_or_insert_with none f ended = as_mut_unwrap (some (f.call tt)) ended
  get_or_insert_with (some t) f ended = returned (record { current = t; final = ended }, some ended)

  unfoldable pub take : Option T → Option T × Option T
  take self = (self, none)

  unfoldable pub take_if : {inv : T → Type 0} → Option T → FnOnceMut inv Bool → Option T × Option T
  take_if none predicate = (none, none)
  take_if (some t) predicate =
      let answer = predicate.call t in
      if answer.0 then take (some answer.1) else (none, some answer.1)

  unfoldable pub replace : Option T → T → Option T × Option T
  replace self value = (self, some value)

  unfoldable pub flatten : Option (Option T) → Option T
  flatten none = none
  flatten (some opt) = opt

  unfoldable pub copied : Option (Borrow T) → Run (Borrow T) (Option T)
  copied none = ret none
  copied (some t) = drop_value t >> ret (some t.current)

  module _ {U : Type 0} where
    unfoldable pub map : Option T → FnOnce T U → Option U
    map none f = none
    map (some t) f = some (f.call t)

    unfoldable pub map_or : Option T → U → FnOnce T U → U
    map_or none default f = default
    map_or (some t) default f = f.call t

    unfoldable pub map_or_else : Option T → FnOnce Unit U → FnOnce T U → U
    map_or_else none default f = default.call tt
    map_or_else (some t) default f = f.call t

    unfoldable pub ok_or : Option T → U → Run U (Result T U)
    ok_or none error = ret (err error)
    ok_or (some t) error = drop_value error >> ret (ok t)

    unfoldable pub ok_or_else : Option T → FnOnce Unit U → Result T U
    ok_or_else none error = err (error.call tt)
    ok_or_else (some t) error = ok t

    unfoldable pub and : Option T → Option U → Run (T ⊎ U) (Option U)
    and none none = ret none
    and none (some u) = drop_value (inr u) >> ret none
    and (some t) optb = drop_value (inl t) >> ret optb

    unfoldable pub and_then : Option T → FnOnce T (Option U) → Option U
    and_then none f = none
    and_then (some t) f = f.call t

    unfoldable pub zip : Option T → Option U → Run (T ⊎ U) (Option (T × U))
    zip (some t) (some u) = ret (some (t, u))
    zip none none = ret none
    zip none (some u) = drop_value (inr u) >> ret none
    zip (some t) none = drop_value (inl t) >> ret none

    unfoldable pub unzip : Option (T × U) → Option T × Option U
    unzip (some (t, u)) = (some t, some u)
    unzip none = (none, none)

    unfoldable pub transpose : Option (Result T U) → Result (Option T) U
    transpose none = ok none
    transpose (some (ok t)) = ok (some t)
    transpose (some (err e)) = err e
