-- ===== src/Contracts/Option/Read.antt =====
-- creusot-contracts/src/std/option.rs: the functions that only read an option meet their contracts.
use creusot.Prelude.{true, Option, none, some, ◌≡◌, ◌≢◌, ◌↔◌, refl}
use creusot.Contracts.Closures.{Borrow, Result, ok, err, returned}
use creusot.Contracts.Effects.{Resolved, ResolvedBorrow, OfValue, Either, drop_value, drop_option}
use creusot.Contracts.Option.{
  is_some, is_none, as_ref, as_slice, unwrap, expect, unwrap_unchecked, unwrap_or, or, xor, flatten,
  copied, ok_or, and, zip, unzip, transpose,
}
use creusot.Contracts.Option.Specs.{
  AsSliceEnsures, UnwrapOrEnsures, OrEnsures, XorEnsures, FlattenEnsures, CopiedEnsures,
  OkOrEnsures, AndEnsures, ZipEnsures, UnzipEnsures, TransposeEnsures,
}

module _ {T : Type 0} where
  -- On every option, `is_some` and `is_none` tell whether there is a value, and `as_ref` and
  -- `as_slice` meet their postconditions.
  pub queries_hold :
      (self : Option T)
      → ((is_some self ≡ true) ↔ (self ≢ none))
        × ((is_none self ≡ true) ↔ (self ≡ none))
        × (as_ref self ≡ self)
        × AsSliceEnsures self (as_slice self)
  unfolding is_some is_none as_ref as_slice AsSliceEnsures
  queries_hold none =
      (((λ e n. cc e), (λ n. absurd (n refl))), ((λ e. refl), (λ e. refl)), refl, refl)
  queries_hold (some t) = (
    ((λ e n. cc n), (λ n. refl)),
    ((λ e. absurd (cc e)), (λ e. absurd (cc e))),
    refl,
    (refl, refl),
  )

  flattened : (o : Option (Option T)) → FlattenEnsures o (flatten o)
  unfolding FlattenEnsures flatten
  flattened none = refl
  flattened (some opt) = refl

  copied-CopiedEnsures :
      (o : Option (Borrow T)) → Resolved ResolvedBorrow (copied o).1 → CopiedEnsures o (copied o).0
  unfolding CopiedEnsures copied Resolved drop_value
  copied-CopiedEnsures none h = refl
  copied-CopiedEnsures (some b) h = (b, refl, refl, h.0)

module _ {T U : Type 0} where
  -- On an option that holds a value, `unwrap`, `expect` and `unwrap_unchecked` do not panic and return
  -- the value; on the empty one, all three panic.
  pub unwrap-returned :
      (self : Option T) (msg : U) (t : T)
      → ((self ≡ some t) ↔ (unwrap self ≡ returned t))
        × ((self ≡ some t) ↔ (expect self msg ≡ returned t))
        × ((self ≡ some t) ↔ (unwrap_unchecked self ≡ returned t))
  unfolding unwrap expect unwrap_unchecked
  unwrap-returned none msg t = ((cc, cc), (cc, cc), (cc, cc))
  unwrap-returned (some v) msg t = ((cc, cc), (cc, cc), (cc, cc))

  -- Where what they drop is resolved: `unwrap_or`, `or`, `xor`, `ok_or`, `and` and `zip` meet their
  -- postconditions on all options and defaults.
  pub combinations_hold :
      (self other : Option T) (optb : Option U) (default : T) (error : U) (p : T → Type 0)
      (q : U → Type 0)
      → Resolved p (unwrap_or self default).1
      → Resolved p (or self other).1
      → Resolved p (xor self other).1
      → Resolved q (ok_or self error).1
      → Resolved (Either p q) (and self optb).1
      → Resolved (Either p q) (zip self optb).1
      → UnwrapOrEnsures p self default (unwrap_or self default).0
        × OrEnsures p self other (or self other).0
        × XorEnsures p self other (xor self other).0
        × OkOrEnsures q self error (ok_or self error).0
        × AndEnsures p q self optb (and self optb).0
        × ZipEnsures p q self optb (zip self optb).0
  unfolding UnwrapOrEnsures unwrap_or OrEnsures or XorEnsures xor OkOrEnsures ok_or AndEnsures and
      ZipEnsures zip Resolved OfValue Either drop_value drop_option
  combinations_hold none none none default error p q hu ho hx hk ha hz =
      (refl, refl, refl, refl, (refl, tt), (refl, tt))
  combinations_hold none none (some u) default error p q hu ho hx hk ha hz =
      (refl, refl, refl, refl, (refl, ha.0), (refl, hz.0))
  combinations_hold none (some b) none default error p q hu ho hx hk ha hz =
      (refl, refl, refl, refl, (refl, tt), (refl, tt))
  combinations_hold none (some b) (some u) default error p q hu ho hx hk ha hz =
      (refl, refl, refl, refl, (refl, ha.0), (refl, hz.0))
  combinations_hold (some t) none none default error p q hu ho hx hk ha hz =
      ((refl, hu.0), (refl, tt), refl, (refl, hk.0), (refl, ha.0), (refl, hz.0))
  combinations_hold (some t) none (some u) default error p q hu ho hx hk ha hz =
      ((refl, hu.0), (refl, tt), refl, (refl, hk.0), (refl, ha.0), refl)
  combinations_hold (some t) (some b) none default error p q hu ho hx hk ha hz =
      ((refl, hu.0), (refl, ho.0), (refl, hx.0, hx.1.0), (refl, hk.0), (refl, ha.0), (refl, hz.0))
  combinations_hold (some t) (some b) (some u) default error p q hu ho hx hk ha hz =
      ((refl, hu.0), (refl, ho.0), (refl, hx.0, hx.1.0), (refl, hk.0), (refl, ha.0), refl)

  unzip-UnzipEnsures : (o : Option (T × U)) → UnzipEnsures o (unzip o)
  unfolding UnzipEnsures unzip
  unzip-UnzipEnsures none = refl
  unzip-UnzipEnsures (some (t, u)) = refl

  transposed : (o : Option (Result T U)) → TransposeEnsures o (transpose o)
  unfolding TransposeEnsures transpose
  transposed none = refl
  transposed (some (ok t)) = refl
  transposed (some (err e)) = refl

  zip-unzip : (o : Option (T × U)) → (zip (unzip o).0 (unzip o).1).0 ≡ o
  unfolding zip unzip
  zip-unzip none = refl
  zip-unzip (some (t, u)) = refl

  -- `unzip`, `transpose`, `flatten` and, where the borrow that it drops is resolved, `copied` meet their
  -- postconditions on every nested option, and zipping what `unzip` returns gives the pairs back.
  pub nested_hold :
      (pairs : Option (T × U)) (results : Option (Result T U)) (options : Option (Option T))
      (borrows : Option (Borrow T))
      → Resolved ResolvedBorrow (copied borrows).1
      → UnzipEnsures pairs (unzip pairs)
        × TransposeEnsures results (transpose results)
        × FlattenEnsures options (flatten options)
        × CopiedEnsures borrows (copied borrows).0
        × ((zip (unzip pairs).0 (unzip pairs).1).0 ≡ pairs)
  nested_hold pairs results options borrows h = (
    unzip-UnzipEnsures pairs,
    transposed results,
    flattened options,
    copied-CopiedEnsures borrows h,
    zip-unzip pairs,
  )
