-- ===== src/Contracts/Option/Called.antt =====
-- creusot-contracts/src/std/option.rs: the functions that call a closure meet their contracts.
use creusot.Prelude.{Bool, [], ◌∷◌, Option, none, some, ◌≡◌, refl, Bool-cases, inl, inr}
use mathlib.Core.Path.{subst}
use creusot.Contracts.Closures.{FnOnce}
use creusot.Contracts.Effects.{Resolved, calls, call_ref, drop_value}
use creusot.Contracts.Option.{
  is_some_and, as_slice, map, map_or, map_or_else, and_then, inspect, filter, unwrap_or_else,
  unwrap_or_default, or_else, ok_or_else,
}
use creusot.Contracts.Option.Specs.{
  OnSome, OnNone, IsSomeAndEnsures, MapEnsures, MapOrEnsures, MapOrElseEnsures, AndThenEnsures,
  InspectEnsures, FilterEnsures, FilterSome, UnwrapOrElseEnsures, OrElseEnsures, OkOrElseEnsures,
}

module _ {T : Type 0} where
  -- The value is dropped exactly if the closure returns false.
  filtered :
      (resolve : T → Type 0) (t : T) (p : FnOnce T Bool)
      → p.precondition t
      → Resolved resolve (filter (some t) p).1
      → FilterSome resolve t p (filter (some t) p).0 × (calls (filter (some t) p).1 ≡ t ∷ [])
  unfolding FilterSome filter call_ref drop_value calls Resolved
  filtered resolve t p h = elim (Bool-cases (p.call t)) [
    | inl e ↦ rw e (λ r. ((subst (p.postcondition_once t) e (p.met t h), refl), refl))
    | inr e ↦ rw e (λ r. ((subst (p.postcondition_once t) e (p.met t h), r.0), refl))
  ]

module _ {T U : Type 0} where
  -- Where the closures may be called on the value, if there is one, and what `filter` drops is resolved,
  -- `is_some_and`, `filter`, `map`, `map_or`, `and_then` and `inspect` meet their postconditions, and
  -- `filter` and `inspect` call their closure once, on the value, if there is one.
  pub called_on_value :
      (self : Option T) (p : FnOnce T Bool) (f : FnOnce T U) (g : FnOnce T (Option U))
      (i : FnOnce T Unit) (default : U) (resolve : T → Type 0)
      → OnSome self p
      → OnSome self f
      → OnSome self g
      → OnSome self i
      → Resolved resolve (filter self p).1
      → IsSomeAndEnsures self p (is_some_and self p)
        × FilterEnsures resolve self p (filter self p).0
        × MapEnsures self f (map self f)
        × MapOrEnsures self default f (map_or self default f)
        × AndThenEnsures self g (and_then self g)
        × InspectEnsures self i (inspect self i).0
        × (calls (filter self p).1 ≡ as_slice self)
        × (calls (inspect self i).1 ≡ as_slice self)
  unfolding OnSome IsSomeAndEnsures is_some_and FilterEnsures MapEnsures map MapOrEnsures map_or
      AndThenEnsures and_then InspectEnsures inspect calls call_ref as_slice
  called_on_value none p f g i default resolve hp hf hg hi hr =
      (refl, unfold filter in refl, refl, refl, refl, refl, unfold filter in refl, refl)
  called_on_value (some t) p f g i default resolve hp hf hg hi hr =
      let (kept, called_once) = filtered resolve t p hp hr in
      (
        p.met t hp,
        kept,
        (f.call t, refl, f.met t hf),
        f.met t hf,
        g.met t hg,
        (refl, i.met t hi),
        called_once,
        refl,
      )

  -- Where the closures that stand in for a missing value may be called if it is missing, and the one
  -- of `map_or_else` on the value if there is one, `unwrap_or_else`, `unwrap_or_default`, `or_else`,
  -- `ok_or_else` and `map_or_else` meet their postconditions.
  pub called_instead :
      (self : Option T) (f : FnOnce Unit T) (g : FnOnce Unit (Option T)) (d : FnOnce Unit U)
      (h : FnOnce T U)
      → OnNone self f
      → OnNone self g
      → OnNone self d
      → OnSome self h
      → UnwrapOrElseEnsures self f (unwrap_or_else self f)
        × UnwrapOrElseEnsures self f (unwrap_or_default self f)
        × OrElseEnsures self g (or_else self g)
        × OkOrElseEnsures self d (ok_or_else self d)
        × MapOrElseEnsures self d h (map_or_else self d h)
  unfolding OnSome OnNone UnwrapOrElseEnsures unwrap_or_else unwrap_or_default OrElseEnsures or_else
      OkOrElseEnsures ok_or_else MapOrElseEnsures map_or_else
  called_instead none f g d h hf hg hd hh =
      (f.met tt hf, f.met tt hf, g.met tt hg, (d.call tt, refl, d.met tt hd), d.met tt hd)
  called_instead (some t) f g d h hf hg hd hh = (refl, refl, refl, refl, h.met t hh)
