-- ===== src/Contracts/Option/Iter.antt =====
-- creusot-contracts/src/std/option.rs: what the iterators of an option produce. An iterator is of any
-- type, with the option that it stands for as its view; a sequence is a list.
use creusot.Prelude.{
  List, [], ◌∷◌, ◌++◌, Option, none, some, ◌≡◌, ◌⊎◌, refl, sym, ap, ◌∙◌, inl, inr,
}

module _ {I T : Type 0} (view : I → Option T) where
  -- Nothing, or the one element that is left.
  unfoldable pub Produces : I → List T → I → Type 0
  Produces self visited o =
      ((visited ≡ []) × (self ≡ o))
      ⊎ ((e : T) × (view self ≡ some e) × (visited ≡ e ∷ []) × (view o ≡ none))

  -- An iterator produces the empty sequence and stays; and what it produces in two steps it produces
  -- in one, joined.
  pub append-Produces :
      (self a b c : I) (ab bc : List T)
      → Produces a ab b
      → Produces b bc c
      → Produces self [] self × Produces a (ab ++ bc) c
  unfolding Produces
  append-Produces self a b c ab bc h k = (inl (refl, refl), joined h k)
    where
      joined : Produces a ab b → Produces b bc c → Produces a (ab ++ bc) c
      joined (inl (e, p)) (inl (f, q)) = inl (rw (e, f) refl, p ∙ q)
      joined (inl (e, p)) (inr (x, v, f, w)) = inr (x, ap view p ∙ v, rw (e, f) refl, w)
      joined (inr (x, v, e, w)) (inl (f, q)) = inr (x, v, rw (e, f) refl, ap view (sym q) ∙ w)
      joined (inr (x, v, e, w)) (inr (y, v', f, w')) = absurd (cc (w, v'))
