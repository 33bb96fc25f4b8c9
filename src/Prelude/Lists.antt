-- ===== src/Prelude/Lists.antt =====
-- Lists over the native numbers, under the library's names, and predicates by recursion.
use Prim.Native.Nat.{ℕ, zero, suc, ◌+◌, ◌≤◌}
use mathlib.Core.Path.{◌≡◌, refl}
use mathlib.Core.List.{List, [], ◌∷◌, ◌++◌, map}
use mathlib.Core.Option.{Option, none, some}
use native.Mathlib.Omega.{arith}

module _ {ℓ} {A : Type ℓ} where
  abbrev pub length : List A → ℕ
  length [] = 0
  length (x ∷ xs) = suc (length xs)

  abbrev pub head? : List A → Option A
  head? [] = none
  head? (x ∷ xs) = some x

  -- `slice.split_at(n)`; `none` is its panic.
  unfoldable pub split_at : ℕ → List A → Option (List A × List A)
  split_at zero xs = some ([], xs)
  split_at (suc n) [] = none
  split_at (suc n) (x ∷ xs) = elim (split_at n xs) [
    | none ↦ none
    | some parts ↦ some (x ∷ parts.0, parts.1)
  ]

  pub split_at-IsSome :
      (n : ℕ) (xs : List A)
      → n ≤ length xs
      → (parts : List A × List A) × (split_at n xs ≡ some parts)
  unfolding split_at
  split_at-IsSome zero xs h = (([], xs), refl)
  split_at-IsSome (suc n) [] h = absurd (omega (arith, h))
  split_at-IsSome (suc n) (x ∷ xs) h =
      let (parts, e) = split_at-IsSome n xs (omega (arith, h)) in
      ((x ∷ parts.0, parts.1), rw (e, split_at) refl)

  pub length-append : (xs ys : List A) → length (xs ++ ys) ≡ length xs + length ys
  length-append [] ys = omega arith
  length-append (x ∷ xs) ys = omega (arith, length-append xs ys)

module _ {ℓ κ} {A : Type ℓ} {B : Type κ} where
  pub length-map : (f : A → B) (xs : List A) → length (map f xs) ≡ length xs
  length-map f [] = refl
  length-map f (x ∷ xs) = omega (arith, length-map f xs)

module _ {ℓ κ} {A : Type ℓ} (P : A → Type κ) where
  -- Every item satisfies `P`: a tuple, which the tactics read and build.
  abbrev pub All : List A → Type κ
  All [] = Unit
  All (x ∷ xs) = P x × All xs

  pub All-append : (xs ys : List A) → All xs → All ys → All (xs ++ ys)
  All-append [] ys _ hy = hy
  All-append (x ∷ xs) ys (px, hx) hy = (px, All-append xs ys hx hy)

  pub All-front : (xs ys : List A) → All (xs ++ ys) → All xs
  All-front [] ys h = tt
  All-front (x ∷ xs) ys h = (h.0, All-front xs ys h.1)

  pub All-back : (xs ys : List A) → All (xs ++ ys) → All ys
  All-back [] ys h = h
  All-back (x ∷ xs) ys h = All-back xs ys h.1
