-- ===== src/Naming/Path/Join.antt =====
-- creusot/src/naming.rs: `why3_ident` keeps the parts of a path apart.
use mathlib.Core.List.{head-eq_of_cons-eq, tail-eq_of_cons-eq}
use creusot.Prelude.{List, [], ◌∷◌, ◌++◌, ◌≡◌, refl, sym, ap₂, ◌∙◌, arith, All, append_assoc}
use creusot.Prelude.Decimal.{Text, codes}
use creusot.Naming.Shape.{IsFragment, IsSpaced}
use creusot.Naming.Path.{ModulePath, why3_ident, why3_ident_loop}

-- What stands behind `M_`.
body : List Text → Text → Text
body [] base = base
body (m ∷ ms) base = m ++ b'_' ∷ b'_' ∷ body ms base

why3_ident_loop-body :
    (ms : List Text) (path base : Text) → why3_ident_loop ms path ++ base ≡ path ++ body ms base
unfolding why3_ident_loop body
why3_ident_loop-body [] path base = refl
why3_ident_loop-body (m ∷ ms) path base = simp (why3_ident_loop-body ms, append_assoc)

-- Two underscores in a row do not stand in a fragment.
not_IsSpaced : (s r : Text) → IsSpaced (s ++ b'_' ∷ b'_' ∷ r) → ⊥
not_IsSpaced [] r h = cc
not_IsSpaced (c ∷ s) r h = not_IsSpaced s r h.1

-- The first two underscores in a row end the first part.
first_part :
    (s t a b : Text)
    → IsSpaced s
    → IsSpaced t
    → s ++ b'_' ∷ b'_' ∷ a ≡ t ++ b'_' ∷ b'_' ∷ b
    → (s ≡ t) × (a ≡ b)
first_part [] [] a b hs ht e = (refl, tail-eq_of_cons-eq (tail-eq_of_cons-eq e))
first_part [] (c ∷ []) a b hs ht e = absurd (ground arith)
first_part [] (c ∷ d ∷ t) a b hs ht e = absurd (ground arith)
first_part (c ∷ []) [] a b hs ht e = absurd (ground arith)
first_part (c ∷ d ∷ s) [] a b hs ht e = absurd (ground arith)
first_part (c ∷ s) (d ∷ t) a b hs ht e =
    let (p, q) = first_part s t a b hs.1 ht.1 (tail-eq_of_cons-eq e) in
    (ap₂ (λ x xs. x ∷ xs) (head-eq_of_cons-eq e) p, q)

body-injective :
    (ms ns : List Text) (a b : Text)
    → All IsFragment ms
    → All IsFragment ns
    → IsSpaced a
    → IsSpaced b
    → body ms a ≡ body ns b
    → (ms ≡ ns) × (a ≡ b)
unfolding body
body-injective [] [] a b hm hn ha hb e = (refl, e)
body-injective [] (n ∷ ns) a b hm hn ha hb e = absurd (not_IsSpaced n (body ns b) (rw (← e) ha))
body-injective (m ∷ ms) [] a b hm hn ha hb e = absurd (not_IsSpaced m (body ms a) (rw e hb))
body-injective (m ∷ ms) (n ∷ ns) a b hm hn ha hb e =
    let (p, q) = first_part m n (body ms a) (body ns b) hm.0.spaced hn.0.spaced e in
    let (r, s) = body-injective ms ns a b hm.1 hn.1 ha hb q in (ap₂ (λ x xs. x ∷ xs) p r, s)

-- Every part of the path and the base name are fragments.
pub record IsWritten (m : ModulePath) : Type 0 where
  pub parts : All IsFragment m.path
  pub base : IsFragment m.basename

-- Module paths of fragments with one Why3 name have the same parts and the same base name.
pub why3_ident-injective :
    (m n : ModulePath) → IsWritten m → IsWritten n → why3_ident m ≡ why3_ident n → m ≡ n
unfolding why3_ident
why3_ident-injective m n hm hn e =
    let e' =
      sym (why3_ident_loop-body m.path (codes "M_") m.basename)
      ∙ e
      ∙ why3_ident_loop-body n.path (codes "M_") n.basename in
    let (p, q) =
      body-injective m.path n.path m.basename n.basename hm.parts hn.parts hm.base.spaced
        hn.base.spaced (tail-eq_of_cons-eq (tail-eq_of_cons-eq e')) in
    λ i. record { path = p i; basename = q i }
