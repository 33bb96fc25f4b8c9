-- ===== src/Prelude/Texts.antt =====
-- Equality of texts, and finite sets of texts as lists.
use Prim.Native.Nat.{◌<◌, ◌≤◌}
use mathlib.Core.Path.{◌≡◌, refl}
use mathlib.Core.Logic.{◌≢◌, ◌↔◌}
use mathlib.Core.Bool.{Bool, true, false, ◌&&◌, ◌||◌}
use mathlib.Core.List.{List, [], ◌∷◌}
use native.Mathlib.Omega.{arith}
use creusot.Prelude.Tests.{◌==◌, if◌then◌else◌}
use creusot.Prelude.Lists.{length}
use creusot.Prelude.Decimal.{Text}

unfoldable pub text_eq : Text → Text → Bool
text_eq [] [] = true
text_eq [] (d ∷ t) = false
text_eq (c ∷ s) [] = false
text_eq (c ∷ s) (d ∷ t) = c == d && text_eq s t

pub text_eq_iff : (s t : Text) → (text_eq s t ≡ true) ↔ (s ≡ t)
unfolding text_eq
text_eq_iff [] [] = ground arith
text_eq_iff [] (d ∷ t) = ground arith
text_eq_iff (c ∷ s) [] = ground arith
text_eq_iff (c ∷ s) (d ∷ t) = ground (arith, text_eq_iff s t)

pub text_eq_self : (s : Text) → text_eq s s ≡ true
text_eq_self s = (text_eq_iff s s).1 refl

-- `HashSet::contains`, `insert` of a new item is `∷`, and `remove`.
unfoldable pub contains : List Text → Text → Bool
contains [] s = false
contains (t ∷ ts) s = text_eq t s || contains ts s

unfoldable pub remove : List Text → Text → List Text
remove [] s = []
remove (t ∷ ts) s = if text_eq t s then remove ts s else t ∷ remove ts s

pub remove_absent : (ts : List Text) (s : Text) → contains ts s ≡ false → remove ts s ≡ ts
unfolding contains remove
remove_absent [] s h = refl
remove_absent (t ∷ ts) s h = ground (arith, remove_absent ts s)

pub contains-remove :
    (ts : List Text) (s u : Text) → s ≢ u → contains (remove ts s) u ≡ contains ts u
unfolding contains remove
contains-remove [] s u h = refl
contains-remove (t ∷ ts) s u h =
    ground (arith, contains-remove ts s u, text_eq_iff t s, text_eq_iff t u)

pub length-remove-le : (ts : List Text) (s : Text) → length (remove ts s) ≤ length ts
unfolding remove
length-remove-le [] s = omega arith
length-remove-le (t ∷ ts) s = ground (arith, length-remove-le ts s)

pub length-remove :
    (ts : List Text) (s : Text) → contains ts s ≡ true → length (remove ts s) < length ts
unfolding contains remove
length-remove [] s h = cc
length-remove (t ∷ ts) s h = ground (arith, length-remove ts s, length-remove-le ts s)
