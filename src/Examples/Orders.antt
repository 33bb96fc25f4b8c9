-- ===== src/Examples/Orders.antt =====
-- creusot-contracts/src/logic/ord.rs and creusot-contracts/src/std/cmp.rs: comparisons of integers.
use creusot.Prelude.{refl}
use creusot.Why3.Types.{ℤ, pos, negsuc}
use creusot.Contracts.Order.{
  IsOrd, cmp_pair, cmp_int, LeLog, max, min, clamp, MaxEnsures, MinEnsures, ClampEnsures,
}
use creusot.Contracts.Order.Total.{cmp_pair-IsOrd, cmp_int-IsOrd}
use creusot.Contracts.Order.Choice.{max-min, clamp-ClampEnsures}

abbrev same : ℤ → ℤ
same n = n

cmp_pair-IsOrd_example : IsOrd (cmp_pair cmp_int cmp_int)
cmp_pair-IsOrd_example = cmp_pair-IsOrd cmp_int cmp_int cmp_int-IsOrd cmp_int-IsOrd

max-min_example :
    MaxEnsures cmp_int same (pos 1) (negsuc 0) (max cmp_int (pos 1) (negsuc 0))
    × MinEnsures cmp_int same (pos 1) (negsuc 0) (min cmp_int (pos 1) (negsuc 0))
max-min_example = max-min cmp_int cmp_int same (λ x y. refl) cmp_int-IsOrd (pos 1) (negsuc 0)

bounds_ordered : LeLog cmp_int (pos 2) (pos 5)
unfolding LeLog cmp_int
bounds_ordered e = cc e

clamp-ClampEnsures_example :
    ClampEnsures cmp_int same (pos 9) (pos 2) (pos 5) (clamp cmp_int (pos 9) (pos 2) (pos 5))
clamp-ClampEnsures_example =
    clamp-ClampEnsures cmp_int cmp_int same (λ x y. refl) cmp_int-IsOrd (pos 9) (pos 2) (pos 5)
      bounds_ordered
