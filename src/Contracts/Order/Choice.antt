-- ===== src/Contracts/Order/Choice.antt =====
-- creusot-contracts/src/std/cmp.rs: the comparisons, `max`, `min` and `clamp` meet their contracts.
-- `cmp` is a type's own comparison, and `deep_model` what a value stands for.
use creusot.Prelude.{true, false, ◌≡◌, ◌≢◌, ◌↔◌, ◌⊎◌, refl, Bool-cases, inl, inr}
use creusot.Contracts.Order.{
  Ordering, less, equal, greater, IsOrd, LeLog, LtLog, GeLog, GtLog, partial_cmp, lt, le, gt, ge,
  max, min, clamp, MaxEnsures, MinEnsures, ClampEnsures,
}

module _ {T D : Type 0} (cmp : T → T → Ordering) (cmp_log : D → D → Ordering) (deep_model : T → D)
    (met : (x y : T) → cmp x y ≡ cmp_log (deep_model x) (deep_model y)) where
  -- Where `cmp` agrees with the order of the models, `lt`, `le`, `gt` and `ge` decide the comparisons
  -- of the models.
  pub tests-cmp_log :
      (x y : T)
      → ((lt cmp x y ≡ true) ↔ LtLog cmp_log (deep_model x) (deep_model y))
        × ((le cmp x y ≡ true) ↔ LeLog cmp_log (deep_model x) (deep_model y))
        × ((gt cmp x y ≡ true) ↔ GtLog cmp_log (deep_model x) (deep_model y))
        × ((ge cmp x y ≡ true) ↔ GeLog cmp_log (deep_model x) (deep_model y))
  unfolding lt le gt ge LtLog LeLog GtLog GeLog partial_cmp
  tests-cmp_log x y = rw (← met x y) (go (cmp x y))
    where
      go :
          (r : Ordering)
          → (((elim r [ less ↦ true | equal ↦ false | greater ↦ false ]) ≡ true) ↔ (r ≡ less))
            × (((elim r [ less ↦ true | equal ↦ true | greater ↦ false ]) ≡ true) ↔ (r ≢ greater))
            × (((elim r [ less ↦ false | equal ↦ false | greater ↦ true ]) ≡ true) ↔ (r ≡ greater))
            × (((elim r [ less ↦ false | equal ↦ true | greater ↦ true ]) ≡ true) ↔ (r ≢ less))
      go less = (
        ((λ e. refl), (λ e. refl)),
        ((λ e q. cc q), (λ n. refl)),
        ((λ e. absurd (cc e)), (λ e. absurd (cc e))),
        ((λ e. absurd (cc e)), (λ n. absurd (n refl))),
      )
      go equal = (
        ((λ e. absurd (cc e)), (λ e. absurd (cc e))),
        ((λ e q. cc q), (λ n. refl)),
        ((λ e. absurd (cc e)), (λ e. absurd (cc e))),
        ((λ e q. cc q), (λ n. refl)),
      )
      go greater = (
        ((λ e. absurd (cc e)), (λ e. absurd (cc e))),
        ((λ e. absurd (cc e)), (λ n. absurd (n refl))),
        ((λ e. refl), (λ e. refl)),
        ((λ e q. cc q), (λ n. refl)),
      )

module _ {D : Type 0} (cmp_log : D → D → Ordering) (h : IsOrd cmp_log) where
  le_flip : (x y : D) → LeLog cmp_log x y → GeLog cmp_log y x
  unfolding LeLog GeLog
  le_flip x y n e = n (h.antisym1 y x e)

  ge_flip : (x y : D) → GeLog cmp_log x y → LeLog cmp_log y x
  unfolding LeLog GeLog
  ge_flip x y n e = n (h.antisym2 y x e)

  gt_flip : (x y : D) → GtLog cmp_log x y → LtLog cmp_log y x
  unfolding GtLog LtLog
  gt_flip x y e = h.antisym2 x y e

  lt-le : (x y : D) → LtLog cmp_log x y → LeLog cmp_log x y
  unfolding LtLog LeLog
  lt-le x y e n = cc (e, n)

  le_reflexive : (x : D) → LeLog cmp_log x x
  unfolding LeLog
  le_reflexive x n = cc (h.reflexive x, n)

  ge_reflexive : (x : D) → GeLog cmp_log x x
  unfolding GeLog
  ge_reflexive x n = cc (h.reflexive x, n)

  gt-ge : (x y : D) → GtLog cmp_log x y → GeLog cmp_log x y
  unfolding GtLog GeLog
  gt-ge x y e n = cc (e, n)

  -- A value is above another, or at most it.
  le_or_gt : (x y : D) → LeLog cmp_log x y ⊎ GtLog cmp_log x y
  unfolding LeLog GtLog
  le_or_gt x y = go (cmp_log x y)
    where
      go : (r : Ordering) → (r ≢ greater) ⊎ (r ≡ greater)
      go less = inl (λ e. cc e)
      go equal = inl (λ e. cc e)
      go greater = inr refl

module _ {T D : Type 0} (cmp : T → T → Ordering) (cmp_log : D → D → Ordering) (deep_model : T → D)
    (met : (x y : T) → cmp x y ≡ cmp_log (deep_model x) (deep_model y)) (h : IsOrd cmp_log) where
  above : (x y : T) → le cmp x y ≡ false → GtLog cmp_log (deep_model x) (deep_model y)
  above x y e = elim (le_or_gt cmp_log h (deep_model x) (deep_model y)) [
    | inl k ↦ absurd (cc ((tests-cmp_log cmp cmp_log deep_model met x y).1.1 k, e))
    | inr g ↦ g
  ]

  not_below : (x y : T) → lt cmp x y ≡ false → GeLog cmp_log (deep_model x) (deep_model y)
  unfolding GeLog LtLog
  not_below x y e k = cc ((tests-cmp_log cmp cmp_log deep_model met x y).0.1 k, e)

  not_above : (x y : T) → gt cmp x y ≡ false → LeLog cmp_log (deep_model x) (deep_model y)
  unfolding LeLog GtLog
  not_above x y e k = cc ((tests-cmp_log cmp cmp_log deep_model met x y).2.1 k, e)

  -- Where `cmp` agrees with a total order of the models, `max` and `min` return the larger and the
  -- smaller of two values, `max` the second and `min` the second too where their models are equal.
  pub max-min :
      (self o : T)
      → MaxEnsures cmp_log deep_model self o (max cmp self o)
        × MinEnsures cmp_log deep_model self o (min cmp self o)
  unfolding max MaxEnsures min MinEnsures
  max-min self o = (of_max, of_min)
    where
      of_max : MaxEnsures cmp_log deep_model self o (max cmp self o)
      of_max = elim (Bool-cases (le cmp self o)) [
        | inl e ↦
            let k = (tests-cmp_log cmp cmp_log deep_model met self o).1.0 e in
            rw (e, max, MaxEnsures)
              (le_flip cmp_log h _ _ k, ge_reflexive cmp_log h _, inl (k, refl))
        | inr e ↦
            let k = above self o e in
            rw (e, max, MaxEnsures)
              (ge_reflexive cmp_log h _, gt-ge cmp_log h _ _ k, inr (gt_flip cmp_log h _ _ k, refl))
      ]

      of_min : MinEnsures cmp_log deep_model self o (min cmp self o)
      of_min = elim (Bool-cases (lt cmp self o)) [
        | inl e ↦
            let k = (tests-cmp_log cmp cmp_log deep_model met self o).0.0 e in
            rw (e, min, MinEnsures) (le_reflexive cmp_log h _, lt-le cmp_log h _ _ k, inl (k, refl))
        | inr e ↦
            let k = ge_flip cmp_log h _ _ (not_below self o e) in
            rw (e, min, MinEnsures) (k, le_reflexive cmp_log h _, inr (k, refl))
      ]

  -- Where `cmp` agrees with a total order of the models, and the lower bound is at most the upper one,
  -- `clamp` returns the nearest value between the bounds.
  pub clamp-ClampEnsures :
      (self low high : T)
      → LeLog cmp_log (deep_model low) (deep_model high)
      → ClampEnsures cmp_log deep_model self low high (clamp cmp self low high)
  unfolding clamp ClampEnsures
  clamp-ClampEnsures self low high ordered = elim (Bool-cases (gt cmp self high)) [
    | inl e ↦
        let k = (tests-cmp_log cmp cmp_log deep_model met self high).2.0 e in
        rw (e, clamp, ClampEnsures)
          (le_flip cmp_log h _ _ ordered, le_reflexive cmp_log h _, inl (k, refl))
    | inr e ↦
        let k = not_above self high e in
        elim (Bool-cases (lt cmp self low)) [
          | inl f ↦
              let l = (tests-cmp_log cmp cmp_log deep_model met self low).0.0 f in
              rw (e, f, clamp, ClampEnsures)
                (ge_reflexive cmp_log h _, ordered, inr (k, inl (l, refl)))
          | inr f ↦
              let l = not_below self low f in
              rw (e, f, clamp, ClampEnsures) (l, k, inr (k, inr (l, refl)))
        ]
  ]
