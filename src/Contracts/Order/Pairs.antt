-- ===== src/Contracts/Order/Pairs.antt =====
-- creusot-contracts/src/logic/ord.rs: the comparisons that are written out for pairs agree with
-- `cmp_log`.
use creusot.Prelude.{◌≡◌, ◌≢◌, ◌↔◌, ◌⊎◌, refl, inl, inr}
use creusot.Contracts.Order.{
  Ordering, less, equal, greater, IsOrd, cmp_pair, or_next, LePair, LtPair, GePair, GtPair, LeLog,
  LtLog, GeLog, GtLog,
}

module _ {A B : Type 0} (cmp_a : A → A → Ordering) (cmp_b : B → B → Ordering)
    (ha : IsOrd cmp_a) where
  -- A test of the second parts, where the first are equal, or of the first parts: `P` holds of the
  -- comparison if one of them does.
  by_parts :
      (P Q : Ordering → Type 0) (x y : A) (s r : Ordering)
      → cmp_a x y ≡ r
      → (Q less ↔ P less)
      → (Q equal → ⊥)
      → (Q greater ↔ P greater)
      → (((x ≡ y) × P s) ⊎ Q r) ↔ P (or_next r s)
  unfolding or_next
  by_parts P Q x y s less e l k g = (
    (λ c. elim c [ inl both ↦ absurd (cc ((ha.eq_cmp x y).0 both.0, e)) | inr q ↦ l.0 q ]),
    (λ p. inr (l.1 p)),
  )
  by_parts P Q x y s equal e l k g = (
    (λ c. elim c [ inl both ↦ both.1 | inr q ↦ absurd (k q) ]),
    (λ p. inl ((ha.eq_cmp x y).1 e, p)),
  )
  by_parts P Q x y s greater e l k g = (
    (λ c. elim c [ inl both ↦ absurd (cc ((ha.eq_cmp x y).0 both.0, e)) | inr q ↦ g.0 q ]),
    (λ p. inr (g.1 p)),
  )

  -- Where the first parts are totally ordered, `le_log`, `lt_log`, `ge_log` and `gt_log` of pairs hold
  -- exactly where the laws of the trait say that they do, by `cmp_log`.
  pub comparisons-cmp_pair :
      (x y : A × B)
      → (LePair cmp_a cmp_b x y ↔ (cmp_pair cmp_a cmp_b x y ≢ greater))
        × (LtPair cmp_a cmp_b x y ↔ (cmp_pair cmp_a cmp_b x y ≡ less))
        × (GePair cmp_a cmp_b x y ↔ (cmp_pair cmp_a cmp_b x y ≢ less))
        × (GtPair cmp_a cmp_b x y ↔ (cmp_pair cmp_a cmp_b x y ≡ greater))
  unfolding LePair LtPair GePair GtPair cmp_pair LeLog LtLog GeLog GtLog
  comparisons-cmp_pair x y = (
    by_parts (λ o. o ≢ greater) (λ o. o ≡ less) x.0 y.0 _ _ refl ((λ q e. cc e), (λ p. refl))
        (λ q. cc q) ((λ q. absurd (cc q)), (λ p. absurd (p refl))),
    by_parts (λ o. o ≡ less) (λ o. o ≡ less) x.0 y.0 _ _ refl ((λ q. q), (λ q. q)) (λ q. cc q)
        ((λ q. q), (λ q. q)),
    by_parts (λ o. o ≢ less) (λ o. o ≡ greater) x.0 y.0 _ _ refl
        ((λ q. absurd (cc q)), (λ p. absurd (p refl))) (λ q. cc q) ((λ q e. cc e), (λ p. refl)),
    by_parts (λ o. o ≡ greater) (λ o. o ≡ greater) x.0 y.0 _ _ refl ((λ q. q), (λ q. q)) (λ q. cc q)
        ((λ q. q), (λ q. q)),
  )
