-- ===== src/Contracts/Order.antt =====
-- creusot-contracts/src/logic/ord.rs and creusot-contracts/src/std/cmp.rs: comparisons and their laws.
pub mod Total
pub mod Choice
pub mod Pairs
use creusot.Prelude.{
  ℕ, Bool, true, false, ◌&&◌, ◌||◌, Option, none, some, ◌≡◌, ◌≢◌, ◌↔◌, ◌⊎◌, ltb, ◌==◌,
  if◌then◌else◌,
}
use creusot.Why3.Types.{ℤ, pos, negsuc}

pub data Ordering : Type 0 where
  less equal greater : Ordering

-- The laws of the trait `OrdLogic` that are about `cmp_log` alone. The other four, `cmp_le_log` and so on,
-- equate the methods that the trait defines by `cmp_log` with their definitions below.
pub record IsOrd {T : Type 0} (cmp_log : T → T → Ordering) : Type 0 where
  pub reflexive : (x : T) → cmp_log x x ≡ equal
  pub trans : (x y z : T) (o : Ordering) → cmp_log x y ≡ o → cmp_log y z ≡ o → cmp_log x z ≡ o
  pub antisym1 : (x y : T) → cmp_log x y ≡ less → cmp_log y x ≡ greater
  pub antisym2 : (x y : T) → cmp_log x y ≡ greater → cmp_log y x ≡ less
  pub eq_cmp : (x y : T) → (x ≡ y) ↔ (cmp_log x y ≡ equal)

-- The `match` of `Reverse`.
unfoldable pub opposite : Ordering → Ordering
opposite equal = equal
opposite less = greater
opposite greater = less

-- The comparisons that the trait defines by `cmp_log`.
module _ {T : Type 0} (cmp_log : T → T → Ordering) where
  unfoldable pub LeLog : T → T → Type 0
  LeLog self o = cmp_log self o ≢ greater

  unfoldable pub LtLog : T → T → Type 0
  LtLog self o = cmp_log self o ≡ less

  unfoldable pub GeLog : T → T → Type 0
  GeLog self o = cmp_log self o ≢ less

  unfoldable pub GtLog : T → T → Type 0
  GtLog self o = cmp_log self o ≡ greater

  -- `Reverse<T>`
  unfoldable pub cmp_reverse : T → T → Ordering
  cmp_reverse self o = opposite (cmp_log self o)

  unfoldable pub cmp_option : Option T → Option T → Ordering
  cmp_option none none = equal
  cmp_option none (some _) = less
  cmp_option (some _) none = greater
  cmp_option (some x) (some y) = cmp_log x y

  -- `PartialOrd`, where `partial_cmp` returns `Some` of the comparison.
  unfoldable pub partial_cmp : T → T → Option Ordering
  partial_cmp self rhs = some (cmp_log self rhs)

  unfoldable pub lt : T → T → Bool
  lt self other = elim (partial_cmp self other) [
    | none ↦ false
    | some o ↦ elim o [ less ↦ true | equal ↦ false | greater ↦ false ]
  ]

  unfoldable pub le : T → T → Bool
  le self other = elim (partial_cmp self other) [
    | none ↦ false
    | some o ↦ elim o [ less ↦ true | equal ↦ true | greater ↦ false ]
  ]

  unfoldable pub gt : T → T → Bool
  gt self other = elim (partial_cmp self other) [
    | none ↦ false
    | some o ↦ elim o [ less ↦ false | equal ↦ false | greater ↦ true ]
  ]

  unfoldable pub ge : T → T → Bool
  ge self other = elim (partial_cmp self other) [
    | none ↦ false
    | some o ↦ elim o [ less ↦ false | equal ↦ true | greater ↦ true ]
  ]

  -- `Ord`
  unfoldable pub max : T → T → T
  max self o = if le self o then o else self

  unfoldable pub min : T → T → T
  min self o = if lt self o then self else o

  unfoldable pub clamp : T → T → T → T
  clamp self low high = if gt self high then high else if lt self low then low else self

-- `if r == Ordering::Equal { s } else { r }`
unfoldable pub or_next : Ordering → Ordering → Ordering
or_next less s = less
or_next equal s = s
or_next greater s = greater

module _ {A B : Type 0} (cmp_a : A → A → Ordering) (cmp_b : B → B → Ordering) where
  unfoldable pub cmp_pair : A × B → A × B → Ordering
  cmp_pair self o = or_next (cmp_a self.0 o.0) (cmp_b self.1 o.1)

  unfoldable pub LePair : A × B → A × B → Type 0
  LePair self o = ((self.0 ≡ o.0) × LeLog cmp_b self.1 o.1) ⊎ LtLog cmp_a self.0 o.0

  unfoldable pub LtPair : A × B → A × B → Type 0
  LtPair self o = ((self.0 ≡ o.0) × LtLog cmp_b self.1 o.1) ⊎ LtLog cmp_a self.0 o.0

  unfoldable pub GePair : A × B → A × B → Type 0
  GePair self o = ((self.0 ≡ o.0) × GeLog cmp_b self.1 o.1) ⊎ GtLog cmp_a self.0 o.0

  unfoldable pub GtPair : A × B → A × B → Type 0
  GtPair self o = ((self.0 ≡ o.0) × GtLog cmp_b self.1 o.1) ⊎ GtLog cmp_a self.0 o.0

-- `<` and `==` on `Int`.
abbrev pub int_lt : ℤ → ℤ → Bool
int_lt (pos a) (pos b) = ltb a b
int_lt (pos a) (negsuc b) = false
int_lt (negsuc a) (pos b) = true
int_lt (negsuc a) (negsuc b) = ltb b a

abbrev pub int_eq : ℤ → ℤ → Bool
int_eq (pos a) (pos b) = a == b
int_eq (pos a) (negsuc b) = false
int_eq (negsuc a) (pos b) = false
int_eq (negsuc a) (negsuc b) = a == b

unfoldable pub cmp_int : ℤ → ℤ → Ordering
cmp_int self o = if int_lt self o then less else if int_eq self o then equal else greater

-- The postconditions of `max`, `min` and `clamp`, where `deep_model` is what a value stands for.
module _ {T D : Type 0} (cmp_log : D → D → Ordering) (deep_model : T → D) where
  unfoldable pub MaxEnsures : T → T → T → Type 0
  MaxEnsures self o result =
      GeLog cmp_log (deep_model result) (deep_model self)
      × GeLog cmp_log (deep_model result) (deep_model o)
      × ((LeLog cmp_log (deep_model self) (deep_model o) × (result ≡ o))
          ⊎ (LtLog cmp_log (deep_model o) (deep_model self) × (result ≡ self)))

  unfoldable pub MinEnsures : T → T → T → Type 0
  MinEnsures self o result =
      LeLog cmp_log (deep_model result) (deep_model self)
      × LeLog cmp_log (deep_model result) (deep_model o)
      × ((LtLog cmp_log (deep_model self) (deep_model o) × (result ≡ self))
          ⊎ (LeLog cmp_log (deep_model o) (deep_model self) × (result ≡ o)))

  unfoldable pub ClampEnsures : T → T → T → T → Type 0
  ClampEnsures self low high result =
      GeLog cmp_log (deep_model result) (deep_model low)
      × LeLog cmp_log (deep_model result) (deep_model high)
      × ((GtLog cmp_log (deep_model self) (deep_model high) × (result ≡ high))
          ⊎ (LeLog cmp_log (deep_model self) (deep_model high)
              × ((LtLog cmp_log (deep_model self) (deep_model low) × (result ≡ low))
                  ⊎ (GeLog cmp_log (deep_model self) (deep_model low) × (result ≡ self)))))
