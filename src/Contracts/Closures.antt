-- ===== src/Contracts/Closures.antt =====
-- creusot-contracts/src/std/ops.rs: what the contracts speak about. A closure is a parameter: its
-- conditions, what it computes, and that a call under the precondition meets the postcondition.
use creusot.Prelude.{◌≡◌}

-- `FnOnce(A) -> B`.
pub record FnOnce (A B : Type 0) : Type 1 where
  pub precondition : A → Type 0
  pub postcondition_once : A → B → Type 0
  pub call : A → B
  pub met : (a : A) → precondition a → postcondition_once a (call a)

-- `&mut T`: the value now, `*b`, and the value when the borrow ends, `^b`.
pub record Borrow (T : Type 0) : Type 0 where
  pub current : T
  pub final : T

-- `invariant` of a mutable borrow.
abbrev pub BorrowInv : {T : Type 0} → (T → Type 0) → Borrow T → Type 0
BorrowInv inv b = inv b.current × inv b.final

-- `FnOnce(&mut T) -> B`: a call returns a result and leaves a value in the borrow. It is made with a
-- value that has the invariant of its type, `inv`, and leaves one.
pub record FnOnceMut {T : Type 0} (inv : T → Type 0) (B : Type 0) : Type 1 where
  pub precondition : Borrow T → Type 0
  pub postcondition_once : Borrow T → B → Type 0
  pub call : T → B × T
  pub met :
      (t : T)
      → inv t
      → ((b : Borrow T) → BorrowInv inv b → b.current ≡ t → precondition b)
      → inv (call t).1 × postcondition_once (record { current = t; final = (call t).1 }) (call t).0

-- `Result<T, E>`.
pub data Result (T E : Type 0) : Type 0 where
  ok : T → Result T E
  err : E → Result T E

-- A call returns or panics.
pub data Outcome (T : Type 0) : Type 0 where
  returned : T → Outcome T
  panicked : Outcome T
