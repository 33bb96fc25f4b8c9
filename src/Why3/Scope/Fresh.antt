-- ===== src/Why3/Scope/Fresh.antt =====
-- why3/src/printer.rs: the loop of `Scope::bind` finds a symbol that is not bound and no keyword.
use mathlib.Core.List.{append_cancel_left, tail-eq_of_cons-eq}
use creusot.Prelude.{
  ℕ, zero, suc, ◌<◌, ◌≤◌, true, false, List, ◌∷◌, ◌++◌, some, ◌≡◌, refl, ap, ◌∙◌, length,
  length-append, arith, Bool-cases, inl, inr,
}
use creusot.Prelude.Decimal.{Text, decimal, decimal-injective}
use creusot.Prelude.Texts.{contains, remove, contains-remove, length-remove}
use creusot.Why3.Name.{is_reserved, to_identifier}
use creusot.Why3.Name.Laws.{has_char, has_char-append, is_reserved_of_quote, to_identifier_lem}
use creusot.Why3.Scope.{candidate, find_symbol}

-- Different rounds try different symbols.
pub candidate-injective : (name : Text) (i j : ℕ) → candidate name i ≡ candidate name j → i ≡ j
unfolding candidate
candidate-injective name zero zero e = refl
candidate-injective name zero (suc j) e =
    omega (arith, ap length e, length-append name (b'\'' ∷ decimal j))
candidate-injective name (suc i) zero e =
    omega (arith, ap length e, length-append name (b'\'' ∷ decimal i))
candidate-injective name (suc i) (suc j) e =
    ap suc (decimal-injective i j (tail-eq_of_cons-eq (append_cancel_left name _ _ e)))

find_symbol_free :
    (f : ℕ) (bound : List Text) (name : Text) (i : ℕ)
    → contains bound (candidate name i) ≡ false
    → find_symbol (suc f) bound name i (candidate name i) ≡ some (candidate name i)
unfolding find_symbol
find_symbol_free f bound name i e = rw (e, find_symbol)

find_symbol_taken :
    (f : ℕ) (bound : List Text) (name : Text) (i : ℕ)
    → contains bound (candidate name i) ≡ true
    → find_symbol (suc f) bound name i (candidate name i)
      ≡ find_symbol f bound name (suc i) (candidate name (suc i))
unfolding find_symbol
find_symbol_taken f bound name i e = rw (e, find_symbol) (unfold candidate in refl)

-- `left` holds the bound candidates that rounds from `i` on can still meet.
find_symbol-total :
    (f : ℕ) (bound left : List Text) (name : Text) (i : ℕ)
    → length left < f
    → ((j : ℕ) → i ≤ j → contains left (candidate name j) ≡ contains bound (candidate name j))
    → (found : Text) × (find_symbol f bound name i (candidate name i) ≡ some found)
      × (contains bound found ≡ false)
      × ((k : ℕ) × (found ≡ candidate name k))
find_symbol-total zero bound left name i h k = absurd (omega arith)
find_symbol-total (suc f) bound left name i h k =
    elim (Bool-cases (contains bound (candidate name i))) [
      | inr free ↦ (candidate name i, find_symbol_free f bound name i free, free, (i, refl))
      | inl taken ↦
          let (found, run, fresh, which) =
            find_symbol-total f bound (remove left (candidate name i)) name (suc i)
              (omega (arith, length-remove left (candidate name i) (k i (omega arith) ∙ taken)))
              (λ j hj.
                contains-remove left (candidate name i) (candidate name j)
                  (λ e. absurd (omega (arith, candidate-injective name i j e)))
                ∙ k j (omega arith)) in
          (found, find_symbol_taken f bound name i taken ∙ run, fresh, which)
    ]

candidate-is_reserved :
    (name : Text) (k : ℕ) → is_reserved name ≡ false → is_reserved (candidate name k) ≡ false
unfolding candidate
candidate-is_reserved name zero h = h
candidate-is_reserved name (suc k) h =
    is_reserved_of_quote (name ++ b'\'' ∷ decimal k)
      (rw (has_char-append b'\'' name (b'\'' ∷ decimal k)) (unfold has_char in ground arith))

-- With one round more than there are bound symbols, the loop of `bind` finds a symbol for every
-- name: one that is not bound and is no Why3 keyword.
pub find_symbol_lem :
    (bound : List Text) (name : Text)
    → (found : Text) × (find_symbol
          (suc (length bound))
          bound
          (to_identifier name)
          0
          (to_identifier name)
        ≡ some found)
      × (contains bound found ≡ false)
      × (is_reserved found ≡ false)
find_symbol_lem bound name =
    let (found, run, fresh, which) =
      find_symbol-total (suc (length bound)) bound bound (to_identifier name) 0 (omega arith)
        (λ j h. refl) in
    (
      found,
      (unfold candidate in run),
      fresh,
      rw which.1 (candidate-is_reserved (to_identifier name) which.0 (to_identifier_lem name)),
    )
