-- ===== src/Why3/Exp/Precedence/Rotation.antt =====
-- why3/src/exp.rs: the rotation of `reassociate` does not panic and keeps the meaning.
use creusot.Prelude.{
  ℕ, zero, suc, ◌+◌, ◌⊎◌, List, [], ◌∷◌, true, Option, none, some, ◌≡◌, refl, sym, ap, ◌∙◌,
  Bool-cases, inl, inr, ◌==◌, ==_iff,
}
use mathlib.Core.Path.{subst}
use creusot.Why3.Name.{Ident}
use creusot.Why3.Exp.{Exp, BinOp, binary_op}
use creusot.Why3.Exp.Semantics.{Meaning, eval}
use creusot.Why3.Exp.Precedence.{
  op_precedence, associative, associativity, op_index, rotate_left, rotate_right, reorder, leftward,
  rightward, AssocDir, Precedence, next, rank, if_let, attribute, cast, implication, disj, conj,
  negation, infix1, infix2, infix3, infix4, prefix_op, abs, app, projection, brackets, atom,
  bang_op,
}

-- The operators by their places.
abbrev op_list : List BinOp
op_list =
    BinOp.log_and ∷ BinOp.log_or ∷ BinOp.lazy_and ∷ BinOp.lazy_or ∷ BinOp.bit_and ∷ BinOp.bit_or
    ∷ BinOp.bit_xor ∷ BinOp.shl ∷ BinOp.shr ∷ BinOp.add ∷ BinOp.float_add ∷ BinOp.sub
    ∷ BinOp.float_sub ∷ BinOp.mul ∷ BinOp.float_mul ∷ BinOp.div ∷ BinOp.float_div ∷ BinOp.mod_op
    ∷ BinOp.eq ∷ BinOp.float_eq ∷ BinOp.lt ∷ BinOp.float_lt ∷ BinOp.le ∷ BinOp.float_le ∷ BinOp.gt
    ∷ BinOp.float_gt ∷ BinOp.ge ∷ BinOp.float_ge ∷ BinOp.ne ∷ []

abbrev nth_op : List BinOp → ℕ → BinOp
nth_op [] n = BinOp.ne
nth_op (op ∷ ops) zero = op
nth_op (op ∷ ops) (suc n) = nth_op ops n

nth_op-op_index : (op : BinOp) → nth_op op_list (op_index op) ≡ op
unfolding op_index
nth_op-op_index BinOp.log_and = refl
nth_op-op_index BinOp.log_or = refl
nth_op-op_index BinOp.lazy_and = refl
nth_op-op_index BinOp.lazy_or = refl
nth_op-op_index BinOp.bit_and = refl
nth_op-op_index BinOp.bit_or = refl
nth_op-op_index BinOp.bit_xor = refl
nth_op-op_index BinOp.shl = refl
nth_op-op_index BinOp.shr = refl
nth_op-op_index BinOp.add = refl
nth_op-op_index BinOp.float_add = refl
nth_op-op_index BinOp.sub = refl
nth_op-op_index BinOp.float_sub = refl
nth_op-op_index BinOp.mul = refl
nth_op-op_index BinOp.float_mul = refl
nth_op-op_index BinOp.div = refl
nth_op-op_index BinOp.float_div = refl
nth_op-op_index BinOp.mod_op = refl
nth_op-op_index BinOp.eq = refl
nth_op-op_index BinOp.float_eq = refl
nth_op-op_index BinOp.lt = refl
nth_op-op_index BinOp.float_lt = refl
nth_op-op_index BinOp.le = refl
nth_op-op_index BinOp.float_le = refl
nth_op-op_index BinOp.gt = refl
nth_op-op_index BinOp.float_gt = refl
nth_op-op_index BinOp.ge = refl
nth_op-op_index BinOp.float_ge = refl
nth_op-op_index BinOp.ne = refl

pub op_index-injective : (a b : BinOp) → op_index a == op_index b ≡ true → a ≡ b
op_index-injective a b e =
    sym (nth_op-op_index a)
    ∙ ap (nth_op op_list) ((==_iff (op_index a) (op_index b)).0 e)
    ∙ nth_op-op_index b

-- An operator that may be reordered has a direction.
pub direction :
    (op : BinOp)
    → associative op ≡ true
    → (dir : AssocDir) × (associativity (op_precedence op) ≡ some dir)
unfolding associative associativity op_precedence
direction BinOp.log_and h = (rightward, refl)
direction BinOp.log_or h = (rightward, refl)
direction BinOp.lazy_and h = (rightward, refl)
direction BinOp.lazy_or h = (rightward, refl)
direction BinOp.add h = (leftward, refl)
direction BinOp.mul h = (leftward, refl)
direction _ h = absurd (cc h)

module _ (S : Meaning) (env : Ident → S.V) where
  -- The expression that a rotation gives, if it gives one, has the value of the application.
  abbrev pub IsKept : BinOp → Exp → Exp → Option Exp → Type 0
  IsKept op l r none = Unit
  IsKept op l r (some out) = eval S env out ≡ eval S env (binary_op op l r)

  abbrev pub IsAssociative : BinOp → Type 0
  IsAssociative op =
      (a b c : S.V) → S.binary op (S.binary op a b) c ≡ S.binary op a (S.binary op b c)

  rotate_left-IsKept :
      (op : BinOp) (l r : Exp) → IsAssociative op → IsKept op l r (rotate_left op l r)
  unfolding rotate_left
  rotate_left-IsKept op l (binary_op iop rl rr) law =
      elim (Bool-cases (op_index iop == op_index op)) [
        | inl e ↦ rw e (
            subst
              (λ o.
                eval S env (binary_op op (binary_op o l rl) rr)
                ≡ eval S env (binary_op op l (binary_op o rl rr)))
              (sym (op_index-injective iop op e)) (unfold eval in law _ _ _))
        | inr e ↦ rw e tt
      ]
  rotate_left-IsKept op l _ law = tt

  rotate_right-IsKept :
      (op : BinOp) (l r : Exp) → IsAssociative op → IsKept op l r (rotate_right op l r)
  unfolding rotate_right
  rotate_right-IsKept op (binary_op iop ll lr) r law =
      elim (Bool-cases (op_index iop == op_index op)) [
        | inl e ↦ rw e (
            subst
              (λ o.
                eval S env (binary_op op ll (binary_op o lr r))
                ≡ eval S env (binary_op op (binary_op o ll lr) r))
              (sym (op_index-injective iop op e)) (unfold eval in sym (law _ _ _)))
        | inr e ↦ rw e tt
      ]
  rotate_right-IsKept op _ r law = tt

  by_direction :
      (op : BinOp) (l r : Exp) (dir : AssocDir)
      → associativity (op_precedence op) ≡ some dir
      → IsAssociative op
      → (o : Option Exp) × (reorder op l r ≡ some o) × IsKept op l r o
  unfolding reorder
  by_direction op l r leftward e law =
      (rotate_left op l r, rw (e, reorder) refl, rotate_left-IsKept op l r law)
  by_direction op l r rightward e law =
      (rotate_right op l r, rw (e, reorder) refl, rotate_right-IsKept op l r law)

  -- For an operator that `associative` names, and that is associative in the meaning: the `unwrap` of
  -- its direction does not panic, and where the application is reordered, the new expression has its
  -- value.
  pub reorder-IsKept :
      (op : BinOp) (l r : Exp)
      → associative op ≡ true
      → IsAssociative op
      → (o : Option Exp) × (reorder op l r ≡ some o) × IsKept op l r o
  reorder-IsKept op l r h law = let (dir, e) = direction op h in by_direction op l r dir e law

-- Below the highest precedence `next` gives the one just above, and the highest is its own next.
pub rank-next : (p : Precedence) → (rank (next p) ≡ rank p + 1) ⊎ ((p ≡ bang_op) × (next p ≡ p))
unfolding rank next
rank-next if_let = inl refl
rank-next attribute = inl refl
rank-next cast = inl refl
rank-next implication = inl refl
rank-next disj = inl refl
rank-next conj = inl refl
rank-next negation = inl refl
rank-next infix1 = inl refl
rank-next infix2 = inl refl
rank-next infix3 = inl refl
rank-next infix4 = inl refl
rank-next prefix_op = inl refl
rank-next abs = inl refl
rank-next app = inl refl
rank-next projection = inl refl
rank-next brackets = inl refl
rank-next atom = inl refl
rank-next bang_op = inr (refl, refl)
