-- ===== src/Contracts/Order/Total.antt =====
-- creusot-contracts/src/logic/ord.rs: the comparisons of numbers, pairs, options and reversed values
-- are total orders where those of their parts are.
use creusot.Prelude.{Option, none, some, ◌≡◌, ◌↔◌, refl, sym, ap, ap₂, ◌∙◌, some_eq, arith}
use creusot.Why3.Types.{ℤ, pos, negsuc}
use creusot.Contracts.Order.{
  Ordering, less, equal, greater, IsOrd, opposite, cmp_reverse, cmp_option, cmp_pair, or_next,
  cmp_int,
}

opposite-opposite : (o : Ordering) → opposite (opposite o) ≡ o
unfolding opposite
opposite-opposite less = refl
opposite-opposite equal = refl
opposite-opposite greater = refl

opposite_eq : (a b : Ordering) → opposite a ≡ b → a ≡ opposite b
opposite_eq a b e = sym (opposite-opposite a) ∙ ap opposite e

module _ {T : Type 0} (cmp_log : T → T → Ordering) (h : IsOrd cmp_log) where
  -- Reversing a total order gives a total order.
  pub cmp_reverse-IsOrd : IsOrd (cmp_reverse cmp_log)
  unfolding cmp_reverse opposite
  cmp_reverse-IsOrd = record {
    reflexive = λ x. ap opposite (h.reflexive x);
    trans = λ x y z o a b.
        ap opposite (h.trans x y z (opposite o) (opposite_eq _ _ a) (opposite_eq _ _ b))
        ∙ opposite-opposite o;
    antisym1 = λ x y a. ap opposite (h.antisym2 x y (opposite_eq _ _ a));
    antisym2 = λ x y a. ap opposite (h.antisym1 x y (opposite_eq _ _ a));
    eq_cmp = λ x y.
        ((λ e. ap opposite ((h.eq_cmp x y).0 e)), (λ e. (h.eq_cmp x y).1 (opposite_eq _ _ e)));
  }

  option_reflexive : (x : Option T) → cmp_option cmp_log x x ≡ equal
  unfolding cmp_option
  option_reflexive none = refl
  option_reflexive (some x) = h.reflexive x

  option_trans :
      (x y z : Option T) (o : Ordering)
      → cmp_option cmp_log x y ≡ o
      → cmp_option cmp_log y z ≡ o
      → cmp_option cmp_log x z ≡ o
  unfolding cmp_option
  option_trans none none z o a b = b
  option_trans none (some y) none o a b = absurd (cc (a, b))
  option_trans none (some y) (some z) o a b = a
  option_trans (some x) none none o a b = a
  option_trans (some x) none (some z) o a b = absurd (cc (a, b))
  option_trans (some x) (some y) none o a b = b
  option_trans (some x) (some y) (some z) o a b = h.trans x y z o a b

  option_antisym1 :
      (x y : Option T) → cmp_option cmp_log x y ≡ less → cmp_option cmp_log y x ≡ greater
  unfolding cmp_option
  option_antisym1 none none a = absurd (cc a)
  option_antisym1 none (some y) a = refl
  option_antisym1 (some x) none a = absurd (cc a)
  option_antisym1 (some x) (some y) a = h.antisym1 x y a

  option_antisym2 :
      (x y : Option T) → cmp_option cmp_log x y ≡ greater → cmp_option cmp_log y x ≡ less
  unfolding cmp_option
  option_antisym2 none none a = absurd (cc a)
  option_antisym2 none (some y) a = absurd (cc a)
  option_antisym2 (some x) none a = refl
  option_antisym2 (some x) (some y) a = h.antisym2 x y a

  option_eq_cmp : (x y : Option T) → (x ≡ y) ↔ (cmp_option cmp_log x y ≡ equal)
  unfolding cmp_option
  option_eq_cmp none none = ((λ e. refl), (λ e. refl))
  option_eq_cmp none (some y) = ((λ e. absurd (cc e)), (λ e. absurd (cc e)))
  option_eq_cmp (some x) none = ((λ e. absurd (cc e)), (λ e. absurd (cc e)))
  option_eq_cmp (some x) (some y) =
      ((λ e. (h.eq_cmp x y).0 (some_eq e)), (λ e. ap (λ t. some t) ((h.eq_cmp x y).1 e)))

  -- The order on options, in which the missing value is below all others, is total.
  pub cmp_option-IsOrd : IsOrd (cmp_option cmp_log)
  cmp_option-IsOrd = record {
    reflexive = option_reflexive;
    trans = option_trans;
    antisym1 = option_antisym1;
    antisym2 = option_antisym2;
    eq_cmp = option_eq_cmp;
  }

module _ {A B : Type 0} (cmp_a : A → A → Ordering) (cmp_b : B → B → Ordering) (ha : IsOrd cmp_a)
    (hb : IsOrd cmp_b) where
  back_equal : (x y : A) → cmp_a x y ≡ equal → cmp_a y x ≡ equal
  back_equal x y e = (ha.eq_cmp y x).0 (sym ((ha.eq_cmp x y).1 e))

  pair_trans :
      (x y z : A) (u v w : B) (o : Ordering)
      → or_next (cmp_a x y) (cmp_b u v) ≡ o
      → or_next (cmp_a y z) (cmp_b v w) ≡ o
      → or_next (cmp_a x z) (cmp_b u w) ≡ o
  unfolding or_next
  pair_trans x y z u v w o p q = go (cmp_a x y) (cmp_a y z) refl refl p q
    where
      last : (s : Ordering) → cmp_b u v ≡ o → or_next s (cmp_b v w) ≡ o → or_next s (cmp_b u w) ≡ o
      last less p q = q
      last equal p q = hb.trans u v w o p q
      last greater p q = q

      go :
          (r s : Ordering)
          → cmp_a x y ≡ r
          → cmp_a y z ≡ s
          → or_next r (cmp_b u v) ≡ o
          → or_next s (cmp_b v w) ≡ o
          → or_next (cmp_a x z) (cmp_b u w) ≡ o
      go equal s e f p q = rw (ap (λ t. cmp_a t z) ((ha.eq_cmp x y).1 e) ∙ f) (last s p q)
      go less equal e f p q = rw (ap (cmp_a x) (sym ((ha.eq_cmp y z).1 f)) ∙ e) p
      go less less e f p q = rw (ha.trans x y z less e f) p
      go less greater e f p q = absurd (cc (p, q))
      go greater equal e f p q = rw (ap (cmp_a x) (sym ((ha.eq_cmp y z).1 f)) ∙ e) p
      go greater less e f p q = absurd (cc (p, q))
      go greater greater e f p q = rw (ha.trans x y z greater e f) p

  pair_antisym1 :
      (x y : A) (u v : B)
      → or_next (cmp_a x y) (cmp_b u v) ≡ less
      → or_next (cmp_a y x) (cmp_b v u) ≡ greater
  unfolding or_next
  pair_antisym1 x y u v p = go (cmp_a x y) refl p
    where
      go :
          (r : Ordering)
          → cmp_a x y ≡ r
          → or_next r (cmp_b u v) ≡ less
          → or_next (cmp_a y x) (cmp_b v u) ≡ greater
      go less e p = rw (ha.antisym1 x y e) refl
      go equal e p = rw (back_equal x y e) (hb.antisym1 u v p)
      go greater e p = absurd (cc p)

  pair_antisym2 :
      (x y : A) (u v : B)
      → or_next (cmp_a x y) (cmp_b u v) ≡ greater
      → or_next (cmp_a y x) (cmp_b v u) ≡ less
  unfolding or_next
  pair_antisym2 x y u v p = go (cmp_a x y) refl p
    where
      go :
          (r : Ordering)
          → cmp_a x y ≡ r
          → or_next r (cmp_b u v) ≡ greater
          → or_next (cmp_a y x) (cmp_b v u) ≡ less
      go less e p = absurd (cc p)
      go equal e p = rw (back_equal x y e) (hb.antisym2 u v p)
      go greater e p = rw (ha.antisym2 x y e) refl

  both_equal :
      (x y : A) (u v : B)
      → or_next (cmp_a x y) (cmp_b u v) ≡ equal
      → (cmp_a x y ≡ equal) × (cmp_b u v ≡ equal)
  unfolding or_next
  both_equal x y u v p = go (cmp_a x y) refl p
    where
      go :
          (r : Ordering)
          → cmp_a x y ≡ r
          → or_next r (cmp_b u v) ≡ equal
          → (cmp_a x y ≡ equal) × (cmp_b u v ≡ equal)
      go less e p = absurd (cc p)
      go equal e p = (e, p)
      go greater e p = absurd (cc p)

  -- The lexicographic order on pairs is total.
  pub cmp_pair-IsOrd : IsOrd (cmp_pair cmp_a cmp_b)
  unfolding cmp_pair or_next
  cmp_pair-IsOrd = record {
    reflexive = λ x. rw (ha.reflexive x.0) (hb.reflexive x.1);
    trans = λ x y z o p q. pair_trans x.0 y.0 z.0 x.1 y.1 z.1 o p q;
    antisym1 = λ x y p. pair_antisym1 x.0 y.0 x.1 y.1 p;
    antisym2 = λ x y p. pair_antisym2 x.0 y.0 x.1 y.1 p;
    eq_cmp = λ x y. (
      (λ e.
          rw ((ha.eq_cmp x.0 y.0).0 (ap (λ (t : A × B). t.0) e))
            ((hb.eq_cmp x.1 y.1).0 (ap (λ (t : A × B). t.1) e))),
      (λ e.
          let (f, g) = both_equal x.0 y.0 x.1 y.1 e in
          ap₂ (λ a b. (a, b)) ((ha.eq_cmp x.0 y.0).1 f) ((hb.eq_cmp x.1 y.1).1 g)),
    );
  }

int_reflexive : (x : ℤ) → cmp_int x x ≡ equal
unfolding cmp_int
int_reflexive (pos a) = ground arith
int_reflexive (negsuc a) = ground arith

int_trans : (x y z : ℤ) (o : Ordering) → cmp_int x y ≡ o → cmp_int y z ≡ o → cmp_int x z ≡ o
unfolding cmp_int
int_trans (pos a) (pos b) (pos c) o p q = ground arith
int_trans (pos a) (pos b) (negsuc c) o p q = ground arith
int_trans (pos a) (negsuc b) (pos c) o p q = ground arith
int_trans (pos a) (negsuc b) (negsuc c) o p q = ground arith
int_trans (negsuc a) (pos b) (pos c) o p q = ground arith
int_trans (negsuc a) (pos b) (negsuc c) o p q = ground arith
int_trans (negsuc a) (negsuc b) (pos c) o p q = ground arith
int_trans (negsuc a) (negsuc b) (negsuc c) o p q = ground arith

int_antisym1 : (x y : ℤ) → cmp_int x y ≡ less → cmp_int y x ≡ greater
unfolding cmp_int
int_antisym1 (pos a) (pos b) p = ground arith
int_antisym1 (pos a) (negsuc b) p = ground arith
int_antisym1 (negsuc a) (pos b) p = ground arith
int_antisym1 (negsuc a) (negsuc b) p = ground arith

int_antisym2 : (x y : ℤ) → cmp_int x y ≡ greater → cmp_int y x ≡ less
unfolding cmp_int
int_antisym2 (pos a) (pos b) p = ground arith
int_antisym2 (pos a) (negsuc b) p = ground arith
int_antisym2 (negsuc a) (pos b) p = ground arith
int_antisym2 (negsuc a) (negsuc b) p = ground arith

int_eq_of_equal : (x y : ℤ) → cmp_int x y ≡ equal → x ≡ y
unfolding cmp_int
int_eq_of_equal (pos a) (pos b) p = ap (λ n. pos n) (ground arith)
int_eq_of_equal (pos a) (negsuc b) p = absurd (cc p)
int_eq_of_equal (negsuc a) (pos b) p = absurd (cc p)
int_eq_of_equal (negsuc a) (negsuc b) p = ap (λ n. negsuc n) (ground arith)

int_eq_cmp : (x y : ℤ) → (x ≡ y) ↔ (cmp_int x y ≡ equal)
int_eq_cmp x y = ((λ e. rw e (int_reflexive y)), int_eq_of_equal x y)

-- The order on integers is total.
pub cmp_int-IsOrd : IsOrd cmp_int
cmp_int-IsOrd = record {
  reflexive = int_reflexive;
  trans = int_trans;
  antisym1 = int_antisym1;
  antisym2 = int_antisym2;
  eq_cmp = int_eq_cmp;
}
