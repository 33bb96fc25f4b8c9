-- ===== src/Why3/Exp/Subst/Sound.antt =====
-- why3/src/exp.rs: substitution is right: the result means what the expression means where each
-- variable stands for the value of the term that is put in for it. No variable is captured.
use mathlib.Core.Path.{fun_ext}
use native.Mathlib.Nat.{add-zero}
use creusot.Prelude.{ℕ, ◌+◌, ◌<◌, ◌≤◌, ◌^◌, ◌∷◌, Option, some, refl, sym, ap, ap₂, arith, length}
use creusot.Why3.Name.{local, global}
use creusot.Why3.Exp.{
  Exp, Exps, NamedExps, Arms, Triggers, let_in, var, record_literal, rec_up, rec_field, constructor,
  fun_literal, const, binary_op, unary_op, call, attr, lam, match_with, if_then_else, ascribe, impl,
  forall_in, exists_in, nil, cons, no_field, field, no_arm, arm, no_trigger, trigger,
}
use creusot.Why3.Exp.Semantics.{
  Meaning, eval, eval_exps, eval_fields, eval_arms, eval_triggers, extend, binder_ids, binder_shape,
  pattern_ids, pattern_shape, quantified_ids, quantified_shape,
}
use creusot.Why3.Exp.Vars.{
  AllVars, AllVarsExps, AllVarsFields, AllVarsArms, AllVarsTriggers, draws, draws_exps,
  draws_fields, draws_arms, draws_triggers,
}
use creusot.Why3.Exp.Visit.{
  Bound, Subst, ret, ◌>>=◌, with_fresh, visit, visit_exps, visit_fields, visit_arms, visit_triggers,
  refresh_binders, refresh_quantified, refresh_pattern,
}
use creusot.Why3.Exp.Subst.Refresh.{
  refresh_binders-Renames, refresh_quantified-Renames, refresh_pattern-Renames,
}
use creusot.Why3.Exp.Subst.Through.{InRange, IsOld, IsReady}
use creusot.Why3.Exp.Subst.Steps.{
  bind-some, map-some, two-some, with_fresh-some, Keeps, visit_local-Keeps, under,
}

later-InRange :
    (bound : Bound) (counter d : ℕ) → InRange bound counter → InRange bound (counter + d)
later-InRange bound counter d h v w e = omega (arith, h v w e)

no_more :
    {A : Type 0} (a : A) (counter : ℕ)
    → Path (Option (A × ℕ)) (some (a, counter)) (some (a, counter + 0))
no_more a counter = ap (λ n. some (a, n)) (sym (add-zero counter))

module _ (S : Meaning) (σ : Subst) (start : ℕ) (old : IsOld σ start) where
  open S use {V}

  mutual
    unfolding visit eval draws

    exp-Keeps :
        (e : Exp) (bound : Bound) (counter : ℕ)
        → AllVars (IsReady σ start) e
        → counter + draws e < 2 ^ 64
        → InRange bound counter
        → start ≤ counter
        → Keeps S σ start old (visit σ) (eval S) draws bound counter e
    exp-Keeps (let_in pattern arg body) bound counter h low range s =
        let (x, p, q) = exp-Keeps arg bound counter h.0 (omega arith) range s in
        let mid = counter + draws arg in
        let range2 = later-InRange bound counter (draws arg) range in
        let out = refresh_pattern pattern (bound, mid) in
        let (count, ranged, shape, follow) =
          under S σ start old refresh_pattern pattern_ids pattern_shape pattern
            (refresh_pattern-Renames pattern) bound mid (omega arith) range2 (omega arith) in
        let (y, u, v) =
          exp-Keeps body out.1.0 (mid + length (pattern_ids pattern)) h.1 (omega arith) ranged
            (omega arith) in
        (
          let_in out.0 x y,
          bind-some (visit σ bound arg)
              (λ arg2. with_fresh (refresh_pattern pattern) bound λ pattern2 bound2.
                visit σ bound2 body >>= λ body2. ret (let_in pattern2 arg2 body2))
              counter _ _ x _ p
              (with_fresh-some (refresh_pattern pattern) bound
                (λ pattern2 bound2. visit σ bound2 body >>= λ body2. ret (let_in pattern2 x body2))
                mid _ _ _ count (map-some (visit σ out.1.0 body) (let_in out.0 x) _ _ y u)),
          λ before after f i. S.bind (shape i) (q before after f i) (
              fun_ext
                (λ vs.
                  v (extend before (pattern_ids pattern) vs) (extend after (pattern_ids out.0) vs)
                    (follow before after vs f))
                i),
        )
    exp-Keeps (var (local v suffix)) bound counter h low range s =
        visit_local-Keeps S σ start old v suffix bound counter h
    exp-Keeps (var (global q)) bound counter h low range s =
        (var (global q), no_more (var (global q)) counter, λ before after f. refl)
    exp-Keeps (record_literal fields) bound counter h low range s =
        let (x, p, q) = fields-Keeps fields bound counter h low range s in
        (
          record_literal x,
          map-some (visit_fields σ bound fields) record_literal counter _ x p,
          λ before after f. ap S.record_of (q before after f),
        )
    exp-Keeps (rec_up r updates) bound counter h low range s =
        let (x, p, q) = exp-Keeps r bound counter h.0 (omega arith) range s in
        let (y, u, v) =
          fields-Keeps updates bound (counter + draws r) h.1 (omega arith)
            (later-InRange bound counter (draws r) range) (omega arith) in
        (
          rec_up x y,
          two-some (visit σ bound r) (visit_fields σ bound updates) rec_up counter _ _ x y p u,
          λ before after f. ap₂ S.update (q before after f) (v before after f),
        )
    exp-Keeps (rec_field r label) bound counter h low range s =
        let (x, p, q) = exp-Keeps r bound counter h low range s in
        (
          rec_field x label,
          map-some (visit σ bound r) (λ a. rec_field a label) counter _ x p,
          λ before after f. ap (λ a. S.project a label) (q before after f),
        )
    exp-Keeps (Exp.tuple es) bound counter h low range s =
        let (x, p, q) = exps-Keeps es bound counter h low range s in
        (
          Exp.tuple x,
          map-some (visit_exps σ bound es) Exp.tuple counter _ x p,
          λ before after f. ap S.tuple_of (q before after f),
        )
    exp-Keeps (constructor c es) bound counter h low range s =
        let (x, p, q) = exps-Keeps es bound counter h low range s in
        (
          constructor c x,
          map-some (visit_exps σ bound es) (constructor c) counter _ x p,
          λ before after f. ap (S.construct c) (q before after f),
        )
    exp-Keeps (fun_literal es) bound counter h low range s =
        let (x, p, q) = exps-Keeps es bound counter h low range s in
        (
          fun_literal x,
          map-some (visit_exps σ bound es) fun_literal counter _ x p,
          λ before after f. ap S.function_of (q before after f),
        )
    exp-Keeps (const k) bound counter h low range s =
        (const k, no_more (const k) counter, λ before after f. refl)
    exp-Keeps (binary_op op l r) bound counter h low range s =
        let (x, p, q) = exp-Keeps l bound counter h.0 (omega arith) range s in
        let (y, u, v) =
          exp-Keeps r bound (counter + draws l) h.1 (omega arith)
            (later-InRange bound counter (draws l) range) (omega arith) in
        (
          binary_op op x y,
          two-some (visit σ bound l) (visit σ bound r) (binary_op op) counter _ _ x y p u,
          λ before after f. ap₂ (S.binary op) (q before after f) (v before after f),
        )
    exp-Keeps (unary_op op e) bound counter h low range s =
        let (x, p, q) = exp-Keeps e bound counter h low range s in
        (
          unary_op op x,
          map-some (visit σ bound e) (unary_op op) counter _ x p,
          λ before after f. ap (S.unary op) (q before after f),
        )
    exp-Keeps (call g es) bound counter h low range s =
        let (x, p, q) = exp-Keeps g bound counter h.0 (omega arith) range s in
        let (y, u, v) =
          exps-Keeps es bound (counter + draws g) h.1 (omega arith)
            (later-InRange bound counter (draws g) range) (omega arith) in
        (
          call x y,
          two-some (visit σ bound g) (visit_exps σ bound es) call counter _ _ x y p u,
          λ before after f. ap₂ S.apply (q before after f) (v before after f),
        )
    exp-Keeps (attr a e) bound counter h low range s =
        let (x, p, q) = exp-Keeps e bound counter h low range s in
        (
          attr a x,
          map-some (visit σ bound e) (attr a) counter _ x p,
          λ before after f. ap (S.marked a) (q before after f),
        )
    exp-Keeps (lam bs body) bound counter h low range s =
        let out = refresh_binders bs (bound, counter) in
        let (count, ranged, shape, follow) =
          under S σ start old refresh_binders binder_ids binder_shape bs
            (refresh_binders-Renames bs) bound counter (omega arith) range s in
        let (y, u, v) =
          exp-Keeps body out.1.0 (counter + length (binder_ids bs)) h (omega arith) ranged
            (omega arith) in
        (
          lam out.0 y,
          with_fresh-some (refresh_binders bs) bound
              (λ bs2 bound2. visit σ bound2 body >>= λ body2. ret (lam bs2 body2)) counter _ _ _
              count (map-some (visit σ out.1.0 body) (lam out.0) _ _ y u),
          λ before after f i. S.abstraction (shape i) (
              fun_ext
                (λ vs.
                  v (extend before (binder_ids bs) vs) (extend after (binder_ids out.0) vs)
                    (follow before after vs f))
                i),
        )
    exp-Keeps (match_with e arms) bound counter h low range s =
        let (x, p, q) = exp-Keeps e bound counter h.0 (omega arith) range s in
        let (y, u, v) =
          arms-Keeps arms bound (counter + draws e) h.1 (omega arith)
            (later-InRange bound counter (draws e) range) (omega arith) in
        (
          match_with x y,
          two-some (visit σ bound e) (visit_arms σ bound arms) match_with counter _ _ x y p u,
          λ before after f. ap₂ S.branch (q before after f) (v before after f),
        )
    exp-Keeps (if_then_else c l r) bound counter h low range s =
        let (x, p, q) = exp-Keeps c bound counter h.0 (omega arith) range s in
        let (y, u, v) =
          exp-Keeps l bound (counter + draws c) h.1 (omega arith)
            (later-InRange bound counter (draws c) range) (omega arith) in
        let (z, a, b) =
          exp-Keeps r bound ((counter + draws c) + draws l) h.2 (omega arith)
            (later-InRange bound (counter + draws c) (draws l)
              (later-InRange bound counter (draws c) range))
            (omega arith) in
        (
          if_then_else x y z,
          bind-some (visit σ bound c)
              (λ c2.
                visit σ bound l >>= λ l2. visit σ bound r >>= λ r2. ret (if_then_else c2 l2 r2))
              counter _ _ x _ p
              (two-some (visit σ bound l) (visit σ bound r) (if_then_else x) _ _ _ y z u a),
          λ before after f i.
              S.choose (q before after f i) (v before after f i) (b before after f i),
        )
    exp-Keeps (ascribe e ty) bound counter h low range s =
        let (x, p, q) = exp-Keeps e bound counter h low range s in
        (
          ascribe x ty,
          map-some (visit σ bound e) (λ a. ascribe a ty) counter _ x p,
          λ before after f. ap (λ a. S.cast a ty) (q before after f),
        )
    exp-Keeps (impl l r) bound counter h low range s =
        let (x, p, q) = exp-Keeps l bound counter h.0 (omega arith) range s in
        let (y, u, v) =
          exp-Keeps r bound (counter + draws l) h.1 (omega arith)
            (later-InRange bound counter (draws l) range) (omega arith) in
        (
          impl x y,
          two-some (visit σ bound l) (visit σ bound r) impl counter _ _ x y p u,
          λ before after f. ap₂ S.implication (q before after f) (v before after f),
        )
    exp-Keeps (forall_in bs ts e) bound counter h low range s =
        let out = refresh_quantified bs (bound, counter) in
        let (count, ranged, shape, follow) =
          under S σ start old refresh_quantified quantified_ids quantified_shape bs
            (refresh_quantified-Renames bs) bound counter (omega arith) range s in
        let mid = counter + length (quantified_ids bs) in
        let (x, p, q) = triggers-Keeps ts out.1.0 mid h.0 (omega arith) ranged (omega arith) in
        let (y, u, v) =
          exp-Keeps e out.1.0 (mid + draws_triggers ts) h.1 (omega arith)
            (later-InRange out.1.0 mid (draws_triggers ts) ranged) (omega arith) in
        (
          forall_in out.0 x y,
          with_fresh-some (refresh_quantified bs) bound
              (λ bs2 bound2. visit_triggers σ bound2 ts >>= λ ts2.
                visit σ bound2 e >>= λ e2. ret (forall_in bs2 ts2 e2))
              counter _ _ _ count
              (two-some (visit_triggers σ out.1.0 ts) (visit σ out.1.0 e) (forall_in out.0) _ _ _ x
                y p u),
          λ before after f i.
              S.for_all (shape i)
                (fun_ext
                  (λ vs.
                    q (extend before (quantified_ids bs) vs)
                      (extend after (quantified_ids out.0) vs) (follow before after vs f))
                  i)
                (fun_ext
                  (λ vs.
                    v (extend before (quantified_ids bs) vs)
                      (extend after (quantified_ids out.0) vs) (follow before after vs f))
                  i),
        )
    exp-Keeps (exists_in bs ts e) bound counter h low range s =
        let out = refresh_quantified bs (bound, counter) in
        let (count, ranged, shape, follow) =
          under S σ start old refresh_quantified quantified_ids quantified_shape bs
            (refresh_quantified-Renames bs) bound counter (omega arith) range s in
        let mid = counter + length (quantified_ids bs) in
        let (x, p, q) = triggers-Keeps ts out.1.0 mid h.0 (omega arith) ranged (omega arith) in
        let (y, u, v) =
          exp-Keeps e out.1.0 (mid + draws_triggers ts) h.1 (omega arith)
            (later-InRange out.1.0 mid (draws_triggers ts) ranged) (omega arith) in
        (
          exists_in out.0 x y,
          with_fresh-some (refresh_quantified bs) bound
              (λ bs2 bound2. visit_triggers σ bound2 ts >>= λ ts2.
                visit σ bound2 e >>= λ e2. ret (exists_in bs2 ts2 e2))
              counter _ _ _ count
              (two-some (visit_triggers σ out.1.0 ts) (visit σ out.1.0 e) (exists_in out.0) _ _ _ x
                y p u),
          λ before after f i.
              S.there_is (shape i)
                (fun_ext
                  (λ vs.
                    q (extend before (quantified_ids bs) vs)
                      (extend after (quantified_ids out.0) vs) (follow before after vs f))
                  i)
                (fun_ext
                  (λ vs.
                    v (extend before (quantified_ids bs) vs)
                      (extend after (quantified_ids out.0) vs) (follow before after vs f))
                  i),
        )

    exps-Keeps :
        (es : Exps) (bound : Bound) (counter : ℕ)
        → AllVarsExps (IsReady σ start) es
        → counter + draws_exps es < 2 ^ 64
        → InRange bound counter
        → start ≤ counter
        → Keeps S σ start old (visit_exps σ) (eval_exps S) draws_exps bound counter es
    exps-Keeps nil bound counter h low range s = (nil, no_more nil counter, λ before after f. refl)
    exps-Keeps (cons e es) bound counter h low range s =
        let (x, p, q) = exp-Keeps e bound counter h.0 (omega arith) range s in
        let (y, u, v) =
          exps-Keeps es bound (counter + draws e) h.1 (omega arith)
            (later-InRange bound counter (draws e) range) (omega arith) in
        (
          cons x y,
          two-some (visit σ bound e) (visit_exps σ bound es) cons counter _ _ x y p u,
          λ before after f. ap₂ (λ a b. a ∷ b) (q before after f) (v before after f),
        )

    fields-Keeps :
        (fs : NamedExps) (bound : Bound) (counter : ℕ)
        → AllVarsFields (IsReady σ start) fs
        → counter + draws_fields fs < 2 ^ 64
        → InRange bound counter
        → start ≤ counter
        → Keeps S σ start old (visit_fields σ) (eval_fields S) draws_fields bound counter fs
    fields-Keeps no_field bound counter h low range s =
        (no_field, no_more no_field counter, λ before after f. refl)
    fields-Keeps (field name e fs) bound counter h low range s =
        let (x, p, q) = exp-Keeps e bound counter h.0 (omega arith) range s in
        let (y, u, v) =
          fields-Keeps fs bound (counter + draws e) h.1 (omega arith)
            (later-InRange bound counter (draws e) range) (omega arith) in
        (
          field name x y,
          two-some (visit σ bound e) (visit_fields σ bound fs) (field name) counter _ _ x y p u,
          λ before after f. ap₂ (λ a b. (name, a) ∷ b) (q before after f) (v before after f),
        )

    arms-Keeps :
        (arms : Arms) (bound : Bound) (counter : ℕ)
        → AllVarsArms (IsReady σ start) arms
        → counter + draws_arms arms < 2 ^ 64
        → InRange bound counter
        → start ≤ counter
        → Keeps S σ start old (visit_arms σ) (eval_arms S) draws_arms bound counter arms
    arms-Keeps no_arm bound counter h low range s =
        (no_arm, no_more no_arm counter, λ before after f. refl)
    arms-Keeps (arm pattern e rest) bound counter h low range s =
        let out = refresh_pattern pattern (bound, counter) in
        let (count, ranged, shape, follow) =
          under S σ start old refresh_pattern pattern_ids pattern_shape pattern
            (refresh_pattern-Renames pattern) bound counter (omega arith) range s in
        let mid = counter + length (pattern_ids pattern) in
        let (x, p, q) = exp-Keeps e out.1.0 mid h.0 (omega arith) ranged (omega arith) in
        let (y, u, v) =
          arms-Keeps rest bound (mid + draws e) h.1 (omega arith)
            (later-InRange bound mid (draws e)
              (later-InRange bound counter (length (pattern_ids pattern)) range))
            (omega arith) in
        (
          arm out.0 x y,
          with_fresh-some (refresh_pattern pattern) bound
              (λ p2 bound2. visit σ bound2 e >>= λ e2.
                visit_arms σ bound rest >>= λ rest2. ret (arm p2 e2 rest2))
              counter _ _ _ count
              (two-some (visit σ out.1.0 e) (visit_arms σ bound rest) (arm out.0) _ _ _ x y p u),
          λ before after f i.
              (
                shape i,
                fun_ext
                    (λ vs.
                      q (extend before (pattern_ids pattern) vs)
                        (extend after (pattern_ids out.0) vs) (follow before after vs f))
                    i,
              )
              ∷ v before after f i,
        )

    triggers-Keeps :
        (ts : Triggers) (bound : Bound) (counter : ℕ)
        → AllVarsTriggers (IsReady σ start) ts
        → counter + draws_triggers ts < 2 ^ 64
        → InRange bound counter
        → start ≤ counter
        → Keeps S σ start old (visit_triggers σ) (eval_triggers S) draws_triggers bound counter ts
    triggers-Keeps no_trigger bound counter h low range s =
        (no_trigger, no_more no_trigger counter, λ before after f. refl)
    triggers-Keeps (trigger es ts) bound counter h low range s =
        let (x, p, q) = exps-Keeps es bound counter h.0 (omega arith) range s in
        let (y, u, v) =
          triggers-Keeps ts bound (counter + draws_exps es) h.1 (omega arith)
            (later-InRange bound counter (draws_exps es) range) (omega arith) in
        (
          trigger x y,
          two-some (visit_exps σ bound es) (visit_triggers σ bound ts) trigger counter _ _ x y p u,
          λ before after f. ap₂ (λ a b. a ∷ b) (q before after f) (v before after f),
        )

  pub visit-Keeps :
      (e : Exp) (bound : Bound) (counter : ℕ)
      → AllVars (IsReady σ start) e
      → counter + draws e < 2 ^ 64
      → InRange bound counter
      → start ≤ counter
      → Keeps S σ start old (visit σ) (eval S) draws bound counter e
  visit-Keeps = exp-Keeps
