-- ===== src/Examples/Handlers.antt =====
-- why3/src/coma.rs: `where_` on small programs.
use creusot.Prelude.{true, false, [], ◌≡◌, ◌↔◌, refl}
use creusot.Prelude.Decimal.{codes}
use creusot.Prelude.Texts.{text_eq}
use creusot.Why3.Name.{Ident, local_name, ident_eq}
use creusot.Why3.Coma.{
  Expr, Param, Params, Defn, Defns, where_, occurs, in_params, is_variable, as_variable,
}
use creusot.Why3.Coma.Free.{IsFree, occurs-IsFree, where_-IsFree}

abbrev h : Ident
h = record { name = codes "h"; src = []; id = 1 }

abbrev k : Ident
k = record { name = codes "k"; src = []; id = 2 }

abbrev the_k : Expr
the_k = Expr.name (local_name k)

abbrev the_h : Expr
the_h = Expr.name (local_name h)

-- `h [h = ! k]`
abbrev handlers : Defns
handlers =
    Defns.cons
      (Defn.handler (record { name = h; attrs = []; params = Params.nil }) (Expr.black_box the_k))
      Defns.nil

where_-IsFree_example : IsFree k (where_ the_h handlers) ↔ IsFree k (Expr.defn the_h true handlers)
where_-IsFree_example = where_-IsFree k the_h handlers (refl, tt)

occurs-IsFree_example : occurs (Expr.black_box the_k) k ≡ true
occurs-IsFree_example = occurs-IsFree k (Expr.black_box the_k) refl

where_replaces : where_ the_h handlers ≡ Expr.black_box the_k
unfolding where_ occurs is_variable as_variable ident_eq text_eq
where_replaces = refl

-- `h [h (k) = k]`: the parameter is dropped with the handler, and `k` becomes free.
abbrev identity_handler : Defns
identity_handler =
    Defns.cons
      (Defn.handler
        (record {
          name = h;
          attrs = [];
          params = Params.cons (Param.cont k [] Params.nil) Params.nil;
        })
        the_k)
      Defns.nil

where_drops_params : where_ the_h identity_handler ≡ the_k
unfolding where_ occurs is_variable as_variable ident_eq text_eq
where_drops_params = refl

absent_before : occurs (Expr.defn the_h true identity_handler) k ≡ false
unfolding occurs in_params ident_eq text_eq
absent_before = refl
