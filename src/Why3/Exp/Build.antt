-- ===== src/Why3/Exp/Build.antt =====
-- why3/src/exp.rs: the functions that build expressions and simplify what is trivially true or false.
use creusot.Prelude.{ℕ, Bool, true, false, ◌&&◌, ◌||◌, List, none, if◌then◌else◌}
use creusot.Why3.Name.{Ident, Name, QName, local_name, global}
use creusot.Why3.Types.{WhyType, Attribute, ℤ}
use creusot.Why3.Name.Qualified.{is_empty}
use creusot.Why3.Exp.{
  Exp, Exps, Arms, Triggers, BinOp, UnOp, binary_op, unary_op, const, bool, var, call, attr, impl,
  if_then_else, forall_in, exists_in, ascribe, nil, cons, no_trigger, int, uint, rec_field,
  match_with, match_with,
}

unfoldable pub is_true : Exp → Bool
is_true (const (bool b)) = b
is_true (attr a e) = is_true e
is_true _ = false

unfoldable pub is_false : Exp → Bool
is_false (const (bool true)) = false
is_false (const (bool false)) = true
is_false (attr a e) = is_false e
is_false _ = false

unfoldable pub unit : Exp
unit = Exp.tuple nil

unfoldable pub mk_var : Ident → Exp
mk_var ident = var (local_name ident)

unfoldable pub qvar : QName → Exp
qvar q = var (global q)

unfoldable pub mk_not : Exp → Exp
mk_not e = unary_op UnOp.not_op e

unfoldable pub mk_eq : Exp → Exp → Exp
mk_eq l r = if is_true l then r else if is_true r then l else binary_op BinOp.eq l r

unfoldable pub neq : Exp → Exp → Exp
neq l r = binary_op BinOp.ne l r

unfoldable pub app : Exp → Exps → Exp
app f nil = f
app f (cons a args) = call f (cons a args)

unfoldable pub lazy_and : Exp → Exp → Exp
lazy_and l r = if is_true l then r else if is_true r then l else binary_op BinOp.lazy_and l r

unfoldable pub lazy_conj : Exp → Exp → Exp
lazy_conj l r = lazy_and l r

unfoldable pub log_and : Exp → Exp → Exp
log_and l r = if is_true l then r else if is_true r then l else binary_op BinOp.log_and l r

unfoldable pub log_or : Exp → Exp → Exp
log_or l r = if is_true l then l else if is_true r then r else binary_op BinOp.log_or l r

unfoldable pub mk_if : Exp → Exp → Exp → Exp
mk_if c t e =
    if (is_true t && is_true e) || is_true c
    then t
    else if is_false c
    then e
    else if_then_else c t e

unfoldable pub implies : Exp → Exp → Exp
implies l r = if is_true l || is_true r then r else impl l r

unfoldable pub forall_trig : List (Ident × WhyType) → Triggers → Exp → Exp
forall_trig bound triggers body =
    if is_true body || is_empty bound then body else forall_in bound triggers body

unfoldable pub mk_forall : List (Ident × WhyType) → Exp → Exp
mk_forall bound body = forall_trig bound no_trigger body

unfoldable pub exists_trig : List (Ident × WhyType) → Triggers → Exp → Exp
exists_trig bound triggers body =
    if is_false body || is_empty bound then body else exists_in bound triggers body

unfoldable pub mk_exists : List (Ident × WhyType) → Exp → Exp
mk_exists bound body = exists_trig bound no_trigger body

unfoldable pub mk_true : Exp
mk_true = const (bool true)

unfoldable pub mk_false : Exp
mk_false = const (bool false)

unfoldable pub mk_field : Exp → Name → Exp
mk_field e label = rec_field e label

unfoldable pub mk_match : Exp → Arms → Exp
mk_match e branches = match_with e branches

unfoldable pub with_attr : Exp → Attribute → Exp
with_attr e a = attr a e

unfoldable pub mk_ascribe : Exp → WhyType → Exp
mk_ascribe e ty = ascribe e ty

unfoldable pub mk_int : ℤ → Exp
mk_int i = const (int i none)

unfoldable pub mk_uint : ℕ → Exp
mk_uint value = const (uint value none)
