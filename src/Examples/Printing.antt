-- ===== src/Examples/Printing.antt =====
-- why3/src/printer.rs and why3/src/coma.rs: printing to texts.
use creusot.Prelude.{
  ◌⊎◌, ℕ, suc, ◌+◌, ◌*◌, ◌^◌, ◌≤◌, arith, Bool, true, false, List, [], ◌∷◌, ◌++◌, length, none,
  some, ◌≡◌, refl,
}
use creusot.Prelude.Decimal.{Text, codes, decimal}
use creusot.Prelude.Texts.{contains, text_eq}
use creusot.Why3.Name.{Ident, to_identifier, is_reserved, reserved_str, ident_eq, local_name}
use creusot.Why3.Types.{WhyType, WhyTypes, ℤ, pos, negsuc}
use creusot.Why3.Scope
use creusot.Why3.Scope.{open_scope, bind, set, find_symbol}
use creusot.Why3.Exp.{
  Exp, Pattern, BinOp, var, const, binary_op, forall_in, int, nil, cons, trigger, no_trigger, var_p,
  tuple_p, p_nil, p_cons,
}
use creusot.Why3.Exp.Semantics.{pattern_ids, patterns_ids}
use creusot.Why3.Coma.{Expr, Arg, Param, Params, Defn, Defns}
use creusot.Why3.Declaration.{Module, Decl, goal_decl, coma_decl}
use creusot.Why3.Print.{Docs, Why3Scope, new, bind_value, close_scopes}
use creusot.Why3.Print.Bound.{bind_bounds, bind_bound}
use creusot.Why3.Print.Terms.{bin_op_to_string, pretty_pattern}
use creusot.Why3.Print.Terms.Expressions.{pretty_exp}
use creusot.Why3.Print.Terms.Printable.{IsPrintable}
use creusot.Why3.Print.Terms.Names.{bound_values}
use creusot.Why3.Print.Terms.Matched.{pretty_pattern_lem}
use creusot.Why3.Print.Terms.Panics.{pretty_exp_cases}
use creusot.Why3.Print.Coma.{pretty_expr}
use creusot.Why3.Print.Coma.Printable.{IsPrintableExpr, PartitionsWithin}
use creusot.Why3.Print.Coma.Safe.{pretty_expr_lem}
use creusot.Why3.Print.Decls.{pretty_decl, module_doc, decls_doc}
use creusot.Why3.Print.Decls.Declared.{declared}
use creusot.Why3.Print.Decls.Safe.{pretty_decl_lem, module_doc-new, decls_doc-close}
use creusot.Why3.Print.Float.{
  Floats, fraction, without_bit_52, padded_hex, hex_digits, hex_digit, hex_width,
}
use creusot.Why3.Print.Float.Written.{hex_value, fraction-mantissa}

-- Documents that are one line of text.
abbrev separated : List Text → Text → Text
separated [] separator = []
separated (d ∷ []) separator = d
separated (d ∷ e ∷ ds) separator = d ++ separator ++ separated (e ∷ ds) separator

abbrev concatenated : List Text → Text
concatenated [] = []
concatenated (d ∷ ds) = d ++ concatenated ds

abbrev is_empty_text : Text → Bool
is_empty_text [] = true
is_empty_text (c ∷ s) = false

abbrev show_integer : ℤ → Text
show_integer (pos n) = decimal n
show_integer (negsuc n) = codes "-" ++ decimal (suc n)

abbrev leading : List Bool → ℕ
leading [] = 0
leading (true ∷ bs) = suc (leading bs)
leading (false ∷ bs) = 0

abbrev no_fractions : Floats
no_fractions = record {
  mantissa = λ f. f;
  exponent = λ f. pos 0;
  is_subnormal = λ f. false;
  is_whole = λ f. true;
  is_negative = λ f. false;
  is_zero = λ f. false;
  shown = decimal;
}

abbrev text_docs : Docs
text_docs = record {
  Doc = Text;
  nil = [];
  line = codes " ";
  line_or_nil = [];
  hardline = codes " ";
  space = codes " ";
  text = λ t. t;
  number = decimal;
  integer = show_integer;
  append = λ a b. a ++ b;
  concat = concatenated;
  intersperse = separated;
  group = λ d. d;
  align = λ d. d;
  parens = λ d. codes "(" ++ d ++ codes ")";
  braces = λ d. codes "{" ++ d ++ codes "}";
  brackets = λ d. codes "[" ++ d ++ codes "]";
  double_quotes = λ d. codes "'" ++ d ++ codes "'";
  nest = λ n d. d;
  indent = λ n d. d;
  enclose = λ left right d. left ++ d ++ right;
  is_nil = is_empty_text;
  quoted = λ t. codes "'" ++ t ++ codes "'";
  floats = no_fractions;
  partition_point = leading;
}

leading-le : (bs : List Bool) → leading bs ≤ length bs
leading-le [] = omega arith
leading-le (true ∷ bs) = omega (arith, leading-le bs)
leading-le (false ∷ bs) = omega arith

text_docs-PartitionsWithin : PartitionsWithin text_docs
text_docs-PartitionsWithin bs = leading-le bs

abbrev x : Ident
x = record { name = codes "x"; src = []; id = 1 }

abbrev y : Ident
y = record { name = codes "x"; src = []; id = 2 }

abbrev one : Exp
one = const (int (pos 1) none)

-- `forall x : () [x] . x + 1`
abbrev successor : Exp
successor =
    forall_in ((x, WhyType.tuple WhyTypes.nil) ∷ [])
      (trigger (cons (var (local_name x)) nil) no_trigger)
      (binary_op BinOp.add (var (local_name x)) one)

successor-IsPrintable : IsPrintable successor
unfolding bin_op_to_string
successor-IsPrintable = (((tt, tt), tt), ((codes "+", refl), tt, tt))

-- The scopes after `open`, and with `x` and `y` bound.
abbrev opened : Why3Scope
opened = record {
  value_scope = open_scope Scope.new;
  type_scope = open_scope Scope.new;
  span_scope = open_scope Scope.new;
}

abbrev pair_pattern : Pattern
pair_pattern = tuple_p (p_cons (var_p x) (p_cons (var_p y) p_nil))

abbrev pair_bound : Why3Scope
pair_bound = elim (bind_value x opened) [
  | none ↦ opened
  | some r ↦ elim (bind_value y r.1) [ none ↦ opened | some t ↦ t.1 ]
]

pair_bound_lem :
    bind_bounds (bound_values (pattern_ids pair_pattern)) opened ≡ some (tt, pair_bound)
unfolding bind_bounds pattern_ids patterns_ids bind_bound bind_value open_scope Scope.new bind
    find_symbol to_identifier is_reserved reserved_str contains text_eq decimal set ident_eq
pair_bound_lem = refl

pretty_pattern_lem_example :
    (d : Text) × (pretty_pattern text_docs pair_pattern opened ≡ some (d, pair_bound))
pretty_pattern_lem_example =
    pretty_pattern_lem text_docs pair_pattern opened pair_bound pair_bound_lem

abbrev bound_x : Why3Scope
bound_x = elim (bind_value x opened) [ none ↦ opened | some r ↦ r.1 ]

abbrev stated : Decl
stated = goal_decl (record { name = x; goal = successor })

stated-bound : bind_bounds (declared stated) opened ≡ some (tt, bound_x)
unfolding bind_bounds declared bind_bound bind_value open_scope Scope.new bind find_symbol
    to_identifier is_reserved reserved_str contains text_eq decimal set ident_eq
stated-bound = refl

pretty_decl_lem_example : (d : Text) × (pretty_decl text_docs stated opened ≡ some (d, bound_x))
pretty_decl_lem_example =
    pretty_decl_lem text_docs stated opened bound_x text_docs-PartitionsWithin successor-IsPrintable
      stated-bound

-- `x {1} (fun (y: ()) -> any) [x = any]`
abbrev calling : Expr
calling =
    Expr.defn
      (Expr.app (Expr.app (Expr.name (local_name x)) (Arg.term one)) (
        Arg.cont (
          Expr.lambda (Params.cons (Param.term y (WhyType.tuple WhyTypes.nil)) Params.nil)
            Expr.any)))
      true
      (Defns.cons (Defn.handler (record { name = x; attrs = []; params = Params.nil }) Expr.any)
        Defns.nil)

calling-IsPrintable : IsPrintableExpr calling
calling-IsPrintable = (((tt, tt), tt), (tt, tt))

pretty_expr_lem_example : (d : Text) × (pretty_expr text_docs calling new ≡ some (d, new))
pretty_expr_lem_example =
    pretty_expr_lem text_docs calling new text_docs-PartitionsWithin calling-IsPrintable

abbrev small_module : Module
small_module = record {
  name = codes "M";
  decls =
      stated
      ∷ coma_decl (Defn.handler (record { name = y; attrs = []; params = Params.nil }) calling)
      ∷ [];
  attrs = [];
  meta = none;
}

module_doc-new_example : (d : Text) × (module_doc text_docs small_module ≡ some (d, new))
module_doc-new_example =
    module_doc-new text_docs small_module text_docs-PartitionsWithin
      (successor-IsPrintable, (calling-IsPrintable, tt))

decls_doc-close_example :
    (d : Text) × (t : Why3Scope) × (decls_doc text_docs (stated ∷ []) ≡ some (d, t))
    × (close_scopes t ≡ some (tt, new))
decls_doc-close_example =
    decls_doc-close text_docs (stated ∷ []) text_docs-PartitionsWithin (successor-IsPrintable, tt)

-- The mantissa of 1.03125, whose fraction is a thirty-second: it is written as a half.
fraction_of_a_thirty_second : fraction (2 ^ 52 + 2 ^ 47) ≡ codes "800000000000"
unfolding fraction without_bit_52 padded_hex hex_digits hex_digit hex_width
fraction_of_a_thirty_second = refl

fraction_of_a_half : fraction (2 ^ 52 + 2 ^ 51) ≡ codes "8000000000000"
unfolding fraction without_bit_52 padded_hex hex_digits hex_digit hex_width
fraction_of_a_half = refl

fraction-mantissa_example :
    hex_value 0 (fraction (2 ^ 52 + 2 ^ 47)) * 2 ^ 52
    ≡ 16 * 2 ^ 47 * 16 ^ length (fraction (2 ^ 52 + 2 ^ 47))
fraction-mantissa_example = fraction-mantissa (2 ^ 52 + 2 ^ 47) (omega arith)

-- `2^-1023`, a subnormal number, whose only bit is lost.
fraction_of_a_subnormal : fraction (2 ^ 52) ≡ codes "000000000000"
unfolding fraction without_bit_52 padded_hex hex_digits hex_digit hex_width
fraction_of_a_subnormal = refl

-- `1 & 1`, which Why3 cannot write.
abbrev unwritable : Exp
unwritable = binary_op BinOp.bit_and one one

pretty_exp_cases_example :
    (IsPrintable unwritable × ((d : Text) × (pretty_exp text_docs unwritable new ≡ some (d, new))))
    ⊎ ((IsPrintable unwritable → ⊥) × (pretty_exp text_docs unwritable new ≡ none))
pretty_exp_cases_example = pretty_exp_cases text_docs unwritable new
