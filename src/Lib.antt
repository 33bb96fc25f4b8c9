-- ===== src/Lib.antt =====
-- A model of parts of Creusot, with their correctness: how it writes Why3 names and expressions, and
-- the contracts of its library.
--
-- Creusot translates Rust items to Why3 modules. creusot/src/naming.rs makes Why3 names from Rust
-- names and paths. The crate why3 holds the syntax that is written: identifiers with a number that
-- tells them apart (why3/src/name.rs), types (why3/src/ty.rs) and expressions (why3/src/exp.rs,
-- why3/src/exp/binder.rs). When a module is printed, a scope (why3/src/printer.rs) gives each
-- identifier in scope a name of its own, and declarations, expressions and the programs of the language Coma
-- (why3/src/declaration.rs, why3/src/coma.rs) are laid out by the crate `pretty`. The crate creusot-contracts gives functions of the standard
-- library contracts, some with a body that is to meet the contract, and logical types and orders.
--
-- - Prelude: the names of the libraries that all files use, Boolean tests, decimals and texts. A Rust
--   string is the list of its code points, and an interned `Symbol` is its text.
-- - Naming: `value_name`, `type_name`, `variable_name`, `translate_name` and what they call.
--   Naming.Path: `ModulePath`, `ident_path_segments` and the file names; the compiler's `TyCtxt` is the
--   parameter `Tcx`. The loop over the parents of an item has fuel, one more than the item's index,
--   which is enough since a parent's index is smaller (`parent_lt`, a fact of the compiler).
-- - Why3.Name: `Ident`, `QName`, `Name`, the keywords and `fresh_u64`, whose atomic counter is a number
--   that is passed along and wraps around at 2 ^ 64. Why3.Name.Qualified: the functions of `QName`.
-- - Why3.Scope: `Scope` of the printer. A `HashMap` is a function, a `HashSet` a list. The loop of
--   `bind` has fuel, one more than there are bound symbols. `none` is the panic of an `unwrap`.
-- - Why3.Types: the types and attributes that expressions hold.
-- - Why3.Declaration: why3/src/declaration.rs, declarations, modules and contracts; Why3.Declaration.Meant: what the
--   conjunctions of a contract mean. Why3.Coma: why3/src/coma.rs, the expressions of Coma and what builds and asks
--   them; Why3.Coma.Free: the symbols that are free in them.
-- - Why3.Print: `Why3Scope` and the printers. A printer is a function from the scopes to a document and the scopes
--   after it, or to `none`, a panic. `Docs` is the parameter for the crate `pretty`, and for `partition_point` of
--   slices, which is taken to return an index within the slice, or its length (the hypothesis `PartitionsWithin`; the
--   standard library documents it for partitioned slices, and the arguments of an application can be unpartitioned). Why3.Print.Terms: names, types, patterns and
--   expressions; Why3.Print.Coma: Coma, whose applications are collected by one recursion (`layout`) in place of the
--   loop over the heads; Why3.Print.Decls: declarations and modules; Why3.Print.Float: `print_float`, with the parameter
--   `Floats` for what it asks of a number. Why3.Print.Bound: printers by the names that they bind.
-- - Why3.Exp: expressions. Why3.Exp.Build: the functions that build them. Why3.Exp.Visit: `BoundSubst`,
--   with the counter passed along and `none` for the panic on a suffix. Why3.Exp.Occurs: the counts
--   of variables and `let_`. Why3.Exp.Precedence: precedences, and the rotation of
--   `reassociate`. Why3.Exp.Reassociate: its traversal, on fuel, one more than a weight of the expression that a
--   rotation and every step to a child lower. Why3.Exp.Semantics: a compositional meaning, the specification of these, by which
--   Why3.Exp.Simplify, Why3.Exp.Subst and Why3.Exp.Occurs state what the functions keep.
-- - Contracts.Option: creusot-contracts/src/std/option.rs, the bodies that the functions of `Option` are
--   specified with; Contracts.Option.Specs: their `requires` and `ensures`. A closure is a parameter with
--   its conditions (Contracts.Closures), and a mutable borrow is its value now and when it ends. Contracts.Effects:
--   the calls on shared borrows and the drops of a body, written down in order where a contract speaks of what is
--   dropped. That a dropped value is resolved is what the verifier adds to a drop: it is a hypothesis of the
--   theorems, `Resolved`, for any predicate `resolve`.
-- - Contracts.Order: creusot-contracts/src/logic/ord.rs and creusot-contracts/src/std/cmp.rs, the logical
--   orders with their laws, and the comparisons of Rust with their contracts.
-- - Examples: the theorems at concrete inputs.
--
-- Not modelled: everything that works through the compiler's API (the translation of MIR and of
-- Pearlite, the clone map, the analyses), the macros, the command line and the installation, what the crate
-- `pretty` makes of a document, and the interner.
pub mod Contracts
pub mod Examples
pub mod Naming
pub mod Prelude
pub mod Why3
