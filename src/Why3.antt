-- ===== src/Why3.antt =====
-- why3/: the Why3 names, expressions, and the scopes of the printer.
pub mod Name
pub mod Scope
pub mod Types
pub mod Exp
pub mod Coma
pub mod Declaration
pub mod Print
