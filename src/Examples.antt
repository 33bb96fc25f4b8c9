-- ===== src/Examples.antt =====
-- Concrete names, scopes and expressions of the components.
mod Naming
mod Names
mod Scopes
mod Truths
mod Substitution
mod Simplify
mod Contracts
mod Orders
mod Printing
mod Handlers
mod Conditions
