-- ===== src/Contracts.antt =====
-- creusot-contracts/src: the contracts of the standard library and the logical types.
pub mod Closures
pub mod Effects
pub mod Option
pub mod Order
