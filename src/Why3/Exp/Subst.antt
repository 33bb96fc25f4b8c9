-- ===== src/Why3/Exp/Subst.antt =====
-- The correctness of the capture-avoiding substitution of why3/src/exp.rs.
pub mod Refresh
pub mod Through
pub mod Steps
pub mod Sound
pub mod Correct
