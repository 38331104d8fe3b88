-- ===== src/Constraint.antt =====
-- constraints/: the custom constraints.
pub mod Count
pub mod AtMost
pub mod Xor
pub mod Linear
pub mod Supports
pub mod Graph
