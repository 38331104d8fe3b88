-- ===== src/Simp.antt =====
-- simp/SimpSolver.cc: the elimination of variables by resolution, and the extension of a model to
-- the eliminated variables.
pub mod Merge
pub mod Stack
pub mod Eliminate
pub mod Subsume
