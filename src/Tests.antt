-- ===== src/Tests.antt =====
-- Tests of the definitions at concrete inputs, and the theorems applied at inputs that meet their
-- hypotheses.
mod Values
mod Elimination
mod Constraints
mod Linear
mod Containers
mod Search
mod Propagate
mod Restart
mod Minimise
mod Analyze
mod Supports
mod Proof
mod Graph
