-- ===== src/Container.antt =====
-- mtl/ and core/: the containers that the solver keeps its work in.
pub mod Queue
pub mod Bqueue
