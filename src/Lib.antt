-- ===== src/Lib.antt =====
-- Verification of the glucose SAT solver: the propagation of clauses and constraints, the
-- constraints that are not clauses, the analysis of conflicts, the solver state that these work on,
-- the return to an earlier decision level, the form in which clauses are added, and the elimination
-- of variables with the extension of models.
--
-- The parts of the program. core/Solver.cc searches for an assignment: it keeps a trail of literals
-- that are true, watches clauses and constraints, and asks a constraint to propagate when one of
-- its watched literals becomes true, to give the reason of a literal or of a conflict, and to undo
-- what it counted when the search goes back. constraints/ holds the constraints, each a subclass of
-- core/Constraint.h. simp/SimpSolver.cc eliminates variables before the search; it stores the
-- clauses that it removes in `elimclauses`, from which `extendModel` computes the values of the
-- eliminated variables when the search has found a model of the rest.
--
-- The files.
--   Prelude/*: Boolean tests, lists, functions with one value changed, bits and integers.
--   Lit, Lit/*: core/SolverTypes.h, literals; the truth of a clause under an assignment.
--   Lbool, Lbool/Byte: core/SolverTypes.h, lifted booleans and their operators on bytes.
--   Solver, Solver/Agree: core/Solver.h and core/Solver.cc, the state that constraints see, the
--     values, `enqueue` of a literal by a constraint, and the registering of watches and undos.
--   Solver/Cancel, Solver/Cancel/*: core/Solver.cc, `cancelUntil`.
--   Solver/AddClause, Solver/AddClause/*: core/Solver.cc, the normal form that `addClause_` stores.
--   Search, Search/*: core/Solver.cc, `propagate`, with the laws that it asks of constraints.
--   Search/Attach, Search/Attach/*: core/Solver.cc, `attachClause` and `detachClause`; mtl/Alg.h,
--     `remove`.
--   Analyze, Analyze/*: core/Solver.cc, the loop of `analyze` that resolves a conflict, the removal
--     of literals with `ccmin_mode` 1 and 2, `litRedundant`, the level that it goes back to, and
--     `computeLBD`.
--   Analyze/Final, Analyze/Final/*: core/Solver.cc, `analyzeFinal`.
--   Restart, Restart/*: core/Solver.cc, `luby`.
--   Constraint/AtMost, Constraint/AtMost/*: constraints/AtMost.cc.
--   Constraint/Xor, Constraint/Xor/*: constraints/Xor.cc.
--   Constraint/Linear, Constraint/Linear/*: constraints/OrderEncodingLinear.cc.
--   Constraint/Supports, Constraint/Supports/*: constraints/DirectEncodingExtension.cc.
--   Constraint/Graph: constraints/Graph.cc, the state. Its children Tree, Propagate, Initialize,
--     UnionFind and Reason are `buildTree`, `propagate` with `undo`, `initialize`, the disjoint sets
--     and `calcReason`. The other children hold the proofs: Grown to Accepts are about the search
--     of the graph, Indices, Found and Aborts about the vertices of a variable, Redo, Sums to Returns,
--     Parts, Groups and Splits about the disjoint sets and reasons.
--   Container/*: mtl/Queue.h and core/BoundedQueue.h.
--   Proof, Proof/*: core/Solver.cc, the numbers of the binary proof format.
--   Simp/Merge, Simp/Merge/*: simp/SimpSolver.cc, the two functions `merge`.
--   Simp/Stack, Simp/Stack/*: simp/SimpSolver.cc, `mkElimClause` and `extendModel`.
--   Simp/Subsume, Simp/Subsume/*: core/SolverTypes.h, `subsumes`.
--   Simp/Eliminate, Simp/Eliminate/*: simp/SimpSolver.cc, `eliminateVar`.
--   Tests/*: runs on small inputs, and the theorems applied to concrete data.
--
-- How the model corresponds to the code. A variable is a number, a literal is its code, twice the
-- variable plus the sign; `lit_Undef` and -1 for no value are `none`. A vector that is indexed by
-- variables or literals is a function; one that is used as a stack (the trail, the undo lists,
-- `elimclauses`) is a list whose head is the vector's back. An operation that changes the solver
-- and a constraint takes both states and returns both, with the Boolean that the C++ function
-- returns. A C++ loop with `continue`, `break` and `return` is a function by recursion on the list
-- that it runs over. `std::sort` is insertion sort and `std::set` a sorted list without duplicates;
-- `std::lower_bound` on a sorted vector is a scan from its front. Integers are taken without
-- overflow, but for `MYFLAG` of `computeLBD` and the average of a bounded queue, which are taken
-- modulo 2 ^ 32.
--
-- Fuel. `extendModel` reads a stack of clauses with their sizes, and nothing but the sizes makes
-- it end. Its fuel is the number of words of the stack, of which each round takes at least one.
-- `write_lit` has the number that it writes as its fuel, since each round makes it smaller. The
-- outer loop of `propagate` has one unit of fuel for each variable and one more: each round takes
-- a literal of the trail, which has no more literals than there are variables. The loop of
-- `litRedundant` has one unit for each variable that is not marked and each literal of its stack.
-- The first loop of `luby` has the index and one more as its fuel, and the second the size that
-- the first one finds: the size doubles in each round of the first, and is halved in each of the
-- second. `buildTree` has one unit for each vertex, of which each nested call marks one more. The
-- walk to a root of the union-find has one unit for each element. All other loops run over a list
-- or count up to the number of vertices.
--
-- `propagate` is modelled with lists of watchers that hold no deleted clause, without the
-- incremental mode and the counters. What it calls of a constraint is an argument, with laws that
-- the linear constraint is shown to meet.
--
-- The analysis of a conflict walks along the trail, and is recursion on it. Activities, the
-- updating of LBDs, the incremental mode and printing are left out. What it calls of a constraint
-- is an argument.
--
-- The graph constraint returns `none` where the code calls abort(). Its arrays for the search are
-- part of the state, and each search starts with blank ones, as in the code. `parent_side_count`
-- starts as the difference of the counts of a tree and of a subtree of it, and `undo` takes back
-- increments of `n_active_vertices_`: neither goes below 0. A cause of a conflict is one value for
-- `conflict_cause_pos_` and `conflict_cause_lit_`, and an entry of `redo_` names its array in
-- place of the code's number for it.
--
-- Elimination works on the set of clauses. `addClause_` adds the clause as it is: sorting it,
-- dropping false literals and storing units on the trail keep the meaning of the clause set, and so
-- do the occurrence lists, the watchers and the backward subsumption. The counters for statistics
-- are left out.
--
-- Not modelled: the rest of the search (the minimisation with binary clauses, the choice of a
-- literal, restarts, reduction of the learnt clauses), the heuristics in floating point, the
-- memory allocator, the parallel solver, the division of a graph into regions, the reading of
-- options and files, and printing.
pub mod Analyze
pub mod Constraint
pub mod Container
pub mod Lbool
pub mod Lit
pub mod Prelude
pub mod Proof
pub mod Restart
pub mod Search
pub mod Simp
pub mod Solver
pub mod Tests
