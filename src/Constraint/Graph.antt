-- ===== src/Constraint/Graph.antt =====
-- constraints/Graph.h and constraints/Graph.cc: the vertices whose literals are true are connected.
-- An array indexed by a vertex is a function, -1 is `none` in `rank_` and `parent_`, and the head of
-- `decision_order_` is its back. The edges lead to vertices that have a literal.
pub mod Tree
pub mod Propagate
pub mod Initialize
pub mod UnionFind
pub mod Reason
pub mod Redo
pub mod Indices
pub mod Found
pub mod Parts
pub mod Groups
pub mod Splits
pub mod Undo
pub mod States
pub mod Grown
pub mod Opened
pub mod Scanned
pub mod Loop
pub mod Closed
pub mod Built
pub mod Clusters
pub mod Forest
pub mod Cuts
pub mod Separates
pub mod Sound
pub mod Accepts
pub mod Aborts
pub mod Edges
pub mod Sums
pub mod Fields
pub mod Partition
pub mod Linked
pub mod Joins
pub mod Relaxed
pub mod Explains
pub mod Begins
pub mod Explained
pub mod Implies
pub mod Returns
use glucose.Prelude.{
  ℕ, zero, suc, ◌+◌, ◌-◌, ◌*◌, ◌/◌, ◌%◌, ◌^◌, ◌≤◌, ◌<◌, ◌≡◌, refl, sym, ap, subst, ◌∙◌, ◌≢◌, ◌↔◌,
  ◌⊎◌, inl, inr, Bool, true, false, not, ◌&&◌, ◌||◌, Option, none, some, List, [], ◌∷◌, ◌++◌, map,
  arith, ltb, leb, ◌==◌, if◌then◌else◌, ==_iff, ==_refl, ==_ne, eq_of_==, Bool-cases, Option-cases,
  update, xor,
}
use glucose.Prelude.Lists.{length}
use glucose.Lit.{Lit, Var, var}

pub data NodeState : Type 0 where
  undecided active inactive : NodeState

-- What `buildTree` reads and writes.
pub record Dfs : Type 0 where
  pub rank : ℕ → Option ℕ
  pub lowlink : ℕ → ℕ
  pub subtree_active_count : ℕ → ℕ
  pub cluster_id : ℕ → ℕ
  pub parent : ℕ → Option ℕ
  pub next_rank : ℕ

-- `conflict_cause_pos_`, which is -2, -1 or a vertex, and for a vertex `conflict_cause_lit_`.
pub data Cause : Type 0 where
  unset disconnected : Cause
  at_vertex : ℕ → Lit → Cause

pub record ActiveVerticesConnected : Type 0 where
  pub lits : List Lit
  pub var_to_idx : List (Var × ℕ)
  pub adj : ℕ → List ℕ
  pub state : ℕ → NodeState
  pub decision_order : List ℕ
  pub dfs : Dfs
  pub conflict_cause : Cause
  pub n_active_vertices : ℕ

unfoldable pub is_active : NodeState → Bool
is_active undecided = false
is_active active = true
is_active inactive = false

unfoldable pub is_inactive : NodeState → Bool
is_inactive undecided = false
is_inactive active = false
is_inactive inactive = true

-- The two pushes for each edge.
unfoldable pub add_edges : List (ℕ × ℕ) → (ℕ → List ℕ) → ℕ → List ℕ
add_edges [] adj = adj
add_edges ((v, w) ∷ es) adj =
    let adj' = update adj v (adj v ++ w ∷ []) in add_edges es (update adj' w (adj' w ++ v ∷ []))

-- The sort of `var_to_idx_`, by insertion: the pairs are distinct, so every sort gives the same list.
unfoldable pub insert_pair : Var → ℕ → List (Var × ℕ) → List (Var × ℕ)
insert_pair x i [] = (x, i) ∷ []
insert_pair x i ((y, j) ∷ es) =
    if ltb x y || x == y && ltb i j then (x, i) ∷ (y, j) ∷ es else (y, j) ∷ insert_pair x i es

unfoldable pub index_vars : List Lit → ℕ → List (Var × ℕ)
unfolding insert_pair
index_vars [] i = []
index_vars (l ∷ ls) i = insert_pair (var l) i (index_vars ls (suc i))

-- The arrays of a search that has not begun.
unfoldable pub blank : Dfs
blank = record {
  rank = λ v. none;
  lowlink = λ v. 0;
  subtree_active_count = λ v. 0;
  cluster_id = λ v. 0;
  parent = λ v. none;
  next_rank = 0;
}

-- The constructor.
unfoldable pub connected_of : List Lit → List (ℕ × ℕ) → ActiveVerticesConnected
unfolding add_edges index_vars blank
connected_of lits edges = record {
  lits = lits;
  var_to_idx = index_vars lits 0;
  adj = add_edges edges λ v. [];
  state = λ v. undecided;
  decision_order = [];
  dfs = blank;
  conflict_cause = unset;
  n_active_vertices = 0;
}
