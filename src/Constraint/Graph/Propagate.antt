-- ===== src/Constraint/Graph/Propagate.antt =====
-- constraints/Graph.cc: propagate and undo. `none` is a call of abort(); the assert
-- on the pending propagations is not modelled.
use glucose.Prelude.{
  ℕ, zero, suc, ◌+◌, ◌-◌, Bool, true, false, not, ◌&&◌, Option, none, some, List, [], ◌∷◌, ltb, leb,
  ◌==◌, if◌then◌else◌, update,
}
use glucose.Prelude.Lists.{length, get_or}
use glucose.Prelude.Int.{pos, ltb_ℤ}
use glucose.Lit.{Lit, Var, neg, var}
use glucose.Lbool.{l_true, l_false, l_undef}
use glucose.Solver.{Solver, ConstraintRef, value, register_undo, enqueue}
use glucose.Constraint.Graph.{
  NodeState, undecided, active, inactive, Dfs, blank, Cause, disconnected, at_vertex,
  ActiveVerticesConnected, is_active, is_inactive,
}
use glucose.Constraint.Graph.Tree.{build_tree}

abbrev State : Type 0
State = ActiveVerticesConnected

-- The vertices that the loops over `var_to_idx_` visit, from lower_bound on.
unfoldable pub vertices_of : Var → List (Var × ℕ) → List ℕ
vertices_of x [] = []
vertices_of x ((y, i) ∷ es) =
    let rest = vertices_of x es in if ltb y x then rest else if y == x then i ∷ rest else []

unfoldable pub record_state : State → ℕ → NodeState → ℕ → State
record_state c i st n = record c {
  state = update c.state i st;
  decision_order = i ∷ c.decision_order;
  n_active_vertices = n;
}

-- The first loop of `propagate`.
unfoldable pub decide_all : Solver → List ℕ → State → Option State
unfolding record_state
decide_all s [] c = some c
decide_all s (i ∷ is) c = elim (value s (get_or c.lits i 0)) [
  | l_true ↦ decide_all s is (record_state c i active (c.n_active_vertices + 1))
  | l_false ↦ decide_all s is (record_state c i inactive c.n_active_vertices)
  | l_undef ↦ none
]

-- `dfs`, `nonempty_cluster` and `n_all_clusters`, and whether the loop goes on.
pub record Clusters : Type 0 where
  pub dfs : Dfs
  pub nonempty : Option ℕ
  pub n_all : ℕ
  pub going : Bool

-- What follows the call of `buildTree` for vertex `i`.
unfoldable pub sort_cluster : Dfs → ℕ → Clusters → Clusters
sort_cluster d i k =
    if ltb 0 (d.subtree_active_count i)
    then elim k.nonempty [
      | none ↦ record { dfs = d; nonempty = some i; n_all = k.n_all; going = true }
      | some j ↦ record { dfs = d; nonempty = some j; n_all = k.n_all; going = false }
    ]
    else record { dfs = d; nonempty = k.nonempty; n_all = k.n_all + 1; going = true }

-- One round of the loop that builds the trees: vertex `i`, of `n`.
unfoldable pub grow : State → ℕ → ℕ → Clusters → Clusters
unfolding sort_cluster build_tree
grow c n i k = elim (is_inactive (c.state i)) [
  | true ↦ k
  | false ↦ elim (k.dfs.rank i) [
    | some r ↦ k
    | none ↦ sort_cluster (build_tree c.adj c.state n i none i k.dfs).0 i k
  ]
]

-- The loop, for `m` vertices from `i` on.
unfoldable pub grow_all : State → ℕ → ℕ → ℕ → Clusters → Clusters
unfolding grow
grow_all c n zero i k = k
grow_all c n (suc m) i k = elim k.going [ true ↦ grow_all c n m (suc i) (grow c n i k) | false ↦ k ]

-- `rank_[v] < rank_[w]`, where -1 is less than each rank.
unfoldable pub rank_less : Option ℕ → Option ℕ → Bool
rank_less none none = false
rank_less none (some s) = true
rank_less (some r) none = false
rank_less (some r) (some s) = ltb r s

unfoldable pub is_some : Option ℕ → ℕ → Bool
is_some none v = false
is_some (some x) v = x == v

unfoldable pub rank_of : Option ℕ → ℕ
rank_of none = 0
rank_of (some r) = r

-- The loop over the neighbours of `v`: the active vertices on the side of the parent and the
-- subgraphs that are cut off, of which at least one vertex is active.
unfoldable pub sides : Dfs → ℕ → List ℕ → ℕ → ℕ → ℕ × ℕ
unfolding rank_less is_some rank_of
sides d v [] parent_side cut = (parent_side, cut)
sides d v (w ∷ ws) parent_side cut =
    let count = d.subtree_active_count w in
    elim (rank_less (d.rank v) (d.rank w) && is_some (d.parent w) v) [
      | false ↦ sides d v ws parent_side cut
      | true ↦ elim (ltb (d.lowlink w) (rank_of (d.rank v))) [
        | true ↦ sides d v ws (parent_side + count) cut
        | false ↦ sides d v ws parent_side (if ltb 0 count then cut + 1 else cut)
      ]
    ]

-- Whether `v` is found to be an articulation point of the cluster `root`.
unfoldable pub separates : State → Dfs → ℕ → ℕ → Bool
unfolding sides
separates c d root v =
    let before = d.subtree_active_count root - d.subtree_active_count v in
    let (parent_side, cut) = sides d v (c.adj v) before 0 in
    ltb 1 (if ltb 0 parent_side then cut + 1 else cut)

-- The literal that the second loop enqueues for the vertex `v`, if it does.
unfoldable pub forced : State → Dfs → ℕ → ℕ → Lit → Option Lit
unfolding separates
forced c d root v l = elim (c.state v) [
  | active ↦ none
  | inactive ↦ none
  | undecided ↦
      if not (d.cluster_id v == root)
      then some (neg l)
      else if leb c.n_active_vertices 1
      then none
      else if separates c d root v
      then some l
      else none
]

-- The second loop, over the literals of the vertices from `v` on; after a failure the cause.
unfoldable pub force_all :
    Solver → ConstraintRef → State → Dfs → ℕ → ℕ → List Lit → Solver × Option Cause
unfolding forced
force_all s self c d root v [] = (s, none)
force_all s self c d root v (l ∷ ls) = elim (forced c d root v l) [
  | none ↦ force_all s self c d root (suc v) ls
  | some p ↦
      let (t, done) = enqueue s p self in
      elim done [
        | true ↦ force_all t self c d root (suc v) ls
        | false ↦ (t, some (at_vertex v (neg p)))
      ]
]

-- `propagate` after the loop that builds the trees.
unfoldable pub settle : Solver → ConstraintRef → State → Clusters → Solver × State × Bool
unfolding force_all
settle s self c k =
    let e = record c { dfs = k.dfs } in
    elim k.going [
      | false ↦ (s, record e { conflict_cause = disconnected }, false)
      | true ↦ elim (leb c.n_active_vertices 1 && k.n_all == 0) [
        | true ↦ (s, e, true)
        | false ↦ elim k.nonempty [
          | none ↦ (s, e, true)
          | some root ↦
              let (t, clash) = force_all s self c k.dfs root 0 c.lits in
              elim clash [
                | none ↦ (t, e, true)
                | some cause ↦ (t, record e { conflict_cause = cause }, false)
              ]
        ]
      ]
    ]

-- `propagate` from the test of the pending propagations on.
unfoldable pub judge : Solver → ConstraintRef → State → Solver × State × Bool
unfolding grow_all settle blank
judge s self c =
    if ltb_ℤ (pos 0) (s.num_pending_propagation self)
    then (s, c, true)
    else if c.n_active_vertices == 0
    then (s, c, true)
    else (let n = length c.lits in
        settle s self c
          (grow_all c n n 0 (record { dfs = blank; nonempty = none; n_all = 0; going = true })))

unfoldable pub propagate : Solver → ConstraintRef → State → Lit → Option (Solver × State × Bool)
unfolding vertices_of decide_all judge
propagate s self c p =
    let s' = register_undo s (var p) self in
    elim (decide_all s' (vertices_of (var p) c.var_to_idx) c) [
      | none ↦ none
      | some d ↦ some (judge s' self d)
    ]

abbrev pop : List ℕ → List ℕ
pop [] = []
pop (i ∷ is) = is

-- The loop of `undo`.
unfoldable pub undo_all : List ℕ → State → State
undo_all [] c = c
undo_all (i ∷ is) c = undo_all is (record c {
  n_active_vertices =
      if is_active (c.state i) then c.n_active_vertices - 1 else c.n_active_vertices;
  state = update c.state i undecided;
  decision_order = pop c.decision_order;
})

unfoldable pub undo : State → Lit → State
unfolding vertices_of undo_all
undo c p = undo_all (vertices_of (var p) c.var_to_idx) c
