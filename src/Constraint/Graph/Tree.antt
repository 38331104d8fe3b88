-- ===== src/Constraint/Graph/Tree.antt =====
-- constraints/Graph.cc, buildTree: depth-first search with low links.
use glucose.Prelude.{
  ℕ, zero, suc, ◌+◌, Bool, true, false, ◌||◌, Option, none, some, List, [], ◌∷◌, ltb, ◌==◌,
  if◌then◌else◌, update,
}
use glucose.Constraint.Graph.{NodeState, Dfs, is_active, is_inactive}

unfoldable pub min : ℕ → ℕ → ℕ
min a b = if ltb b a then b else a

unfoldable pub is_vertex : Option ℕ → ℕ → Bool
is_vertex none w = false
is_vertex (some v) w = w == v

-- `lowlink` and `subtree_active_count` of the loop, after the arrays.
abbrev pub Scan : Type 0
Scan = Dfs × ℕ × ℕ

-- The body of the loop for a neighbour that is not passed over; `visit` is the recursive call.
unfoldable pub look : (ℕ → Dfs → Dfs × ℕ) → ℕ → Dfs → ℕ → ℕ → Scan
unfolding min
look visit w d low count = elim (d.rank w) [
  | none ↦ let (t, low_w) = visit w d in (t, min low low_w, count + t.subtree_active_count w)
  | some r ↦ (d, min low r, count)
]

-- The loop over the neighbours.
unfoldable pub scan : (ℕ → Dfs → Dfs × ℕ) → (ℕ → NodeState) → Option ℕ → List ℕ → Dfs → ℕ → ℕ → Scan
unfolding is_vertex is_inactive look
scan visit state parent [] d low count = (d, low, count)
scan visit state parent (w ∷ ws) d low count = elim (is_vertex parent w || is_inactive (state w)) [
  | true ↦ scan visit state parent ws d low count
  | false ↦
      let (t, low', count') = look visit w d low count in scan visit state parent ws t low' count'
]

-- The statements before the loop.
unfoldable pub open_vertex : ℕ → Option ℕ → ℕ → Dfs → Dfs
open_vertex v parent cluster d = record {
  rank = update d.rank v (some d.next_rank);
  lowlink = d.lowlink;
  subtree_active_count = d.subtree_active_count;
  cluster_id = update d.cluster_id v cluster;
  parent = update d.parent v parent;
  next_rank = suc d.next_rank;
}

-- The statements after the loop.
unfoldable pub close_vertex : ℕ → Scan → Dfs × ℕ
close_vertex v (d, low, count) = (
  record {
    rank = d.rank;
    lowlink = update d.lowlink v low;
    subtree_active_count = update d.subtree_active_count v count;
    cluster_id = d.cluster_id;
    parent = d.parent;
    next_rank = d.next_rank;
  },
  low,
)

-- The recursion takes one of the fuel for each vertex on the way down.
unfoldable pub build_tree : (ℕ → List ℕ) → (ℕ → NodeState) → ℕ → ℕ → Option ℕ → ℕ → Dfs → Dfs × ℕ
unfolding scan open_vertex close_vertex is_active
build_tree adj state zero v parent cluster d = (d, 0)
build_tree adj state (suc fuel) v parent cluster d =
    let visit = λ (w : ℕ) (e : Dfs). build_tree adj state fuel w (some v) cluster e in
    let count = if is_active (state v) then 1 else 0 in
    close_vertex v
      (scan visit state parent (adj v) (open_vertex v parent cluster d) d.next_rank count)
