-- ===== src/Constraint/Graph/Reason.antt =====
-- constraints/Graph.cc, calcReason. `none` is a call of abort(), and lit_Undef.
use glucose.Prelude.{
  ℕ, zero, suc, Bool, true, false, not, ◌&&◌, Option, none, some, List, [], ◌∷◌, ◌==◌,
  if◌then◌else◌, update,
}
use glucose.Prelude.Lists.{length, get_or}
use glucose.Prelude.Int.{pos, negsuc, ltb_ℤ}
use glucose.Lit.{Lit, neg, var}
use glucose.Constraint.Graph.{
  NodeState, undecided, active, inactive, unset, disconnected, at_vertex, ActiveVerticesConnected,
  is_active, is_inactive,
}
use glucose.Constraint.Graph.UnionFind.{
  UnionFind, union_find, merge, add_active_count, commit, redo,
}

abbrev State : Type 0
State = ActiveVerticesConnected

-- `p == l`, where `none` is lit_Undef.
unfoldable pub is_lit : Option Lit → Lit → Bool
is_lit none l = false
is_lit (some p) l = p == l

-- The first loop, over the literals of the vertices from `i` on: the union-find and `activated`.
unfoldable pub count_active : ℕ → (ℕ → NodeState) → List Lit → ℕ → UnionFind → UnionFind
unfolding add_active_count is_active
count_active n state [] i u = u
count_active n state (l ∷ ls) i u =
    count_active n state ls (suc i)
      (if is_active (state i) then add_active_count n i (pos 1) u else u)

unfoldable pub activate : Option Lit → (ℕ → NodeState) → List Lit → ℕ → ℕ → Bool
unfolding is_lit is_inactive
activate p state [] i v = false
activate p state (l ∷ ls) i v =
    if i == v
    then not (is_inactive (state i)) && not (is_lit p l)
    else activate p state ls (suc i) v

-- The loop over the neighbours of `v`.
unfoldable pub merge_each : ℕ → (ℕ → Bool) → ℕ → List ℕ → UnionFind → UnionFind
unfolding merge
merge_each n activated v [] u = u
merge_each n activated v (w ∷ ws) u =
    merge_each n activated v ws (if activated w then merge n v w u else u)

-- The second loop, for `m` vertices from `v` on.
unfoldable pub merge_all : ℕ → (ℕ → List ℕ) → (ℕ → Bool) → ℕ → ℕ → UnionFind → UnionFind
unfolding merge_each
merge_all n adj activated zero v u = u
merge_all n adj activated (suc m) v u =
    merge_all n adj activated m (suc v)
      (if activated v then merge_each n activated v (adj v) u else u)

-- The third loop: the vertices whose literal is the negation of `p`.
unfoldable pub count_negated : ℕ → Option Lit → List Lit → ℕ → UnionFind → UnionFind
unfolding add_active_count
count_negated n none ls i u = u
count_negated n (some p) [] i u = u
count_negated n (some p) (l ∷ ls) i u =
    count_negated n (some p) ls (suc i) (if l == neg p then add_active_count n i (pos 1) u else u)

-- `out_reason.push` for a vertex that is not left out.
unfoldable pub explain : NodeState → Lit → List Lit → List Lit
explain undecided l rest = rest
explain active l rest = l ∷ rest
explain inactive l rest = neg l ∷ rest

unfoldable pub same_var : Option Lit → Lit → Bool
unfolding var
same_var none l = false
same_var (some p) l = var p == var l

-- The union-find with vertex `v` taken as undecided.
unfoldable pub relax : ℕ → State → (ℕ → Bool) → ℕ → UnionFind → UnionFind
unfolding merge_each add_active_count is_active
relax n c activated v u =
    merge_each n activated v (c.adj v)
      (if is_active (c.state v) then add_active_count n v (negsuc 0) u else u)

-- The last loop, from the back of `decision_order_`.
unfoldable pub explain_all :
    ℕ → State → Option Lit → List ℕ → (ℕ → Bool) → UnionFind → Option (List Lit)
unfolding explain relax same_var commit redo
explain_all n c p [] activated u = some []
explain_all n c p (v ∷ vs) activated u =
    let l = get_or c.lits v 0 in
    let u' = relax n c activated v u in
    elim (same_var p l) [
      | true ↦ none
      | false ↦ elim (ltb_ℤ (pos 1) u'.n_active_clusters) [
        | true ↦ explain_all n c p vs (update activated v true) (commit u')
        | false ↦ elim (explain_all n c p vs activated (redo u')) [
          | none ↦ none
          | some rest ↦ some (explain (c.state v) l rest)
        ]
      ]
    ]

-- The loops before `Commit`.
unfoldable pub cut_graph : State → Option Lit → UnionFind
unfolding count_active activate merge_all count_negated
cut_graph c p =
    let n = length c.lits in
    let u = count_active n c.state c.lits 0 union_find in
    count_negated n p c.lits 0 (merge_all n c.adj (activate p c.state c.lits 0) n 0 u)

-- From the declaration of `union_find` to the end of the last loop.
unfoldable pub reason_of : State → Option Lit → Option (List Lit)
unfolding cut_graph explain_all activate commit
reason_of c p =
    let u = commit (cut_graph c p) in
    if ltb_ℤ (pos 1) u.n_active_clusters
    then explain_all (length c.lits) c p c.decision_order (activate p c.state c.lits 0) u
    else none

-- The state in which a conflict at a vertex is explained: its literal was `l`.
unfoldable pub assume : State → ℕ → Lit → State
assume c v l = record c {
  decision_order = v ∷ c.decision_order;
  state = update c.state v (if l == get_or c.lits v 0 then active else inactive);
}

abbrev pop : List ℕ → List ℕ
pop [] = []
pop (i ∷ is) = is

-- The last statements.
unfoldable pub release : State → ℕ → State
release c v = record c { decision_order = pop c.decision_order; state = update c.state v undecided }

abbrev pub with_reason : State → Option (List Lit) → Option (State × List Lit)
with_reason c none = none
with_reason c (some reason) = some (c, reason)

-- `extra` is read by an assert only.
unfoldable pub calc_reason : State → Option Lit → Option (State × List Lit)
unfolding reason_of assume release
calc_reason c (some p) = with_reason c (reason_of c (some p))
calc_reason c none = elim c.conflict_cause [
  | unset ↦ none
  | disconnected ↦ with_reason c (reason_of c none)
  | at_vertex v l ↦ let d = assume c v l in with_reason (release d v) (reason_of d none)
]
