-- ===== src/Tests/Graph.antt =====
-- constraints/Graph.cc.
use glucose.Prelude.{
  ℕ, zero, suc, ◌<◌, ◌≡◌, refl, sym, subst, ◌≢◌, ◌↔◌, ◌⊎◌, inl, inr, Bool, true, false, ◌||◌, none,
  some, List, [], ◌∷◌, map, arith, ◌==◌, if◌then◌else◌, eq_of_==, Bool-cases,
}
use glucose.Prelude.Lists.{In, All, get_or}
use glucose.Prelude.Int.{pos, ◌+ℤ◌, ◌-ℤ◌}
use glucose.Lit.{Lit, neg, var, sign}
use glucose.Lit.Truth.{Assignment, holds}
use glucose.Lbool.{l_true, l_undef}
use glucose.Solver.{Solver, no_reason, register_undo, enqueue, assign, add_num_pending_propagation}
use glucose.Solver.Agree.{Agrees}
use glucose.Constraint.Graph.{
  undecided, active, inactive, unset, disconnected, at_vertex, ActiveVerticesConnected, blank,
  is_active, is_inactive, insert_pair, index_vars, add_edges, connected_of,
}
use glucose.Constraint.Graph.Propagate.{vertices_of, propagate, undo}
use glucose.Constraint.Graph.UnionFind.{union_find}
use glucose.Constraint.Graph.Indices.{Apart, IsOf}
use glucose.Constraint.Graph.Undo.{kept, graph_undo-propagate}
use glucose.Constraint.Graph.Cuts.{Walk, here, step, walk_stays, Connects}
use glucose.Constraint.Graph.Splits.{stays, IsSplit}
use glucose.Constraint.Graph.Sound.{on}
use glucose.Constraint.Graph.Aborts.{Records, connected_propagate-aborts}
use glucose.Constraint.Graph.UnionFind.{union_find}
use glucose.Constraint.Graph.Reason.{calc_reason}
use glucose.Constraint.Graph.Explained.{IsRecorded}
use glucose.Constraint.Graph.Returns.{IsUnset, connected_reason-explains}
use glucose.Constraint.Graph.Accepts.{IsGraph-moves, IsGraph, Allows, connected_propagate-Agrees}

-- The variables 0 and 2 are true, the others have no value.
abbrev ends_set : Solver
ends_set = record {
  assigns = λ v. if v == 0 || v == 2 then l_true else l_undef;
  reason = λ v. no_reason;
  level = λ v. 0;
  trail = 4 ∷ 0 ∷ [];
  trail_lim = [];
  qhead = 2;
  polarity = λ v. true;
  undo_lists = λ v. [];
  constr_watches = λ p. [];
  num_pending_propagation = λ c. pos 0;
  enqueue_failure = none;
  phase_saving = 2;
}

abbrev path_adj : ℕ → List ℕ
path_adj zero = 1 ∷ []
path_adj (suc zero) = 0 ∷ 2 ∷ []
path_adj (suc (suc zero)) = 1 ∷ []
path_adj (suc (suc (suc v))) = []

-- The path 0 - 1 - 2, in which vertex 0 is known to be active.
abbrev path : ActiveVerticesConnected
path = record {
  lits = 0 ∷ 2 ∷ 4 ∷ [];
  var_to_idx = (0, 0) ∷ (1, 1) ∷ (2, 2) ∷ [];
  adj = path_adj;
  state = λ v. if v == 0 then active else undecided;
  decision_order = 0 ∷ [];
  dfs = blank;
  conflict_cause = unset;
  n_active_vertices = 1;
}

-- The constructor makes that graph.
path_of :
    let c = connected_of (0 ∷ 2 ∷ 4 ∷ []) ((0, 1) ∷ (1, 2) ∷ []) in
    (c.var_to_idx ≡ path.var_to_idx)
    × (c.adj 0 ≡ path.adj 0)
    × (c.adj 1 ≡ path.adj 1)
    × (c.adj 2 ≡ path.adj 2)
unfolding connected_of index_vars insert_pair add_edges var
path_of = (refl, refl, refl, refl)

-- When the other end becomes active, so does the vertex between them.
abbrev outcome : Solver × ActiveVerticesConnected × Bool
outcome = elim (propagate ends_set 0 path 4) [ none ↦ (ends_set, path, false) | some r ↦ r ]

returned : propagate ends_set 0 path 4 ≡ some (outcome.0, outcome.1, outcome.2)
unfolding propagate var register_undo sign enqueue assign add_num_pending_propagation
returned = refl

middle_forced : (outcome.0.assigns 1 ≡ l_true) × (outcome.2 ≡ true)
unfolding propagate var register_undo sign enqueue assign add_num_pending_propagation
middle_forced = (refl, refl)

only_last : All (λ i. path.state i ≡ undecided) (vertices_of (var 4) path.var_to_idx)
unfolding vertices_of var
only_last = (refl, tt)

path-indexed : path.var_to_idx ≡ index_vars path.lits 0
unfolding index_vars insert_pair var
path-indexed = refl

graph_undo-propagate_example : kept (undo outcome.1 4) ≡ kept path
graph_undo-propagate_example =
    graph_undo-propagate ends_set outcome.0 0 path outcome.1 4 outcome.2 path-indexed only_last
      returned

path-symmetric : (x y : ℕ) → In y (path_adj x) → In x (path_adj y)
path-symmetric zero y (inl e) = subst (λ z. In 0 (path_adj z)) e (inl refl)
path-symmetric zero y (inr m) = absurd m
path-symmetric (suc zero) y (inl e) = subst (λ z. In 1 (path_adj z)) e (inl refl)
path-symmetric (suc zero) y (inr (inl e)) = subst (λ z. In 1 (path_adj z)) e (inl refl)
path-symmetric (suc zero) y (inr (inr m)) = absurd m
path-symmetric (suc (suc zero)) y (inl e) = subst (λ z. In 2 (path_adj z)) e (inr (inl refl))
path-symmetric (suc (suc zero)) y (inr m) = absurd m
path-symmetric (suc (suc (suc x))) y m = absurd m

path-targets : (x : ℕ) → All (λ y. y < 3) (path_adj x)
path-targets zero = (omega arith, tt)
path-targets (suc zero) = (omega arith, (omega arith, tt))
path-targets (suc (suc zero)) = (omega arith, tt)
path-targets (suc (suc (suc x))) = tt

path-simple : (x : ℕ) → Apart (path_adj x)
path-simple zero = (tt, tt)
path-simple (suc zero) = ((λ e. omega arith, tt), (tt, tt))
path-simple (suc (suc zero)) = (tt, tt)
path-simple (suc (suc (suc x))) = tt

path-IsGraph : IsGraph path
path-IsGraph = record {
  indexed = path-indexed;
  targets = path-targets;
  symmetric = path-symmetric;
  simple = path-simple;
}

-- All three vertices are active.
abbrev all_true : Assignment
all_true v = true

abbrev all_on : ℕ → Bool
all_on = on all_true path.lits

path-active : (x : ℕ) → is_active (path.state x) ≡ true → all_on x ≡ true
unfolding is_active holds sign
path-active zero e = refl
path-active (suc x) e = absurd (ground arith)

path-live : (x : ℕ) → is_inactive (path.state x) ≡ false
unfolding is_inactive
path-live zero = refl
path-live (suc x) = ground arith

to_zero : (x : ℕ) → all_on x ≡ true → Walk path_adj all_on x 0
unfolding holds sign
to_zero zero e = here
to_zero (suc zero) e = step here (inl refl) refl
to_zero (suc (suc zero)) e = step (step here (inl refl) refl) (inl refl) refl
to_zero (suc (suc (suc x))) e = absurd (ground arith)

path-connects : (x y : ℕ) → all_on x ≡ true → all_on y ≡ true → Walk path_adj all_on x y
unfolding holds sign
path-connects x zero e k = to_zero x e
path-connects x (suc zero) e k = step (to_zero x e) (inl refl) refl
path-connects x (suc (suc zero)) e k =
    step (step (to_zero x e) (inl refl) refl) (inr (inl refl)) refl
path-connects x (suc (suc (suc y))) e k = absurd (ground arith)

path-Allows : Allows all_true path
path-Allows = record {
  fits = record { active_on = path-active; on_live = λ x _. path-live x };
  connects = path-connects;
}

all_true-Agrees : Agrees all_true ends_set
all_true-Agrees v = ground arith

last_set : ends_set.assigns (var 4) ≢ l_undef
unfolding var
last_set e = ground arith

connected_propagate-Agrees_example :
    (t : Solver) × (d : ActiveVerticesConnected) × (propagate ends_set 0 path 4 ≡ some (t, d, true))
    × Agrees all_true t
    × IsGraph d
    × Allows all_true d
connected_propagate-Agrees_example =
    connected_propagate-Agrees all_true ends_set 0 path 4 path-IsGraph path-Allows all_true-Agrees
      last_set

-- Vertex 1 has the variable 1, which has no value, and no vertex has the variable 3, which has none
-- either.
aborts_at_one : propagate ends_set 0 path 2 ≡ none
unfolding propagate register_undo var
aborts_at_one = refl

passes_three :
    map (λ r. r.2) (elim (propagate ends_set 0 path 6) [ none ↦ [] | some r ↦ r ∷ [] ]) ≡ true ∷ []
unfolding propagate register_undo var
passes_three = refl

connected_propagate-aborts_example :
    ((propagate ends_set 0 path 4 ≡ none)
      ↔ (ends_set.assigns (var 4) ≡ l_undef) × (i : ℕ) × IsOf path.lits (var 4) i)
    × Records ends_set path 4 (propagate ends_set 0 path 4)
connected_propagate-aborts_example = connected_propagate-aborts ends_set 0 path 4 path-indexed

-- Both ends of the path are active, the one with the last literal since later.
abbrev ends : ActiveVerticesConnected
ends = record path {
  state = λ v. if v == 0 || v == 2 then active else undecided;
  decision_order = 2 ∷ 0 ∷ [];
  n_active_vertices = 2;
}

-- The middle vertex is active because both ends are.
both_ends : calc_reason ends (some 2) ≡ some (ends, 4 ∷ 0 ∷ [])
unfolding calc_reason neg union_find ◌+ℤ◌ ◌-ℤ◌
both_ends = refl

-- Vertex 0 is active and the vertex in the middle inactive, so that the other end, with the literal
-- 4, is inactive.
abbrev cut_off : ActiveVerticesConnected
cut_off = record path {
  state = λ v. if v == 0 then active else if v == 1 then inactive else undecided;
  decision_order = 1 ∷ 0 ∷ [];
}

cut_off-IsGraph : IsGraph cut_off
cut_off-IsGraph = IsGraph-moves path cut_off refl refl refl path-IsGraph

cut_off-IsRecorded : IsRecorded cut_off
cut_off-IsRecorded = record {
  decided = λ x known. elim (Bool-cases (x == 0)) [
    | inl a ↦ inr (inl (sym (eq_of_== x 0 a)))
    | inr not_a ↦ elim (Bool-cases (x == 1)) [
      | inl b ↦ inl (sym (eq_of_== x 1 b))
      | inr not_b ↦ absurd (known (rw (not_a, not_b) refl))
    ]
  ];
  vertices = (omega arith, (omega arith, tt));
}

-- Nothing but vertex 1 is next to vertex 0.
stays_there :
    (y z : ℕ)
    → y ≡ 0
    → In z (path_adj y)
    → stays cut_off.lits cut_off.state (some 5) z ≡ true
    → z ≡ 0
unfolding is_inactive
stays_there y z e m on = elim (subst (λ x. In z (path_adj x)) e m) [
  | inl f ↦
      absurd
        (false_true (subst (λ x. stays cut_off.lits cut_off.state (some 5) x ≡ true) (sym f) on))
  | inr none_is ↦ absurd none_is
]
  where
    false_true : false ≢ true
    false_true f = ground arith

cut_off-IsSplit : IsSplit cut_off.lits cut_off.adj cut_off.state (some 5)
unfolding is_active neg
cut_off-IsSplit = record {
  one = 0;
  other = 2;
  one_counts = (omega arith, inl refl);
  other_counts = (omega arith, inr refl);
  apart = λ w. let e = walk_stays _ _ (λ x. x ≡ 0) stays_there w refl in omega (arith, e);
}

cut_off-IsUnset : IsUnset cut_off 5
unfolding var
cut_off-IsUnset = (((omega arith, λ e. ground arith), ((omega arith, λ e. ground arith), tt)), free)
  where
    free : (v : ℕ) → v < 3 → var (get_or cut_off.lits v 0) ≡ 2 → cut_off.state v ≡ undecided
    free v lt e = ground arith

abbrev only_zero : Assignment
only_zero v = v == 0

cut_off-Connects : Connects cut_off.adj (on only_zero cut_off.lits)
unfolding holds sign var
cut_off-Connects zero zero e f = here
cut_off-Connects zero (suc y) e f = absurd (ground arith)
cut_off-Connects (suc x) y e f = absurd (ground arith)

end_is_cut_off : calc_reason cut_off (some 5) ≡ some (cut_off, 3 ∷ 0 ∷ [])
unfolding calc_reason neg union_find ◌+ℤ◌ ◌-ℤ◌
end_is_cut_off = refl

connected_reason-explains_example :
    (reason : List Lit) × (calc_reason cut_off (some 5) ≡ some (cut_off, reason))
    × ((holds only_zero 5 ≡ true) ⊎ (l : Lit) × In l reason × (holds only_zero l ≡ false))
connected_reason-explains_example =
    connected_reason-explains only_zero cut_off (some 5) cut_off-IsGraph cut_off-IsRecorded tt
      (cut_off-IsSplit, cut_off-IsUnset) cut_off-Connects

-- Both ends are active and the vertex between them is inactive.
abbrev apart : ActiveVerticesConnected
apart = record path {
  state = λ v. if v == 0 || v == 2 then active else inactive;
  decision_order = 2 ∷ 1 ∷ 0 ∷ [];
  conflict_cause = disconnected;
  n_active_vertices = 2;
}

apart_explained : calc_reason apart none ≡ some (apart, 4 ∷ 3 ∷ 0 ∷ [])
unfolding calc_reason neg union_find ◌+ℤ◌ ◌-ℤ◌
apart_explained = refl

-- The vertex in the middle has been found inactive.
abbrev clashing : ActiveVerticesConnected
clashing = record ends { conflict_cause = at_vertex 1 3 }

clash_explained :
    map (λ r. r.1) (elim (calc_reason clashing none) [ none ↦ [] | some r ↦ r ∷ [] ])
    ≡ (3 ∷ 4 ∷ 0 ∷ []) ∷ []
unfolding calc_reason neg union_find ◌+ℤ◌ ◌-ℤ◌
clash_explained = refl

-- The edge 0 - 1 is given twice and 1 - 2 once; vertices 1 and 2 are active and next to each other,
-- and yet vertex 0 is made active.
abbrev doubled : ActiveVerticesConnected
doubled = record (connected_of (0 ∷ 2 ∷ 4 ∷ []) ((0, 1) ∷ (0, 1) ∷ (1, 2) ∷ [])) {
  state = λ v. if v == 1 then active else undecided;
  decision_order = 1 ∷ [];
  n_active_vertices = 1;
}

abbrev last_set_too : Solver
last_set_too = record ends_set {
  assigns = λ v. if v == 1 || v == 2 then l_true else l_undef;
  trail = 4 ∷ 2 ∷ [];
}

doubled_forces :
    map
      (λ r. r.0.assigns 0)
      (elim (propagate last_set_too 0 doubled 4) [ none ↦ [] | some r ↦ r ∷ [] ])
    ≡ l_true ∷ []
unfolding propagate var register_undo sign enqueue assign add_num_pending_propagation connected_of
    index_vars insert_pair add_edges
doubled_forces = refl
