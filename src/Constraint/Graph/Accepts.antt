-- ===== src/Constraint/Graph/Accepts.antt =====
-- `propagate` as a whole, for a graph in which no two edges join the same vertices.
use glucose.Prelude.{
  ℕ, zero, suc, ◌+◌, ◌<◌, ◌≡◌, refl, sym, ap, subst, ◌∙◌, ◌≢◌, inl, inr, Bool, true, false, some,
  List, [], ◌∷◌, arith, ◌==◌, eq_of_==, Bool-cases, update,
}
use glucose.Prelude.Lists.{All, length, get_or}
use glucose.Prelude.Int.{pos, ltb_ℤ}
use glucose.Lit.{Lit, Var, var}
use glucose.Lit.Truth.{Assignment, holds}
use glucose.Lbool.{l_undef, Lbool-cases}
use glucose.Solver.{Solver, ConstraintRef, value, register_undo}
use glucose.Solver.Agree.{Agrees, value-Agrees}
use glucose.Constraint.Graph.{
  NodeState, active, inactive, ActiveVerticesConnected, is_active, is_inactive, index_vars,
}
use glucose.Constraint.Graph.Propagate.{vertices_of, record_state, decide_all, judge, propagate}
use glucose.Constraint.Graph.Indices.{Apart, IsOf, vertices_of-IsOf}
use glucose.Constraint.Graph.Closed.{Symmetric}
use glucose.Constraint.Graph.Built.{Targets}
use glucose.Constraint.Graph.Forest.{clusters-LoopAt}
use glucose.Constraint.Graph.Cuts.{Connects, Fits}
use glucose.Constraint.Graph.Undo.{kept-judge}
use glucose.Constraint.Graph.Sound.{on, settle-Agrees}

-- The constraint is one for a graph without multiple edges, as the constructor makes it.
pub record IsGraph (c : ActiveVerticesConnected) : Type 0 where
  pub indexed : c.var_to_idx ≡ index_vars c.lits 0
  pub targets : Targets (length c.lits) c.adj
  pub symmetric : Symmetric c.adj
  pub simple : (v : ℕ) → Apart (c.adj v)

-- The active vertices are connected, and the states that are known are those of the assignment.
pub record Allows (a : Assignment) (c : ActiveVerticesConnected) : Type 0 where
  pub fits : Fits c.state (on a c.lits)
  pub connects : Connects c.adj (on a c.lits)

pub IsGraph-moves :
    (c d : ActiveVerticesConnected)
    → d.lits ≡ c.lits
    → d.var_to_idx ≡ c.var_to_idx
    → d.adj ≡ c.adj
    → IsGraph c
    → IsGraph d
IsGraph-moves c d ls es adj h = record {
  indexed = es ∙ h.indexed ∙ ap (λ x. index_vars x 0) (sym ls);
  targets = rw (ls, adj) h.targets;
  symmetric = rw adj h.symmetric;
  simple = rw adj h.simple;
}

Allows-moves :
    (a : Assignment) (c d : ActiveVerticesConnected)
    → d.lits ≡ c.lits
    → d.adj ≡ c.adj
    → Fits d.state (on a c.lits)
    → Connects c.adj (on a c.lits)
    → Allows a d
Allows-moves a c d ls adj fits connects = record {
  fits = rw ls fits;
  connects = rw (ls, adj) connects;
}

pub on-get_or :
    (a : Assignment) (ls : List Lit) (i : ℕ) → i < length ls → on a ls i ≡ holds a (get_or ls i 0)
on-get_or a [] i lt = absurd (omega arith)
on-get_or a (l ∷ ls) zero lt = refl
on-get_or a (l ∷ ls) (suc i) lt = on-get_or a ls i (omega arith)

-- The state of one more vertex is known.
Fits-update :
    (state : ℕ → NodeState) (f : ℕ → Bool) (i : ℕ) (x : NodeState)
    → (is_active x ≡ true → f i ≡ true)
    → (f i ≡ true → is_inactive x ≡ false)
    → Fits state f
    → Fits (update state i x) f
Fits-update state f i x up down h = record {
  active_on = λ y e. elim (Bool-cases (i == y)) [
    | inl same ↦ subst (λ z. f z ≡ true) (eq_of_== i y same) (up (rw same at e))
    | inr other ↦ h.active_on y (rw other at e)
  ];
  on_live = λ y e. elim (Bool-cases (i == y)) [
    | inl same ↦ rw same (down (subst (λ z. f z ≡ true) (sym (eq_of_== i y same)) e))
    | inr other ↦ rw other (h.on_live y e)
  ];
}

-- What the first loop has done.
record Decided (a : Assignment) (c d : ActiveVerticesConnected) : Type 0 where
  lits : d.lits ≡ c.lits
  var_to_idx : d.var_to_idx ≡ c.var_to_idx
  adj : d.adj ≡ c.adj
  fits : Fits d.state (on a c.lits)

Decided-record_state :
    (a : Assignment) (c d : ActiveVerticesConnected) (i : ℕ) (x : NodeState) (n : ℕ)
    → Decided a (record_state c i x n) d
    → Decided a c d
unfolding record_state
Decided-record_state a c d i x n k = record {
  lits = k.lits;
  var_to_idx = k.var_to_idx;
  adj = k.adj;
  fits = k.fits;
}

module _ (a : Assignment) (s : Solver) (x : Var) (agrees : Agrees a s)
    (set : s.assigns x ≢ l_undef) where
  decide_all-Decided :
      (is : List ℕ) (c : ActiveVerticesConnected)
      → All (IsOf c.lits x) is
      → Fits c.state (on a c.lits)
      → (d : ActiveVerticesConnected) × (decide_all s is c ≡ some d) × Decided a c d
  unfolding decide_all record_state is_active is_inactive
  decide_all-Decided [] c h fits =
      (c, refl, record { lits = refl; var_to_idx = refl; adj = refl; fits = fits })
  decide_all-Decided (i ∷ is) c ((lt, of_x), h) fits =
      let l = get_or c.lits i 0 in
      let is_on : on a c.lits i ≡ holds a l = on-get_or a c.lits i lt in
      let agree = value-Agrees a s l agrees in
      elim (Lbool-cases (value s l)) [
        | inl t ↦
            let fits' =
              Fits-update c.state (on a c.lits) i active (λ _. ground arith) (λ _. refl) fits in
            let (d, e, k) =
              decide_all-Decided is (record_state c i active (c.n_active_vertices + 1)) h fits' in
            rw (t, decide_all) (d, e, Decided-record_state a c d i _ _ k)
        | inr (inl f) ↦
            let fits' =
              Fits-update c.state (on a c.lits) i inactive (λ e. absurd (ground arith))
                (λ e. absurd (ground arith)) fits in
            let (d, e, k) =
              decide_all-Decided is (record_state c i inactive c.n_active_vertices) h fits' in
            rw (f, decide_all) (d, e, Decided-record_state a c d i _ _ k)
        | inr (inr u) ↦ absurd (set (ground arith))
      ]

judge-Agrees :
    (a : Assignment) (s : Solver) (self : ConstraintRef) (c : ActiveVerticesConnected)
    → IsGraph c
    → Allows a c
    → Agrees a s
    → Agrees a (judge s self c).0 × ((judge s self c).2 ≡ true)
unfolding judge
judge-Agrees a s self c graph allows agrees =
    elim (Bool-cases (ltb_ℤ (pos 0) (s.num_pending_propagation self))) [
      | inl waits ↦ rw waits (agrees, refl)
      | inr ready ↦ rw ready (elim (Bool-cases (c.n_active_vertices == 0)) [
        | inl idle ↦ rw idle (agrees, refl)
        | inr busy ↦ rw busy (
            settle-Agrees a s self c _ allows.fits allows.connects graph.simple
              (clusters-LoopAt c (length c.lits) graph.symmetric graph.targets) agrees)
      ])
    ]

-- What `judge` does not write.
judge-Allows :
    (a : Assignment) (s : Solver) (self : ConstraintRef) (c : ActiveVerticesConnected)
    → IsGraph c
    → Allows a c
    → IsGraph (judge s self c).1 × Allows a (judge s self c).1
judge-Allows a s self c graph allows =
    let same = kept-judge s self c in
    let d = (judge s self c).1 in
    (
      IsGraph-moves c d (ap (λ x. x.lits) same) (ap (λ x. x.var_to_idx) same) (ap (λ x. x.adj) same)
          graph,
      Allows-moves a c d (ap (λ x. x.lits) same) (ap (λ x. x.adj) same)
          (subst (λ f. Fits f (on a c.lits)) (sym (ap (λ x. x.state) same)) allows.fits)
          allows.connects,
    )

propagate-judge :
    (s : Solver) (self : ConstraintRef) (c d : ActiveVerticesConnected) (p : Lit)
    → let s' = register_undo s (var p) self in
      decide_all s' (vertices_of (var p) c.var_to_idx) c ≡ some d
      → (judge s' self d).2 ≡ true
      → propagate s self c p ≡ some ((judge s' self d).0, (judge s' self d).1, true)
unfolding propagate
propagate-judge s self c d p e done =
    let r = judge (register_undo s (var p) self) self d in
    let decided : propagate s self c p ≡ some r = rw (e, propagate) refl in
    decided ∙ ap (λ b. some (r.0, r.1, b)) done

-- Let the vertices whose literals hold in an assignment be connected, the known states be those of
-- the assignment, the graph have no multiple edges, and the variable of `p` have a value. If the
-- solver's values agree with the assignment then `propagate` returns, reports no conflict and sets
-- no value against the assignment, and all this holds of the constraint afterwards.
pub connected_propagate-Agrees :
    (a : Assignment) (s : Solver) (self : ConstraintRef) (c : ActiveVerticesConnected) (p : Lit)
    → IsGraph c
    → Allows a c
    → Agrees a s
    → s.assigns (var p) ≢ l_undef
    → (t : Solver) × (d : ActiveVerticesConnected) × (propagate s self c p ≡ some (t, d, true))
      × Agrees a t
      × IsGraph d
      × Allows a d
unfolding register_undo
connected_propagate-Agrees a s self c p graph allows agrees set =
    let s' = register_undo s (var p) self in
    let (d, e, k) =
      decide_all-Decided a s' (var p) agrees set (vertices_of (var p) c.var_to_idx) c
        (subst (λ es. All (IsOf c.lits (var p)) (vertices_of (var p) es)) (sym graph.indexed)
          (vertices_of-IsOf (var p) c.lits))
        allows.fits in
    let graph' : IsGraph d = IsGraph-moves c d k.lits k.var_to_idx k.adj graph in
    let allows' : Allows a d = Allows-moves a c d k.lits k.adj k.fits allows.connects in
    let (agrees', done) = judge-Agrees a s' self d graph' allows' agrees in
    let (graph'', allows'') = judge-Allows a s' self d graph' allows' in
    (
      (judge s' self d).0,
      (judge s' self d).1,
      propagate-judge s self c d p e done,
      agrees',
      graph'',
      allows'',
    )
