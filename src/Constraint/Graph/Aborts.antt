-- ===== src/Constraint/Graph/Aborts.antt =====
-- When `propagate` calls abort(), and the states of the vertices when it does not.
use mathlib.Core.Option.{some-injective, none-ne-some}
use glucose.Prelude.{
  ℕ, ◌+◌, ◌≡◌, refl, sym, ap, subst, ◌∙◌, ◌≢◌, ◌↔◌, inl, inr, Bool, Option, none, some, List, [],
  ◌∷◌, arith, ◌==◌, if◌then◌else◌, eq_of_==, Bool-cases, Option-cases, update,
}
use glucose.Prelude.Lists.{All, In, get_or}
use glucose.Lit.{Lit, Var, var}
use glucose.Lbool.{Lbool, l_true, l_false, l_undef, Lbool-cases}
use glucose.Solver.{Solver, ConstraintRef, value, register_undo}
use glucose.Constraint.Graph.{
  NodeState, undecided, active, inactive, ActiveVerticesConnected, index_vars,
}
use glucose.Constraint.Graph.Propagate.{vertices_of, record_state, decide_all, judge, propagate}
use glucose.Constraint.Graph.Indices.{IsOf, vertices_of-IsOf}
use glucose.Constraint.Graph.Found.{is_of, visits, IsOf-In, visits-vertices_of}
use glucose.Constraint.Graph.Undo.{kept-judge}

decide_all-aborts :
    (s : Solver) (x : Var) (is : List ℕ) (c : ActiveVerticesConnected)
    → All (IsOf c.lits x) is
    → decide_all s is c ≡ none
    → (s.assigns x ≡ l_undef) × (is ≢ [])
unfolding decide_all record_state
decide_all-aborts s x [] c h = λ e. absurd (none-ne-some _ (sym e))
decide_all-aborts s x (i ∷ is) c (at, h) = elim (Lbool-cases (value s (get_or c.lits i 0))) [
  | inl t ↦
      rw (t, decide_all)
        λ e.
          let c' = record_state c i active (c.n_active_vertices + 1) in
          ((decide_all-aborts s x is c' h e).0, λ k. ground arith)
  | inr (inl f) ↦
      rw (f, decide_all)
        λ e.
          let c' = record_state c i inactive c.n_active_vertices in
          ((decide_all-aborts s x is c' h e).0, λ k. ground arith)
  | inr (inr u) ↦ rw (u, decide_all) λ e. (ground (arith, at.1), λ k. ground arith)
]

aborts-decide_all :
    (s : Solver) (x : Var) (is : List ℕ) (c : ActiveVerticesConnected)
    → All (IsOf c.lits x) is
    → s.assigns x ≡ l_undef
    → is ≢ []
    → decide_all s is c ≡ none
unfolding decide_all
aborts-decide_all s x [] c h u ne = absurd (ne refl)
aborts-decide_all s x (i ∷ is) c (at, h) u ne =
    let open_value : value s (get_or c.lits i 0) ≡ l_undef = ground (arith, at.1) in
    rw (open_value, decide_all) refl

-- The state that stands for a value.
abbrev pub state_of : Lbool → NodeState
state_of l_true = active
state_of l_false = inactive
state_of l_undef = undecided

decide_all-state :
    (s : Solver) (is : List ℕ) (c d : ActiveVerticesConnected) (j : ℕ)
    → decide_all s is c ≡ some d
    → d.state j ≡ (if visits is j then state_of (value s (get_or c.lits j 0)) else c.state j)
unfolding decide_all record_state
decide_all-state s [] c d j = λ e. ap (λ x. x.state j) (sym (some-injective _ _ e))
decide_all-state s (i ∷ is) c d j = elim (Lbool-cases (value s (get_or c.lits i 0))) [
  | inl t ↦
      rw (t, decide_all)
        λ e.
          decide_all-state s is (record_state c i active (c.n_active_vertices + 1)) d j e
          ∙ first active (ap state_of t)
  | inr (inl f) ↦
      rw (f, decide_all)
        λ e.
          decide_all-state s is (record_state c i inactive c.n_active_vertices) d j e
          ∙ first inactive (ap state_of f)
  | inr (inr u) ↦ rw (u, decide_all) λ e. absurd (none-ne-some _ e)
]
  where
    first :
        (st : NodeState)
        → state_of (value s (get_or c.lits i 0)) ≡ st
        → (if visits is j then state_of (value s (get_or c.lits j 0)) else update c.state i st j)
          ≡ (if visits (i ∷ is) j then state_of (value s (get_or c.lits j 0)) else c.state j)
    first st e = elim (Bool-cases (i == j)) [
      | inr other ↦ rw other refl
      | inl same ↦
          let at : state_of (value s (get_or c.lits j 0)) ≡ st =
            subst (λ x. state_of (value s (get_or c.lits x 0)) ≡ st) (eq_of_== i j same) e in
          rw same (elim (Bool-cases (visits is j)) [
            | inl more ↦ rw more refl
            | inr last ↦ rw last (sym at)
          ])
    ]

-- The state of the vertex `i` after the literal `p` has been propagated.
abbrev pub state_after : Solver → ActiveVerticesConnected → Lit → ℕ → NodeState
state_after s c p i =
    if is_of c.lits (var p) i then state_of (value s (get_or c.lits i 0)) else c.state i

-- The states of all vertices where `propagate` returns.
abbrev pub Records :
    Solver
    → ActiveVerticesConnected
    → Lit
    → Option (Solver × ActiveVerticesConnected × Bool)
    → Type 0
Records s c p none = Unit
Records s c p (some (t, d, done)) = (i : ℕ) → d.state i ≡ state_after s c p i

propagate-aborts :
    (s : Solver) (self : ConstraintRef) (c : ActiveVerticesConnected) (p : Lit)
    → c.var_to_idx ≡ index_vars c.lits 0
    → (propagate s self c p ≡ none)
      ↔ (s.assigns (var p) ≡ l_undef) × (vertices_of (var p) c.var_to_idx ≢ [])
unfolding propagate register_undo
propagate-aborts s self c p indexed =
    let s' = register_undo s (var p) self in
    let is = vertices_of (var p) c.var_to_idx in
    let of_p =
      subst (λ es. All (IsOf c.lits (var p)) (vertices_of (var p) es)) (sym indexed)
        (vertices_of-IsOf (var p) c.lits) in
    (
      λ e. elim (Option-cases (decide_all s' is c)) [
        | inl aborts ↦ decide_all-aborts s' (var p) is c of_p aborts
        | inr (d, goes_on) ↦
            let returns : propagate s self c p ≡ some (judge s' self d) =
              rw (goes_on, propagate) refl in
            absurd (none-ne-some _ (sym e ∙ returns))
      ],
      λ (u, ne). rw (aborts-decide_all s' (var p) is c of_p u ne, propagate) refl,
    )

propagate-Records :
    (s : Solver) (self : ConstraintRef) (c : ActiveVerticesConnected) (p : Lit)
    → c.var_to_idx ≡ index_vars c.lits 0
    → Records s c p (propagate s self c p)
unfolding propagate register_undo
propagate-Records s self c p indexed =
    let s' = register_undo s (var p) self in
    let is = vertices_of (var p) c.var_to_idx in
    elim (Option-cases (decide_all s' is c)) [
      | inl aborts ↦ rw (aborts, propagate) tt
      | inr (d, goes_on) ↦
          rw (goes_on, propagate)
            (λ i.
              ap (λ x. x.state i) (kept-judge s' self d)
              ∙ decide_all-state s' is c d i goes_on
              ∙ ap (λ b. if b then state_of (value s (get_or c.lits i 0)) else c.state i)
                  (ap (λ es. visits (vertices_of (var p) es) i) indexed
                    ∙ visits-vertices_of c.lits (var p) i))
    ]

-- `propagate` calls abort() if and only if the variable of `p` has no value and is that of the
-- literal of some vertex. Where it returns, each vertex whose literal has the variable of `p` is
-- active or inactive as its literal is true or false, and the state of each other vertex is as it was.
pub connected_propagate-aborts :
    (s : Solver) (self : ConstraintRef) (c : ActiveVerticesConnected) (p : Lit)
    → c.var_to_idx ≡ index_vars c.lits 0
    → ((propagate s self c p ≡ none)
        ↔ (s.assigns (var p) ≡ l_undef) × (i : ℕ) × IsOf c.lits (var p) i)
      × Records s c p (propagate s self c p)
connected_propagate-aborts s self c p indexed =
    let (aborts, none_if) = propagate-aborts s self c p indexed in
    let js = vertices_of (var p) c.var_to_idx in
    let of_p : All (IsOf c.lits (var p)) js =
      subst (λ es. All (IsOf c.lits (var p)) (vertices_of (var p) es)) (sym indexed)
        (vertices_of-IsOf (var p) c.lits) in
    (
      (
        λ e.
            let (undef, ne) = aborts e in
            let (i, is) = some_of c.lits (var p) js of_p ne in (undef, i, is),
        λ (undef, i, is). none_if (
          undef,
          λ e.
              let m : In i js =
                subst (λ es. In i (vertices_of (var p) es)) (sym indexed)
                  (IsOf-In c.lits (var p) i is) in
              subst (In i) e m,
        ),
      ),
      propagate-Records s self c p indexed,
    )
  where
    some_of :
        (ls : List Lit) (x : Var) (js : List ℕ)
        → All (IsOf ls x) js
        → js ≢ []
        → (i : ℕ) × IsOf ls x i
    some_of ls x [] h ne = absurd (ne refl)
    some_of ls x (j ∷ js) h ne = (j, h.0)
