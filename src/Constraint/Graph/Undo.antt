-- ===== src/Constraint/Graph/Undo.antt =====
-- `undo` after `propagate`.
use mathlib.Core.Option.{some-injective, none-ne-some}
use mathlib.Core.Path.{fun_ext}
use glucose.Prelude.{
  ℕ, ◌+◌, ◌-◌, ◌≡◌, refl, sym, ap, subst, ◌∙◌, ◌≢◌, inl, inr, Bool, some, List, [], ◌∷◌, arith,
  ◌==◌, if◌then◌else◌, ==_refl, ==_ne, eq_of_==, Bool-cases, Option-cases, update,
}
use glucose.Prelude.Lists.{get_or, All}
use glucose.Lit.{Lit, var}
use glucose.Lbool.{Lbool-cases}
use glucose.Solver.{Solver, ConstraintRef, value, register_undo}
use glucose.Constraint.Graph.{
  NodeState, undecided, active, inactive, blank, unset, ActiveVerticesConnected, is_active,
  index_vars,
}
use glucose.Constraint.Graph.Propagate.{
  vertices_of, record_state, decide_all, settle, judge, propagate, undo_all, undo,
}
use glucose.Constraint.Graph.Indices.{Apart, vertices_of-index_vars}

abbrev State : Type 0
State = ActiveVerticesConnected

-- The state without what only the call in progress and the next calcReason read.
abbrev pub kept : State → State
kept c = record c { dfs = blank; conflict_cause = unset }

-- `undo` for one vertex.
abbrev undo_one : ℕ → State → State
undo_one i c = undo_all (i ∷ []) c

update_twice :
    (f : ℕ → NodeState) (i j : ℕ) (a : NodeState)
    → update (update f i a) j a ≡ update (update f j a) i a
update_twice f i j a = fun_ext λ w. ground arith

is_active-update :
    (f : ℕ → NodeState) (i j : ℕ) (a : NodeState)
    → i ≢ j
    → is_active (update f i a j) ≡ is_active (f j)
is_active-update f i j a h = rw (==_ne i j h) refl

rewritten :
    (c : State) (f g : ℕ → NodeState) (is : List ℕ) (m n : ℕ)
    → f ≡ g
    → m ≡ n
    → record c { state = f; decision_order = is; n_active_vertices = m }
      ≡ record c { state = g; decision_order = is; n_active_vertices = n }
rewritten c f g is m n e k = rw (e, k) refl

take_two :
    (a b : Bool) (m : ℕ)
    → (if a then (if b then m - 1 else m) - 1 else (if b then m - 1 else m))
      ≡ (if b then (if a then m - 1 else m) - 1 else (if a then m - 1 else m))
take_two a b m = ground arith

undo_one-undo_one :
    (i j : ℕ) (c : State) → i ≢ j → undo_one i (undo_one j c) ≡ undo_one j (undo_one i c)
unfolding undo_all
undo_one-undo_one i j c h =
    rw
      (
        is_active-update c.state i j undecided h,
        is_active-update c.state j i undecided (λ e. h (sym e)),
      )
      (rewritten c _ _ _ _ _ (update_twice c.state j i undecided)
        (take_two (is_active (c.state i)) (is_active (c.state j)) c.n_active_vertices))

undo_all-undo_one :
    (i : ℕ) (is : List ℕ) (c : State)
    → All (λ j. i ≢ j) is
    → undo_all is (undo_one i c) ≡ undo_one i (undo_all is c)
unfolding undo_all
undo_all-undo_one i [] c h = refl
undo_all-undo_one i (j ∷ is) c h =
    ap (undo_all is) (sym (undo_one-undo_one i j c h.0)) ∙ undo_all-undo_one i is (undo_one j c) h.1

written_back :
    (f : ℕ → NodeState) (i : ℕ) (a : NodeState)
    → f i ≡ undecided
    → update (update f i a) i undecided ≡ f
written_back f i a h = fun_ext λ w. elim (Bool-cases (i == w)) [
  | inl same ↦ rw same (sym h ∙ ap f (eq_of_== i w same))
  | inr other ↦ rw other refl
]

undo_one-record_state :
    (c : State) (i : ℕ) (a : NodeState) (n : ℕ)
    → c.state i ≡ undecided
    → (if is_active a then n - 1 else n) ≡ c.n_active_vertices
    → undo_one i (record_state c i a n) ≡ c
unfolding undo_all record_state
undo_one-record_state c i a n h k =
    rewritten c _ _ c.decision_order _ _ (written_back c.state i a h) (rw (==_refl i) k)

-- The vertices still to come are undecided after the first has been recorded.
still_undecided :
    (c : State) (i : ℕ) (a : NodeState) (n : ℕ) (is : List ℕ)
    → All (λ j. i ≢ j) is
    → All (λ j. c.state j ≡ undecided) is
    → All (λ j. (record_state c i a n).state j ≡ undecided) is
unfolding record_state
still_undecided c i a n [] h k = tt
still_undecided c i a n (j ∷ is) h k = (rw (==_ne i j h.0) k.0, still_undecided c i a n is h.1 k.1)

undo_all-decide_all :
    (s : Solver) (is : List ℕ) (c d : State)
    → Apart is
    → All (λ i. c.state i ≡ undecided) is
    → decide_all s is c ≡ some d
    → undo_all is d ≡ c
unfolding decide_all undo_all is_active
undo_all-decide_all s [] c d h k = λ e. ground arith
undo_all-decide_all s (i ∷ is) c d h k = elim (Lbool-cases (value s (get_or c.lits i 0))) [
  | inl t ↦
      rw (t, decide_all)
        λ e.
          let c' = record_state c i active (c.n_active_vertices + 1) in
          undo_all-undo_one i is d h.0
          ∙ ap (undo_one i) (
              undo_all-decide_all s is c' d h.1
                (still_undecided c i active (c.n_active_vertices + 1) is h.0 k.1) e)
          ∙ undo_one-record_state c i active _ k.0 (omega arith)
  | inr (inl f) ↦
      rw (f, decide_all)
        λ e.
          let c' = record_state c i inactive c.n_active_vertices in
          undo_all-undo_one i is d h.0
          ∙ ap (undo_one i) (
              undo_all-decide_all s is c' d h.1
                (still_undecided c i inactive c.n_active_vertices is h.0 k.1) e)
          ∙ undo_one-record_state c i inactive _ k.0 refl
  | inr (inr u) ↦ rw (u, decide_all) λ e. absurd (ground arith)
]

kept-undo_all : (is : List ℕ) (c : State) → kept (undo_all is c) ≡ undo_all is (kept c)
unfolding undo_all
kept-undo_all [] c = refl
kept-undo_all (i ∷ is) c = kept-undo_all is (undo_one i c)

-- `judge` writes to the search's arrays and the conflict's cause only.
pub kept-judge : (s : Solver) (self : ConstraintRef) (c : State) → kept (judge s self c).1 ≡ kept c
unfolding judge settle
kept-judge s self c = ground arith

var_to_idx-undo_all : (is : List ℕ) (c : State) → (undo_all is c).var_to_idx ≡ c.var_to_idx
unfolding undo_all
var_to_idx-undo_all [] c = refl
var_to_idx-undo_all (i ∷ is) c = var_to_idx-undo_all is (undo_one i c)

undo-judge :
    (s : Solver) (self : ConstraintRef) (p : Lit) (c m : State)
    → undo_all (vertices_of (var p) c.var_to_idx) m ≡ c
    → kept (undo (judge s self m).1 p) ≡ kept c
unfolding undo
undo-judge s self p c m back =
    let d = (judge s self m).1 in
    let is = vertices_of (var p) c.var_to_idx in
    let same : d.var_to_idx ≡ c.var_to_idx =
      ap (λ x. x.var_to_idx) (kept-judge s self m)
      ∙ sym (var_to_idx-undo_all is m)
      ∙ ap (λ x. x.var_to_idx) back in
    subst (λ es. kept (undo_all (vertices_of (var p) es) d) ≡ kept c) (sym same)
      (kept-undo_all is d
        ∙ ap (undo_all is) (kept-judge s self m)
        ∙ sym (kept-undo_all is m)
        ∙ ap kept back)

-- If the vertices whose literals have the variable of `p` are undecided and `propagate` returns,
-- with whatever result, then `undo` restores the states of all vertices, the order of decisions and
-- the number of active vertices; only the arrays of the search and the cause of a conflict may differ.
pub graph_undo-propagate :
    (s t : Solver) (self : ConstraintRef) (c d : State) (p : Lit) (done : Bool)
    → c.var_to_idx ≡ index_vars c.lits 0
    → All (λ i. c.state i ≡ undecided) (vertices_of (var p) c.var_to_idx)
    → propagate s self c p ≡ some (t, d, done)
    → kept (undo d p) ≡ kept c
unfolding propagate undo
graph_undo-propagate s t self c d p done h k e =
    let s' = register_undo s (var p) self in
    let is = vertices_of (var p) c.var_to_idx in
    elim (Option-cases (decide_all s' is c)) [
      | inl aborts ↦ absurd (none-ne-some _ (rw (aborts, propagate) at e))
      | inr (m, decided) ↦
          let same : some (judge s' self m) ≡ some (t, d, done) = rw (decided, propagate) at e in
          let apart =
            subst (λ es. Apart (vertices_of (var p) es)) (sym h)
              (vertices_of-index_vars (var p) c.lits) in
          subst (λ r. kept (undo r p) ≡ kept c) (ap (λ r. r.1) (some-injective _ _ same))
            (undo-judge s' self p c m (undo_all-decide_all s' is c m apart k decided))
    ]
