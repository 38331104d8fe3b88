-- ===== src/Constraint/Graph/Returns.antt =====
-- calcReason as a whole, where there is something to explain.
use glucose.Prelude.{
  ℕ, ◌<◌, ◌≡◌, refl, sym, ap, ◌∙◌, ◌≢◌, ◌⊎◌, inl, inr, Bool, true, false, Option, none, some, List,
  [], ◌∷◌, ◌==◌, ==_refl, ==_ne, eq_of_==, Bool-cases, update,
}
use glucose.Prelude.Lists.{In, All, length, get_or}
use glucose.Prelude.Int.{pos, ltb_ℤ}
use glucose.Lit.{Lit, neg, var}
use glucose.Lit.Laws.{neg-ne}
use glucose.Lit.Truth.{Assignment, holds}
use glucose.Constraint.Graph.{
  undecided, active, inactive, Cause, unset, disconnected, at_vertex, ActiveVerticesConnected,
}
use glucose.Constraint.Graph.UnionFind.{UnionFind, commit, redo}
use glucose.Constraint.Graph.Reason.{
  same_var, relax, explain, explain_all, activate, cut_graph, reason_of, assume, release,
  calc_reason, with_reason,
}
use glucose.Constraint.Graph.Cuts.{Connects}
use glucose.Constraint.Graph.Sound.{on}
use glucose.Constraint.Graph.Splits.{IsSplit, cut_graph-splits}
use glucose.Constraint.Graph.Accepts.{IsGraph}
use glucose.Constraint.Graph.Explained.{IsRecorded}
use glucose.Constraint.Graph.Implies.{
  IsOpen, Implied, assume-IsGraph, reason-Implied, calc_reason-keeps,
}

-- No decision in the list has the variable of `p`.
abbrev Clear : ActiveVerticesConnected → Option Lit → List ℕ → Type 0
Clear c p = All (λ v. same_var p (get_or c.lits v 0) ≡ false)

explain_all-returns :
    (n : ℕ) (c : ActiveVerticesConnected) (p : Option Lit) (vs : List ℕ) (activated : ℕ → Bool)
    (u : UnionFind)
    → Clear c p vs
    → (reason : List Lit) × (explain_all n c p vs activated u ≡ some reason)
unfolding explain_all
explain_all-returns n c p [] activated u h = ([], refl)
explain_all-returns n c p (v ∷ vs) activated u (other, h) =
    let u' = relax n c activated v u in
    elim (Bool-cases (ltb_ℤ (pos 1) u'.n_active_clusters)) [
      | inl apart ↦
          rw (other, apart, explain_all)
            (explain_all-returns n c p vs (update activated v true) (commit u') h)
      | inr joined ↦
          let (rest, e) = explain_all-returns n c p vs activated (redo u') h in
          rw (other, joined, e, explain_all) (explain (c.state v) (get_or c.lits v 0) rest, refl)
    ]

Clear-none : (c : ActiveVerticesConnected) (vs : List ℕ) → Clear c none vs
unfolding same_var
Clear-none c [] = tt
Clear-none c (v ∷ vs) = (refl, Clear-none c vs)

-- The order of decisions has decided vertices only, and no vertex of the variable of the literal is
-- decided.
abbrev pub IsUnset : ActiveVerticesConnected → Lit → Type 0
IsUnset c q =
    All (λ v. (v < length c.lits) × (c.state v ≢ undecided)) c.decision_order
    × ((v : ℕ) → v < length c.lits → var (get_or c.lits v 0) ≡ var q → c.state v ≡ undecided)

IsUnset-Clear :
    (c : ActiveVerticesConnected) (q : Lit) (vs : List ℕ)
    → All (λ v. (v < length c.lits) × (c.state v ≢ undecided)) vs
    → ((v : ℕ) → v < length c.lits → var (get_or c.lits v 0) ≡ var q → c.state v ≡ undecided)
    → Clear c (some q) vs
unfolding same_var
IsUnset-Clear c q [] h free = tt
IsUnset-Clear c q (v ∷ vs) ((lt, known), h) free = (
  elim (Bool-cases (var q == var (get_or c.lits v 0))) [
    | inr other ↦ other
    | inl same ↦ absurd (known (free v lt (sym (eq_of_== (var q) (var (get_or c.lits v 0)) same))))
  ],
  IsUnset-Clear c q vs h free,
)

reason_of-returns :
    (c : ActiveVerticesConnected) (p : Option Lit)
    → IsGraph c
    → IsSplit c.lits c.adj c.state p
    → Clear c p c.decision_order
    → (reason : List Lit) × (reason_of c p ≡ some reason)
unfolding reason_of
reason_of-returns c p graph split clear =
    rw (cut_graph-splits c p graph.targets graph.symmetric split, reason_of)
      (explain_all-returns (length c.lits) c p c.decision_order (activate p c.state c.lits 0)
        (commit (cut_graph c p)) clear)

-- What there is to explain: that the literal `q` must hold, that the active vertices are apart, or
-- that they are apart with the vertex `v` too, of which the literal is `l` or its negation.
abbrev pub CanExplain : ActiveVerticesConnected → Cause → Option Lit → Type 0
CanExplain c cause (some q) = IsSplit c.lits c.adj c.state (some q) × IsUnset c q
CanExplain c unset none = ⊥
CanExplain c disconnected none = IsSplit c.lits c.adj c.state none
CanExplain c (at_vertex v l) none =
    ((l ≡ get_or c.lits v 0) × IsSplit c.lits c.adj (update c.state v active) none)
    ⊎ ((l ≡ neg (get_or c.lits v 0)) × IsSplit c.lits c.adj (update c.state v inactive) none)

assume-IsSplit :
    (c : ActiveVerticesConnected) (v : ℕ) (l : Lit)
    → CanExplain c (at_vertex v l) none
    → let d = assume c v l in IsSplit d.lits d.adj d.state none
unfolding assume
assume-IsSplit c v l (inl (e, split)) = rw (e, ==_refl (get_or c.lits v 0)) split
assume-IsSplit c v l (inr (e, split)) =
    rw (e, ==_ne (neg (get_or c.lits v 0)) (get_or c.lits v 0) (neg-ne (get_or c.lits v 0))) split

-- calcReason for a conflict, by its cause.
abbrev by_cause : ActiveVerticesConnected → Cause → Option (ActiveVerticesConnected × List Lit)
by_cause c unset = none
by_cause c disconnected = with_reason c (reason_of c none)
by_cause c (at_vertex v l) = with_reason (release (assume c v l) v) (reason_of (assume c v l) none)

calc_reason-by_cause :
    (c : ActiveVerticesConnected) → calc_reason c none ≡ by_cause c c.conflict_cause
unfolding calc_reason
calc_reason-by_cause c = by_clauses c.conflict_cause
  where
    by_clauses :
        (k : Cause)
        → (elim k as (λ _. Option (ActiveVerticesConnected × List Lit)) [
          | unset ↦ none
          | disconnected ↦ with_reason c (reason_of c none)
          | at_vertex v l ↦ with_reason (release (assume c v l) v) (reason_of (assume c v l) none)
        ])
          ≡ by_cause c k
    by_clauses unset = refl
    by_clauses disconnected = refl
    by_clauses (at_vertex v l) = refl

calc_reason-returns_by :
    (c : ActiveVerticesConnected) (cause : Cause) (p : Option Lit)
    → IsGraph c
    → c.conflict_cause ≡ cause
    → CanExplain c cause p
    → (c' : ActiveVerticesConnected) × (reason : List Lit) × (calc_reason c p ≡ some (c', reason))
unfolding calc_reason
calc_reason-returns_by c cause (some q) graph is (split, free) =
    let clear = IsUnset-Clear c q c.decision_order free.0 free.1 in
    let (reason, e) = reason_of-returns c (some q) graph split clear in
    (c, reason, ap (with_reason c) e)
calc_reason-returns_by c unset none graph is can = absurd can
calc_reason-returns_by c disconnected none graph is split =
    let (reason, e) = reason_of-returns c none graph split (Clear-none c c.decision_order) in
    (c, reason, calc_reason-by_cause c ∙ ap (by_cause c) is ∙ ap (with_reason c) e)
calc_reason-returns_by c (at_vertex v l) none graph is can =
    let d = assume c v l in
    let (reason, e) =
      reason_of-returns d none (assume-IsGraph c v l graph) (assume-IsSplit c v l can)
        (Clear-none d d.decision_order) in
    (
      release d v,
      reason,
      calc_reason-by_cause c ∙ ap (by_cause c) is ∙ ap (with_reason (release d v)) e,
    )

all_hold :
    (a : Assignment) (ls : List Lit)
    → All (λ l. holds a l ≡ true) ls ⊎ (l : Lit) × In l ls × (holds a l ≡ false)
all_hold a [] = inl tt
all_hold a (l ∷ ls) = elim (Bool-cases (holds a l)) [
  | inr f ↦ inr (l, inl refl, f)
  | inl t ↦ elim (all_hold a ls) [ inl ts ↦ inl (t, ts) | inr (m, k, f) ↦ inr (m, inr k, f) ]
]

-- Let the graph have no multiple edges, let each vertex with a known state be in the order of
-- decisions, and let a vertex that is the cause of a conflict be undecided. For a literal to be
-- explained, let the order of decisions have decided vertices only, let no vertex of the literal's
-- variable be decided, and let there be two vertices, each active or with the literal's negation,
-- that no walk joins over vertices that are not inactive and do not have the literal. For a
-- conflict, let there be two active vertices that no walk joins over vertices that are not inactive,
-- where the vertex that is the cause, if there is one, is taken as active or inactive as the literal
-- found true says. Then calcReason returns a reason and leaves the constraint as it was. In each
-- assignment in which the vertices whose literals hold are connected, the literal explained holds or
-- some literal of the reason does not; for a conflict the latter.
pub connected_reason-explains :
    (a : Assignment) (c : ActiveVerticesConnected) (p : Option Lit)
    → IsGraph c
    → IsRecorded c
    → IsOpen c c.conflict_cause
    → CanExplain c c.conflict_cause p
    → Connects c.adj (on a c.lits)
    → (reason : List Lit) × (calc_reason c p ≡ some (c, reason))
      × (Implied a p ⊎ (l : Lit) × In l reason × (holds a l ≡ false))
connected_reason-explains a c p graph recorded o can connects =
    let (c', reason, e) = calc_reason-returns_by c c.conflict_cause p graph refl can in
    let same = calc_reason-keeps c c' p reason o e in
    (
      reason,
      e ∙ ap (λ d. some (d, reason)) same,
      elim (all_hold a reason) [
        | inl hs ↦ inl (reason-Implied a c c' p reason graph recorded o connects e hs)
        | inr some_false ↦ inr some_false
      ],
    )
