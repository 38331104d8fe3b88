-- ===== src/Constraint/Graph/Sound.antt =====
-- What `propagate` enqueues, under an assignment in which the vertices that are on are connected.
use glucose.Prelude.{
  ℕ, zero, suc, ◌+◌, ◌≤◌, ◌<◌, ◌≡◌, refl, sym, ap, subst, ◌∙◌, inl, inr, Bool, true, false, not,
  ◌&&◌, none, some, List, [], ◌∷◌, arith, leb, ◌==◌, eq_of_==, Bool-cases, Option-cases,
}
use glucose.Prelude.Lists.{length}
use glucose.Lit.{Lit}
use glucose.Lit.Truth.{Assignment, holds, holds-neg}
use glucose.Solver.{Solver, ConstraintRef, enqueue}
use glucose.Solver.Agree.{Agrees, enqueue-Agrees}
use glucose.Constraint.Graph.{Dfs, ActiveVerticesConnected, is_inactive}
use glucose.Constraint.Graph.Propagate.{Clusters, separates, forced, force_all, settle}
use glucose.Constraint.Graph.Indices.{Apart}
use glucose.Constraint.Graph.Clusters.{Root, Nonempty, Clustered, LoopAt}
use glucose.Constraint.Graph.Cuts.{Connects, Fits, on-Under, no_second}
use glucose.Constraint.Graph.Separates.{separates-on}
use glucose.Constraint.Graph.States.{some_of, State-cases}

-- Whether the literal of the vertex holds.
abbrev pub on : Assignment → List Lit → ℕ → Bool
on a [] x = false
on a (l ∷ ls) zero = holds a l
on a (l ∷ ls) (suc x) = on a ls x

module _ (a : Assignment) (c : ActiveVerticesConnected) (n : ℕ) (d : Dfs) (f : ℕ → ℕ) (root : ℕ)
    (h : Clustered c.adj c.state n n d f (some root)) (fits : Fits c.state (on a c.lits))
    (connects : Connects c.adj (on a c.lits)) (simple : (v : ℕ) → Apart (c.adj v)) where
  Nonempty-root : (r : ℕ) × Nonempty c.adj c.state n d f root r
  Nonempty-root = h.is_nonempty root refl

  -- A vertex outside the tree of `root` is off.
  outside_off :
      (v s : ℕ) → d.rank v ≡ some s → (d.cluster_id v == root) ≡ false → on a c.lits v ≡ false
  outside_off v s k other = elim (Bool-cases (on a c.lits v)) [
    | inr off ↦ off
    | inl is_on ↦
        let (r, full) = Nonempty-root in
        let (t, k', ge, lt) =
          on-Under c.adj c.state n (on a c.lits) d f h.grown fits connects root r v full is_on in
        let same = h.cluster_of root r v t full.0 k' ge lt in absurd (ground arith)
  ]

  separates_on :
      (v s : ℕ)
      → d.rank v ≡ some s
      → (d.cluster_id v == root) ≡ true
      → separates c d root v ≡ true
      → on a c.lits v ≡ true
  separates_on v s k same found =
      let (r, top, ge, lt) =
        subst (λ j. (r : ℕ) × Root c.adj c.state n d j r × (r ≤ s) × (s < f j)) (eq_of_== _ _ same)
          (h.in_cluster v s k) in
      separates-on c n (on a c.lits) d f h.grown fits connects v s root r (simple v) k top ge lt
        found

  -- A literal that the second loop enqueues holds.
  forced-holds :
      (v : ℕ) (l p : Lit)
      → v < n
      → on a c.lits v ≡ holds a l
      → forced c d root v l ≡ some p
      → holds a p ≡ true
  unfolding forced is_inactive
  forced-holds v l p lt at = elim (State-cases (c.state v)) [
    | inr (inl is) ↦ rw (is, forced) (λ e. absurd (ground arith))
    | inr (inr is) ↦ rw (is, forced) (λ e. absurd (ground arith))
    | inl is ↦
        let (s, k) = h.covered v lt (rw is refl) in
        elim (Bool-cases (d.cluster_id v == root)) [
          | inr other ↦
              rw (is, other, forced)
                (λ e.
                  subst (λ q. holds a q ≡ true) (some_of e)
                    (holds-neg a l ∙ ap not (sym at ∙ outside_off v s k other)))
          | inl same ↦ elim (Bool-cases (leb c.n_active_vertices 1)) [
            | inl few ↦ rw (is, same, few, forced) (λ e. absurd (ground arith))
            | inr many ↦ elim (Bool-cases (separates c d root v)) [
              | inr keeps ↦ rw (is, same, many, keeps, forced) (λ e. absurd (ground arith))
              | inl cuts ↦
                  rw (is, same, many, cuts, forced)
                    (λ e.
                      subst (λ q. holds a q ≡ true) (some_of e)
                        (sym at ∙ separates_on v s k same cuts))
            ]
          ]
        ]
  ]

  -- The loop meets no failure and sets no value against the assignment.
  force_all-Agrees :
      (s : Solver) (self : ConstraintRef) (ls : List Lit) (v : ℕ)
      → v + length ls ≡ n
      → ((k : ℕ) → on a c.lits (v + k) ≡ on a ls k)
      → Agrees a s
      → Agrees a (force_all s self c d root v ls).0 × ((force_all s self c d root v ls).1 ≡ none)
  unfolding force_all
  force_all-Agrees s self [] v e at agrees = (agrees, refl)
  force_all-Agrees s self (l ∷ ls) v e at agrees =
      let at_v : on a c.lits v ≡ holds a l =
        subst (λ x. on a c.lits x ≡ holds a l) (omega arith) (at 0) in
      let at_next : (k : ℕ) → on a c.lits (suc v + k) ≡ on a ls k =
        λ k. subst (λ x. on a c.lits x ≡ on a ls k) (omega arith) (at (suc k)) in
      elim (Option-cases (forced c d root v l)) [
        | inl nothing ↦
            rw (nothing, force_all)
              (force_all-Agrees s self ls (suc v) (omega arith) at_next agrees)
        | inr (p, is) ↦
            let (agrees', done) =
              enqueue-Agrees a s p self (forced-holds v l p (omega arith) at_v is) agrees in
            rw (is, done, force_all)
              (force_all-Agrees (enqueue s p self).0 self ls (suc v) (omega arith) at_next agrees')
      ]

-- What `propagate` does after the loop over the trees is right for the assignment.
pub settle-Agrees :
    (a : Assignment) (s : Solver) (self : ConstraintRef) (c : ActiveVerticesConnected)
    (k : Clusters)
    → Fits c.state (on a c.lits)
    → Connects c.adj (on a c.lits)
    → ((v : ℕ) → Apart (c.adj v))
    → LoopAt c.adj c.state (length c.lits) (length c.lits) k
    → Agrees a s
    → Agrees a (settle s self c k).0 × ((settle s self c k).2 ≡ true)
unfolding settle
settle-Agrees a s self c k fits connects simple (f, inr (_, clash)) agrees = absurd (
    no_second c.adj c.state (length c.lits) (on a c.lits) k.dfs f clash.grown fits connects
      clash.first clash.rank_first clash.second clash.rank_second clash.is_first clash.is_second
      clash.is_apart)
settle-Agrees a s self c k fits connects simple (f, inl (going, h)) agrees =
    elim (Bool-cases (leb c.n_active_vertices 1 && k.n_all == 0)) [
      | inl alone ↦ rw (going, alone, settle) (agrees, refl)
      | inr more ↦ elim (Option-cases k.nonempty) [
        | inl empty ↦ rw (going, more, empty, settle) (agrees, refl)
        | inr (root, is) ↦
            let h' = subst (Clustered c.adj c.state (length c.lits) (length c.lits) k.dfs f) is h in
            let (agrees', done) =
              force_all-Agrees a c (length c.lits) k.dfs f root h' fits connects simple s self
                c.lits 0 (omega arith) (λ x. ap (on a c.lits) (omega arith)) agrees in
            rw (going, more, is, done, settle) (agrees', refl)
      ]
    ]
