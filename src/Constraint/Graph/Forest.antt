-- ===== src/Constraint/Graph/Forest.antt =====
-- The loop of `propagate` that builds the trees, with enough fuel for each call.
use glucose.Prelude.{
  ℕ, zero, suc, ◌+◌, ◌≤◌, ◌<◌, ◌≡◌, refl, sym, subst, inl, inr, Bool, true, false, Option, none, [],
  arith, Bool-cases, Option-cases,
}
use glucose.Constraint.Graph.{blank, ActiveVerticesConnected, is_inactive}
use glucose.Constraint.Graph.Tree.{build_tree}
use glucose.Constraint.Graph.Propagate.{Clusters, sort_cluster, grow, grow_all}
use glucose.Constraint.Graph.Loop.{unseen}
use glucose.Constraint.Graph.Closed.{Symmetric}
use glucose.Constraint.Graph.Built.{Targets, build_tree-Built}
use glucose.Constraint.Graph.Clusters.{Clustered, LoopAt, sort_cluster-LoopAt, pass_vertex}

unseen-le : (m : ℕ) (rank : ℕ → Option ℕ) → unseen m rank ≤ m
unseen-le zero rank = omega arith
unseen-le (suc m) rank = elim (Option-cases (rank m)) [
  | inl new ↦ rw new (omega (arith, unseen-le m rank))
  | inr (s, old) ↦ rw old (omega (arith, unseen-le m rank))
]

module _ (c : ActiveVerticesConnected) (n : ℕ) (symmetric : Symmetric c.adj)
    (targets : Targets n c.adj) where
  grow-LoopAt :
      (i : ℕ) (k : Clusters) (f : ℕ → ℕ)
      → i < n
      → k.going ≡ true
      → Clustered c.adj c.state n i k.dfs f k.nonempty
      → LoopAt c.adj c.state n (suc i) (grow c n i k)
  unfolding grow
  grow-LoopAt i k f lt going h = elim (Bool-cases (is_inactive (c.state i))) [
    | inl dead ↦
        rw (dead, grow)
          (
            f,
            inl (
              going,
              pass_vertex c.adj c.state n i k.dfs f k.nonempty (λ live. absurd (ground arith)) h,
            ),
          )
    | inr live ↦ elim (Option-cases (k.dfs.rank i)) [
      | inr (s, old) ↦
          rw (live, old, grow)
            (f, inl (going, pass_vertex c.adj c.state n i k.dfs f k.nonempty (λ _. (s, old)) h))
      | inl new ↦
          let (g, built) =
            build_tree-Built c.adj c.state n symmetric targets n [] none i i k.dfs f refl new live
              lt (unseen-le n k.dfs.rank) h.grown in
          let tree =
            sort_cluster-LoopAt c.adj c.state n i k.dfs f k.nonempty h _ _ g built k.n_all in
          rw (live, new, grow)
            (subst
              (λ b. LoopAt c.adj c.state n (suc i) (
                sort_cluster (build_tree c.adj c.state n i none i k.dfs).0 i
                  (record { dfs = k.dfs; nonempty = k.nonempty; n_all = k.n_all; going = b })))
              (sym going) tree)
    ]
  ]

  grow_all-stopped : (m i : ℕ) (k : Clusters) → k.going ≡ false → grow_all c n m i k ≡ k
  unfolding grow_all
  grow_all-stopped zero i k e = refl
  grow_all-stopped (suc m) i k e =
      let next = grow_all c n m (suc i) (grow c n i k) in
      subst (λ (b : Bool). (elim b as (λ _. Clusters) [ true ↦ next | false ↦ k ]) ≡ k) (sym e) refl

  grow_all-goes_on :
      (m i : ℕ) (k : Clusters)
      → k.going ≡ true
      → grow_all c n (suc m) i k ≡ grow_all c n m (suc i) (grow c n i k)
  unfolding grow_all
  grow_all-goes_on m i k e =
      let next = grow_all c n m (suc i) (grow c n i k) in
      subst (λ (b : Bool). (elim b as (λ _. Clusters) [ true ↦ next | false ↦ k ]) ≡ next) (sym e)
        refl

  grow_all-done : (i : ℕ) (k : Clusters) → grow_all c n zero i k ≡ k
  unfolding grow_all
  grow_all-done i k = refl

  grow_all-LoopAt :
      (m i : ℕ) (k : Clusters)
      → i + m ≡ n
      → LoopAt c.adj c.state n i k
      → LoopAt c.adj c.state n n (grow_all c n m i k)
  grow_all-LoopAt m i k e (f, inr (stopped, clash)) =
      subst (LoopAt c.adj c.state n n) (sym (grow_all-stopped m i k stopped))
        (f, inr (stopped, clash))
  grow_all-LoopAt zero i k e (f, inl (going, h)) =
      let last : i ≡ n = omega arith in
      subst (LoopAt c.adj c.state n n) (sym (grow_all-done i k))
        (f, inl (going, subst (λ x. Clustered c.adj c.state n x k.dfs f k.nonempty) last h))
  grow_all-LoopAt (suc m) i k e (f, inl (going, h)) =
      subst (LoopAt c.adj c.state n n) (sym (grow_all-goes_on m i k going)) (
        grow_all-LoopAt m (suc i) (grow c n i k) (omega arith)
          (grow-LoopAt i k f (omega arith) going h))

  blank-Clustered : Clustered c.adj c.state n 0 blank (λ x. 0) none
  unfolding blank
  blank-Clustered = record {
    grown = record {
      bounded = λ x s k. absurd (ground arith);
      live = λ x s k. absurd (ground arith);
      finished = λ x s k. absurd (ground arith);
      stacked = tt;
    };
    covered = λ x lt live. absurd (omega arith);
    in_cluster = λ x s k. absurd (ground arith);
    cluster_of = λ j r x s root k ge lt. absurd (ground arith);
    is_nonempty = λ j e. absurd (ground arith);
  }

  -- The loop ends with a tree for each cluster, or stops at a second tree with active vertices.
  pub clusters-LoopAt :
      LoopAt c.adj c.state n n
        (grow_all c n n 0 (record { dfs = blank; nonempty = none; n_all = 0; going = true }))
  clusters-LoopAt = grow_all-LoopAt n 0 _ (omega arith) (λ x. 0, inl (refl, blank-Clustered))
