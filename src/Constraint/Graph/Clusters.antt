-- ===== src/Constraint/Graph/Clusters.antt =====
-- The invariant of the loop of `propagate` that builds the trees, and one more tree.
use glucose.Prelude.{
  ℕ, suc, ◌≤◌, ◌<◌, ◌≡◌, refl, sym, subst, ◌∙◌, ◌⊎◌, inl, inr, true, false, Option, none, some,
  List, [], arith, ltb, ◌==◌, eq_of_==, Bool-cases, Option-cases,
}
use glucose.Constraint.Graph.{NodeState, Dfs, is_inactive}
use glucose.Constraint.Graph.Propagate.{Clusters, sort_cluster}
use glucose.Constraint.Graph.Grown.{Fine, ActiveAt}
use glucose.Constraint.Graph.Opened.{Grown, Built, rank_none}
use glucose.Constraint.Graph.States.{some_of}

module _ (adj : ℕ → List ℕ) (state : ℕ → NodeState) (n : ℕ) where
  -- A vertex whose call was made by the loop, with rank `r`.
  abbrev pub Root : Dfs → ℕ → ℕ → Type 0
  Root d j r = (d.parent j ≡ none) × (d.rank j ≡ some r)

  -- A root whose tree has an active vertex.
  abbrev pub Nonempty : Dfs → (ℕ → ℕ) → ℕ → ℕ → Type 0
  Nonempty d f j r = Root d j r × ActiveAt adj state d (λ t. (r ≤ t) × (t < f j))

  -- What holds after the vertices before `i`.
  pub record Clustered (i : ℕ) (d : Dfs) (f : ℕ → ℕ) (nonempty : Option ℕ) : Type 0 where
    pub grown : Grown adj state d f []
    pub covered : (x : ℕ) → x < i → is_inactive (state x) ≡ false → (s : ℕ) × (d.rank x ≡ some s)
    pub in_cluster :
        (x s : ℕ)
        → d.rank x ≡ some s
        → (r : ℕ) × Root d (d.cluster_id x) r × (r ≤ s) × (s < f (d.cluster_id x))
    pub cluster_of :
        (j r x s : ℕ) → Root d j r → d.rank x ≡ some s → r ≤ s → s < f j → d.cluster_id x ≡ j
    pub is_nonempty : (j : ℕ) → nonempty ≡ some j → (r : ℕ) × Nonempty d f j r

  -- Two trees with active vertices.
  pub record Clash (d : Dfs) (f : ℕ → ℕ) : Type 0 where
    pub grown : Grown adj state d f []
    pub first : ℕ
    pub second : ℕ
    pub rank_first : ℕ
    pub rank_second : ℕ
    pub is_first : Nonempty d f first rank_first
    pub is_second : Nonempty d f second rank_second
    pub is_apart : f first ≤ rank_second

  abbrev pub LoopAt : ℕ → Clusters → Type 0
  LoopAt i k =
      (f : ℕ → ℕ) × ((k.going ≡ true) × Clustered i k.dfs f k.nonempty
        ⊎ (k.going ≡ false) × Clash k.dfs f)

  Fine-of :
      (d : Dfs) (f : ℕ → ℕ) (x s : ℕ)
      → Grown adj state d f []
      → d.rank x ≡ some s
      → Fine adj state d f x s
  Fine-of d f x s h k = elim (h.finished x s k) [ inl m ↦ absurd m | inr fine ↦ fine ]

  -- One more tree, with root `i`.
  module _ (i : ℕ) (d : Dfs) (f : ℕ → ℕ) (nonempty : Option ℕ) (h : Clustered i d f nonempty)
      (e : Dfs) (low : ℕ) (g : ℕ → ℕ) (built : Built adj state d f i none i [] e low g) where
    old_end : (x s : ℕ) → d.rank x ≡ some s → f x ≤ d.next_rank
    old_end x s k = (Fine-of d f x s h.grown k).ends

    Root-kept : (j r : ℕ) → Root d j r → Root e j r
    Root-kept j r (p, k) = ((built.kept.fields j r k).parent ∙ p, built.kept.ranks j r k)

    new-Root : (j r : ℕ) → Root e j r → d.next_rank ≤ r → i ≡ j
    new-Root j r (p, k) ge = elim (Bool-cases (i == j)) [
      | inl same ↦ eq_of_== i j same
      | inr other ↦
          let (q, u, p', _, _) =
            built.fine.up j r (k, ge, omega (arith, built.ends, built.grown.bounded j r k))
              (λ same. ground arith) in
          absurd (rank_none p p')
    ]

    add_tree :
        (nonempty' : Option ℕ)
        → ((j : ℕ) → nonempty' ≡ some j → (r : ℕ) × Nonempty e g j r)
        → Clustered (suc i) e g nonempty'
    add_tree nonempty' known = record {
      grown = built.grown;
      covered = λ x lt live. elim (Bool-cases (i == x)) [
        | inl same ↦
            subst (λ y. (s : ℕ) × (e.rank y ≡ some s)) (eq_of_== i x same) (d.next_rank, built.at)
        | inr other ↦ let (s, k) = h.covered x (ground arith) live in (s, built.kept.ranks x s k)
      ];
      in_cluster = λ x s k. elim (built.kept.fresh x s k) [
        | inl old ↦
            let (r, root, ge, lt) = h.in_cluster x s old in
            let same = (built.kept.fields x s old).cluster in
            subst (λ j. (r : ℕ) × Root e j r × (r ≤ s) × (s < g j)) (sym same)
              (r, Root-kept _ r root, ge, omega (arith, (built.kept.fields _ r root.1).fin))
        | inr new ↦
            subst (λ j. (r : ℕ) × Root e j r × (r ≤ s) × (s < g j)) (sym (built.clusters x s k new))
              (
                d.next_rank,
                (built.parent_is, built.at),
                new,
                omega (arith, built.ends, built.grown.bounded x s k),
              )
      ];
      cluster_of = λ j r x s root k ge lt. elim (built.kept.fresh j r root.1) [
        | inl old ↦
            let same = built.kept.fields j r old in
            let root_d : Root d j r = (sym same.parent ∙ root.0, old) in
            elim (built.kept.fresh x s k) [
              | inl old_x ↦
                  (built.kept.fields x s old_x).cluster
                  ∙ h.cluster_of j r x s root_d old_x ge (omega (arith, same.fin))
              | inr new_x ↦ absurd (omega (arith, same.fin, old_end j r old))
            ]
        | inr new ↦ built.clusters x s k (omega arith) ∙ new-Root j r root new
      ];
      is_nonempty = known;
    }

    Nonempty-kept : (j r : ℕ) → Nonempty d f j r → Nonempty e g j r
    Nonempty-kept j r (root, (z, t, a, k, (ge, lt))) = (
      Root-kept j r root,
      (z, t, a, built.kept.ranks z t k, (ge, omega (arith, (built.kept.fields j r root.1).fin))),
    )

    own_Nonempty : 0 < e.subtree_active_count i → Nonempty e g i d.next_rank
    own_Nonempty pos_count = ((built.parent_is, built.at), built.fine.found pos_count)

    pub sort_cluster-LoopAt :
        (n_all : ℕ)
        → LoopAt (suc i) (
            sort_cluster e i (record { dfs = d; nonempty = nonempty; n_all = n_all; going = true }))
    unfolding sort_cluster
    sort_cluster-LoopAt n_all = elim (Bool-cases (ltb 0 (e.subtree_active_count i))) [
      | inr empty ↦
          rw (empty, sort_cluster)
            (
              g,
              inl (
                refl,
                add_tree nonempty
                    (λ j is. let (r, known) = h.is_nonempty j is in (r, Nonempty-kept j r known)),
              ),
            )
      | inl full ↦ elim (Option-cases nonempty) [
        | inl nothing ↦
            rw (full, nothing, sort_cluster)
              (
                g,
                inl (
                  refl,
                  add_tree (some i) (λ j is.
                      subst (λ x. (r : ℕ) × Nonempty e g x r) (some_of is)
                        (d.next_rank, own_Nonempty (ground arith))),
                ),
              )
        | inr (j, is) ↦
            let (r, known) = h.is_nonempty j is in
            rw (full, is, sort_cluster)
              (
                g,
                inr (
                  refl,
                  record {
                    grown = built.grown;
                    first = j;
                    second = i;
                    rank_first = r;
                    rank_second = d.next_rank;
                    is_first = Nonempty-kept j r known;
                    is_second = own_Nonempty (ground arith);
                    is_apart =
                        omega (arith, (built.kept.fields j r known.0.1).fin, old_end j r known.0.1);
                  },
                ),
              )
      ]
    ]

  -- A vertex that needs no tree.
  pub pass_vertex :
      (i : ℕ) (d : Dfs) (f : ℕ → ℕ) (nonempty : Option ℕ)
      → (is_inactive (state i) ≡ false → (s : ℕ) × (d.rank i ≡ some s))
      → Clustered i d f nonempty
      → Clustered (suc i) d f nonempty
  pass_vertex i d f nonempty passed h = record {
    grown = h.grown;
    covered = λ x lt live. elim (Bool-cases (i == x)) [
      | inl same ↦
          let e : i ≡ x = eq_of_== i x same in
          subst (λ y. (s : ℕ) × (d.rank y ≡ some s)) e
            (passed (subst (λ y. is_inactive (state y) ≡ false) (sym e) live))
      | inr other ↦ h.covered x (ground arith) live
    ];
    in_cluster = h.in_cluster;
    cluster_of = h.cluster_of;
    is_nonempty = h.is_nonempty;
  }
