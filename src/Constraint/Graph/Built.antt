-- ===== src/Constraint/Graph/Built.antt =====
-- `buildTree`, by recursion on the fuel.
use glucose.Prelude.{
  ℕ, zero, suc, ◌≤◌, ◌<◌, ◌≡◌, refl, subst, inl, inr, false, Option, none, some, List, ◌∷◌, arith,
  ◌==◌, if◌then◌else◌, ==_refl, ==_ne, eq_of_==, Bool-cases,
}
use glucose.Prelude.Lists.{All}
use glucose.Constraint.Graph.{NodeState, Dfs, is_active, is_inactive}
use glucose.Constraint.Graph.Tree.{open_vertex, build_tree}
use glucose.Constraint.Graph.Grown.{Kept-refl}
use glucose.Constraint.Graph.Opened.{
  Grown, Built, top, rank-open_vertex, open_vertex-at, open_vertex-Grown,
}
use glucose.Constraint.Graph.Scanned.{Scanned}
use glucose.Constraint.Graph.Loop.{unseen, Visits, scan-Ends}
use glucose.Constraint.Graph.Closed.{Symmetric, close_vertex-Built}

-- Each edge leads to one of the first `n` vertices.
abbrev pub Targets : ℕ → (ℕ → List ℕ) → Type 0
Targets n adj = (x : ℕ) → All (λ y. y < n) (adj x)

unseen-open_vertex :
    (n v : ℕ) (parent : Option ℕ) (cluster : ℕ) (d : Dfs)
    → (n ≤ v → unseen n (open_vertex v parent cluster d).rank ≡ unseen n d.rank)
      × (v < n
          → d.rank v ≡ none
          → suc (unseen n (open_vertex v parent cluster d).rank) ≡ unseen n d.rank)
unfolding open_vertex
unseen-open_vertex zero v parent cluster d = (λ _. refl, λ lt. absurd (omega arith))
unseen-open_vertex (suc m) v parent cluster d =
    let (outside, among) = unseen-open_vertex m v parent cluster d in
    (
      λ ge. rw (==_ne v m (λ e. omega arith)) (omega (arith, outside)),
      λ lt new. elim (Bool-cases (v == m)) [
        | inl same ↦
            let at : d.rank m ≡ none = subst (λ y. d.rank y ≡ none) (eq_of_== v m same) new in
            rw (same, at) (omega (arith, outside, eq_of_== v m same))
        | inr other ↦ let less : v < m = ground arith in rw other (omega (arith, among less new))
      ],
    )

module _ (adj : ℕ → List ℕ) (state : ℕ → NodeState) (n : ℕ) (symmetric : Symmetric adj)
    (targets : Targets n adj) where
  abbrev own_count : ℕ → ℕ
  own_count v = if is_active (state v) then 1 else 0

  module _ (d : Dfs) (f : ℕ → ℕ) (os : List ℕ) (v : ℕ) (parent : Option ℕ) (cluster : ℕ)
      (new : d.rank v ≡ none) (live : is_inactive (state v) ≡ false)
      (grown : Grown adj state d f os) where
    abbrev o : Dfs
    o = open_vertex v parent cluster d

    none_later : (x s : ℕ) → o.rank x ≡ some s → d.next_rank < s → ⊥
    none_later x s k gt =
        elim (rank-open_vertex adj state d f os v parent cluster new live grown x s k) [
          | inl (_, same) ↦ omega arith
          | inr old ↦ omega (arith, grown.bounded x s old)
        ]

    own_cluster : o.cluster_id v ≡ cluster
    unfolding open_vertex
    own_cluster = rw (==_refl v) refl

    begins :
        Scanned adj state os v d.next_rank parent cluster o f o f d.next_rank (own_count v) (adj v)
    begins =
        let at = open_vertex-at adj state d f os v parent cluster new live grown in
        record {
          kept = Kept-refl o f;
          grown = open_vertex-Grown adj state d f os v parent cluster new live grown;
          at = at;
          own = λ y m. inl m;
          edges = λ x s y k gt. absurd (none_later x s k gt);
          up = λ x s k gt. absurd (none_later x s k gt);
          nested = λ x s k gt. absurd (none_later x s k gt);
          less = λ x s k gt. absurd (none_later x s k gt);
          found = λ pos_count. (v, d.next_rank, ground arith, at, omega arith);
          rest = λ x s k gt. absurd (none_later x s k gt);
          clusters = λ x s k ge.
              elim (rank-open_vertex adj state d f os v parent cluster new live grown x s k) [
                | inl (same, _) ↦ subst (λ y. o.cluster_id y ≡ cluster) same own_cluster
                | inr old ↦ absurd (omega (arith, grown.bounded x s old))
              ];
        }

  abbrev Call : ℕ → List ℕ → Option ℕ → ℕ → ℕ → Dfs → (ℕ → ℕ) → Type 0
  Call fuel os parent cluster v d f =
      (g : ℕ → ℕ) × Built adj state d f v parent cluster os
        (build_tree adj state fuel v parent cluster d).0
        (build_tree adj state fuel v parent cluster d).1 g

  some_unseen : (m v : ℕ) (d : Dfs) → v < m → d.rank v ≡ none → 0 < unseen m d.rank
  some_unseen m v d lt new = omega (arith, (unseen-open_vertex m v none 0 d).1 lt new)

  pub build_tree-Built :
      (fuel : ℕ) (os : List ℕ) (parent : Option ℕ) (cluster v : ℕ) (d : Dfs) (f : ℕ → ℕ)
      → parent ≡ top os
      → d.rank v ≡ none
      → is_inactive (state v) ≡ false
      → v < n
      → unseen n d.rank ≤ fuel
      → Grown adj state d f os
      → Call fuel os parent cluster v d f
  unfolding build_tree
  build_tree-Built zero os parent cluster v d f p new live lt enough grown =
      absurd (omega (arith, some_unseen n v d lt new))
  build_tree-Built (suc fuel) os parent cluster v d f p new live lt enough grown =
      let visits : Visits adj state n fuel os v cluster
          (λ (w : ℕ) (e : Dfs). build_tree adj state fuel w (some v) cluster e) =
        λ w e g unseen_w live_w lt_w enough_w grown_e.
          build_tree-Built fuel (v ∷ os) (some v) cluster w e g refl unseen_w live_w lt_w enough_w
            grown_e in
      let (g, scanned) =
        scan-Ends adj state n fuel os v d.next_rank parent cluster p
          (λ (w : ℕ) (e : Dfs). build_tree adj state fuel w (some v) cluster e) visits
          (open_vertex v parent cluster d) f
          (omega (arith, (unseen-open_vertex n v parent cluster d).1 lt new)) (adj v)
          (open_vertex v parent cluster d) f d.next_rank (own_count v) (targets v)
          (begins d f os v parent cluster new live grown) in
      (
        _,
        close_vertex-Built adj state symmetric d f os v parent cluster p new live grown _ g _ _
            scanned,
      )
