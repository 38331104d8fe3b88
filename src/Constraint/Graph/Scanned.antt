-- ===== src/Constraint/Graph/Scanned.antt =====
-- The loop of `buildTree` over the neighbours of the vertex `v`, whose rank is `r`.
use glucose.Prelude.{
  ℕ, ◌+◌, ◌≤◌, ◌<◌, ◌≡◌, sym, subst, ◌∙◌, ◌⊎◌, inl, inr, false, Option, some, List, ◌∷◌, arith, ltb,
  ◌==◌, eq_of_==, Bool-cases,
}
use glucose.Prelude.Lists.{In}
use glucose.Constraint.Graph.{NodeState, Dfs, is_inactive}
use glucose.Constraint.Graph.Tree.{min}
use glucose.Constraint.Graph.Grown.{Kept, Kept-trans, Above, ActiveAt}
use glucose.Constraint.Graph.Opened.{Grown, Built, rank_unique}
use glucose.Constraint.Graph.States.{some_of}

module _ (adj : ℕ → List ℕ) (state : ℕ → NodeState) (os : List ℕ) (v r : ℕ) (parent : Option ℕ)
    (cluster : ℕ) where
  -- Where the neighbour `y` of a vertex in the subtree of `v` is.
  abbrev pub Handled : Dfs → ℕ → ℕ → Type 0
  Handled d low y =
      is_inactive (state y) ≡ false
      → (t : ℕ) × (d.rank y ≡ some t) × ((r ≤ t) ⊎ (parent ≡ some y) ⊎ (low ≤ t) × (t < r))

  -- What holds in the loop while the neighbours `ws` are left; `c` and `b` are those of its start.
  pub record Scanned (c : Dfs) (b : ℕ → ℕ) (d : Dfs) (f : ℕ → ℕ) (low count : ℕ) (ws : List ℕ)
      : Type 0 where
    pub kept : Kept c d b f
    pub grown : Grown adj state d f (v ∷ os)
    pub at : d.rank v ≡ some r
    pub own : (y : ℕ) → In y (adj v) → In y ws ⊎ Handled d low y
    pub edges : (x s y : ℕ) → d.rank x ≡ some s → r < s → In y (adj x) → Handled d low y
    pub up : (x s : ℕ) → d.rank x ≡ some s → r < s → Above d x (λ u. r ≤ u)
    pub nested : (x s : ℕ) → d.rank x ≡ some s → r < s → f x ≤ d.next_rank
    pub less : (x s : ℕ) → d.rank x ≡ some s → r < s → d.subtree_active_count x ≤ count
    pub found : 0 < count → ActiveAt adj state d (λ t. r ≤ t)
    pub rest :
        (x s : ℕ)
        → d.rank x ≡ some s
        → r < s
        → d.subtree_active_count x < count
        → ActiveAt adj state d (λ t. (r ≤ t) × ((t < s) ⊎ (f x ≤ t)))
    pub clusters : (x s : ℕ) → d.rank x ≡ some s → r ≤ s → d.cluster_id x ≡ cluster

  min_le : (a b : ℕ) → (min a b ≤ a) × (min a b ≤ b)
  unfolding min
  min_le a b = ground arith

  Handled-lower : (d : Dfs) (low low' y : ℕ) → low' ≤ low → Handled d low y → Handled d low' y
  Handled-lower d low low' y le h live =
      let (t, k, side) = h live in
      (
        t,
        k,
        elim side [
          | inl inside ↦ inl inside
          | inr (inl above) ↦ inr (inl above)
          | inr (inr (ge, lt)) ↦ inr (inr (omega arith, lt))
        ],
      )

  -- A neighbour that needs no call.
  pub pass :
      (c : Dfs) (b : ℕ → ℕ) (d : Dfs) (f : ℕ → ℕ) (low low' count w : ℕ) (ws : List ℕ)
      → low' ≤ low
      → Handled d low' w
      → Scanned c b d f low count (w ∷ ws)
      → Scanned c b d f low' count ws
  pass c b d f low low' count w ws le handled h = record {
    kept = h.kept;
    grown = h.grown;
    at = h.at;
    own = λ y m. elim (h.own y m) [
      | inl (inl same) ↦ inr (subst (Handled d low') same handled)
      | inl (inr more) ↦ inl more
      | inr done ↦ inr (Handled-lower d low low' y le done)
    ];
    edges = λ x s y k lt m. Handled-lower d low low' y le (h.edges x s y k lt m);
    up = h.up;
    nested = h.nested;
    less = h.less;
    found = h.found;
    rest = h.rest;
    clusters = h.clusters;
  }

  -- A neighbour that is visited by a call.
  module _ (c : Dfs) (b : ℕ → ℕ) (d : Dfs) (f : ℕ → ℕ) (low count w : ℕ) (ws : List ℕ)
      (h : Scanned c b d f low count (w ∷ ws)) (e : Dfs) (low_w : ℕ) (g : ℕ → ℕ)
      (built : Built adj state d f w (some v) cluster (v ∷ os) e low_w g) where
    later : r < d.next_rank
    later = h.grown.bounded v r h.at

    -- A vertex of the subtree was there before the call, or is in the subtree of `w`.
    before : (x s : ℕ) → e.rank x ≡ some s → (d.rank x ≡ some s) ⊎ (d.next_rank ≤ s) × (s < g w)
    before x s k = elim (built.kept.fresh x s k) [
      | inl old ↦ inl old
      | inr new ↦ inr (new, omega (arith, built.ends, built.grown.bounded x s k))
    ]

    Handled-kept : (y : ℕ) → Handled d low y → Handled e (min low low_w) y
    Handled-kept y done live =
        let (t, k, side) = Handled-lower d low (min low low_w) y (min_le low low_w).0 done live in
        (t, built.kept.ranks y t k, side)

    Handled-new :
        (x s y : ℕ)
        → e.rank x ≡ some s
        → (d.next_rank ≤ s) × (s < g w)
        → In y (adj x)
        → Handled e (min low low_w) y
    Handled-new x s y k (ge, lt) m live =
        let (t, at, side) = built.fine.edges x s y (k, ge, lt) m live in
        let at_v = built.kept.ranks v r h.at in
        (
          t,
          at,
          elim side [
            | inl (inside, _) ↦ inl (omega (arith, later))
            | inr (inl above) ↦
                let same : v ≡ y = some_of (sym built.parent_is ∙ above) in
                inl (omega (arith, rank_unique at_v (subst (λ z. e.rank z ≡ some t) (sym same) at)))
            | inr (inr (low_le, (q, u, p, k', lt'))) ↦
                let same : v ≡ q = some_of (sym built.parent_is ∙ p) in
                let u_is : r ≡ u =
                  rank_unique at_v (subst (λ z. e.rank z ≡ some u) (sym same) k') in
                inr (inr (omega (arith, (min_le low low_w).1, built.low_is), omega arith))
          ],
        )

    Above-kept : (x s : ℕ) → d.rank x ≡ some s → Above d x (λ u. r ≤ u) → Above e x (λ u. r ≤ u)
    Above-kept x s old (q, u, p, k, le) =
        ((q, u, (built.kept.fields x s old).parent ∙ p, built.kept.ranks q u k, le))

    Above-new :
        (x s : ℕ) → e.rank x ≡ some s → (d.next_rank ≤ s) × (s < g w) → Above e x (λ u. r ≤ u)
    Above-new x s k (ge, lt) = elim (Bool-cases (w == x)) [
      | inl same ↦
          subst (λ y. Above e y (λ u. r ≤ u)) (eq_of_== w x same)
            (v, r, built.parent_is, built.kept.ranks v r h.at, omega arith)
      | inr other ↦
          let (q, u, p, k', le) = built.fine.up x s (k, ge, lt) (λ same. ground arith) in
          (q, u, p, k', omega (arith, later))
    ]

    active_later :
        (P Q : ℕ → Type 0)
        → ((t : ℕ) → t < d.next_rank → P t → Q t)
        → ActiveAt adj state d P
        → ActiveAt adj state e Q
    active_later P Q i (z, t, a, k, p) =
        (z, t, a, built.kept.ranks z t k, i t (h.grown.bounded z t k) p)

    active_new :
        (P Q : ℕ → Type 0) → ((t : ℕ) → P t → Q t) → ActiveAt adj state e P → ActiveAt adj state e Q
    active_new P Q i (z, t, a, k, p) = (z, t, a, k, i t p)

    found_call : 0 < count + e.subtree_active_count w → ActiveAt adj state e (λ t. r ≤ t)
    found_call pos_count = elim (Bool-cases (ltb 0 count)) [
      | inl earlier ↦ active_later _ (λ t. r ≤ t) (λ t _ le. le) (h.found (ground arith))
      | inr now ↦
          active_new _ (λ t. r ≤ t) (λ t (ge, lt). omega (arith, later))
            (built.fine.found (ground arith))
    ]

    rest_call :
        (x s : ℕ)
        → e.rank x ≡ some s
        → r < s
        → e.subtree_active_count x < count + e.subtree_active_count w
        → ActiveAt adj state e (λ t. (r ≤ t) × ((t < s) ⊎ (g x ≤ t)))
    rest_call x s k gt lt = elim (before x s k) [
      | inl old ↦
          let same = built.kept.fields x s old in
          elim (Bool-cases (ltb (d.subtree_active_count x) count)) [
            | inl earlier ↦
                active_later _ (λ t. (r ≤ t) × ((t < s) ⊎ (g x ≤ t)))
                  (λ t _ (le, out). (le, ground (arith, same.fin)))
                  (h.rest x s old gt (ground arith))
            | inr now ↦
                active_new _ (λ t. (r ≤ t) × ((t < s) ⊎ (g x ≤ t)))
                  (λ t (ge, _).
                    (omega (arith, later), inr (omega (arith, same.fin, h.nested x s old gt))))
                  (built.fine.found (ground (arith, same.count)))
          ]
      | inr (ge, inside) ↦ elim (Bool-cases (ltb 0 count)) [
        | inl earlier ↦
            active_later _ (λ t. (r ≤ t) × ((t < s) ⊎ (g x ≤ t)))
              (λ t old le. (le, inl (omega arith))) (h.found (ground arith))
        | inr now ↦
            active_new _ (λ t. (r ≤ t) × ((t < s) ⊎ (g x ≤ t)))
              (λ t (ge', lt', out). (omega (arith, later), out))
              (built.fine.rest x s (k, ge, inside) (ground arith))
      ]
    ]

    pub call : Scanned c b e g (min low low_w) (count + e.subtree_active_count w) ws
    call = record {
      kept = Kept-trans c d e b f g h.kept built.kept;
      grown = built.grown;
      at = built.kept.ranks v r h.at;
      own = λ y m. elim (h.own y m) [
        | inl (inl same) ↦ inr (
            subst (Handled e (min low low_w)) same
              (λ live. (d.next_rank, built.at, inl (omega (arith, later)))))
        | inl (inr more) ↦ inl more
        | inr done ↦ inr (Handled-kept y done)
      ];
      edges = λ x s y k gt m. elim (before x s k) [
        | inl old ↦ Handled-kept y (h.edges x s y old gt m)
        | inr new ↦ Handled-new x s y k new m
      ];
      up = λ x s k gt. elim (before x s k) [
        | inl old ↦ Above-kept x s old (h.up x s old gt)
        | inr new ↦ Above-new x s k new
      ];
      nested = λ x s k gt. elim (before x s k) [
        | inl old ↦
            omega (arith, h.nested x s old gt, (built.kept.fields x s old).fin, built.kept.grows)
        | inr (ge, lt) ↦ omega (arith, built.fine.nested x s (k, ge, lt), built.ends)
      ];
      less = λ x s k gt. elim (before x s k) [
        | inl old ↦ omega (arith, h.less x s old gt, (built.kept.fields x s old).count)
        | inr (ge, lt) ↦ omega (arith, built.fine.less x s (k, ge, lt))
      ];
      found = found_call;
      rest = rest_call;
      clusters = λ x s k ge. elim (before x s k) [
        | inl old ↦ (built.kept.fields x s old).cluster ∙ h.clusters x s old ge
        | inr (new, _) ↦ built.clusters x s k new
      ];
    }
