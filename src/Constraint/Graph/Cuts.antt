-- ===== src/Constraint/Graph/Cuts.antt =====
-- The finished search, and the vertices that are on in an assignment in which they are connected.
use glucose.Prelude.{
  ℕ, ◌≤◌, ◌<◌, ◌≡◌, sym, ap, subst, ◌∙◌, ◌≢◌, ◌⊎◌, inl, inr, Bool, true, false, some, List, [],
  arith, ltb, leb, Bool-cases,
}
use glucose.Prelude.Lists.{In}
use glucose.Constraint.Graph.{NodeState, Dfs, is_active, is_inactive}
use glucose.Constraint.Graph.Grown.{Fine, ActiveAt}
use glucose.Constraint.Graph.Opened.{Grown, rank_unique, rank_none}
use glucose.Constraint.Graph.Clusters.{Root, Nonempty}
use glucose.Constraint.Graph.States.{some_of, true-ne-false}

-- The walks to vertices of which `on` holds.
pub data Walk (adj : ℕ → List ℕ) (on : ℕ → Bool) (x : ℕ) : ℕ → Type 0 where
  here : Walk adj on x x
  step : {y z : ℕ} → Walk adj on x y → In z (adj y) → on z ≡ true → Walk adj on x z

-- No walk leaves a set that is closed.
pub walk_stays :
    (adj : ℕ → List ℕ) (on : ℕ → Bool) (P : ℕ → Type 0)
    → ((y z : ℕ) → P y → In z (adj y) → on z ≡ true → P z)
    → {x y : ℕ} → Walk adj on x y
    → P x
    → P y
walk_stays adj on P closed here p = p
walk_stays adj on P closed (step w m k) p = closed _ _ (walk_stays adj on P closed w p) m k

abbrev pub Connects : (ℕ → List ℕ) → (ℕ → Bool) → Type 0
Connects adj on = (x y : ℕ) → on x ≡ true → on y ≡ true → Walk adj on x y

-- The states that are known are those of `on`.
pub record Fits (state : ℕ → NodeState) (on : ℕ → Bool) : Type 0 where
  pub active_on : (x : ℕ) → is_active (state x) ≡ true → on x ≡ true
  pub on_live : (x : ℕ) → on x ≡ true → is_inactive (state x) ≡ false

module _ (adj : ℕ → List ℕ) (state : ℕ → NodeState) (n : ℕ) (on : ℕ → Bool) (d : Dfs) (f : ℕ → ℕ)
    (grown : Grown adj state d f []) (fits : Fits state on) (connects : Connects adj on) where
  Fine-at : (x s : ℕ) → d.rank x ≡ some s → Fine adj state d f x s
  Fine-at x s k = elim (grown.finished x s k) [ inl m ↦ absurd m | inr fine ↦ fine ]

  -- `x` is in the subtree of `w`, whose rank is `r`.
  abbrev Under : ℕ → ℕ → ℕ → Type 0
  Under w r x = (s : ℕ) × (d.rank x ≡ some s) × (r ≤ s) × (s < f w)

  Root-closed :
      (j r : ℕ)
      → Root adj state n d j r
      → (y z : ℕ) → Under j r y
      → In z (adj y)
      → on z ≡ true
      → Under j r z
  Root-closed j r (top, at) y z (s, k, ge, lt) m is_on =
      let (t, k', side) = (Fine-at j r at).edges y s z (k, ge, lt) m (fits.on_live z is_on) in
      elim side [
        | inl (ge', lt') ↦ (t, k', ge', lt')
        | inr (inl p) ↦ absurd (rank_none top p)
        | inr (inr (_, (q, u, p, _, _))) ↦ absurd (rank_none top p)
      ]

  -- All vertices that are on are in the tree of a nonempty root.
  pub on-Under : (j r x : ℕ) → Nonempty adj state n d f j r → on x ≡ true → Under j r x
  on-Under j r x (root, (z, t, a, k, (ge, lt))) is_on =
      walk_stays adj on (Under j r) (Root-closed j r root) (connects z x (fits.active_on z a) is_on)
        (t, k, ge, lt)

  -- No two trees have active vertices.
  pub no_second :
      (j r i u : ℕ) → Nonempty adj state n d f j r → Nonempty adj state n d f i u → f j ≤ u → ⊥
  no_second j r i u first (root, (z, t, a, k, (ge, lt))) apart =
      let (s, k', _, lt') = on-Under j r z first (fits.active_on z a) in
      omega (arith, rank_unique k k')

  -- A child of `v`, whose rank is `rv`.
  pub record Child (v rv w r : ℕ) : Type 0 where
    pub at : d.rank w ≡ some r
    pub is_below : rv < r
    pub child : d.parent w ≡ some v

  module _ (v rv : ℕ) (at_v : d.rank v ≡ some rv) where
    Child-not_under :
        (w r w' r' : ℕ) → Child v rv w r → Child v rv w' r' → w ≢ w' → r ≤ r' → r' < f w → ⊥
    Child-not_under w r w' r' c c' ne le lt =
        let (q, u, p, k, ge) = (Fine-at w r c.at).up w' r' (c'.at, le, lt) (λ e. ne (sym e)) in
        let same : v ≡ q = some_of (sym c'.child ∙ p) in
        omega (arith, c.is_below, rank_unique at_v (subst (λ x. d.rank x ≡ some u) (sym same) k))

    -- The subtrees of two children have no rank in common.
    children_apart :
        (w r w' r' t : ℕ)
        → Child v rv w r
        → Child v rv w' r'
        → w ≢ w'
        → r ≤ t
        → t < f w
        → r' ≤ t
        → t < f w'
        → ⊥
    children_apart w r w' r' t c c' ne ge lt ge' lt' = elim (Bool-cases (leb r r')) [
      | inl le ↦ Child-not_under w r w' r' c c' ne (ground arith) (omega arith)
      | inr gt ↦ Child-not_under w' r' w r c' c (λ e. ne (sym e)) (ground arith) (omega arith)
    ]

    -- Without `v`, the subtree of a child whose low link is `rv` or more is closed.
    Child-closed :
        (w r : ℕ)
        → Child v rv w r
        → rv ≤ d.lowlink w
        → on v ≡ false
        → (y z : ℕ) → Under w r y
        → In z (adj y)
        → on z ≡ true
        → Under w r z
    Child-closed w r c low off y z (s, k, ge, lt) m is_on =
        let (t, k', side) = (Fine-at w r c.at).edges y s z (k, ge, lt) m (fits.on_live z is_on) in
        elim side [
          | inl (ge', lt') ↦ (t, k', ge', lt')
          | inr (inl p) ↦
              let same : v ≡ z = some_of (sym c.child ∙ p) in
              absurd (true-ne-false (sym is_on ∙ ap on (sym same) ∙ off))
          | inr (inr (le, (q, u, p, k'', less))) ↦
              let same : v ≡ q = some_of (sym c.child ∙ p) in
              absurd
                (omega (arith, rank_unique at_v (subst (λ x. d.rank x ≡ some u) (sym same) k'')))
        ]

    -- An active vertex that is not in the subtree of `w`.
    abbrev pub Outside : ℕ → ℕ → Type 0
    Outside w r = ActiveAt adj state d (λ t. (t < r) ⊎ (f w ≤ t))

    -- If such a subtree has an active vertex, and another active vertex is outside, `v` is on.
    pub cut_vertex :
        (w r : ℕ)
        → Child v rv w r
        → rv ≤ d.lowlink w
        → 0 < d.subtree_active_count w
        → Outside w r
        → on v ≡ true
    cut_vertex w r c low full (z, t, a, k, out) = elim (Bool-cases (on v)) [
      | inl yes_on ↦ yes_on
      | inr off ↦
          let (z', t', a', k', (ge, lt)) = (Fine-at w r c.at).found full in
          let (s, k'', ge', lt') =
            walk_stays adj on (Under w r) (Child-closed w r c low off)
              (connects z' z (fits.active_on z' a') (fits.active_on z a)) (t', k', ge, lt) in
          absurd (ground (arith, rank_unique k k''))
    ]

    -- The subtree of a child is in the subtree of `v`.
    Child-nested : (w r : ℕ) → In w (adj v) → Child v rv w r → f w ≤ f v
    Child-nested w r m c =
        let fine = Fine-at v rv at_v in
        let (t, k, side) =
          fine.edges v rv w (at_v, omega arith, fine.starts) m (grown.live w r c.at) in
        let same = rank_unique c.at k in
        elim side [
          | inl (_, lt) ↦ fine.nested w r (c.at, omega (arith, c.is_below), omega arith)
          | inr (inl p) ↦
              let (u, k', less) = fine.lower w p in
              absurd (omega (arith, c.is_below, rank_unique c.at k'))
          | inr (inr (_, (q, u, p, k', less))) ↦
              let (u', k'', less') = fine.lower q p in
              absurd (omega (arith, c.is_below, rank_unique k' k''))
        ]

    -- An active vertex of the tree outside the subtree of `v`, by the counts.
    pub before-Outside :
        (j r w rw' : ℕ)
        → Root adj state n d j r
        → r ≤ rv
        → rv < f j
        → d.subtree_active_count v < d.subtree_active_count j
        → In w (adj v)
        → Child v rv w rw'
        → Outside w rw'
    before-Outside j r w rw' root ge lt less m c =
        let (z, t, a, k, (_, _, out)) = (Fine-at j r root.1).rest v rv (at_v, ge, lt) less in
        (z, t, a, k, ground (arith, c.is_below, Child-nested w rw' m c))

    -- An active vertex in the subtree of one child is outside that of another.
    pub sibling-Outside :
        (w r w' r' : ℕ)
        → Child v rv w r
        → Child v rv w' r'
        → w ≢ w'
        → 0 < d.subtree_active_count w'
        → Outside w r
    sibling-Outside w r w' r' c c' ne full =
        let (z, t, a, k, (ge, lt)) = (Fine-at w' r' c'.at).found full in
        (
          z,
          t,
          a,
          k,
          elim (Bool-cases (ltb t r)) [
            | inl less ↦ inl (ground arith)
            | inr more ↦ inr (elim (Bool-cases (leb (f w) t)) [
              | inl above ↦ ground arith
              | inr under ↦
                  absurd (children_apart w r w' r' t c c' ne (ground arith) (ground arith) ge lt)
            ])
          ],
        )
