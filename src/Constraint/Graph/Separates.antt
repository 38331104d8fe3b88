-- ===== src/Constraint/Graph/Separates.antt =====
-- The test for articulation points in `propagate`.
use glucose.Prelude.{
  ℕ, ◌+◌, ◌-◌, ◌≤◌, ◌<◌, ◌≡◌, refl, sym, ap, subst, ◌≢◌, ◌⊎◌, inl, inr, Bool, true, false, ◌&&◌,
  Option, none, some, List, [], ◌∷◌, arith, ltb, if◌then◌else◌, eq_of_==, Bool-cases, Option-cases,
}
use glucose.Prelude.Lists.{In, All, In-All}
use glucose.Constraint.Graph.{NodeState, Dfs, ActiveVerticesConnected}
use glucose.Constraint.Graph.Propagate.{rank_less, is_some, rank_of, sides, separates}
use glucose.Constraint.Graph.Indices.{Apart}
use glucose.Constraint.Graph.Opened.{Grown}
use glucose.Constraint.Graph.Clusters.{Root}
use glucose.Constraint.Graph.Cuts.{
  Connects, Fits, Child, Outside, cut_vertex, before-Outside, sibling-Outside,
}

less_than :
    (d : Dfs) (v rv w : ℕ)
    → d.rank v ≡ some rv
    → rank_less (d.rank v) (d.rank w) ≡ true
    → (r : ℕ) × (d.rank w ≡ some r) × (rv < r)
unfolding rank_less
less_than d v rv w at e = elim (Option-cases (d.rank w)) [
  | inl new ↦ absurd (ground arith)
  | inr (r, old) ↦ (r, old, ground arith)
]

is_parent : (o : Option ℕ) (v : ℕ) → is_some o v ≡ true → o ≡ some v
unfolding is_some
is_parent none v e = absurd (ground arith)
is_parent (some x) v e = ap some (eq_of_== x v e)

module _ (adj : ℕ → List ℕ) (state : ℕ → NodeState) (n : ℕ) (on : ℕ → Bool) (d : Dfs) (f : ℕ → ℕ)
    (grown : Grown adj state d f []) (fits : Fits state on) (connects : Connects adj on) (v rv : ℕ)
    (at_v : d.rank v ≡ some rv) where
  abbrev Below : ℕ → ℕ → Type 0
  Below w r = Child adj state n on d f grown fits connects v rv w r

  abbrev Off : ℕ → ℕ → Type 0
  Off w r = Outside adj state n on d f grown fits connects v rv at_v w r

  -- A subtree that is cut off by `v` and has an active vertex.
  record CutOff (w r : ℕ) : Type 0 where
    child : Below w r
    member : In w (adj v)
    low : rv ≤ d.lowlink w
    full : 0 < d.subtree_active_count w

  -- What `parent_side` stands for.
  abbrev Far : ℕ → Type 0
  Far parent_side = 0 < parent_side → (w r : ℕ) → CutOff w r → Off w r

  -- What `n_nonempty_subgraph` stands for, while the neighbours `ws` are left.
  abbrev Cuts : ℕ → List ℕ → Type 0
  Cuts cut ws =
      (cut ≡ 0)
      ⊎ (w : ℕ) × (r : ℕ) × CutOff w r
        × All (λ u. w ≢ u) ws
        × ((cut ≡ 1) ⊎ (w' : ℕ) × (r' : ℕ) × CutOff w' r' × (w ≢ w'))

  abbrev Counted : ℕ × ℕ → List ℕ → Type 0
  Counted (parent_side, cut) ws = Far parent_side × Cuts cut ws

  drop_one : (cut w : ℕ) (ws : List ℕ) → Cuts cut (w ∷ ws) → Cuts cut ws
  drop_one cut w ws (inl e) = inl e
  drop_one cut w ws (inr (w0, r0, c, ne, more)) = inr (w0, r0, c, ne.1, more)

  one_more :
      (cut w r : ℕ) (ws : List ℕ)
      → CutOff w r
      → All (λ u. w ≢ u) ws
      → Cuts cut (w ∷ ws)
      → Cuts (cut + 1) ws
  one_more cut w r ws c ne (inl e) = inr (w, r, c, ne, inl (omega arith))
  one_more cut w r ws c ne (inr (w0, r0, c0, ne0, more)) =
      inr (w0, r0, c0, ne0.1, inr (w, r, c, ne0.0))

  attached :
      (parent_side w r : ℕ)
      → Below w r
      → d.lowlink w < rv
      → Far parent_side
      → Far (parent_side + d.subtree_active_count w)
  attached parent_side w r c low far pos_side w1 r1 c1 = elim (Bool-cases (ltb 0 parent_side)) [
    | inl earlier ↦ far (ground arith) w1 r1 c1
    | inr now ↦
        sibling-Outside adj state n on d f grown fits connects v rv at_v w1 r1 w r c1.child c
          (λ e. omega (arith, c1.low, ap d.lowlink e)) (ground arith)
  ]

  abbrev is_child : ℕ → Bool
  is_child w = rank_less (d.rank v) (d.rank w) && is_some (d.parent w) v

  abbrev attaches : ℕ → Bool
  attaches w = ltb (d.lowlink w) (rank_of (d.rank v))

  child_of : (w : ℕ) → is_child w ≡ true → (r : ℕ) × Below w r
  child_of w e =
      let (less, above) : (rank_less (d.rank v) (d.rank w) ≡ true)
          × (is_some (d.parent w) v ≡ true) =
        both e in
      let (r, at, lt) = less_than d v rv w at_v less in
      (r, record { at = at; is_below = lt; child = is_parent (d.parent w) v above })
    where
      both : {a b : Bool} → (a && b) ≡ true → (a ≡ true) × (b ≡ true)
      both {a} {b} e = ground arith

  rank_of_v : rank_of (d.rank v) ≡ rv
  unfolding rank_of
  rank_of_v = rw at_v refl

  sides-end : (ps cut : ℕ) → sides d v [] ps cut ≡ (ps, cut)
  unfolding sides
  sides-end ps cut = refl

  sides-other :
      (w : ℕ) (ws : List ℕ) (ps cut : ℕ)
      → is_child w ≡ false
      → sides d v (w ∷ ws) ps cut ≡ sides d v ws ps cut
  unfolding sides
  sides-other w ws ps cut e = rw (e, sides) refl

  sides-attached :
      (w : ℕ) (ws : List ℕ) (ps cut : ℕ)
      → is_child w ≡ true
      → attaches w ≡ true
      → sides d v (w ∷ ws) ps cut ≡ sides d v ws (ps + d.subtree_active_count w) cut
  unfolding sides
  sides-attached w ws ps cut e k = rw (e, k, sides) refl

  sides-cut :
      (w : ℕ) (ws : List ℕ) (ps cut : ℕ)
      → is_child w ≡ true
      → attaches w ≡ false
      → sides d v (w ∷ ws) ps cut
        ≡ sides d v ws ps (if ltb 0 (d.subtree_active_count w) then cut + 1 else cut)
  unfolding sides
  sides-cut w ws ps cut e k = rw (e, k, sides) refl

  sides-Counted :
      (ws : List ℕ) (ps cut : ℕ)
      → All (λ w. In w (adj v)) ws
      → Apart ws
      → Counted (ps, cut) ws
      → Counted (sides d v ws ps cut) []
  sides-Counted [] ps cut ms apart h = subst (λ x. Counted x []) (sym (sides-end ps cut)) h
  sides-Counted (w ∷ ws) ps cut ms apart h = elim (Bool-cases (is_child w)) [
    | inr other ↦
        subst (λ x. Counted x []) (sym (sides-other w ws ps cut other))
          (sides-Counted ws ps cut ms.1 apart.1 (h.0, drop_one cut w ws h.1))
    | inl is ↦
        let (r, c) = child_of w is in
        elim (Bool-cases (attaches w)) [
          | inl yes_low ↦
              subst (λ x. Counted x []) (sym (sides-attached w ws ps cut is yes_low))
                (sides-Counted ws (ps + d.subtree_active_count w) cut ms.1 apart.1
                  (attached ps w r c (ground (arith, rank_of_v)) h.0, drop_one cut w ws h.1))
          | inr cuts ↦
              subst (λ x. Counted x []) (sym (sides-cut w ws ps cut is cuts))
                (elim (Bool-cases (ltb 0 (d.subtree_active_count w))) [
                  | inl full ↦ rw full (
                      sides-Counted ws ps (cut + 1) ms.1 apart.1 (
                        h.0,
                        one_more cut w r ws
                            (record {
                              child = c;
                              member = ms.0;
                              low = ground (arith, rank_of_v);
                              full = ground arith;
                            })
                            apart.0 h.1,
                      ))
                  | inr empty ↦
                      rw empty (sides-Counted ws ps cut ms.1 apart.1 (h.0, drop_one cut w ws h.1))
                ])
        ]
  ]

  verdict :
      (ps cut : ℕ) → Counted (ps, cut) [] → 1 < (if ltb 0 ps then cut + 1 else cut) → on v ≡ true
  verdict ps cut (far, inl e) gt = absurd (ground arith)
  verdict ps cut (far, inr (w, r, c, _, more)) gt =
      cut_vertex adj state n on d f grown fits connects v rv at_v w r c.child c.low c.full
        (elim more [
          | inl e ↦ far (ground arith) w r c
          | inr (w', r', c', ne) ↦
              sibling-Outside adj state n on d f grown fits connects v rv at_v w r w' r' c.child
                c'.child ne c'.full
        ])

-- A vertex that the test finds is active in the assignment.
pub separates-on :
    (c : ActiveVerticesConnected) (n : ℕ) (on : ℕ → Bool) (d : Dfs) (f : ℕ → ℕ)
    → Grown c.adj c.state d f []
    → Fits c.state on
    → Connects c.adj on
    → (v rv j r : ℕ) → Apart (c.adj v)
    → d.rank v ≡ some rv
    → Root c.adj c.state n d j r
    → r ≤ rv
    → rv < f j
    → separates c d j v ≡ true
    → on v ≡ true
unfolding separates
separates-on c n on d f grown fits connects v rv j r apart at_v root ge lt found =
    let before = d.subtree_active_count j - d.subtree_active_count v in
    let (parent_side, cut) = sides d v (c.adj v) before 0 in
    verdict c.adj c.state n on d f grown fits connects v rv at_v parent_side cut
      (sides-Counted c.adj c.state n on d f grown fits connects v rv at_v (c.adj v) before 0
        (In-All (c.adj v) λ w m. m) apart
        (
          λ pos_side w rw' cut_off.
              before-Outside c.adj c.state n on d f grown fits connects v rv at_v j r w rw' root ge
                lt (omega arith) cut_off.member cut_off.child,
          inl refl,
        ))
      (ground arith)
