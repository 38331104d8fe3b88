-- ===== src/Constraint/Graph/Loop.antt =====
-- The loop of `buildTree`, for a recursive call that is an argument.
use glucose.Prelude.{
  ℕ, zero, suc, ◌+◌, ◌≤◌, ◌<◌, ◌≡◌, refl, sym, subst, ◌∙◌, ◌⊎◌, inl, inr, Bool, true, false, ◌||◌,
  Option, none, some, List, [], ◌∷◌, arith, ltb, Bool-cases, Option-cases,
}
use glucose.Prelude.Lists.{All}
use glucose.Constraint.Graph.{NodeState, Dfs, is_inactive}
use glucose.Constraint.Graph.Tree.{Scan, min, is_vertex, look, scan}
use glucose.Constraint.Graph.Grown.{Kept}
use glucose.Constraint.Graph.Opened.{Grown, Built, top, top_in, Stacked-rank}
use glucose.Constraint.Graph.Scanned.{Scanned, pass, call}

abbrev pub unseen_one : Option ℕ → ℕ
unseen_one none = 1
unseen_one (some s) = 0

-- How many of the first `m` vertices have no rank.
abbrev pub unseen : ℕ → (ℕ → Option ℕ) → ℕ
unseen zero rank = 0
unseen (suc m) rank = unseen_one (rank m) + unseen m rank

pub unseen-Kept :
    (d e : Dfs) (f g : ℕ → ℕ) (m : ℕ) → Kept d e f g → unseen m e.rank ≤ unseen m d.rank
unseen-Kept d e f g zero k = omega arith
unseen-Kept d e f g (suc m) k = elim (Option-cases (d.rank m)) [
  | inl new ↦ rw new (elim (Option-cases (e.rank m)) [
    | inl still ↦ rw still (omega (arith, unseen-Kept d e f g m k))
    | inr (s, now) ↦ rw now (omega (arith, unseen-Kept d e f g m k))
  ])
  | inr (s, old) ↦ rw (old, k.ranks m s old) (omega (arith, unseen-Kept d e f g m k))
]

-- What each call for a neighbour has to do.
abbrev pub Visits :
    (ℕ → List ℕ) → (ℕ → NodeState) → ℕ → ℕ → List ℕ → ℕ → ℕ → (ℕ → Dfs → Dfs × ℕ) → Type 0
Visits adj state n fuel os v cluster visit =
    (w : ℕ) (d : Dfs) (f : ℕ → ℕ)
    → d.rank w ≡ none
    → is_inactive (state w) ≡ false
    → w < n
    → unseen n d.rank ≤ fuel
    → Grown adj state d f (v ∷ os)
    → (g : ℕ → ℕ) × Built adj state d f w (some v) cluster (v ∷ os) (visit w d).0 (visit w d).1 g

passed_over :
    (o : Option ℕ) (w : ℕ) (b : Bool) → (is_vertex o w || b) ≡ true → (o ≡ some w) ⊎ (b ≡ true)
unfolding is_vertex
passed_over none w b e = ground arith
passed_over (some v) w b e = ground arith

module _ (adj : ℕ → List ℕ) (state : ℕ → NodeState) (n fuel : ℕ) (os : List ℕ) (v r : ℕ)
    (parent : Option ℕ) (cluster : ℕ) (parent_is : parent ≡ top os) (visit : ℕ → Dfs → Dfs × ℕ)
    (visits : Visits adj state n fuel os v cluster visit) (c : Dfs) (b : ℕ → ℕ)
    (enough : unseen n c.rank ≤ fuel) where
  -- The loop has ended in this way.
  abbrev pub Ends : Scan → Type 0
  Ends (e, low, count) = (g : ℕ → ℕ) × Scanned adj state os v r parent cluster c b e g low count []

  abbrev At : Dfs → (ℕ → ℕ) → ℕ → ℕ → List ℕ → Type 0
  At = Scanned adj state os v r parent cluster c b

  skipped :
      (d : Dfs) (f : ℕ → ℕ) (low count w : ℕ) (ws : List ℕ)
      → (is_vertex parent w || is_inactive (state w)) ≡ true
      → At d f low count (w ∷ ws)
      → At d f low count ws
  skipped d f low count w ws skip h =
      pass adj state os v r parent cluster c b d f low low count w ws (omega arith)
        (λ live. elim (passed_over parent w (is_inactive (state w)) skip) [
          | inl above ↦
              let (t, at) =
                Stacked-rank d os w h.grown.stacked.1 (top_in os w (sym parent_is ∙ above)) in
              (t, at, inr (inl above))
          | inr dead ↦ absurd (ground arith)
        ])
        h

  visited :
      (d : Dfs) (f : ℕ → ℕ) (low count w t : ℕ) (ws : List ℕ)
      → d.rank w ≡ some t
      → At d f low count (w ∷ ws)
      → At d f (min low t) count ws
  unfolding min
  visited d f low count w t ws at h =
      pass adj state os v r parent cluster c b d f low (min low t) count w ws (ground arith)
        (λ live. (
          t,
          at,
          elim (Bool-cases (ltb t r)) [
            | inl less ↦ inr (inr (ground arith, ground arith))
            | inr more ↦ inl (ground arith)
          ],
        ))
        h

  scan-stops : (d : Dfs) (low count : ℕ) → scan visit state parent [] d low count ≡ (d, low, count)
  unfolding scan
  scan-stops d low count = refl

  scan-passes :
      (d : Dfs) (low count w : ℕ) (ws : List ℕ)
      → (is_vertex parent w || is_inactive (state w)) ≡ true
      → scan visit state parent (w ∷ ws) d low count ≡ scan visit state parent ws d low count
  unfolding scan
  scan-passes d low count w ws e = rw (e, scan) refl

  scan-sees :
      (d : Dfs) (low count w t : ℕ) (ws : List ℕ)
      → (is_vertex parent w || is_inactive (state w)) ≡ false
      → d.rank w ≡ some t
      → scan visit state parent (w ∷ ws) d low count
        ≡ scan visit state parent ws d (min low t) count
  unfolding scan look
  scan-sees d low count w t ws e k = rw (e, k, scan, look) refl

  scan-calls :
      (d : Dfs) (low count w : ℕ) (ws : List ℕ)
      → (is_vertex parent w || is_inactive (state w)) ≡ false
      → d.rank w ≡ none
      → scan visit state parent (w ∷ ws) d low count
        ≡ scan visit state parent ws
            (visit w d).0
            (min low (visit w d).1)
            (count + (visit w d).0.subtree_active_count w)
  unfolding scan look
  scan-calls d low count w ws e k = rw (e, k, scan, look) refl

  is_live :
      (w : ℕ)
      → (is_vertex parent w || is_inactive (state w)) ≡ false
      → is_inactive (state w) ≡ false
  is_live w e = elim (Bool-cases (is_vertex parent w)) [
    | inl t ↦ absurd (ground arith)
    | inr f ↦ ground arith
  ]

  pub scan-Ends :
      (ws : List ℕ) (d : Dfs) (f : ℕ → ℕ) (low count : ℕ)
      → All (λ w. w < n) ws
      → At d f low count ws
      → Ends (scan visit state parent ws d low count)
  scan-Ends [] d f low count ok h = subst Ends (sym (scan-stops d low count)) (f, h)
  scan-Ends (w ∷ ws) d f low count ok h =
      elim (Bool-cases (is_vertex parent w || is_inactive (state w))) [
        | inl skip ↦
            subst Ends (sym (scan-passes d low count w ws skip))
              (scan-Ends ws d f low count ok.1 (skipped d f low count w ws skip h))
        | inr goes_on ↦ elim (Option-cases (d.rank w)) [
          | inr (t, at) ↦
              subst Ends (sym (scan-sees d low count w t ws goes_on at))
                (scan-Ends ws d f (min low t) count ok.1 (visited d f low count w t ws at h))
          | inl new ↦
              let (g, built) =
                visits w d f new (is_live w goes_on) ok.0
                  (omega (arith, unseen-Kept c d b f n h.kept)) h.grown in
              subst Ends (sym (scan-calls d low count w ws goes_on new)) (
                scan-Ends ws _ g _ _ ok.1 (
                  call adj state os v r parent cluster c b d f low count w ws h (visit w d).0
                    (visit w d).1 g built))
        ]
      ]
