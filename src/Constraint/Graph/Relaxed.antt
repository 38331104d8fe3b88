-- ===== src/Constraint/Graph/Relaxed.antt =====
-- What calcReason does to the partition: the merges with neighbours, and the counts.
use glucose.Prelude.{
  ℕ, ◌+◌, ◌-◌, ◌≤◌, ◌<◌, ◌≡◌, refl, sym, ap, subst, ◌∙◌, ◌≢◌, inl, inr, Bool, true, false, List, [],
  ◌∷◌, arith, ◌==◌, if◌then◌else◌, ==_refl, ==_ne, eq_of_==, Bool-cases, update,
}
use glucose.Prelude.Lists.{In, All}
use glucose.Prelude.Int.{ℤ, pos, negsuc, pos_part, ◌+ℤ◌}
use glucose.Constraint.Graph.{NodeState, ActiveVerticesConnected, is_active}
use glucose.Constraint.Graph.UnionFind.{UnionFind, merge, add_active_count, commit, redo}
use glucose.Constraint.Graph.Reason.{merge_each, relax}
use glucose.Constraint.Graph.Sums.{total, total-ap, total-change}
use glucose.Constraint.Graph.Redo.{redo-merge, redo-add_active_count}
use glucose.Constraint.Graph.Partition.{Valid, weigh, add_active_count-Valid}
use glucose.Constraint.Graph.Joins.{merge-Joins}

-- The partition has become coarser, and `v` is in one part with the activated vertices of `ws`.
abbrev pub Merged : ℕ → UnionFind → (ℕ → ℕ) → (ℕ → ℕ) → (ℕ → Bool) → ℕ → List ℕ → Type 0
Merged n u rep k activated v ws =
    (rep' : ℕ → ℕ) × Valid n u rep' k
    × ((w : ℕ) → In w ws → activated w ≡ true → rep' v ≡ rep' w)
    × ((x y : ℕ) → rep x ≡ rep y → rep' x ≡ rep' y)

pub merge_each-Merged :
    (n : ℕ) (activated : ℕ → Bool) (v : ℕ) (ws : List ℕ) (u : UnionFind) (rep k : ℕ → ℕ)
    → v < n
    → All (λ w. w < n) ws
    → Valid n u rep k
    → Merged n (merge_each n activated v ws u) rep k activated v ws
unfolding merge_each
merge_each-Merged n activated v [] u rep k v_lt lt h = (rep, h, λ w m. absurd m, λ x y e. e)
merge_each-Merged n activated v (w ∷ ws) u rep k v_lt (w_lt, lt) h =
    elim (Bool-cases (activated w)) [
      | inl is_on ↦ rw is_on (
          let (rep1, h1, same, coarser) = merge-Joins n u rep k h v w v_lt w_lt in
          let (rep2, h2, others, coarser2) =
            merge_each-Merged n activated v ws (merge n v w u) rep1 k v_lt lt h1 in
          (
            rep2,
            h2,
            λ y m on_y. elim m [
              | inl e ↦ subst (λ z. rep2 v ≡ rep2 z) e (coarser2 v w same)
              | inr more ↦ others y more on_y
            ],
            λ x y e. coarser2 x y (coarser x y e),
          ))
      | inr is_off ↦ rw is_off (
          let (rep2, h2, others, coarser2) = merge_each-Merged n activated v ws u rep k v_lt lt h in
          (
            rep2,
            h2,
            λ y m on_y. elim m [
              | inl e ↦ absurd (off_on (sym is_off ∙ ap activated e ∙ on_y))
              | inr more ↦ others y more on_y
            ],
            coarser2,
          ))
    ]
  where
    off_on : false ≢ true
    off_on e = ground arith

pub redo-merge_each :
    (n : ℕ) (activated : ℕ → Bool) (v : ℕ) (ws : List ℕ) (u : UnionFind)
    → redo (merge_each n activated v ws u) ≡ redo u
unfolding merge_each
redo-merge_each n activated v [] u = refl
redo-merge_each n activated v (w ∷ ws) u = elim (Bool-cases (activated w)) [
  | inl is_on ↦ rw is_on (redo-merge_each n activated v ws (merge n v w u) ∙ redo-merge n v w u)
  | inr is_off ↦ rw is_off (redo-merge_each n activated v ws u)
]

minus_one_le : (a : ℤ) → pos_part (a +ℤ negsuc 0) ≤ pos_part a - 1
unfolding ◌+ℤ◌
minus_one_le a = ground arith

plus_one_le : (a : ℤ) → pos_part (a +ℤ pos 1) ≤ pos_part a + 1
unfolding ◌+ℤ◌
plus_one_le a = ground arith

module _ (n : ℕ) (u : UnionFind) (rep k k' : ℕ → ℕ) (v : ℕ) (h : Valid n u rep k) (v_lt : v < n)
    (same : (x : ℕ) → v ≢ x → k x ≡ k' x) where
  weigh_elsewhere : (r : ℕ) → rep v ≢ r → total n (weigh rep k r) ≡ total n (weigh rep k' r)
  weigh_elsewhere r ne = total-ap n _ _ λ x _. elim (Bool-cases (v == x)) [
    | inl is_v ↦
        let e : v ≡ x = eq_of_== v x is_v in rw (==_ne (rep x) r (λ f. ne (ap rep e ∙ f))) refl
    | inr not_v ↦ ap (λ z. if rep x == r then z else 0) (same x (λ e. ground arith))
  ]

  weigh_here : total n (weigh rep k (rep v)) + k' v ≡ total n (weigh rep k' (rep v)) + k v
  weigh_here =
      let before : weigh rep k (rep v) v ≡ k v = rw (==_refl (rep v)) refl in
      let after : weigh rep k' (rep v) v ≡ k' v = rw (==_refl (rep v)) refl in
      let change =
        total-change n v (weigh rep k (rep v)) (weigh rep k' (rep v)) v_lt
          λ x ne. ap (λ z. if rep x == rep v then z else 0) (same x ne) in
      omega (arith, before, after, change)

  pub uncount-Valid : k' v ≡ k v - 1 → Valid n (add_active_count n v (negsuc 0) u) rep k'
  uncount-Valid less =
      add_active_count-Valid n v (negsuc 0) u rep k k' v_lt h
        (λ r ne. omega (arith, weigh_elsewhere r ne))
        (omega (arith, minus_one_le (u.n_active (rep v)), h.counted (rep v), weigh_here))

  pub count-Valid : k' v ≡ k v + 1 → Valid n (add_active_count n v (pos 1) u) rep k'
  count-Valid more =
      add_active_count-Valid n v (pos 1) u rep k k' v_lt h
        (λ r ne. omega (arith, weigh_elsewhere r ne))
        (omega (arith, plus_one_le (u.n_active (rep v)), h.counted (rep v), weigh_here))

pub commit-Valid :
    (n : ℕ) (u : UnionFind) (rep k : ℕ → ℕ) → Valid n u rep k → Valid n (commit u) rep k
unfolding commit
commit-Valid n u rep k h = record {
  inside = h.inside;
  leads = h.leads;
  only_roots = h.only_roots;
  counted = h.counted;
  clusters_are = h.clusters_are;
}

pub redo-relax :
    (n : ℕ) (c : ActiveVerticesConnected) (activated : ℕ → Bool) (v : ℕ) (u : UnionFind)
    → redo (relax n c activated v u) ≡ redo u
unfolding relax
redo-relax n c activated v u = elim (Bool-cases (is_active (c.state v))) [
  | inl is ↦ rw is (
      redo-merge_each n activated v (c.adj v) (add_active_count n v (negsuc 0) u)
      ∙ redo-add_active_count n v (negsuc 0) u)
  | inr is_not ↦ rw is_not (redo-merge_each n activated v (c.adj v) u)
]

-- The counts with vertex `v` taken as undecided.
abbrev pub uncounted : (ℕ → NodeState) → (ℕ → ℕ) → ℕ → ℕ → ℕ
uncounted state k v = if is_active (state v) then update k v (k v - 1) else k

pub relax-Merged :
    (n : ℕ) (c : ActiveVerticesConnected) (activated : ℕ → Bool) (v : ℕ) (u : UnionFind)
    (rep k : ℕ → ℕ)
    → v < n
    → All (λ w. w < n) (c.adj v)
    → Valid n u rep k
    → Merged n (relax n c activated v u) rep (uncounted c.state k v) activated v (c.adj v)
unfolding relax
relax-Merged n c activated v u rep k v_lt lt h = elim (Bool-cases (is_active (c.state v))) [
  | inl is ↦
      let k' = update k v (k v - 1) in
      rw is (
        merge_each-Merged n activated v (c.adj v) (add_active_count n v (negsuc 0) u) rep k' v_lt lt
          (uncount-Valid n u rep k k' v h v_lt (λ x ne. rw (==_ne v x ne) refl)
            (rw (==_refl v) refl)))
  | inr is_not ↦ rw is_not (merge_each-Merged n activated v (c.adj v) u rep k v_lt lt h)
]
