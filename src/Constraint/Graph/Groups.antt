-- ===== src/Constraint/Graph/Groups.antt =====
-- The loops of calcReason that join and count.
use glucose.Prelude.{
  ℕ, zero, suc, ◌+◌, ◌≤◌, ◌<◌, ◌≡◌, refl, ap, subst, inl, inr, Bool, true, some, List, [], ◌∷◌,
  arith, ◌==◌, ==_refl, eq_of_==, Bool-cases, update,
}
use glucose.Prelude.Lists.{In, All, length, get_or}
use glucose.Prelude.Int.{pos}
use glucose.Lit.{Lit, neg}
use glucose.Constraint.Graph.{NodeState, is_active}
use glucose.Constraint.Graph.UnionFind.{UnionFind, merge, add_active_count}
use glucose.Constraint.Graph.Reason.{count_active, merge_each, merge_all, count_negated}
use glucose.Constraint.Graph.Built.{Targets}
use glucose.Constraint.Graph.Parts.{IsEquivalence, Parts, Grouped, merge-Parts, count-Parts}

grows : (i : ℕ) (k : ℕ → ℕ) (x m : ℕ) → update k i (k i + 1) x ≤ m → k x ≤ m
grows i k x m = elim (Bool-cases (i == x)) [
  | inr other ↦ rw other (λ le. le)
  | inl same ↦ rw same (λ le. let e = ap k (eq_of_== i x same) in omega (arith, e, le))
]

counted_at : (i : ℕ) (k : ℕ → ℕ) (x m : ℕ) → (i == x) ≡ true → update k i (k i + 1) x ≤ m → 0 < m
counted_at i k x m same = rw same (λ le. omega (arith, le))

at_each :
    (l : Lit) (ls : List Lit) (p : Lit) (i : ℕ) (k : ℕ → ℕ)
    → (l ≡ neg p → 0 < k i)
    → ((j : ℕ) → j < length ls → get_or ls j 0 ≡ neg p → 0 < k (suc i + j))
    → (j : ℕ) → j < length (l ∷ ls)
    → get_or (l ∷ ls) j 0 ≡ neg p
    → 0 < k (i + j)
at_each l ls p i k first later zero lt e =
    let here : i ≡ i + 0 = omega arith in subst (λ x. 0 < k x) here (first e)
at_each l ls p i k first later (suc j) lt e =
    let there : suc i + j ≡ i + suc j = omega arith in
    subst (λ x. 0 < k x) there (later j (ground arith) e)

module _ (R : ℕ → ℕ → Type 0) (is : IsEquivalence R) (n : ℕ) where
  pub count_active-Parts :
      (state : ℕ → NodeState) (ls : List Lit) (i : ℕ) (u : UnionFind) (rep k : ℕ → ℕ)
      → i + length ls ≡ n
      → Parts R n u rep k
      → (k' : ℕ → ℕ) × Parts R n (count_active n state ls i u) rep k'
        × ((x : ℕ) → k x ≤ k' x)
        × ((x : ℕ) → i ≤ x → x < n → is_active (state x) ≡ true → 0 < k' x)
  unfolding count_active
  count_active-Parts state [] i u rep k e h =
      (k, h, λ x. omega arith, λ x le lt is. absurd (omega arith))
  count_active-Parts state (l ∷ ls) i u rep k e h = elim (Bool-cases (is_active (state i))) [
    | inr is_not ↦ rw is_not (
        let (k', h', more, counted) = count_active-Parts state ls (suc i) u rep k (omega arith) h in
        (
          k',
          h',
          more,
          λ x le lt x_is. elim (Bool-cases (i == x)) [
            | inl same ↦
                let f = ap (λ y. is_active (state y)) (eq_of_== i x same) in absurd (ground arith)
            | inr other ↦ counted x (ground arith) lt x_is
          ],
        ))
    | inl here ↦ rw here (
        let k1 = update k i (k i + 1) in
        let (k', h', more, counted) =
          count_active-Parts state ls (suc i) (add_active_count n i (pos 1) u) rep k1 (omega arith)
            (count-Parts R is n u rep k i h (omega arith)) in
        (
          k',
          h',
          λ x. grows i k x (k' x) (more x),
          λ x le lt x_is. elim (Bool-cases (i == x)) [
            | inl same ↦ counted_at i k x (k' x) same (more x)
            | inr other ↦ counted x (ground arith) lt x_is
          ],
        ))
  ]

  merge_each-Parts :
      (activated : ℕ → Bool) (v : ℕ) (ws : List ℕ) (u : UnionFind) (rep k : ℕ → ℕ)
      → v < n
      → All (λ w. w < n) ws
      → ((w : ℕ) → In w ws → activated w ≡ true → R v w)
      → Parts R n u rep k
      → Grouped R is n (merge_each n activated v ws u) k
  unfolding merge_each
  merge_each-Parts activated v [] u rep k v_lt lt edges h = (rep, h)
  merge_each-Parts activated v (w ∷ ws) u rep k v_lt (w_lt, lt) edges h =
      elim (Bool-cases (activated w)) [
        | inr off ↦
            rw off (merge_each-Parts activated v ws u rep k v_lt lt (λ x m. edges x (inr m)) h)
        | inl is_on ↦ rw is_on (
            let (rep1, h1) =
              merge-Parts R is n u rep k v w h v_lt w_lt (edges w (inl refl) is_on) in
            merge_each-Parts activated v ws (merge n v w u) rep1 k v_lt lt (λ x m. edges x (inr m))
              h1)
      ]

  pub merge_all-Parts :
      (adj : ℕ → List ℕ) (activated : ℕ → Bool) (m v : ℕ) (u : UnionFind) (rep k : ℕ → ℕ)
      → v + m ≡ n
      → Targets n adj
      → ((x y : ℕ) → activated x ≡ true → activated y ≡ true → In y (adj x) → R x y)
      → Parts R n u rep k
      → Grouped R is n (merge_all n adj activated m v u) k
  unfolding merge_all
  merge_all-Parts adj activated zero v u rep k e targets edges h = (rep, h)
  merge_all-Parts adj activated (suc m) v u rep k e targets edges h =
      elim (Bool-cases (activated v)) [
        | inr off ↦
            rw off (merge_all-Parts adj activated m (suc v) u rep k (omega arith) targets edges h)
        | inl is_on ↦ rw is_on (
            let (rep1, h1) =
              merge_each-Parts activated v (adj v) u rep k (omega arith) (targets v)
                (λ w mem w_on. edges v w is_on w_on mem) h in
            merge_all-Parts adj activated m (suc v) (merge_each n activated v (adj v) u) rep1 k
              (omega arith) targets edges h1)
      ]

  -- The count of the vertices whose literal is the negation of `p`.
  pub count_negated-Parts :
      (p : Lit) (ls : List Lit) (i : ℕ) (u : UnionFind) (rep k : ℕ → ℕ)
      → i + length ls ≡ n
      → Parts R n u rep k
      → (k' : ℕ → ℕ) × Parts R n (count_negated n (some p) ls i u) rep k'
        × ((x : ℕ) → k x ≤ k' x)
        × ((j : ℕ) → j < length ls → get_or ls j 0 ≡ neg p → 0 < k' (i + j))
  unfolding count_negated
  count_negated-Parts p [] i u rep k e h = (k, h, λ x. omega arith, λ j lt. absurd (ground arith))
  count_negated-Parts p (l ∷ ls) i u rep k e h = elim (Bool-cases (l == neg p)) [
    | inr other ↦ rw other (
        let (k', h', more, counted) = count_negated-Parts p ls (suc i) u rep k (omega arith) h in
        (k', h', more, at_each l ls p i k' (λ f. absurd (ground arith)) counted))
    | inl same ↦ rw same (
        let k1 = update k i (k i + 1) in
        let (k', h', more, counted) =
          count_negated-Parts p ls (suc i) (add_active_count n i (pos 1) u) rep k1 (omega arith)
            (count-Parts R is n u rep k i h (omega arith)) in
        (
          k',
          h',
          λ x. grows i k x (k' x) (more x),
          at_each l ls p i k' (λ _. counted_at i k i (k' i) (==_refl i) (more i)) counted,
        ))
  ]
