-- ===== src/Constraint/Graph/Splits.antt =====
-- The clusters that calcReason counts, and the walks of the graph.
use glucose.Prelude.{
  ℕ, suc, ◌+◌, ◌≤◌, ◌<◌, ◌≡◌, refl, sym, ap, subst, ◌∙◌, ◌≢◌, ◌⊎◌, inl, inr, Bool, true, false, not,
  ◌&&◌, Option, none, some, List, [], ◌∷◌, arith, ltb, ◌==◌, ==_refl, ==_ne, eq_of_==, Bool-cases,
  update,
}
use glucose.Prelude.Lists.{length, get_or}
use glucose.Prelude.Int.{pos, ltb_ℤ}
use glucose.Lit.{Lit, neg}
use glucose.Constraint.Graph.{NodeState, ActiveVerticesConnected, is_active, is_inactive}
use glucose.Constraint.Graph.UnionFind.{UnionFind, union_find, commit}
use glucose.Constraint.Graph.Reason.{
  is_lit, count_active, activate, merge_all, count_negated, cut_graph,
}
use glucose.Constraint.Graph.Sums.{total, total-change}
use glucose.Constraint.Graph.Partition.{positive}
use glucose.Constraint.Graph.Cuts.{Walk, here, step}
use glucose.Constraint.Graph.Closed.{Symmetric}
use glucose.Constraint.Graph.Built.{Targets}
use glucose.Constraint.Graph.Parts.{IsEquivalence, Parts, union_find-Parts}
use glucose.Constraint.Graph.Groups.{count_active-Parts, merge_all-Parts, count_negated-Parts}

abbrev pub is_explained : Option Lit → Lit → Bool
is_explained none l = false
is_explained (some q) l = q == l

-- The vertices that can be active if the literal explained, if there is one, is false.
abbrev pub stays : List Lit → (ℕ → NodeState) → Option Lit → ℕ → Bool
stays ls state p v =
    ltb v (length ls) && not (is_inactive (state v)) && not (is_explained p (get_or ls v 0))

-- The literal holds if the literal explained is false.
abbrev pub IsNegated : Option Lit → Lit → Type 0
IsNegated none l = ⊥
IsNegated (some q) l = l ≡ neg q

-- The vertex is active if the literal explained is false.
abbrev pub Counts : List Lit → (ℕ → NodeState) → Option Lit → ℕ → Type 0
Counts ls state p v = (v < length ls) × ((is_active (state v) ≡ true) ⊎ IsNegated p (get_or ls v 0))

-- If the literal explained is false, two vertices are active that no walk over vertices that can be
-- active joins.
pub record IsSplit (ls : List Lit) (adj : ℕ → List ℕ) (state : ℕ → NodeState) (p : Option Lit)
    : Type 0 where
  pub one : ℕ
  pub other : ℕ
  pub one_counts : Counts ls state p one
  pub other_counts : Counts ls state p other
  pub apart : Walk adj (stays ls state p) one other → ⊥

append :
    {adj : ℕ → List ℕ} {on : ℕ → Bool} {x y z : ℕ}
    → Walk adj on x y
    → Walk adj on y z
    → Walk adj on x z
append w here = w
append w (step v m k) = step (append w v) m k

abbrev Both : (ℕ → List ℕ) → (ℕ → Bool) → ℕ → ℕ → Type 0
Both adj on x y = Walk adj on x y × Walk adj on y x

Both-IsEquivalence : (adj : ℕ → List ℕ) (on : ℕ → Bool) → IsEquivalence (Both adj on)
Both-IsEquivalence adj on = record {
  itself = λ x. (here, here);
  back = λ x y w. (w.1, w.0);
  through = λ x y z v w. (append v.0 w.0, append w.1 v.1);
}

is_lit_is : (p : Option Lit) (l : Lit) → is_lit p l ≡ is_explained p l
unfolding is_lit
is_lit_is none l = refl
is_lit_is (some q) l = refl

activate-stays :
    (p : Option Lit) (state : ℕ → NodeState) (ls : List Lit) (i v : ℕ)
    → activate p state ls i v ≡ true
    → (j : ℕ) × (v ≡ i + j)
      × (j < length ls)
      × (is_inactive (state v) ≡ false)
      × (is_explained p (get_or ls j 0) ≡ false)
unfolding activate
activate-stays p state [] i v = λ e. absurd (ground arith)
activate-stays p state (l ∷ ls) i v = elim (Bool-cases (i == v)) [
  | inl same ↦ rw same (λ e. (
    0,
    omega (arith, eq_of_== i v same),
    omega arith,
    subst (λ x. is_inactive (state x) ≡ false) (eq_of_== i v same) (ground arith),
    sym (is_lit_is p l) ∙ ground arith,
  ))
  | inr other ↦ rw other (λ e.
      let (j, at, lt, live, free) = activate-stays p state ls (suc i) v e in
      (suc j, omega (arith, at), omega (arith, lt), live, free))
]

two_total : (n x y : ℕ) (f : ℕ → ℕ) → x < n → y < n → x ≢ y → f x ≡ 1 → f y ≡ 1 → 1 < total n f
two_total n x y f x_lt y_lt ne at_x at_y =
    let g = update f x 0 in
    let h = update g y 0 in
    let first = total-change n x f g x_lt (λ z other. rw (==_ne x z other) refl) in
    let second = total-change n y g h y_lt (λ z other. rw (==_ne y z other) refl) in
    let g_x : g x ≡ 0 = rw (==_refl x) refl in
    let g_y : g y ≡ f y = rw (==_ne x y ne) refl in
    let h_y : h y ≡ 0 = rw (==_refl y) refl in
    omega (arith, first, second, g_x, g_y, h_y, at_x, at_y)

two_clusters :
    (R : ℕ → ℕ → Type 0) (n : ℕ) (u : UnionFind) (rep k : ℕ → ℕ) (x y : ℕ)
    → IsEquivalence R
    → Parts R n u rep k
    → x < n
    → y < n
    → 0 < k x
    → 0 < k y
    → (R x y → ⊥)
    → ltb_ℤ (pos 1) u.n_active_clusters ≡ true
two_clusters R n u rep k x y is h x_lt y_lt kx ky apart =
    let ne : rep x ≢ rep y = λ e. apart (
      is.through x (rep y) y (subst (R x) e (h.near x x_lt)) (is.back y (rep y) (h.near y y_lt))) in
    let many =
      two_total n (rep x) (rep y) (positive u.n_active) (h.valid.inside x x_lt)
        (h.valid.inside y y_lt) ne (rw (h.live x x_lt kx) refl) (rw (h.live y y_lt ky) refl) in
    rw h.valid.clusters_are (ground arith)

negated :
    (R : ℕ → ℕ → Type 0) (is : IsEquivalence R) (ls : List Lit) (state : ℕ → NodeState)
    (p : Option Lit) (u : UnionFind) (rep k : ℕ → ℕ)
    → Parts R (length ls) u rep k
    → ((v : ℕ) → 0 ≤ v → v < length ls → is_active (state v) ≡ true → 0 < k v)
    → (k' : ℕ → ℕ) × Parts R (length ls) (count_negated (length ls) p ls 0 u) rep k'
      × ((v : ℕ) → Counts ls state p v → 0 < k' v)
unfolding count_negated
negated R is ls state none u rep k h counted = (
  k,
  h,
  λ v (lt, at). elim at [
    | inl active ↦ counted v (omega arith) lt active
    | inr none_is ↦ absurd none_is
  ],
)
negated R is ls state (some q) u rep k h counted =
    let (k', h', more, negations) =
      count_negated-Parts R is (length ls) q ls 0 u rep k (omega arith) h in
    (
      k',
      h',
      λ v (lt, at). elim at [
        | inl active ↦ omega (arith, more v, counted v (omega arith) lt active)
        | inr e ↦ omega (arith, ap k' (from_zero v), negations v lt e)
      ],
    )
  where
    from_zero : (v : ℕ) → 0 + v ≡ v
    from_zero v = omega arith

module _ (c : ActiveVerticesConnected) (p : Option Lit) (targets : Targets (length c.lits) c.adj)
    (symmetric : Symmetric c.adj) where
  abbrev n : ℕ
  n = length c.lits

  abbrev on : ℕ → Bool
  on = stays c.lits c.state p

  activate-on : (v : ℕ) → activate p c.state c.lits 0 v ≡ true → on v ≡ true
  activate-on v e =
      let (j, at, lt, live, free) = activate-stays p c.state c.lits 0 v e in
      let same : j ≡ v = omega (arith, at) in
      let free' = subst (λ x. is_explained p (get_or c.lits x 0) ≡ false) same free in
      let inside : ltb v n ≡ true = ground arith in rw (inside, live, free') refl

  -- All that counts is counted.
  pub cut_graph-Parts :
      (k : ℕ → ℕ) × (rep : ℕ → ℕ) × Parts (Both c.adj on) n (cut_graph c p) rep k
      × ((v : ℕ) → Counts c.lits c.state p v → 0 < k v)
  unfolding cut_graph
  cut_graph-Parts =
      let is = Both-IsEquivalence c.adj on in
      let R = Both c.adj on in
      let (k1, h1, more1, counted1) =
        count_active-Parts R is n c.state c.lits 0 union_find (λ x. x) (λ x. 0) (omega arith)
          (union_find-Parts R is n) in
      let u1 = count_active n c.state c.lits 0 union_find in
      let (rep2, h2) =
        merge_all-Parts R is n c.adj (activate p c.state c.lits 0) n 0 u1 (λ x. x) k1 (omega arith)
          targets
          (λ x y x_on y_on m.
            (step here m (activate-on y y_on), step here (symmetric x y m) (activate-on x x_on)))
          h1 in
      let u2 = merge_all n c.adj (activate p c.state c.lits 0) n 0 u1 in
      let (k3, h3, counted3) = negated R is c.lits c.state p u2 rep2 k1 h2 counted1 in
      (k3, rep2, h3, counted3)

  pub cut_graph-splits :
      IsSplit c.lits c.adj c.state p
      → ltb_ℤ (pos 1) (commit (cut_graph c p)).n_active_clusters ≡ true
  unfolding commit
  cut_graph-splits split =
      let (k, rep, h, counted) = cut_graph-Parts in
      two_clusters (Both c.adj on) n (cut_graph c p) rep k split.one split.other
        (Both-IsEquivalence c.adj on) h split.one_counts.0 split.other_counts.0
        (counted split.one split.one_counts) (counted split.other split.other_counts)
        (λ w. split.apart w.0)
