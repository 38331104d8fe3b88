-- ===== src/Constraint/Graph/Explains.antt =====
-- The last loop of calcReason, under an assignment in which the literals that it gives hold.
use mathlib.Core.Option.{some-injective, none-ne-some}
use glucose.Prelude.{
  ℕ, ◌≤◌, ◌<◌, ◌≡◌, refl, sym, ap, subst, ◌∙◌, ◌⊎◌, inl, inr, Bool, true, false, Option, none, some,
  List, [], ◌∷◌, arith, ◌==◌, eq_of_==, Bool-cases, update,
}
use glucose.Prelude.Lists.{In, All, get_or}
use glucose.Prelude.Int.{pos, pos_part, ltb_ℤ}
use glucose.Lit.{Lit, neg}
use glucose.Lit.Truth.{Assignment, holds, holds-neg}
use glucose.Constraint.Graph.{NodeState, ActiveVerticesConnected, is_active, is_inactive}
use glucose.Constraint.Graph.UnionFind.{UnionFind, commit, redo}
use glucose.Constraint.Graph.Reason.{explain, same_var, relax, explain_all}
use glucose.Constraint.Graph.Closed.{Symmetric}
use glucose.Constraint.Graph.Built.{Targets}
use glucose.Constraint.Graph.Cuts.{walk_stays, Connects}
use glucose.Constraint.Graph.Sound.{on}
use glucose.Constraint.Graph.Sums.{total, some_positive, two_positive}
use glucose.Constraint.Graph.Redo.{redo-commit}
use glucose.Constraint.Graph.Partition.{Valid, weigh, positive}
use glucose.Constraint.Graph.Relaxed.{uncounted, commit-Valid, redo-relax, relax-Merged}
use glucose.Constraint.Graph.States.{true-ne-false, State-cases, State-split}

with_first :
    (x : NodeState) (l : Lit) (o : Option (List Lit)) (reason : List Lit)
    → (elim o [ none ↦ none | some rest ↦ some (explain x l rest) ]) ≡ some reason
    → (rest : List Lit) × (o ≡ some rest) × (explain x l rest ≡ reason)
with_first x l none reason = λ e. absurd (none-ne-some _ e)
with_first x l (some rest) reason = λ e. (rest, refl, some-injective _ _ e)

pub commit_twice : (u : UnionFind) → commit u ≡ commit (commit u)
unfolding commit
commit_twice u = refl

commit_clusters :
    (u : UnionFind) → ltb_ℤ (pos 1) (commit u).n_active_clusters ≡ ltb_ℤ (pos 1) u.n_active_clusters
unfolding commit
commit_clusters u = refl

module _ (a : Assignment) (c : ActiveVerticesConnected) (n : ℕ) (p : Option Lit)
    (targets : Targets n c.adj) (symmetric : Symmetric c.adj)
    (connects : Connects c.adj (on a c.lits)) (in_range : (x : ℕ) → on a c.lits x ≡ true → x < n)
    (literal : (x : ℕ) → x < n → on a c.lits x ≡ holds a (get_or c.lits x 0)) where
  abbrev is_on : ℕ → Bool
  is_on = on a c.lits

  negated : (l : Lit) → holds a (neg l) ≡ true → holds a l ≡ false
  negated l e = ground (arith, holds-neg a l)

  -- What holds of the partition and the counts, while the decisions `vs` are left.
  pub record Explains (vs : List ℕ) (activated : ℕ → Bool) (u : UnionFind) (rep k : ℕ → ℕ)
      : Type 0 where
    pub valid : Valid n u rep k
    pub committed : u ≡ commit u
    pub apart : ltb_ℤ (pos 1) u.n_active_clusters ≡ true
    pub merged :
        (x y : ℕ) → activated x ≡ true → activated y ≡ true → In y (c.adj x) → rep x ≡ rep y
    pub covered :
        (x : ℕ) → is_on x ≡ true → (activated x ≡ true) ⊎ In x vs × (is_inactive (c.state x) ≡ true)
    pub counted :
        (x : ℕ) → 0 < k x → (is_on x ≡ true) ⊎ In x vs × (is_active (c.state x) ≡ true) × (k x ≤ 1)

  -- Two vertices that are on are in different parts, when no decision is left.
  conflict :
      (activated : ℕ → Bool) (u : UnionFind) (rep k : ℕ → ℕ) → Explains [] activated u rep k → ⊥
  conflict activated u rep k h =
      let (r1, r2, lt, _, p1, p2) = two_positive n (positive u.n_active) (λ x. ground arith) many in
      let (x1, on1, e1) = member r1 p1 in
      let (x2, on2, e2) = member r2 p2 in
      let same : rep x1 ≡ rep x2 =
        (walk_stays c.adj is_on (λ y. (is_on y ≡ true) × (rep x1 ≡ rep y))
          (λ y z (on_y, e) m on_z. (on_z, e ∙ h.merged y z (active_of y on_y) (active_of z on_z) m))
          (connects x1 x2 on1 on2) (on1, refl)).1 in
      omega (arith, e1, e2, same)
    where
      many : 1 < total n (positive u.n_active)
      many =
          let e : ltb_ℤ (pos 1) (pos (total n (positive u.n_active))) ≡ true =
            subst (λ z. ltb_ℤ (pos 1) z ≡ true) h.valid.clusters_are h.apart in
          ground arith

      active_of : (x : ℕ) → is_on x ≡ true → activated x ≡ true
      active_of x e = elim (h.covered x e) [ inl yes_on ↦ yes_on | inr (m, _) ↦ absurd m ]

      member : (r : ℕ) → 0 < positive u.n_active r → (x : ℕ) × (is_on x ≡ true) × (rep x ≡ r)
      member r pos_r =
          let weight : 0 < total n (weigh rep k r) =
            (let count : 0 < pos_part (u.n_active r) = ground arith in
              omega (arith, h.valid.counted r)) in
          let (x, _, w) = some_positive n (weigh rep k r) weight in
          let e : rep x ≡ r = ground arith in
          let full : 0 < k x = ground arith in
          (x, elim (h.counted x full) [ inl yes_on ↦ yes_on | inr (m, _, _) ↦ absurd m ], e)

  module _ (v : ℕ) (vs : List ℕ) (v_lt : v < n) (activated : ℕ → Bool) (u : UnionFind)
      (rep k : ℕ → ℕ) (h : Explains (v ∷ vs) activated u rep k) where
    abbrev k' : ℕ → ℕ
    k' = uncounted c.state k v

    counted_left :
        (x : ℕ)
        → 0 < k' x
        → (is_on x ≡ true) ⊎ In x vs × (is_active (c.state x) ≡ true) × (k' x ≤ 1)
    counted_left x = elim (State-split (c.state v)) [
      | inl (is, _) ↦ rw is (elim (Bool-cases (v == x)) [
        | inl same ↦ rw same (λ pos_k. elim (h.counted v (omega arith)) [
          | inl on_v ↦ inl (subst (λ y. is_on y ≡ true) (eq_of_== v x same) on_v)
          | inr (_, _, le) ↦ absurd (omega arith)
        ])
        | inr other ↦ rw other (λ pos_k. elim (h.counted x pos_k) [
          | inl on_x ↦ inl on_x
          | inr (inl same, _, _) ↦ absurd (ground arith)
          | inr (inr m, is_x, le) ↦ inr (m, is_x, le)
        ])
      ])
      | inr is_not ↦ rw is_not (λ pos_k. elim (h.counted x pos_k) [
        | inl on_x ↦ inl on_x
        | inr (inl same, is, _) ↦
            absurd (true-ne-false (sym is ∙ ap (λ y. is_active (c.state y)) (sym same) ∙ is_not))
        | inr (inr m, is_x, le) ↦ inr (m, is_x, le)
      ])
    ]

    relaxed :
        ltb_ℤ (pos 1) (relax n c activated v u).n_active_clusters ≡ true
        → (rep' : ℕ → ℕ) × Explains vs
            (update activated v true)
            (commit (relax n c activated v u))
            rep'
            k'
    relaxed apart =
        let (rep', valid, near, coarser) =
          relax-Merged n c activated v u rep k v_lt (targets v) h.valid in
        (
          rep',
          record {
            valid = commit-Valid n (relax n c activated v u) rep' k' valid;
            committed = commit_twice (relax n c activated v u);
            apart = commit_clusters (relax n c activated v u) ∙ apart;
            merged = λ x y x_on y_on m. elim (Bool-cases (v == x)) [
              | inl at_x ↦
                  let e : v ≡ x = eq_of_== v x at_x in
                  elim (Bool-cases (v == y)) [
                    | inl at_y ↦ ap rep' (sym e ∙ eq_of_== v y at_y)
                    | inr not_y ↦
                        ap rep' (sym e)
                        ∙ near y (subst (λ z. In y (c.adj z)) (sym e) m) (rw not_y at y_on)
                  ]
              | inr not_x ↦ elim (Bool-cases (v == y)) [
                | inl at_y ↦
                    let e : v ≡ y = eq_of_== v y at_y in
                    sym (
                      ap rep' (sym e)
                      ∙ near x (symmetric x v (subst (λ z. In z (c.adj x)) (sym e) m))
                          (rw not_x at x_on))
                | inr not_y ↦ coarser x y (h.merged x y (rw not_x at x_on) (rw not_y at y_on) m)
              ]
            ];
            covered = λ x on_x. elim (Bool-cases (v == x)) [
              | inl at_x ↦ inl (rw at_x refl)
              | inr not_x ↦ elim (h.covered x on_x) [
                | inl act ↦ inl (rw not_x act)
                | inr (inl same, _) ↦ absurd (ground arith)
                | inr (inr m, is) ↦ inr (m, is)
              ]
            ];
            counted = counted_left;
          },
        )

    explained :
        (rest : List Lit)
        → All (λ l. holds a l ≡ true) (explain (c.state v) (get_or c.lits v 0) rest)
        → Explains vs activated u rep k × All (λ l. holds a l ≡ true) rest
    unfolding explain is_active is_inactive
    explained rest = elim (State-cases (c.state v)) [
      | inl is ↦
          rw (is, explain)
            (λ hs. (still (λ e. absurd (ground arith)) (λ e. absurd (ground arith)), hs))
      | inr (inl is) ↦
          rw (is, explain)
            (λ hs. (still (λ e. absurd (ground arith)) (λ e. literal v v_lt ∙ hs.0), hs.1))
      | inr (inr is) ↦
          rw (is, explain)
            (λ hs. (
              still (λ e. literal v v_lt ∙ negated (get_or c.lits v 0) hs.0)
                  (λ e. absurd (ground arith)),
              hs.1,
            ))
    ]
      where
        still :
            (is_inactive (c.state v) ≡ true → is_on v ≡ false)
            → (is_active (c.state v) ≡ true → is_on v ≡ true)
            → Explains vs activated u rep k
        still off act = record {
          valid = h.valid;
          committed = h.committed;
          apart = h.apart;
          merged = h.merged;
          covered = λ x on_x. elim (h.covered x on_x) [
            | inl x_act ↦ inl x_act
            | inr (inl same, is) ↦
                let e : is_on v ≡ false =
                  off (subst (λ y. is_inactive (c.state y) ≡ true) (sym same) is) in
                absurd (true-ne-false (sym on_x ∙ ap is_on (sym same) ∙ e))
            | inr (inr m, is) ↦ inr (m, is)
          ];
          counted = λ x pos_k. elim (h.counted x pos_k) [
            | inl on_x ↦ inl on_x
            | inr (inl same, is, _) ↦ inl (
                ap is_on (sym same) ∙ act (subst (λ y. is_active (c.state y) ≡ true) (sym same) is))
            | inr (inr m, is_x, le) ↦ inr (m, is_x, le)
          ];
        }

  taken_back :
      (activated : ℕ → Bool) (v : ℕ) (u : UnionFind)
      → u ≡ commit u
      → redo (relax n c activated v u) ≡ u
  taken_back activated v u e = redo-relax n c activated v u ∙ ap redo e ∙ redo-commit u ∙ sym e

  -- The reason cannot hold.
  pub explain_all-Explains :
      (vs : List ℕ) (activated : ℕ → Bool) (u : UnionFind) (rep k : ℕ → ℕ) (reason : List Lit)
      → All (λ v. v < n) vs
      → Explains vs activated u rep k
      → explain_all n c p vs activated u ≡ some reason
      → All (λ l. holds a l ≡ true) reason
      → ⊥
  unfolding explain_all
  explain_all-Explains [] activated u rep k reason lt h = λ e hs. conflict activated u rep k h
  explain_all-Explains (v ∷ vs) activated u rep k reason (v_lt, lt) h =
      let u' = relax n c activated v u in
      elim (Bool-cases (same_var p (get_or c.lits v 0))) [
        | inl clash ↦ rw (clash, explain_all) (λ e. absurd (none-ne-some _ e))
        | inr other ↦ elim (Bool-cases (ltb_ℤ (pos 1) u'.n_active_clusters)) [
          | inl apart ↦
              rw (other, apart, explain_all)
                (λ e hs.
                  let (rep', h') = relaxed v vs v_lt activated u rep k h apart in
                  explain_all-Explains vs (update activated v true) (commit u') rep'
                    (uncounted c.state k v) reason lt h' e hs)
          | inr joined ↦
              rw (other, joined, explain_all)
                (λ e hs.
                  let (rest, e', is) =
                    with_first (c.state v) (get_or c.lits v 0)
                      (explain_all n c p vs activated (redo u')) reason e in
                  let (h', hs') =
                    explained v vs v_lt activated u rep k h rest
                      (subst (All (λ l. holds a l ≡ true)) (sym is) hs) in
                  explain_all-Explains vs activated u rep k rest lt h'
                    (ap (explain_all n c p vs activated)
                        (sym (taken_back activated v u h.committed))
                      ∙ e')
                    hs')
        ]
      ]
