-- ===== src/Constraint/Graph/Explained.antt =====
-- calcReason for one state, from the disjoint sets to the reason.
use mathlib.Core.Option.{none-ne-some}
use glucose.Prelude.{
  ℕ, zero, suc, ◌≤◌, ◌<◌, ◌≡◌, refl, ap, subst, ◌≢◌, ◌⊎◌, inl, inr, Bool, true, false, Option, some,
  List, [], ◌∷◌, arith, Bool-cases,
}
use glucose.Prelude.Lists.{In, All, length}
use glucose.Prelude.Int.{pos, ltb_ℤ}
use glucose.Lit.{Lit}
use glucose.Lit.Truth.{Assignment, holds}
use glucose.Constraint.Graph.{undecided, ActiveVerticesConnected, is_active, is_inactive}
use glucose.Constraint.Graph.UnionFind.{UnionFind, union_find, commit}
use glucose.Constraint.Graph.Reason.{count_active, activate, merge_all, cut_graph, reason_of}
use glucose.Constraint.Graph.Cuts.{Connects}
use glucose.Constraint.Graph.Sound.{on}
use glucose.Constraint.Graph.Accepts.{IsGraph, on-get_or}
use glucose.Constraint.Graph.Partition.{Valid}
use glucose.Constraint.Graph.Relaxed.{commit-Valid}
use glucose.Constraint.Graph.Explains.{Explains, explain_all-Explains, commit_twice}
use glucose.Constraint.Graph.Begins.{
  union_find-Valid, count_active-Valid, merge_all-Merged, IsFalse, count_negated-Valid,
  activated-lt, on-activated,
}
use glucose.Constraint.Graph.States.{active-known, inactive-known}

-- Each vertex with a known state is in `decision_order`, which has vertices only.
pub record IsRecorded (c : ActiveVerticesConnected) : Type 0 where
  pub decided : (x : ℕ) → c.state x ≢ undecided → In x c.decision_order
  pub vertices : All (λ v. v < length c.lits) c.decision_order

on-lt : (a : Assignment) (ls : List Lit) (x : ℕ) → on a ls x ≡ true → x < length ls
on-lt a [] x e = absurd (ground arith)
on-lt a (l ∷ ls) zero e = omega arith
on-lt a (l ∷ ls) (suc x) e = omega (arith, on-lt a ls x e)

module _ (a : Assignment) (c : ActiveVerticesConnected) (p : Option Lit) (graph : IsGraph c)
    (connects : Connects c.adj (on a c.lits)) (recorded : IsRecorded c)
    (is_false : IsFalse a p) where
  abbrev n : ℕ
  n = length c.lits

  abbrev activated : ℕ → Bool
  activated = activate p c.state c.lits 0

  -- What the loops before Commit have done.
  abbrev Cut : UnionFind → Type 0
  Cut u =
      (rep : ℕ → ℕ) × (k : ℕ → ℕ) × Valid n u rep k
      × ((x y : ℕ) → activated x ≡ true → activated y ≡ true → In y (c.adj x) → rep x ≡ rep y)
      × ((x : ℕ) → 0 < k x → (on a c.lits x ≡ true) ⊎ (is_active (c.state x) ≡ true) × (k x ≤ 1))

  cut_graph-Cut : Cut (cut_graph c p)
  unfolding cut_graph
  cut_graph-Cut =
      let (k1, h1, once) =
        count_active-Valid n c.state c.lits 0 union_find (λ x. x) (λ x. 0) (omega arith)
          (union_find-Valid n) (λ x le. refl) (λ x pos_k. absurd (omega arith)) in
      let (rep, h2, near, _) =
        merge_all-Merged n c.adj activated n 0 (count_active n c.state c.lits 0 union_find) (λ x. x)
          k1 (omega arith) graph.targets h1 in
      let (k2, h3, left) =
        count_negated-Valid a n p c.lits c.lits 0
          (merge_all n c.adj activated n 0 (count_active n c.state c.lits 0 union_find)) rep k1
          is_false (omega arith) (λ j. ap (on a c.lits) (omega arith)) h2 in
      (
        rep,
        k2,
        h3,
        λ x y x_on y_on m.
            near x y (omega arith) (omega (arith, activated-lt p c.state c.lits 0 x x_on)) x_on y_on
              m,
        λ x pos_k. elim (left x) [
          | inr on_x ↦ inl on_x
          | inl same ↦ let (is, le) = once x (omega (arith, same)) in inr (is, omega (arith, same))
        ],
      )

  cut_graph-Explains :
      ltb_ℤ (pos 1) (commit (cut_graph c p)).n_active_clusters ≡ true
      → (rep : ℕ → ℕ) × (k : ℕ → ℕ) × Explains a c n p graph.targets graph.symmetric connects
          (λ x. on-lt a c.lits x)
          (λ x. on-get_or a c.lits x)
          c.decision_order
          activated
          (commit (cut_graph c p))
          rep
          k
  cut_graph-Explains apart =
      let (rep, k, h, merged, counted) = cut_graph-Cut in
      (
        rep,
        k,
        record {
          valid = commit-Valid n (cut_graph c p) rep k h;
          committed = commit_twice (cut_graph c p);
          apart = apart;
          merged = merged;
          covered = λ x on_x. elim (Bool-cases (is_inactive (c.state x))) [
            | inl is ↦ inr (recorded.decided x (inactive-known (c.state x) is), is)
            | inr live ↦ inl (
                subst (λ y. activated y ≡ true) (omega arith)
                  (on-activated a p c.state c.lits 0 x is_false on_x
                    (subst (λ y. is_inactive (c.state y) ≡ false) (omega arith) live)))
          ];
          counted = λ x pos_k. elim (counted x pos_k) [
            | inl on_x ↦ inl on_x
            | inr (is, le) ↦ inr (recorded.decided x (active-known (c.state x) is), is, le)
          ];
        },
      )

  pub reason_of-absurd :
      (reason : List Lit) → reason_of c p ≡ some reason → All (λ l. holds a l ≡ true) reason → ⊥
  unfolding reason_of
  reason_of-absurd reason =
      elim (Bool-cases (ltb_ℤ (pos 1) (commit (cut_graph c p)).n_active_clusters)) [
        | inr joined ↦ rw (joined, reason_of) (λ e. absurd (none-ne-some _ e))
        | inl apart ↦
            rw (apart, reason_of)
              (λ e hs.
                let (rep, k, h) = cut_graph-Explains apart in
                explain_all-Explains a c n p graph.targets graph.symmetric connects
                  (λ x. on-lt a c.lits x) (λ x. on-get_or a c.lits x) c.decision_order activated
                  (commit (cut_graph c p)) rep k reason recorded.vertices h e hs)
      ]
