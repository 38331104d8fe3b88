-- ===== src/Constraint/Graph/Parts.antt =====
-- Disjoint sets of which the parts are within a relation, with counts that are not lost.
use glucose.Prelude.{
  ℕ, ◌+◌, ◌<◌, ◌≡◌, refl, sym, ap, subst, ◌∙◌, ◌≢◌, ◌⊎◌, inl, inr, true, false, arith, ◌==◌,
  ==_refl, ==_ne, eq_of_==, Bool-cases, update,
}
use glucose.Prelude.Int.{ℤ, pos, ◌+ℤ◌, ltb_ℤ, int_laws}
use glucose.Constraint.Graph.UnionFind.{UnionFind, union_find, link, merge, add_active_count}
use glucose.Constraint.Graph.Fields.{link-Arrays, add_active_count-Arrays}
use glucose.Constraint.Graph.Partition.{Valid, root-Valid, rep-rep}
use glucose.Constraint.Graph.Linked.{join, link-Valid}
use glucose.Constraint.Graph.Relaxed.{count-Valid}
use glucose.Constraint.Graph.Begins.{union_find-Valid}

pub record IsEquivalence (R : ℕ → ℕ → Type 0) : Type 0 where
  pub itself : (x : ℕ) → R x x
  pub back : (x y : ℕ) → R x y → R y x
  pub through : (x y z : ℕ) → R x y → R y z → R x z

-- Each element is related to its root, no count is below 0, and the count of a part with a counted
-- element is above 0.
pub record Parts (R : ℕ → ℕ → Type 0) (n : ℕ) (u : UnionFind) (rep k : ℕ → ℕ) : Type 0 where
  pub valid : Valid n u rep k
  pub near : (x : ℕ) → x < n → R x (rep x)
  pub whole : (r : ℕ) → (m : ℕ) × (u.n_active r ≡ pos m)
  pub live : (x : ℕ) → x < n → 0 < k x → ltb_ℤ (pos 0) (u.n_active (rep x)) ≡ true

sum_whole : (a b : ℤ) → (m : ℕ) × (a ≡ pos m) → (m : ℕ) × (b ≡ pos m) → (m : ℕ) × (a +ℤ b ≡ pos m)
sum_whole a b (m, e) (l, f) = (m + l, rw (e, f) (grind int_laws))

sum_live :
    (a b : ℤ)
    → (m : ℕ) × (a ≡ pos m)
    → (m : ℕ) × (b ≡ pos m)
    → (ltb_ℤ (pos 0) a ≡ true) ⊎ (ltb_ℤ (pos 0) b ≡ true)
    → ltb_ℤ (pos 0) (a +ℤ b) ≡ true
unfolding ◌+ℤ◌
sum_live a b (m, e) (l, f) h =
    rw (e, f)
      (elim h [
        | inl i ↦
            let j : ltb_ℤ (pos 0) (pos m) ≡ true = ap (ltb_ℤ (pos 0)) (sym e) ∙ i in ground arith
        | inr i ↦
            let j : ltb_ℤ (pos 0) (pos l) ≡ true = ap (ltb_ℤ (pos 0)) (sym f) ∙ i in ground arith
      ])

module _ (R : ℕ → ℕ → Type 0) (is : IsEquivalence R) (n : ℕ) where
  pub union_find-Parts : Parts R n union_find (λ x. x) (λ x. 0)
  unfolding union_find
  union_find-Parts = record {
    valid = union_find-Valid n;
    near = λ x lt. is.itself x;
    whole = λ r. (0, refl);
    live = λ x lt k. absurd (omega arith);
  }

  link-Parts :
      (u : UnionFind) (rep k : ℕ → ℕ) (p q : ℕ)
      → Parts R n u rep k
      → p < n
      → q < n
      → rep p ≡ p
      → rep q ≡ q
      → p ≢ q
      → R p q
      → Parts R n (link p q u) (join rep p q) k
  link-Parts u rep k p q h p_lt q_lt p_is q_is ne r =
      let a = link-Arrays p q u in
      let n_p = h.whole p in
      let n_q = h.whole q in
      record {
        valid = link-Valid n u rep k p q h.valid p_lt q_lt p_is q_is ne;
        near = λ x lt. elim (Bool-cases (rep x == q)) [
          | inl in_q ↦ rw in_q (
              is.through x q p (subst (R x) (eq_of_== (rep x) q in_q) (h.near x lt))
                (is.back p q r))
          | inr other ↦ rw other (h.near x lt)
        ];
        whole = λ x. rw a.n_active_is (elim (Bool-cases (q == x)) [
          | inl is_q ↦ rw is_q (0, refl)
          | inr not_q ↦ rw not_q (elim (Bool-cases (p == x)) [
            | inl is_p ↦ rw is_p (sum_whole (u.n_active p) (u.n_active q) n_p n_q)
            | inr not_p ↦ rw not_p (h.whole x)
          ])
        ]);
        live = λ x lt c. rw a.n_active_is (
            let old = h.live x lt c in
            elim (Bool-cases (rep x == q)) [
              | inl in_q ↦
                  let at_q =
                    subst (λ y. ltb_ℤ (pos 0) (u.n_active y) ≡ true) (eq_of_== (rep x) q in_q)
                      old in
                  rw (in_q, ==_ne q p (λ e. ne (sym e)), ==_refl p)
                    (sum_live (u.n_active p) (u.n_active q) n_p n_q (inr at_q))
              | inr other ↦
                  let not_q : (q == rep x) ≡ false = ground arith in
                  rw (other, not_q)
                    (elim (Bool-cases (p == rep x)) [
                      | inl is_p ↦
                          let at_p =
                            subst (λ y. ltb_ℤ (pos 0) (u.n_active y) ≡ true)
                              (sym (eq_of_== p (rep x) is_p)) old in
                          rw is_p (sum_live (u.n_active p) (u.n_active q) n_p n_q (inl at_p))
                      | inr not_p ↦ rw not_p old
                    ])
            ]);
      }

  abbrev pub Grouped : UnionFind → (ℕ → ℕ) → Type 0
  Grouped u k = (rep : ℕ → ℕ) × Parts R n u rep k

  pub merge-Parts :
      (u : UnionFind) (rep k : ℕ → ℕ) (v w : ℕ)
      → Parts R n u rep k
      → v < n
      → w < n
      → R v w
      → Grouped (merge n v w u) k
  unfolding merge
  merge-Parts u rep k v w h v_lt w_lt r =
      let at_v = root-Valid n u rep k v h.valid v_lt in
      let at_w = root-Valid n u rep k w h.valid w_lt in
      let v_in = h.valid.inside v v_lt in
      let w_in = h.valid.inside w w_lt in
      let v_rep = rep-rep n u rep k v h.valid v_lt in
      let w_rep = rep-rep n u rep k w h.valid w_lt in
      let roots : R (rep v) (rep w) =
        is.through (rep v) v (rep w) (is.back v (rep v) (h.near v v_lt))
          (is.through v w (rep w) r (h.near w w_lt)) in
      rw (at_v, at_w, merge)
        (elim (Bool-cases (rep v == rep w)) [
          | inl same ↦ rw same (rep, h)
          | inr other ↦
              let ne : rep v ≢ rep w = λ e. ground arith in
              rw other (elim (Bool-cases (ltb_ℤ (u.parent (rep w)) (u.parent (rep v)))) [
                | inl swaps ↦ rw swaps (
                  join rep (rep w) (rep v),
                  link-Parts u rep k (rep w) (rep v) h w_in v_in w_rep v_rep (λ e. ne (sym e))
                      (is.back (rep v) (rep w) roots),
                )
                | inr stays ↦ rw stays (
                  join rep (rep v) (rep w),
                  link-Parts u rep k (rep v) (rep w) h v_in w_in v_rep w_rep ne roots,
                )
              ])
        ])

  pub count-Parts :
      (u : UnionFind) (rep k : ℕ → ℕ) (i : ℕ)
      → Parts R n u rep k
      → i < n
      → Parts R n (add_active_count n i (pos 1) u) rep (update k i (k i + 1))
  count-Parts u rep k i h lt =
      let r = rep i in
      let z = u.n_active r +ℤ pos 1 in
      let n_is : (add_active_count n i (pos 1) u).n_active ≡ update u.n_active r z =
        (add_active_count-Arrays n i (pos 1) u).n_active_is
        ∙ ap (λ x. update u.n_active x (u.n_active x +ℤ pos 1))
            (root-Valid n u rep k i h.valid lt) in
      record {
        valid =
            count-Valid n u rep k (update k i (k i + 1)) i h.valid lt
              (λ x ne. rw (==_ne i x ne) refl) (rw (==_refl i) refl);
        near = h.near;
        whole = λ x. rw n_is (elim (Bool-cases (r == x)) [
          | inl same ↦ rw same (sum_whole (u.n_active r) (pos 1) (h.whole r) (1, refl))
          | inr other ↦ rw other (h.whole x)
        ]);
        live = λ x x_lt c. rw n_is (elim (Bool-cases (r == rep x)) [
          | inl same ↦
              rw same (sum_live (u.n_active r) (pos 1) (h.whole r) (1, refl) (inr (ground arith)))
          | inr other ↦
              let apart : (i == x) ≡ false = elim (Bool-cases (i == x)) [
                | inr f ↦ f
                | inl t ↦ let e = ap rep (eq_of_== i x t) in absurd (ground arith)
              ] in
              rw other (h.live x x_lt (rw apart at c))
        ]);
      }
