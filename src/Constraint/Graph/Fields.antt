-- ===== src/Constraint/Graph/Fields.antt =====
-- The arrays after an operation on the disjoint sets, without the tests that only spare the log.
use mathlib.Core.Path.{fun_ext}
use glucose.Prelude.{
  ℕ, ◌≡◌, refl, sym, ap, ◌∙◌, inl, inr, true, arith, ◌==◌, ==_refl, eq_of_==, Bool-cases, update,
}
use glucose.Prelude.Int.{ℤ, pos, negsuc, ◌+ℤ◌, ◌-ℤ◌}
use glucose.Constraint.Graph.UnionFind.{
  UnionFind, root, eq_ℤ, update_parent, update_n_active, update_n_active_clusters, one_if_positive,
  link, add_active_count,
}

eq_of_eq_ℤ : (a b : ℤ) → eq_ℤ a b ≡ true → a ≡ b
eq_of_eq_ℤ (pos a) (pos b) e = ap pos (eq_of_== a b e)
eq_of_eq_ℤ (pos a) (negsuc b) e = absurd (ground arith)
eq_of_eq_ℤ (negsuc a) (pos b) e = absurd (ground arith)
eq_of_eq_ℤ (negsuc a) (negsuc b) e = ap negsuc (eq_of_== a b e)

unwritten : (f : ℕ → ℤ) (p : ℕ) (v : ℤ) → eq_ℤ (f p) v ≡ true → f ≡ update f p v
unwritten f p v e = fun_ext λ w. elim (Bool-cases (p == w)) [
  | inl same ↦ rw same (ap f (sym (eq_of_== p w same)) ∙ eq_of_eq_ℤ (f p) v e)
  | inr other ↦ rw other refl
]

-- The three arrays, without the log.
pub record Arrays (u : UnionFind) (parent n_active : ℕ → ℤ) (clusters : ℤ) : Type 0 where
  pub parent_is : u.parent ≡ parent
  pub n_active_is : u.n_active ≡ n_active
  pub clusters_is : u.n_active_clusters ≡ clusters

update_parent-Arrays :
    (p : ℕ) (v : ℤ) (u : UnionFind)
    → Arrays (update_parent p v u) (update u.parent p v) u.n_active u.n_active_clusters
unfolding update_parent
update_parent-Arrays p v u = elim (Bool-cases (eq_ℤ (u.parent p) v)) [
  | inl same ↦
      rw same
        (record { parent_is = unwritten u.parent p v same; n_active_is = refl; clusters_is = refl })
  | inr other ↦ rw other (record { parent_is = refl; n_active_is = refl; clusters_is = refl })
]

update_n_active-Arrays :
    (p : ℕ) (v : ℤ) (u : UnionFind)
    → Arrays (update_n_active p v u) u.parent (update u.n_active p v) u.n_active_clusters
unfolding update_n_active
update_n_active-Arrays p v u = elim (Bool-cases (eq_ℤ (u.n_active p) v)) [
  | inl same ↦
      rw same (record {
        parent_is = refl;
        n_active_is = unwritten u.n_active p v same;
        clusters_is = refl;
      })
  | inr other ↦ rw other (record { parent_is = refl; n_active_is = refl; clusters_is = refl })
]

update_n_active_clusters-Arrays :
    (v : ℤ) (u : UnionFind) → Arrays (update_n_active_clusters v u) u.parent u.n_active v
unfolding update_n_active_clusters
update_n_active_clusters-Arrays v u = elim (Bool-cases (eq_ℤ u.n_active_clusters v)) [
  | inl same ↦ rw same (record {
    parent_is = refl;
    n_active_is = refl;
    clusters_is = eq_of_eq_ℤ u.n_active_clusters v same;
  })
  | inr other ↦ rw other (record { parent_is = refl; n_active_is = refl; clusters_is = refl })
]

pub add_active_count-Arrays :
    (n p : ℕ) (d : ℤ) (u : UnionFind)
    → let x = root n u.parent p in
      Arrays (add_active_count n p d u) u.parent (update u.n_active x (u.n_active x +ℤ d)) (
        u.n_active_clusters
        -ℤ one_if_positive (u.n_active x)
        +ℤ one_if_positive (u.n_active x +ℤ d))
unfolding add_active_count
add_active_count-Arrays n p d u =
    let x = root n u.parent p in
    let v = u.n_active x +ℤ d in
    let u1 = update_n_active x v u in
    let one = update_n_active-Arrays x v u in
    let at_x : u1.n_active x ≡ v = ap (λ f. f x) one.n_active_is ∙ rw (==_refl x) refl in
    let last =
      update_n_active_clusters-Arrays
        (u.n_active_clusters -ℤ one_if_positive (u.n_active x) +ℤ one_if_positive (u1.n_active x))
        u1 in
    record {
      parent_is = last.parent_is ∙ one.parent_is;
      n_active_is = last.n_active_is ∙ one.n_active_is;
      clusters_is =
          last.clusters_is
          ∙ ap (λ z. u.n_active_clusters -ℤ one_if_positive (u.n_active x) +ℤ one_if_positive z)
              at_x;
    }

pub link-Arrays :
    (p q : ℕ) (u : UnionFind)
    → let sum = u.n_active p +ℤ u.n_active q in
      Arrays
        (link p q u)
        (update (update u.parent p (u.parent p +ℤ u.parent q)) q (pos p))
        (update (update u.n_active p sum) q (pos 0))
        (u.n_active_clusters
          -ℤ one_if_positive (u.n_active p)
          -ℤ one_if_positive (u.n_active q)
          +ℤ one_if_positive sum)
unfolding link
link-Arrays p q u =
    let u1 = update_parent p (u.parent p +ℤ u.parent q) u in
    let one = update_parent-Arrays p (u.parent p +ℤ u.parent q) u in
    let u2 = update_parent q (pos p) u1 in
    let two = update_parent-Arrays q (pos p) u1 in
    let n_is : u2.n_active ≡ u.n_active = two.n_active_is ∙ one.n_active_is in
    let sum = u2.n_active p +ℤ u2.n_active q in
    let u3 = update_n_active p sum u2 in
    let three = update_n_active-Arrays p sum u2 in
    let u4 = update_n_active q (pos 0) u3 in
    let four = update_n_active-Arrays q (pos 0) u3 in
    let nac = λ (f : ℕ → ℤ) (c : ℤ).
      c -ℤ one_if_positive (f p) -ℤ one_if_positive (f q) +ℤ one_if_positive (f p +ℤ f q) in
    let five = update_n_active_clusters-Arrays (nac u2.n_active u2.n_active_clusters) u4 in
    record {
      parent_is =
          five.parent_is
          ∙ four.parent_is
          ∙ three.parent_is
          ∙ two.parent_is
          ∙ ap (λ f. update f q (pos p)) one.parent_is;
      n_active_is =
          five.n_active_is
          ∙ four.n_active_is
          ∙ ap (λ f. update f q (pos 0)) three.n_active_is
          ∙ ap (λ f. update (update f p (f p +ℤ f q)) q (pos 0)) n_is;
      clusters_is =
          five.clusters_is
          ∙ ap (λ f. nac f u2.n_active_clusters) n_is
          ∙ ap (λ c. nac u.n_active c) (two.clusters_is ∙ one.clusters_is);
    }
