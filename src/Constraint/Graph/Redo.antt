-- ===== src/Constraint/Graph/Redo.antt =====
-- Redo, and the operations whose changes it takes back.
use mathlib.Core.Path.{fun_ext}
use glucose.Prelude.{ℕ, ◌≡◌, refl, ap, ◌∙◌, inl, inr, ◌==◌, eq_of_==, Bool-cases, update}
use glucose.Prelude.Int.{ℤ, ltb_ℤ}
use glucose.Constraint.Graph.UnionFind.{
  UnionFind, root, eq_ℤ, update_parent, update_n_active, update_n_active_clusters, link, merge,
  add_active_count, commit, put_back, put_all_back, redo,
}

-- A value that has been overwritten is written back.
written_back : (f : ℕ → ℤ) (p : ℕ) (v : ℤ) → update (update f p v) p (f p) ≡ f
written_back f p v = fun_ext λ w. elim (Bool-cases (p == w)) [
  | inl same ↦ rw same (ap f (eq_of_== p w same))
  | inr other ↦ rw other refl
]

redo-update_parent : (p : ℕ) (v : ℤ) (u : UnionFind) → redo (update_parent p v u) ≡ redo u
unfolding redo put_all_back put_back update_parent
redo-update_parent p v u = elim (Bool-cases (eq_ℤ (u.parent p) v)) [
  | inl same ↦ rw same refl
  | inr changed ↦
      rw changed
        (ap (λ f. put_all_back u.redo_log (record u { parent = f })) (written_back u.parent p v))
]

redo-update_n_active : (p : ℕ) (v : ℤ) (u : UnionFind) → redo (update_n_active p v u) ≡ redo u
unfolding redo put_all_back put_back update_n_active
redo-update_n_active p v u = elim (Bool-cases (eq_ℤ (u.n_active p) v)) [
  | inl same ↦ rw same refl
  | inr changed ↦
      rw changed (
        ap (λ f. put_all_back u.redo_log (record u { n_active = f })) (written_back u.n_active p v))
]

redo-update_n_active_clusters :
    (v : ℤ) (u : UnionFind) → redo (update_n_active_clusters v u) ≡ redo u
unfolding redo put_all_back put_back update_n_active_clusters
redo-update_n_active_clusters v u = elim (Bool-cases (eq_ℤ u.n_active_clusters v)) [
  | inl same ↦ rw same refl
  | inr changed ↦ rw changed refl
]

redo-link : (p q : ℕ) (u : UnionFind) → redo (link p q u) ≡ redo u
unfolding link
redo-link p q u =
    redo-update_n_active_clusters _ _
    ∙ redo-update_n_active q _ _
    ∙ redo-update_n_active p _ _
    ∙ redo-update_parent q _ _
    ∙ redo-update_parent p _ u

pub redo-merge : (n p q : ℕ) (u : UnionFind) → redo (merge n p q u) ≡ redo u
unfolding merge
redo-merge n p q u =
    let x = root n u.parent p in
    let y = root n u.parent q in
    elim (Bool-cases (x == y)) [
      | inl same ↦ rw same refl
      | inr other ↦ rw other (elim (Bool-cases (ltb_ℤ (u.parent y) (u.parent x))) [
        | inl swapped ↦ rw swapped (redo-link y x u)
        | inr kept ↦ rw kept (redo-link x y u)
      ])
    ]

pub redo-add_active_count :
    (n p : ℕ) (d : ℤ) (u : UnionFind) → redo (add_active_count n p d u) ≡ redo u
unfolding add_active_count
redo-add_active_count n p d u =
    redo-update_n_active_clusters _ _ ∙ redo-update_n_active (root n u.parent p) _ u

pub redo-commit : (u : UnionFind) → redo (commit u) ≡ commit u
unfolding redo commit put_all_back
redo-commit u = refl
