-- ===== src/Constraint/Graph/Joins.antt =====
-- The partition after a merge.
use glucose.Prelude.{
  ℕ, ◌<◌, ◌≡◌, refl, sym, ap, ◌≢◌, inl, inr, arith, ◌==◌, if◌then◌else◌, ==_refl, ==_ne, eq_of_==,
  Bool-cases,
}
use glucose.Prelude.Int.{ltb_ℤ}
use glucose.Constraint.Graph.UnionFind.{UnionFind, link, merge}
use glucose.Constraint.Graph.Partition.{Valid, root-Valid, rep-rep}
use glucose.Constraint.Graph.Linked.{join, link-Valid}

-- What an operation leaves of the partition: `v` and `w` are in one part, and no part is split.
abbrev pub Joins : ℕ → UnionFind → (ℕ → ℕ) → (ℕ → ℕ) → ℕ → ℕ → Type 0
Joins n u rep k v w =
    (rep' : ℕ → ℕ) × Valid n u rep' k
    × (rep' v ≡ rep' w)
    × ((x y : ℕ) → rep x ≡ rep y → rep' x ≡ rep' y)

module _ (n : ℕ) (u : UnionFind) (rep k : ℕ → ℕ) (h : Valid n u rep k) where
  join-same : (p q x y : ℕ) → rep x ≡ rep y → join rep p q x ≡ join rep p q y
  join-same p q x y e = ap (λ z. if z == q then p else z) e

  link_first :
      (v w : ℕ) → v < n → w < n → rep v ≢ rep w → Joins n (link (rep v) (rep w) u) rep k v w
  link_first v w v_lt w_lt ne = (
    join rep (rep v) (rep w),
    link-Valid n u rep k (rep v) (rep w) h (h.inside v v_lt) (h.inside w w_lt)
        (rep-rep n u rep k v h v_lt) (rep-rep n u rep k w h w_lt) ne,
    rw (==_ne (rep v) (rep w) ne, ==_refl (rep w)) refl,
    join-same (rep v) (rep w),
  )

  link_second :
      (v w : ℕ) → v < n → w < n → rep v ≢ rep w → Joins n (link (rep w) (rep v) u) rep k v w
  link_second v w v_lt w_lt ne =
      let (rep', valid, same, coarser) = link_first w v w_lt v_lt (λ e. ne (sym e)) in
      (rep', valid, sym same, coarser)

  pub merge-Joins : (v w : ℕ) → v < n → w < n → Joins n (merge n v w u) rep k v w
  unfolding merge
  merge-Joins v w v_lt w_lt =
      let at_v = root-Valid n u rep k v h v_lt in
      let at_w = root-Valid n u rep k w h w_lt in
      rw (at_v, at_w, merge)
        (elim (Bool-cases (rep v == rep w)) [
          | inl same ↦ rw same (rep, h, eq_of_== (rep v) (rep w) same, λ x y e. e)
          | inr other ↦
              let ne : rep v ≢ rep w = λ e. ground arith in
              rw other (elim (Bool-cases (ltb_ℤ (u.parent (rep w)) (u.parent (rep v)))) [
                | inl swaps ↦ rw swaps (link_second v w v_lt w_lt ne)
                | inr stays ↦ rw stays (link_first v w v_lt w_lt ne)
              ])
        ])
