-- ===== src/Constraint/Graph/Partition.antt =====
-- The disjoint sets stand for a partition: `rep` names the root of each element, and `k` says how
-- often each element is counted.
use glucose.Prelude.{
  ℕ, zero, suc, ◌+◌, ◌≤◌, ◌<◌, ◌≡◌, refl, sym, ap, subst, ◌∙◌, ◌≢◌, inl, inr, true, arith, ◌==◌,
  if◌then◌else◌, ==_refl, ==_ne, eq_of_==, Bool-cases, update,
}
use glucose.Prelude.Int.{ℤ, pos, negsuc, pos_part, ◌+ℤ◌, ◌-ℤ◌, ltb_ℤ, int_laws}
use glucose.Constraint.Graph.UnionFind.{UnionFind, root, one_if_positive, add_active_count}
use glucose.Constraint.Graph.Sums.{total, total-change}
use glucose.Constraint.Graph.Fields.{add_active_count-Arrays}

-- A walk of `m` steps from `x` to the root `r`.
pub data Leads (parent : ℕ → ℤ) : ℕ → ℕ → ℕ → Type 0 where
  stop : {x s : ℕ} → parent x ≡ negsuc s → Leads parent x x 0
  up : {x y r m : ℕ} → parent x ≡ pos y → Leads parent y r m → Leads parent x r (suc m)

root-Leads :
    (parent : ℕ → ℤ) (fuel : ℕ) {x r m : ℕ} → Leads parent x r m → m ≤ fuel → root fuel parent x ≡ r
unfolding root
root-Leads parent zero (stop e) le = refl
root-Leads parent (suc fuel) (stop e) le = rw (e, root) refl
root-Leads parent zero (up e w) le = absurd (omega arith)
root-Leads parent (suc fuel) (up e w) le = rw (e, root) (root-Leads parent fuel w (omega arith))

pub Leads-end : (parent : ℕ → ℤ) {x r m : ℕ} → Leads parent x r m → (s : ℕ) × (parent r ≡ negsuc s)
Leads-end parent (stop e) = (_, e)
Leads-end parent (up e w) = Leads-end parent w

abbrev pub is_root : (ℕ → ℕ) → ℕ → ℕ
is_root rep x = if rep x == x then 1 else 0

abbrev pub weigh : (ℕ → ℕ) → (ℕ → ℕ) → ℕ → ℕ → ℕ
weigh rep k r x = if rep x == r then k x else 0

abbrev pub positive : (ℕ → ℤ) → ℕ → ℕ
positive f x = if ltb_ℤ (pos 0) (f x) then 1 else 0

pub record Valid (n : ℕ) (u : UnionFind) (rep k : ℕ → ℕ) : Type 0 where
  pub inside : (x : ℕ) → x < n → rep x < n
  pub leads :
      (x : ℕ) → x < n → (m : ℕ) × Leads u.parent x (rep x) m × (m + total n (is_root rep) ≤ n)
  pub only_roots : (x : ℕ) → ltb_ℤ (pos 0) (u.n_active x) ≡ true → rep x ≡ x
  pub counted : (r : ℕ) → pos_part (u.n_active r) ≤ total n (weigh rep k r)
  pub clusters_are : u.n_active_clusters ≡ pos (total n (positive u.n_active))

pub root-Valid :
    (n : ℕ) (u : UnionFind) (rep k : ℕ → ℕ) (x : ℕ)
    → Valid n u rep k
    → x < n
    → root n u.parent x ≡ rep x
root-Valid n u rep k x h lt = let (m, w, le) = h.leads x lt in root-Leads u.parent n w (omega arith)

pub rep-rep :
    (n : ℕ) (u : UnionFind) (rep k : ℕ → ℕ) (x : ℕ) → Valid n u rep k → x < n → rep (rep x) ≡ rep x
rep-rep n u rep k x h lt =
    let (m, w, _) = h.leads x lt in
    let (s, e) = Leads-end u.parent w in
    sym (root-Valid n u rep k (rep x) h (h.inside x lt))
    ∙ root-Leads u.parent n (stop e) (omega arith)

pub one_is : (z : ℤ) → one_if_positive z ≡ pos (if ltb_ℤ (pos 0) z then 1 else 0)
unfolding one_if_positive
one_is z = ground arith

-- One count changes from `f r` to `z`.
exchange : (c a b d : ℕ) → c + b ≡ d + a → pos c -ℤ pos a +ℤ pos b ≡ pos d
exchange c a b d e = grind int_laws

count_changes :
    (n r : ℕ) (f : ℕ → ℤ) (z : ℤ)
    → r < n
    → pos (total n (positive f)) -ℤ one_if_positive (f r) +ℤ one_if_positive z
      ≡ pos (total n (positive (update f r z)))
count_changes n r f z lt =
    let change =
      total-change n r (positive f) (positive (update f r z)) lt λ x ne. rw (==_ne r x ne) refl in
    rw (one_is (f r), one_is z)
      (exchange (total n (positive f)) (positive f r) (if ltb_ℤ (pos 0) z then 1 else 0) _ (
        let own : positive (update f r z) r ≡ (if ltb_ℤ (pos 0) z then 1 else 0) =
          rw (==_refl r) refl in
        omega (arith, change, own)))

pub add_active_count-Valid :
    (n p : ℕ) (d : ℤ) (u : UnionFind) (rep k k' : ℕ → ℕ)
    → p < n
    → Valid n u rep k
    → ((r : ℕ) → rep p ≢ r → total n (weigh rep k r) ≤ total n (weigh rep k' r))
    → pos_part (u.n_active (rep p) +ℤ d) ≤ total n (weigh rep k' (rep p))
    → Valid n (add_active_count n p d u) rep k'
add_active_count-Valid n p d u rep k k' lt h others own =
    let r = rep p in
    let z = u.n_active r +ℤ d in
    let a = add_active_count-Arrays n p d u in
    let at : root n u.parent p ≡ r = root-Valid n u rep k p h lt in
    let n_is : (add_active_count n p d u).n_active ≡ update u.n_active r z =
      a.n_active_is ∙ ap (λ x. update u.n_active x (u.n_active x +ℤ d)) at in
    record {
      inside = h.inside;
      leads = λ x x_lt.
          let (m, w, le) = h.leads x x_lt in
          (m, subst (λ f. Leads f x (rep x) m) (sym a.parent_is) w, le);
      only_roots = λ x. rw n_is (elim (Bool-cases (r == x)) [
        | inl same ↦
            let e : r ≡ x = eq_of_== r x same in λ _. ap rep (sym e) ∙ rep-rep n u rep k p h lt ∙ e
        | inr other ↦ rw other (h.only_roots x)
      ]);
      counted = λ x. rw n_is (elim (Bool-cases (r == x)) [
        | inl same ↦
            subst (λ y. pos_part (update u.n_active r z y) ≤ total n (weigh rep k' y))
              (eq_of_== r x same) (rw (==_refl r) own)
        | inr other ↦ rw other (omega (arith, h.counted x, others x (λ e. ground arith)))
      ]);
      clusters_are =
          a.clusters_is
          ∙ ap
              (λ x.
                u.n_active_clusters
                -ℤ one_if_positive (u.n_active x)
                +ℤ one_if_positive (u.n_active x +ℤ d))
              at
          ∙ ap (λ c. c -ℤ one_if_positive (u.n_active r) +ℤ one_if_positive z) h.clusters_are
          ∙ count_changes n r u.n_active z (h.inside p lt)
          ∙ ap (λ f. pos (total n (positive f))) (sym n_is);
    }
