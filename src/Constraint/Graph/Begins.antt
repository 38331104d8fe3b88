-- ===== src/Constraint/Graph/Begins.antt =====
-- The loops of calcReason before Commit.
use glucose.Prelude.{
  ℕ, zero, suc, ◌+◌, ◌≤◌, ◌<◌, ◌≡◌, refl, sym, ap, subst, ◌∙◌, ◌≢◌, ◌⊎◌, inl, inr, Bool, true,
  false, not, Option, none, some, List, [], ◌∷◌, arith, ◌==◌, ==_refl, ==_ne, eq_of_==, Bool-cases,
  update,
}
use glucose.Prelude.Lists.{In, length}
use glucose.Prelude.Int.{pos}
use glucose.Lit.{Lit, neg}
use glucose.Lit.Truth.{Assignment, holds, holds-neg}
use glucose.Constraint.Graph.{NodeState, is_active, is_inactive}
use glucose.Constraint.Graph.UnionFind.{UnionFind, union_find, add_active_count}
use glucose.Constraint.Graph.Reason.{
  is_lit, count_active, activate, merge_each, merge_all, count_negated,
}
use glucose.Constraint.Graph.Built.{Targets}
use glucose.Constraint.Graph.Sound.{on}
use glucose.Constraint.Graph.Sums.{total}
use glucose.Constraint.Graph.Partition.{Valid, stop, is_root, positive}
use glucose.Constraint.Graph.Relaxed.{merge_each-Merged, count-Valid}

all_roots : (n : ℕ) → total n (is_root (λ x. x)) ≡ n
all_roots zero = refl
all_roots (suc n) = rw (==_refl n) (omega (arith, all_roots n))

none_positive : (n : ℕ) → total n (positive (λ x. pos 0)) ≡ 0
none_positive zero = refl
none_positive (suc n) = omega (arith, none_positive n)

pub union_find-Valid : (n : ℕ) → Valid n union_find (λ x. x) (λ x. 0)
unfolding union_find
union_find-Valid n = record {
  inside = λ x lt. lt;
  leads = λ x lt. (0, stop refl, omega (arith, all_roots n));
  only_roots = λ x e. refl;
  counted = λ r. omega arith;
  clusters_are = ap pos (sym (none_positive n));
}

-- The first loop counts active vertices, each once.
pub count_active-Valid :
    (n : ℕ) (state : ℕ → NodeState) (ls : List Lit) (i : ℕ) (u : UnionFind) (rep k : ℕ → ℕ)
    → i + length ls ≡ n
    → Valid n u rep k
    → ((x : ℕ) → i ≤ x → k x ≡ 0)
    → ((x : ℕ) → 0 < k x → (is_active (state x) ≡ true) × (k x ≤ 1))
    → (k' : ℕ → ℕ) × Valid n (count_active n state ls i u) rep k'
      × ((x : ℕ) → 0 < k' x → (is_active (state x) ≡ true) × (k' x ≤ 1))
unfolding count_active
count_active-Valid n state [] i u rep k e h later once = (k, h, once)
count_active-Valid n state (l ∷ ls) i u rep k e h later once =
    elim (Bool-cases (is_active (state i))) [
      | inr is_not ↦ rw is_not (
          count_active-Valid n state ls (suc i) u rep k (omega arith) h
            (λ x le. later x (omega arith)) once)
      | inl is ↦
          let k' = update k i (k i + 1) in
          rw is (
            count_active-Valid n state ls (suc i) (add_active_count n i (pos 1) u) rep k'
              (omega arith)
              (count-Valid n u rep k k' i h (omega arith) (λ x ne. rw (==_ne i x ne) refl)
                (rw (==_refl i) refl))
              (λ x le. rw (==_ne i x (λ f. omega arith)) (later x (omega arith)))
              (λ x. elim (Bool-cases (i == x)) [
                | inr other ↦ rw other (once x)
                | inl same ↦ rw same (λ _. (
                  ap (λ y. is_active (state y)) (sym (eq_of_== i x same)) ∙ is,
                  omega (arith, later i (omega arith)),
                ))
              ]))
    ]

-- The second loop joins the ends of each edge between activated vertices.
pub merge_all-Merged :
    (n : ℕ) (adj : ℕ → List ℕ) (activated : ℕ → Bool) (m v : ℕ) (u : UnionFind) (rep k : ℕ → ℕ)
    → v + m ≡ n
    → Targets n adj
    → Valid n u rep k
    → (rep' : ℕ → ℕ) × Valid n (merge_all n adj activated m v u) rep' k
      × ((x y : ℕ)
          → v ≤ x
          → x < n
          → activated x ≡ true
          → activated y ≡ true
          → In y (adj x)
          → rep' x ≡ rep' y)
      × ((x y : ℕ) → rep x ≡ rep y → rep' x ≡ rep' y)
unfolding merge_all
merge_all-Merged n adj activated zero v u rep k e targets h =
    (rep, h, λ x y le lt. absurd (omega arith), λ x y f. f)
merge_all-Merged n adj activated (suc m) v u rep k e targets h = elim (Bool-cases (activated v)) [
  | inr off ↦ rw off (
      let (rep2, h2, near, coarser) =
        merge_all-Merged n adj activated m (suc v) u rep k (omega arith) targets h in
      (
        rep2,
        h2,
        λ x y le lt x_on y_on mem. elim (Bool-cases (v == x)) [
          | inl same ↦ absurd (off_on (sym off ∙ ap activated (eq_of_== v x same) ∙ x_on))
          | inr other ↦ near x y (ground arith) lt x_on y_on mem
        ],
        coarser,
      ))
  | inl is ↦ rw is (
      let (rep1, h1, here, coarser1) =
        merge_each-Merged n activated v (adj v) u rep k (omega arith) (targets v) h in
      let (rep2, h2, near, coarser2) =
        merge_all-Merged n adj activated m (suc v) (merge_each n activated v (adj v) u) rep1 k
          (omega arith) targets h1 in
      (
        rep2,
        h2,
        λ x y le lt x_on y_on mem. elim (Bool-cases (v == x)) [
          | inl same ↦
              let f : v ≡ x = eq_of_== v x same in
              ap rep2 (sym f) ∙ coarser2 v y (here y (subst (λ z. In y (adj z)) (sym f) mem) y_on)
          | inr other ↦ near x y (ground arith) lt x_on y_on mem
        ],
        λ x y f. coarser2 x y (coarser1 x y f),
      ))
]
  where
    off_on : false ≢ true
    off_on f = ground arith

-- The literal that is explained is false in the assignment.
abbrev pub IsFalse : Assignment → Option Lit → Type 0
IsFalse a none = Unit
IsFalse a (some q) = holds a q ≡ false

-- The third loop counts vertices that are on.
pub count_negated-Valid :
    (a : Assignment) (n : ℕ) (p : Option Lit) (lits ls : List Lit) (i : ℕ) (u : UnionFind)
    (rep k : ℕ → ℕ)
    → IsFalse a p
    → i + length ls ≡ n
    → ((j : ℕ) → on a lits (i + j) ≡ on a ls j)
    → Valid n u rep k
    → (k' : ℕ → ℕ) × Valid n (count_negated n p ls i u) rep k'
      × ((x : ℕ) → (k' x ≡ k x) ⊎ (on a lits x ≡ true))
unfolding count_negated
count_negated-Valid a n none lits ls i u rep k is_false e at h = (k, h, λ x. inl refl)
count_negated-Valid a n (some p) lits [] i u rep k is_false e at h = (k, h, λ x. inl refl)
count_negated-Valid a n (some p) lits (l ∷ ls) i u rep k is_false e at h =
    let at_next : (j : ℕ) → on a lits (suc i + j) ≡ on a ls j =
      λ j. subst (λ x. on a lits x ≡ on a ls j) (omega arith) (at (suc j)) in
    elim (Bool-cases (l == neg p)) [
      | inr other ↦ rw other (
          count_negated-Valid a n (some p) lits ls (suc i) u rep k is_false (omega arith) at_next h)
      | inl same ↦
          let k1 = update k i (k i + 1) in
          let (k', h', left) =
            count_negated-Valid a n (some p) lits ls (suc i) (add_active_count n i (pos 1) u) rep k1
              is_false (omega arith) at_next
              (count-Valid n u rep k k1 i h (omega arith) (λ x ne. rw (==_ne i x ne) refl)
                (rw (==_refl i) refl)) in
          let on_i : on a lits i ≡ true =
            subst (λ x. on a lits x ≡ holds a l) (omega arith) (at 0)
            ∙ ap (holds a) (eq_of_== l (neg p) same)
            ∙ holds-neg a p
            ∙ ap not is_false in
          rw same (
            k',
            h',
            λ x. elim (Bool-cases (i == x)) [
              | inl here ↦ inr (ap (on a lits) (sym (eq_of_== i x here)) ∙ on_i)
              | inr there ↦ elim (left x) [ inl f ↦ inl (f ∙ rw there refl) | inr on_x ↦ inr on_x ]
            ],
          )
    ]

pub activated-lt :
    (p : Option Lit) (state : ℕ → NodeState) (ls : List Lit) (i x : ℕ)
    → activate p state ls i x ≡ true
    → x < i + length ls
unfolding activate
activated-lt p state [] i x = λ e. absurd (ground arith)
activated-lt p state (l ∷ ls) i x = elim (Bool-cases (i == x)) [
  | inl same ↦ rw same (λ e. omega (arith, eq_of_== i x same))
  | inr other ↦ rw other (λ e. omega (arith, activated-lt p state ls (suc i) x e))
]

not_explained :
    (a : Assignment) (p : Option Lit) (l : Lit)
    → IsFalse a p
    → holds a l ≡ true
    → is_lit p l ≡ false
unfolding is_lit
not_explained a none l is_false e = refl
not_explained a (some p) l is_false e = elim (Bool-cases (p == l)) [
  | inr other ↦ other
  | inl same ↦
      let f : holds a p ≡ true = ap (holds a) (eq_of_== p l same) ∙ e in absurd (ground arith)
]

-- A vertex that is on and is not known to be inactive is activated.
pub on-activated :
    (a : Assignment) (p : Option Lit) (state : ℕ → NodeState) (ls : List Lit) (i j : ℕ)
    → IsFalse a p
    → on a ls j ≡ true
    → is_inactive (state (i + j)) ≡ false
    → activate p state ls i (i + j) ≡ true
unfolding activate
on-activated a p state [] i j is_false e live = absurd (ground arith)
on-activated a p state (l ∷ ls) i zero is_false e live =
    let here : i + 0 ≡ i = omega arith in
    rw (here, ==_refl i, not_explained a p l is_false e)
      (rw (subst (λ x. is_inactive (state x) ≡ false) here live) refl)
on-activated a p state (l ∷ ls) i (suc j) is_false e live =
    let there : i + suc j ≡ suc i + j = omega arith in
    rw (==_ne i (i + suc j) (λ f. omega arith)) (
      subst (λ x. activate p state ls (suc i) x ≡ true) (sym there)
        (on-activated a p state ls (suc i) j is_false e
          (subst (λ x. is_inactive (state x) ≡ false) there live)))
