-- ===== src/Constraint/Graph/Linked.antt =====
-- The partition after the two roots of a merge have been linked.
use glucose.Prelude.{
  ℕ, suc, ◌+◌, ◌≤◌, ◌<◌, ◌≡◌, refl, sym, ap, subst, ◌∙◌, ◌≢◌, inl, inr, true, false, arith, ◌==◌,
  if◌then◌else◌, ==_refl, ==_ne, eq_of_==, Bool-cases, update,
}
use glucose.Prelude.Int.{ℤ, pos, negsuc, pos_part, ◌+ℤ◌, ◌-ℤ◌, ltb_ℤ, int_laws}
use glucose.Constraint.Graph.UnionFind.{UnionFind, one_if_positive, link}
use glucose.Constraint.Graph.Sums.{total, total-ap, total-add, total-change}
use glucose.Constraint.Graph.Fields.{link-Arrays}
use glucose.Constraint.Graph.Partition.{
  Leads, stop, up, Leads-end, is_root, weigh, positive, Valid, one_is,
}

-- The part of `q` joins that of `p`.
abbrev pub join : (ℕ → ℕ) → ℕ → ℕ → ℕ → ℕ
join rep p q x = if rep x == q then p else rep x

pos_negsuc : {a b : ℕ} → pos a ≢ negsuc b
pos_negsuc k = ground arith

module _ (parent : ℕ → ℤ) (p q s : ℕ) (z : ℤ) (sum_is : z ≡ negsuc s) (ne : p ≢ q)
    (at_p : (t : ℕ) × (parent p ≡ negsuc t)) (at_q : (t : ℕ) × (parent q ≡ negsuc t)) where
  abbrev linked : ℕ → ℤ
  linked = update (update parent p z) q (pos p)

  linked-p : linked p ≡ negsuc s
  linked-p = rw (==_ne q p (λ e. ne (sym e)), ==_refl p) sum_is

  linked-q : linked q ≡ pos p
  linked-q = rw (==_refl q) refl

  linked-other : (x : ℕ) → p ≢ x → q ≢ x → linked x ≡ parent x
  linked-other x not_p not_q = rw (==_ne p x not_p, ==_ne q x not_q) refl

  abbrev Follows : ℕ → ℕ → ℕ → Type 0
  Follows x r m = (m' : ℕ) × Leads linked x (if r == q then p else r) m' × (m' ≤ suc m)

  pub Leads-link : {x r m : ℕ} → Leads parent x r m → Follows x r m
  Leads-link {x = x} (stop {s = t} e) = elim (Bool-cases (x == q)) [
    | inl is_q ↦ rw is_q (
      1,
      subst (λ y. Leads linked y p 1) (sym (eq_of_== x q is_q)) (up linked-q (stop linked-p)),
      omega arith,
    )
    | inr not_q ↦ rw not_q (elim (Bool-cases (x == p)) [
      | inl is_p ↦ (
        0,
        subst (λ y. Leads linked y y 0) (sym (eq_of_== x p is_p)) (stop linked-p),
        omega arith,
      )
      | inr not_p ↦
          (0, stop (linked-other x (λ k. ground arith) (λ k. ground arith) ∙ e), omega arith)
    ])
  ]
  Leads-link {x = x} {r = r} {m = suc m} (up {y = y} e w) =
      let (m', w', le) = Leads-link w in
      (suc m', up (linked-other x (λ k. clash at_p k) (λ k. clash at_q k) ∙ e) w', omega arith)
    where
      clash : {i : ℕ} → (t : ℕ) × (parent i ≡ negsuc t) → i ≢ x
      clash (t, k) same = pos_negsuc (sym e ∙ ap parent (sym same) ∙ k)

-- The number of active clusters after the two counts have been joined.
join_counts :
    (c a b d e f : ℕ) → c + d ≡ e + a → e ≡ f + b → pos c -ℤ pos a -ℤ pos b +ℤ pos d ≡ pos f
join_counts c a b d e f k l = grind int_laws

negative_sum : (a b : ℤ) (s t : ℕ) → a ≡ negsuc s → b ≡ negsuc t → (r : ℕ) × (a +ℤ b ≡ negsuc r)
negative_sum a b s t e k = (suc (s + t), rw (e, k) (grind int_laws))

sum_le : (a b : ℤ) → pos_part (a +ℤ b) ≤ pos_part a + pos_part b
unfolding ◌+ℤ◌
sum_le a b = ground arith

module _ (n : ℕ) (u : UnionFind) (rep k : ℕ → ℕ) (p q : ℕ) (h : Valid n u rep k) (p_lt : p < n)
    (q_lt : q < n) (p_is : rep p ≡ p) (q_is : rep q ≡ q) (ne : p ≢ q) where
  abbrev a_p : ℤ
  a_p = u.n_active p

  abbrev a_q : ℤ
  a_q = u.n_active q

  abbrev once : ℕ → ℤ
  once = update u.n_active p (a_p +ℤ a_q)

  abbrev twice : ℕ → ℤ
  twice = update once q (pos 0)

  abbrev rep' : ℕ → ℕ
  rep' = join rep p q

  ends_at : (x : ℕ) → x < n → rep x ≡ x → (t : ℕ) × (u.parent x ≡ negsuc t)
  ends_at x lt e =
      let (m, w, _) = h.leads x lt in
      subst (λ y. (t : ℕ) × (u.parent y ≡ negsuc t)) e (Leads-end u.parent w)

  one_root_less : total n (is_root rep') + 1 ≡ total n (is_root rep)
  one_root_less =
      let before : is_root rep q ≡ 1 = rw (q_is, ==_refl q) refl in
      let after : is_root rep' q ≡ 0 = rw (q_is, ==_refl q, ==_ne p q ne) refl in
      let change = total-change n q (is_root rep) (is_root rep') q_lt (λ x not_q. same x not_q) in
      omega (arith, before, after, change)
    where
      same : (x : ℕ) → q ≢ x → is_root rep x ≡ is_root rep' x
      same x not_q = elim (Bool-cases (rep x == q)) [
        | inr other ↦ rw other refl
        | inl in_q ↦
            let e : rep x ≡ q = eq_of_== (rep x) q in_q in
            let not_p : p ≢ x = λ k. ne (sym p_is ∙ ap rep k ∙ e) in
            rw (in_q, e, ==_ne q x not_q, ==_ne p x not_p) refl
      ]

  weight_of_p : total n (weigh rep' k p) ≡ total n (weigh rep k p) + total n (weigh rep k q)
  weight_of_p = total-add n _ _ _ λ x. elim (Bool-cases (rep x == q)) [
    | inr other ↦ rw other (omega arith)
    | inl in_q ↦
        let e : rep x ≡ q = eq_of_== (rep x) q in_q in
        rw (in_q, e, ==_refl p, ==_ne q p (λ k. ne (sym k))) (omega arith)
  ]

  weight_of_other : (r : ℕ) → p ≢ r → q ≢ r → total n (weigh rep' k r) ≡ total n (weigh rep k r)
  weight_of_other r not_p not_q = total-ap n _ _ λ x _. elim (Bool-cases (rep x == q)) [
    | inr other ↦ rw other refl
    | inl in_q ↦
        let e : rep x ≡ q = eq_of_== (rep x) q in_q in
        rw (in_q, e, ==_ne p r not_p, ==_ne q r not_q) refl
  ]

  clusters_left :
      u.n_active_clusters
        -ℤ one_if_positive a_p
        -ℤ one_if_positive a_q
        +ℤ one_if_positive (a_p +ℤ a_q)
      ≡ pos (total n (positive twice))
  clusters_left =
      let z = a_p +ℤ a_q in
      let at_p : positive once p ≡ (if ltb_ℤ (pos 0) z then 1 else 0) = rw (==_refl p) refl in
      let at_q : positive once q ≡ positive u.n_active q = rw (==_ne p q ne) refl in
      let off_q : positive twice q ≡ 0 = rw (==_refl q) refl in
      let first =
        total-change n p (positive u.n_active) (positive once) p_lt
          λ x not_p. rw (==_ne p x not_p) refl in
      let second =
        total-change n q (positive once) (positive twice) q_lt
          λ x not_q. rw (==_ne q x not_q) refl in
      rw (h.clusters_are, one_is a_p, one_is a_q, one_is z)
        (join_counts (total n (positive u.n_active)) (positive u.n_active p) (positive u.n_active q)
          _ (total n (positive once)) _ (omega (arith, first, at_p))
          (omega (arith, second, at_q, off_q)))

  pub link-Valid : Valid n (link p q u) rep' k
  link-Valid =
      let a = link-Arrays p q u in
      let (s, sum_is) =
        negative_sum (u.parent p) (u.parent q) _ _ (ends_at p p_lt p_is).1
          (ends_at q q_lt q_is).1 in
      record {
        inside = λ x lt. elim (Bool-cases (rep x == q)) [
          | inl in_q ↦ rw in_q p_lt
          | inr other ↦ rw other (h.inside x lt)
        ];
        leads = λ x lt.
            let (m, w, le) = h.leads x lt in
            let (m', w', le') =
              Leads-link u.parent p q s (u.parent p +ℤ u.parent q) sum_is ne (ends_at p p_lt p_is)
                (ends_at q q_lt q_is) w in
            (
              m',
              subst (λ f. Leads f x (rep' x) m') (sym a.parent_is) w',
              omega (arith, one_root_less),
            );
        only_roots = λ x. rw a.n_active_is (only x);
        counted = λ r. rw a.n_active_is (count r);
        clusters_are =
            a.clusters_is
            ∙ clusters_left
            ∙ ap (λ f. pos (total n (positive f))) (sym a.n_active_is);
      }
    where
      only : (x : ℕ) → ltb_ℤ (pos 0) (twice x) ≡ true → rep' x ≡ x
      only x = elim (Bool-cases (q == x)) [
        | inl is_q ↦ rw is_q (λ e. absurd (ground arith))
        | inr not_q ↦ rw not_q (elim (Bool-cases (p == x)) [
          | inl is_p ↦
              rw is_p
                (λ e. subst (λ y. rep' y ≡ y) (eq_of_== p x is_p) (rw (p_is, ==_ne p q ne) refl))
          | inr not_p ↦ rw not_p (λ e.
              let r : rep x ≡ x = h.only_roots x e in
              let other : (rep x == q) ≡ false = ground arith in rw other r)
        ])
      ]

      count : (r : ℕ) → pos_part (twice r) ≤ total n (weigh rep' k r)
      count r = elim (Bool-cases (q == r)) [
        | inl is_q ↦ rw is_q (omega arith)
        | inr not_q ↦ rw not_q (elim (Bool-cases (p == r)) [
          | inl is_p ↦ rw is_p (
              subst (λ y. pos_part (a_p +ℤ a_q) ≤ total n (weigh rep' k y)) (eq_of_== p r is_p)
                (omega (arith, weight_of_p, sum_le a_p a_q, h.counted p, h.counted q)))
          | inr not_p ↦ rw not_p (
              omega (arith, weight_of_other r (λ k. ground arith) (λ k. ground arith), h.counted r))
        ])
      ]
