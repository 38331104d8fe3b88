-- ===== src/Constraint/Graph/Edges.antt =====
-- The constructor, for edges no two of which join the same vertices.
use glucose.Prelude.{
  ℕ, ◌<◌, ◌≡◌, refl, sym, ap, subst, ◌∙◌, ◌≢◌, ◌⊎◌, inl, inr, List, [], ◌∷◌, ◌++◌, arith, ◌==◌,
  ==_ne, eq_of_==, Bool-cases, update,
}
use glucose.Prelude.Lists.{
  In, All, In-All, All-In, length, All-append, In-append_left, In-append_right,
}
use glucose.Lit.{Lit}
use glucose.Constraint.Graph.{add_edges, connected_of}
use glucose.Constraint.Graph.Indices.{Apart}
use glucose.Constraint.Graph.Closed.{Symmetric}
use glucose.Constraint.Graph.Accepts.{IsGraph}

-- Two edges that do not join the same vertices.
abbrev Differ : ℕ × ℕ → ℕ × ℕ → Type 0
Differ (v, w) (x, y) = ((v ≡ x) × (w ≡ y) → ⊥) × ((v ≡ y) × (w ≡ x) → ⊥)

-- Edges between the first `n` vertices, without loops, no two of which join the same vertices.
abbrev pub Simple : ℕ → List (ℕ × ℕ) → Type 0
Simple n [] = Unit
Simple n ((v, w) ∷ es) = (v < n) × (w < n) × (v ≢ w) × All (Differ (v, w)) es × Simple n es

In-snoc : (xs : List ℕ) (x y : ℕ) → In y (xs ++ x ∷ []) → In y xs ⊎ (x ≡ y)
In-snoc [] x y (inl e) = inr e
In-snoc [] x y (inr m) = absurd m
In-snoc (z ∷ xs) x y (inl e) = inl (inl e)
In-snoc (z ∷ xs) x y (inr m) = elim (In-snoc xs x y m) [ inl k ↦ inl (inr k) | inr e ↦ inr e ]

Apart-snoc : (xs : List ℕ) (x : ℕ) → Apart xs → (In x xs → ⊥) → Apart (xs ++ x ∷ [])
Apart-snoc [] x h new = (tt, tt)
Apart-snoc (z ∷ xs) x h new = (
  All-append (λ j. z ≢ j) xs (x ∷ []) h.0 (λ e. new (inl e), tt),
  Apart-snoc xs x h.1 λ m. new (inr m),
)

record Net (n : ℕ) (adj : ℕ → List ℕ) : Type 0 where
  targets : (x y : ℕ) → In y (adj x) → y < n
  symmetric : Symmetric adj
  simple : (x : ℕ) → Apart (adj x)

module _ (n : ℕ) (adj : ℕ → List ℕ) (h : Net n adj) (v w : ℕ) (v_lt : v < n) (w_lt : w < n)
    (ne : v ≢ w) (new : In w (adj v) → ⊥) where
  once : ℕ → List ℕ
  once = update adj v (adj v ++ w ∷ [])

  abbrev Joined : ℕ → ℕ → Type 0
  Joined x y = In y (adj x) ⊎ ((v ≡ x) × (w ≡ y) ⊎ (w ≡ x) × (v ≡ y))

  added : ℕ → List ℕ
  unfolding once
  added = update once w (once w ++ v ∷ [])

  added-at :
      (x : ℕ)
      → (added x ≡ adj x) × (v ≢ x) × (w ≢ x)
        ⊎ ((v ≡ x) × (added x ≡ adj x ++ w ∷ []) ⊎ (w ≡ x) × (added x ≡ adj x ++ v ∷ []))
  unfolding added once
  added-at x = elim (Bool-cases (w == x)) [
    | inl at_w ↦
        let e : w ≡ x = eq_of_== w x at_w in
        inr (inr (e, rw (at_w, ==_ne v w ne) (ap (λ y. adj y ++ v ∷ []) e)))
    | inr not_w ↦ elim (Bool-cases (v == x)) [
      | inl at_v ↦
          let e : v ≡ x = eq_of_== v x at_v in
          inr (inl (e, rw (not_w, at_v) (ap (λ y. adj y ++ w ∷ []) e)))
      | inr not_v ↦ inl (rw (not_w, not_v) refl, (λ e. ground arith), λ e. ground arith)
    ]
  ]

  In-added : (x y : ℕ) → In y (added x) → Joined x y
  In-added x y m = elim (added-at x) [
    | inl (e, _, _) ↦ inl (subst (In y) e m)
    | inr (inl (k, e)) ↦ elim (In-snoc (adj x) w y (subst (In y) e m)) [
      | inl old ↦ inl old
      | inr same ↦ inr (inl (k, same))
    ]
    | inr (inr (k, e)) ↦ elim (In-snoc (adj x) v y (subst (In y) e m)) [
      | inl old ↦ inl old
      | inr same ↦ inr (inr (k, same))
    ]
  ]

  added-In : (x y : ℕ) → Joined x y → In y (added x)
  added-In x y m = elim (added-at x) [
    | inl (e, not_v, not_w) ↦ subst (In y) (sym e) (elim m [
      | inl old ↦ old
      | inr (inl (k, _)) ↦ absurd (not_v k)
      | inr (inr (k, _)) ↦ absurd (not_w k)
    ])
    | inr (inl (at, e)) ↦ subst (In y) (sym e) (elim m [
      | inl old ↦ In-append_left y (adj x) (w ∷ []) old
      | inr (inl (_, k)) ↦ In-append_right y (adj x) (w ∷ []) (inl k)
      | inr (inr (k, _)) ↦ absurd (ne (at ∙ sym k))
    ])
    | inr (inr (at, e)) ↦ subst (In y) (sym e) (elim m [
      | inl old ↦ In-append_left y (adj x) (v ∷ []) old
      | inr (inl (k, _)) ↦ absurd (ne (k ∙ sym at))
      | inr (inr (_, k)) ↦ In-append_right y (adj x) (v ∷ []) (inl k)
    ])
  ]

  added-Net : Net n added
  added-Net = record {
    targets = λ x y m. elim (In-added x y m) [
      | inl old ↦ h.targets x y old
      | inr (inl (_, e)) ↦ subst (λ z. z < n) e w_lt
      | inr (inr (_, e)) ↦ subst (λ z. z < n) e v_lt
    ];
    symmetric = λ x y m. added-In y x (elim (In-added x y m) [
      | inl old ↦ inl (h.symmetric x y old)
      | inr (inl (e, k)) ↦ inr (inr (k, e))
      | inr (inr (e, k)) ↦ inr (inl (k, e))
    ]);
    simple = λ x. elim (added-at x) [
      | inl (e, _, _) ↦ subst Apart (sym e) (h.simple x)
      | inr (inl (at, e)) ↦
          subst Apart (sym e)
            (Apart-snoc (adj x) w (h.simple x) (subst (λ z. In w (adj z) → ⊥) at new))
      | inr (inr (at, e)) ↦ subst Apart (sym e) (
          Apart-snoc (adj x) v (h.simple x)
            (subst (λ z. In v (adj z) → ⊥) at λ m. new (h.symmetric w v m)))
    ];
  }

add_edges-Net :
    (n : ℕ) (es : List (ℕ × ℕ)) (adj : ℕ → List ℕ)
    → Net n adj
    → Simple n es
    → All (λ e. In e.1 (adj e.0) → ⊥) es
    → Net n (add_edges es adj)
unfolding add_edges added once
add_edges-Net n [] adj h ok new = h
add_edges-Net n ((v, w) ∷ es) adj h (v_lt, w_lt, ne, differ, ok) (fresh, new) =
    add_edges-Net n es (added n adj h v w v_lt w_lt ne fresh)
      (added-Net n adj h v w v_lt w_lt ne fresh) ok
      (In-All es λ e m k. elim (In-added n adj h v w v_lt w_lt ne fresh e.0 e.1 k) [
        | inl old ↦ All-In (λ e. In e.1 (adj e.0) → ⊥) es new m old
        | inr (inl same) ↦ (All-In (Differ (v, w)) es differ m).0 same
        | inr (inr (k', l)) ↦ (All-In (Differ (v, w)) es differ m).1 (l, k')
      ])

-- What the constructor makes of the literals and of such edges between their vertices is a graph
-- without multiple edges, with the index that `propagate` uses.
pub connected_of-IsGraph :
    (lits : List Lit) (es : List (ℕ × ℕ)) → Simple (length lits) es → IsGraph (connected_of lits es)
unfolding connected_of
connected_of-IsGraph lits es ok =
    let net =
      add_edges-Net (length lits) es (λ v. [])
        (record { targets = λ x y m. absurd m; symmetric = λ x y m. absurd m; simple = λ x. tt }) ok
        (In-All es λ e _ m. m) in
    record {
      indexed = refl;
      targets = λ x. In-All (add_edges es (λ v. []) x) λ y m. net.targets x y m;
      symmetric = net.symmetric;
      simple = net.simple;
    }
