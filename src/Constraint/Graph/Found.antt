-- ===== src/Constraint/Graph/Found.antt =====
-- The vertices that the scan of `var_to_idx_` visits.
use glucose.Prelude.{
  ℕ, zero, suc, ◌+◌, ◌≤◌, ◌<◌, ◌≡◌, refl, sym, ap, subst, ◌∙◌, inl, inr, Bool, true, false, ◌&&◌,
  ◌||◌, List, [], ◌∷◌, arith, ltb, ◌==◌, eq_of_==, Bool-cases,
}
use glucose.Prelude.Lists.{All, In, length, get_or}
use glucose.Lit.{Lit, Var, var}
use glucose.Constraint.Graph.{insert_pair, index_vars}
use glucose.Constraint.Graph.Propagate.{vertices_of}
use glucose.Constraint.Graph.Indices.{IsOf, insert_pair-All, vertices_of-IsOf}

-- The variables of the entries do not fall.
abbrev Rising : List (Var × ℕ) → Type 0
Rising [] = Unit
Rising ((x, i) ∷ es) = All (λ e. x ≤ e.0) es × Rising es

All-le : (x y : Var) (es : List (Var × ℕ)) → x ≤ y → All (λ e. y ≤ e.0) es → All (λ e. x ≤ e.0) es
All-le x y [] le h = tt
All-le x y (e ∷ es) le h = (omega (arith, h.0), All-le x y es le h.1)

insert_pair-Rising :
    (x : Var) (i : ℕ) (es : List (Var × ℕ)) → Rising es → Rising (insert_pair x i es)
unfolding insert_pair
insert_pair-Rising x i [] h = (tt, tt)
insert_pair-Rising x i ((y, j) ∷ es) h = elim (Bool-cases (ltb x y || x == y && ltb i j)) [
  | inl before ↦ let le : x ≤ y = ground arith in rw before ((le, All-le x y es le h.0), h)
  | inr after ↦
      let le : y ≤ x = ground arith in
      rw after (insert_pair-All (λ e. y ≤ e.0) x i es le h.0, insert_pair-Rising x i es h.1)
]

index_vars-Rising : (ls : List Lit) (i : ℕ) → Rising (index_vars ls i)
unfolding index_vars
index_vars-Rising [] i = tt
index_vars-Rising (l ∷ ls) i =
    insert_pair-Rising (var l) i (index_vars ls (suc i)) (index_vars-Rising ls (suc i))

In-insert_pair-same : (x : Var) (i : ℕ) (es : List (Var × ℕ)) → In (x, i) (insert_pair x i es)
unfolding insert_pair
In-insert_pair-same x i [] = inl refl
In-insert_pair-same x i ((y, j) ∷ es) = elim (Bool-cases (ltb x y || x == y && ltb i j)) [
  | inl before ↦ rw before (inl refl)
  | inr after ↦ rw after (inr (In-insert_pair-same x i es))
]

In-insert_pair :
    (e : Var × ℕ) (x : Var) (i : ℕ) (es : List (Var × ℕ)) → In e es → In e (insert_pair x i es)
unfolding insert_pair
In-insert_pair e x i [] m = absurd m
In-insert_pair e x i ((y, j) ∷ es) m = elim (Bool-cases (ltb x y || x == y && ltb i j)) [
  | inl before ↦ rw before (inr m)
  | inr after ↦
      rw after (elim m [ inl here ↦ inl here | inr there ↦ inr (In-insert_pair e x i es there) ])
]

In-index_vars :
    (ls : List Lit) (i k : ℕ) → k < length ls → In (var (get_or ls k 0), i + k) (index_vars ls i)
unfolding index_vars
In-index_vars [] i k lt = absurd (ground arith)
In-index_vars (l ∷ ls) i zero lt =
    let here : i ≡ i + 0 = omega arith in
    subst (λ j. In (var l, j) (insert_pair (var l) i (index_vars ls (suc i)))) here
      (In-insert_pair-same (var l) i (index_vars ls (suc i)))
In-index_vars (l ∷ ls) i (suc k) lt =
    let there : suc i + k ≡ i + suc k = omega arith in
    let e = var (get_or ls k 0) in
    subst (λ j. In (e, j) (insert_pair (var l) i (index_vars ls (suc i)))) there
      (In-insert_pair (e, suc i + k) (var l) i (index_vars ls (suc i))
        (In-index_vars ls (suc i) k (ground arith)))

All-least : (y x : Var) (i : ℕ) (es : List (Var × ℕ)) → All (λ e. y ≤ e.0) es → In (x, i) es → y ≤ x
All-least y x i [] h m = absurd m
All-least y x i (e ∷ es) h (inl here) = omega (arith, h.0, ap (λ e. e.0) here)
All-least y x i (e ∷ es) h (inr there) = All-least y x i es h.1 there

In-vertices_of :
    (x : Var) (i : ℕ) (es : List (Var × ℕ)) → Rising es → In (x, i) es → In i (vertices_of x es)
unfolding vertices_of
In-vertices_of x i [] h m = absurd m
In-vertices_of x i ((y, j) ∷ es) h m = elim (Bool-cases (ltb y x)) [
  | inl before ↦ rw before (elim m [
    | inl here ↦ let e = ap (λ e. e.0) here in absurd (ground arith)
    | inr there ↦ In-vertices_of x i es h.1 there
  ])
  | inr after ↦ rw after (elim (Bool-cases (y == x)) [
    | inl same ↦ rw same (elim m [
      | inl here ↦ inl (ap (λ e. e.1) here)
      | inr there ↦ inr (In-vertices_of x i es h.1 there)
    ])
    | inr beyond ↦ elim m [
      | inl here ↦ let e = ap (λ e. e.0) here in absurd (ground arith)
      | inr there ↦ let le = All-least y x i es h.0 there in absurd (ground arith)
    ]
  ])
]

pub IsOf-In :
    (ls : List Lit) (x : Var) (i : ℕ) → IsOf ls x i → In i (vertices_of x (index_vars ls 0))
IsOf-In ls x i (lt, e) =
    let from_zero : 0 + i ≡ i = omega arith in
    let m : In (var (get_or ls i 0), i) (index_vars ls 0) =
      subst (λ j. In (var (get_or ls i 0), j) (index_vars ls 0)) from_zero
        (In-index_vars ls 0 i lt) in
    In-vertices_of x i (index_vars ls 0) (index_vars-Rising ls 0)
      (subst (λ y. In (y, i) (index_vars ls 0)) e m)

-- Whether the vertex is one of the variable.
abbrev pub is_of : List Lit → Var → ℕ → Bool
is_of ls x i = ltb i (length ls) && var (get_or ls i 0) == x

abbrev pub visits : List ℕ → ℕ → Bool
visits [] i = false
visits (j ∷ js) i = (j == i) || visits js i

In-visits : (js : List ℕ) (i : ℕ) → In i js → visits js i ≡ true
In-visits [] i m = absurd m
In-visits (j ∷ js) i (inl e) = ground arith
In-visits (j ∷ js) i (inr m) = ground (arith, In-visits js i m)

visits-All : (P : ℕ → Type 0) (js : List ℕ) (i : ℕ) → All P js → visits js i ≡ true → P i
visits-All P [] i h e = absurd (ground arith)
visits-All P (j ∷ js) i h e = elim (Bool-cases (j == i)) [
  | inl same ↦ subst P (eq_of_== j i same) h.0
  | inr other ↦ visits-All P js i h.1 (ground arith)
]

pub visits-vertices_of :
    (ls : List Lit) (x : Var) (i : ℕ) → visits (vertices_of x (index_vars ls 0)) i ≡ is_of ls x i
visits-vertices_of ls x i =
    let js = vertices_of x (index_vars ls 0) in
    elim (Bool-cases (is_of ls x i)) [
      | inl is ↦ In-visits js i (IsOf-In ls x i (ground arith, ground arith)) ∙ sym is
      | inr is_not ↦ elim (Bool-cases (visits js i)) [
        | inr unseen ↦ unseen ∙ sym is_not
        | inl seen ↦
            let (lt, e) = visits-All (IsOf ls x) js i (vertices_of-IsOf x ls) seen in
            absurd (ground arith)
      ]
    ]
