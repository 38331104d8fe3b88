-- ===== src/Constraint/Graph/Indices.antt =====
-- The entries of `var_to_idx_`.
use glucose.Prelude.{
  ℕ, suc, ◌+◌, ◌≤◌, ◌<◌, ◌≡◌, refl, sym, subst, ◌∙◌, ◌≢◌, inl, inr, ◌&&◌, ◌||◌, List, [], ◌∷◌,
  arith, ltb, ◌==◌, eq_of_==, Bool-cases,
}
use glucose.Prelude.Lists.{All, length, get_or}
use glucose.Lit.{Lit, Var, var}
use glucose.Constraint.Graph.{insert_pair, index_vars}
use glucose.Constraint.Graph.Propagate.{vertices_of}

-- No vertex occurs twice in the list.
abbrev pub Apart : List ℕ → Type 0
Apart [] = Unit
Apart (i ∷ is) = All (λ j. i ≢ j) is × Apart is

abbrev places : List (Var × ℕ) → List ℕ
places [] = []
places ((x, i) ∷ es) = i ∷ places es

places-insert_pair-All :
    (P : ℕ → Type 0) (x : Var) (i : ℕ) (es : List (Var × ℕ))
    → P i
    → All P (places es)
    → All P (places (insert_pair x i es))
unfolding insert_pair
places-insert_pair-All P x i [] h k = (h, tt)
places-insert_pair-All P x i ((y, j) ∷ es) h k = elim (Bool-cases (ltb x y || x == y && ltb i j)) [
  | inl before ↦ rw before (h, k)
  | inr after ↦ rw after (k.0, places-insert_pair-All P x i es h k.1)
]

places-insert_pair-Apart :
    (x : Var) (i : ℕ) (es : List (Var × ℕ))
    → All (λ j. i ≢ j) (places es)
    → Apart (places es)
    → Apart (places (insert_pair x i es))
unfolding insert_pair
places-insert_pair-Apart x i [] h k = (tt, tt)
places-insert_pair-Apart x i ((y, j) ∷ es) h k = elim (Bool-cases (ltb x y || x == y && ltb i j)) [
  | inl before ↦ rw before (h, k)
  | inr after ↦ rw after (
    places-insert_pair-All (λ k. j ≢ k) x i es (λ e. h.0 (sym e)) k.0,
    places-insert_pair-Apart x i es h.1 k.1,
  )
]

All-suc :
    (i : ℕ) (is : List ℕ) → All (λ j. suc i ≤ j) is → All (λ j. i ≤ j) is × All (λ j. i ≢ j) is
All-suc i [] h = (tt, tt)
All-suc i (j ∷ is) h =
    let (le, ne) = All-suc i is h.1 in ((omega (arith, h.0), le), (λ e. omega (arith, h.0, e), ne))

places-index_vars :
    (ls : List Lit) (i : ℕ)
    → All (λ j. i ≤ j) (places (index_vars ls i)) × Apart (places (index_vars ls i))
unfolding index_vars
places-index_vars [] i = (tt, tt)
places-index_vars (l ∷ ls) i =
    let (later, apart) = places-index_vars ls (suc i) in
    let (le, ne) = All-suc i (places (index_vars ls (suc i))) later in
    (
      places-insert_pair-All (λ j. i ≤ j) (var l) i (index_vars ls (suc i)) (omega arith) le,
      places-insert_pair-Apart (var l) i (index_vars ls (suc i)) ne apart,
    )

vertices_of-All :
    (P : ℕ → Type 0) (x : Var) (es : List (Var × ℕ)) → All P (places es) → All P (vertices_of x es)
unfolding vertices_of
vertices_of-All P x [] h = tt
vertices_of-All P x ((y, i) ∷ es) h = elim (Bool-cases (ltb y x)) [
  | inl before ↦ rw before (vertices_of-All P x es h.1)
  | inr after ↦ rw after (elim (Bool-cases (y == x)) [
    | inl same ↦ rw same (h.0, vertices_of-All P x es h.1)
    | inr beyond ↦ rw beyond tt
  ])
]

vertices_of-Apart : (x : Var) (es : List (Var × ℕ)) → Apart (places es) → Apart (vertices_of x es)
unfolding vertices_of
vertices_of-Apart x [] h = tt
vertices_of-Apart x ((y, i) ∷ es) h = elim (Bool-cases (ltb y x)) [
  | inl before ↦ rw before (vertices_of-Apart x es h.1)
  | inr after ↦ rw after (elim (Bool-cases (y == x)) [
    | inl same ↦ rw same (vertices_of-All (λ j. i ≢ j) x es h.0, vertices_of-Apart x es h.1)
    | inr beyond ↦ rw beyond tt
  ])
]

pub vertices_of-index_vars : (x : Var) (ls : List Lit) → Apart (vertices_of x (index_vars ls 0))
vertices_of-index_vars x ls = vertices_of-Apart x (index_vars ls 0) (places-index_vars ls 0).1

pub insert_pair-All :
    (P : Var × ℕ → Type 0) (x : Var) (i : ℕ) (es : List (Var × ℕ))
    → P (x, i)
    → All P es
    → All P (insert_pair x i es)
unfolding insert_pair
insert_pair-All P x i [] h k = (h, tt)
insert_pair-All P x i ((y, j) ∷ es) h k = elim (Bool-cases (ltb x y || x == y && ltb i j)) [
  | inl before ↦ rw before (h, k)
  | inr after ↦ rw after (k.0, insert_pair-All P x i es h k.1)
]

-- The entry stands for a literal, where the first literal has the place `i`.
abbrev Stands : List Lit → ℕ → Var × ℕ → Type 0
Stands ls i e = (k : ℕ) × (e.1 ≡ i + k) × (k < length ls) × (var (get_or ls k 0) ≡ e.0)

Stands-later :
    (l : Lit) (ls : List Lit) (i : ℕ) (es : List (Var × ℕ))
    → All (Stands ls (suc i)) es
    → All (Stands (l ∷ ls) i) es
Stands-later l ls i [] h = tt
Stands-later l ls i (e ∷ es) ((k, at, lt, same), h) =
    ((suc k, omega arith, omega arith, same), Stands-later l ls i es h)

index_vars-Stands : (ls : List Lit) (i : ℕ) → All (Stands ls i) (index_vars ls i)
unfolding index_vars
index_vars-Stands [] i = tt
index_vars-Stands (l ∷ ls) i =
    insert_pair-All (Stands (l ∷ ls) i) (var l) i (index_vars ls (suc i))
      (0, omega arith, omega arith, refl)
      (Stands-later l ls i (index_vars ls (suc i)) (index_vars-Stands ls (suc i)))

-- `i` is a vertex, and its literal has the variable `x`.
abbrev pub IsOf : List Lit → Var → ℕ → Type 0
IsOf ls x i = (i < length ls) × (var (get_or ls i 0) ≡ x)

IsOf-Stands : (ls : List Lit) (x y : Var) (i : ℕ) → Stands ls 0 (y, i) → y ≡ x → IsOf ls x i
IsOf-Stands ls x y i (k, at, lt, same) e =
    let place : k ≡ i = omega arith in
    (omega arith, subst (λ j. var (get_or ls j 0) ≡ x) place (same ∙ e))

vertices_of-Stands :
    (ls : List Lit) (x : Var) (es : List (Var × ℕ))
    → All (Stands ls 0) es
    → All (IsOf ls x) (vertices_of x es)
unfolding vertices_of
vertices_of-Stands ls x [] h = tt
vertices_of-Stands ls x ((y, i) ∷ es) h = elim (Bool-cases (ltb y x)) [
  | inl before ↦ rw before (vertices_of-Stands ls x es h.1)
  | inr after ↦ rw after (elim (Bool-cases (y == x)) [
    | inl same ↦
        rw same (IsOf-Stands ls x y i h.0 (eq_of_== y x same), vertices_of-Stands ls x es h.1)
    | inr beyond ↦ rw beyond tt
  ])
]

pub vertices_of-IsOf : (x : Var) (ls : List Lit) → All (IsOf ls x) (vertices_of x (index_vars ls 0))
vertices_of-IsOf x ls = vertices_of-Stands ls x (index_vars ls 0) (index_vars-Stands ls 0)
