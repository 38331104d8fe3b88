-- ===== src/Constraint/Xor/Build.antt =====
-- constraints/Xor.cc: the constructor, and the exclusive or of literals that it stands for.
use glucose.Prelude.{
  ℕ, suc, ◌+◌, ◌%◌, ◌<◌, ◌≡◌, refl, sym, ap, subst, ◌∙◌, ◌↔◌, inl, inr, Bool, true, false, ◌||◌,
  none, List, [], ◌∷◌, arith, ltb, ◌==◌, if◌then◌else◌, eq_of_==, Bool-cases, xor,
}
use glucose.Prelude.Lists.{length, All, In}
use glucose.Lit.{Lit, Var, var, sign}
use glucose.Lit.Truth.{Assignment, holds}
use glucose.Constraint.Xor.{Cell, toggle, normalize, unset, xor_of}

-- The exclusive or of the literals' values.
abbrev pub xor_lits : Assignment → List Lit → Bool
xor_lits a [] = false
xor_lits a (l ∷ ls) = xor (holds a l) (xor_lits a ls)

abbrev pub xor_vars : Assignment → List Var → Bool
xor_vars a [] = false
xor_vars a (v ∷ vs) = xor (a v) (xor_vars a vs)

-- The variables rise strictly.
abbrev pub IsSorted : List Var → Type 0
IsSorted [] = Unit
IsSorted (v ∷ vs) = All (λ w. v < w) vs × IsSorted vs

xor_vars-toggle :
    (a : Assignment) (v : Var) (vs : List Var)
    → xor_vars a (toggle v vs) ≡ xor (a v) (xor_vars a vs)
unfolding toggle
xor_vars-toggle a v [] = refl
xor_vars-toggle a v (w ∷ vs) = ground (arith, xor_vars-toggle a v vs)

toggle-All :
    (u v : Var) (vs : List Var) → u < v → All (λ w. u < w) vs → All (λ w. u < w) (toggle v vs)
unfolding toggle
toggle-All u v [] h k = (h, tt)
toggle-All u v (w ∷ vs) h k = ground (arith, toggle-All u v vs h k.1, k.0, k.1)

All-trans : (u v : Var) (vs : List Var) → u < v → All (λ w. v < w) vs → All (λ w. u < w) vs
All-trans u v [] h k = tt
All-trans u v (w ∷ vs) h k = (omega arith, All-trans u v vs h k.1)

toggle-IsSorted : (v : Var) (vs : List Var) → IsSorted vs → IsSorted (toggle v vs)
unfolding toggle
toggle-IsSorted v [] h = (tt, tt)
toggle-IsSorted v (w ∷ vs) h =
    ground (arith, toggle-IsSorted v vs h.1, toggle-All w v vs, All-trans v w vs, h.0, h.1)

normalize_lem :
    (a : Assignment) (ls : List Lit) (vars : List Var) (parity : Bool)
    → let (vs, p) = normalize ls vars parity in
      xor p (xor_vars a vs) ≡ xor (xor_lits a ls) (xor parity (xor_vars a vars))
unfolding normalize holds
normalize_lem a [] vars parity = refl
normalize_lem a (l ∷ ls) vars parity =
    normalize_lem a ls (toggle (var l) vars) (xor (sign l) parity)
    ∙ rw (xor_vars-toggle a (var l) vars) (ground arith)

normalize-IsSorted :
    (ls : List Lit) (vars : List Var) (parity : Bool)
    → IsSorted vars
    → IsSorted (normalize ls vars parity).0
unfolding normalize
normalize-IsSorted [] vars parity h = h
normalize-IsSorted (l ∷ ls) vars parity h =
    normalize-IsSorted ls (toggle (var l) vars) _ (toggle-IsSorted (var l) vars h)

-- The variables of the cells.
abbrev pub vars_of : List Cell → List Var
vars_of [] = []
vars_of ((v, x) ∷ cells) = v ∷ vars_of cells

vars_of-unset : (vs : List Var) → vars_of (unset vs) ≡ vs
vars_of-unset [] = refl
vars_of-unset (v ∷ vs) = ap (◌∷◌ v) (vars_of-unset vs)

-- How often the variable occurs.
abbrev pub occurs : Var → List Lit → ℕ
occurs v [] = 0
occurs v (l ∷ ls) = (if v == var l then 1 else 0) + occurs v ls

abbrev has : Var → List Var → Bool
has v [] = false
has v (w ∷ ws) = (v == w) || has v ws

abbrev odd : Var → List Lit → Bool
odd v [] = false
odd v (l ∷ ls) = xor (v == var l) (odd v ls)

has-In : (v : Var) (vs : List Var) → has v vs ≡ true → In v vs
has-In v (w ∷ vs) e = elim (Bool-cases (v == w)) [
  | inl same ↦ inl (sym (eq_of_== v w same))
  | inr other ↦ inr (has-In v vs (ground arith))
]
has-In v [] e = absurd (ground arith)

In-has : (v : Var) (vs : List Var) → In v vs → has v vs ≡ true
In-has v (w ∷ vs) (inl e) = ground arith
In-has v (w ∷ vs) (inr m) = ground (arith, In-has v vs m)
In-has v [] m = absurd m

has-below : (v : Var) (vs : List Var) → All (λ w. v < w) vs → has v vs ≡ false
has-below v [] h = refl
has-below v (w ∷ vs) h = ground (arith, h.0, has-below v vs h.1)

has-toggle :
    (u v : Var) (vs : List Var) → IsSorted vs → has u (toggle v vs) ≡ xor (u == v) (has u vs)
unfolding toggle
has-toggle u v [] h = ground arith
has-toggle u v (w ∷ vs) h = elim (Bool-cases (v == w)) [
  | inl same ↦ rw same (elim (Bool-cases (u == w)) [
    | inl here ↦
        let gone : has u vs ≡ false =
          subst (λ x. has x vs ≡ false) (sym (eq_of_== u w here)) (has-below w vs h.0) in
        ground arith
    | inr there ↦ ground arith
  ])
  | inr other ↦ rw other (elim (Bool-cases (ltb v w)) [
    | inl before ↦ rw before (elim (Bool-cases (u == v)) [
      | inl here ↦
          let gone : has u (w ∷ vs) ≡ false =
            subst (λ x. has x (w ∷ vs) ≡ false) (sym (eq_of_== u v here))
              (has-below v (w ∷ vs) (ground arith, All-trans v w vs (ground arith) h.0)) in
          rw (here, gone) refl
      | inr there ↦ rw there refl
    ])
    | inr after ↦ rw after (ground (arith, has-toggle u v vs h.1))
  ])
]

has-normalize :
    (u : Var) (ls : List Lit) (vars : List Var) (parity : Bool)
    → IsSorted vars
    → has u (normalize ls vars parity).0 ≡ xor (odd u ls) (has u vars)
unfolding normalize
has-normalize u [] vars parity h = refl
has-normalize u (l ∷ ls) vars parity h =
    has-normalize u ls (toggle (var l) vars) _ (toggle-IsSorted (var l) vars h)
    ∙ rw (has-toggle u (var l) vars h) (ground arith)

occurs-odd : (v : Var) (ls : List Lit) → occurs v ls % 2 ≡ (if odd v ls then 1 else 0)
occurs-odd v [] = refl
occurs-odd v (l ∷ ls) = ground (arith, occurs-odd v ls)

unset-All : (vs : List Var) → All (λ cell. cell.1 ≡ none) (unset vs)
unset-All [] = tt
unset-All (v ∷ vs) = (refl, unset-All vs)

length-unset : (vs : List Var) → length vs ≡ length (unset vs)
length-unset [] = refl
length-unset (v ∷ vs) = ap suc (length-unset vs)

-- The constructor keeps the variables that occur an odd number of times, no others, in rising order
-- and without a value, all of them counted as undecided. The parity that it stores is right: the
-- exclusive or of the given literals is the given parity exactly if that of the kept variables is
-- the stored parity.
pub xor_of-meaning :
    (a : Assignment) (ls : List Lit) (parity : Bool)
    → let c = xor_of ls parity in
      ((v : Var) → In v (vars_of c.cells) ↔ (occurs v ls % 2 ≡ 1))
      × IsSorted (vars_of c.cells)
      × All (λ cell. cell.1 ≡ none) c.cells
      × (c.n_undecided ≡ length c.cells)
      × ((xor_lits a ls ≡ parity) ↔ (xor_vars a (vars_of c.cells) ≡ c.parity))
unfolding xor_of
xor_of-meaning a ls parity =
    let same = normalize_lem a ls [] parity in
    let vs = (normalize ls [] parity).0 in
    let kept = λ (v : Var). has-normalize v ls [] parity tt in
    (
      rw (vars_of-unset vs) (λ v. (
        λ m. ground (arith, kept v, occurs-odd v ls, In-has v vs m),
        λ e. has-In v vs (ground (arith, kept v, occurs-odd v ls)),
      )),
      rw (vars_of-unset vs) (normalize-IsSorted ls [] parity tt),
      unset-All vs,
      length-unset vs,
      rw (vars_of-unset vs) (λ e. ground arith, λ e. ground arith),
    )
