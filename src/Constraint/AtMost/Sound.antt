-- ===== src/Constraint/AtMost/Sound.antt =====
-- Propagation keeps every model of the constraint, and leaves no literal open once the threshold is
-- reached.
use mathlib.Core.Path.{subst}
use glucose.Prelude.{
  ◌+◌, ◌≤◌, ◌≡◌, refl, sym, ap, ◌∙◌, ◌≢◌, inl, inr, Bool, true, false, arith, ltb, ◌==◌, eq_of_==,
  Bool-cases, update,
}
use glucose.Prelude.Lists.{In, All, In-All}
use glucose.Lit.{Lit, Var, var}
use glucose.Lit.Truth.{Assignment, holds}
use glucose.Lbool.{l_true, l_undef}
use glucose.Solver.{Solver, ConstraintRef, value, register_undo}
use glucose.Solver.Agree.{Agrees, Keeps, value-Agrees, value-Keeps}
use glucose.Constraint.Count.{count, IsDistinct, Below, count_mono, count_tight, count-update}
use glucose.Constraint.AtMost.{AtMost, enqueue_undef, react, propagate}
use glucose.Constraint.AtMost.Loop.{
  OpenFalse, enqueue_undef-Agrees, enqueue_undef-Keeps, enqueue_undef-decides,
}

-- The constraint, under an assignment of all variables.
abbrev pub Meets : Assignment → AtMost → Type 0
Meets a c = count (holds a) c.lits ≤ c.threshold

-- `counted` tells which literals `propagate` has been called for and `undo` not since.
pub record Counts (s : Solver) (c : AtMost) (counted : Lit → Bool) : Type 0 where
  pub total : c.n_true ≡ count counted c.lits
  pub are_true : (l : Lit) → counted l ≡ true → value s l ≡ l_true

-- The literal is one of the constraint's, is true, and has not been counted.
pub record IsNews (s : Solver) (c : AtMost) (counted : Lit → Bool) (p : Lit) : Type 0 where
  pub of_lits : In p c.lits
  pub is_true : value s p ≡ l_true
  pub is_new : counted p ≡ false

register_undo-assigns :
    (s : Solver) (v : Var) (self : ConstraintRef) → (register_undo s v self).assigns ≡ s.assigns
unfolding register_undo
register_undo-assigns s v self = refl

-- The count after the call.
abbrev pub counted_too : (Lit → Bool) → Lit → Lit → Bool
counted_too counted p = update counted p true

react-Keeps : (s : Solver) (self : ConstraintRef) (c : AtMost) → Keeps s (react s self c).0
unfolding react
react-Keeps s self c = elim (Bool-cases (ltb c.threshold c.n_true)) [
  | inl over ↦ rw over (λ v b e. e)
  | inr within ↦ rw within (elim (Bool-cases (c.n_true == c.threshold)) [
    | inl full ↦ rw full (enqueue_undef-Keeps s self c.lits)
    | inr room ↦ rw room (λ v b e. e)
  ])
]

module _ (a : Assignment) (s : Solver) (self : ConstraintRef) (c : AtMost) (counted : Lit → Bool)
    (agrees : Agrees a s) (meets : Meets a c) (counts : Counts s c counted) where
  counted-Below : Below (holds a) counted c.lits
  counted-Below l m e = ground (arith, value-Agrees a s l agrees, counts.are_true l e)

  n_true-le-threshold : c.n_true ≤ c.threshold
  n_true-le-threshold =
      omega (arith, counts.total, count_mono (holds a) counted c.lits counted-Below)

  open_false : c.n_true ≡ c.threshold → OpenFalse a s c.lits
  open_false full = In-All c.lits λ l m u.
      count_tight (holds a) counted c.lits counted-Below (omega (arith, counts.total)) l m
        (ground (arith, counts.are_true l))

  react-Agrees : Agrees a (react s self c).0 × ((react s self c).1 ≡ true)
  unfolding react
  react-Agrees =
      let over : ltb c.threshold c.n_true ≡ false = ground (arith, n_true-le-threshold) in
      rw over (elim (Bool-cases (c.n_true == c.threshold)) [
        | inl full ↦
            rw full (enqueue_undef-Agrees a s self c.lits agrees (open_false (eq_of_== _ _ full)))
        | inr room ↦ rw room (agrees, refl)
      ])

counted_too-true :
    (s : Solver) (counted : Lit → Bool) (p : Lit)
    → value s p ≡ l_true
    → ((l : Lit) → counted l ≡ true → value s l ≡ l_true)
    → (l : Lit) → counted_too counted p l ≡ true
    → value s l ≡ l_true
counted_too-true s counted p h k l e = elim (Bool-cases (p == l)) [
  | inl same ↦ subst (λ q. value s q ≡ l_true) (eq_of_== p l same) h
  | inr other ↦ k l (rw other at e)
]

react_complete :
    (s : Solver) (self : ConstraintRef) (c : AtMost)
    → (react s self c).1 ≡ true
    → (c.n_true ≤ c.threshold)
      × (c.n_true ≡ c.threshold → All (λ l. value (react s self c).0 l ≢ l_undef) c.lits)
unfolding react
react_complete s self c h = elim (Bool-cases (ltb c.threshold c.n_true)) [
  | inl over ↦ absurd (ground arith)
  | inr within ↦ (
    ground arith,
    λ full.
        let loop : react s self c ≡ enqueue_undef s self c.lits = ground arith in
        subst (λ r. All (λ l. value r.0 l ≢ l_undef) c.lits) (sym loop)
          (enqueue_undef-decides s self c.lits (sym (ap (λ r. r.1) loop) ∙ h)),
  )
]

-- Let the constraint's count be right, and `p` one of its literals that has become true. If an
-- assignment meets the constraint and agrees with the solver's values, `propagate` reports no
-- conflict, sets no value against the assignment, and its count is right again.
pub at_most_propagate-Agrees :
    (a : Assignment) (s : Solver) (self : ConstraintRef) (c : AtMost) (counted : Lit → Bool)
    (p : Lit)
    → IsDistinct c.lits
    → Counts s c counted
    → IsNews s c counted p
    → Agrees a s
    → Meets a c
    → let (t, d, done) = propagate s self c p in
      (done ≡ true) × Agrees a t × Counts t d (counted_too counted p)
unfolding propagate register_undo
at_most_propagate-Agrees a s self c counted p d counts news agrees meets =
    let c' = record c { n_true = c.n_true + 1 } in
    let s' = register_undo s (var p) self in
    let more = count-update counted p c.lits d news.of_lits news.is_new in
    let counts' : Counts s' c' (counted_too counted p) = record {
      total = omega (arith, counts.total, more);
      are_true = λ l e. counted_too-true s counted p news.is_true counts.are_true l e;
    } in
    let (keeps, done) = react-Agrees a s' self c' (counted_too counted p) agrees meets counts' in
    (
      done,
      keeps,
      record {
        total = counts'.total;
        are_true = λ l e.
            value-Keeps s' (react s' self c').0 l (react-Keeps s' self c') (counts'.are_true l e);
      },
    )

-- `propagate` returns true only if the count is within the threshold, and then no literal of the
-- constraint is left without a value once the threshold is reached.
pub at_most_propagate_complete :
    (s : Solver) (self : ConstraintRef) (c : AtMost) (p : Lit)
    → let (t, d, done) = propagate s self c p in
      done ≡ true
      → (d.n_true ≤ d.threshold) × (d.n_true ≡ d.threshold → All (λ l. value t l ≢ l_undef) d.lits)
unfolding propagate
at_most_propagate_complete s self c p h = react_complete _ self _ h
