-- ===== src/Constraint/Supports/Undo.antt =====
-- `undo` takes back what `propagate` did to the constraint.
use glucose.Prelude.{
  ℕ, zero, suc, ◌≡◌, refl, ap, ◌∙◌, inl, inr, true, Option, none, some, List, [], ◌∷◌, arith, ◌==◌,
  Bool-cases,
}
use glucose.Prelude.Lists.{get_or, set}
use glucose.Lit.{Lit}
use glucose.Solver.{Solver, ConstraintRef}
use glucose.Constraint.Linear.{Entry, from_lit, pop}
use glucose.Constraint.Supports.{
  Supports, Tuple, learn, learn_all, start, propagate, unwind, undo, unknown, same_value,
}

set-none :
    (xs : Tuple) (i : ℕ) (v : Option ℕ)
    → unknown (get_or xs i none) ≡ true
    → set (set xs i v) i none ≡ xs
set-none [] i v h = refl
set-none (none ∷ xs) zero v h = refl
set-none (some x ∷ xs) zero v h = absurd (ground arith)
set-none (x ∷ xs) (suc i) v h = ap (◌∷◌ x) (set-none xs i v h)

restored :
    (c : Supports) (known : Tuple) → known ≡ c.known_values → record c { known_values = known } ≡ c
restored c known e = rw e refl

unwind-learn :
    (c : Supports) (i j : ℕ)
    → unknown (get_or c.known_values i none) ≡ true
    → unwind (learn c i j).undo_list (learn c i j) ≡ unwind c.undo_list c
unfolding learn unwind
unwind-learn c i j h = ap (unwind c.undo_list) (restored c _ (set-none c.known_values i (some j) h))

unwind-learn_all :
    (p : Lit) (es : List Entry) (c : Supports)
    → unwind (learn_all p es c).0.undo_list (learn_all p es c).0 ≡ unwind c.undo_list c
unfolding learn_all
unwind-learn_all p [] c = refl
unwind-learn_all p ((l, i, j) ∷ es) c = elim (Bool-cases (l == p)) [
  | inr other ↦ rw (learn_all, other) refl
  | inl same ↦ elim (Bool-cases (unknown (get_or c.known_values i none))) [
    | inl new ↦
        rw (learn_all, same, new) (unwind-learn_all p es (learn c i j) ∙ unwind-learn c i j new)
    | inr old ↦ elim (Bool-cases (same_value (get_or c.known_values i none) j)) [
      | inl agrees ↦ rw (learn_all, same, old, agrees) (unwind-learn_all p es c)
      | inr differs ↦ rw (learn_all, same, old, differs) refl
    ]
  ]
]

-- The state that `propagate` leaves is that of its first loop.
learned : Supports → Lit → Supports
learned c p = (learn_all p (from_lit p c.lits) (start c p)).0

propagate_state :
    (s : Solver) (self : ConstraintRef) (c : Supports) (p : Lit)
    → (propagate s self c p).1 ≡ learned c p
unfolding propagate learned
propagate_state s self c p = elim (Bool-cases (learn_all p (from_lit p c.lits) (start c p)).1) [
  | inl ok ↦ rw ok refl
  | inr stopped ↦ rw stopped refl
]

undo-learned : (c : Supports) (p : Lit) → undo (learned c p) ≡ c
unfolding undo learned start
undo-learned c p =
    ap {A = Supports} (λ e. record e { active_lits = pop e.active_lits })
      (unwind-learn_all p (from_lit p c.lits) (start c p))

-- `undo` after `propagate`, whether this returned true or false, at whichever of its returns, brings
-- back the state of the constraint.
pub supports_undo-propagate :
    (s : Solver) (self : ConstraintRef) (c : Supports) (p : Lit) → undo (propagate s self c p).1 ≡ c
supports_undo-propagate s self c p = ap undo (propagate_state s self c p) ∙ undo-learned c p
