-- ===== src/Search/Laws.antt =====
-- core/Constraint.h: what the solver asks of the virtual function `propagate`.
use glucose.Prelude.{ℕ, ◌≡◌, Bool, true}
use glucose.Lit.{Lit}
use glucose.Lit.Truth.{Assignment}
use glucose.Lbool.{l_true}
use glucose.Solver.{Solver, ConstraintRef, value}
use glucose.Solver.Agree.{Keeps}
use glucose.Search.Fine.{Fine}

-- For an assignment of the first `n` variables that meets the constraints: `Holds` is what the
-- constraints' states are to the solver's values, which values set later do not break, and for a
-- true literal a constraint reports no conflict, sets variables that have no value in accordance
-- with the assignment, and leaves the head of the queue where it is.
pub record ConstraintLaws {X : Type 0} (a : Assignment) (n : ℕ)
    (constr_propagate : ConstraintRef → Solver → X → Lit → Solver × X × Bool) : Type 1 where
  pub Holds : Solver → X → Type 0
  pub stable : (s t : Solver) (x : X) → Keeps s t → Holds s x → Holds t x
  pub done :
      (c : ConstraintRef) (s : Solver) (x : X) (p : Lit)
      → value s p ≡ l_true
      → Fine a n s
      → Holds s x
      → (constr_propagate c s x p).2 ≡ true
  pub fine :
      (c : ConstraintRef) (s : Solver) (x : X) (p : Lit)
      → value s p ≡ l_true
      → Fine a n s
      → Holds s x
      → Fine a n (constr_propagate c s x p).0
  pub holds_after :
      (c : ConstraintRef) (s : Solver) (x : X) (p : Lit)
      → value s p ≡ l_true
      → Fine a n s
      → Holds s x
      → Holds (constr_propagate c s x p).0 (constr_propagate c s x p).1
  pub keeps :
      (c : ConstraintRef) (s : Solver) (x : X) (p : Lit)
      → value s p ≡ l_true
      → Fine a n s
      → Holds s x
      → Keeps s (constr_propagate c s x p).0
  pub same_qhead :
      (c : ConstraintRef) (s : Solver) (x : X) (p : Lit)
      → value s p ≡ l_true
      → Fine a n s
      → Holds s x
      → (constr_propagate c s x p).0.qhead ≡ s.qhead
