-- ===== src/Search/Visits.antt =====
-- The loop over the constraints that watch a literal.
use glucose.Prelude.{ℕ, ◌≡◌, refl, sym, subst, ◌∙◌, Bool, Option, none, List, [], ◌∷◌}
use glucose.Lit.{Lit}
use glucose.Lit.Truth.{Assignment}
use glucose.Lbool.{l_true}
use glucose.Solver.{Solver, ConstraintRef, value}
use glucose.Solver.Agree.{value-Keeps}
use glucose.Search.{Search, visit_constraints, add_pending}
use glucose.Search.Fine.{Fine}
use glucose.Search.Laws.{ConstraintLaws}
use glucose.Prelude.Int.{negsuc}

pub record Asked {X : Type 0} (a : Assignment) (n : ℕ) (Holds : Solver → X → Type 0) (S : Search X)
    (r : Search X × Option ConstraintRef) : Type 0 where
  pub none_failing : r.1 ≡ none
  pub fine : Fine a n r.0.solver
  pub are_held : Holds r.0.solver r.0.constraints
  pub same_qhead : r.0.solver.qhead ≡ S.solver.qhead
  pub same_ca : r.0.ca ≡ S.ca
  pub same_watches : r.0.watches ≡ S.watches
  pub same_bin : r.0.watches_bin ≡ S.watches_bin

module _ {X : Type 0} (a : Assignment) (n : ℕ)
    (constr_propagate : ConstraintRef → Solver → X → Lit → Solver × X × Bool)
    (laws : ConstraintLaws a n constr_propagate) where
  -- The solver that a constraint sees.
  abbrev asked : Search X → ConstraintRef → Solver
  asked S c = add_pending (record S.solver { enqueue_failure = none }) c (negsuc 0)

  pub visit_constraints-Asked :
      (p : Lit) (cs : List ConstraintRef) (S : Search X)
      → value S.solver p ≡ l_true
      → Fine a n S.solver
      → laws.Holds S.solver S.constraints
      → Asked a n laws.Holds S (visit_constraints constr_propagate p cs S)
  unfolding visit_constraints
  visit_constraints-Asked p [] S e f h = record {
    none_failing = refl;
    fine = f;
    are_held = h;
    same_qhead = refl;
    same_ca = refl;
    same_watches = refl;
    same_bin = refl;
  }
  visit_constraints-Asked p (c ∷ cs) S e f h =
      let s = asked S c in
      let f' : Fine a n s = record { agrees = f.agrees; on_trail = f.on_trail; room = f.room } in
      let h' = laws.stable S.solver s S.constraints (λ v b k. k) h in
      let r = constr_propagate c s S.constraints p in
      let T : Search X = record S { solver = r.0; constraints = r.1 } in
      let keeps = laws.keeps c s S.constraints p e f' h' in
      let rest =
        visit_constraints-Asked p cs T (value-Keeps s r.0 p keeps e)
          (laws.fine c s S.constraints p e f' h') (laws.holds_after c s S.constraints p e f' h') in
      let step : visit_constraints constr_propagate p (c ∷ cs) S
          ≡ visit_constraints constr_propagate p cs T =
        rw (visit_constraints, laws.done c s S.constraints p e f' h') refl in
      subst (Asked a n laws.Holds S) (sym step) (record {
        none_failing = rest.none_failing;
        fine = rest.fine;
        are_held = rest.are_held;
        same_qhead = rest.same_qhead ∙ laws.same_qhead c s S.constraints p e f' h';
        same_ca = rest.same_ca;
        same_watches = rest.same_watches;
        same_bin = rest.same_bin;
      })
