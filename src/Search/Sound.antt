-- ===== src/Search/Sound.antt =====
-- `propagate` under an assignment that meets the clauses and the constraints.
use glucose.Prelude.{
  ℕ, ◌≡◌, refl, sym, subst, ◌∙◌, inl, inr, Bool, true, Option, List, arith, ◌==◌, eq_of_==,
  Bool-cases, update,
}
use glucose.Prelude.Lists.{All}
use glucose.Lit.{Lit}
use glucose.Lit.Truth.{Assignment, holds}
use glucose.Lbool.{l_true}
use glucose.Solver.{Solver, ConstraintRef, value}
use glucose.Solver.Agree.{value-Keeps, value-Agrees}
use glucose.Search.{
  Watcher, Search, Conflict, no_conflict, visit_binaries, visit_watchers, visit_constraints,
  propagate_fact,
}
use glucose.Search.Times.{IsUnique}
use glucose.Search.Fine.{Fine}
use glucose.Search.Guards.{IsList, crefs}
use glucose.Search.Watchers.{Visited, Ready, visit_watchers-Visited}
use glucose.Search.Binaries.{Implied, Advanced, visit_binaries-Advanced}
use glucose.Search.Laws.{ConstraintLaws}
use glucose.Search.Visits.{visit_constraints-Asked}

-- The solver's values agree with the assignment; each watched clause is true in it, watches the
-- literal in whose list it is, and is there once; a binary clause is an implication that is true in
-- it; and the constraints' states are right.
pub record Sane {X : Type 0} (a : Assignment) (n : ℕ) (Holds : Solver → X → Type 0) (S : Search X)
    : Type 0 where
  pub fine : Fine a n S.solver
  pub lists : (q : Lit) → IsList a n S.ca q (S.watches q)
  pub bins : (q : Lit) → holds a q ≡ true → All (Implied a n) (S.watches_bin q)
  pub are_held : Holds S.solver S.constraints

true-holds :
    (a : Assignment) (n : ℕ) (s : Solver) (p : Lit)
    → Fine a n s
    → value s p ≡ l_true
    → holds a p ≡ true
true-holds a n s p f e = ground (arith, value-Agrees a s p f.agrees)

lists-Visited :
    {X : Type 0} (a : Assignment) (n : ℕ) (S : Search X) (p : Lit) (ws : List Watcher)
    (r : Search X × List Watcher × Option ℕ)
    → IsUnique (crefs ws)
    → Visited a n S p ws r
    → (q : Lit) → IsList a n r.0.ca q (update r.0.watches p r.1 q)
lists-Visited a n S p ws r u v q = elim (Bool-cases (p == q)) [
  | inl same ↦ rw same (
      subst (λ q. IsList a n r.0.ca q r.1) (eq_of_== p q same)
        (v.mine, λ x. omega (arith, v.fewer x, u x)))
  | inr other ↦ rw other (v.others q (λ e. absurd (ground arith)))
]

module _ {X : Type 0} (a : Assignment) (n : ℕ)
    (constr_propagate : ConstraintRef → Solver → X → Lit → Solver × X × Bool)
    (laws : ConstraintLaws a n constr_propagate) where
  -- What a round leaves.
  pub record Round (S : Search X) (r : Search X × Conflict) : Type 0 where
    pub none_found : r.1 ≡ no_conflict
    pub sane : Sane a n laws.Holds r.0
    pub same_qhead : r.0.solver.qhead ≡ S.solver.qhead

  ready :
      (S : Search X) (p : Lit) (B : Search X × Option ℕ)
      → Sane a n laws.Holds S
      → value S.solver p ≡ l_true
      → Advanced a n S B
      → Ready a n p B.0 (B.0.watches p)
  ready S p B sane e v = record {
    fine = v.fine;
    p_true = value-Keeps S.solver B.0.solver p v.keeps e;
    others = λ q ne. rw (v.same_ca, v.same_watches) (sane.lists q);
    mine = rw (v.same_ca, v.same_watches) (sane.lists p).0;
    unique = rw v.same_watches (sane.lists p).1;
  }

  pub propagate_fact-Round :
      (p : Lit) (S : Search X)
      → Sane a n laws.Holds S
      → value S.solver p ≡ l_true
      → Round S (propagate_fact constr_propagate p S)
  unfolding propagate_fact
  propagate_fact-Round p S sane e =
      let b =
        visit_binaries-Advanced a n (S.watches_bin p) S
          (sane.bins p (true-holds a n S.solver p sane.fine e)) sane.fine in
      let B = visit_binaries (S.watches_bin p) S in
      let go = ready S p B sane e b in
      let v = visit_watchers-Visited a n p (B.0.watches p) B.0 go in
      let W = visit_watchers p (B.0.watches p) B.0 in
      let V : Search X = record W.0 { watches = update W.0.watches p W.1 } in
      let keeps = value-Keeps B.0.solver W.0.solver p v.keeps go.p_true in
      let held = laws.stable B.0.solver W.0.solver V.constraints v.keeps (
        laws.stable S.solver B.0.solver V.constraints b.keeps
          (rw (v.same_constraints, b.same_constraints) sane.are_held)) in
      let c =
        visit_constraints-Asked a n constr_propagate laws p (V.solver.constr_watches p) V keeps
          v.fine held in
      let C = visit_constraints constr_propagate p (V.solver.constr_watches p) V in
      let step : propagate_fact constr_propagate p S ≡ (C.0, no_conflict) =
        rw (propagate_fact, b.none_failing, v.done, c.none_failing) refl in
      subst (Round S) (sym step) (record {
        none_found = refl;
        sane = record {
          fine = c.fine;
          lists = λ q.
              rw (c.same_ca, c.same_watches)
                (lists-Visited a n B.0 p (B.0.watches p) W go.unique v q);
          bins = λ q h. rw (c.same_bin, v.same_bin, b.same_bin) (sane.bins q h);
          are_held = c.are_held;
        };
        same_qhead = c.same_qhead ∙ v.same_qhead ∙ b.same_qhead;
      })
