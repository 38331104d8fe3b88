-- ===== src/Search/Complete.antt =====
-- `propagate`: enough fuel, and the loop under an assignment that meets the clauses.
use glucose.Prelude.{
  ℕ, zero, suc, ◌+◌, ◌-◌, ◌≤◌, ◌<◌, ◌≡◌, refl, sym, subst, inl, inr, Bool, Option, none, some,
  arith, ltb, Bool-cases,
}
use glucose.Prelude.Lists.{length, All-get_or}
use glucose.Lit.{Lit}
use glucose.Lit.Truth.{Assignment}
use glucose.Lbool.{l_true}
use glucose.Solver.{Solver, ConstraintRef, value}
use glucose.Search.{
  Search, Conflict, no_conflict, propagate, propagate_fact, next_fact, with_solver,
}
use glucose.Search.Fine.{Fine}
use glucose.Search.Laws.{ConstraintLaws}
use glucose.Search.Sound.{Sane, propagate_fact-Round}

fact_true :
    (a : Assignment) (n : ℕ) (s : Solver)
    → Fine a n s
    → s.qhead < length s.trail
    → value s (next_fact s) ≡ l_true
fact_true a n s f lt =
    All-get_or (λ p. value s p ≡ l_true) s.trail (length s.trail - 1 - s.qhead) 0 f.on_trail
      (omega arith)

-- The state and the conflict of a run that has returned.
abbrev pub Quiet :
    {X : Type 0} → Assignment → ℕ → (Solver → X → Type 0) → Option (Search X × Conflict) → Type 0
Quiet a n Holds none = ⊥
Quiet a n Holds (some (T, r)) =
    (r ≡ no_conflict) × Sane a n Holds T × (length T.solver.trail ≤ T.solver.qhead)

-- Let an assignment agree with the values that are set, make every watched clause and every binary
-- clause true, and meet the constraints. Then `propagate` returns within as many rounds as there are
-- variables and one more, it reports no conflict, it sets no value against the assignment, each
-- clause is still watched where its watchers are, and no literal is left in the queue.
pub propagate-Quiet :
    {X : Type 0} (a : Assignment) (n : ℕ)
    (constr_propagate : ConstraintRef → Solver → X → Lit → Solver × X × Bool)
    (laws : ConstraintLaws a n constr_propagate) (fuel : ℕ) (S : Search X)
    → n - S.solver.qhead < fuel
    → Sane a n laws.Holds S
    → Quiet a n laws.Holds (propagate constr_propagate fuel S)
unfolding propagate
propagate-Quiet a n cp laws zero S h sane = absurd (omega arith)
propagate-Quiet a n cp laws (suc fuel) S h sane =
    elim (Bool-cases (ltb S.solver.qhead (length S.solver.trail))) [
      | inr empty ↦ rw (propagate, empty) (refl, sane, ground arith)
      | inl more ↦
          let lt : S.solver.qhead < length S.solver.trail = ground arith in
          let T = with_solver S (record S.solver { qhead = S.solver.qhead + 1 }) in
          let p = next_fact S.solver in
          let sane' : Sane a n laws.Holds T = record {
            fine = record {
              agrees = sane.fine.agrees;
              on_trail = sane.fine.on_trail;
              room = sane.fine.room;
            };
            lists = sane.lists;
            bins = sane.bins;
            are_held = laws.stable S.solver T.solver S.constraints (λ v b k. k) sane.are_held;
          } in
          let r =
            propagate_fact-Round a n cp laws p T sane' (fact_true a n S.solver sane.fine lt) in
          let next = (propagate_fact cp p T).0 in
          let rest =
            propagate-Quiet a n cp laws fuel next
              (omega (arith, r.same_qhead, sane.fine.room, lt, h)) r.sane in
          let step : propagate cp (suc fuel) S ≡ propagate cp fuel next =
            rw (propagate, more, r.none_found) refl in
          subst (Quiet a n laws.Holds) (sym step) rest
    ]
