-- ===== src/Tests/Propagate.antt =====
-- `propagate`, on three clauses and the linear constraint of Tests/Linear.
use glucose.Prelude.{
  ◌<◌, ◌≡◌, refl, inl, inr, Bool, true, Option, none, some, [], ◌∷◌, arith, ◌==◌, if◌then◌else◌,
  eq_of_==, Bool-cases,
}
use glucose.Prelude.Lists.{All, In}
use glucose.Prelude.Int.{◌-ℤ◌}
use glucose.Lit.{Lit, neg, var, sign}
use glucose.Lit.Truth.{holds, satisfies}
use glucose.Lbool.{Lbool, l_true}
use glucose.Solver.{
  Solver, ConstraintRef, value, register_undo, enqueue, assign, add_each,
  add_num_pending_propagation,
}
use glucose.Constraint.Linear
use glucose.Constraint.Linear.{Linear}
use glucose.Constraint.Linear.Laws.{
  linear_constraint_laws, linear_frame_laws, Sound, Sound-Holds, SmallTerms-Inside,
}
use glucose.Search.{Search, propagate, Conflict}
use glucose.Search.Fine.{Fine}
use glucose.Search.Guards.{IsList}
use glucose.Search.Sound.{Sane}
use glucose.Search.Left.{Bounded}
use glucose.Search.Guards.{IsClause}
use glucose.Search.Attach.{attach_clause, detach_clause}
use glucose.Search.Attach.Listed.{IsWatched}
use glucose.Search.Attach.Attached.{
  IsNew, SameLists, attach_clause-Sane, detach_clause-attach_clause,
}
use glucose.Search.Complete.{Quiet, propagate-Quiet}
use glucose.Search.Halts.{Halted, propagate-Halted}
use glucose.Tests.Constraints.{one_set}
use glucose.Tests.Linear.{
  difference, all_true, all_true-Agrees, difference-IsLinear, difference-Tracks, difference-Meets,
}

abbrev asked : ConstraintRef → Solver → Linear → Lit → Solver × Linear × Bool
asked c s x p = Linear.propagate s c x p

-- Clause 0 has three literals, and clause 1 is binary; the literal 0 is in the queue.
abbrev before : Search Linear
before = record {
  solver = record one_set { qhead = 0; constr_watches = λ p. if p == 0 then 7 ∷ [] else [] };
  ca = λ cr. if cr == 0 then 1 ∷ 2 ∷ 4 ∷ [] else 1 ∷ 2 ∷ [];
  watches = λ p.
      if p == 0
      then record { cref = 0; blocker = 4 } ∷ []
      else if p == 3
      then record { cref = 0; blocker = 1 } ∷ []
      else [];
  watches_bin = λ p. if p == 0 then record { cref = 1; blocker = 2 } ∷ [] else [];
  constraints = difference;
}

abbrev value_after : Lit → Option (Search Linear × Conflict) → Option Lbool
value_after p none = none
value_after p (some (T, r)) = some (value T.solver p)

-- The linear constraint makes variable 2 true, which no clause does.
runs : value_after 4 (propagate asked 4 before) ≡ some l_true
unfolding propagate Linear.propagate enqueue assign add_num_pending_propagation add_each
    register_undo var sign neg ◌-ℤ◌ Linear.tighten
runs = refl

before-Fine : Fine all_true 3 before.solver
unfolding var sign
before-Fine = record { agrees = all_true-Agrees; on_trail = (refl, tt); room = omega arith }

small_vars : (l : Lit) → In l (1 ∷ 2 ∷ 4 ∷ []) → var l < 3
unfolding var
small_vars l (inl e) = ground arith
small_vars l (inr (inl e)) = ground arith
small_vars l (inr (inr (inl e))) = ground arith
small_vars l (inr (inr (inr m))) = absurd m

lists_fine : (q : Lit) → IsList all_true 3 before.ca q (before.watches q)
unfolding holds satisfies neg var sign
lists_fine q = elim (Bool-cases (q == 0)) [
  | inl here ↦
      rw (eq_of_== q 0 here)
        ((((refl, (λ x. ground arith), small_vars), inl refl), tt), λ x. ground arith)
  | inr other ↦ elim (Bool-cases (q == 3)) [
    | inl here ↦
        rw (eq_of_== q 3 here)
          ((((refl, (λ x. ground arith), small_vars), inr refl), tt), λ x. ground arith)
    | inr neither ↦ rw (other, neither) (tt, λ x. omega arith)
  ]
]

bins_fine :
    (q : Lit)
    → holds all_true q ≡ true
    → All (λ w. (holds all_true w.blocker ≡ true) × (var w.blocker < 3)) (before.watches_bin q)
unfolding holds var sign
bins_fine q h = elim (Bool-cases (q == 0)) [
  | inl here ↦ rw here ((refl, omega arith), tt)
  | inr other ↦ rw other tt
]

difference-Sound : Sound all_true 3 before.solver difference
unfolding var
difference-Sound = record {
  is_linear = difference-IsLinear;
  tracks = record { closed = difference-Tracks.closed; total = difference-Tracks.total };
  meets = difference-Meets;
  small = ((omega arith, (omega arith, tt)), ((omega arith, tt), tt));
}

before-Sane : Sane all_true 3 (linear_constraint_laws all_true 3 (omega arith)).Holds before
before-Sane = record {
  fine = before-Fine;
  lists = lists_fine;
  bins = bins_fine;
  are_held = Sound-Holds all_true 3 (omega arith) before.solver difference difference-Sound;
}

propagate-Quiet_example :
    Quiet all_true 3
      (linear_constraint_laws all_true 3 (omega arith)).Holds
      (propagate asked 4 before)
propagate-Quiet_example =
    propagate-Quiet all_true 3 asked (linear_constraint_laws all_true 3 (omega arith)) 4 before
      (omega arith) before-Sane

before-Bounded : Bounded 3 (linear_frame_laws 3 (omega arith)).Inside before
unfolding var
before-Bounded = record {
  fits = (omega arith, (omega arith, tt));
  inside =
      SmallTerms-Inside 3 (omega arith) difference
        ((omega arith, (omega arith, tt)), ((omega arith, tt), tt));
  clauses = λ cr. elim (Bool-cases (cr == 0)) [
    | inl here ↦ rw here (omega arith, (omega arith, (omega arith, tt)))
    | inr other ↦ rw other (omega arith, (omega arith, tt))
  ];
  bins = λ q. elim (Bool-cases (q == 0)) [
    | inl here ↦ rw here (omega arith, tt)
    | inr other ↦ rw other tt
  ];
}

propagate-Halted_example : Halted (propagate asked 4 before)
propagate-Halted_example =
    propagate-Halted 3 asked (linear_frame_laws 3 (omega arith)) 4 before (omega arith)
      before-Bounded

-- Clause 2 is attached, and makes no difference to what holds.
abbrev with_third : Search Linear
with_third = record before {
  ca = λ cr. if cr == 0 then 1 ∷ 2 ∷ 4 ∷ [] else if cr == 2 then 2 ∷ 4 ∷ 1 ∷ [] else 1 ∷ 2 ∷ [];
}

with_third-Sane : Sane all_true 3 (linear_constraint_laws all_true 3 (omega arith)).Holds with_third
unfolding holds neg var sign
with_third-Sane = record {
  fine = before-Fine;
  lists = λ q. elim (Bool-cases (q == 0)) [
    | inl here ↦
        rw (eq_of_== q 0 here)
          ((((refl, (λ x. ground arith), small_vars), inl refl), tt), λ x. ground arith)
    | inr other ↦ elim (Bool-cases (q == 3)) [
      | inl here ↦
          rw (eq_of_== q 3 here)
            ((((refl, (λ x. ground arith), small_vars), inr refl), tt), λ x. ground arith)
      | inr neither ↦ rw (other, neither) (tt, λ x. omega arith)
    ]
  ];
  bins = bins_fine;
  are_held = Sound-Holds all_true 3 (omega arith) with_third.solver difference difference-Sound;
}

third-IsNew : (q : Lit) → IsNew 2 (with_third.watches q)
third-IsNew q = elim (Bool-cases (q == 0)) [
  | inl here ↦ rw here refl
  | inr other ↦ elim (Bool-cases (q == 3)) [
    | inl here ↦ rw (other, here) refl
    | inr neither ↦ rw (other, neither) refl
  ]
]

third_vars : (l : Lit) → In l (2 ∷ 4 ∷ 1 ∷ []) → var l < 3
unfolding var
third_vars l (inl e) = ground arith
third_vars l (inr (inl e)) = ground arith
third_vars l (inr (inr (inl e))) = ground arith
third_vars l (inr (inr (inr m))) = absurd m

third-IsClause : IsClause all_true 3 (with_third.ca 2)
unfolding holds var sign
third-IsClause = (refl, (λ x. ground arith), third_vars)

attach_clause-Sane_example :
    Sane all_true 3
      (linear_constraint_laws all_true 3 (omega arith)).Holds
      (attach_clause 2 with_third)
    × IsWatched 2 (2 ∷ 4 ∷ 1 ∷ []) with_third (attach_clause 2 with_third)
attach_clause-Sane_example =
    attach_clause-Sane all_true 3 (linear_constraint_laws all_true 3 (omega arith)).Holds with_third
      2 third-IsClause (omega arith) third-IsNew with_third-Sane

third-IsNew_bin : (q : Lit) → IsNew 2 (with_third.watches_bin q)
third-IsNew_bin q = elim (Bool-cases (q == 0)) [
  | inl here ↦ rw here refl
  | inr other ↦ rw other refl
]

detach_clause-attach_clause_example :
    SameLists with_third (detach_clause 2 (attach_clause 2 with_third))
detach_clause-attach_clause_example =
    detach_clause-attach_clause with_third 2 third-IsClause.1 third-IsNew third-IsNew_bin
