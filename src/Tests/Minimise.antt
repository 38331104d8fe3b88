-- ===== src/Tests/Minimise.antt =====
-- The removal of literals from a learnt clause.
use glucose.Prelude.{
  ◌≡◌, refl, ap, inl, inr, Bool, true, List, [], ◌∷◌, arith, ltb, ◌==◌, if◌then◌else◌,
}
use glucose.Prelude.Lists.{All, In}
use glucose.Lit.{Lit, Var, neg, var, sign}
use glucose.Lit.Truth.{Assignment, holds, satisfies}
use glucose.Lbool.{l_true, l_undef}
use glucose.Solver.{Solver, CRef, no_reason, by_clause}
use glucose.Analyze.{true_first}
use glucose.Analyze.Final.{looked_at}
use glucose.Analyze.Marks.{IsRoot, IsLower}
use glucose.Analyze.Trail.{IsTrail}
use glucose.Analyze.Minimise.{any_open, is_kept, keep_needed, minimise, AreMarks, minimise-IsLower}
use glucose.Analyze.Redundant.{visit, empty_stack, lit_redundant, keep_irredundant, abstract_levels}
use glucose.Analyze.Redundant.Sound.{IsSmaller, keep_irredundant-IsSmaller}
use glucose.Prelude.{some}
use glucose.Tests.Constraints.{one_set}

-- Variables 0 and 2 are decisions, and 1 follows from clause 0 at the level of variable 0.
abbrev pub implied : Solver
implied = record one_set {
  assigns = λ v. if ltb v 3 then l_true else l_undef;
  reason = λ v. if v == 1 then by_clause 0 else no_reason;
  level = λ v. if v == 2 then 2 else 1;
  trail = 4 ∷ 2 ∷ 0 ∷ [];
  trail_lim = 2 ∷ 0 ∷ [];
}

abbrev pub one_clause : CRef → List Lit
one_clause cr = 2 ∷ 1 ∷ []

abbrev pub of_learnt : Var → Bool
of_learnt v = ltb v 2

-- Variable 1 follows from variable 0, and its literal is removed.
removed : minimise implied one_clause of_learnt (5 ∷ 3 ∷ 1 ∷ []) ≡ 5 ∷ 1 ∷ []
unfolding minimise keep_needed is_kept any_open looked_at var
removed = refl

abbrev pub but_third : Assignment
but_third v = ltb v 2

pub implied-IsRoot : IsRoot but_third implied
implied-IsRoot q h e = absurd (ground arith)

pub implied-IsTrail : IsTrail but_third implied one_clause implied.trail
unfolding var sign neg holds true_first
implied-IsTrail = (
  (omega arith, (omega arith, tt)),
  refl,
  omega arith,
  (omega arith, (omega arith, tt)),
  (refl, (refl, tt)),
  (
    (1 ∷ [], refl, ((refl, inl refl), tt), refl),
    refl,
    omega arith,
    (omega arith, tt),
    (refl, tt),
    (tt, refl, omega arith, tt, tt, tt),
  ),
)

pub implied-AreMarks : AreMarks implied of_learnt (3 ∷ 1 ∷ [])
unfolding neg var
implied-AreMarks = (((refl, inr (inl refl)), ((refl, inr (inr (inl refl))), tt)), given)
  where
    given : (l : Lit) → In l (4 ∷ 2 ∷ 0 ∷ []) → of_learnt (var l) ≡ true → In (neg l) (3 ∷ 1 ∷ [])
    given l (inl e) h = absurd (ground (arith, ap of_learnt (ap var e)))
    given l (inr (inl e)) h = inl (ap neg e)
    given l (inr (inr (inl e))) h = inr (inl (ap neg e))
    given l (inr (inr (inr m))) h = absurd m

pub implied-IsLower : All (IsLower implied) (3 ∷ 1 ∷ [])
unfolding var sign
implied-IsLower = ((omega arith, omega arith, refl), ((omega arith, omega arith, refl), tt))

pub five_holds : satisfies but_third (5 ∷ 3 ∷ 1 ∷ []) ≡ true
unfolding holds var sign
five_holds = refl

minimise-IsLower_example :
    (satisfies but_third (minimise implied one_clause of_learnt (5 ∷ 3 ∷ 1 ∷ [])) ≡ true)
    × ((rest : List Lit) × (minimise implied one_clause of_learnt (5 ∷ 3 ∷ 1 ∷ []) ≡ 5 ∷ rest)
        × All (IsLower implied) rest)
minimise-IsLower_example =
    minimise-IsLower but_third implied one_clause of_learnt 5 (3 ∷ 1 ∷ []) implied-IsRoot
      implied-IsTrail implied-AreMarks implied-IsLower five_holds

-- So does `litRedundant`, which finds the first reason to be of marked literals.
removed_too :
    keep_irredundant implied
      (abstract_levels implied (3 ∷ 1 ∷ []))
      9
      (3 ∷ 1 ∷ [])
      one_clause
      of_learnt
    ≡ some (1 ∷ [], of_learnt)
unfolding keep_irredundant lit_redundant empty_stack visit true_first abstract_levels var sign
removed_too = refl

keep_irredundant-IsSmaller_example : IsSmaller but_third implied 5 (3 ∷ 1 ∷ []) (
    keep_irredundant implied
      (abstract_levels implied (3 ∷ 1 ∷ []))
      9
      (3 ∷ 1 ∷ [])
      one_clause
      of_learnt)
unfolding var sign
keep_irredundant-IsSmaller_example =
    keep_irredundant-IsSmaller but_third implied one_clause 3 (abstract_levels implied (3 ∷ 1 ∷ []))
      9 of_learnt 5 (3 ∷ 1 ∷ []) (omega arith) implied-IsRoot implied-IsTrail
      (omega arith, (omega arith, (omega arith, tt))) implied-AreMarks (refl, (refl, tt)) five_holds
