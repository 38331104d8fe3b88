-- ===== src/Tests/Elimination.antt =====
-- simp/SimpSolver.cc.
use glucose.Prelude.{◌≡◌, refl, inl, true, false, ◌||◌, none, some, List, [], ◌∷◌, arith, ◌==◌}
use mathlib.Core.Option.{map as map_option}
use glucose.Prelude.Lists.{length}
use glucose.Lit.{Lit, mk_lit, neg, var, sign}
use glucose.Lit.Truth.{Assignment, holds, satisfies}
use glucose.Lit.Laws.{neg_value}
use glucose.Simp.Subsume.{subsumption, resolves}
use glucose.Simp.Subsume.Sound.{IsConsistent, Implies, subsumption-Implies}
use glucose.Simp.Merge.{merge, merge_size, without}
use glucose.Simp.Merge.Sound.{merge_resolves}
use glucose.Simp.Merge.Size.{Avoids, IsProper, merge_size-merge}
use glucose.Simp.Merge.Proper.{merge-IsProper}
use glucose.Simp.Stack.{extend_model}
use glucose.Simp.Stack.Extend.{words, repair_all, full, extend_model-repairs}
use glucose.Simp.Eliminate.{Simp, Clause, eliminate_vars}
use glucose.Simp.Eliminate.Correct.{Models}
use glucose.Simp.Eliminate.Extended.{extend_model-eliminate_vars}

-- x0 ∨ x1 and ¬x0 ∨ x2, as codes.
abbrev left_clause : Clause
left_clause = 0 ∷ 2 ∷ []

abbrev right_clause : Clause
right_clause = 1 ∷ 4 ∷ []

merged : merge left_clause right_clause 0 ≡ some (4 ∷ 2 ∷ [])
unfolding merge var neg
merged = refl

abbrev before : Simp
before = record {
  clauses = left_clause ∷ right_clause ∷ [];
  elimclauses = [];
  eliminated = λ v. false;
  grow = 0;
  clause_lim = some 20;
}

-- x1 is true, and x2 is not.
abbrev half : Assignment
half v = v == 1

left-IsProper : IsProper left_clause
unfolding var
left-IsProper = omega arith

right-IsProper : IsProper right_clause
unfolding var
right-IsProper = omega arith

eliminated_words : (eliminate_vars before (0 ∷ [])).elimclauses ≡ 1 ∷ 1 ∷ 2 ∷ 2 ∷ 0 ∷ []
unfolding eliminate_vars var neg mk_lit
eliminated_words = refl

before-Models : Models half (eliminate_vars before (0 ∷ [])).clauses
unfolding eliminate_vars var neg mk_lit holds sign
before-Models = (refl, tt)

merge_resolves_example :
    let either =
      satisfies half (without 0 left_clause) || satisfies half (without 0 right_clause) in
    (merge left_clause right_clause 0 ≡ none → either ≡ true)
    × ((out : List Lit) → merge left_clause right_clause 0 ≡ some out → satisfies half out ≡ either)
merge_resolves_example = merge_resolves left_clause right_clause 0 half

merge_size-merge_example :
    merge_size left_clause right_clause 0 ≡ map_option length (merge left_clause right_clause 0)
unfolding var
merge_size-merge_example =
    merge_size-merge left_clause right_clause 0 0 1 left-IsProper right-IsProper (inl refl)
      (inl refl) refl refl

merge-IsProper_example : IsProper (4 ∷ 2 ∷ []) × Avoids 0 (4 ∷ 2 ∷ [])
merge-IsProper_example =
    merge-IsProper left_clause right_clause 0 (4 ∷ 2 ∷ []) left-IsProper right-IsProper merged

extend_model-repairs_example :
    extend_model (full half) (words ((1, []) ∷ (0, 2 ∷ []) ∷ []))
    ≡ full (repair_all half ((1, []) ∷ (0, 2 ∷ []) ∷ []))
extend_model-repairs_example = extend_model-repairs half ((1, []) ∷ (0, 2 ∷ []) ∷ [])

extend_model-eliminate_vars_example :
    (a' : Assignment) × (extend_model (full half) (eliminate_vars before (0 ∷ [])).elimclauses
      ≡ full a')
    × Models a' before.clauses
unfolding var
extend_model-eliminate_vars_example =
    extend_model-eliminate_vars before (0 ∷ []) half refl (omega arith) before-Models

-- The first clause without 3 is in the second, which has the negation of 3.
resolved : subsumption 0 0 (3 ∷ 4 ∷ []) (4 ∷ 2 ∷ 6 ∷ []) ≡ resolves 3
unfolding subsumption neg
resolved = refl

three_four-IsConsistent : IsConsistent (3 ∷ 4 ∷ [])
unfolding neg
three_four-IsConsistent p i j = omega (arith, i, j, neg_value p)

subsumption-Implies_example :
    Implies
      (λ v. true)
      (3 ∷ 4 ∷ [])
      (4 ∷ 2 ∷ 6 ∷ [])
      (subsumption 0 0 (3 ∷ 4 ∷ []) (4 ∷ 2 ∷ 6 ∷ []))
subsumption-Implies_example =
    subsumption-Implies (λ v. true) 0 0 (3 ∷ 4 ∷ []) (4 ∷ 2 ∷ 6 ∷ []) three_four-IsConsistent
