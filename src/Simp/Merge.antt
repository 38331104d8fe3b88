-- ===== src/Simp/Merge.antt =====
-- The two functions `merge` of simp/SimpSolver.cc: the resolvent of two clauses, and its size. A
-- clause is its list of literals.
pub mod Sound
pub mod Size
pub mod Proper
use glucose.Prelude.{
  ℕ, zero, suc, ◌+◌, ◌-◌, ◌*◌, ◌/◌, ◌%◌, ◌^◌, ◌≤◌, ◌<◌, ◌≡◌, refl, sym, ap, ◌∙◌, ◌≢◌, ◌↔◌, ◌⊎◌, inl,
  inr, Bool, true, false, not, ◌&&◌, ◌||◌, Option, none, some, List, [], ◌∷◌, ◌++◌, map, arith, ltb,
  leb, ◌==◌, if◌then◌else◌, ==_iff, ==_refl, ==_ne, eq_of_==, Bool-cases, Option-cases, update, xor,
}
use glucose.Prelude.Lists.{length}
use mathlib.Core.Option
use glucose.Lit.{Lit, Var, neg, var}

-- How the inner loop over `ps` leaves: by `return false`, by `goto next`, or at its end.
pub data Scan : Type 0 where
  clash found absent : Scan

unfoldable pub scan : Lit → List Lit → Scan
scan q [] = absent
scan q (p ∷ ps) = if var p == var q then (if p == neg q then clash else found) else scan q ps

-- The loop over `qs`: the literals that it pushes, or `none` for `return false`.
unfoldable pub collect : List Lit → Var → List Lit → Option (List Lit)
collect ps v [] = some []
collect ps v (q ∷ qs) =
    let rest = collect ps v qs in
    if var q == v
    then rest
    else (elim (scan q ps) [ clash ↦ none | found ↦ rest | absent ↦ Option.map (◌∷◌ q) rest ])

-- The literals of other variables.
unfoldable pub without : Var → List Lit → List Lit
without v [] = []
without v (p ∷ c) = if var p == v then without v c else p ∷ without v c

-- The two loops, `qs` being the clause of the first.
unfoldable pub resolve : List Lit → List Lit → Var → Option (List Lit)
unfolding collect scan without
resolve ps qs v = Option.map (λ out. out ++ without v ps) (collect ps v qs)

-- The shorter clause is `qs`. `none` stands for the result false.
unfoldable pub merge : List Lit → List Lit → Var → Option (List Lit)
unfolding resolve
merge ps qs v = if ltb (length ps) (length qs) then resolve qs ps v else resolve ps qs v

-- The loop of the second `merge`, which counts what the first one pushes.
unfoldable pub count_loop : List Lit → Var → List Lit → ℕ → Option ℕ
unfolding scan
count_loop ps v [] size = some size
count_loop ps v (q ∷ qs) size = if var q == v then count_loop ps v qs size else (elim (scan q ps) [
  | clash ↦ none
  | found ↦ count_loop ps v qs size
  | absent ↦ count_loop ps v qs (size + 1)
])

unfoldable pub merge_size : List Lit → List Lit → Var → Option ℕ
unfolding count_loop
merge_size ps qs v =
    if ltb (length ps) (length qs)
    then count_loop qs v ps (length qs - 1)
    else count_loop ps v qs (length ps - 1)
