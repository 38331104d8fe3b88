-- ===== src/Analyze/Final.antt =====
-- core/Solver.cc: `analyzeFinal`.
pub mod Marks
pub mod Sound
use glucose.Prelude.{
  ℕ, zero, suc, ◌+◌, ◌-◌, ◌*◌, ◌/◌, ◌%◌, ◌^◌, ◌≤◌, ◌<◌, ◌≡◌, refl, sym, ap, subst, ◌∙◌, ◌≢◌, ◌↔◌,
  ◌⊎◌, inl, inr, Bool, true, false, not, ◌&&◌, ◌||◌, Option, none, some, List, [], ◌∷◌, ◌++◌, map,
  arith, ltb, leb, ◌==◌, if◌then◌else◌, ==_iff, ==_refl, ==_ne, eq_of_==, Bool-cases, Option-cases,
  update, xor,
}
use glucose.Prelude.Lists.{All, All-append, All-In, In, length, get_or}
use glucose.Lit.{Lit, Var, neg, var, sign}
use glucose.Lit.Laws.{var-neg, sign-neg, neg-neg}
use glucose.Lit.Truth.{Assignment, holds, holds-neg, satisfies, satisfies_inv, satisfies-append}
use glucose.Lbool.{l_true, l_false, eq}
use glucose.Solver.{
  Solver, CRef, ConstraintRef, Reason, no_reason, by_clause, by_constraint, value, decision_level,
}
use glucose.Analyze.{true_first, others}
use glucose.Analyze.Pending.{Apart}
use glucose.Analyze.Marks.{IsRoot, AreFalse}
use glucose.Analyze.Trail.{Founded, IsTrail, IsTrail-true}

-- The literals of a clause that are looked at: all of a binary clause, and all but the first.
unfoldable pub looked_at : List Lit → List Lit
looked_at [] = []
looked_at (x ∷ []) = []
looked_at (x ∷ y ∷ []) = x ∷ y ∷ []
looked_at (x ∷ y ∷ z ∷ zs) = y ∷ z ∷ zs

unfoldable pub mark_above : Solver → List Lit → (Var → Bool) → Var → Bool
mark_above s [] seen = seen
mark_above s (q ∷ qs) seen =
    mark_above s qs (if ltb 0 (s.level (var q)) then update seen (var q) true else seen)

-- The loop along the trail, to the literals of level 0, of which there are `stop`.
unfoldable pub final_loop :
    Solver → (CRef → List Lit) → ℕ → List Lit → (Var → Bool) → List Lit → List Lit × (Var → Bool)
unfolding mark_above looked_at
final_loop s ca stop [] seen out = (out, seen)
final_loop s ca stop (l ∷ ls) seen out = elim (ltb (length ls) stop) [
  | true ↦ (out, seen)
  | false ↦ elim (seen (var l)) [
    | false ↦ final_loop s ca stop ls seen out
    | true ↦ elim (s.reason (var l)) [
      | by_clause cr ↦
          final_loop s ca stop ls (update (mark_above s (looked_at (ca cr)) seen) (var l) false) out
      | no_reason ↦ final_loop s ca stop ls (update seen (var l) false) (out ++ neg l ∷ [])
      | by_constraint c ↦ final_loop s ca stop ls (update seen (var l) false) (out ++ neg l ∷ [])
    ]
  ]
]

-- The conflict in terms of assumptions. The front of `trail_lim` is the last one of its list.
unfoldable pub analyze_final :
    Solver → (CRef → List Lit) → (Var → Bool) → Lit → List Lit × (Var → Bool)
unfolding final_loop
analyze_final s ca seen p =
    if decision_level s == 0
    then (p ∷ [], seen)
    else (let (out, t) =
          final_loop s ca (get_or s.trail_lim (decision_level s - 1) 0) s.trail
            (update seen (var p) true) (p ∷ []) in
        (out, update t (var p) false))
