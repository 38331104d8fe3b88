-- ===== src/Solver/AddClause.antt =====
-- addClause_ of core/Solver.cc: the loop over the sorted literals, and what becomes of the clause
-- that is left. The proof that may be written, and the propagation of a unit, are left out.
pub mod Normal
use glucose.Prelude.{
  ℕ, zero, suc, ◌+◌, ◌-◌, ◌*◌, ◌/◌, ◌%◌, ◌^◌, ◌≤◌, ◌<◌, ◌≡◌, refl, sym, ap, subst, ◌∙◌, ◌≢◌, ◌↔◌,
  ◌⊎◌, inl, inr, Bool, true, false, not, ◌&&◌, ◌||◌, Option, none, some, List, [], ◌∷◌, ◌++◌, map,
  arith, ltb, leb, ◌==◌, if◌then◌else◌, ==_iff, ==_refl, ==_ne, eq_of_==, Bool-cases, Option-cases,
  update, xor,
}
use mathlib.Core.Option
use glucose.Lit.{Lit, neg}
use glucose.Lbool.{l_true, l_false, eq}
use glucose.Solver.{Solver, value}

-- `l == p` and `l == ~p`, which are false for lit_Undef.
unfoldable pub is_same : Option Lit → Lit → Bool
is_same none l = false
is_same (some p) l = l == p

unfoldable pub is_negation : Option Lit → Lit → Bool
is_negation none l = false
is_negation (some p) l = l == neg p

-- The loop, where `p` is the last literal kept: the literals that it keeps, or `none` where the
-- function returns because the clause is true.
unfoldable pub keep_lits : Solver → Option Lit → List Lit → Option (List Lit)
unfolding is_same is_negation
keep_lits s p [] = some []
keep_lits s p (l ∷ ls) =
    let kept = not (eq (value s l) l_false) && not (is_same p l) in
    let rest = keep_lits s (if kept then some l else p) ls in
    if eq (value s l) l_true || is_negation p l
    then none
    else if kept
    then Option.map (◌∷◌ l) rest
    else rest

-- What is done: nothing for a clause that is true, `ok = false` for the empty one, uncheckedEnqueue
-- for a unit, and otherwise the clause is stored.
pub data Added : Type 0 where
  already_true fails : Added
  unit : Lit → Added
  stored : List Lit → Added

unfoldable pub added : Option (List Lit) → Added
added none = already_true
added (some []) = fails
added (some (p ∷ [])) = unit p
added (some (p ∷ q ∷ ls)) = stored (p ∷ q ∷ ls)

unfoldable pub add_sorted : Solver → List Lit → Added
unfolding keep_lits added
add_sorted s ls = added (keep_lits s none ls)
