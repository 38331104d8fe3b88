-- ===== src/Analyze.antt =====
-- core/Solver.cc: the loop of `analyze` that resolves a conflict until one literal of the current
-- level is left. The trail's head is its back, so that the loop over `index` is a walk along the
-- list. A clause is the list of its literals in their order. The incremental mode, the activities,
-- the LBD of clauses and the counters are left out. `calc_reason` and `undo` are the virtual
-- functions of core/Constraint.h.
pub mod Pending
pub mod Marks
pub mod Still
pub mod Trail
pub mod Learnt
pub mod Asserts
pub mod Final
pub mod Lbd
pub mod Level
pub mod Minimise
pub mod Redundant
use glucose.Prelude.{
  ℕ, zero, suc, ◌+◌, ◌-◌, ◌*◌, ◌/◌, ◌%◌, ◌^◌, ◌≤◌, ◌<◌, ◌≡◌, refl, sym, ap, subst, ◌∙◌, ◌≢◌, ◌↔◌,
  ◌⊎◌, inl, inr, Bool, true, false, not, ◌&&◌, ◌||◌, Option, none, some, List, [], ◌∷◌, ◌++◌, map,
  arith, ltb, leb, ◌==◌, if◌then◌else◌, ==_iff, ==_refl, ==_ne, eq_of_==, Bool-cases, Option-cases,
  update, xor,
}
use glucose.Lit.{Lit, Var, neg, var}
use glucose.Lbool.{l_false, eq}
use glucose.Solver.{
  Solver, CRef, ConstraintRef, Reason, no_reason, by_clause, by_constraint, value, decision_level,
}
use glucose.Solver.Cancel.{undo_each}

-- `out` is `out_learnt` without its first place, which is filled at the end.
pub record Analysis (X : Type 0) : Type 0 where
  pub ca : CRef → List Lit
  pub undo_lists : Var → List ConstraintRef
  pub constraints : X
  pub seen : Var → Bool
  pub path_c : ℕ
  pub out : List Lit

-- The special case for binary clauses, of which the first literal has to be true.
unfoldable pub true_first : Solver → List Lit → List Lit
true_first s [] = []
true_first s (x ∷ []) = x ∷ []
true_first s (x ∷ y ∷ []) = if eq (value s x) l_false then y ∷ x ∷ [] else x ∷ y ∷ []
true_first s (x ∷ y ∷ z ∷ zs) = x ∷ y ∷ z ∷ zs

-- All but the first.
abbrev pub others : List Lit → List Lit
others [] = []
others (x ∷ xs) = xs

-- The undo calls for a literal.
abbrev pub undone : {X : Type 0} → (ConstraintRef → Lit → X → X) → Lit → Analysis X → Analysis X
undone undo l t = record t {
  undo_lists = update t.undo_lists (var l) [];
  constraints = undo_each undo l (t.undo_lists (var l)) t.constraints;
}

-- The mark is taken off.
abbrev pub unmarked : {X : Type 0} → Lit → Analysis X → Analysis X
unmarked l t = record t { seen = update t.seen (var l) false; path_c = t.path_c - 1 }

module _ {X : Type 0} (s : Solver) where
  -- The test of a variable, and the literal that is pushed where it is of a lower level.
  unfoldable pub mark : Var → Lit → Analysis X → Analysis X
  mark v q t =
      if not (t.seen v) && ltb 0 (s.level v)
      then (if leb (decision_level s) (s.level v)
          then record t { seen = update t.seen v true; path_c = t.path_c + 1 }
          else record t { seen = update t.seen v true; out = t.out ++ q ∷ [] })
      else t

  -- The loop over a clause, and the one over the reason that a constraint gives.
  unfoldable pub mark_clause : List Lit → Analysis X → Analysis X
  unfolding mark
  mark_clause [] t = t
  mark_clause (q ∷ qs) t = mark_clause qs (mark (var q) q t)

  unfoldable pub mark_reason : List Lit → Analysis X → Analysis X
  unfolding mark
  mark_reason [] t = t
  mark_reason (q ∷ qs) t = mark_reason qs (mark (var q) (neg q) t)

  -- The solver that a constraint sees.
  abbrev pub seen_by_constraint : Analysis X → Solver
  seen_by_constraint t = record s { undo_lists = t.undo_lists }

  module _ (calc_reason : ConstraintRef → Solver → X → Option Lit → Option Lit → List Lit)
      (undo : ConstraintRef → Lit → X → X) where
    -- The body of the loop but for the choice of the next literal. `p` and `extra` are `none` for
    -- lit_Undef. With no reason an assertion fails.
    unfoldable pub resolve : Option Lit → Option Lit → Reason → Analysis X → Option (Analysis X)
    unfolding mark_clause mark_reason true_first
    resolve p extra no_reason t = none
    resolve p extra (by_constraint c) t =
        some (mark_reason (calc_reason c (seen_by_constraint t) t.constraints p extra) t)
    resolve none extra (by_clause cr) t = some (mark_clause (t.ca cr) t)
    resolve (some l) extra (by_clause cr) t =
        let c = true_first s (t.ca cr) in
        some (mark_clause (others c) (record t { ca = update t.ca cr c }))

    -- The choice of the next literal from the trail, and the rest of the loop: the last literal that
    -- is chosen. Beyond the trail's front is `none`.
    unfoldable pub walk : List Lit → Analysis X → Option (Lit × Analysis X)
    unfolding resolve undo_each
    walk [] t = none
    walk (l ∷ ls) t = elim (t.seen (var l)) [
      | false ↦ walk ls (undone undo l t)
      | true ↦
          let u = unmarked l (undone undo l t) in
          elim (u.path_c == 0) [
            | true ↦ some (l, u)
            | false ↦ elim (resolve (some l) none (s.reason (var l)) u) [
              | none ↦ none
              | some v ↦ walk ls v
            ]
          ]
    ]

    -- The loop from the conflict on, and the clause with its first literal.
    unfoldable pub analyze : Reason → Analysis X → Option (List Lit × Analysis X)
    unfolding walk resolve
    analyze conflict t = elim (resolve none s.enqueue_failure conflict t) [
      | none ↦ none
      | some u ↦ elim (walk s.trail u) [ none ↦ none | some (p, v) ↦ some (neg p ∷ v.out, v) ]
    ]
