-- ===== src/Solver.antt =====
-- core/Solver.h and core/Solver.cc: the part of the solver's state that assignments and custom
-- constraints read and write, and the operations on it. An array indexed by a variable or a literal
-- is a function. The head of `trail`, `trail_lim` and of an undo list is the back of the vector.
pub mod Agree
pub mod AddClause
pub mod Cancel
use glucose.Prelude.{
  ℕ, zero, suc, ◌+◌, ◌-◌, ◌*◌, ◌/◌, ◌%◌, ◌^◌, ◌≤◌, ◌<◌, ◌≡◌, refl, sym, ap, ◌∙◌, ◌≢◌, ◌↔◌, ◌⊎◌, inl,
  inr, Bool, true, false, not, ◌&&◌, ◌||◌, Option, none, some, List, [], ◌∷◌, ◌++◌, map, arith, ltb,
  leb, ◌==◌, if◌then◌else◌, ==_iff, ==_refl, ==_ne, eq_of_==, Bool-cases, Option-cases, update, xor,
}
use glucose.Prelude.Lists.{length}
use glucose.Prelude.Int.{ℤ, pos, negsuc, ◌+ℤ◌}
use glucose.Lit.{Lit, Var, neg, var, sign}
use glucose.Lbool.{Lbool, l_true, l_false, l_undef, of_bool, flip, eq}

-- A clause by its place in the clause memory, and a custom constraint by its place in `constraints`.
abbrev pub CRef : Type 0
CRef = ℕ

abbrev pub ConstraintRef : Type 0
ConstraintRef = ℕ

-- The two reasons of a `VarData`, of which one at most is set.
pub data Reason : Type 0 where
  no_reason : Reason
  by_clause : CRef → Reason
  by_constraint : ConstraintRef → Reason

pub record Solver : Type 0 where
  pub assigns : Var → Lbool
  pub reason : Var → Reason
  pub level : Var → ℕ
  pub trail : List Lit
  pub trail_lim : List ℕ
  pub qhead : ℕ
  pub polarity : Var → Bool
  pub undo_lists : Var → List ConstraintRef
  pub constr_watches : Lit → List ConstraintRef
  pub num_pending_propagation : ConstraintRef → ℤ
  pub enqueue_failure : Option Lit
  pub phase_saving : ℕ

abbrev pub value_var : Solver → Var → Lbool
value_var s x = s.assigns x

abbrev pub value : Solver → Lit → Lbool
value s p = flip (s.assigns (var p)) (sign p)

abbrev pub decision_level : Solver → ℕ
decision_level s = length s.trail_lim

pub new_decision_level : Solver → Solver
new_decision_level s = record s { trail_lim = length s.trail ∷ s.trail_lim }

unfoldable pub register_undo : Solver → Var → ConstraintRef → Solver
register_undo s v c = record s { undo_lists = update s.undo_lists v (c ∷ s.undo_lists v) }

pub add_watch : Solver → Lit → ConstraintRef → Solver
add_watch s p c = record s {
  constr_watches = update s.constr_watches p (s.constr_watches p ++ c ∷ []);
}

-- The loop of addNumPendingPropagation over the watchers.
unfoldable pub add_each : List ConstraintRef → ℤ → (ConstraintRef → ℤ) → ConstraintRef → ℤ
add_each [] inc f = f
add_each (c ∷ cs) inc f = add_each cs inc (update f c (f c +ℤ inc))

unfoldable pub add_num_pending_propagation : Solver → Lit → ℤ → Solver
add_num_pending_propagation s p inc = record s {
  num_pending_propagation = add_each (s.constr_watches p) inc s.num_pending_propagation;
}

-- uncheckedEnqueue, and the same four statements of enqueue.
unfoldable pub assign : Solver → Lit → Reason → Solver
assign s p from =
    add_num_pending_propagation
      (record s {
        assigns = update s.assigns (var p) (of_bool (not (sign p)));
        reason = update s.reason (var p) from;
        level = update s.level (var p) (decision_level s);
        trail = p ∷ s.trail;
      })
      p (pos 1)

-- enqueue(Lit, Constraint*)
unfoldable pub enqueue : Solver → Lit → ConstraintRef → Solver × Bool
enqueue s p from = elim (value s p) [
  | l_true ↦ (s, true)
  | l_false ↦ (record s { enqueue_failure = some (neg p) }, false)
  | l_undef ↦ (assign s p (by_constraint from), true)
]

-- enqueue(Lit, CRef)
pub enqueue_clause : Solver → Lit → CRef → Solver × Bool
enqueue_clause s p from = elim (value s p) [
  | l_true ↦ (s, true)
  | l_false ↦ (s, false)
  | l_undef ↦ (assign s p (by_clause from), true)
]
