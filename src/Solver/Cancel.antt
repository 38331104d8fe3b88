-- ===== src/Solver/Cancel.antt =====
-- cancelUntil of core/Solver.cc. The constraints' states are an `X`, and `undo` is the virtual
-- function of core/Constraint.h. The call of insertVarOrder, which changes the order of decisions
-- only, is left out.
pub mod Restore
use glucose.Prelude.{
  ℕ, zero, suc, ◌+◌, ◌-◌, ◌*◌, ◌/◌, ◌%◌, ◌^◌, ◌≤◌, ◌<◌, ◌≡◌, refl, sym, ap, subst, ◌∙◌, ◌≢◌, ◌↔◌,
  ◌⊎◌, inl, inr, Bool, true, false, not, ◌&&◌, ◌||◌, Option, none, some, List, [], ◌∷◌, ◌++◌, map,
  arith, ltb, leb, ◌==◌, if◌then◌else◌, ==_iff, ==_refl, ==_ne, eq_of_==, Bool-cases, Option-cases,
  update, xor,
}
use glucose.Prelude.Lists.{length, get_or}
use glucose.Container.Queue.{from}
use glucose.Lit.{Lit, var, sign}
use glucose.Lbool.{l_undef}
use glucose.Solver.{Solver, ConstraintRef, decision_level}

-- One round of the loop, at the literal `p` in place `c` of the trail, but for the undo calls.
unfoldable pub unassign : Solver → ℕ → Lit → ℕ → Solver
unassign s last p c =
    let x = var p in
    let saves = ltb 1 s.phase_saving || (s.phase_saving == 1 && ltb last c) in
    record s {
      assigns = update s.assigns x l_undef;
      polarity = if saves then update s.polarity x (sign p) else s.polarity;
      undo_lists = update s.undo_lists x [];
    }

module _ {ℓ} {X : Type ℓ} (undo : ConstraintRef → Lit → X → X) where
  -- The undo calls for `p`, from the back of its variable's list.
  unfoldable pub undo_each : Lit → List ConstraintRef → X → X
  undo_each p [] x = x
  undo_each p (c ∷ cs) x = undo_each p cs (undo c p x)

  -- The loop, which goes back to the place `stop` of the trail.
  unfoldable pub cancel_loop : ℕ → ℕ → List Lit → Solver → X → Solver × X
  unfolding unassign undo_each
  cancel_loop stop last [] s x = (record s { trail = [] }, x)
  cancel_loop stop last (p ∷ ps) s x =
      let rest =
        cancel_loop stop last ps (unassign s last p (length ps))
          (undo_each p (s.undo_lists (var p)) x) in
      if leb stop (length ps) then rest else (record s { trail = p ∷ ps }, x)

  unfoldable pub cancel_until : Solver → X → ℕ → Solver × X
  unfolding cancel_loop
  cancel_until s x level =
      let stop = get_or s.trail_lim (decision_level s - 1 - level) 0 in
      let (t, y) = cancel_loop stop (get_or s.trail_lim 0 0) s.trail s x in
      if ltb level (decision_level s)
      then (record t { qhead = stop; trail_lim = from (decision_level s - level) s.trail_lim }, y)
      else (s, x)
