-- ===== src/Search.antt =====
-- core/Solver.cc: `propagate`, with the two watched literals of each clause, the binary clauses and
-- the constraints. `ca` is the clause memory, a clause being the list of its literals in their
-- order. The constraints' states are an `X`, and `constr_propagate` is the virtual function
-- `propagate` of core/Constraint.h. The lists of watchers are clean, as after `cleanAll`; the
-- incremental mode, the counters and `useUnaryWatched`, which aborts, are left out.
pub mod Inspect
pub mod Times
pub mod Watched
pub mod Fine
pub mod Guards
pub mod Watchers
pub mod Laws
pub mod Binaries
pub mod Visits
pub mod Sound
pub mod Complete
pub mod Attach
pub mod Left
pub mod Moves
pub mod Halts
pub mod Frame
use glucose.Prelude.{
  ℕ, zero, suc, ◌+◌, ◌-◌, ◌*◌, ◌/◌, ◌%◌, ◌^◌, ◌≤◌, ◌<◌, ◌≡◌, refl, sym, ap, subst, ◌∙◌, ◌≢◌, ◌↔◌,
  ◌⊎◌, inl, inr, Bool, true, false, not, ◌&&◌, ◌||◌, Option, none, some, List, [], ◌∷◌, ◌++◌, map,
  arith, ltb, leb, ◌==◌, if◌then◌else◌, ==_iff, ==_refl, ==_ne, eq_of_==, Bool-cases, Option-cases,
  update, xor,
}
use glucose.Prelude.Lists.{length, get_or}
use glucose.Prelude.Int.{ℤ, pos, negsuc, ◌+ℤ◌}
use mathlib.Core.List.{reverse}
use glucose.Container.Queue.{before}
use glucose.Lit.{Lit, neg}
use glucose.Lbool.{Lbool, l_true, l_false, l_undef, eq}
use glucose.Solver.{
  Solver, CRef, ConstraintRef, by_clause, value, assign, add_num_pending_propagation,
}
use glucose.Search.Inspect.{Visit, skip, kept, moved, unit, clash, inspect}

pub record Watcher : Type 0 where
  pub cref : CRef
  pub blocker : Lit

pub record Search (X : Type 0) : Type 0 where
  pub solver : Solver
  pub ca : CRef → List Lit
  pub watches : Lit → List Watcher
  pub watches_bin : Lit → List Watcher
  pub constraints : X

-- The result: CRef_Undef and nullptr, a clause, or a constraint.
pub data Conflict : Type 0 where
  no_conflict : Conflict
  clause_conflict : CRef → Conflict
  constraint_conflict : ConstraintRef → Conflict

-- The literals of the trail from `qhead` on, in their order.
unfoldable pub queue : Solver → List Lit
unfolding before
queue s = reverse (before (length s.trail - s.qhead) s.trail)

unfoldable pub release_each : List Lit → Solver → Solver
unfolding add_num_pending_propagation
release_each [] s = s
release_each (q ∷ qs) s = release_each qs (add_num_pending_propagation s q (negsuc 0))

-- The loop that empties the queue after a conflict.
unfoldable pub drain : Solver → Solver
unfolding queue release_each
drain s = record (release_each (queue s) s) { qhead = length s.trail }

abbrev pub add_pending : Solver → ConstraintRef → ℤ → Solver
add_pending s c inc = record s {
  num_pending_propagation = update s.num_pending_propagation c (s.num_pending_propagation c +ℤ inc);
}

abbrev pub release_constraints : List ConstraintRef → Solver → Solver
release_constraints [] s = s
release_constraints (c ∷ cs) s = release_constraints cs (add_pending s c (negsuc 0))

-- The literal of the trail at the head of the queue.
abbrev pub next_fact : Solver → Lit
next_fact s = get_or s.trail (length s.trail - 1 - s.qhead) 0

module _ {X : Type 0} where
  abbrev pub with_solver : Search X → Solver → Search X
  with_solver S s = record S { solver = s }

  -- The loop over the binary clauses; the clause that is in conflict, if one is.
  unfoldable pub visit_binaries : List Watcher → Search X → Search X × Option CRef
  unfolding assign
  visit_binaries [] S = (S, none)
  visit_binaries (w ∷ ws) S = elim (value S.solver w.blocker) [
    | l_false ↦ (S, some w.cref)
    | l_undef ↦ visit_binaries ws (with_solver S (assign S.solver w.blocker (by_clause w.cref)))
    | l_true ↦ visit_binaries ws S
  ]

  abbrev pub with_clause : Search X → CRef → List Lit → Search X
  with_clause S cr c = record S { ca = update S.ca cr c }

  abbrev pub push_watch : Search X → Lit → Watcher → Search X
  push_watch S q w = record S { watches = update S.watches q (S.watches q ++ w ∷ []) }

  -- The loop over the watchers of `p`: the state, the watchers that are kept, and the clause that is
  -- in conflict, if one is. A clause in conflict ends it, and the watchers that are left are kept.
  unfoldable pub visit_watchers :
      Lit → List Watcher → Search X → Search X × List Watcher × Option CRef
  unfolding inspect assign
  visit_watchers p [] S = (S, [], none)
  visit_watchers p (w ∷ ws) S = elim (inspect S.solver p w.blocker (S.ca w.cref)) [
    | skip ↦ let (T, ks, r) = visit_watchers p ws S in (T, w ∷ ks, r)
    | kept c first ↦
        let (T, ks, r) = visit_watchers p ws (with_clause S w.cref c) in
        (T, record { cref = w.cref; blocker = first } ∷ ks, r)
    | moved c first l ↦
        visit_watchers p ws
          (push_watch (with_clause S w.cref c) (neg l) (record { cref = w.cref; blocker = first }))
    | unit c first ↦
        let (T, ks, r) =
          visit_watchers p ws
            (with_solver (with_clause S w.cref c) (assign S.solver first (by_clause w.cref))) in
        (T, record { cref = w.cref; blocker = first } ∷ ks, r)
    | clash c first ↦
        (with_clause S w.cref c, record { cref = w.cref; blocker = first } ∷ ws, some w.cref)
  ]

  -- `addNumPendingPropagation(p, -1)` and the loop that follows it.
  abbrev pub abandon : Search X → Lit → Search X
  abandon S p = with_solver S (drain (add_num_pending_propagation S.solver p (negsuc 0)))

  module _ (constr_propagate : ConstraintRef → Solver → X → Lit → Solver × X × Bool) where
    -- The loop over the constraints that watch `p`.
    unfoldable pub visit_constraints :
        Lit → List ConstraintRef → Search X → Search X × Option ConstraintRef
    unfolding drain
    visit_constraints p [] S = (S, none)
    visit_constraints p (c ∷ cs) S =
        let s = add_pending (record S.solver { enqueue_failure = none }) c (negsuc 0) in
        let (t, y, ok) = constr_propagate c s S.constraints p in
        elim ok [
          | true ↦ visit_constraints p cs (record S { solver = t; constraints = y })
          | false ↦
              (record S { solver = drain (release_constraints cs t); constraints = y }, some c)
        ]

    -- One round of the outer loop, for the fact `p`.
    unfoldable pub propagate_fact : Lit → Search X → Search X × Conflict
    unfolding visit_binaries visit_watchers visit_constraints drain
    propagate_fact p S =
        let (B, failing) = visit_binaries (S.watches_bin p) S in
        elim failing [
          | some cr ↦ (abandon B p, clause_conflict cr)
          | none ↦
              let (W, ks, r) = visit_watchers p (B.watches p) B in
              let V : Search X = record W { watches = update W.watches p ks } in
              elim r [
                | some cr ↦ (abandon V p, clause_conflict cr)
                | none ↦
                    let (C, failed) = visit_constraints p (V.solver.constr_watches p) V in
                    (C, elim failed [ none ↦ no_conflict | some c ↦ constraint_conflict c ])
              ]
        ]

    -- The outer loop; `none` means that the fuel has run out.
    unfoldable pub propagate : ℕ → Search X → Option (Search X × Conflict)
    unfolding propagate_fact
    propagate zero S = none
    propagate (suc fuel) S = elim (ltb S.solver.qhead (length S.solver.trail)) [
      | false ↦ some (S, no_conflict)
      | true ↦
          let p = next_fact S.solver in
          let (T, r) =
            propagate_fact p (with_solver S (record S.solver { qhead = S.solver.qhead + 1 })) in
          elim r [
            | no_conflict ↦ propagate fuel T
            | clause_conflict cr ↦ some (T, clause_conflict cr)
            | constraint_conflict c ↦ some (T, constraint_conflict c)
          ]
    ]
