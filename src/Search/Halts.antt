-- ===== src/Search/Halts.antt =====
-- `propagate` returns, and leaves no literal in the queue.
use glucose.Prelude.{
  ℕ, zero, suc, ◌+◌, ◌-◌, ◌≤◌, ◌<◌, ◌≡◌, refl, sym, subst, ◌∙◌, inl, inr, Bool, Option, none, some,
  List, [], ◌∷◌, arith, ltb, Bool-cases, update,
}
use glucose.Prelude.Lists.{length}
use glucose.Lit.{Lit, neg, var}
use glucose.Solver.{Solver, CRef, ConstraintRef, add_num_pending_propagation}
use glucose.Search.{
  Watcher, Search, Conflict, no_conflict, clause_conflict, constraint_conflict, visit_binaries,
  queue, drain, release_each, release_constraints, abandon, add_pending, visit_watchers,
  visit_constraints, propagate_fact, propagate, next_fact, with_solver,
}
use glucose.Container.Queue.{before}
use glucose.Prelude.Int.{negsuc}
use glucose.Search.Left.{FitsIn, Bounded}
use glucose.Search.Moves.{Moved, visit_binaries-Moved, visit_watchers-Moved}
use glucose.Prelude.Lists.{All-get_or}
use glucose.Lit.Laws.{var-neg}

queue-empty : (s : Solver) → length s.trail ≤ s.qhead → queue s ≡ []
unfolding queue before
queue-empty s h = let none_left : length s.trail - s.qhead ≡ 0 = omega arith in rw (none_left) refl

release_each-trail : (qs : List Lit) (s : Solver) → (release_each qs s).trail ≡ s.trail
unfolding release_each add_num_pending_propagation
release_each-trail [] s = refl
release_each-trail (q ∷ qs) s = release_each-trail qs (add_num_pending_propagation s q (negsuc 0))

drain-empty : (s : Solver) → queue (drain s) ≡ []
unfolding drain
drain-empty s = queue-empty (drain s) (rw (release_each-trail (queue s) s) (omega arith))

-- What the solver asks of the constraints to come to an end: they leave the head of the queue, and
-- set variables that have no value, of the first `n` ones, as long as their states are `Inside`,
-- which they stay.
pub record FrameLaws {X : Type 0} (n : ℕ)
    (constr_propagate : ConstraintRef → Solver → X → Lit → Solver × X × Bool) : Type 1 where
  pub Inside : X → Type 0
  pub inside_after :
      (c : ConstraintRef) (s : Solver) (x : X) (p : Lit)
      → Inside x
      → Inside (constr_propagate c s x p).1
  pub fits :
      (c : ConstraintRef) (s : Solver) (x : X) (p : Lit)
      → Inside x
      → FitsIn n s
      → FitsIn n (constr_propagate c s x p).0
  pub same_qhead :
      (c : ConstraintRef) (s : Solver) (x : X) (p : Lit)
      → Inside x
      → (constr_propagate c s x p).0.qhead ≡ s.qhead

-- What a round leaves: the next round's state, or an empty queue.
abbrev Ended : {X : Type 0} → ℕ → (X → Type 0) → Search X → Search X × Conflict → Type 0
Ended n I S (T, no_conflict) = Moved n I S T
Ended n I S (T, clause_conflict cr) = queue T.solver ≡ []
Ended n I S (T, constraint_conflict c) = queue T.solver ≡ []

-- The run has returned, and no literal is left in the queue.
abbrev pub Halted : {X : Type 0} → Option (Search X × Conflict) → Type 0
Halted none = ⊥
Halted (some (T, r)) = queue T.solver ≡ []

abbrev AskedAll :
    {X : Type 0} → ℕ → (X → Type 0) → Search X → Search X × Option ConstraintRef → Type 0
AskedAll n I S (T, none) = Moved n I S T
AskedAll n I S (T, some c) = queue T.solver ≡ []

module _ {X : Type 0} (n : ℕ)
    (constr_propagate : ConstraintRef → Solver → X → Lit → Solver × X × Bool)
    (laws : FrameLaws n constr_propagate) where
  AskedAll-from :
      (S T : Search X) (r : Search X × Option ConstraintRef)
      → T.solver.qhead ≡ S.solver.qhead
      → AskedAll n laws.Inside T r
      → AskedAll n laws.Inside S r
  AskedAll-from S T (U, none) q m = record { bounded = m.bounded; same_qhead = m.same_qhead ∙ q }
  AskedAll-from S T (U, some d) q m = m

  visit_constraints-AskedAll :
      (p : Lit) (cs : List ConstraintRef) (S : Search X)
      → Bounded n laws.Inside S
      → AskedAll n laws.Inside S (visit_constraints constr_propagate p cs S)
  unfolding visit_constraints
  visit_constraints-AskedAll p [] S b = record { bounded = b; same_qhead = refl }
  visit_constraints-AskedAll p (c ∷ cs) S b =
      let s = add_pending (record S.solver { enqueue_failure = none }) c (negsuc 0) in
      let r = constr_propagate c s S.constraints p in
      let T : Search X = record S { solver = r.0; constraints = r.1 } in
      let b' : Bounded n laws.Inside T = record {
        fits = laws.fits c s S.constraints p b.inside b.fits;
        inside = laws.inside_after c s S.constraints p b.inside;
        clauses = b.clauses;
        bins = b.bins;
      } in
      elim (Bool-cases r.2) [
        | inl ok ↦
            let step : visit_constraints constr_propagate p (c ∷ cs) S
                ≡ visit_constraints constr_propagate p cs T =
              rw (visit_constraints, ok) refl in
            subst (AskedAll n laws.Inside S) (sym step) (
              AskedAll-from S T (visit_constraints constr_propagate p cs T)
                (laws.same_qhead c s S.constraints p b.inside)
                (visit_constraints-AskedAll p cs T b'))
        | inr failed ↦
            let step : visit_constraints constr_propagate p (c ∷ cs) S ≡ (
              record S { solver = drain (release_constraints cs r.0); constraints = r.1 },
              some c,
            ) =
              rw (visit_constraints, failed) refl in
            subst (AskedAll n laws.Inside S) (sym step) (drain-empty (release_constraints cs r.0))
      ]

  abandon-empty : (S : Search X) (p : Lit) → queue (abandon S p).solver ≡ []
  abandon-empty S p = drain-empty (add_num_pending_propagation S.solver p (negsuc 0))

  last_loop :
      (S V : Search X) (r : Search X × Option ConstraintRef)
      → V.solver.qhead ≡ S.solver.qhead
      → AskedAll n laws.Inside V r
      → Ended n laws.Inside S
          (r.0, elim r.1 [ none ↦ no_conflict | some c ↦ constraint_conflict c ])
  last_loop S V (C, none) q m = record { bounded = m.bounded; same_qhead = m.same_qhead ∙ q }
  last_loop S V (C, some c) q m = m

  second_loop :
      (p : Lit) (S B : Search X) (r : Search X × List Watcher × Option CRef)
      → Moved n laws.Inside S B
      → Moved n laws.Inside B r.0
      → Ended n laws.Inside S (
          let V : Search X = record r.0 { watches = update r.0.watches p r.1 } in
          elim r.2 [
            | some cr ↦ (abandon V p, clause_conflict cr)
            | none ↦
                let (C, failed) =
                  visit_constraints constr_propagate p (V.solver.constr_watches p) V in
                (C, elim failed [ none ↦ no_conflict | some c ↦ constraint_conflict c ])
          ])
  second_loop p S B (W, ks, some cr) m w =
      abandon-empty (record W { watches = update W.watches p ks }) p
  second_loop p S B (W, ks, none) m w =
      let V : Search X = record W { watches = update W.watches p ks } in
      last_loop S V (visit_constraints constr_propagate p (V.solver.constr_watches p) V)
        (w.same_qhead ∙ m.same_qhead)
        (visit_constraints-AskedAll p (V.solver.constr_watches p) V (record {
          fits = w.bounded.fits;
          inside = w.bounded.inside;
          clauses = w.bounded.clauses;
          bins = w.bounded.bins;
        }))

  first_loop :
      (p : Lit) (S : Search X) (r : Search X × Option CRef)
      → var (neg p) < n
      → Moved n laws.Inside S r.0
      → Ended n laws.Inside S (elim r.1 [
        | some cr ↦ (abandon r.0 p, clause_conflict cr)
        | none ↦
            let (W, ks, failing) = visit_watchers p (r.0.watches p) r.0 in
            let V : Search X = record W { watches = update W.watches p ks } in
            elim failing [
              | some cr ↦ (abandon V p, clause_conflict cr)
              | none ↦
                  let (C, failed) =
                    visit_constraints constr_propagate p (V.solver.constr_watches p) V in
                  (C, elim failed [ none ↦ no_conflict | some c ↦ constraint_conflict c ])
            ]
      ])
  first_loop p S (B, some cr) lt m = abandon-empty B p
  first_loop p S (B, none) lt m =
      second_loop p S B (visit_watchers p (B.watches p) B) m
        (visit_watchers-Moved n laws.Inside p (B.watches p) B lt m.bounded)

  propagate_fact-Ended :
      (p : Lit) (S : Search X)
      → var p < n
      → Bounded n laws.Inside S
      → Ended n laws.Inside S (propagate_fact constr_propagate p S)
  unfolding propagate_fact
  propagate_fact-Ended p S lt b =
      first_loop p S (visit_binaries (S.watches_bin p) S) (rw (var-neg p) lt)
        (visit_binaries-Moved n laws.Inside (S.watches_bin p) S (b.bins p) b)

  next_round :
      (S : Search X) (fuel : ℕ) (r : Search X × Conflict)
      → Ended n laws.Inside S r
      → ((T : Search X) → Moved n laws.Inside S T → Halted (propagate constr_propagate fuel T))
      → Halted (elim r.1 [
        | no_conflict ↦ propagate constr_propagate fuel r.0
        | clause_conflict cr ↦ some (r.0, clause_conflict cr)
        | constraint_conflict c ↦ some (r.0, constraint_conflict c)
      ])
  next_round S fuel (T, no_conflict) h rec = rec T h
  next_round S fuel (T, clause_conflict cr) h rec = h
  next_round S fuel (T, constraint_conflict c) h rec = h

  -- Let the clauses and the trail be of the first `n` variables, and let the trail be no longer than
  -- the variables that have a value; let the constraints keep the latter. Then `propagate` returns
  -- within `n` rounds and one more, and leaves no literal in the queue, with a conflict and without.
  pub propagate-Halted :
      (fuel : ℕ) (S : Search X)
      → n - S.solver.qhead < fuel
      → Bounded n laws.Inside S
      → Halted (propagate constr_propagate fuel S)
  unfolding propagate
  propagate-Halted zero S h b = absurd (omega arith)
  propagate-Halted (suc fuel) S h b =
      elim (Bool-cases (ltb S.solver.qhead (length S.solver.trail))) [
        | inr empty ↦ rw (propagate, empty) (queue-empty S.solver (ground arith))
        | inl more ↦
            let lt : S.solver.qhead < length S.solver.trail = ground arith in
            let T = with_solver S (record S.solver { qhead = S.solver.qhead + 1 }) in
            let p = next_fact S.solver in
            let in_range : var p < n =
              All-get_or (λ p. var p < n) S.solver.trail
                (length S.solver.trail - 1 - S.solver.qhead) 0 b.fits.1 (omega arith) in
            let b' : Bounded n laws.Inside T = record {
              fits = b.fits;
              inside = b.inside;
              clauses = b.clauses;
              bins = b.bins;
            } in
            rw (propagate, more)
              (next_round T fuel (propagate_fact constr_propagate p T)
                (propagate_fact-Ended p T in_range b')
                (λ U m.
                  propagate-Halted fuel U (omega (arith, m.same_qhead, b.fits.0, lt, h)) m.bounded))
      ]
