-- ===== src/Search/Moves.antt =====
-- What the loops of `propagate` over clauses leave, with no assignment in view.
use glucose.Prelude.{ℕ, ◌<◌, ◌≡◌, refl, ◌∙◌, inl, inr, List, [], ◌∷◌, ◌==◌, Bool-cases}
use glucose.Prelude.Lists.{All}
use glucose.Lit.{Lit, neg, var}
use glucose.Lbool.{l_undef, Lbool-cases}
use glucose.Solver.{Solver, CRef, value, assign, by_clause}
use glucose.Search.{
  Watcher, Search, visit_binaries, visit_watchers, with_solver, with_clause, push_watch,
}
use glucose.Search.Inspect.{Visit, skip, kept, moved, unit, clash, inspect}
use glucose.Search.Fine.{assign-Room, qhead-assign, trail-assign}
use glucose.Search.Left.{Small, FitsIn, Bounded, Left, inspect-Left}

assign-FitsIn :
    (n : ℕ) (s : Solver) (p : Lit) (cr : CRef)
    → value s p ≡ l_undef
    → var p < n
    → FitsIn n s
    → FitsIn n (assign s p (by_clause cr))
assign-FitsIn n s p cr u lt f =
    (assign-Room n s p (by_clause cr) u lt f.0, rw (trail-assign s p (by_clause cr)) (lt, f.1))

-- What a loop leaves.
pub record Moved {X : Type 0} (n : ℕ) (Inside : X → Type 0) (S T : Search X) : Type 0 where
  pub bounded : Bounded n Inside T
  pub same_qhead : T.solver.qhead ≡ S.solver.qhead

module _ {X : Type 0} (n : ℕ) (Inside : X → Type 0) where
  Bounded-with_clause :
      (S : Search X) (cr : CRef) (d : List Lit)
      → Small n d
      → Bounded n Inside S
      → Bounded n Inside (with_clause S cr d)
  Bounded-with_clause S cr d h b = record {
    fits = b.fits;
    inside = b.inside;
    clauses = λ x. elim (Bool-cases (cr == x)) [
      | inl same ↦ rw same h
      | inr other ↦ rw other (b.clauses x)
    ];
    bins = b.bins;
  }

  Bounded-assign :
      (S : Search X) (p : Lit) (cr : CRef)
      → value S.solver p ≡ l_undef
      → var p < n
      → Bounded n Inside S
      → Bounded n Inside (with_solver S (assign S.solver p (by_clause cr)))
  Bounded-assign S p cr u lt b = record {
    fits = assign-FitsIn n S.solver p cr u lt b.fits;
    inside = b.inside;
    clauses = b.clauses;
    bins = b.bins;
  }

  pub visit_binaries-Moved :
      (ws : List Watcher) (S : Search X)
      → All (λ w. var w.blocker < n) ws
      → Bounded n Inside S
      → Moved n Inside S (visit_binaries ws S).0
  unfolding visit_binaries
  visit_binaries-Moved [] S h b = record { bounded = b; same_qhead = refl }
  visit_binaries-Moved (w ∷ ws) S h b = elim (Lbool-cases (value S.solver w.blocker)) [
    | inl t ↦ rw (visit_binaries, t) (visit_binaries-Moved ws S h.1 b)
    | inr (inl f) ↦ rw (visit_binaries, f) (record { bounded = b; same_qhead = refl })
    | inr (inr u) ↦
        let m =
          visit_binaries-Moved ws (with_solver S (assign S.solver w.blocker (by_clause w.cref))) h.1
            (Bounded-assign S w.blocker w.cref u h.0 b) in
        rw (visit_binaries, u)
          (record {
            bounded = m.bounded;
            same_qhead = m.same_qhead ∙ qhead-assign S.solver w.blocker (by_clause w.cref);
          })
  ]

  visited-Left :
      (p : Lit) (S : Search X) (w : Watcher) (ws : List Watcher) (o : Visit)
      → inspect S.solver p w.blocker (S.ca w.cref) ≡ o
      → Left n S.solver o
      → Bounded n Inside S
      → ((T : Search X) → Bounded n Inside T → Moved n Inside T (visit_watchers p ws T).0)
      → Moved n Inside S (visit_watchers p (w ∷ ws) S).0
  unfolding visit_watchers
  visited-Left p S w ws skip e left b rec = rw (visit_watchers, e) (rec S b)
  visited-Left p S w ws (kept d first) e left b rec =
      let m = rec (with_clause S w.cref d) (Bounded-with_clause S w.cref d left b) in
      rw (visit_watchers, e) (record { bounded = m.bounded; same_qhead = m.same_qhead })
  visited-Left p S w ws (moved d first l) e left b rec =
      let T = with_clause S w.cref d in
      let b' = Bounded-with_clause S w.cref d left b in
      let m =
        rec (push_watch T (neg l) (record { cref = w.cref; blocker = first }))
          (record { fits = b'.fits; inside = b'.inside; clauses = b'.clauses; bins = b'.bins }) in
      rw (visit_watchers, e) (record { bounded = m.bounded; same_qhead = m.same_qhead })
  visited-Left p S w ws (unit d first) e left b rec =
      let T = with_clause S w.cref d in
      let m =
        rec (with_solver T (assign S.solver first (by_clause w.cref)))
          (Bounded-assign T first w.cref left.2 left.1 (Bounded-with_clause S w.cref d left.0 b)) in
      rw (visit_watchers, e)
        (record {
          bounded = m.bounded;
          same_qhead = m.same_qhead ∙ qhead-assign S.solver first (by_clause w.cref);
        })
  visited-Left p S w ws (clash d first) e left b rec =
      rw (visit_watchers, e)
        (record { bounded = Bounded-with_clause S w.cref d left b; same_qhead = refl })

  pub visit_watchers-Moved :
      (p : Lit) (ws : List Watcher) (S : Search X)
      → var (neg p) < n
      → Bounded n Inside S
      → Moved n Inside S (visit_watchers p ws S).0
  unfolding visit_watchers
  visit_watchers-Moved p [] S lt b = record { bounded = b; same_qhead = refl }
  visit_watchers-Moved p (w ∷ ws) S lt b =
      visited-Left p S w ws (inspect S.solver p w.blocker (S.ca w.cref)) refl
        (inspect-Left n S.solver p w.blocker (S.ca w.cref) (b.clauses w.cref) lt) b
        (λ T b'. visit_watchers-Moved p ws T lt b')
