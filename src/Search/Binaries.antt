-- ===== src/Search/Binaries.antt =====
-- The loop over the binary clauses of a literal.
use glucose.Prelude.{ℕ, ◌<◌, ◌≡◌, refl, ◌∙◌, inl, inr, true, Option, none, List, [], ◌∷◌, arith}
use glucose.Prelude.Lists.{All}
use glucose.Lit.{var}
use glucose.Lit.Truth.{Assignment, holds}
use glucose.Lbool.{l_undef, Lbool-cases}
use glucose.Solver.{value, assign, by_clause}
use glucose.Solver.Agree.{Keeps, Keeps-trans, assign-Keeps, value-Agrees}
use glucose.Search.{Watcher, Search, with_solver, visit_binaries}
use glucose.Search.Fine.{Fine, assign-Fine, qhead-assign}

-- The other literal of a binary clause, where the one that is watched is false in the assignment.
abbrev pub Implied : Assignment → ℕ → Watcher → Type 0
Implied a n w = (holds a w.blocker ≡ true) × (var w.blocker < n)

pub record Advanced {X : Type 0} (a : Assignment) (n : ℕ) (S : Search X) (r : Search X × Option ℕ)
    : Type 0 where
  pub none_failing : r.1 ≡ none
  pub fine : Fine a n r.0.solver
  pub keeps : Keeps S.solver r.0.solver
  pub same_qhead : r.0.solver.qhead ≡ S.solver.qhead
  pub same_ca : r.0.ca ≡ S.ca
  pub same_watches : r.0.watches ≡ S.watches
  pub same_bin : r.0.watches_bin ≡ S.watches_bin
  pub same_constraints : r.0.constraints ≡ S.constraints

module _ {X : Type 0} (a : Assignment) (n : ℕ) where
  Advanced-assign :
      (S : Search X) (w : Watcher) (r : Search X × Option ℕ)
      → value S.solver w.blocker ≡ l_undef
      → Advanced a n (with_solver S (assign S.solver w.blocker (by_clause w.cref))) r
      → Advanced a n S r
  Advanced-assign S w r u v = record {
    none_failing = v.none_failing;
    fine = v.fine;
    keeps =
        Keeps-trans S.solver (assign S.solver w.blocker (by_clause w.cref)) r.0.solver
          (assign-Keeps S.solver w.blocker (by_clause w.cref) u) v.keeps;
    same_qhead = v.same_qhead ∙ qhead-assign S.solver w.blocker (by_clause w.cref);
    same_ca = v.same_ca;
    same_watches = v.same_watches;
    same_bin = v.same_bin;
    same_constraints = v.same_constraints;
  }

  pub visit_binaries-Advanced :
      (ws : List Watcher) (S : Search X)
      → All (Implied a n) ws
      → Fine a n S.solver
      → Advanced a n S (visit_binaries ws S)
  unfolding visit_binaries
  visit_binaries-Advanced [] S h f = record {
    none_failing = refl;
    fine = f;
    keeps = λ v b e. e;
    same_qhead = refl;
    same_ca = refl;
    same_watches = refl;
    same_bin = refl;
    same_constraints = refl;
  }
  visit_binaries-Advanced (w ∷ ws) S h f = elim (Lbool-cases (value S.solver w.blocker)) [
    | inl t ↦ rw (visit_binaries, t) (visit_binaries-Advanced ws S h.1 f)
    | inr (inl b) ↦ absurd (ground (arith, value-Agrees a S.solver w.blocker f.agrees, h.0.0))
    | inr (inr u) ↦
        let T = with_solver S (assign S.solver w.blocker (by_clause w.cref)) in
        rw (visit_binaries, u)
          (Advanced-assign S w (visit_binaries ws T) u (
            visit_binaries-Advanced ws T h.1
              (assign-Fine a n S.solver w.blocker (by_clause w.cref) h.0.0 u h.0.1 f)))
  ]
