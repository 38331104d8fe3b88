-- ===== src/Tests/Search.antt =====
-- core/Solver.cc.
use glucose.Prelude.{
  ℕ, ◌+◌, ◌≡◌, refl, inl, inr, [], ◌∷◌, arith, ◌==◌, eq_of_==, Bool-cases, update,
}
use glucose.Lbool.{l_true}
use glucose.Lit.{neg, var, sign}
use glucose.Solver.{Solver, ConstraintRef, decision_level}
use glucose.Solver.AddClause.{add_sorted, stored}
use glucose.Solver.AddClause.Normal.{Fits, add_sorted-Fits}
use glucose.Solver.Cancel.{cancel_until}
use glucose.Solver.Cancel.Restore.{DifferAt, cancel_until-restores}
use glucose.Tests.Constraints.{one_set, only_first, only_first-Agrees}

-- Variable 0 being true, its negation is dropped.
kept : add_sorted one_set (1 ∷ 2 ∷ 2 ∷ 5 ∷ []) ≡ stored (2 ∷ 5 ∷ [])
unfolding add_sorted var sign neg
kept = refl

add_sorted-Fits_example :
    Fits only_first one_set (1 ∷ 2 ∷ 2 ∷ 5 ∷ []) (add_sorted one_set (1 ∷ 2 ∷ 2 ∷ 5 ∷ []))
add_sorted-Fits_example =
    add_sorted-Fits only_first one_set (1 ∷ 2 ∷ 2 ∷ 5 ∷ []) only_first-Agrees (omega arith)

-- After a decision that sets variable 1, and a constraint to undo for it.
abbrev one_more : Solver
one_more = record one_set {
  assigns = update one_set.assigns 1 l_true;
  trail = 2 ∷ 0 ∷ [];
  trail_lim = 1 ∷ [];
  undo_lists = update one_set.undo_lists 1 (7 ∷ []);
}

abbrev count_undos : ConstraintRef → ℕ → ℕ → ℕ
count_undos c p n = n + c

one_differs : DifferAt one_set one_more (2 ∷ [])
unfolding var
one_differs v = elim (Bool-cases (1 == v)) [
  | inl same ↦ inl (inl (eq_of_== 1 v same))
  | inr other ↦ inr (rw other (refl, refl))
]

cancel_until-restores_example :
    let r = (cancel_until count_undos one_more 0 (decision_level one_set)).0 in
    ((v : ℕ) → r.assigns v ≡ one_set.assigns v)
    × ((v : ℕ) → r.undo_lists v ≡ one_set.undo_lists v)
    × (r.trail ≡ one_set.trail)
    × (r.trail_lim ≡ one_set.trail_lim)
    × (r.qhead ≡ 1)
unfolding var
cancel_until-restores_example =
    cancel_until-restores count_undos one_set one_more 0 (2 ∷ []) [] refl refl ((refl, refl), tt)
      one_differs

undone : (cancel_until count_undos one_more 0 0).1 ≡ 7
unfolding cancel_until var sign
undone = refl
