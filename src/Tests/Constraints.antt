-- ===== src/Tests/Constraints.antt =====
-- constraints/.
use glucose.Prelude.{
  ℕ, ◌%◌, ◌≤◌, ◌<◌, ◌≡◌, refl, ◌≢◌, ◌↔◌, inl, Bool, true, false, not, none, some, [], ◌∷◌, arith,
  ◌==◌, if◌then◌else◌,
}
use glucose.Prelude.Lists.{All, In, length}
use glucose.Prelude.Int.{pos}
use glucose.Lit.{Lit, Var, mk_lit, neg, var, sign}
use glucose.Lit.Truth.{Assignment, holds}
use glucose.Lbool.{l_true, l_false, l_undef}
use glucose.Solver.{
  Solver, no_reason, value, register_undo, enqueue, assign, add_each, add_num_pending_propagation,
}
use glucose.Solver.Agree.{Agrees}
use glucose.Constraint.Count.{count, IsDistinct}
use glucose.Constraint.AtMost
use glucose.Constraint.AtMost.{AtMost}
use glucose.Constraint.AtMost.Sound.{
  Meets, Counts, IsNews, counted_too, at_most_propagate-Agrees, at_most_propagate_complete,
}
use glucose.Constraint.AtMost.Reason.{explains, at_most_reason-explains}
use glucose.Constraint.Xor
use glucose.Constraint.Xor.{Xor}
use glucose.Constraint.Xor.Build.{xor_lits, xor_vars, IsSorted, vars_of, occurs, xor_of-meaning}
use glucose.Constraint.Xor.Cells.{xor_undo-decide}
use glucose.Constraint.Xor.Sound.{Tracks, xor_propagate-Agrees}
use glucose.Constraint.Xor.Reason.{AllHold, xor_reason-explains}

-- Variable 0 is true, the others have no value.
abbrev pub one_set : Solver
one_set = record {
  assigns = λ v. if v == 0 then l_true else l_undef;
  reason = λ v. no_reason;
  level = λ v. 0;
  trail = 0 ∷ [];
  trail_lim = [];
  qhead = 1;
  polarity = λ v. true;
  undo_lists = λ v. [];
  constr_watches = λ p. [];
  num_pending_propagation = λ c. pos 0;
  enqueue_failure = none;
  phase_saving = 2;
}

-- Variable 0 is true, and no other.
abbrev pub only_first : Assignment
only_first v = v == 0

pub only_first-Agrees : Agrees only_first one_set
only_first-Agrees v = ground arith

abbrev at_most_one : AtMost
at_most_one = record { lits = 0 ∷ 2 ∷ 4 ∷ []; threshold = 1; n_true = 0 }

abbrev nothing : Lit → Bool
nothing l = false

at_most_one-Counts : Counts one_set at_most_one nothing
at_most_one-Counts = record { total = refl; are_true = λ l e. cc }

at_most_one-IsNews : IsNews one_set at_most_one nothing 0
unfolding var sign
at_most_one-IsNews = record { of_lits = inl refl; is_true = refl; is_new = refl }

at_most_one-Meets : Meets only_first at_most_one
unfolding holds var sign
at_most_one-Meets = omega arith

at_most_one-IsDistinct : IsDistinct at_most_one.lits
at_most_one-IsDistinct = omega arith

-- The other two literals become false.
at_most_one_closes : value (AtMost.propagate one_set 7 at_most_one 0).0 4 ≡ l_false
unfolding AtMost.propagate enqueue assign add_num_pending_propagation add_each register_undo var
    sign neg
at_most_one_closes = refl

at_most_propagate-Agrees_example :
    let (t, d, done) = AtMost.propagate one_set 7 at_most_one 0 in
    (done ≡ true) × Agrees only_first t × Counts t d (counted_too nothing 0)
at_most_propagate-Agrees_example =
    at_most_propagate-Agrees only_first one_set 7 at_most_one nothing 0 at_most_one-IsDistinct
      at_most_one-Counts at_most_one-IsNews only_first-Agrees at_most_one-Meets

at_most_propagate_complete_example :
    let (t, d, done) = AtMost.propagate one_set 7 at_most_one 0 in
    (d.n_true ≤ d.threshold) × (d.n_true ≡ d.threshold → All (λ l. value t l ≢ l_undef) d.lits)
at_most_propagate_complete_example =
    at_most_propagate_complete one_set 7 at_most_one 0 at_most_propagate-Agrees_example.0

at_most_reason-explains_example :
    (1 < count (explains one_set none) at_most_one.lits
      → ¬ All (λ l. holds only_first l ≡ true) (AtMost.calc_reason one_set at_most_one none none))
    × ((l : Lit)
        → In l at_most_one.lits
        → value one_set l ≢ l_true
        → 1 ≤ count (explains one_set (some (neg l))) at_most_one.lits
        → All
            (λ l. holds only_first l ≡ true)
            (AtMost.calc_reason one_set at_most_one (some (neg l)) none)
        → holds only_first (neg l) ≡ true)
at_most_reason-explains_example =
    at_most_reason-explains only_first one_set at_most_one at_most_one-Meets

-- Variables 0 and 1, exactly one of them true.
abbrev one_of_two : Xor
one_of_two = record { cells = (0, none) ∷ (1, none) ∷ []; parity = true; n_undecided = 2 }

abbrev one_left : Xor
one_left = record { cells = (0, some true) ∷ (1, none) ∷ []; parity = false; n_undecided = 1 }

one_of_two-Tracks : Tracks one_set one_of_two true
one_of_two-Tracks = record { sorted = omega arith; valued = tt; parity_left = refl; counted = refl }

one_left-Tracks : Tracks one_set one_left true
one_left-Tracks = record {
  sorted = omega arith;
  valued = (refl, tt);
  parity_left = refl;
  counted = refl;
}

built :
    Xor.xor_of (0 ∷ 3 ∷ 0 ∷ []) true
    ≡ record { cells = (1, none) ∷ []; parity = false; n_undecided = 1 }
unfolding Xor.xor_of var sign
built = refl

xor_of-meaning_example :
    let c = Xor.xor_of (0 ∷ 3 ∷ 0 ∷ []) true in
    ((v : Var) → In v (vars_of c.cells) ↔ (occurs v (0 ∷ 3 ∷ 0 ∷ []) % 2 ≡ 1))
    × IsSorted (vars_of c.cells)
    × All (λ cell. cell.1 ≡ none) c.cells
    × (c.n_undecided ≡ length c.cells)
    × ((xor_lits only_first (0 ∷ 3 ∷ 0 ∷ []) ≡ true)
        ↔ (xor_vars only_first (vars_of c.cells) ≡ c.parity))
xor_of-meaning_example = xor_of-meaning only_first (0 ∷ 3 ∷ 0 ∷ []) true

xor_undo-decide_example : Xor.undo (Xor.decide one_of_two 0) 0 ≡ one_of_two
unfolding var
xor_undo-decide_example = xor_undo-decide one_of_two 0 (omega arith) (inl refl) refl

xor_propagate-Agrees_example :
    let (t, d, done) = Xor.propagate one_set 7 one_of_two 0 in
    (done ≡ true) × Agrees only_first t × Tracks t d true
unfolding var sign
xor_propagate-Agrees_example =
    xor_propagate-Agrees only_first one_set 7 one_of_two true 0 one_of_two-Tracks (inl refl) refl
      only_first-Agrees refl

xor_reason-explains_example :
    (one_left.n_undecided ≡ 0
      → one_left.parity ≡ true
      → ¬ AllHold only_first (Xor.calc_reason one_left none none))
    × ((e : Lit)
        → one_left.n_undecided ≡ 1
        → ¬ AllHold only_first (Xor.calc_reason one_left none (some e)))
    × ((v : ℕ)
        → one_left.n_undecided ≡ 1
        → In (v, none) one_left.cells
        → let p = mk_lit v (not one_left.parity) in
          AllHold only_first (Xor.calc_reason one_left (some p) none) → holds only_first p ≡ true)
xor_reason-explains_example =
    xor_reason-explains only_first one_set one_left true one_left-Tracks refl
