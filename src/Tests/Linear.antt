-- ===== src/Tests/Linear.antt =====
-- The linear constraint x - y - 1 >= 0, of x from 0 to 2 and y from 0 to 1.
use glucose.Prelude.{ℕ, zero, suc, ◌≡◌, refl, true, none, some, [], ◌∷◌, arith}
use glucose.Prelude.Lists.{All}
use glucose.Prelude.Int.{pos, negsuc, ltb_ℤ, ◌+ℤ◌, ◌-ℤ◌, ◌*ℤ◌}
use glucose.Lit.{neg, var, sign}
use glucose.Lit.Truth.{Assignment, holds}
use glucose.Lbool.{l_true}
use glucose.Solver.{value, register_undo, enqueue, assign, add_each, add_num_pending_propagation}
use glucose.Solver.Agree.{Agrees}
use glucose.Constraint.Linear.{LinearTerm, Linear, linear_of, propagate, tighten, undo, calc_reason}
use glucose.Constraint.Linear.Bounds.{IsRising}
use glucose.Constraint.Linear.Undo.{linear_undo-propagate}
use glucose.Constraint.Linear.State.{Tracks, Meets}
use glucose.Constraint.Linear.Sound.{IsLinear, linear_propagate-Agrees}
use glucose.Constraint.Linear.Reason.{Forces, linear_reason-explains}
use glucose.Tests.Constraints.{one_set}

abbrev x_term : LinearTerm
x_term = record { lits = 2 ∷ 4 ∷ []; domain = pos 0 ∷ pos 1 ∷ pos 2 ∷ []; coef = pos 1 }

abbrev y_term : LinearTerm
y_term = record { lits = 0 ∷ []; domain = pos 0 ∷ pos 1 ∷ []; coef = negsuc 0 }

abbrev y_normal : LinearTerm
y_normal = record { lits = 1 ∷ []; domain = negsuc 0 ∷ pos 0 ∷ []; coef = negsuc 0 }

abbrev pub difference : Linear
difference = record {
  terms = x_term ∷ y_normal ∷ [];
  lits = (1, 1, 0) ∷ (2, 0, 0) ∷ (4, 0, 1) ∷ [];
  ub_index = 2 ∷ 1 ∷ [];
  undo_list = [];
  active_lits = [];
  constant = negsuc 0;
  total_ub = pos 1;
}

built : linear_of (x_term ∷ y_term ∷ []) (negsuc 0) ≡ difference
unfolding linear_of neg ◌+ℤ◌ ◌*ℤ◌
built = refl

-- Once y is 1, x is 2.
x_forced : value (propagate one_set 7 difference 0).0 4 ≡ l_true
unfolding propagate enqueue assign add_num_pending_propagation add_each register_undo var sign neg
    ◌-ℤ◌ tighten
x_forced = refl

abbrev pub all_true : Assignment
all_true v = true

pub all_true-Agrees : Agrees all_true one_set
all_true-Agrees v = ground arith

x-IsRising : IsRising x_term.domain
x-IsRising zero zero h k = omega arith
x-IsRising zero (suc zero) h k = omega arith
x-IsRising zero (suc (suc zero)) h k = omega arith
x-IsRising (suc zero) zero h k = absurd (omega arith)
x-IsRising (suc zero) (suc zero) h k = omega arith
x-IsRising (suc zero) (suc (suc zero)) h k = omega arith
x-IsRising (suc (suc i)) zero h k = absurd (omega arith)
x-IsRising (suc (suc i)) (suc zero) h k = absurd (omega arith)
x-IsRising (suc (suc zero)) (suc (suc zero)) h k = omega arith
x-IsRising (suc (suc (suc i))) (suc (suc zero)) h k = absurd (omega arith)
x-IsRising i (suc (suc (suc j))) h k = absurd (omega arith)

y-IsRising : IsRising y_normal.domain
y-IsRising zero zero h k = omega arith
y-IsRising zero (suc zero) h k = omega arith
y-IsRising (suc i) zero h k = absurd (omega arith)
y-IsRising (suc zero) (suc zero) h k = omega arith
y-IsRising (suc (suc i)) (suc zero) h k = absurd (omega arith)
y-IsRising i (suc (suc j)) h k = absurd (omega arith)

pub difference-IsLinear : IsLinear difference
difference-IsLinear = record {
  are_terms = (
    record { rising = x-IsRising; sized = refl },
    (record { rising = y-IsRising; sized = refl }, tt),
  );
  are_entries = (
    (omega arith, omega arith, refl),
    ((omega arith, omega arith, refl), ((omega arith, omega arith, refl), tt)),
  );
}

pub difference-Tracks : Tracks one_set difference
unfolding ◌+ℤ◌
difference-Tracks = record {
  closed = (omega arith, λ lt. absurd (omega arith), (omega arith, λ lt. absurd (omega arith), tt));
  total = refl;
}

pub difference-Meets : Meets all_true difference
unfolding holds var sign ◌+ℤ◌
difference-Meets = omega arith

linear_propagate-Agrees_example :
    let (t, d, done) = propagate one_set 7 difference 0 in
    (done ≡ true) × Agrees all_true t × Tracks t d
unfolding var sign
linear_propagate-Agrees_example =
    linear_propagate-Agrees all_true one_set 7 difference 0 difference-IsLinear difference-Tracks
      refl all_true-Agrees difference-Meets

linear_undo-propagate_example : undo (propagate one_set 7 difference 0).1 ≡ difference
linear_undo-propagate_example =
    linear_undo-propagate one_set 7 difference 0 (omega arith, (omega arith, (omega arith, tt)))

linear_reason-explains_example :
    (ltb_ℤ difference.total_ub (pos 0) ≡ true
      → ¬ All (λ l. holds all_true l ≡ true) (calc_reason difference none))
    × ((p : ℕ)
        → Forces p difference.total_ub difference.terms difference.ub_index
        → (All (λ l. holds all_true l ≡ true) (calc_reason difference none)
            → holds all_true p ≡ true)
          × (¬ All (λ l. holds all_true l ≡ true) (calc_reason difference (some (neg p)))))
linear_reason-explains_example =
    linear_reason-explains all_true one_set difference difference-IsLinear.are_terms
      difference-Tracks difference-Meets
