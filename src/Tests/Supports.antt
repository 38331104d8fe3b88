-- ===== src/Tests/Supports.antt =====
-- Two variables with two values each, which are to be equal.
use glucose.Prelude.{
  ℕ, zero, suc, ◌<◌, ◌≡◌, refl, inl, true, false, ◌||◌, none, some, [], ◌∷◌, arith, ◌==◌,
}
use glucose.Prelude.Lists.{All, get_or}
use glucose.Lbool.{l_false}
use glucose.Lit.{Lit, neg, var, sign}
use glucose.Lit.Truth.{Assignment, holds}
use glucose.Solver.{value, register_undo, enqueue, assign, add_each, add_num_pending_propagation}
use glucose.Solver.Agree.{Agrees}
use glucose.Constraint.Supports.{Supports, supports_of, propagate, undo, learn}
use glucose.Constraint.Supports.Undo.{supports_undo-propagate}
use glucose.Constraint.Supports.Table.{Takes}
use glucose.Constraint.Supports.Known.{Known, IsEntry, Meets}
use glucose.Constraint.Supports.Sound.{supports_propagate-Agrees}
use glucose.Tests.Constraints.{one_set}

abbrev equal : Supports
equal = record {
  vars = (0 ∷ 2 ∷ []) ∷ (4 ∷ 6 ∷ []) ∷ [];
  supports = (some 0 ∷ some 0 ∷ []) ∷ (some 1 ∷ some 1 ∷ []) ∷ [];
  lits = (0, 0, 0) ∷ (2, 0, 1) ∷ (4, 1, 0) ∷ (6, 1, 1) ∷ [];
  known_values = none ∷ none ∷ [];
  undo_list = [];
  active_lits = [];
}

built : supports_of equal.vars equal.supports ≡ equal
unfolding supports_of
built = refl

-- Once the first variable has its first value, the second one cannot have its second.
pruned : value (propagate one_set 7 equal 0).0 6 ≡ l_false
unfolding propagate learn enqueue assign add_num_pending_propagation add_each register_undo var sign
    neg
pruned = refl

supports_undo-propagate_example : undo (propagate one_set 7 equal 0).1 ≡ equal
supports_undo-propagate_example = supports_undo-propagate one_set 7 equal 0

-- Each variable has its first value.
abbrev both_first : Assignment
both_first v = v == 0 || v == 2

both_first-Agrees : Agrees both_first one_set
both_first-Agrees v = ground arith

places :
    (a : Assignment) (l m : Lit)
    → holds a l ≡ true
    → holds a m ≡ false
    → (j : ℕ) → j < 2
    → holds a (get_or (l ∷ m ∷ []) j 0) ≡ (j == 0)
places a l m h k zero lt = h
places a l m h k (suc zero) lt = k
places a l m h k (suc (suc j)) lt = absurd (omega arith)

first_of_two :
    (a : Assignment) (l m : Lit) → holds a l ≡ true → holds a m ≡ false → Takes a (l ∷ m ∷ []) 0
first_of_two a l m h k = record { inside = omega arith; only = places a l m h k }

equal-Meets : Meets both_first equal
unfolding holds var sign
equal-Meets = record {
  values = 0 ∷ 0 ∷ [];
  taken = (first_of_two both_first 0 2 refl refl, (first_of_two both_first 4 6 refl refl, tt));
  row = some 0 ∷ some 0 ∷ [];
  listed = inl refl;
  covered = (refl, (refl, tt));
}

equal_entries : All (IsEntry equal.vars) equal.lits
equal_entries = (
  (omega arith, omega arith, refl),
  (
    (omega arith, omega arith, refl),
    ((omega arith, omega arith, refl), ((omega arith, omega arith, refl), tt)),
  ),
)

supports_propagate-Agrees_example :
    let (t, d, done) = propagate one_set 7 equal 0 in
    (done ≡ true) × Agrees both_first t × Known t d.vars d.known_values
unfolding var sign
supports_propagate-Agrees_example =
    supports_propagate-Agrees both_first one_set 7 equal 0 equal_entries tt refl both_first-Agrees
      equal-Meets
