-- ===== src/Constraint/Xor/Reason.antt =====
-- `calcReason` explains a conflict, a failed enqueue, and the literal that the constraint made true.
use glucose.Prelude.{
  ◌≡◌, refl, sym, ap, ◌∙◌, inl, inr, Bool, true, not, Option, none, some, List, [], ◌∷◌, arith, xor,
}
use glucose.Prelude.Lists.{All, In}
use glucose.Lit.{Lit, Var, mk_lit}
use glucose.Lit.Truth.{Assignment, holds, holds-mk_lit}
use glucose.Solver.{Solver}
use glucose.Constraint.Xor.{Cell, Xor, reason_of, calc_reason}
use glucose.Constraint.Xor.Build.{xor_vars, vars_of}
use glucose.Constraint.Xor.Cells.{known, remaining, undecided}
use glucose.Constraint.Xor.Sound.{Tracks, AllOpen, none_open, one_open}

-- The literals of the reason are true.
abbrev pub AllHold : Assignment → List Lit → Type 0
AllHold a = All (λ l. holds a l ≡ true)

-- Then the values that are set are the assignment's.
reason_known :
    (a : Assignment) (b : Bool) (p extra : Option Lit) (cells : List Cell)
    → AllHold a (reason_of b p extra cells)
    → xor_vars a (vars_of cells) ≡ xor (known cells) (remaining a cells)
unfolding reason_of
reason_known a b p extra [] h = refl
reason_known a b p extra ((v, some x) ∷ cells) h =
    ground (arith, reason_known a b p extra cells h.1, holds-mk_lit a v (not x), h.0)
reason_known a b none (some e) ((v, none) ∷ cells) h =
    ground (arith, reason_known a b none (some e) cells h.1)
reason_known a b none none ((v, none) ∷ cells) h =
    ground (arith, reason_known a b none none cells h)
reason_known a b (some p) none ((v, none) ∷ cells) h =
    ground (arith, reason_known a b (some p) none cells h)
reason_known a b (some p) (some e) ((v, none) ∷ cells) h =
    ground (arith, reason_known a b (some p) (some e) cells h)

-- After a failed enqueue the last open variable has the other value.
reason_open :
    (a : Assignment) (b : Bool) (e : Lit) (cells : List Cell)
    → AllHold a (reason_of b none (some e) cells)
    → AllOpen a (not b) cells
unfolding reason_of
reason_open a b e [] h = tt
reason_open a b e ((v, some x) ∷ cells) h = reason_open a b e cells h.1
reason_open a b e ((v, none) ∷ cells) h =
    (ground (arith, holds-mk_lit a v b, h.0), reason_open a b e cells h.1)

both_ways :
    (a : Assignment) (b : Bool) (cells : List Cell)
    → undecided cells ≡ 1
    → AllOpen a b cells
    → AllOpen a (not b) cells
    → ⊥
both_ways a b [] n h k = absurd (omega arith)
both_ways a b ((v, some x) ∷ cells) n h k = both_ways a b cells n h k
both_ways a b ((v, none) ∷ cells) n h k = ground (arith, h.0, k.0)

open_value :
    (a : Assignment) (b : Bool) (v : Var) (cells : List Cell)
    → AllOpen a b cells
    → In (v, none) cells
    → a v ≡ b
open_value a b v [] h m = absurd m
open_value a b v ((w, some x) ∷ cells) h (inl e) = absurd (ground arith)
open_value a b v ((w, some x) ∷ cells) h (inr m) = open_value a b v cells h m
open_value a b v ((w, none) ∷ cells) h (inl e) = sym (ap (λ c. a c.0) e) ∙ h.0
open_value a b v ((w, none) ∷ cells) h (inr m) = open_value a b v cells h.1 m

-- The state of the constraint being right for the given parity, no assignment with that parity
-- makes all literals of the reason true: where every cell has a value and the parity is wrong; and
-- where one cell has none and the literal for it failed to be enqueued. Where one cell has none, an
-- assignment with that parity that makes all literals of the reason true makes the literal true that
-- `propagate` enqueues for it.
pub xor_reason-explains :
    (a : Assignment) (s : Solver) (c : Xor) (given : Bool)
    → Tracks s c given
    → xor_vars a (vars_of c.cells) ≡ given
    → (c.n_undecided ≡ 0 → c.parity ≡ true → ¬ AllHold a (calc_reason c none none))
      × ((e : Lit) → c.n_undecided ≡ 1 → ¬ AllHold a (calc_reason c none (some e)))
      × ((v : Var)
          → c.n_undecided ≡ 1
          → In (v, none) c.cells
          → let p = mk_lit v (not c.parity) in
            AllHold a (calc_reason c (some p) none) → holds a p ≡ true)
unfolding calc_reason
xor_reason-explains a s c given t meets = (
  λ n wrong h. ground (arith, left none none h, none_open a true c.cells (sym t.counted ∙ n)),
  λ e n h.
      both_ways a c.parity c.cells (sym t.counted ∙ n)
        (one_open a c.parity c.cells (sym t.counted ∙ n) (left none (some e) h))
        (reason_open a c.parity e c.cells h),
  λ v n m h.
      let value =
        open_value a c.parity v c.cells
          (one_open a c.parity c.cells (sym t.counted ∙ n)
            (left (some (mk_lit v (not c.parity))) none h))
          m in
      ground (arith, holds-mk_lit a v (not c.parity), value),
)
  where
    left :
        (p extra : Option Lit)
        → AllHold a (reason_of c.parity p extra c.cells)
        → remaining a c.cells ≡ c.parity
    left p extra h = ground (arith, reason_known a c.parity p extra c.cells h, t.parity_left, meets)
