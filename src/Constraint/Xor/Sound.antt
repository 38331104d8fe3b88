-- ===== src/Constraint/Xor/Sound.antt =====
-- Propagation keeps every model of the constraint.
use glucose.Prelude.{
  ◌≡◌, refl, sym, ap, ◌∙◌, inl, inr, Bool, true, false, not, none, some, List, [], ◌∷◌, arith, ◌==◌,
  eq_of_==, Bool-cases, xor,
}
use glucose.Prelude.Lists.{In}
use glucose.Lit.{Lit, var, sign, mk_lit}
use glucose.Lit.Truth.{Assignment, holds, holds-mk_lit}
use glucose.Lbool.{l_true, of_bool}
use glucose.Solver.{Solver, ConstraintRef, value, register_undo, enqueue}
use glucose.Solver.Agree.{Agrees, Keeps, Keeps-trans, enqueue-Agrees, enqueue-Keeps}
use glucose.Constraint.Xor.{Cell, Xor, decide, react, enqueue_unset, propagate}
use glucose.Constraint.Xor.Build.{xor_vars, IsSorted, vars_of}
use glucose.Constraint.Xor.Cells.{
  known, remaining, undecided, Valued, Valued-Keeps, known-remaining, write-Written,
}

-- The state of the constraint: the cells hold the solver's values, the parity is what the given
-- parity leaves for the other variables, and the count is theirs.
pub record Tracks (s : Solver) (c : Xor) (given : Bool) : Type 0 where
  pub sorted : IsSorted (vars_of c.cells)
  pub valued : Valued s c.cells
  pub parity_left : xor c.parity (known c.cells) ≡ given
  pub counted : c.n_undecided ≡ undecided c.cells

-- The variables with no value have this one in the model.
abbrev pub AllOpen : Assignment → Bool → List Cell → Type 0
AllOpen a b [] = Unit
AllOpen a b ((v, none) ∷ cells) = (a v ≡ b) × AllOpen a b cells
AllOpen a b ((v, some x) ∷ cells) = AllOpen a b cells

pub none_open :
    (a : Assignment) (b : Bool) (cells : List Cell)
    → undecided cells ≡ 0
    → AllOpen a b cells × (remaining a cells ≡ false)
none_open a b [] h = (tt, refl)
none_open a b ((v, none) ∷ cells) h = absurd (omega arith)
none_open a b ((v, some x) ∷ cells) h = none_open a b cells h

pub one_open :
    (a : Assignment) (b : Bool) (cells : List Cell)
    → undecided cells ≡ 1
    → remaining a cells ≡ b
    → AllOpen a b cells
one_open a b [] h k = tt
one_open a b ((v, none) ∷ cells) h k =
    let (rest, nothing) = none_open a b cells (omega arith) in (ground arith, rest)
one_open a b ((v, some x) ∷ cells) h k = one_open a b cells h k

enqueue_unset-Agrees :
    (a : Assignment) (s : Solver) (self : ConstraintRef) (b : Bool) (cells : List Cell)
    → Agrees a s
    → AllOpen a b cells
    → Agrees a (enqueue_unset s self b cells).0 × ((enqueue_unset s self b cells).1 ≡ true)
unfolding enqueue_unset
enqueue_unset-Agrees a s self b [] h k = (h, refl)
enqueue_unset-Agrees a s self b ((v, some x) ∷ cells) h k =
    enqueue_unset-Agrees a s self b cells h k
enqueue_unset-Agrees a s self b ((v, none) ∷ cells) h k =
    let holds_it : holds a (mk_lit v (not b)) ≡ true = ground (arith, holds-mk_lit a v (not b)) in
    let (agrees, done) = enqueue-Agrees a s (mk_lit v (not b)) self holds_it h in
    rw done (enqueue_unset-Agrees a (enqueue s (mk_lit v (not b)) self).0 self b cells agrees k.1)

enqueue_unset-Keeps :
    (s : Solver) (self : ConstraintRef) (b : Bool) (cells : List Cell)
    → Keeps s (enqueue_unset s self b cells).0
unfolding enqueue_unset
enqueue_unset-Keeps s self b [] = λ v b e. e
enqueue_unset-Keeps s self b ((v, some x) ∷ cells) = enqueue_unset-Keeps s self b cells
enqueue_unset-Keeps s self b ((v, none) ∷ cells) =
    let t = (enqueue s (mk_lit v (not b)) self).0 in
    let step = enqueue-Keeps s (mk_lit v (not b)) self in
    elim (Bool-cases (enqueue s (mk_lit v (not b)) self).1) [
      | inl done ↦ rw done (
          Keeps-trans s t (enqueue_unset t self b cells).0 step
            (enqueue_unset-Keeps t self b cells))
      | inr failed ↦ rw failed step
    ]

react-Keeps : (s : Solver) (self : ConstraintRef) (c : Xor) → Keeps s (react s self c).0
unfolding react
react-Keeps s self c = elim (Bool-cases (c.n_undecided == 0)) [
  | inl z ↦ rw z (λ v b e. e)
  | inr nz ↦ rw nz (elim (Bool-cases (c.n_undecided == 1)) [
    | inl one ↦ rw one (enqueue_unset-Keeps s self c.parity c.cells)
    | inr more ↦ rw more (λ v b e. e)
  ])
]

react-Agrees :
    (a : Assignment) (s : Solver) (self : ConstraintRef) (c : Xor) (given : Bool)
    → Agrees a s
    → Tracks s c given
    → xor_vars a (vars_of c.cells) ≡ given
    → Agrees a (react s self c).0 × ((react s self c).1 ≡ true)
unfolding react
react-Agrees a s self c given agrees t meets =
    let left : remaining a c.cells ≡ c.parity =
      ground (arith, known-remaining a s c.cells agrees t.valued, t.parity_left) in
    elim (Bool-cases (c.n_undecided == 0)) [
      | inl z ↦ rw z (agrees, ground (arith, t.counted, none_open a true c.cells))
      | inr nz ↦ rw nz (elim (Bool-cases (c.n_undecided == 1)) [
        | inl one ↦ rw one (
            enqueue_unset-Agrees a s self c.parity c.cells agrees
              (one_open a c.parity c.cells (sym t.counted ∙ eq_of_== _ _ one) left))
        | inr more ↦ rw more (agrees, refl)
      ])
    ]

decide-Tracks :
    (s : Solver) (c : Xor) (given : Bool) (p : Lit)
    → Tracks s c given
    → In (var p, none) c.cells
    → value s p ≡ l_true
    → Tracks s (decide c p) given × (vars_of (decide c p).cells ≡ vars_of c.cells)
unfolding decide
decide-Tracks s c given p tr m h =
    let w = write-Written (var p) (not (sign p)) c.cells tr.sorted m in
    let here : s.assigns (var p) ≡ of_bool (not (sign p)) = ground arith in
    (
      record {
        sorted = rw (w.written, w.same_vars) tr.sorted;
        valued = rw w.written (w.valued s here tr.valued);
        parity_left = rw (w.written, w.known_more) (ground (arith, tr.parity_left));
        counted = rw w.written (omega (arith, w.one_less, tr.counted));
      },
      rw w.written w.same_vars,
    )

-- Let the constraint's state be right for the given parity, and let `p` be true, of a variable whose
-- cell has no value. If the assignment meets the parity and agrees with the solver's values,
-- `propagate` reports no conflict, sets no value against the assignment, and the state is right
-- again.
pub xor_propagate-Agrees :
    (a : Assignment) (s : Solver) (self : ConstraintRef) (c : Xor) (given : Bool) (p : Lit)
    → Tracks s c given
    → In (var p, none) c.cells
    → value s p ≡ l_true
    → Agrees a s
    → xor_vars a (vars_of c.cells) ≡ given
    → let (t, d, done) = propagate s self c p in (done ≡ true) × Agrees a t × Tracks t d given
unfolding propagate register_undo
xor_propagate-Agrees a s self c given p tr m h agrees meets =
    let s' = register_undo s (var p) self in
    let (tr', vars) = decide-Tracks s c given p tr m h in
    let up : Tracks s' (decide c p) given = record {
      sorted = tr'.sorted;
      valued = tr'.valued;
      parity_left = tr'.parity_left;
      counted = tr'.counted;
    } in
    let (keeps, done) =
      react-Agrees a s' self (decide c p) given agrees up (ap (xor_vars a) vars ∙ meets) in
    (
      done,
      keeps,
      record {
        sorted = tr'.sorted;
        valued =
            Valued-Keeps s' (react s' self (decide c p)).0 (decide c p).cells
              (react-Keeps s' self (decide c p)) tr'.valued;
        parity_left = tr'.parity_left;
        counted = tr'.counted;
      },
    )
