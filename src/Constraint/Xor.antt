-- ===== src/Constraint/Xor.antt =====
-- constraints/Xor.cc: the exclusive or of the literals is the parity. `vars_` and `value_`, vectors of
-- one length, are one list of cells; -1 in `value_` is `none`, and the numbers 0 and 1 are Booleans.
pub mod Build
pub mod Cells
pub mod Sound
pub mod Reason
use glucose.Prelude.{
  ℕ, zero, suc, ◌+◌, ◌-◌, ◌*◌, ◌/◌, ◌%◌, ◌^◌, ◌≤◌, ◌<◌, ◌≡◌, refl, sym, ap, subst, ◌∙◌, ◌≢◌, ◌↔◌,
  ◌⊎◌, inl, inr, Bool, true, false, not, ◌&&◌, ◌||◌, Option, none, some, List, [], ◌∷◌, ◌++◌, map,
  arith, ltb, leb, ◌==◌, if◌then◌else◌, ==_iff, ==_refl, ==_ne, eq_of_==, Bool-cases, Option-cases,
  update, xor,
}
use glucose.Prelude.Lists.{length}
use glucose.Lit.{Lit, Var, mk_lit, neg, var, sign}
use glucose.Lbool.{Lbool, l_true, l_false, l_undef, eq}
use glucose.Solver.{Solver, ConstraintRef, value_var, register_undo, enqueue, add_watch}

abbrev pub Cell : Type 0
Cell = Var × Option Bool

pub record Xor : Type 0 where
  pub cells : List Cell
  pub parity : Bool
  pub n_undecided : ℕ

-- std::set<Var>, as its elements in order: `erase` if the variable is there, `insert` if not.
unfoldable pub toggle : Var → List Var → List Var
toggle v [] = v ∷ []
toggle v (w ∷ ws) =
    let rest = toggle v ws in if v == w then ws else if ltb v w then v ∷ w ∷ ws else w ∷ rest

-- The loop of the constructor: the set of variables and the parity.
unfoldable pub normalize : List Lit → List Var → Bool → List Var × Bool
normalize [] vars parity = (vars, parity)
normalize (l ∷ ls) vars parity = normalize ls (toggle (var l) vars) (xor (sign l) parity)

abbrev pub unset : List Var → List Cell
unset [] = []
unset (v ∷ vs) = (v, none) ∷ unset vs

-- The constructor.
unfoldable pub xor_of : List Lit → Bool → Xor
unfolding normalize toggle
xor_of lits parity =
    let (vars, p) = normalize lits [] parity in
    record { cells = unset vars; parity = p; n_undecided = length vars }

-- varIndex: the first cell whose variable is not below `v`.
unfoldable pub var_index : Var → List Cell → ℕ
var_index v [] = 0
var_index v ((w, x) ∷ cells) = if ltb w v then suc (var_index v cells) else 0

-- `value_[idx] = x`
unfoldable pub write : ℕ → Option Bool → List Cell → List Cell
write i x [] = []
write zero x ((w, y) ∷ cells) = (w, x) ∷ cells
write (suc i) x (cell ∷ cells) = cell ∷ write i x cells

-- `value_[idx]`
unfoldable pub read : ℕ → List Cell → Option Bool
read i [] = none
read zero ((w, y) ∷ cells) = y
read (suc i) (cell ∷ cells) = read i cells

-- The loop over the cells with no value.
unfoldable pub enqueue_unset : Solver → ConstraintRef → Bool → List Cell → Solver × Bool
enqueue_unset s self parity [] = (s, true)
enqueue_unset s self parity ((v, some x) ∷ cells) = enqueue_unset s self parity cells
enqueue_unset s self parity ((v, none) ∷ cells) =
    let (t, done) = enqueue s (mk_lit v (not parity)) self in
    let rest = enqueue_unset t self parity cells in if done then rest else (t, false)

-- The rest of `propagate`, at the new state.
unfoldable pub react : Solver → ConstraintRef → Xor → Solver × Bool
react s self c =
    if c.n_undecided == 0
    then (s, not c.parity)
    else if c.n_undecided == 1
    then enqueue_unset s self c.parity c.cells
    else (s, true)

-- The state that `propagate` moves to.
unfoldable pub decide : Xor → Lit → Xor
unfolding var_index write
decide c p = record {
  cells = write (var_index (var p) c.cells) (some (not (sign p))) c.cells;
  parity = xor (not (sign p)) c.parity;
  n_undecided = c.n_undecided - 1;
}

unfoldable pub propagate : Solver → ConstraintRef → Xor → Lit → Solver × Xor × Bool
propagate s self c p =
    let (t, done) = react (register_undo s (var p) self) self (decide c p) in (t, decide c p, done)

-- `parity_ ^= value_[idx]`, where the source asserts that the cell has a value.
unfoldable pub undo : Xor → Lit → Xor
undo c p =
    let i = var_index (var p) c.cells in
    record {
      cells = write i none c.cells;
      parity = (elim (read i c.cells) [ none ↦ c.parity | some x ↦ xor x c.parity ]);
      n_undecided = c.n_undecided + 1;
    }

-- The cells' literals that `calcReason` pushes.
unfoldable pub reason_of : Bool → Option Lit → Option Lit → List Cell → List Lit
reason_of parity p extra [] = []
reason_of parity p extra ((v, some x) ∷ cells) = mk_lit v (not x) ∷ reason_of parity p extra cells
reason_of parity none (some e) ((v, none) ∷ cells) =
    mk_lit v parity ∷ reason_of parity none (some e) cells
reason_of parity p extra ((v, none) ∷ cells) = reason_of parity p extra cells

unfoldable pub calc_reason : Xor → Option Lit → Option Lit → List Lit
calc_reason c p extra = reason_of c.parity p extra c.cells

-- The first loop of `initialize`.
pub watch_all : Solver → ConstraintRef → List Cell → Solver
watch_all s self [] = s
watch_all s self ((v, x) ∷ cells) =
    watch_all (add_watch (add_watch s (mk_lit v false) self) (mk_lit v true) self) self cells

-- The second loop, over the variables that have a value already.
pub propagate_set : Solver → ConstraintRef → Xor → List Cell → Solver × Xor × Bool
propagate_set s self c [] = (s, c, true)
propagate_set s self c ((v, x) ∷ cells) =
    let step : Solver × Xor × Bool = elim (value_var s v) [
      | l_true ↦ propagate s self c (mk_lit v false)
      | l_false ↦ propagate s self c (mk_lit v true)
      | l_undef ↦ (s, c, true)
    ] in
    let (t, d, done) = step in
    let rest = propagate_set t self d cells in if done then rest else (t, d, false)

pub initialize : Solver → ConstraintRef → Xor → Solver × Xor × Bool
initialize s self c =
    let (t, d, done) = propagate_set (watch_all s self c.cells) self c c.cells in
    if not done then (t, d, false) else (t, d, not (length d.cells == 0 && d.parity))
