-- ===== src/Constraint/Xor/Cells.antt =====
-- The cells of the constraint: what a write to the cell of a variable changes.
use glucose.Prelude.{
  ℕ, suc, ◌+◌, ◌-◌, ◌<◌, ◌≡◌, refl, sym, ap, subst, inl, inr, Bool, true, false, not, Option, none,
  some, List, [], ◌∷◌, arith, ltb, xor,
}
use glucose.Prelude.Lists.{In, All-In}
use glucose.Lit.{Lit, Var, var, sign}
use glucose.Lit.Truth.{Assignment}
use glucose.Lbool.{of_bool}
use glucose.Solver.{Solver}
use glucose.Solver.Agree.{Agrees, Keeps}
use glucose.Constraint.Xor.{Cell, Xor, var_index, write, read, decide, undo}
use glucose.Constraint.Xor.Build.{xor_vars, IsSorted, vars_of}

-- The exclusive or of the values that are set, and of a model's values of the other variables.
abbrev pub known : List Cell → Bool
known [] = false
known ((v, none) ∷ cells) = known cells
known ((v, some x) ∷ cells) = xor x (known cells)

abbrev pub remaining : Assignment → List Cell → Bool
remaining a [] = false
remaining a ((v, none) ∷ cells) = xor (a v) (remaining a cells)
remaining a ((v, some x) ∷ cells) = remaining a cells

abbrev pub undecided : List Cell → ℕ
undecided [] = 0
undecided ((v, none) ∷ cells) = suc (undecided cells)
undecided ((v, some x) ∷ cells) = undecided cells

-- The values that are set are the solver's.
abbrev pub Valued : Solver → List Cell → Type 0
Valued s [] = Unit
Valued s ((v, none) ∷ cells) = Valued s cells
Valued s ((v, some x) ∷ cells) = (s.assigns v ≡ of_bool x) × Valued s cells

pub Valued-Keeps : (s t : Solver) (cells : List Cell) → Keeps s t → Valued s cells → Valued t cells
Valued-Keeps s t [] h k = tt
Valued-Keeps s t ((v, none) ∷ cells) h k = Valued-Keeps s t cells h k
Valued-Keeps s t ((v, some x) ∷ cells) h k = (h v x k.0, Valued-Keeps s t cells h k.1)

pub known-remaining :
    (a : Assignment) (s : Solver) (cells : List Cell)
    → Agrees a s
    → Valued s cells
    → xor_vars a (vars_of cells) ≡ xor (known cells) (remaining a cells)
known-remaining a s [] h k = refl
known-remaining a s ((v, none) ∷ cells) h k = ground (arith, known-remaining a s cells h k)
known-remaining a s ((v, some x) ∷ cells) h k =
    ground (arith, known-remaining a s cells h k.1, h v, k.0)

-- The cell of `v` in sorted cells, and the others.
pub record Written (v : Var) (x : Bool) (cells : List Cell) : Type 0 where
  pub cells' : List Cell
  pub written : write (var_index v cells) (some x) cells ≡ cells'
  pub known_more : known cells' ≡ xor x (known cells)
  pub one_less : undecided cells ≡ suc (undecided cells')
  pub same_vars : vars_of cells' ≡ vars_of cells
  pub valued : (s : Solver) → s.assigns v ≡ of_bool x → Valued s cells → Valued s cells'
  pub same_index : var_index v cells' ≡ var_index v cells
  pub read_back : read (var_index v cells) cells' ≡ some x
  pub undone : write (var_index v cells) none cells' ≡ cells

head_Written : (v : Var) (x : Bool) (cells : List Cell) → Written v x ((v, none) ∷ cells)
unfolding var_index write read
head_Written v x cells = record {
  cells' = (v, some x) ∷ cells;
  written = ground arith;
  known_more = refl;
  one_less = refl;
  same_vars = refl;
  valued = λ s e h. (e, h);
  same_index = refl;
  read_back = ground arith;
  undone = ground arith;
}

known_cons :
    (w : Var) (y : Option Bool) (x : Bool) (cells cells' : List Cell)
    → known cells' ≡ xor x (known cells)
    → known ((w, y) ∷ cells') ≡ xor x (known ((w, y) ∷ cells))
known_cons w none x cells cells' h = h
known_cons w (some y) x cells cells' h = ground arith

undecided_cons :
    (w : Var) (y : Option Bool) (cells cells' : List Cell)
    → undecided cells ≡ suc (undecided cells')
    → undecided ((w, y) ∷ cells) ≡ suc (undecided ((w, y) ∷ cells'))
undecided_cons w none cells cells' h = ap suc h
undecided_cons w (some y) cells cells' h = h

Valued-cons :
    (s : Solver) (w : Var) (y : Option Bool) (cells cells' : List Cell)
    → (Valued s cells → Valued s cells')
    → Valued s ((w, y) ∷ cells)
    → Valued s ((w, y) ∷ cells')
Valued-cons s w none cells cells' h k = h k
Valued-cons s w (some y) cells cells' h k = (k.0, h k.1)

tail_Written :
    (v : Var) (x : Bool) (w : Var) (y : Option Bool) (cells : List Cell)
    → w < v
    → Written v x cells
    → Written v x ((w, y) ∷ cells)
unfolding var_index write read
tail_Written v x w y cells h r =
    let below : ltb w v ≡ true = ground arith in
    record {
      cells' = (w, y) ∷ r.cells';
      written = rw below (ap (◌∷◌ (w, y)) r.written);
      known_more = known_cons w y x cells r.cells' r.known_more;
      one_less = undecided_cons w y cells r.cells' r.one_less;
      same_vars = ap (◌∷◌ w) r.same_vars;
      valued = λ s e. Valued-cons s w y cells r.cells' (r.valued s e);
      same_index = rw below (ap suc r.same_index);
      read_back = rw below r.read_back;
      undone = rw below (ap (◌∷◌ (w, y)) r.undone);
    }

In-vars_of :
    (v : Var) (y : Option Bool) (cells : List Cell) → In (v, y) cells → In v (vars_of cells)
In-vars_of v y [] m = absurd m
In-vars_of v y ((w, z) ∷ cells) (inl e) = inl (ap (λ c. c.0) e)
In-vars_of v y ((w, z) ∷ cells) (inr m) = inr (In-vars_of v y cells m)

pub write-Written :
    (v : Var) (x : Bool) (cells : List Cell)
    → IsSorted (vars_of cells)
    → In (v, none) cells
    → Written v x cells
write-Written v x [] h m = absurd m
write-Written v x ((w, y) ∷ cells) h (inl e) =
    subst (λ c. Written v x (c ∷ cells)) (sym e) (head_Written v x cells)
write-Written v x ((w, y) ∷ cells) h (inr m) =
    tail_Written v x w y cells (All-In (λ u. w < u) (vars_of cells) h.0 (In-vars_of v none cells m))
      (write-Written v x cells h.1 m)

-- `undo` after `propagate` brings back the state of the constraint, where the cells are sorted and
-- that of the literal's variable had no value.
pub xor_undo-decide :
    (c : Xor) (p : Lit)
    → IsSorted (vars_of c.cells)
    → In (var p, none) c.cells
    → c.n_undecided ≡ undecided c.cells
    → undo (decide c p) p ≡ c
unfolding undo decide
xor_undo-decide c p h m e =
    let w = write-Written (var p) (not (sign p)) c.cells h m in
    let counted : c.n_undecided - 1 + 1 ≡ c.n_undecided = omega (arith, w.one_less) in
    rw (w.written, w.same_index, w.read_back, w.undone, counted) (ground arith)
