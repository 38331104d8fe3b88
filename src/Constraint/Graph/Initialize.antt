-- ===== src/Constraint/Graph/Initialize.antt =====
-- constraints/Graph.cc, initialize. `none` is a call of abort().
use glucose.Prelude.{ℕ, suc, Bool, true, false, Option, none, some, List, [], ◌∷◌, update}
use glucose.Lit.{Lit, neg}
use glucose.Lbool.{l_true, l_false, l_undef}
use glucose.Solver.{Solver, ConstraintRef, value, add_watch}
use glucose.Constraint.Linear.{insert_set}
use glucose.Constraint.Graph.{undecided, active, inactive, ActiveVerticesConnected}
use glucose.Constraint.Graph.Propagate.{propagate}

abbrev State : Type 0
State = ActiveVerticesConnected

-- The first loop of `initialize`, over the literals of the vertices from `i` on.
unfoldable pub read_values : Solver → List Lit → ℕ → State → State
read_values s [] i c = c
read_values s (l ∷ ls) i c = elim (value s l) [
  | l_true ↦
      read_values s ls (suc i)
        (record c { state = update c.state i active; decision_order = i ∷ c.decision_order })
  | l_false ↦
      read_values s ls (suc i)
        (record c { state = update c.state i inactive; decision_order = i ∷ c.decision_order })
  | l_undef ↦ read_values s ls (suc i) c
]

-- `lits_unique`, a std::set<Lit>.
unfoldable pub both_signs : List Lit → List Lit → List Lit
unfolding insert_set
both_signs [] set = set
both_signs (l ∷ ls) set = both_signs ls (insert_set (neg l) (insert_set l set))

unfoldable pub watch_all : Solver → ConstraintRef → List Lit → Solver
watch_all s self [] = s
watch_all s self (l ∷ ls) = watch_all (add_watch s l self) self ls

-- `propagate_lits`, a std::set<Lit>, over the vertices from `i` on.
unfoldable pub set_lits : State → List Lit → ℕ → List Lit → List Lit
unfolding insert_set
set_lits c [] i set = set
set_lits c (l ∷ ls) i set = elim (c.state i) [
  | undecided ↦ set_lits c ls (suc i) set
  | active ↦ set_lits c ls (suc i) (insert_set l set)
  | inactive ↦ set_lits c ls (suc i) (insert_set (neg l) set)
]

-- The last loop of `initialize`.
unfoldable pub propagate_all :
    Solver → ConstraintRef → State → List Lit → Option (Solver × State × Bool)
unfolding propagate
propagate_all s self c [] = some (s, c, true)
propagate_all s self c (l ∷ ls) = elim (propagate s self c l) [
  | none ↦ none
  | some (t, d, done) ↦ elim done [ true ↦ propagate_all t self d ls | false ↦ some (t, d, false) ]
]

unfoldable pub initialize : Solver → ConstraintRef → State → Option (Solver × State × Bool)
unfolding read_values both_signs watch_all set_lits propagate_all
initialize s self c =
    let d = read_values s c.lits 0 c in
    propagate_all (watch_all s self (both_signs c.lits [])) self d (set_lits d c.lits 0 [])
