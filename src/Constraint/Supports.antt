-- ===== src/Constraint/Supports.antt =====
-- constraints/DirectEncodingExtension.cc: the variables take one of the tuples of a table. The
-- literals of a variable say in turn which value it has. -1 is `none`: in a tuple any value, in
-- `known_values_` an unknown one, in `undo_list_` the end of what one literal did.
pub mod Undo
pub mod Table
pub mod Known
pub mod Sound
use glucose.Prelude.{
  ℕ, zero, suc, ◌+◌, ◌-◌, ◌*◌, ◌/◌, ◌%◌, ◌^◌, ◌≤◌, ◌<◌, ◌≡◌, refl, sym, ap, subst, ◌∙◌, ◌≢◌, ◌↔◌,
  ◌⊎◌, inl, inr, Bool, true, false, not, ◌&&◌, ◌||◌, Option, none, some, List, [], ◌∷◌, ◌++◌, map,
  arith, ltb, leb, ◌==◌, if◌then◌else◌, ==_iff, ==_refl, ==_ne, eq_of_==, Bool-cases, Option-cases,
  update, xor,
}
use glucose.Prelude.Lists.{length, get_or, set, replicate}
use mathlib.Core.List.{reverse}
use glucose.Lit.{Lit, neg, var}
use glucose.Lbool.{Lbool, l_true, l_false, l_undef, eq}
use glucose.Solver.{Solver, ConstraintRef, value, register_undo, enqueue, add_watch}
use glucose.Constraint.Linear.{Entry, entries_of, from_lit, insert_set, pop}

abbrev pub Tuple : Type 0
Tuple = List (Option ℕ)

pub record Supports : Type 0 where
  pub vars : List (List Lit)
  pub supports : List Tuple
  pub lits : List Entry
  pub known_values : Tuple
  pub undo_list : List (Option ℕ)
  pub active_lits : List Lit

-- The loop of the constructor over the variables, from variable `i` on, with the sort.
unfoldable pub all_lits : List (List Lit) → ℕ → List Entry
unfolding entries_of
all_lits [] i = []
all_lits (ls ∷ vars) i = entries_of ls i 0 (all_lits vars (suc i))

-- The constructor.
unfoldable pub supports_of : List (List Lit) → List Tuple → Supports
unfolding all_lits
supports_of vars supports = record {
  vars = vars;
  supports = supports;
  lits = all_lits vars 0;
  known_values = replicate (length vars) none;
  undo_list = [];
  active_lits = [];
}

abbrev unknown : Option ℕ → Bool
unknown none = true
unknown (some x) = false

abbrev same_value : Option ℕ → ℕ → Bool
same_value none j = false
same_value (some x) j = x == j

-- The statements of the first loop for a value that was not known.
unfoldable pub learn : Supports → ℕ → ℕ → Supports
learn c i j = record c {
  undo_list = some i ∷ c.undo_list;
  known_values = set c.known_values i (some j);
}

-- The first loop of `propagate`, over the entries of the literal `p`.
unfoldable pub learn_all : Lit → List Entry → Supports → Supports × Bool
learn_all p [] c = (c, true)
learn_all p ((l, i, j) ∷ es) c =
    let old = get_or c.known_values i none in
    let d = if unknown old then learn c i j else c in
    let rest = learn_all p es d in
    if l == p then (if unknown old || same_value old j then rest else (c, false)) else (c, true)

-- `x != y && x != -1 && y != -1` for none of the variables.
abbrev clashes : Option ℕ → Option ℕ → Bool
clashes none y = false
clashes (some x) none = false
clashes (some x) (some y) = not (x == y)

unfoldable pub matches : Tuple → Tuple → Bool
matches [] ys = true
matches (x ∷ xs) [] = true
matches (x ∷ xs) (y ∷ ys) = not (clashes x y) && matches xs ys

-- `supports_[i][j] + 1`
abbrev column : Option ℕ → ℕ
column none = 0
column (some x) = suc x

-- `occurrence[j][supports_[i][j] + 1] = 1` for each variable.
unfoldable pub mark : Tuple → List (List Bool) → List (List Bool)
mark xs [] = []
mark [] (row ∷ table) = row ∷ table
mark (x ∷ xs) (row ∷ table) = set row (column x) true ∷ mark xs table

unfoldable pub empty_table : List (List Lit) → List (List Bool)
empty_table vars = map (λ ls. replicate (length ls + 1) false) vars

-- The loop over the tuples: the table of the values that occur, and how many tuples match.
unfoldable pub occurrences : Tuple → List Tuple → List (List Bool) → ℕ → List (List Bool) × ℕ
unfolding matches mark
occurrences known [] table n = (table, n)
occurrences known (xs ∷ supports) table n =
    let fits = matches xs known in
    occurrences known supports (if fits then mark xs table else table) (if fits then n + 1 else n)

-- The loop over the literals of a variable, whose row starts with the column of value `j`.
unfoldable pub prune_var : Solver → ConstraintRef → List Lit → List Bool → Solver × Bool
prune_var s self [] row = (s, true)
prune_var s self (l ∷ ls) [] = (s, true)
prune_var s self (l ∷ ls) (seen ∷ row) =
    let (t, done) = if seen then (s, true) else enqueue s (neg l) self in
    let rest = prune_var t self ls row in if done then rest else (t, false)

-- The last loop: a variable whose first column is marked can take any value.
unfoldable pub prune : Solver → ConstraintRef → List (List Lit) → List (List Bool) → Solver × Bool
unfolding prune_var
prune s self [] table = (s, true)
prune s self (ls ∷ vars) [] = (s, true)
prune s self (ls ∷ vars) ([] ∷ table) = prune s self vars table
prune s self (ls ∷ vars) ((any ∷ row) ∷ table) =
    let (t, done) = if any then (s, true) else prune_var s self ls row in
    let rest = prune t self vars table in if done then rest else (t, false)

unfoldable pub start : Supports → Lit → Supports
start c p = record c { active_lits = p ∷ c.active_lits; undo_list = none ∷ c.undo_list }

-- What follows the first loop.
unfoldable pub react : Solver → ConstraintRef → Supports → Solver × Bool
unfolding occurrences empty_table prune
react s self c =
    let (table, n_match) = occurrences c.known_values c.supports (empty_table c.vars) 0 in
    if n_match == 0 then (s, false) else prune s self c.vars table

unfoldable pub propagate : Solver → ConstraintRef → Supports → Lit → Solver × Supports × Bool
unfolding start learn_all from_lit react
propagate s self c p =
    let s' = register_undo s (var p) self in
    let (d, ok) = learn_all p (from_lit p c.lits) (start c p) in
    let (t, done) = react s' self d in if ok then (t, d, done) else (s', d, false)

-- `p` is not read. The head of `active_lits_` is its back, and the reason starts at its front.
unfoldable pub calc_reason : Supports → Option Lit → List Lit
calc_reason c extra = reverse c.active_lits ++ (elim extra [ none ↦ [] | some e ↦ e ∷ [] ])

-- The loop of `undo`.
unfoldable pub unwind : List (Option ℕ) → Supports → Supports
unwind [] c = c
unwind (none ∷ us) c = record c { undo_list = us }
unwind (some i ∷ us) c =
    unwind us (record c { undo_list = us; known_values = set c.known_values i none })

unfoldable pub undo : Supports → Supports
unfolding unwind
undo c = let d = unwind c.undo_list c in record d { active_lits = pop d.active_lits }

-- std::set<Lit> with the literals.
unfoldable pub watchers : List Entry → List Lit
unfolding insert_set
watchers [] = []
watchers ((l, i, j) ∷ es) = insert_set l (watchers es)

unfoldable pub watch_all : Solver → ConstraintRef → List Lit → Solver
watch_all s self [] = s
watch_all s self (l ∷ ls) = watch_all (add_watch s l self) self ls

unfoldable pub propagate_true :
    Solver → ConstraintRef → Supports → List Lit → Solver × Supports × Bool
unfolding propagate
propagate_true s self c [] = (s, c, true)
propagate_true s self c (l ∷ ls) =
    let (t, d, done) = if eq (value s l) l_true then propagate s self c l else (s, c, true) in
    let rest = propagate_true t self d ls in if done then rest else (t, d, false)

unfoldable pub initialize : Solver → ConstraintRef → Supports → Solver × Supports × Bool
unfolding watchers watch_all propagate_true
initialize s self c =
    let ls = watchers c.lits in
    let (t, d, done) = propagate_true (watch_all s self ls) self c ls in
    if done then (t, d, not (length d.supports == 0 && ltb 0 (length d.vars))) else (t, d, false)
