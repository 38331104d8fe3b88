-- ===== src/Search/Inspect.antt =====
-- core/Solver.cc: what `propagate` finds in a clause that watches the negation of `p`.
use glucose.Prelude.{not, ◌&&◌, Option, none, some, List, [], ◌∷◌, ◌==◌, if◌then◌else◌}
use glucose.Lit.{Lit, neg}
use glucose.Lbool.{l_true, l_false, eq}
use glucose.Solver.{Solver, value}

-- The blocker is true, and nothing changes; or the clause in its new order, and its first literal,
-- with the first literal being true, another literal watched, the first literal being the only one
-- that is not false, or all being false.
pub data Visit : Type 0 where
  skip : Visit
  kept : List Lit → Lit → Visit
  moved : List Lit → Lit → Lit → Visit
  unit : List Lit → Lit → Visit
  clash : List Lit → Lit → Visit

-- The loop for another watch: the first literal that is not false, and the literals with
-- `false_lit` in its place.
unfoldable pub replace_watch : Solver → Lit → List Lit → Option (Lit × List Lit)
replace_watch s false_lit [] = none
replace_watch s false_lit (l ∷ ls) =
    let rest = replace_watch s false_lit ls in
    if not (eq (value s l) l_false)
    then some (l, false_lit ∷ ls)
    else (elim rest [ none ↦ none | some (m, ms) ↦ some (m, l ∷ ms) ])

-- After the swap that puts the false literal second.
unfoldable pub inspect_ordered : Solver → Lit → Lit → Lit → Lit → List Lit → Visit
unfolding replace_watch
inspect_ordered s p blocker first second rest =
    if not (first == blocker) && eq (value s first) l_true
    then kept (first ∷ second ∷ rest) first
    else (elim (replace_watch s (neg p) rest) [
      | some (l, rest') ↦ moved (first ∷ l ∷ rest') first l
      | none ↦
          if eq (value s first) l_false
          then clash (first ∷ second ∷ rest) first
          else unit (first ∷ second ∷ rest) first
    ])

-- A clause that is watched has two literals at least.
unfoldable pub inspect : Solver → Lit → Lit → List Lit → Visit
unfolding inspect_ordered
inspect s p blocker [] = skip
inspect s p blocker (x ∷ []) = skip
inspect s p blocker (x ∷ y ∷ rest) =
    if eq (value s blocker) l_true
    then skip
    else if x == neg p
    then inspect_ordered s p blocker y (neg p) rest
    else inspect_ordered s p blocker x y rest
