-- ===== src/Analyze/Trail.antt =====
-- The trail and its reasons, along which `analyze` walks.
use glucose.Prelude.{
  ◌≤◌, ◌<◌, ◌≡◌, refl, subst, inl, inr, true, false, Option, none, some, List, [], ◌∷◌, map, arith,
  update,
}
use glucose.Prelude.Lists.{All, In}
use glucose.Lit.{Lit, Var, neg, var}
use glucose.Lit.Laws.{var-neg, sign-neg, neg-neg}
use glucose.Lit.Truth.{Assignment, holds, holds-neg, satisfies}
use glucose.Lbool.{l_true, l_false}
use glucose.Solver.{
  Solver, CRef, ConstraintRef, Reason, no_reason, by_clause, by_constraint, value, decision_level,
}
use glucose.Solver.Cancel.{undo_each}
use glucose.Analyze.{Analysis, true_first}
use glucose.Analyze.Pending.{Apart, AreApart}
use glucose.Analyze.Marks.{IsLower, AreFalse}

-- The reasons that constraints give: `Holds` is what the constraints' states are to the trail that
-- is left. The reason of a literal, asked once the literal has been undone, is of literals before it
-- on the trail, and where they are all true in the assignment, so is the literal.
pub record ReasonLaws {X : Type 0} (a : Assignment) (s : Solver)
    (calc_reason : ConstraintRef → Solver → X → Option Lit → Option Lit → List Lit)
    (undo : ConstraintRef → Lit → X → X) : Type 1 where
  pub Holds : (Var → List ConstraintRef) → X → List Lit → Type 0
  pub undo_holds :
      (u : Var → List ConstraintRef) (x : X) (l : Lit) (ls : List Lit)
      → Holds u x (l ∷ ls)
      → Holds (update u (var l) []) (undo_each undo l (u (var l)) x) ls
  pub before :
      (u : Var → List ConstraintRef) (x : X) (l : Lit) (ls : List Lit) (c : ConstraintRef)
      → s.reason (var l) ≡ by_constraint c
      → Holds u x (l ∷ ls)
      → All
          (λ q. In q ls)
          (calc_reason c
            (record s { undo_lists = update u (var l) [] })
            (undo_each undo l (u (var l)) x)
            (some l)
            none)
  pub explains :
      (u : Var → List ConstraintRef) (x : X) (l : Lit) (ls : List Lit) (c : ConstraintRef)
      → s.reason (var l) ≡ by_constraint c
      → Holds u x (l ∷ ls)
      → All
          (λ q. holds a q ≡ true)
          (calc_reason c
            (record s { undo_lists = update u (var l) [] })
            (undo_each undo l (u (var l)) x)
            (some l)
            none)
      → holds a l ≡ true

-- The reason of a literal of the trail, before which are `ls`.
abbrev pub Founded : Assignment → Solver → (CRef → List Lit) → Lit → List Lit → Reason → Type 0
Founded a s ca l ls no_reason = All (λ m. s.level (var m) < s.level (var l)) ls
Founded a s ca l ls (by_clause cr) =
    (d : List Lit) × (true_first s (ca cr) ≡ l ∷ d) × AreFalse s ls d × (satisfies a (l ∷ d) ≡ true)
Founded a s ca l ls (by_constraint c) = Unit

-- A trail: its literals are true and of different variables, their levels do not fall, and a literal
-- has a clause or a constraint as its reason, or is the decision of its level.
abbrev pub IsTrail : Assignment → Solver → (CRef → List Lit) → List Lit → Type 0
IsTrail a s ca [] = Unit
IsTrail a s ca (l ∷ ls) =
    Founded a s ca l ls (s.reason (var l))
    × (value s l ≡ l_true)
    × (s.level (var l) ≤ decision_level s)
    × All (λ m. s.level (var m) ≤ s.level (var l)) ls
    × Apart (var l) ls
    × IsTrail a s ca ls

pub IsTrail-AreApart :
    (a : Assignment) (s : Solver) (ca : CRef → List Lit) (ls : List Lit)
    → IsTrail a s ca ls
    → AreApart ls
IsTrail-AreApart a s ca [] h = tt
IsTrail-AreApart a s ca (l ∷ ls) h = (h.4, IsTrail-AreApart a s ca ls h.5)

pub IsTrail-true :
    (a : Assignment) (s : Solver) (ca : CRef → List Lit) (ls : List Lit) (q : Lit)
    → IsTrail a s ca ls
    → In q ls
    → value s q ≡ l_true
IsTrail-true a s ca [] q h i = absurd i
IsTrail-true a s ca (l ∷ ls) q h (inl e) = subst (λ l. value s l ≡ l_true) e h.1
IsTrail-true a s ca (l ∷ ls) q h (inr i) = IsTrail-true a s ca ls q h.5 i

-- The last literal that is chosen, and the literals that are pushed.
abbrev pub Resolved : {X : Type 0} → Assignment → Solver → Option (Lit × Analysis X) → Type 0
Resolved a s none = ⊥
Resolved a s (some (p, t)) =
    (satisfies a (neg p ∷ t.out) ≡ true)
    × (value s (neg p) ≡ l_false)
    × (s.level (var (neg p)) ≡ decision_level s)
    × All (IsLower s) t.out

pub true_first-stays :
    (s : Solver) (l : Lit) (d : List Lit) → value s l ≡ l_true → true_first s (l ∷ d) ≡ l ∷ d
unfolding true_first
true_first-stays s l [] h = refl
true_first-stays s l (y ∷ []) h = rw h refl
true_first-stays s l (y ∷ z ∷ zs) h = refl

pub all_hold :
    (a : Assignment) (qs : List Lit)
    → satisfies a (map neg qs) ≡ false
    → All (λ q. holds a q ≡ true) qs
all_hold a [] h = tt
all_hold a (q ∷ qs) h =
    (ground (arith, holds-neg a q), all_hold a qs (ground (arith, holds-neg a q)))

pub negations_false :
    (a : Assignment) (s : Solver) (ca : CRef → List Lit) (ls qs : List Lit)
    → IsTrail a s ca ls
    → All (λ q. In q ls) qs
    → AreFalse s ls (map neg qs)
negations_false a s ca ls [] h i = tt
negations_false a s ca ls (q ∷ qs) h i =
    let t = IsTrail-true a s ca ls q h i.0 in
    (
      (rw (var-neg q, sign-neg q) (ground arith), rw (neg-neg q) i.0),
      negations_false a s ca ls qs h i.1,
    )
