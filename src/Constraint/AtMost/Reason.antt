-- ===== src/Constraint/AtMost/Reason.antt =====
-- `calcReason` explains a conflict, and each literal that the constraint made true.
use glucose.Prelude.{
  subst, ◌≤◌, ◌<◌, ◌≡◌, ap, ◌∙◌, ◌≢◌, inl, inr, Bool, true, not, ◌&&◌, Option, none, some, List, [],
  ◌∷◌, arith, Bool-cases,
}
use glucose.Prelude.Lists.{In, All}
use glucose.Lit.{Lit, neg}
use glucose.Lit.Truth.{Assignment, holds, holds-neg}
use glucose.Lbool.{l_true, eq}
use glucose.Solver.{Solver, value}
use glucose.Constraint.Count.{count, Below, count_mono, count_tight}
use glucose.Constraint.AtMost.{AtMost, is_lit, true_but, calc_reason}
use glucose.Constraint.AtMost.Sound.{Meets}

-- The literals that the reason is made of.
abbrev pub explains : Solver → Option Lit → Lit → Bool
explains s p l = eq (value s l) l_true && not (is_lit p l)

true_but-holds :
    (a : Assignment) (s : Solver) (p : Option Lit) (ls : List Lit)
    → All (λ l. holds a l ≡ true) (true_but s p ls)
    → Below (holds a) (explains s p) ls
unfolding true_but
true_but-holds a s p [] h l m e = absurd m
true_but-holds a s p (k ∷ ls) h l m e = elim (Bool-cases (explains s p k)) [
  | inl t ↦
      let h' : All (λ l. holds a l ≡ true) (k ∷ true_but s p ls) = rw (t, true_but) at h in
      elim m [
        | inl same ↦ subst (λ l. holds a l ≡ true) same h'.0
        | inr more ↦ true_but-holds a s p ls h'.1 l more e
      ]
  | inr f ↦
      let h' : All (λ l. holds a l ≡ true) (true_but s p ls) = rw (f, true_but) at h in
      elim m [ inl same ↦ absurd (ground arith) | inr more ↦ true_but-holds a s p ls h' l more e ]
]

-- More literals are true than the constraint allows: then no assignment that meets it makes all
-- literals of the reason true. If the threshold is reached without `l`, and the literal explained is
-- the negation of `l`, then it is true in each assignment that meets the constraint and makes all
-- literals of the reason true.
pub at_most_reason-explains :
    (a : Assignment) (s : Solver) (c : AtMost)
    → Meets a c
    → (c.threshold < count (explains s none) c.lits
        → ¬ All (λ l. holds a l ≡ true) (calc_reason s c none none))
      × ((l : Lit)
          → In l c.lits
          → value s l ≢ l_true
          → c.threshold ≤ count (explains s (some (neg l))) c.lits
          → All (λ l. holds a l ≡ true) (calc_reason s c (some (neg l)) none)
          → holds a (neg l) ≡ true)
unfolding calc_reason
at_most_reason-explains a s c meets = (
  λ over h.
      let bound =
        count_mono (holds a) (explains s none) c.lits (true_but-holds a s none c.lits h) in
      omega (arith, bound),
  λ l m unset full h.
      holds-neg a l
      ∙ ap not (
          count_tight (holds a) (explains s (some (neg l))) c.lits
            (true_but-holds a s (some (neg l)) c.lits h) (omega arith) l m (ground arith)),
)
