-- ===== src/Analyze/Redundant/Sound.antt =====
-- The clause that is left where `ccmin_mode` is 2.
use glucose.Prelude.{
  ℕ, ◌+◌, ◌<◌, ◌≡◌, refl, sym, ap, subst, ◌∙◌, inl, inr, Bool, true, false, Option, none, some,
  List, [], ◌∷◌, arith, Bool-cases,
}
use glucose.Prelude.Lists.{All, All-In, In, In-All}
use glucose.Lit.{Lit, Var, neg, var}
use glucose.Lit.Laws.{var-neg}
use glucose.Lit.Truth.{Assignment, holds, holds-neg, satisfies, satisfies_inv}
use glucose.Lbool.{l_false}
use glucose.Solver.{Solver, CRef, Reason, no_reason, by_clause, by_constraint, value}
use glucose.Analyze.{true_first, others}
use glucose.Analyze.Marks.{IsRoot}
use glucose.Analyze.Trail.{IsTrail, Founded}
use glucose.Analyze.Minimise.{AreMarks, none_holds}
use glucose.Analyze.Redundant.{has_clause, keep_irredundant}
use glucose.Analyze.Redundant.Visit.{IsFalse}
use glucose.Analyze.Redundant.Closed.{Explained}
use glucose.Analyze.Redundant.Kept.{Known, Kept, keep_irredundant-Kept}

-- What is left of the clause with the first literal `q`.
abbrev pub IsSmaller :
    Assignment → Solver → Lit → List Lit → Option (List Lit × (Var → Bool)) → Type 0
IsSmaller a s q qs none = ⊥
IsSmaller a s q qs (some (rest, t)) =
    (satisfies a (q ∷ rest) ≡ true) × ((p : Lit) → In p rest → In p qs)

module _ (a : Assignment) (s : Solver) (ca : CRef → List Lit) (n levels : ℕ)
    (trail : IsTrail a s ca s.trail) (in_range : All (λ l. var l < n) s.trail) (root : IsRoot a s)
    (seen : Var → Bool) (rest : List Lit) (k : Known a s ca n levels trail in_range seen [] rest)
    (all_false : All (λ q. holds a q ≡ false) rest) where
  -- A literal that is explained follows from the literals before it.
  Explained-holds :
      (r : Reason) (l : Lit) (ls : List Lit)
      → s.reason (var l) ≡ r
      → Founded a s ca l ls r
      → Explained s ca seen l
      → ((m : Lit) → In m ls → seen (var m) ≡ true → holds a m ≡ true)
      → holds a l ≡ true
  Explained-holds no_reason l ls e found (cr, f, x) rec =
      absurd (ground (arith, ap has_clause (sym e ∙ f)))
  Explained-holds (by_constraint c) l ls e found (cr, f, x) rec =
      absurd (ground (arith, ap has_clause (sym e ∙ f)))
  Explained-holds (by_clause cb) l ls e found (cr, f, x) rec =
      let (d, first, false_, sat) = found in
      let same : cb ≡ cr = ap (reason_clause cr) (sym e ∙ f) in
      let first' : true_first s (ca cr) ≡ l ∷ d =
        subst (λ c. true_first s (ca c) ≡ l ∷ d) same first in
      elim (Bool-cases (holds a l)) [
        | inl t ↦ t
        | inr wrong ↦
            let (q, i, t) = satisfies_inv a d (ground arith) in
            let fq = All-In (λ q. (value s q ≡ l_false) × In (neg q) ls) d false_ i in
            elim (x q (subst (In q) (sym (ap others first')) i)) [
              | inr low ↦ absurd (ground (arith, root q fq.0 low))
              | inl marked ↦
                  absurd (ground (arith, rec (neg q) fq.1 (rw (var-neg q) marked), holds-neg a q))
            ]
      ]
    where
      reason_clause : CRef → Reason → CRef
      reason_clause d no_reason = d
      reason_clause d (by_clause c) = c
      reason_clause d (by_constraint c) = d

  seen_hold :
      (ls : List Lit)
      → IsTrail a s ca ls
      → ((m : Lit) → In m ls → In m s.trail)
      → (m : Lit) → In m ls
      → seen (var m) ≡ true
      → holds a m ≡ true
  seen_hold [] is sub m i h = absurd i
  seen_hold (l ∷ ls) is sub m (inr i) h = seen_hold ls is.5 (λ m i. sub m (inr i)) m i h
  seen_hold (l ∷ ls) is sub m (inl e) h =
      let h' : seen (var l) ≡ true = rw e h in
      subst (λ m. holds a m ≡ true) e
        (elim (k.known l (sub l (inl refl)) h') [
          | inl j ↦ absurd j
          | inr (inl j) ↦
              ground (arith, holds-neg a l, All-In (λ q. holds a q ≡ false) rest all_false j)
          | inr (inr x) ↦
              Explained-holds (s.reason (var l)) l ls refl is.0 x
                (seen_hold ls is.5 (λ m i. sub m (inr i)))
        ])

smaller :
    (a : Assignment) (s : Solver) (ca : CRef → List Lit) (n levels : ℕ)
    (trail : IsTrail a s ca s.trail) (in_range : All (λ l. var l < n) s.trail) (seen : Var → Bool)
    (q : Lit) (qs : List Lit) (r : Option (List Lit × (Var → Bool)))
    → IsRoot a s
    → AreMarks s seen qs
    → satisfies a (q ∷ qs) ≡ true
    → Kept a s ca n levels trail in_range seen [] qs r
    → IsSmaller a s q qs r
smaller a s ca n levels trail in_range seen q qs none root marks sat k = absurd k
smaller a s ca n levels trail in_range seen q qs (some (rest, t)) root marks sat k = (
  elim (Bool-cases (satisfies a (q ∷ rest))) [
    | inl h ↦ h
    | inr h ↦
        let all_false = none_holds a rest (ground arith) in
        let (p, i, tr) = satisfies_inv a qs (ground arith) in
        let mine = All-In (λ q. (seen (var q) ≡ true) × In (neg q) s.trail) qs marks.0 i in
        let opposite =
          seen_hold a s ca n levels trail in_range root t rest k.1 all_false s.trail trail
            (λ m i. i) (neg p) mine.1 (rw (var-neg p) (k.0 (var p) mine.0)) in
        absurd (ground (arith, opposite, holds-neg a p))
  ],
  k.2,
)

-- Let the trail be one whose literals, of the first `n` variables, have clauses or constraints as
-- reasons, which are right in the assignment, as are the values of level 0, and let the marks be
-- those of the literals of the learnt clause but for its first one, which are false. Then
-- `litRedundant` needs no more than `n` rounds and one more for each literal, whatever the abstraction
-- of the levels is, and removing the literals for which it returns true leaves a clause that is true
-- in the assignment, if the learnt clause is, and has no new literal.
pub keep_irredundant-IsSmaller :
    (a : Assignment) (s : Solver) (ca : CRef → List Lit) (n levels fuel : ℕ) (seen : Var → Bool)
    (q : Lit) (qs : List Lit)
    → n + 1 < fuel
    → IsRoot a s
    → IsTrail a s ca s.trail
    → All (λ l. var l < n) s.trail
    → AreMarks s seen qs
    → All (λ p. value s p ≡ l_false) qs
    → satisfies a (q ∷ qs) ≡ true
    → IsSmaller a s q qs (keep_irredundant s levels fuel qs ca seen)
keep_irredundant-IsSmaller a s ca n levels fuel seen q qs lt root is range marks f sat =
    let are : All (IsFalse s n) qs = In-All qs (λ p i.
      let mine = All-In (λ q. (seen (var q) ≡ true) × In (neg q) s.trail) qs marks.0 i in
      let small = All-In (λ l. var l < n) s.trail range mine.1 in
      (All-In (λ p. value s p ≡ l_false) qs f i, mine.1, omega (arith, var-neg p, small))) in
    smaller a s ca n levels is range seen q qs (keep_irredundant s levels fuel qs ca seen) root
      marks sat
      (keep_irredundant-Kept a s ca n levels is range fuel qs [] ca seen lt are (λ cr. refl)
        (record { known = λ l i h. inr (inl (marks.1 l i h)) }))
